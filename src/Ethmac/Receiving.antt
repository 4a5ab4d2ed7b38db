-- ===== src/Ethmac/Receiving.antt =====
-- history/embedded-sw/lib/ethmac/ethmac.c: the frames that `oeth_check_rx_bd` finds and that
-- `rx_packet` gives to the caller.
use bpm_gw.Base.{
  ℕ, zero, suc, ◌+◌, ◌/◌, ◌^◌, ◌<◌, ◌≤◌, ◌≡◌, refl, ap, ◌∙◌, Bool, true, false, ◌||◌, List, length,
  ℤ, pos, negsuc, if◌then◌else◌, ◌==◌, ==_self, Bool-cases, bit_and, bit_or, inl, inr, arith,
}
use bpm_gw.Base.Bits.{or_and, le-bit_or, bit_and_comm}
use bpm_gw.Ethmac.{
  Ethmac, test, set_status, read_bytes, emptied, rx_bad, check_loop, oeth_check_rx_bd, rx_packet,
  rx_bd_empty,
}
use bpm_gw.Ethmac.Frames.{IsValid, read-write_apart}
use bpm_gw.Ethmac.Steps.{after_receiving}

-- A test for two masks is a test for both.
test_either : (v a b : ℕ) → test v (bit_or a b) ≡ (test v a || test v b)
test_either v a b = ground (
  arith,
  bit_and_comm v (bit_or a b),
  or_and a b v,
  bit_and_comm v a,
  bit_and_comm v b,
  le-bit_or (bit_and a v) (bit_and b v),
)

-- The six tests are one for all errors but `INVSIMB`.
rx_bad_lem : (v : ℕ) → rx_bad v ≡ test v 0xdf
rx_bad_lem v = ground (
  arith,
  test_either v 0xc 0x10,
  test_either v 0x1c 0x2,
  test_either v 0x1e 0x40,
  test_either v 0x5e 0x80,
  test_either v 0xde 0x1,
)

-- What a call does with the descriptor `i`.
abbrev pub found : Ethmac → ℕ → ℤ × Ethmac
found s i =
    let v = (s.rx_bd i).len_status in
    let given_back : Ethmac = record s { rx_bd = set_status s.rx_bd i (emptied v) } in
    if test v 0xdf then (negsuc 0, given_back) else (pos (v / 2 ^ 16), record s { rx_cur = i })

-- whether the core owns a receive descriptor
abbrev pub is_empty : Ethmac → ℕ → Bool
is_empty s i = test (s.rx_bd i).len_status rx_bd_empty

module _ (s : Ethmac) (i : ℕ) (full : is_empty s i ≡ false) where
  check_loop-found :
      (n j : ℕ)
      → j ≤ i
      → i < j + n
      → ((l : ℕ) → j ≤ l → l < i → is_empty s l ≡ true)
      → check_loop n j s ≡ found s i
  unfolding check_loop
  check_loop-found zero j le lt before = absurd (omega arith)
  check_loop-found (suc n) j le lt before = elim (Bool-cases (j == i)) [
    | inl e ↦ let at : j ≡ i = ground arith in rw (at, full, rx_bad_lem (s.rx_bd i).len_status) refl
    | inr ne ↦ rw (before j (omega arith) (ground arith)) (
        check_loop-found n (suc j) (ground arith) (omega arith) (λ l p q. before l (omega arith) q))
  ]

  pub oeth_check_rx_bd-found :
      i < 8 → ((l : ℕ) → l < i → is_empty s l ≡ true) → oeth_check_rx_bd s ≡ found s i
  unfolding oeth_check_rx_bd
  oeth_check_rx_bd-found h before =
      check_loop-found 8 0 (omega arith) (omega arith) (λ l p q. before l q)

-- Where the receive descriptors before `i` are empty and the core has received a frame there, with no
-- error in its status and its length, `oeth_check_rx_bd` returns the length, and then `rx_packet` gives
-- the caller the bytes of the buffer of the first transmit descriptor, as they were before the frame
-- came.
pub rx_packet-tx_bd :
    (base : ℕ) (s : Ethmac) (i w : ℕ) (d : List ℕ)
    → IsValid base s
    → i < 8
    → ((l : ℕ) → l < i → is_empty s l ≡ true)
    → length d ≤ 2048
    → test w rx_bd_empty ≡ false
    → test w 0xdf ≡ false
    → w / 2 ^ 16 ≡ length d
    → (t : Ethmac) × (oeth_check_rx_bd (after_receiving i w d s) ≡ (pos (length d), t))
      × ((rx_packet (length d) t).0 ≡ read_bytes s.memory (s.tx_bd 0).addr (length d))
unfolding rx_packet
rx_packet-tx_bd base s i w d v h before small full good len =
    let u = after_receiving i w d s in
    let start = v.starts in
    let first = v.tx_addr 0 (omega arith) in
    let at = v.rx_addr i h in
    let same : s.buf ≡ (s.tx_bd 0).addr = omega arith in
    let word : (u.rx_bd i).len_status ≡ w = rw (==_self i) refl in
    (
      record u { rx_cur = i },
      oeth_check_rx_bd-found u i (rw word full) h (λ l p. ground (arith, before l p))
          ∙ rw (word, good, len) refl,
      read-write_apart s.memory (s.rx_bd i).addr s.buf (length d) d (omega arith)
          ∙ ap (λ (a : ℕ). read_bytes s.memory a (length d)) same,
    )
