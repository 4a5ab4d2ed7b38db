-- ===== src/Ethmac/Waiting.antt =====
-- history/embedded-sw/lib/ethmac/ethmac.c: the loop of `tx_packet` that waits for a free descriptor.
use bpm_gw.Base.{
  ℕ, zero, suc, ◌+◌, ◌<◌, ◌≤◌, ◌≡◌, refl, ap, subst, ◌∙◌, sym, Bool, true, false, some, List,
  length, if◌then◌else◌, ◌==◌, Bool-cases, inl, inr, arith,
}
use bpm_gw.Ethmac.{Ethmac, in_use, in_use_at, submit, tx_loop, tx_packet, oeth_tx}
use bpm_gw.Ethmac.Flags.{irq_cleared}
use bpm_gw.Ethmac.Frames.{frame, is_ready, oeth_tx_lem}
use bpm_gw.Ethmac.Sending.{submit-ready, submit-frame_self}

-- The handler frees the next descriptor if its frame has been sent.
freed : (u : Ethmac) → u.tx_next < 8 → is_ready u u.tx_next ≡ false → in_use (oeth_tx u) ≡ false
unfolding oeth_tx
freed u h r = ground (arith, oeth_tx_lem u u.tx_next h, irq_cleared (u.tx_bd u.tx_next).len_status)

-- Between two polls the core does something, and then its interrupt is handled if it is raised.
abbrev pub turn : (ℕ → Ethmac → Ethmac) → (ℕ → Bool) → ℕ → Ethmac → Ethmac
turn core raised n s = if raised n then oeth_tx (core n s) else core n s

module _ (core : ℕ → Ethmac → Ethmac) (raised : ℕ → Bool) (m k : ℕ)
    (keeps : (n : ℕ) (s : Ethmac) → (core n s).tx_next ≡ s.tx_next)
    (done : (n : ℕ) (s : Ethmac) → m ≤ n → is_ready (core n s) s.tx_next ≡ false) (after : m ≤ k)
    (told : raised k ≡ true) where
  turn_keeps : (n : ℕ) (s : Ethmac) → (turn core raised n s).tx_next ≡ s.tx_next
  unfolding oeth_tx
  turn_keeps n s = ground (arith, keeps n s)

  turn_frees : (s : Ethmac) → s.tx_next < 8 → in_use (turn core raised k s) ≡ false
  turn_frees s h =
      let e = keeps k s in
      let r : is_ready (core k s) (core k s).tx_next ≡ false = rw e (done k s after) in
      rw told (freed (core k s) (omega arith) r)

  tx_loop-from :
      (fuel n : ℕ) (d : List ℕ) (s : Ethmac) (cur : ℕ)
      → s.tx_next ≡ cur
      → cur < 8
      → n ≤ k
      → k + 1 < n + fuel
      → (u : Ethmac) × (tx_loop (turn core raised) cur fuel n d s ≡ some (submit d u))
        × (u.tx_next ≡ cur)
  unfolding tx_loop submit
  tx_loop-from zero n d s cur at_cur h le lt = absurd (omega arith)
  tx_loop-from (suc zero) n d s cur at_cur h le lt = absurd (omega arith)
  tx_loop-from (suc (suc fuel)) n d s cur at_cur h le lt = elim (Bool-cases (in_use_at cur s)) [
    | inr free ↦ (s, rw (free, at_cur) refl, at_cur)
    | inl busy ↦ elim (Bool-cases (n == k)) [
      | inl e ↦
          let at : n ≡ k = ground arith in
          let s1 = turn core raised n s in
          let same : s1.tx_next ≡ cur = turn_keeps n s ∙ at_cur in
          let gone : in_use_at s1.tx_next s1 ≡ false =
            rw at (turn_frees s (omega (arith, at_cur, h))) in
          let free : in_use_at cur s1 ≡ false =
            subst (λ (c : ℕ). in_use_at c s1 ≡ false) same gone in
          (s1, rw (busy, free, same) refl, same)
      | inr ne ↦
          let (u, e, same) =
            tx_loop-from (suc fuel) (suc n) d (turn core raised n s) cur (turn_keeps n s ∙ at_cur) h
              (ground arith) (omega arith) in
          (u, rw busy e, same)
    ]
  ]

  -- Where the core has sent every frame by the poll `m`, and its interrupt is handled after the poll
  -- `k`, which is `m` or a later one, and the fuel is more than `k + 1`, `tx_packet` on a frame of at
  -- most 2048 bytes ends, and then the frame is in the descriptor that was next, which the core owns.
  pub tx_packet-frame :
      (fuel : ℕ) (d : List ℕ) (s : Ethmac)
      → s.tx_next < 8
      → length d ≤ 2048
      → k + 1 < fuel
      → (t : Ethmac) × (tx_packet (turn core raised) fuel 0 d s ≡ some t)
        × (is_ready t s.tx_next ≡ true)
        × (frame t s.tx_next ≡ d)
  unfolding tx_packet
  tx_packet-frame fuel d s h small enough =
      let (u, e, same) = tx_loop-from fuel 0 d s s.tx_next refl h (omega arith) (omega arith) in
      (
        submit d u,
        e,
        ap (is_ready (submit d u)) (sym same) ∙ submit-ready u d,
        ap (frame (submit d u)) (sym same) ∙ submit-frame_self u d small,
      )
