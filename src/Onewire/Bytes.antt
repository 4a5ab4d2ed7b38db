-- ===== src/Onewire/Bytes.antt =====
-- The bytes of the 1-wire driver against sequences of slots, the least significant bit first.
mod Tests
use bpm_gw.Base.{
  ℤ, ℕ, zero, suc, ◌+◌, ◌*◌, ◌/◌, ◌%◌, ◌^◌, ◌≤◌, ◌<◌, ◌≡◌, refl, sym, ap, ◌∙◌, inl, inr, Option,
  none, some, List, [], ◌∷◌, bit_and, bit_or, arith, ◌==◌, ltb, if◌then◌else◌, ◌>>=◌, Option-cases,
  some_inj, >>=-eq-some, replicate,
}
use bpm_gw.Base.Bits.{bit_and_mask, bit_or_split, bit_or-zero, zero-bit_or}
use bpm_gw.Bus.{Bus, wait, ok, failed}
use bpm_gw.Onewire.{
  owr_csr_cyc, owr_csr_dat, owr_csr_sel, oc_owr_slot, read_loop, read_byte, write_loop, write_byte,
}
use native.Mathlib.Nat.{pow-suc, one-le-pow, pow-le-pow_right}

-- The sum of the bits with their weights, the first one with the weight 2 ^ i.
abbrev pub value_at : ℕ → List ℕ → ℕ
value_at i [] = 0
value_at i (b ∷ bs) = b * 2 ^ i + value_at (suc i) bs

-- The `n` low bits of a word.
abbrev pub bits_of : ℕ → ℕ → List ℕ
bits_of zero v = []
bits_of (suc n) v = v % 2 ∷ bits_of n (v / 2)

or_bit :
    (i b acc : ℕ)
    → b ≤ 1
    → acc < 2 ^ i
    → i < 32
    → bit_or acc ((b * 2 ^ i) % 2 ^ 32) ≡ acc + b * 2 ^ i
or_bit i b acc hb hd hi =
    let small : 2 ^ i ≤ 2 ^ 31 = pow-le-pow_right (omega arith) {j = 31} (omega arith) in
    let word : b * 2 ^ i < 2 ^ 32 = bit_word b hb in
    ground (arith, small, word, bit_or_split i 0 acc b 0, zero-bit_or b, bit_or-zero acc)
  where
    bit_word : (b : ℕ) → b ≤ 1 → b * 2 ^ i < 2 ^ 32
    bit_word zero hb = omega arith
    bit_word (suc zero) hb =
        let small : 2 ^ i ≤ 2 ^ 31 = pow-le-pow_right (omega arith) {j = 31} (omega arith) in
        omega (arith, small)
    bit_word (suc (suc b)) hb = absurd (omega arith)

module _ {S : Type 0} (bus : Bus S) (fuel a port : ℕ) where
  -- The slots for a sequence of bits, and the bits that come back.
  unfoldable pub slots : List ℕ → S → Option (List ℕ × S)
  slots [] s = some ([], s)
  slots (b ∷ bs) s =
      oc_owr_slot bus fuel a port b s >>= λ r. slots bs r.1 >>= λ q. some (r.0 ∷ q.0, q.1)

  slot-bit : (b : ℕ) (s : S) (r : ℕ × S) → oc_owr_slot bus fuel a port b s ≡ some r → r.0 ≤ 1
  unfolding oc_owr_slot
  slot-bit b s r e =
      let (s1, e1, e2) =
        >>=-eq-some
          (wait bus fuel a owr_csr_cyc (
            bus.write s a (bit_or (bit_or (owr_csr_sel port) owr_csr_cyc) (bit_and b owr_csr_dat))))
          _ e in
      omega (arith, bit_and_mask 1 (bus.read s1 a).0, ap (λ (q : ℕ × S). q.0) (some_inj e2))

  -- A bit in front of those that come back later.
  abbrev cons_bit : ℕ → Option (List ℕ × S) → Option (List ℕ × S)
  cons_bit b m = m >>= λ q. some (b ∷ q.0, q.1)

  -- What has come back added to `acc`, from the bit `i` on.
  abbrev pub total : ℕ → ℕ → Option (List ℕ × S) → Option (ℕ × S)
  total i acc m = m >>= λ q. some (acc + value_at i q.0, q.1)

  total-cons_bit :
      (m : Option (List ℕ × S)) (i b acc : ℕ)
      → total (suc i) (acc + b * 2 ^ i) m ≡ total i acc (cons_bit b m)
  total-cons_bit none i b acc = refl
  total-cons_bit (some q) i b acc =
      let sum : acc + b * 2 ^ i + value_at (suc i) q.0 ≡ acc + (b * 2 ^ i + value_at (suc i) q.0) =
        omega arith in
      rw sum refl

  below_next : (i b acc : ℕ) → b ≤ 1 → acc < 2 ^ i → acc + b * 2 ^ i < 2 ^ suc i
  below_next i zero acc hb hd = omega (arith, pow-suc 2 i)
  below_next i (suc zero) acc hb hd = omega (arith, pow-suc 2 i)
  below_next i (suc (suc b)) acc hb hd = absurd (omega arith)

  -- One round of a loop over slots: a bit comes back, and the rest of the loop goes on from there.
  round :
      (i acc : ℕ) (o : Option (ℕ × S)) (next : ℕ → S → Option (ℕ × S))
      (rest : S → Option (List ℕ × S))
      → acc < 2 ^ i
      → i < 32
      → ((r : ℕ × S) → o ≡ some r → r.0 ≤ 1)
      → ((acc' : ℕ) (s : S) → acc' < 2 ^ suc i → next acc' s ≡ total (suc i) acc' (rest s))
      → (o >>= λ r. next (bit_or acc ((r.0 * 2 ^ i) % 2 ^ 32)) r.1)
        ≡ total i acc (o >>= λ r. cons_bit r.0 (rest r.1))
  round i acc none next rest hd hi bit ih = refl
  round i acc (some r) next rest hd hi bit ih =
      let hb = bit r refl in
      rw (or_bit i r.0 acc hb hd hi) (
        ih (acc + r.0 * 2 ^ i) r.1 (below_next i r.0 acc hb hd)
        ∙ total-cons_bit (rest r.1) i r.0 acc)

  abbrev result : S → ℕ → Option (ℕ × S)
  result s acc = some (acc, s)

  nothing_more : (acc : ℕ) (s : S) → result s acc ≡ result s (acc + 0)
  nothing_more acc s = let sum : acc ≡ acc + 0 = omega arith in ap (result s) sum

  read_loop-slots :
      (n i acc : ℕ) (s : S)
      → acc < 2 ^ i
      → i + n ≤ 32
      → read_loop bus fuel a port n i acc s ≡ total i acc (slots (replicate n 1) s)
  unfolding read_loop slots
  read_loop-slots zero i acc s hd hn = nothing_more acc s
  read_loop-slots (suc n) i acc s hd hn =
      round i acc (oc_owr_slot bus fuel a port 1 s) (read_loop bus fuel a port n (suc i))
        (slots (replicate n 1)) hd (omega (arith, hn)) (slot-bit 1 s)
        λ acc' t h. read_loop-slots n (suc i) acc' t h (omega (arith, hn))

  write_loop-slots :
      (n i acc v : ℕ) (s : S)
      → acc < 2 ^ i
      → i + n ≤ 32
      → write_loop bus fuel a port n i acc v s ≡ total i acc (slots (bits_of n v) s)
  unfolding write_loop slots
  write_loop-slots zero i acc v s hd hn = nothing_more acc s
  write_loop-slots (suc n) i acc v s hd hn = rw (bit_and_mask 1 v) (
      round i acc (oc_owr_slot bus fuel a port (v % 2) s)
        (λ acc' t. write_loop bus fuel a port n (suc i) acc' (v / 2) t) (slots (bits_of n (v / 2)))
        hd (omega (arith, hn)) (slot-bit (v % 2) s)
        λ acc' t h. write_loop-slots n (suc i) acc' (v / 2) t h (omega (arith, hn)))

  -- The bits that come back from the slots, added up.
  abbrev pub added : Option (List ℕ × S) → Option (ℕ × S)
  added m = m >>= λ r. some (value_at 0 r.0, r.1)

  abbrev pub received : List ℕ → S → Option (ℕ × S)
  received bs s = added (slots bs s)

  total-added : (m : Option (List ℕ × S)) → total 0 0 m ≡ added m
  total-added none = refl
  total-added (some q) =
      let sum : 0 + value_at 0 q.0 ≡ value_at 0 q.0 = omega arith in ap (result q.1) sum

  -- The return code of `write_byte`, by what has come back.
  abbrev pub verdict : ℕ → Option (ℕ × S) → Option (ℤ × S)
  verdict in_byte m = m >>= λ r. some ((if r.0 == in_byte then ok else failed), r.1)

  -- `read_byte` issues eight slots with a 1 and gives the sum of the bits that come back, each with its
  -- weight, the least significant bit first.
  pub read_byte-received : (s : S) → read_byte bus fuel a port s ≡ received (replicate 8 1) s
  unfolding read_byte
  read_byte-received s =
      read_loop-slots 8 0 0 s (omega arith) (omega arith) ∙ total-added (slots (replicate 8 1) s)

  -- `write_byte` issues a slot for each of the eight low bits of its argument, the least significant
  -- bit first, and returns 0 exactly if the sum of the weighted bits that come back is the whole
  -- argument, and -1 if not.
  pub write_byte-received :
      (in_byte : ℕ) (s : S)
      → write_byte bus fuel a port in_byte s ≡ (
          received (bits_of 8 in_byte) s >>= λ r.
          some ((if r.0 == in_byte then ok else failed), r.1))
  unfolding write_byte
  write_byte-received in_byte s = ap (verdict in_byte) (
      write_loop-slots 8 0 0 in_byte s (omega arith) (omega arith)
      ∙ total-added (slots (bits_of 8 in_byte) s))

  -- A bus on which every slot ends and gives back the bit that was written: no device pulls the line.
  abbrev pub Echoes : Type 0
  Echoes = (b : ℕ) (s : S) → b ≤ 1 → (s' : S) × (oc_owr_slot bus fuel a port b s ≡ some (b, s'))

  slots-Echoes :
      (n v : ℕ) (s : S) → Echoes → (s' : S) × (slots (bits_of n v) s ≡ some (bits_of n v, s'))
  unfolding slots
  slots-Echoes zero v s h = (s, refl)
  slots-Echoes (suc n) v s h =
      let (s1, e1) = h (v % 2) s (omega arith) in
      let (s2, e2) = slots-Echoes n (v / 2) s1 h in (s2, rw (e1, e2) refl)

  byte_value : (v : ℕ) → value_at 0 (bits_of 8 v) ≡ v % 256
  byte_value v = omega arith

  -- Where each slot ends and gives back the bit that was written, `write_byte` ends; it returns 0 for
  -- an argument below 256 and -1 for any other.
  pub write_byte-Echoes :
      (in_byte : ℕ) (s : S)
      → Echoes
      → (s' : S) × (write_byte bus fuel a port in_byte s
          ≡ some ((if ltb in_byte 256 then ok else failed), s'))
  write_byte-Echoes in_byte s h =
      let (s', e) = slots-Echoes 8 in_byte s h in
      let same : (in_byte % 256 == in_byte) ≡ ltb in_byte 256 = ground arith in
      (s', rw (write_byte-received in_byte s, e, byte_value in_byte, same) refl)
