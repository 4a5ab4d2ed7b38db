-- ===== src/Fmc516/Isla/Bytes.antt =====
-- history/embedded-sw/fmc/fmc516/isla216p25.c: the bytes that are read from a chip.
mod Tests
use bpm_gw.Base.{
  ℕ, zero, suc, ◌+◌, ◌-◌, ◌*◌, ◌/◌, ◌%◌, ◌^◌, ◌<◌, ◌≤◌, ◌≡◌, refl, ap, ap₂, ◌∙◌, sym, true, Option,
  some, List, [], ◌∷◌, bit_and, bit_or, ◌>>=◌, arith,
}
use bpm_gw.Base.Bits.{
  bit_and_mask, bit_or_split, bit_or-zero, zero-bit_or, bit_or_parts, bit_or_low,
}
use native.Mathlib.Nat.{pow-suc, one-le-pow, mod-eq_of_lt}
use bpm_gw.Bus.{Bus}
use bpm_gw.Spi.{spi_rx0}
use bpm_gw.Spi.Transfer.{Log, Exchange, Core}
use bpm_gw.Spi.ThreeMode.{
  Answers, exchanged, tx_control, rx_control, oc_spi_three_mode_tx-log, oc_spi_three_mode_rx-log,
}
use bpm_gw.Fmc516.Isla.{
  instaddr, isla_length, isla_addr, isla_read, fmc516_isla216_write_instaddr,
  fmc516_isla216_readw_raw, isla_read_loop, fmc516_isla216_read_n,
}

-- The number that bytes stand for, the lowest first.
abbrev pub little_endian : List ℕ → ℕ
little_endian [] = 0
little_endian (b ∷ bs) = b + 256 * little_endian bs

shift_suc : (i : ℕ) → 2 ^ (8 * suc i) ≡ 256 * 2 ^ (8 * i)
shift_suc i =
    let n = 8 * i in
    let e : 8 * suc i ≡ suc (suc (suc (suc (suc (suc (suc (suc n))))))) = omega arith in
    ap (λ (t : ℕ). 2 ^ t) e ∙ simp (pow-suc) (omega arith)

-- A disjunction of a word below `2 ^ k` and a multiple of it is their sum.
above : (k q r : ℕ) → r < 2 ^ k → bit_or r (q * 2 ^ k) ≡ q * 2 ^ k + r
above k q r h = ground (arith, one-le-pow k 2, bit_or_split k 0 r q 0, zero-bit_or q, bit_or-zero r)

isla_length_small : (n : ℕ) → n < 4 → isla_length n ≡ n * 2 ^ 13
isla_length_small zero h = refl
isla_length_small (suc zero) h = refl
isla_length_small (suc (suc zero)) h = refl
isla_length_small (suc (suc (suc zero))) h = refl
isla_length_small (suc (suc (suc (suc n)))) h = absurd (omega arith)

-- the fields of an instruction that reads
instaddr-fields :
    (addr length : ℕ)
    → addr < 2 ^ 13
    → 1 ≤ length
    → length ≤ 4
    → instaddr addr length true ≡ 2 ^ 15 + (length - 1) * 2 ^ 13 + addr
unfolding instaddr
instaddr-fields addr length h lo hi =
    let same : (length + 2 ^ 32 - 1) % 2 ^ 32 ≡ length - 1 = omega arith in
    let low : isla_addr addr ≡ addr = omega (arith, bit_and_mask 13 addr) in
    let mid = isla_length_small (length - 1) (omega arith) in
    let word = above 13 (length - 1) addr h in
    let top = above 15 1 ((length - 1) * 2 ^ 13 + addr) (omega arith) in
    rw (same, low, mid, word, top) (omega arith)

-- a byte above what has been gathered
joined :
    (i ret b : ℕ)
    → i < 4
    → ret < 2 ^ (8 * i)
    → b < 256
    → bit_or ret (b * 2 ^ (8 * i) % 2 ^ 32) ≡ b * 2 ^ (8 * i) + ret
joined zero ret b h r k =
    let small : b * 1 % 2 ^ 32 ≡ b * 1 = omega arith in rw small (above 0 b ret r)
joined (suc zero) ret b h r k =
    let small : b * 256 % 2 ^ 32 ≡ b * 256 = omega arith in rw small (above 8 b ret r)
joined (suc (suc zero)) ret b h r k =
    let small : b * 65536 % 2 ^ 32 ≡ b * 65536 = omega arith in rw small (above 16 b ret r)
joined (suc (suc (suc zero))) ret b h r k =
    let small : b * 16777216 % 2 ^ 32 ≡ b * 16777216 = omega arith in rw small (above 24 b ret r)
joined (suc (suc (suc (suc i)))) ret b h r k = absurd (omega arith)

byte_below : (b p r : ℕ) → b < 256 → r < p → b * p + r < 256 * p
byte_below b p r h k = grind arith

gather : (b p r l : ℕ) → b * p + r + 256 * p * l ≡ r + p * (b + 256 * l)
gather b p r l = grind arith

masked : (k ret mask : ℕ) → ret < 2 ^ k → mask ≡ 2 ^ k - 1 → bit_and ret mask ≡ ret + 2 ^ k * 0
masked k ret mask h e =
    ap (λ (m : ℕ). bit_and ret m) e ∙ bit_and_mask k ret ∙ mod-eq_of_lt h ∙ omega arith

-- What a round of the loop makes of the word that it hears.
round_ret :
    (i ret word : ℕ)
    → i < 4
    → ret < 2 ^ (8 * i)
    → bit_or ret (bit_and word 0xff * 2 ^ (8 * i) % 2 ^ 32) ≡ word % 256 * 2 ^ (8 * i) + ret
round_ret i ret word h r =
    ap (λ (b : ℕ). bit_or ret (b * 2 ^ (8 * i) % 2 ^ 32)) (bit_and_mask 8 word)
    ∙ joined i ret (word % 256) h r (omega arith)

round_below :
    (i ret word : ℕ)
    → i < 4
    → ret < 2 ^ (8 * i)
    → bit_or ret (bit_and word 0xff * 2 ^ (8 * i) % 2 ^ 32) < 2 ^ (8 * suc i)
round_below i ret word h r = omega (
  arith,
  round_ret i ret word h r,
  shift_suc i,
  byte_below (word % 256) (2 ^ (8 * i)) ret (omega arith) r,
)

round_mask :
    (i mask : ℕ)
    → i < 4
    → mask ≡ 2 ^ (8 * i) - 1
    → bit_or mask (0xff * 2 ^ (8 * i) % 2 ^ 32) ≡ 2 ^ (8 * suc i) - 1
round_mask i mask h e = omega (
  arith,
  one-le-pow (8 * i) 2,
  shift_suc i,
  joined i mask 255 h (omega (arith, one-le-pow (8 * i) 2)) (omega arith),
)

round_sum :
    (i ret word rest : ℕ)
    → i < 4
    → ret < 2 ^ (8 * i)
    → bit_or ret (bit_and word 0xff * 2 ^ (8 * i) % 2 ^ 32) + 2 ^ (8 * suc i) * rest
      ≡ ret + 2 ^ (8 * i) * (word % 256 + 256 * rest)
round_sum i ret word rest h r =
    ap₂ (λ (x p : ℕ). x + p * rest) (round_ret i ret word h r) (shift_suc i)
    ∙ gather (word % 256) (2 ^ (8 * i)) ret rest

module _ {S : Type 0} (bus : Bus S) (fuel a : ℕ) (core : Core bus fuel a) (q ss : ℕ)
    (reply : List Exchange → ℕ) (answers : Answers bus fuel a core q reply) where
  -- The log after the exchange of a byte that is read.
  abbrev byte_read : Log → Log
  byte_read l = exchanged (rx_control (q * 2 ^ 9) 8) ss l

  abbrev pub after_reads : ℕ → Log → Log
  after_reads zero l = l
  after_reads (suc n) l = after_reads n (byte_read l)

  -- The bytes that the chip answers in the next exchanges.
  abbrev pub answered : ℕ → Log → List ℕ
  answered zero l = []
  answered (suc n) l = reply (byte_read l).exchanges % 256 ∷ answered n (byte_read l)

  isla_read_loop-answered :
      (n i ret mask : ℕ) (s : S)
      → i + n ≤ 4
      → ret < 2 ^ (8 * i)
      → mask ≡ 2 ^ (8 * i) - 1
      → (s' : S) × (isla_read_loop bus fuel a (q * 2 ^ 9) n i ret mask ss s
          ≡ some (ret + 2 ^ (8 * i) * little_endian (answered n (core.log s)), s'))
        × (core.log s' ≡ after_reads n (core.log s))
  unfolding isla_read_loop fmc516_isla216_readw_raw
  isla_read_loop-answered zero i ret mask s le small e =
      (s, ap (λ (v : ℕ). some (v, s)) (masked (8 * i) ret mask small e), refl)
  isla_read_loop-answered (suc n) i ret mask s le small e =
      let (s1, heard, k) = oc_spi_three_mode_rx-log bus fuel a core q reply answers ss 8 s in
      let word = reply (byte_read (core.log s)).exchanges in
      let (s2, found, k') =
        isla_read_loop-answered n (suc i) (bit_or ret (bit_and word 0xff * 2 ^ (8 * i) % 2 ^ 32))
          (bit_or mask (0xff * 2 ^ (8 * i) % 2 ^ 32)) s1 (omega arith)
          (round_below i ret word (omega arith) small) (round_mask i mask (omega arith) e) in
      let total = ap (λ (l : Log). little_endian (answered n l)) k in
      let sum =
        round_sum i ret word (little_endian (answered n (byte_read (core.log s)))) (omega arith)
          small in
      (
        s2,
        rw heard (
            found
            ∙ ap
                (λ (r : ℕ).
                  some (
                    bit_or ret (bit_and word 0xff * 2 ^ (8 * i) % 2 ^ 32) + 2 ^ (8 * suc i) * r,
                    s2,
                  ))
                total
            ∙ ap (λ (v : ℕ). some (v, s2)) sum),
        k' ∙ ap (after_reads n) k,
      )

  -- Where the address has 13 bits and 1 to 4 bytes are to be read, `fmc516_isla216_read_n` ends. The
  -- core has exchanged one word of 16 bits, which has the address, the number of bytes less one above
  -- it, and the read bit on top, and then as many bytes; and the result is the number that the bytes
  -- answered by the chip stand for, the first byte the lowest.
  pub fmc516_isla216_read_n-answered :
      (addr length : ℕ) (s : S)
      → addr < 2 ^ 13
      → 1 ≤ length
      → length ≤ 4
      → (l : Log) × (l
          ≡ exchanged
              (tx_control (q * 2 ^ 9) 16)
              ss
              (record (core.log s) { tx = 2 ^ 15 + (length - 1) * 2 ^ 13 + addr }))
        × (s' : S) × (fmc516_isla216_read_n bus fuel a (q * 2 ^ 9) addr length ss s
            ≡ some (little_endian (answered length l), s'))
        × (core.log s' ≡ after_reads length l)
  unfolding fmc516_isla216_read_n fmc516_isla216_write_instaddr
  fmc516_isla216_read_n-answered addr length s h lo hi =
      let (s1, asked, k) =
        oc_spi_three_mode_tx-log bus fuel a core q ss 16 (instaddr addr length true) s in
      let (s2, found, k') =
        isla_read_loop-answered length 0 0 0 s1 (omega arith) (omega arith) (omega arith) in
      (
        core.log s1,
        k
            ∙ ap
                (λ (w : ℕ).
                  exchanged (tx_control (q * 2 ^ 9) 16) ss (record (core.log s) { tx = w }))
                (instaddr-fields addr length h lo hi),
        s2,
        rw asked (found ∙ ap (λ (v : ℕ). some (v, s2)) (omega arith)),
        k',
      )
