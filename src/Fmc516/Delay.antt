-- ===== src/Fmc516/Delay.antt =====
-- The delay fields of history/embedded-sw/fmc/fmc516/fmc516.c.
mod Tests
use bpm_gw.Base.{
  ℕ, zero, suc, ◌+◌, ◌-◌, ◌*◌, ◌/◌, ◌%◌, ◌^◌, ◌≤◌, ◌<◌, ◌≡◌, ◌≢◌, refl, sym, ap, ◌∙◌, Bool, true,
  false, bit_and, bit_or, arith, ◌==◌, if◌then◌else◌, ℤ, pos, negsuc,
}
use bpm_gw.Base.Bits.{
  bit_and_split, bit_or_split, bit_and_mask, bit_or-zero, zero-bit_or, bit_and-zero,
}
use bpm_gw.Bus.{Bus}
use bpm_gw.Fmc516.{write_field, read_field, fn_dly, adc_ctl, set_delay, set_bits, fmc516_adj_delay}

-- A register in three parts: below, in and above a field.
low_field : (reg v : ℕ) → reg < 2 ^ 32 → v < 2 ^ 5 → write_field 0 5 reg v ≡ reg / 2 ^ 5 * 2 ^ 5 + v
unfolding write_field
low_field reg v h k = ground (
  arith,
  bit_and_split 5 (reg / 2 ^ 5) (reg % 2 ^ 5) (2 ^ 27 - 1) 0,
  bit_and_mask 27 (reg / 2 ^ 5),
  bit_and-zero (reg % 2 ^ 5),
  bit_and_mask 5 v,
  bit_or_split 5 (reg / 2 ^ 5) 0 0 v,
  bit_or-zero (reg / 2 ^ 5),
  zero-bit_or v,
)

high_field :
    (reg v : ℕ)
    → reg < 2 ^ 32
    → v < 2 ^ 5
    → write_field 8 5 reg v ≡ reg / 2 ^ 13 * 2 ^ 13 + v * 2 ^ 8 + reg % 2 ^ 8
unfolding write_field
high_field reg v h k = ground (
  arith,
  bit_and_split 8 (reg / 2 ^ 8) (reg % 2 ^ 8) ((2 ^ 19 - 1) * 2 ^ 5) (2 ^ 8 - 1),
  bit_and_split 5 (reg / 2 ^ 8 / 2 ^ 5) (reg / 2 ^ 8 % 2 ^ 5) (2 ^ 19 - 1) 0,
  bit_and_mask 19 (reg / 2 ^ 13),
  bit_and_mask 8 (reg % 2 ^ 8),
  bit_and-zero (reg / 2 ^ 8 % 2 ^ 5),
  bit_and_mask 5 v,
  bit_or_split 8 (reg / 2 ^ 13 * 2 ^ 5) (reg % 2 ^ 8) v 0,
  bit_or_split 5 (reg / 2 ^ 13) 0 0 v,
  bit_or-zero (reg / 2 ^ 13),
  bit_or-zero (reg % 2 ^ 8),
  zero-bit_or v,
)

-- The contract of the board's registers: a read gives the value and changes nothing, a write changes
-- one register only, and a delay register keeps the 32 bits that are written.
pub record Registers {S : Type 0} (bus : Bus S) (a : ℕ) : Type 0 where
  pub value : S → ℕ → ℕ
  pub reads : (s : S) (r : ℕ) → bus.read s r ≡ (value s r, s)
  pub word : (s : S) (r : ℕ) → value s r < 2 ^ 32
  pub keeps :
      (s : S) (ch v : ℕ) → v < 2 ^ 32 → value (bus.write s (a + fn_dly ch) v) (a + fn_dly ch) ≡ v
  pub others : (s : S) (r q v : ℕ) → q ≢ r → value (bus.write s r v) q ≡ value s q

both_fields :
    (v c d : ℕ)
    → v < 2 ^ 32
    → c < 2 ^ 5
    → d < 2 ^ 5
    → write_field 8 5 (write_field 0 5 v c) d
      ≡ v / 2 ^ 13 * 2 ^ 13 + d * 2 ^ 8 + v / 2 ^ 5 % 2 ^ 3 * 2 ^ 5 + c
both_fields v c d hv hc hd =
    let low = low_field v c hv hc in
    let high = high_field (write_field 0 5 v c) d (omega (arith, low, hv, hc)) hd in
    omega (arith, low, high, hc)

fn_dly-adc_ctl : (ch : ℕ) → adc_ctl < fn_dly ch
fn_dly-adc_ctl ch = ground arith

module _ {S : Type 0} (bus : Bus S) (a : ℕ) (regs : Registers bus a) where
  set_bits-others :
      (offset mask q : ℕ) (s : S)
      → q ≢ a + offset
      → regs.value (set_bits bus a offset mask s) q ≡ regs.value s q
  unfolding set_bits
  set_bits-others offset mask q s h =
      rw (set_bits, regs.reads s (a + offset))
        (regs.others s (a + offset) q (bit_or (regs.value s (a + offset)) mask) h)

  commit-others :
      (commit : Bool) (q : ℕ) (s : S)
      → q ≢ a + adc_ctl
      → regs.value (if commit then set_bits bus a adc_ctl 1 (set_bits bus a adc_ctl 2 s) else s) q
        ≡ regs.value s q
  commit-others true q s h =
      set_bits-others adc_ctl 1 q (set_bits bus a adc_ctl 2 s) h ∙ set_bits-others adc_ctl 2 q s h
  commit-others false q s h = refl

  -- `fmc516_adj_delay` with two delays below 32 makes them the two fields of the delay register of the
  -- channel, keeps that register's other bits, and changes no delay register at another address.
  pub fmc516_adj_delay-fields :
      (ch other c d : ℕ) (commit : Bool) (s : S)
      → c < 2 ^ 5
      → d < 2 ^ 5
      → fn_dly other ≢ fn_dly ch
      → (s' : S) × (fmc516_adj_delay bus a ch (pos c) (pos d) commit s ≡ s')
        × (read_field 0 5 (regs.value s' (a + fn_dly ch)) ≡ c)
        × (read_field 8 5 (regs.value s' (a + fn_dly ch)) ≡ d)
        × (regs.value s' (a + fn_dly ch) / 2 ^ 5 % 2 ^ 3
            ≡ regs.value s (a + fn_dly ch) / 2 ^ 5 % 2 ^ 3)
        × (regs.value s' (a + fn_dly ch) / 2 ^ 13 ≡ regs.value s (a + fn_dly ch) / 2 ^ 13)
        × (regs.value s' (a + fn_dly other) ≡ regs.value s (a + fn_dly other))
  unfolding fmc516_adj_delay set_delay
  fmc516_adj_delay-fields ch other c d commit s hc hd ne =
      let r = a + fn_dly ch in
      let v = regs.value s r in
      let w = write_field 8 5 (write_field 0 5 v c) d in
      let s2 = bus.write s r w in
      let s' = if commit then set_bits bus a adc_ctl 1 (set_bits bus a adc_ctl 2 s2) else s2 in
      let fields = both_fields v c d (regs.word s r) hc hd in
      let apart = fn_dly-adc_ctl ch in
      let kept =
        commit-others commit r s2 (λ e. omega (arith, e, apart))
        ∙ regs.keeps s ch w (omega (arith, fields, regs.word s r, hc, hd)) in
      (
        s',
        rw (regs.reads s r) refl,
        omega (arith, kept, fields, hc, hd, bit_and_mask 5 (regs.value s' r / 1)),
        omega (arith, kept, fields, hc, hd, bit_and_mask 5 (regs.value s' r / 2 ^ 8)),
        omega (arith, kept, fields, hc, hd),
        omega (arith, kept, fields, hc, hd),
        commit-others commit (a + fn_dly other) s2 (λ e. omega (arith, e, fn_dly-adc_ctl other))
            ∙ regs.others s r (a + fn_dly other) w (λ e. ne (omega (arith, e))),
      )
