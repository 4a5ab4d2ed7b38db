-- ===== src/Fmc516.antt =====
-- history/embedded-sw/fmc/fmc516/fmc516.c: the registers of the ADC board.
-- `a` is the address of the core, which the code finds as `fmc516[id]`. A delay that is an `int` is a
-- ℤ, of which -1 means that the delay stays.
pub mod Delay
pub mod Isla
pub mod Boards
use bpm_gw.Base.{
  ℕ, zero, suc, ◌+◌, ◌-◌, ◌*◌, ◌/◌, ◌%◌, ◌^◌, Bool, true, false, bit_and, bit_or, ◌==◌,
  if◌then◌else◌, ℤ, pos, negsuc,
}
use bpm_gw.Bus.{Bus}

-- `(reg & ~MASK) | W(value)` for the field of `w` bits at the bit `o`
unfoldable pub write_field : ℕ → ℕ → ℕ → ℕ → ℕ
write_field o w reg value =
    bit_or (bit_and reg (2 ^ 32 - 1 - (2 ^ w - 1) * 2 ^ o)) (bit_and value (2 ^ w - 1) * 2 ^ o)

-- the field as `R(reg)` reads it
abbrev pub read_field : ℕ → ℕ → ℕ → ℕ
read_field o w reg = bit_and (reg / 2 ^ o) (2 ^ w - 1)

abbrev pub fmc_ctl : ℕ
fmc_ctl = 0x4

abbrev pub adc_ctl : ℕ
adc_ctl = 0x10

-- `&fmc516[id]->CHx_FN_DLY`, where a channel that there is not is the first one
abbrev pub fn_dly : ℕ → ℕ
fn_dly ch = if ch == 1 then 0x24 else if ch == 2 then 0x30 else if ch == 3 then 0x3c else 0x18

-- `&fmc516[id]->CHx_CS_DLY`
abbrev pub cs_dly : ℕ → ℕ
cs_dly ch = if ch == 1 then 0x28 else if ch == 2 then 0x34 else if ch == 3 then 0x40 else 0x1c

-- `CHx_STA`
abbrev pub sta : ℕ → ℕ
sta ch = if ch == 1 then 0x20 else if ch == 2 then 0x2c else if ch == 3 then 0x38 else 0x14

-- `if (dly != -1)` the field is written; an `int` is converted to its 32 bits.
unfoldable pub set_delay : ℕ → ℕ → ℤ → ℕ → ℕ
unfolding write_field
set_delay o w (pos v) reg = write_field o w reg v
set_delay o w (negsuc zero) reg = reg
set_delay o w (negsuc (suc n)) reg = write_field o w reg (2 ^ 32 - 2 - n)

-- the field that the two flags ask for
abbrev pub edge_dly : Bool → Bool → ℕ
edge_dly d1 d2 = if d2 then 3 else if d1 then 1 else 0

module _ {S : Type 0} (bus : Bus S) (a : ℕ) where
  -- `reg |= mask`
  unfoldable pub set_bits : ℕ → ℕ → S → S
  set_bits offset mask s =
      let (v, s1) = bus.read s (a + offset) in bus.write s1 (a + offset) (bit_or v mask)

  abbrev pub fmc516_update_clk_dly : S → S
  fmc516_update_clk_dly s = set_bits adc_ctl 1 s

  abbrev pub fmc516_update_data_dly : S → S
  fmc516_update_data_dly s = set_bits adc_ctl 2 s

  abbrev pub fmc516_reset_adcs : S → S
  fmc516_reset_adcs s = set_bits adc_ctl 4 s

  abbrev pub fmc516_resetdiv_adcs : S → S
  fmc516_resetdiv_adcs s = set_bits adc_ctl 8 s

  unfoldable pub fmc516_adj_delay : ℕ → ℤ → ℤ → Bool → S → S
  unfolding set_delay set_bits
  fmc516_adj_delay ch clk_dly data_dly commit s =
      let (v, s1) = bus.read s (a + fn_dly ch) in
      let s2 = bus.write s1 (a + fn_dly ch) (set_delay 8 5 data_dly (set_delay 0 5 clk_dly v)) in
      if commit then fmc516_update_clk_dly (fmc516_update_data_dly s2) else s2

  unfoldable pub fmc516_clk_sel : Bool → S → S
  unfolding set_bits
  fmc516_clk_sel ext_clk s = if ext_clk then set_bits fmc_ctl 8 s else s

  unfoldable pub fmc516_led0 : Bool → S → S
  unfolding set_bits
  fmc516_led0 on s = if on then set_bits fmc_ctl 2 s else s

  unfoldable pub fmc516_led1 : Bool → S → S
  unfolding set_bits
  fmc516_led1 on s = if on then set_bits fmc_ctl 4 s else s

  -- `fmc516_read_adc0` to `fmc516_read_adc3`
  unfoldable pub fmc516_read_adc : ℕ → S → ℕ × S
  fmc516_read_adc ch s = let (v, s1) = bus.read s (a + sta ch) in (read_field 0 16 v, s1)

  unfoldable pub fmc516_fe_rg_dly : ℕ → Bool → Bool → Bool → Bool → S → S
  unfolding write_field
  fmc516_fe_rg_dly ch fe_dly_d1 fe_dly_d2 rg_dly_d1 rg_dly_d2 s =
      let (v, s1) = bus.read s (a + cs_dly ch) in
      bus.write s1 (a + cs_dly ch) (
        write_field 8 2 (write_field 0 2 v (edge_dly fe_dly_d1 fe_dly_d2))
          (edge_dly rg_dly_d1 rg_dly_d2))

  unfoldable pub fmc516_init_regs : S → S
  unfolding fmc516_clk_sel fmc516_led0 fmc516_adj_delay fmc516_fe_rg_dly
  fmc516_init_regs s =
      let s1 = fmc516_led0 true (fmc516_clk_sel true s) in
      let s2 = fmc516_adj_delay 0 (pos 5) (pos 24) true s1 in
      let s3 = fmc516_adj_delay 1 (pos 5) (pos 14) true s2 in
      let s4 = fmc516_adj_delay 2 (pos 5) (pos 15) true s3 in
      let s5 = fmc516_adj_delay 3 (pos 5) (pos 28) true s4 in
      let s6 = fmc516_fe_rg_dly 0 false false false false s5 in
      let s7 = fmc516_fe_rg_dly 1 false false false false s6 in
      let s8 = fmc516_fe_rg_dly 2 false false false false s7 in
      fmc516_fe_rg_dly 3 false false false false s8
