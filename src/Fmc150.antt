-- ===== src/Fmc150.antt =====
-- history/embedded-sw/fmc/fmc150/fmc150.c: the FMC150 board, and its clock chip behind an SPI core.
-- `a` is the address of the core, which the code keeps in `fmc150`.
pub mod Chip
pub mod Load
use bpm_gw.Base.{
  ℤ, ℕ, zero, suc, ◌+◌, ◌-◌, ◌*◌, ◌%◌, ◌^◌, Bool, true, false, not, Option, none, some, List, [],
  ◌∷◌, bit_and, bit_or, bit_xor, ◌==◌, if◌then◌else◌, ◌>>=◌, get_elem?,
}
use bpm_gw.Bus.{Bus, ok, failed}
use bpm_gw.Sdb.{DevList}

-- `fmc150_init`: the result and the address of the first device, which is `none` where there is none.
unfoldable fmc150_init : DevList → ℤ × Option ℕ
fmc150_init l = elim (l.first >>= get_elem? l.nodes) [
  | none ↦ (failed, none)
  | some d ↦ (ok, some d.base)
]

abbrev pub cdce72010_regs : List ℕ
cdce72010_regs =
    0x682C0290 ∷ 0x68840041 ∷ 0x83860002 ∷ 0x68400003 ∷ 0xE9800004 ∷ 0x68000005 ∷ 0x68000006
    ∷ 0x83800017 ∷ 0x68000098 ∷ 0x68000049 ∷ 0x007C003A ∷ 0x8000050B ∷ []

-- the offsets of the registers
abbrev pub flgs_pulse : ℕ
flgs_pulse = 0x0

abbrev pub flgs_in : ℕ
flgs_in = 0x4

abbrev pub addr_in : ℕ
addr_in = 0x8

abbrev pub data_in : ℕ
data_in = 0xc

abbrev pub chip_select : ℕ
chip_select = 0x10

abbrev pub adc_dly : ℕ
adc_dly = 0x14

abbrev pub data_out : ℕ
data_out = 0x18

abbrev pub flgs_out : ℕ
flgs_out = 0x1c

-- `FMC150_CS_CDCE72010`
abbrev pub cs_cdce72010 : ℕ
cs_cdce72010 = 1

-- the field of 5 bits at the bit `o`
abbrev pub dly_field : ℕ → ℕ → ℕ
dly_field o v = bit_and v 0x1f * 2 ^ o

module _ {S : Type 0} (bus : Bus S) (a : ℕ) where
  unfoldable pub update_fmc150_adc_delay : ℕ → ℕ → ℕ → S → S
  update_fmc150_adc_delay strobe cha chb s =
      let s1 =
        bus.write s (a + adc_dly) (dly_field 0 strobe + dly_field 8 cha + dly_field 16 chb) in
      bus.write s1 (a + flgs_pulse) 0x1

  -- whether the bit is set
  unfoldable pub fmc150_spi_busy : S → Bool × S
  fmc150_spi_busy s = let (v, s1) = bus.read s (a + flgs_out) in (not (bit_and v 1 == 0), s1)

  -- the result, `*data`, and the devices
  unfoldable pub read_fmc150_register : ℕ → ℕ → ℕ → S → ℤ × ℕ × S
  unfolding fmc150_spi_busy
  read_fmc150_register cs addr word s =
      let (busy, s1) = fmc150_spi_busy s in
      let (flags, s2) = bus.read s1 (a + flgs_in) in
      let s3 = bus.write s2 (a + flgs_in) (bit_or flags 1) in
      let s4 = bus.write s3 (a + addr_in) addr in
      let (selected, s5) = bus.read s4 (a + chip_select) in
      let s6 = bus.write s5 (a + chip_select) (bit_xor selected cs) in
      let (found, s7) = bus.read s6 (a + data_out) in
      if busy then (failed, word, s1) else (ok, found, s7)

  unfoldable pub write_fmc150_register : ℕ → ℕ → ℕ → S → ℤ × S
  unfolding fmc150_spi_busy
  write_fmc150_register cs addr word s =
      let (busy, s1) = fmc150_spi_busy s in
      let (flags, s2) = bus.read s1 (a + flgs_in) in
      let s3 = bus.write s2 (a + flgs_in) (bit_and flags (2 ^ 32 - 2)) in
      let s4 = bus.write s3 (a + addr_in) addr in
      let s5 = bus.write s4 (a + data_in) word in
      let (selected, s6) = bus.read s5 (a + chip_select) in
      let s7 = bus.write s6 (a + chip_select) (bit_xor selected cs) in
      if busy then (failed, s1) else (ok, s7)

  -- `fmc150_spi_busy_loop` with so many tries left: whether the core is not busy.
  unfoldable pub spi_busy_loop : ℕ → S → Bool × S
  unfolding fmc150_spi_busy
  spi_busy_loop zero s = (false, s)
  spi_busy_loop (suc n) s =
      let (busy, s1) = fmc150_spi_busy s in
      let rest = spi_busy_loop n s1 in if busy then rest else (true, s1)

  -- The rounds of `init_cdce72010` from the register `i` on; `reg` is its variable.
  unfoldable pub init_loop : List ℕ → ℕ → ℕ → S → ℤ × S
  unfolding spi_busy_loop read_fmc150_register write_fmc150_register
  init_loop [] i reg s = (ok, s)
  init_loop (v ∷ vs) i reg s =
      let (ready, s1) = spi_busy_loop 10 s in
      let s2 = (write_fmc150_register cs_cdce72010 i v s1).1 in
      let (ready', s3) = spi_busy_loop 10 s2 in
      let (e, reg', s4) = read_fmc150_register cs_cdce72010 i reg s3 in
      let rest = init_loop vs (suc i) reg' s4 in
      if not ready
      then (failed, s1)
      else if not ready'
      then (failed, s3)
      else if not (v == reg')
      then (failed, s4)
      else rest

  unfoldable pub init_cdce72010 : ℕ → S → ℤ × S
  unfolding init_loop
  init_cdce72010 reg s = init_loop cdce72010_regs 0 reg s
