-- ===== src/Fmc516/Isla.antt =====
-- history/embedded-sw/fmc/fmc516/isla216p25.c and lmk02000.c: the ADC chips and the clock chip of the
-- board, behind the SPI cores.
-- `a` and `config` belong to the SPI core that the code finds under its constant id. An `int` is kept
-- as its 32 bits. `none` is a polling loop that needs more fuel.
pub mod Bytes
use bpm_gw.Base.{
  ℕ, zero, suc, ◌+◌, ◌-◌, ◌*◌, ◌/◌, ◌%◌, ◌^◌, Bool, true, false, Option, some, List, [], ◌∷◌,
  bit_and, bit_or, ltb, ◌==◌, if◌then◌else◌, ◌>>=◌,
}
use bpm_gw.Bus.{Bus}
use bpm_gw.Spi.{oc_spi_three_mode_tx, oc_spi_three_mode_rx, oc_spi_txrx}

-- `default_dev_regs_t`, and the values of its field `type` but for the end of a table, which the end
-- of the list stands for
pub record DevReg : Type 0 where
  pub init : Bool
  pub size : ℕ
  pub addr : ℕ
  pub val : ℕ

abbrev pub isla216p25_regs_default : List DevReg
isla216p25_regs_default =
    record { init = true; size = 1; addr = 0x00; val = 2 ^ 5 }
    ∷ record { init = true; size = 1; addr = 0x00; val = 0 }
    ∷ record { init = true; size = 1; addr = 0x2b; val = 1 }
    ∷ record { init = true; size = 1; addr = 0x72; val = 1 }
    ∷ []

-- `(1<<16)|(1<<8)|addr`
abbrev pub lmk_word : ℕ → ℕ
lmk_word addr = bit_or (bit_or (2 ^ 16) (2 ^ 8)) addr

abbrev pub lmk02000_regs_default : List DevReg
lmk02000_regs_default =
    record { init = true; size = 4; addr = 0x0; val = 2 ^ 31 }
    ∷ record { init = true; size = 4; addr = 0x0; val = 2 ^ 8 }
    ∷ record { init = false; size = 4; addr = 0x1; val = 0 }
    ∷ record { init = true; size = 4; addr = 0x2; val = lmk_word 2 }
    ∷ record { init = false; size = 4; addr = 0x3; val = 0 }
    ∷ record { init = true; size = 4; addr = 0x4; val = lmk_word 4 }
    ∷ record { init = true; size = 4; addr = 0x5; val = lmk_word 5 }
    ∷ record { init = true; size = 4; addr = 0x6; val = lmk_word 6 }
    ∷ record { init = true; size = 4; addr = 0x7; val = lmk_word 7 }
    ∷ record { init = false; size = 4; addr = 0xb; val = 0 }
    ∷ record { init = true; size = 4; addr = 0xe; val = bit_or 0x2b100100 14 }
    ∷ record { init = false; size = 4; addr = 0xf; val = bit_or 0x4003e800 15 }
    ∷ []

-- `FMC516_ISLA216_ADDR(x)` and `FMC516_ISLA216_LENGTH(x)`
abbrev pub isla_addr : ℕ → ℕ
isla_addr x = bit_and x 0x1fff

abbrev pub isla_length : ℕ → ℕ
isla_length x = bit_and (x * 2 ^ 13 % 2 ^ 32) 0x6000

abbrev pub isla_read : ℕ
isla_read = 0x8000

-- the word of `fmc516_isla216_write_instaddr`
unfoldable pub instaddr : ℕ → ℕ → Bool → ℕ
instaddr addr length read =
    let reg = bit_or (isla_addr addr) (isla_length ((length + 2 ^ 32 - 1) % 2 ^ 32)) in
    if read then bit_or reg isla_read else reg

-- `val >> k` for an `int`
abbrev pub shift_right : ℕ → ℕ → ℕ
shift_right v k = (if ltb v (2 ^ 31) then v / 2 ^ k else (v + (2 ^ 64 - 2 ^ 32)) / 2 ^ k % 2 ^ 32)

module _ {S : Type 0} (bus : Bus S) (fuel a config : ℕ) where
  unfoldable pub fmc516_isla216_write_instaddr : ℕ → ℕ → Bool → ℕ → S → Option S
  unfolding instaddr
  fmc516_isla216_write_instaddr addr length read ss s =
      oc_spi_three_mode_tx bus fuel a config ss 16 (instaddr addr length read) s

  unfoldable pub fmc516_isla216_readw_raw : ℕ → S → Option (ℕ × S)
  fmc516_isla216_readw_raw ss s = oc_spi_three_mode_rx bus fuel a config ss 8 s

  unfoldable pub fmc516_isla216_writew_raw : ℕ → ℕ → S → Option S
  fmc516_isla216_writew_raw val ss s = oc_spi_three_mode_tx bus fuel a config ss 8 val s

  unfoldable pub fmc516_isla216_read_byte : ℕ → ℕ → S → Option (ℕ × S)
  unfolding fmc516_isla216_write_instaddr fmc516_isla216_readw_raw
  fmc516_isla216_read_byte addr ss s = fmc516_isla216_write_instaddr addr 1 true ss s >>= λ s1.
      fmc516_isla216_readw_raw ss s1 >>= λ r. some (bit_and r.0 0xff, r.1)

  unfoldable pub fmc516_isla216_write_byte : ℕ → ℕ → ℕ → S → Option S
  unfolding fmc516_isla216_write_instaddr fmc516_isla216_writew_raw
  fmc516_isla216_write_byte val addr ss s =
      fmc516_isla216_write_instaddr addr 1 false ss s >>= fmc516_isla216_writew_raw val ss

  -- The loop of `fmc516_isla216_read_n` from the round `i` on: `ret` and `mask`.
  unfoldable pub isla_read_loop : ℕ → ℕ → ℕ → ℕ → ℕ → S → Option (ℕ × S)
  unfolding fmc516_isla216_readw_raw
  isla_read_loop zero i ret mask ss s = some (bit_and ret mask, s)
  isla_read_loop (suc n) i ret mask ss s = fmc516_isla216_readw_raw ss s >>= λ r.
      isla_read_loop n (suc i) (bit_or ret (bit_and r.0 0xff * 2 ^ (8 * i) % 2 ^ 32))
        (bit_or mask (0xff * 2 ^ (8 * i) % 2 ^ 32)) ss r.1

  unfoldable pub fmc516_isla216_read_n : ℕ → ℕ → ℕ → S → Option (ℕ × S)
  unfolding fmc516_isla216_write_instaddr isla_read_loop
  fmc516_isla216_read_n addr length ss s =
      fmc516_isla216_write_instaddr addr length true ss s >>= isla_read_loop length 0 0 0 ss

  unfoldable pub isla_write_loop : ℕ → ℕ → ℕ → ℕ → S → Option S
  unfolding fmc516_isla216_writew_raw
  isla_write_loop zero i val ss s = some s
  isla_write_loop (suc n) i val ss s =
      fmc516_isla216_writew_raw (shift_right val (8 * i)) ss s >>= isla_write_loop n (suc i) val ss

  unfoldable pub fmc516_isla216_write_n : ℕ → ℕ → ℕ → ℕ → S → Option S
  unfolding fmc516_isla216_write_instaddr isla_write_loop
  fmc516_isla216_write_n val addr length ss s =
      fmc516_isla216_write_instaddr addr length false ss s >>= isla_write_loop length 0 val ss

  unfoldable pub fmc516_isla216_load_regset : List DevReg → ℕ → S → Option S
  unfolding fmc516_isla216_write_byte
  fmc516_isla216_load_regset [] ss s = some s
  fmc516_isla216_load_regset (r ∷ rest) ss s =
      (if r.init then fmc516_isla216_write_byte r.val r.addr ss s else some s)
      >>= fmc516_isla216_load_regset rest ss

  abbrev pub fmc516_isla216_init : ℕ → S → Option S
  fmc516_isla216_init = fmc516_isla216_load_regset isla216p25_regs_default

  -- the four chips, from the number `i` on
  unfoldable pub isla_init_loop : ℕ → ℕ → S → Option S
  unfolding fmc516_isla216_load_regset
  isla_init_loop zero i s = some s
  isla_init_loop (suc n) i s =
      fmc516_isla216_load_regset isla216p25_regs_default i s >>= isla_init_loop n (suc i)

  abbrev pub fmc516_isla216_all_init : S → Option S
  fmc516_isla216_all_init = isla_init_loop 4 0

  unfoldable pub fmc516_isla216_chkcal_stat : ℕ → S → Option (ℕ × S)
  unfolding fmc516_isla216_read_byte
  fmc516_isla216_chkcal_stat ss s =
      fmc516_isla216_read_byte 0xb6 ss s >>= λ r. some (bit_and r.0 0x01, r.1)

  -- `ISLA216_OUT_TESTMODE(x)` to `ISLA216_TESTIO_REG`, with 10 for a ramp and 1 for the mid scale
  abbrev pub out_testmode : ℕ → ℕ
  out_testmode x = bit_and (x * 2 ^ 4) 0xf0

  abbrev pub fmc516_isla216_test_ramp : ℕ → S → Option S
  fmc516_isla216_test_ramp ss = fmc516_isla216_write_byte (out_testmode 10) 0xc0 ss

  abbrev pub fmc516_isla216_test_midscale : ℕ → S → Option S
  fmc516_isla216_test_midscale ss = fmc516_isla216_write_byte (out_testmode 1) 0xc0 ss

  unfoldable pub fmc516_isla216_get_chipid : ℕ → S → Option (ℕ × S)
  unfolding fmc516_isla216_read_byte
  fmc516_isla216_get_chipid ss s =
      fmc516_isla216_read_byte 0x08 ss s >>= λ r. some (bit_and r.0 0xff, r.1)

  unfoldable pub fmc516_isla216_get_chipver : ℕ → S → Option (ℕ × S)
  unfolding fmc516_isla216_read_byte
  fmc516_isla216_get_chipver ss s =
      fmc516_isla216_read_byte 0x09 ss s >>= λ r. some (bit_and r.0 0xff, r.1)

  -- `fmc516_lmk02000_write_reg`, which drops the word that it receives
  unfoldable pub fmc516_lmk02000_write_reg : ℕ → S → Option S
  fmc516_lmk02000_write_reg val s = oc_spi_txrx bus fuel a config 0 32 val s >>= λ w. some w.1

  unfoldable pub fmc516_lmk02000_load_regset : List DevReg → S → Option S
  unfolding fmc516_lmk02000_write_reg
  fmc516_lmk02000_load_regset [] s = some s
  fmc516_lmk02000_load_regset (r ∷ rest) s =
      (if r.init then fmc516_lmk02000_write_reg r.val s else some s)
      >>= fmc516_lmk02000_load_regset rest

  abbrev pub fmc516_lmk02000_init : S → Option S
  fmc516_lmk02000_init = fmc516_lmk02000_load_regset lmk02000_regs_default
