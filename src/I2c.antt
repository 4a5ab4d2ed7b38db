-- ===== src/I2c.antt =====
-- history/embedded-sw/dev/i2c.c: transfers on the I2C bus.
-- `a` is the address of the core, which the code finds as `i2c[id]`; the registers stand where
-- `struct I2C_WB` puts them. `none` is a polling loop that needs more fuel.
pub mod Commands
use bpm_gw.Base.{
  ℕ, zero, suc, ◌+◌, ◌*◌, ◌^◌, ◌%◌, Bool, true, false, Option, some, bit_and, bit_or, ◌==◌,
  if◌then◌else◌, ◌>>=◌, ℤ, not,
}
use bpm_gw.Bus.{Bus, wait, ok, failed}

abbrev pub i2c_txr : ℕ
i2c_txr = 0x0C

abbrev pub i2c_rxr : ℕ
i2c_rxr = 0x10

abbrev pub i2c_cr : ℕ
i2c_cr = 0x14

abbrev pub i2c_sr : ℕ
i2c_sr = 0x18

-- `I2C_ADDR(x)`
abbrev pub i2c_addr : ℕ → ℕ
i2c_addr x = bit_and ((x * 2) % 2 ^ 32) 0xff

module _ {S : Type 0} (bus : Bus S) (fuel a : ℕ) where
  -- A command, the wait for its completion, and whether `I2C_SR_RXACK` is set then.
  unfoldable pub run_command : ℕ → S → Option (Bool × S)
  run_command cmd s = wait bus fuel (a + i2c_sr) 2 (bus.write s (a + i2c_cr) cmd) >>= λ s1.
      (let (v, s2) = bus.read s1 (a + i2c_sr) in some (not (bit_and v 0x80 == 0), s2))

  unfoldable pub oc_i2c_start : ℕ → ℕ → S → Option (ℤ × S)
  unfolding run_command
  oc_i2c_start addr read s =
      let txr = if read == 1 then bit_or (i2c_addr addr) 1 else i2c_addr addr in
      run_command (bit_or 0x80 0x10) (bus.write s (a + i2c_txr) txr) >>= λ r.
      some ((if r.0 then failed else ok), r.1)

  -- The byte is given where the code stores it in `*out`.
  unfoldable pub oc_i2c_rx : Bool → S → Option (ℤ × ℕ × S)
  unfolding run_command
  oc_i2c_rx last s = run_command (if last then bit_or 0x20 (bit_or 0x40 0x08) else 0x20) s >>= λ r.
      (let (v, s2) = bus.read r.1 (a + i2c_rxr) in
        some (if r.0 then (failed, 0, r.1) else (ok, bit_and v 0xFF, s2)))

  unfoldable pub oc_i2c_tx : ℕ → Bool → S → Option (ℤ × S)
  unfolding run_command
  oc_i2c_tx byte last s =
      run_command (if last then bit_or 0x10 0x40 else 0x10) (bus.write s (a + i2c_txr) byte)
      >>= λ r. some ((if r.0 then failed else ok), r.1)

  -- the stop condition after a device has answered
  unfoldable pub scan_stop : S → Option S
  scan_stop s =
      wait bus fuel (a + i2c_sr) 2
        (bus.write (bus.write s (a + i2c_txr) 0) (a + i2c_cr) (bit_or 0x40 0x10))

  -- `for (i = 0; i < 128; ++i)` with `n` rounds left
  unfoldable pub scan_loop : ℕ → ℕ → S → Option S
  unfolding run_command scan_stop
  scan_loop zero i s = some s
  scan_loop (suc n) i s =
      run_command (bit_or 0x80 0x10) (bus.write s (a + i2c_txr) (bit_or (i2c_addr i) 1)) >>= λ r.
      (if r.0 then some r.1 else scan_stop r.1) >>= λ s1. scan_loop n (suc i) s1

  unfoldable pub oc_i2c_scan : S → Option (ℤ × S)
  unfolding scan_loop
  oc_i2c_scan s = scan_loop 128 0 s >>= λ s1. some (ok, s1)
