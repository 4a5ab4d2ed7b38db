-- ===== src/Gpio.antt =====
-- history/embedded-sw/dev/gpio.c: the pins, by the registers of include/gpio.h.
-- `gpio` gives the address of each core, which the code finds in the global array.
use bpm_gw.Base.{ℕ, ◌+◌, ◌-◌, ◌%◌, ◌^◌, bit_and, bit_or, ◌==◌, if◌then◌else◌, ℤ, pos}
use bpm_gw.Bus.{Bus}

-- `1<<pin`, for a pin of the 32 that a register has
abbrev pub pin_mask : ℕ → ℕ
pin_mask pin = 2 ^ pin % 2 ^ 32

module _ {S : Type 0} (bus : Bus S) (gpio : ℕ → ℕ) where
  -- `SODR` at 4 sets a pin and `CODR` at 0 clears it.
  unfoldable pub gpio_out : ℕ → ℕ → ℕ → S → S
  gpio_out id pin val s =
      if val == 0
      then bus.write s (gpio id) (pin_mask pin)
      else bus.write s (gpio id + 4) (pin_mask pin)

  -- `DDR` at 8 is read and written back.
  unfoldable pub gpio_dir : ℕ → ℕ → ℕ → S → S
  gpio_dir id pin val s =
      let (v, s1) = bus.read s (gpio id + 8) in
      if val == 0
      then bus.write s1 (gpio id + 8) (bit_and v (2 ^ 32 - 1 - pin_mask pin))
      else bus.write s1 (gpio id + 8) (bit_or v (pin_mask pin))

  -- `PSR` at 12
  unfoldable pub gpio_in : ℕ → ℕ → S → ℤ × S
  gpio_in id pin s =
      let (v, s1) = bus.read s (gpio id + 12) in
      (if bit_and v (pin_mask pin) == 0 then pos 0 else pos 1, s1)
