-- ===== src/Firmware.antt =====
-- history/embedded-sw/dbe_main.c: the tests of the LEDs and of the buttons of the board.
-- `pass` is what the devices do while the processor waits or prints; what is printed is left out, but for
-- the outcome of a test.
mod Tests
pub mod Start
pub mod Panel
pub mod Buttons
use bpm_gw.Base.{
  ℤ, pos, negsuc, ℕ, zero, suc, ◌+◌, ◌-◌, ◌%◌, ◌^◌, Bool, true, false, bit_and, bit_or, ◌==◌, ltb,
  if◌then◌else◌,
}
use bpm_gw.Bus.{Bus}
use bpm_gw.Gpio.{gpio_out, gpio_in}

-- `NUM_LEDS`, `NUM_LED_ITER`
abbrev pub num_leds : ℕ
num_leds = 8

abbrev pub num_led_iter : ℕ
num_led_iter = 4

-- `TEST_BUTTONS_MASK`, `TEST_BUTTONS_TRIES`, `TEST_BUTTONS_ITER`
abbrev pub test_buttons_mask : ℕ
test_buttons_mask = 3

abbrev pub test_buttons_tries : ℕ
test_buttons_tries = 10

abbrev pub test_buttons_iter : ℕ
test_buttons_iter = 2

-- An `int` that is 0 or 1 as a word.
abbrev pub int_bit : ℤ → ℕ
int_bit (pos n) = n
int_bit (negsuc n) = 2 ^ 32 - 1 - n

module _ {S : Type 0} (bus : Bus S) (gpio : ℕ → ℕ) (pass : S → S) where
  -- The loop over the LEDs from `i` on.
  unfoldable pub led_loop : ℕ → ℕ → S → S
  led_loop zero i s = s
  led_loop (suc n) i s =
      led_loop n (suc i) (gpio_out bus gpio 0 i 0 (pass (gpio_out bus gpio 0 i 1 s)))

  unfoldable pub led_rounds : ℕ → S → S
  led_rounds zero s = s
  led_rounds (suc n) s = led_rounds n (led_loop num_leds 0 s)

  -- One call of `gpio_out` behind the other.
  unfoldable pub leds_test : S → S
  leds_test s =
      let s1 = led_rounds num_led_iter s in
      let s2 = gpio_out bus gpio 0 0 1 s1 in
      let s3 = gpio_out bus gpio 0 2 1 s2 in
      let s4 = gpio_out bus gpio 0 4 1 s3 in gpio_out bus gpio 0 6 1 s4

  -- The loop over the buttons from `j` on. `&` is the bitwise operator, so that each pin is read in any
  -- case.
  unfoldable pub button_loop : ℕ → ℕ → ℕ → S → ℕ × S
  button_loop zero j button_pressed s = (button_pressed, s)
  button_loop (suc n) j button_pressed s =
      let (level, s1) = gpio_in bus gpio 1 j s in
      let off = if bit_and button_pressed (2 ^ j) == 0 then 1 else 0 in
      button_loop n (suc j)
        (if bit_and off (int_bit level) == 0 then button_pressed else bit_or button_pressed (2 ^ j))
        s1

  -- The rounds that are left: whether the test is passed.
  unfoldable pub button_rounds : ℕ → ℕ → S → Bool × S
  button_rounds zero button_pressed s = (false, s)
  button_rounds (suc n) button_pressed s =
      let (pressed, s1) = button_loop test_buttons_iter 0 button_pressed s in
      let rest = button_rounds n pressed (pass s1) in
      if pressed == test_buttons_mask then (true, s1) else rest

  unfoldable pub button_test : S → Bool × S
  button_test s = button_rounds test_buttons_tries 0 s
