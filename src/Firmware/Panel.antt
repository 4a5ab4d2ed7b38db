-- ===== src/Firmware/Panel.antt =====
-- What the tests of history/embedded-sw/dbe_main.c do to the LEDs and find out of the buttons.
use bpm_gw.Base.{
  ℕ, zero, suc, ◌+◌, ◌%◌, ◌≡◌, ◌≤◌, ◌<◌, Bool, true, false, ◌&&◌, ◌==◌, ltb, leb, if◌then◌else◌,
  arith,
}
use bpm_gw.Bus.{Bus}
use bpm_gw.Gpio.{gpio_out, pin_mask}
use bpm_gw.Firmware.{num_leds, led_loop, led_rounds, leds_test}

-- The contract of a GPIO core at `a`: a write of the mask of one of the eight pins to `SODR` sets that pin
-- of the output and no other, one to `CODR` clears it, and time does not change the output.
pub record Pins {S : Type 0} (bus : Bus S) (pass : S → S) (a : ℕ) : Type 0 where
  pub output : S → ℕ → Bool
  pub sets :
      (s : S) (pin q : ℕ)
      → pin < 8
      → output (bus.write s (a + 4) (pin_mask pin)) q ≡ (if q == pin then true else output s q)
  pub clears :
      (s : S) (pin q : ℕ)
      → pin < 8
      → output (bus.write s a (pin_mask pin)) q ≡ (if q == pin then false else output s q)
  pub stays : (s : S) (q : ℕ) → output (pass s) q ≡ output s q

module _ {S : Type 0} (bus : Bus S) (gpio : ℕ → ℕ) (pass : S → S)
    (pins : Pins bus pass (gpio 0)) where
  abbrev out : S → ℕ → Bool
  out = pins.output

  set_pin :
      (pin q : ℕ) (s : S)
      → pin < 8
      → out (gpio_out bus gpio 0 pin 1 s) q ≡ (if q == pin then true else out s q)
  unfolding gpio_out
  set_pin pin q s small = pins.sets s pin q small

  clear_pin :
      (pin q : ℕ) (s : S)
      → pin < 8
      → out (gpio_out bus gpio 0 pin 0 s) q ≡ (if q == pin then false else out s q)
  unfolding gpio_out
  clear_pin pin q s small = pins.clears s pin q small

  -- An LED that is set and cleared is off, and no other changes.
  blink :
      (pin q : ℕ) (s : S)
      → pin < 8
      → out (gpio_out bus gpio 0 pin 0 (pass (gpio_out bus gpio 0 pin 1 s))) q
        ≡ (if q == pin then false else out s q)
  blink pin q s small = ground (
    arith,
    clear_pin pin q (pass (gpio_out bus gpio 0 pin 1 s)) small,
    pins.stays (gpio_out bus gpio 0 pin 1 s) q,
    set_pin pin q s small,
  )

  led_loop-out :
      (n i q : ℕ) (s : S)
      → i + n ≤ 8
      → out (led_loop bus gpio pass n i s) q ≡ (if leb i q && ltb q (i + n) then false else out s q)
  unfolding led_loop
  led_loop-out zero i q s small = ground arith
  led_loop-out (suc n) i q s small = ground (
    arith,
    small,
    blink i q s (omega (arith, small)),
    led_loop-out n (suc i) q (gpio_out bus gpio 0 i 0 (pass (gpio_out bus gpio 0 i 1 s)))
        (omega (arith, small)),
  )

  led_rounds-out :
      (n q : ℕ) (s : S)
      → out (led_rounds bus gpio pass (suc n) s) q ≡ (if ltb q 8 then false else out s q)
  unfolding led_rounds
  led_rounds-out zero q s = ground (arith, led_loop-out num_leds 0 q s (omega arith))
  led_rounds-out (suc n) q s = ground (
    arith,
    led_loop-out num_leds 0 q s (omega arith),
    led_rounds-out n q (led_loop bus gpio pass num_leds 0 s),
  )

  -- On a GPIO core that keeps to the contract, `leds_test` ends with the LEDs 0, 2, 4 and 6 of the eight
  -- on and the others off, whatever they were before, and leaves the other pins as they were.
  pub leds_test-output :
      (s : S) (q : ℕ)
      → pins.output (leds_test bus gpio pass s) q
        ≡ (if ltb q 8 then q % 2 == 0 else pins.output s q)
  unfolding leds_test
  leds_test-output s q =
      let s1 = led_rounds bus gpio pass 4 s in
      let s2 = gpio_out bus gpio 0 0 1 s1 in
      let s3 = gpio_out bus gpio 0 2 1 s2 in
      let s4 = gpio_out bus gpio 0 4 1 s3 in
      ground (
        arith,
        led_rounds-out 3 q s,
        set_pin 0 q s1 (omega arith),
        set_pin 2 q s2 (omega arith),
        set_pin 4 q s3 (omega arith),
        set_pin 6 q s4 (omega arith),
      )
