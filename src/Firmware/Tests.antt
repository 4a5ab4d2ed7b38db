-- ===== src/Firmware/Tests.antt =====
-- A board whose eight LEDs and two buttons are one word, and a bus with one device of each kind.
use bpm_gw.Base.{
  ℤ, ℕ, ◌≡◌, refl, Bool, true, some, List, [], ◌∷◌, ◌==◌, ltb, if◌then◌else◌, arith, zero, suc, ◌/◌,
  ◌%◌, ◌<◌, ◌&&◌,
}
use bpm_gw.Bus.{Bus, ok, failed}
use bpm_gw.Sdb.{SdbRecord, Rom, sdb_find_devices}
use bpm_gw.Init.{uart_init, gpio_init, dma_init, ethmac_adapt_init}
use bpm_gw.Ethmac.Registers.{addresses, ethmac_init}
use bpm_gw.Interrupts.{Machine, no_handler, int_init}
use bpm_gw.Firmware.Start.{Handles, dbe_init}
use bpm_gw.Firmware.Start.Order.{Started, dbe_init-Started}
use bpm_gw.Firmware.{leds_test, button_test, button_rounds, button_loop}
use bpm_gw.Firmware.Panel.{Pins, leds_test-output}
use bpm_gw.Firmware.Buttons.{any, levels0, levels1, button_test-levels}
use bpm_gw.Gpio.{pin_mask, gpio_in}

-- The writes, the latest first.
abbrev Log : Type 0
Log = List (ℕ × ℕ)

abbrev bus : Bus Log
bus = record { read = λ s a. (0, s); write = λ s a v. (a, v) ∷ s }

abbrev device : ℕ → ℕ → SdbRecord
device base id = record { record_type = 1; child_low = 0; addr_first_low = base; device_id = id }

-- The memory, the DMA, the Ethernet MAC and its adapter, the UART and the GPIO.
abbrev rom : Rom
rom sdb =
    device 0x10 0x66cfeb52
    ∷ device 0x20 0xcababa56
    ∷ device 0x30 0xf8cfeb16
    ∷ device 0x40 0x2ff9a28e
    ∷ device 0x50 0x8a5719ae
    ∷ device 0x60 0x35aa6b95
    ∷ []

-- no GPIO
abbrev short_rom : Rom
short_rom sdb = device 0x20 0xcababa56 ∷ device 0x50 0x8a5719ae ∷ []

abbrev machine : Machine Log
machine = record { handlers = λ i. no_handler; cpu = [] }

abbrev no_handles : Handles
no_handles = record { uart = []; dma = []; gpio = []; ethmac = []; ethmac_adapt = [] }

abbrev after_uart : Machine Log
after_uart = record machine { cpu = (0x54, 604) ∷ [] }

abbrev stopped : ℤ × Handles × Machine Log
stopped = (
  failed,
  record { uart = 0x50 ∷ []; dma = 0x20 ∷ []; gpio = []; ethmac = []; ethmac_adapt = [] },
  after_uart,
)

stops : dbe_init bus bus 1 short_rom no_handles machine ≡ some stopped
unfolding dbe_init sdb_find_devices uart_init gpio_init dma_init
stops = refl

abbrev going : ℤ × Handles × Machine Log
going = (
  ok,
  record {
    uart = 0x50 ∷ [];
    dma = 0x20 ∷ [];
    gpio = 0x60 ∷ [];
    ethmac = addresses 0x30 0x10 ∷ [];
    ethmac_adapt = 0x40 ∷ [];
  },
  (int_init bus after_uart).1,
)

goes : dbe_init bus bus 1 rom no_handles machine ≡ some going
unfolding dbe_init sdb_find_devices uart_init gpio_init dma_init ethmac_init ethmac_adapt_init
    int_init
goes = refl

dbe_init-Started_example : Started bus bus (sdb_find_devices 1 rom) no_handles machine going
dbe_init-Started_example = dbe_init-Started bus bus 1 rom no_handles machine going goes

-- The place of the bit of a mask.
abbrev pin_of : ℕ → ℕ → ℕ
pin_of zero v = 0
pin_of (suc n) v = let rest = pin_of n (v / 2) in if v == 1 then 0 else suc rest

pin_of-pin_mask : (pin : ℕ) → pin < 8 → pin_of 32 (pin_mask pin) ≡ pin
pin_of-pin_mask zero h = refl
pin_of-pin_mask (suc zero) h = refl
pin_of-pin_mask (suc (suc zero)) h = refl
pin_of-pin_mask (suc (suc (suc zero))) h = refl
pin_of-pin_mask (suc (suc (suc (suc zero)))) h = refl
pin_of-pin_mask (suc (suc (suc (suc (suc zero))))) h = refl
pin_of-pin_mask (suc (suc (suc (suc (suc (suc zero)))))) h = refl
pin_of-pin_mask (suc (suc (suc (suc (suc (suc (suc zero))))))) h = refl
pin_of-pin_mask (suc (suc (suc (suc (suc (suc (suc (suc n)))))))) h = absurd (omega (arith, h))

-- The state is the output of each pin; the core is at 0x60.
abbrev panel : Bus (ℕ → Bool)
panel = record {
  read = λ s a. (0, s);
  write = λ s a v. (λ q. if q == pin_of 32 v then a == 0x64 else s q);
}

abbrev panel_pins : Pins panel (λ s. s) 0x60
panel_pins = record {
  output = λ s q. s q;
  sets = λ s pin q h. rw (pin_of-pin_mask pin h) refl;
  clears = λ s pin q h. rw (pin_of-pin_mask pin h) refl;
  stays = λ s q. refl;
}

leds_test-output_example :
    leds_test panel (λ id. 0x60) (λ s. s) (λ q. true) 3 ≡ (if ltb 3 8 then 3 % 2 == 0 else true)
leds_test-output_example = leds_test-output panel (λ id. 0x60) (λ s. s) panel_pins (λ q. true) 3

-- The button 1 is pressed first, and the button 0 in the third round.
abbrev buttons : Bus ℕ
buttons = record {
  read = λ s a. ((if s == 0 then 2 else if s == 2 then 1 else 0), s);
  write = λ s a v. s;
}

both_pressed : button_test buttons (λ id. 0x60) suc 0 ≡ (true, 2)
unfolding button_test button_rounds button_loop gpio_in
both_pressed = refl

button_test-levels_example :
    (button_test buttons (λ id. 0x60) suc 0).0
    ≡ (any (levels0 buttons (λ id. 0x60) suc 10 0) && any (levels1 buttons (λ id. 0x60) suc 10 0))
button_test-levels_example = button_test-levels buttons (λ id. 0x60) suc 0
