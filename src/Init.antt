-- ===== src/Init.antt =====
-- The init functions of history/embedded-sw/dev (gpio, dma, timer, ethmac_adapt, uart, onewire,
-- i2c; that of spi stands with its driver), which walk the `size` nodes of a device list and fill an array of base addresses.
-- `memmgr_alloc` is a library that the code only calls; the array that it gives is the list of the
-- entries written so far. `none` is an access through a null pointer.
pub mod Walk
pub mod Search
use bpm_gw.Base.{
  ℤ, ℕ, zero, suc, ◌+◌, ◌*◌, ◌/◌, ◌%◌, ◌^◌, Bool, true, false, Option, none, some, List, [], ◌∷◌,
  ◌++◌, bit_and, bit_or, ◌==◌, if◌then◌else◌, ◌>>=◌, get_elem?,
}
use bpm_gw.Bus.{Bus, ok, failed}
use bpm_gw.Sdb.{DevNode, DevList}

-- `for (i = 0, dev_p = devl->devices; i < devl->size; ++i, dev_p = dev_p->next)`, with `n` rounds
-- left; `body` has the base address, and says whether the loop goes on.
unfoldable pub each_node {ℓ} :
    {A : Type ℓ} → (ℕ → A → Bool × A) → List DevNode → ℕ → Option ℕ → A → Option (Bool × A)
each_node body nodes zero p a = some (true, a)
each_node body nodes (suc n) p a = p >>= λ i. get_elem? nodes i >>= λ d.
    (let next = each_node body nodes n d.next (body d.base a).1 in
      if (body d.base a).0 then next else some (false, (body d.base a).1))

-- The global array of handles, and the devices.
pub record Driver (S : Type 0) : Type 0 where
  pub handles : List ℕ
  pub bus_state : S

-- The frame of all init functions.
unfoldable pub init_with : {S : Type 0} → (ℕ → S → Bool × S) → DevList → S → Option (ℤ × Driver S)
unfolding each_node
init_with setup l s = elim l.first [
  | none ↦ some (failed, record { handles = []; bus_state = s })
  | some p ↦
      each_node
        (λ base d. (
          (setup base d.bus_state).0,
          record { handles = d.handles ++ (base ∷ []); bus_state = (setup base d.bus_state).1 },
        ))
        l.nodes l.size (some p) (record { handles = []; bus_state = s })
      >>= λ r. some ((if r.0 then ok else failed), r.1)
]

module _ {S : Type 0} (bus : Bus S) where
  unfoldable pub gpio_init : DevList → S → Option (ℤ × Driver S)
  unfolding init_with
  gpio_init = init_with (λ base s. (true, s))

  unfoldable pub dma_init : DevList → S → Option (ℤ × Driver S)
  unfolding init_with
  dma_init = init_with (λ base s. (true, s))

  unfoldable pub timer_init : DevList → S → Option (ℤ × Driver S)
  unfolding init_with
  timer_init = init_with (λ base s. (true, s))

  unfoldable pub ethmac_adapt_init : DevList → S → Option (ℤ × Driver S)
  unfolding init_with
  ethmac_adapt_init = init_with (λ base s. (true, s))

  -- `CALC_BAUD(UART_BAUDRATE)` with CPU_CLOCK = 100000000 and UART_BAUDRATE = 115200, stored in
  -- `BCR`, the second word
  abbrev pub calc_baud : ℕ → ℕ
  calc_baud baudrate = (baudrate * 8 * 2 ^ 9 + 100000000 / 2 ^ 8) / (100000000 / 2 ^ 7)

  unfoldable pub uart_init : DevList → S → Option (ℤ × Driver S)
  unfolding init_with
  uart_init = init_with (λ base s. (true, bus.write s (base + 4) (calc_baud 115200)))

  -- `CDR`, the second word, has the dividers 499 and 99
  unfoldable pub owr_init : DevList → S → Option (ℤ × Driver S)
  unfolding init_with
  owr_init = init_with (λ base s. (true, bus.write s (base + 4) (bit_or 499 (99 * 2 ^ 16))))

  -- One core: `CTR`, the third word, is cleared, the prescaler 199 goes to `PREL` and `PREH`, and then
  -- the core is enabled. A core that does not read back as enabled ends the loop.
  unfoldable pub i2c_setup : ℕ → S → Bool × S
  i2c_setup base s =
      let s1 = bus.write s (base + 8) 0 in
      let s2 = bus.write s1 base (bit_and 199 0xFF) in
      let s3 = bus.write s2 (base + 4) (bit_and (199 / 2 ^ 8) 0xFF) in
      let s4 = bus.write s3 (base + 8) (2 ^ 7) in
      let (v, s5) = bus.read s4 (base + 8) in (if bit_and v (2 ^ 7) == 0 then false else true, s5)

  unfoldable pub i2c_init : DevList → S → Option (ℤ × Driver S)
  unfolding init_with i2c_setup
  i2c_init = init_with i2c_setup
