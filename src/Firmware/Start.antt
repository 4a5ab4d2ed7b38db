-- ===== src/Firmware/Start.antt =====
-- history/embedded-sw/dbe_main.c, `dbe_init`: the devices are searched, and the drivers are started one
-- after the other. The registers of the devices and those of the processor are one state here; the memory
-- pool and the prints are left out. `none` is a search that needs more fuel, or an access through a null
-- pointer.
pub mod Order
pub mod Unchanged
use bpm_gw.Base.{
  ℤ, pos, negsuc, ℕ, zero, suc, ◌≡◌, refl, sym, ap, ◌∙◌, ◌⊎◌, inl, inr, Bool, true, false, Option,
  none, some, List, [], ◌∷◌, ◌==◌, if◌then◌else◌, ◌>>=◌, get_elem?, Bool-cases, Option-cases,
  >>=-eq-some, some_inj,
}
use bpm_gw.Bus.{Bus, ok, failed}
use bpm_gw.Sdb.{Rom, DevNode, DevList, sdb_find_devices}
use bpm_gw.Init.{Driver, each_node, init_with, gpio_init, dma_init, uart_init, ethmac_adapt_init}
use bpm_gw.Ethmac.Registers.{Addresses, ethmac_init}
use bpm_gw.Interrupts.{Machine, int_init}

-- The arrays of base addresses that the drivers fill.
pub record Handles : Type 0 where
  pub uart : List ℕ
  pub dma : List ℕ
  pub gpio : List ℕ
  pub ethmac : List Addresses
  pub ethmac_adapt : List ℕ

-- `== -1`
abbrev pub is_failed : ℤ → Bool
is_failed (pos n) = false
is_failed (negsuc n) = n == 0

-- One of the global lists, by its place.
abbrev pub devl : List (Option DevList) → ℕ → Option DevList
devl lists i = get_elem? lists i >>= λ l. l

abbrev pub with_cpu : {S : Type 0} → Machine S → S → Machine S
with_cpu m s = record m { cpu = s }

module _ {S : Type 0} (bus csr : Bus S) where
  abbrev Outcome : Type 0
  Outcome = ℤ × Handles × Machine S

  unfoldable pub start_interrupts : Handles → Machine S → Option Outcome
  start_interrupts h m =
      let (e, m1) = int_init csr m in
      let bad : Option Outcome = some (failed, h, m1) in
      let good : Option Outcome = some (ok, h, m1) in if is_failed e then bad else good

  unfoldable pub start_ethmac_adapt : List (Option DevList) → Handles → Machine S → Option Outcome
  unfolding start_interrupts
  start_ethmac_adapt lists h m = devl lists 3 >>= λ l. ethmac_adapt_init bus l m.cpu >>= λ r.
      (let h1 = record h { ethmac_adapt = r.1.handles } in
        let m1 = with_cpu m r.1.bus_state in
        let bad : Option Outcome = some (failed, h1, m1) in
        let next = start_interrupts h1 m1 in if is_failed r.0 then bad else next)

  unfoldable pub start_ethmac : List (Option DevList) → Handles → Machine S → Option Outcome
  unfolding start_ethmac_adapt
  start_ethmac lists h m = devl lists 2 >>= λ l. devl lists 0 >>= λ mem. ethmac_init l mem >>= λ r.
      (let h1 = record h { ethmac = r.1 } in
        let bad : Option Outcome = some (failed, h1, m) in
        let next = start_ethmac_adapt lists h1 m in if is_failed r.0 then bad else next)

  unfoldable pub start_gpio : List (Option DevList) → Handles → Machine S → Option Outcome
  unfolding start_ethmac
  start_gpio lists h m = devl lists 10 >>= λ l. gpio_init bus l m.cpu >>= λ r.
      (let h1 = record h { gpio = r.1.handles } in
        let m1 = with_cpu m r.1.bus_state in
        let bad : Option Outcome = some (failed, h1, m1) in
        let next = start_ethmac lists h1 m1 in if is_failed r.0 then bad else next)

  unfoldable pub start_dma : List (Option DevList) → Handles → Machine S → Option Outcome
  unfolding start_gpio
  start_dma lists h m = devl lists 1 >>= λ l. dma_init bus l m.cpu >>= λ r.
      (let h1 = record h { dma = r.1.handles } in
        let m1 = with_cpu m r.1.bus_state in
        let bad : Option Outcome = some (failed, h1, m1) in
        let next = start_gpio lists h1 m1 in if is_failed r.0 then bad else next)

  unfoldable pub dbe_init : ℕ → Rom → Handles → Machine S → Option Outcome
  unfolding start_dma
  dbe_init fuel rom h m =
      let lists = sdb_find_devices fuel rom in
      devl lists 9 >>= λ l. uart_init bus l m.cpu >>= λ r.
      (let h1 = record h { uart = r.1.handles } in
        let m1 = with_cpu m r.1.bus_state in
        let bad : Option Outcome = some (failed, h1, m1) in
        let next = start_dma lists h1 m1 in if is_failed r.0 then bad else next)
