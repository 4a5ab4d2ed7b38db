-- ===== src/Spi.antt =====
-- history/embedded-sw/dev/spi.c: transfers on the SPI bus.
-- `a` is the address of the core, which the code finds as `spi[id]`, and `config` its entry of the
-- array `spi_config`. `delay` only lets time pass. `none` is a polling loop that needs more fuel.
pub mod Transfer
pub mod ThreeMode
use bpm_gw.Base.{
  ℕ, zero, suc, ◌+◌, ◌*◌, ◌^◌, ◌%◌, Bool, true, false, Option, some, List, [], ◌∷◌, ◌++◌, bit_and,
  bit_or, ◌==◌, if◌then◌else◌, ◌>>=◌, ℤ,
}
use bpm_gw.Bus.{Bus, wait}
use bpm_gw.Sdb.{DevList}
use bpm_gw.Init.{Driver, init_with}

abbrev pub spi_rx0 : ℕ
spi_rx0 = 0x00

abbrev pub spi_tx0 : ℕ
spi_tx0 = 0x00

abbrev pub spi_ctrl : ℕ
spi_ctrl = 0x10

abbrev pub spi_divider : ℕ
spi_divider = 0x14

abbrev pub spi_ss : ℕ
spi_ss = 0x18

abbrev pub spi_ctrl_bsy : ℕ
spi_ctrl_bsy = 0x100

abbrev pub spi_ctrl_dir : ℕ
spi_ctrl_dir = 0x4000

-- `SPI_CTRL_CHAR_LEN(x)`
abbrev pub spi_ctrl_char_len : ℕ → ℕ
spi_ctrl_char_len x = bit_and x 0x7f

-- `if (flag) config |= mask;`
abbrev pub set_if : Bool → ℕ → ℕ → ℕ
set_if flag mask config = if flag then bit_or config mask else config

-- the entry of `spi_config` that the call leaves
unfoldable pub oc_spi_config : Bool → Bool → Bool → Bool → Bool → ℕ
oc_spi_config ass rx_neg tx_neg lsb ie =
    set_if ie 0x1000
      (set_if lsb 0x800 (set_if rx_neg 0x200 (set_if tx_neg 0x400 (set_if ass 0x2000 0))))

-- The devices with the array `spi_config`.
pub record Configured (S : Type 0) : Type 0 where
  pub spi_config : List ℕ
  pub bus_state : S

module _ {S : Type 0} (bus : Bus S) where
  unfoldable pub spi_init : DevList → Configured S → Option (ℤ × Driver (Configured S))
  unfolding init_with
  spi_init = init_with (λ base c. (
    true,
    record {
      spi_config = c.spi_config ++ (bit_or 0x2000 0x400 ∷ []);
      bus_state =
          bus.write (bus.write c.bus_state (base + spi_divider) (bit_and 99 0xFFFF))
            (base + spi_ctrl) (bit_or 0x2000 0x400);
    },
  ))

module _ {S : Type 0} (bus : Bus S) (fuel a config : ℕ) where
  unfoldable pub oc_spi_three_mode : S → ℕ × S
  oc_spi_three_mode s = let (v, s1) = bus.read s (a + spi_ctrl) in (bit_and v 0x10000, s1)

  -- `SS = (1 << ss); CTRL |= SPI_CTRL_GO_BSY;` and the wait for completion
  unfoldable pub run_transfer : ℕ → S → Option S
  run_transfer ss s =
      let s1 = bus.write s (a + spi_ss) (2 ^ ss % 2 ^ 32) in
      let (v, s2) = bus.read s1 (a + spi_ctrl) in
      wait bus fuel (a + spi_ctrl) spi_ctrl_bsy
        (bus.write s2 (a + spi_ctrl) (bit_or v spi_ctrl_bsy))

  unfoldable pub oc_spi_three_mode_tx : ℕ → ℕ → ℕ → S → Option S
  unfolding run_transfer
  oc_spi_three_mode_tx ss nbits word s =
      let ctrl = bit_or (bit_or config spi_ctrl_dir) (spi_ctrl_char_len nbits) in
      run_transfer ss (bus.write (bus.write s (a + spi_ctrl) ctrl) (a + spi_tx0) word)

  unfoldable pub oc_spi_three_mode_rx : ℕ → ℕ → S → Option (ℕ × S)
  unfolding run_transfer
  oc_spi_three_mode_rx ss nbits s =
      run_transfer ss (bus.write s (a + spi_ctrl) (bit_or config (spi_ctrl_char_len nbits)))
      >>= λ s1. some (bus.read s1 (a + spi_rx0))

  unfoldable pub oc_spi_txrx : ℕ → ℕ → ℕ → S → Option (ℕ × S)
  unfolding run_transfer
  oc_spi_txrx ss nbits word s =
      let ctrl = bit_or config (spi_ctrl_char_len nbits) in
      run_transfer ss (bus.write (bus.write s (a + spi_ctrl) ctrl) (a + spi_tx0) word) >>= λ s1.
      some (bus.read s1 (a + spi_rx0))
