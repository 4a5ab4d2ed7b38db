-- ===== src/Dma.antt =====
-- history/embedded-sw/dev/dma.c and dev/ethmac_adapt.c: the registers of the DMA core and of the
-- adapter between it and the Ethernet MAC, which the functions read and write one by one.
-- A result of type `int` is kept as the 32 bits that are read.
use bpm_gw.Base.{ℕ, ◌+◌, ℤ}
use bpm_gw.Bus.{Bus, ok}

module _ {S : Type 0} (bus : Bus S) (dma : ℕ → ℕ) where
  -- `RD_ADDR`
  unfoldable read_is_addr : ℕ → S → ℕ × S
  read_is_addr id s = bus.read s (dma id)

  -- `WR_ADDR`
  unfoldable write_is_addr : ℕ → ℕ → S → S
  write_is_addr id addr s = bus.write s (dma id + 4) addr

  -- `RD_STRD`
  unfoldable read_strd : ℕ → S → ℕ × S
  read_strd id s = bus.read s (dma id + 8)

  -- `WR_STRD`
  unfoldable write_strd : ℕ → ℕ → S → S
  write_strd id strd s = bus.write s (dma id + 12) strd

  -- `TR_COUNT`
  unfoldable read_tr_count : ℕ → S → ℕ × S
  read_tr_count id s = bus.read s (dma id + 16)

module _ {S : Type 0} (bus : Bus S) (ethmac_adapt : ℕ → ℕ) where
  -- `base_rx` at 8, then `base_tx` at 4
  unfoldable ethmac_adapt_set_base : ℕ → ℕ → ℕ → S → ℤ × S
  ethmac_adapt_set_base id base_rx base_tx s =
      (ok, bus.write (bus.write s (ethmac_adapt id + 8) base_rx) (ethmac_adapt id + 4) base_tx)

  -- `length`
  unfoldable ethmac_adapt_set_length : ℕ → ℕ → S → ℤ × S
  ethmac_adapt_set_length id length s = (ok, bus.write s (ethmac_adapt id + 12) length)

  -- `doit`
  unfoldable ethmac_adapt_go : ℕ → S → ℤ × S
  ethmac_adapt_go id s = (ok, bus.write s (ethmac_adapt id) 1)
