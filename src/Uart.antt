-- ===== src/Uart.antt =====
-- history/embedded-sw/dev/uart.c: the serial port.
-- `uart` gives the address of each core, which the code finds in the global array; the registers are
-- `SR`, `BCR`, `TDR` and `RDR`. `none` is a polling loop that needs more fuel.
pub mod Transmit
use bpm_gw.Base.{
  ℕ, zero, suc, ◌+◌, Option, some, List, [], ◌∷◌, bit_and, ◌==◌, if◌then◌else◌, ◌>>=◌, ℤ, pos,
  negsuc,
}
use bpm_gw.Bus.{Bus, wait, failed}

abbrev pub uart_sr_tx_busy : ℕ
uart_sr_tx_busy = 1

abbrev pub uart_sr_rx_rdy : ℕ
uart_sr_rx_rdy = 2

abbrev pub default_uart : ℕ
default_uart = 0

module _ {S : Type 0} (bus : Bus S) (fuel : ℕ) (uart : ℕ → ℕ) where
  -- `while (uart[id]->SR & UART_SR_TX_BUSY) ; uart[id]->TDR = b;`
  unfoldable pub uart_put : ℕ → ℕ → S → Option S
  uart_put id b s =
      wait bus fuel (uart id) uart_sr_tx_busy s >>= λ s1. some (bus.write s1 (uart id + 8) b)

  -- The call of itself with a carriage return, which is no line feed, is written out.
  unfoldable pub uart_write_byte : ℕ → ℕ → S → Option S
  unfolding uart_put
  uart_write_byte id b s = (if b == 10 then uart_put id 13 s else some s) >>= λ s1. uart_put id b s1

  -- The string up to its null character.
  unfoldable pub uart_write_string : ℕ → List ℕ → S → Option S
  unfolding uart_write_byte
  uart_write_string id [] s = some s
  uart_write_string id (c ∷ cs) s = uart_write_byte id c s >>= λ s1. uart_write_string id cs s1

  -- `nbytes` bytes from `s`; the argument `id` is not used
  unfoldable pub uart_write : ℕ → List ℕ → S → Option S
  unfolding uart_write_byte
  uart_write id [] s = some s
  uart_write id (c ∷ cs) s = uart_write_byte default_uart c s >>= λ s1. uart_write id cs s1

  unfoldable pub uart_poll : ℕ → S → ℕ × S
  uart_poll id s = let (v, s1) = bus.read s (uart id) in (bit_and v uart_sr_rx_rdy, s1)

  unfoldable pub uart_read_byte : ℕ → S → ℤ × S
  unfolding uart_poll
  uart_read_byte id s =
      let (ready, s1) = uart_poll id s in
      let (v, s2) = bus.read s1 (uart id + 12) in
      if ready == 0 then (failed, s1) else (pos (bit_and v 0xFF), s2)
