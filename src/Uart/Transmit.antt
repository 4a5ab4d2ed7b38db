-- ===== src/Uart/Transmit.antt =====
-- What the serial port sends.
mod Tests
use bpm_gw.Base.{
  ℕ, zero, suc, ◌+◌, ◌≡◌, refl, sym, ap, ◌∙◌, Bool, true, false, Option, some, none, List, [], ◌∷◌,
  ◌++◌, bit_and, ◌==◌, if◌then◌else◌, ◌>>=◌, inl, inr, Bool-cases, append-nil, Option-cases,
  append_assoc,
}
use bpm_gw.Bus.{Bus, wait, idle, Settles}
use bpm_gw.Uart.{
  uart_sr_tx_busy, default_uart, uart_put, uart_write_byte, uart_write_string, uart_write,
}

-- The contract of a UART at the address `a`: `sent` is what it has sent. Reads of the status leave
-- that as it is, the port is idle after at most `fuel` reads, and a byte that is written after a read
-- that found the port idle is sent.
pub record Transmitter {S : Type 0} (bus : Bus S) (fuel a : ℕ) : Type 0 where
  pub sent : S → List ℕ
  pub keeps : (s : S) → sent (bus.read s a).1 ≡ sent s
  pub settles : (s : S) → Settles bus fuel a uart_sr_tx_busy s
  pub sends :
      (s : S) (b : ℕ)
      → idle bus a uart_sr_tx_busy s ≡ true
      → sent (bus.write (bus.read s a).1 (a + 8) b) ≡ sent s ++ (b ∷ [])

-- A line feed is sent behind a carriage return.
abbrev pub expand_byte : ℕ → List ℕ
expand_byte b = if b == 10 then 13 ∷ b ∷ [] else b ∷ []

abbrev pub expand : List ℕ → List ℕ
expand [] = []
expand (c ∷ cs) = expand_byte c ++ expand cs

module _ {S : Type 0} (bus : Bus S) (fuel : ℕ) (uart : ℕ → ℕ) (id : ℕ)
    (port : Transmitter bus fuel (uart id)) where
  wait_then_send :
      (n b : ℕ) (s : S)
      → Settles bus n (uart id) uart_sr_tx_busy s
      → (s' : S) × ((wait bus n (uart id) uart_sr_tx_busy s >>= λ s1.
            some (bus.write s1 (uart id + 8) b))
          ≡ some s')
        × (port.sent s' ≡ port.sent s ++ (b ∷ []))
  unfolding wait
  wait_then_send zero b s h = absurd h
  wait_then_send (suc n) b s h = elim (Bool-cases (idle bus (uart id) uart_sr_tx_busy s)) [
    | inl free ↦
        (bus.write (bus.read s (uart id)).1 (uart id + 8) b, rw free refl, port.sends s b free)
    | inr busy ↦
        let (s', e, out) = wait_then_send n b (bus.read s (uart id)).1 (later busy h) in
        (s', rw busy e, out ∙ ap (λ (l : List ℕ). l ++ (b ∷ [])) (port.keeps s))
  ]
    where
      later :
          idle bus (uart id) uart_sr_tx_busy s ≡ false
          → Settles bus (suc n) (uart id) uart_sr_tx_busy s
          → Settles bus n (uart id) uart_sr_tx_busy (bus.read s (uart id)).1
      later busy (inl free) = cc
      later busy (inr rest) = rest

  uart_put-sends :
      (b : ℕ) (s : S)
      → (s' : S) × (uart_put bus fuel uart id b s ≡ some s')
        × (port.sent s' ≡ port.sent s ++ (b ∷ []))
  unfolding uart_put
  uart_put-sends b s = wait_then_send fuel b s (port.settles s)

  uart_write_byte-sends :
      (b : ℕ) (s : S)
      → (s' : S) × (uart_write_byte bus fuel uart id b s ≡ some s')
        × (port.sent s' ≡ port.sent s ++ expand_byte b)
  unfolding uart_write_byte
  uart_write_byte-sends b s = elim (Bool-cases (b == 10)) [
    | inl feed ↦
        let (s1, e1, out1) = uart_put-sends 13 s in
        let (s2, e2, out2) = uart_put-sends b s1 in
        (
          s2,
          rw (feed, e1) e2,
          rw feed (
              out2
              ∙ ap (λ (l : List ℕ). l ++ (b ∷ [])) out1
              ∙ append_assoc (port.sent s) (13 ∷ []) (b ∷ [])),
        )
    | inr plain ↦ let (s1, e1, out1) = uart_put-sends b s in (s1, rw plain e1, rw plain out1)
  ]

  -- On a port that keeps to the contract, writing a string ends, and what has been sent grows by the
  -- string with a carriage return before each line feed.
  pub uart_write_string-sends :
      (cs : List ℕ) (s : S)
      → (s' : S) × (uart_write_string bus fuel uart id cs s ≡ some s')
        × (port.sent s' ≡ port.sent s ++ expand cs)
  unfolding uart_write_string
  uart_write_string-sends [] s = (s, refl, sym (append-nil (port.sent s)))
  uart_write_string-sends (c ∷ cs) s =
      let (s1, e1, out1) = uart_write_byte-sends c s in
      let (s2, e2, out2) = uart_write_string-sends cs s1 in
      (
        s2,
        rw e1 e2,
        out2
            ∙ ap (λ (l : List ℕ). l ++ expand cs) out1
            ∙ append_assoc (port.sent s) (expand_byte c) (expand cs),
      )

-- Whatever port `uart_write` is called for, the bytes go to the first one, like a string written to it.
pub uart_write-default :
    {S : Type 0} (bus : Bus S) (fuel : ℕ) (uart : ℕ → ℕ) (id : ℕ) (cs : List ℕ) (s : S)
    → uart_write bus fuel uart id cs s ≡ uart_write_string bus fuel uart default_uart cs s
unfolding uart_write uart_write_string
uart_write-default bus fuel uart id [] s = refl
uart_write-default bus fuel uart id (c ∷ cs) s =
    elim (Option-cases (uart_write_byte bus fuel uart default_uart c s)) [
      | inl e ↦ rw e refl
      | inr (s1, e) ↦ rw e (uart_write-default bus fuel uart id cs s1)
    ]
