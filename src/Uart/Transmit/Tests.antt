-- ===== src/Uart/Transmit/Tests.antt =====
-- A port that is busy for one read after each byte: the state is how busy it is, and what it has sent.
use bpm_gw.Base.{ℕ, ◌≡◌, refl, some, List, [], ◌∷◌, ◌++◌, inl, inr}
use bpm_gw.Bus.{Bus}
use bpm_gw.Uart.{uart_write_string}
use bpm_gw.Uart.Transmit.{Transmitter, expand, uart_write_string-sends}

abbrev port_bus : Bus (ℕ × List ℕ)
port_bus = record { read = λ s a. (s.0, (0, s.1)); write = λ s a v. (1, s.1 ++ (v ∷ [])) }

port-Transmitter : Transmitter port_bus 2 0x100
port-Transmitter = record {
  sent = λ s. s.1;
  keeps = λ s. refl;
  settles = λ s. inr (inl refl);
  sends = λ s b h. refl;
}

uart_write_string-sends_example :
    (s' : ℕ × List ℕ) × (uart_write_string port_bus 2 (λ id. 0x100) 0 (72 ∷ 105 ∷ 10 ∷ []) (1, [])
      ≡ some s')
    × (port-Transmitter.sent s' ≡ port-Transmitter.sent (1, []) ++ expand (72 ∷ 105 ∷ 10 ∷ []))
uart_write_string-sends_example =
    uart_write_string-sends port_bus 2 (λ id. 0x100) 0 port-Transmitter (72 ∷ 105 ∷ 10 ∷ []) (1, [])
