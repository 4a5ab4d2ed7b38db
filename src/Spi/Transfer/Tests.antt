-- ===== src/Spi/Transfer/Tests.antt =====
-- A core that ends each exchange at once.
use bpm_gw.Base.{
  ℕ, ◌≡◌, refl, true, some, [], ◌∷◌, ◌++◌, bit_and, bit_or, ◌==◌, if◌then◌else◌, ◌*◌, ◌%◌, ◌^◌, inl,
  inr, Bool-cases,
}
use bpm_gw.Bus.{Bus}
use bpm_gw.Spi.{spi_ctrl_char_len, oc_spi_txrx}
use bpm_gw.Spi.Transfer.{Log, started, Core, oc_spi_txrx-log}

abbrev shown : ℕ → ℕ
shown c = if bit_and c 0x100 == 0 then c else 0

abbrev spi_bus : Bus Log
spi_bus = record {
  read = λ s r. (shown s.ctrl, s);
  write = λ s r v.
      (if r == 0x3010
        then (if bit_and v 0x100 == 0 then record s { ctrl = v } else started v s)
        else if r == 0x3000
        then record s { tx = v }
        else record s { ss = v });
}

shown_idle : (c : ℕ) → (bit_and (shown c) 0x100 == 0) ≡ true
shown_idle c = elim (Bool-cases (bit_and c 0x100 == 0)) [
  | inl quiet ↦ rw quiet quiet
  | inr busy ↦ rw busy refl
]

spi_bus-Core : Core spi_bus 1 0x3000
spi_bus-Core = record {
  log = λ s. s;
  reads = λ s r. refl;
  controls = λ s c h. rw h refl;
  reads_back = λ s h. rw h refl;
  starts = λ s c h. rw h refl;
  loads = λ s v. refl;
  selects = λ s v. refl;
  settles = λ s. inl (shown_idle s.ctrl);
}

abbrev at_rest : Log
at_rest = record { ctrl = 0; tx = 0; ss = 0; exchanges = [] }

oc_spi_txrx-log_example :
    (out : ℕ) × (s' : Log) × (oc_spi_txrx spi_bus 1 0x3000 (18 * 2 ^ 9) 2 24 0x8001 at_rest
      ≡ some (out, s'))
    × ((spi_bus-Core.log s').exchanges
        ≡ (spi_bus-Core.log at_rest).exchanges
          ++ (record {
            control = bit_or (bit_or (18 * 2 ^ 9) (spi_ctrl_char_len 24)) 0x100;
            sent = 0x8001;
            selected = 2 ^ 2 % 2 ^ 32;
          }
              ∷ []))
oc_spi_txrx-log_example = oc_spi_txrx-log spi_bus 1 0x3000 spi_bus-Core 18 2 24 0x8001 at_rest
