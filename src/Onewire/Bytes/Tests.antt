-- ===== src/Onewire/Bytes/Tests.antt =====
-- The 1-wire driver with a core that has nothing on its line.
use bpm_gw.Base.{ℕ, zero, suc, ◌≤◌, ◌≡◌, refl, some, bit_and, arith}
use bpm_gw.Bus.{Bus, wait, ok, failed}
use bpm_gw.Onewire.{read_byte, write_byte, oc_owr_slot}
use bpm_gw.Onewire.Bytes.{write_byte-Echoes}

-- The line keeps the bit that is written; the core is ready when it is read first.
abbrev open_line : Bus ℕ
open_line = record { read = λ s a. (s, s); write = λ s a v. bit_and v 1 }

-- A core whose line is held down by a device.
abbrev held_line : Bus ℕ
held_line = record { read = λ s a. (0, s); write = λ s a v. s }

open_line_reads : read_byte open_line 1 0 3 0 ≡ some (0xFF, 1)
unfolding read_byte oc_owr_slot wait
open_line_reads = refl

held_line_fails : write_byte held_line 1 0 3 0xA5 0 ≡ some (failed, 0)
unfolding write_byte oc_owr_slot wait
held_line_fails = refl

open_line_echoes : (b s : ℕ) → b ≤ 1 → (s' : ℕ) × (oc_owr_slot open_line 1 0 3 b s ≡ some (b, s'))
unfolding oc_owr_slot wait
open_line_echoes zero s h = (0, refl)
open_line_echoes (suc zero) s h = (1, refl)
open_line_echoes (suc (suc b)) s h = absurd (omega arith)

write_byte-Echoes_example : (s' : ℕ) × (write_byte open_line 1 0 3 0xA5 0 ≡ some (ok, s'))
write_byte-Echoes_example = write_byte-Echoes open_line 1 0 3 0xA5 0 open_line_echoes
