-- ===== src/Fmc516/Delay/Tests.antt =====
-- Delays on a bank of registers.
use bpm_gw.Base.{ℕ, ◌+◌, ◌%◌, ◌^◌, refl, arith, ◌==◌, ==_self, ==_ne, if◌then◌else◌}
use bpm_gw.Bus.{Bus}
use bpm_gw.Fmc516.{fn_dly}
use bpm_gw.Fmc516.Delay.{Registers}

-- Registers of 32 bits that keep what is written.
abbrev bank : Bus (ℕ → ℕ)
bank = record { read = λ s r. (s r % 2 ^ 32, s); write = λ s r v. (λ q. if q == r then v else s q) }

bank-Registers : Registers bank 0x1000
bank-Registers = record {
  value = λ s r. s r % 2 ^ 32;
  reads = λ s r. refl;
  word = λ s r. omega arith;
  keeps = λ s ch v h. rw (==_self (0x1000 + fn_dly ch)) (omega (arith, h));
  others = λ s r q v h. rw (==_ne q r h) refl;
}

abbrev start : ℕ → ℕ
start r = 0xFFFFFFFF
