-- ===== src/Timer/Delay/Tests.antt =====
-- A clock whose ticks have 64 cycles, and which is read every seven cycles.
use bpm_gw.Base.{ℕ, suc, ◌+◌, ◌*◌, ◌/◌, ◌%◌, ◌^◌, ◌≤◌, ◌≡◌, refl, some, arith}
use bpm_gw.Bus.{Bus}
use bpm_gw.Timer.{timer_delay}
use bpm_gw.Timer.Delay.{Counter, timer_delay-waits}

abbrev clock : Bus ℕ
clock = record { read = λ s a. (s / 64 % 2 ^ 32, s + 7); write = λ s a v. s }

abbrev clock_counter : Counter clock 0 64 1
clock_counter = record {
  cycles = λ s. s;
  ticks = λ s. s / 64;
  from = λ s. omega arith;
  before = λ s. omega arith;
  shows = λ s. refl;
  advances = λ s. omega arith;
  steps = λ s. omega arith;
}

timer_delay-waits_example :
    (s' : ℕ) × (timer_delay clock 0 (suc (10 * 64)) 10 6400 ≡ some s')
    × (clock_counter.ticks 6400 + 10 ≤ clock_counter.ticks s')
timer_delay-waits_example = timer_delay-waits clock 0 64 1 clock_counter 10 6400 (omega arith)
