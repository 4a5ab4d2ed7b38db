-- ===== src/Timer.antt =====
-- history/embedded-sw/dev/timer.c: waiting for a number of ticks.
-- `a` is the address of the counter, which the code finds as `tics[TICS_ID]`. `none` is a loop that
-- needs more fuel.
pub mod Delay
use bpm_gw.Base.{ℕ, zero, suc, ◌+◌, ◌%◌, ◌^◌, Option, none, some, ltb, if◌then◌else◌}
use bpm_gw.Bus.{Bus}

module _ {S : Type 0} (bus : Bus S) (a : ℕ) where
  abbrev pub timer_get_tics : S → ℕ × S
  timer_get_tics s = bus.read s a

  -- `while (t_start + how_long > timer_get_tics()) ;`
  unfoldable pub delay_loop : ℕ → ℕ → S → Option S
  delay_loop zero until s = none
  delay_loop (suc fuel) until s =
      let (now, s1) = timer_get_tics s in
      let rest = delay_loop fuel until s1 in if ltb now until then rest else some s1

  unfoldable pub timer_delay : ℕ → ℕ → S → Option S
  unfolding delay_loop
  timer_delay fuel how_long s =
      let (t_start, s1) = timer_get_tics s in delay_loop fuel ((t_start + how_long) % 2 ^ 32) s1
