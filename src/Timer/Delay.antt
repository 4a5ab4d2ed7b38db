-- ===== src/Timer/Delay.antt =====
-- How long `timer_delay` of history/embedded-sw/dev/timer.c waits.
mod Tests
use bpm_gw.Base.{
  ℕ, zero, suc, ◌+◌, ◌*◌, ◌%◌, ◌^◌, ◌≤◌, ◌<◌, ◌≡◌, refl, ap, ◌∙◌, true, false, Option, none, some,
  ltb, if◌then◌else◌, arith, inl, inr, Bool-cases,
}
use native.Mathlib.Nat.{mul-le-mul_right}
use native.Mathlib.Decide.{dec_le}
use bpm_gw.Bus.{Bus}
use bpm_gw.Timer.{delay_loop, timer_delay}

-- The contract of the counter: a read takes at least one cycle of the clock, and at most `step` ticks
-- go by. A tick is `per` cycles, so that successive reads may show the same one, and what is read is the
-- low 32 bits of the ticks.
pub record Counter {S : Type 0} (bus : Bus S) (a per step : ℕ) : Type 0 where
  pub cycles : S → ℕ
  pub ticks : S → ℕ
  pub from : (s : S) → ticks s * per ≤ cycles s
  pub before : (s : S) → cycles s < suc (ticks s) * per
  pub shows : (s : S) → (bus.read s a).0 ≡ ticks s % 2 ^ 32
  pub advances : (s : S) → cycles s < cycles (bus.read s a).1
  pub steps : (s : S) → ticks (bus.read s a).1 ≤ ticks s + step

module _ {S : Type 0} (bus : Bus S) (a per step : ℕ) (counter : Counter bus a per step) where
  -- A tick that is reached in cycles is reached in ticks.
  reached : (n : ℕ) (s : S) → n * per ≤ counter.cycles s → n ≤ counter.ticks s
  reached n s h = elim (dec_le n (counter.ticks s)) [
    | yes le ↦ le
    | no past ↦
        let above : suc (counter.ticks s) ≤ n = omega (arith, past) in
        absurd (omega (arith, h, counter.before s, mul-le-mul_right per above))
  ]

  onward : (s : S) → counter.ticks s ≤ counter.ticks (bus.read s a).1
  onward s =
      reached (counter.ticks s) (bus.read s a).1 (omega (arith, counter.from s, counter.advances s))

  delay_loop-waits :
      (fuel until : ℕ) (s : S)
      → until + step < 2 ^ 32
      → counter.ticks s ≤ until + step
      → until * per ≤ counter.cycles s + fuel
      → (s' : S) × (delay_loop bus a (suc fuel) until s ≡ some s') × (until ≤ counter.ticks s')
  unfolding delay_loop
  delay_loop-waits zero until s small near enough =
      let after = reached until s (omega (arith, enough)) in
      let over : ltb (bus.read s a).0 until ≡ false =
        ground (arith, counter.shows s, small, near, after) in
      ((bus.read s a).1, rw over refl, omega (arith, after, onward s))
  delay_loop-waits (suc fuel) until s small near enough =
      elim (Bool-cases (ltb (bus.read s a).0 until)) [
        | inr over ↦
            let after : until ≤ counter.ticks s =
              ground (arith, over, counter.shows s, small, near) in
            ((bus.read s a).1, rw over refl, omega (arith, after, onward s))
        | inl early ↦
            let before : counter.ticks s < until =
              ground (arith, early, counter.shows s, small, near) in
            let (s', e, late) =
              delay_loop-waits fuel until (bus.read s a).1 small
                (omega (arith, before, counter.steps s))
                (omega (arith, enough, counter.advances s)) in
            (s', rw early e, late)
      ]

  -- Where each read takes a cycle of the clock at least, each tick has `per` cycles, and the counter does
  -- not come to the end of its 32 bits before the delay is over, `timer_delay` ends, after at most
  -- `how_long * per + 2` reads, and the ticks that it is to wait have passed.
  pub timer_delay-waits :
      (how_long : ℕ) (s : S)
      → counter.ticks s + how_long + step < 2 ^ 32
      → (s' : S) × (timer_delay bus a (suc (how_long * per)) how_long s ≡ some s')
        × (counter.ticks s + how_long ≤ counter.ticks s')
  unfolding timer_delay
  timer_delay-waits how_long s small =
      let shown = counter.shows s in
      let bound = counter.steps s in
      let exact : ((bus.read s a).0 + how_long) % 2 ^ 32 ≡ counter.ticks s + how_long =
        omega (arith, shown, small) in
      let enough : (counter.ticks s + how_long) * per
          ≤ counter.cycles (bus.read s a).1 + how_long * per =
        omega (arith, counter.from s, counter.advances s) in
      let (s', e, late) =
        delay_loop-waits (how_long * per) (counter.ticks s + how_long) (bus.read s a).1 small
          (omega (arith, bound)) enough in
      (
        s',
        ap (λ (u : ℕ). delay_loop bus a (suc (how_long * per)) u (bus.read s a).1) exact ∙ e,
        late,
      )

  -- Where the sum of the first reading and the delay passes the end of the 32 bits, and the next
  -- reading has not, `timer_delay` ends at that reading, however long it is to wait.
  pub timer_delay-wraps :
      (fuel how_long : ℕ) (s : S)
      → counter.ticks s + step < 2 ^ 32
      → 2 ^ 32 ≤ counter.ticks s + how_long
      → how_long < 2 ^ 32
      → timer_delay bus a (suc fuel) how_long s ≡ some (bus.read (bus.read s a).1 a).1
  unfolding timer_delay delay_loop
  timer_delay-wraps fuel how_long s small past word =
      let at_once : ltb (bus.read (bus.read s a).1 a).0 (((bus.read s a).0 + how_long) % 2 ^ 32)
          ≡ false =
        ground (
          arith,
          counter.shows s,
          counter.shows (bus.read s a).1,
          onward s,
          counter.steps s,
          small,
          past,
          word,
        ) in
      rw at_once refl
