-- ===== src/Util.antt =====
-- history/embedded-sw/dev/util.c: the calendar of `format_time`, `memcpy` and `memcmp`.
-- `unsigned long` has 32 bits on the LM32. `format_time` gives the numbers that it hands to `sprintf`,
-- which is the C library's. `none` is a loop that needs more fuel, or a month that there is not.
pub mod Calendar
pub mod Gregorian
use bpm_gw.Base.{
  ℕ, zero, suc, ◌+◌, ◌-◌, ◌*◌, ◌/◌, ◌%◌, ◌^◌, Bool, not, ◌&&◌, ◌||◌, Option, none, some, List, [],
  ◌∷◌, ◌==◌, leb, if◌then◌else◌, ◌>>=◌, ℤ, pos, negsuc,
}

abbrev pub secs_day : ℕ
secs_day = 24 * 60 * 60

abbrev pub leapyear : ℕ → Bool
leapyear year = (year % 4 == 0) && (not (year % 100 == 0) || (year % 400 == 0))

abbrev pub yearsize : ℕ → ℕ
yearsize year = if leapyear year then 366 else 365

-- the rows of `_ytab`
abbrev pub ytab : Bool → List ℕ
ytab leap =
    let february : ℕ = if leap then 29 else 28 in
    31 ∷ february ∷ 31 ∷ 30 ∷ 31 ∷ 30 ∷ 31 ∷ 31 ∷ 30 ∷ 31 ∷ 30 ∷ 31 ∷ []

pub record Tm : Type 0 where
  pub wday : ℕ
  pub mon : ℕ
  pub mday : ℕ
  pub year : ℕ
  pub hour : ℕ
  pub min : ℕ
  pub sec : ℕ

unfoldable pub year_loop : ℕ → ℕ → ℕ → Option (ℕ × ℕ)
year_loop zero year dayno = none
year_loop (suc fuel) year dayno =
    let rest = year_loop fuel (suc year) (dayno - yearsize year) in
    if leb (yearsize year) dayno then rest else some (year, dayno)

-- The months from the number `mon` on are those of the list.
unfoldable pub month_loop : List ℕ → ℕ → ℕ → Option (ℕ × ℕ)
month_loop [] mon dayno = none
month_loop (days ∷ rest) mon dayno =
    let later = month_loop rest (suc mon) (dayno - days) in
    if leb days dayno then later else some (mon, dayno)

unfoldable pub format_time : ℕ → ℕ → Option Tm
unfolding year_loop month_loop
format_time fuel t =
    let dayclock = t % 2 ^ 32 % secs_day in
    let dayno = t % 2 ^ 32 / secs_day in
    year_loop fuel 1970 dayno >>= λ y. month_loop (ytab (leapyear y.0)) 0 y.1 >>= λ m.
    some (record {
      wday = (dayno + 4) % 7;
      mon = m.0;
      mday = m.1 + 1;
      year = y.0;
      hour = dayclock / 3600;
      min = dayclock % 3600 / 60;
      sec = dayclock % 60;
    })

-- The loop of `memcpy` from the byte `i` on, with `n` bytes left.
unfoldable pub memcpy_loop : ℕ → ℕ → (ℕ → ℕ) → ℕ → ℕ → ℕ → ℕ
memcpy_loop zero i memory a b = memory
memcpy_loop (suc n) i memory a b =
    memcpy_loop n (suc i) (λ j. if j == a + i then memory (b + i) else memory j) a b

unfoldable pub memcpy : (ℕ → ℕ) → ℕ → ℕ → ℕ → ℕ → ℕ
unfolding memcpy_loop
memcpy memory a b len = memcpy_loop len 0 memory a b

-- the difference of two bytes
abbrev pub byte_diff : ℕ → ℕ → ℤ
byte_diff x y = if leb y x then pos (x - y) else negsuc (y - x - 1)

-- The loop of `memcmp` from the byte `i` on, where the bytes before are equal.
unfoldable pub memcmp_loop : ℕ → ℕ → (ℕ → ℕ) → ℕ → ℕ → ℤ
memcmp_loop zero i memory a b = pos 0
memcmp_loop (suc n) i memory a b =
    let rest = memcmp_loop n (suc i) memory a b in
    if memory (a + i) == memory (b + i) then rest else byte_diff (memory (a + i)) (memory (b + i))

unfoldable pub memcmp : (ℕ → ℕ) → ℕ → ℕ → ℕ → ℤ
unfolding memcmp_loop
memcmp memory a b len = memcmp_loop len 0 memory a b
