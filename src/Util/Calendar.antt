-- ===== src/Util/Calendar.antt =====
-- history/embedded-sw/dev/util.c: the date and the time of day that `format_time` finds.
mod Tests
use bpm_gw.Base.{
  ℕ, zero, suc, ◌+◌, ◌-◌, ◌*◌, ◌/◌, ◌%◌, ◌^◌, ◌<◌, ◌≤◌, ◌≡◌, refl, sym, ap, subst, ◌∙◌, Bool, true,
  false, Option, some, List, [], ◌∷◌, length, get_or, leb, if◌then◌else◌, ◌>>=◌, Bool-cases, ◌⊎◌,
  inl, inr, arith,
}
use bpm_gw.Util.{Tm, secs_day, leapyear, yearsize, ytab, year_loop, month_loop, format_time}
use bpm_gw.Util.Gregorian.{
  days_before_year, days_before_month, days_of, seconds_of, IsDate, days_in_first, days_in_all,
  days_of_years, days_of_years-calendar, days_in_first-calendar, days_in_first-suc,
}

month_loop_lem :
    (months : List ℕ) (mon dayno : ℕ)
    → dayno < days_in_all months
    → (k r : ℕ) × (month_loop months mon dayno ≡ some (mon + k, r))
      × (k < length months)
      × (days_in_first k months + r ≡ dayno)
      × (r < get_or months k 0)
unfolding month_loop
month_loop_lem [] mon dayno h = absurd (omega arith)
month_loop_lem (days ∷ rest) mon dayno h = elim (Bool-cases (leb days dayno)) [
  | inl past ↦
      let (k, r, e, lt, total, below) =
        month_loop_lem rest (suc mon) (dayno - days) (ground arith) in
      (suc k, r, rw past (ground (arith, e)), omega arith, ground arith, below)
  | inr this ↦ (0, dayno, rw this (ground arith), omega arith, omega arith, ground arith)
]

year_loop_lem :
    (fuel year dayno : ℕ)
    → dayno < 365 * fuel
    → (k y r : ℕ) × (year_loop fuel year dayno ≡ some (y, r))
      × (y ≡ year + k)
      × (days_of_years k year + r ≡ dayno)
      × (r < yearsize y)
unfolding year_loop
year_loop_lem zero year dayno h = absurd (omega arith)
year_loop_lem (suc fuel) year dayno h = elim (Bool-cases (leb (yearsize year) dayno)) [
  | inl past ↦
      let (k, y, r, e, at, total, below) =
        year_loop_lem fuel (suc year) (dayno - yearsize year) (ground arith) in
      (suc k, y, r, rw past e, omega arith, ground arith, below)
  | inr this ↦ (0, year, dayno, rw this refl, omega arith, omega arith, ground arith)
]

twelve_months : (leap : Bool) → days_in_all (ytab leap) ≡ (if leap then 366 else 365)
twelve_months true = refl
twelve_months false = refl

length-ytab : (leap : Bool) → length (ytab leap) ≡ 12
length-ytab true = refl
length-ytab false = refl

-- the record that `format_time` fills
abbrev assembled : ℕ → ℕ → ℕ → ℕ → ℕ → Tm
assembled days clock y m day = record {
  wday = (days + 4) % 7;
  mon = m;
  mday = day + 1;
  year = y;
  hour = clock / 3600;
  min = clock % 3600 / 60;
  sec = clock % 60;
}

module _ (days clock k y yday : ℕ) (at : y ≡ 1970 + k) (past : days_of_years k 1970 + yday ≡ days)
    (within : clock < secs_day) where
  -- the date, when the month is found
  with_month :
      (m day : ℕ)
      → m < length (ytab (leapyear y))
      → days_in_first m (ytab (leapyear y)) + day ≡ yday
      → day < get_or (ytab (leapyear y)) m 0
      → IsDate (assembled days clock y m day)
        × (seconds_of (assembled days clock y m day) ≡ days * secs_day + clock)
  with_month m day lt total below =
      let twelve = length-ytab (leapyear y) in
      let some_year : 0 < y = omega (arith, at) in
      let sums = days_of_years-calendar k 1970 (omega arith) in
      let years : days_before_year y - days_before_year 1970 ≡ days_of_years k 1970 =
        ap (λ (n : ℕ). days_before_year n - days_before_year 1970) at
        ∙ ap (λ (n : ℕ). n - days_before_year 1970) (sym sums)
        ∙ omega arith in
      let here = days_in_first-calendar y m some_year (omega (arith, lt, twelve)) in
      let next = days_in_first-calendar y (suc m) some_year (omega (arith, lt, twelve)) in
      let one = days_in_first-suc m (ytab (leapyear y)) lt in
      let same : days_of (assembled days clock y m day) ≡ days =
        ap (λ (n : ℕ). n + days_before_month y m + (day + 1 - 1)) years
        ∙ ap (λ (n : ℕ). days_of_years k 1970 + n + (day + 1 - 1)) (sym here)
        ∙ omega (arith, total, past) in
      let ends : day + 1 + days_before_month y m ≤ days_before_month y (suc m) =
        subst (λ (n : ℕ). day + 1 + n ≤ days_before_month y (suc m)) here
          (subst (λ (n : ℕ). day + 1 + days_in_first m (ytab (leapyear y)) ≤ n) next
            (omega (arith, one, below))) in
      (
        record {
          from_1970 = omega (arith, at);
          month_in = omega (arith, lt, twelve);
          day_in = (omega arith, ends);
          time_in = omega (arith, within);
          weekday = ap (λ (n : ℕ). (n + 4) % 7) (sym same);
        },
        ap (λ (n : ℕ). n * 86400 + clock / 3600 * 3600 + clock % 3600 / 60 * 60 + clock % 60) same
            ∙ omega arith,
      )

  -- the date, when the year is found
  with_year :
      yday < yearsize y
      → (d : Tm) × ((month_loop (ytab (leapyear y)) 0 yday >>= λ m.
            some (assembled days clock y m.0 m.1))
          ≡ some d)
        × IsDate d
        × (seconds_of d ≡ days * secs_day + clock)
  with_year small =
      let (m, day, e, lt, total, below) =
        month_loop_lem (ytab (leapyear y)) 0 yday (omega (arith, twelve_months (leapyear y))) in
      let (date, seconds) = with_month m day lt total below in
      (assembled days clock y m day, rw e (ground arith), date, seconds)

-- `format_time` with fuel for 137 years ends at every time; what it finds is a date of the Gregorian
-- calendar with its weekday and a time of day, and they are the time's low 32 bits, counted in seconds from
-- the start of 1970.
pub format_time-seconds_of :
    (fuel t : ℕ)
    → 137 ≤ fuel
    → (d : Tm) × (format_time fuel t ≡ some d) × IsDate d × (seconds_of d ≡ t % 2 ^ 32)
unfolding format_time
format_time-seconds_of fuel t enough =
    let (k, y, yday, e, at, total, below) =
      year_loop_lem fuel 1970 (t % 2 ^ 32 / secs_day) (omega arith) in
    let (d, found, date, seconds) =
      with_year (t % 2 ^ 32 / secs_day) (t % 2 ^ 32 % secs_day) k y yday at total (omega arith)
        below in
    (d, rw e found, date, seconds ∙ omega arith)
