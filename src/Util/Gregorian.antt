-- ===== src/Util/Gregorian.antt =====
-- The Gregorian calendar, and the years and months of history/embedded-sw/dev/util.c in it.
use bpm_gw.Base.{
  ℕ, zero, suc, ◌+◌, ◌-◌, ◌*◌, ◌/◌, ◌%◌, ◌<◌, ◌≤◌, ◌≡◌, refl, ap, true, false, List, [], ◌∷◌,
  length, get_or, leb, if◌then◌else◌, Bool-cases, inl, inr, arith,
}
use bpm_gw.Util.{Tm, leapyear, yearsize, ytab}

-- The Gregorian calendar. The leap years before a year are every fourth, less every hundredth, and every
-- four hundredth again.
abbrev pub leap_years : ℕ → ℕ
leap_years year = (year - 1) / 4 - (year - 1) / 100 + (year - 1) / 400

-- the days from the first of January of the year 0, with its years as long as they are today
abbrev pub days_before_year : ℕ → ℕ
days_before_year year = 365 * year + leap_years year

-- the days of a common year before a month, which is counted from 0
abbrev pub common_days : ℕ → ℕ
common_days mon =
    get_or (0 ∷ 31 ∷ 59 ∷ 90 ∷ 120 ∷ 151 ∷ 181 ∷ 212 ∷ 243 ∷ 273 ∷ 304 ∷ 334 ∷ 365 ∷ []) mon 0

-- the days of a year before a month: from March on there is the leap day
abbrev pub days_before_month : ℕ → ℕ → ℕ
days_before_month year mon =
    common_days mon + (if leb 2 mon then leap_years (suc year) - leap_years year else 0)

-- the days from the start of 1970 to a date
abbrev pub days_of : Tm → ℕ
days_of t =
    days_before_year t.year - days_before_year 1970 + days_before_month t.year t.mon + (t.mday - 1)

-- the seconds from the start of 1970 to a date and time of day
abbrev pub seconds_of : Tm → ℕ
seconds_of t = days_of t * 86400 + t.hour * 3600 + t.min * 60 + t.sec

-- A date of the calendar, with its weekday: the first day of 1970 was a Thursday.
pub record IsDate (t : Tm) : Type 0 where
  pub from_1970 : 1970 ≤ t.year
  pub month_in : t.mon < 12
  pub day_in :
      (1 ≤ t.mday)
      × (t.mday + days_before_month t.year t.mon ≤ days_before_month t.year (suc t.mon))
  pub time_in : (t.hour < 24) × (t.min < 60) × (t.sec < 60)
  pub weekday : t.wday ≡ (days_of t + 4) % 7

-- the days of the first `k` months of a list
abbrev pub days_in_first : ℕ → List ℕ → ℕ
days_in_first zero months = 0
days_in_first (suc k) [] = 0
days_in_first (suc k) (days ∷ rest) = days + days_in_first k rest

abbrev pub days_in_all : List ℕ → ℕ
days_in_all [] = 0
days_in_all (days ∷ rest) = days + days_in_all rest

-- the days of `k` years from a year on
abbrev pub days_of_years : ℕ → ℕ → ℕ
days_of_years zero year = 0
days_of_years (suc k) year = yearsize year + days_of_years k (suc year)

-- The code's years and months are those of the calendar.
leap_years-suc :
    (year : ℕ)
    → 0 < year
    → leap_years (suc year) ≡ leap_years year + (if leapyear year then 1 else 0)
leap_years-suc year h = ground (arith, h)

pub days_of_years-calendar :
    (k year : ℕ)
    → 0 < year
    → days_of_years k year + days_before_year year ≡ days_before_year (year + k)
days_of_years-calendar zero year h = omega arith
days_of_years-calendar (suc k) year h =
    let rest = days_of_years-calendar k (suc year) (omega arith) in
    let next : suc year + k ≡ year + suc k = omega arith in
    let one = leap_years-suc year h in
    let same = ap days_before_year next in ground (arith, rest, one, same)

months-calendar :
    (mon : ℕ)
    → mon ≤ 12
    → (days_in_first mon (ytab true) ≡ common_days mon + (if leb 2 mon then 1 else 0))
      × (days_in_first mon (ytab false) ≡ common_days mon)
months-calendar zero h = (refl, refl)
months-calendar (suc zero) h = (refl, refl)
months-calendar (suc (suc zero)) h = (refl, refl)
months-calendar (suc (suc (suc zero))) h = (refl, refl)
months-calendar (suc (suc (suc (suc zero)))) h = (refl, refl)
months-calendar (suc (suc (suc (suc (suc zero))))) h = (refl, refl)
months-calendar (suc (suc (suc (suc (suc (suc zero)))))) h = (refl, refl)
months-calendar (suc (suc (suc (suc (suc (suc (suc zero))))))) h = (refl, refl)
months-calendar (suc (suc (suc (suc (suc (suc (suc (suc zero)))))))) h = (refl, refl)
months-calendar (suc (suc (suc (suc (suc (suc (suc (suc (suc zero))))))))) h = (refl, refl)
months-calendar (suc (suc (suc (suc (suc (suc (suc (suc (suc (suc zero)))))))))) h = (refl, refl)
months-calendar (suc (suc (suc (suc (suc (suc (suc (suc (suc (suc (suc zero))))))))))) h =
    (refl, refl)
months-calendar (suc (suc (suc (suc (suc (suc (suc (suc (suc (suc (suc (suc zero)))))))))))) h =
    (refl, refl)
months-calendar (suc (suc (suc (suc (suc (suc (suc (suc (suc (suc (suc (suc (suc n))))))))))))) h =
    absurd (omega (arith, h))

pub days_in_first-calendar :
    (year mon : ℕ)
    → 0 < year
    → mon ≤ 12
    → days_in_first mon (ytab (leapyear year)) ≡ days_before_month year mon
days_in_first-calendar year mon h small =
    let one = leap_years-suc year h in
    let (leap, common) = months-calendar mon small in
    elim (Bool-cases (leapyear year)) [
      | inl yes_leap ↦
          let more : leap_years (suc year) - leap_years year ≡ 1 = ground (arith, one, yes_leap) in
          rw (yes_leap, more) leap
      | inr no_leap ↦
          let more : leap_years (suc year) - leap_years year ≡ 0 = ground (arith, one, no_leap) in
          rw (no_leap, more) (ground (arith, common))
    ]

pub days_in_first-suc :
    (mon : ℕ) (months : List ℕ)
    → mon < length months
    → days_in_first (suc mon) months ≡ days_in_first mon months + get_or months mon 0
days_in_first-suc mon [] h = absurd (omega (arith, h))
days_in_first-suc zero (days ∷ rest) h = omega arith
days_in_first-suc (suc mon) (days ∷ rest) h =
    let inner = days_in_first-suc mon rest (omega (arith, h)) in omega (arith, inner)
