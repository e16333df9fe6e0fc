-- ===== src/Dev/Cmos/Days.antt =====
-- The loops over months and years against a closed count of days.
use piggy_os.Common.{
  ℕ, zero, suc, ◌+◌, ◌-◌, ◌*◌, ◌/◌, ◌<◌, ◌≤◌, ◌≡◌, ◌&&◌, some, ltb, if◌then◌else◌, arith, List, [],
  ◌∷◌, get_or,
}
use piggy_os.Dev.Cmos.{is_leap_year, add_months, add_years}

-- The leap years from 1 up to `year`.
abbrev pub leaps_to : ℕ → ℕ
leaps_to year = year / 4 - year / 100 + year / 400

-- The days from 1 January 1970 up to 1 January of `year`.
abbrev pub days_before_year : ℕ → ℕ
days_before_year year = 365 * (year - 1970) + (leaps_to (year - 1) - leaps_to 1969)

-- The days of a common year before the month, counted from 1; February's 29th comes on top.
abbrev pub month_starts : List ℕ
month_starts = 0 ∷ 31 ∷ 59 ∷ 90 ∷ 120 ∷ 151 ∷ 181 ∷ 212 ∷ 243 ∷ 273 ∷ 304 ∷ 334 ∷ []

abbrev pub days_before_month : ℕ → ℕ → ℕ
days_before_month year month =
    get_or month_starts (month - 1) 0 + (if ltb 2 month && is_leap_year year then 1 else 0)

leaps-suc :
    (year : ℕ)
    → 0 < year
    → leaps_to year ≡ leaps_to (year - 1) + (if is_leap_year year then 1 else 0)
unfolding is_leap_year
leaps-suc year h = ground arith

add_years_lem :
    (n first days : ℕ)
    → 1970 ≤ first
    → add_years first n days + leaps_to (first - 1) ≡ days + 365 * n + leaps_to (first + n - 1)
unfolding add_years
add_years_lem zero first days h = omega arith
add_years_lem (suc n) first days h =
    let d = days + (if is_leap_year first then 366 else 365) in
    let step : d ≡ days + 365 + (if is_leap_year first then 1 else 0) = ground arith in
    omega (arith, add_years_lem n (first + 1) d (omega arith), leaps-suc first (omega arith), step)

leaps-le : (a b : ℕ) → a ≤ b → leaps_to a ≤ leaps_to b
leaps-le a b h = omega arith

-- The loop over the years counts the days up to 1 January.
pub add_years-days :
    (year days : ℕ) → 1970 ≤ year → add_years 1970 (year - 1970) days ≡ days + days_before_year year
add_years-days year days h = omega (
  arith,
  add_years_lem (year - 1970) 1970 days (omega arith),
  leaps-le 1969 (year - 1) (omega arith),
)

-- The loop over the months counts the days up to the first of the month.
pub add_months-days :
    (year days n : ℕ)
    → n < 12
    → add_months year 1 n days ≡ some (days + days_before_month year (n + 1))
unfolding add_months
add_months-days year days zero h = ground arith
add_months-days year days (suc zero) h = ground arith
add_months-days year days (suc (suc zero)) h = ground arith
add_months-days year days (suc (suc (suc zero))) h = ground arith
add_months-days year days (suc (suc (suc (suc zero)))) h = ground arith
add_months-days year days (suc (suc (suc (suc (suc zero))))) h = ground arith
add_months-days year days (suc (suc (suc (suc (suc (suc zero)))))) h = ground arith
add_months-days year days (suc (suc (suc (suc (suc (suc (suc zero))))))) h = ground arith
add_months-days year days (suc (suc (suc (suc (suc (suc (suc (suc zero)))))))) h = ground arith
add_months-days year days (suc (suc (suc (suc (suc (suc (suc (suc (suc zero))))))))) h =
    ground arith
add_months-days year days (suc (suc (suc (suc (suc (suc (suc (suc (suc (suc zero)))))))))) h =
    ground arith
add_months-days year days (suc (suc (suc (suc (suc (suc (suc (suc (suc (suc (suc zero))))))))))) h =
    ground arith
add_months-days year days (suc (suc (suc (suc (suc (suc (suc (suc (suc (suc (suc (suc n))))))))))))
      h =
    absurd (omega arith)
