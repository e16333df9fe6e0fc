-- ===== src/Libc/Gmtime.antt =====
-- libc/src/time/gmtime_r.c and libc/src/time/timegm.c for times from 1970 on: the loops for earlier
-- years do not run there. A field of `struct tm` is the bits of an `int`, so the year of a very late
-- time wraps. A call with a negative field, or whose date comes to a year before 1970, is
-- outside the model.
pub mod Loops
pub mod Entries
pub mod Back
mod Tests
use piggy_os.Common.{
  ℕ, zero, suc, ◌+◌, ◌-◌, ◌*◌, ◌/◌, ◌%◌, ◌^◌, Bool, Option, none, some, List, [], ◌∷◌, get_or, true,
  false, not, ◌&&◌, ◌||◌, ltb, leb, ◌==◌, if◌then◌else◌,
}

-- `struct tm`
pub record Tm : Type 0 where
  pub tm_sec : ℕ
  pub tm_min : ℕ
  pub tm_hour : ℕ
  pub tm_mday : ℕ
  pub tm_mon : ℕ
  pub tm_year : ℕ
  pub tm_wday : ℕ
  pub tm_yday : ℕ

-- `__is_leap_year`, `__days_per_year` and `__days_per_month`
unfoldable pub leap_year : ℕ → Bool
leap_year year = year % 4 == 0 && (not (year % 100 == 0) || year % 400 == 0)

unfoldable pub days_per_year : ℕ → ℕ
days_per_year year = if leap_year year then 366 else 365

unfoldable pub days_per_month : ℕ → ℕ → ℕ
days_per_month month year =
    let february = if leap_year year then 29 else 28 in
    get_or (31 ∷ february ∷ 31 ∷ 30 ∷ 31 ∷ 30 ∷ 31 ∷ 31 ∷ 30 ∷ 31 ∷ 30 ∷ 31 ∷ []) month 0

-- What the loops of `gmtime_r` change.
pub record Rest : Type 0 where
  pub seconds_left : ℕ
  pub days_since_epoch : ℕ
  pub yday : ℕ
  pub count : ℕ

-- The loop over the years, where `count` is the year.
unfoldable pub year_loop : ℕ → Rest → Rest
year_loop zero r = r
year_loop (suc fuel) r =
    let days = days_per_year r.count in
    let rest = year_loop fuel (record r {
      seconds_left = r.seconds_left - days * 86400;
      days_since_epoch = r.days_since_epoch + days;
      count = r.count + 1;
    }) in
    if leb (days * 86400) r.seconds_left then rest else r

-- The loop over the months of a year, where `count` is the month.
unfoldable pub month_loop : ℕ → ℕ → Rest → Rest
month_loop year zero r = r
month_loop year (suc fuel) r =
    let days = days_per_month r.count year in
    let rest = month_loop year fuel (record {
      seconds_left = r.seconds_left - days * 86400;
      days_since_epoch = r.days_since_epoch + days;
      yday = r.yday + days;
      count = r.count + 1;
    }) in
    if leb (days * 86400) r.seconds_left then rest else r

-- The fields from where the loops end.
unfoldable pub fill : ℕ → Rest → Tm
fill year r =
    let day = r.seconds_left / 86400 in
    let seconds = r.seconds_left % 86400 in
    record {
      tm_sec = seconds % 3600 % 60;
      tm_min = seconds % 3600 / 60;
      tm_hour = seconds / 3600;
      tm_mday = day + 1;
      tm_mon = r.count;
      tm_year = (year - 1900) % 2 ^ 32;
      tm_wday = (4 + (r.days_since_epoch + day)) % 7;
      tm_yday = r.yday + day;
    }

-- `gmtime_r`
unfoldable pub gmtime_r : ℕ → Tm
gmtime_r time =
    let years =
      year_loop (suc time)
        (record { seconds_left = time; days_since_epoch = 0; yday = 0; count = 1970 }) in
    fill years.count (month_loop years.count 12 (record years { count = 0 }))

-- The loop of `timegm` over `n` years, and the one over `n` months.
unfoldable pub sum_years : ℕ → ℕ → ℕ → ℕ
sum_years zero year days = days
sum_years (suc n) year days = sum_years n (year + 1) (days + days_per_year year)

unfoldable pub sum_months : ℕ → ℕ → ℕ → ℕ → ℕ
sum_months zero month year days = days
sum_months (suc n) month year days =
    sum_months n (month + 1) year (days + days_per_month month year)

-- What comes of a structure: a value, the failure with EOVERFLOW, or a call outside the model. What the failure leaves in the structure is not kept.
pub data Outcome {ℓ} (A : Type ℓ) : Type ℓ where
  done : A → Outcome A
  eoverflow : Outcome A
  outside : Outcome A

abbrev pub and_then {ℓ ℓ'} : {A : Type ℓ} {B : Type ℓ'} → Outcome A → (A → Outcome B) → Outcome B
and_then (done a) next = next a
and_then eoverflow next = eoverflow
and_then outside next = outside

-- The same for what may need more rounds than there are
abbrev pub run_on {ℓ ℓ'} :
    {A : Type ℓ} {B : Type ℓ'} → Outcome A → (A → Option (Outcome B)) → Option (Outcome B)
run_on (done a) next = next a
run_on eoverflow next = some eoverflow
run_on outside next = some outside

-- `normalize`
unfoldable pub normalize : ℕ → ℕ → ℕ → Outcome (ℕ × ℕ)
normalize x y range =
    if ltb (y + x / range) (2 ^ 31) then done (x % range, y + x / range) else eoverflow

-- The month behind the one of a structure
unfoldable pub next_month : Tm → Outcome Tm
next_month tm =
    if ltb 11 (tm.tm_mon + 1)
    then if ltb (tm.tm_year + 1) (2 ^ 31)
      then done (record tm { tm_mon = 0; tm_year = tm.tm_year + 1 })
      else eoverflow
    else done (record tm { tm_mon = tm.tm_mon + 1 })

-- The loop of `normalize_entries` while the day is behind the end of the month, which takes off 28
-- days at least; `none` is a loop of more rounds than `fuel`.
unfoldable pub carry_days : ℕ → Tm → Option (Outcome Tm)
carry_days zero tm = none
carry_days (suc fuel) tm =
    let days = days_per_month tm.tm_mon (1900 + tm.tm_year) in
    let rest = run_on (next_month (record tm { tm_mday = tm.tm_mday - days })) (carry_days fuel) in
    if ltb days tm.tm_mday then rest else some (done tm)

-- The loop of `normalize_entries` while there is no day, which is the last one of the month before
unfoldable pub borrow_day : Tm → Outcome Tm
borrow_day tm =
    if tm.tm_mday == 0
    then if tm.tm_mon == 0
      then if tm.tm_year == 0
        then outside
        else done (record tm {
          tm_mon = 11;
          tm_year = tm.tm_year - 1;
          tm_mday = days_per_month 11 (1900 + tm.tm_year - 1);
        })
      else done (record tm {
        tm_mon = tm.tm_mon - 1;
        tm_mday = days_per_month (tm.tm_mon - 1) (1900 + tm.tm_year);
      })
    else done tm

-- The two loops of `normalize_entries`
unfoldable pub normalize_days : Tm → Option (Outcome Tm)
normalize_days tm = elim (carry_days (suc tm.tm_mday) tm) [
  | none ↦ none
  | some o ↦ some (and_then o borrow_day)
]

-- The calls of `normalize` for the time of day, the month and the year
unfoldable pub normalize_fields : Tm → Outcome Tm
normalize_fields tm = and_then (normalize tm.tm_sec tm.tm_min 60) (λ s.
    and_then (normalize s.1 tm.tm_hour 60) (λ m. and_then (normalize m.1 tm.tm_mday 24) (λ h.
      and_then (normalize tm.tm_mon tm.tm_year 12) (λ y. done (record tm {
        tm_sec = s.0;
        tm_min = m.0;
        tm_hour = h.0;
        tm_mday = h.1;
        tm_mon = y.0;
        tm_year = y.1;
      })))))

-- Whether no field that is read is negative
unfoldable pub no_negative : Tm → Bool
no_negative tm =
    ltb tm.tm_sec (2 ^ 31)
    && ltb tm.tm_min (2 ^ 31)
    && ltb tm.tm_hour (2 ^ 31)
    && ltb tm.tm_mday (2 ^ 31)
    && ltb tm.tm_mon (2 ^ 31)
    && ltb tm.tm_year (2 ^ 31)

-- `normalize_entries`
unfoldable pub normalize_entries : Tm → Option (Outcome Tm)
normalize_entries tm =
    if no_negative tm then run_on (normalize_fields tm) normalize_days else some outside

-- `timegm` behind normalize_entries: the result, and the structure with its days set
unfoldable pub sum_date : Tm → ℕ × Tm
sum_date tm =
    let year = 1900 + tm.tm_year in
    let days = sum_months tm.tm_mon 0 year (sum_years (year - 1970) 1970 0) + (tm.tm_mday - 1) in
    (
      days * 24 * 60 * 60 + tm.tm_hour * 60 * 60 + tm.tm_min * 60 + tm.tm_sec,
      record tm {
        tm_yday = sum_months tm.tm_mon 0 year 0 + (tm.tm_mday - 1);
        tm_wday = (4 + days) % 7;
      },
    )

-- `timegm` from normalize_entries on
abbrev pub sum_from_1970 : Tm → Outcome (ℕ × Tm)
sum_from_1970 tm = if ltb tm.tm_year 70 then outside else done (sum_date tm)

-- `timegm`
unfoldable pub timegm : Tm → Option (Outcome (ℕ × Tm))
timegm tm = elim (normalize_entries tm) [ none ↦ none | some o ↦ some (and_then o sum_from_1970) ]
