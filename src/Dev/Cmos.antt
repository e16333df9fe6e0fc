-- ===== src/Dev/Cmos.antt =====
-- kernel/src/dev/cmos.c: the date and time that the real-time clock keeps, as seconds since 1970.
-- The registers are an argument: what `inb` gives for each of them once no update is going on.
pub mod Days
pub mod Clock
mod Tests
use piggy_os.Common.{
  ℕ, zero, suc, ◌+◌, ◌-◌, ◌*◌, ◌/◌, ◌%◌, ◌^◌, ◌<◌, ◌≡◌, Bool, true, false, not, ◌&&◌, ◌||◌, Option,
  none, some, ltb, ◌==◌, if◌then◌else◌, bit_and,
}
use piggy_os.Common.Int.{ℤ, sub_ℕ}

-- The file's static variables.
pub record Cmos : Type 0 where
  pub bcd_mode : Bool
  pub xxiv_hr_mode : Bool
  pub century_register : ℕ

-- `bcd_to_bin` of a uint8_t
unfoldable pub bcd_to_bin : ℕ → ℕ
bcd_to_bin val = bit_and val 0x0f + bit_and val 0xf0 / 2 ^ 4 * 10

-- `is_leap_year`
unfoldable pub is_leap_year : ℕ → Bool
is_leap_year year = year % 4 == 0 && (not (year % 100 == 0) || year % 400 == 0)

-- `month_to_days`; `none` is the call of `kpanic`.
unfoldable pub month_to_days : ℕ → ℕ → Option ℕ
unfolding is_leap_year
month_to_days month year =
    if month == 1
    then some 31
    else if month == 2
    then some (if is_leap_year year then 29 else 28)
    else if month == 3
    then some 31
    else if month == 4
    then some 30
    else if month == 5
    then some 31
    else if month == 6
    then some 30
    else if month == 7
    then some 31
    else if month == 8
    then some 31
    else if month == 9
    then some 30
    else if month == 10
    then some 31
    else if month == 11
    then some 30
    else if month == 12
    then some 31
    else none

-- `cmos_read`, whose result is a uint8_t
unfoldable pub cmos_read : Cmos → (ℕ → ℕ) → ℕ → ℕ
unfolding bcd_to_bin
cmos_read c inb reg = if c.bcd_mode then inb reg else bcd_to_bin (inb reg) % 256

-- `for (i = first; i < first + n; i++) days_since_epoch += month_to_days(i, year)`
unfoldable pub add_months : ℕ → ℕ → ℕ → ℕ → Option ℕ
unfolding month_to_days
add_months year first zero days = some days
add_months year first (suc n) days =
    let rest = λ (d : ℕ). add_months year (first + 1) n (days + d) in
    elim (month_to_days first year) [ none ↦ none | some d ↦ rest d ]

-- `for (i = first; i < first + n; i++) days_since_epoch += is_leap_year(i) ? 366 : 365`
unfoldable pub add_years : ℕ → ℕ → ℕ → ℕ
unfolding is_leap_year
add_years first zero days = days
add_years first (suc n) days =
    add_years (first + 1) n (days + (if is_leap_year first then 366 else 365))

-- The hour of the day from the register's value.
unfoldable pub read_hour : Cmos → ℕ → ℕ
read_hour c hour =
    if not c.xxiv_hr_mode && not (bit_and hour 0x80 == 0)
    then (bit_and hour 0x7f + 12) % 24
    else hour

-- The year, from the year of the century and the century register if there is one.
unfoldable pub read_year : Cmos → (ℕ → ℕ) → ℕ → ℕ
unfolding cmos_read
read_year c inb year =
    if c.century_register == 0
    then year + (if ltb year 20 then 21 * 100 else 20 * 100)
    else year + cmos_read c inb c.century_register * 100

-- `tp->tv_sec`, from the parts of the date. The count of days starts at `day - 1`, which may be
-- -1: the day that is too many is taken off at the end.
unfoldable pub rtc_seconds : ℕ → ℕ → ℕ → ℕ → ℕ → ℕ → Option ℤ
unfolding add_months add_years
rtc_seconds second minute hour day month year = elim (add_months year 1 (month - 1) day) [
  | none ↦ none
  | some days ↦
      some (
        sub_ℕ (second + minute * 60 + hour * 3600 + add_years 1970 (year - 1970) days * 86400)
          86400)
]

-- `cmos_get_rtc_time`, up to `tp->tv_sec`
unfoldable pub cmos_get_rtc_time : Cmos → (ℕ → ℕ) → Option ℤ
cmos_get_rtc_time c inb =
    let second = cmos_read c inb 0x00 in
    let minute = cmos_read c inb 0x02 in
    let hour = cmos_read c inb 0x04 in
    let day = cmos_read c inb 0x07 in
    let month = cmos_read c inb 0x08 in
    let year = cmos_read c inb 0x09 in
    rtc_seconds second minute (read_hour c hour) day month (read_year c inb year)
