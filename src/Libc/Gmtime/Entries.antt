-- ===== src/Libc/Gmtime/Entries.antt =====
-- `normalize_entries` keeps a date.
use piggy_os.Common.{
  ℕ, suc, ◌+◌, ◌/◌, ◌%◌, ◌^◌, ◌<◌, ◌≤◌, ◌≡◌, refl, true, false, ltb, some, lt→ltb, le→ltb, ◌==◌,
  arith,
}
use piggy_os.Libc.Gmtime.{
  Tm, days_per_month, done, normalize, carry_days, borrow_day, normalize_days, normalize_fields,
  no_negative, normalize_entries,
}

-- The fields are those of a date of the calendar and a time of day.
pub record IsDate (tm : Tm) : Type 0 where
  pub sec : tm.tm_sec < 60
  pub min : tm.tm_min < 60
  pub hour : tm.tm_hour < 24
  pub mday : (1 ≤ tm.tm_mday) × (tm.tm_mday ≤ days_per_month tm.tm_mon (1900 + tm.tm_year))
  pub mon : tm.tm_mon < 12
  pub year : 70 ≤ tm.tm_year
  pub wday : tm.tm_wday < 7

normalize-in :
    (x y range : ℕ)
    → y + x / range ≡ y
    → x % range ≡ x
    → y < 2 ^ 31
    → normalize x y range ≡ done (x, y)
unfolding normalize
normalize-in x y range e e' h = rw (e, e', lt→ltb y (2 ^ 31) h) refl

days_per_month-le : (month year : ℕ) → days_per_month month year ≤ 31
unfolding days_per_month
days_per_month-le month year = ground arith

carry_days-stop :
    (fuel : ℕ) (tm : Tm)
    → ltb (days_per_month tm.tm_mon (1900 + tm.tm_year)) tm.tm_mday ≡ false
    → carry_days (suc fuel) tm ≡ some (done tm)
unfolding carry_days
carry_days-stop fuel tm e = rw e refl

borrow_day-stop : (tm : Tm) → (tm.tm_mday == 0) ≡ false → borrow_day tm ≡ done tm
unfolding borrow_day
borrow_day-stop tm e = rw e refl

module _ (tm : Tm) (date : IsDate tm) (fits : tm.tm_year < 2 ^ 31) where
  small : tm.tm_mday < 2 ^ 31
  small = omega (arith, date.mday.1, days_per_month-le tm.tm_mon (1900 + tm.tm_year))

  normalize_fields-IsDate : normalize_fields tm ≡ done tm
  unfolding normalize_fields
  normalize_fields-IsDate =
      let s =
        normalize-in tm.tm_sec tm.tm_min 60 (omega (arith, date.sec)) (omega (arith, date.sec))
          (omega (arith, date.min)) in
      let m =
        normalize-in tm.tm_min tm.tm_hour 60 (omega (arith, date.min)) (omega (arith, date.min))
          (omega (arith, date.hour)) in
      let h =
        normalize-in tm.tm_hour tm.tm_mday 24 (omega (arith, date.hour)) (omega (arith, date.hour))
          small in
      let y =
        normalize-in tm.tm_mon tm.tm_year 12 (omega (arith, date.mon)) (omega (arith, date.mon))
          fits in
      rw (s, m, h, y) refl

  normalize_days-IsDate : normalize_days tm ≡ some (done tm)
  unfolding normalize_days
  normalize_days-IsDate =
      let no_carry = le→ltb (days_per_month tm.tm_mon (1900 + tm.tm_year)) tm.tm_mday date.mday.1 in
      let some_day : (tm.tm_mday == 0) ≡ false = ground (arith, date.mday.0) in
      rw (carry_days-stop tm.tm_mday tm no_carry, borrow_day-stop tm some_day, normalize_days) refl

  no_negative-IsDate : no_negative tm ≡ true
  unfolding no_negative
  no_negative-IsDate =
      rw
        (
          lt→ltb tm.tm_sec (2 ^ 31) (omega (arith, date.sec)),
          lt→ltb tm.tm_min (2 ^ 31) (omega (arith, date.min)),
          lt→ltb tm.tm_hour (2 ^ 31) (omega (arith, date.hour)),
          lt→ltb tm.tm_mday (2 ^ 31) small,
          lt→ltb tm.tm_mon (2 ^ 31) (omega (arith, date.mon)),
          lt→ltb tm.tm_year (2 ^ 31) fits,
        )
        refl

  -- A date whose year is no negative `int` stays as it is.
  pub normalize_entries-IsDate : normalize_entries tm ≡ some (done tm)
  unfolding normalize_entries
  normalize_entries-IsDate =
      rw (no_negative-IsDate, normalize_fields-IsDate, normalize_days-IsDate) refl
