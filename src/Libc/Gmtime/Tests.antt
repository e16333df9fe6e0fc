-- ===== src/Libc/Gmtime/Tests.antt =====
-- 1972-02-29 12:34:56 and back, the day 789 of the epoch.
use piggy_os.Common.{ℕ, ◌≡◌, refl, some, arith}
use piggy_os.Libc.Gmtime.{
  Tm, gmtime_r, timegm, days_per_month, leap_year, done, normalize, next_month, carry_days,
  borrow_day, normalize_days, normalize_fields, no_negative, normalize_entries,
}
use piggy_os.Libc.Gmtime.Back.{timegm-gmtime_r}

abbrev leap_day : ℕ
leap_day = 68214896

timegm-gmtime_r_example : timegm (gmtime_r leap_day) ≡ some (done (leap_day, gmtime_r leap_day))
timegm-gmtime_r_example = timegm-gmtime_r leap_day (omega arith)

-- The months of 1972, and a date in it.
february : days_per_month 1 1972 ≡ 29
unfolding days_per_month leap_year
february = refl

-- The leap second at the end of 1971, and the day before the first of March 1972
abbrev at : ℕ → ℕ → ℕ → ℕ → ℕ → ℕ → Tm
at year mon mday hour min sec = record {
  tm_sec = sec;
  tm_min = min;
  tm_hour = hour;
  tm_mday = mday;
  tm_mon = mon;
  tm_year = year;
  tm_wday = 0;
  tm_yday = 0;
}

second_over : normalize_entries (at 71 11 31 23 59 60) ≡ some (done (at 72 0 1 0 0 0))
unfolding normalize_entries normalize_fields normalize no_negative normalize_days carry_days
    next_month borrow_day days_per_month leap_year
second_over = refl

no_day : normalize_entries (at 72 2 0 0 0 0) ≡ some (done (at 72 1 29 0 0 0))
unfolding normalize_entries normalize_fields normalize no_negative normalize_days carry_days
    next_month borrow_day days_per_month leap_year
no_day = refl
