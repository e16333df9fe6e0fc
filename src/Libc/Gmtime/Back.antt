-- ===== src/Libc/Gmtime/Back.antt =====
-- From a time to its date and back.
use piggy_os.Common.{
  le→ltb, ℕ, suc, ◌+◌, ◌-◌, ◌*◌, ◌/◌, ◌%◌, ◌^◌, some, ◌<◌, ◌≤◌, ◌≡◌, refl, sym, ap, ◌∙◌, arith,
}
use piggy_os.Libc.Gmtime.{
  Rest, days_per_month, year_loop, month_loop, fill, gmtime_r, sum_years, sum_months, sum_date,
  timegm, done,
}
use piggy_os.Libc.Gmtime.Entries.{IsDate, normalize_entries-IsDate}
use piggy_os.Libc.Gmtime.Loops.{
  YearEnd, MonthEnd, year_loop-YearEnd, month_loop-MonthEnd, remaining-year,
}

-- The fields that are filled in from where the loops end stand for that time.
sum_date-fill :
    (year years : ℕ) (r : Rest)
    → year ≡ 1970 + years
    → r.days_since_epoch ≡ sum_months r.count 0 year (sum_years years 1970 0)
    → r.yday ≡ sum_months r.count 0 year 0
    → year < 1900 + 2 ^ 31
    → sum_date (fill year r) ≡ (r.seconds_left + 86400 * r.days_since_epoch, fill year r)
unfolding sum_date fill
sum_date-fill year years r y d yd fits =
    let year_back : 1900 + (year - 1900) % 2 ^ 32 ≡ year = omega arith in
    let years_back : year - 1970 ≡ years = omega arith in
    let day_back : r.seconds_left / 86400 + 1 - 1 ≡ r.seconds_left / 86400 = omega arith in
    let day = r.seconds_left / 86400 in
    let seconds = r.seconds_left % 86400 in
    let total : (r.days_since_epoch + day) * 24 * 60 * 60
          + seconds / 3600 * 60 * 60
          + seconds % 3600 / 60 * 60
          + seconds % 3600 % 60
        ≡ r.seconds_left + 86400 * r.days_since_epoch =
      omega arith in
    rw (year_back, years_back, day_back, sym d, sym yd, total) refl

fill-IsDate :
    (year : ℕ) (r : Rest)
    → 1970 ≤ year
    → r.count < 12
    → r.seconds_left < 86400 * days_per_month r.count year
    → year < 1900 + 2 ^ 31
    → IsDate (fill year r) × ((fill year r).tm_year < 2 ^ 31)
unfolding fill
fill-IsDate year r y c w fits =
    let year_back : 1900 + (year - 1900) % 2 ^ 32 ≡ year = omega arith in
    (
      record {
        sec = omega arith;
        min = omega arith;
        hour = omega arith;
        mday = (omega arith, rw year_back (omega arith));
        mon = c;
        year = omega arith;
        wday = omega arith;
      },
      omega arith,
    )

module _ (time : ℕ) (early : time < 31536000 * (2 ^ 31 - 70)) where
  abbrev start : Rest
  start = record { seconds_left = time; days_since_epoch = 0; yday = 0; count = 1970 }

  years : Rest
  years = year_loop (suc time) start

  months : Rest
  months = month_loop years.count 12 (record years { count = 0 })

  years-YearEnd : YearEnd start years
  unfolding years
  years-YearEnd = year_loop-YearEnd (suc time) start (omega arith)

  months-MonthEnd : MonthEnd years.count 12 (record years { count = 0 }) months
  unfolding months
  months-MonthEnd =
      month_loop-MonthEnd years.count 12 (record years { count = 0 })
        (omega (arith, years-YearEnd.within, remaining-year years.count))

  gmtime_r-fill : gmtime_r time ≡ fill years.count months
  unfolding gmtime_r years months
  gmtime_r-fill = refl

  years_fit : years.count < 1900 + 2 ^ 31
  years_fit = omega (arith, early, years-YearEnd.year, years-YearEnd.least)

  -- gmtime_r gives a date of the calendar with a time of day, in a year that an `int` holds.
  gmtime_r-IsDate : IsDate (gmtime_r time) × ((gmtime_r time).tm_year < 2 ^ 31)
  gmtime_r-IsDate = rw gmtime_r-fill (
      fill-IsDate years.count months (omega (arith, years-YearEnd.year))
        (omega (arith, months-MonthEnd.month, months-MonthEnd.in_year)) months-MonthEnd.within
        years_fit)

  sum_date-gmtime_r : sum_date (gmtime_r time) ≡ (time, gmtime_r time)
  sum_date-gmtime_r =
      let y = years-YearEnd in
      let m = months-MonthEnd in
      let c : m.months ≡ months.count = omega (arith, m.month) in
      rw gmtime_r-fill (
        sum_date-fill years.count y.years months y.year
          (m.days
            ∙ ap (λ n. sum_months n 0 years.count years.days_since_epoch) c
            ∙ ap (λ z. sum_months months.count 0 years.count z) y.days)
          (m.yday
            ∙ ap (λ n. sum_months n 0 years.count years.yday) c
            ∙ ap (λ z. sum_months months.count 0 years.count z) y.yday)
          years_fit
        ∙ ap (λ seconds. (seconds, fill years.count months)) (omega (arith, m.total, y.total)))

  -- timegm of what gmtime_r gives for a time of at most 2 ^ 31 - 70 years of 365 days, so that an
  -- `int` holds the year, is the time again. The structure stays as it is: its fields are in their
  -- ranges, and the weekday and the day of the year that timegm sets are those that gmtime_r has set.
  pub timegm-gmtime_r : timegm (gmtime_r time) ≡ some (done (time, gmtime_r time))
  unfolding timegm
  timegm-gmtime_r =
      let (date, fits) = gmtime_r-IsDate in
      rw
        (
          normalize_entries-IsDate (gmtime_r time) date fits,
          le→ltb (gmtime_r time).tm_year 70 date.year,
          sum_date-gmtime_r,
          timegm,
        )
        refl
