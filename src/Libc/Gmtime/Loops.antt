-- ===== src/Libc/Gmtime/Loops.antt =====
-- Where the loops of `gmtime_r` end.
use piggy_os.Common.{
  ℕ, zero, suc, ◌+◌, ◌-◌, ◌*◌, ◌<◌, ◌≤◌, ◌≡◌, refl, Bool, true, false, leb, if◌then◌else◌, arith,
}
use piggy_os.Libc.Gmtime.{
  days_per_year, days_per_month, Rest, year_loop, month_loop, sum_years, sum_months,
}

-- The years that lie behind `r` have been taken off, and what is left is within one year.
pub record YearEnd (r e : Rest) : Type 0 where
  pub years : ℕ
  pub year : e.count ≡ r.count + years
  pub days : e.days_since_epoch ≡ sum_years years r.count r.days_since_epoch
  pub yday : e.yday ≡ r.yday
  pub total :
      r.seconds_left + 86400 * r.days_since_epoch ≡ e.seconds_left + 86400 * e.days_since_epoch
  pub within : e.seconds_left < 86400 * days_per_year e.count
  pub least : e.seconds_left + 31536000 * years ≤ r.seconds_left

days_per_year-ge : (year : ℕ) → 365 ≤ days_per_year year
unfolding days_per_year
days_per_year-ge year = ground arith

pub year_loop-YearEnd : (fuel : ℕ) (r : Rest) → r.seconds_left < fuel → YearEnd r (year_loop fuel r)
unfolding year_loop sum_years
year_loop-YearEnd zero r f = absurd (omega arith)
year_loop-YearEnd (suc fuel) r f =
    go (year_loop-YearEnd fuel next) (leb (days_per_year r.count * 86400) r.seconds_left) refl
  where
    next : Rest
    next = record r {
      seconds_left = r.seconds_left - days_per_year r.count * 86400;
      days_since_epoch = r.days_since_epoch + days_per_year r.count;
      count = r.count + 1;
    }

    go :
        (next.seconds_left < fuel → YearEnd next (year_loop fuel next))
        → (b : Bool) → leb (days_per_year r.count * 86400) r.seconds_left ≡ b
        → YearEnd r (if b then year_loop fuel next else r)
    go later true e =
        let l : days_per_year r.count * 86400 ≤ r.seconds_left = ground arith in
        let ih = later (omega (arith, days_per_year-ge r.count)) in
        record {
          years = suc ih.years;
          year = omega (arith, ih.year);
          days = ih.days;
          yday = ih.yday;
          total = omega (arith, ih.total);
          within = ih.within;
          least = omega (arith, ih.least, days_per_year-ge r.count);
        }
    go later false e =
        let l : r.seconds_left < days_per_year r.count * 86400 = ground arith in
        record {
          years = 0;
          year = omega arith;
          days = refl;
          yday = refl;
          total = refl;
          within = omega arith;
          least = omega arith;
        }

-- The days of the `n` months of a year from `month` on.
abbrev pub remaining : ℕ → ℕ → ℕ → ℕ
remaining zero month year = 0
remaining (suc n) month year = days_per_month month year + remaining n (month + 1) year

pub remaining-year : (year : ℕ) → remaining 12 0 year ≡ days_per_year year
unfolding days_per_month days_per_year
remaining-year year = ground arith

-- The months that lie behind `r` have been taken off, and the year is not over.
pub record MonthEnd (year n : ℕ) (r e : Rest) : Type 0 where
  pub months : ℕ
  pub month : e.count ≡ r.count + months
  pub in_year : months < n
  pub days : e.days_since_epoch ≡ sum_months months r.count year r.days_since_epoch
  pub yday : e.yday ≡ sum_months months r.count year r.yday
  pub total :
      r.seconds_left + 86400 * r.days_since_epoch ≡ e.seconds_left + 86400 * e.days_since_epoch
  pub within : e.seconds_left < 86400 * days_per_month e.count year

pub month_loop-MonthEnd :
    (year n : ℕ) (r : Rest)
    → r.seconds_left < 86400 * remaining n r.count year
    → MonthEnd year n r (month_loop year n r)
unfolding month_loop sum_months
month_loop-MonthEnd year zero r f = absurd (omega arith)
month_loop-MonthEnd year (suc n) r f =
    go (month_loop-MonthEnd year n next) (leb (days_per_month r.count year * 86400) r.seconds_left)
      refl
  where
    next : Rest
    next = record {
      seconds_left = r.seconds_left - days_per_month r.count year * 86400;
      days_since_epoch = r.days_since_epoch + days_per_month r.count year;
      yday = r.yday + days_per_month r.count year;
      count = r.count + 1;
    }

    go :
        (next.seconds_left < 86400 * remaining n next.count year
          → MonthEnd year n next (month_loop year n next))
        → (b : Bool) → leb (days_per_month r.count year * 86400) r.seconds_left ≡ b
        → MonthEnd year (suc n) r (if b then month_loop year n next else r)
    go later true e =
        let l : days_per_month r.count year * 86400 ≤ r.seconds_left = ground arith in
        let ih = later (omega arith) in
        record {
          months = suc ih.months;
          month = omega (arith, ih.month);
          in_year = omega (arith, ih.in_year);
          days = ih.days;
          yday = ih.yday;
          total = omega (arith, ih.total);
          within = ih.within;
        }
    go later false e =
        let l : r.seconds_left < days_per_month r.count year * 86400 = ground arith in
        record {
          months = 0;
          month = omega arith;
          in_year = omega arith;
          days = refl;
          yday = refl;
          total = refl;
          within = omega arith;
        }
