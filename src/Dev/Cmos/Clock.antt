-- ===== src/Dev/Cmos/Clock.antt =====
-- The registers of a date are read back as its seconds.
use piggy_os.Common.{
  ℕ, ◌+◌, ◌-◌, ◌*◌, ◌/◌, ◌%◌, ◌<◌, ◌≤◌, ◌≡◌, ◌⊎◌, refl, ◌∙◌, ap, Bool, true, false, ◌&&◌, ◌||◌,
  some, ◌==◌, ==_iff, if◌then◌else◌, arith, every, every-at,
}
use piggy_os.Common.Int.{pos, sub_ℕ-pos}
use piggy_os.Dev.Cmos.{
  Cmos, bcd_to_bin, cmos_read, read_hour, read_year, rtc_seconds, cmos_get_rtc_time, add_months,
  add_years,
}
use piggy_os.Dev.Cmos.Days.{days_before_year, days_before_month, add_years-days, add_months-days}

-- A number below 100 in two decimal digits.
abbrev pub to_bcd : ℕ → ℕ
to_bcd n = n / 10 * 16 + n % 10

bcd_table : every 100 (λ n. bcd_to_bin (to_bcd n) % 256 == n) ≡ true
unfolding every bcd_to_bin
bcd_table = refl

bcd_to_bin-to_bcd : (n : ℕ) → n < 100 → bcd_to_bin (to_bcd n) % 256 ≡ n
bcd_to_bin-to_bcd n h =
    (==_iff _ _).0 (every-at 100 (λ n. bcd_to_bin (to_bcd n) % 256 == n) n h bcd_table)

-- A date, with the month and the day counted from 1.
pub record Date : Type 0 where
  pub second : ℕ
  pub minute : ℕ
  pub hour : ℕ
  pub day : ℕ
  pub month : ℕ
  pub year : ℕ

pub record IsDate (d : Date) : Type 0 where
  pub second_in : d.second < 60
  pub minute_in : d.minute < 60
  pub hour_in : d.hour < 24
  pub day_in : (1 ≤ d.day) × (d.day ≤ 31)
  pub month_in : (1 ≤ d.month) × (d.month ≤ 12)
  pub year_in : (1970 ≤ d.year) × (d.year < 10000)

-- The seconds from the start of 1970 to the date.
abbrev pub seconds : Date → ℕ
seconds d =
    d.second
    + d.minute * 60
    + d.hour * 3600
    + (days_before_year d.year + days_before_month d.year d.month + d.day - 1) * 86400

-- What a register holds for a number: the number, or its decimal digits.
unfoldable pub encode : Bool → ℕ → ℕ
encode true n = n
encode false n = to_bcd n

-- The registers of a clock that shows the date; 0x32 is that of the century.
unfoldable pub registers : Bool → Date → ℕ → ℕ
registers binary d reg =
    if reg == 0x00
    then encode binary d.second
    else if reg == 0x02
    then encode binary d.minute
    else if reg == 0x04
    then encode binary d.hour
    else if reg == 0x07
    then encode binary d.day
    else if reg == 0x08
    then encode binary d.month
    else if reg == 0x09
    then encode binary (d.year % 100)
    else if reg == 0x32
    then encode binary (d.year / 100)
    else 0

cmos_read-encode :
    (c : Cmos) (inb : ℕ → ℕ) (reg n : ℕ)
    → n < 100
    → inb reg ≡ encode c.bcd_mode n
    → cmos_read c inb reg ≡ n
unfolding cmos_read encode
cmos_read-encode c inb reg n h e = ground (arith, bcd_to_bin-to_bcd n)

module _ (d : Date) (v : IsDate d) where
  -- The days that the loops count, one too many.
  month_loop :
      add_months d.year 1 (d.month - 1) d.day ≡ some (d.day + days_before_month d.year d.month)
  month_loop =
      add_months-days d.year d.day (d.month - 1) (omega arith)
      ∙ ap (λ m. some (d.day + days_before_month d.year m)) (omega arith)

  total :
      d.second
        + d.minute * 60
        + d.hour * 3600
        + add_years 1970 (d.year - 1970) (d.day + days_before_month d.year d.month) * 86400
      ≡ seconds d + 86400
  total =
      let e = add_years-days d.year (d.day + days_before_month d.year d.month) v.year_in.0 in
      rw e (omega arith)

  rtc_seconds-seconds :
      rtc_seconds d.second d.minute d.hour d.day d.month d.year ≡ some (pos (seconds d))
  unfolding rtc_seconds
  rtc_seconds-seconds = rw (month_loop, rtc_seconds) (ap some (sub_ℕ-pos _ _ _ total))

-- The clock knows the century, or it does not and the year is one that the code guesses.
abbrev pub Century : Cmos → Date → Type 0
Century c d =
    (c.century_register ≡ 0x32)
    ⊎ (c.century_register ≡ 0)
      × ((2020 ≤ d.year) × (d.year < 2100) ⊎ (2100 ≤ d.year) × (d.year < 2120))

year_read :
    (c : Cmos) (d : Date)
    → IsDate d
    → Century c d
    → read_year c (registers c.bcd_mode d) (d.year % 100) ≡ d.year
unfolding read_year registers
year_read c d v century =
    ground (arith, cmos_read-encode c (registers c.bcd_mode d) 0x32 (d.year / 100))

reads :
    (c : Cmos) (d : Date)
    → IsDate d
    → let inb = registers c.bcd_mode d in
      (cmos_read c inb 0x00 ≡ d.second)
      × (cmos_read c inb 0x02 ≡ d.minute)
      × (cmos_read c inb 0x04 ≡ d.hour)
      × (cmos_read c inb 0x07 ≡ d.day)
      × (cmos_read c inb 0x08 ≡ d.month)
      × (cmos_read c inb 0x09 ≡ d.year % 100)
unfolding registers
reads c d v =
    let inb = registers c.bcd_mode d in
    (
      cmos_read-encode c inb 0x00 d.second (omega arith) refl,
      cmos_read-encode c inb 0x02 d.minute (omega arith) refl,
      cmos_read-encode c inb 0x04 d.hour (omega arith) refl,
      cmos_read-encode c inb 0x07 d.day (omega arith) refl,
      cmos_read-encode c inb 0x08 d.month (omega arith) refl,
      cmos_read-encode c inb 0x09 (d.year % 100) (omega arith) refl,
    )

read_hour_full : (c : Cmos) (hour : ℕ) → c.xxiv_hr_mode ≡ true → read_hour c hour ≡ hour
unfolding read_hour
read_hour_full c hour full = rw full

-- From the registers of a clock that counts 24 hours, in either encoding, `cmos_get_rtc_time` reads
-- the seconds of the date that it shows, for every date from 1970 to 9999 where the clock has a
-- century register, and from 2020 to 2119 where it has none.
pub cmos_get_rtc_time_lem :
    (c : Cmos) (d : Date)
    → c.xxiv_hr_mode ≡ true
    → IsDate d
    → Century c d
    → cmos_get_rtc_time c (registers c.bcd_mode d) ≡ some (pos (seconds d))
unfolding cmos_get_rtc_time
cmos_get_rtc_time_lem c d full v century =
    let r = reads c d v in
    rw (r.0, r.1, r.2, r.3, r.4, r.5, year_read c d v century, read_hour_full c d.hour full)
      (rtc_seconds-seconds d v)

-- A clock of 12 hours shows `hour`, 1 to 12, in the afternoon: the top bit of the register is set.
abbrev pub afternoon : Bool → ℕ → ℕ
afternoon binary hour = 0x80 + encode binary hour

-- What the code makes of the register's value, and what it should be.
pm_value : Bool → ℕ → ℕ
unfolding read_hour cmos_read encode
pm_value binary hour =
    let c : Cmos = record { bcd_mode = binary; xxiv_hr_mode = false; century_register = 0 } in
    read_hour c (cmos_read c (λ _. afternoon binary hour) 0x04)

pm_read : Bool → ℕ → ℕ
pm_read binary hour = if binary then (if hour == 12 then 0 else hour + 12) else hour + 80

pm_table :
    every 13
      (λ h. h == 0 || pm_value true h == pm_read true h && pm_value false h == pm_read false h)
    ≡ true
unfolding every pm_value pm_read bcd_to_bin
pm_table = refl

pm_value-pm_read :
    (binary : Bool) (hour : ℕ) → 1 ≤ hour → hour ≤ 12 → pm_value binary hour ≡ pm_read binary hour
pm_value-pm_read binary hour lo hi =
    let row =
      every-at 13
        (λ h. h == 0 || pm_value true h == pm_read true h && pm_value false h == pm_read false h)
        hour (omega arith) pm_table in
    elim binary as (λ b. pm_value b hour ≡ pm_read b hour) [
      | true ↦ ground arith
      | false ↦ ground arith
    ]

-- In the afternoon of a clock of 12 hours the hour is 80 too large if it comes in decimal
-- digits, since the top bit is taken for one of a digit; otherwise it is the hour of the day but
-- for noon, which is read as 0.
pub read_hour-afternoon :
    (c : Cmos) (inb : ℕ → ℕ) (hour : ℕ)
    → c.xxiv_hr_mode ≡ false
    → 1 ≤ hour
    → hour ≤ 12
    → inb 0x04 ≡ afternoon c.bcd_mode hour
    → read_hour c (cmos_read c inb 0x04)
      ≡ (if c.bcd_mode then (if hour == 12 then 0 else hour + 12) else hour + 80)
unfolding read_hour cmos_read pm_value pm_read
read_hour-afternoon c inb hour half lo hi e =
    let v = pm_value-pm_read c.bcd_mode hour lo hi in rw (half, e) v
