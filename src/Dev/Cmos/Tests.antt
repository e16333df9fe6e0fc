-- ===== src/Dev/Cmos/Tests.antt =====
-- A date in the registers, and the theorems at it.
use piggy_os.Common.{◌≡◌, inl, refl, true, false, some, arith}
use piggy_os.Common.Int.{pos}
use piggy_os.Dev.Cmos.{Cmos, cmos_read, read_hour, read_year, rtc_seconds, cmos_get_rtc_time}
use piggy_os.Dev.Cmos.Clock.{Date, IsDate, seconds, encode, registers, cmos_get_rtc_time_lem}

-- 29 February 2024, 13:37:42
abbrev leap_day : Date
leap_day = record { second = 42; minute = 37; hour = 13; day = 29; month = 2; year = 2024 }

abbrev full : Cmos
full = record { bcd_mode = false; xxiv_hr_mode = true; century_register = 0x32 }

abbrev half : Cmos
half = record { bcd_mode = false; xxiv_hr_mode = false; century_register = 0 }

leap_day-IsDate : IsDate leap_day
leap_day-IsDate = omega arith

leap_day_read : cmos_get_rtc_time full (registers false leap_day) ≡ some (pos 1709213862)
unfolding cmos_get_rtc_time cmos_read read_hour read_year rtc_seconds registers encode
leap_day_read = refl

cmos_get_rtc_time_lem_example :
    cmos_get_rtc_time full (registers false leap_day) ≡ some (pos (seconds leap_day))
cmos_get_rtc_time_lem_example = cmos_get_rtc_time_lem full leap_day refl leap_day-IsDate (inl refl)
