-- ===== src/Sys/Time/Tests.antt =====
-- Sums and differences of times, and the theorems at concrete times.
use piggy_os.Common.{◌+◌, ◌*◌, ◌≡◌, refl, some, arith}
use piggy_os.Sys.Time.{
  Timespec, Clocks, timespec_add, timespec_sub, ticks, IsNormal, nanoseconds, timespec_add_lem,
  ticks_lem,
}

abbrev late : Timespec
late = record { tv_sec = 5; tv_nsec = 999999000 }

abbrev early : Timespec
early = record { tv_sec = 3; tv_nsec = 999999999 }

abbrev clocks : Clocks
clocks = record { time_monotonic = late; time_realtime = early; running = some (early, late) }

-- One nanosecond short of 1.999999001
sub_borrows : timespec_sub late early ≡ record { tv_sec = 1; tv_nsec = 999999000 }
unfolding timespec_sub
sub_borrows = refl

timespec_add_lem_example :
    IsNormal (timespec_add late early)
    × (nanoseconds (timespec_add late early) ≡ nanoseconds late + nanoseconds early)
timespec_add_lem_example = timespec_add_lem late early (omega arith) (omega arith)

ticks_lem_example :
    let d = ticks 3 clocks in
    IsNormal d.time_monotonic
    × IsNormal d.time_realtime
    × (nanoseconds d.time_monotonic ≡ nanoseconds late + 3 * 1000000)
    × (nanoseconds d.time_realtime ≡ nanoseconds early + 3 * 1000000)
ticks_lem_example = ticks_lem 3 clocks (omega arith) (omega arith)
