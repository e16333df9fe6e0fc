-- ===== src/Sys/Time.antt =====
-- kernel/src/sys/time.c: the clocks, and the sums and differences of times.
-- Clocks start at 0 or at a date after 1970 and only go forward, so the signed fields of a
-- `struct timespec` are numbers here; the seconds stay far below 2 ^ 63.
mod Tests
use piggy_os.Common.{
  ℕ, zero, suc, ◌+◌, ◌-◌, ◌*◌, ◌/◌, ◌<◌, ◌≡◌, refl, Option, none, some, ltb, ◌==◌, if◌then◌else◌,
  arith,
}

-- `struct timespec` of kernel/include/types.h
pub record Timespec : Type 0 where
  pub tv_sec : ℕ
  pub tv_nsec : ℕ

unfoldable pub timespec_add : Timespec → Timespec → Timespec
timespec_add a b =
    if ltb 999999999 (a.tv_nsec + b.tv_nsec)
    then record { tv_sec = a.tv_sec + 1 + b.tv_sec; tv_nsec = a.tv_nsec + b.tv_nsec - 1000000000 }
    else record { tv_sec = a.tv_sec + b.tv_sec; tv_nsec = a.tv_nsec + b.tv_nsec }

abbrev zero_time : Timespec
zero_time = record { tv_sec = 0; tv_nsec = 0 }

-- The end of `timespec_sub`: the difference of the seconds.
sub_sec : Timespec → Timespec → Timespec
sub_sec a b = if ltb a.tv_sec b.tv_sec then zero_time else record a { tv_sec = a.tv_sec - b.tv_sec }

unfoldable pub timespec_sub : Timespec → Timespec → Timespec
unfolding sub_sec
timespec_sub a b =
    if ltb a.tv_nsec b.tv_nsec
    then (if a.tv_sec == 0
        then zero_time
        else sub_sec
            (record { tv_sec = a.tv_sec - 1; tv_nsec = 999999999 - (b.tv_nsec - a.tv_nsec) }) b)
    else sub_sec (record a { tv_nsec = a.tv_nsec - b.tv_nsec }) b

-- The static clocks, and the ticks of the running thread and its process, if a thread runs.
pub record Clocks : Type 0 where
  pub time_monotonic : Timespec
  pub time_realtime : Timespec
  pub running : Option (Timespec × Timespec)

-- 1000000000 / TIMER_FREQUENCY nanoseconds
abbrev pub interval : Timespec
interval = record { tv_sec = 0; tv_nsec = 1000000000 / 1000 }

tick_running : Option (Timespec × Timespec) → Option (Timespec × Timespec)
tick_running none = none
tick_running (some (thread, process)) =
    some (timespec_add thread interval, timespec_add process interval)

unfoldable pub time_update_timers : Clocks → Clocks
unfolding tick_running
time_update_timers c = record {
  time_monotonic = timespec_add c.time_monotonic interval;
  time_realtime = timespec_add c.time_realtime interval;
  running = tick_running c.running;
}

-- A normalised time, and its length in nanoseconds.
abbrev pub IsNormal : Timespec → Type 0
IsNormal t = t.tv_nsec < 1000000000

abbrev pub nanoseconds : Timespec → ℕ
nanoseconds t = t.tv_sec * 1000000000 + t.tv_nsec

-- The sum of two normalised times is normalised, and no nanosecond is lost.
pub timespec_add_lem :
    (a b : Timespec)
    → IsNormal a
    → IsNormal b
    → IsNormal (timespec_add a b) × (nanoseconds (timespec_add a b) ≡ nanoseconds a + nanoseconds b)
unfolding timespec_add
timespec_add_lem a b na nb = ground arith

-- The difference of two normalised times is normalised and stops at 0, and where the nanoseconds
-- borrow from the seconds it is one nanosecond short.
timespec_sub_lem :
    (a b : Timespec)
    → IsNormal a
    → IsNormal b
    → IsNormal (timespec_sub a b)
      × (nanoseconds (timespec_sub a b)
          ≡ nanoseconds a - nanoseconds b - (if ltb a.tv_nsec b.tv_nsec then 1 else 0))
unfolding timespec_sub
timespec_sub_lem a b na nb = ground arith

-- One timer interrupt moves both clocks by one millisecond.
update_lem :
    (c : Clocks)
    → IsNormal c.time_monotonic
    → IsNormal c.time_realtime
    → let d = time_update_timers c in
      IsNormal d.time_monotonic
      × IsNormal d.time_realtime
      × (nanoseconds d.time_monotonic ≡ nanoseconds c.time_monotonic + 1000000)
      × (nanoseconds d.time_realtime ≡ nanoseconds c.time_realtime + 1000000)
unfolding time_update_timers
update_lem c nm nr =
    let m = timespec_add_lem c.time_monotonic interval nm (omega arith) in
    let r = timespec_add_lem c.time_realtime interval nr (omega arith) in (m.0, r.0, m.1, r.1)

-- `n` timer interrupts.
unfoldable pub ticks : ℕ → Clocks → Clocks
ticks zero c = c
ticks (suc n) c = ticks n (time_update_timers c)

-- After `n` timer interrupts both clocks are `n` milliseconds further, and normalised.
pub ticks_lem :
    (n : ℕ) (c : Clocks)
    → IsNormal c.time_monotonic
    → IsNormal c.time_realtime
    → let d = ticks n c in
      IsNormal d.time_monotonic
      × IsNormal d.time_realtime
      × (nanoseconds d.time_monotonic ≡ nanoseconds c.time_monotonic + n * 1000000)
      × (nanoseconds d.time_realtime ≡ nanoseconds c.time_realtime + n * 1000000)
unfolding ticks
ticks_lem zero c nm nr = omega arith
ticks_lem (suc n) c nm nr =
    let u = update_lem c nm nr in omega (arith, ticks_lem n (time_update_timers c) u.0 u.1)
