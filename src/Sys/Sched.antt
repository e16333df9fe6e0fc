-- ===== src/Sys/Sched.antt =====
-- kernel/src/sys/sched.c: the thread lists. A thread is known by its number; the `next` pointers of all
-- threads are one function, so that the lists share them as they do in the code. `fuel` is a bound on
-- the number of threads. Registers, stacks and the page map that a switch loads are not modelled.
pub mod Linked
pub mod Move
pub mod Wake
pub mod Choose
mod Tests
use piggy_os.Common.{
  ℕ, zero, suc, Bool, true, false, not, ◌&&◌, Option, none, some, ltb, ◌==◌, if◌then◌else◌, update,
}

-- `enum thread_state`
pub data ThreadState : Type 0 where
  ready_to_run running sleeping zombie : ThreadState

pub record Thread : Type 0 where
  pub state : ThreadState
  pub lock : Bool
  pub sleep_until : ℕ

pub record Sched : Type 0 where
  pub thread : ℕ → Thread
  pub next : ℕ → Option ℕ
  pub runnable_threads : Option ℕ
  pub blocking_threads : Option ℕ
  pub zombie_threads : Option ℕ
  pub running_thread : Option ℕ

-- The last thread of the list from `iter` on.
unfoldable pub last_of : ℕ → (ℕ → Option ℕ) → ℕ → ℕ
last_of zero next iter = iter
last_of (suc fuel) next iter = elim (next iter) [ none ↦ iter | some t ↦ last_of fuel next t ]

-- `add_thread_to_list`: the head of the list and the pointers afterwards.
unfoldable pub add_thread_to_list : ℕ → Option ℕ → ℕ → (ℕ → Option ℕ) → Option ℕ × (ℕ → Option ℕ)
add_thread_to_list fuel none t next = (some t, next)
add_thread_to_list fuel (some iter) t next =
    (some iter, update next (last_of fuel next iter) (some t))

-- The loop of `remove_thread_from_list`
unfoldable pub unlink : ℕ → ℕ → ℕ → (ℕ → Option ℕ) → ℕ → Option ℕ
unlink zero iter t next = next
unlink (suc fuel) iter t next = elim (next iter) [
  | none ↦ next
  | some x ↦ if x == t then update (update next iter (next x)) x none else unlink fuel x t next
]

-- `remove_thread_from_list`
unfoldable pub remove_thread_from_list :
    ℕ → Option ℕ → ℕ → (ℕ → Option ℕ) → Option ℕ × (ℕ → Option ℕ)
remove_thread_from_list fuel none t next = (none, next)
remove_thread_from_list fuel (some iter) t next =
    if iter == t then (next iter, update next iter none) else (some iter, unlink fuel iter t next)

-- From the blocking list to the runnable list
unfoldable pub unblock : ℕ → ℕ → Sched → Sched
unblock fuel t s =
    let (blocking, next1) = remove_thread_from_list fuel s.blocking_threads t s.next in
    let (runnable, next2) = add_thread_to_list fuel s.runnable_threads t next1 in
    record s { blocking_threads = blocking; runnable_threads = runnable; next = next2 }

unfoldable pub is_sleeping : ThreadState → Bool
is_sleeping ready_to_run = false
is_sleeping running = false
is_sleeping sleeping = true
is_sleeping zombie = false

unfoldable pub is_ready : ThreadState → Bool
is_ready ready_to_run = true
is_ready running = false
is_ready sleeping = false
is_ready zombie = false

-- The test of `schedule` for a sleeper whose time has come.
unfoldable pub is_due : ℕ → Thread → Bool
is_due now t = is_sleeping t.state && ltb t.sleep_until now

-- The tests of `get_next_thread`: the thread is ready and its lock is free.
unfoldable pub can_run : Thread → Bool
can_run t = is_ready t.state && not t.lock

-- `state = THREAD_READY_TO_RUN; sleep_until = 0`
abbrev pub woken : ℕ → Sched → Sched
woken t s = record s {
  thread = update s.thread t (record (s.thread t) { state = ready_to_run; sleep_until = 0 });
}

-- The first loop of `schedule`, over the threads that sleep; the clock is read as `now` throughout.
unfoldable pub wake : ℕ → ℕ → ℕ → Option ℕ → Sched → Sched
wake bound zero now iter s = s
wake bound (suc fuel) now none s = s
wake bound (suc fuel) now (some t) s = elim (is_due now (s.thread t)) [
  | true ↦ (let s' = unblock bound t (woken t s) in wake bound fuel now (s'.next t) s')
  | false ↦ wake bound fuel now (s.next t) s
]

-- `get_next_thread` behind the first `iter`: a ready thread whose lock is free. `resume` locks it.
unfoldable pub first_ready : ℕ → Option ℕ → Sched → Option ℕ
first_ready zero iter s = none
first_ready (suc fuel) none s = none
first_ready (suc fuel) (some t) s = elim (can_run (s.thread t)) [
  | true ↦ some t
  | false ↦ first_ready fuel (s.next t) s
]

unfoldable pub get_next_thread : ℕ → Option ℕ → Sched → Option ℕ
get_next_thread fuel none s = first_ready fuel s.runnable_threads s
get_next_thread fuel (some current) s = first_ready fuel (s.next current) s

unfoldable pub after_running : ThreadState → ThreadState
after_running ready_to_run = ready_to_run
after_running running = ready_to_run
after_running sleeping = sleeping
after_running zombie = zombie

-- The thread that ran is ready again, unless it sleeps or is a zombie, and its lock is released.
unfoldable pub preempt : Option ℕ → Sched → Sched
preempt none s = s
preempt (some c) s = record s {
  thread =
      update s.thread c
        (record (s.thread c) { state = after_running (s.thread c).state; lock = false });
}

-- The chosen thread runs under its lock; without one the processor waits.
unfoldable pub resume : Option ℕ → Sched → Sched
resume none s = record s { running_thread = none }
resume (some n) s = record s {
  thread = update s.thread n (record (s.thread n) { state = running; lock = true });
  running_thread = some n;
}

-- `schedule` behind its two loops, on one processor.
unfoldable pub switch : ℕ → Sched → Sched
switch fuel s =
    let chosen = get_next_thread fuel s.running_thread s in
    resume chosen (preempt s.running_thread s)

-- `sched_thread_enqueue`
unfoldable pub sched_thread_enqueue : ℕ → ℕ → Sched → Sched
sched_thread_enqueue fuel t s =
    let (head, next) = add_thread_to_list fuel s.runnable_threads t s.next in
    record s { runnable_threads = head; next = next }

-- `sched_thread_dequeue`
unfoldable pub sched_thread_dequeue : ℕ → ℕ → Sched → Sched
sched_thread_dequeue fuel t s =
    let (runnable, next1) = remove_thread_from_list fuel s.runnable_threads t s.next in
    let (dead, next2) = add_thread_to_list fuel s.zombie_threads t next1 in
    record s {
      thread = update s.thread t (record (s.thread t) { state = zombie });
      runnable_threads = runnable;
      zombie_threads = dead;
      next = next2;
    }

-- `sched_thread_sleep` up to its call of `sched_yield`; `until` is HPET_CALC_SLEEP_NS(ns).
unfoldable pub sched_thread_sleep : ℕ → ℕ → ℕ → Sched → Sched
sched_thread_sleep fuel t until s =
    let (runnable, next1) = remove_thread_from_list fuel s.runnable_threads t s.next in
    let (blocking, next2) = add_thread_to_list fuel s.blocking_threads t next1 in
    record s {
      thread = update s.thread t (record (s.thread t) { state = sleeping; sleep_until = until });
      runnable_threads = runnable;
      blocking_threads = blocking;
      next = next2;
    }
