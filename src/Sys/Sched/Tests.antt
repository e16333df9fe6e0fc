-- ===== src/Sys/Sched/Tests.antt =====
-- A processor that runs thread 0 before thread 1, with three sleepers of which two are due.
use piggy_os.Common.{
  ℕ, zero, suc, ◌≡◌, ◌≢◌, refl, true, false, none, some, List, [], ◌∷◌, get_or, arith,
}
use piggy_os.Sys.Sched.{
  Sched, Thread, ready_to_run, running, sleeping, is_due, is_sleeping, can_run, is_ready, wake,
  switch,
}
use piggy_os.Sys.Sched.Wake.{Queues, wake-one}
use piggy_os.Sys.Sched.Choose.{Solo, switch-runs}

abbrev thread_table : List Thread
thread_table =
    record { state = running; lock = true; sleep_until = 0 }
    ∷ record { state = ready_to_run; lock = false; sleep_until = 0 }
    ∷ record { state = sleeping; lock = false; sleep_until = 10 }
    ∷ record { state = sleeping; lock = false; sleep_until = 20 }
    ∷ record { state = sleeping; lock = false; sleep_until = 90 }
    ∷ []

abbrev sample : Sched
sample = record {
  thread =
      λ i. get_or thread_table i (record { state = ready_to_run; lock = false; sleep_until = 0 });
  next = λ i. get_or (some 1 ∷ none ∷ some 3 ∷ none ∷ some 2 ∷ []) i none;
  runnable_threads = some 0;
  blocking_threads = some 4;
  zombie_threads = none;
  running_thread = some 0;
}

sample-Queues : Queues 10 sample (0 ∷ 1 ∷ []) (4 ∷ 2 ∷ 3 ∷ [])
sample-Queues = record {
  to_list = (refl, (refl, refl));
  source_list = (refl, (refl, (refl, refl)));
  distinct_to = ((omega arith, tt), (tt, tt));
  distinct_source = ((omega arith, (omega arith, tt)), ((omega arith, tt), (tt, tt)));
  apart_to = (
    (omega arith, (omega arith, (omega arith, tt))),
    ((omega arith, (omega arith, (omega arith, tt))), tt),
  );
  apart_source = (
    (omega arith, (omega arith, tt)),
    ((omega arith, (omega arith, tt)), ((omega arith, (omega arith, tt)), tt)),
  );
  enough = omega arith;
}

-- Thread 4 is not due at 50, thread 2 is.
not_due : is_due 50 (sample.thread 4) ≡ false
unfolding is_due is_sleeping
not_due = refl

due : is_due 50 (sample.thread 2) ≡ true
unfolding is_due is_sleeping
due = refl

wake-one_example :
    let s' = wake 10 11 50 (some 4) sample in
    Queues 10 s' (0 ∷ 1 ∷ 2 ∷ []) (4 ∷ 3 ∷ [])
    × (s'.thread 2 ≡ record { state = ready_to_run; lock = false; sleep_until = 0 })
    × ((a : ℕ) → a ≢ 2 → s'.thread a ≡ sample.thread a)
wake-one_example =
    wake-one 10 50 sample (0 ∷ 1 ∷ []) (4 ∷ []) (3 ∷ []) 2 sample-Queues (not_due, tt) due

can_run-1 : can_run (sample.thread 1) ≡ true
unfolding can_run is_ready
can_run-1 = refl

sample-Solo : Solo sample
sample-Solo zero r = refl
sample-Solo (suc zero) r = absurd (grind (arith, r))
sample-Solo (suc (suc zero)) r = absurd (grind (arith, r))
sample-Solo (suc (suc (suc zero))) r = absurd (grind (arith, r))
sample-Solo (suc (suc (suc (suc zero)))) r = absurd (grind (arith, r))
sample-Solo (suc (suc (suc (suc (suc n))))) r = absurd (grind (arith, r))

switch-runs_example :
    let s' = switch 10 sample in
    Solo s'
    × (s'.running_thread ≡ some 1)
    × ((s'.thread 1).state ≡ running)
    × ((s'.thread 1).lock ≡ true)
switch-runs_example =
    switch-runs 10 sample [] [] 1 (omega arith) (refl, refl) tt can_run-1 sample-Solo

-- The same processor at thread 1, the last of the list, with thread 0 ready before it.
abbrev at_end : Sched
at_end = record {
  thread = λ i.
      get_or
        (record { state = ready_to_run; lock = false; sleep_until = 0 }
          ∷ record { state = running; lock = true; sleep_until = 0 }
          ∷ [])
        i (record { state = sleeping; lock = false; sleep_until = 0 });
  next = λ i. get_or (some 1 ∷ none ∷ []) i none;
  runnable_threads = some 0;
  blocking_threads = none;
  zombie_threads = none;
  running_thread = some 1;
}

at_end-Solo : Solo at_end
at_end-Solo zero r = absurd (grind (arith, r))
at_end-Solo (suc zero) r = refl
at_end-Solo (suc (suc n)) r = absurd (grind (arith, r))
