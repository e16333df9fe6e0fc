-- ===== src/Sys/Sched/Wake.antt =====
-- The sleepers that one timer interrupt wakes, and a thread that goes to sleep.
use mathlib.Core.Path.{subst}
use piggy_os.Common.{
  ℕ, zero, suc, ◌<◌, ◌≡◌, ◌≢◌, refl, sym, ◌∙◌, true, false, Option, none, some, List, [], ◌∷◌, ◌++◌,
  length, All, arith, update_self, update_ne,
}
use piggy_os.Sys.Sched.{
  Sched, ready_to_run, sleeping, sched_thread_sleep, unblock, is_due, woken, wake,
}
use piggy_os.Sys.Sched.Linked.{Linked}
use piggy_os.Sys.Sched.Move.{Lists, Lists-swap, length_pre, moved-next, moved-Lists}

unblock-thread : (fuel t : ℕ) (s : Sched) (a : ℕ) → (unblock fuel t s).thread a ≡ s.thread a
unfolding unblock
unblock-thread fuel t s a = refl

-- The runnable and the blocking list
abbrev pub Queues : ℕ → Sched → List ℕ → List ℕ → Type 0
Queues fuel s ys xs = Lists fuel s.next s.runnable_threads s.blocking_threads ys xs

module _ (fuel : ℕ) (s : Sched) (ys pre post : List ℕ) (t : ℕ)
    (v : Queues fuel s ys (pre ++ (t ∷ post))) where
  unblock-next : (unblock fuel t s).next t ≡ none
  unfolding unblock
  unblock-next = moved-next fuel s.next s.runnable_threads s.blocking_threads ys pre post t v

  unblock-Queues : Queues fuel (unblock fuel t s) (ys ++ (t ∷ [])) (pre ++ post)
  unfolding unblock
  unblock-Queues = moved-Lists fuel s.next s.runnable_threads s.blocking_threads ys pre post t v

wake-due :
    (bound fuel now t : ℕ) (s : Sched)
    → is_due now (s.thread t) ≡ true
    → let s' = unblock bound t (woken t s) in
      wake bound (suc fuel) now (some t) s ≡ wake bound fuel now (s'.next t) s'
unfolding wake
wake-due bound fuel now t s due = rw (due, wake) refl

wake-asleep :
    (bound fuel now t : ℕ) (s : Sched)
    → is_due now (s.thread t) ≡ false
    → wake bound (suc fuel) now (some t) s ≡ wake bound fuel now (s.next t) s
unfolding wake
wake-asleep bound fuel now t s asleep = rw (asleep, wake) refl

wake-none : (bound fuel now : ℕ) (s : Sched) → wake bound fuel now none s ≡ s
unfolding wake
wake-none bound zero now s = refl
wake-none bound (suc fuel) now s = refl

-- The threads that are not due are passed over, and the loop ends with the first one that is due,
-- whose pointer has been cleared.
wake-first :
    (bound fuel now : ℕ) (iter : Option ℕ) (s : Sched) (pre post : List ℕ) (t : ℕ)
    → length pre < fuel
    → Linked s.next iter (pre ++ (t ∷ post))
    → All (λ x. is_due now (s.thread x) ≡ false) pre
    → is_due now (s.thread t) ≡ true
    → (unblock bound t (woken t s)).next t ≡ none
    → wake bound fuel now iter s ≡ unblock bound t (woken t s)
wake-first bound zero now iter s pre post t f l asleep due ends = absurd (omega arith)
wake-first bound (suc fuel) now iter s [] post t f l asleep due ends =
    rw l.0 (rw (wake-due bound fuel now t s due) (rw ends (wake-none bound fuel now _)))
wake-first bound (suc fuel) now iter s (x ∷ pre) post t f l asleep due ends = rw l.0 (
    wake-asleep bound fuel now x s asleep.0
    ∙ wake-first bound fuel now (s.next x) s pre post t (omega arith) l.1 asleep.1 due ends)

-- With well-formed lists, one pass over the blocking list moves the first thread whose time has come to the end of the runnable
-- list, ready and with its time cleared, and keeps the lists well-formed. Every other thread keeps its
-- state, so those behind it whose time has come too go on sleeping.
pub wake-one :
    (fuel now : ℕ) (s : Sched) (ys pre post : List ℕ) (t : ℕ)
    → Queues fuel s ys (pre ++ (t ∷ post))
    → All (λ x. is_due now (s.thread x) ≡ false) pre
    → is_due now (s.thread t) ≡ true
    → let s' = wake fuel (suc fuel) now s.blocking_threads s in
      Queues fuel s' (ys ++ (t ∷ [])) (pre ++ post)
      × (s'.thread t ≡ record (s.thread t) { state = ready_to_run; sleep_until = 0 })
      × ((a : ℕ) → a ≢ t → s'.thread a ≡ s.thread a)
wake-one fuel now s ys pre post t v asleep due =
    subst
      (λ (s' : Sched).
        Queues fuel s' (ys ++ (t ∷ [])) (pre ++ post)
        × (s'.thread t ≡ record (s.thread t) { state = ready_to_run; sleep_until = 0 })
        × ((a : ℕ) → a ≢ t → s'.thread a ≡ s.thread a))
      (sym (
        wake-first fuel (suc fuel) now s.blocking_threads s pre post t
          (omega
            (arith, length_pre fuel s.next s.runnable_threads s.blocking_threads ys pre post t v))
          v.source_list asleep due (unblock-next fuel (woken t s) ys pre post t v)))
      (unblock-Queues fuel (woken t s) ys pre post t v, woken-self, woken-others)
  where
    woken-self :
        (unblock fuel t (woken t s)).thread t
        ≡ record (s.thread t) { state = ready_to_run; sleep_until = 0 }
    woken-self = unblock-thread fuel t (woken t s) t ∙ update_self s.thread t _

    woken-others : (a : ℕ) → a ≢ t → (unblock fuel t (woken t s)).thread a ≡ s.thread a
    woken-others a n = unblock-thread fuel t (woken t s) a ∙ update_ne s.thread t a _ n

-- Where no thread is due the pass changes nothing.
pub wake-idle :
    (fuel bound now : ℕ) (iter : Option ℕ) (s : Sched) (xs : List ℕ)
    → Linked s.next iter xs
    → All (λ x. is_due now (s.thread x) ≡ false) xs
    → wake bound fuel now iter s ≡ s
unfolding wake
wake-idle zero bound now iter s xs l asleep = refl
wake-idle (suc fuel) bound now iter s [] l asleep = rw l (wake-none bound (suc fuel) now s)
wake-idle (suc fuel) bound now iter s (x ∷ xs) l asleep = rw l.0 (
    wake-asleep bound fuel now x s asleep.0 ∙ wake-idle fuel bound now (s.next x) s xs l.1 asleep.1)

-- With well-formed lists, a runnable thread that goes to sleep leaves the runnable list, ends the blocking list and sleeps until
-- its time; the lists stay well-formed and every other thread keeps its state.
pub sched_thread_sleep_lem :
    (fuel until t : ℕ) (s : Sched) (pre post xs : List ℕ)
    → Queues fuel s (pre ++ (t ∷ post)) xs
    → let s' = sched_thread_sleep fuel t until s in
      Queues fuel s' (pre ++ post) (xs ++ (t ∷ []))
      × (s'.thread t ≡ record (s.thread t) { state = sleeping; sleep_until = until })
      × ((a : ℕ) → a ≢ t → s'.thread a ≡ s.thread a)
unfolding sched_thread_sleep
sched_thread_sleep_lem fuel until t s pre post xs v =
    let w = Lists-swap fuel s.next s.runnable_threads s.blocking_threads (pre ++ (t ∷ post)) xs v in
    let m = moved-Lists fuel s.next s.blocking_threads s.runnable_threads xs pre post t w in
    (
      Lists-swap fuel _ _ _ (xs ++ (t ∷ [])) (pre ++ post) m,
      update_self s.thread t _,
      λ a n. update_ne s.thread t a _ n,
    )
