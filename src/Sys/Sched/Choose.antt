-- ===== src/Sys/Sched/Choose.antt =====
-- The thread that runs next, and that one thread runs at a time.
use native.Mathlib.Decide.{ℕ_discrete}
use piggy_os.Common.{
  ℕ, zero, suc, ◌<◌, ◌≤◌, ◌≡◌, ◌≢◌, refl, sym, ap, ◌∙◌, Bool, true, false, Option, none, some, List,
  [], ◌∷◌, ◌++◌, length, All, arith, update_self, update_ne,
}
use piggy_os.Sys.Sched.{
  Sched, Thread, ThreadState, ready_to_run, running, sleeping, zombie, can_run, first_ready,
  get_next_thread, after_running, preempt, resume, switch,
}
use piggy_os.Sys.Sched.Linked.{Linked}

ready-here :
    (fuel t : ℕ) (s : Sched)
    → can_run (s.thread t) ≡ true
    → first_ready (suc fuel) (some t) s ≡ some t
unfolding first_ready
ready-here fuel t s e = rw (e, first_ready) refl

ready-further :
    (fuel t : ℕ) (s : Sched)
    → can_run (s.thread t) ≡ false
    → first_ready (suc fuel) (some t) s ≡ first_ready fuel (s.next t) s
unfolding first_ready
ready-further fuel t s e = rw (e, first_ready) refl

ready-end : (fuel : ℕ) (s : Sched) → first_ready fuel none s ≡ none
unfolding first_ready
ready-end zero s = refl
ready-end (suc fuel) s = refl

first_ready-found :
    (fuel : ℕ) (iter : Option ℕ) (s : Sched) (pre post : List ℕ) (t : ℕ)
    → length pre < fuel
    → Linked s.next iter (pre ++ (t ∷ post))
    → All (λ x. can_run (s.thread x) ≡ false) pre
    → can_run (s.thread t) ≡ true
    → first_ready fuel iter s ≡ some t
first_ready-found zero iter s pre post t f l cannot can = absurd (omega arith)
first_ready-found (suc fuel) iter s [] post t f l cannot can = rw l.0 (ready-here fuel t s can)
first_ready-found (suc fuel) iter s (x ∷ pre) post t f l cannot can = rw l.0 (
    ready-further fuel x s cannot.0
    ∙ first_ready-found fuel (s.next x) s pre post t (omega arith) l.1 cannot.1 can)

first_ready-none :
    (fuel : ℕ) (iter : Option ℕ) (s : Sched) (xs : List ℕ)
    → length xs ≤ fuel
    → Linked s.next iter xs
    → All (λ x. can_run (s.thread x) ≡ false) xs
    → first_ready fuel iter s ≡ none
first_ready-none fuel iter s [] f l cannot = rw l (ready-end fuel s)
first_ready-none zero iter s (x ∷ xs) f l cannot = absurd (omega arith)
first_ready-none (suc fuel) iter s (x ∷ xs) f l cannot = rw l.0 (
    ready-further fuel x s cannot.0
    ∙ first_ready-none fuel (s.next x) s xs (omega arith) l.1 cannot.1)

resume-chosen :
    (t : ℕ) (s : Sched)
    → let s' = resume (some t) s in
      (s'.running_thread ≡ some t) × ((s'.thread t).state ≡ running) × ((s'.thread t).lock ≡ true)
unfolding resume
resume-chosen t s =
    let e = update_self s.thread t (record (s.thread t) { state = running; lock = true }) in
    (refl, ap (λ (x : Thread). x.state) e, ap (λ (x : Thread). x.lock) e)

abbrev pub is_running : ThreadState → Bool
is_running ready_to_run = false
is_running running = true
is_running sleeping = false
is_running zombie = false

-- No thread runs but the one the processor is at.
abbrev pub Solo : Sched → Type 0
Solo s = (a : ℕ) → is_running (s.thread a).state ≡ true → s.running_thread ≡ some a

after_running-stops : (st : ThreadState) → is_running (after_running st) ≡ false
unfolding after_running
after_running-stops ready_to_run = refl
after_running-stops running = refl
after_running-stops sleeping = refl
after_running-stops zombie = refl

-- Behind `preempt` no thread runs.
preempt-stopped :
    (c : Option ℕ) (s : Sched)
    → s.running_thread ≡ c
    → Solo s
    → (a : ℕ) → is_running ((preempt c s).thread a).state ≢ true
unfolding preempt
preempt-stopped none s e v a r = grind (arith, v a r)
preempt-stopped (some c) s e v a r = elim (ℕ_discrete a c) [
  | yes y ↦
      grind (arith, rw (y, update_self s.thread c _) at r, after_running-stops (s.thread c).state)
  | no n ↦ grind (arith, v a (rw (update_ne s.thread c a _ n) at r))
]

resume-Solo :
    (n : Option ℕ) (s : Sched)
    → ((a : ℕ) → is_running (s.thread a).state ≢ true)
    → Solo (resume n s)
unfolding resume
resume-Solo none s h a r = absurd (h a r)
resume-Solo (some n) s h a r = elim (ℕ_discrete a n) [
  | yes y ↦ ap some (sym y)
  | no k ↦ absurd (h a (rw (update_ne s.thread n a _ k) at r))
]

-- Where `get_next_thread` begins
abbrev pub behind : Option ℕ → Sched → Option ℕ
behind none s = s.runnable_threads
behind (some c) s = s.next c

next-behind :
    (fuel : ℕ) (current : Option ℕ) (s : Sched)
    → get_next_thread fuel current s ≡ first_ready fuel (behind current s) s
unfolding get_next_thread
next-behind fuel none s = refl
next-behind fuel (some c) s = refl

-- Behind the running thread in its list, or from the head where nothing runs, the first thread that is
-- ready with its lock free runs next; the thread that ran is not running any more. If one thread at most
-- runs before, one at most runs afterwards.
pub switch-runs :
    (fuel : ℕ) (s : Sched) (pre post : List ℕ) (t : ℕ)
    → length pre < fuel
    → Linked s.next (behind s.running_thread s) (pre ++ (t ∷ post))
    → All (λ x. can_run (s.thread x) ≡ false) pre
    → can_run (s.thread t) ≡ true
    → Solo s
    → let s' = switch fuel s in
      Solo s'
      × (s'.running_thread ≡ some t)
      × ((s'.thread t).state ≡ running)
      × ((s'.thread t).lock ≡ true)
unfolding switch
switch-runs fuel s pre post t f l cannot can v =
    let e =
      next-behind fuel s.running_thread s
      ∙ first_ready-found fuel (behind s.running_thread s) s pre post t f l cannot can in
    (
      resume-Solo (get_next_thread fuel s.running_thread s) (preempt s.running_thread s)
          (preempt-stopped s.running_thread s refl v),
      rw e (resume-chosen t (preempt s.running_thread s)).0,
      rw e (resume-chosen t (preempt s.running_thread s)).1,
      rw e (resume-chosen t (preempt s.running_thread s)).2,
    )

not_true : (b : Bool) → b ≢ true → b ≡ false
not_true true n = absurd (n refl)
not_true false n = refl

-- If one thread at most runs, and no thread behind it is ready with its lock free, the processor waits and no thread
-- runs, whatever stands before the running thread in the list.
pub switch-waits :
    (fuel : ℕ) (s : Sched) (xs : List ℕ)
    → length xs ≤ fuel
    → Linked s.next (behind s.running_thread s) xs
    → All (λ x. can_run (s.thread x) ≡ false) xs
    → Solo s
    → let s' = switch fuel s in
      (s'.running_thread ≡ none) × ((a : ℕ) → is_running (s'.thread a).state ≡ false)
unfolding switch resume
switch-waits fuel s xs f l cannot v =
    let e =
      next-behind fuel s.running_thread s
      ∙ first_ready-none fuel (behind s.running_thread s) s xs f l cannot in
    rw e (refl, λ a. not_true _ (preempt-stopped s.running_thread s refl v a))
