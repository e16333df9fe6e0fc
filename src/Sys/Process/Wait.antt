-- ===== src/Sys/Process/Wait.antt =====
-- `process_wait` of kernel/src/sys/process.c. The other processes run whenever it yields: `at k` are the
-- processes and the children after `k` yields. A wait that goes on for all its fuel is `none`.
use native.Mathlib.Decide.{ℕ_discrete}
use piggy_os.Common.{
  ℕ, zero, suc, ◌+◌, ◌<◌, ◌≤◌, ◌≡◌, ◌≢◌, inl, inr, refl, ap, ◌∙◌, Bool, true, false, Option, none,
  some, if◌then◌else◌, ◌==◌, arith, Bool-cases, ne→==,
}
use piggy_os.Common.Int.{ℤ, pos, negsuc}
use piggy_os.Fs.Fd.{Errno, eagain, echild, einval}
use piggy_os.Utils.Vector.{Vector}
use piggy_os.Sys.Process.{ProcessState, process_running, process_waiting, process_zombie, Process}

abbrev is_zombie : ProcessState → Bool
is_zombie process_zombie = true
is_zombie process_running = false
is_zombie process_waiting = false

-- What `process_wait` returns, and the status that it stores.
pub data Waited : Type 0 where
  exited : ℕ → ℤ → Waited
  wait_error : Errno → Waited

-- The processes by their addresses, and the children of the process that waits.
pub record Family : Type 0 where
  pub process : ℕ → Process
  pub children : Vector

-- The first of the children `i`, ..., `i + n - 1` that the test accepts.
unfoldable pub find_child : (Process → Bool) → Family → ℕ → ℕ → Option ℕ
find_child test f zero i = none
find_child test f (suc n) i =
    let rest = find_child test f n (i + 1) in
    if test (f.process (f.children.slots i)) then some (f.children.slots i) else rest

abbrev or_else : Option ℕ → Option ℕ → Option ℕ
or_else none child = child
or_else (some c) child = some c

-- The loop of `process_wait` for any child, after `k` yields; `child` is the variable of that name.
unfoldable pub wait_any : ℕ → (ℕ → Family) → Bool → ℕ → Option ℕ → Option Waited
wait_any zero at nohang k child = none
wait_any (suc fuel) at nohang k child =
    let f = at k in
    let found = find_child (λ p. is_zombie p.state) f f.children.size 0 in
    let rest = wait_any fuel at nohang (k + 1) (or_else found child) in
    if f.children.size == 0
    then some (wait_error echild)
    else if nohang
    then some (wait_error eagain)
    else rest

-- The loop for one child, after `k` yields, with the end of `process_wait`
unfoldable pub wait_for : ℕ → (ℕ → Family) → Bool → ℕ → ℕ → Option Waited
wait_for zero at nohang k child = none
wait_for (suc fuel) at nohang k child =
    let p = (at k).process child in
    let rest = wait_for fuel at nohang (k + 1) child in
    if is_zombie p.state
    then some (exited p.pid p.status)
    else if nohang
    then some (wait_error eagain)
    else rest

abbrev wait_child : ℕ → (ℕ → Family) → Bool → Option ℕ → Option Waited
wait_child fuel at nohang none = some (wait_error echild)
wait_child fuel at nohang (some child) = wait_for fuel at nohang 0 child

-- The state in which the process that waits is left, and the result
abbrev leave : Option Waited → Option (ProcessState × Waited)
leave none = none
leave (some (exited pid status)) = some (process_running, exited pid status)
leave (some (wait_error e)) = some (process_waiting, wait_error e)

-- `process_wait`
unfoldable pub process_wait : ℕ → (ℕ → Family) → ℤ → Bool → Option (ProcessState × Waited)
process_wait fuel at (negsuc zero) nohang = leave (wait_any fuel at nohang 0 none)
process_wait fuel at (negsuc (suc n)) nohang = leave (some (wait_error einval))
process_wait fuel at (pos zero) nohang = leave (some (wait_error einval))
process_wait fuel at (pos (suc n)) nohang =
    leave
      (wait_child fuel at nohang (find_child (λ p. p.pid == suc n) (at 0) (at 0).children.size 0))

-- A wait that ends with the child's pid and status at its first time as a zombie.
pub record Ends (at : ℕ → Family) (child k : ℕ) (r : Option Waited) : Type 0 where
  pub time : ℕ
  pub soon : time ≤ k
  pub dead : ((at time).process child).state ≡ process_zombie
  pub result : r ≡ some (exited ((at time).process child).pid ((at time).process child).status)

is_zombie-state : (s : ProcessState) → is_zombie s ≡ true → s ≡ process_zombie
is_zombie-state process_zombie e = refl
is_zombie-state process_running e = cc
is_zombie-state process_waiting e = cc

wait_for-Ends :
    (fuel : ℕ) (at : ℕ → Family) (i k child : ℕ)
    → ((at k).process child).state ≡ process_zombie
    → i ≤ k
    → k < i + fuel
    → Ends at child k (wait_for fuel at false i child)
unfolding wait_for
wait_for-Ends zero at i k child z low high = absurd (omega arith)
wait_for-Ends (suc fuel) at i k child z low high =
    elim (Bool-cases (is_zombie ((at i).process child).state)) [
      | inl e ↦ record { time = i; soon = low; dead = is_zombie-state _ e; result = rw e refl }
      | inr e ↦ elim (ℕ_discrete i k) [
        | yes y ↦ absurd (cc (e, ap is_zombie (ap (λ j. ((at j).process child).state) y ∙ z)))
        | no n ↦
            let o = wait_for-Ends fuel at (i + 1) k child z (omega arith) (omega arith) in
            record { time = o.time; soon = o.soon; dead = o.dead; result = rw e o.result }
      ]
    ]

find_child-first :
    (test : Process → Bool) (f : Family) (n i j : ℕ)
    → i ≤ j
    → j < i + n
    → test (f.process (f.children.slots j)) ≡ true
    → ((l : ℕ) → i ≤ l → l < j → test (f.process (f.children.slots l)) ≡ false)
    → find_child test f n i ≡ some (f.children.slots j)
unfolding find_child
find_child-first test f zero i j low high hit miss = absurd (omega arith)
find_child-first test f (suc n) i j low high hit miss = elim (ℕ_discrete i j) [
  | yes y ↦
      let here : test (f.process (f.children.slots i)) ≡ true =
        ap (λ l. test (f.process (f.children.slots l))) y ∙ hit in
      rw here (ap (λ l. some (f.children.slots l)) y)
  | no m ↦ rw (miss i (omega arith) (omega arith)) (
      find_child-first test f n (i + 1) j (omega arith) (omega arith) hit
        (λ l a b. miss l (omega arith) b))
]

-- Without WNOHANG, a wait for a positive pid, that is the pid of the child `j` and of no earlier child,
-- ends in every run in which that child is a zombie after `k` yields, after `k` yields at the latest:
-- at a time when the child is a zombie it returns its pid and status, and the process runs again.
pub process_wait_lem :
    (fuel : ℕ) (at : ℕ → Family) (pid j k : ℕ)
    → j < (at 0).children.size
    → ((at 0).process ((at 0).children.slots j)).pid ≡ suc pid
    → ((l : ℕ) → l < j → ((at 0).process ((at 0).children.slots l)).pid ≢ suc pid)
    → ((at k).process ((at 0).children.slots j)).state ≡ process_zombie
    → k < fuel
    → let child = (at 0).children.slots j in
      (time : ℕ) × (time ≤ k)
      × (((at time).process child).state ≡ process_zombie)
      × (process_wait fuel at (pos (suc pid)) false
          ≡ some (
            process_running,
            exited ((at time).process child).pid ((at time).process child).status,
          ))
unfolding process_wait
process_wait_lem fuel at pid j k inside named earlier z enough =
    let child = (at 0).children.slots j in
    let o = wait_for-Ends fuel at 0 k child z (omega arith) (omega arith) in
    let hit : (((at 0).process child).pid == suc pid) ≡ true = ground arith in
    let found : find_child (λ p. p.pid == suc pid) (at 0) (at 0).children.size 0 ≡ some child =
      find_child-first (λ p. p.pid == suc pid) (at 0) (at 0).children.size 0 j (omega arith)
        (omega arith) hit (λ l a b. ne→== _ _ (earlier l b)) in
    (o.time, o.soon, o.dead, ap (λ c. leave (wait_child fuel at false c)) found ∙ ap leave o.result)

wait_any-none :
    (fuel : ℕ) (at : ℕ → Family) (k : ℕ) (child : Option ℕ)
    → ((i : ℕ) → (at i).children.size ≢ 0)
    → wait_any fuel at false k child ≡ none
unfolding wait_any
wait_any-none zero at k child some_child = refl
wait_any-none (suc fuel) at k child some_child =
    rw (ne→== (at k).children.size 0 (some_child k)) (wait_any-none fuel at (k + 1) _ some_child)

-- A wait for any child, of a process that has a child at every time, never ends without WNOHANG, however
-- long it runs, and with WNOHANG fails with EAGAIN and leaves the process waiting, whether a child is a
-- zombie or not.
pub process_wait-any :
    (fuel : ℕ) (at : ℕ → Family)
    → ((i : ℕ) → (at i).children.size ≢ 0)
    → (process_wait fuel at (negsuc 0) false ≡ none)
      × (process_wait (suc fuel) at (negsuc 0) true ≡ some (process_waiting, wait_error eagain))
unfolding process_wait wait_any
process_wait-any fuel at some_child = (
  ap leave (wait_any-none fuel at 0 none some_child),
  rw (ne→== (at 0).children.size 0 (some_child 0)) refl,
)
