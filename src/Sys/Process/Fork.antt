-- ===== src/Sys/Process/Fork.antt =====
-- The break of a process that has been forked.
use mathlib.Core.Path.{subst}
use mathlib.Core.Option.{some-injective}
use piggy_os.Common.{
  ℕ, suc, ◌+◌, ◌%◌, ◌^◌, ◌<◌, ◌≤◌, ◌≡◌, refl, sym, ap, ◌∙◌, Bool, true, false, Option, none, some,
  arith, ltb, le→ltb, add64, sub64, update, update_self,
}
use piggy_os.Common.Int.{pos}
use piggy_os.Fs.Fd.{Store}
use piggy_os.Mem.Pmm.{Pmm}
use piggy_os.Mem.Vmm.{Memory, Pagemap}
use piggy_os.Utils.Vector.{Vector}
use piggy_os.Sys.Process.{
  process_thread_stack_top, Process, Processes, Allocated, fork_fields, new_process, finish_create,
  end_fork, create_fork, create_with, process_create, sbrk_grow, process_sbrk,
}

-- The process `p` has the break `brk` and no record of the pages of its heap.
record Unrecorded (brk : ℕ) (p : Process) : Type 0 where
  break : p.brk ≡ brk
  next : p.brk_next_unallocated_page_begin ≡ 0

finish_create-Unrecorded :
    (n new brk : ℕ) (p : Process) (s s' : Processes)
    → Unrecorded brk p
    → finish_create n p s ≡ (some new, s')
    → Unrecorded brk (s'.process new)
unfolding finish_create
finish_create-Unrecorded n new brk p s s' u e =
    let same : n ≡ new = some-injective n new (ap (λ r. r.0) e) in
    let made = record p { pid = s.next_pid } in
    let at : made ≡ s'.process new =
      sym (update_self s.process n made)
      ∙ ap (update s.process n made) same
      ∙ ap (λ r. r.1.process new) e in
    subst (Unrecorded brk) at (record { break = u.break; next = u.next })

end_fork-Unrecorded :
    (old n new : ℕ) (pagemap : Pagemap) (children threads : Vector) (s s' : Processes)
    (r : Bool × Store)
    → end_fork old n pagemap (new_process children threads) s r ≡ (some new, s')
    → Unrecorded (s.process old).brk (s'.process new)
unfolding end_fork
end_fork-Unrecorded old n new pagemap children threads s s' (false, files) e =
    absurd (cc (ap (λ r. r.0) e))
end_fork-Unrecorded old n new pagemap children threads s s' (true, files) e =
    finish_create-Unrecorded n new (s.process old).brk
      (fork_fields (s.process old) pagemap (new_process children threads)) _ s'
      (record { break = refl; next = refl }) e

create_with-Unrecorded :
    (old n new : ℕ) (pagemap : Pagemap) (vfs_root : ℕ) (a : Allocated) (c t : Option Vector)
    (s s' : Processes)
    → create_with (some old) pagemap vfs_root a n c t s ≡ (some new, s')
    → Unrecorded (s.process old).brk (s'.process new)
unfolding create_with create_fork
create_with-Unrecorded old n new pagemap vfs_root a none t s s' e = absurd (cc (ap (λ r. r.0) e))
create_with-Unrecorded old n new pagemap vfs_root a (some c) none s s' e =
    absurd (cc (ap (λ r. r.0) e))
create_with-Unrecorded old n new pagemap vfs_root a (some c) (some t) s s' e = forked a.forked e
  where
    forked :
        (f : Option Pagemap)
        → create_fork old n a.descriptor f (new_process c t) s ≡ (some new, s')
        → Unrecorded (s.process old).brk (s'.process new)
    forked none q = absurd (cc (ap (λ r. r.0) q))
    forked (some pm) q = end_fork-Unrecorded old n new pm c t s s' _ q

process_create-Unrecorded :
    (old new : ℕ) (pagemap : Pagemap) (vfs_root : ℕ) (a : Allocated) (s s' : Processes)
    → process_create (some old) pagemap vfs_root a s ≡ (some new, s')
    → Unrecorded (s.process old).brk (s'.process new)
unfolding process_create
process_create-Unrecorded old new pagemap vfs_root a s s' e = made a.object e
  where
    made :
        (o : Option ℕ)
        → (let r : Option ℕ × Processes = elim o [
          | none ↦ (none, s)
          | some n ↦ create_with (some old) pagemap vfs_root a n a.children a.threads s
        ] in
            r ≡ (some new, s'))
        → Unrecorded (s.process old).brk (s'.process new)
    made none q = absurd (cc (ap (λ r. r.0) q))
    made (some n) q =
        create_with-Unrecorded old n new pagemap vfs_root a a.children a.threads s s' q

sbrk_grow-Unrecorded :
    (p : Process) (size brk : ℕ) (pmm : Pmm) (m : Memory)
    → Unrecorded brk p
    → 1 ≤ brk
    → brk ≤ process_thread_stack_top
    → size < 2 ^ 32
    → sbrk_grow p size pmm m ≡ some (some brk, record p { brk = brk + size }, pmm, m)
unfolding sbrk_grow
sbrk_grow-Unrecorded p size brk pmm m u some_brk high small =
    let at = u.break in
    let next = u.next in
    let no : ltb (sub64 p.brk_next_unallocated_page_begin p.brk) (size % 2 ^ 32) ≡ false =
      le→ltb _ _ (omega arith) in
    let moved : add64 p.brk size ≡ brk + size = omega arith in rw (no, moved, at) refl

-- In a process that has been forked, from one whose break is not 0 and not above the stacks,
-- process_sbrk of a positive size below 2^32 returns the break and moves it, but maps no page at all.
pub process_sbrk-process_create :
    (old new : ℕ) (pagemap : Pagemap) (vfs_root : ℕ) (a : Allocated) (s s' : Processes) (size : ℕ)
    (pmm : Pmm) (m : Memory)
    → process_create (some old) pagemap vfs_root a s ≡ (some new, s')
    → 1 ≤ (s.process old).brk
    → (s.process old).brk ≤ process_thread_stack_top
    → suc size < 2 ^ 32
    → let child = s'.process new in
      process_sbrk child (pos (suc size)) pmm m
      ≡ some
          (some (s.process old).brk, record child { brk = (s.process old).brk + suc size }, pmm, m)
unfolding process_sbrk
process_sbrk-process_create old new pagemap vfs_root a s s' size pmm m e low high small =
    sbrk_grow-Unrecorded (s'.process new) (suc size) (s.process old).brk pmm m
      (process_create-Unrecorded old new pagemap vfs_root a s s' e) low high small
