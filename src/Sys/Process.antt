-- ===== src/Sys/Process.antt =====
-- kernel/src/sys/process.c: the break of a process, its children and its end. A process is known by its
-- address in a store. What the slab allocator, `vector_create` and `vmm_fork_pagemap` give is an argument.
pub mod Heap
pub mod Loops
pub mod Grow
pub mod Sbrk
pub mod Fork
pub mod Wait
mod Tests
use piggy_os.Common.{
  ℕ, zero, suc, ◌+◌, ◌-◌, ◌*◌, ◌/◌, ◌%◌, ◌^◌, Bool, true, false, Option, none, some, List, [], ◌∷◌,
  ltb, leb, ◌==◌, if◌then◌else◌, add64, sub64, update,
}
use piggy_os.Common.Int.{ℤ, pos, negsuc}
use piggy_os.Fs.Fd.{max_fds, Store, entry, Errno, eagain, echild, einval, Ret, fdnum, err, fd_dup}
use piggy_os.Mem.Pmm.{Pmm, page_size, pmm_alloc}
use piggy_os.Mem.Vmm.{Flags, Memory, Pagemap, vmm_map_page, vmm_unmap_page}
use piggy_os.Sys.Sched.{Sched, sched_thread_dequeue}
use piggy_os.Utils.Vector.{Vector, vector_create, vector_push_back}

abbrev pub process_brk_base : ℕ
process_brk_base = 0x60000000000

abbrev pub process_thread_stack_top : ℕ
process_thread_stack_top = 0x70000000000

pub data ProcessState : Type 0 where
  process_running : ProcessState
  process_waiting : ProcessState
  process_zombie : ProcessState

-- The fields of `struct process` that the operations below read.
pub record Process : Type 0 where
  pub pid : ℕ
  pub state : ProcessState
  pub status : ℤ
  pub pagemap : Pagemap
  pub thread_stack_top : ℕ
  pub brk : ℕ
  pub brk_next_unallocated_page_begin : ℕ
  pub cwd : ℕ
  pub children : Vector
  pub threads : Vector

-- PTE_PRESENT | PTE_WRITABLE | PTE_USER | PTE_NX
abbrev pub heap_flags : Flags
heap_flags = record {
  present = true;
  writable = true;
  user = true;
  cache_disable = false;
  size = false;
  global = false;
  nx = true;
}

-- Going on after `vmm_map_page`, unless it fails or the allocator panics.
abbrev pub and_mapped :
    Option (Bool × Memory) → (Memory → Option (Bool × Memory)) → Option (Bool × Memory)
and_mapped none next = none
and_mapped (some (ok, m)) next = if ok then next m else some (false, m)

-- The loop of `process_sbrk` that maps pages, with `n` rounds left, from the round `i` on.
unfoldable pub map_pages : Pagemap → ℕ → ℕ → ℕ → ℕ → Memory → Option (Bool × Memory)
map_pages pagemap start paddr zero i m = some (true, m)
map_pages pagemap start paddr (suc n) i m =
    and_mapped (vmm_map_page pagemap (start + i * page_size) (paddr + i * page_size) heap_flags m)
      (map_pages pagemap start paddr n (i + 1))

-- The loop of `process_sbrk` that unmaps pages, with `n` rounds left.
unfoldable pub unmap_pages : ℕ → Process → Memory → Process × Memory
unmap_pages zero p m = (p, m)
unmap_pages (suc n) p m =
    let below = sub64 p.brk_next_unallocated_page_begin page_size in
    let fewer =
      unmap_pages n (record p { brk_next_unallocated_page_begin = below })
        (vmm_unmap_page p.pagemap below m).1 in
    let same = unmap_pages n p m in if leb process_brk_base below then fewer else same

-- A result of `process_sbrk`: the old break, where `none` is (void*) -1, and what is left behind.
abbrev pub SbrkResult : Type 0
SbrkResult = Option ℕ × Process × Pmm × Memory

-- The end of `process_sbrk` for a growing heap. The pages of the tables that `vmm_map_page` makes come
-- from the pages of `Memory`, which are set apart from the `Pmm`: the one in the result has the pages
-- of the heap only.
unfoldable pub sbrk_mapped : Process → ℕ → ℕ → Pmm → Option (Bool × Memory) → Option SbrkResult
sbrk_mapped p size count pmm none = none
sbrk_mapped p size count pmm (some (false, m)) = some (none, p, pmm, m)
sbrk_mapped p size count pmm (some (true, m)) = some (
  some p.brk,
  record p {
    brk = add64 p.brk size;
    brk_next_unallocated_page_begin = add64 p.brk_next_unallocated_page_begin (count * page_size);
  },
  pmm,
  m,
)

-- `process_sbrk` from `pmm_alloc` on
unfoldable pub sbrk_pages : Process → ℕ → ℕ → Memory → Option (ℕ × Pmm) → Option SbrkResult
sbrk_pages p size count m none = none
sbrk_pages p size count m (some (paddr, pmm)) =
    if paddr == 0
    then some (none, p, pmm, m)
    else sbrk_mapped p size count pmm
        (map_pages p.pagemap p.brk_next_unallocated_page_begin paddr count 0 m)

-- `process_sbrk` of a positive size
unfoldable pub sbrk_grow : Process → ℕ → Pmm → Memory → Option SbrkResult
sbrk_grow p size pmm m =
    let remaining = sub64 p.brk_next_unallocated_page_begin p.brk in
    let page_count = sub64 (sub64 size remaining) 1 / page_size + 1 in
    if ltb remaining (size % 2 ^ 32)
    then sbrk_pages p size page_count m (pmm_alloc page_count pmm)
    else some (some p.brk, record p { brk = add64 p.brk size }, pmm, m)

-- `process_sbrk` of the size `-size`
unfoldable pub sbrk_shrink : Process → ℕ → Memory → Process × Memory
sbrk_shrink p size m =
    let current_page_start = sub64 p.brk_next_unallocated_page_begin page_size in
    let remaining = sub64 p.brk current_page_start in
    let page_count = sub64 (sub64 size remaining) 1 / page_size + 1 in
    let (p', m') = if ltb remaining (size % 2 ^ 32) then unmap_pages page_count p m else (p, m) in
    (record p' { brk = sub64 p'.brk size }, m')

-- `process_sbrk`; `none` is a panic of the allocator.
unfoldable pub process_sbrk : Process → ℤ → Pmm → Memory → Option SbrkResult
process_sbrk p (pos zero) pmm m = some (some p.brk, p, pmm, m)
process_sbrk p (pos (suc n)) pmm m = sbrk_grow p (suc n) pmm m
process_sbrk p (negsuc n) pmm m =
    let (p', m') = sbrk_shrink p (suc n) m in some (some p.brk, p', pmm, m')

-- The processes by their addresses, `running_processes`, `next_pid` and the descriptors. The table of
-- descriptors of a process has its address as its name.
pub record Processes : Type 0 where
  pub process : ℕ → Process
  pub running_processes : Vector
  pub next_pid : ℕ
  pub files : Store

-- What the allocations of `process_create` give: the object, its two vectors, the forked page map and
-- the copies of the descriptors.
pub record Allocated : Type 0 where
  pub object : Option ℕ
  pub children : Option Vector
  pub threads : Option Vector
  pub forked : Option Pagemap
  pub descriptor : ℕ → Option ℕ

-- Going on after `fd_dup`, unless it fails.
abbrev pub and_dup : Ret × Store → (Store → Bool × Store) → Bool × Store
and_dup (fdnum n, s) next = next s
and_dup (err e, s) next = (false, s)

-- The loop of `process_create` over the descriptors, with `n` rounds left, from `i` on.
unfoldable pub dup_fds : ℕ → ℕ → (ℕ → Option ℕ) → ℕ → ℕ → Store → Bool × Store
dup_fds old new descriptor zero i s = (true, s)
dup_fds old new descriptor (suc n) i s = elim (entry s old i) [
  | none ↦ dup_fds old new descriptor n (i + 1) s
  | some fd ↦
      and_dup (fd_dup old i new i true false (descriptor i) s)
        (dup_fds old new descriptor n (i + 1))
]

-- The object of the slab allocator, which is zero, with its vectors.
abbrev pub new_process : Vector → Vector → Process
new_process children threads = record {
  pid = 0;
  state = process_running;
  status = pos 0;
  pagemap = record { top_level = 0; has_level5 = false };
  thread_stack_top = 0;
  brk = 0;
  brk_next_unallocated_page_begin = 0;
  cwd = 0;
  children = children;
  threads = threads;
}

-- What a fork copies
abbrev pub fork_fields : Process → Pagemap → Process → Process
fork_fields old pagemap p = record p {
  pagemap = pagemap;
  brk = old.brk;
  thread_stack_top = old.thread_stack_top;
  cwd = old.cwd;
}

-- What the first processes begin with; `vfs_root` is their directory.
abbrev pub init_fields : Pagemap → ℕ → Process → Process
init_fields pagemap vfs_root p = record p {
  pagemap = pagemap;
  brk = process_brk_base;
  brk_next_unallocated_page_begin = process_brk_base;
  thread_stack_top = process_thread_stack_top;
  cwd = vfs_root;
}

-- The end of `process_create`
unfoldable pub finish_create : ℕ → Process → Processes → Option ℕ × Processes
finish_create new p s = (
  some new,
  record s {
    process = update s.process new (record p { pid = s.next_pid });
    next_pid = s.next_pid + 1;
    running_processes = vector_push_back s.running_processes new;
  },
)

-- A fork behind the loop over the descriptors
unfoldable pub end_fork :
    ℕ → ℕ → Pagemap → Process → Processes → Bool × Store → Option ℕ × Processes
end_fork old new pagemap p s (false, files) = (none, record s { files = files })
end_fork old new pagemap p s (true, files) =
    let parent = s.process old in
    let grown = record parent { children = vector_push_back parent.children new } in
    finish_create new (fork_fields parent pagemap p)
      (record s { files = files; process = update s.process old grown })

-- The fork of `old`
unfoldable pub create_fork :
    ℕ → ℕ → (ℕ → Option ℕ) → Option Pagemap → Process → Processes → Option ℕ × Processes
create_fork old new descriptor none p s = (none, s)
create_fork old new descriptor (some pagemap) p s =
    end_fork old new pagemap p s (dup_fds old new descriptor max_fds 0 s.files)

-- `process_create` with its object and its vectors
unfoldable pub create_with :
    Option ℕ
    → Pagemap
    → ℕ
    → Allocated
    → ℕ
    → Option Vector
    → Option Vector
    → Processes
    → Option ℕ × Processes
create_with old pagemap vfs_root a new none threads s = (none, s)
create_with old pagemap vfs_root a new (some children) none s = (none, s)
create_with none pagemap vfs_root a new (some children) (some threads) s =
    finish_create new (init_fields pagemap vfs_root (new_process children threads)) s
create_with (some old) pagemap vfs_root a new (some children) (some threads) s =
    create_fork old new a.descriptor a.forked (new_process children threads) s

-- `process_create`
unfoldable pub process_create :
    Option ℕ → Pagemap → ℕ → Allocated → Processes → Option ℕ × Processes
process_create old pagemap vfs_root a s = elim a.object [
  | none ↦ (none, s)
  | some new ↦ create_with old pagemap vfs_root a new a.children a.threads s
]

-- The loop of `process_exit`
unfoldable pub dequeue_threads : ℕ → ℕ → ℕ → (ℕ → ℕ) → Sched → Sched
dequeue_threads fuel zero i threads s = s
dequeue_threads fuel (suc n) i threads s =
    dequeue_threads fuel n (i + 1) threads (sched_thread_dequeue fuel (threads i) s)

-- `process_exit`; `none` is the panic. `fuel` bounds the walks over the lists of threads.
unfoldable pub process_exit : ℕ → Process → ℤ → Sched → Option (Process × Sched)
process_exit fuel p status s =
    if ltb p.pid 2
    then none
    else some (
      record p { state = process_zombie; status = status },
      dequeue_threads fuel p.threads.size 0 p.threads.slots s,
    )
