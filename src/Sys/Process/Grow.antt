-- ===== src/Sys/Process/Grow.antt =====
-- A heap that grows.
use piggy_os.Common.{
  ℕ, ◌+◌, ◌-◌, ◌*◌, ◌/◌, ◌%◌, ◌^◌, ◌<◌, ◌≤◌, ◌≡◌, ◌≢◌, refl, true, false, Option, some, length,
  arith, ltb, lt→ltb, le→ltb, ne→==, ◌==◌, add64, sub64,
}
use piggy_os.Mem.Pmm.{Pmm, page_size, pmm_alloc}
use piggy_os.Mem.Vmm.{Memory}
use piggy_os.Sys.Process.{
  process_brk_base, Process, map_pages, SbrkResult, sbrk_mapped, sbrk_pages, sbrk_grow,
}
use piggy_os.Sys.Process.Heap.{heap_page, HeapPages, OthersKept}
use piggy_os.Sys.Process.Loops.{map_pages-HeapPages}

-- The break lies in the last page of the heap or at its end, and the heap's pages are mapped.
pub record HeapValid (limit : ℕ) (p : Process) (m : Memory) : Type 0 where
  pub pages : ℕ
  pub heap : HeapPages p.pagemap limit pages m
  pub next : p.brk_next_unallocated_page_begin ≡ heap_page pages
  pub low : process_brk_base ≤ p.brk
  pub high : p.brk ≤ p.brk_next_unallocated_page_begin
  pub tight : p.brk_next_unallocated_page_begin ≤ p.brk + page_size

-- The pages that growing by `size` needs, of which `remaining` bytes are there.
abbrev pub pages_for : ℕ → ℕ → ℕ
pages_for size remaining = (size - remaining - 1) / page_size + 1

-- Physical pages are at hand where growing by `size` needs any.
pub data Affords (p : Process) (size : ℕ) (pmm : Pmm) : Type 0 where
  enough : size ≤ p.brk_next_unallocated_page_begin - p.brk → Affords p size pmm
  more :
      (paddr : ℕ) (pmm' : Pmm)
      → pmm_alloc (pages_for size (p.brk_next_unallocated_page_begin - p.brk)) pmm
        ≡ some (paddr, pmm')
      → paddr ≢ 0
      → Affords p size pmm

-- The old break is returned, the break is `brk`, and the heap is as it should be.
pub record Moves (p : Process) (brk limit : ℕ) (m : Memory) (r : Option SbrkResult) : Type 0 where
  pub next : ℕ
  pub pmm : Pmm
  pub memory : Memory
  pub result :
      r
      ≡ some
          (some p.brk, record p { brk = brk; brk_next_unallocated_page_begin = next }, pmm, memory)
  pub heap : HeapValid limit (record p { brk = brk; brk_next_unallocated_page_begin = next }) memory
  pub others : OthersKept p.pagemap limit m memory

-- The same where the pages do not change.
pub stays :
    (p : Process) (brk limit : ℕ) (m : Memory) (v : HeapValid limit p m) (pmm : Pmm)
    (r : Option SbrkResult)
    → r ≡ some (some p.brk, record p { brk = brk }, pmm, m)
    → process_brk_base ≤ brk
    → brk ≤ p.brk_next_unallocated_page_begin
    → p.brk_next_unallocated_page_begin ≤ brk + page_size
    → Moves p brk limit m r
stays p brk limit m v pmm r e low high tight = record {
  next = p.brk_next_unallocated_page_begin;
  pmm = pmm;
  memory = m;
  result = e;
  heap = record {
    pages = v.pages;
    heap = v.heap;
    next = v.next;
    low = low;
    high = high;
    tight = tight;
  };
  others = λ w k. refl;
}

-- Growing by `n` pages that are mapped.
sbrk_grow-mapped :
    (p : Process) (size n paddr brk next : ℕ) (pmm pmm' : Pmm) (m m' : Memory)
    → ltb (sub64 p.brk_next_unallocated_page_begin p.brk) (size % 2 ^ 32) ≡ true
    → sub64 (sub64 size (sub64 p.brk_next_unallocated_page_begin p.brk)) 1 / page_size + 1 ≡ n
    → pmm_alloc n pmm ≡ some (paddr, pmm')
    → (paddr == 0) ≡ false
    → map_pages p.pagemap p.brk_next_unallocated_page_begin paddr n 0 m ≡ some (true, m')
    → add64 p.brk size ≡ brk
    → add64 p.brk_next_unallocated_page_begin (n * page_size) ≡ next
    → sbrk_grow p size pmm m
      ≡ some (some p.brk, record p { brk = brk; brk_next_unallocated_page_begin = next }, pmm', m')
unfolding sbrk_grow sbrk_pages sbrk_mapped
sbrk_grow-mapped p size n paddr brk next pmm pmm' m m' l count got nonzero made moved new_next =
    rw (l, count, got, nonzero, made, moved, new_next) refl

module _ (p : Process) (limit size brk : ℕ) (pmm : Pmm) (m : Memory) (v : HeapValid limit p m)
    (small : size < 2 ^ 32) (some_size : 1 ≤ size) where
  pub sbrk_grow-enough :
      p.brk + size ≡ brk
      → size ≤ p.brk_next_unallocated_page_begin - p.brk
      → Moves p brk limit m (sbrk_grow p size pmm m)
  unfolding sbrk_grow
  sbrk_grow-enough at fits =
      let high = v.high in
      let low = v.low in
      let tight = v.tight in
      let next = v.next in
      let under = v.heap.under in
      let inside = v.heap.inside in
      let no : ltb (sub64 p.brk_next_unallocated_page_begin p.brk) (size % 2 ^ 32) ≡ false =
        le→ltb _ _ (omega arith) in
      let moved : add64 p.brk size ≡ brk = omega arith in
      stays p brk limit m v pmm _ (rw (no, moved) refl) (omega arith) (omega arith) (omega arith)

  pub sbrk_grow-more :
      (paddr : ℕ) (pmm' : Pmm)
      → p.brk + size ≡ brk
      → brk + page_size ≤ limit
      → 4 * ((size + page_size - 1) / page_size) ≤ length m.pages
      → p.brk_next_unallocated_page_begin - p.brk < size
      → pmm_alloc (pages_for size (p.brk_next_unallocated_page_begin - p.brk)) pmm
        ≡ some (paddr, pmm')
      → paddr ≢ 0
      → Moves p brk limit m (sbrk_grow p size pmm m)
  sbrk_grow-more paddr pmm' at room tables above got nonzero =
      let high = v.high in
      let low = v.low in
      let tight = v.tight in
      let next = v.next in
      let under = v.heap.under in
      let inside = v.heap.inside in
      let n = pages_for size (p.brk_next_unallocated_page_begin - p.brk) in
      let yes' : ltb (sub64 p.brk_next_unallocated_page_begin p.brk) (size % 2 ^ 32) ≡ true =
        lt→ltb _ _ (omega arith) in
      let count : sub64 (sub64 size (sub64 p.brk_next_unallocated_page_begin p.brk)) 1 / page_size
            + 1
          ≡ n =
        omega arith in
      let moved : add64 p.brk size ≡ brk = omega arith in
      let (m', made, h, others) =
        map_pages-HeapPages p.pagemap limit p.brk_next_unallocated_page_begin paddr n 0 v.pages m
          v.heap (omega arith) (omega arith) (omega arith) in
      let new_next : add64 p.brk_next_unallocated_page_begin (n * page_size)
          ≡ heap_page (v.pages + n) =
        omega arith in
      record {
        next = heap_page (v.pages + n);
        pmm = pmm';
        memory = m';
        result =
            sbrk_grow-mapped p size n paddr brk (heap_page (v.pages + n)) pmm pmm' m m' yes' count
              got (ne→== paddr 0 nonzero) made moved new_next;
        heap = record {
          pages = v.pages + n;
          heap = h;
          next = refl;
          low = omega arith;
          high = omega arith;
          tight = omega arith;
        };
        others = others;
      }
