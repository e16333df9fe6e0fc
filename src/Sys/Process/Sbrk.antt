-- ===== src/Sys/Process/Sbrk.antt =====
-- What `process_sbrk` promises.
use mathlib.Core.Path.{subst}
use piggy_os.Common.{
  ℕ, zero, suc, ◌+◌, ◌-◌, ◌*◌, ◌/◌, ◌%◌, ◌^◌, ◌<◌, ◌≤◌, ◌≡◌, refl, sym, ap, ◌∙◌, true, false, some,
  length, arith, ltb, lt→ltb, le→ltb, sub64,
}
use native.Mathlib.Decide.{dec_lt}
use piggy_os.Common.Int.{ℤ, pos, negsuc, pos_part, neg_part}
use piggy_os.Mem.Pmm.{Pmm, page_size}
use piggy_os.Mem.Vmm.{Memory}
use piggy_os.Sys.Process.{process_brk_base, Process, unmap_pages, sbrk_shrink, process_sbrk}
use piggy_os.Sys.Process.Heap.{heap_page, HeapPages}
use piggy_os.Sys.Process.Loops.{unmapped_from, unmap_pages-HeapPages}
use piggy_os.Sys.Process.Grow.{
  HeapValid, pages_for, Affords, enough, more, Moves, stays, sbrk_grow-enough, sbrk_grow-more,
}

module _ (p : Process) (limit size brk : ℕ) (pmm : Pmm) (m : Memory) (v : HeapValid limit p m)
    (small : size < 2 ^ 32) (some_size : 1 ≤ size) where
  sbrk_shrink-enough :
      (k : ℕ)
      → suc k ≡ size
      → brk + size ≡ p.brk
      → process_brk_base ≤ brk
      → size ≤ p.brk + page_size - p.brk_next_unallocated_page_begin
      → Moves p brk limit m (process_sbrk p (negsuc k) pmm m)
  unfolding process_sbrk sbrk_shrink
  sbrk_shrink-enough k same at base fits =
      let high = v.high in
      let low = v.low in
      let tight = v.tight in
      let next = v.next in
      let under = v.heap.under in
      let inside = v.heap.inside in
      let no : ltb (sub64 p.brk (sub64 p.brk_next_unallocated_page_begin page_size)) (size % 2 ^ 32)
          ≡ false =
        le→ltb _ _ (omega arith) in
      let moved : sub64 p.brk size ≡ brk = omega arith in
      stays p brk limit m v pmm _ (rw (same, no, moved) refl) base (omega arith) (omega arith)

  sbrk_shrink-fewer :
      (k : ℕ)
      → suc k ≡ size
      → brk + size ≡ p.brk
      → process_brk_base ≤ brk
      → p.brk + page_size - p.brk_next_unallocated_page_begin < size
      → Moves p brk limit m (process_sbrk p (negsuc k) pmm m)
  unfolding process_sbrk sbrk_shrink
  sbrk_shrink-fewer k same at base above =
      let high = v.high in
      let low = v.low in
      let tight = v.tight in
      let next = v.next in
      let under = v.heap.under in
      let inside = v.heap.inside in
      let n = pages_for size (p.brk + page_size - p.brk_next_unallocated_page_begin) in
      let j = v.pages - n in
      let yes' : ltb (sub64 p.brk (sub64 p.brk_next_unallocated_page_begin page_size))
            (size % 2 ^ 32)
          ≡ true =
        lt→ltb _ _ (omega arith) in
      let count : sub64
                (sub64 size (sub64 p.brk (sub64 p.brk_next_unallocated_page_begin page_size))) 1
              / page_size
            + 1
          ≡ n =
        omega arith in
      let whole : v.pages ≡ j + n = omega arith in
      let before : p ≡ unmapped_from p (j + n) =
        ap (λ x. record p { brk_next_unallocated_page_begin = x }) (next ∙ ap heap_page whole) in
      let (m', unmapped, h, others) =
        unmap_pages-HeapPages p limit n j m
          (subst (λ k. HeapPages p.pagemap limit k m) whole v.heap) in
      let moved : sub64 p.brk size ≡ brk = omega arith in
      record {
        next = heap_page j;
        pmm = pmm;
        memory = m';
        result = rw (same, yes', count, ap (λ q. unmap_pages n q m) before ∙ unmapped, moved) refl;
        heap = record {
          pages = j;
          heap = h;
          next = refl;
          low = base;
          high = omega arith;
          tight = omega arith;
        };
        others = others;
      }

-- With a heap whose pages are mapped, for a new break from the base of the heap on and a page below the
-- limit, sizes of less than 2^32 bytes and physical pages for the heap and its tables, process_sbrk
-- returns the old break and moves the break by the size: the pages up to the new break are mapped,
-- those above its page are not, and every page outside of the heap is mapped as before.
pub process_sbrk_lem :
    (p : Process) (size : ℤ) (brk limit : ℕ) (pmm : Pmm) (m : Memory)
    → HeapValid limit p m
    → p.brk + pos_part size ≡ brk + neg_part size
    → pos_part size < 2 ^ 32
    → neg_part size < 2 ^ 32
    → process_brk_base ≤ brk
    → brk + page_size ≤ limit
    → 4 * ((pos_part size + page_size - 1) / page_size) ≤ length m.pages
    → Affords p (pos_part size) pmm
    → Moves p brk limit m (process_sbrk p size pmm m)
unfolding process_sbrk
process_sbrk_lem p (pos zero) brk limit pmm m v at up down base room tables a =
    let high = v.high in
    let low = v.low in
    let tight = v.tight in
    let same : brk ≡ p.brk = omega arith in
    stays p brk limit m v pmm _
      (ap (λ b. some (some p.brk, record p { brk = b }, pmm, m)) (sym same)) base (omega arith)
      (omega arith)
process_sbrk_lem p (pos (suc n)) brk limit pmm m v at up down base room tables (enough fits) =
    sbrk_grow-enough p limit (suc n) brk pmm m v up (omega arith) (omega arith) fits
process_sbrk_lem p (pos (suc n)) brk limit pmm m v at up down base room tables
      (more paddr pmm' got nonzero) =
    elim (dec_lt (p.brk_next_unallocated_page_begin - p.brk) (suc n)) [
      | yes l ↦
          sbrk_grow-more p limit (suc n) brk pmm m v up (omega arith) paddr pmm' (omega arith) room
            tables l got nonzero
      | no l ↦
          sbrk_grow-enough p limit (suc n) brk pmm m v up (omega arith) (omega arith) (omega arith)
    ]
process_sbrk_lem p (negsuc n) brk limit pmm m v at up down base room tables a =
    elim (dec_lt (p.brk + page_size - p.brk_next_unallocated_page_begin) (suc n)) [
      | yes l ↦
          sbrk_shrink-fewer p limit (suc n) brk pmm m v down (omega arith) n refl (omega arith) base
            l
      | no l ↦
          sbrk_shrink-enough p limit (suc n) brk pmm m v down (omega arith) n refl (omega arith)
            base (omega arith)
    ]
