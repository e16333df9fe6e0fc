-- ===== src/Sys/Process/Loops.antt =====
-- The loops of `process_sbrk`.
use mathlib.Core.Path.{subst}
use piggy_os.Common.{
  ℕ, zero, suc, ◌+◌, ◌*◌, ◌≤◌, ◌≡◌, refl, ap, ◌∙◌, true, some, length, arith, leb, le→leb, sub64,
}
use piggy_os.Mem.Pmm.{page_size}
use piggy_os.Mem.Vmm.{Memory, Pagemap, vmm_map_page, vmm_unmap_page}
use piggy_os.Sys.Process.{process_brk_base, heap_flags, Process, and_mapped, map_pages, unmap_pages}
use piggy_os.Sys.Process.Heap.{
  heap_page, HeapPages, OthersKept, map_page-HeapPages, unmap_page-HeapPages,
}

-- The loop that maps `n` pages from the page `j` on.
pub map_pages-HeapPages :
    (pagemap : Pagemap) (limit start paddr n i j : ℕ) (m : Memory)
    → HeapPages pagemap limit j m
    → start + i * page_size ≡ heap_page j
    → heap_page (j + n) ≤ limit
    → 4 * n ≤ length m.pages
    → (m' : Memory) × (map_pages pagemap start paddr n i m ≡ some (true, m'))
      × HeapPages pagemap limit (j + n) m'
      × OthersKept pagemap limit m m'
unfolding map_pages
map_pages-HeapPages pagemap limit start paddr zero i j m h e room enough =
    let same : j ≡ j + 0 = omega arith in
    (m, refl, subst (λ k. HeapPages pagemap limit k m) same h, λ w k. refl)
map_pages-HeapPages pagemap limit start paddr (suc n) i j m h e room enough =
    let next : j + 1 + n ≡ j + suc n = omega arith in
    let (m1, made, h1, o1, used) =
      map_page-HeapPages pagemap limit j m (paddr + i * page_size) h (omega arith) (omega arith) in
    let (m2, rest, h2, o2) =
      map_pages-HeapPages pagemap limit start paddr n (i + 1) (j + 1) m1 h1 (omega arith)
        (omega arith) (omega arith) in
    (
      m2,
      ap
            (λ v.
              and_mapped (vmm_map_page pagemap v (paddr + i * page_size) heap_flags m)
                (map_pages pagemap start paddr n (i + 1)))
            e
          ∙ ap (λ r. and_mapped r (map_pages pagemap start paddr n (i + 1))) made
          ∙ rest,
      subst (λ k. HeapPages pagemap limit k m2) next h2,
      λ w k. o2 w k ∙ o1 w k,
    )

-- The process `p` with its first page that is not mapped at `j`.
abbrev pub unmapped_from : Process → ℕ → Process
unmapped_from p j = record p { brk_next_unallocated_page_begin = heap_page j }

-- The loop that unmaps the last `n` pages.
pub unmap_pages-HeapPages :
    (p : Process) (limit n j : ℕ) (m : Memory)
    → HeapPages p.pagemap limit (j + n) m
    → (m' : Memory) × (unmap_pages n (unmapped_from p (j + n)) m ≡ (unmapped_from p j, m'))
      × HeapPages p.pagemap limit j m'
      × OthersKept p.pagemap limit m m'
unfolding unmap_pages
unmap_pages-HeapPages p limit zero j m h =
    let e : j + 0 ≡ j = omega arith in
    (
      m,
      ap (λ k. (unmapped_from p k, m)) e,
      subst (λ k. HeapPages p.pagemap limit k m) e h,
      λ w k. refl,
    )
unmap_pages-HeapPages p limit (suc n) j m h =
    let e : j + suc n ≡ j + n + 1 = omega arith in
    let inside = h.inside in
    let under = h.under in
    let below : sub64 (heap_page (j + suc n)) page_size ≡ heap_page (j + n) = omega arith in
    let base : leb process_brk_base (heap_page (j + n)) ≡ true = le→leb _ _ (omega arith) in
    let (h1, o1) =
      unmap_page-HeapPages p.pagemap limit (j + n) m
        (subst (λ k. HeapPages p.pagemap limit k m) e h) in
    let m1 = (vmm_unmap_page p.pagemap (heap_page (j + n)) m).1 in
    let (m2, rest, h2, o2) = unmap_pages-HeapPages p limit n j m1 h1 in
    (m2, rw below (rw base rest), h2, λ w k. o2 w k ∙ o1 w k)
