-- ===== src/Sys/Process/Heap.antt =====
-- The pages of the heap in a page map.
use mathlib.Core.Option.{some-injective}
use native.Mathlib.Decide.{ℕ_discrete}
use piggy_os.Common.{
  ℕ, ◌+◌, ◌*◌, ◌<◌, ◌≤◌, ◌≡◌, ◌≢◌, inl, inr, refl, sym, ap, ◌∙◌, true, false, none, some, length,
  arith, Bool-cases,
}
use piggy_os.Mem.Pmm.{page_size}
use piggy_os.Mem.Vmm.{
  Entry, Memory, Pagemap, pml2_index, pml1_index, leaf_of, vmm_map_page, vmm_unmap_page,
  vmm_get_page_mapping,
}
use piggy_os.Mem.Vmm.Tree.{get_leaf-large}
use piggy_os.Mem.Vmm.Map.{IsValid, NotLarge, page_number, vmm_map_page_lem}
use piggy_os.Mem.Vmm.Change.{vmm_unmap_page_lem}
use piggy_os.Sys.Process.{process_brk_base, process_thread_stack_top, heap_flags}

-- The address of the page `k` of the heap.
abbrev pub heap_page : ℕ → ℕ
heap_page k = process_brk_base + k * page_size

-- The first `pages` pages of the heap are mapped, and none above them up to `limit`.
pub record HeapPages (pagemap : Pagemap) (limit pages : ℕ) (m : Memory) : Type 0 where
  pub valid : IsValid pagemap m
  pub under : limit ≤ process_thread_stack_top
  pub mapped :
      (k : ℕ)
      → k < pages
      → (a : ℕ) × (vmm_get_page_mapping pagemap (heap_page k) m
          ≡ some (record { addr = a; flags = heap_flags }))
  pub unmapped :
      (k : ℕ)
      → pages ≤ k
      → heap_page k < limit
      → vmm_get_page_mapping pagemap (heap_page k) m ≡ none
  pub inside : heap_page pages ≤ limit

-- Every page that is no page of the heap is mapped as before.
abbrev pub OthersKept : Pagemap → ℕ → Memory → Memory → Type 0
OthersKept pagemap limit m m' =
    (w : ℕ)
    → ((k : ℕ) → heap_page k < limit → page_number pagemap w ≢ page_number pagemap (heap_page k))
    → vmm_get_page_mapping pagemap w m' ≡ vmm_get_page_mapping pagemap w m

-- A page that is not mapped, or mapped with its ordinary size, lies in no large page.
pub get_page_mapping-NotLarge :
    (pagemap : Pagemap) (v : ℕ) (m : Memory)
    → ((e : Entry) → vmm_get_page_mapping pagemap v m ≡ some e → e.flags.size ≡ false)
    → NotLarge pagemap v m
unfolding vmm_get_page_mapping
get_page_mapping-NotLarge pagemap v m h t d =
    elim (Bool-cases (m.entry t (pml2_index v)).flags.size) [
      | inr s ↦ s
      | inl s ↦ h _ (
          ap (leaf_of m (pml2_index v) (pml1_index v)) d
          ∙ get_leaf-large m (pml2_index v) (pml1_index v) t s)
    ]

heap_page_apart :
    (pagemap : Pagemap) (k j : ℕ)
    → heap_page k < process_thread_stack_top
    → heap_page j < process_thread_stack_top
    → k ≢ j
    → page_number pagemap (heap_page k) ≢ page_number pagemap (heap_page j)
heap_page_apart pagemap k j lk lj n = elim (Bool-cases pagemap.has_level5) [
  | inl b ↦ rw b (λ e. n (omega arith))
  | inr b ↦ rw b (λ e. n (omega arith))
]

module _ (pagemap : Pagemap) (limit j : ℕ) (m : Memory) where
  -- Mapping the first page that is not mapped.
  pub map_page-HeapPages :
      (paddr : ℕ)
      → HeapPages pagemap limit j m
      → heap_page (j + 1) ≤ limit
      → 4 ≤ length m.pages
      → (m' : Memory) × (vmm_map_page pagemap (heap_page j) paddr heap_flags m ≡ some (true, m'))
        × HeapPages pagemap limit (j + 1) m'
        × OthersKept pagemap limit m m'
        × (length m.pages ≤ length m'.pages + 4)
  map_page-HeapPages paddr h room enough =
      let under = h.under in
      let fresh : vmm_get_page_mapping pagemap (heap_page j) m ≡ none =
        h.unmapped j (omega arith) (omega arith) in
      let (m', made, v', small, here, others, used) =
        vmm_map_page_lem pagemap (heap_page j) paddr heap_flags m h.valid refl refl
          (get_page_mapping-NotLarge pagemap (heap_page j) m (λ e q. absurd (cc (fresh, q))))
          enough in
      let at_heap : (k : ℕ)
          → heap_page k < limit
          → k ≢ j
          → vmm_get_page_mapping pagemap (heap_page k) m'
            ≡ vmm_get_page_mapping pagemap (heap_page k) m =
        λ k l n. others (heap_page k) (heap_page_apart pagemap k j (omega arith) (omega arith) n) in
      (
        m',
        made,
        record {
          valid = v';
          under = under;
          mapped = λ k l. elim (ℕ_discrete k j) [
            | yes y ↦ (paddr, rw y here)
            | no n ↦ let (a, q) = h.mapped k (omega arith) in (a, at_heap k (omega arith) n ∙ q)
          ];
          unmapped =
              λ k l i. at_heap k i (λ y. absurd (omega arith)) ∙ h.unmapped k (omega arith) i;
          inside = room;
        },
        λ w n. others w (n j (omega arith)),
        used,
      )

  -- Unmapping the last page that is mapped.
  pub unmap_page-HeapPages :
      HeapPages pagemap limit (j + 1) m
      → let m' = (vmm_unmap_page pagemap (heap_page j) m).1 in
        HeapPages pagemap limit j m' × OthersKept pagemap limit m m'
  unmap_page-HeapPages h =
      let under = h.under in
      let inside = h.inside in
      let (a, old) = h.mapped j (omega arith) in
      elim (vmm_unmap_page_lem pagemap (heap_page j) m h.valid (
        get_page_mapping-NotLarge pagemap (heap_page j) m
          (λ e q. ap (λ (z : Entry). z.flags.size) (some-injective e _ (sym q ∙ old))))) [
            | inl (e, q) ↦ absurd (cc (q, old))
            | inr (m', e, c) ↦
                let at_heap : (k : ℕ)
                    → heap_page k < limit
                    → k ≢ j
                    → vmm_get_page_mapping pagemap (heap_page k) m'
                      ≡ vmm_get_page_mapping pagemap (heap_page k) m =
                  λ k l n.
                    c.others (heap_page k)
                      (heap_page_apart pagemap k j (omega arith) (omega arith) n) in
                rw e (
                  record {
                    valid = c.valid;
                    under = under;
                    mapped = λ k l.
                        let (b, q) = h.mapped k (omega arith) in
                        (b, at_heap k (omega arith) (λ y. absurd (omega arith)) ∙ q);
                    unmapped = λ k l i. elim (ℕ_discrete k j) [
                      | yes y ↦ rw y c.here
                      | no n ↦ at_heap k i n ∙ h.unmapped k (omega arith) i
                    ];
                    inside = omega arith;
                  },
                  λ w n. c.others w (n j (omega arith)),
                )
          ]
