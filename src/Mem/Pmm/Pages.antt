-- ===== src/Mem/Pmm/Pages.antt =====
-- The pages that `pmm_alloc` hands out and `pmm_free` takes back.
use native.Mathlib.Decide.{dec_lt}
use piggy_os.Common.{
  ℕ, ◌+◌, ◌*◌, ◌/◌, ◌^◌, ◌<◌, ◌≤◌, ◌≡◌, ◌⊎◌, inl, inr, refl, ap, ◌∙◌, true, false, not, ◌&&◌, ◌||◌,
  none, some, List, ltb, ◌==◌, if◌then◌else◌, add64, sub64, arith,
}
use piggy_os.Utils.Bitmap.{bitmap_test}
use piggy_os.Utils.Bitmap.Range.{
  in_run, length-set_run, length-clear_run, set_run-IsBytes, clear_run-IsBytes, bitmap_test-set_run,
  bitmap_test-clear_run,
}
use piggy_os.Mem.Pmm.{Pmm, page_size, count_used, pmm_alloc, pmm_free, IsValid}
use piggy_os.Mem.Pmm.Scan.{FreeBehind, taken}
use piggy_os.Mem.Pmm.Alloc.{NoRun, Picks, alloc_cases}

-- The state after an allocation of `pages` pages from `page` on.
pub record Allocates (s : Pmm) (pages page : ℕ) (t : Pmm) : Type 0 where
  pub valid : IsValid t
  pub marked : (j : ℕ) → bitmap_test t.bitmap j ≡ (in_run page pages j || bitmap_test s.bitmap j)
  pub counted : t.used_pages ≡ add64 s.used_pages pages
  pub last : t.last_used_index ≡ page + pages
  pub highest : t.highest_page_index ≡ s.highest_page_index

module _ (s : Pmm) (pages page : ℕ) (v : IsValid s)
    (within : page + pages ≤ s.highest_page_index) where
  taken-Allocates : Allocates s pages page (count_used pages (taken s page pages))
  unfolding count_used
  taken-Allocates = record {
    valid = record {
      bytes = set_run-IsBytes s.bitmap page pages v.bytes;
      covered = omega (arith, length-set_run s.bitmap page pages, v.covered);
      last_in = within;
      small = v.small;
    };
    marked = λ j. bitmap_test-set_run s.bitmap page pages j v.bytes (omega (arith, v.covered));
    counted = refl;
    last = refl;
    highest = refl;
  }

-- A request for at least one page either returns the address of a run picked by next fit, with
-- the run's bits set and all others kept, or panics, and then no run behind the last index or
-- below it has its tested pages free.
pub pmm_alloc_lem :
    (pages : ℕ) (s : Pmm)
    → IsValid s
    → 0 < pages
    → ((page : ℕ) × (t : Pmm) × (pmm_alloc pages s ≡ some (page * page_size, t))
        × Picks s pages page
        × Allocates s pages page t)
      ⊎ (pmm_alloc pages s ≡ none)
        × NoRun s.bitmap pages s.last_used_index s.highest_page_index
        × NoRun s.bitmap pages 0 s.last_used_index
pmm_alloc_lem pages s v pos = elim (alloc_cases pages s v pos) [
  | inl (page, e, p) ↦ inl (page, _, e, p, taken-Allocates s pages page v p.within)
  | inr n ↦ inr n
]

-- `pmm_alloc` does not test the first page that it returns: where the last index is a page in
-- use and the next `pages` pages are free, the page in use is handed out again.
pub pmm_alloc-in_use :
    (pages : ℕ) (s : Pmm)
    → IsValid s
    → 0 < pages
    → s.last_used_index + pages ≤ s.highest_page_index
    → FreeBehind s.bitmap s.last_used_index pages
    → bitmap_test s.bitmap s.last_used_index ≡ true
    → (t : Pmm) × (pmm_alloc pages s ≡ some (s.last_used_index * page_size, t))
      × (bitmap_test s.bitmap s.last_used_index ≡ true)
pmm_alloc-in_use pages s v pos within free used = elim (alloc_cases pages s v pos) [
  | inr (_, n, _) ↦ absurd (n s.last_used_index (omega arith) within free)
  | inl (page, e, p) ↦ elim p.first_fit [
    | inr (n, _) ↦ absurd (n s.last_used_index (omega arith) within free)
    | inl (lo, first) ↦ elim (dec_lt s.last_used_index page) [
      | yes after ↦ absurd (first s.last_used_index (omega arith) after free)
      | no here ↦
          let at : page ≡ s.last_used_index = omega arith in
          (_, e ∙ ap (λ n. some (n * page_size, count_used pages (taken s n pages))) at, used)
    ]
  ]
]

-- Freeing clears the bits of the run and no other, and takes its pages off the count.
pub pmm_free_lem :
    (s : Pmm) (page pages : ℕ)
    → IsValid s
    → page + pages ≤ s.highest_page_index
    → (let t = pmm_free (page * page_size) pages s in
        IsValid t
        × ((j : ℕ) → bitmap_test t.bitmap j ≡ (not (in_run page pages j) && bitmap_test s.bitmap j))
        × (t.used_pages ≡ sub64 s.used_pages pages))
unfolding pmm_free
pmm_free_lem s page pages v within =
    let at : page * page_size / page_size ≡ page = omega arith in
    rw at (
      record {
        bytes = clear_run-IsBytes s.bitmap page pages v.bytes;
        covered = omega (arith, length-clear_run s.bitmap page pages, v.covered);
        last_in = v.last_in;
        small = v.small;
      },
      λ j. bitmap_test-clear_run s.bitmap page pages j v.bytes (omega (arith, v.covered)),
      refl,
    )

-- A page of the run other than the first was free, so clearing the run again restores its bits.
restored :
    (bitmap : List ℕ) (page pages j : ℕ)
    → FreeBehind bitmap page pages
    → (not (in_run page pages j) && (in_run page pages j || bitmap_test bitmap j))
      ≡ (if j == page && ltb 0 pages then false else bitmap_test bitmap j)
unfolding in_run
restored bitmap page pages j free = elim (dec_lt page j) [
  | yes lo ↦ elim (dec_lt j (page + pages + 1)) [
    | yes hi ↦ ground (arith, free j lo (omega arith))
    | no hi ↦ ground arith
  ]
  | no lo ↦ ground arith
]

free_taken :
    (pages page : ℕ) (s t : Pmm)
    → 0 < pages
    → s.highest_page_index < 2 ^ 52
    → s.used_pages < 2 ^ 64
    → Picks s pages page
    → Allocates s pages page t
    → (let u = pmm_free (page * page_size) pages t in
        (u.used_pages ≡ s.used_pages)
        × ((j : ℕ)
            → bitmap_test u.bitmap j ≡ (if j == page then false else bitmap_test s.bitmap j)))
free_taken pages page s t pos small fits p a =
    let f = pmm_free_lem t page pages a.valid (omega (arith, p.within, a.highest)) in
    (
      omega (arith, f.2, a.counted, p.within),
      λ j. rw (f.1, a.marked, restored s.bitmap page pages j p.free) (ground arith),
    )

-- Freeing what was just allocated gives back every bit and the count, but leaves the first page
-- of the run free, whatever it was.
pub pmm_free-alloc :
    (pages : ℕ) {s t : Pmm} {addr : ℕ}
    → IsValid s
    → 0 < pages
    → s.used_pages < 2 ^ 64
    → pmm_alloc pages s ≡ some (addr, t)
    → let u = pmm_free addr pages t in
      (u.used_pages ≡ s.used_pages)
      × ((j : ℕ)
          → bitmap_test u.bitmap j
            ≡ (if j == addr / page_size then false else bitmap_test s.bitmap j))
pmm_free-alloc pages {s} {t} {addr} v pos fits e = elim (pmm_alloc_lem pages s v pos) [
  | inr (n, _, _) ↦ cc
  | inl (page, t', e', p, a) ↦
      let same : t' ≡ t = ground arith in
      let at : addr ≡ page * page_size = ground arith in
      let back : page * page_size / page_size ≡ page = omega arith in
      rw (← same, at, back) (free_taken pages page s t' pos v.small fits p a)
]
