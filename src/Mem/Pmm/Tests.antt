-- ===== src/Mem/Pmm/Tests.antt =====
-- Runs of the page allocator, and the theorems at concrete states.
use piggy_os.Common.{
  ℕ, zero, suc, ◌*◌, ◌≡◌, ◌⊎◌, refl, true, false, not, ◌&&◌, none, some, [], ◌∷◌, ◌==◌,
  if◌then◌else◌, arith, sub64, ◌/◌,
}
use piggy_os.Utils.Bitmap.{bitmap_test, bitmap_set}
use piggy_os.Utils.Bitmap.Range.{in_run, set_run}
use piggy_os.Mem.Pmm.{
  Pmm, page_size, alloc_first_fit_from_last, scan, count_used, pmm_alloc, pmm_free, IsValid,
}
use piggy_os.Mem.Pmm.Scan.{FreeBehind}
use piggy_os.Mem.Pmm.Alloc.{NoRun, Picks}
use piggy_os.Mem.Pmm.Pages.{
  Allocates, pmm_alloc_lem, pmm_alloc-in_use, pmm_free_lem, pmm_free-alloc,
}

-- The pages 0 and 8 to 15 are in use.
abbrev small : Pmm
small = record {
  bitmap = 0b0000_0001 ∷ 0b1111_1111 ∷ [];
  used_pages = 9;
  last_used_index = 0;
  highest_page_index = 15;
}

-- The same, with the pages 0 and 1 taken again.
abbrev small_after : Pmm
small_after = record {
  bitmap = 0b0000_0011 ∷ 0b1111_1111 ∷ [];
  used_pages = 11;
  last_used_index = 2;
  highest_page_index = 15;
}

small-IsValid : IsValid small
small-IsValid = omega arith

small_after-IsValid : IsValid small_after
small_after-IsValid = omega arith

alloc_small : pmm_alloc 2 small ≡ some (0, small_after)
unfolding pmm_alloc alloc_first_fit_from_last scan bitmap_test count_used set_run bitmap_set
alloc_small = refl

pmm_alloc_lem_example :
    ((page : ℕ) × (t : Pmm) × (pmm_alloc 2 small ≡ some (page * page_size, t))
      × Picks small 2 page
      × Allocates small 2 page t)
    ⊎ (pmm_alloc 2 small ≡ none) × NoRun small.bitmap 2 0 15 × NoRun small.bitmap 2 0 0
pmm_alloc_lem_example = pmm_alloc_lem 2 small small-IsValid (omega arith)

-- The pages 1 and 2 are free, the page 0 is in use.
small_free : FreeBehind small.bitmap 0 2
unfolding bitmap_test
small_free zero lo hi = absurd (omega arith)
small_free (suc zero) lo hi = refl
small_free (suc (suc zero)) lo hi = refl
small_free (suc (suc (suc j))) lo hi = absurd (omega arith)

small_used : bitmap_test small.bitmap 0 ≡ true
unfolding bitmap_test
small_used = refl

pmm_alloc-in_use_example :
    (t : Pmm) × (pmm_alloc 2 small ≡ some (0 * page_size, t)) × (bitmap_test small.bitmap 0 ≡ true)
pmm_alloc-in_use_example =
    pmm_alloc-in_use 2 small small-IsValid (omega arith) (omega arith) small_free small_used

pmm_free_lem_example :
    let t = pmm_free (1 * page_size) 3 small_after in
    IsValid t
    × ((j : ℕ) → bitmap_test t.bitmap j ≡ (not (in_run 1 3 j) && bitmap_test small_after.bitmap j))
    × (t.used_pages ≡ sub64 11 3)
pmm_free_lem_example = pmm_free_lem small_after 1 3 small_after-IsValid (omega arith)

pmm_free-alloc_example :
    let u = pmm_free 0 2 small_after in
    (u.used_pages ≡ 9)
    × ((j : ℕ)
        → bitmap_test u.bitmap j
          ≡ (if j == 0 / page_size then false else bitmap_test small.bitmap j))
pmm_free-alloc_example = pmm_free-alloc 2 small-IsValid (omega arith) (omega arith) alloc_small
