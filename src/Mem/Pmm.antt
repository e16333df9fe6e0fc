-- ===== src/Mem/Pmm.antt =====
-- kernel/src/mem/pmm.c: physical pages are handed out by a next-fit scan of a bitmap.
-- The file's static variables are the fields of `Pmm`; `pmm_lock` is held for the whole of each
-- operation, so an operation is one step. A page is 4096 bytes (kernel/include/mem/vmm.h).
pub mod Scan
pub mod Alloc
pub mod Pages
mod Tests
use piggy_os.Common.{
  ℕ, zero, suc, ◌+◌, ◌-◌, ◌*◌, ◌/◌, ◌^◌, ◌<◌, ◌≤◌, Option, none, some, List, length, ltb, ◌==◌,
  if◌then◌else◌, add64, sub64, mul64,
}
use piggy_os.Utils.Bitmap.{bitmap_test}
use piggy_os.Utils.Bitmap.Bits.{IsBytes}
use piggy_os.Utils.Bitmap.Range.{set_run, clear_run}

abbrev pub page_size : ℕ
page_size = 4096

pub record Pmm : Type 0 where
  pub bitmap : List ℕ
  pub used_pages : ℕ
  pub last_used_index : ℕ
  pub highest_page_index : ℕ

-- The loop of `alloc_first_fit_from_last`, with `p` free pages just seen. `none` is
-- (uintptr_t) -1, which no multiple of the page size is. The index stays at or below
-- `last_limit` and `p` below the index, so neither increment wraps.
unfoldable pub scan : ℕ → ℕ → ℕ → ℕ → Pmm → Option ℕ × Pmm
scan zero pages last_limit p s = (none, s)
scan (suc fuel) pages last_limit p s =
    let index = s.last_used_index + 1 in
    let moved = record s { last_used_index = index } in
    let used = bitmap_test s.bitmap index in
    let page = sub64 index pages in
    let rest = scan fuel pages last_limit (if used then 0 else p + 1) moved in
    if ltb s.last_used_index last_limit
    then (if used
        then rest
        else if p + 1 == pages
        then (
          some (mul64 page page_size),
          record moved { bitmap = set_run s.bitmap page (index - page) },
        )
        else rest)
    else (none, s)

-- `alloc_first_fit_from_last`: each round moves the index, so the distance to the limit is fuel
-- enough.
unfoldable pub alloc_first_fit_from_last : ℕ → ℕ → Pmm → Option ℕ × Pmm
alloc_first_fit_from_last pages last_limit s =
    scan (last_limit - s.last_used_index) pages last_limit 0 s

-- `used_pages += pages`
unfoldable pub count_used : ℕ → Pmm → Pmm
count_used pages s = record s { used_pages = add64 s.used_pages pages }

-- The second pass of `pmm_alloc`, from index 0 up to the index where the first one began.
unfoldable pub retry : ℕ → ℕ → Option ℕ × Pmm → Option ℕ × Pmm
retry pages last (some addr, s) = (some addr, s)
retry pages last (none, s) = alloc_first_fit_from_last pages last (record s { last_used_index = 0 })

unfoldable pub finish : ℕ → Option ℕ × Pmm → Option (ℕ × Pmm)
finish pages (some addr, s) = some (addr, count_used pages s)
finish pages (none, s) = none

-- `pmm_alloc`; `none` is the call of `kpanic`.
unfoldable pub pmm_alloc : ℕ → Pmm → Option (ℕ × Pmm)
unfolding retry finish
pmm_alloc pages s =
    let last = s.last_used_index in
    finish pages (retry pages last (alloc_first_fit_from_last pages s.highest_page_index s))

-- `pmm_free`
unfoldable pub pmm_free : ℕ → ℕ → Pmm → Pmm
pmm_free addr pages s = record s {
  bitmap = clear_run s.bitmap (addr / page_size) pages;
  used_pages = sub64 s.used_pages pages;
}

-- The bitmap covers every index up to the highest, and page addresses fit in 64 bits.
pub record IsValid (s : Pmm) : Type 0 where
  pub bytes : IsBytes s.bitmap
  pub covered : s.highest_page_index < length s.bitmap * 8
  pub last_in : s.last_used_index ≤ s.highest_page_index
  pub small : s.highest_page_index < 2 ^ 52
