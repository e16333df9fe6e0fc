-- ===== src/Mem/Pmm/Alloc.antt =====
-- `pmm_alloc` and `pmm_free`: which pages they hand out and give back.
use piggy_os.Common.{ℕ, ◌+◌, ◌-◌, ◌*◌, ◌^◌, ◌<◌, ◌≤◌, ◌≡◌, ◌⊎◌, inl, inr, none, some, List, arith}
use piggy_os.Mem.Pmm.{Pmm, page_size, alloc_first_fit_from_last, count_used, pmm_alloc, IsValid}
use piggy_os.Mem.Pmm.Scan.{FreeBehind, taken, Found, Missed, scan_lem}

alloc_lem :
    (pages limit : ℕ) (s : Pmm)
    → limit < 2 ^ 52
    → 0 < pages
    → ((page : ℕ) × Found s pages limit 0 page (alloc_first_fit_from_last pages limit s))
      ⊎ Missed s pages limit 0 (alloc_first_fit_from_last pages limit s)
unfolding alloc_first_fit_from_last
alloc_lem pages limit s small pos =
    scan_lem (limit - s.last_used_index) pages limit 0 s small (omega arith) (omega arith) pos
      (λ j lo hi. absurd (omega arith))

-- No run of `pages` free pages lies behind an index from `lo` up to `hi`.
abbrev pub NoRun : List ℕ → ℕ → ℕ → ℕ → Type 0
NoRun bitmap pages lo hi =
    (page : ℕ) → lo ≤ page → page + pages ≤ hi → FreeBehind bitmap page pages → ⊥

-- A run found by `pmm_alloc`: by the first pass, or by the second one if the first found none.
pub record Picks (s : Pmm) (pages page : ℕ) : Type 0 where
  pub within : page + pages ≤ s.highest_page_index
  pub free : FreeBehind s.bitmap page pages
  pub first_fit :
      (s.last_used_index ≤ page)
        × ((q : ℕ) → s.last_used_index ≤ q → q < page → FreeBehind s.bitmap q pages → ⊥)
      ⊎ NoRun s.bitmap pages s.last_used_index s.highest_page_index
        × ((q : ℕ) → q < page → FreeBehind s.bitmap q pages → ⊥)

pub alloc_cases :
    (pages : ℕ) (s : Pmm)
    → IsValid s
    → 0 < pages
    → ((page : ℕ) × (pmm_alloc pages s
          ≡ some (page * page_size, count_used pages (taken s page pages)))
        × Picks s pages page)
      ⊎ (pmm_alloc pages s ≡ none)
        × NoRun s.bitmap pages s.last_used_index s.highest_page_index
        × NoRun s.bitmap pages 0 s.last_used_index
unfolding pmm_alloc
alloc_cases pages s v pos =
    let back : Pmm = record s { last_used_index = 0 } in
    elim (alloc_lem pages s.highest_page_index s v.small pos) [
      | inl (page, f) ↦ inl (
        page,
        rw f.result,
        record {
          within = f.stop;
          free = f.free;
          first_fit = inl (omega (arith, f.start), λ q lo. f.first q (omega arith));
        },
      )
      | inr m ↦
          let missed = λ (page : ℕ) (lo : s.last_used_index ≤ page). m.full page (omega arith) in
          elim (alloc_lem pages s.last_used_index back (omega arith) pos) [
            | inl (page, f) ↦ inl (
              page,
              rw (m.result, f.result),
              record {
                within = omega (arith, f.stop);
                free = f.free;
                first_fit = inr (missed, λ q. f.first q (omega arith));
              },
            )
            | inr n ↦ inr (rw (m.result, n.result), missed, λ page lo. n.full page (omega arith))
          ]
    ]
