-- ===== src/Mem/Pmm/Scan.antt =====
-- What one scan of the bitmap finds.
use native.Mathlib.Decide.{dec_lt, ℕ_discrete}
use piggy_os.Common.{
  ℕ, zero, suc, ◌+◌, ◌-◌, ◌*◌, ◌^◌, ◌<◌, ◌≤◌, ◌≡◌, ◌≢◌, refl, ap, ◌∙◌, max, true, false, Option,
  none, some, List, Bool-cases, ==_iff, ne→==, lt→ltb, le→ltb, mul64, inl, inr, sub64, arith, ◌⊎◌,
}
use piggy_os.Utils.Bitmap.{bitmap_test}
use piggy_os.Utils.Bitmap.Range.{set_run}
use piggy_os.Mem.Pmm.{Pmm, page_size, scan}

-- The `n` pages behind `first` are free: these are the pages that the scan tests.
abbrev pub FreeBehind : List ℕ → ℕ → ℕ → Type 0
FreeBehind bitmap first n = (j : ℕ) → first < j → j ≤ first + n → bitmap_test bitmap j ≡ false

-- The state after a scan that stopped at `last` and took `pages` pages from `page` on.
abbrev pub taken : Pmm → ℕ → ℕ → Pmm
taken s page pages = record s {
  last_used_index = page + pages;
  bitmap = set_run s.bitmap page pages;
}

-- A successful scan, from `s` with `p` free pages just seen.
pub record Found (s : Pmm) (pages limit p page : ℕ) (r : Option ℕ × Pmm) : Type 0 where
  pub result : r ≡ (some (page * page_size), taken s page pages)
  pub start : s.last_used_index ≤ page + p
  pub stop : page + pages ≤ limit
  pub free : FreeBehind s.bitmap page pages
  pub first : (q : ℕ) → s.last_used_index ≤ q + p → q < page → FreeBehind s.bitmap q pages → ⊥

-- A failed scan.
pub record Missed (s : Pmm) (pages limit p : ℕ) (r : Option ℕ × Pmm) : Type 0 where
  pub result : r ≡ (none, record s { last_used_index = max s.last_used_index limit })
  pub full :
      (page : ℕ)
      → s.last_used_index ≤ page + p
      → page + pages ≤ limit
      → FreeBehind s.bitmap page pages
      → ⊥

-- The state after one round of the loop.
abbrev moved : Pmm → Pmm
moved s = record s { last_used_index = s.last_used_index + 1 }

abbrev missed : Pmm → ℕ → Option ℕ × Pmm
missed s n = (none, record s { last_used_index = n })

-- One round of the loop, on each branch.
module _ (fuel pages limit p : ℕ) (s : Pmm) where
  scan_stop : limit ≤ s.last_used_index → scan fuel pages limit p s ≡ (none, s)
  unfolding scan
  scan_stop h = elim fuel as (λ f. scan f pages limit p s ≡ (none, s)) [
    | zero ↦ refl
    | suc f ↦ rw (le→ltb _ _ h)
  ]

  module _ (go : s.last_used_index < limit) where
    scan_used :
        bitmap_test s.bitmap (s.last_used_index + 1) ≡ true
        → scan (suc fuel) pages limit p s ≡ scan fuel pages limit 0 (moved s)
    unfolding scan
    scan_used used = rw (lt→ltb _ _ go, used)

    scan_again :
        bitmap_test s.bitmap (s.last_used_index + 1) ≡ false
        → p + 1 ≢ pages
        → scan (suc fuel) pages limit p s ≡ scan fuel pages limit (p + 1) (moved s)
    unfolding scan
    scan_again unused more = rw (lt→ltb _ _ go, unused, ne→== _ _ more)

    scan_done :
        limit < 2 ^ 52
        → bitmap_test s.bitmap (s.last_used_index + 1) ≡ false
        → p + 1 ≡ pages
        → p ≤ s.last_used_index
        → scan (suc fuel) pages limit p s
          ≡ (some ((s.last_used_index - p) * page_size), taken s (s.last_used_index - p) pages)
    unfolding scan
    scan_done small unused done seen =
        let page : sub64 (s.last_used_index + 1) pages ≡ s.last_used_index - p = omega arith in
        let last : s.last_used_index + 1 - (s.last_used_index - p) ≡ pages = omega arith in
        let index : s.last_used_index + 1 ≡ s.last_used_index - p + pages = omega arith in
        let fits : mul64 (s.last_used_index - p) page_size ≡ (s.last_used_index - p) * page_size =
          omega arith in
        rw (lt→ltb _ _ go, unused, (==_iff _ _).1 done, page, last, fits) (rw index)

-- Both outcomes of a round's rest carry over to the round, after a used page or a free one.
module _ (s : Pmm) (pages limit p : ℕ) (r : Option ℕ × Pmm) where
  Found-used :
      (page : ℕ)
      → p < pages
      → bitmap_test s.bitmap (s.last_used_index + 1) ≡ true
      → Found (moved s) pages limit 0 page r
      → Found s pages limit p page r
  Found-used page more used f = record {
    result = f.result;
    start = omega (arith, f.start);
    stop = f.stop;
    free = f.free;
    first = λ q start before free. elim (dec_lt q (s.last_used_index + 1)) [
      | yes here ↦ cc (used, free (s.last_used_index + 1) here (omega arith))
      | no after ↦ f.first q (omega arith) before free
    ];
  }

  Found-again :
      (page : ℕ) → Found (moved s) pages limit (p + 1) page r → Found s pages limit p page r
  Found-again page f = record {
    result = f.result;
    start = omega (arith, f.start);
    stop = f.stop;
    free = f.free;
    first = λ q start before free. f.first q (omega arith) before free;
  }

  module _ (go : s.last_used_index < limit) (more : p < pages) where
    Missed-used :
        bitmap_test s.bitmap (s.last_used_index + 1) ≡ true
        → Missed (moved s) pages limit 0 r
        → Missed s pages limit p r
    Missed-used used m = record {
      result = m.result ∙ ap (missed s) (omega arith);
      full = λ page start stop free. elim (dec_lt page (s.last_used_index + 1)) [
        | yes before ↦ cc (used, free (s.last_used_index + 1) before (omega arith))
        | no after ↦ m.full page (omega arith) stop free
      ];
    }

    Missed-again : Missed (moved s) pages limit (p + 1) r → Missed s pages limit p r
    Missed-again m = record {
      result = m.result ∙ ap (missed s) (omega arith);
      full = λ page start stop free. m.full page (omega arith) stop free;
    }

-- The run of free pages just seen, one longer.
FreeBehind-next :
    (bitmap : List ℕ) (last p : ℕ)
    → p ≤ last
    → FreeBehind bitmap (last - p) p
    → bitmap_test bitmap (last + 1) ≡ false
    → FreeBehind bitmap (last - p) (p + 1)
FreeBehind-next bitmap last p seen free unused j lo hi = elim (dec_lt last j) [
  | yes beyond ↦ let e : j ≡ last + 1 = omega arith in rw e unused
  | no within ↦ free j lo (omega arith)
]

Missed-stop :
    (s : Pmm) (pages limit p : ℕ)
    → limit ≤ s.last_used_index
    → p < pages
    → Missed s pages limit p (none, s)
Missed-stop s pages limit p stop more = record {
  result = ap (missed s) (omega arith);
  full = λ page start end free. omega arith;
}

-- The scan stops with the first run of `pages` free pages behind its index, or there is none.
pub scan_lem :
    (fuel pages limit p : ℕ) (s : Pmm)
    → limit < 2 ^ 52
    → limit ≤ s.last_used_index + fuel
    → p ≤ s.last_used_index
    → p < pages
    → FreeBehind s.bitmap (s.last_used_index - p) p
    → ((page : ℕ) × Found s pages limit p page (scan fuel pages limit p s))
      ⊎ Missed s pages limit p (scan fuel pages limit p s)
scan_lem zero pages limit p s small enough seen more free =
    rw (scan_stop zero pages limit p s (omega arith))
      (inr (Missed-stop s pages limit p (omega arith) more))
scan_lem (suc fuel) pages limit p s small enough seen more free =
    elim (dec_lt s.last_used_index limit) [
      | no stop ↦
          rw (scan_stop (suc fuel) pages limit p s (omega arith))
            (inr (Missed-stop s pages limit p (omega arith) more))
      | yes go ↦ elim (Bool-cases (bitmap_test s.bitmap (s.last_used_index + 1))) [
        | inl used ↦
            rw (scan_used fuel pages limit p s go used)
              (elim (scan_lem fuel pages limit 0 (moved s) small (omega arith) (omega arith)
                (omega arith) (λ j lo hi. absurd (omega arith))) [
                  | inl (page, f) ↦ inl (page, Found-used s pages limit p _ page more used f)
                  | inr m ↦ inr (Missed-used s pages limit p _ go more used m)
                ])
        | inr unused ↦
            let longer = FreeBehind-next s.bitmap s.last_used_index p seen free unused in
            elim (ℕ_discrete (p + 1) pages) [
              | yes done ↦ rw (scan_done fuel pages limit p s go small unused done seen) (
                  inl (
                    s.last_used_index - p,
                    record {
                      result = refl;
                      start = omega arith;
                      stop = omega arith;
                      free = rw (← done) longer;
                      first = λ q start before free. omega arith;
                    },
                  ))
              | no again ↦
                  rw (scan_again fuel pages limit p s go unused again)
                    (elim (scan_lem fuel pages limit (p + 1) (moved s) small (omega arith)
                      (omega arith) (omega arith)
                      (let e : s.last_used_index + 1 - (p + 1) ≡ s.last_used_index - p =
                          omega arith in
                        rw e longer)) [
                          | inl (page, f) ↦ inl (page, Found-again s pages limit p _ page f)
                          | inr m ↦ inr (Missed-again s pages limit p _ go more m)
                        ])
            ]
      ]
    ]
