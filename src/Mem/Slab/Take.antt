-- ===== src/Mem/Slab/Take.antt =====
-- `cache_alloc_object` in a cache with a slab that has an object, and in one that needs a slab.
use native.Mathlib.Decide.{ℕ_discrete}
use mathlib.Core.Path.{subst}
use piggy_os.Common.{
  ◌*◌, ℕ, zero, suc, ◌+◌, ◌-◌, ◌/◌, ◌%◌, ◌^◌, bit_and, every, every-at, ◌<◌, ◌≡◌, refl, sym, ap,
  ◌∙◌, true, false, not, some, List, [], ◌∷◌, replicate, get_or, ◌==◌, arith, All, All-replicate,
}
use piggy_os.Utils.Bitmap.{bitmap_test}
use piggy_os.Utils.Bitmap.Bits.{IsByte}
use piggy_os.Mem.Slab.{
  memset, page_size, Slab, Cache, Bytes, new_slab, cache_alloc_slab, slab_alloc_object, settle,
  settled, alloc_from, alloc_in, cache_alloc_object,
}
use piggy_os.Mem.Slab.Object.{clear_count, memset-outside}
use piggy_os.Mem.Slab.Owner.{uses, Good, slab_alloc_object-Takes, used_in, Apart}
use piggy_os.Mem.Slab.Alloc.{
  IsValid, in_use, cache, settle-full, settle-stays, settle-begins, Gives, Gives-stays, Gives-full,
}

-- An allocation that gives an object and keeps the cache as it should be
abbrev pub Succeeds : ℕ → ℕ → Bytes → Cache → Type 0
Succeeds high_vma page mem c =
    (p : ℕ) × (c' : Cache) × (mem' : Bytes) × (cache_alloc_object high_vma page mem c
      ≡ some (some p, c', mem'))
    × Gives high_vma page mem c p c' mem'

alloc_from-step :
    (mem mem' : Bytes) (c : Cache) (put : Slab → Cache) (s s' : Slab) (p : ℕ)
    → slab_alloc_object c.object_size mem s ≡ some (p, s', mem')
    → alloc_from mem c put s ≡ settled p mem' (settle (put s') s')
unfolding alloc_from
alloc_from-step mem mem' c put s s' p e = rw (e, alloc_from) refl

take_partial :
    (high_vma page size pages : ℕ) (mem : Bytes) (s : Slab) (partial full : List Slab)
    → IsValid (cache size pages (s ∷ partial) full)
    → Succeeds high_vma page mem (cache size pages (s ∷ partial) full)
unfolding cache_alloc_object alloc_in
take_partial high_vma page size pages mem s partial full v =
    let ((good, some_left), ok) = v.partial in
    let (a1, spread) = v.partial_apart in
    let (a2, between) = v.between in
    let (p, s', mem', e, t) = slab_alloc_object-Takes size mem s good v.some_size some_left in
    let c = cache size pages (s ∷ partial) full in
    let step =
      alloc_from-step mem mem' c (λ x. record c { partial_slabs = x ∷ partial }) s s' p e in
    elim (ℕ_discrete s'.available_objects 0) [
      | yes z ↦ (
        p,
        cache size pages partial (s' ∷ full),
        mem',
        step ∙ ap (settled p mem') (settle-full size pages partial full s' z),
        Gives-full high_vma page size pages mem mem' partial full s s' p t good v.some_size ok
            v.full a1 a2 spread v.full_apart between,
      )
      | no n ↦ (
        p,
        cache size pages (s' ∷ partial) full,
        mem',
        step ∙ ap (settled p mem') (settle-stays size pages partial full s' n),
        Gives-stays high_vma page size pages mem mem' partial full s s' p t good v.some_size ok
            v.full a1 a2 spread v.full_apart between (omega arith),
      )
    ]

no_bit : (k : ℕ) → k < 8 → (bit_and 0 (2 ^ k) == 0) ≡ true
unfolding every
no_bit k l = every-at 8 (λ j. bit_and 0 (2 ^ j) == 0) k l refl

clear_replicate : (i k : ℕ) → bitmap_test (replicate k 0) i ≡ false
unfolding bitmap_test
clear_replicate i k = rw (at (i / 8) k) (ap not (no_bit (i % 8) (omega arith)))
  where
    at : (j k : ℕ) → ◌≡◌ {A = ℕ} (get_or (replicate k 0) j 0) 0
    at j zero = refl
    at zero (suc k) = refl
    at (suc j) (suc k) = at j k

clear_count-replicate : (n i k : ℕ) → clear_count n i (replicate k 0) ≡ n
unfolding clear_count
clear_count-replicate zero i k = refl
clear_count-replicate (suc n) i k =
    rw (clear_replicate i k, clear_count-replicate n (i + 1) k) (omega arith)

new_slab-Good : (high_vma page : ℕ) → Good (new_slab high_vma page)
unfolding new_slab
new_slab-Good high_vma page = record {
  total = refl;
  wide = omega arith;
  bytes = All-replicate IsByte 512 0 (omega arith);
  counted = sym (clear_count-replicate 512 0 512);
}

new_slab-unused : (high_vma page size a : ℕ) → uses size (new_slab high_vma page) a ≡ false
unfolding uses new_slab
new_slab-unused high_vma page size a =
    let clear = clear_replicate ((a - (new_slab high_vma page).buffer) / size) 512 in ground arith

-- A cache without a slab that has an object takes one from a new slab.
take_new :
    (high_vma page size pages : ℕ) (mem : Bytes) (full : List Slab)
    → IsValid (cache size pages [] full)
    → All (Apart size (new_slab high_vma page)) full
    → Succeeds high_vma page mem (cache size pages [] full)
unfolding cache_alloc_object alloc_in cache_alloc_slab new_slab
take_new high_vma page size pages mem full v apart =
    let s = new_slab high_vma page in
    let good = new_slab-Good high_vma page in
    let left : s.available_objects ≡ 512 = refl in
    let mem1 = memset mem (page + high_vma) 0 (pages * page_size) in
    let (p, s', mem', e, t) = slab_alloc_object-Takes size mem1 s good v.some_size (omega arith) in
    let left' : s'.available_objects ≡ 511 = omega (arith, t.one_less) in
    let c : Cache = record (cache size pages [] full) { empty_slabs = s ∷ [] } in
    let step = alloc_from-step mem1 mem' c (λ x. record c { empty_slabs = x ∷ [] }) s s' p e in
    let g =
      Gives-stays high_vma page size pages mem1 mem' [] full s s' p t good v.some_size tt v.full tt
        apart tt v.full_apart tt (omega arith) in
    (
      p,
      cache size pages (s' ∷ []) full,
      mem',
      step ∙ ap (settled p mem') (settle-begins size pages [] full s' left' t.good.total),
      record {
        valid = g.valid;
        size = g.size;
        was_free = λ a within. sym (without a) ∙ g.was_free a within;
        now_used = g.now_used;
        others = λ a out. g.others a out ∙ without a;
        zeroed = g.zeroed;
        kept = λ a out new.
            t.kept a out ∙ memset-outside mem (page + high_vma) 0 (pages * page_size) a (new refl);
      },
    )
  where
    without :
        (a : ℕ)
        → in_use (cache size pages (new_slab high_vma page ∷ []) full) a
          ≡ in_use (cache size pages [] full) a
    without a = unfold in_use used_in in rw (new_slab-unused high_vma page size a) refl

take :
    (high_vma page size pages : ℕ) (mem : Bytes) (partial full : List Slab)
    → IsValid (cache size pages partial full)
    → All (Apart size (new_slab high_vma page)) full
    → Succeeds high_vma page mem (cache size pages partial full)
take high_vma page size pages mem [] full v apart =
    take_new high_vma page size pages mem full v apart
take high_vma page size pages mem (s ∷ partial) full v apart =
    take_partial high_vma page size pages mem s partial full v

-- cache_alloc_object, in a well-formed cache and with the room for a new slab apart from the
-- cache's full slabs, returns an object that no object in use overlaps. It is zeroed and then in use.
-- Every other address is in use or not as before, and keeps its byte unless a new slab is needed, which is
-- where no slab has an object, and it lies in that slab's pages. The cache stays well-formed.
pub cache_alloc_object_lem :
    (high_vma page : ℕ) (mem : Bytes) (c : Cache)
    → IsValid c
    → All (Apart c.object_size (new_slab high_vma page)) c.full_slabs
    → (p : ℕ) × (c' : Cache) × (mem' : Bytes) × (cache_alloc_object high_vma page mem c
        ≡ some (some p, c', mem'))
      × Gives high_vma page mem c p c' mem'
cache_alloc_object_lem high_vma page mem c v apart =
    let valid : IsValid (cache c.object_size c.pages_per_slab c.partial_slabs c.full_slabs) =
      record {
        some_size = v.some_size;
        none_empty = refl;
        partial = v.partial;
        full = v.full;
        partial_apart = v.partial_apart;
        full_apart = v.full_apart;
        between = v.between;
      } in
    let same : cache c.object_size c.pages_per_slab c.partial_slabs c.full_slabs ≡ c =
      ap (λ (x : List Slab). record c { empty_slabs = x }) (sym v.none_empty) in
    subst (Succeeds high_vma page mem) same (
      take high_vma page c.object_size c.pages_per_slab mem c.partial_slabs c.full_slabs valid
        apart)
