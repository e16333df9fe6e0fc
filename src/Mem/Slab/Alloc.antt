-- ===== src/Mem/Slab/Alloc.antt =====
-- `cache_alloc_object`: it hands out an object that was free, and no other changes.
use piggy_os.Common.{
  ℕ, ◌+◌, ◌-◌, ◌*◌, ◌<◌, ◌≤◌, ◌≡◌, ◌≢◌, inl, inr, refl, Bool, true, false, ◌||◌, some, List, [],
  ◌∷◌, ◌==◌, arith, All, Bool-cases, ne→==, ==_refl,
}
use piggy_os.Mem.Slab.{Slab, Cache, Bytes, page_size, without, cache_move_slab, settle}
use piggy_os.Mem.Slab.Owner.{In, Out, uses, Good, Takes, used_in, Apart, used_in-Apart}

-- Slabs apart from each other
abbrev pub Spread : ℕ → List Slab → Type 0
Spread size [] = Unit {0}
Spread size (s ∷ x) = All (Apart size s) x × Spread size x

abbrev pub Available : Slab → Type 0
Available s = Good s × (0 < s.available_objects)

-- A cache between two calls: no slab is empty but the ones in the list of partial slabs, which all
-- have an object.
pub record IsValid (c : Cache) : Type 0 where
  pub some_size : 0 < c.object_size
  pub none_empty : c.empty_slabs ≡ []
  pub partial : All Available c.partial_slabs
  pub full : All Good c.full_slabs
  pub partial_apart : Spread c.object_size c.partial_slabs
  pub full_apart : Spread c.object_size c.full_slabs
  pub between : All (λ s. All (Apart c.object_size s) c.full_slabs) c.partial_slabs

-- Whether an object of the cache that is in use has an address
unfoldable pub in_use : Cache → ℕ → Bool
in_use c a = used_in c.object_size c.partial_slabs a || used_in c.object_size c.full_slabs a

pub Available-Good : (x : List Slab) → All Available x → All Good x
Available-Good [] h = tt
Available-Good (s ∷ x) ((g, l), h) = (g, Available-Good x h)

-- A slab keeps its distance while its buffer stays.
pub Apart-buffer :
    (size : ℕ) (s s' : Slab) (x : List Slab)
    → s'.buffer ≡ s.buffer
    → All (Apart size s) x
    → All (Apart size s') x
Apart-buffer size s s' [] e h = tt
Apart-buffer size s s' (t ∷ x) e (h, hs) = (
  elim h [ inl l ↦ inl (omega arith) | inr l ↦ inr (omega arith) ],
  Apart-buffer size s s' x e hs,
)

-- The slabs of a list are apart from one that is put in front of another list.
Apart-in_front :
    (size : ℕ) (s : Slab) (x y : List Slab)
    → All (Apart size s) x
    → All (λ t. All (Apart size t) y) x
    → All (λ t. All (Apart size t) (s ∷ y)) x
Apart-in_front size s [] y h hs = tt
Apart-in_front size s (t ∷ x) y (h, h') (k, k') =
    let back : Apart size t s = elim h [ inl l ↦ inr l | inr l ↦ inl l ] in
    ((back, k), Apart-in_front size s x y h' k')

-- A cache of a size, with slabs of two kinds
abbrev pub cache : ℕ → ℕ → List Slab → List Slab → Cache
cache size pages partial full = record {
  object_size = size;
  pages_per_slab = pages;
  empty_slabs = [];
  partial_slabs = partial;
  full_slabs = full;
}

module _ (size pages : ℕ) (partial full : List Slab) (s : Slab) where
  pub settle-full :
      s.available_objects ≡ 0
      → settle (cache size pages (s ∷ partial) full) s ≡ some (cache size pages partial (s ∷ full))
  unfolding settle cache_move_slab without
  settle-full e =
      let last : (s.available_objects == 0) ≡ true = ground arith in
      rw (last, ==_refl s.buffer) refl

  pub settle-stays :
      s.available_objects ≢ 0
      → settle (cache size pages (s ∷ partial) full) s ≡ some (cache size pages (s ∷ partial) full)
  unfolding settle cache_move_slab
  settle-stays n = elim (Bool-cases (s.available_objects == s.total_objects - 1)) [
    | inl e ↦ rw (ne→== s.available_objects 0 n, e) refl
    | inr e ↦ rw (ne→== s.available_objects 0 n, e) refl
  ]

  pub settle-begins :
      s.available_objects ≡ 511
      → s.total_objects ≡ 512
      → settle (record (cache size pages [] full) { empty_slabs = s ∷ [] }) s
        ≡ some (cache size pages (s ∷ []) full)
  unfolding settle cache_move_slab without
  settle-begins e e' =
      let more : (s.available_objects == 0) ≡ false = ground arith in
      let first : (s.available_objects == s.total_objects - 1) ≡ true = ground arith in
      rw (more, first, ==_refl s.buffer) refl

-- The cache `c'` after an object at `p` has been taken. A new slab, which is needed where no slab has an
-- object, comes to lie at `page`, and its pages are zeroed.
pub record Gives (high_vma page : ℕ) (mem : Bytes) (c : Cache) (p : ℕ) (c' : Cache) (mem' : Bytes)
    : Type 0 where
  pub valid : IsValid c'
  pub size : c'.object_size ≡ c.object_size
  pub was_free : (a : ℕ) → In p c.object_size a → in_use c a ≡ false
  pub now_used : (a : ℕ) → In p c.object_size a → in_use c' a ≡ true
  pub others : (a : ℕ) → Out p c.object_size a → in_use c' a ≡ in_use c a
  pub zeroed : (a : ℕ) → In p c.object_size a → mem' a ≡ 0
  pub kept :
      (a : ℕ)
      → Out p c.object_size a
      → (c.partial_slabs ≡ [] → Out (page + high_vma) (c.pages_per_slab * page_size) a)
      → mem' a ≡ mem a

-- The slabs that stand beside the one that an object is taken from
module _ (high_vma page size pages : ℕ) (mem mem' : Bytes) (partial full : List Slab) (s s' : Slab)
    (p : ℕ) (t : Takes size mem s p s' mem') (total : Good s) (pos : 0 < size)
    (ok : All Available partial) (ok' : All Good full) (a1 : All (Apart size s) partial)
    (a2 : All (Apart size s) full) (spread : Spread size partial) (spread' : Spread size full)
    (between : All (λ x. All (Apart size x) full) partial) where
  unused : (a : ℕ) → In p size a → (used_in size partial a ≡ false) × (used_in size full a ≡ false)
  unused a (low, high) =
      let from : s.buffer ≤ a = omega (arith, t.from) in
      let to : a < s.buffer + size * 512 = omega (arith, t.to) in
      (
        used_in-Apart size a s partial pos (Available-Good partial ok) a1 from to,
        used_in-Apart size a s full pos ok' a2 from to,
      )

  pub Gives-stays :
      0 < s'.available_objects
      → Gives high_vma page mem
          (cache size pages (s ∷ partial) full)
          p
          (cache size pages (s' ∷ partial) full)
          mem'
  unfolding in_use used_in
  Gives-stays left = record {
    valid = record {
      some_size = pos;
      none_empty = refl;
      partial = ((t.good, left), ok);
      full = ok';
      partial_apart = (Apart-buffer size s s' partial t.buffer a1, spread);
      full_apart = spread';
      between = (Apart-buffer size s s' full t.buffer a2, between);
    };
    size = refl;
    was_free = λ a within. let (u, v) = unused a within in rw (t.was_free a within, u, v) refl;
    now_used = λ a within. rw (t.now_used a within) refl;
    others = λ a out. rw (t.others a out) refl;
    zeroed = t.zeroed;
    kept = λ a out new. t.kept a out;
  }

  pub Gives-full :
      Gives high_vma page mem
        (cache size pages (s ∷ partial) full)
        p
        (cache size pages partial (s' ∷ full))
        mem'
  unfolding in_use used_in
  Gives-full = record {
    valid = record {
      some_size = pos;
      none_empty = refl;
      partial = ok;
      full = (t.good, ok');
      partial_apart = spread;
      full_apart = (Apart-buffer size s s' full t.buffer a2, spread');
      between =
          Apart-in_front size s' partial full (Apart-buffer size s s' partial t.buffer a1) between;
    };
    size = refl;
    was_free = λ a within. let (u, v) = unused a within in rw (t.was_free a within, u, v) refl;
    now_used = λ a within. let (u, v) = unused a within in rw (t.now_used a within, u) refl;
    others = λ a out. rw (t.others a out) (swap (used_in size partial a) (uses size s a) _);
    zeroed = t.zeroed;
    kept = λ a out new. t.kept a out;
  }
    where
      swap : (x y z : Bool) → (x || (y || z)) ≡ ((y || x) || z)
      swap x y z = ground arith
