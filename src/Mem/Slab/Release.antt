-- ===== src/Mem/Slab/Release.antt =====
-- `cache_free_object` of a cache.
use piggy_os.Common.{
  ℕ, ◌≡◌, ◌⊎◌, inl, inr, refl, true, false, none, some, List, [], ◌∷◌, All, Bool-cases,
}
use piggy_os.Mem.Slab.{Slab, Cache, slab_free_object, cache_free_object}
use piggy_os.Mem.Slab.Owner.{In, Out, used_in, Apart}
use piggy_os.Mem.Slab.Alloc.{Available-Good, IsValid, in_use}
use piggy_os.Mem.Slab.Free.{FreesIn, slab_free_object-unused, slab_free_object-FreesIn}

-- The cache after the object at `p`, which the address `o` is in, has been freed
pub record Frees (c : Cache) (o p : ℕ) (c' : Cache) : Type 0 where
  pub valid : IsValid c'
  pub size : c'.object_size ≡ c.object_size
  pub at : In p c.object_size o
  pub was_used : (a : ℕ) → In p c.object_size a → in_use c a ≡ true
  pub now_free : (a : ℕ) → In p c.object_size a → in_use c' a ≡ false
  pub others : (a : ℕ) → Out p c.object_size a → in_use c' a ≡ in_use c a

Apart-sym : (size : ℕ) (s t : Slab) → Apart size s t → Apart size t s
Apart-sym size s t h = elim h [ inl l ↦ inr l | inr l ↦ inl l ]

firsts :
    (size : ℕ) (t : Slab) (x y : List Slab)
    → All (λ s. All (Apart size s) (t ∷ y)) x
    → All (Apart size t) x × All (λ s. All (Apart size s) y) x
firsts size t [] y h = (tt, tt)
firsts size t (s ∷ x) y ((h, hs), k) =
    let (a, b) = firsts size t x y k in ((Apart-sym size s t h, a), (hs, b))

flip :
    (size : ℕ) (x y : List Slab)
    → All (λ s. All (Apart size s) y) x
    → All (λ t. All (Apart size t) x) y
flip size x [] h = tt
flip size x (t ∷ y) h = let (a, b) = firsts size t x y h in (a, flip size x y b)

each :
    (size : ℕ) (x y y' : List Slab)
    → ((s : Slab) → All (Apart size s) y → All (Apart size s) y')
    → All (λ s. All (Apart size s) y) x
    → All (λ s. All (Apart size s) y') x
each size [] y y' f h = tt
each size (s ∷ x) y y' f (h, hs) = (f s h, each size x y y' f hs)

module _ (c : Cache) (v : IsValid c) (o p : ℕ) (x : List Slab) where
  Frees-partial :
      FreesIn c.object_size c.partial_slabs o p x → Frees c o p (record c { partial_slabs = x })
  unfolding in_use
  Frees-partial f = record {
    valid = record {
      some_size = v.some_size;
      none_empty = v.none_empty;
      partial = f.available v.partial;
      full = v.full;
      partial_apart = f.spread v.partial_apart;
      full_apart = v.full_apart;
      between = f.apart' c.full_slabs v.between;
    };
    size = refl;
    at = f.at;
    was_used = λ a within. rw (f.was_used a within) refl;
    now_free = λ a within.
        rw (f.now_free a within, f.elsewhere a c.full_slabs v.full v.between within) refl;
    others = λ a out. rw (f.others a out) refl;
  }

  Frees-full : FreesIn c.object_size c.full_slabs o p x → Frees c o p (record c { full_slabs = x })
  unfolding in_use
  Frees-full f =
      let away = λ (a : ℕ) (within : In p c.object_size a).
        f.elsewhere a c.partial_slabs (Available-Good c.partial_slabs v.partial)
          (flip c.object_size c.partial_slabs c.full_slabs v.between) within in
      record {
        valid = record {
          some_size = v.some_size;
          none_empty = v.none_empty;
          partial = v.partial;
          full = f.good;
          partial_apart = v.partial_apart;
          full_apart = f.spread v.full_apart;
          between = each c.object_size c.partial_slabs c.full_slabs x f.apart v.between;
        };
        size = refl;
        at = f.at;
        was_used = λ a within. rw (away a within, f.was_used a within) refl;
        now_free = λ a within. rw (away a within, f.now_free a within) refl;
        others = λ a out. rw (f.others a out) refl;
      }

module _ (c : Cache) (o : ℕ) where
  in_partial :
      (x : List Slab)
      → slab_free_object c.object_size o c.partial_slabs ≡ some x
      → cache_free_object o c ≡ some (record c { partial_slabs = x })
  unfolding cache_free_object
  in_partial x e = rw (e, cache_free_object) refl

  in_full :
      (x : List Slab)
      → slab_free_object c.object_size o c.partial_slabs ≡ none
      → slab_free_object c.object_size o c.full_slabs ≡ some x
      → cache_free_object o c ≡ some (record c { full_slabs = x })
  unfolding cache_free_object
  in_full x e e' = rw (e, e', cache_free_object) refl

  in_none :
      slab_free_object c.object_size o c.partial_slabs ≡ none
      → slab_free_object c.object_size o c.full_slabs ≡ none
      → cache_free_object o c ≡ none
  unfolding cache_free_object
  in_none e e' = rw (e, e', cache_free_object) refl

-- In a well-formed cache, cache_free_object of an address in no object in use fails. Of one in an
-- object in use it frees that object: its addresses were in use and are not any more, every other
-- address is in use or not as before, and the cache stays well-formed.
pub cache_free_object_lem :
    (o : ℕ) (c : Cache)
    → IsValid c
    → (in_use c o ≡ false) × (cache_free_object o c ≡ none)
      ⊎ (in_use c o ≡ true)
        × (p : ℕ) × (c' : Cache) × (cache_free_object o c ≡ some c')
        × Frees c o p c'
unfolding in_use
cache_free_object_lem o c v =
    let good = Available-Good c.partial_slabs v.partial in
    let size = c.object_size in
    elim (Bool-cases (used_in size c.partial_slabs o)) [
      | inl e ↦
          let (p, x, q, f) =
            slab_free_object-FreesIn size o c.partial_slabs good v.partial_apart v.some_size e in
          inr (
            rw e refl,
            p,
            record c { partial_slabs = x },
            in_partial c o x q,
            Frees-partial c v o p x f,
          )
      | inr e ↦
          let refused = slab_free_object-unused size o c.partial_slabs e in
          elim (Bool-cases (used_in size c.full_slabs o)) [
            | inl e' ↦
                let (p, x, q, f) =
                  slab_free_object-FreesIn size o c.full_slabs v.full v.full_apart v.some_size e' in
                inr (
                  rw (e, e') refl,
                  p,
                  record c { full_slabs = x },
                  in_full c o x refused q,
                  Frees-full c v o p x f,
                )
            | inr e' ↦ inl (
              rw (e, e') refl,
              in_none c o refused (slab_free_object-unused size o c.full_slabs e'),
            )
          ]
    ]
