-- ===== src/Mem/Slab/Free.antt =====
-- `cache_free_object`: it takes an object in use back, and refuses every other address.
use native.Mathlib.Nat.{div-lt_iff_lt-mul}
use piggy_os.Common.{
  ℕ, ◌+◌, ◌-◌, ◌*◌, ◌/◌, ◌<◌, ◌≤◌, ◌≡◌, inl, inr, refl, sym, ap, ◌∙◌, Bool, true, false, not, ◌&&◌,
  ◌||◌, none, some, List, [], ◌∷◌, length, ltb, leb, ◌==◌, arith, All, Bool-cases, ne→==, ==_refl,
}
use piggy_os.Utils.Bitmap.{bitmap_test, bitmap_clear}
use piggy_os.Utils.Bitmap.Bits.{bitmap_test-clear, bitmap_clear-IsBytes, length-bitmap_clear}
use piggy_os.Mem.Slab.{Slab, in_front_of, slab_free_object}
use piggy_os.Mem.Slab.Object.{clear_count, clear_count-one}
use piggy_os.Mem.Slab.Owner.{
  In, Out, uses, uses-object, uses-same, object-end, object-index, Good, with_bits, used_in, Apart,
  used_in-Apart,
}
use piggy_os.Mem.Slab.Alloc.{Spread, Available, Apart-buffer}

-- The slab `s'` after the object at `p` of `s`, which the address `o` is in, has been freed
record Frees (size : ℕ) (s : Slab) (o p : ℕ) (s' : Slab) : Type 0 where
  good : Good s'
  buffer : s'.buffer ≡ s.buffer
  available : s'.available_objects ≡ s.available_objects + 1
  at : In p size o
  from : s.buffer ≤ p
  to : p + size ≤ s.buffer + size * 512
  was_used : (a : ℕ) → In p size a → uses size s a ≡ true
  now_free : (a : ℕ) → In p size a → uses size s' a ≡ false
  others : (a : ℕ) → Out p size a → uses size s' a ≡ uses size s a

abbrev index : ℕ → Slab → ℕ → ℕ
index size s o = (o - s.buffer) / size

abbrev freed : ℕ → ℕ → Slab → Slab
freed size o s = with_bits s (bitmap_clear s.bitmap (index size s o)) (s.available_objects + 1)

uses-cases :
    (size o : ℕ) (s : Slab)
    → s.total_objects ≡ 512
    → uses size s o ≡ true
    → (s.buffer ≤ o) × (o < s.buffer + size * 512) × (bitmap_test s.bitmap (index size s o) ≡ true)
unfolding uses
uses-cases size o s total e =
    let both = and3 (leb s.buffer o) (ltb o (s.buffer + size * s.total_objects)) _ e in
    let low = both.0 in let high = both.1 in (ground arith, ground (arith, total), both.2)
  where
    and3 : (x y z : Bool) → (x && y && z) ≡ true → (x ≡ true) × (y ≡ true) × (z ≡ true)
    and3 x y z h = ground arith

freed-Frees :
    (size o : ℕ) (s : Slab)
    → Good s
    → 0 < size
    → uses size s o ≡ true
    → Frees size s o (s.buffer + index size s o * size) (freed size o s)
freed-Frees size o s g pos used =
    let (low, high, bit) = uses-cases size o s g.total used in
    let j = index size s o in
    let below : j < 512 = (div-lt_iff_lt-mul pos).1 (omega arith) in
    let inside : j / 8 < length s.bitmap = omega (arith, g.wide) in
    let bitmap = bitmap_clear s.bitmap j in
    let left = s.available_objects + 1 in
    let bits : (k : ℕ) → bitmap_test bitmap k ≡ (not (j == k) && bitmap_test s.bitmap k) =
      λ k. bitmap_test-clear s.bitmap j k g.bytes inside in
    let cleared : bitmap_test bitmap j ≡ false = bits j ∙ rw (==_refl j) refl in
    let count : clear_count 512 0 bitmap ≡ clear_count 512 0 s.bitmap + 1 =
      clear_count-one 512 0 j bitmap s.bitmap (omega arith) below cleared (λ k.
        back (j == k) (bitmap_test s.bitmap k) (bitmap_test bitmap k) (bits k)
          (λ e. ground (arith, bit))) in
    let (at_low, at_high) = object-index size s g.total pos o low in
    let end : j * size + size ≤ size * 512 = object-end size s g.total pos j below in
    record {
      good = record {
        total = g.total;
        wide = omega (arith, length-bitmap_clear s.bitmap j, g.wide);
        bytes = bitmap_clear-IsBytes s.bitmap j g.bytes;
        counted = omega (arith, g.counted);
      };
      buffer = refl;
      available = refl;
      at = (at_low, at_high);
      from = omega arith;
      to = omega arith;
      was_used = λ a within.
          uses-object size s g.total pos j a s.available_objects s.bitmap below within ∙ bit;
      now_free = λ a within. uses-object size s g.total pos j a left bitmap below within ∙ cleared;
      others = λ a out.
          uses-same size s g.total pos j a left bitmap
            (λ k other. bits k ∙ rw (ne→== j k (λ q. other (sym q))) refl) out;
    }
  where
    back : (same x y : Bool) → y ≡ (not same && x) → (same ≡ true → x ≡ true) → x ≡ (same || y)
    back true x y e h = h refl
    back false x y e h = sym e

-- The slabs `x'` after the object at `p`, which the address `o` is in, has been freed in one of `x`
pub record FreesIn (size : ℕ) (x : List Slab) (o p : ℕ) (x' : List Slab) : Type 0 where
  pub good : All Good x'
  pub at : In p size o
  pub was_used : (a : ℕ) → In p size a → used_in size x a ≡ true
  pub now_free : (a : ℕ) → In p size a → used_in size x' a ≡ false
  pub others : (a : ℕ) → Out p size a → used_in size x' a ≡ used_in size x a
  pub apart : (s : Slab) → All (Apart size s) x → All (Apart size s) x'
  pub apart' :
      (y : List Slab) → All (λ s. All (Apart size s) y) x → All (λ s. All (Apart size s) y) x'
  pub spread : Spread size x → Spread size x'
  pub available : All Available x → All Available x'
  pub elsewhere :
      (a : ℕ) (y : List Slab)
      → All Good y
      → All (λ s. All (Apart size s) y) x
      → In p size a
      → used_in size y a ≡ false

slab_free_object-here :
    (size o : ℕ) (s : Slab) (x : List Slab)
    → uses size s o ≡ true
    → slab_free_object size o (s ∷ x) ≡ some (freed size o s ∷ x)
unfolding slab_free_object uses
slab_free_object-here size o s x e = rw e refl

slab_free_object-behind :
    (size o : ℕ) (s : Slab) (x : List Slab)
    → uses size s o ≡ false
    → slab_free_object size o (s ∷ x) ≡ in_front_of s (slab_free_object size o x)
unfolding slab_free_object uses
slab_free_object-behind size o s x e = rw e refl

-- An address in no object in use is refused.
pub slab_free_object-unused :
    (size o : ℕ) (x : List Slab) → used_in size x o ≡ false → slab_free_object size o x ≡ none
unfolding slab_free_object used_in
slab_free_object-unused size o [] e = refl
slab_free_object-unused size o (s ∷ x) e =
    let here : uses size s o ≡ false = ground arith in
    let behind : used_in size x o ≡ false = ground arith in
    slab_free_object-behind size o s x here
    ∙ ap (in_front_of s) (slab_free_object-unused size o x behind)

-- A slab that has moved nowhere is as far from the others as before.
Apart-back : (size : ℕ) (t s s' : Slab) → s'.buffer ≡ s.buffer → Apart size t s → Apart size t s'
Apart-back size t s s' e h = elim h [ inl l ↦ inl (omega arith) | inr l ↦ inr (omega arith) ]

frees_here :
    (size o : ℕ) (s : Slab) (x : List Slab)
    → All Good (s ∷ x)
    → Spread size (s ∷ x)
    → 0 < size
    → uses size s o ≡ true
    → FreesIn size (s ∷ x) o (s.buffer + index size s o * size) (freed size o s ∷ x)
unfolding used_in
frees_here size o s x (g, gs) (far, spread) pos used =
    let s' = freed size o s in
    let f = freed-Frees size o s g pos used in
    record {
      good = (f.good, gs);
      at = f.at;
      was_used = λ a within. rw (f.was_used a within) refl;
      now_free = λ a (l, h).
          rw (f.now_free a (l, h))
            (used_in-Apart size a s x pos gs far (omega (arith, f.from)) (omega (arith, f.to)));
      others = λ a out. rw (f.others a out) refl;
      apart = λ t (h, hs). (Apart-back size t s s' refl h, hs);
      apart' = λ y (h, hs). (Apart-buffer size s s' y refl h, hs);
      spread = λ (h, hs). (Apart-buffer size s s' x refl h, hs);
      available = λ (h, hs). ((f.good, omega (arith, f.available)), hs);
      elsewhere = λ a y gy (h, hs) (l, k).
          used_in-Apart size a s y pos gy h (omega (arith, f.from)) (omega (arith, f.to));
    }

frees_behind :
    (size o p : ℕ) (s : Slab) (x x' : List Slab)
    → All Good (s ∷ x)
    → Spread size (s ∷ x)
    → FreesIn size x o p x'
    → uses size s o ≡ false
    → FreesIn size (s ∷ x) o p (s ∷ x')
unfolding used_in
frees_behind size o p s x x' (g, gs) (far, spread) f unused =
    let away : (a : ℕ) → In p size a → uses size s a ≡ false = λ a within.
      let h = f.elsewhere a (s ∷ []) (g, tt) (apart_back x far) within in ground arith in
    record {
      good = (g, f.good);
      at = f.at;
      was_used = λ a within. rw (away a within, f.was_used a within) refl;
      now_free = λ a within. rw (away a within, f.now_free a within) refl;
      others = λ a out. rw (f.others a out) refl;
      apart = λ t (h, hs). (h, f.apart t hs);
      apart' = λ y (h, hs). (h, f.apart' y hs);
      spread = λ (h, hs). (f.apart s h, f.spread hs);
      available = λ (h, hs). (h, f.available hs);
      elsewhere = λ a y gy (h, hs) within. f.elsewhere a y gy hs within;
    }
  where
    apart_back : (y : List Slab) → All (Apart size s) y → All (λ t. All (Apart size t) (s ∷ [])) y
    apart_back [] h = tt
    apart_back (t ∷ y) (h, hs) =
        let back : Apart size t s = elim h [ inl l ↦ inr l | inr l ↦ inl l ] in
        ((back, tt), apart_back y hs)

-- An object in use is freed in the slab that it is in.
pub slab_free_object-FreesIn :
    (size o : ℕ) (x : List Slab)
    → All Good x
    → Spread size x
    → 0 < size
    → used_in size x o ≡ true
    → (p : ℕ) × (x' : List Slab) × (slab_free_object size o x ≡ some x') × FreesIn size x o p x'
unfolding used_in
slab_free_object-FreesIn size o [] g spread pos used = absurd (cc used)
slab_free_object-FreesIn size o (s ∷ x) g spread pos used = elim (Bool-cases (uses size s o)) [
  | inl e ↦ (
    s.buffer + index size s o * size,
    freed size o s ∷ x,
    slab_free_object-here size o s x e,
    frees_here size o s x g spread pos e,
  )
  | inr e ↦
      let behind : used_in size x o ≡ true = ground arith in
      let (p, x', q, f) = slab_free_object-FreesIn size o x g.1 spread.1 pos behind in
      (
        p,
        s ∷ x',
        slab_free_object-behind size o s x e ∙ ap (in_front_of s) q,
        frees_behind size o p s x x' g spread f e,
      )
]
