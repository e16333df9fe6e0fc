-- ===== src/Mem/Slab/Owner.antt =====
-- Which addresses the objects in use take.
use native.Mathlib.Nat.{div-eq_of_lt-le, mul-le-mul_right, lt-mul-div-succ, mul-div-le}
use piggy_os.Common.{
  ℕ, suc, ◌+◌, ◌-◌, ◌*◌, ◌/◌, ◌<◌, ◌≤◌, ◌≡◌, ◌≢◌, ◌⊎◌, inl, inr, refl, sym, ap, ◌∙◌, Bool, true,
  false, ◌&&◌, ◌||◌, some, List, [], ◌∷◌, length, ltb, leb, ◌==◌, arith, All, Bool-cases, ne→==,
  ==_refl, le→leb, lt→ltb, le→ltb, lt→leb,
}
use piggy_os.Utils.Bitmap.{bitmap_test, bitmap_set}
use piggy_os.Utils.Bitmap.Bits.{IsBytes, bitmap_test-set, bitmap_set-IsBytes, length-bitmap_set}
use piggy_os.Mem.Slab.{Slab, Bytes, memset, first_clear, slab_alloc_object}
use piggy_os.Mem.Slab.Object.{
  clear_count, first_clear_lem, clear_count-one, memset-inside, memset-outside,
}

-- The addresses of an object of the size `size` at `p`, and the others
abbrev pub In : ℕ → ℕ → ℕ → Type 0
In p size a = (p ≤ a) × (a < p + size)

abbrev pub Out : ℕ → ℕ → ℕ → Type 0
Out p size a = (a < p) ⊎ (p + size ≤ a)

-- Whether an address is in an object of the slab that is in use
unfoldable pub uses : ℕ → Slab → ℕ → Bool
uses size s a =
    leb s.buffer a
    && ltb a (s.buffer + size * s.total_objects)
    && bitmap_test s.bitmap ((a - s.buffer) / size)

-- A slab whose count of available objects is right.
pub record Good (s : Slab) : Type 0 where
  pub total : s.total_objects ≡ 512
  pub wide : 512 ≤ length s.bitmap * 8
  pub bytes : IsBytes s.bitmap
  pub counted : s.available_objects ≡ clear_count 512 0 s.bitmap

-- The slab with other bits
abbrev pub with_bits : Slab → List ℕ → ℕ → Slab
with_bits s bitmap available = record s { bitmap = bitmap; available_objects = available }

module _ (size : ℕ) (s : Slab) (total : s.total_objects ≡ 512) (pos : 0 < size) where
  uses-outside : (a : ℕ) → (a < s.buffer) ⊎ (s.buffer + size * 512 ≤ a) → uses size s a ≡ false
  unfolding uses
  uses-outside a out = elim out [
    | inl l ↦ rw (lt→leb a s.buffer l) refl
    | inr l ↦
        let far = le→ltb a (s.buffer + size * 512) l in
        elim (Bool-cases (leb s.buffer a)) [ inl e ↦ rw (e, total, far) refl | inr e ↦ rw e refl ]
  ]

  pub uses-inside :
      (a : ℕ)
      → s.buffer ≤ a
      → a < s.buffer + size * 512
      → uses size s a ≡ bitmap_test s.bitmap ((a - s.buffer) / size)
  unfolding uses
  uses-inside a low high =
      rw (le→leb s.buffer a low, total, lt→ltb a (s.buffer + size * 512) high) refl

  pub object-end : (j : ℕ) → j < 512 → j * size + size ≤ size * 512
  object-end j l = let h : suc j * size ≤ 512 * size = mul-le-mul_right size l in omega arith

  pub index-object : (j a : ℕ) → In (s.buffer + j * size) size a → (a - s.buffer) / size ≡ j
  index-object j a (low, high) = div-eq_of_lt-le size (omega arith) (omega arith)

  pub object-index : (a : ℕ) → s.buffer ≤ a → In (s.buffer + (a - s.buffer) / size * size) size a
  object-index a low =
      let up = lt-mul-div-succ (a - s.buffer) pos in
      let down = mul-div-le (a - s.buffer) size in (omega arith, omega arith)

  -- Other bits change the use of an object where they differ.
  pub uses-same :
      (j a n : ℕ) (bitmap : List ℕ)
      → ((k : ℕ) → k ≢ j → bitmap_test bitmap k ≡ bitmap_test s.bitmap k)
      → Out (s.buffer + j * size) size a
      → uses size (with_bits s bitmap n) a ≡ uses size s a
  unfolding uses
  uses-same j a n bitmap same out = elim (Bool-cases (leb s.buffer a)) [
    | inr e ↦ rw e refl
    | inl e ↦
        let low : s.buffer ≤ a = ground arith in
        let (from, to) = object-index a low in
        let other : (a - s.buffer) / size ≢ j = λ q. elim out [
          | inl l ↦
              let at : s.buffer + (a - s.buffer) / size * size ≡ s.buffer + j * size =
                ap (λ k. s.buffer + k * size) q in
              absurd (omega arith)
          | inr l ↦
              let at : s.buffer + (a - s.buffer) / size * size ≡ s.buffer + j * size =
                ap (λ k. s.buffer + k * size) q in
              absurd (omega arith)
        ] in
        rw (same ((a - s.buffer) / size) other) refl
  ]

  pub uses-object :
      (j a n : ℕ) (bitmap : List ℕ)
      → j < 512
      → In (s.buffer + j * size) size a
      → uses size (with_bits s bitmap n) a ≡ bitmap_test bitmap j
  unfolding uses
  uses-object j a n bitmap l (low, high) =
      let end = object-end j l in
      let below : s.buffer ≤ a = omega arith in
      let above : a < s.buffer + size * 512 = omega arith in
      rw
        (
          le→leb s.buffer a below,
          total,
          lt→ltb a (s.buffer + size * 512) above,
          index-object j a (low, high),
        )
        refl

-- The object at `p` is taken out of the slab `s`, which becomes `s'`.
pub record Takes (size : ℕ) (mem : Bytes) (s : Slab) (p : ℕ) (s' : Slab) (mem' : Bytes)
    : Type 0 where
  pub good : Good s'
  pub buffer : s'.buffer ≡ s.buffer
  pub one_less : s.available_objects ≡ s'.available_objects + 1
  pub from : s.buffer ≤ p
  pub to : p + size ≤ s.buffer + size * 512
  pub was_free : (a : ℕ) → In p size a → uses size s a ≡ false
  pub now_used : (a : ℕ) → In p size a → uses size s' a ≡ true
  pub others : (a : ℕ) → Out p size a → uses size s' a ≡ uses size s a
  pub zeroed : (a : ℕ) → In p size a → mem' a ≡ 0
  pub kept : (a : ℕ) → Out p size a → mem' a ≡ mem a

slab_alloc_object-found :
    (size : ℕ) (mem : Bytes) (s : Slab) (j : ℕ)
    → first_clear s.total_objects 0 s.bitmap ≡ some j
    → slab_alloc_object size mem s
      ≡ some (
        s.buffer + j * size,
        with_bits s (bitmap_set s.bitmap j) (s.available_objects - 1),
        memset mem (s.buffer + j * size) 0 size,
      )
unfolding slab_alloc_object
slab_alloc_object-found size mem s j found = rw (found, slab_alloc_object) refl

-- A slab with an available object gives one.
pub slab_alloc_object-Takes :
    (size : ℕ) (mem : Bytes) (s : Slab)
    → Good s
    → 0 < size
    → 0 < s.available_objects
    → (p : ℕ) × (s' : Slab) × (mem' : Bytes) × (slab_alloc_object size mem s ≡ some (p, s', mem'))
      × Takes size mem s p s' mem'
slab_alloc_object-Takes size mem s g pos some_left =
    let (j, found, low, high, clear) = first_clear_lem 512 0 s.bitmap (omega (arith, g.counted)) in
    let p = s.buffer + j * size in
    let bitmap = bitmap_set s.bitmap j in
    let left = s.available_objects - 1 in
    let inside : j / 8 < length s.bitmap = omega (arith, g.wide) in
    let bits : (k : ℕ) → bitmap_test bitmap k ≡ (j == k || bitmap_test s.bitmap k) =
      λ k. bitmap_test-set s.bitmap j k g.bytes inside in
    let count : clear_count 512 0 s.bitmap ≡ clear_count 512 0 bitmap + 1 =
      clear_count-one 512 0 j s.bitmap bitmap low high clear bits in
    let end = object-end size s g.total pos j high in
    let before : s.available_objects ≡ clear_count 512 0 s.bitmap = g.counted in
    (
      p,
      with_bits s bitmap left,
      memset mem p 0 size,
      slab_alloc_object-found size mem s j (ap (λ n. first_clear n 0 s.bitmap) g.total ∙ found),
      record {
        good = record {
          total = g.total;
          wide = omega (arith, length-bitmap_set s.bitmap j, g.wide);
          bytes = bitmap_set-IsBytes s.bitmap j g.bytes;
          counted = omega arith;
        };
        buffer = refl;
        one_less = omega arith;
        from = omega arith;
        to = omega arith;
        was_free = λ a within.
            uses-object size s g.total pos j a s.available_objects s.bitmap high within ∙ clear;
        now_used = λ a within.
            uses-object size s g.total pos j a left bitmap high within
            ∙ bits j
            ∙ rw (==_refl j) refl;
        others = λ a out.
            uses-same size s g.total pos j a left bitmap
              (λ k other. bits k ∙ rw (ne→== j k (λ q. other (sym q))) refl) out;
        zeroed = λ a (l, h). memset-inside mem p 0 size a l h;
        kept = λ a out. memset-outside mem p 0 size a out;
      },
    )

-- Whether an object of a list of slabs that is in use has an address
unfoldable pub used_in : ℕ → List Slab → ℕ → Bool
used_in size [] a = false
used_in size (s ∷ x) a = uses size s a || used_in size x a

-- Slabs whose objects take different addresses
abbrev pub Apart : ℕ → Slab → Slab → Type 0
Apart size s t = (s.buffer + size * 512 ≤ t.buffer) ⊎ (t.buffer + size * 512 ≤ s.buffer)

pub used_in-Apart :
    (size a : ℕ) (s : Slab) (x : List Slab)
    → 0 < size
    → All Good x
    → All (Apart size s) x
    → s.buffer ≤ a
    → a < s.buffer + size * 512
    → used_in size x a ≡ false
unfolding used_in
used_in-Apart size a s [] pos g h low high = refl
used_in-Apart size a s (t ∷ x) pos (gt, g) (ht, h) low high =
    let away : uses size t a ≡ false =
      uses-outside size t gt.total pos a
        (elim ht [ inl l ↦ inl (omega arith) | inr l ↦ inr (omega arith) ]) in
    rw (away, used_in-Apart size a s x pos g h low high) refl
