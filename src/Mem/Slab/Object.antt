-- ===== src/Mem/Slab/Object.antt =====
-- The objects of one slab: the search for a free one, and the memory that is zeroed.
use native.Mathlib.Decide.{ℕ_discrete}
use piggy_os.Common.{
  ℕ, zero, suc, ◌+◌, ◌<◌, ◌≤◌, ◌≡◌, ◌⊎◌, inl, inr, refl, sym, ap, ◌∙◌, true, false, ◌||◌, some,
  List, ◌==◌, if◌then◌else◌, update, update_self, update_ne, arith, Bool-cases, ne→==, ==_refl,
}
use piggy_os.Utils.Bitmap.{bitmap_test}
use piggy_os.Mem.Slab.{Bytes, memset, first_clear}

pub memset-outside :
    (mem : Bytes) (p c n a : ℕ) → (a < p) ⊎ (p + n ≤ a) → memset mem p c n a ≡ mem a
unfolding memset
memset-outside mem p c zero a out = refl
memset-outside mem p c (suc n) a out =
    memset-outside (update mem p c) (p + 1) c n a
      (elim out [ inl l ↦ inl (omega arith) | inr l ↦ inr (omega arith) ])
    ∙ update_ne mem p a c
        (λ e. elim out [ inl l ↦ absurd (omega arith) | inr l ↦ absurd (omega arith) ])

pub memset-inside : (mem : Bytes) (p c n a : ℕ) → p ≤ a → a < p + n → memset mem p c n a ≡ c
unfolding memset
memset-inside mem p c zero a low high = absurd (omega arith)
memset-inside mem p c (suc n) a low high = elim (ℕ_discrete a p) [
  | yes e ↦
      memset-outside (update mem p c) (p + 1) c n a (inl (omega arith))
      ∙ ap (update mem p c) e
      ∙ update_self mem p c
  | no k ↦ memset-inside (update mem p c) (p + 1) c n a (omega arith) (omega arith)
]

-- How many of the `n` bits from `i` on are clear
unfoldable pub clear_count : ℕ → ℕ → List ℕ → ℕ
clear_count zero i bitmap = 0
clear_count (suc n) i bitmap =
    (if bitmap_test bitmap i then 0 else 1) + clear_count n (i + 1) bitmap

-- Where a bit is clear the first one is found.
pub first_clear_lem :
    (n i : ℕ) (bitmap : List ℕ)
    → 0 < clear_count n i bitmap
    → (j : ℕ) × (first_clear n i bitmap ≡ some j)
      × (i ≤ j)
      × (j < i + n)
      × (bitmap_test bitmap j ≡ false)
unfolding first_clear clear_count
first_clear_lem zero i bitmap some_clear = absurd (omega arith)
first_clear_lem (suc n) i bitmap some_clear = elim (Bool-cases (bitmap_test bitmap i)) [
  | inr e ↦ (i, rw e refl, omega arith, omega arith, e)
  | inl e ↦
      let behind : 0 < clear_count n (i + 1) bitmap = sym_count e some_clear in
      let (j, found, low, high, clear) = first_clear_lem n (i + 1) bitmap behind in
      (j, rw e found, omega arith, omega arith, clear)
]
  where
    sym_count :
        bitmap_test bitmap i ≡ true
        → 0 < (if bitmap_test bitmap i then 0 else 1) + clear_count n (i + 1) bitmap
        → 0 < clear_count n (i + 1) bitmap
    sym_count e l = ground arith

-- Two maps of bits that are the same from `i` on have as many clear bits.
clear_count-cong :
    (n i : ℕ) (a b : List ℕ)
    → ((k : ℕ) → i ≤ k → bitmap_test a k ≡ bitmap_test b k)
    → clear_count n i a ≡ clear_count n i b
unfolding clear_count
clear_count-cong zero i a b h = refl
clear_count-cong (suc n) i a b h =
    rw (h i (omega arith), clear_count-cong n (i + 1) a b (λ k l. h k (omega arith))) refl

-- A bit that is set leaves one clear bit less.
pub clear_count-one :
    (n i j : ℕ) (a b : List ℕ)
    → i ≤ j
    → j < i + n
    → bitmap_test a j ≡ false
    → ((k : ℕ) → bitmap_test b k ≡ (j == k || bitmap_test a k))
    → clear_count n i a ≡ clear_count n i b + 1
unfolding clear_count
clear_count-one zero i j a b low high e h = absurd (omega arith)
clear_count-one (suc n) i j a b low high e h = elim (ℕ_discrete i j) [
  | yes s ↦
      let set : bitmap_test b i ≡ true = rw (h i, s, ==_refl j) refl in
      let clear : bitmap_test a i ≡ false = rw s e in
      let same : clear_count n (i + 1) a ≡ clear_count n (i + 1) b =
        clear_count-cong n (i + 1) a b
          (λ k l. sym (rw (h k, ne→== j k (λ q. absurd (omega arith))) refl)) in
      rw (set, clear, same) (omega arith)
  | no d ↦
      let other : bitmap_test b i ≡ bitmap_test a i = rw (h i, ne→== j i (λ q. d (sym q))) refl in
      let ih = clear_count-one n (i + 1) j a b (omega arith) (omega arith) e h in
      rw (other, ih) (omega arith)
]
