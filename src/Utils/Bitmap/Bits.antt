-- ===== src/Utils/Bitmap/Bits.antt =====
-- What one write of a bit does to every bit: the bytes are checked value by value.
use piggy_os.Common.{
  ℕ, ◌-◌, ◌/◌, ◌%◌, ◌^◌, ◌<◌, ◌≡◌, ◌≢◌, inl, inr, refl, sym, Bool, true, false, not, ◌||◌, ◌&&◌,
  List, length, get_or, set, get_or-set_self, get_or-set_ne, length-set, All, All-set, All-get_or,
  ◌==◌, ==_iff, ltb, ltb→lt, Bool-cases, bit_and, bit_or, every, every-at, arith,
}
use piggy_os.Utils.Bitmap.{bitmap_test, bitmap_set, bitmap_clear}

-- Every element of the array is a byte.
abbrev pub IsByte : ℕ → Type 0
IsByte x = x < 256

abbrev pub IsBytes : List ℕ → Type 0
IsBytes a = All IsByte a

test_bit : ℕ → ℕ → Bool
test_bit x k = not (bit_and x (2 ^ k) == 0)

same : Bool → Bool → Bool
same true b = b
same false b = not b

same_sound : (a b : Bool) → same a b ≡ true → a ≡ b
unfolding same
same_sound true b h = sym h
same_sound false b h = ground arith

set_entry : ℕ → ℕ → ℕ → Bool
unfolding test_bit same
set_entry x k j = same (test_bit (bit_or x (2 ^ k) % 256) j) (k == j || test_bit x j)

clear_entry : ℕ → ℕ → ℕ → Bool
unfolding test_bit same
clear_entry x k j =
    same (test_bit (bit_and x (255 - 2 ^ k)) j) (not (k == j) && test_bit x j)
    && ltb (bit_and x (255 - 2 ^ k)) 256

set_table : every 256 (λ x. every 8 (λ k. every 8 (λ j. set_entry x k j))) ≡ true
unfolding every set_entry
set_table = refl

clear_table : every 256 (λ x. every 8 (λ k. every 8 (λ j. clear_entry x k j))) ≡ true
unfolding every clear_entry
clear_table = refl

from_table :
    (p : ℕ → ℕ → ℕ → Bool) (x k j : ℕ)
    → every 256 (λ x. every 8 (λ k. every 8 (λ j. p x k j))) ≡ true
    → x < 256
    → k < 8
    → j < 8
    → p x k j ≡ true
from_table p x k j t hx hk hj =
    let row = every-at 256 (λ x. every 8 (λ k. every 8 (λ j. p x k j))) x hx t in
    let cell = every-at 8 (λ k. every 8 (λ j. p x k j)) k hk row in
    every-at 8 (λ j. p x k j) j hj cell

set_bit :
    (x k j : ℕ)
    → x < 256
    → k < 8
    → j < 8
    → test_bit (bit_or x (2 ^ k) % 256) j ≡ (k == j || test_bit x j)
set_bit x k j hx hk hj =
    same_sound _ _ (unfold set_entry in from_table set_entry x k j set_table hx hk hj)

and_true : (a b : Bool) → a && b ≡ true → (a ≡ true) × (b ≡ true)
and_true a b h = ground arith

clear_bit :
    (x k j : ℕ)
    → x < 256
    → k < 8
    → j < 8
    → (test_bit (bit_and x (255 - 2 ^ k)) j ≡ (not (k == j) && test_bit x j))
      × (bit_and x (255 - 2 ^ k) < 256)
unfolding clear_entry
clear_bit x k j hx hk hj =
    let both =
      and_true (same (test_bit (bit_and x (255 - 2 ^ k)) j) (not (k == j) && test_bit x j))
        (ltb (bit_and x (255 - 2 ^ k)) 256) (from_table clear_entry x k j clear_table hx hk hj) in
    (same_sound _ _ both.0, ltb→lt _ _ both.1)

-- Two indices are equal if they name the same bit of the same byte.
==_split : (i j : ℕ) → i / 8 ≡ j / 8 → (i % 8 == j % 8) ≡ (i == j)
==_split i j e = ground arith

ne_split : (i j : ℕ) → i / 8 ≢ j / 8 → (i == j) ≡ false
ne_split i j e = ground arith

module _ (a : List ℕ) (i j : ℕ) (bytes : IsBytes a) (inside : i / 8 < length a) where
  byte : get_or a (i / 8) 0 < 256
  byte = All-get_or IsByte a (i / 8) 0 (omega arith) bytes

  written : (v : ℕ) → i / 8 ≡ j / 8 → get_or (set a (i / 8) v) (j / 8) 0 ≡ v
  written v e = rw (← e) (get_or-set_self a (i / 8) v 0 inside)

  kept : (v : ℕ) → i / 8 ≢ j / 8 → get_or (set a (i / 8) v) (j / 8) 0 ≡ get_or a (j / 8) 0
  kept v n = get_or-set_ne a (i / 8) (j / 8) v 0 n

  -- BITMAP_SET sets its bit and leaves every other.
  pub bitmap_test-set : bitmap_test (bitmap_set a i) j ≡ (i == j || bitmap_test a j)
  unfolding bitmap_test bitmap_set test_bit
  bitmap_test-set = elim (Bool-cases (i / 8 == j / 8)) [
    | inl t ↦
        let e = (==_iff _ _).0 t in
        rw (
          written _ e,
          set_bit _ (i % 8) (j % 8) byte (omega arith) (omega arith),
          ==_split i j e,
          e,
        )
    | inr f ↦ let n : i / 8 ≢ j / 8 = ground arith in rw (kept _ n, ne_split i j n)
  ]

  -- BITMAP_CLEAR clears its bit and leaves every other.
  pub bitmap_test-clear : bitmap_test (bitmap_clear a i) j ≡ (not (i == j) && bitmap_test a j)
  unfolding bitmap_test bitmap_clear test_bit
  bitmap_test-clear = elim (Bool-cases (i / 8 == j / 8)) [
    | inl t ↦
        let e = (==_iff _ _).0 t in
        rw (
          written _ e,
          (clear_bit _ (i % 8) (j % 8) byte (omega arith) (omega arith)).0,
          ==_split i j e,
          e,
        )
    | inr f ↦ let n : i / 8 ≢ j / 8 = ground arith in rw (kept _ n, ne_split i j n)
  ]

module _ (a : List ℕ) (i : ℕ) where
  pub bitmap_set-IsBytes : IsBytes a → IsBytes (bitmap_set a i)
  unfolding bitmap_set
  bitmap_set-IsBytes h = All-set IsByte a (i / 8) _ (omega arith) h

  pub bitmap_clear-IsBytes : IsBytes a → IsBytes (bitmap_clear a i)
  unfolding bitmap_clear
  bitmap_clear-IsBytes h =
      All-set IsByte a (i / 8) _
        (clear_bit _ (i % 8) 0 (All-get_or IsByte a (i / 8) 0 (omega arith) h) (omega arith)
          (omega arith)).1
        h

  pub length-bitmap_set : length (bitmap_set a i) ≡ length a
  unfolding bitmap_set
  length-bitmap_set = length-set a (i / 8) _

  pub length-bitmap_clear : length (bitmap_clear a i) ≡ length a
  unfolding bitmap_clear
  length-bitmap_clear = length-set a (i / 8) _
