-- ===== src/Libc/Printf/Digits.antt =====
-- The digits of a decimal number that is printed.
use native.Mathlib.Decide.{dec_lt}
use piggy_os.Common.{
  ℕ, zero, suc, ◌+◌, ◌/◌, ◌%◌, ◌^◌, ◌<◌, ◌≤◌, ◌≡◌, refl, ap, ◌∙◌, true, List, ◌∷◌, length, arith,
  le→leb, lt→leb,
}
use piggy_os.Libc.Strtox.{is_valid, convert_digit}
use piggy_os.Libc.Strtox.Digits.{value_from, IsDigits}
use piggy_os.Libc.Printf.{count_digits, fill_digits}

digit-is_valid : (d : ℕ) → d < 10 → is_valid 10 (d + b'0') ≡ true
unfolding is_valid
digit-is_valid d l = ground arith

convert_digit-digit : (d : ℕ) → d < 10 → convert_digit (d + b'0') ≡ d
unfolding convert_digit
convert_digit-digit d l = ground arith

pub fill_digits-IsDigits :
    (i v : ℕ) (tmp : List ℕ) → IsDigits 10 tmp → IsDigits 10 (fill_digits i v tmp)
unfolding fill_digits
fill_digits-IsDigits zero v tmp h = h
fill_digits-IsDigits (suc i) v tmp h =
    fill_digits-IsDigits i (v / 10) ((v % 10 + b'0') ∷ tmp)
      (digit-is_valid (v % 10) (omega arith), h)

pub length-fill_digits : (i v : ℕ) (tmp : List ℕ) → length (fill_digits i v tmp) ≡ i + length tmp
unfolding fill_digits
length-fill_digits zero v tmp = omega arith
length-fill_digits (suc i) v tmp =
    length-fill_digits i (v / 10) ((v % 10 + b'0') ∷ tmp) ∙ omega arith

-- As many digits as a value has give the value.
pub value_from-fill_digits :
    (i v : ℕ) (tmp : List ℕ)
    → v < 10 ^ i
    → value_from 10 0 (fill_digits i v tmp) ≡ value_from 10 v tmp
unfolding fill_digits
value_from-fill_digits zero v tmp l = let e : 0 ≡ v = omega arith in ap (λ n. value_from 10 n tmp) e
value_from-fill_digits (suc i) v tmp l =
    value_from-fill_digits i (v / 10) ((v % 10 + b'0') ∷ tmp) (omega arith)
    ∙ ap (λ n. value_from 10 n tmp) (rw (convert_digit-digit (v % 10) (omega arith)) (omega arith))

count_digits-step :
    (fuel v : ℕ) → 10 ≤ v → count_digits (suc fuel) v ≡ suc (count_digits fuel (v / 10))
unfolding count_digits
count_digits-step fuel v l = rw (le→leb 10 v l) refl

count_digits-last : (fuel v : ℕ) → v < 10 → count_digits (suc fuel) v ≡ 1
unfolding count_digits
count_digits-last fuel v l = rw (lt→leb v 10 l) refl

-- The digits are counted right.
pub count_digits-enough :
    (fuel v : ℕ)
    → v < 10 ^ suc fuel
    → (v < 10 ^ count_digits fuel v) × (1 ≤ count_digits fuel v) × (count_digits fuel v ≤ fuel + 1)
unfolding count_digits
count_digits-enough zero v l = (omega arith, omega arith, omega arith)
count_digits-enough (suc fuel) v l = elim (dec_lt v 10) [
  | yes b ↦ rw (count_digits-last fuel v b) (omega arith, omega arith, omega arith)
  | no b ↦
      let (h, some_digit, few) = count_digits-enough fuel (v / 10) (omega arith) in
      rw (count_digits-step fuel v (omega arith)) (omega arith, omega arith, omega arith)
]
