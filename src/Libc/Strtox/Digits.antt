-- ===== src/Libc/Strtox/Digits.antt =====
-- The number that a string of digits stands for.
use native.Mathlib.Nat.{mod-add-mod}
use piggy_os.Common.{
  ℕ, zero, suc, ◌+◌, ◌-◌, ◌*◌, ◌%◌, ◌<◌, ◌≤◌, ◌≡◌, ◌≢◌, refl, sym, ap, ◌∙◌, true, false, List, [],
  ◌∷◌, ◌++◌, ltb, if◌then◌else◌, u64_mod, All, arith,
}
use piggy_os.Libc.Strtox.{isspace, is_valid, convert_digit, read_digits}

mul-mod-add : (v b d m : ℕ) → (v % m * b + d) % m ≡ (v * b + d) % m
mul-mod-add v zero d m =
    let none_left : (v % m * 0 + d) ≡ v * 0 + d = grind arith in ap (λ x. x % m) none_left
mul-mod-add v (suc b) d m =
    let two : (v % m * suc b + d) ≡ v % m + (v % m * b + d) = grind arith in
    let one : (v * suc b + d) ≡ v * b + (v + d) = grind arith in
    let mid : (v % m * b + (v + d)) ≡ v + (v % m * b + d) = grind arith in
    rw (two, one)
      (mod-add-mod v m (v % m * b + d) ∙ ap (λ x. x % m) (sym mid) ∙ mul-mod-add v b (v + d) m)

-- The digit of a value below 36
abbrev pub char_of : ℕ → ℕ
char_of d = if ltb d 10 then b'0' + d else b'a' + (d - 10)

pub char_of-is_valid : (base d : ℕ) → d < base → base ≤ 36 → is_valid base (char_of d) ≡ true
unfolding is_valid
char_of-is_valid base d l h = ground arith

pub convert_digit-char_of : (d : ℕ) → d < 36 → convert_digit (char_of d) ≡ d
unfolding convert_digit
convert_digit-char_of d l = ground arith

-- A character that is valid in some base is no blank and no sign.
pub is_valid-plain :
    (base c : ℕ) → is_valid base c ≡ true → (isspace c ≡ false) × (c ≢ b'-') × (c ≢ b'+')
unfolding is_valid isspace
is_valid-plain base c e = ground arith

-- What digits stand for behind digits of value `v`, without a bound.
abbrev pub value_from : ℕ → ℕ → List ℕ → ℕ
value_from base v [] = v
value_from base v (c ∷ s) = value_from base (v * base + convert_digit c) s

-- The string goes on with no digit.
abbrev pub Stops : ℕ → List ℕ → Type 0
Stops base [] = Unit {0}
Stops base (c ∷ s) = is_valid base c ≡ false

abbrev pub IsDigits : ℕ → List ℕ → Type 0
IsDigits base s = All (λ c. is_valid base c ≡ true) s

pub read_digits-value :
    (base v : ℕ) (xs stop : List ℕ)
    → IsDigits base xs
    → Stops base stop
    → read_digits base (v % u64_mod) (xs ++ stop) ≡ (value_from base v xs % u64_mod, stop)
unfolding read_digits
read_digits-value base v [] [] h z = refl
read_digits-value base v [] (c ∷ s) h z = rw z refl
read_digits-value base v (c ∷ xs) stop h z = rw h.0 (
    ap (λ w. read_digits base w (xs ++ stop))
      (mod-add-mod (v % u64_mod * base) u64_mod (convert_digit c)
        ∙ mul-mod-add v base (convert_digit c) u64_mod)
    ∙ read_digits-value base (v * base + convert_digit c) xs stop h.1 z)

pub value_from-append :
    (base v : ℕ) (xs : List ℕ) (c : ℕ)
    → value_from base v (xs ++ (c ∷ [])) ≡ value_from base v xs * base + convert_digit c
value_from-append base v [] c = refl
value_from-append base v (x ∷ xs) c = value_from-append base (v * base + convert_digit x) xs c
