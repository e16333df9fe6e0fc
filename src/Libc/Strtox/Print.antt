-- ===== src/Libc/Strtox/Print.antt =====
-- Numerals, and what the code reads from one.
use native.Mathlib.Decide.{dec_lt}
use native.Mathlib.Nat.{div-add-mod', mod-lt, mod-eq_of_lt, div-lt_self}
use piggy_os.Common.{
  ℕ, zero, suc, ◌/◌, ◌%◌, ◌<◌, ◌≤◌, ◌≡◌, ◌≢◌, refl, ◌∙◌, Bool, true, false, some, List, [], ◌∷◌,
  ◌++◌, ltb, if◌then◌else◌, sub64, u64_mod, All, length, length-append, arith, ne→==, lt→ltb,
  le→ltb,
}
use piggy_os.Common.Int.{pos}
use piggy_os.Libc.Strtox.{
  isspace, is_valid, convert_digit, skip_spaces, read_sign, read_prefix, read_number, strtox,
  strtoul,
}
use piggy_os.Libc.Strtox.Digits.{
  char_of, char_of-is_valid, convert_digit-char_of, is_valid-plain, value_from, value_from-append,
  Stops, IsDigits, read_digits-value,
}

-- The numeral of `n` in a base, with `fuel` digits at most.
unfoldable pub numeral : ℕ → ℕ → ℕ → List ℕ
numeral base zero n = []
numeral base (suc fuel) n =
    let higher = numeral base fuel (n / base) in
    if ltb n base then char_of n ∷ [] else higher ++ (char_of (n % base) ∷ [])

IsDigits-append :
    (base : ℕ) (xs : List ℕ) (c : ℕ)
    → IsDigits base xs
    → is_valid base c ≡ true
    → IsDigits base (xs ++ (c ∷ []))
IsDigits-append base [] c h v = (v, tt)
IsDigits-append base (x ∷ xs) c h v = (h.0, IsDigits-append base xs c h.1 v)

numeral-low : (base fuel n : ℕ) → n < base → numeral base (suc fuel) n ≡ char_of n ∷ []
unfolding numeral
numeral-low base fuel n l = rw (lt→ltb n base l) refl

numeral-high :
    (base fuel n : ℕ)
    → base ≤ n
    → numeral base (suc fuel) n ≡ numeral base fuel (n / base) ++ (char_of (n % base) ∷ [])
unfolding numeral
numeral-high base fuel n h = rw (le→ltb n base h) refl

module _ (base : ℕ) (two : 2 ≤ base) (most : base ≤ 36) where
  digit-lt : (n : ℕ) → n % base < base
  digit-lt n = mod-lt n (omega arith)

  numeral-IsDigits : (fuel n : ℕ) → IsDigits base (numeral base fuel n)
  unfolding numeral
  numeral-IsDigits zero n = tt
  numeral-IsDigits (suc fuel) n = elim (dec_lt n base) [
    | yes l ↦ rw (numeral-low base fuel n l) (char_of-is_valid base n l most, tt)
    | no h ↦ rw (numeral-high base fuel n (omega arith)) (
        IsDigits-append base (numeral base fuel (n / base)) (char_of (n % base))
          (numeral-IsDigits fuel (n / base)) (char_of-is_valid base (n % base) (digit-lt n) most))
  ]

  numeral-value : (fuel n : ℕ) → n < fuel → value_from base 0 (numeral base fuel n) ≡ n
  numeral-value zero n l = absurd (omega arith)
  numeral-value (suc fuel) n l = elim (dec_lt n base) [
    | yes b ↦
        let d : convert_digit (char_of n) ≡ n = convert_digit-char_of n (omega arith) in
        rw (numeral-low base fuel n b) (rw d (omega arith))
    | no h ↦
        let less : n / base < n = div-lt_self (omega arith) (omega arith) in
        let d : convert_digit (char_of (n % base)) ≡ n % base =
          convert_digit-char_of (n % base) (omega (arith, digit-lt n)) in
        rw (numeral-high base fuel n (omega arith)) (
          value_from-append base 0 (numeral base fuel (n / base)) (char_of (n % base))
          ∙ rw (numeral-value fuel (n / base) (omega arith), d) (div-add-mod' n base))
  ]

  numeral-some : (fuel n : ℕ) → n < fuel → 0 < length (numeral base fuel n)
  numeral-some zero n l = absurd (omega arith)
  numeral-some (suc fuel) n l = elim (dec_lt n base) [
    | yes b ↦ rw (numeral-low base fuel n b) (omega arith)
    | no h ↦
        rw (numeral-high base fuel n (omega arith))
          (omega (arith, length-append (numeral base fuel (n / base)) (char_of (n % base) ∷ [])))
  ]

skip_spaces-blanks :
    (blanks s : List ℕ)
    → All (λ c. isspace c ≡ true) blanks
    → skip_spaces (blanks ++ s) ≡ skip_spaces s
unfolding skip_spaces
skip_spaces-blanks [] s h = refl
skip_spaces-blanks (c ∷ blanks) s h = rw h.0 (skip_spaces-blanks blanks s h.1)

-- A minus, or nothing
abbrev pub sign : Bool → List ℕ
sign true = b'-' ∷ []
sign false = []

minus_plain : isspace b'-' ≡ false
unfolding isspace
minus_plain = refl

-- What is in front of the digits is read as the sign.
read_sign-plain :
    (minus : Bool) (base c : ℕ) (s : List ℕ)
    → is_valid base c ≡ true
    → read_sign (skip_spaces (sign minus ++ (c ∷ s))) ≡ (minus, c ∷ s)
unfolding read_sign skip_spaces
read_sign-plain true base c s v = rw minus_plain refl
read_sign-plain false base c s v =
    let p = is_valid-plain base c v in rw p.0 (rw (ne→== c b'-' p.1) (rw (ne→== c b'+' p.2) refl))

read_prefix-plain :
    (base c : ℕ) (s : List ℕ) → base ≢ 0 → base ≢ 16 → read_prefix base (c ∷ s) ≡ (base, c ∷ s)
unfolding read_prefix
read_prefix-plain base c s z x = rw (ne→== base 16 x) (rw (ne→== base 0 z) refl)

pub read_number-value :
    (base : ℕ) (blanks : List ℕ) (minus : Bool) (xs stop : List ℕ)
    → base ≢ 0
    → base ≢ 16
    → All (λ c. isspace c ≡ true) blanks
    → 0 < length xs
    → IsDigits base xs
    → Stops base stop
    → value_from base 0 xs < u64_mod
    → read_number base (blanks ++ (sign minus ++ (xs ++ stop))) ≡ record {
      value = if minus then sub64 0 (value_from base 0 xs) else value_from base 0 xs;
      endptr = some stop;
      is_einval = false;
    }
unfolding read_number
read_number-value base blanks minus [] stop z x b some_digit h st small = absurd (omega arith)
read_number-value base blanks minus (c ∷ cs) stop z x b some_digit h st small =
    rw (skip_spaces-blanks blanks (sign minus ++ (c ∷ cs ++ stop)) b) (
      rw (read_sign-plain minus base c (cs ++ stop) h.0) (
        rw (read_prefix-plain base c (cs ++ stop) z x)
          (rw (read_digits-value base 0 (c ∷ cs) stop h st) (rw (mod-eq_of_lt small) refl))))

-- strtoul in a base from 2 to 36 other than 16 reads a numeral of a number below 2^64, behind blanks and
-- in front of anything that is no digit, as that number, or as its negative modulo 2^64 behind a minus,
-- and sets the end pointer behind the numeral.
pub strtoul-numeral :
    (base n : ℕ) (blanks : List ℕ) (minus : Bool) (stop : List ℕ)
    → 2 ≤ base
    → base ≤ 36
    → base ≢ 16
    → n < u64_mod
    → All (λ c. isspace c ≡ true) blanks
    → Stops base stop
    → strtoul (blanks ++ (sign minus ++ (numeral base (suc n) n ++ stop))) (pos base)
      ≡ record { value = if minus then sub64 0 n else n; endptr = some stop; is_einval = false }
unfolding strtoul strtox
strtoul-numeral base n blanks minus stop two most x small b st =
    let v = numeral-value base two most (suc n) n (omega arith) in
    rw (ne→== base 1 (omega arith)) (
      rw (le→ltb 36 base most) (
        read_number-value base blanks minus (numeral base (suc n) n) stop (omega arith) x b
          (numeral-some base two most (suc n) n (omega arith))
          (numeral-IsDigits base two most (suc n) n) st (rw v small)
        ∙ rw v refl))
