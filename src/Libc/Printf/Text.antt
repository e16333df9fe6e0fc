-- ===== src/Libc/Printf/Text.antt =====
-- What is printed is read back.
use mathlib.Core.List.{append-nil, append_assoc}
use native.Mathlib.Nat.{mod-eq_of_lt}
use piggy_os.Common.{
  lt→leb, ℕ, zero, suc, ◌+◌, ◌-◌, ◌%◌, ◌^◌, max, ◌<◌, ◌≤◌, ◌≡◌, inl, inr, refl, sym, ap, ◌∙◌, Bool,
  true, false, none, some, List, [], ◌∷◌, ◌++◌, replicate, length, length-append, length-replicate,
  leb, ◌==◌, if◌then◌else◌, arith, All, le→ltb, ne→==, Bool-cases, sub64,
}
use native.Mathlib.Decide.{ℕ_discrete}
use piggy_os.Common.Int.{pos}
use piggy_os.Libc.Strtox.{isspace, strtox, strtoul, strtol, read_number}
use piggy_os.Libc.Strtox.Digits.{value_from, Stops}
use piggy_os.Libc.Strtox.Print.{sign, read_number-value}
use piggy_os.Libc.Printf.{
  word, no_spec, printf_internal, format, read_spec, read_flags, flag, star_width, read_decimal,
  read_precision, read_length, specification, conversion, convert, print_word, print_signed,
  signed_text, print_dec, count_digits, fill_digits,
}
use piggy_os.Libc.Printf.Digits.{
  fill_digits-IsDigits, length-fill_digits, value_from-fill_digits, count_digits-enough,
}

-- The digits of a word, and how many there are
abbrev pub n_width : ℕ → ℕ
n_width v = max (if v == 0 then 0 else count_digits 20 v) 1

abbrev pub decimal : ℕ → List ℕ
decimal v = fill_digits (n_width v) v []

n_width-enough : (v : ℕ) → v < 2 ^ 64 → (v < 10 ^ n_width v) × (1 ≤ n_width v) × (n_width v ≤ 21)
n_width-enough v small = elim (ℕ_discrete v 0) [
  | yes z ↦ rw z (omega arith, omega arith, omega arith)
  | no k ↦
      let (h, some_digit, few) = count_digits-enough 20 v (omega arith) in
      let same : n_width v ≡ count_digits 20 v = rw (ne→== v 0 k) (omega arith) in
      rw same (h, some_digit, few)
]

print_dec-digits :
    (v w : ℕ)
    → v < 2 ^ 64
    → w < 2 ^ 31
    → print_dec v w false true none ≡ some (replicate (w - n_width v) b' ' ++ decimal v)
unfolding print_dec
print_dec-digits v w small narrow =
    let (h, some_digit, few) = n_width-enough v small in
    rw (le→ltb 100 (n_width v) (omega arith), lt→leb (w - n_width v) (2 ^ 31) (omega arith)) refl

blanks : (n : ℕ) → All (λ c. isspace c ≡ true) (replicate n b' ')
unfolding isspace
blanks zero = tt
blanks (suc n) = (refl, blanks n)

-- Blanks, a minus or nothing, and the digits of a word are read as the word or its negative.
read_number-digits :
    (v n : ℕ) (minus : Bool) (stop : List ℕ)
    → v < 2 ^ 64
    → Stops 10 stop
    → read_number 10 (replicate n b' ' ++ (sign minus ++ (decimal v ++ stop)))
      ≡ record { value = if minus then sub64 0 v else v; endptr = some stop; is_einval = false }
read_number-digits v n minus stop small st =
    let (h, some_digit, few) = n_width-enough v small in
    let value : value_from 10 0 (decimal v) ≡ v = value_from-fill_digits (n_width v) v [] h in
    let long = length-fill_digits (n_width v) v [] in
    read_number-value 10 (replicate n b' ') minus (decimal v) stop (omega arith) (omega arith)
      (blanks n) (omega (arith, long)) (fill_digits-IsDigits (n_width v) v [] tt) st
      (rw value small)
    ∙ ap
        (λ x. record {
          value = if minus then sub64 0 x else x;
          endptr = some stop;
          is_einval = false;
        })
        value

-- "%*lu"
abbrev pub width_unsigned : List ℕ
width_unsigned = b'%' ∷ b'*' ∷ b'l' ∷ b'u' ∷ []

printf_internal-width_unsigned :
    (w v : ℕ) (out : List ℕ)
    → print_dec (v % 2 ^ 64) (w % 2 ^ 32) false true none ≡ some out
    → printf_internal width_unsigned (word w ∷ word v ∷ [])
      ≡ some (out ++ [], (length out + 0) % 2 ^ 32)
unfolding printf_internal format read_spec read_flags flag star_width read_decimal read_precision
    read_length specification conversion convert print_word
printf_internal-width_unsigned w v out e = rw e refl

-- "%*lu" prints a word in the width that is asked for at least, if that is below 2^31, and strtoul reads it
-- back, in front of anything that is no digit. The result is the length of the text.
pub strtoul-printf_internal :
    (v w : ℕ) (stop : List ℕ)
    → v < 2 ^ 64
    → w < 2 ^ 31
    → Stops 10 stop
    → (text : List ℕ) × (printf_internal width_unsigned (word w ∷ word v ∷ [])
        ≡ some (text, length text))
      × (w ≤ length text)
      × (strtoul (text ++ stop) (pos 10)
          ≡ record { value = v; endptr = some stop; is_einval = false })
unfolding strtoul strtox
strtoul-printf_internal v w stop small narrow st =
    let text = replicate (w - n_width v) b' ' ++ decimal v in
    let word_width : w % 2 ^ 32 ≡ w = omega arith in
    let (h, some_digit, few) = n_width-enough v small in
    let out : print_dec (v % 2 ^ 64) (w % 2 ^ 32) false true none ≡ some text =
      rw (mod-eq_of_lt small, word_width) (print_dec-digits v w small narrow) in
    let long = length-fill_digits (n_width v) v [] in
    let space : ℕ = b' ' in
    let pad = length-replicate (w - n_width v) space in
    let count : (length text + 0) % 2 ^ 32 ≡ length text =
      omega (arith, length-append (replicate (w - n_width v) b' ') (decimal v), long, pad) in
    (
      text,
      printf_internal-width_unsigned w v text out
          ∙ ap (λ t. some (t, (length text + 0) % 2 ^ 32)) (append-nil text)
          ∙ ap (λ n. some (text, n)) count,
      omega (arith, length-append (replicate (w - n_width v) b' ') (decimal v), long, pad),
      ap (read_number 10) (append_assoc (replicate (w - n_width v) b' ') (decimal v) stop)
          ∙ read_number-digits v (w - n_width v) false stop small st,
    )

-- "%ld"
abbrev pub signed : List ℕ
signed = b'%' ∷ b'l' ∷ b'd' ∷ []

-- The digits of a signed word
abbrev pub abs_word : ℕ → ℕ
abs_word v = if leb (2 ^ 63) v then 2 ^ 64 - v else v

print_signed-sign :
    (v : ℕ) (out : List ℕ)
    → print_dec (abs_word (v % 2 ^ 64)) 0 false true none ≡ some out
    → print_signed no_spec 1 v ≡ some (sign (leb (2 ^ 63) (v % 2 ^ 64)) ++ out)
unfolding print_signed signed_text
print_signed-sign v out e = elim (Bool-cases (leb (2 ^ 63) (v % 2 ^ 64))) [
  | inl n ↦
      let e' : print_dec (2 ^ 64 - v % 2 ^ 64) 0 false true none ≡ some out = sym (rw n refl) ∙ e in
      rw n (ap (signed_text (b'-' ∷ [])) e')
  | inr n ↦
      let e' : print_dec (v % 2 ^ 64) 0 false true none ≡ some out = sym (rw n refl) ∙ e in
      rw n (ap (signed_text []) e')
]

printf_internal-signed :
    (v : ℕ) (out : List ℕ)
    → print_signed no_spec 1 v ≡ some out
    → printf_internal signed (word v ∷ []) ≡ some (out ++ [], (length out + 0) % 2 ^ 32)
unfolding printf_internal format read_spec read_flags flag star_width read_decimal read_precision
    read_length specification conversion convert print_word
printf_internal-signed v out e = rw e refl

length-sign : (minus : Bool) → length (sign minus) ≤ 1
length-sign true = omega arith
length-sign false = omega arith

-- "%ld" prints a word, read as signed, and strtol reads it back, in front of anything that is no
-- digit.
pub strtol-printf_internal :
    (v : ℕ) (stop : List ℕ)
    → v < 2 ^ 64
    → Stops 10 stop
    → (text : List ℕ) × (printf_internal signed (word v ∷ []) ≡ some (text, length text))
      × (strtol (text ++ stop) (pos 10)
          ≡ record { value = v; endptr = some stop; is_einval = false })
unfolding strtol strtox
strtol-printf_internal v stop small st =
    let minus = leb (2 ^ 63) v in
    let below : abs_word v < 2 ^ 64 = ground arith in
    let out = decimal (abs_word v) in
    let back : (if minus then sub64 0 (abs_word v) else abs_word v) ≡ v = ground arith in
    let text = sign minus ++ out in
    let no_padding : 0 - n_width (abs_word v) ≡ 0 = omega arith in
    let (h, some_digit, few) = n_width-enough (abs_word v) below in
    let long = length-fill_digits (n_width (abs_word v)) (abs_word v) [] in
    let count : (length text + 0) % 2 ^ 32 ≡ length text =
      omega (arith, length-append (sign minus) out, length-sign minus, long) in
    (
      text,
      printf_internal-signed v text (
            print_signed-sign v out (
              ap (λ x. print_dec (abs_word x) 0 false true none) (mod-eq_of_lt small)
              ∙ print_dec-digits (abs_word v) 0 below (omega arith)
              ∙ ap (λ k. some (replicate k b' ' ++ out)) no_padding)
            ∙ ap (λ x. some (sign (leb (2 ^ 63) x) ++ out)) (mod-eq_of_lt small))
          ∙ ap (λ t. some (t, (length text + 0) % 2 ^ 32)) (append-nil text)
          ∙ ap (λ n. some (text, n)) count,
      ap (read_number 10) (append_assoc (sign minus) out stop)
          ∙ read_number-digits (abs_word v) 0 minus stop below st
          ∙ ap (λ x. record { value = x; endptr = some stop; is_einval = false }) back,
    )
