-- ===== src/Libc/Strtox.antt =====
-- libc/src/stdlib/strtox.c: reading a number. A string is the list of its bytes before the NUL, and the
-- pointer into it is the rest of the list; a char from 128 on is negative. The result of the signed
-- functions is the same word, read as signed.
pub mod Digits
pub mod Print
mod Tests
use piggy_os.Common.{
  ℕ, zero, suc, ◌+◌, ◌-◌, Bool, true, false, not, ◌&&◌, ◌||◌, Option, none, some, List, [], ◌∷◌,
  ltb, leb, ◌==◌, if◌then◌else◌, add64, sub64, mul64,
}
use piggy_os.Common.Int.{ℤ, pos, negsuc}

-- `isspace` of libc/src/ctype/isspace.c
unfoldable pub isspace : ℕ → Bool
isspace c = c == 12 || c == 10 || c == 13 || c == 9 || c == 11 || c == 32

-- `is_valid`
unfoldable pub is_valid : ℕ → ℕ → Bool
is_valid base c =
    if ltb c b'0' || leb 128 c
    then false
    else if leb base 10
    then ltb c (b'0' + base)
    else (leb b'a' c && ltb c (b'a' + (base - 10)))
      || (leb b'A' c && ltb c (b'A' + (base - 10)))
      || (leb b'0' c && leb c b'9')

-- `convert_digit`
unfoldable pub convert_digit : ℕ → ℕ
convert_digit c =
    if leb b'0' c && leb c b'9'
    then c - b'0'
    else if leb b'a' c && leb c b'z'
    then c - b'a' + 10
    else if leb b'A' c && leb c b'Z'
    then c - b'A' + 10
    else 0

unfoldable pub skip_spaces : List ℕ → List ℕ
skip_spaces [] = []
skip_spaces (c ∷ s) = let skipped = skip_spaces s in if isspace c then skipped else c ∷ s

-- The sign, true for a minus, and what is behind it.
unfoldable pub read_sign : List ℕ → Bool × List ℕ
read_sign [] = (false, [])
read_sign (c ∷ s) =
    if c == b'-' then (true, s) else if c == b'+' then (false, s) else (false, c ∷ s)

-- An `x` behind a leading zero
unfoldable pub skip_x : List ℕ → Bool × List ℕ
skip_x [] = (false, [])
skip_x (c ∷ s) = if c == b'x' then (true, s) else (false, c ∷ s)

-- The base that is used and the digits.
unfoldable pub read_prefix : ℕ → List ℕ → ℕ × List ℕ
read_prefix base [] = (if base == 0 then 10 else base, [])
read_prefix base (c ∷ s) =
    let (hex, digits) = skip_x s in
    if base == 16
    then (if c == b'0' then (16, digits) else (16, c ∷ s))
    else if base == 0
    then (if c == b'0' then (if hex then 16 else 8, digits) else (10, c ∷ s))
    else (base, c ∷ s)

-- The loop over the digits, from the value so far.
unfoldable pub read_digits : ℕ → ℕ → List ℕ → ℕ × List ℕ
read_digits base val [] = (val, [])
read_digits base val (c ∷ s) =
    let next = read_digits base (add64 (mul64 val base) (convert_digit c)) s in
    if is_valid base c then next else (val, c ∷ s)

-- The word that is returned, what `*endptr` is set to, and whether `errno` is set to EINVAL.
pub record Parsed : Type 0 where
  pub value : ℕ
  pub endptr : Option (List ℕ)
  pub is_einval : Bool

-- Behind the test of the base
unfoldable pub read_number : ℕ → List ℕ → Parsed
read_number base nptr =
    let (minus, unsigned) = read_sign (skip_spaces nptr) in
    let (used, digits) = read_prefix base unsigned in
    let (val, after) = read_digits used 0 digits in
    record { value = if minus then sub64 0 val else val; endptr = some after; is_einval = false }

-- `strtox`; `max` is what the function returns for a base that is refused.
unfoldable pub strtox : ℕ → ℤ → List ℕ → Parsed
strtox max (negsuc n) nptr = record { value = max; endptr = none; is_einval = true }
strtox max (pos base) nptr =
    if base == 1 || ltb 36 base
    then record { value = max; endptr = none; is_einval = true }
    else read_number base nptr

unfoldable pub strtoul : List ℕ → ℤ → Parsed
strtoul nptr base = strtox 18446744073709551615 base nptr

unfoldable pub strtol : List ℕ → ℤ → Parsed
strtol nptr base = strtox 9223372036854775807 base nptr
