-- ===== src/Libc/Printf.antt =====
-- libc/src/stdio/stdio_internal.c: formatted output. A string is the list of its bytes before the
-- NUL. The callbacks only take the bytes that are put out, one after the other, so here they are
-- collected in a list, and Libc.Printf.Deliver hands them to a callback. `none` is behaviour that C
-- leaves open: an argument that is missing or of another type, more than 100 digits, padding that
-- an `int` does not count, or a format that ends in `%`. A negative precision other than -1 is `none` too.
pub mod Deliver
pub mod Digits
pub mod Text
mod Tests
use piggy_os.Common.{
  ℕ, zero, suc, ◌+◌, ◌-◌, ◌*◌, ◌/◌, ◌%◌, ◌^◌, max, Bool, true, false, not, ◌&&◌, ◌||◌, Option, none,
  some, List, [], ◌∷◌, ◌++◌, replicate, length, ltb, leb, ◌==◌, if◌then◌else◌, sub64,
}

-- The loop that counts the digits of a value; a word has no more than 20.
unfoldable pub count_digits : ℕ → ℕ → ℕ
count_digits zero val = 1
count_digits (suc fuel) val =
    let more = suc (count_digits fuel (val / 10)) in if leb 10 val then more else 1

-- The loop that fills `tmp` from its end: `i` digits of the value in front of `tmp`
unfoldable pub fill_digits : ℕ → ℕ → List ℕ → List ℕ
fill_digits zero value tmp = tmp
fill_digits (suc i) value tmp = fill_digits i (value / 10) ((value % 10 + b'0') ∷ tmp)

-- `print_dec`; a precision of -1 is `none`. The `int` that counts what is printed overflows from 2 ^ 31 on.
unfoldable pub print_dec : ℕ → ℕ → Bool → Bool → Option ℕ → Option (List ℕ)
print_dec value width fill_zero align_right precision =
    let least : ℕ = elim precision [ none ↦ 1 | some p ↦ p ] in
    let n_width = max (if value == 0 then 0 else count_digits 20 value) least in
    let digits = fill_digits n_width value [] in
    let padding = replicate (width - n_width) (if fill_zero then b'0' else b' ') in
    let printed = if align_right then width - n_width else width in
    if ltb 100 n_width || leb (2 ^ 31) printed
    then none
    else some (if align_right then padding ++ digits else digits ++ padding)

-- The loop that counts the hexadecimal digits of a value, up to 16
unfoldable pub count_hex : ℕ → ℕ → ℕ → ℕ
count_hex zero value j = 1
count_hex (suc fuel) value j =
    let more = count_hex fuel value (j * 16 + 15) + 1 in
    if ltb j value && ltb j (2 ^ 64 - 1) then more else 1

-- A hexadecimal digit
unfoldable pub hex_char : Bool → ℕ → ℕ
hex_char caps d = if ltb d 10 then d + b'0' else d - 10 + (if caps then b'A' else b'a')

-- The last `i` digits of a value
unfoldable pub hex_digits : Bool → ℕ → ℕ → List ℕ
hex_digits caps zero value = []
hex_digits caps (suc i) value = hex_char caps (value / 16 ^ i % 16) ∷ hex_digits caps i value

-- `print_hex`; a width is taken as an `int`, which is negative from 2 ^ 31 on.
unfoldable pub print_hex : ℕ → ℕ → Bool → Bool → Bool → Bool → List ℕ
print_hex value width fill_zero alt caps align =
    let n_width = count_hex 16 value 15 in
    let rest = if leb (2 ^ 31) width then 0 else width - (n_width + (if alt then 2 else 0)) in
    let prefix = if alt then b'0' ∷ (if caps then b'X' else b'x') ∷ [] else [] in
    (if not fill_zero && align then replicate rest b' ' else [])
    ++ (prefix
        ++ ((if fill_zero && align then replicate rest b'0' else [])
            ++ (hex_digits caps n_width value ++ (if align then [] else replicate rest b' '))))

-- The variable arguments: words, of which an `int` reads the low 32 bits, and strings.
pub data Arg : Type 0 where
  word : ℕ → Arg
  string : Option (List ℕ) → Arg

-- The locals of `__printf_internal` that a specification sets; `precision` is `none` for -1.
pub record Spec : Type 0 where
  pub arg_width : ℕ
  pub align : Bool
  pub fill_zero : Bool
  pub alt : Bool
  pub always_sign : ℕ
  pub precision : Option ℕ

abbrev pub no_spec : Spec
no_spec = record {
  arg_width = 0;
  align = true;
  fill_zero = false;
  alt = false;
  always_sign = 0;
  precision = none;
}

-- `(int) va_arg(args, int)` for a width, which is unsigned
unfoldable pub star_width : List Arg → Option (ℕ × List Arg)
star_width [] = none
star_width (string s ∷ args) = none
star_width (word w ∷ args) = some (w % 2 ^ 32, args)

-- The flag that a byte is, if any
unfoldable pub flag : ℕ → Spec → Option Spec
flag c spec =
    if c == b'-'
    then some (record spec { align = false })
    else if c == b'#'
    then some (record spec { alt = true })
    else if c == b'0'
    then some (record spec { fill_zero = true })
    else if c == b'+'
    then some (record spec { always_sign = 1 })
    else if c == b' '
    then some (record spec { always_sign = 2 })
    else none

-- What is left of the format and the arguments, with what has been read.
abbrev pub Scanned : Type 0
Scanned = Spec × List ℕ × List Arg

abbrev pub with_width :
    Option (ℕ × List Arg) → Spec → (Spec → List Arg → Option Scanned) → Option Scanned
with_width none spec next = none
with_width (some (w, args)) spec next = next (record spec { arg_width = w }) args

-- The loop over the flags
unfoldable pub read_flags : List ℕ → Spec → List Arg → Option Scanned
read_flags [] spec args = some (spec, [], args)
read_flags (c ∷ f) spec args =
    let star = with_width (star_width args) spec (read_flags f) in
    let next : Option Scanned = elim (flag c spec) [
      | none ↦ some (spec, c ∷ f, args)
      | some spec' ↦ read_flags f spec' args
    ] in
    if c == b'*' then star else next

abbrev pub is_digit : ℕ → Bool
is_digit c = leb b'0' c && leb c b'9'

-- The loop over the digits of a width or a precision, from the value so far
unfoldable pub read_decimal : List ℕ → ℕ → ℕ × List ℕ
read_decimal [] value = (value, [])
read_decimal (c ∷ f) value =
    let next = read_decimal f ((value * 10 + (c - b'0')) % 2 ^ 32) in
    if is_digit c then next else (value, c ∷ f)

-- A precision; one that is read from the arguments is not negative, other than -1.
unfoldable pub star_precision : Spec → List ℕ → List Arg → Option Scanned
star_precision spec f [] = none
star_precision spec f (string s ∷ args) = none
star_precision spec f (word w ∷ args) =
    if w % 2 ^ 32 == 2 ^ 32 - 1
    then some (record spec { precision = none }, f, args)
    else if leb (2 ^ 31) (w % 2 ^ 32)
    then none
    else some (record spec { precision = some (w % 2 ^ 32) }, f, args)

unfoldable pub after_dot : Spec → List ℕ → List Arg → Option Scanned
after_dot spec [] args = some (record spec { precision = some 0 }, [], args)
after_dot spec (c ∷ f) args =
    let (p, rest) = read_decimal (c ∷ f) 0 in
    if c == b'*'
    then star_precision spec f args
    else some (record spec { precision = some p }, rest, args)

unfoldable pub read_precision : Scanned → Option Scanned
read_precision (spec, [], args) = some (spec, [], args)
read_precision (spec, c ∷ f, args) =
    if c == b'.' then after_dot spec f args else some (spec, c ∷ f, args)

-- A byte that is skipped where it comes next
abbrev pub skip : ℕ → List ℕ → Bool × List ℕ
skip c [] = (false, [])
skip c (d ∷ f) = if d == c then (true, f) else (false, d ∷ f)

-- `big`: the length of the argument, 0 for an `int`
unfoldable pub read_length : List ℕ → ℕ × List ℕ
read_length f =
    let (l, f1) = skip b'l' f in
    let (ll, f2) = skip b'l' f1 in
    let (z, f3) = skip b'z' f2 in
    let (t, f4) = skip b't' f3 in (if z || t then 2 else if l then (if ll then 2 else 1) else 0, f4)

-- The loops of `%s` over a string, with `count` bytes put out: a precision and a width both end it.
unfoldable pub put_string : Option ℕ → ℕ → ℕ → List ℕ → List ℕ
put_string precision arg_width count [] = []
put_string (some zero) arg_width count (c ∷ s) = []
put_string (some (suc p)) arg_width count (c ∷ s) =
    let next = put_string (some p) arg_width (count + 1) s in
    c ∷ (if not (arg_width == 0) && count + 1 == arg_width then [] else next)
put_string none arg_width count (c ∷ s) =
    let next = put_string none arg_width (count + 1) s in
    c ∷ (if not (arg_width == 0) && count + 1 == arg_width then [] else next)

-- `%s`
unfoldable pub print_string : Spec → List ℕ → List ℕ
print_string spec s =
    let put = put_string spec.precision spec.arg_width 0 s in
    put ++ replicate (spec.arg_width - length put) b' '

-- The bytes that a conversion puts out, how many of them it counts, and the arguments left
abbrev pub Put : Type 0
Put = List ℕ × ℕ × List Arg

abbrev pub counting : List Arg → Option (List ℕ) → Option Put
counting args none = none
counting args (some out) = some (out, length out, args)

-- The bits of an argument of the length `big`
abbrev pub bits : ℕ → ℕ
bits big = if big == 0 then 32 else 64

-- The sign and the digits
unfoldable pub signed_text : List ℕ → Option (List ℕ) → Option (List ℕ)
signed_text sign none = none
signed_text sign (some out) = some (sign ++ out)

-- `%d` and `%i`
unfoldable pub print_signed : Spec → ℕ → ℕ → Option (List ℕ)
print_signed spec big w =
    let value = w % 2 ^ bits big in
    let negative = leb (2 ^ (bits big - 1)) value in
    let sign =
      if negative
      then b'-' ∷ []
      else if spec.always_sign == 0
      then []
      else (if spec.always_sign == 2 then b' ' else b'+') ∷ [] in
    signed_text sign (
      print_dec (if negative then 2 ^ bits big - value else value) spec.arg_width spec.fill_zero
        spec.align spec.precision)

-- The conversions of a word; `%c` counts nothing.
unfoldable pub print_word : Spec → ℕ → ℕ → ℕ → List Arg → Option Put
print_word spec big c w args =
    let value = w % 2 ^ bits big in
    if c == b'c'
    then some ((w % 256) ∷ [], 0, args)
    else if c == b'p'
    then counting args
        (some (print_hex (w % 2 ^ 64) spec.arg_width spec.fill_zero true false spec.align))
    else if c == b'x' || c == b'X'
    then counting args
        (some (print_hex value spec.arg_width spec.fill_zero spec.alt (c == b'X') spec.align))
    else if c == b'd' || c == b'i'
    then counting args (print_signed spec big w)
    else counting args (print_dec value spec.arg_width spec.fill_zero spec.align spec.precision)

abbrev pub takes_word : ℕ → Bool
takes_word c =
    c == b'c' || c == b'p' || c == b'x' || c == b'X' || c == b'd' || c == b'i' || c == b'u'

-- A conversion that reads an argument
unfoldable pub convert : Spec → ℕ → ℕ → List Arg → Option Put
convert spec big c [] = none
convert spec big c (word w ∷ args) = if c == b's' then none else print_word spec big c w args
convert spec big c (string none ∷ args) =
    if c == b's'
    then counting args (some (print_string spec (b'(' ∷ b'n' ∷ b'u' ∷ b'l' ∷ b'l' ∷ b')' ∷ [])))
    else none
convert spec big c (string (some s) ∷ args) =
    if c == b's' then counting args (some (print_string spec s)) else none

-- What comes of a specification: bytes and the rest, or the end, as for `%ls`.
pub data Step : Type 0 where
  put : List ℕ → ℕ → List ℕ → List Arg → Step
  stop : Step

abbrev pub then_put : List ℕ → Option Put → Option Step
then_put f none = none
then_put f (some (out, n, args)) = some (put out n f args)

unfoldable pub conversion : Spec → ℕ → List ℕ → List Arg → Option Step
conversion spec big [] args = none
conversion spec big (c ∷ f) args =
    if c == b's' && not (big == 0)
    then some stop
    else if c == b's' || takes_word c
    then then_put f (convert spec big c args)
    else some (put (c ∷ []) 1 f args)

-- A specification, behind its `%`
unfoldable pub specification : Option Scanned → Option Step
specification none = none
specification (some (spec, f, args)) =
    let (big, rest) = read_length f in conversion spec big rest args

unfoldable pub read_spec : List ℕ → List Arg → Option Step
read_spec f args = elim (read_flags f no_spec args) [
  | none ↦ none
  | some (spec, rest, args') ↦
      let (w, f') = read_decimal rest spec.arg_width in
      specification (read_precision (record spec { arg_width = w }, f', args'))
]

abbrev pub in_front : List ℕ → ℕ → Option (List ℕ × ℕ) → Option (List ℕ × ℕ)
in_front out n none = none
in_front out n (some (rest, written)) = some (out ++ rest, n + written)

-- The loop of `__printf_internal`; each round takes a byte of the format at least. The results are
-- the bytes that are put out and `written`.
unfoldable pub format : ℕ → List ℕ → List Arg → Option (List ℕ × ℕ)
format zero f args = none
format (suc fuel) [] args = some ([], 0)
format (suc fuel) (c ∷ f) args =
    let plain = in_front (c ∷ []) 1 (format fuel f args) in
    let special : Option (List ℕ × ℕ) = elim (read_spec f args) [
      | none ↦ none
      | some stop ↦ some ([], 0)
      | some (put out n rest args') ↦ in_front out n (format fuel rest args')
    ] in
    if c == b'%' then special else plain

-- `return written`, which makes an `int` of a size_t: its 32 bits
abbrev pub returned : Option (List ℕ × ℕ) → Option (List ℕ × ℕ)
returned none = none
returned (some (out, written)) = some (out, written % 2 ^ 32)

-- `__printf_internal`
unfoldable pub printf_internal : List ℕ → List Arg → Option (List ℕ × ℕ)
printf_internal fmt args = returned (format (length fmt + 1) fmt args)
