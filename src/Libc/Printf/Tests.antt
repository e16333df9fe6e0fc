-- ===== src/Libc/Printf/Tests.antt =====
-- Formats, and the theorems at them.
use piggy_os.Common.{ℕ, ◌≤◌, ◌≡◌, refl, false, some, List, [], ◌∷◌, ◌++◌, length, arith}
use piggy_os.Common.Int.{pos}
use piggy_os.Libc.Strtox.{strtoul, is_valid}
use piggy_os.Libc.Printf.Text.{width_unsigned, strtoul-printf_internal}
use piggy_os.Libc.Printf.{
  word, printf_internal, format, read_spec, read_flags, flag, star_width, read_decimal,
  read_precision, after_dot, star_precision, read_length, specification, conversion, convert,
  print_word, print_signed, signed_text, print_dec, count_digits, fill_digits, print_hex, count_hex,
  hex_digits, hex_char,
}

-- "%-05d|" pads on the right with zeros.
padded_right :
    printf_internal (b'%' ∷ b'-' ∷ b'0' ∷ b'5' ∷ b'd' ∷ b'|' ∷ []) (word 42 ∷ [])
    ≡ some (b'4' ∷ b'2' ∷ b'0' ∷ b'0' ∷ b'0' ∷ b'|' ∷ [], 6)
unfolding printf_internal format read_spec read_flags flag star_width read_decimal read_precision
    after_dot star_precision read_length specification conversion convert print_word print_signed
    signed_text print_dec count_digits fill_digits
padded_right = refl

-- "%#6x" and "%c"
hexadecimal :
    printf_internal (b'%' ∷ b'#' ∷ b'6' ∷ b'x' ∷ b'%' ∷ b'c' ∷ []) (word 175 ∷ word b'!' ∷ [])
    ≡ some (b' ' ∷ b' ' ∷ b'0' ∷ b'x' ∷ b'a' ∷ b'f' ∷ b'!' ∷ [], 6)
unfolding printf_internal format read_spec read_flags flag star_width read_decimal read_precision
    after_dot star_precision read_length specification conversion convert print_word print_hex
    count_hex hex_digits hex_char
hexadecimal = refl

comma_stops : is_valid 10 b',' ≡ false
unfolding is_valid
comma_stops = refl

strtoul-printf_internal_example :
    (text : List ℕ) × (printf_internal width_unsigned (word 6 ∷ word 42 ∷ [])
      ≡ some (text, length text))
    × (6 ≤ length text)
    × (strtoul (text ++ (b',' ∷ [])) (pos 10)
        ≡ record { value = 42; endptr = some (b',' ∷ []); is_einval = false })
strtoul-printf_internal_example =
    strtoul-printf_internal 42 6 (b',' ∷ []) (omega arith) (omega arith) comma_stops
