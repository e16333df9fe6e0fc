-- ===== src/Libc/Strtox/Tests.antt =====
-- Runs of libc/src/stdlib/strtox.c.
use piggy_os.Common.{◌≡◌, ◌++◌, refl, true, false, none, some, [], ◌∷◌, arith, sub64}
use piggy_os.Common.Int.{pos}
use piggy_os.Libc.Strtox.{
  isspace, is_valid, convert_digit, skip_spaces, skip_x, read_sign, read_prefix, read_digits,
  read_number, strtox, strtoul, strtol,
}
use piggy_os.Libc.Strtox.Digits.{Stops}
use piggy_os.Libc.Strtox.Print.{numeral, sign, strtoul-numeral}

-- "0x1F;" in base 0
hex :
    strtoul (b'0' ∷ b'x' ∷ b'1' ∷ b'F' ∷ b';' ∷ []) (pos 0)
    ≡ record { value = 31; endptr = some (b';' ∷ []); is_einval = false }
unfolding strtoul strtox read_number read_sign skip_spaces isspace read_prefix skip_x read_digits
    is_valid convert_digit
hex = refl

-- "-12" as a signed number is the word of -12.
minus_twelve :
    strtol (b'-' ∷ b'1' ∷ b'2' ∷ []) (pos 10)
    ≡ record { value = sub64 0 12; endptr = some []; is_einval = false }
unfolding strtol strtox read_number read_sign skip_spaces isspace read_prefix skip_x read_digits
    is_valid convert_digit
minus_twelve = refl

-- 2^64 + 5 is not refused, it wraps to 5.
wraps :
    strtoul
      (b'1' ∷ b'8' ∷ b'4' ∷ b'4' ∷ b'6' ∷ b'7' ∷ b'4' ∷ b'4' ∷ b'0' ∷ b'7' ∷ b'3' ∷ b'7' ∷ b'0'
        ∷ b'9' ∷ b'5' ∷ b'5' ∷ b'1' ∷ b'6' ∷ b'2' ∷ b'1' ∷ [])
      (pos 10)
    ≡ record { value = 5; endptr = some []; is_einval = false }
unfolding strtoul strtox read_number read_sign skip_spaces isspace read_prefix skip_x read_digits
    is_valid convert_digit
wraps = refl

refused :
    strtol (b'1' ∷ []) (pos 1)
    ≡ record { value = 9223372036854775807; endptr = none; is_einval = true }
unfolding strtol strtox
refused = refl

blank : isspace 32 ≡ true
unfolding isspace
blank = refl

stops : Stops 36 (b';' ∷ [])
unfolding is_valid
stops = refl

-- " -zz;" in base 36, where "zz" is 1295.
strtoul-numeral_example :
    strtoul ((32 ∷ []) ++ (sign true ++ (numeral 36 1296 1295 ++ (b';' ∷ [])))) (pos 36)
    ≡ record { value = sub64 0 1295; endptr = some (b';' ∷ []); is_einval = false }
strtoul-numeral_example =
    strtoul-numeral 36 1295 (32 ∷ []) true (b';' ∷ []) (omega arith) (omega arith) (omega arith)
      (omega arith) (blank, tt) stops

zz : numeral 36 3 1295 ≡ b'z' ∷ b'z' ∷ []
unfolding numeral
zz = refl
