-- ===== src/Utils/Bitmap.antt =====
-- The bitmap macros of kernel/include/utils/macros.h, over an array of bytes.
-- A read or write past the array is outside the model: a read gives 0, a write changes nothing, and
-- the lemmas below ask for indices inside.
pub mod Bits
pub mod Range
use piggy_os.Common.{
  ℕ, zero, suc, ◌+◌, ◌-◌, ◌*◌, ◌/◌, ◌%◌, ◌^◌, Bool, not, List, get_or, set, ◌==◌, bit_and, bit_or,
}

-- DIV_CEIL
abbrev pub div_ceil : ℕ → ℕ → ℕ
div_ceil value div = (value + (div - 1)) / div

-- ALIGN_UP
abbrev pub align_up : ℕ → ℕ → ℕ
align_up value align = div_ceil value align * align

-- BITMAP_TEST
unfoldable pub bitmap_test : List ℕ → ℕ → Bool
bitmap_test a b = not (bit_and (get_or a (b / 8) 0) (2 ^ (b % 8)) == 0)

-- BITMAP_SET; the result is stored back into a uint8_t.
unfoldable pub bitmap_set : List ℕ → ℕ → List ℕ
bitmap_set a b = set a (b / 8) (bit_or (get_or a (b / 8) 0) (2 ^ (b % 8)) % 256)

-- BITMAP_CLEAR; `~(1 << k)` is an int whose low byte is 255 - 2 ^ k.
unfoldable pub bitmap_clear : List ℕ → ℕ → List ℕ
bitmap_clear a b = set a (b / 8) (bit_and (get_or a (b / 8) 0) (255 - 2 ^ (b % 8)))
