-- ===== src/Utils/Str.antt =====
-- kernel/src/utils/string.c: C strings as the list of their bytes before the NUL.
-- A read of the byte behind the last one gives the NUL; reads past it do not happen.
pub mod Prefix
use piggy_os.Common.{
  ℕ, zero, suc, ◌+◌, ◌-◌, ◌%◌, Bool, true, false, not, List, [], ◌∷◌, ◌==◌, if◌then◌else◌, ltb,
}
use piggy_os.Common.Int.{ℤ, pos, negsuc, sub_ℕ}

-- The byte that a pointer into the string is at, and the string behind it.
abbrev pub first_char : List ℕ → ℕ
first_char [] = 0
first_char (c ∷ s) = c

abbrev pub rest : List ℕ → List ℕ
rest [] = []
rest (c ∷ s) = s

-- `c1 - c2` of two signed chars: adding 128 to both keeps the difference.
abbrev pub char_diff : ℕ → ℕ → ℤ
char_diff c1 c2 = sub_ℕ ((c1 + 128) % 256) ((c2 + 128) % 256)

-- `strncmp`
unfoldable pub strncmp : List ℕ → List ℕ → ℕ → ℤ
strncmp str1 str2 zero = pos 0
strncmp str1 str2 (suc n) =
    let c1 = first_char str1 in
    let c2 = first_char str2 in
    let next = strncmp (rest str1) (rest str2) n in
    if c1 == c2 then (if c1 == 0 then pos 0 else next) else char_diff c1 c2

-- `strcmp`; the loop ends at the NUL of the first string at the latest.
unfoldable pub strcmp : List ℕ → List ℕ → ℤ
strcmp [] str2 = char_diff 0 (first_char str2)
strcmp (c1 ∷ str1) str2 =
    let next = strcmp str1 (rest str2) in
    if c1 == first_char str2
    then (if c1 == 0 then pos 0 else next)
    else char_diff c1 (first_char str2)

-- `strlen`
unfoldable pub strlen : List ℕ → ℕ
strlen [] = 0
strlen (c ∷ s) = suc (strlen s)

-- `!strncmp(...)`
abbrev pub is_zero : ℤ → Bool
is_zero (pos zero) = true
is_zero (pos (suc n)) = false
is_zero (negsuc n) = false
