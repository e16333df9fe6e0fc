-- ===== src/Utils/Str/Prefix.antt =====
-- What a comparison over the length of its second string decides.
use native.Mathlib.Decide.{ℕ_discrete}
use piggy_os.Common.{
  ℕ, zero, suc, ◌+◌, ◌-◌, ◌%◌, ◌<◌, ◌≡◌, ◌≢◌, inl, inr, refl, sym, Bool, true, false, ◌&&◌, List,
  [], ◌∷◌, ◌==◌, ==_refl, ne→==, leb, All, arith, Bool-cases,
}
use piggy_os.Common.Int.{pos, sub_ℕ}
use piggy_os.Utils.Str.{char_diff, strncmp, strlen, is_zero}

-- A byte of a string is not the NUL.
abbrev pub IsChar : ℕ → Type 0
IsChar c = (0 < c) × (c < 256)

abbrev pub IsString : List ℕ → Type 0
IsString s = All IsChar s

-- `k` is a prefix of `j`.
unfoldable pub is_prefix : List ℕ → List ℕ → Bool
is_prefix [] j = true
is_prefix (c ∷ k) [] = false
is_prefix (c ∷ k) (d ∷ j) = c == d && is_prefix k j

is_zero-pos : (n : ℕ) → n ≢ 0 → is_zero (pos n) ≡ false
is_zero-pos zero h = absurd (h refl)
is_zero-pos (suc n) h = refl

is_zero-sub : (a b : ℕ) → a ≢ b → is_zero (sub_ℕ a b) ≡ false
is_zero-sub a b h = elim (Bool-cases (leb b a)) [
  | inl e ↦ rw e (is_zero-pos (a - b) (ground arith))
  | inr e ↦ rw e
]

char_diff-zero : (c d : ℕ) → c < 256 → d < 256 → c ≢ d → is_zero (char_diff c d) ≡ false
char_diff-zero c d hc hd n = is_zero-sub ((c + 128) % 256) ((d + 128) % 256) (omega arith)

-- `strncmp` over the length of `k` says that two strings are equal exactly if `k` is a prefix of
-- the other.
pub strncmp-is_prefix :
    (j k : List ℕ) → IsString j → IsString k → is_zero (strncmp j k (strlen k)) ≡ is_prefix k j
unfolding strncmp strlen is_prefix
strncmp-is_prefix j [] hj hk = refl
strncmp-is_prefix [] (c ∷ k) hj hk =
    rw (ne→== 0 c (omega arith)) (char_diff-zero 0 c (omega arith) (omega arith) (omega arith))
strncmp-is_prefix (d ∷ j) (c ∷ k) hj hk = elim (ℕ_discrete c d) [
  | yes e ↦ rw (e, ==_refl d, ne→== d 0 (omega arith)) (strncmp-is_prefix j k hj.1 hk.1)
  | no n ↦
      let m : d ≢ c = λ h. n (sym h) in
      rw (ne→== d c m, ne→== c d n) (char_diff-zero d c (omega arith) (omega arith) m)
]

pub is_prefix_refl : (k : List ℕ) → is_prefix k k ≡ true
unfolding is_prefix
is_prefix_refl [] = refl
is_prefix_refl (c ∷ k) = rw (==_refl c, is_prefix_refl k)
