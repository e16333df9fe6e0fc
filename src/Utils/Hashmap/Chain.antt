-- ===== src/Utils/Hashmap/Chain.antt =====
-- One bucket under keys that are compared over their own length, as all callers do.
use piggy_os.Common.{
  ℕ, ◌≡◌, refl, true, false, ◌||◌, none, some, List, [], ◌∷◌, All, arith, Bool-cases, inl, inr,
}
use piggy_os.Utils.Str.{strncmp, strlen, is_zero}
use piggy_os.Utils.Str.Prefix.{IsString, is_prefix, strncmp-is_prefix, is_prefix_refl}
use piggy_os.Utils.Hashmap
use piggy_os.Utils.Hashmap.{set_chain, get_chain}

-- Every key of the bucket is a string.
abbrev pub IsChain : Hashmap.Chain → Type 0
IsChain c = All (λ (e : List ℕ × ℕ). IsString e.0) c

pub set_chain-IsChain :
    (key : List ℕ) (value : ℕ) (c : Hashmap.Chain)
    → IsString key
    → IsChain c
    → IsChain (set_chain key (strlen key) value c)
unfolding set_chain
set_chain-IsChain key value [] h hc = (h, tt)
set_chain-IsChain key value ((k, v) ∷ c) h hc = ground (arith, set_chain-IsChain key value c)

-- What was written under a key is read under it.
pub get_chain-set_self :
    (key : List ℕ) (value : ℕ) (c : Hashmap.Chain)
    → IsString key
    → get_chain key (strlen key) (set_chain key (strlen key) value c) ≡ some value
unfolding set_chain get_chain
get_chain-set_self key value [] h = rw (strncmp-is_prefix key key h h, is_prefix_refl key)
get_chain-set_self key value ((k, v) ∷ c) h =
    elim (Bool-cases (is_zero (strncmp k key (strlen key)))) [
      | inl e ↦ rw (e, e)
      | inr e ↦ rw (e, e) (get_chain-set_self key value c h)
    ]

-- Neither of two keys is a prefix of the other.
pub record Apart (a b : List ℕ) : Type 0 where
  pub left : is_prefix a b ≡ false
  pub right : is_prefix b a ≡ false

-- Two prefixes of one string are prefixes of one another.
prefixes :
    (a b k : List ℕ)
    → is_prefix a k ≡ true
    → is_prefix b k ≡ true
    → (is_prefix a b || is_prefix b a) ≡ true
unfolding is_prefix
prefixes [] b k p q = refl
prefixes (c ∷ a) [] k p q = refl
prefixes (c ∷ a) (d ∷ b) [] p q = cc
prefixes (c ∷ a) (d ∷ b) (x ∷ k) p q = ground (arith, prefixes a b k)

-- A write under another key is not seen.
pub get_chain-set_other :
    (key other : List ℕ) (value : ℕ) (c : Hashmap.Chain)
    → IsString key
    → IsString other
    → IsChain c
    → Apart key other
    → get_chain other (strlen other) (set_chain key (strlen key) value c)
      ≡ get_chain other (strlen other) c
unfolding set_chain get_chain
get_chain-set_other key other value [] h g hc a = rw (strncmp-is_prefix key other h g, a.right)
get_chain-set_other key other value ((k, v) ∷ c) h g hc a = ground (
  arith,
  strncmp-is_prefix k key hc.0 h,
  strncmp-is_prefix k other hc.0 g,
  prefixes key other k,
  get_chain-set_other key other value c h g hc.1 a,
)

prefix_trans : (a b k : List ℕ) → is_prefix a b ≡ true → is_prefix b k ≡ true → is_prefix a k ≡ true
unfolding is_prefix
prefix_trans [] b k p q = refl
prefix_trans (c ∷ a) [] k p q = cc
prefix_trans (c ∷ a) (d ∷ b) [] p q = cc
prefix_trans (c ∷ a) (d ∷ b) (x ∷ k) p q = ground (arith, prefix_trans a b k)

-- A write under a longer key is read under a prefix of it that was absent.
pub get_chain-set_longer :
    (key longer : List ℕ) (value : ℕ) (c : Hashmap.Chain)
    → IsString key
    → IsString longer
    → IsChain c
    → is_prefix key longer ≡ true
    → get_chain key (strlen key) c ≡ none
    → get_chain key (strlen key) (set_chain longer (strlen longer) value c) ≡ some value
unfolding set_chain get_chain
get_chain-set_longer key longer value [] h g hc p absent = rw (strncmp-is_prefix longer key g h, p)
get_chain-set_longer key longer value ((k, v) ∷ c) h g hc p absent = ground (
  arith,
  strncmp-is_prefix k key hc.0 h,
  strncmp-is_prefix k longer hc.0 g,
  prefix_trans key longer k,
  get_chain-set_longer key longer value c h g hc.1 p,
)
