-- ===== src/Utils/Hashmap/Tests.antt =====
-- A map of the size of the command line's, and the theorems at it.
use piggy_os.Common.{ℕ, ◌≡◌, refl, true, none, some, List, [], ◌∷◌, replicate, All-replicate, arith}
use piggy_os.Utils.Str.{strlen}
use piggy_os.Utils.Str.Prefix.{IsString, is_prefix}
use piggy_os.Utils.Hashmap.{
  Hashmap, hash_function, hash_from, bucket, hashmap_set, hashmap_get, get_chain,
}
use piggy_os.Utils.Hashmap.Chain.{IsChain, Apart}
use piggy_os.Utils.Hashmap.Laws.{IsValid, hashmap_get-set}

abbrev empty_map : Hashmap
empty_map = record { size = 20; entries = replicate 20 [] }

empty_map-IsValid : IsValid empty_map
empty_map-IsValid = record {
  some_buckets = omega arith;
  sized = refl;
  strings = All-replicate IsChain 20 [] tt;
}

-- "klog" and "klogz"
abbrev short_key : List ℕ
short_key = b'k' ∷ b'l' ∷ b'o' ∷ b'g' ∷ []

abbrev long_key : List ℕ
long_key = b'k' ∷ b'l' ∷ b'o' ∷ b'g' ∷ b'z' ∷ []

hashmap_get-set_example :
    (t : Hashmap) × (hashmap_set empty_map short_key (strlen short_key) 7 ≡ some t)
    × IsValid t
    × (hashmap_get t short_key (strlen short_key) ≡ some (some 7))
    × ((other : List ℕ)
        → IsString other
        → Apart short_key other
        → hashmap_get t other (strlen other) ≡ hashmap_get empty_map other (strlen other))
hashmap_get-set_example = hashmap_get-set empty_map short_key 7 empty_map-IsValid (omega arith)

-- The two keys fall in the bucket 1.
same_bucket : bucket empty_map long_key ≡ bucket empty_map short_key
unfolding hash_function hash_from
same_bucket = refl

absent_before : hashmap_get empty_map short_key (strlen short_key) ≡ some none
unfolding hashmap_get get_chain hash_function hash_from
absent_before = refl

is_prefix-keys : is_prefix short_key long_key ≡ true
unfolding is_prefix
is_prefix-keys = refl
