-- ===== src/Utils/Hashmap.antt =====
-- kernel/src/utils/hashmap.c: chained buckets of strings. A map is never NULL here, and the values
-- are pointers, so numbers. `kmalloc` of an entry and `strdup` of a key are taken to succeed, as the
-- code takes them to. `none` is the division by a size of 0.
pub mod Chain
pub mod Laws
mod Tests
use piggy_os.Common.{
  ℕ, zero, suc, ◌+◌, ◌-◌, ◌*◌, ◌%◌, ◌^◌, Bool, true, false, Option, none, some, List, [], ◌∷◌,
  get_or, set, ◌==◌, if◌then◌else◌,
}
use piggy_os.Utils.Str.{strncmp, is_zero}

-- A bucket: its entries from the head on, each with its key and its value.
abbrev pub Chain : Type 0
Chain = List (List ℕ × ℕ)

-- `hashmap_t`
pub record Hashmap : Type 0 where
  pub size : ℕ
  pub entries : List Chain

-- `hash_function`, from the hash of the bytes before; the shifts and the difference wrap.
unfoldable pub hash_from : ℕ → List ℕ → ℕ
hash_from hash [] = hash
hash_from hash (c ∷ key) =
    hash_from ((c + hash * 2 ^ 6 + hash * 2 ^ 16 + (2 ^ 32 - hash)) % 2 ^ 32) key

unfoldable pub hash_function : List ℕ → ℕ
hash_function key = hash_from 0 key

-- `hashmap_create`; the arguments are what the two calls of `kmalloc` give.
unfoldable pub hashmap_create : ℕ → Bool → Option (List Chain) → Option Hashmap
hashmap_create size false storage = none
hashmap_create size true none = none
hashmap_create size true (some storage) = some (record { size = size; entries = storage })

-- The walk of `hashmap_set` along a bucket: the first entry that compares equal is overwritten,
-- else an entry is added at the end.
unfoldable pub set_chain : List ℕ → ℕ → ℕ → Chain → Chain
set_chain key key_size value [] = (key, value) ∷ []
set_chain key key_size value ((k, v) ∷ x) =
    let next = (k, v) ∷ set_chain key key_size value x in
    if is_zero (strncmp k key key_size) then (k, value) ∷ x else next

-- The walk of `hashmap_get`
unfoldable pub get_chain : List ℕ → ℕ → Chain → Option ℕ
get_chain key key_size [] = none
get_chain key key_size ((k, v) ∷ x) =
    let next = get_chain key key_size x in if is_zero (strncmp k key key_size) then some v else next

-- The bucket of a key
abbrev pub bucket : Hashmap → List ℕ → ℕ
bucket map key = hash_function key % map.size

-- `hashmap_set`; it always reports success.
unfoldable pub hashmap_set : Hashmap → List ℕ → ℕ → ℕ → Option Hashmap
hashmap_set map key key_size value =
    let hash = bucket map key in
    if map.size == 0
    then none
    else some (record map {
      entries = set map.entries hash (set_chain key key_size value (get_or map.entries hash []));
    })

-- `hashmap_get`; the inner `none` is NULL.
unfoldable pub hashmap_get : Hashmap → List ℕ → ℕ → Option (Option ℕ)
hashmap_get map key key_size =
    if map.size == 0
    then none
    else some (get_chain key key_size (get_or map.entries (bucket map key) []))

-- `hashmap_remove`, which does nothing and reports success.
unfoldable pub hashmap_remove : Hashmap → List ℕ → ℕ → Bool × Hashmap
hashmap_remove map key key_size = (true, map)
