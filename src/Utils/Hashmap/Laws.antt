-- ===== src/Utils/Hashmap/Laws.antt =====
-- The map under keys that are compared over their own length, as all callers do.
use native.Mathlib.Decide.{ℕ_discrete}
use piggy_os.Common.{
  ℕ, ◌<◌, ◌≡◌, ◌≢◌, refl, sym, ap, ◌∙◌, true, none, some, List, [], All, All-set, All-get_or,
  length, length-set, get_or, set, get_or-set_self, get_or-set_ne, arith, ne→==,
}
use piggy_os.Utils.Str.{strlen}
use piggy_os.Utils.Str.Prefix.{IsString, is_prefix}
use piggy_os.Utils.Hashmap.{Hashmap, bucket, set_chain, get_chain, hashmap_set, hashmap_get}
use piggy_os.Utils.Hashmap.Chain.{
  IsChain, Apart, set_chain-IsChain, get_chain-set_self, get_chain-set_other, get_chain-set_longer,
}

pub record IsValid (m : Hashmap) : Type 0 where
  pub some_buckets : 0 < m.size
  pub sized : length m.entries ≡ m.size
  pub strings : All IsChain m.entries

-- The map after a write.
abbrev pub written : Hashmap → List ℕ → ℕ → Hashmap
written m key value = record m {
  entries =
      set m.entries (bucket m key)
        (set_chain key (strlen key) value (get_or m.entries (bucket m key) []));
}

module _ (m : Hashmap) (v : IsValid m) (key : List ℕ) (h : IsString key) (value : ℕ) where
  in_range : bucket m key < length m.entries
  in_range = omega (arith, v.some_buckets, v.sized)

  bucket-IsChain : (other : List ℕ) → IsChain (get_or m.entries (bucket m other) [])
  bucket-IsChain other = All-get_or IsChain m.entries (bucket m other) [] tt v.strings

  set-written : hashmap_set m key (strlen key) value ≡ some (written m key value)
  unfolding hashmap_set
  set-written = rw (ne→== m.size 0 (omega (arith, v.some_buckets)))

  written-IsValid : IsValid (written m key value)
  written-IsValid = record {
    some_buckets = v.some_buckets;
    sized = length-set m.entries (bucket m key) _ ∙ v.sized;
    strings =
        All-set IsChain m.entries (bucket m key) _
          (set_chain-IsChain key value _ h (bucket-IsChain key)) v.strings;
  }

  get_written :
      (other : List ℕ)
      → hashmap_get (written m key value) other (strlen other)
        ≡ some (
            get_chain other
              (strlen other)
              (get_or (written m key value).entries (bucket m other) []))
  unfolding hashmap_get
  get_written other = rw (ne→== m.size 0 (omega (arith, v.some_buckets)))

  get_before :
      (other : List ℕ)
      → hashmap_get m other (strlen other)
        ≡ some (get_chain other (strlen other) (get_or m.entries (bucket m other) []))
  unfolding hashmap_get
  get_before other = rw (ne→== m.size 0 (omega (arith, v.some_buckets)))

  same_bucket :
      (other : List ℕ)
      → bucket m key ≡ bucket m other
      → get_or (written m key value).entries (bucket m other) []
        ≡ set_chain key (strlen key) value (get_or m.entries (bucket m other) [])
  same_bucket other e = rw (← e) (get_or-set_self m.entries (bucket m key) _ [] in_range)

  other_bucket :
      (other : List ℕ)
      → bucket m key ≢ bucket m other
      → get_or (written m key value).entries (bucket m other) []
        ≡ get_or m.entries (bucket m other) []
  other_bucket other n = get_or-set_ne m.entries (bucket m key) (bucket m other) _ [] n

-- In a well-formed map, setting a string as a key succeeds and keeps the invariant. The key then reads as its new value, and a key
-- that is no prefix of it and has it as no prefix reads as before.
pub hashmap_get-set :
    (m : Hashmap) (key : List ℕ) (value : ℕ)
    → IsValid m
    → IsString key
    → (t : Hashmap) × (hashmap_set m key (strlen key) value ≡ some t)
      × IsValid t
      × (hashmap_get t key (strlen key) ≡ some (some value))
      × ((other : List ℕ)
          → IsString other
          → Apart key other
          → hashmap_get t other (strlen other) ≡ hashmap_get m other (strlen other))
hashmap_get-set m key value v h = (
  written m key value,
  set-written m v key h value,
  written-IsValid m v key h value,
  get_written m v key h value key
      ∙ ap some (
          ap (get_chain key (strlen key)) (same_bucket m v key h value key refl)
          ∙ get_chain-set_self key value _ h),
  λ other g a.
      get_written m v key h value other
      ∙ ap some (elim (ℕ_discrete (bucket m key) (bucket m other)) [
        | no n ↦ ap (get_chain other (strlen other)) (other_bucket m v key h value other n)
        | yes e ↦
            ap (get_chain other (strlen other)) (same_bucket m v key h value other e)
            ∙ get_chain-set_other key other value _ h g (bucket-IsChain m v key h value other) a
      ])
      ∙ sym (get_before m v key h value other),
)

-- In a well-formed map, keys are compared over the length of the one that is looked up: a value that is set under a
-- longer key is returned for every prefix of it that was absent and falls in the same bucket.
pub hashmap_get-prefix :
    (m : Hashmap) (key longer : List ℕ) (value : ℕ)
    → IsValid m
    → IsString key
    → IsString longer
    → is_prefix key longer ≡ true
    → bucket m longer ≡ bucket m key
    → hashmap_get m key (strlen key) ≡ some none
    → (t : Hashmap) × (hashmap_set m longer (strlen longer) value ≡ some t)
      × (hashmap_get t key (strlen key) ≡ some (some value))
hashmap_get-prefix m key longer value v h g p e absent =
    let none_before = sym (get_before m v longer g value key) ∙ absent in
    (
      written m longer value,
      set-written m v longer g value,
      get_written m v longer g value key
          ∙ ap some (
              ap (get_chain key (strlen key)) (same_bucket m v longer g value key e)
              ∙ get_chain-set_longer key longer value _ h g (bucket-IsChain m v longer g value key)
                  p (cc none_before)),
    )
