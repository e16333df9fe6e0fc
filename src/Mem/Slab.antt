-- ===== src/Mem/Slab.antt =====
-- kernel/src/mem/slab.c: objects of one size in slabs, and kmalloc over eleven caches. A list of
-- slabs is the list of what its links reach, the pages that the page allocator gives are arguments,
-- and the memory is a function from addresses to bytes. `none` is outside the model: a slab that is
-- unlinked from a list that it is not in.
pub mod Object
pub mod Owner
pub mod Alloc
pub mod Take
pub mod Free
pub mod Release
pub mod Heap
pub mod Kmalloc
mod Tests
use piggy_os.Common.{
  ℕ, zero, suc, ◌+◌, ◌-◌, ◌*◌, ◌/◌, ◌%◌, Bool, true, false, ◌&&◌, Option, none, some, List, [], ◌∷◌,
  replicate, ltb, leb, ◌==◌, if◌then◌else◌, update,
}
use piggy_os.Utils.Bitmap.{div_ceil, align_up, bitmap_test, bitmap_set, bitmap_clear}

abbrev pub objects_per_slab : ℕ
objects_per_slab = 512

-- `sizeof(struct slab)`
abbrev pub slab_header : ℕ
slab_header = 56

abbrev pub page_size : ℕ
page_size = 0x1000

-- `struct slab` without its links; the size of its objects is that of its cache.
pub record Slab : Type 0 where
  pub available_objects : ℕ
  pub total_objects : ℕ
  pub bitmap : List ℕ
  pub buffer : ℕ

-- `struct cache`
pub record Cache : Type 0 where
  pub object_size : ℕ
  pub pages_per_slab : ℕ
  pub empty_slabs : List Slab
  pub partial_slabs : List Slab
  pub full_slabs : List Slab

-- The bytes of memory by their addresses, but for the headers of the slabs with their bitmaps, which are
-- the records.
abbrev pub Bytes : Type 0
Bytes = ℕ → ℕ

-- `memset`
unfoldable pub memset : Bytes → ℕ → ℕ → ℕ → Bytes
memset mem p c zero = mem
memset mem p c (suc n) = memset (update mem p c) (p + 1) c n

-- The slab that `cache_alloc_slab` builds in zeroed pages at the physical address `page`
unfoldable pub new_slab : ℕ → ℕ → Slab
new_slab high_vma page = record {
  available_objects = objects_per_slab;
  total_objects = objects_per_slab;
  bitmap = replicate objects_per_slab 0;
  buffer = align_up (page + slab_header + objects_per_slab) 16 + high_vma;
}

-- `cache_alloc_slab`, with the zeroing of the pages by `pmm_allocz`
unfoldable pub cache_alloc_slab : ℕ → ℕ → Bytes → Cache → Cache × Bytes
cache_alloc_slab high_vma page mem c = (
  record c { empty_slabs = new_slab high_vma page ∷ c.empty_slabs },
  memset mem (page + high_vma) 0 (c.pages_per_slab * page_size),
)

abbrev pub in_front_of : Slab → Option (List Slab) → Option (List Slab)
in_front_of s none = none
in_front_of s (some x) = some (s ∷ x)

-- A list without one of its slabs
unfoldable pub without : Slab → List Slab → Option (List Slab)
without s [] = none
without s (t ∷ x) =
    let rest = in_front_of t (without s x) in if t.buffer == s.buffer then some x else rest

abbrev pub Moved : Type 0
Moved = List Slab × List Slab

-- `cache_move_slab`: the lists `dest` and `src` behind it; from an empty list nothing is moved.
unfoldable pub cache_move_slab : List Slab → List Slab → Slab → Option Moved
cache_move_slab dest [] s = some (dest, [])
cache_move_slab dest (t ∷ src) s = elim (without s (t ∷ src)) [
  | none ↦ none
  | some rest ↦ some (s ∷ dest, rest)
]

-- The loop of `slab_alloc_object` from the index `i` on
unfoldable pub first_clear : ℕ → ℕ → List ℕ → Option ℕ
first_clear zero i bitmap = none
first_clear (suc n) i bitmap =
    let next = first_clear n (i + 1) bitmap in if bitmap_test bitmap i then next else some i

-- `slab_alloc_object`; the result is the address of the object, or `none` for NULL.
unfoldable pub slab_alloc_object : ℕ → Bytes → Slab → Option (ℕ × Slab × Bytes)
slab_alloc_object object_size mem s = elim (first_clear s.total_objects 0 s.bitmap) [
  | none ↦ none
  | some i ↦
      let object = s.buffer + i * object_size in
      some (
        object,
        record s { bitmap = bitmap_set s.bitmap i; available_objects = s.available_objects - 1 },
        memset mem object 0 object_size,
      )
]

-- `slab_free_object` on a list of slabs; `none` is that no slab has the object in use.
unfoldable pub slab_free_object : ℕ → ℕ → List Slab → Option (List Slab)
slab_free_object object_size object [] = none
slab_free_object object_size object (s ∷ x) =
    let index = (object - s.buffer) / object_size in
    let freed = record s {
      bitmap = bitmap_clear s.bitmap index;
      available_objects = s.available_objects + 1;
    } in
    let rest = in_front_of s (slab_free_object object_size object x) in
    if leb s.buffer object
      && ltb object (s.buffer + object_size * s.total_objects)
      && bitmap_test s.bitmap index
    then some (freed ∷ x)
    else rest

-- The moves at the end of `cache_alloc_object`, of the slab `s` that an object has been taken from
unfoldable pub settle : Cache → Slab → Option Cache
settle c s =
    let fills : Option Cache = elim (cache_move_slab c.full_slabs c.partial_slabs s) [
      | none ↦ none
      | some (dest, src) ↦ some (record c { full_slabs = dest; partial_slabs = src })
    ] in
    let begins : Option Cache = elim (cache_move_slab c.partial_slabs c.empty_slabs s) [
      | none ↦ none
      | some (dest, src) ↦ some (record c { partial_slabs = dest; empty_slabs = src })
    ] in
    if s.available_objects == 0
    then fills
    else if s.available_objects == s.total_objects - 1
    then begins
    else some c

abbrev pub AllocResult : Type 0
AllocResult = Option ℕ × Cache × Bytes

abbrev pub settled : ℕ → Bytes → Option Cache → Option AllocResult
settled object mem none = none
settled object mem (some c) = some (some object, c, mem)

-- The allocation from a slab, which `put` puts back into its list; without an object the slab
-- stays.
unfoldable pub alloc_from : Bytes → Cache → (Slab → Cache) → Slab → Option AllocResult
alloc_from mem c put s = elim (slab_alloc_object c.object_size mem s) [
  | none ↦ elim (settle c s) [ none ↦ none | some c' ↦ some (none, c', mem) ]
  | some (object, s', mem') ↦ settled object mem' (settle (put s') s')
]

abbrev pub no_slabs : List Slab → Bool
no_slabs [] = true
no_slabs (s ∷ x) = false

-- `cache_alloc_object`; `page` is where a new slab comes to lie if one is needed.
unfoldable pub alloc_in : Bytes → Cache → List Slab → List Slab → Option AllocResult
alloc_in mem c (s ∷ partial) empty =
    alloc_from mem c (λ s'. record c { partial_slabs = s' ∷ partial }) s
alloc_in mem c [] (s ∷ empty) = alloc_from mem c (λ s'. record c { empty_slabs = s' ∷ empty }) s
alloc_in mem c [] [] = none

unfoldable pub cache_alloc_object : ℕ → ℕ → Bytes → Cache → Option AllocResult
cache_alloc_object high_vma page mem c =
    let grown = cache_alloc_slab high_vma page mem c in
    let (c1, mem1) =
      if no_slabs c.partial_slabs && no_slabs c.empty_slabs then grown else (c, mem) in
    alloc_in mem1 c1 c1.partial_slabs c1.empty_slabs

-- `cache_free_object`; `none` is that no slab has the object in use.
unfoldable pub cache_free_object : ℕ → Cache → Option Cache
cache_free_object object c = elim (slab_free_object c.object_size object c.partial_slabs) [
  | some x ↦ some (record c { partial_slabs = x })
  | none ↦ elim (slab_free_object c.object_size object c.full_slabs) [
    | some x ↦ some (record c { full_slabs = x })
    | none ↦ none
  ]
]
