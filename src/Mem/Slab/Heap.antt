-- ===== src/Mem/Slab/Heap.antt =====
-- kernel/src/mem/slab.c: kmalloc, kfree and krealloc over the caches, and pages for what is larger.
-- The pages that the page allocator gives are arguments, and a call of pmm_free is a result.
use piggy_os.Common.{
  ℕ, ◌+◌, ◌-◌, ◌*◌, ◌%◌, Bool, false, ◌&&◌, ◌||◌, Option, none, some, List, [], ◌∷◌, ltb, leb, ◌==◌,
  if◌then◌else◌, min, update,
}
use piggy_os.Utils.Bitmap.{div_ceil}
use piggy_os.Utils.Move.{move}
use piggy_os.Mem.Slab.{
  Slab, Cache, Bytes, AllocResult, page_size, slab_header, objects_per_slab, cache_alloc_object,
  cache_free_object,
}

abbrev pub big_alloc_header_magic : ℕ
big_alloc_header_magic = 0xfafeceedabcdeffe

-- `struct big_alloc_header`
pub record BigAllocHeader : Type 0 where
  pub magic : ℕ
  pub page_count : ℕ
  pub size : ℕ

-- The caches, the headers by their addresses, and the bytes of the objects
pub record KernelHeap : Type 0 where
  pub high_vma : ℕ
  pub kmalloc_caches : List Cache
  pub header : ℕ → BigAllocHeader
  pub memory : Bytes

-- The cache that `slab_cache_create` sets up for objects of a size; its name and the list of all
-- caches are left out.
unfoldable pub slab_cache_create : ℕ → Cache
slab_cache_create object_size = record {
  object_size = object_size;
  pages_per_slab =
      div_ceil (object_size * objects_per_slab + slab_header + objects_per_slab) page_size;
  empty_slabs = [];
  partial_slabs = [];
  full_slabs = [];
}

abbrev pub created : List ℕ → List Cache
created [] = []
created (size ∷ sizes) = slab_cache_create size ∷ created sizes

-- `kmalloc_caches` after `slab_init`
unfoldable pub slab_init : List Cache
slab_init = created (16 ∷ 24 ∷ 32 ∷ 48 ∷ 64 ∷ 92 ∷ 128 ∷ 256 ∷ 512 ∷ 1024 ∷ 2048 ∷ [])

-- What the loop of `kmalloc` comes to: the end of the caches, or an allocation in one of them.
abbrev pub Caches : Type 0
Caches = Option ℕ × List Cache × Bytes

abbrev pub past_cache : Cache → Option (Option Caches) → Option (Option Caches)
past_cache c none = none
past_cache c (some none) = some none
past_cache c (some (some (object, caches, mem))) = some (some (object, c ∷ caches, mem))

abbrev pub in_cache : List Cache → Option AllocResult → Option (Option Caches)
in_cache caches none = none
in_cache caches (some (object, c, mem)) = some (some (object, c ∷ caches, mem))

unfoldable pub alloc_fitting : ℕ → ℕ → Bytes → ℕ → List Cache → Option (Option Caches)
alloc_fitting high_vma page mem size [] = some none
alloc_fitting high_vma page mem size (c ∷ caches) =
    let next = past_cache c (alloc_fitting high_vma page mem size caches) in
    if leb size c.object_size
    then in_cache caches (cache_alloc_object high_vma page mem c)
    else next

-- The end of `kmalloc`, with `ret` from `pmm_alloc`
unfoldable pub alloc_pages : ℕ → ℕ → KernelHeap → Option ℕ × KernelHeap
alloc_pages ret size h =
    let address = ret + h.high_vma in
    let page_count = div_ceil size page_size in
    if ret == 0 then (none, h) else (
      some (address + page_size),
      record h {
        header =
            update h.header address
              (record { magic = big_alloc_header_magic; page_count = page_count; size = size });
      },
    )

abbrev pub in_heap : ℕ → ℕ → KernelHeap → Option (Option Caches) → Option (Option ℕ × KernelHeap)
in_heap ret size h none = none
in_heap ret size h (some none) = some (alloc_pages ret size h)
in_heap ret size h (some (some (object, caches, mem))) =
    some (object, record h { kmalloc_caches = caches; memory = mem })

-- `kmalloc`; the inner `none` is NULL, and `page` is where a new slab comes to lie.
unfoldable pub kmalloc : ℕ → ℕ → ℕ → KernelHeap → Option (Option ℕ × KernelHeap)
kmalloc page ret size h =
    let result =
      in_heap ret size h (alloc_fitting h.high_vma page h.memory size h.kmalloc_caches) in
    if size == 0 then some (none, h) else result

-- The loop of `kfree` over the caches
unfoldable pub free_fitting : ℕ → List Cache → List Cache
free_fitting ptr [] = []
free_fitting ptr (c ∷ caches) = elim (cache_free_object ptr c) [
  | some c' ↦ c' ∷ caches
  | none ↦ c ∷ free_fitting ptr caches
]

-- `kfree` of an address, 0 for NULL, and the arguments of its call of `pmm_free`, if any. `ptr &
-- 0xfff` is the remainder by the size of a page.
unfoldable pub kfree : ℕ → KernelHeap → Option (ℕ × ℕ) × KernelHeap
kfree ptr h =
    if ptr == 0
    then (none, h)
    else if ptr % page_size == 0
    then (some (ptr - h.high_vma, (h.header (ptr - page_size)).page_count + 1), h)
    else (none, record h { kmalloc_caches = free_fitting ptr h.kmalloc_caches })

-- Whether a slab has an address among its objects
abbrev pub spans : ℕ → ℕ → Slab → Bool
spans size ptr s = leb s.buffer ptr && ltb ptr (s.buffer + size * s.total_objects)

unfoldable pub any_spans : ℕ → ℕ → List Slab → Bool
any_spans size ptr [] = false
any_spans size ptr (s ∷ x) = spans size ptr s || any_spans size ptr x

-- The loop of `krealloc` over the caches
unfoldable pub stays : ℕ → ℕ → List Cache → Bool
stays ptr size [] = false
stays ptr size (c ∷ caches) =
    (any_spans c.object_size ptr c.partial_slabs || any_spans c.object_size ptr c.full_slabs)
      && leb size c.object_size
    || stays ptr size caches

abbrev pub Reallocated : Type 0
Reallocated = Option ℕ × Option (ℕ × ℕ) × KernelHeap

-- The end of `krealloc` for pages, with what `kmalloc` returned
unfoldable pub copy_pages : ℕ → ℕ → Option ℕ × KernelHeap → Reallocated
copy_pages ptr size (none, h) = (none, none, h)
copy_pages ptr size (some new_ptr, h) =
    let old = (h.header (ptr - page_size)).size in
    let moved : KernelHeap = record h { memory = move (min old size) new_ptr ptr h.memory } in
    let (pages, h') = kfree ptr moved in (some new_ptr, pages, h')

-- The end of `krealloc` for objects
unfoldable pub copy_object : ℕ → ℕ → Option ℕ × KernelHeap → Reallocated
copy_object ptr size (none, h) = let (pages, h') = kfree ptr h in (none, pages, h')
copy_object ptr size (some new_ptr, h) =
    let moved : KernelHeap = record h { memory = move size new_ptr ptr h.memory } in
    let (pages, h') = kfree ptr moved in (some new_ptr, pages, h')

abbrev pub with_new :
    (Option ℕ × KernelHeap → Reallocated) → Option (Option ℕ × KernelHeap) → Option Reallocated
with_new next none = none
with_new next (some x) = some (next x)

-- `krealloc`
unfoldable pub krealloc : ℕ → ℕ → ℕ → ℕ → KernelHeap → Option Reallocated
krealloc page ret ptr size h =
    let new = kmalloc page ret size h in
    let at = ptr - page_size in
    let header = h.header at in
    if ptr == 0
    then with_new (λ x. (x.0, none, x.1)) new
    else if ptr % page_size == 0
    then if div_ceil header.size page_size == div_ceil size page_size
      then some
          (some ptr, none, record h { header = update h.header at (record header { size = size }) })
      else with_new (copy_pages ptr size) new
    else if stays ptr size h.kmalloc_caches
    then some (some ptr, none, h)
    else with_new (copy_object ptr size) new
