-- ===== src/Mem/Slab/Tests.antt =====
-- A cache with an object in use, and a heap of two caches.
use piggy_os.Common.{
  ℕ, ◌+◌, ◌*◌, ◌≡◌, ◌⊎◌, refl, true, false, none, some, [], ◌∷◌, ◌++◌, replicate, All-replicate,
  arith,
}
use piggy_os.Utils.Bitmap.{bitmap_test}
use piggy_os.Utils.Bitmap.Bits.{IsByte}
use piggy_os.Mem.Slab.{
  Slab, Cache, Bytes, page_size, new_slab, cache_alloc_object, cache_free_object,
}
use piggy_os.Mem.Slab.Object.{clear_count}
use piggy_os.Mem.Slab.Owner.{Good, uses, used_in}
use piggy_os.Mem.Slab.Alloc.{IsValid, in_use, Gives}
use piggy_os.Mem.Slab.Take.{cache_alloc_object_lem}
use piggy_os.Mem.Slab.Release.{Frees, cache_free_object_lem}
use piggy_os.Mem.Slab.Heap.{KernelHeap, kmalloc, kfree, stays, any_spans, krealloc}
use piggy_os.Mem.Slab.Kmalloc.{kmalloc_lem, kfree-new_slab}

abbrev one_used : Slab
one_used = record {
  available_objects = 511;
  total_objects = 512;
  bitmap = 1 ∷ replicate 63 0;
  buffer = 0x10240;
}

-- Objects of 16 bytes, of which the one at 0x10240 is in use
abbrev sample : Cache
sample = record {
  object_size = 16;
  pages_per_slab = 3;
  empty_slabs = [];
  partial_slabs = one_used ∷ [];
  full_slabs = [];
}

abbrev smaller : Cache
smaller = record {
  object_size = 8;
  pages_per_slab = 2;
  empty_slabs = [];
  partial_slabs = [];
  full_slabs = [];
}

abbrev heap : KernelHeap
heap = record {
  high_vma = 0x10000;
  kmalloc_caches = smaller ∷ sample ∷ [];
  header = λ address. record { magic = 0; page_count = 7; size = 0 };
  memory = λ address. 5;
}

one_used-Good : Good one_used
unfolding clear_count bitmap_test
one_used-Good = record {
  total = refl;
  wide = omega arith;
  bytes = (omega arith, All-replicate IsByte 63 0 (omega arith));
  counted = refl;
}

sample-IsValid : IsValid sample
sample-IsValid = record {
  some_size = omega arith;
  none_empty = refl;
  partial = ((one_used-Good, omega arith), tt);
  full = tt;
  partial_apart = (tt, tt);
  full_apart = tt;
  between = (tt, tt);
}

smaller-IsValid : IsValid smaller
smaller-IsValid = record {
  some_size = omega arith;
  none_empty = refl;
  partial = tt;
  full = tt;
  partial_apart = tt;
  full_apart = tt;
  between = tt;
}

sample_used : in_use sample 0x10244 ≡ true
unfolding in_use used_in uses bitmap_test
sample_used = refl

smaller_unused : in_use smaller 0x10244 ≡ false
unfolding in_use used_in
smaller_unused = refl

-- An object that is large enough stays where it is.
keeps_object : krealloc 0 0 0x10244 16 heap ≡ some (some 0x10244, none, heap)
unfolding krealloc stays any_spans
keeps_object = refl

cache_alloc_object_lem_example :
    (p : ℕ) × (c' : Cache) × (mem' : Bytes) × (cache_alloc_object 0x10000 0x8000 heap.memory sample
      ≡ some (some p, c', mem'))
    × Gives 0x10000 0x8000 heap.memory sample p c' mem'
cache_alloc_object_lem_example =
    cache_alloc_object_lem 0x10000 0x8000 heap.memory sample sample-IsValid tt

cache_free_object_lem_example :
    (in_use sample 0x10244 ≡ false) × (cache_free_object 0x10244 sample ≡ none)
    ⊎ (in_use sample 0x10244 ≡ true)
      × (p : ℕ) × (c' : Cache) × (cache_free_object 0x10244 sample ≡ some c')
      × Frees sample 0x10244 p c'
cache_free_object_lem_example = cache_free_object_lem 0x10244 sample sample-IsValid

kmalloc_lem_example :
    (p : ℕ) × (c' : Cache) × (mem' : Bytes) × (kmalloc 0x8000 0 12 heap
      ≡ some (some p, record heap { kmalloc_caches = (smaller ∷ []) ++ c' ∷ []; memory = mem' }))
    × Gives 0x10000 0x8000 heap.memory sample p c' mem'
kmalloc_lem_example =
    kmalloc_lem 0x8000 0 12 heap (smaller ∷ []) [] sample refl (omega arith, tt) (omega arith)
      (omega arith) sample-IsValid tt

kfree-new_slab_example :
    ((new_slab 0x10000 0x8000).buffer + 220 * 16 ≡ 0x8000 + 0x10000 + page_size)
    × (kfree ((new_slab 0x10000 0x8000).buffer + 220 * 16) heap
        ≡ (some (0x8000 + page_size, 7 + 1), heap))
kfree-new_slab_example = kfree-new_slab 0x8000 heap refl refl
