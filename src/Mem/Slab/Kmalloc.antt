-- ===== src/Mem/Slab/Kmalloc.antt =====
-- kmalloc and kfree over the caches.
use piggy_os.Common.{
  ℕ, ◌+◌, ◌-◌, ◌*◌, ◌%◌, ◌<◌, ◌≤◌, ◌≡◌, ◌≢◌, refl, ap, ◌∙◌, true, false, Option, none, some, List,
  [], ◌∷◌, ◌++◌, ◌==◌, All, inl, inr, arith, lt→leb, le→leb, ne→==,
}
use piggy_os.Mem.Slab.{Cache, Bytes, page_size, new_slab, cache_alloc_object, cache_free_object}
use piggy_os.Mem.Slab.Owner.{Apart}
use piggy_os.Mem.Slab.Alloc.{IsValid, in_use, Gives}
use piggy_os.Mem.Slab.Take.{cache_alloc_object_lem}
use piggy_os.Mem.Slab.Release.{Frees, cache_free_object_lem}
use piggy_os.Mem.Slab.Heap.{
  KernelHeap, past_cache, in_cache, alloc_fitting, in_heap, kmalloc, free_fitting, kfree,
}

-- The loop passes the caches of smaller objects.
alloc_fitting-first :
    (high_vma page size : ℕ) (mem mem' : Bytes) (before after : List Cache) (c c' : Cache)
    (object : Option ℕ)
    → All (λ (b : Cache). b.object_size < size) before
    → size ≤ c.object_size
    → cache_alloc_object high_vma page mem c ≡ some (object, c', mem')
    → alloc_fitting high_vma page mem size (before ++ c ∷ after)
      ≡ some (some (object, before ++ c' ∷ after, mem'))
unfolding alloc_fitting
alloc_fitting-first high_vma page size mem mem' [] after c c' object small fits e =
    rw (le→leb size c.object_size fits) (ap (in_cache after) e)
alloc_fitting-first high_vma page size mem mem' (b ∷ before) after c c' object (l, small) fits e =
    rw (lt→leb b.object_size size l) (
      ap (past_cache b)
        (alloc_fitting-first high_vma page size mem mem' before after c c' object small fits e))

-- kmalloc of at least one byte takes an object of the first cache whose objects are large enough, where
-- that cache is well-formed and the room for a new slab is apart from its full slabs. The object was free
-- and is zeroed and in use; every other address of the cache is in use or not as before, and every other
-- byte is kept but for the pages of a new slab where one is needed. The cache stays well-formed, and the
-- other caches and the headers stay.
pub kmalloc_lem :
    (page ret size : ℕ) (h : KernelHeap) (before after : List Cache) (c : Cache)
    → h.kmalloc_caches ≡ before ++ c ∷ after
    → All (λ (b : Cache). b.object_size < size) before
    → 0 < size
    → size ≤ c.object_size
    → IsValid c
    → All (Apart c.object_size (new_slab h.high_vma page)) c.full_slabs
    → (p : ℕ) × (c' : Cache) × (mem' : Bytes) × (kmalloc page ret size h
        ≡ some (some p, record h { kmalloc_caches = before ++ c' ∷ after; memory = mem' }))
      × Gives h.high_vma page h.memory c p c' mem'
unfolding kmalloc
kmalloc_lem page ret size h before after c e small pos fits v apart =
    let (p, c', mem', q, g) = cache_alloc_object_lem h.high_vma page h.memory c v apart in
    let found =
      ap (alloc_fitting h.high_vma page h.memory size) e
      ∙ alloc_fitting-first h.high_vma page size h.memory mem' before after c c' (some p) small fits
          q in
    (p, c', mem', rw (ne→== size 0 (λ z. absurd (omega arith))) (ap (in_heap ret size h) found), g)

-- The loop of kfree passes the caches that do not have the address in use.
free_fitting-first :
    (ptr : ℕ) (before after : List Cache) (c c' : Cache)
    → All (λ (b : Cache). cache_free_object ptr b ≡ none) before
    → cache_free_object ptr c ≡ some c'
    → free_fitting ptr (before ++ c ∷ after) ≡ before ++ c' ∷ after
unfolding free_fitting
free_fitting-first ptr [] after c c' none_has e = rw (e, free_fitting) refl
free_fitting-first ptr (b ∷ before) after c c' (n, none_has) e =
    let next = free_fitting-first ptr before after c c' none_has e in
    rw (n, free_fitting) (ap (λ x. b ∷ x) next)

refuses : (o : ℕ) (c : Cache) → IsValid c → in_use c o ≡ false → cache_free_object o c ≡ none
refuses o c v e = elim (cache_free_object_lem o c v) [
  | inl (_, r) ↦ r
  | inr (used, _, _, _, _) ↦ absurd (cc (e, used))
]

refuse_all :
    (o : ℕ) (x : List Cache)
    → All (λ c. IsValid c × (in_use c o ≡ false)) x
    → All (λ (c : Cache). cache_free_object o c ≡ none) x
refuse_all o [] h = tt
refuse_all o (c ∷ x) ((v, e), h) = (refuses o c v e, refuse_all o x h)

kfree-objects :
    (ptr : ℕ) (h : KernelHeap)
    → ptr % page_size ≢ 0
    → kfree ptr h ≡ (none, record h { kmalloc_caches = free_fitting ptr h.kmalloc_caches })
unfolding kfree
kfree-objects ptr h n =
    let some_address : ptr ≢ 0 = λ e. n (ground arith) in
    rw (ne→== ptr 0 some_address, ne→== (ptr % page_size) 0 n) refl

-- kfree of an address off the start of a page that an object of one cache has in use, and no cache
-- before it, frees that object: its addresses were in use and are not any more, nothing else of the
-- cache changes, and the other caches stay. The cache and the ones before it are well-formed.
pub kfree_lem :
    (ptr : ℕ) (h : KernelHeap) (before after : List Cache) (c : Cache)
    → h.kmalloc_caches ≡ before ++ c ∷ after
    → All (λ b. IsValid b × (in_use b ptr ≡ false)) before
    → IsValid c
    → in_use c ptr ≡ true
    → ptr % page_size ≢ 0
    → (p : ℕ) × (c' : Cache) × (kfree ptr h
        ≡ (none, record h { kmalloc_caches = before ++ c' ∷ after }))
      × Frees c ptr p c'
kfree_lem ptr h before after c e others v used off = elim (cache_free_object_lem ptr c v) [
  | inl (unused, _) ↦ absurd (cc (used, unused))
  | inr (used', p, c', q, f) ↦
      let freed : free_fitting ptr h.kmalloc_caches ≡ before ++ c' ∷ after =
        ap (free_fitting ptr) e
        ∙ free_fitting-first ptr before after c c' (refuse_all ptr before others) q in
      (p, c', kfree-objects ptr h off ∙ ap (λ x. (none, record h { kmalloc_caches = x })) freed, f)
]

kfree-pages :
    (ptr : ℕ) (h : KernelHeap)
    → ptr ≢ 0
    → ptr % page_size ≡ 0
    → kfree ptr h ≡ (some (ptr - h.high_vma, (h.header (ptr - page_size)).page_count + 1), h)
unfolding kfree
kfree-pages ptr h n e =
    let aligned : (ptr % page_size == 0) ≡ true = ground (arith, e) in
    rw (ne→== ptr 0 n, aligned) refl

-- The object 220 of a slab of objects of 16 bytes, in pages at an address that is divided by the
-- size of a page, starts a page. kfree of it frees pages: it changes no cache, and calls pmm_free
-- with the address less `high_vma` and one page more than whatever stands where a header would be.
pub kfree-new_slab :
    (page : ℕ) (h : KernelHeap)
    → page % page_size ≡ 0
    → h.high_vma % page_size ≡ 0
    → let ptr = (new_slab h.high_vma page).buffer + 220 * 16 in
      (ptr ≡ page + h.high_vma + page_size)
      × (kfree ptr h ≡ (some (page + page_size, (h.header (page + h.high_vma)).page_count + 1), h))
unfolding new_slab
kfree-new_slab page h e e' =
    let ptr = (new_slab h.high_vma page).buffer + 220 * 16 in
    let at : ptr ≡ page + h.high_vma + page_size = omega arith in
    let start : ptr - h.high_vma ≡ page + page_size = omega arith in
    let header : ptr - page_size ≡ page + h.high_vma = omega arith in
    (
      at,
      kfree-pages ptr h (λ z. absurd (omega arith)) (omega arith)
          ∙ ap (λ n. (some (n, (h.header (ptr - page_size)).page_count + 1), h)) start
          ∙ ap (λ n. (some (page + page_size, (h.header n).page_count + 1), h)) header,
    )
