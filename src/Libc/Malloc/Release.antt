-- ===== src/Libc/Malloc/Release.antt =====
-- What `free` does to the list and to the break.
use piggy_os.Common.{
  ℕ, ◌+◌, ◌*◌, ◌^◌, ◌<◌, ◌≡◌, ◌≢◌, inl, inr, refl, sym, ap, ◌∙◌, Bool, true, none, some, List, [],
  ◌∷◌, ◌++◌, arith, ne→==, ==_refl, add64, sub64,
}
use piggy_os.Libc.Malloc.{
  Chunk, Heap, header_size, data_ptr, get_free_chunk, mark, malloc, chunk_of, drop_last, free_chunk,
  free,
}
use piggy_os.Libc.Malloc.Inv.{
  Ordered, IsValid, Ordered-mark, In, In-last, In-bounds, In-mark_other, In-mark_self,
}
use piggy_os.Libc.Malloc.Keeps.{top, grown, grow-grown, grown-Block}

pub chunk_of-In :
    (cs : List Chunk) (lo hi : ℕ) (c : Chunk)
    → Ordered lo cs hi
    → In c cs
    → chunk_of (data_ptr c) cs ≡ some c
unfolding chunk_of
chunk_of-In [] lo hi c o i = absurd i
chunk_of-In (d ∷ cs) lo hi c o (inl e) = rw (sym e) (rw (==_refl (data_ptr c)) refl)
chunk_of-In (d ∷ cs) lo hi c o (inr i) =
    let b = In-bounds cs (d.addr + header_size + d.size) hi c o.1 i in
    let n : data_ptr d ≢ data_ptr c = omega arith in
    rw (ne→== (data_ptr d) (data_ptr c) n) (chunk_of-In cs _ hi c o.1 i)

drop_last-append : (cs : List Chunk) (c : Chunk) → drop_last (cs ++ (c ∷ [])) ≡ cs
unfolding drop_last
drop_last-append [] c = refl
drop_last-append (d ∷ []) c = refl
drop_last-append (d ∷ e ∷ cs) c = ap (d ∷◌) (drop_last-append (e ∷ cs) c)

free-chunk_of :
    (sbrk_ok : Bool) (h : Heap) (c : Chunk)
    → IsValid h
    → In c h.chunks
    → free (data_ptr c) sbrk_ok h ≡ some (free_chunk c sbrk_ok h)
unfolding free
free-chunk_of ok h c v i = rw (chunk_of-In h.chunks 0 h.brk c v.ordered i, free) refl

free_chunk-inner :
    (sbrk_ok : Bool) (h : Heap) (c : Chunk)
    → data_ptr c + c.size < h.brk
    → free_chunk c sbrk_ok h ≡ record h { chunks = mark c.addr true h.chunks }
unfolding free_chunk
free_chunk-inner ok h c below = rw (ne→== (data_ptr c + c.size) h.brk (omega arith))

-- In a well-formed heap, free of a chunk that ends below the break keeps the break, every chunk at another address and the
-- invariant, and marks the chunk as free.
pub free_lem :
    (sbrk_ok : Bool) (h : Heap) (c : Chunk)
    → IsValid h
    → In c h.chunks
    → data_ptr c + c.size < h.brk
    → (t : Heap) × (free (data_ptr c) sbrk_ok h ≡ some t)
      × IsValid t
      × (t.brk ≡ h.brk)
      × In (record c { is_free = true }) t.chunks
      × ((d : Chunk) → In d h.chunks → d.addr ≢ c.addr → In d t.chunks)
free_lem ok h c v i below = (
  record h { chunks = mark c.addr true h.chunks },
  free-chunk_of ok h c v i ∙ ap some (free_chunk-inner ok h c below),
  record { ordered = Ordered-mark h.chunks 0 h.brk c.addr true v.ordered; small = v.small },
  refl,
  In-mark_self h.chunks true c i,
  λ d j n. In-mark_other h.chunks c.addr true d n j,
)

malloc-grows :
    (size : ℕ) (h : Heap) (v : IsValid h)
    → 0 < size
    → h.brk + header_size + size < 2 ^ 62
    → get_free_chunk size h.chunks ≡ none
    → malloc size true h ≡ (some (data_ptr (top size h v)), grown size h v)
unfolding malloc
malloc-grows size h v pos room none_fits =
    rw (ne→== size 0 (omega arith)) (rw none_fits (grow-grown size h v room))

-- The top chunk is dropped, and the break moves by its size less a header.
free_chunk-top :
    (size : ℕ) (h : Heap) (v : IsValid h)
    → h.brk + header_size + 2 * size < 2 ^ 62
    → free_chunk (top size h v) true (grown size h v)
      ≡ record { chunks = h.chunks; brk = h.brk + 2 * size }
unfolding free_chunk
free_chunk-top size h v fits =
    let b : sub64 (add64 (h.brk + header_size + size) size) header_size ≡ h.brk + 2 * size =
      omega arith in
    rw (==_refl (h.brk + header_size + size))
      (rw (b, drop_last-append h.chunks (top size h v)) refl)

-- In a well-formed heap that stays below 2^62, where no free chunk is large enough for a request of at
-- least one byte and sbrk succeeds, malloc followed by free of what it returned gives back the list
-- of chunks, but the break has moved up by twice the size of the request in place of not at all.
pub free-malloc :
    (size : ℕ) (h : Heap)
    → IsValid h
    → 0 < size
    → h.brk + header_size + 2 * size < 2 ^ 62
    → get_free_chunk size h.chunks ≡ none
    → (p : ℕ) × (t : Heap) × (malloc size true h ≡ (some p, t))
      × (free p true t ≡ some (record { chunks = h.chunks; brk = h.brk + 2 * size }))
free-malloc size h v pos fits none_fits =
    let room : h.brk + header_size + size < 2 ^ 62 = omega arith in
    let c = top size h v in
    let t = grown size h v in
    (
      data_ptr c,
      t,
      malloc-grows size h v pos room none_fits,
      free-chunk_of true t c (grown-Block size h v room).valid (In-last h.chunks c)
          ∙ ap some (free_chunk-top size h v fits),
    )
