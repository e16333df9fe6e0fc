-- ===== src/Libc/Malloc/Tests.antt =====
-- Runs of libc/src/stdlib/mallocfree.c on a heap of two chunks, the first of them free.
use piggy_os.Common.{◌≡◌, inl, refl, true, false, none, some, [], ◌∷◌, arith}
use piggy_os.Libc.Malloc.{
  Chunk, Heap, get_free_chunk, malloc, free, realloc, mark, grow, chunk_of, free_chunk,
}
use piggy_os.Libc.Malloc.Inv.{IsValid, In}
use piggy_os.Libc.Malloc.Keeps.{Promise, malloc_lem}
use piggy_os.Libc.Malloc.Release.{free_lem}

abbrev hole : Chunk
hole = record { addr = 4096; size = 64; is_free = true }

abbrev upper : Chunk
upper = record { addr = 4184; size = 40; is_free = false }

abbrev sample : Heap
sample = record { chunks = hole ∷ upper ∷ []; brk = 4248 }

sample-IsValid : IsValid sample
sample-IsValid = record { ordered = (omega arith, (omega arith, omega arith)); small = omega arith }

-- The sample after its lower chunk has been taken
abbrev full : Heap
full = record { chunks = record hole { is_free = false } ∷ upper ∷ []; brk = 4248 }

full-IsValid : IsValid full
full-IsValid = record { ordered = (omega arith, (omega arith, omega arith)); small = omega arith }

reuses : malloc 50 false sample ≡ (some 4120, full)
unfolding malloc get_free_chunk mark
reuses = refl

refused : malloc 100 false sample ≡ (none, sample)
unfolding malloc get_free_chunk grow
refused = refl

moves :
    realloc 4120 100 true full
    ≡ some (
      some 4272,
      record {
        chunks = hole ∷ upper ∷ record { addr = 4248; size = 100; is_free = false } ∷ [];
        brk = 4372;
      },
    )
unfolding realloc chunk_of malloc get_free_chunk grow free free_chunk mark
moves = refl

keeps_small : realloc 4120 10 true full ≡ some (some 4120, full)
unfolding realloc chunk_of
keeps_small = refl

malloc_lem_example : Promise 50 sample true (malloc 50 true sample)
malloc_lem_example = malloc_lem 50 true sample sample-IsValid (omega arith) (omega arith)

free_lem_example :
    (t : Heap) × (free 4120 true full ≡ some t)
    × IsValid t
    × (t.brk ≡ full.brk)
    × In hole t.chunks
    × ((d : Chunk) → In d full.chunks → ¬ d.addr ≡ 4096 → In d t.chunks)
free_lem_example =
    free_lem true full (record hole { is_free = false }) full-IsValid (inl refl) (omega arith)

none_fits : get_free_chunk 100 sample.chunks ≡ none
unfolding get_free_chunk
none_fits = refl
