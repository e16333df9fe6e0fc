-- ===== src/Libc/Malloc.antt =====
-- libc/src/stdlib/mallocfree.c: a list of chunks, each behind a header of 24 bytes, that grows at the
-- program break. The list from `first` to `last` is a list of records; the break is part of the state, and
-- whether `sbrk` succeeds is an argument. The magic number is taken to be intact.
pub mod Inv
pub mod Keeps
pub mod Release
mod Tests
use piggy_os.Common.{
  ℕ, zero, suc, ◌+◌, ◌-◌, ◌%◌, ◌^◌, Bool, true, false, not, ◌&&◌, Option, none, some, List, [], ◌∷◌,
  ◌++◌, ltb, leb, ◌==◌, if◌then◌else◌, add64, sub64,
}

-- `struct heap_chunk`, with the address of its header
pub record Chunk : Type 0 where
  pub addr : ℕ
  pub size : ℕ
  pub is_free : Bool

pub record Heap : Type 0 where
  pub chunks : List Chunk
  pub brk : ℕ

-- sizeof(struct heap_chunk)
abbrev pub header_size : ℕ
header_size = 24

-- (void*) (chunk + 1)
abbrev pub data_ptr : Chunk → ℕ
data_ptr c = c.addr + header_size

-- `get_free_chunk`: the first free chunk that is large enough.
unfoldable pub get_free_chunk : ℕ → List Chunk → Option Chunk
get_free_chunk size [] = none
get_free_chunk size (c ∷ cs) =
    let next = get_free_chunk size cs in if c.is_free && leb size c.size then some c else next

-- `chunk->free = b` through a pointer
unfoldable pub mark : ℕ → Bool → List Chunk → List Chunk
mark addr b [] = []
mark addr b (c ∷ cs) =
    record c { is_free = if c.addr == addr then b else c.is_free } ∷ mark addr b cs

-- A new chunk at the break; `size` is a field of 63 bits.
unfoldable pub grow : ℕ → Bool → Heap → Option ℕ × Heap
grow size false h = (none, h)
grow size true h =
    let c : Chunk = record { addr = h.brk; size = size % 2 ^ 63; is_free = false } in
    (
      some (data_ptr c),
      record { chunks = h.chunks ++ (c ∷ []); brk = add64 h.brk (add64 header_size size) },
    )

-- `malloc`; `none` is NULL.
unfoldable pub malloc : ℕ → Bool → Heap → Option ℕ × Heap
malloc size sbrk_ok h =
    let found = get_free_chunk size h.chunks in
    if size == 0 then (none, h) else elim found [
      | some c ↦ (some (data_ptr c), record h { chunks = mark c.addr false h.chunks })
      | none ↦ grow size sbrk_ok h
    ]

-- The chunk whose data a pointer points to.
unfoldable pub chunk_of : ℕ → List Chunk → Option Chunk
chunk_of ptr [] = none
chunk_of ptr (c ∷ cs) = let next = chunk_of ptr cs in if data_ptr c == ptr then some c else next

-- The list without its last chunk
unfoldable pub drop_last : List Chunk → List Chunk
drop_last [] = []
drop_last (c ∷ []) = []
drop_last (c ∷ d ∷ cs) = c ∷ drop_last (d ∷ cs)

-- The end of `free`, for the chunk of the pointer. The break moves by -(24 - size) as size_t.
unfoldable pub free_chunk : Chunk → Bool → Heap → Heap
free_chunk c sbrk_ok h =
    if data_ptr c + c.size == h.brk
    then record {
      chunks = drop_last h.chunks;
      brk = if sbrk_ok then sub64 (add64 h.brk c.size) header_size else h.brk;
    }
    else record h { chunks = mark c.addr true h.chunks }

-- `free` of a pointer other than NULL; `none` is a failed assertion.
unfoldable pub free : ℕ → Bool → Heap → Option Heap
free ptr sbrk_ok h = elim (chunk_of ptr h.chunks) [
  | none ↦ none
  | some c ↦ some (free_chunk c sbrk_ok h)
]

-- `realloc` of a pointer other than NULL. Copying the data is not modelled.
unfoldable pub realloc : ℕ → ℕ → Bool → Heap → Option (Option ℕ × Heap)
realloc ptr new_size sbrk_ok h =
    let (new_ptr, t) = malloc new_size sbrk_ok h in
    if new_size == 0 then some (none, h) else elim (chunk_of ptr h.chunks) [
      | none ↦ none
      | some c ↦
          (if leb new_size c.size then some (some ptr, h) else elim new_ptr [
            | none ↦ some (none, t)
            | some p ↦ elim (free ptr sbrk_ok t) [ none ↦ none | some u ↦ some (some p, u) ]
          ])
    ]
