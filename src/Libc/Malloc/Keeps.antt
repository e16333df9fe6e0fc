-- ===== src/Libc/Malloc/Keeps.antt =====
-- What `malloc` and `free` promise, and where `free` does not give memory back.
use piggy_os.Common.{
  ℕ, ◌+◌, ◌%◌, ◌^◌, ◌<◌, ◌≤◌, ◌≡◌, ◌≢◌, ◌⊎◌, inl, inr, refl, sym, ap, Bool, true, false, ◌&&◌,
  Option, none, some, List, [], ◌∷◌, ◌++◌, leb, if◌then◌else◌, arith, ne→==, add64,
}
use piggy_os.Libc.Malloc.{Chunk, Heap, header_size, data_ptr, get_free_chunk, mark, grow, malloc}
use piggy_os.Libc.Malloc.Inv.{
  IsValid, Ordered-mark, Ordered-append, In, Disjoint, In-bounds, In-Disjoint, In-append, In-last,
  In-mark_other, In-mark_self, In-unique,
}

-- What the search for a free chunk finds.
pub data Fit (size : ℕ) (cs : List Chunk) : Option Chunk → Type 0 where
  fit : (c : Chunk) → In c cs → c.is_free ≡ true → size ≤ c.size → Fit size cs (some c)
  no_fit : ((c : Chunk) → In c cs → c.is_free ≡ true → c.size < size) → Fit size cs none

get_free_chunk-Fit : (size : ℕ) (cs : List Chunk) → Fit size cs (get_free_chunk size cs)
unfolding get_free_chunk
get_free_chunk-Fit size [] = no_fit (λ c i f. absurd i)
get_free_chunk-Fit size (c ∷ cs) =
    go (c.is_free && leb size c.size) refl (get_free_chunk-Fit size cs)
  where
    later :
        (o : Option Chunk)
        → (c.is_free && leb size c.size) ≡ false
        → Fit size cs o
        → Fit size (c ∷ cs) o
    later (some d) e (fit d' i f s) = fit d (inr i) f s
    later none e (no_fit h) = no_fit (λ d i f. elim i [
      | inl p ↦
          let f' : c.is_free ≡ true = rw p at f in let g : c.size < size = ground arith in rw p g
      | inr j ↦ h d j f
    ])

    go :
        (b : Bool)
        → (c.is_free && leb size c.size) ≡ b
        → Fit size cs (get_free_chunk size cs)
        → Fit size (c ∷ cs) (if b then some c else get_free_chunk size cs)
    go true e rest = fit c (inl refl) (ground arith) (ground arith)
    go false e rest = later (get_free_chunk size cs) e rest

-- A block of at least `size` bytes, in use in `t`, that overlaps no block in use in `h`.
pub record Block (h t : Heap) (size : ℕ) (c : Chunk) : Type 0 where
  pub here : In c t.chunks
  pub in_use : c.is_free ≡ false
  pub large : size ≤ c.size
  pub valid : IsValid t
  pub kept : (d : Chunk) → In d h.chunks → d.is_free ≡ false → In d t.chunks × Disjoint c d

module _ (size : ℕ) (h : Heap) (v : IsValid h) where
  reuse-Block :
      (c : Chunk)
      → In c h.chunks
      → c.is_free ≡ true
      → size ≤ c.size
      → Block h
          (record h { chunks = mark c.addr false h.chunks })
          size
          (record c { is_free = false })
  reuse-Block c i f s = record {
    here = In-mark_self h.chunks false c i;
    in_use = refl;
    large = s;
    valid = record {
      ordered = Ordered-mark h.chunks 0 h.brk c.addr false v.ordered;
      small = v.small;
    };
    kept = λ d j u.
        let n : d.addr ≢ c.addr = λ e.
          let same = In-unique h.chunks 0 h.brk d c v.ordered j i e in
          cc (f, u, ap (λ (x : Chunk). x.is_free) same) in
        (
          In-mark_other h.chunks c.addr false d n j,
          In-Disjoint h.chunks 0 h.brk c d v.ordered i j (λ e. n (sym e)),
        );
  }

  -- The chunk that `grow` appends
  abbrev pub top : Chunk
  top = record { addr = h.brk; size = size; is_free = false }

  abbrev pub grown : Heap
  grown = record { chunks = h.chunks ++ (top ∷ []); brk = h.brk + header_size + size }

  pub grow-grown :
      h.brk + header_size + size < 2 ^ 62 → grow size true h ≡ (some (data_ptr top), grown)
  unfolding grow
  grow-grown fits =
      let e : size % 2 ^ 63 ≡ size = omega arith in
      let b : add64 h.brk (add64 header_size size) ≡ h.brk + header_size + size = omega arith in
      rw (e, b)

  pub grown-Block : h.brk + header_size + size < 2 ^ 62 → Block h grown size top
  grown-Block fits = record {
    here = In-last h.chunks top;
    in_use = refl;
    large = omega arith;
    valid = record {
      ordered = Ordered-append h.chunks top 0 h.brk v.ordered (omega arith);
      small = fits;
    };
    kept = λ d j u.
        (In-append h.chunks (top ∷ []) d j, inr (In-bounds h.chunks 0 h.brk d v.ordered j).1);
  }

grow-no_break : (size : ℕ) (h : Heap) → grow size false h ≡ (none, h)
unfolding grow
grow-no_break size h = refl

-- What a result of `malloc` says of the heap before it.
abbrev pub Promise : (size : ℕ) (h : Heap) (sbrk_ok : Bool) → Option ℕ × Heap → Type 0
Promise size h sbrk_ok r =
    ((c : Chunk) × (r.0 ≡ some (data_ptr c)) × Block h r.1 size c)
    ⊎ (r.0 ≡ none)
      × (r.1 ≡ h)
      × (sbrk_ok ≡ false)
      × ((c : Chunk) → In c h.chunks → c.is_free ≡ true → c.size < size)

-- In a well-formed heap that stays below 2^62, a request for at least one byte returns the data of a chunk of at least that size, which is in use
-- from then on and overlaps no chunk that was in use, all of which stay; the invariant is kept.
-- NULL is returned only if no free chunk is large enough and `sbrk` fails, and nothing changes then.
pub malloc_lem :
    (size : ℕ) (sbrk_ok : Bool) (h : Heap)
    → IsValid h
    → 0 < size
    → h.brk + header_size + size < 2 ^ 62
    → Promise size h sbrk_ok (malloc size sbrk_ok h)
unfolding malloc
malloc_lem size sbrk_ok h v pos fits =
    rw (ne→== size 0 (omega arith))
      (go (get_free_chunk size h.chunks) (get_free_chunk-Fit size h.chunks) sbrk_ok)
  where
    go :
        (o : Option Chunk)
        → Fit size h.chunks o
        → (ok : Bool)
        → Promise size h ok (elim o [
          | some c ↦ (some (data_ptr c), record h { chunks = mark c.addr false h.chunks })
          | none ↦ grow size ok h
        ])
    go (some c) (fit c' i f s) ok =
        inl (record c { is_free = false }, refl, reuse-Block size h v c i f s)
    go none (no_fit n) true =
        rw (grow-grown size h v fits) (inl (top size h v, refl, grown-Block size h v fits))
    go none (no_fit n) false = rw (grow-no_break size h) (inr (refl, refl, refl, n))
