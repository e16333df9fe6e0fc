-- ===== src/Libc/Malloc/Inv.antt =====
-- The chunks lie one behind the other below the break.
use piggy_os.Common.{
  ℕ, ◌+◌, ◌^◌, ◌<◌, ◌≤◌, ◌≡◌, ◌≢◌, ◌⊎◌, inl, inr, refl, sym, ap, ◌∙◌, Bool, List, [], ◌∷◌, ◌++◌,
  arith, ne→==, ==_refl,
}
use piggy_os.Libc.Malloc.{Chunk, Heap, header_size, mark, drop_last}

-- The chunks from the address `lo` on, in order and without overlap, end at or below `hi`.
abbrev pub Ordered : ℕ → List Chunk → ℕ → Type 0
Ordered lo [] hi = lo ≤ hi
Ordered lo (c ∷ cs) hi = (lo ≤ c.addr) × Ordered (c.addr + header_size + c.size) cs hi

pub record IsValid (h : Heap) : Type 0 where
  pub ordered : Ordered 0 h.chunks h.brk
  pub small : h.brk < 2 ^ 62

pub Ordered-wider :
    (cs : List Chunk) (lo lo' hi hi' : ℕ)
    → lo' ≤ lo
    → hi ≤ hi'
    → Ordered lo cs hi
    → Ordered lo' cs hi'
Ordered-wider [] lo lo' hi hi' l h o = omega arith
Ordered-wider (c ∷ cs) lo lo' hi hi' l h o =
    (omega arith, Ordered-wider cs _ _ hi hi' (omega arith) h o.1)

pub Ordered-mark :
    (cs : List Chunk) (lo hi addr : ℕ) (b : Bool)
    → Ordered lo cs hi
    → Ordered lo (mark addr b cs) hi
unfolding mark
Ordered-mark [] lo hi addr b o = o
Ordered-mark (c ∷ cs) lo hi addr b o = (o.0, Ordered-mark cs _ hi addr b o.1)

pub Ordered-append :
    (cs : List Chunk) (c : Chunk) (lo hi : ℕ)
    → Ordered lo cs hi
    → hi ≤ c.addr
    → Ordered lo (cs ++ (c ∷ [])) (c.addr + header_size + c.size)
Ordered-append [] c lo hi o h = (omega arith, omega arith)
Ordered-append (d ∷ cs) c lo hi o h = (o.0, Ordered-append cs c _ hi o.1 h)

pub Ordered-le : (cs : List Chunk) (lo hi : ℕ) → Ordered lo cs hi → lo ≤ hi
Ordered-le [] lo hi o = o
Ordered-le (c ∷ cs) lo hi o = omega (arith, Ordered-le cs (c.addr + header_size + c.size) hi o.1)

pub Ordered-drop_last :
    (cs : List Chunk) (lo hi : ℕ) → lo ≤ hi → Ordered lo cs hi → Ordered lo (drop_last cs) hi
unfolding drop_last
Ordered-drop_last [] lo hi h o = o
Ordered-drop_last (c ∷ []) lo hi h o = h
Ordered-drop_last (c ∷ d ∷ cs) lo hi h o =
    (o.0, Ordered-drop_last (d ∷ cs) _ hi (Ordered-le (d ∷ cs) _ hi o.1) o.1)

-- The chunk `c` is in the list.
abbrev pub In : Chunk → List Chunk → Type 0
In c [] = ⊥
In c (d ∷ cs) = (c ≡ d) ⊎ In c cs

-- Two chunks have no byte in common, headers included.
abbrev pub Disjoint : Chunk → Chunk → Type 0
Disjoint c d = (c.addr + header_size + c.size ≤ d.addr) ⊎ (d.addr + header_size + d.size ≤ c.addr)

pub In-bounds :
    (cs : List Chunk) (lo hi : ℕ) (c : Chunk)
    → Ordered lo cs hi
    → In c cs
    → (lo ≤ c.addr) × (c.addr + header_size + c.size ≤ hi)
In-bounds [] lo hi c o i = absurd i
In-bounds (d ∷ cs) lo hi c o (inl e) =
    rw e (o.0, Ordered-le cs (d.addr + header_size + d.size) hi o.1)
In-bounds (d ∷ cs) lo hi c o (inr i) =
    let b = In-bounds cs (d.addr + header_size + d.size) hi c o.1 i in (omega arith, b.1)

-- Two chunks of the list at different addresses are disjoint.
pub In-Disjoint :
    (cs : List Chunk) (lo hi : ℕ) (c d : Chunk)
    → Ordered lo cs hi
    → In c cs
    → In d cs
    → c.addr ≢ d.addr
    → Disjoint c d
In-Disjoint [] lo hi c d o i j n = absurd i
In-Disjoint (e ∷ cs) lo hi c d o (inl p) (inl q) n =
    absurd (n (ap (λ (x : Chunk). x.addr) (p ∙ sym q)))
In-Disjoint (e ∷ cs) lo hi c d o (inl p) (inr j) n =
    inl (rw p (In-bounds cs (e.addr + header_size + e.size) hi d o.1 j).0)
In-Disjoint (e ∷ cs) lo hi c d o (inr i) (inl q) n =
    inr (rw q (In-bounds cs (e.addr + header_size + e.size) hi c o.1 i).0)
In-Disjoint (e ∷ cs) lo hi c d o (inr i) (inr j) n =
    In-Disjoint cs (e.addr + header_size + e.size) hi c d o.1 i j n

pub In-append : (cs ds : List Chunk) (c : Chunk) → In c cs → In c (cs ++ ds)
In-append [] ds c i = absurd i
In-append (d ∷ cs) ds c (inl e) = inl e
In-append (d ∷ cs) ds c (inr i) = inr (In-append cs ds c i)

pub In-last : (cs : List Chunk) (c : Chunk) → In c (cs ++ (c ∷ []))
In-last [] c = inl refl
In-last (d ∷ cs) c = inr (In-last cs c)

-- Marking one chunk keeps those at other addresses, and leaves it with its new mark.
pub In-mark_other :
    (cs : List Chunk) (addr : ℕ) (b : Bool) (c : Chunk)
    → c.addr ≢ addr
    → In c cs
    → In c (mark addr b cs)
unfolding mark
In-mark_other [] addr b c n i = absurd i
In-mark_other (d ∷ cs) addr b c n (inl e) =
    inl (e ∙ ap (λ m. record d { is_free = m }) (rw (ne→== d.addr addr (rw e at n))))
In-mark_other (d ∷ cs) addr b c n (inr i) = inr (In-mark_other cs addr b c n i)

pub In-mark_self :
    (cs : List Chunk) (b : Bool) (c : Chunk)
    → In c cs
    → In (record c { is_free = b }) (mark c.addr b cs)
unfolding mark
In-mark_self [] b c i = absurd i
In-mark_self (d ∷ cs) b c (inl e) = inl (ground (arith, ==_refl d.addr))
In-mark_self (d ∷ cs) b c (inr i) = inr (In-mark_self cs b c i)

-- A chunk is known by its address.
pub In-unique :
    (cs : List Chunk) (lo hi : ℕ) (c d : Chunk)
    → Ordered lo cs hi
    → In c cs
    → In d cs
    → c.addr ≡ d.addr
    → c ≡ d
In-unique [] lo hi c d o i j e = absurd i
In-unique (x ∷ cs) lo hi c d o (inl p) (inl q) e = p ∙ sym q
In-unique (x ∷ cs) lo hi c d o (inl p) (inr j) e =
    let b = In-bounds cs (x.addr + header_size + x.size) hi d o.1 j in
    let a = ap (λ (y : Chunk). y.addr) p in absurd (omega arith)
In-unique (x ∷ cs) lo hi c d o (inr i) (inl q) e =
    let b = In-bounds cs (x.addr + header_size + x.size) hi c o.1 i in
    let a = ap (λ (y : Chunk). y.addr) q in absurd (omega arith)
In-unique (x ∷ cs) lo hi c d o (inr i) (inr j) e =
    In-unique cs (x.addr + header_size + x.size) hi c d o.1 i j e
