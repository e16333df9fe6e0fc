-- ===== src/Mem/Vmm/Tree.antt =====
-- The tables of a page map as a tree: each table has one path from the top level, so no table is shared.
use native.Mathlib.Decide.{ℕ_discrete}
use piggy_os.Common.{
  ℕ, ◌≤◌, ◌≡◌, ◌≢◌, ◌⊎◌, inl, inr, refl, sym, ap, ◌∙◌, true, false, Option, none, some, List, [],
  ◌∷◌, if◌then◌else◌, update, update_self, update_ne, All, length, Distinct, Bool-cases,
}
use piggy_os.Mem.Vmm.{Entry, no_entry, Memory, write, descend, get_leaf, leaf_of}

-- Where the tables stand: the indices from the top level on, the last one first.
abbrev pub Paths : Type 0
Paths = ℕ → Option (List ℕ)

-- `u` levels lie above the table that is called pml2. A present entry of a table of these levels or of
-- pml2 leads to the table of its path, and an entry with the bit for a large page is present.
-- The pages to come are no tables, distinct and not at address 0.
pub record Tree (u : ℕ) (path : Paths) (m : Memory) : Type 0 where
  pub child :
      (t i : ℕ) (π : List ℕ)
      → path t ≡ some π
      → length π ≤ u
      → (m.entry t i).flags.present ≡ true
      → (length π ≡ u → (m.entry t i).flags.size ≡ false)
      → path (m.entry t i).addr ≡ some (i ∷ π)
  pub large :
      (t i : ℕ) (π : List ℕ)
      → path t ≡ some π
      → length π ≤ u
      → (m.entry t i).flags.present ≡ false
      → (m.entry t i).flags.size ≡ false
  pub unused : All (λ page. (path page ≡ none) × (page ≢ 0)) m.pages
  pub distinct : Distinct m.pages

-- What the walk to a page below the table `x` gives, from the indices below it.
abbrev pub look : Memory → ℕ → List ℕ → ℕ → ℕ → Option Entry
look m x is i2 i1 = leaf_of m i2 i1 (descend m is x)

pub write-here : (t i : ℕ) (e : Entry) (m : Memory) → (write t i e m).entry t i ≡ e
write-here t i e m =
    ap (λ (f : ℕ → Entry). f i) (update_self m.entry t (update (m.entry t) i e))
    ∙ update_self (m.entry t) i e

pub write-other :
    (t i : ℕ) (e : Entry) (m : Memory) (x j : ℕ)
    → (x ≢ t) ⊎ (j ≢ i)
    → (write t i e m).entry x j ≡ m.entry x j
write-other t i e m x j (inl n) =
    ap (λ (f : ℕ → Entry). f j) (update_ne m.entry t x (update (m.entry t) i e) n)
write-other t i e m x j (inr n) = elim (ℕ_discrete x t) [
  | yes y ↦ rw y (
      ap (λ (f : ℕ → Entry). f j) (update_self m.entry t (update (m.entry t) i e))
      ∙ update_ne (m.entry t) i j e n)
  | no k ↦ ap (λ (f : ℕ → Entry). f j) (update_ne m.entry t x (update (m.entry t) i e) k)
]

-- One step of the walk
pub descend-end : (m : Memory) (x : ℕ) → descend m [] x ≡ some x
unfolding descend
descend-end m x = refl

pub descend-present :
    (m : Memory) (x j : ℕ) (js : List ℕ)
    → (m.entry x j).flags.present ≡ true
    → descend m (j ∷ js) x ≡ descend m js (m.entry x j).addr
unfolding descend
descend-present m x j js p = rw (p, descend) refl

pub descend-absent :
    (m : Memory) (x j : ℕ) (js : List ℕ)
    → (m.entry x j).flags.present ≡ false
    → descend m (j ∷ js) x ≡ none
unfolding descend
descend-absent m x j js p = rw (p, descend) refl

pub look-present :
    (m : Memory) (x j : ℕ) (js : List ℕ) (i2 i1 : ℕ)
    → (m.entry x j).flags.present ≡ true
    → look m x (j ∷ js) i2 i1 ≡ look m (m.entry x j).addr js i2 i1
look-present m x j js i2 i1 p = ap (leaf_of m i2 i1) (descend-present m x j js p)

pub look-absent :
    (m : Memory) (x j : ℕ) (js : List ℕ) (i2 i1 : ℕ)
    → (m.entry x j).flags.present ≡ false
    → look m x (j ∷ js) i2 i1 ≡ none
look-absent m x j js i2 i1 p = ap (leaf_of m i2 i1) (descend-absent m x j js p)

pub get_leaf-absent :
    (m : Memory) (i2 i1 x : ℕ)
    → (m.entry x i2).flags.size ≡ false
    → (m.entry x i2).flags.present ≡ false
    → get_leaf m i2 i1 x ≡ none
unfolding get_leaf
get_leaf-absent m i2 i1 x s p = rw s (rw p refl)

pub get_leaf-table :
    (m : Memory) (i2 i1 x : ℕ)
    → (m.entry x i2).flags.size ≡ false
    → (m.entry x i2).flags.present ≡ true
    → get_leaf m i2 i1 x ≡ (
        if (m.entry (m.entry x i2).addr i1).flags.present
        then some (m.entry (m.entry x i2).addr i1)
        else none)
unfolding get_leaf
get_leaf-table m i2 i1 x s p = rw s (rw p refl)

pub get_leaf-large :
    (m : Memory) (i2 i1 x : ℕ)
    → (m.entry x i2).flags.size ≡ true
    → get_leaf m i2 i1 x ≡ some (m.entry x i2)
unfolding get_leaf
get_leaf-large m i2 i1 x s = rw s refl

-- A table without entries maps nothing.
pub look-empty :
    (m : Memory) (x : ℕ) (js : List ℕ) (i2 i1 : ℕ)
    → ((j : ℕ) → m.entry x j ≡ no_entry)
    → look m x js i2 i1 ≡ none
unfolding descend
look-empty m x [] i2 i1 e =
    get_leaf-absent m i2 i1 x (ap (λ (z : Entry). z.flags.size) (e i2))
      (ap (λ (z : Entry). z.flags.present) (e i2))
look-empty m x (j ∷ js) i2 i1 e =
    look-absent m x j js i2 i1 (ap (λ (z : Entry). z.flags.present) (e j))

-- Whether the entry `j` of `x` is the entry `i` of `t`.
pub same_entry : (t i x j : ℕ) → ((x ≡ t) × (j ≡ i)) ⊎ ((x ≢ t) ⊎ (j ≢ i))
same_entry t i x j = decide (ℕ_discrete x t) (ℕ_discrete j i)
  where
    decide : Dec (x ≡ t) → Dec (j ≡ i) → ((x ≡ t) × (j ≡ i)) ⊎ ((x ≢ t) ⊎ (j ≢ i))
    decide (no n) d = inr (inl n)
    decide (yes y) (no n) = inr (inr n)
    decide (yes y) (yes z) = inl (y, z)

-- Walks through entries that are the same.
pub look-step :
    (m m' : Memory) (x j : ℕ) (js : List ℕ) (i2 i1 : ℕ)
    → m'.entry x j ≡ m.entry x j
    → ((m.entry x j).flags.present ≡ true
        → look m' (m.entry x j).addr js i2 i1 ≡ look m (m.entry x j).addr js i2 i1)
    → look m' x (j ∷ js) i2 i1 ≡ look m x (j ∷ js) i2 i1
look-step m m' x j js i2 i1 same below = elim (Bool-cases (m.entry x j).flags.present) [
  | inl p ↦
      look-present m' x j js i2 i1 (rw same p)
      ∙ rw same (below p)
      ∙ sym (look-present m x j js i2 i1 p)
  | inr p ↦ look-absent m' x j js i2 i1 (rw same p) ∙ sym (look-absent m x j js i2 i1 p)
]

pub get_leaf-same :
    (m m' : Memory) (x i2 i1 : ℕ)
    → m'.entry x i2 ≡ m.entry x i2
    → ((m.entry x i2).flags.size ≡ false
        → (m.entry x i2).flags.present ≡ true
        → m'.entry (m.entry x i2).addr i1 ≡ m.entry (m.entry x i2).addr i1)
    → get_leaf m' i2 i1 x ≡ get_leaf m i2 i1 x
get_leaf-same m m' x i2 i1 same below =
    cases (Bool-cases (m.entry x i2).flags.size) (Bool-cases (m.entry x i2).flags.present)
  where
    cases :
        ((m.entry x i2).flags.size ≡ true) ⊎ ((m.entry x i2).flags.size ≡ false)
        → ((m.entry x i2).flags.present ≡ true) ⊎ ((m.entry x i2).flags.present ≡ false)
        → get_leaf m' i2 i1 x ≡ get_leaf m i2 i1 x
    cases (inl s) p =
        get_leaf-large m' i2 i1 x (rw same s) ∙ ap some same ∙ sym (get_leaf-large m i2 i1 x s)
    cases (inr s) (inr p) =
        get_leaf-absent m' i2 i1 x (rw same s) (rw same p) ∙ sym (get_leaf-absent m i2 i1 x s p)
    cases (inr s) (inl p) =
        get_leaf-table m' i2 i1 x (rw same s) (rw same p)
        ∙ rw (same, below s p) (sym (get_leaf-table m i2 i1 x s p))
