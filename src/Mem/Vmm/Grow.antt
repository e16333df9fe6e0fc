-- ===== src/Mem/Vmm/Grow.antt =====
-- A new table behind an entry that was not present.
use mathlib.Core.Path.{subst}
use mathlib.Core.Option.{some-injective}
use native.Mathlib.Decide.{ℕ_discrete}
use piggy_os.Common.{
  ℕ, ◌+◌, ◌≤◌, ◌<◌, ◌≡◌, ◌≢◌, ◌⊎◌, inl, inr, sym, ap, ◌∙◌, true, false, none, some, List, [], ◌∷◌,
  update, update_self, update_ne, All, length, Outside, Distinct, arith,
}
use piggy_os.Mem.Vmm.{Entry, no_entry, Memory, descend, get_leaf}
use piggy_os.Mem.Vmm.Tree.{
  Paths, Tree, look, look-present, look-absent, get_leaf-absent, get_leaf-table, look-empty,
  same_entry, look-step, get_leaf-same,
}

-- A page that was no table has become the table behind the entry `i` of `t`.
pub record Grown (t i page : ℕ) (m m' : Memory) : Type 0 where
  pub addr : (m'.entry t i).addr ≡ page
  pub present : (m'.entry t i).flags.present ≡ true
  pub small : (m'.entry t i).flags.size ≡ false
  pub empty : (j : ℕ) → m'.entry page j ≡ no_entry
  pub other : (x j : ℕ) → x ≢ page → (x ≢ t) ⊎ (j ≢ i) → m'.entry x j ≡ m.entry x j
  pub taken : m.pages ≡ page ∷ m'.pages

module _ (u : ℕ) (path : Paths) (m m' : Memory) (t i page : ℕ) (π : List ℕ) (tree : Tree u path m)
    (t_path : path t ≡ some π) (high : length π ≤ u) (absent : (m.entry t i).flags.present ≡ false)
    (g : Grown t i page m m') where
  abbrev pub path' : Paths
  path' = update path page (some (i ∷ π))

  page-unused : path page ≡ none
  page-unused = (subst (All (λ p. (path p ≡ none) × (p ≢ 0))) g.taken tree.unused).0.0

  table-page : (x : ℕ) (ρ : List ℕ) → path x ≡ some ρ → x ≢ page
  table-page x ρ e y = cc (e, y, page-unused)

  pub path'-extends : (x : ℕ) (ρ : List ℕ) → path x ≡ some ρ → path' x ≡ some ρ
  path'-extends x ρ e = update_ne path page x (some (i ∷ π)) (table-page x ρ e) ∙ e

  -- A present entry stays as it is.
  pub kept :
      (x j : ℕ) (ρ : List ℕ)
      → path x ≡ some ρ
      → (m.entry x j).flags.present ≡ true
      → m'.entry x j ≡ m.entry x j
  kept x j ρ e p = elim (same_entry t i x j) [
    | inl q ↦ absurd (cc (p, q.0, q.1, absent))
    | inr q ↦ g.other x j (table-page x ρ e) q
  ]

  child-path :
      (x j : ℕ) (ρ : List ℕ)
      → path x ≡ some ρ
      → length ρ < u
      → (m.entry x j).flags.present ≡ true
      → path (m.entry x j).addr ≡ some (j ∷ ρ)
  child-path x j ρ e l p = tree.child x j ρ e (omega arith) p (λ q. absurd (omega arith))

  -- A table below pml2 is not `t`.
  lower : (x : ℕ) (ρ : List ℕ) → path x ≡ some ρ → u < length ρ → x ≢ t
  lower x ρ e l y =
      let same : some ρ ≡ some π = sym e ∙ ap path y ∙ t_path in
      let lengths : length ρ ≡ length π = ap length (some-injective ρ π same) in omega arith

  new_leaf : (i1 : ℕ) → get_leaf m' i i1 t ≡ get_leaf m i i1 t
  new_leaf i1 =
      get_leaf-table m' i i1 t g.small g.present
      ∙ rw (g.addr, g.empty i1)
          (sym (get_leaf-absent m i i1 t (tree.large t i π t_path high absent) absent))

  old_leaf :
      (x : ℕ) (ρ : List ℕ) (i2 i1 : ℕ)
      → path x ≡ some ρ
      → length ρ ≡ u
      → m'.entry x i2 ≡ m.entry x i2
      → get_leaf m' i2 i1 x ≡ get_leaf m i2 i1 x
  old_leaf x ρ i2 i1 e l same = get_leaf-same m m' x i2 i1 same λ s p.
      let c = tree.child x i2 ρ e (omega arith) p (λ q. s) in
      g.other (m.entry x i2).addr i1 (table-page (m.entry x i2).addr (i2 ∷ ρ) c)
        (inl (λ y. lower (m.entry x i2).addr (i2 ∷ ρ) c (omega arith) y))

  -- The walk to any page gives what it gave before.
  pub look-same :
      (is : List ℕ) (x : ℕ) (ρ : List ℕ) (i2 i1 : ℕ)
      → path x ≡ some ρ
      → length is + length ρ ≡ u
      → look m' x is i2 i1 ≡ look m x is i2 i1
  unfolding descend
  look-same [] x ρ i2 i1 e l = elim (same_entry t i x i2) [
    | inl q ↦ rw (q.0, q.1) (new_leaf i1)
    | inr q ↦ old_leaf x ρ i2 i1 e (omega arith) (g.other x i2 (table-page x ρ e) q)
  ]
  look-same (j ∷ js) x ρ i2 i1 e l = elim (same_entry t i x j) [
    | inl q ↦
        rw (q.0, q.1)
          (look-present m' t i js i2 i1 g.present
            ∙ rw g.addr (look-empty m' page js i2 i1 g.empty)
            ∙ sym (look-absent m t i js i2 i1 absent))
    | inr q ↦ look-step m m' x j js i2 i1 (g.other x j (table-page x ρ e) q) (λ p.
        look-same js (m.entry x j).addr (j ∷ ρ) i2 i1 (child-path x j ρ e (omega arith) p)
          (omega arith))
  ]

  pages-rest :
      All (λ p. (path p ≡ none) × (p ≢ 0)) m'.pages × Outside page m'.pages × Distinct m'.pages
  pages-rest =
      let all = subst (All (λ p. (path p ≡ none) × (p ≢ 0))) g.taken tree.unused in
      let apart = subst Distinct g.taken tree.distinct in (all.1, apart.0, apart.1)

  still-unused :
      (ps : List ℕ)
      → All (λ p. (path p ≡ none) × (p ≢ 0)) ps
      → Outside page ps
      → All (λ p. (path' p ≡ none) × (p ≢ 0)) ps
  still-unused [] h o = tt
  still-unused (p ∷ ps) h o = (
    (update_ne path page p (some (i ∷ π)) (λ y. o.0 (sym y)) ∙ h.0.0, h.0.1),
    still-unused ps h.1 o.1,
  )

  -- The path of a table that has an entry.
  path-before : (x : ℕ) (ρ : List ℕ) → path' x ≡ some ρ → x ≢ page → path x ≡ some ρ
  path-before x ρ e n = sym (update_ne path page x (some (i ∷ π)) n) ∙ e

  path-spot : (x : ℕ) (ρ : List ℕ) → path x ≡ some ρ → x ≡ t → ρ ≡ π
  path-spot x ρ e y = some-injective ρ π (sym e ∙ ap path y ∙ t_path)

  grown-child :
      (x j : ℕ) (ρ : List ℕ)
      → path' x ≡ some ρ
      → length ρ ≤ u
      → (m'.entry x j).flags.present ≡ true
      → (length ρ ≡ u → (m'.entry x j).flags.size ≡ false)
      → path' (m'.entry x j).addr ≡ some (j ∷ ρ)
  grown-child x j ρ e l p s = elim (ℕ_discrete x page) [
    | yes y ↦ absurd (cc (p, y, ap (λ (z : Entry). z.flags.present) (g.empty j)))
    | no n ↦ old (path-before x ρ e n) (same_entry t i x j) n
  ]
    where
      old :
          path x ≡ some ρ
          → ((x ≡ t) × (j ≡ i)) ⊎ ((x ≢ t) ⊎ (j ≢ i))
          → x ≢ page
          → path' (m'.entry x j).addr ≡ some (j ∷ ρ)
      old b (inl q) n =
          rw (path-spot x ρ b q.0, q.0, q.1, g.addr) (update_self path page (some (i ∷ π)))
      old b (inr q) n =
          let same = g.other x j n q in
          let c = tree.child x j ρ b l (rw same at p) (λ z. rw same at (s z)) in
          rw same (path'-extends (m.entry x j).addr (j ∷ ρ) c)

  grown-large :
      (x j : ℕ) (ρ : List ℕ)
      → path' x ≡ some ρ
      → length ρ ≤ u
      → (m'.entry x j).flags.present ≡ false
      → (m'.entry x j).flags.size ≡ false
  grown-large x j ρ e l p = elim (ℕ_discrete x page) [
    | yes y ↦ rw y (ap (λ (z : Entry). z.flags.size) (g.empty j))
    | no n ↦ old (path-before x ρ e n) (same_entry t i x j) n
  ]
    where
      old :
          path x ≡ some ρ
          → ((x ≡ t) × (j ≡ i)) ⊎ ((x ≢ t) ⊎ (j ≢ i))
          → x ≢ page
          → (m'.entry x j).flags.size ≡ false
      old b (inl q) n = rw (q.0, q.1) g.small
      old b (inr q) n = let same = g.other x j n q in rw same (tree.large x j ρ b l (rw same at p))

  pub grown-Tree : Tree u path' m'
  grown-Tree = record {
    child = grown-child;
    large = grown-large;
    unused = still-unused m'.pages pages-rest.0 pages-rest.1;
    distinct = pages-rest.2;
  }
