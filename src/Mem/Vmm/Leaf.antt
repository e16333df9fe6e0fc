-- ===== src/Mem/Vmm/Leaf.antt =====
-- An entry of the lowest level that is written.
use mathlib.Core.Option.{some-injective}
use piggy_os.Common.{
  ℕ, suc, ◌+◌, ◌≤◌, ◌<◌, ◌≡◌, ◌≢◌, ◌⊎◌, inl, inr, refl, sym, ap, ◌∙◌, true, false, none, some, List,
  [], ◌∷◌, if◌then◌else◌, length, arith, Bool-cases,
}
use piggy_os.Mem.Vmm.{Entry, Memory, write, descend, leaf_of}
use piggy_os.Mem.Vmm.Tree.{
  Paths, Tree, look, get_leaf-table, descend-end, descend-present, descend-absent, look-step,
  get_leaf-same, write-here, write-other,
}
use piggy_os.Mem.Vmm.Open.{below}

module _ (u : ℕ) (path : Paths) (m : Memory) (T i1 : ℕ) (τ : List ℕ) (e : Entry)
    (tree : Tree u path m) (T_path : path T ≡ some τ) (low : length τ ≡ suc u) where
  higher : (y : ℕ) (σ : List ℕ) → path y ≡ some σ → length σ ≤ u → y ≢ T
  higher y σ p l q =
      let lengths : length σ ≡ length τ =
        ap length (some-injective σ τ (sym p ∙ ap path q ∙ T_path)) in
      omega arith

  pub above :
      (y j : ℕ) (σ : List ℕ)
      → path y ≡ some σ
      → length σ ≤ u
      → (write T i1 e m).entry y j ≡ m.entry y j
  above y j σ p l = write-other T i1 e m y j (inl (higher y σ p l))

  child-path :
      (x j : ℕ) (ρ : List ℕ)
      → path x ≡ some ρ
      → length ρ < u
      → (m.entry x j).flags.present ≡ true
      → path (m.entry x j).addr ≡ some (j ∷ ρ)
  child-path x j ρ q l p = tree.child x j ρ q (omega arith) p (λ z. absurd (omega arith))

  -- Every other page is mapped as before.
  pub write-look :
      (js : List ℕ) (y : ℕ) (σ : List ℕ) (j2 j1 : ℕ)
      → path y ≡ some σ
      → length js + length σ ≡ u
      → ((j2 ∷ below js σ) ≢ τ) ⊎ (j1 ≢ i1)
      → look (write T i1 e m) y js j2 j1 ≡ look m y js j2 j1
  unfolding descend
  write-look [] y σ j2 j1 p l n =
      get_leaf-same m (write T i1 e m) y j2 j1 (above y j2 σ p (omega arith)) λ s q.
        write-other T i1 e m (m.entry y j2).addr j1
          (apart (tree.child y j2 σ p (omega arith) q (λ z. s)) n)
    where
      apart :
          path (m.entry y j2).addr ≡ some (j2 ∷ σ)
          → ((j2 ∷ σ) ≢ τ) ⊎ (j1 ≢ i1)
          → ((m.entry y j2).addr ≢ T) ⊎ (j1 ≢ i1)
      apart c (inl k) = inl (λ q. k (some-injective (j2 ∷ σ) τ (sym c ∙ ap path q ∙ T_path)))
      apart c (inr k) = inr k
  write-look (j ∷ js) y σ j2 j1 p l n =
      look-step m (write T i1 e m) y j js j2 j1 (above y j σ p (omega arith)) λ q.
        write-look js (m.entry y j).addr (j ∷ σ) j2 j1 (child-path y j σ p (omega arith) q)
          (omega arith) n

  pub write-descend :
      (js : List ℕ) (y : ℕ) (σ : List ℕ) (t : ℕ)
      → path y ≡ some σ
      → length js + length σ ≡ u
      → descend m js y ≡ some t
      → descend (write T i1 e m) js y ≡ some t
  write-descend [] y σ t p l d = descend-end (write T i1 e m) y ∙ sym (descend-end m y) ∙ d
  write-descend (j ∷ js) y σ t p l d = elim (Bool-cases (m.entry y j).flags.present) [
    | inl q ↦
        let same = above y j σ p (omega arith) in
        descend-present (write T i1 e m) y j js (rw same q)
        ∙ rw same (
            write-descend js (m.entry y j).addr (j ∷ σ) t (child-path y j σ p (omega arith) q)
              (omega arith) (sym (descend-present m y j js q) ∙ d))
    | inr q ↦ absurd (cc (descend-absent m y j js q, d))
  ]

  pub write-Tree : Tree u path (write T i1 e m)
  write-Tree = record {
    child = λ t i π p l q s.
        let same = above t i π p l in
        rw same (tree.child t i π p l (rw same at q) (λ z. rw same at (s z)));
    large =
        λ t i π p l q. let same = above t i π p l in rw same (tree.large t i π p l (rw same at q));
    unused = tree.unused;
    distinct = tree.distinct;
  }

  -- The page of the entry is mapped by it.
  pub write-look_here :
      (js : List ℕ) (y : ℕ) (σ : List ℕ) (j2 pml2 : ℕ)
      → path y ≡ some σ
      → length js + length σ ≡ u
      → descend m js y ≡ some pml2
      → path pml2 ≡ some (below js σ)
      → length (below js σ) ≡ u
      → (m.entry pml2 j2).flags.present ≡ true
      → (m.entry pml2 j2).flags.size ≡ false
      → (m.entry pml2 j2).addr ≡ T
      → look (write T i1 e m) y js j2 i1 ≡ (if e.flags.present then some e else none)
  write-look_here js y σ j2 pml2 p l d pp pl pr sz a =
      let w = write T i1 e m in
      let same = above pml2 j2 (below js σ) pp (omega arith) in
      ap (leaf_of w j2 i1) (write-descend js y σ pml2 p l d)
      ∙ get_leaf-table w j2 i1 pml2 (rw same sz) (rw same pr)
      ∙ rw (same, a, write-here T i1 e m) refl
