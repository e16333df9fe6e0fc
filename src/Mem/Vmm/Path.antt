-- ===== src/Mem/Vmm/Path.antt =====
-- All the tables on the way down to pml2.
use mathlib.Core.Option.{some-injective}
use piggy_os.Common.{
  ℕ, ◌+◌, ◌≤◌, ◌≡◌, ◌⊎◌, inl, inr, refl, sym, ap, ◌∙◌, true, some, List, [], ◌∷◌, length, arith,
  Bool-cases,
}
use piggy_os.Mem.Vmm.{
  Flags, Entry, no_entry, Memory, Outcome, done, and_then, open_table, open_tables, descend,
}
use piggy_os.Mem.Vmm.Tree.{Paths, Tree, descend-end, descend-present, descend-absent}
use piggy_os.Mem.Vmm.Open.{below, Opened, open_table-Opened}

pub descend-step :
    (m : Memory) (x i t : ℕ)
    → descend m (i ∷ []) x ≡ some t
    → ((m.entry x i).flags.present ≡ true) × ((m.entry x i).addr ≡ t)
descend-step m x i t e = elim (Bool-cases (m.entry x i).flags.present) [
  | inl p ↦ (
    p,
    some-injective (m.entry x i).addr t
        (sym (descend-present m x i [] p ∙ descend-end m (m.entry x i).addr) ∙ e),
  )
  | inr p ↦ absurd (cc (descend-absent m x i [] p, e))
]

module _ (u : ℕ) (path : Paths) (m : Memory) (x i : ℕ) (is ρ : List ℕ) (t1 t2 : ℕ) (m1 m2 : Memory)
    (x_path : path x ≡ some ρ) (o1 : Opened u path m x (i ∷ []) ρ t1 m1)
    (o2 : Opened u o1.after m1 t1 is (i ∷ ρ) t2 m2) where
  open-reached : descend m2 (i ∷ is) x ≡ some t2
  open-reached =
      let (p, a) = descend-step m1 x i t1 o1.reached in
      let same = o2.kept x i ρ (o1.extends x ρ x_path) p in
      descend-present m2 x i is (rw same p) ∙ rw (same, a) o2.reached

  open-fresh : ((descend m (i ∷ is) x ≡ some t2) × (m2 ≡ m)) ⊎ ((j : ℕ) → m2.entry t2 j ≡ no_entry)
  open-fresh = cases o1.fresh o2.fresh is refl
    where
      cases :
          ((descend m (i ∷ []) x ≡ some t1) × (m1 ≡ m)) ⊎ ((j : ℕ) → m1.entry t1 j ≡ no_entry)
          → ((descend m1 is t1 ≡ some t2) × (m2 ≡ m1)) ⊎ ((j : ℕ) → m2.entry t2 j ≡ no_entry)
          → (js : List ℕ) → is ≡ js
          → ((descend m (i ∷ is) x ≡ some t2) × (m2 ≡ m)) ⊎ ((j : ℕ) → m2.entry t2 j ≡ no_entry)
      cases f (inr e) js q = inr e
      cases (inl f) (inl e) js q =
          let (p, a) = descend-step m x i t1 f.0 in
          inl (descend-present m x i is p ∙ rw a (rw f.1 at e.0), e.1 ∙ f.1)
      cases (inr f) (inl e) [] q =
          let same : t1 ≡ t2 = some-injective t1 t2 (sym (descend-end m1 t1) ∙ (rw q at e.0)) in
          inr (λ j. rw (e.1, sym same) (f j))
      cases (inr f) (inl e) (j ∷ js) q =
          absurd
            (cc (descend-absent m1 t1 j js (ap (λ (z : Entry). z.flags.present) (f j)), e.0, q))

  Opened-trans : Opened u path m x (i ∷ is) ρ t2 m2
  Opened-trans = record {
    after = o2.after;
    tree = o2.tree;
    extends = λ y σ e. o2.extends y σ (o1.extends y σ e);
    end_path = o2.end_path;
    reached = open-reached;
    kept = λ y j σ e p.
        let same = o1.kept y j σ e p in o2.kept y j σ (o1.extends y σ e) (rw same p) ∙ same;
    same = λ js y σ i2 i1 e l. o2.same js y σ i2 i1 (o1.extends y σ e) l ∙ o1.same js y σ i2 i1 e l;
    fresh = open-fresh;
    used = omega (arith, o1.used, o2.used);
  }

pub and_then-done :
    (o : Outcome) (t : ℕ) (m : Memory) (next : ℕ → Memory → Outcome)
    → o ≡ done t m
    → and_then o next ≡ next t m
and_then-done o t m next e = rw e refl

-- With enough pages the walk of `vmm_map_page` gets to pml2.
pub open_tables-Opened :
    (u : ℕ) (flags : Flags) (is : List ℕ) (path : Paths) (m : Memory) (x : ℕ) (ρ : List ℕ)
    → Tree u path m
    → path x ≡ some ρ
    → length is + length ρ ≡ u
    → flags.present ≡ true
    → length is ≤ length m.pages
    → (t : ℕ) × (m' : Memory) × (open_tables flags is x m ≡ done t m') × Opened u path m x is ρ t m'
unfolding open_tables
open_tables-Opened u flags [] path m x ρ tree x_path l p enough = (
  x,
  m,
  refl,
  record {
    after = path;
    tree = tree;
    extends = λ y σ e. e;
    end_path = x_path;
    reached = descend-end m x;
    kept = λ y j σ e q. refl;
    same = λ js y σ i2 i1 e q. refl;
    fresh = inl (descend-end m x, refl);
    used = omega arith;
  },
)
open_tables-Opened u flags (i ∷ is) path m x ρ tree x_path l p enough =
    let (t1, m1, made1, o1, small1) =
      open_table-Opened u path flags m x i ρ tree x_path (omega arith) p (λ q. absurd (omega arith))
        (omega arith) in
    let (t2, m2, made2, o2) =
      open_tables-Opened u flags is o1.after m1 t1 (i ∷ ρ) o1.tree o1.end_path (omega arith) p
        (omega (arith, o1.used)) in
    (
      t2,
      m2,
      and_then-done (open_table flags x i m) t1 m1 (λ t m'. open_tables flags is t m') made1
          ∙ made2,
      Opened-trans u path m x i is ρ t1 t2 m1 m2 x_path o1 o2,
    )

-- A walk that ends at a table still ends there once more tables have been made.
pub descend-kept :
    (u : ℕ) (path : Paths) (m : Memory) (x : ℕ) (is ρ : List ℕ) (t : ℕ) (m' : Memory)
    → Tree u path m
    → Opened u path m x is ρ t m'
    → (js : List ℕ) (y : ℕ) (σ : List ℕ) (end : ℕ) → path y ≡ some σ
    → length js + length σ ≡ u
    → descend m js y ≡ some end
    → descend m' js y ≡ some end
descend-kept u path m x is ρ t m' tree o [] y σ end p l d =
    descend-end m' y ∙ sym (descend-end m y) ∙ d
descend-kept u path m x is ρ t m' tree o (j ∷ js) y σ end p l d =
    elim (Bool-cases (m.entry y j).flags.present) [
      | inl q ↦
          let same = o.kept y j σ p q in
          let c = tree.child y j σ p (omega arith) q (λ z. absurd (omega arith)) in
          descend-present m' y j js (rw same q)
          ∙ rw same (
              descend-kept u path m x is ρ t m' tree o js (m.entry y j).addr (j ∷ σ) end c
                (omega arith) (sym (descend-present m y j js q) ∙ d))
      | inr q ↦ absurd (cc (descend-absent m y j js q, d))
    ]

pub below-length : (is ρ : List ℕ) → length (below is ρ) ≡ length is + length ρ
below-length [] ρ = omega arith
below-length (i ∷ is) ρ = omega (arith, below-length is (i ∷ ρ))
