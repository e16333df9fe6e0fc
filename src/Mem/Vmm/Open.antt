-- ===== src/Mem/Vmm/Open.antt =====
-- The tables that `vmm_map_page` makes on its way.
use mathlib.Core.Path.{subst}
use piggy_os.Common.{
  ℕ, ◌+◌, ◌≤◌, ◌≡◌, ◌≢◌, ◌⊎◌, inl, inr, refl, ap, ◌∙◌, true, false, none, some, List, [], ◌∷◌,
  update, update_self, update_ne, ne→==, All, length, arith, Bool-cases,
}
use piggy_os.Mem.Vmm.{
  Flags, Entry, no_entry, Memory, write, table_flags, done, new_table, open_table, descend,
}
use piggy_os.Mem.Vmm.Tree.{Paths, Tree, look, descend-end, descend-present, write-here, write-other}
use piggy_os.Mem.Vmm.Grow.{Grown, path', path'-extends, kept, look-same, grown-Tree}

-- The path of the table behind the indices `is` below a table.
abbrev pub below : List ℕ → List ℕ → List ℕ
below [] ρ = ρ
below (i ∷ is) ρ = below is (i ∷ ρ)

-- From `m` to `m'` the tables on the way down from `x` have been made, as far as they were missing; `t` is
-- the last of them.
pub record Opened (u : ℕ) (path : Paths) (m : Memory) (x : ℕ) (is ρ : List ℕ) (t : ℕ) (m' : Memory)
    : Type 0 where
  pub after : Paths
  pub tree : Tree u after m'
  pub extends : (y : ℕ) (σ : List ℕ) → path y ≡ some σ → after y ≡ some σ
  pub end_path : after t ≡ some (below is ρ)
  pub reached : descend m' is x ≡ some t
  pub kept :
      (y j : ℕ) (σ : List ℕ)
      → path y ≡ some σ
      → (m.entry y j).flags.present ≡ true
      → m'.entry y j ≡ m.entry y j
  pub same :
      (js : List ℕ) (y : ℕ) (σ : List ℕ) (i2 i1 : ℕ)
      → path y ≡ some σ
      → length js + length σ ≡ u
      → look m' y js i2 i1 ≡ look m y js i2 i1
  pub fresh : ((descend m is x ≡ some t) × (m' ≡ m)) ⊎ ((j : ℕ) → m'.entry t j ≡ no_entry)
  pub used : length m.pages ≤ length m'.pages + length is

new_table-done :
    (flags : Flags) (t i page : ℕ) (rest : List ℕ) (m : Memory)
    → page ≢ 0
    → new_table flags t i (page ∷ rest) m
      ≡ done page (
          write t i
            (record { addr = page; flags = table_flags flags })
            (record { entry = update m.entry page (λ j. no_entry); pages = rest }))
unfolding new_table
new_table-done flags t i page rest m nz = rw (ne→== page 0 nz) refl

new_table-Grown :
    (flags : Flags) (t i page : ℕ) (rest : List ℕ) (m : Memory)
    → flags.present ≡ true
    → m.pages ≡ page ∷ rest
    → page ≢ 0
    → page ≢ t
    → (m' : Memory) × (new_table flags t i m.pages m ≡ done page m') × Grown t i page m m'
new_table-Grown flags t i page rest m p taken nz n = (
  write t i e zeroed,
  ap (λ ps. new_table flags t i ps m) taken ∙ new_table-done flags t i page rest m nz,
  record {
    addr = ap (λ (z : Entry). z.addr) here;
    present = ap (λ (z : Entry). z.flags.present) here ∙ p;
    small = ap (λ (z : Entry). z.flags.size) here;
    empty = λ j. write-other t i e zeroed page j (inl n) ∙ cleared j;
    other = λ x j k q. write-other t i e zeroed x j q ∙ others x j k;
    taken = taken;
  },
)
  where
    e : Entry
    e = record { addr = page; flags = table_flags flags }

    zeroed : Memory
    zeroed = record { entry = update m.entry page (λ i. no_entry); pages = rest }

    here : (write t i e zeroed).entry t i ≡ e
    here = write-here t i e zeroed

    cleared : (j : ℕ) → zeroed.entry page j ≡ no_entry
    cleared j = ap (λ (f : ℕ → Entry). f j) (update_self m.entry page (λ i. no_entry))

    others : (x j : ℕ) → x ≢ page → zeroed.entry x j ≡ m.entry x j
    others x j k = ap (λ (f : ℕ → Entry). f j) (update_ne m.entry page x (λ i. no_entry) k)

module _ (u : ℕ) (path : Paths) (flags : Flags) (m : Memory) (x i : ℕ) (ρ : List ℕ)
    (tree : Tree u path m) (x_path : path x ≡ some ρ) (high : length ρ ≤ u)
    (present_flag : flags.present ≡ true) where
  open-here :
      (m.entry x i).flags.present ≡ true
      → (length ρ ≡ u → (m.entry x i).flags.size ≡ false)
      → Opened u path m x (i ∷ []) ρ (m.entry x i).addr m
  open-here p s = record {
    after = path;
    tree = tree;
    extends = λ y σ e. e;
    end_path = tree.child x i ρ x_path high p s;
    reached = goes;
    kept = λ y j σ e q. refl;
    same = λ js y σ i2 i1 e l. refl;
    fresh = inl (goes, refl);
    used = omega arith;
  }
    where
      goes : descend m (i ∷ []) x ≡ some (m.entry x i).addr
      goes = descend-present m x i [] p ∙ descend-end m (m.entry x i).addr

  open-new :
      (page : ℕ) (m' : Memory)
      → (m.entry x i).flags.present ≡ false
      → Grown x i page m m'
      → Opened u path m x (i ∷ []) ρ page m'
  open-new page m' a g = record {
    after = path' u path m m' x i page ρ tree x_path high a g;
    tree = grown-Tree u path m m' x i page ρ tree x_path high a g;
    extends = path'-extends u path m m' x i page ρ tree x_path high a g;
    end_path = update_self path page (some (i ∷ ρ));
    reached =
        descend-present m' x i [] g.present ∙ descend-end m' (m'.entry x i).addr ∙ ap some g.addr;
    kept = kept u path m m' x i page ρ tree x_path high a g;
    same = look-same u path m m' x i page ρ tree x_path high a g;
    fresh = inr g.empty;
    used = omega (arith, ap length g.taken);
  }

  -- One entry on the way: the table behind it exists afterwards.
  pub open_table-Opened :
      (length ρ ≡ u → (m.entry x i).flags.size ≡ false)
      → 1 ≤ length m.pages
      → (t : ℕ) × (m' : Memory) × (open_table flags x i m ≡ done t m')
        × Opened u path m x (i ∷ []) ρ t m'
        × (length ρ ≡ u → (m'.entry x i).flags.size ≡ false)
  unfolding open_table
  open_table-Opened s enough = elim (Bool-cases (m.entry x i).flags.present) [
    | inl p ↦ ((m.entry x i).addr, m, rw (p, open_table) refl, open-here p s, s)
    | inr p ↦
        (let (page, rest, taken, nz, n) = first m.pages refl in
          let (m', made, g) = new_table-Grown flags x i page rest m present_flag taken nz n in
          (page, m', rw (p, open_table) made, open-new page m' p g, λ q. g.small))
  ]
    where
      first :
          (ps : List ℕ)
          → m.pages ≡ ps
          → (page : ℕ) × (rest : List ℕ) × (m.pages ≡ page ∷ rest) × (page ≢ 0) × (page ≢ x)
      first [] e = absurd (omega (arith, ap length e, enough))
      first (page ∷ rest) e =
          let all = subst (All (λ p. (path p ≡ none) × (p ≢ 0))) e tree.unused in
          (page, rest, e, all.0.1, λ y. cc (y, all.0.0, x_path))
