-- ===== src/Mem/Vmm/Change.antt =====
-- What `vmm_unmap_page` and `vmm_update_flags` promise.
use mathlib.Core.Option.{some-injective}
use piggy_os.Common.{
  ℕ, ◌+◌, ◌≡◌, ◌≢◌, ◌⊎◌, inl, inr, refl, sym, ap, ◌∙◌, true, false, none, some, List, [], ◌∷◌,
  if◌then◌else◌, length, arith, Bool-cases, Option-cases,
}
use piggy_os.Mem.Vmm.{
  Flags, Entry, no_entry, Memory, write, Pagemap, upper, pml2_index, pml1_index,
  vmm_get_page_mapping, vmm_unmap_page, vmm_update_flags, change_leaf, change_page, descend,
  leaf_of,
}
use piggy_os.Mem.Vmm.Tree.{
  get_leaf-absent, get_leaf-table, descend-end, descend-present, descend-absent,
}
use piggy_os.Mem.Vmm.Open.{below}
use piggy_os.Mem.Vmm.Path.{below-length}
use piggy_os.Mem.Vmm.Leaf.{write-look, write-Tree, write-look_here}
use piggy_os.Mem.Vmm.Map.{levels, upper-length, page_number, page_apart, IsValid, NotLarge}

-- The entry of the page `v` has been replaced by `e`, and the others are as before.
pub record Changed (pagemap : Pagemap) (v : ℕ) (e : Entry) (m m' : Memory) : Type 0 where
  pub valid : IsValid pagemap m'
  pub here : vmm_get_page_mapping pagemap v m' ≡ (if e.flags.present then some e else none)
  pub others :
      (w : ℕ)
      → page_number pagemap w ≢ page_number pagemap v
      → vmm_get_page_mapping pagemap w m' ≡ vmm_get_page_mapping pagemap w m

abbrev Result : Pagemap → ℕ → (Entry → Entry) → Memory → Type 0
Result pagemap v f m =
    ((change_page f pagemap v m ≡ (false, m)) × (vmm_get_page_mapping pagemap v m ≡ none))
    ⊎ ((e : Entry) × (m' : Memory) × (change_page f pagemap v m ≡ (true, m'))
        × (vmm_get_page_mapping pagemap v m ≡ (if e.flags.present then some e else none))
        × Changed pagemap v (f e) m m')

change_page-none :
    (f : Entry → Entry) (pagemap : Pagemap) (v : ℕ) (m : Memory)
    → descend m (upper pagemap v) pagemap.top_level ≡ none
    → change_page f pagemap v m ≡ (false, m)
unfolding change_page
change_page-none f pagemap v m d = rw (d, change_page) refl

change_page-some :
    (f : Entry → Entry) (pagemap : Pagemap) (v : ℕ) (m : Memory) (t2 : ℕ)
    → descend m (upper pagemap v) pagemap.top_level ≡ some t2
    → change_page f pagemap v m ≡ change_leaf f v t2 m
unfolding change_page
change_page-some f pagemap v m t2 d = rw (d, change_page) refl

change_leaf-table :
    (f : Entry → Entry) (v t2 : ℕ) (m : Memory)
    → (m.entry t2 (pml2_index v)).flags.size ≡ false
    → (m.entry t2 (pml2_index v)).flags.present ≡ true
    → let t1 = (m.entry t2 (pml2_index v)).addr in
      change_leaf f v t2 m ≡ (true, write t1 (pml1_index v) (f (m.entry t1 (pml1_index v))) m)
unfolding change_leaf
change_leaf-table f v t2 m s p = rw s (rw p refl)

change_leaf-absent :
    (f : Entry → Entry) (v t2 : ℕ) (m : Memory)
    → (m.entry t2 (pml2_index v)).flags.size ≡ false
    → (m.entry t2 (pml2_index v)).flags.present ≡ false
    → change_leaf f v t2 m ≡ (false, m)
unfolding change_leaf
change_leaf-absent f v t2 m s p = rw s (rw p refl)

module _ (pagemap : Pagemap) (v : ℕ) (m : Memory) (valid : IsValid pagemap m) where
  deep : (w : ℕ) → length (upper pagemap w) + 0 ≡ levels pagemap
  deep w = omega (arith, upper-length pagemap w)

  low : length (below (upper pagemap v) []) ≡ levels pagemap
  low = omega (arith, below-length (upper pagemap v) [], deep v)

  descend-path :
      (js : List ℕ) (y : ℕ) (σ : List ℕ) (end : ℕ)
      → valid.path y ≡ some σ
      → length js + length σ ≡ levels pagemap
      → descend m js y ≡ some end
      → valid.path end ≡ some (below js σ)
  descend-path [] y σ end p l d =
      sym (ap valid.path (some-injective y end (sym (descend-end m y) ∙ d))) ∙ p
  descend-path (j ∷ js) y σ end p l d = elim (Bool-cases (m.entry y j).flags.present) [
    | inl q ↦
        descend-path js (m.entry y j).addr (j ∷ σ) end
          (valid.tree.child y j σ p (omega arith) q (λ z. absurd (omega arith))) (omega arith)
          (sym (descend-present m y j js q) ∙ d)
    | inr q ↦ absurd (cc (descend-absent m y j js q, d))
  ]

  write-Changed :
      (t2 : ℕ) (e : Entry)
      → descend m (upper pagemap v) pagemap.top_level ≡ some t2
      → (m.entry t2 (pml2_index v)).flags.present ≡ true
      → (m.entry t2 (pml2_index v)).flags.size ≡ false
      → Changed pagemap v e m (write (m.entry t2 (pml2_index v)).addr (pml1_index v) e m)
  unfolding vmm_get_page_mapping
  write-Changed t2 e d p s =
      let end = descend-path (upper pagemap v) pagemap.top_level [] t2 valid.top_path (deep v) d in
      let c =
        valid.tree.child t2 (pml2_index v) (below (upper pagemap v) []) end (omega (arith, low)) p
          (λ z. s) in
      let t1 = (m.entry t2 (pml2_index v)).addr in
      record {
        valid = record {
          path = valid.path;
          tree =
              write-Tree (levels pagemap) valid.path m t1 (pml1_index v)
                (pml2_index v ∷ below (upper pagemap v) []) e valid.tree c (omega (arith, low));
          top_path = valid.top_path;
        };
        here =
            write-look_here (levels pagemap) valid.path m t1 (pml1_index v)
              (pml2_index v ∷ below (upper pagemap v) []) e valid.tree c (omega (arith, low))
              (upper pagemap v) pagemap.top_level [] (pml2_index v) t2 valid.top_path (deep v) d end
              low p s refl;
        others = λ w n.
            write-look (levels pagemap) valid.path m t1 (pml1_index v)
              (pml2_index v ∷ below (upper pagemap v) []) e valid.tree c (omega (arith, low))
              (upper pagemap w) pagemap.top_level [] (pml2_index w) (pml1_index w) valid.top_path
              (deep w) (page_apart pagemap v w n);
      }

  -- Where the page has no table nothing is changed and the page is not mapped.
  change_page-Changed : (f : Entry → Entry) → NotLarge pagemap v m → Result pagemap v f m
  unfolding vmm_get_page_mapping
  change_page-Changed f small =
      elim (Option-cases (descend m (upper pagemap v) pagemap.top_level)) [
        | inl d ↦
            inl (change_page-none f pagemap v m d, ap (leaf_of m (pml2_index v) (pml1_index v)) d)
        | inr (t2, d) ↦ at_pml2 t2 d (Bool-cases (m.entry t2 (pml2_index v)).flags.present)
      ]
    where
      at_pml2 :
          (t2 : ℕ)
          → descend m (upper pagemap v) pagemap.top_level ≡ some t2
          → ((m.entry t2 (pml2_index v)).flags.present ≡ true)
            ⊎ ((m.entry t2 (pml2_index v)).flags.present ≡ false)
          → Result pagemap v f m
      at_pml2 t2 d (inl p) =
          let s = small t2 d in
          let t1 = (m.entry t2 (pml2_index v)).addr in
          inr (
            m.entry t1 (pml1_index v),
            write t1 (pml1_index v) (f (m.entry t1 (pml1_index v))) m,
            change_page-some f pagemap v m t2 d ∙ change_leaf-table f v t2 m s p,
            ap (leaf_of m (pml2_index v) (pml1_index v)) d
                ∙ get_leaf-table m (pml2_index v) (pml1_index v) t2 s p,
            write-Changed t2 (f (m.entry t1 (pml1_index v))) d p s,
          )
      at_pml2 t2 d (inr p) =
          let s = small t2 d in
          inl (
            change_page-some f pagemap v m t2 d ∙ change_leaf-absent f v t2 m s p,
            ap (leaf_of m (pml2_index v) (pml1_index v)) d
                ∙ get_leaf-absent m (pml2_index v) (pml1_index v) t2 s p,
          )

-- In a page map whose tables form a tree, and for a page that does not lie in a large page:
-- vmm_unmap_page fails and changes nothing where the page has no table, and the page was not mapped then;
-- else it succeeds, the page is not mapped afterwards, and every other page is mapped as before.
pub vmm_unmap_page_lem :
    (pagemap : Pagemap) (v : ℕ) (m : Memory)
    → IsValid pagemap m
    → NotLarge pagemap v m
    → ((vmm_unmap_page pagemap v m ≡ (false, m)) × (vmm_get_page_mapping pagemap v m ≡ none))
      ⊎ ((m' : Memory) × (vmm_unmap_page pagemap v m ≡ (true, m'))
          × Changed pagemap v no_entry m m')
unfolding vmm_unmap_page
vmm_unmap_page_lem pagemap v m valid small =
    elim (change_page-Changed pagemap v m valid (λ e. no_entry) small) [
      | inl r ↦ inl r
      | inr (e, m', r, g, c) ↦ inr (m', r, c)
    ]

-- In a page map whose tables form a tree, and for a page that is mapped and does not lie in a large page,
-- vmm_update_flags succeeds: the page has the new flags and its old address, where the flags have the
-- present bit, and every other page is mapped as before.
pub vmm_update_flags_lem :
    (pagemap : Pagemap) (v : ℕ) (flags : Flags) (e : Entry) (m : Memory)
    → IsValid pagemap m
    → NotLarge pagemap v m
    → vmm_get_page_mapping pagemap v m ≡ some e
    → (m' : Memory) × (vmm_update_flags pagemap v flags m ≡ (true, m'))
      × Changed pagemap v (record e { flags = flags }) m m'
unfolding vmm_update_flags
vmm_update_flags_lem pagemap v flags e m valid small g =
    elim (change_page-Changed pagemap v m valid (λ z. record z { flags = flags }) small) [
      | inl r ↦ absurd (cc (r.1, g))
      | inr (e', m', r, g', c) ↦ (m', r, rw (mapped e' (sym g' ∙ g)) at c)
    ]
  where
    mapped : (e' : Entry) → (if e'.flags.present then some e' else none) ≡ some e → e' ≡ e
    mapped e' q = elim (Bool-cases e'.flags.present) [
      | inl p ↦ some-injective e' e (sym (ap (λ b. if b then some e' else none) p) ∙ q)
      | inr p ↦ absurd (cc (ap (λ b. if b then some e' else none) p, q))
    ]
