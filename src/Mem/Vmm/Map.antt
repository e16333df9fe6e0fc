-- ===== src/Mem/Vmm/Map.antt =====
-- What `vmm_map_page` promises.
use mathlib.Core.Option.{some-injective}
use native.Mathlib.Decide.{ℕ_discrete}
use piggy_os.Common.{
  get_or, ◌/◌, ◌%◌, ◌^◌, ℕ, ◌+◌, ◌≤◌, ◌≡◌, ◌≢◌, ◌⊎◌, inl, inr, refl, sym, ap, ◌∙◌, Bool, true,
  false, some, List, [], ◌∷◌, if◌then◌else◌, length, arith,
}
use piggy_os.Mem.Vmm.{
  Flags, Entry, no_entry, Memory, write, done, and_then, open_table, Pagemap, upper, pml5_index,
  pml4_index, pml3_index, pml2_index, pml1_index, map_leaf, result, vmm_map_page,
  vmm_get_page_mapping, descend,
}
use piggy_os.Mem.Vmm.Tree.{Paths, Tree, look}
use piggy_os.Mem.Vmm.Open.{below, Opened, open_table-Opened}
use piggy_os.Mem.Vmm.Path.{
  and_then-done, open_tables-Opened, descend-step, descend-kept, below-length,
}
use piggy_os.Mem.Vmm.Leaf.{above, write-descend, write-look, write-Tree, write-look_here}

abbrev pub levels : Pagemap → ℕ
levels pagemap = if pagemap.has_level5 then 3 else 2

pub upper-length : (pagemap : Pagemap) (v : ℕ) → length (upper pagemap v) ≡ levels pagemap
upper-length pagemap v = ground arith

-- The indices of a page, the last one first.
abbrev pub page_path : Pagemap → ℕ → List ℕ
page_path pagemap v = pml1_index v ∷ pml2_index v ∷ below (upper pagemap v) []

-- The number of the page of an address that the page map translates.
abbrev pub page_number : Pagemap → ℕ → ℕ
page_number pagemap v = if pagemap.has_level5 then v / 2 ^ 12 % 2 ^ 45 else v / 2 ^ 12 % 2 ^ 36

number_four :
    (v w : ℕ)
    → pml4_index w ≡ pml4_index v
    → pml3_index w ≡ pml3_index v
    → pml2_index w ≡ pml2_index v
    → pml1_index w ≡ pml1_index v
    → w / 2 ^ 12 % 2 ^ 36 ≡ v / 2 ^ 12 % 2 ^ 36
number_four v w e4 e3 e2 e1 = omega arith

number_five :
    (v w : ℕ)
    → pml5_index w ≡ pml5_index v
    → w / 2 ^ 12 % 2 ^ 36 ≡ v / 2 ^ 12 % 2 ^ 36
    → w / 2 ^ 12 % 2 ^ 45 ≡ v / 2 ^ 12 % 2 ^ 45
number_five v w e5 e = omega arith

number-path :
    (pagemap : Pagemap) (v w : ℕ)
    → page_path pagemap w ≡ page_path pagemap v
    → page_number pagemap w ≡ page_number pagemap v
number-path pagemap v w e =
    split pagemap.has_level5 (at_index 0) (at_index 1) (at_index 2) (at_index 3) (at_index 4)
  where
    at_index : (k : ℕ) → get_or (page_path pagemap w) k 0 ≡ get_or (page_path pagemap v) k 0
    at_index k = ap (λ xs. get_or xs k 0) e

    path_of : Bool → ℕ → List ℕ
    path_of b x =
        let lower = pml4_index x ∷ pml3_index x ∷ [] in
        pml1_index x ∷ pml2_index x ∷ below (if b then pml5_index x ∷ lower else lower) []

    split :
        (b : Bool)
        → get_or (path_of b w) 0 0 ≡ get_or (path_of b v) 0 0
        → get_or (path_of b w) 1 0 ≡ get_or (path_of b v) 1 0
        → get_or (path_of b w) 2 0 ≡ get_or (path_of b v) 2 0
        → get_or (path_of b w) 3 0 ≡ get_or (path_of b v) 3 0
        → get_or (path_of b w) 4 0 ≡ get_or (path_of b v) 4 0
        → (if b then w / 2 ^ 12 % 2 ^ 45 else w / 2 ^ 12 % 2 ^ 36)
          ≡ (if b then v / 2 ^ 12 % 2 ^ 45 else v / 2 ^ 12 % 2 ^ 36)
    split false e1 e2 e3 e4 e5 = number_four v w e4 e3 e2 e1
    split true e1 e2 e3 e4 e5 = number_five v w e5 (number_four v w e4 e3 e2 e1)

pub page_apart :
    (pagemap : Pagemap) (v w : ℕ)
    → page_number pagemap w ≢ page_number pagemap v
    → ((pml2_index w ∷ below (upper pagemap w) []) ≢ (pml2_index v ∷ below (upper pagemap v) []))
      ⊎ (pml1_index w ≢ pml1_index v)
page_apart pagemap v w n = elim (ℕ_discrete (pml1_index w) (pml1_index v)) [
  | yes y ↦ inl (λ q. n (number-path pagemap v w (cons_path y q)))
  | no k ↦ inr k
]
  where
    cons_path : {xs ys : List ℕ} {a b : ℕ} → a ≡ b → xs ≡ ys → Path (List ℕ) (a ∷ xs) (b ∷ ys)
    cons_path p q = rw (p, q) refl

-- The page map `pagemap` is a tree from its top level on.
pub record IsValid (pagemap : Pagemap) (m : Memory) : Type 0 where
  pub path : Paths
  pub tree : Tree (levels pagemap) path m
  pub top_path : path pagemap.top_level ≡ some []

-- The address does not lie in a large page.
abbrev pub NotLarge : Pagemap → ℕ → Memory → Type 0
NotLarge pagemap v m =
    (t : ℕ)
    → descend m (upper pagemap v) pagemap.top_level ≡ some t
    → (m.entry t (pml2_index v)).flags.size ≡ false

-- What the page map is after the entry of the page has been written.
module _ (pagemap : Pagemap) (v : ℕ) (flags : Flags) (e : Entry) (m : Memory)
    (valid : IsValid pagemap m) (t2 : ℕ) (m2 : Memory)
    (o2 : Opened (levels pagemap) valid.path m pagemap.top_level (upper pagemap v) [] t2 m2)
    (t1 : ℕ) (m1 : Memory)
    (o1 : Opened
      (levels pagemap)
      o2.after
      m2
      t2
      (pml2_index v ∷ [])
      (below (upper pagemap v) [])
      t1
      m1) where
  abbrev mapped : Memory
  mapped = write t1 (pml1_index v) e m1

  top_path : o1.after pagemap.top_level ≡ some []
  top_path = o1.extends pagemap.top_level [] (o2.extends pagemap.top_level [] valid.top_path)

  deep : (w : ℕ) → length (upper pagemap w) + 0 ≡ levels pagemap
  deep w = omega (arith, upper-length pagemap w)

  low : length (below (upper pagemap v) []) ≡ levels pagemap
  low = omega (arith, below-length (upper pagemap v) [], deep v)

  mapped-IsValid : IsValid pagemap mapped
  mapped-IsValid = record {
    path = o1.after;
    tree =
        write-Tree (levels pagemap) o1.after m1 t1 (pml1_index v)
          (pml2_index v ∷ below (upper pagemap v) []) e o1.tree o1.end_path (omega (arith, low));
    top_path = top_path;
  }

  still-reached : descend m1 (upper pagemap v) pagemap.top_level ≡ some t2
  still-reached =
      descend-kept (levels pagemap) o2.after m2 t2 (pml2_index v ∷ []) (below (upper pagemap v) [])
        t1 m1 o2.tree o1 (upper pagemap v) pagemap.top_level [] t2
        (o2.extends pagemap.top_level [] valid.top_path) (deep v) o2.reached

  mapped-NotLarge : (m1.entry t2 (pml2_index v)).flags.size ≡ false → NotLarge pagemap v mapped
  mapped-NotLarge small t d =
      let τ = pml2_index v ∷ below (upper pagemap v) [] in
      let d' =
        write-descend (levels pagemap) o1.after m1 t1 (pml1_index v) τ e o1.tree o1.end_path
          (omega (arith, low)) (upper pagemap v) pagemap.top_level [] t2 top_path (deep v)
          still-reached in
      let kept =
        above (levels pagemap) o1.after m1 t1 (pml1_index v) τ e o1.tree o1.end_path
          (omega (arith, low)) t2 (pml2_index v) (below (upper pagemap v) [])
          (o1.extends t2 (below (upper pagemap v) []) o2.end_path) (omega (arith, low)) in
      rw (some-injective t t2 (sym d ∙ d'), kept) small

  mapped-here :
      (m1.entry t2 (pml2_index v)).flags.size ≡ false
      → e.flags.present ≡ true
      → look mapped pagemap.top_level (upper pagemap v) (pml2_index v) (pml1_index v) ≡ some e
  mapped-here small p =
      let (pr, a) = descend-step m1 t2 (pml2_index v) t1 o1.reached in
      write-look_here (levels pagemap) o1.after m1 t1 (pml1_index v)
        (pml2_index v ∷ below (upper pagemap v) []) e o1.tree o1.end_path (omega (arith, low))
        (upper pagemap v) pagemap.top_level [] (pml2_index v) t2 top_path (deep v) still-reached
        (o1.extends t2 (below (upper pagemap v) []) o2.end_path) low pr small a
      ∙ rw p refl

  mapped-others :
      (w : ℕ)
      → page_number pagemap w ≢ page_number pagemap v
      → look mapped pagemap.top_level (upper pagemap w) (pml2_index w) (pml1_index w)
        ≡ look m pagemap.top_level (upper pagemap w) (pml2_index w) (pml1_index w)
  mapped-others w n =
      write-look (levels pagemap) o1.after m1 t1 (pml1_index v)
        (pml2_index v ∷ below (upper pagemap v) []) e o1.tree o1.end_path (omega (arith, low))
        (upper pagemap w) pagemap.top_level [] (pml2_index w) (pml1_index w) top_path (deep w)
        (page_apart pagemap v w n)
      ∙ o1.same (upper pagemap w) pagemap.top_level [] (pml2_index w) (pml1_index w)
          (o2.extends pagemap.top_level [] valid.top_path) (deep w)
      ∙ o2.same (upper pagemap w) pagemap.top_level [] (pml2_index w) (pml1_index w) valid.top_path
          (deep w)

map_leaf-table :
    (v paddr : ℕ) (flags : Flags) (t2 : ℕ) (m2 : Memory) (t1 : ℕ) (m1 : Memory)
    → flags.size ≡ false
    → open_table flags t2 (pml2_index v) m2 ≡ done t1 m1
    → map_leaf v paddr flags t2 m2
      ≡ done t1 (write t1 (pml1_index v) (record { addr = paddr; flags = flags }) m1)
unfolding map_leaf
map_leaf-table v paddr flags t2 m2 t1 m1 s made =
    let e : Entry = record { addr = paddr; flags = flags } in
    let next = λ (pml1 : ℕ) (m' : Memory). done pml1 (write pml1 (pml1_index v) e m') in
    ap
      (λ (b : Bool).
        if b
        then done t2 (write t2 (pml2_index v) e m2)
        else and_then (open_table flags t2 (pml2_index v) m2) next)
      s
    ∙ and_then-done (open_table flags t2 (pml2_index v) m2) t1 m1 next made

-- In a page map whose tables form a tree, with pages for the tables that may be missing, vmm_map_page of
-- a page of the ordinary size that does not lie in a large page succeeds: vmm_get_page_mapping then
-- gives its address and flags, and every other page is mapped as before; the tables stay
-- a tree, the page is in no large page, and at most four pages have been used for tables.
pub vmm_map_page_lem :
    (pagemap : Pagemap) (v paddr : ℕ) (flags : Flags) (m : Memory)
    → IsValid pagemap m
    → flags.present ≡ true
    → flags.size ≡ false
    → NotLarge pagemap v m
    → 4 ≤ length m.pages
    → (m' : Memory) × (vmm_map_page pagemap v paddr flags m ≡ some (true, m'))
      × IsValid pagemap m'
      × NotLarge pagemap v m'
      × (vmm_get_page_mapping pagemap v m' ≡ some (record { addr = paddr; flags = flags }))
      × ((w : ℕ)
          → page_number pagemap w ≢ page_number pagemap v
          → vmm_get_page_mapping pagemap w m' ≡ vmm_get_page_mapping pagemap w m)
      × (length m.pages ≤ length m'.pages + 4)
unfolding vmm_map_page vmm_get_page_mapping
vmm_map_page_lem pagemap v paddr flags m valid p s small enough =
    let u_le : levels pagemap ≤ 3 = ground arith in
    let low2 = below-length (upper pagemap v) [] in
    let up = upper-length pagemap v in
    let e : Entry = record { addr = paddr; flags = flags } in
    let (t2, m2, made2, o2) =
      open_tables-Opened (levels pagemap) flags (upper pagemap v) valid.path m pagemap.top_level []
        valid.tree valid.top_path (omega (arith, up)) p (omega (arith, up)) in
    let (t1, m1, made1, o1, small1) =
      open_table-Opened (levels pagemap) o2.after flags m2 t2 (pml2_index v)
        (below (upper pagemap v) []) o2.tree o2.end_path (omega (arith, up, low2)) p
        (λ z. pml2-small o2.fresh) (omega (arith, o2.used, up)) in
    (
      mapped pagemap v flags e m valid t2 m2 o2 t1 m1 o1,
      ap result (
          and_then-done _ t2 m2 (map_leaf v paddr flags) made2
          ∙ map_leaf-table v paddr flags t2 m2 t1 m1 s made1),
      mapped-IsValid pagemap v flags e m valid t2 m2 o2 t1 m1 o1,
      mapped-NotLarge pagemap v flags e m valid t2 m2 o2 t1 m1 o1
          (small1 (omega (arith, up, low2))),
      mapped-here pagemap v flags e m valid t2 m2 o2 t1 m1 o1 (small1 (omega (arith, up, low2))) p,
      mapped-others pagemap v flags e m valid t2 m2 o2 t1 m1 o1,
      omega (arith, o1.used, o2.used, up, u_le),
    )
  where
    pml2-small :
        {t2 : ℕ} {m2 : Memory}
        → ((descend m (upper pagemap v) pagemap.top_level ≡ some t2) × (m2 ≡ m))
          ⊎ ((j : ℕ) → m2.entry t2 j ≡ no_entry)
        → (m2.entry t2 (pml2_index v)).flags.size ≡ false
    pml2-small (inl f) = rw f.1 (small _ f.0)
    pml2-small (inr f) = ap (λ (z : Entry). z.flags.size) (f (pml2_index v))
