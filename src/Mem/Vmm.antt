-- ===== src/Mem/Vmm.antt =====
-- kernel/src/mem/vmm.c: page tables. An entry is the pair of its address bits and its flag bits, so
-- `paddr | flags` of a page's address is a pair, and `& ~PTE_FLAG_MASK` the first part of it; the flags
-- are those that the kernel names. A table is known by its physical address (the offset HIGH_VMA is
-- left out). The code writes the step from one level to the next out for each level above the second;
-- here it is one function over the list of the indices. The invalidation of the TLB is not modelled.
pub mod Tree
pub mod Grow
pub mod Open
pub mod Path
pub mod Leaf
pub mod Map
pub mod Change
pub mod Sample
mod Tests
use piggy_os.Common.{
  ℕ, zero, suc, ◌+◌, ◌-◌, ◌/◌, ◌%◌, ◌^◌, Bool, true, false, not, ◌&&◌, Option, none, some, List, [],
  ◌∷◌, ◌++◌, ◌==◌, if◌then◌else◌, update,
}

-- PTE_PRESENT, PTE_WRITABLE, PTE_USER, PTE_CACHE_DISABLE, PTE_SIZE, PTE_GLOBAL, PTE_NX
pub record Flags : Type 0 where
  pub present : Bool
  pub writable : Bool
  pub user : Bool
  pub cache_disable : Bool
  pub size : Bool
  pub global : Bool
  pub nx : Bool

pub record Entry : Type 0 where
  pub addr : ℕ
  pub flags : Flags

abbrev pub no_entry : Entry
no_entry = record {
  addr = 0;
  flags = record {
    present = false;
    writable = false;
    user = false;
    cache_disable = false;
    size = false;
    global = false;
    nx = false;
  };
}

-- The entries of all tables, and the pages that `pmm_allocz` is going to return, in order.
pub record Memory : Type 0 where
  pub entry : ℕ → ℕ → Entry
  pub pages : List ℕ

-- `struct pagemap`
pub record Pagemap : Type 0 where
  pub top_level : ℕ
  pub has_level5 : Bool

-- `(vaddr & (0x1ffull << shift)) >> shift`
abbrev pub pml5_index : ℕ → ℕ
pml5_index vaddr = vaddr / 2 ^ 48 % 512

abbrev pub pml4_index : ℕ → ℕ
pml4_index vaddr = vaddr / 2 ^ 39 % 512

abbrev pub pml3_index : ℕ → ℕ
pml3_index vaddr = vaddr / 2 ^ 30 % 512

abbrev pub pml2_index : ℕ → ℕ
pml2_index vaddr = vaddr / 2 ^ 21 % 512

abbrev pub pml1_index : ℕ → ℕ
pml1_index vaddr = vaddr / 2 ^ 12 % 512

-- The indices from the top level down to the table that is called pml2.
abbrev pub upper : Pagemap → ℕ → List ℕ
upper pagemap vaddr =
    let below = pml4_index vaddr ∷ pml3_index vaddr ∷ [] in
    if pagemap.has_level5 then pml5_index vaddr ∷ below else below

-- `table[index] = e`
abbrev pub write : ℕ → ℕ → Entry → Memory → Memory
write table index e m = record m { entry = update m.entry table (update (m.entry table) index e) }

-- `(flags & MASKED_FLAGS) | PTE_WRITABLE`
abbrev pub table_flags : Flags → Flags
table_flags flags = record flags { size = false; global = false; nx = false; writable = true }

-- Going on with the address of a table; the end with `false`; a panic for want of memory.
pub data Outcome : Type 0 where
  done : ℕ → Memory → Outcome
  failed : Memory → Outcome
  panicked : Outcome

abbrev pub and_then : Outcome → (ℕ → Memory → Outcome) → Outcome
and_then (done table m) next = next table m
and_then (failed m) next = failed m
and_then panicked next = panicked

-- A page of zeros from `pmm_allocz`, stored in an entry.
unfoldable pub new_table : Flags → ℕ → ℕ → List ℕ → Memory → Outcome
new_table flags table index [] m = panicked
new_table flags table index (page ∷ rest) m =
    let zeroed : Memory = record { entry = update m.entry page (λ i. no_entry); pages = rest } in
    if page == 0
    then failed (write table index no_entry zeroed)
    else done page (write table index (record { addr = page; flags = table_flags flags }) zeroed)

-- The table behind an entry, which is made where the entry is not present.
unfoldable pub open_table : Flags → ℕ → ℕ → Memory → Outcome
open_table flags table index m =
    if (m.entry table index).flags.present
    then done (m.entry table index).addr m
    else new_table flags table index m.pages m

unfoldable pub open_tables : Flags → List ℕ → ℕ → Memory → Outcome
open_tables flags [] table m = done table m
open_tables flags (i ∷ is) table m =
    and_then (open_table flags table i m) (λ next m'. open_tables flags is next m')

-- The end of `vmm_map_page`, from pml2 on.
unfoldable pub map_leaf : ℕ → ℕ → Flags → ℕ → Memory → Outcome
map_leaf vaddr paddr flags pml2 m =
    if flags.size
    then done pml2 (write pml2 (pml2_index vaddr) (record { addr = paddr; flags = flags }) m)
    else and_then (open_table flags pml2 (pml2_index vaddr) m) (λ pml1 m'.
      done pml1 (write pml1 (pml1_index vaddr) (record { addr = paddr; flags = flags }) m'))

abbrev pub result : Outcome → Option (Bool × Memory)
result (done table m) = some (true, m)
result (failed m) = some (false, m)
result panicked = none

-- `vmm_map_page`; `none` is a panic of the allocator.
unfoldable pub vmm_map_page : Pagemap → ℕ → ℕ → Flags → Memory → Option (Bool × Memory)
vmm_map_page pagemap vaddr paddr flags m = result (
    and_then (open_tables flags (upper pagemap vaddr) pagemap.top_level m)
      (map_leaf vaddr paddr flags))

-- The walk of the other operations, which ends at an entry that is not present.
unfoldable pub descend : Memory → List ℕ → ℕ → Option ℕ
descend m [] table = some table
descend m (i ∷ is) table =
    let next = descend m is (m.entry table i).addr in
    if (m.entry table i).flags.present then next else none

-- The end of `vmm_get_page_mapping`, from pml2 on.
unfoldable pub get_leaf : Memory → ℕ → ℕ → ℕ → Option Entry
get_leaf m i2 i1 pml2 =
    let e2 = m.entry pml2 i2 in
    let e1 = m.entry e2.addr i1 in
    if e2.flags.size
    then some e2
    else if e2.flags.present
    then (if e1.flags.present then some e1 else none)
    else none

abbrev pub leaf_of : Memory → ℕ → ℕ → Option ℕ → Option Entry
leaf_of m i2 i1 none = none
leaf_of m i2 i1 (some pml2) = get_leaf m i2 i1 pml2

-- `vmm_get_page_mapping`; `none` is (uintptr_t) -1.
unfoldable pub vmm_get_page_mapping : Pagemap → ℕ → Memory → Option Entry
vmm_get_page_mapping pagemap vaddr m =
    leaf_of m (pml2_index vaddr) (pml1_index vaddr)
      (descend m (upper pagemap vaddr) pagemap.top_level)

-- The ends of `vmm_unmap_page` and `vmm_update_flags`: the entry of the page is changed by `f`.
unfoldable pub change_leaf : (Entry → Entry) → ℕ → ℕ → Memory → Bool × Memory
change_leaf f vaddr pml2 m =
    let e2 = m.entry pml2 (pml2_index vaddr) in
    if e2.flags.size
    then (true, write pml2 (pml2_index vaddr) (f e2) m)
    else if e2.flags.present
    then (true, write e2.addr (pml1_index vaddr) (f (m.entry e2.addr (pml1_index vaddr))) m)
    else (false, m)

unfoldable pub change_page : (Entry → Entry) → Pagemap → ℕ → Memory → Bool × Memory
change_page f pagemap vaddr m = elim (descend m (upper pagemap vaddr) pagemap.top_level) [
  | none ↦ (false, m)
  | some pml2 ↦ change_leaf f vaddr pml2 m
]

-- `vmm_unmap_page`
unfoldable pub vmm_unmap_page : Pagemap → ℕ → Memory → Bool × Memory
vmm_unmap_page pagemap vaddr m = change_page (λ e. no_entry) pagemap vaddr m

-- `vmm_update_flags`
unfoldable pub vmm_update_flags : Pagemap → ℕ → Flags → Memory → Bool × Memory
vmm_update_flags pagemap vaddr flags m =
    change_page (λ e. record e { flags = flags }) pagemap vaddr m

-- The calls that a loop over the entries `i`, ..., `i + n - 1` makes, in order.
unfoldable pub each_entry : ℕ → ℕ → (ℕ → List (ℕ × ℕ)) → List (ℕ × ℕ)
each_entry zero i f = []
each_entry (suc n) i f = f i ++ each_entry n (i + 1) f

-- `destroy_levels_recursive`: the calls of `pmm_free`, each with its page and its number of pages.
unfoldable pub destroy_levels : ℕ → Memory → ℕ → ℕ → ℕ → List (ℕ × ℕ)
destroy_levels zero m level start count = []
destroy_levels (suc zero) m level start count = (level, 1) ∷ []
destroy_levels (suc (suc depth)) m level start count =
    each_entry count start (λ i.
      let e = m.entry level i in
      let big = if e.flags.size && depth == 0 then (level, 512) ∷ [] else [] in
      if e.flags.present then big ++ destroy_levels (suc depth) m e.addr 0 512 else [])
    ++ ((level, 1) ∷ [])

-- `vmm_destroy_pagemap`: the calls of `pmm_free`.
unfoldable pub vmm_destroy_pagemap : Pagemap → Memory → List (ℕ × ℕ)
vmm_destroy_pagemap pagemap m =
    destroy_levels (if pagemap.has_level5 then 5 else 4) m pagemap.top_level 0 256
    ++ ((pagemap.top_level, 1) ∷ [])
