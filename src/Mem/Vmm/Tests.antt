-- ===== src/Mem/Vmm/Tests.antt =====
-- Pages of an empty page map.
use piggy_os.Common.{
  ◌≤◌, ◌+◌, length, ℕ, ◌≡◌, ◌≢◌, ◌⊎◌, refl, true, false, none, some, [], ◌∷◌, arith,
}
use piggy_os.Mem.Vmm.{
  Flags, no_entry, Memory, vmm_map_page, vmm_get_page_mapping, vmm_unmap_page, vmm_destroy_pagemap,
  destroy_levels, each_entry,
}
use piggy_os.Mem.Vmm.Map.{IsValid, NotLarge, page_number, vmm_map_page_lem}
use piggy_os.Mem.Vmm.Sample.{pagemap, empty, empty-IsValid, empty-NotLarge}
use piggy_os.Mem.Vmm.Change.{Changed, vmm_unmap_page_lem}

abbrev user_page : Flags
user_page = record {
  present = true;
  writable = true;
  user = true;
  cache_disable = false;
  size = false;
  global = false;
  nx = true;
}

abbrev read_only : Flags
read_only = record user_page { writable = false }

-- The page at 0x401000 in the frame at 0x70000.
vmm_map_page_lem_example :
    (m' : Memory) × (vmm_map_page pagemap 4198400 458752 user_page empty ≡ some (true, m'))
    × IsValid pagemap m'
    × NotLarge pagemap 4198400 m'
    × (vmm_get_page_mapping pagemap 4198400 m' ≡ some (record { addr = 458752; flags = user_page }))
    × ((w : ℕ)
        → page_number pagemap w ≢ page_number pagemap 4198400
        → vmm_get_page_mapping pagemap w m' ≡ vmm_get_page_mapping pagemap w empty)
    × (4 ≤ length m'.pages + 4)
vmm_map_page_lem_example =
    vmm_map_page_lem pagemap 4198400 458752 user_page empty empty-IsValid refl refl
      (empty-NotLarge 4198400) (omega arith)

-- The same page map with the page in it
abbrev one_page : Memory
one_page =
    (vmm_map_page_lem pagemap 4198400 458752 user_page empty empty-IsValid refl refl
      (empty-NotLarge 4198400) (omega arith)).0

one_page-IsValid : IsValid pagemap one_page
one_page-IsValid =
    (vmm_map_page_lem pagemap 4198400 458752 user_page empty empty-IsValid refl refl
      (empty-NotLarge 4198400) (omega arith)).2

one_page-NotLarge : NotLarge pagemap 4198400 one_page
one_page-NotLarge =
    (vmm_map_page_lem pagemap 4198400 458752 user_page empty empty-IsValid refl refl
      (empty-NotLarge 4198400) (omega arith)).3

is_mapped :
    vmm_get_page_mapping pagemap 4198400 one_page
    ≡ some (record { addr = 458752; flags = user_page })
is_mapped =
    (vmm_map_page_lem pagemap 4198400 458752 user_page empty empty-IsValid refl refl
      (empty-NotLarge 4198400) (omega arith)).4

vmm_unmap_page_lem_example :
    ((vmm_unmap_page pagemap 4198400 one_page ≡ (false, one_page))
      × (vmm_get_page_mapping pagemap 4198400 one_page ≡ none))
    ⊎ ((m' : Memory) × (vmm_unmap_page pagemap 4198400 one_page ≡ (true, m'))
        × Changed pagemap 4198400 no_entry one_page m')
vmm_unmap_page_lem_example =
    vmm_unmap_page_lem pagemap 4198400 one_page one_page-IsValid one_page-NotLarge

-- The top level of an empty page map is freed twice.
destroys : vmm_destroy_pagemap pagemap empty ≡ (4096, 1) ∷ (4096, 1) ∷ []
unfolding vmm_destroy_pagemap destroy_levels each_entry
destroys = refl
