-- ===== src/Fs/Vfs.antt =====
-- kernel/src/fs/vfs.c: the tree of files. A node is an address in a store. Links and mount points
-- are followed for a number of steps that is an argument, and `none` is a chain of them that is
-- longer.
pub mod Names
pub mod Walk
pub mod Create
pub mod Found
mod Tests
use piggy_os.Common.{
  ◌++◌, ltb, ℕ, zero, suc, Bool, true, false, not, ◌&&◌, Option, none, some, List, [], ◌∷◌, length,
  bit_and, ◌==◌, if◌then◌else◌,
}
use piggy_os.Utils.Str.{strlen}
use piggy_os.Utils.Hashmap.{Hashmap, hashmap_get}

-- The fields of `struct vfs_node` that the tree is made of
pub record VfsNode : Type 0 where
  pub name : List ℕ
  pub st_mode : ℕ
  pub parent : Option ℕ
  pub mountpoint : Option ℕ
  pub link : Option ℕ
  pub children : Option Hashmap
  pub fs : ℕ

-- The nodes by their addresses, `vfs_root`, and what stands in the pages that `kmalloc` gives for a copy of
-- the first element of a path, behind the copy and up to a NUL
pub record FileTree : Type 0 where
  pub node : ℕ → VfsNode
  pub vfs_root : ℕ
  pub stale : List ℕ → List ℕ

abbrev pub s_isdir : VfsNode → Bool
s_isdir n = bit_and n.st_mode 0xf000 == 0x5000

-- `vfs_reduce_node`
unfoldable pub vfs_reduce_node : ℕ → FileTree → ℕ → Option ℕ
vfs_reduce_node zero t n = none
vfs_reduce_node (suc depth) t n = elim (t.node n).link [
  | some l ↦ vfs_reduce_node depth t l
  | none ↦ elim (t.node n).mountpoint [ some m ↦ vfs_reduce_node depth t m | none ↦ some n ]
]

-- `hashmap_get(node->children, name, strlen(name))`, where NULL and a map of no buckets hold
-- nothing.
unfoldable pub child : FileTree → ℕ → List ℕ → Option ℕ
child t n name = elim (t.node n).children [
  | none ↦ none
  | some map ↦ elim (hashmap_get map name (strlen name)) [ none ↦ none | some found ↦ found ]
]

-- `struct path2node_res`
pub record Path2NodeRes : Type 0 where
  pub res_parent : Option ℕ
  pub res_node : Option ℕ

abbrev pub no_res : Path2NodeRes
no_res = record { res_parent = none; res_node = none }

-- The element of a path up to a slash, and the path from there on
unfoldable pub before_slash : List ℕ → List ℕ
before_slash [] = []
before_slash (c ∷ s) = let more = c ∷ before_slash s in if c == b'/' then [] else more

unfoldable pub from_slash : List ℕ → List ℕ
from_slash [] = []
from_slash (c ∷ s) = let rest = from_slash s in if c == b'/' then c ∷ s else rest

unfoldable pub skip_slashes : List ℕ → List ℕ
skip_slashes [] = []
skip_slashes (c ∷ s) = let rest = skip_slashes s in if c == b'/' then rest else c ∷ s

-- `path[path_len - 1] == '/'`
unfoldable pub ends_in_slash : List ℕ → Bool
ends_in_slash [] = false
ends_in_slash (c ∷ []) = c == b'/'
ends_in_slash (c ∷ d ∷ s) = ends_in_slash (d ∷ s)

-- Going on with a node
abbrev pub and_node {ℓ} : {A : Type ℓ} → Option ℕ → (ℕ → Option A) → Option A
and_node none next = none
and_node (some n) next = next n

abbrev pub is_empty : List ℕ → Bool
is_empty [] = true
is_empty (c ∷ s) = false

-- `elem_str`: a copy of the first element of a path without a NUL behind it. `kmalloc` zeroes an object of up
-- to 2048 bytes, but not the pages that it gives for more.
unfoldable pub elem_str : FileTree → List ℕ → List ℕ
elem_str t path =
    let elem = before_slash path in if ltb (length elem) 2048 then elem else elem ++ t.stale path

-- The end of a path, at the node `n` below `c`
abbrev pub last_node : FileTree → Bool → ℕ → ℕ → Path2NodeRes
last_node t ask_for_dir c n = record {
  res_parent = some c;
  res_node = if ask_for_dir && not (s_isdir (t.node n)) then none else some n;
}

-- The round of the loop of `path2node` behind the lookup of an element of `c`
unfoldable pub after_lookup :
    ℕ → FileTree → Bool → (ℕ → Option Path2NodeRes) → ℕ → Bool → Option ℕ → Option Path2NodeRes
after_lookup depth t ask_for_dir next c last none =
    some (if last then record { res_parent = some c; res_node = none } else no_res)
after_lookup depth t ask_for_dir next c last (some x) = and_node (vfs_reduce_node depth t x) (λ n.
    if last
    then some (last_node t ask_for_dir c n)
    else if s_isdir (t.node n)
    then next n
    else some no_res)

-- The loop of `path2node`; each round takes an element of the path.
unfoldable pub path_loop : ℕ → ℕ → FileTree → Bool → List ℕ → ℕ → Option Path2NodeRes
path_loop zero depth t ask_for_dir path current = none
path_loop (suc fuel) depth t ask_for_dir path current =
    let rest = skip_slashes (from_slash path) in
    and_node (vfs_reduce_node depth t current) (λ c.
      after_lookup depth t ask_for_dir (path_loop fuel depth t ask_for_dir rest) c (is_empty rest)
        (child t c (elem_str t path)))

-- A path behind its leading slashes: the root itself, or a path below it
unfoldable pub from_root : ℕ → ℕ → FileTree → Bool → List ℕ → ℕ → Option Path2NodeRes
from_root fuel depth t ask_for_dir [] r = some (record { res_parent = some r; res_node = some r })
from_root fuel depth t ask_for_dir (c ∷ s) r = path_loop fuel depth t ask_for_dir (c ∷ s) r

-- `path2node`
unfoldable pub path2node : ℕ → FileTree → ℕ → List ℕ → Option Path2NodeRes
path2node depth t parent [] = some no_res
path2node depth t parent (c ∷ s) =
    let path = c ∷ s in
    let fuel = length path in
    let ask_for_dir = ends_in_slash path in
    and_node (vfs_reduce_node depth t parent) (λ current.
      if c == b'/'
      then and_node (vfs_reduce_node depth t t.vfs_root)
          (from_root fuel depth t ask_for_dir (skip_slashes path))
      else path_loop fuel depth t ask_for_dir path current)

-- `vfs_get_node`; the inner `none` is NULL.
unfoldable pub vfs_get_node : ℕ → FileTree → ℕ → List ℕ → Option (Option ℕ)
vfs_get_node depth t parent path = elim (path2node depth t parent path) [
  | none ↦ none
  | some r ↦ some r.res_node
]
