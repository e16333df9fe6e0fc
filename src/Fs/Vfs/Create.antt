-- ===== src/Fs/Vfs/Create.antt =====
-- kernel/src/fs/vfs.c: making a node in the tree, and kernel/src/utils/string.c: `basename`.
use piggy_os.Common.{
  ℕ, zero, suc, ◌+◌, ◌-◌, Bool, false, Option, none, some, List, [], ◌∷◌, length, get_or, take,
  drop, replicate, ◌==◌, if◌then◌else◌, update,
}
use piggy_os.Utils.Str.{strlen}
use piggy_os.Utils.Hashmap.{Hashmap, hashmap_set}
use piggy_os.Fs.Vfs.{VfsNode, FileTree, s_isdir, path2node}

-- The loop of `basename` over the slashes at the end, which it overwrites with NULs, from the index
-- `i` down
unfoldable pub trim_slashes : ℕ → List ℕ → ℕ
trim_slashes zero str = zero
trim_slashes (suc i) str =
    let next = trim_slashes i str in if get_or str (suc i) 0 == b'/' then next else suc i

-- The loop of `basename` back to a slash
unfoldable pub name_start : ℕ → List ℕ → ℕ
name_start zero str = zero
name_start (suc i) str =
    let next = name_start i str in if get_or str i 0 == b'/' then suc i else next

-- `basename`, as the string that is left at its result
unfoldable pub basename : List ℕ → List ℕ
basename [] = b'.' ∷ []
basename (c ∷ s) =
    let i = trim_slashes (length s) (c ∷ s) in
    let start = name_start i (c ∷ s) in take (i + 1 - start) (drop start (c ∷ s))

-- The map that `vfs_create_node` gives a directory
abbrev pub new_children : Hashmap
new_children = record { size = 128; entries = replicate 128 [] }

-- `vfs_create_node`, whose node and strings are allocated; the functions of the node are left out.
unfoldable pub vfs_create_node : ℕ → Option ℕ → List ℕ → Bool → VfsNode
vfs_create_node fs parent name is_dir = record {
  name = name;
  st_mode = 0;
  parent = parent;
  mountpoint = none;
  link = none;
  children = if is_dir then some new_children else none;
  fs = fs;
}

abbrev pub with_node : FileTree → ℕ → VfsNode → FileTree
with_node t at n = record t { node = update t.node at n }

abbrev pub with_children : FileTree → ℕ → Option Hashmap → Option FileTree
with_children t at none = none
with_children t at (some map) = some (with_node t at (record (t.node at) { children = some map }))

-- `hashmap_set(node->children, name, strlen(name), child)`; the inner `none` is the failure of a
-- map that is NULL.
unfoldable pub set_child : FileTree → ℕ → List ℕ → ℕ → Option (Option FileTree)
set_child t at name child = elim (t.node at).children [
  | none ↦ some none
  | some map ↦ elim (with_children t at (hashmap_set map name (strlen name) child)) [
    | none ↦ none
    | some t' ↦ some (some t')
  ]
]

-- The tree after a call of `hashmap_set` whose result is not looked at
abbrev pub whatever :
    FileTree → Option (Option FileTree) → (FileTree → Option FileTree) → Option FileTree
whatever t none next = none
whatever t (some none) next = next t
whatever t (some (some t')) next = next t'

-- `create_dotentries`, with the addresses of the two nodes that it makes
unfoldable pub create_dotentries : ℕ → ℕ → FileTree → ℕ → ℕ → Option FileTree
create_dotentries dot dotdot t parent node =
    let fs = (t.node node).fs in
    let n1 : VfsNode = record (vfs_create_node fs (some node) (b'.' ∷ []) false) {
      link = some node;
    } in
    let n2 : VfsNode = record (vfs_create_node fs (some node) (b'.' ∷ b'.' ∷ []) false) {
      link = some parent;
    } in
    let t1 = with_node (with_node t dot n1) dotdot n2 in
    whatever t1 (set_child t1 node (b'.' ∷ []) dot)
      (λ t2. whatever t2 (set_child t2 node (b'.' ∷ b'.' ∷ []) dotdot) some)

-- `fs->create`: from the tree, the file system, the parent, the name and the mode, the tree with
-- the new node, and its address
abbrev pub Creates : Type 0
Creates = FileTree → ℕ → ℕ → List ℕ → ℕ → FileTree × ℕ

abbrev pub Created : Type 0
Created = Option ℕ × FileTree

abbrev pub created_dir : ℕ → Option FileTree → Option Created
created_dir node none = none
created_dir node (some t) = some (some node, t)

-- The end of `vfs_create`, with the new node in the map of its parent
unfoldable pub finish_node : ℕ → ℕ → FileTree → ℕ → ℕ → Option (Option FileTree) → Option Created
finish_node dot dotdot t parent node none = none
finish_node dot dotdot t parent node (some none) = some (none, t)
finish_node dot dotdot t parent node (some (some t')) =
    let with_dots = created_dir node (create_dotentries dot dotdot t' parent node) in
    if s_isdir (t'.node node) then with_dots else some (some node, t')

-- The node that `vfs_create` makes below `parent`
unfoldable pub make_node : ℕ → ℕ → Creates → FileTree → ℕ → List ℕ → ℕ → Option Created
make_node dot dotdot creates t parent path mode =
    let name = basename path in
    let (t1, node) = creates t (t.node parent).fs parent name mode in
    finish_node dot dotdot t1 parent node (set_child t1 parent name node)

unfoldable pub create_at :
    ℕ → ℕ → Creates → FileTree → List ℕ → ℕ → Option ℕ → Option ℕ → Option Created
create_at dot dotdot creates t path mode none found = some (none, t)
create_at dot dotdot creates t path mode (some parent) (some found) = some (none, t)
create_at dot dotdot creates t path mode (some parent) none =
    make_node dot dotdot creates t parent path mode

-- `vfs_create`, with the addresses that the nodes of a new directory's dots come to; the inner
-- `none` is NULL.
unfoldable pub vfs_create : ℕ → ℕ → ℕ → Creates → FileTree → ℕ → List ℕ → ℕ → Option Created
vfs_create depth dot dotdot creates t parent path mode = elim (path2node depth t parent path) [
  | none ↦ none
  | some r ↦ create_at dot dotdot creates t path mode r.res_parent r.res_node
]
