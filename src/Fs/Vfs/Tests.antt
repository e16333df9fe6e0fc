-- ===== src/Fs/Vfs/Tests.antt =====
-- A tree of files, and walks in it.
use piggy_os.Common.{
  ◌≢◌, ap, update, update_ne, arith, ℕ, ◌≡◌, refl, All, none, some, List, [], ◌∷◌, ◌==◌,
  if◌then◌else◌,
}
use piggy_os.Utils.Hashmap.{Chain, Hashmap, hashmap_get, get_chain, hash_function, hash_from}
use piggy_os.Utils.Str.{strncmp, strlen}
use piggy_os.Utils.Hashmap.Laws.{IsValid}
use piggy_os.Fs.Vfs.Create.{trim_slashes, name_start, basename, with_node, Creates, vfs_create}
use piggy_os.Fs.Vfs.Found.{vfs_get_node-vfs_create}
use piggy_os.Fs.Vfs.{
  s_isdir, child, VfsNode, FileTree, vfs_reduce_node, before_slash, from_slash, skip_slashes,
  ends_in_slash, after_lookup, path_loop, from_root, path2node, elem_str, vfs_get_node,
}
use piggy_os.Fs.Vfs.Names.{components, some_of, split}
use piggy_os.Fs.Vfs.Walk.{walk, Short, path2node-walk}

abbrev dir : List ℕ → Chain → VfsNode
dir name entries = record {
  name = name;
  st_mode = 0x5000;
  parent = none;
  mountpoint = none;
  link = none;
  children = some (record { size = 1; entries = entries ∷ [] });
  fs = 0;
}

abbrev file : List ℕ → VfsNode
file name = record {
  name = name;
  st_mode = 0x3000;
  parent = none;
  mountpoint = none;
  link = none;
  children = none;
  fs = 0;
}

-- Node 0 is `vfs_root`, on which node 1 is mounted. It holds the directory "d", node 2, which holds
-- the file "f", node 3, and the link "." to itself, node 4.
abbrev nodes : ℕ → VfsNode
nodes n =
    if n == 0
    then record (file []) { mountpoint = some 1 }
    else if n == 1
    then dir (b'/' ∷ []) ((b'd' ∷ [], 2) ∷ [])
    else if n == 2
    then dir (b'd' ∷ []) ((b'f' ∷ [], 3) ∷ (b'.' ∷ [], 4) ∷ [])
    else if n == 3
    then file (b'f' ∷ [])
    else record (file (b'.' ∷ [])) { link = some 2 }

abbrev tree : FileTree
tree = record { node = nodes; vfs_root = 0; stale = λ path. b'x' ∷ [] }

-- "/d/.//f"
abbrev path : List ℕ
path = b'/' ∷ b'd' ∷ b'/' ∷ b'.' ∷ b'/' ∷ b'/' ∷ b'f' ∷ []

gets_file : vfs_get_node 3 tree 2 path ≡ some (some 3)
unfolding vfs_get_node path2node vfs_reduce_node from_root skip_slashes path_loop after_lookup child
    hashmap_get get_chain hash_function hash_from elem_str before_slash strncmp strlen from_slash
    ends_in_slash
gets_file = refl

misses_directory : vfs_get_node 3 tree 2 (b'f' ∷ b'/' ∷ []) ≡ some none
unfolding vfs_get_node path2node vfs_reduce_node from_root skip_slashes path_loop after_lookup child
    hashmap_get get_chain hash_function hash_from elem_str before_slash strncmp strlen from_slash
    ends_in_slash
misses_directory = refl

root_reduced : vfs_reduce_node 3 tree 0 ≡ some 1
unfolding vfs_reduce_node
root_reduced = refl

dir_reduced : vfs_reduce_node 3 tree 2 ≡ some 2
unfolding vfs_reduce_node
dir_reduced = refl

path-Short : All Short (components path)
unfolding components some_of split
path-Short = (omega arith, (omega arith, (omega arith, tt)))

path2node-walk_example :
    path2node 3 tree 2 path
    ≡ walk 3 tree (ends_in_slash path) (if b'/' == b'/' then 1 else 2) (components path)
path2node-walk_example =
    path2node-walk 2 tree 2 2 1 b'/' (b'd' ∷ b'/' ∷ b'.' ∷ b'/' ∷ b'/' ∷ b'f' ∷ []) dir_reduced
      root_reduced path-Short

-- A file system that puts a new file at the address 5
abbrev creates : Creates
creates t fs parent name mode = (with_node t 5 (file name), 5)

abbrev map : Hashmap
map = record { size = 1; entries = ((b'f' ∷ [], 3) ∷ (b'.' ∷ [], 4) ∷ []) ∷ [] }

map-IsValid : IsValid map
map-IsValid = record {
  some_buckets = omega arith;
  sized = refl;
  strings = ((((omega arith, omega arith), tt), (((omega arith, omega arith), tt), tt)), tt);
}

absent : child tree 2 (b'g' ∷ []) ≡ none
unfolding child hashmap_get get_chain hash_function hash_from strncmp strlen
absent = refl

-- "a/b//"
names_last : basename (b'a' ∷ b'/' ∷ b'b' ∷ b'/' ∷ b'/' ∷ []) ≡ b'b' ∷ []
unfolding basename trim_slashes name_start
names_last = refl

abbrev grown : FileTree
grown = with_node tree 5 (file (b'g' ∷ []))

grown_file : grown.node 5 ≡ file (b'g' ∷ [])
unfolding update
grown_file = refl

vfs_get_node-vfs_create_example :
    (t2 : FileTree) × (vfs_create 1 6 7 creates tree 2 (b'g' ∷ []) 0x3000 ≡ some (some 5, t2))
    × (vfs_get_node 1 t2 2 (b'g' ∷ []) ≡ some (some 5))
    × ((a : ℕ) → a ≢ 2 → a ≢ 5 → t2.node a ≡ tree.node a)
    × (t2.node 5 ≡ grown.node 5)
    × (t2.node 2 ≡ record (tree.node 2) { children = (t2.node 2).children })
vfs_get_node-vfs_create_example =
    vfs_get_node-vfs_create 0 6 7 0x3000 2 5 b'g' [] creates tree grown map (refl, refl) (refl, tt)
      ((omega arith, omega arith), tt) (omega arith) refl map-IsValid absent refl
      (λ a n. update_ne tree.node 5 a (file (b'g' ∷ [])) n) (λ e. absurd (omega arith))
      (ap (λ n. n.link) grown_file, ap (λ n. n.mountpoint) grown_file) (ap s_isdir grown_file)
