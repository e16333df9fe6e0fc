-- ===== src/Fs/Vfs/Found.antt =====
-- A node that `vfs_create` makes is found by its name.
use mathlib.Core.Path.{subst}
use piggy_os.Common.{
  ℕ, zero, suc, ◌+◌, ◌-◌, ◌≡◌, ◌≢◌, refl, ap, ◌∙◌, false, Option, none, some, List, [], ◌∷◌, length,
  take-length, ◌==◌, update_self, update_ne, arith, All, All-get_or, sym,
}
use piggy_os.Utils.Str.{strlen}
use piggy_os.Utils.Str.Prefix.{IsString}
use piggy_os.Utils.Hashmap.{Hashmap, hashmap_set, hashmap_get}
use piggy_os.Utils.Hashmap.Laws.{IsValid, hashmap_get-set}
use piggy_os.Fs.Vfs.{
  VfsNode, FileTree, s_isdir, child, ends_in_slash, path2node, vfs_get_node, before_slash,
  from_slash, skip_slashes,
}
use piggy_os.Fs.Vfs.Names.{components, components_none, components-Plain}
use piggy_os.Fs.Vfs.Walk.{walk, Reduced, Short, Reduced-vfs_reduce_node, path2node-relative}
use piggy_os.Fs.Vfs.Create.{
  trim_slashes, name_start, basename, with_node, set_child, Creates, finish_node, make_node,
  create_at, vfs_create,
}

-- A name: a path without a slash
abbrev pub IsName : List ℕ → Type 0
IsName s = All (λ c. (c == b'/') ≡ false) s

name_start-IsName : (i : ℕ) (s : List ℕ) → IsName s → name_start i s ≡ 0
unfolding name_start
name_start-IsName zero s h = refl
name_start-IsName (suc i) s h =
    rw (All-get_or (λ c. (c == b'/') ≡ false) s i 0 refl h) (name_start-IsName i s h)

trim_slashes-IsName : (i : ℕ) (s : List ℕ) → IsName s → trim_slashes i s ≡ i
unfolding trim_slashes
trim_slashes-IsName zero s h = refl
trim_slashes-IsName (suc i) s h = rw (All-get_or (λ c. (c == b'/') ≡ false) s (suc i) 0 refl h) refl

basename-IsName : (x : ℕ) (s : List ℕ) → IsName (x ∷ s) → basename (x ∷ s) ≡ x ∷ s
unfolding basename
basename-IsName x s h =
    let all : length s + 1 - 0 ≡ suc (length s) = omega arith in
    rw (trim_slashes-IsName (length s) (x ∷ s) h, name_start-IsName (length s) (x ∷ s) h, all)
      (ap (λ l. x ∷ l) (take-length s))

before_slash-IsName : (s : List ℕ) → IsName s → before_slash s ≡ s
unfolding before_slash
before_slash-IsName [] h = refl
before_slash-IsName (c ∷ s) (e, h) = rw e (ap (λ l. c ∷ l) (before_slash-IsName s h))

from_slash-IsName : (s : List ℕ) → IsName s → from_slash s ≡ []
unfolding from_slash
from_slash-IsName [] h = refl
from_slash-IsName (c ∷ s) (e, h) = rw e (from_slash-IsName s h)

ends_in_slash-IsName : (s : List ℕ) → IsName s → ends_in_slash s ≡ false
unfolding ends_in_slash
ends_in_slash-IsName [] h = refl
ends_in_slash-IsName (c ∷ []) (e, h) = e
ends_in_slash-IsName (c ∷ d ∷ s) (e, h) = ends_in_slash-IsName (d ∷ s) h

components-IsName : (x : ℕ) (s : List ℕ) → IsName (x ∷ s) → components (x ∷ s) ≡ (x ∷ s) ∷ []
unfolding skip_slashes
components-IsName x s h =
    components-Plain (x ∷ s) h.0
    ∙ ap (λ l. l ∷ components (skip_slashes (from_slash (x ∷ s)))) (before_slash-IsName (x ∷ s) h)
    ∙ ap (λ r. (x ∷ s) ∷ components (skip_slashes r)) (from_slash-IsName (x ∷ s) h)
    ∙ ap (λ ns. (x ∷ s) ∷ ns) components_none

module _ (depth : ℕ) (t : FileTree) (c x : ℕ) (s : List ℕ) (h : Reduced t c)
    (plain : IsName (x ∷ s)) (short : Short (x ∷ s)) where
  to_walk : path2node (suc depth) t c (x ∷ s) ≡ walk (suc depth) t false c ((x ∷ s) ∷ [])
  to_walk =
      path2node-relative depth t c x s h plain.0
        (subst (All Short) (sym (components-IsName x s plain)) (short, tt))
      ∙ ap (λ b. walk (suc depth) t b c (components (x ∷ s))) (ends_in_slash-IsName (x ∷ s) plain)
      ∙ ap (walk (suc depth) t false c) (components-IsName x s plain)

  path2node-none :
      child t c (x ∷ s) ≡ none
      → path2node (suc depth) t c (x ∷ s) ≡ some (record { res_parent = some c; res_node = none })
  unfolding walk
  path2node-none e = to_walk ∙ rw (e, walk) refl

  vfs_get_node-child :
      (n : ℕ)
      → child t c (x ∷ s) ≡ some n
      → Reduced t n
      → vfs_get_node (suc depth) t c (x ∷ s) ≡ some (some n)
  unfolding walk vfs_get_node
  vfs_get_node-child n e r =
      let at : path2node (suc depth) t c (x ∷ s)
          ≡ some (record { res_parent = some c; res_node = some n }) =
        to_walk ∙ rw (e, Reduced-vfs_reduce_node depth t n r, walk) refl in
      rw (at, vfs_get_node) refl

-- The node `c` with another map of children
abbrev pub remapped : FileTree → ℕ → Hashmap → FileTree
remapped t c map = with_node t c (record (t.node c) { children = some map })

set_child-step :
    (t : FileTree) (c node : ℕ) (name : List ℕ) (m m' : Hashmap)
    → (t.node c).children ≡ some m
    → hashmap_set m name (strlen name) node ≡ some m'
    → set_child t c name node ≡ some (some (remapped t c m'))
unfolding set_child
set_child-step t c node name m m' e e' = rw (e, e', set_child) refl

child-remapped :
    (t : FileTree) (c : ℕ) (name : List ℕ) (m : Hashmap) (found : Option ℕ)
    → hashmap_get m name (strlen name) ≡ some found
    → child (remapped t c m) c name ≡ found
unfolding child
child-remapped t c name m found e =
    rw (update_self t.node c (record (t.node c) { children = some m }), e, child) refl

finish_node-file :
    (dot dotdot c node : ℕ) (t t' : FileTree)
    → s_isdir (t'.node node) ≡ false
    → finish_node dot dotdot t c node (some (some t')) ≡ some (some node, t')
unfolding finish_node
finish_node-file dot dotdot c node t t' e = rw e refl

vfs_create-step :
    (depth dot dotdot mode c : ℕ) (creates : Creates) (t : FileTree) (path : List ℕ)
    → path2node depth t c path ≡ some (record { res_parent = some c; res_node = none })
    → vfs_create depth dot dotdot creates t c path mode ≡ make_node dot dotdot creates t c path mode
unfolding vfs_create create_at
vfs_create-step depth dot dotdot mode c creates t path e = rw (e, vfs_create) refl

make_node-step :
    (dot dotdot mode c node : ℕ) (creates : Creates) (t t1 t2 : FileTree) (path : List ℕ)
    → basename path ≡ path
    → creates t (t.node c).fs c path mode ≡ (t1, node)
    → set_child t1 c path node ≡ some (some t2)
    → s_isdir (t2.node node) ≡ false
    → make_node dot dotdot creates t c path mode ≡ some (some node, t2)
unfolding make_node
make_node-step dot dotdot mode c node creates t t1 t2 path e made set file =
    let next = λ (name : List ℕ) (r : FileTree × ℕ).
      finish_node dot dotdot r.0 c r.1 (set_child r.0 c name r.1) in
    ap (λ name. next name (creates t (t.node c).fs c name mode)) e
    ∙ ap (next path) made
    ∙ ap (finish_node dot dotdot t1 c node) set
    ∙ finish_node-file dot dotdot c node t1 t2 file

-- vfs_create of a name of fewer than 2048 bytes in a directory that neither a link nor a mount point
-- hides, whose map is well-formed and has no such name, returns the node that the file system
-- creates, when that is no directory, not the parent and not hidden, and the file system changes no
-- other node. vfs_get_node of the name then finds that node, which is as the file system made it, no
-- node but it and the parent is another than before the call, and of the parent only the map of its
-- children.
pub vfs_get_node-vfs_create :
    (depth dot dotdot mode parent node x : ℕ) (s : List ℕ) (creates : Creates) (t t1 : FileTree)
    (m : Hashmap)
    → Reduced t parent
    → IsName (x ∷ s)
    → IsString (x ∷ s)
    → Short (x ∷ s)
    → (t.node parent).children ≡ some m
    → IsValid m
    → child t parent (x ∷ s) ≡ none
    → creates t (t.node parent).fs parent (x ∷ s) mode ≡ (t1, node)
    → ((a : ℕ) → a ≢ node → t1.node a ≡ t.node a)
    → node ≢ parent
    → Reduced t1 node
    → s_isdir (t1.node node) ≡ false
    → (t2 : FileTree) × (vfs_create (suc depth) dot dotdot creates t parent (x ∷ s) mode
        ≡ some (some node, t2))
      × (vfs_get_node (suc depth) t2 parent (x ∷ s) ≡ some (some node))
      × ((a : ℕ) → a ≢ parent → a ≢ node → t2.node a ≡ t.node a)
      × (t2.node node ≡ t1.node node)
      × (t2.node parent ≡ record (t.node parent) { children = (t2.node parent).children })
vfs_get_node-vfs_create depth dot dotdot mode parent node x s creates t t1 m reduced plain string
      short children valid absent made same other shown file =
    let name = x ∷ s in
    let (m', set, valid', get, rest) = hashmap_get-set m name node valid string in
    let kept : t1.node parent ≡ t.node parent = same parent (λ e. other (sym e)) in
    let t2 = remapped t1 parent m' in
    let elsewhere : (a : ℕ) → a ≢ parent → t2.node a ≡ t1.node a =
      λ a n. update_ne t1.node parent a _ n in
    let new = elsewhere node other in
    let self = update_self t1.node parent (record (t1.node parent) { children = some m' }) in
    let reduced' : Reduced t2 parent = (
      ap (λ n. n.link) self ∙ ap (λ n. n.link) kept ∙ reduced.0,
      ap (λ n. n.mountpoint) self ∙ ap (λ n. n.mountpoint) kept ∙ reduced.1,
    ) in
    let parent_node : t2.node parent
        ≡ record (t.node parent) { children = (t2.node parent).children } =
      self
      ∙ ap {A = VfsNode} (λ n. record n { children = some m' }) kept
      ∙ ap (λ c. record (t.node parent) { children = c }) (sym (ap (λ n. n.children) self)) in
    let shown' : Reduced t2 node =
      (ap (λ n. n.link) new ∙ shown.0, ap (λ n. n.mountpoint) new ∙ shown.1) in
    let has : (t1.node parent).children ≡ some m = ap (λ n. n.children) kept ∙ children in
    let file' : s_isdir (t2.node node) ≡ false = ap s_isdir new ∙ file in
    (
      t2,
      vfs_create-step (suc depth) dot dotdot mode parent creates t name
            (path2node-none depth t parent x s reduced plain short absent)
          ∙ make_node-step dot dotdot mode parent node creates t t1 t2 name
              (basename-IsName x s plain) made (set_child-step t1 parent node name m m' has set)
              file',
      vfs_get_node-child depth t2 parent x s reduced' plain short node
          (child-remapped t1 parent name m' (some node) get) shown',
      λ a n n'. elsewhere a n ∙ same a n',
      new,
      parent_node,
    )
