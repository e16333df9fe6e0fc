-- ===== src/Fs/Vfs/Walk.antt =====
-- `path2node` walks down the names of a path.
use mathlib.Core.Path.{subst}
use mathlib.Core.Option.{some-injective}
use piggy_os.Common.{
  ℕ, zero, suc, ◌≤◌, ◌≡◌, ◌⊎◌, inl, inr, refl, sym, ap, ◌∙◌, Bool, true, false, Option, none, some,
  List, [], ◌∷◌, length, ◌==◌, if◌then◌else◌, Bool-cases, Option-cases, arith, ◌<◌, lt→ltb, All,
}
use piggy_os.Fs.Vfs.{
  FileTree, s_isdir, vfs_reduce_node, child, Path2NodeRes, no_res, last_node, before_slash,
  elem_str, from_slash, skip_slashes, ends_in_slash, is_empty, after_lookup, path_loop, from_root,
  path2node,
}
use piggy_os.Fs.Vfs.Names.{
  Plain, components, components_none, components-Plain, components-skip_slashes, skip_slashes-cases,
  rest-shorter,
}

-- The walk from the node `c` down a list of names: every name but the last is one of a directory.
-- The result has the parent of the last name, and its node unless there is none, or none that is a
-- directory where one is asked for.
unfoldable pub walk : ℕ → FileTree → Bool → ℕ → List (List ℕ) → Option Path2NodeRes
walk depth t ask_for_dir c [] = some (record { res_parent = some c; res_node = some c })
walk depth t ask_for_dir c (name ∷ []) = elim (child t c name) [
  | none ↦ some (record { res_parent = some c; res_node = none })
  | some x ↦ elim (vfs_reduce_node depth t x) [
    | none ↦ none
    | some n ↦ some (last_node t ask_for_dir c n)
  ]
]
walk depth t ask_for_dir c (name ∷ next ∷ names) = elim (child t c name) [
  | none ↦ some no_res
  | some x ↦ elim (vfs_reduce_node depth t x) [
    | none ↦ none
    | some n ↦ if s_isdir (t.node n) then walk depth t ask_for_dir n (next ∷ names) else some no_res
  ]
]

-- A node that neither links nor mounts hide
abbrev pub Reduced : FileTree → ℕ → Type 0
Reduced t n = ((t.node n).link ≡ none) × ((t.node n).mountpoint ≡ none)

-- A name of no more bytes than `kmalloc` zeroes
abbrev pub Short : List ℕ → Type 0
Short name = length name < 2048

elem_str-Short :
    (t : FileTree) (p : List ℕ) → Short (before_slash p) → elem_str t p ≡ before_slash p
unfolding elem_str
elem_str-Short t p h = rw (lt→ltb (length (before_slash p)) 2048 h) refl

reduce_link :
    (depth : ℕ) (t : FileTree) (n l : ℕ)
    → (t.node n).link ≡ some l
    → vfs_reduce_node (suc depth) t n ≡ vfs_reduce_node depth t l
unfolding vfs_reduce_node
reduce_link depth t n l e = rw (e, vfs_reduce_node) refl

reduce_mount :
    (depth : ℕ) (t : FileTree) (n m : ℕ)
    → (t.node n).link ≡ none
    → (t.node n).mountpoint ≡ some m
    → vfs_reduce_node (suc depth) t n ≡ vfs_reduce_node depth t m
unfolding vfs_reduce_node
reduce_mount depth t n m e e' = rw (e, e', vfs_reduce_node) refl

pub Reduced-vfs_reduce_node :
    (depth : ℕ) (t : FileTree) (n : ℕ) → Reduced t n → vfs_reduce_node (suc depth) t n ≡ some n
unfolding vfs_reduce_node
Reduced-vfs_reduce_node depth t n (l, m) = rw (l, m, vfs_reduce_node) refl

pub vfs_reduce_node-Reduced :
    (depth : ℕ) (t : FileTree) (x n : ℕ) → vfs_reduce_node depth t x ≡ some n → Reduced t n
unfolding vfs_reduce_node
vfs_reduce_node-Reduced zero t x n e = absurd (cc e)
vfs_reduce_node-Reduced (suc depth) t x n e = elim (Option-cases (t.node x).link) [
  | inr (l, q) ↦ vfs_reduce_node-Reduced depth t l n (sym (reduce_link depth t x l q) ∙ e)
  | inl q ↦ elim (Option-cases (t.node x).mountpoint) [
    | inr (m, r) ↦ vfs_reduce_node-Reduced depth t m n (sym (reduce_mount depth t x m q r) ∙ e)
    | inl r ↦
        let same : x ≡ n =
          some-injective x n (sym (Reduced-vfs_reduce_node depth t x (q, r)) ∙ e) in
        rw (← same) (q, r)
  ]
]

module _ (depth : ℕ) (t : FileTree) (ask : Bool) where
  -- The last step of the walk, and a step before it, as the loop makes them.
  walk_last :
      (next : ℕ → Option Path2NodeRes) (c : ℕ) (name : List ℕ)
      → after_lookup depth t ask next c true (child t c name) ≡ walk depth t ask c (name ∷ [])
  unfolding walk after_lookup
  walk_last next c name = elim (Option-cases (child t c name)) [
    | inl e ↦ rw (e, walk, after_lookup) refl
    | inr (x, e) ↦ elim (Option-cases (vfs_reduce_node depth t x)) [
      | inl r ↦ rw (e, r, walk, after_lookup) refl
      | inr (n, r) ↦ rw (e, r, walk, after_lookup) refl
    ]
  ]

  walk_more :
      (next : ℕ → Option Path2NodeRes) (c : ℕ) (name name2 : List ℕ) (names : List (List ℕ))
      → ((n : ℕ) → Reduced t n → next n ≡ walk depth t ask n (name2 ∷ names))
      → after_lookup depth t ask next c false (child t c name)
        ≡ walk depth t ask c (name ∷ name2 ∷ names)
  unfolding walk after_lookup
  walk_more next c name name2 names h = elim (Option-cases (child t c name)) [
    | inl e ↦ rw (e, walk, after_lookup) refl
    | inr (x, e) ↦ elim (Option-cases (vfs_reduce_node depth t x)) [
      | inl r ↦ rw (e, r, walk, after_lookup) refl
      | inr (n, r) ↦
          let same = h n (vfs_reduce_node-Reduced depth t x n r) in
          rw (e, r, walk, after_lookup)
            (ap (λ o. if s_isdir (t.node n) then o else some no_res) same)
    ]
  ]

  path_loop-step :
      (fuel : ℕ) (p : List ℕ) (c : ℕ)
      → vfs_reduce_node depth t c ≡ some c
      → let rest = skip_slashes (from_slash p) in
        path_loop (suc fuel) depth t ask p c
        ≡ after_lookup depth t ask
            (path_loop fuel depth t ask rest)
            c
            (is_empty rest)
            (child t c (elem_str t p))
  unfolding path_loop
  path_loop-step fuel p c e = rw e refl

  -- The loop of `path2node` walks down the names of its path.
  pub path_loop-walk :
      (fuel : ℕ) (p : List ℕ) (c : ℕ)
      → ((n : ℕ) → Reduced t n → vfs_reduce_node depth t n ≡ some n)
      → Plain p
      → All Short (components p)
      → length p ≤ fuel
      → Reduced t c
      → path_loop fuel depth t ask p c ≡ walk depth t ask c (components p)
  path_loop-walk zero [] c stays plain short long r = absurd plain
  path_loop-walk zero (x ∷ p) c stays plain short long r = absurd (omega arith)
  path_loop-walk (suc fuel) p c stays plain short long r =
      let rest = skip_slashes (from_slash p) in
      let (first, more) = subst (All Short) (components-Plain p plain) short in
      path_loop-step fuel p c (stays c r)
      ∙ ap
          (λ name.
            after_lookup depth t ask (path_loop fuel depth t ask rest) c (is_empty rest)
              (child t c name))
          (elem_str-Short t p first)
      ∙ behind rest (components rest) refl (skip_slashes-cases (from_slash p)).0 (λ plain_rest n rn.
        path_loop-walk fuel rest n stays plain_rest more (omega (arith, rest-shorter p plain)) rn)
      ∙ ap (walk depth t ask c) (sym (components-Plain p plain))
    where
      behind :
          (rest : List ℕ) (names : List (List ℕ))
          → components rest ≡ names
          → (rest ≡ []) ⊎ Plain rest
          → (Plain rest
              → (n : ℕ) → Reduced t n
              → path_loop fuel depth t ask rest n ≡ walk depth t ask n (components rest))
          → after_lookup depth t ask
              (path_loop fuel depth t ask rest)
              c
              (is_empty rest)
              (child t c (before_slash p))
            ≡ walk depth t ask c (before_slash p ∷ names)
      behind [] [] e h ih = walk_last _ c (before_slash p)
      behind [] (name ∷ names) e h ih = absurd (cc (components_none, e))
      behind (x ∷ rest) names e (inl q) ih = absurd (cc q)
      behind (x ∷ rest) [] e (inr plain_rest) ih =
          absurd (cc (components-Plain (x ∷ rest) plain_rest, e))
      behind (x ∷ rest) (name ∷ names) e (inr plain_rest) ih =
          walk_more _ c (before_slash p) name names
            (λ n rn. ih plain_rest n rn ∙ ap (walk depth t ask n) e)

from_root-walk :
    (fuel depth : ℕ) (t : FileTree) (ask : Bool) (p : List ℕ) (r : ℕ)
    → ((n : ℕ) → Reduced t n → vfs_reduce_node depth t n ≡ some n)
    → (p ≡ []) ⊎ Plain p
    → All Short (components p)
    → length p ≤ fuel
    → Reduced t r
    → from_root fuel depth t ask p r ≡ walk depth t ask r (components p)
unfolding from_root walk
from_root-walk fuel depth t ask [] r stays h short long rr =
    ap (walk depth t ask r) (sym components_none)
from_root-walk fuel depth t ask (x ∷ p) r stays (inl e) short long rr = absurd (cc e)
from_root-walk fuel depth t ask (x ∷ p) r stays (inr plain) short long rr =
    path_loop-walk depth t ask fuel (x ∷ p) r stays plain short long rr

-- A path that begins with no slash, from a node that is not hidden
pub path2node-relative :
    (depth : ℕ) (t : FileTree) (c x : ℕ) (s : List ℕ)
    → Reduced t c
    → (x == b'/') ≡ false
    → All Short (components (x ∷ s))
    → path2node (suc depth) t c (x ∷ s)
      ≡ walk (suc depth) t (ends_in_slash (x ∷ s)) c (components (x ∷ s))
unfolding path2node
path2node-relative depth t c x s h q short =
    rw (Reduced-vfs_reduce_node depth t c h, q)
      (path_loop-walk (suc depth) t (ends_in_slash (x ∷ s)) (length (x ∷ s)) (x ∷ s) c
        (Reduced-vfs_reduce_node depth t) q short (omega arith) h)

-- path2node of a path with a byte at least walks down the names between its slashes, however many
-- slashes stand in a row, from the root if it begins with one and from `parent` else, and asks for
-- a directory if it ends in one. `parent` and the root lead to the nodes `c` and `r` in no more
-- steps than are given, and every name has fewer than 2048 bytes, since a longer one is copied without
-- a NUL into pages that are not zeroed.
pub path2node-walk :
    (depth : ℕ) (t : FileTree) (parent c r x : ℕ) (s : List ℕ)
    → vfs_reduce_node (suc depth) t parent ≡ some c
    → vfs_reduce_node (suc depth) t t.vfs_root ≡ some r
    → All Short (components (x ∷ s))
    → path2node (suc depth) t parent (x ∷ s)
      ≡ walk (suc depth) t (ends_in_slash (x ∷ s)) (if x == b'/' then r else c) (components (x ∷ s))
unfolding path2node
path2node-walk depth t parent c r x s e e' short = elim (Bool-cases (x == b'/')) [
  | inl q ↦
      let rest = skip_slashes-cases (x ∷ s) in
      rw (e, q, e')
        (from_root-walk (length (x ∷ s)) (suc depth) t (ends_in_slash (x ∷ s))
            (skip_slashes (x ∷ s)) r (Reduced-vfs_reduce_node depth t) rest.0
            (subst (All Short) (sym (components-skip_slashes (x ∷ s))) short) rest.1
            (vfs_reduce_node-Reduced (suc depth) t t.vfs_root r e')
          ∙ ap (walk (suc depth) t (ends_in_slash (x ∷ s)) r) (components-skip_slashes (x ∷ s)))
  | inr q ↦
      rw (e, q)
        (path_loop-walk (suc depth) t (ends_in_slash (x ∷ s)) (length (x ∷ s)) (x ∷ s) c
          (Reduced-vfs_reduce_node depth t) q short (omega arith)
          (vfs_reduce_node-Reduced (suc depth) t parent c e))
]
