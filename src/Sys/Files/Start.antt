-- ===== src/Sys/Files/Start.antt =====
-- Opening a file.
use mathlib.Core.Path.{subst}
use piggy_os.Common.{
  ℕ, ◌^◌, ◌<◌, ◌≤◌, ◌≡◌, ◌≢◌, ◌⊎◌, refl, sym, ap, ◌∙◌, Bool, true, false, not, ◌&&◌, Option, none,
  some, List, leb, ◌==◌, if◌then◌else◌, bit_and, add64, sub64, update, update_self, arith, lt→leb,
  ne→==,
}
use piggy_os.Common.Int.{pos}
use piggy_os.Utils.Str.{strlen}
use piggy_os.Fs.Fd.{
  max_fds, file_flags_mask, File, Store, put_file, entry, emfile, fd_create, fd_alloc_fdnum,
}
use piggy_os.Fs.Fd.Inv.{Unused, IsValid, put_file-IsValid}
use piggy_os.Fs.Fd.Ops.{Stores, refused, stored, fd_alloc_fdnum_lem}
use piggy_os.Sys.Files.{
  o_path, o_accmode, o_creat, o_excl, o_trunc, o_append, o_directory, path_max, is_dir, is_reg,
  Operations, World, Rax, value, error, in_store, has, at_end, open_number, open_truncate,
  open_node, open_reduced, node_or_create, syscall_open,
}
use piggy_os.Sys.Files.Calls.{Open}

-- The object that a call of open makes, with its offset.
abbrev pub opened_file : ℕ → ℕ → ℕ → File
opened_file node flags offset = record {
  node = node;
  flags = bit_and flags file_flags_mask;
  refcount = 1;
  offset = offset;
}

-- What a call of open gives, for an object `f` at `fd`.
pub data Opens (w : World) (p fd : ℕ) (f : File) (r : Rax × World) : Type 0 where
  full :
      ((j : ℕ) → j < max_fds → entry w.store p j ≢ none)
      → r.0 ≡ error emfile
      → r.1.store.file fd ≡ none
      → ((q j : ℕ) → entry r.1.store q j ≡ entry w.store q j)
      → r.1.store.node_refs f.node ≡ w.store.node_refs f.node
      → Opens w p fd f r
  opened :
      (i : ℕ)
      → entry w.store p i ≡ none
      → ((j : ℕ) → j < i → entry w.store p j ≢ none)
      → r.0 ≡ value (pos i)
      → Open r.1.store p i fd f
      → ((q j : ℕ) → (q ≢ p) ⊎ (j ≢ i) → entry r.1.store q j ≡ entry w.store q j)
      → Opens w p fd f r

-- The offset of the object where open leaves it.
at_end-file :
    (s : Store) (fd size : ℕ) (f : File)
    → s.file fd ≡ some f
    → at_end fd size s ≡ put_file fd (some (record f { offset = size })) s
at_end-file s fd size f e = rw (e, at_end) refl

appended :
    (s : Store) (p i fd node flags size : ℕ)
    → Open s p i fd (opened_file node flags 0)
    → (q : ℕ → ℕ → Option ℕ) → ((a b : ℕ) → entry s a b ≡ q a b)
    → (b : Bool)
    → let t = if b then at_end fd size s else s in
      Open t p i fd (opened_file node flags (if b then size else 0))
      × ((a b : ℕ) → entry t a b ≡ q a b)
appended s p i fd node flags size o q same false = (o, same)
appended s p i fd node flags size o q same true = rw (at_end-file s fd size _ o.alive) (
  record {
    valid = put_file-IsValid s o.valid fd _;
    inside = o.inside;
    named = o.named;
    alive = update_self s.file fd _;
    usable = o.usable;
  },
  same,
)

-- What open has made before it looks for a number.
abbrev created_store : Store → ℕ → ℕ → ℕ → Store
created_store s fd node flags = record (put_file fd (some (opened_file node flags 0)) s) {
  node_refs = update s.node_refs node (add64 (s.node_refs node) 1);
}

module _ (w : World) (p fd node flags : ℕ) (valid : IsValid w.store)
    (fresh : w.store.file fd ≡ none) (counts : w.store.node_refs node < 2 ^ 63)
    (usable : has (bit_and (bit_and flags file_flags_mask) o_accmode) o_path ≡ false) where
  offset : ℕ
  offset = if has flags o_append then (w.node node).st_size else 0

  made : World
  made = in_store (created_store w.store fd node flags) w

  made-IsValid : IsValid made.store
  unfolding made
  made-IsValid =
      let v = put_file-IsValid w.store valid fd (opened_file node flags 0) in
      record { sized = v.sized; live = v.live; apart = v.apart }

  fresh-Unused : Unused made.store fd
  unfolding made
  fresh-Unused q j e = let (f, alive) = valid.live q j fd e in cc (alive, fresh)

  made_alive : made.store.file fd ≡ some (opened_file node flags 0)
  unfolding made
  made_alive = update_self w.store.file fd _

  given_back :
      update made.store.node_refs node (sub64 (made.store.node_refs node) 1) node
      ≡ w.store.node_refs node
  unfolding made
  given_back =
      update_self _ node _
      ∙ ap (λ n. sub64 n 1) (update_self w.store.node_refs node _)
      ∙ omega arith

  open_number-Opens :
      Opens w p fd (opened_file node flags offset) (open_number p node flags fd made)
  unfolding open_number offset made
  open_number-Opens =
      go (fd_alloc_fdnum p fd made.store).0 (fd_alloc_fdnum p fd made.store).1
        (fd_alloc_fdnum_lem made.store p fd _ made-IsValid made_alive fresh-Unused)
    where
      go :
          (number : Option ℕ) (s : Store)
          → Stores made.store p fd (number, s)
          → Opens w p fd (opened_file node flags offset) (elim number [
            | none ↦ (
              error emfile,
              in_store
                  (record (put_file fd none made.store) {
                    node_refs =
                        update made.store.node_refs node (sub64 (made.store.node_refs node) 1);
                  })
                  made,
            )
            | some i ↦ (
              value (pos i),
              in_store
                  (if has flags o_append then at_end fd (made.node node).st_size s else s)
                  made,
            )
          ])
      go none s (refused h) = full h refl (update_self _ fd none) (λ q j. refl) given_back
      go (some i) s (stored i' t inside e low named others files v) =
          let (o, same) =
            appended s p i fd node flags (w.node node).st_size
              (record {
                valid = v;
                inside = inside;
                named = named;
                alive = ap (λ g. g fd) files ∙ made_alive;
                usable = usable;
              })
              (entry s) (λ a b. refl) (has flags o_append) in
          opened i e low refl o (λ q j n. same q j ∙ others q j n)

-- Open of a path of a node that exists and that its flags allow gives the lowest free number, which then
-- names a new object with one reference, at the start of the file or with O_APPEND at its end; where
-- every number is taken it fails with EMFILE and the object and its count of the node are given back.
-- Every other number of every process names what it named. The object is new, the node has fewer than
-- 2^63 objects, and the flags hold neither O_PATH nor O_TRUNC of a regular file, nor O_CREAT with
-- O_EXCL, nor O_DIRECTORY of another node than a directory.
pub syscall_open_lem :
    (ops : Operations) (reduce : ℕ → Option ℕ) (w : World) (p fd found node flags : ℕ)
    (path : List ℕ) (created : Option ℕ)
    → IsValid w.store
    → w.store.file fd ≡ none
    → w.store.node_refs node < 2 ^ 63
    → has (bit_and (bit_and flags file_flags_mask) o_accmode) o_path ≡ false
    → 1 ≤ strlen path
    → strlen path < path_max
    → (has flags o_creat && has flags o_excl) ≡ false
    → reduce found ≡ some node
    → (not (is_dir (w.node node)) && has flags o_directory) ≡ false
    → (has flags o_trunc && is_reg (w.node node)) ≡ false
    → Opens w p fd
        (opened_file node flags (if has flags o_append then (w.node node).st_size else 0))
        (syscall_open ops reduce p true path flags (some found) created (some fd) w)
unfolding syscall_open node_or_create open_reduced open_node fd_create open_truncate offset made
syscall_open_lem ops reduce w p fd found node flags path created v fresh counts usable some_path
      short excl e dir trunc =
    let nonempty : (strlen path == 0) ≡ false = ne→== (strlen path) 0 (omega arith) in
    let fits : leb path_max (strlen path) ≡ false = lt→leb (strlen path) path_max short in
    let whole : syscall_open ops reduce p true path flags (some found) created (some fd) w
        ≡ open_number p node flags fd (in_store (created_store w.store fd node flags) w) =
      rw (nonempty, fits, excl, e, dir, trunc) refl in
    subst (Opens w p fd _) (sym whole) (open_number-Opens w p fd node flags v fresh counts usable)
