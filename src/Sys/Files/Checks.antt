-- ===== src/Sys/Files/Checks.antt =====
-- The checks before a transfer: what each refusal says of the descriptor, and that nothing else is
-- refused.
use piggy_os.Common.{
  ℕ, ◌%◌, ◌<◌, ◌≤◌, ◌≡◌, ◌⊎◌, inl, inr, refl, ◌∙◌, Bool, true, false, none, some, ◌==◌, leb,
  bit_and, Bool-cases, Option-cases, update_self, arith, lt→leb, le→leb, leb→le,
}
use piggy_os.Common.Int.{ℤ, pos}
use piggy_os.Fs.Fd.{
  max_fds, File, entry, Errno, ebadf, efault, einval, eisdir, eperm, fd_from_fdnum,
}
use piggy_os.Fs.Fd.Inv.{IsValid}
use piggy_os.Fs.Fd.Ops.{fd_from_fdnum_lem}
use piggy_os.Fs.Fd.Dup.{counted}
use piggy_os.Sys.Files.{
  o_path, o_accmode, o_rdonly, Node, is_dir, is_blk, Operations, World, Rax, error, has,
  with_object, with_fd, with_file, allows, transfer, syscall_read,
}
use piggy_os.Sys.Files.Calls.{Open, looked_up, with_object-some, with_file-Open, Transfers}
use piggy_os.Sys.Files.Flow.{Moved, syscall_read_lem}

-- Why a transfer of `count` bytes is refused, with the error and the world that is left: the one
-- before, or the one where the object has a reference more.
pub data Refuses (w : World) (p i mode count : ℕ) : Bool → Errno → World → Type 0 where
  bad_pointer : Refuses w p i mode count false efault w
  no_number : (max_fds ≤ i) ⊎ (entry w.store p i ≡ none) → Refuses w p i mode count true ebadf w
  only_path :
      (fd : ℕ) (f : File)
      → entry w.store p i ≡ some fd
      → w.store.file fd ≡ some f
      → has (bit_and f.flags o_accmode) o_path ≡ true
      → Refuses w p i mode count true ebadf (looked_up w fd f)
  wrong_mode :
      (fd : ℕ) (f : File)
      → Open w.store p i fd f
      → allows f mode ≡ false
      → Refuses w p i mode count true eperm (looked_up w fd f)
  directory :
      (fd : ℕ) (f : File)
      → Open w.store p i fd f
      → allows f mode ≡ true
      → is_dir (w.node f.node) ≡ true
      → Refuses w p i mode count true eisdir (looked_up w fd f)
  part_block :
      (fd : ℕ) (f : File)
      → Open w.store p i fd f
      → allows f mode ≡ true
      → is_dir (w.node f.node) ≡ false
      → is_blk (w.node f.node) ≡ true
      → (count % (w.node f.node).st_blksize == 0) ≡ false
      → Refuses w p i mode count true einval (looked_up w fd f)

-- A refusal, and what the call leaves.
abbrev pub Refused : World → ℕ → ℕ → ℕ → ℕ → Bool → Rax × World → Type 0
Refused w p i mode count ok r =
    (e : Errno) × (w' : World) × Refuses w p i mode count ok e w' × (r ≡ (error e, w'))

with_file-outside :
    (w : World) (p i : ℕ) (next : ℕ → File → World → Rax × World)
    → max_fds ≤ i
    → with_file p (pos i) w next ≡ (error ebadf, w)
unfolding with_file with_fd fd_from_fdnum with_object
with_file-outside w p i next h = rw (le→leb max_fds i h) refl

with_file-empty :
    (w : World) (p i : ℕ) (next : ℕ → File → World → Rax × World)
    → i < max_fds
    → entry w.store p i ≡ none
    → with_file p (pos i) w next ≡ (error ebadf, w)
unfolding with_file with_fd fd_from_fdnum with_object
with_file-empty w p i next h e = rw (lt→leb i max_fds h, e) refl

with_file-path :
    (w : World) (p i fd : ℕ) (f : File) (next : ℕ → File → World → Rax × World)
    → i < max_fds
    → entry w.store p i ≡ some fd
    → w.store.file fd ≡ some f
    → has (bit_and f.flags o_accmode) o_path ≡ true
    → with_file p (pos i) w next ≡ (error ebadf, looked_up w fd f)
unfolding with_file with_fd
with_file-path w p i fd f next h e a q = rw (fd_from_fdnum_lem w.store p i fd f h e a) (
    with_object-some fd (counted f 1) (looked_up w fd f) _ (update_self w.store.file fd _)
    ∙ rw q refl)

-- A transfer with an open descriptor is refused, or allowed.
module _ (w : World) (p i fd mode count : ℕ) (f : File)
    (operation : ℕ → ℕ → ℕ → ℕ → (ℕ → Node) → ℤ × (ℕ → Node)) (o : Open w.store p i fd f) where
  transfer-Refused :
      (e : Errno)
      → transfer mode operation count fd (counted f 1) (looked_up w fd f)
        ≡ (error e, looked_up w fd f)
      → Refuses w p i mode count true e (looked_up w fd f)
      → Refused w p i mode count true (with_file p (pos i) w (transfer mode operation count))
  transfer-Refused e q r =
      (e, looked_up w fd f, r, with_file-Open w p i fd f (transfer mode operation count) o ∙ q)

  transfer-checks :
      Transfers w f mode count
      ⊎ Refused w p i mode count true (with_file p (pos i) w (transfer mode operation count))
  unfolding transfer
  transfer-checks = elim (Bool-cases (allows f mode)) [
    | inr a ↦ inr (transfer-Refused eperm (rw a refl) (wrong_mode fd f o a))
    | inl a ↦ elim (Bool-cases (is_dir (w.node f.node))) [
      | inl d ↦ inr (transfer-Refused eisdir (rw (a, d) refl) (directory fd f o a d))
      | inr d ↦ elim (Bool-cases (is_blk (w.node f.node))) [
        | inr b ↦ inl (record { allowed = a; no_dir = d; whole = rw b refl })
        | inl b ↦ elim (Bool-cases (count % (w.node f.node).st_blksize == 0)) [
          | inl c ↦ inl (record { allowed = a; no_dir = d; whole = rw (b, c) refl })
          | inr c ↦ inr (transfer-Refused einval (rw (a, d, b, c) refl) (part_block fd f o a d b c))
        ]
      ]
    ]
  ]

-- An open descriptor of a process with its object, or the refusal of every transfer
with_file-checks :
    (w : World) (p i mode count : ℕ) (next : ℕ → File → World → Rax × World)
    → IsValid w.store
    → ((fd : ℕ) × (f : File) × Open w.store p i fd f)
      ⊎ Refused w p i mode count true (with_file p (pos i) w next)
with_file-checks w p i mode count next v = elim (Bool-cases (leb max_fds i)) [
  | inl q ↦
      let h : max_fds ≤ i = leb→le max_fds i q in
      inr (ebadf, w, no_number (inl h), with_file-outside w p i next h)
  | inr q ↦
      let h : i < max_fds = ground arith in
      elim (Option-cases (entry w.store p i)) [
        | inl e ↦ inr (ebadf, w, no_number (inr e), with_file-empty w p i next h e)
        | inr (fd, e) ↦
            let (f, a) = v.live p i fd e in
            elim (Bool-cases (has (bit_and f.flags o_accmode) o_path)) [
              | inl u ↦ inr (
                ebadf,
                looked_up w fd f,
                only_path fd f e a u,
                with_file-path w p i fd f next h e a u,
              )
              | inr u ↦
                  inl (fd, f, record { valid = v; inside = h; named = e; alive = a; usable = u })
            ]
      ]
]

-- syscall_read of any number that is not negative, for well-formed tables, either reads or is refused.
-- It reads only where the user's memory is accepted and the number names an object that is not opened
-- with O_PATH, whose mode allows reading and whose node is no directory, and a block device for whole
-- blocks only. Then the result is what the node's function gives at the offset, the offset, a word
-- of 64 bits, moves by it if it is positive, and no number names another object. A refusal is EFAULT, EBADF, EPERM, EISDIR or
-- EINVAL for the first of these that fails, with the nodes, the offsets and the tables as they were,
-- though an object that is named has one reference more.
pub syscall_read-checks :
    (ops : Operations) (w : World) (p i count : ℕ) (ok : Bool)
    → IsValid w.store
    → let r = syscall_read ops p (pos i) ok count w in
      ((fd : ℕ) × (f : File) × (ok ≡ true)
        × Open w.store p i fd f
        × Transfers w f o_rdonly count
        × (let read = ops.read f.node f.offset count f.flags w.node in
            Moved w p i fd f read.0 read.1 r))
      ⊎ Refused w p i o_rdonly count ok r
unfolding syscall_read
syscall_read-checks ops w p i count false v = inr (efault, w, bad_pointer, refl)
syscall_read-checks ops w p i count true v =
    elim (with_file-checks w p i o_rdonly count (transfer o_rdonly ops.read count) v) [
      | inr r ↦ inr r
      | inl (fd, f, o) ↦ elim (transfer-checks w p i fd o_rdonly count f ops.read o) [
        | inr r ↦ inr r
        | inl t ↦ inl (fd, f, refl, o, t, syscall_read_lem ops w p i fd count f o t)
      ]
    ]
