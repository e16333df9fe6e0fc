-- ===== src/Sys/Files/Modes.antt =====
-- Seeking before a transfer, and the flags that fcntl sets.
use piggy_os.Common.{
  ℕ, ◌%◌, ◌≡◌, refl, ap, ◌∙◌, Bool, true, false, not, ◌&&◌, Option, some, ◌==◌, if◌then◌else◌,
  bit_and,
}
use piggy_os.Common.Int.{pos}
use piggy_os.Fs.Fd.{o_cloexec, File, put_file, eperm}
use piggy_os.Fs.Fd.Dup.{counted}
use piggy_os.Sys.Files.{
  o_path, o_rdonly, o_wronly, o_accmode, is_dir, is_blk, Operations, World, value, error, in_store,
  has, allows, transfer, syscall_read, syscall_write, syscall_seek, new_offset, set_offset,
  fcntl_command, syscall_fcntl,
}
use piggy_os.Sys.Files.Calls.{Open, looked_up, with_file-Open, put_file-Open, Transfers}
use piggy_os.Sys.Files.Flow.{Moved, syscall_read_lem}

-- The world with `g` in place of the object of a descriptor that was looked up.
abbrev pub changed : World → ℕ → File → File → World
changed w fd f g = in_store (put_file fd (some g) (looked_up w fd f).store) (looked_up w fd f)

pub changed-Open :
    (w : World) (p i fd : ℕ) (f g : File)
    → Open w.store p i fd f
    → has (bit_and g.flags o_accmode) o_path ≡ false
    → Open (changed w fd f g).store p i fd g
changed-Open w p i fd f g o u =
    put_file-Open (looked_up w fd f).store p i fd (counted f 1) g
      (put_file-Open w.store p i fd f (counted f 1) o o.usable) u

-- SEEK_SET of an open descriptor to `n` gives `n`.
syscall_seek-Open :
    (w : World) (p i fd n : ℕ) (f : File)
    → Open w.store p i fd f
    → is_dir (w.node f.node) ≡ false
    → (is_blk (w.node f.node) && not (n % (w.node f.node).st_blksize == 0)) ≡ false
    → syscall_seek p (pos i) (pos n) 0 w
      ≡ (value (pos n), changed w fd f (record (counted f 1) { offset = n }))
unfolding syscall_seek new_offset set_offset
syscall_seek-Open w p i fd n f o no_dir whole =
    with_file-Open w p i fd f _ o ∙ rw (no_dir, whole) refl

-- After SEEK_SET to `n` a read of an open descriptor whose node allows it gives what the node's function
-- gives at `n`, and moves the offset on from `n`; on a block device `n` and the count are whole blocks.
pub syscall_read-seek :
    (ops : Operations) (w : World) (p i fd n count : ℕ) (f : File)
    → Open w.store p i fd f
    → Transfers w f o_rdonly count
    → (is_blk (w.node f.node) && not (n % (w.node f.node).st_blksize == 0)) ≡ false
    → let (rax, w1) = syscall_seek p (pos i) (pos n) 0 w in
      let r = ops.read f.node n count f.flags w.node in
      (rax ≡ value (pos n))
      × Moved w1 p i fd
          (record (counted f 1) { offset = n })
          r.0
          r.1
          (syscall_read ops p (pos i) true count w1)
syscall_read-seek ops w p i fd n count f o t whole =
    let f1 = record (counted f 1) { offset = n } in
    rw (syscall_seek-Open w p i fd n f o t.no_dir whole) (
      refl,
      syscall_read_lem ops (changed w fd f f1) p i fd count f1
          (changed-Open w p i fd f f1 o o.usable)
          (record { allowed = t.allowed; no_dir = t.no_dir; whole = t.whole }),
    )

-- The argument of F_SETFD that sets or clears FD_CLOEXEC.
abbrev pub fd_flags : Bool → ℕ
fd_flags cloexec = if cloexec then o_cloexec else 0

fd_flags-usable :
    (b : Bool) → has (bit_and (bit_and (fd_flags b) o_cloexec) o_accmode) o_path ≡ false
fd_flags-usable true = refl
fd_flags-usable false = refl

syscall_fcntl-Open :
    (w : World) (p i fd : ℕ) (b : Bool) (memory : Option ℕ) (f : File)
    → Open w.store p i fd f
    → syscall_fcntl p i 3 (fd_flags b) memory w ≡ (
      value (pos 0),
      changed w fd f (record (counted f 1) { flags = bit_and (fd_flags b) o_cloexec }),
    )
unfolding syscall_fcntl fcntl_command
syscall_fcntl-Open w p i fd b memory f o = with_file-Open w p i fd f _ o

syscall_write-refused :
    (ops : Operations) (w : World) (p i fd count : ℕ) (f : File)
    → Open w.store p i fd f
    → allows f o_wronly ≡ false
    → (syscall_write ops p (pos i) true count w).0 ≡ error eperm
unfolding syscall_write transfer
syscall_write-refused ops w p i fd count f o e =
    ap (λ r. r.0) (with_file-Open w p i fd f _ o) ∙ rw e refl

fd_flags-read_only :
    (f : File) (b : Bool)
    → allows (record f { flags = bit_and (fd_flags b) o_cloexec }) o_wronly ≡ false
fd_flags-read_only f true = refl
fd_flags-read_only f false = refl

-- F_SETFD on an open descriptor succeeds and, whether it sets or clears FD_CLOEXEC, leaves a descriptor
-- that refuses every write, however it was opened.
pub syscall_fcntl-erases :
    (ops : Operations) (w : World) (p i fd count : ℕ) (b : Bool) (memory : Option ℕ) (f : File)
    → Open w.store p i fd f
    → let (rax, w1) = syscall_fcntl p i 3 (fd_flags b) memory w in
      (rax ≡ value (pos 0)) × ((syscall_write ops p (pos i) true count w1).0 ≡ error eperm)
syscall_fcntl-erases ops w p i fd count b memory f o =
    let g = record (counted f 1) { flags = bit_and (fd_flags b) o_cloexec } in
    rw (syscall_fcntl-Open w p i fd b memory f o) (
      refl,
      syscall_write-refused ops (changed w fd f g) p i fd count g
          (changed-Open w p i fd f g o (fd_flags-usable b)) (fd_flags-read_only (counted f 1) b),
    )
