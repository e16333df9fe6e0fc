-- ===== src/Sys/Files.antt =====
-- kernel/src/sys/syscalls/sc_file.c: the system calls on files, over the descriptors of Fs.Fd. A node's
-- operations are an argument: they give the result of the call and the nodes afterwards. The data in
-- the user's buffers is not modelled, and whether `check_user_ptr` accepts a pointer is an argument.
pub mod Calls
pub mod Flow
pub mod Checks
pub mod Modes
pub mod Start
mod Tests
use piggy_os.Common.{
  ℕ, zero, suc, ◌+◌, ◌-◌, ◌%◌, ◌^◌, Bool, true, false, not, ◌&&◌, ◌||◌, Option, none, some, List,
  [], ◌∷◌, leb, ◌==◌, if◌then◌else◌, bit_and, add64, sub64, update,
}
use piggy_os.Common.Int.{ℤ, pos, negsuc, sub_ℕ}
use piggy_os.Utils.Str.{strlen}
use piggy_os.Fs.Fd.{
  o_cloexec, File, Store, Errno, ebadf, eexist, efault, einval, eisdir, emfile, enametoolong,
  enoent, enomem, enotdir, eperm, espipe, Ret, fdnum, err, put_file, fd_create, fd_close,
  fd_from_fdnum, fd_alloc_fdnum, fd_dup,
}

-- Flags of kernel/include/types.h and kernel/include/fs/fd.h
abbrev pub o_path : ℕ
o_path = 0o200

abbrev pub o_rdonly : ℕ
o_rdonly = 0

abbrev pub o_wronly : ℕ
o_wronly = 1

abbrev pub o_rdwr : ℕ
o_rdwr = 2

abbrev pub o_accmode : ℕ
o_accmode = 0o203

abbrev pub o_creat : ℕ
o_creat = 0o4

abbrev pub o_directory : ℕ
o_directory = 0o10

abbrev pub o_trunc : ℕ
o_trunc = 0o20

abbrev pub o_append : ℕ
o_append = 0o40

abbrev pub o_excl : ℕ
o_excl = 0o100

abbrev pub file_creation_flags_mask : ℕ
file_creation_flags_mask = 0o777

abbrev pub path_max : ℕ
path_max = 4096

-- The fields of `struct stat` that the calls read.
pub record Node : Type 0 where
  pub st_mode : ℕ
  pub st_size : ℕ
  pub st_blksize : ℕ

-- S_ISDIR, S_ISREG and S_ISBLK
abbrev pub is_dir : Node → Bool
is_dir n = bit_and n.st_mode 0xf000 == 0x5000

abbrev pub is_reg : Node → Bool
is_reg n = bit_and n.st_mode 0xf000 == 0x3000

abbrev pub is_blk : Node → Bool
is_blk n = bit_and n.st_mode 0xf000 == 0x1000

-- The functions of a node. `read` and `write` take the node, the offset, the count and the flags.
pub record Operations : Type 0 where
  pub read : ℕ → ℕ → ℕ → ℕ → (ℕ → Node) → ℤ × (ℕ → Node)
  pub write : ℕ → ℕ → ℕ → ℕ → (ℕ → Node) → ℤ × (ℕ → Node)
  pub ioctl : ℕ → ℕ → ℕ → (ℕ → Node) → ℤ × (ℕ → Node)
  pub truncate : ℕ → ℤ → (ℕ → Node) → ℤ × (ℕ → Node)
  pub sync : ℕ → (ℕ → Node) → ℤ × (ℕ → Node)

-- The descriptors, the nodes, and the working directory of each process.
pub record World : Type 0 where
  pub store : Store
  pub node : ℕ → Node
  pub cwd : ℕ → ℕ

-- What is left in `rax`: a result, or an error code, negated.
pub data Rax : Type 0 where
  value : ℤ → Rax
  error : Errno → Rax

abbrev pub in_store : Store → World → World
in_store s w = record w { store = s }

-- A result of a function of the node.
abbrev pub with_nodes : World → ℤ × (ℕ → Node) → Rax × World
with_nodes w (z, nodes) = (value z, record w { node = nodes })

-- `flags & bit`
abbrev pub has : ℕ → ℕ → Bool
has flags bit = not (bit_and flags bit == 0)

-- A result of a function on descriptors.
abbrev pub from_ret : Ret × Store → World → Rax × World
from_ret (fdnum n, s) w = (value (pos n), in_store s w)
from_ret (err e, s) w = (error e, in_store s w)

-- The object of an address. A descriptor that names no object is outside the model.
unfoldable pub with_object : Option ℕ → World → (ℕ → File → Rax × World) → Rax × World
with_object none w next = (error ebadf, w)
with_object (some fd) w next = elim (w.store.file fd) [
  | none ↦ (error ebadf, w)
  | some f ↦ next fd f
]

-- The common beginning: the descriptor of a number, whose references grow by one.
unfoldable pub with_fd : ℕ → ℤ → World → (ℕ → File → World → Rax × World) → Rax × World
with_fd p num w next =
    let (found, s) = fd_from_fdnum p num w.store in
    let w' = in_store s w in with_object found w' (λ fd f. next fd f w')

-- The same, for calls that refuse a descriptor opened with O_PATH.
unfoldable pub with_file : ℕ → ℤ → World → (ℕ → File → World → Rax × World) → Rax × World
with_file p num w next =
    with_fd p num w (λ fd f w'.
      if has (bit_and f.flags o_accmode) o_path then (error ebadf, w') else next fd f w')

-- The access mode is `mode` or read and write.
abbrev pub allows : File → ℕ → Bool
allows f mode = let acc_mode = bit_and f.flags o_accmode in acc_mode == o_rdwr || acc_mode == mode

-- `if (read > 0) fd->offset += read`, and the result; the offset is the bits of an `off_t`, which wraps.
unfoldable pub advance_offset : ℕ → File → World → ℤ × (ℕ → Node) → Rax × World
advance_offset fd f w (pos zero, nodes) = (value (pos zero), record w { node = nodes })
advance_offset fd f w (pos (suc n), nodes) = (
  value (pos (suc n)),
  record w {
    node = nodes;
    store = put_file fd (some (record f { offset = add64 f.offset (suc n) })) w.store;
  },
)
advance_offset fd f w (negsuc n, nodes) = (value (negsuc n), record w { node = nodes })

-- The checks that `syscall_read` and `syscall_write` share, and the transfer at the offset.
unfoldable pub transfer :
    ℕ → (ℕ → ℕ → ℕ → ℕ → (ℕ → Node) → ℤ × (ℕ → Node)) → ℕ → ℕ → File → World → Rax × World
transfer mode operation count fd f w =
    let n = w.node f.node in
    if not (allows f mode)
    then (error eperm, w)
    else if is_dir n
    then (error eisdir, w)
    else if is_blk n && not (count % n.st_blksize == 0)
    then (error einval, w)
    else advance_offset fd f w (operation f.node f.offset count f.flags w.node)

-- `syscall_read`
unfoldable pub syscall_read : Operations → ℕ → ℤ → Bool → ℕ → World → Rax × World
syscall_read ops p num user_ok count w =
    if user_ok then with_file p num w (transfer o_rdonly ops.read count) else (error efault, w)

-- `syscall_write`
unfoldable pub syscall_write : Operations → ℕ → ℤ → Bool → ℕ → World → Rax × World
syscall_write ops p num user_ok count w =
    if user_ok then with_file p num w (transfer o_wronly ops.write count) else (error efault, w)

-- `syscall_close`
unfoldable pub syscall_close : ℕ → ℤ → World → Rax × World
syscall_close p num w = from_ret (fd_close p num w.store) w

-- `syscall_ioctl`
unfoldable pub syscall_ioctl : Operations → ℕ → ℤ → ℕ → ℕ → World → Rax × World
syscall_ioctl ops p num request argp w =
    with_file p num w (λ fd f w'. with_nodes w' (ops.ioctl f.node request argp w'.node))

-- `current + offset`
abbrev pub add_offset : ℕ → ℤ → ℤ
add_offset current (pos n) = pos (current + n)
add_offset current (negsuc n) = sub_ℕ current (suc n)

-- The new offset of `syscall_seek`; SEEK_SET, SEEK_CUR and SEEK_END are 0, 1 and 2.
unfoldable pub new_offset : ℕ → ℕ → ℤ → ℕ → Option ℤ
new_offset current size offset zero = some offset
new_offset current size offset (suc zero) = some (add_offset current offset)
new_offset current size offset (suc (suc zero)) = some (add_offset size offset)
new_offset current size offset (suc (suc (suc whence))) = none

abbrev pub magnitude : ℤ → ℕ
magnitude (pos n) = n
magnitude (negsuc n) = suc n

-- The end of `syscall_seek`
unfoldable pub set_offset : ℕ → File → World → Option ℤ → Rax × World
set_offset fd f w none = (error einval, w)
set_offset fd f w (some (negsuc n)) = (error espipe, w)
set_offset fd f w (some (pos n)) =
    (value (pos n), record w { store = put_file fd (some (record f { offset = n })) w.store })

-- `syscall_seek`
unfoldable pub syscall_seek : ℕ → ℤ → ℤ → ℕ → World → Rax × World
syscall_seek p num offset whence w = with_file p num w (λ fd f w'.
    let n = w'.node f.node in
    if is_dir n
    then (error eisdir, w')
    else if is_blk n && not (magnitude offset % n.st_blksize == 0)
    then (error einval, w')
    else set_offset fd f w' (new_offset f.offset n.st_size offset whence))

-- `syscall_truncate`
unfoldable pub syscall_truncate : Operations → ℕ → ℤ → ℤ → World → Rax × World
syscall_truncate ops p num length w = with_file p num w (λ fd f w'.
    if not (allows f o_wronly)
    then (error eperm, w')
    else if is_dir (w'.node f.node)
    then (error eisdir, w')
    else with_nodes w' (ops.truncate f.node length w'.node))

-- `fd->flags = flags` and a result of 0
abbrev pub set_flags : ℕ → File → ℕ → World → Rax × World
set_flags fd f flags w =
    (value (pos 0), record w { store = put_file fd (some (record f { flags = flags })) w.store })

-- The commands of `syscall_fcntl`, from F_DUPFD to F_SETFL; `arg` is not negative, and `memory` is what
-- the allocation of a duplicate gives.
unfoldable pub fcntl_command : ℕ → ℕ → ℕ → ℕ → Option ℕ → ℕ → File → World → Rax × World
fcntl_command p num zero arg memory fd f w =
    from_ret (fd_dup p num p arg false false memory w.store) w
fcntl_command p num (suc zero) arg memory fd f w =
    from_ret (fd_dup p num p arg false true memory w.store) w
fcntl_command p num (suc (suc zero)) arg memory fd f w =
    (value (pos (bit_and f.flags o_cloexec)), w)
fcntl_command p num (suc (suc (suc zero))) arg memory fd f w =
    set_flags fd f (bit_and arg o_cloexec) w
fcntl_command p num (suc (suc (suc (suc zero)))) arg memory fd f w =
    (value (pos (bit_and f.flags file_creation_flags_mask)), w)
fcntl_command p num (suc (suc (suc (suc (suc zero))))) arg memory fd f w =
    set_flags fd f (bit_and arg file_creation_flags_mask) w
fcntl_command p num (suc (suc (suc (suc (suc (suc cmd)))))) arg memory fd f w = (error einval, w)

-- `syscall_fcntl`, for a number that is not negative
unfoldable pub syscall_fcntl : ℕ → ℕ → ℕ → ℕ → Option ℕ → World → Rax × World
syscall_fcntl p num cmd arg memory w = with_file p (pos num) w (fcntl_command p num cmd arg memory)

-- `syscall_fsync`
unfoldable pub syscall_fsync : Operations → ℕ → ℤ → World → Rax × World
syscall_fsync ops p num w = with_file p num w (λ fd f w'. with_nodes w' (ops.sync f.node w'.node))

-- `syscall_stat`, without the copy; `copied` says whether it succeeds.
unfoldable pub syscall_stat : ℕ → ℤ → Bool → World → Rax × World
syscall_stat p num copied w =
    with_fd p num w (λ fd f w'. if copied then (value (pos 0), w') else (error efault, w'))

-- `syscall_chdir`
unfoldable pub syscall_chdir : ℕ → ℤ → World → Rax × World
syscall_chdir p num w = with_fd p num w (λ fd f w'.
    if is_dir (w'.node f.node)
    then (value (pos 0), record w' { cwd = update w'.cwd p f.node })
    else (error enotdir, w'))

-- `syscall_getdents`; `entries` stands for `vfs_getdents`.
unfoldable pub syscall_getdents :
    (ℕ → ℕ → ℕ → (ℕ → Node) → ℤ × (ℕ → Node)) → ℕ → ℤ → Bool → ℕ → World → Rax × World
syscall_getdents entries p num user_ok count w =
    if user_ok
    then with_file p num w (λ fd f w'.
      if not (allows f o_rdonly)
      then (error eperm, w')
      else if not (is_dir (w'.node f.node))
      then (error enotdir, w')
      else advance_offset fd f w' (entries f.node f.offset count w'.node))
    else (error efault, w)

-- `file_descriptors[fdnum]->offset = size`
abbrev pub at_end : ℕ → ℕ → Store → Store
at_end fd size s = elim (s.file fd) [
  | none ↦ s
  | some f ↦ put_file fd (some (record f { offset = size })) s
]

abbrev pub is_some : Option ℕ → Bool
is_some none = false
is_some (some x) = true

-- The end of `syscall_open`: the object gets a number, or is given back.
unfoldable pub open_number : ℕ → ℕ → ℕ → ℕ → World → Rax × World
open_number p node flags fd w =
    let (number, s) = fd_alloc_fdnum p fd w.store in
    let refs = w.store.node_refs in
    elim number [
      | none ↦ (
        error emfile,
        in_store
            (record (put_file fd none w.store) {
              node_refs = update refs node (sub64 (refs node) 1);
            })
            w,
      )
      | some i ↦ (
        value (pos i),
        in_store (if has flags o_append then at_end fd (w.node node).st_size s else s) w,
      )
    ]

abbrev pub open_truncated : ℕ → ℕ → ℕ → ℕ → World → ℤ × (ℕ → Node) → Rax × World
open_truncated p node flags fd w (negsuc z, nodes) = (value (negsuc z), record w { node = nodes })
open_truncated p node flags fd w (pos z, nodes) =
    open_number p node flags fd (record w { node = nodes })

-- The truncation that O_TRUNC asks for; a negative result ends the call.
unfoldable pub open_truncate : Operations → ℕ → ℕ → ℕ → ℕ → World → Rax × World
open_truncate ops p node flags fd w =
    if has flags o_trunc && is_reg (w.node node)
    then open_truncated p node flags fd w (ops.truncate node (pos 0) w.node)
    else open_number p node flags fd w

-- `syscall_open` from the node on, which has been reduced.
unfoldable pub open_node : Operations → ℕ → ℕ → ℕ → Option ℕ → World → Rax × World
open_node ops p node flags memory w =
    let (created, s) = fd_create node flags memory w.store in
    if not (is_dir (w.node node)) && has flags o_directory
    then (error enotdir, w)
    else elim created [
      | none ↦ (error enomem, in_store s w)
      | some fd ↦ open_truncate ops p node flags fd (in_store s w)
    ]

-- The same from `vfs_reduce_node` on, which may find no node.
unfoldable pub open_reduced : Operations → ℕ → Option ℕ → ℕ → Option ℕ → World → Rax × World
open_reduced ops p none flags memory w = (error enoent, w)
open_reduced ops p (some node) flags memory w = open_node ops p node flags memory w

-- The node of a path, which O_CREAT makes where there is none.
unfoldable pub node_or_create : ℕ → Option ℕ → Option ℕ → Option ℕ
node_or_create flags (some node) created = some node
node_or_create flags none created = if has flags o_creat then created else none

-- `syscall_open`. `found` is what `vfs_get_node` gives, `created` what `vfs_create` gives, `reduce` is
-- `vfs_reduce_node`, and `memory` what the allocation of the object gives.
unfoldable pub syscall_open :
    Operations
    → (ℕ → Option ℕ)
    → ℕ
    → Bool
    → List ℕ
    → ℕ
    → Option ℕ
    → Option ℕ
    → Option ℕ
    → World
    → Rax × World
syscall_open ops reduce p user_ok path flags found created memory w =
    if not user_ok
    then (error efault, w)
    else if strlen path == 0
    then (error enoent, w)
    else if leb path_max (strlen path)
    then (error enametoolong, w)
    else if is_some found && has flags o_creat && has flags o_excl
    then (error einval, w)
    else elim (node_or_create flags found created) [
      | none ↦ (error enoent, w)
      | some node ↦ open_reduced ops p (reduce node) flags memory w
    ]

-- `syscall_mkdir`, which leaves the tree to `vfs_create`
unfoldable pub syscall_mkdir : Bool → List ℕ → Option ℕ → Option ℕ → Rax
syscall_mkdir user_ok path found created =
    if not user_ok
    then error efault
    else if strlen path == 0
    then error enoent
    else if leb path_max (strlen path)
    then error enametoolong
    else if is_some found
    then error eexist
    else if is_some created
    then value (pos 0)
    else error enoent
