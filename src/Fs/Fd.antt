-- ===== src/Fs/Fd.antt =====
-- kernel/src/fs/fd.c: the file descriptors of processes.
-- File descriptors are objects in a store, named by their address; a process is named by a number
-- and has a table of addresses. What `kmalloc` returns is an argument: an address, or none. Each
-- operation is one step. fd_close and fd_alloc_fdnum run under the process's `fd_lock`; fd_dup writes the table
-- and the counts without it, so what other processors do meanwhile is not modelled.
pub mod Table
pub mod Inv
pub mod Ops
pub mod Dup
pub mod Sample
mod Tests
use piggy_os.Common.{
  ℕ, zero, suc, ◌+◌, ◌-◌, ◌^◌, ◌<◌, ◌≡◌, Bool, true, false, not, ◌&&◌, ◌||◌, Option, none, some,
  List, get_or, set, ltb, leb, ◌==◌, if◌then◌else◌, add64, sub64, bit_and, bit_or, update,
  update_self, update_ne,
}
use piggy_os.Common.Int.{ℤ, pos, negsuc}

-- MAX_FDS, and flags of kernel/include/types.h and kernel/include/fs/fd.h
abbrev pub max_fds : ℕ
max_fds = 32

abbrev pub o_cloexec : ℕ
o_cloexec = 0o1000

abbrev pub file_flags_mask : ℕ
file_flags_mask = 0o1777

-- `struct file_descriptor`; the node is named by a number.
pub record File : Type 0 where
  pub node : ℕ
  pub flags : ℕ
  pub refcount : ℕ
  pub offset : ℕ

-- The objects, the tables of the processes and the reference counts of the nodes.
pub record Store : Type 0 where
  pub file : ℕ → Option File
  pub table : ℕ → List (Option ℕ)
  pub node_refs : ℕ → ℕ

-- The error codes that the operations return negated.
pub data Errno : Type 0 where
  eagain ebadf echild eexist efault eio einval eisdir emfile enametoolong enoent enoexec enomem :
      Errno
  enospc enosys enotdir enotty eperm espipe : Errno

pub data Ret : Type 0 where
  fdnum : ℕ → Ret
  err : Errno → Ret

-- A store with one object written or freed, and one with an entry of a table written.
abbrev pub put_file : ℕ → Option File → Store → Store
put_file fd f s = record s { file = update s.file fd f }

abbrev pub put_entry : ℕ → ℕ → Option ℕ → Store → Store
put_entry p i e s = record s { table = update s.table p (set (s.table p) i e) }

-- `p->file_descriptors[i]`
abbrev pub entry : Store → ℕ → ℕ → Option ℕ
entry s p i = get_or (s.table p) i none

-- `fd_create`
unfoldable pub fd_create : ℕ → ℕ → Option ℕ → Store → Option ℕ × Store
fd_create node flags none s = (none, s)
fd_create node flags (some fd) s =
    let f : File = record {
      node = node;
      flags = bit_and flags file_flags_mask;
      refcount = 1;
      offset = 0;
    } in
    (
      some fd,
      record (put_file fd (some f) s) {
        node_refs = update s.node_refs node (add64 (s.node_refs node) 1);
      },
    )

-- `if (fd->refcount-- == 1) kfree(fd);`
unfoldable pub release : ℕ → Option File → Store → Store
release fd none s = s
release fd (some f) s =
    if f.refcount == 1
    then put_file fd none s
    else put_file fd (some (record f { refcount = sub64 f.refcount 1 })) s

-- The part of `fd_close` behind the range check.
unfoldable pub close_entry : ℕ → ℕ → Option ℕ → Store → Ret × Store
unfolding release
close_entry p i none s = (err ebadf, s)
close_entry p i (some fd) s = (fdnum 0, put_entry p i none (release fd (s.file fd) s))

-- `fd_close`
unfoldable pub fd_close : ℕ → ℤ → Store → Ret × Store
unfolding close_entry
fd_close p (negsuc n) s = (err ebadf, s)
fd_close p (pos i) s = if leb max_fds i then (err ebadf, s) else close_entry p i (entry s p i) s

-- `fd->refcount++`
unfoldable pub retain : ℕ → Option File → Store → Store
retain fd none s = s
retain fd (some f) s = put_file fd (some (record f { refcount = add64 f.refcount 1 })) s

retain_entry : Option ℕ → Store → Option ℕ × Store
unfolding retain
retain_entry none s = (none, s)
retain_entry (some fd) s = (some fd, retain fd (s.file fd) s)

-- `fd_from_fdnum`
unfoldable pub fd_from_fdnum : ℕ → ℤ → Store → Option ℕ × Store
unfolding retain_entry
fd_from_fdnum p (negsuc n) s = (none, s)
fd_from_fdnum p (pos i) s = if leb max_fds i then (none, s) else retain_entry (entry s p i) s

-- The first empty entry of a table among the `n` from `i` on.
unfoldable pub first_free : List (Option ℕ) → ℕ → ℕ → Option ℕ
first_free table i zero = none
first_free table i (suc n) =
    let rest = first_free table (i + 1) n in
    elim (get_or table i none) [ none ↦ some i | some fd ↦ rest ]

-- `fd_alloc_fdnum`; `none` is -1.
unfoldable pub fd_alloc_fdnum : ℕ → ℕ → Store → Option ℕ × Store
unfolding first_free
fd_alloc_fdnum p fd s =
    let free = first_free (s.table p) 0 max_fds in
    elim free [ none ↦ (none, s) | some i ↦ (some i, put_entry p i (some fd) s) ]

-- The copy that `fd_dup` makes of the object `fd`.
unfoldable pub copy_file : Bool → ℕ → Option File → Store → Store
copy_file cloexec fd none s = s
copy_file cloexec fd (some f) s =
    put_file fd (some (if cloexec then record f { flags = bit_or f.flags o_cloexec } else f)) s

-- The loop of `fd_dup` for an inexact number. Its test for a full table compares the loop's last
-- index with MAX_FDS - 1, so the entry 31 is filled and yet refused, and where no entry is free
-- nothing is stored and `new_fdnum` is returned.
unfoldable pub place : ℕ → ℕ → ℕ → Store → Ret × Store
unfolding first_free
place p from fd s =
    let free = first_free (s.table p) from (max_fds - from) in
    elim free [
      | none ↦ (fdnum from, s)
      | some i ↦ (if i == max_fds - 1 then err emfile else fdnum i, put_entry p i (some fd) s)
    ]

-- The branch of `fd_dup` for an exact number.
unfoldable pub replace : ℕ → ℕ → ℕ → Store → Ret × Store
replace p i fd s =
    let (closed, t) = fd_close p (pos i) s in
    elim (entry s p i) [
      | none ↦ (fdnum i, put_entry p i (some fd) s)
      | some old ↦ (fdnum i, put_entry p i (some fd) t)
    ]

-- The end of `fd_dup`: `old_fd->refcount++`, unless the table was found full.
unfoldable pub finish_dup : ℕ → Ret × Store → Ret × Store
finish_dup old_fd (err e, s) = (err e, s)
finish_dup old_fd (fdnum i, s) = (fdnum i, retain old_fd (s.file old_fd) s)

-- `fd_dup`. The numbers are not negative here: a negative old number is refused as one past the
-- table is, and a negative new one makes the code read before the table. The callers of the exact
-- form pass a new number inside the table.
unfoldable pub fd_dup : ℕ → ℕ → ℕ → ℕ → Bool → Bool → Option ℕ → Store → Ret × Store
fd_dup old_process old_fdnum new_process new_fdnum exact cloexec memory s =
    let (found, t) = fd_from_fdnum old_process (pos old_fdnum) s in
    if old_fdnum == new_fdnum && old_process == new_process then (err einval, s) else elim found [
      | none ↦ (err ebadf, t)
      | some old_fd ↦ elim memory [
        | none ↦ (err enomem, t)
        | some new_fd ↦
            let u = copy_file cloexec new_fd (t.file old_fd) t in
            finish_dup old_fd (
              if exact
              then replace new_process new_fdnum new_fd u
              else place new_process new_fdnum new_fd u)
      ]
    ]
