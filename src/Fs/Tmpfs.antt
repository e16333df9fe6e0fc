-- ===== src/Fs/Tmpfs.antt =====
-- kernel/src/fs/tmpfs.c: files in memory. Offsets, counts and sizes are words of 64 bits, which off_t reads
-- as signed. The user's buffer is a function from its bytes' places. What `krealloc` gives, its success
-- and the bytes behind those that it keeps, is an argument.
pub mod Grow
pub mod Back
mod Tests
use piggy_os.Common.{
  ℕ, zero, suc, ◌+◌, ◌-◌, ◌*◌, ◌/◌, ◌%◌, ◌^◌, Bool, true, false, ◌&&◌, Option, none, some, ltb, leb,
  if◌then◌else◌, add64, sub64, mul64,
}
use piggy_os.Sys.Time.{Timespec}
use piggy_os.Utils.Bitmap.{div_ceil}
use piggy_os.Utils.Move.{memcpy}

-- `struct tmp_node_metadata` and the fields of the node that the functions use
pub record TmpNode : Type 0 where
  pub capacity : ℕ
  pub bytes : ℕ → ℕ
  pub st_size : ℕ
  pub st_blksize : ℕ
  pub st_blocks : ℕ
  pub st_atim : Timespec
  pub st_mtim : Timespec

-- `a <= b` of words that are signed
abbrev pub signed_le : ℕ → ℕ → Bool
signed_le a b = leb (add64 a (2 ^ 63)) (add64 b (2 ^ 63))

-- `tmpfs_read`: the result, the buffer and the node.
unfoldable pub tmpfs_read : TmpNode → (ℕ → ℕ) → ℕ → ℕ → Timespec → ℕ × (ℕ → ℕ) × TmpNode
tmpfs_read node buf offset count now =
    let end = add64 offset count in
    let actual_count =
      if signed_le node.st_size end then sub64 count (sub64 end node.st_size) else count in
    (actual_count, memcpy buf 0 node.bytes offset actual_count, record node { st_atim = now })

-- `while (test) new_capacity *= 2;`
unfoldable pub double_while : ℕ → (ℕ → Bool) → ℕ → Option ℕ
double_while zero test new_capacity = none
double_while (suc fuel) test new_capacity =
    let rest = double_while fuel test (mul64 new_capacity 2) in
    if test new_capacity then rest else some new_capacity

-- `krealloc` to a larger capacity
abbrev pub reallocated : (ℕ → ℕ) → ℕ → TmpNode → TmpNode
reallocated fresh new_capacity node = record node {
  capacity = new_capacity;
  bytes = λ i. if ltb i node.capacity then node.bytes i else fresh i;
}

-- The loop and the reallocation of `tmpfs_write` and `tmpfs_truncate`; the second result is whether
-- there was memory, and `none` a loop of more than 64 rounds.
unfoldable pub enlarge : (ℕ → Bool) → Option (ℕ → ℕ) → TmpNode → Option ℕ → Option (Bool × TmpNode)
enlarge test memory node none = none
enlarge test none node (some new_capacity) = some (false, node)
enlarge test (some fresh) node (some new_capacity) =
    some (true, reallocated fresh new_capacity node)

unfoldable pub ensure : (ℕ → Bool) → Option (ℕ → ℕ) → TmpNode → Option (Bool × TmpNode)
ensure test memory node =
    if test node.capacity
    then enlarge test memory node (double_while 64 test node.capacity)
    else some (true, node)

-- `tmpfs_write` with room for the bytes
unfoldable pub write_bytes : (ℕ → ℕ) → ℕ → ℕ → Timespec → TmpNode → TmpNode
write_bytes buf offset count now node =
    let end = add64 offset count in
    let larger = signed_le node.st_size end in
    record node {
      bytes = memcpy node.bytes offset buf 0 count;
      st_size = if larger then end else node.st_size;
      st_blocks = if larger then div_ceil end node.st_blksize else node.st_blocks;
      st_atim = now;
      st_mtim = now;
    }

-- What a function goes on with once there is room; -ENOMEM is `none`.
abbrev pub with_room :
    Option (Bool × TmpNode) → (TmpNode → ℕ × TmpNode) → Option (Option ℕ × TmpNode)
with_room none next = none
with_room (some (false, node)) next = some (none, node)
with_room (some (true, node)) next = let (n, node') = next node in some (some n, node')

-- `tmpfs_write`
unfoldable pub tmpfs_write :
    TmpNode → (ℕ → ℕ) → ℕ → ℕ → Timespec → Option (ℕ → ℕ) → Option (Option ℕ × TmpNode)
tmpfs_write node buf offset count now memory =
    with_room (ensure (λ capacity. leb capacity (add64 offset count)) memory node)
      (λ grown. (count, write_bytes buf offset count now grown))

-- `tmpfs_truncate`, without its `kfree` of the old array
unfoldable pub tmpfs_truncate :
    TmpNode → ℕ → Timespec → Option (ℕ → ℕ) → Option (Option ℕ × TmpNode)
tmpfs_truncate node length now memory =
    with_room (ensure (λ capacity. ltb capacity length) memory node) (λ grown. (
      0,
      record grown {
        st_size = length;
        st_blocks = div_ceil length grown.st_blksize;
        st_atim = now;
        st_mtim = now;
      },
    ))
