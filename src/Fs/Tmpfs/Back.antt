-- ===== src/Fs/Tmpfs/Back.antt =====
-- Reading back what has been written.
use piggy_os.Common.{
  ℕ, ◌+◌, ◌-◌, ◌^◌, ◌<◌, ◌≤◌, ◌≡◌, ◌⊎◌, inl, inr, min, max, refl, sym, ap, ◌∙◌, false, some, leb,
  if◌then◌else◌, add64, sub64, arith, lt→leb,
}
use native.Mathlib.Decide.{dec_lt}
use piggy_os.Sys.Time.{Timespec}
use piggy_os.Fs.Tmpfs.{TmpNode, signed_le, tmpfs_read, write_bytes, with_room, tmpfs_write}
use piggy_os.Utils.Move.{memcpy}
use piggy_os.Utils.Move.Copy.{memcpy-inside, memcpy-outside}
use piggy_os.Fs.Tmpfs.Grow.{IsValid, ensure-Ensured}

-- What a read of `n` bytes gives.
pub record Reads (node : TmpNode) (buf : ℕ → ℕ) (offset n : ℕ) (now : Timespec)
    (r : ℕ × (ℕ → ℕ) × TmpNode) : Type 0 where
  pub result : r.0 ≡ n
  pub bytes : (i : ℕ) → i < n → r.1 i ≡ node.bytes (offset + i)
  pub rest : (i : ℕ) → n ≤ i → r.1 i ≡ buf i
  pub node_after : r.2 ≡ record node { st_atim = now }

-- The count that a read comes to
actual : ℕ → ℕ → ℕ → ℕ
actual size offset count =
    let end = add64 offset count in
    if signed_le size end then sub64 count (sub64 end size) else count

actual-inside :
    (size offset count : ℕ)
    → size < 2 ^ 62
    → count < 2 ^ 62
    → offset ≤ size
    → actual size offset count ≡ min count (size - offset)
unfolding actual
actual-inside size offset count s c inside = ground arith

actual-behind :
    (size offset count : ℕ)
    → offset < 2 ^ 62
    → count < 2 ^ 62
    → size < offset
    → actual size offset count ≡ 2 ^ 64 - (offset - size)
unfolding actual
actual-behind size offset count o c behind = ground arith

reads :
    (node : TmpNode) (buf : ℕ → ℕ) (offset count : ℕ) (now : Timespec) (n : ℕ)
    → actual node.st_size offset count ≡ n
    → Reads node buf offset n now (tmpfs_read node buf offset count now)
unfolding tmpfs_read actual
reads node buf offset count now n e = record {
  result = e;
  bytes = λ i l.
      ap (λ k. memcpy buf 0 node.bytes offset k i) e
      ∙ memcpy-inside buf node.bytes 0 offset n i (omega arith) (omega arith)
      ∙ ap node.bytes (omega arith);
  rest = λ i l.
      ap (λ k. memcpy buf 0 node.bytes offset k i) e
      ∙ memcpy-outside buf node.bytes 0 offset n i (inr (omega arith));
  node_after = refl;
}

-- For sizes, offsets and counts below 2^62, a read that begins within the file gives the bytes from its
-- offset on, as many as were asked for or as are left, and keeps the rest of the buffer; a read that
-- begins behind the end copies 2^64 bytes less its distance from the end.
pub tmpfs_read_lem :
    (node : TmpNode) (buf : ℕ → ℕ) (offset count : ℕ) (now : Timespec)
    → node.st_size < 2 ^ 62
    → offset < 2 ^ 62
    → count < 2 ^ 62
    → (offset ≤ node.st_size)
        × Reads node buf offset
            (min count (node.st_size - offset))
            now
            (tmpfs_read node buf offset count now)
      ⊎ (node.st_size < offset)
        × Reads node buf offset
            (2 ^ 64 - (offset - node.st_size))
            now
            (tmpfs_read node buf offset count now)
tmpfs_read_lem node buf offset count now s o c = elim (dec_lt node.st_size offset) [
  | yes l ↦
      inr (l, reads node buf offset count now _ (actual-behind node.st_size offset count o c l))
  | no l ↦
      let inside : offset ≤ node.st_size = omega arith in
      inl (
        inside,
        reads node buf offset count now _ (actual-inside node.st_size offset count s c inside),
      )
]

write_bytes-size :
    (buf : ℕ → ℕ) (offset count : ℕ) (now : Timespec) (node : TmpNode)
    → node.st_size < 2 ^ 62
    → offset + count < 2 ^ 62
    → (write_bytes buf offset count now node).st_size ≡ max node.st_size (offset + count)
unfolding write_bytes
write_bytes-size buf offset count now node s o = ground arith

write_bytes-bytes :
    (buf : ℕ → ℕ) (offset count : ℕ) (now : Timespec) (node : TmpNode)
    → (write_bytes buf offset count now node).bytes ≡ memcpy node.bytes offset buf 0 count
unfolding write_bytes
write_bytes-bytes buf offset count now node = refl

write_bytes-IsValid :
    (buf : ℕ → ℕ) (offset count : ℕ) (now : Timespec) (node : TmpNode)
    → node.st_size < 2 ^ 62
    → offset + count < 2 ^ 62
    → node.st_size ≤ node.capacity
    → offset + count ≤ node.capacity
    → 1 ≤ node.capacity
    → node.capacity ≤ 2 ^ 63
    → IsValid (write_bytes buf offset count now node)
unfolding write_bytes
write_bytes-IsValid buf offset count now node s o old new some_room small =
    let size = write_bytes-size buf offset count now node s o in
    record { room = omega (arith, size); some_room = some_room; small = small }

below_capacity : (c e : ℕ) → leb c e ≡ false → e ≤ c
below_capacity c e h = ground arith

-- With memory for a larger array, for a size and an end of the write below 2^62, a write gives its count
-- and a read of as many bytes at the same offset then gives the bytes back. The other bytes of
-- the file are kept, and its size grows to the end of the write.
pub tmpfs_read-tmpfs_write :
    (node : TmpNode) (src buf fresh : ℕ → ℕ) (offset count : ℕ) (now later : Timespec)
    → IsValid node
    → node.st_size < 2 ^ 62
    → offset + count < 2 ^ 62
    → (node' : TmpNode) × (tmpfs_write node src offset count now (some fresh)
        ≡ some (some count, node'))
      × IsValid node'
      × (node'.st_size ≡ max node.st_size (offset + count))
      × ((j : ℕ)
          → j < node.st_size
          → (j < offset) ⊎ (offset + count ≤ j)
          → node'.bytes j ≡ node.bytes j)
      × ((tmpfs_read node' buf offset count later).0 ≡ count)
      × ((i : ℕ) → i < count → (tmpfs_read node' buf offset count later).1 i ≡ src i)
unfolding tmpfs_write
tmpfs_read-tmpfs_write node src buf fresh offset count now later v s o =
    let end : add64 offset count ≡ offset + count = omega arith in
    let g =
      ensure-Ensured (λ c. leb c (add64 offset count)) fresh node v
        (λ c l. lt→leb (add64 offset count) c (omega arith)) in
    let room = v.room in
    let some_room = v.some_room in
    let larger = g.larger in
    let enough : offset + count ≤ g.capacity =
      below_capacity g.capacity (offset + count) (ap (leb g.capacity) (sym end) ∙ g.enough) in
    let grown = record node { capacity = g.capacity; bytes = g.bytes } in
    let node' = write_bytes src offset count now grown in
    let size = write_bytes-size src offset count now grown s o in
    let bytes = write_bytes-bytes src offset count now grown in
    let r = reads node' buf offset count later count (
      ap (λ n. actual n offset count) size
      ∙ actual-inside (max node.st_size (offset + count)) offset count (omega arith) (omega arith)
          (omega arith)
      ∙ omega arith) in
    (
      node',
      ap (λ x. with_room x (λ n. (count, write_bytes src offset count now n))) g.result,
      write_bytes-IsValid src offset count now grown s o (omega arith) enough (omega arith) g.small,
      size,
      λ j l out.
          ap (λ f. f j) bytes
          ∙ memcpy-outside g.bytes src offset 0 count j out
          ∙ g.kept j (omega arith),
      r.result,
      λ i l.
          r.bytes i l
          ∙ ap (λ f. f (offset + i)) bytes
          ∙ memcpy-inside g.bytes src offset 0 count (offset + i) (omega arith) (omega arith)
          ∙ ap src (omega arith),
    )
