-- ===== src/Fs/Tmpfs/Tests.antt =====
-- A file of 10 bytes, and the theorems at it.
use piggy_os.Common.{ℕ, ◌+◌, ◌-◌, ◌<◌, ◌≤◌, ◌≡◌, ◌^◌, ◌⊎◌, min, max, refl, none, some, arith}
use piggy_os.Sys.Time.{Timespec}
use piggy_os.Fs.Tmpfs.{
  TmpNode, tmpfs_read, tmpfs_write, tmpfs_truncate, ensure, enlarge, double_while,
}
use piggy_os.Fs.Tmpfs.Grow.{IsValid}
use piggy_os.Fs.Tmpfs.Back.{Reads, tmpfs_read_lem, tmpfs_read-tmpfs_write}

abbrev noon : Timespec
noon = record { tv_sec = 43200; tv_nsec = 0 }

abbrev ten_bytes : TmpNode
ten_bytes = record {
  capacity = 4096;
  bytes = λ i. i + 60;
  st_size = 10;
  st_blksize = 512;
  st_blocks = 1;
  st_atim = noon;
  st_mtim = noon;
}

tmpfs_read_lem_example :
    (30 ≤ ten_bytes.st_size)
      × Reads ten_bytes (λ i. 0) 30 (min 5 (10 - 30)) noon (tmpfs_read ten_bytes (λ i. 0) 30 5 noon)
    ⊎ (ten_bytes.st_size < 30)
      × Reads ten_bytes
          (λ i. 0)
          30
          (2 ^ 64 - (30 - 10))
          noon
          (tmpfs_read ten_bytes (λ i. 0) 30 5 noon)
tmpfs_read_lem_example =
    tmpfs_read_lem ten_bytes (λ i. 0) 30 5 noon (omega arith) (omega arith) (omega arith)

-- A write that makes the array larger
tmpfs_read-tmpfs_write_example :
    (node' : TmpNode) × (tmpfs_write ten_bytes (λ i. i) 5 5000 noon (some (λ i. 7))
      ≡ some (some 5000, node'))
    × IsValid node'
    × (node'.st_size ≡ max 10 5005)
    × ((j : ℕ) → j < 10 → (j < 5) ⊎ (5005 ≤ j) → node'.bytes j ≡ ten_bytes.bytes j)
    × ((tmpfs_read node' (λ i. 0) 5 5000 noon).0 ≡ 5000)
    × ((i : ℕ) → i < 5000 → (tmpfs_read node' (λ i. 0) 5 5000 noon).1 i ≡ i)
tmpfs_read-tmpfs_write_example =
    tmpfs_read-tmpfs_write ten_bytes (λ i. i) (λ i. 0) (λ i. 7) 5 5000 noon noon
      (record { room = omega arith; some_room = omega arith; small = omega arith }) (omega arith)
      (omega arith)

no_memory : tmpfs_truncate ten_bytes 5000 noon none ≡ some (none, ten_bytes)
unfolding tmpfs_truncate ensure enlarge double_while
no_memory = refl
