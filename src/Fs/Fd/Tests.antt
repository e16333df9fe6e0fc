-- ===== src/Fs/Fd/Tests.antt =====
-- Two processes with descriptors, and the theorems at their store.
use piggy_os.Common.{ℕ, ◌≤◌, ◌≡◌, ◌≢◌, ◌⊎◌, inl, true, none, some, arith}
use piggy_os.Common.Int.{pos}
use piggy_os.Fs.Fd.{
  max_fds, Store, File, entry, fdnum, err, ebadf, fd_close, fd_alloc_fdnum, fd_dup,
}
use piggy_os.Fs.Fd.Inv.{IsValid}
use piggy_os.Fs.Fd.Sample.{
  console, made, one_file, made-IsValid, made_alive, made-Unused, one_file-IsValid, one_file-entry,
  one_file_fresh,
}
use piggy_os.Fs.Fd.Ops.{released, Closes, Stores, fd_close_lem, fd_alloc_fdnum_lem}
use piggy_os.Fs.Fd.Dup.{copy, counted, fd_dup-exact}

fd_close_lem_example :
    (fd_close 0 (pos 0) one_file ≡ (err ebadf, one_file))
      × ((max_fds ≤ 0) ⊎ (entry one_file 0 0 ≡ none))
    ⊎ ((fd : ℕ) × (f : File) × (entry one_file 0 0 ≡ some fd)
        × (one_file.file fd ≡ some f)
        × Closes one_file 0 0 fd f (fd_close 0 (pos 0) one_file))
fd_close_lem_example = fd_close_lem one_file 0 0 one_file-IsValid

fd_alloc_fdnum_lem_example : Stores made 0 100 (fd_alloc_fdnum 0 100 made)
fd_alloc_fdnum_lem_example =
    fd_alloc_fdnum_lem made 0 100 console made-IsValid made_alive made-Unused

fd_dup-exact_example :
    (t : Store) × (fd_dup 0 0 1 5 true true (some 200) one_file ≡ (fdnum 5, t))
    × (entry t 1 5 ≡ some 200)
    × (entry t 0 0 ≡ some 100)
    × (t.file 200 ≡ some (copy true console))
    × (t.file 100 ≡ some (counted console 2))
    × ((a b : ℕ) → (a ≢ 1) ⊎ (b ≢ 5) → entry t a b ≡ entry one_file a b)
    × IsValid t
    × ((old : ℕ) (g : File)
        → entry one_file 1 5 ≡ some old
        → one_file.file old ≡ some g
        → t.file old ≡ released g)
    × ((k : ℕ) → k ≢ 200 → k ≢ 100 → entry one_file 1 5 ≢ some k → t.file k ≡ one_file.file k)
fd_dup-exact_example =
    fd_dup-exact one_file 0 0 1 5 100 200 console true one_file-IsValid (omega arith) (omega arith)
      (inl (omega arith)) one_file-entry made_alive one_file_fresh
