-- ===== src/Sys/Files/Tests.antt =====
-- The calls on one file, and the theorems at it.
use piggy_os.Common.{ℕ, ◌≡◌, ◌⊎◌, refl, true, none, some, [], ◌∷◌, arith, update}
use piggy_os.Common.Int.{pos, negsuc}
use piggy_os.Utils.Str.{strlen}
use piggy_os.Fs.Fd.{File, entry, eperm, einval, enoent}
use piggy_os.Fs.Fd.Inv.{Unused}
use piggy_os.Fs.Fd.Sample.{
  console, no_files, no_files-IsValid, one_file, one_file-IsValid, one_file-entry,
}
use piggy_os.Sys.Files.{
  Node, Operations, World, value, error, syscall_read, syscall_write, syscall_close, syscall_fcntl,
  syscall_open, syscall_mkdir,
}
use piggy_os.Sys.Files.Calls.{Open, Transfers}
use piggy_os.Sys.Files.Flow.{Moved, syscall_read-leaks}
use piggy_os.Sys.Files.Checks.{Refused, syscall_read-checks}
use piggy_os.Sys.Files.Modes.{fd_flags, syscall_fcntl-erases}
use piggy_os.Sys.Files.Start.{opened_file, Opens, syscall_open_lem}

-- A regular file of 100 bytes, whose functions transfer what the size allows.
abbrev plain : Node
plain = record { st_mode = 0x3000; st_size = 100; st_blksize = 512 }

abbrev plain_ops : Operations
plain_ops = record {
  read = λ node offset count flags nodes. (pos count, nodes);
  write = λ node offset count flags nodes. (pos count, nodes);
  ioctl = λ node request argp nodes. (negsuc 0, nodes);
  truncate = λ node size nodes. (pos 0, nodes);
  sync = λ node nodes. (pos 0, nodes);
}

abbrev world : World
world = record { store = one_file; node = λ n. plain; cwd = λ p. 0 }

abbrev empty_world : World
empty_world = record { store = no_files; node = λ n. plain; cwd = λ p. 0 }

one_file_alive : one_file.file 100 ≡ some console
unfolding update
one_file_alive = refl

console-Open : Open world.store 0 0 100 console
console-Open = record {
  valid = one_file-IsValid;
  inside = omega arith;
  named = one_file-entry;
  alive = one_file_alive;
  usable = refl;
}

console-Transfers : (mode : ℕ) → Transfers world console mode 7
console-Transfers mode = record { allowed = refl; no_dir = refl; whole = refl }

syscall_read-checks_example :
    let r = syscall_read plain_ops 0 (pos 0) true 7 world in
    ((fd : ℕ) × (f : File) × (true ≡ true)
      × Open one_file 0 0 fd f
      × Transfers world f 0 7
      × (let read = plain_ops.read f.node f.offset 7 f.flags world.node in
          Moved world 0 0 fd f read.0 read.1 r))
    ⊎ Refused world 0 0 0 7 true r
syscall_read-checks_example = syscall_read-checks plain_ops world 0 0 7 true one_file-IsValid

syscall_read-leaks_example :
    let w1 = (syscall_read plain_ops 0 (pos 0) true 7 world).1 in
    let (rax, w2) = syscall_close 0 (pos 0) w1 in
    (rax ≡ value (pos 0))
    × (entry w2.store 0 0 ≡ none)
    × ((g : File) × (w2.store.file 100 ≡ some g) × (g.refcount ≡ 1))
    × Unused w2.store 100
syscall_read-leaks_example =
    syscall_read-leaks plain_ops world 0 0 100 7 console console-Open (console-Transfers 0)
      (omega arith) (omega arith)

syscall_fcntl-erases_example :
    let (rax, w1) = syscall_fcntl 0 0 3 (fd_flags true) none world in
    (rax ≡ value (pos 0)) × ((syscall_write plain_ops 0 (pos 0) true 7 w1).0 ≡ error eperm)
syscall_fcntl-erases_example =
    syscall_fcntl-erases plain_ops world 0 0 100 7 true none console console-Open

syscall_open_lem_example : Opens empty_world 0 100 (opened_file 4 0o42 100) (
    syscall_open plain_ops (λ n. some n) 0 true (97 ∷ []) 0o42 (some 4) none (some 100) empty_world)
unfolding strlen
syscall_open_lem_example =
    syscall_open_lem plain_ops (λ n. some n) empty_world 0 100 4 4 0o42 (97 ∷ []) none
      no_files-IsValid refl (omega arith) refl (omega arith) (omega arith) refl refl refl refl

open_excl :
    (syscall_open plain_ops (λ n. some n) 0 true (97 ∷ []) 0o104 (some 4) none none empty_world).0
    ≡ error einval
unfolding syscall_open strlen
open_excl = refl

mkdir_nowhere : syscall_mkdir true (97 ∷ []) none none ≡ error enoent
unfolding syscall_mkdir strlen
mkdir_nowhere = refl
