-- ===== src/Fs/Fd/Sample.antt =====
-- Descriptor tables with one object, for tests.
use piggy_os.Common.{ℕ, zero, suc, ◌≡◌, ◌≢◌, refl, none, some, arith, replicate, get_or, update}
use piggy_os.Fs.Fd.{max_fds, Store, File, entry, put_entry, put_file}
use piggy_os.Fs.Fd.Inv.{Unused, IsValid, put_entry-IsValid, put_file-IsValid}

abbrev pub console : File
console = record { node = 1; flags = 2; refcount = 1; offset = 10 }

abbrev pub no_files : Store
no_files = record { file = λ fd. none; table = λ p. replicate max_fds none; node_refs = λ node. 0 }

-- No entry of an empty table names anything.
pub empty_entry : (n i fd : ℕ) → get_or (replicate n none) i none ≢ some fd
empty_entry zero i fd h = cc
empty_entry (suc n) zero fd h = cc
empty_entry (suc n) (suc i) fd h = empty_entry n i fd h

pub no_files-IsValid : IsValid no_files
no_files-IsValid = record {
  sized = λ p. refl;
  live = λ p i fd h. absurd (empty_entry max_fds i fd h);
  apart = λ p i q j fd h h'. absurd (empty_entry max_fds i fd h);
}

-- The object of the console at 100, and the same under the number 0 of the process 0.
abbrev pub made : Store
made = put_file 100 (some console) no_files

abbrev pub one_file : Store
one_file = put_entry 0 0 (some 100) made

pub made-IsValid : IsValid made
made-IsValid = put_file-IsValid no_files no_files-IsValid 100 console

pub made_alive : made.file 100 ≡ some console
unfolding update
made_alive = refl

pub made-Unused : Unused made 100
made-Unused p i h = empty_entry max_fds i 100 h

pub one_file-IsValid : IsValid one_file
one_file-IsValid =
    put_entry-IsValid made made-IsValid 0 0 (omega arith) 100 console made_alive made-Unused

pub one_file-entry : entry one_file 0 0 ≡ some 100
unfolding update
one_file-entry = refl

pub one_file_fresh : one_file.file 200 ≡ none
unfolding update
one_file_fresh = refl
