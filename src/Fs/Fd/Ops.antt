-- ===== src/Fs/Fd/Ops.antt =====
-- What `fd_close`, `fd_from_fdnum` and `fd_alloc_fdnum` do to the tables.
use native.Mathlib.Decide.{dec_lt}
use piggy_os.Common.{
  ℕ, ◌<◌, ◌≤◌, ◌≡◌, ◌≢◌, ◌⊎◌, inl, inr, refl, Bool, true, false, Option, none, some, le→leb, lt→leb,
  ◌==◌, if◌then◌else◌, Option-cases, add64, sub64, arith, update_self, update_ne,
}
use piggy_os.Common.Int.{pos}
use piggy_os.Fs.Fd.{
  max_fds, Store, File, put_file, put_entry, entry, first_free, fd_alloc_fdnum, Ret, fdnum, err,
  ebadf, close_entry, fd_close, fd_from_fdnum,
}
use piggy_os.Fs.Fd.Table.{entry-put_self, entry-put_other, FirstFree, full, free, first_free_lem}
use piggy_os.Fs.Fd.Inv.{
  Unused, IsValid, put_file-IsValid, free_file-IsValid, clear_entry-IsValid, cleared-Unused,
  put_entry-IsValid,
}

-- The object `fd` loses one reference, and is freed with its last.
abbrev pub released : File → Option File
released f = if f.refcount == 1 then none else some (record f { refcount = sub64 f.refcount 1 })

-- What closing the entry `i` of `p` does, if it names the object `f` at `fd`.
pub record Closes (s : Store) (p i fd : ℕ) (f : File) (r : Ret × Store) : Type 0 where
  pub done : r.0 ≡ fdnum 0
  pub gone : entry r.1 p i ≡ none
  pub object : r.1.file fd ≡ released f
  pub other_entries : (q j : ℕ) → (q ≢ p) ⊎ (j ≢ i) → entry r.1 q j ≡ entry s q j
  pub other_files : (k : ℕ) → k ≢ fd → r.1.file k ≡ s.file k
  pub valid : IsValid r.1

module _ (s : Store) (p i : ℕ) (v : IsValid s) (inside : i < max_fds) where
  close_entry-Closes :
      (fd : ℕ) (f : File)
      → entry s p i ≡ some fd
      → s.file fd ≡ some f
      → (b : Bool) → (f.refcount == 1) ≡ b
      → Closes s p i fd f (close_entry p i (some fd) s)
  unfolding close_entry
  close_entry-Closes fd f e a true last =
      rw (a, last)
        (record {
          done = refl;
          gone = entry-put_self s p i none v.sized inside;
          object = rw last (update_self s.file fd none);
          other_entries = entry-put_other s p i none;
          other_files = λ k n. update_ne s.file fd k none n;
          valid =
              free_file-IsValid (put_entry p i none s) (clear_entry-IsValid s v p i inside) fd
                (cleared-Unused s v p i inside fd e);
        })
  close_entry-Closes fd f e a false more =
      rw (a, more)
        (record {
          done = refl;
          gone = entry-put_self s p i none v.sized inside;
          object = rw more (update_self s.file fd _);
          other_entries = entry-put_other s p i none;
          other_files = λ k n. update_ne s.file fd k _ n;
          valid = put_file-IsValid (put_entry p i none s) (clear_entry-IsValid s v p i inside) fd _;
        })

-- Closing a number that names no open file is refused and changes nothing. Closing one that does
-- empties its entry, takes one reference off its object, and leaves all else and the invariant.
pub fd_close_lem :
    (s : Store) (p i : ℕ)
    → IsValid s
    → (fd_close p (pos i) s ≡ (err ebadf, s)) × ((max_fds ≤ i) ⊎ (entry s p i ≡ none))
      ⊎ ((fd : ℕ) × (f : File) × (entry s p i ≡ some fd)
          × (s.file fd ≡ some f)
          × Closes s p i fd f (fd_close p (pos i) s))
unfolding fd_close
fd_close_lem s p i v = elim (dec_lt i max_fds) [
  | no out ↦ inl (rw (le→leb max_fds i (omega arith)), inl (omega arith))
  | yes inside ↦ elim (Option-cases (entry s p i)) [
    | inl e ↦ inl (rw (lt→leb i max_fds inside, e), inr e)
    | inr (fd, e) ↦
        let (f, a) = v.live p i fd e in
        inr (
          fd,
          f,
          e,
          a,
          rw (lt→leb i max_fds inside, e)
              (close_entry-Closes s p i v inside fd f e a (f.refcount == 1) refl),
        )
  ]
]

-- What storing the object `fd` in the first empty entry of `p` does, if there is one.
pub data Stores (s : Store) (p fd : ℕ) : Option ℕ × Store → Type 0 where
  refused : ((j : ℕ) → j < max_fds → entry s p j ≢ none) → Stores s p fd (none, s)
  stored :
      (i : ℕ) (t : Store)
      → i < max_fds
      → entry s p i ≡ none
      → ((j : ℕ) → j < i → entry s p j ≢ none)
      → entry t p i ≡ some fd
      → ((q j : ℕ) → (q ≢ p) ⊎ (j ≢ i) → entry t q j ≡ entry s q j)
      → t.file ≡ s.file
      → IsValid t
      → Stores s p fd (some i, t)

-- `fd_alloc_fdnum` stores a live object that no entry names in the lowest empty entry of the
-- table, and refuses only when no entry is empty; every other entry, the objects and the
-- invariant stay.
pub fd_alloc_fdnum_lem :
    (s : Store) (p fd : ℕ) (f : File)
    → IsValid s
    → s.file fd ≡ some f
    → Unused s fd
    → Stores s p fd (fd_alloc_fdnum p fd s)
unfolding fd_alloc_fdnum
fd_alloc_fdnum_lem s p fd f v alive unused =
    go (first_free (s.table p) 0 max_fds) (first_free_lem (s.table p) 0 max_fds)
  where
    go :
        (o : Option ℕ)
        → FirstFree (s.table p) 0 max_fds o
        → Stores s p fd (elim o [ none ↦ (none, s) | some i ↦ (some i, put_entry p i (some fd) s) ])
    go none (full h) = refused (λ j lt. h j (omega arith) (omega arith))
    go (some k) (free i lo hi e h) =
        stored i (put_entry p i (some fd) s) (omega arith) e (λ j lt. h j (omega arith) lt)
          (entry-put_self s p i (some fd) v.sized (omega arith)) (entry-put_other s p i (some fd))
          refl (put_entry-IsValid s v p i (omega arith) fd f alive unused)

-- Looking a number up gives the object of its entry and counts a reference to it, and changes
-- nothing where there is none.
pub fd_from_fdnum_lem :
    (s : Store) (p i fd : ℕ) (f : File)
    → i < max_fds
    → entry s p i ≡ some fd
    → s.file fd ≡ some f
    → fd_from_fdnum p (pos i) s
      ≡ (some fd, put_file fd (some (record f { refcount = add64 f.refcount 1 })) s)
unfolding fd_from_fdnum
fd_from_fdnum_lem s p i fd f inside e a = rw (lt→leb i max_fds inside, e, a)
