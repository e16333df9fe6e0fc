-- ===== src/Fs/Fd/Table.antt =====
-- Reading the tables and the objects after a write, and the search for an empty entry.
use native.Mathlib.Decide.{ℕ_discrete}
use piggy_os.Common.{
  ℕ, zero, suc, ◌+◌, ◌<◌, ◌≤◌, ◌≡◌, ◌≢◌, ◌⊎◌, inl, inr, refl, sym, Option, none, some, List, length,
  get_or, set, get_or-set_self, get_or-set_ne, length-set, arith, update_self, update_ne,
}
use piggy_os.Fs.Fd.{max_fds, Store, put_entry, entry, first_free}

-- Every table has MAX_FDS entries.
abbrev pub Sized : Store → Type 0
Sized s = (p : ℕ) → length (s.table p) ≡ max_fds

module _ (s : Store) (p i : ℕ) (e : Option ℕ) where
  pub entry-put_self : Sized s → i < max_fds → entry (put_entry p i e s) p i ≡ e
  entry-put_self sized h =
      rw update_self (get_or-set_self (s.table p) i e none (omega (arith, sized p)))

  pub entry-put_other : (q j : ℕ) → (q ≢ p) ⊎ (j ≢ i) → entry (put_entry p i e s) q j ≡ entry s q j
  entry-put_other q j d = elim (ℕ_discrete q p) [
    | no n ↦ rw (update_ne s.table p q (set (s.table p) i e) n)
    | yes y ↦ elim d [
      | inl n ↦ absurd (n y)
      | inr n ↦
          rw (y, update_self s.table p (set (s.table p) i e))
            (get_or-set_ne (s.table p) i j e none (λ h. n (sym h)))
    ]
  ]

  pub put_entry-Sized : Sized s → Sized (put_entry p i e s)
  put_entry-Sized sized q = elim (ℕ_discrete q p) [
    | no n ↦ rw (update_ne s.table p q (set (s.table p) i e) n) (sized q)
    | yes y ↦
        rw (y, update_self s.table p (set (s.table p) i e), length-set (s.table p) i e) (sized p)
  ]

-- What the search among the `n` entries from `i` on finds.
pub data FirstFree (table : List (Option ℕ)) (i n : ℕ) : Option ℕ → Type 0 where
  full : ((j : ℕ) → i ≤ j → j < i + n → get_or table j none ≢ none) → FirstFree table i n none
  free :
      (k : ℕ)
      → i ≤ k
      → k < i + n
      → get_or table k none ≡ none
      → ((j : ℕ) → i ≤ j → j < k → get_or table j none ≢ none)
      → FirstFree table i n (some k)

pub first_free_lem :
    (table : List (Option ℕ)) (i n : ℕ) → FirstFree table i n (first_free table i n)
unfolding first_free
first_free_lem table i zero = full (λ j lo hi. absurd (omega arith))
first_free_lem table i (suc n) = step (get_or table i none) refl (first_free_lem table (i + 1) n)
  where
    taken :
        (fd : ℕ)
        → get_or table i none ≡ some fd
        → (r : Option ℕ) → FirstFree table (i + 1) n r
        → FirstFree table i (suc n) r
    taken fd e none (full h) = full (λ j lo hi. elim (ℕ_discrete i j) [
      | yes y ↦ λ z. cc (e, z, y)
      | no ne ↦ h j (omega arith) (omega arith)
    ])
    taken fd e (some k) (free k' lo hi z h) =
        free k (omega arith) (omega arith) z (λ j l u. elim (ℕ_discrete i j) [
          | yes y ↦ λ w. cc (e, w, y)
          | no ne ↦ h j (omega arith) u
        ])

    step :
        (o : Option ℕ)
        → get_or table i none ≡ o
        → FirstFree table (i + 1) n (first_free table (i + 1) n)
        → FirstFree table i
            (suc n)
            (elim o [ none ↦ some i | some fd ↦ first_free table (i + 1) n ])
    step none e rest = free i (omega arith) (omega arith) e (λ j lo hi. absurd (omega arith))
    step (some fd) e rest = taken fd e (first_free table (i + 1) n) rest
