-- ===== src/Fs/Fd/Inv.antt =====
-- The invariant of the descriptor tables, and that the operations keep it.
use native.Mathlib.Decide.{ℕ_discrete}
use piggy_os.Common.{
  ℕ, ◌<◌, ◌≡◌, ◌≢◌, ◌⊎◌, inl, inr, sym, ◌∙◌, Option, none, some, update_self, update_ne,
}
use piggy_os.Fs.Fd.{max_fds, Store, File, put_file, put_entry, entry}
use piggy_os.Fs.Fd.Table.{Sized, entry-put_self, entry-put_other, put_entry-Sized}

-- The object `fd` is no entry of any table.
abbrev pub Unused : Store → ℕ → Type 0
Unused s fd = (p i : ℕ) → entry s p i ≢ some fd

-- Every entry names a live object, and no two entries name the same one.
pub record IsValid (s : Store) : Type 0 where
  pub sized : Sized s
  pub live : (p i fd : ℕ) → entry s p i ≡ some fd → (f : File) × (s.file fd ≡ some f)
  pub apart : (p i q j fd : ℕ) → entry s p i ≡ some fd → entry s q j ≡ some fd → (p ≡ q) × (i ≡ j)

-- Objects may change while they stay live.
module _ (s : Store) (v : IsValid s) where
  pub put_file-IsValid : (fd : ℕ) (f : File) → IsValid (put_file fd (some f) s)
  put_file-IsValid fd f = record {
    sized = v.sized;
    live = λ p i k e. elim (ℕ_discrete k fd) [
      | yes y ↦ (f, rw (y, update_self s.file fd (some f)))
      | no n ↦ rw (update_ne s.file fd k (some f) n) (v.live p i k e)
    ];
    apart = v.apart;
  }

  pub free_file-IsValid : (fd : ℕ) → Unused s fd → IsValid (put_file fd none s)
  free_file-IsValid fd unused = record {
    sized = v.sized;
    live = λ p i k e. elim (ℕ_discrete k fd) [
      | yes y ↦ absurd (unused p i (rw y at e))
      | no n ↦ rw (update_ne s.file fd k none n) (v.live p i k e)
    ];
    apart = v.apart;
  }

  module _ (p i : ℕ) (inside : i < max_fds) where
    -- Reading an entry after a write splits on whether it is the one written.
    entry_cases :
        (e : Option ℕ) (q j : ℕ)
        → (q ≡ p) × (j ≡ i) × (entry (put_entry p i e s) q j ≡ e)
          ⊎ ((q ≢ p) ⊎ (j ≢ i)) × (entry (put_entry p i e s) q j ≡ entry s q j)
    entry_cases e q j = elim (ℕ_discrete q p) [
      | no n ↦ inr (inl n, entry-put_other s p i e q j (inl n))
      | yes y ↦ elim (ℕ_discrete j i) [
        | no m ↦ inr (inr m, entry-put_other s p i e q j (inr m))
        | yes z ↦ inl (y, z, rw (y, z) (entry-put_self s p i e v.sized inside))
      ]
    ]

    pub clear_entry-IsValid : IsValid (put_entry p i none s)
    clear_entry-IsValid = record {
      sized = put_entry-Sized s p i none v.sized;
      live = λ q j k e. elim (entry_cases none q j) [
        | inl (_, _, c) ↦ cc (e, c)
        | inr (_, c) ↦ v.live q j k (sym c ∙ e)
      ];
      apart = λ q j q' j' k e e'. elim (entry_cases none q j) [
        | inl (_, _, c) ↦ cc (e, c)
        | inr (_, c) ↦ elim (entry_cases none q' j') [
          | inl (_, _, c') ↦ cc (e', c')
          | inr (_, c') ↦ v.apart q j q' j' k (sym c ∙ e) (sym c' ∙ e')
        ]
      ];
    }

    pub cleared-Unused : (fd : ℕ) → entry s p i ≡ some fd → Unused (put_entry p i none s) fd
    cleared-Unused fd e q j h = elim (entry_cases none q j) [
      | inl (_, _, c) ↦ cc (h, c)
      | inr (d, c) ↦
          let same = v.apart q j p i fd (sym c ∙ h) e in
          elim d [ inl n ↦ n same.0 | inr n ↦ n same.1 ]
    ]

    pub put_entry-IsValid :
        (fd : ℕ) (f : File) → s.file fd ≡ some f → Unused s fd → IsValid (put_entry p i (some fd) s)
    put_entry-IsValid fd f alive unused = record {
      sized = put_entry-Sized s p i (some fd) v.sized;
      live = λ q j k e. elim (entry_cases (some fd) q j) [
        | inl (_, _, c) ↦ let y : fd ≡ k = cc in (f, rw (← y) alive)
        | inr (_, c) ↦ v.live q j k (sym c ∙ e)
      ];
      apart = λ q j q' j' k e e'. elim (entry_cases (some fd) q j) [
        | inl (a, b, c) ↦ elim (entry_cases (some fd) q' j') [
          | inl (a', b', c') ↦ (a ∙ sym a', b ∙ sym b')
          | inr (_, c') ↦ let y : fd ≡ k = cc in absurd (unused q' j' (rw y (sym c' ∙ e')))
        ]
        | inr (_, c) ↦ elim (entry_cases (some fd) q' j') [
          | inl (a', b', c') ↦ let y : fd ≡ k = cc in absurd (unused q j (rw y (sym c ∙ e)))
          | inr (_, c') ↦ v.apart q j q' j' k (sym c ∙ e) (sym c' ∙ e')
        ]
      ];
    }
