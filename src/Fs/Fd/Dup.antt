-- ===== src/Fs/Fd/Dup.antt =====
-- `fd_dup`: a copy of a descriptor under an exact number or under the next empty one.
use mathlib.Core.Option.{some-injective}
use native.Mathlib.Decide.{ℕ_discrete}
use piggy_os.Common.{
  ℕ, ◌+◌, ◌-◌, ◌^◌, ◌<◌, ◌≤◌, ◌≡◌, ◌≢◌, ◌⊎◌, inl, inr, refl, sym, ap, ◌∙◌, Bool, true, false, ◌&&◌,
  Option, none, some, ◌==◌, if◌then◌else◌, add64, sub64, arith, bit_or, update_self, update_ne,
}
use piggy_os.Common.Int.{pos}
use piggy_os.Fs.Fd.{
  max_fds, o_cloexec, Store, File, put_file, put_entry, entry, first_free, Ret, fdnum, err, emfile,
  fd_close, retain, fd_dup, copy_file, place, replace, finish_dup,
}
use piggy_os.Fs.Fd.Table.{entry-put_self, entry-put_other, FirstFree, free, first_free_lem}
use piggy_os.Fs.Fd.Inv.{Unused, IsValid, put_file-IsValid, put_entry-IsValid}
use piggy_os.Fs.Fd.Ops.{released, fd_close_lem, fd_from_fdnum_lem}

-- The object with `n` more references, and the copy that `fd_dup` makes of it.
abbrev pub counted : File → ℕ → File
counted f n = record f { refcount = add64 f.refcount n }

abbrev pub copy : Bool → File → File
copy cloexec f =
    if cloexec then record (counted f 1) { flags = bit_or f.flags o_cloexec } else counted f 1

-- The descriptor `i` of the process `p` names the object `f` at `fd`, and `n` is the address of
-- fresh memory.
module _ (s : Store) (p i fd n : ℕ) (f : File) (v : IsValid s) (inside : i < max_fds)
    (named : entry s p i ≡ some fd) (alive : s.file fd ≡ some f) (fresh : s.file n ≡ none) where
  apart : n ≢ fd
  apart h = cc (alive, fresh, h)

  unused : Unused s n
  unused q j h = let (g, a) = v.live q j n h in cc (a, fresh)

  -- The store once the object is looked up and copied.
  copied : Bool → Store
  copied cloexec = put_file n (some (copy cloexec f)) (put_file fd (some (counted f 1)) s)

  copied-IsValid : (cloexec : Bool) → IsValid (copied cloexec)
  unfolding copied
  copied-IsValid cloexec =
      put_file-IsValid _ (put_file-IsValid s v fd (counted f 1)) n (copy cloexec f)

  copied_new : (cloexec : Bool) → (copied cloexec).file n ≡ some (copy cloexec f)
  unfolding copied
  copied_new cloexec = update_self _ n _

  copied_old : (cloexec : Bool) → (copied cloexec).file fd ≡ some (counted f 1)
  unfolding copied
  copied_old cloexec =
      update_ne _ n fd _ (λ h. apart (sym h)) ∙ update_self s.file fd (some (counted f 1))

  copied-Unused : (cloexec : Bool) → Unused (copied cloexec) n
  unfolding copied
  copied-Unused cloexec = unused

  copied_made :
      (cloexec : Bool)
      → copy_file cloexec n (some (counted f 1)) (put_file fd (some (counted f 1)) s)
        ≡ copied cloexec
  unfolding copy_file copied
  copied_made cloexec = refl

  -- `fd_dup` up to where it stores the copy.
  dup_step :
      (q j : ℕ) (exact cloexec : Bool)
      → (i ≢ j) ⊎ (p ≢ q)
      → fd_dup p i q j exact cloexec (some n) s
        ≡ finish_dup fd
            (if exact then replace q j n (copied cloexec) else place q j n (copied cloexec))
  unfolding fd_dup copied
  dup_step q j exact cloexec d =
      let other : (i == j && p == q) ≡ false = ground arith in
      let found = fd_from_fdnum_lem s p i fd f inside named alive in
      let again = update_self s.file fd (some (counted f 1)) in
      rw (found, other, fd_dup) (rw (found, again) (rw copied_made))

  -- The store `t` holds the copy under the number `j` of `q`, and the original with `more` references.
  pub record Duplicated (q j more : ℕ) (cloexec : Bool) (t : Store) : Type 0 where
    pub new_entry : entry t q j ≡ some n
    pub old_entry : entry t p i ≡ some fd
    pub new_file : t.file n ≡ some (copy cloexec f)
    pub old_file : t.file fd ≡ some (record f { refcount = more })
    pub other_entries : (a b : ℕ) → (a ≢ q) ⊎ (b ≢ j) → entry t a b ≡ entry s a b
    pub valid : IsValid t

  module _ (q j : ℕ) (within : j < max_fds) (distinct : (p ≢ q) ⊎ (i ≢ j)) (cloexec : Bool) where
    -- Storing the copy in a store `u` that agrees with the one after the copy.
    put_copy :
        (u : Store)
        → IsValid u
        → u.file n ≡ some (copy cloexec f)
        → u.file fd ≡ some (counted f 1)
        → Unused u n
        → ((a b : ℕ) → (a ≢ q) ⊎ (b ≢ j) → entry u a b ≡ entry s a b)
        → Duplicated q j (add64 f.refcount 1) cloexec (put_entry q j (some n) u)
    put_copy u uv new old clear same = record {
      new_entry = entry-put_self u q j (some n) uv.sized within;
      old_entry = entry-put_other u q j (some n) p i distinct ∙ same p i distinct ∙ named;
      new_file = new;
      old_file = old;
      other_entries = λ a b d. entry-put_other u q j (some n) a b d ∙ same a b d;
      valid = put_entry-IsValid u uv q j within n (copy cloexec f) new clear;
    }

    -- An object that the entry named before is neither the original nor the copy.
    elsewhere : (old : ℕ) → entry (copied cloexec) q j ≡ some old → fd ≢ old
    unfolding copied
    elsewhere old e h =
        let same = v.apart p i q j fd named (rw h e) in
        elim distinct [ inl d ↦ d same.0 | inr d ↦ d same.1 ]

    still-Unused :
        (t : Store)
        → entry t q j ≡ none
        → ((a b : ℕ) → (a ≢ q) ⊎ (b ≢ j) → entry t a b ≡ entry s a b)
        → Unused t n
    still-Unused t gone same a b h = elim (ℕ_discrete a q) [
      | no d ↦ unused a b (sym (same a b (inl d)) ∙ h)
      | yes y ↦ elim (ℕ_discrete b j) [
        | no d ↦ unused a b (sym (same a b (inr d)) ∙ h)
        | yes z ↦ let here : entry t q j ≡ some n = rw (← y, ← z) h in cc (here, gone)
      ]
    ]

    -- The object `g` that the entry named before has lost a reference, and is freed with its last.
    abbrev pub Closed : Store → Type 0
    Closed t =
        (old : ℕ) (g : File)
        → entry s q j ≡ some old
        → s.file old ≡ some g
        → t.file old ≡ released g

    -- The objects that the call does not concern
    abbrev pub Untouched : Store → Type 0
    Untouched t = (k : ℕ) → k ≢ n → k ≢ fd → entry s q j ≢ some k → t.file k ≡ s.file k

    copied_other : (k : ℕ) → k ≢ n → k ≢ fd → (copied cloexec).file k ≡ s.file k
    unfolding copied
    copied_other k a b = update_ne _ n k _ a ∙ update_ne s.file fd k _ b

    old_apart :
        (old : ℕ) (g : File) → entry s q j ≡ some old → s.file old ≡ some g → (old ≢ n) × (old ≢ fd)
    old_apart old g e a = (
      λ h. cc (a, fresh, h),
      λ h.
          let same = v.apart p i q j fd named (rw (sym h) e) in
          elim distinct [ inl d ↦ d same.0 | inr d ↦ d same.1 ],
    )

    -- The entry was empty, or it named another object, which is closed.
    replace_lem :
        (t : Store) × (replace q j n (copied cloexec) ≡ (fdnum j, t))
        × Duplicated q j (add64 f.refcount 1) cloexec t
        × Closed t
        × Untouched t
    unfolding replace copied
    replace_lem =
        let u = copied cloexec in
        elim (fd_close_lem u q j (copied-IsValid cloexec)) [
          | inl (same, why) ↦ elim why [
            | inl out ↦ absurd (omega arith)
            | inr e ↦ (
              put_entry q j (some n) u,
              rw (e, replace),
              put_copy u (copied-IsValid cloexec) (copied_new cloexec) (copied_old cloexec)
                  (copied-Unused cloexec) (λ a b d. refl),
              λ old g named_old a. cc (e, named_old),
              λ k a b d. copied_other k a b,
            )
          ]
          | inr (old, g, e, a, c) ↦
              let t = (fd_close q (pos j) u).1 in
              (
                put_entry q j (some n) t,
                rw (e, replace),
                put_copy t c.valid
                    (c.other_files n (λ h. copied-Unused cloexec q j (rw h e)) ∙ copied_new cloexec)
                    (c.other_files fd (elsewhere old e) ∙ copied_old cloexec)
                    (still-Unused t c.gone c.other_entries) c.other_entries,
                λ old' g' named_old a'.
                    let same : old' ≡ old = some-injective old' old (sym named_old ∙ e) in
                    let (far_n, far_fd) = old_apart old' g' named_old a' in
                    let was : some g ≡ some g' =
                      sym a ∙ ap u.file (sym same) ∙ copied_other old' far_n far_fd ∙ a' in
                    ap t.file same ∙ c.object ∙ ap released (some-injective g g' was),
                λ k far_n far_fd d.
                    c.other_files k (λ h. d (e ∙ ap some (sym h))) ∙ copied_other k far_n far_fd,
              )
        ]

    -- The last reference that `fd_dup` counts on the original.
    finish_lem :
        (t : Store)
        → Duplicated q j (add64 f.refcount 1) cloexec t
        → (u : Store) × (finish_dup fd (fdnum j, t) ≡ (fdnum j, u))
          × Duplicated q j (add64 f.refcount 2) cloexec u
          × ((k : ℕ) → k ≢ fd → u.file k ≡ t.file k)
    unfolding finish_dup retain
    finish_lem t d =
        let g : File = record f { refcount = add64 (add64 f.refcount 1) 1 } in
        let two : g ≡ counted f 2 = ap (λ k. record f { refcount = k }) (omega arith) in
        (
          put_file fd (some g) t,
          rw d.old_file,
          record {
            new_entry = d.new_entry;
            old_entry = d.old_entry;
            new_file = update_ne t.file fd n (some g) apart ∙ d.new_file;
            old_file = update_self t.file fd (some g) ∙ ap some two;
            other_entries = d.other_entries;
            valid = put_file-IsValid t d.valid fd g;
          },
          λ k other. update_ne t.file fd k (some g) other,
        )

-- Duplicating an open number onto another number inside a table returns that number, which from
-- then on names a copy of the object with an offset of its own. An object that the number named before has
-- one reference less, and is freed with its last one; the original has two more references; every other
-- object, every other entry and the invariant stay.
pub fd_dup-exact :
    (s : Store) (p i q j fd n : ℕ) (f : File) (cloexec : Bool)
    → IsValid s
    → i < max_fds
    → j < max_fds
    → (p ≢ q) ⊎ (i ≢ j)
    → entry s p i ≡ some fd
    → s.file fd ≡ some f
    → s.file n ≡ none
    → (t : Store) × (fd_dup p i q j true cloexec (some n) s ≡ (fdnum j, t))
      × (entry t q j ≡ some n)
      × (entry t p i ≡ some fd)
      × (t.file n ≡ some (copy cloexec f))
      × (t.file fd ≡ some (counted f 2))
      × ((a b : ℕ) → (a ≢ q) ⊎ (b ≢ j) → entry t a b ≡ entry s a b)
      × IsValid t
      × ((old : ℕ) (g : File)
          → entry s q j ≡ some old
          → s.file old ≡ some g
          → t.file old ≡ released g)
      × ((k : ℕ) → k ≢ n → k ≢ fd → entry s q j ≢ some k → t.file k ≡ s.file k)
fd_dup-exact s p i q j fd n f cloexec v inside within distinct named alive fresh =
    let swapped : (i ≢ j) ⊎ (p ≢ q) = elim distinct [ inl d ↦ inr d | inr d ↦ inl d ] in
    let (u, e, d, closed, same) =
      replace_lem s p i fd n f v inside named alive fresh q j within distinct cloexec in
    let (t, e', d', kept) =
      finish_lem s p i fd n f v inside named alive fresh q j within distinct cloexec u d in
    (
      t,
      dup_step s p i fd n f v inside named alive fresh q j true cloexec swapped
          ∙ ap (finish_dup fd) e
          ∙ e',
      d'.new_entry,
      d'.old_entry,
      d'.new_file,
      d'.old_file,
      d'.other_entries,
      d'.valid,
      λ old g h a.
          let far =
            old_apart s p i fd n f v inside named alive fresh q j within distinct cloexec old g h
              a in
          kept old far.1 ∙ closed old g h a,
      λ k a b d. kept k b ∙ same k a b d,
    )

closed-Unused :
    (t : Store) (q j fd : ℕ)
    → IsValid t
    → j < max_fds
    → entry t q j ≡ some fd
    → (u : Store) → entry u q j ≡ none
    → ((a b : ℕ) → (a ≢ q) ⊎ (b ≢ j) → entry u a b ≡ entry t a b)
    → Unused u fd
closed-Unused t q j fd v within named u gone same a b h = elim (ℕ_discrete a q) [
  | no d ↦ d (v.apart a b q j fd (sym (same a b (inl d)) ∙ h) named).0
  | yes y ↦ elim (ℕ_discrete b j) [
    | no d ↦ d (v.apart a b q j fd (sym (same a b (inr d)) ∙ h) named).1
    | yes z ↦ let here : entry u q j ≡ some fd = rw (← y, ← z) h in cc (here, gone)
  ]
]

close-live :
    (t : Store) (q j fd : ℕ) (f : File)
    → IsValid t
    → j < max_fds
    → entry t q j ≡ some fd
    → t.file fd ≡ some f
    → f.refcount ≢ 1
    → let u = (fd_close q (pos j) t).1 in
      (u.file fd ≡ some (record f { refcount = sub64 f.refcount 1 })) × Unused u fd
close-live t q j fd f v within named alive more = elim (fd_close_lem t q j v) [
  | inl (_, why) ↦ elim why [ inl out ↦ absurd (omega arith) | inr e ↦ cc (e, named) ]
  | inr (fd', f', e, a, c) ↦
      let same : fd' ≡ fd = cc (e, named) in
      let u = (fd_close q (pos j) t).1 in
      let alive' : t.file fd ≡ some f' = rw (← same) a in
      let same_file : f' ≡ f = cc (alive', alive) in
      let kept : released f' ≡ some (record f { refcount = sub64 f.refcount 1 }) =
        rw same_file (ground arith) in
      let object : u.file fd ≡ released f' = rw (← same) c.object in
      (object ∙ kept, closed-Unused t q j fd v within named u c.gone c.other_entries)
]

-- The copy that `fd_dup` makes inherits the references of the original and the one that the lookup
-- counted, so closing it right away leaves it allocated for ever: no entry names it any more, and
-- its count is not 0.
pub fd_dup-leaks :
    (s : Store) (p i q j fd n : ℕ) (f : File) (cloexec : Bool)
    → IsValid s
    → i < max_fds
    → j < max_fds
    → (p ≢ q) ⊎ (i ≢ j)
    → entry s p i ≡ some fd
    → s.file fd ≡ some f
    → s.file n ≡ none
    → 1 ≤ f.refcount
    → f.refcount + 1 < 2 ^ 64
    → let u = (fd_close q (pos j) (fd_dup p i q j true cloexec (some n) s).1).1 in
      (g : File) × (u.file n ≡ some g) × (g.refcount ≡ f.refcount) × Unused u n
fd_dup-leaks s p i q j fd n f cloexec v inside within distinct named alive fresh lo hi =
    let (t, e, new, _, file, _, _, tv, _, _) =
      fd_dup-exact s p i q j fd n f cloexec v inside within distinct named alive fresh in
    let count : (copy cloexec f).refcount ≡ f.refcount + 1 = ground arith in
    let (object, gone) = close-live t q j n (copy cloexec f) tv within new file (omega arith) in
    rw e (_, object, omega arith, gone)

-- What the search for the next empty number from `j` on returns and stores, in an inexact `fd_dup`.
abbrev pub Placed : Store → ℕ → ℕ → ℕ → Ret × Store → Type 0
Placed s q j n r =
    ((k : ℕ) × FirstFree (s.table q) j (max_fds - j) (some k)
      × (entry r.1 q k ≡ some n)
      × (r.0 ≡ (if k == 31 then err emfile else fdnum k)))
    ⊎ FirstFree (s.table q) j (max_fds - j) none
      × (r.0 ≡ fdnum j)
      × ((a b : ℕ) → entry r.1 a b ≡ entry s a b)

retain_table : (fd : ℕ) (o : Option File) (t : Store) → (retain fd o t).table ≡ t.table
unfolding retain
retain_table fd none t = refl
retain_table fd (some f) t = refl

finish-Placed :
    (s : Store) (q j n fd : ℕ) (r : Ret × Store)
    → Placed s q j n r
    → Placed s q j n (finish_dup fd r)
unfolding finish_dup
finish-Placed s q j n fd (err e, t) h = h
finish-Placed s q j n fd (fdnum k, t) h = rw (retain_table fd (t.file fd) t) h

place-Placed : (s : Store) (q j n : ℕ) → IsValid s → j < max_fds → Placed s q j n (place q j n s)
unfolding place
place-Placed s q j n v within =
    go (first_free (s.table q) j (max_fds - j)) (first_free_lem (s.table q) j (max_fds - j))
  where
    go :
        (o : Option ℕ)
        → FirstFree (s.table q) j (max_fds - j) o
        → Placed s q j n (elim o [
          | none ↦ (fdnum j, s)
          | some i ↦ (if i == max_fds - 1 then err emfile else fdnum i, put_entry q i (some n) s)
        ])
    go none h = inr (h, refl, λ a b. refl)
    go (some k) (free k' lo hi e h) =
        inl (k, free k lo hi e h, entry-put_self s q k (some n) v.sized (omega arith), refl)

-- Duplicating onto the next empty number from `j` on, in a store where the original is open: where
-- an entry below 31 is the first empty one, it names the copy and its number is returned. But where
-- the entry 31 is, it is filled and EMFILE is returned, and where no entry is empty, `j` is returned
-- and no table changes.
pub fd_dup-inexact :
    (s : Store) (p i q j fd n : ℕ) (f : File) (cloexec : Bool)
    → IsValid s
    → i < max_fds
    → j < max_fds
    → (p ≢ q) ⊎ (i ≢ j)
    → entry s p i ≡ some fd
    → s.file fd ≡ some f
    → s.file n ≡ none
    → Placed s q j n (fd_dup p i q j false cloexec (some n) s)
unfolding copied
fd_dup-inexact s p i q j fd n f cloexec v inside within distinct named alive fresh =
    let swapped : (i ≢ j) ⊎ (p ≢ q) = elim distinct [ inl d ↦ inr d | inr d ↦ inl d ] in
    let u = copied s p i fd n f v inside named alive fresh cloexec in
    rw (dup_step s p i fd n f v inside named alive fresh q j false cloexec swapped) (
      finish-Placed s q j n fd (place q j n u) (
        place-Placed u q j n (copied-IsValid s p i fd n f v inside named alive fresh cloexec)
          within))
