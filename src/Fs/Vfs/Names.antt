-- ===== src/Fs/Vfs/Names.antt =====
-- The elements of a path.
use piggy_os.Common.{
  ℕ, ◌+◌, ◌≤◌, ◌≡◌, ◌⊎◌, inl, inr, refl, sym, ap, ◌∙◌, true, false, List, [], ◌∷◌, length, ◌==◌,
  if◌then◌else◌, Bool-cases, arith,
}
use piggy_os.Fs.Vfs.{before_slash, from_slash, skip_slashes}

-- A path, cut at its slashes
abbrev pub in_first : ℕ → List (List ℕ) → List (List ℕ)
in_first c [] = []
in_first c (w ∷ ws) = (c ∷ w) ∷ ws

unfoldable pub split : List ℕ → List (List ℕ)
split [] = [] ∷ []
split (c ∷ s) = let rest = split s in if c == b'/' then [] ∷ rest else in_first c rest

unfoldable pub some_of : List (List ℕ) → List (List ℕ)
some_of [] = []
some_of ([] ∷ ws) = some_of ws
some_of ((c ∷ w) ∷ ws) = (c ∷ w) ∷ some_of ws

-- The names in a path: the pieces between its slashes that are not empty
unfoldable pub components : List ℕ → List (List ℕ)
unfolding some_of split
components s = some_of (split s)

pub components_none : components [] ≡ []
unfolding components some_of split
components_none = refl

-- The pieces behind a slash that a path begins with
behind : List ℕ → List (List ℕ)
behind [] = []
behind (c ∷ s) = split s

split-before_slash : (p : List ℕ) → split p ≡ before_slash p ∷ behind (from_slash p)
unfolding split before_slash from_slash behind
split-before_slash [] = refl
split-before_slash (c ∷ s) = elim (Bool-cases (c == b'/')) [
  | inl e ↦ rw e refl
  | inr e ↦ rw (e, split-before_slash s) refl
]

-- A path that begins with a name
abbrev pub Plain : List ℕ → Type 0
Plain [] = ⊥
Plain (c ∷ s) = (c == b'/') ≡ false

components-slash : (c : ℕ) (s : List ℕ) → (c == b'/') ≡ true → components (c ∷ s) ≡ components s
unfolding components some_of split
components-slash c s e = rw e refl

pub components-skip_slashes : (s : List ℕ) → components (skip_slashes s) ≡ components s
unfolding skip_slashes
components-skip_slashes [] = refl
components-skip_slashes (c ∷ s) = elim (Bool-cases (c == b'/')) [
  | inl e ↦ rw e (components-skip_slashes s ∙ sym (components-slash c s e))
  | inr e ↦ rw e refl
]

behind-components : (p : List ℕ) → some_of (behind (from_slash p)) ≡ components (from_slash p)
unfolding components some_of split behind from_slash
behind-components [] = refl
behind-components (c ∷ s) = elim (Bool-cases (c == b'/')) [
  | inl e ↦ rw (e, e) refl
  | inr e ↦ rw e (behind-components s)
]

before_slash-Plain :
    (c : ℕ) (s : List ℕ) → (c == b'/') ≡ false → before_slash (c ∷ s) ≡ c ∷ before_slash s
unfolding before_slash
before_slash-Plain c s e = rw e refl

some_of-name :
    (c : ℕ) (s : List ℕ) (ws : List (List ℕ))
    → (c == b'/') ≡ false
    → some_of (before_slash (c ∷ s) ∷ ws) ≡ before_slash (c ∷ s) ∷ some_of ws
unfolding some_of
some_of-name c s ws e = rw (before_slash-Plain c s e) refl

-- The first name of a path, and the names behind it
pub components-Plain :
    (p : List ℕ)
    → Plain p
    → components p ≡ before_slash p ∷ components (skip_slashes (from_slash p))
unfolding components
components-Plain [] h = absurd h
components-Plain (c ∷ s) h =
    ap some_of (split-before_slash (c ∷ s))
    ∙ some_of-name c s (behind (from_slash (c ∷ s))) h
    ∙ ap (λ ws. before_slash (c ∷ s) ∷ ws)
        (behind-components (c ∷ s) ∙ sym (components-skip_slashes (from_slash (c ∷ s))))

-- What is left behind slashes is empty or begins with a name, and is no longer.
pub skip_slashes-cases :
    (s : List ℕ)
    → ((skip_slashes s ≡ []) ⊎ Plain (skip_slashes s)) × (length (skip_slashes s) ≤ length s)
unfolding skip_slashes
skip_slashes-cases [] = (inl refl, omega arith)
skip_slashes-cases (c ∷ s) = elim (Bool-cases (c == b'/')) [
  | inl e ↦ let h = skip_slashes-cases s in rw e (h.0, omega (arith, h.1))
  | inr e ↦ rw e (inr e, omega arith)
]

length-from_slash : (s : List ℕ) → length (from_slash s) ≤ length s
unfolding from_slash
length-from_slash [] = omega arith
length-from_slash (c ∷ s) = elim (Bool-cases (c == b'/')) [
  | inl e ↦ rw e (omega arith)
  | inr e ↦ rw e (omega (arith, length-from_slash s))
]

-- The rest of a path that begins with a name is shorter.
pub rest-shorter : (p : List ℕ) → Plain p → length (skip_slashes (from_slash p)) + 1 ≤ length p
unfolding from_slash
rest-shorter [] h = absurd h
rest-shorter (c ∷ s) h =
    let shorter = (skip_slashes-cases (from_slash s)).1 in
    let cut = length-from_slash s in rw h (omega (arith, shorter, cut))
