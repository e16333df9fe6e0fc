-- ===== src/Common/Members.antt =====
-- Lists of distinct numbers.
use Prim.Native.Nat.{ℕ}
use mathlib.Core.Logic.{◌≢◌}
use mathlib.Core.List.{List, [], ◌∷◌}

-- A number that is not in the list
abbrev pub Outside : ℕ → List ℕ → Type 0
Outside t [] = Unit {0}
Outside t (x ∷ xs) = (t ≢ x) × Outside t xs

abbrev pub Distinct : List ℕ → Type 0
Distinct [] = Unit {0}
Distinct (x ∷ xs) = Outside x xs × Distinct xs
