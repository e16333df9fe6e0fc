-- ===== src/Mem/Vmm/Sample.antt =====
-- An empty page map with four levels, its top level at 4096, for tests.
use piggy_os.Common.{ℕ, refl, false, none, some, [], ◌∷◌, ◌==◌, if◌then◌else◌, arith}
use piggy_os.Mem.Vmm.{no_entry, Memory, Pagemap}
use piggy_os.Mem.Vmm.Map.{IsValid, NotLarge}

abbrev pub pagemap : Pagemap
pagemap = record { top_level = 4096; has_level5 = false }

abbrev pub empty : Memory
empty = record { entry = λ t i. no_entry; pages = 8192 ∷ 12288 ∷ 16384 ∷ 20480 ∷ [] }

pub empty-IsValid : IsValid pagemap empty
empty-IsValid = record {
  path = λ t. if t == 4096 then some [] else none;
  tree = record {
    child = λ t i π e l p s. absurd (grind (arith, p));
    large = λ t i π e l p. refl;
    unused = (
      (refl, omega arith),
      ((refl, omega arith), ((refl, omega arith), ((refl, omega arith), tt))),
    );
    distinct = (
      (omega arith, (omega arith, (omega arith, tt))),
      ((omega arith, (omega arith, tt)), ((omega arith, tt), (tt, tt))),
    );
  };
  top_path = refl;
}

pub empty-NotLarge : (v : ℕ) → NotLarge pagemap v empty
empty-NotLarge v t d = refl
