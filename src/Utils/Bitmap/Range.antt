-- ===== src/Utils/Bitmap/Range.antt =====
-- Runs of bits: the loops that set, clear or read consecutive bits of a bitmap.
use piggy_os.Common.{
  ℕ, zero, suc, ◌+◌, ◌*◌, ◌≤◌, ◌≡◌, refl, Bool, not, ◌||◌, ◌&&◌, List, length, leb, ltb, arith,
}
use piggy_os.Utils.Bitmap.{bitmap_test, bitmap_set, bitmap_clear}
use piggy_os.Utils.Bitmap.Bits.{
  IsBytes, bitmap_test-set, bitmap_test-clear, bitmap_set-IsBytes, bitmap_clear-IsBytes,
  length-bitmap_set, length-bitmap_clear,
}

-- `for (i = first; i < first + n; i++) BITMAP_SET(a, i)`
unfoldable pub set_run : List ℕ → ℕ → ℕ → List ℕ
set_run a first zero = a
set_run a first (suc n) = set_run (bitmap_set a first) (first + 1) n

-- `for (i = first; i < first + n; i++) BITMAP_CLEAR(a, i)`
unfoldable pub clear_run : List ℕ → ℕ → ℕ → List ℕ
clear_run a first zero = a
clear_run a first (suc n) = clear_run (bitmap_clear a first) (first + 1) n

-- Whether `i` is one of the `n` indices from `first` on.
unfoldable pub in_run : ℕ → ℕ → ℕ → Bool
in_run first n i = leb first i && ltb i (first + n)

pub length-set_run : (a : List ℕ) (first n : ℕ) → length (set_run a first n) ≡ length a
unfolding set_run
length-set_run a first zero = refl
length-set_run a first (suc n) =
    omega (arith, length-set_run (bitmap_set a first) (first + 1) n, length-bitmap_set a first)

pub length-clear_run : (a : List ℕ) (first n : ℕ) → length (clear_run a first n) ≡ length a
unfolding clear_run
length-clear_run a first zero = refl
length-clear_run a first (suc n) =
    omega
      (arith, length-clear_run (bitmap_clear a first) (first + 1) n, length-bitmap_clear a first)

pub set_run-IsBytes : (a : List ℕ) (first n : ℕ) → IsBytes a → IsBytes (set_run a first n)
unfolding set_run
set_run-IsBytes a first zero h = h
set_run-IsBytes a first (suc n) h =
    set_run-IsBytes (bitmap_set a first) (first + 1) n (bitmap_set-IsBytes a first h)

pub clear_run-IsBytes : (a : List ℕ) (first n : ℕ) → IsBytes a → IsBytes (clear_run a first n)
unfolding clear_run
clear_run-IsBytes a first zero h = h
clear_run-IsBytes a first (suc n) h =
    clear_run-IsBytes (bitmap_clear a first) (first + 1) n (bitmap_clear-IsBytes a first h)

-- Setting a run sets exactly the bits of the run.
pub bitmap_test-set_run :
    (a : List ℕ) (first n j : ℕ)
    → IsBytes a
    → first + n ≤ length a * 8
    → bitmap_test (set_run a first n) j ≡ (in_run first n j || bitmap_test a j)
unfolding set_run in_run
bitmap_test-set_run a first zero j h fits = ground arith
bitmap_test-set_run a first (suc n) j h fits = ground (
  arith,
  bitmap_test-set_run (bitmap_set a first) (first + 1) n j (bitmap_set-IsBytes a first h)
      (omega (arith, length-bitmap_set a first)),
  bitmap_test-set a first j h (omega arith),
)

-- Clearing a run clears exactly the bits of the run.
pub bitmap_test-clear_run :
    (a : List ℕ) (first n j : ℕ)
    → IsBytes a
    → first + n ≤ length a * 8
    → bitmap_test (clear_run a first n) j ≡ (not (in_run first n j) && bitmap_test a j)
unfolding clear_run in_run
bitmap_test-clear_run a first zero j h fits = ground arith
bitmap_test-clear_run a first (suc n) j h fits = ground (
  arith,
  bitmap_test-clear_run (bitmap_clear a first) (first + 1) n j (bitmap_clear-IsBytes a first h)
      (omega (arith, length-bitmap_clear a first)),
  bitmap_test-clear a first j h (omega arith),
)
