-- ===== src/Common/Words.antt =====
-- Machine words: 64-bit sums and differences wrap; a check of every value below a bound.
use Prim.Native.Nat.{ℕ, zero, suc, ◌+◌, ◌-◌, ◌*◌, ◌%◌, ◌^◌, ◌<◌}
use mathlib.Core.Path.{◌≡◌}
use mathlib.Core.Bool.{Bool, true, ◌&&◌}
use native.Mathlib.Omega.{arith}

abbrev pub u64_mod : ℕ
u64_mod = 2 ^ 64

-- `uint64_t` or `size_t` arithmetic.
abbrev pub add64 : ℕ → ℕ → ℕ
add64 a b = (a + b) % u64_mod

abbrev pub sub64 : ℕ → ℕ → ℕ
sub64 a b = (a + u64_mod - b) % u64_mod

abbrev pub mul64 : ℕ → ℕ → ℕ
mul64 a b = a * b % u64_mod

-- A test that holds of every number below a bound, by evaluation.
unfoldable pub every : ℕ → (ℕ → Bool) → Bool
every zero test = true
every (suc bound) test = every bound test && test bound

pub every-at :
    (bound : ℕ) (test : ℕ → Bool) (v : ℕ) → v < bound → every bound test ≡ true → test v ≡ true
unfolding every
every-at zero test v below done = absurd (omega arith)
every-at (suc bound) test v below done = ground (arith, every-at bound test v)
