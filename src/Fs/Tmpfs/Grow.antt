-- ===== src/Fs/Tmpfs/Grow.antt =====
-- The room for the bytes of a file.
use native.Mathlib.Decide.{dec_lt}
use native.Mathlib.Nat.{mul_assoc}
use piggy_os.Common.{
  ℕ, zero, suc, ◌*◌, ◌^◌, ◌<◌, ◌≤◌, ◌≡◌, refl, sym, ap, ◌∙◌, Bool, true, false, Option, some, ltb,
  if◌then◌else◌, mul64, arith, Bool-cases, lt→ltb, inl, inr,
}
use piggy_os.Fs.Tmpfs.{TmpNode, double_while, enlarge, ensure}

-- The bytes of a file fit into its array, whose capacity can be doubled up to any size that is needed.
pub record IsValid (node : TmpNode) : Type 0 where
  pub room : node.st_size ≤ node.capacity
  pub some_room : 1 ≤ node.capacity
  pub small : node.capacity ≤ 2 ^ 63

-- A test that fails above 2^62 ends the loop.
double_while-ends :
    (fuel : ℕ) (test : ℕ → Bool) (capacity : ℕ)
    → ((c : ℕ) → 2 ^ 62 < c → test c ≡ false)
    → 2 ^ 62 < capacity * 2 ^ fuel
    → capacity ≤ 2 ^ 63
    → (c : ℕ) × (double_while (suc fuel) test capacity ≡ some c)
      × (test c ≡ false)
      × (capacity ≤ c)
      × (c ≤ 2 ^ 63)
unfolding double_while
double_while-ends zero test capacity ends high small =
    let e = ends capacity (omega arith) in (capacity, rw e refl, e, omega arith, small)
double_while-ends (suc fuel) test capacity ends high small = elim (Bool-cases (test capacity)) [
  | inr e ↦ (capacity, rw e refl, e, omega arith, small)
  | inl e ↦
      let below : capacity ≤ 2 ^ 62 = below_end e in
      let doubled : mul64 capacity 2 ≡ capacity * 2 = omega arith in
      let power : capacity * 2 ^ suc fuel ≡ capacity * 2 * 2 ^ fuel =
        ap (λ n. capacity * n) (omega arith) ∙ sym (mul_assoc capacity 2 (2 ^ fuel)) in
      let (c, found, out, more, fits) =
        double_while-ends fuel test (capacity * 2) ends (omega (arith, power)) (omega arith) in
      (c, rw e (ap (double_while (suc fuel) test) doubled ∙ found), out, omega arith, fits)
]
  where
    below_end : test capacity ≡ true → capacity ≤ 2 ^ 62
    below_end e = elim (dec_lt (2 ^ 62) capacity) [
      | yes l ↦ absurd (cc (ends capacity l, e))
      | no l ↦ omega arith
    ]

-- What making room leaves behind: the bytes that were there, and room enough.
pub record Ensured (test : ℕ → Bool) (node : TmpNode) (r : Option (Bool × TmpNode)) : Type 0 where
  pub capacity : ℕ
  pub bytes : ℕ → ℕ
  pub result : r ≡ some (true, record node { capacity = capacity; bytes = bytes })
  pub enough : test capacity ≡ false
  pub larger : node.capacity ≤ capacity
  pub small : capacity ≤ 2 ^ 63
  pub kept : (i : ℕ) → i < node.capacity → bytes i ≡ node.bytes i

pub ensure-Ensured :
    (test : ℕ → Bool) (fresh : ℕ → ℕ) (node : TmpNode)
    → IsValid node
    → ((c : ℕ) → 2 ^ 62 < c → test c ≡ false)
    → Ensured test node (ensure test (some fresh) node)
unfolding ensure enlarge
ensure-Ensured test fresh node v ends =
    let some_room = v.some_room in
    elim (Bool-cases (test node.capacity)) [
      | inr e ↦ record {
        capacity = node.capacity;
        bytes = node.bytes;
        result = rw e refl;
        enough = e;
        larger = omega arith;
        small = v.small;
        kept = λ i l. refl;
      }
      | inl e ↦
          let (c, found, out, more, fits) =
            double_while-ends 63 test node.capacity ends (omega arith) v.small in
          record {
            capacity = c;
            bytes = λ i. if ltb i node.capacity then node.bytes i else fresh i;
            result = rw (e, found) refl;
            enough = out;
            larger = more;
            small = fits;
            kept = λ i l. rw (lt→ltb i node.capacity l) refl;
          }
    ]
