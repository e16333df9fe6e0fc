-- ===== src/Utils/Vector/Laws.antt =====
-- What pushing to a vector and removing from it do.
use mathlib.Core.Path.{subst}
use native.Mathlib.Decide.{ℕ_discrete}
use piggy_os.Common.{
  ℕ, zero, suc, ◌+◌, ◌-◌, ◌*◌, ◌/◌, ◌^◌, ◌<◌, ◌≤◌, ◌≡◌, ◌≢◌, ◌⊎◌, inl, inr, refl, sym, ap, ◌∙◌,
  true, false, leb, lt→leb, ◌==◌, sub64, update_self, update_ne, arith, ne→==,
}
use piggy_os.Utils.Vector.{
  Vector, vector_pop_back, move_down, vector_remove, remove_first, vector_remove_by_value,
  vector_push_back,
}

-- There is room for the elements, and the capacity can be doubled.
pub record IsValid (v : Vector) : Type 0 where
  pub some_room : 1 ≤ v.capacity
  pub room : v.size ≤ v.capacity
  pub small : v.capacity < 2 ^ 63

-- The elements of `v` and then `value`.
pub record Pushed (v : Vector) (value : ℕ) (v' : Vector) : Type 0 where
  pub size : v'.size ≡ v.size + 1
  pub room : v'.size ≤ v'.capacity
  pub last : v'.slots v.size ≡ value
  pub before : (i : ℕ) → i < v.size → v'.slots i ≡ v.slots i

-- vector_push_back of a vector with room for its elements puts the value behind them, in an array with
-- room for it, and keeps them.
pub vector_push_back_lem :
    (v : Vector) (value : ℕ) → IsValid v → Pushed v value (vector_push_back v value)
unfolding vector_push_back
vector_push_back_lem v value ok =
    let some_room = ok.some_room in
    let room = ok.room in
    let small = ok.small in
    record {
      size = refl;
      room = ground arith;
      last = update_self v.slots v.size value;
      before = λ i l. update_ne v.slots v.size i value (λ e. absurd (omega arith));
    }

-- The elements of `v` without the first one.
pub record Shifted (v v' : Vector) : Type 0 where
  pub size : v'.size + 1 ≡ v.size
  pub rest : (i : ℕ) → i + 1 < v.size → v'.slots i ≡ v.slots (i + 1)

move_down-inside :
    (bytes part : ℕ) (slots : ℕ → ℕ) (i : ℕ)
    → i < bytes / 8
    → move_down 0 bytes part slots i ≡ slots (i + 1)
unfolding move_down
move_down-inside bytes part slots i l = ground arith

vector_remove-first :
    (part : ℕ) (v : Vector)
    → v.elem_size ≡ 8
    → 1 ≤ v.size
    → v.size < 2 ^ 60
    → Shifted v (vector_remove part v 0).1
unfolding vector_remove vector_pop_back
vector_remove-first part v e one small =
    let inside : leb v.size 0 ≡ false = lt→leb 0 v.size (omega arith) in
    elim (ℕ_discrete v.size 1) [
      | yes y ↦
          let last : (0 == sub64 v.size 1) ≡ true = ground arith in
          rw (inside, last) (record { size = omega arith; rest = λ i l. absurd (omega arith) })
      | no n ↦
          let more : (0 == sub64 v.size 1) ≡ false = ne→== 0 _ (omega arith) in
          let whole : v.size - 1 ≤ sub64 (sub64 (v.elem_size * v.size) 0) 1 / 8 =
            rw e (omega arith) in
          rw (inside, more)
            (record {
              size = omega arith;
              rest = λ i l. move_down-inside _ part v.slots i (omega arith);
            })
    ]

-- Rounds that find nothing.
remove_first-misses :
    (n i part : ℕ) (v : Vector) (value : ℕ)
    → ((j : ℕ) → i ≤ j → j < i + n → v.slots (v.elem_size * j) ≢ value)
    → remove_first n i part v value ≡ (false, v)
unfolding remove_first
remove_first-misses zero i part v value h = refl
remove_first-misses (suc n) i part v value h =
    let miss : (v.slots (v.elem_size * i) == value) ≡ false =
      ne→== _ _ (h i (omega arith) (omega arith)) in
    rw miss (remove_first-misses n (i + 1) part v value (λ j a b. h j (omega arith) (omega arith)))

zero_at : (v : Vector) → v.elem_size ≡ 8 → (j : ℕ) → j ≡ 0 → 0 ≡ v.elem_size * j
zero_at v e j z = rw (e, z) refl

remove_first-hit :
    (n part : ℕ) (v : Vector) (value : ℕ)
    → v.slots (v.elem_size * 0) ≡ value
    → remove_first (suc n) 0 part v value ≡ (true, (vector_remove part v 0).1)
unfolding remove_first
remove_first-hit n part v value e =
    let hit : (v.slots (v.elem_size * 0) == value) ≡ true = ground arith in rw hit refl

-- In a vector of elements of 8 bytes, whose slots at the further multiples of 8 do not hold `value`,
-- vector_remove_by_value removes the first element if it is `value` and moves the others down by one,
-- and fails and changes nothing if it is not, wherever else among the elements `value` stands.
pub vector_remove_by_value_lem :
    (part : ℕ) (v : Vector) (value : ℕ)
    → v.elem_size ≡ 8
    → 1 ≤ v.size
    → v.size < 2 ^ 60
    → ((j : ℕ) → 1 ≤ j → j < v.size → v.slots (8 * j) ≢ value)
    → (v.slots 0 ≡ value)
        × ((vector_remove_by_value part v value).0 ≡ true)
        × Shifted v (vector_remove_by_value part v value).1
      ⊎ (v.slots 0 ≢ value) × (vector_remove_by_value part v value ≡ (false, v))
unfolding vector_remove_by_value
vector_remove_by_value_lem part v value e one small h = elim (ℕ_discrete (v.slots 0) value) [
  | yes y ↦
      let found : remove_first v.size 0 part v value ≡ (true, (vector_remove part v 0).1) =
        subst (λ n. remove_first n 0 part v value ≡ (true, (vector_remove part v 0).1))
          (omega arith)
          (remove_first-hit (v.size - 1) part v value (ap v.slots (omega arith) ∙ y)) in
      inl (
        y,
        ap (λ r. r.0) found,
        subst (Shifted v) (sym (ap (λ r. r.1) found)) (vector_remove-first part v e one small),
      )
  | no n ↦ inr (
    n,
    remove_first-misses v.size 0 part v value (λ j a b. elim (ℕ_discrete j 0) [
      | yes z ↦ λ q. n (ap v.slots (zero_at v e j z) ∙ q)
      | no k ↦ λ q. h j (omega arith) (omega arith) (ap (λ s. v.slots (s * j)) (sym e) ∙ q)
    ]),
  )
]
