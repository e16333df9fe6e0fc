-- ===== src/Utils/Ringbuf/Tail.antt =====
-- `ringbuf_pop_tail`, which the terminal uses to erase the last character.
use native.Mathlib.Decide.{dec_lt}
use piggy_os.Common.{
  ℕ, suc, ◌-◌, ◌<◌, ◌≤◌, ◌≡◌, ◌⊎◌, inl, inr, refl, ap, ◌∙◌, Bool, true, false, Option, none, some,
  List, [], ◌∷◌, ◌++◌, length, get_or, get_elem?, get_elem?-eq-get_or, ◌==◌, if◌then◌else◌, sub64,
  arith,
}
use mathlib.Core.List.{append_assoc}
use piggy_os.Utils.Ringbuf.{Ringbuf, ringbuf_pop_tail}
use piggy_os.Utils.Ringbuf.Inv.{IsValid}
use piggy_os.Utils.Ringbuf.Refine.{elements, elements-snoc, contents, Behind}

-- The last two elements of a run.
elements-snoc_two :
    (slots : List ℕ) (capacity i n j k : ℕ)
    → length slots ≡ capacity
    → i < capacity
    → j < capacity
    → k < capacity
    → suc n < capacity
    → Behind capacity i n j
    → Behind capacity i (suc n) k
    → elements slots capacity i (suc (suc n))
      ≡ elements slots capacity i n ++ (get_or slots j 0 ∷ get_or slots k 0 ∷ [])
elements-snoc_two slots capacity i n j k storage hi hj hk hn bj bk =
    elements-snoc slots capacity storage i (suc n) k hi hk hn bk
    ∙ ap (λ l. l ++ (get_or slots k 0 ∷ []))
        (elements-snoc slots capacity storage i n j hi hj (omega arith) bj)
    ∙ append_assoc (elements slots capacity i n) (get_or slots j 0 ∷ []) (get_or slots k 0 ∷ [])

module _ (r : Ringbuf) (v : IsValid r) where
  -- The index before `k`, round the end: where the write pointer goes.
  before : ℕ
  before = if r.write_ptr == 0 then sub64 r.capacity 1 else sub64 r.write_ptr 1

  pop_tail_two :
      2 ≤ r.size
      → (ringbuf_pop_tail r ≡ (
        true,
        get_elem? r.slots before,
        record r { size = sub64 r.size 1; write_ptr = before },
      ))
        × (before < r.capacity)
        × Behind r.capacity r.read_ptr (r.size - 1) r.write_ptr
        × Behind r.capacity r.read_ptr (r.size - 2) before
        × (r.write_ptr < r.capacity)
        × (r.read_ptr < r.capacity)
        × (r.size ≤ r.capacity)
  unfolding ringbuf_pop_tail before
  pop_tail_two two = (
    ground arith,
    ground arith,
    ground arith,
    ground arith,
    ground arith,
    ground arith,
    ground arith,
  )

  two_last :
      2 ≤ r.size
      → contents r
        ≡ elements r.slots r.capacity r.read_ptr (r.size - 2)
          ++ (get_or r.slots before 0 ∷ get_or r.slots r.write_ptr 0 ∷ [])
  two_last two =
      let t = pop_tail_two two in
      let size : r.size ≡ suc (suc (r.size - 2)) = omega arith in
      ap (elements r.slots r.capacity r.read_ptr) size
      ∙ elements-snoc_two r.slots r.capacity r.read_ptr (r.size - 2) before r.write_ptr v.storage
          (omega arith) (omega arith) (omega arith) (omega arith) t.3 (omega arith)

  one_last :
      2 ≤ r.size
      → elements r.slots r.capacity r.read_ptr (sub64 r.size 1)
        ≡ elements r.slots r.capacity r.read_ptr (r.size - 2) ++ (get_or r.slots before 0 ∷ [])
  one_last two =
      let t = pop_tail_two two in
      let size : sub64 r.size 1 ≡ suc (r.size - 2) = omega (arith, v.small) in
      ap (elements r.slots r.capacity r.read_ptr) size
      ∙ elements-snoc r.slots r.capacity v.storage r.read_ptr (r.size - 2) before (omega arith)
          (omega arith) (omega arith) t.3

  few : r.size ≤ 1 → ringbuf_pop_tail r ≡ (false, none, r)
  unfolding ringbuf_pop_tail
  few h = ground arith

-- What `ringbuf_pop_tail` does to a ring of at least two elements.
pub record Drops (r : Ringbuf) (q : List ℕ) (y x : ℕ) (t : Bool × Option ℕ × Ringbuf) : Type 0 where
  pub held : contents r ≡ q ++ (y ∷ x ∷ [])
  pub done : t.0 ≡ true
  pub out : t.1 ≡ some y
  pub left : contents t.2 ≡ q ++ (y ∷ [])

-- With at least two elements `ringbuf_pop_tail` removes the last one, and what it copies out is the
-- one before it, which stays; with fewer it reports an empty ring and changes nothing.
pub ringbuf_pop_tail_lem :
    {r : Ringbuf}
    → IsValid r
    → ((r.size ≤ 1) × (ringbuf_pop_tail r ≡ (false, none, r)))
      ⊎ ((q : List ℕ) × (y : ℕ) × (x : ℕ) × Drops r q y x (ringbuf_pop_tail r))
ringbuf_pop_tail_lem {r} v = elim (dec_lt 1 r.size) [
  | no h ↦ inl (omega arith, few r v (omega arith))
  | yes h ↦
      let t = pop_tail_two r v h in
      inr (
        elements r.slots r.capacity r.read_ptr (r.size - 2),
        get_or r.slots (before r v) 0,
        get_or r.slots r.write_ptr 0,
        rw t.0 (record {
          held = two_last r v h;
          done = refl;
          out = get_elem?-eq-get_or r.slots (before r v) 0 (omega (arith, v.storage));
          left = one_last r v h;
        }),
      )
]
