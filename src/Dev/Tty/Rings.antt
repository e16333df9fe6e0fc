-- ===== src/Dev/Tty/Rings.antt =====
-- What a ring holds, as a list.
use piggy_os.Common.{
  ℕ, ◌+◌, ◌-◌, ◌<◌, ◌≤◌, ◌≡◌, ◌⊎◌, inl, inr, refl, sym, ap, ◌∙◌, true, none, some, List, [], ◌∷◌,
  ◌++◌, length, arith, ne→==,
}
use piggy_os.Utils.Ringbuf.{Ringbuf, ringbuf_push, ringbuf_pop, ringbuf_pop_tail}
use piggy_os.Utils.Ringbuf.Inv.{
  IsValid, ringbuf_push-IsValid, ringbuf_pop-IsValid, ringbuf_pop_tail-IsValid,
}
use piggy_os.Utils.Ringbuf.Refine.{
  contents, length-contents, push_back, pop_front, ringbuf_push_refines, ringbuf_pop_refines,
}
use piggy_os.Utils.Ringbuf.Tail.{ringbuf_pop_tail_lem}

-- A well-formed ring of a capacity, and its elements
pub record Holds (capacity : ℕ) (r : Ringbuf) (q : List ℕ) : Type 0 where
  pub valid : IsValid r
  pub held : contents r ≡ q
  pub room : r.capacity ≡ capacity

pub Holds-size : (capacity : ℕ) (r : Ringbuf) (q : List ℕ) → Holds capacity r q → r.size ≡ length q
Holds-size capacity r q h = sym (length-contents r) ∙ ap length h.held

push-capacity : (r : Ringbuf) (x : ℕ) → (ringbuf_push r x).1.capacity ≡ r.capacity
unfolding ringbuf_push
push-capacity r x = ground arith

pub Holds-ringbuf_push :
    (capacity : ℕ) (r : Ringbuf) (q : List ℕ) (x : ℕ)
    → Holds capacity r q
    → length q < capacity
    → Holds capacity (ringbuf_push r x).1 (q ++ (x ∷ []))
unfolding push_back
Holds-ringbuf_push capacity r q x h small =
    let kept : push_back r.capacity (contents r) x ≡ (true, q ++ (x ∷ [])) =
      rw (h.held, h.room, ne→== (length q) capacity (λ e. absurd (omega arith))) refl in
    record {
      valid = ringbuf_push-IsValid x h.valid;
      held = ap (λ t. t.1) (ringbuf_push_refines x h.valid) ∙ ap (λ t. t.1) kept;
      room = push-capacity r x ∙ h.room;
    }

pop-capacity : (r : Ringbuf) → (ringbuf_pop r).2.capacity ≡ r.capacity
unfolding ringbuf_pop
pop-capacity r = ground arith

pub Holds-ringbuf_pop :
    (capacity : ℕ) (r : Ringbuf) (q : List ℕ) (x : ℕ)
    → Holds capacity r (x ∷ q)
    → (r' : Ringbuf) × (ringbuf_pop r ≡ (true, some x, r')) × Holds capacity r' q
unfolding ringbuf_pop pop_front
Holds-ringbuf_pop capacity r q x h =
    let e = ringbuf_pop_refines h.valid ∙ ap pop_front h.held in
    let r' = (ringbuf_pop r).2 in
    (
      r',
      ap (λ t. (t.0, t.1, r')) e,
      record {
        valid = ringbuf_pop-IsValid h.valid;
        held = ap (λ t. t.2) e;
        room = pop-capacity r ∙ h.room;
      },
    )

-- An empty ring gives nothing and stays.
pub Holds-none : (capacity : ℕ) (r : Ringbuf) → Holds capacity r [] → (ringbuf_pop r).1 ≡ none
unfolding pop_front
Holds-none capacity r h =
    let e = ringbuf_pop_refines h.valid ∙ ap pop_front h.held in ap (λ t. t.1) e

-- A line without its last element
unfoldable pub without_last : List ℕ → List ℕ
without_last [] = []
without_last (c ∷ []) = []
without_last (c ∷ d ∷ q) = c ∷ without_last (d ∷ q)

-- A line after ringbuf_pop_tail: the first element is never taken off.
unfoldable pub erased : List ℕ → List ℕ
erased [] = []
erased (c ∷ q) = c ∷ without_last q

without_last_two : (q : List ℕ) (y x : ℕ) → without_last (q ++ (y ∷ x ∷ [])) ≡ q ++ (y ∷ [])
unfolding without_last
without_last_two [] y x = refl
without_last_two (c ∷ []) y x = refl
without_last_two (c ∷ d ∷ q) y x = ap (λ l. c ∷ l) (without_last_two (d ∷ q) y x)

erased_two : (q : List ℕ) (y x : ℕ) → erased (q ++ (y ∷ x ∷ [])) ≡ q ++ (y ∷ [])
unfolding erased without_last
erased_two [] y x = refl
erased_two (c ∷ q) y x = ap (λ l. c ∷ l) (without_last_two q y x)

pub erased_few : (q : List ℕ) → length q ≤ 1 → erased q ≡ q
unfolding erased without_last
erased_few [] l = refl
erased_few (c ∷ []) l = refl
erased_few (c ∷ d ∷ q) l = absurd (omega arith)

length-without_last : (q : List ℕ) → length (without_last q) ≡ length q - 1
unfolding without_last
length-without_last [] = refl
length-without_last (c ∷ []) = refl
length-without_last (c ∷ d ∷ q) = omega (arith, length-without_last (d ∷ q))

pub length-erased :
    (q : List ℕ)
    → (length q ≤ 1) × (length (erased q) ≡ length q)
      ⊎ (2 ≤ length q) × (length (erased q) + 1 ≡ length q)
unfolding erased
length-erased [] = inl (omega arith, omega arith)
length-erased (c ∷ []) = unfold without_last in inl (omega arith, omega arith)
length-erased (c ∷ d ∷ q) = inr (omega arith, omega (arith, length-without_last (d ∷ q)))

pop_tail-capacity : (r : Ringbuf) → (ringbuf_pop_tail r).2.capacity ≡ r.capacity
unfolding ringbuf_pop_tail
pop_tail-capacity r = ground arith

pub Holds-ringbuf_pop_tail :
    (capacity : ℕ) (r : Ringbuf) (q : List ℕ)
    → Holds capacity r q
    → Holds capacity (ringbuf_pop_tail r).2 (erased q)
Holds-ringbuf_pop_tail capacity r q h = record {
  valid = ringbuf_pop_tail-IsValid h.valid;
  held = elim (ringbuf_pop_tail_lem h.valid) [
    | inl (few, e) ↦
        ap (λ t. contents t.2) e
        ∙ h.held
        ∙ sym (erased_few q (omega (arith, Holds-size capacity r q h)))
    | inr (p, y, x, d) ↦ d.left ∙ sym (ap erased (sym h.held ∙ d.held) ∙ erased_two p y x)
  ];
  room = pop_tail-capacity r ∙ h.room;
}
