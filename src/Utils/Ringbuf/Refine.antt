-- ===== src/Utils/Ringbuf/Refine.antt =====
-- A valid ring behaves as the bounded queue of its elements, but for `ringbuf_pop_tail`.
use mathlib.Core.Path.{ap₂}
use piggy_os.Common.{
  ℕ, zero, suc, ◌+◌, ◌-◌, ◌<◌, ◌≡◌, ◌⊎◌, refl, ap, Bool, true, false, Option, none, some, List, [],
  ◌∷◌, ◌++◌, length, get_or, set, get_or-set_self, get_or-set_ne, get_elem?-eq-get_or, ◌==◌,
  if◌then◌else◌, add64, arith,
}
use piggy_os.Utils.Ringbuf.{Ringbuf, ringbuf_push, ringbuf_pop, advance}
use piggy_os.Utils.Ringbuf.Inv.{IsValid}

-- The index behind `i`, round the end.
abbrev pub behind : ℕ → ℕ → ℕ
behind capacity i = if i + 1 == capacity then 0 else i + 1

-- The `n` elements from the index `i` on.
module _ (slots : List ℕ) (capacity : ℕ) where
  abbrev pub elements : ℕ → ℕ → List ℕ
  elements i zero = []
  elements i (suc n) = get_or slots i 0 ∷ elements (behind capacity i) n

-- The elements that a ring holds, oldest first.
abbrev pub contents : Ringbuf → List ℕ
contents r = elements r.slots r.capacity r.read_ptr r.size

length-elements : (slots : List ℕ) (capacity i n : ℕ) → length (elements slots capacity i n) ≡ n
length-elements slots capacity i zero = refl
length-elements slots capacity i (suc n) =
    ap suc (length-elements slots capacity (behind capacity i) n)

pub length-contents : (r : Ringbuf) → length (contents r) ≡ r.size
length-contents r = length-elements r.slots r.capacity r.read_ptr r.size

-- `k` lies `n` places behind `i`.
abbrev pub Behind : ℕ → ℕ → ℕ → ℕ → Type 0
Behind capacity i n k = (k ≡ i + n) ⊎ (k + capacity ≡ i + n)

behind-lt : (capacity i : ℕ) → i < capacity → behind capacity i < capacity
behind-lt capacity i h = ground arith

Behind-step :
    (capacity i n k : ℕ)
    → i < capacity
    → k < capacity
    → Behind capacity i (suc n) k
    → Behind capacity (behind capacity i) n k
Behind-step capacity i n k hi hk b = ground arith

module _ (slots : List ℕ) (capacity : ℕ) (storage : length slots ≡ capacity) where
  elements-set :
      (x i n k : ℕ)
      → i < capacity
      → k < capacity
      → n < capacity
      → Behind capacity i n k
      → elements (set slots k x) capacity i (suc n) ≡ elements slots capacity i n ++ (x ∷ [])
  elements-set x i zero k hi hk hn b =
      let e : k ≡ i = omega arith in rw (e, get_or-set_self slots i x 0 (omega arith))
  elements-set x i (suc n) k hi hk hn b = ap₂ ◌∷◌ (get_or-set_ne slots k i x 0 (omega arith)) (
      elements-set x (behind capacity i) n k (behind-lt capacity i hi) hk (omega arith)
        (Behind-step capacity i n k hi hk b))

  pub elements-snoc :
      (i n k : ℕ)
      → i < capacity
      → k < capacity
      → n < capacity
      → Behind capacity i n k
      → elements slots capacity i (suc n) ≡ elements slots capacity i n ++ (get_or slots k 0 ∷ [])
  elements-snoc i zero k hi hk hn b = let e : k ≡ i = omega arith in rw e
  elements-snoc i (suc n) k hi hk hn b = ap (◌∷◌ (get_or slots i 0)) (
      elements-snoc (behind capacity i) n k (behind-lt capacity i hi) hk (omega arith)
        (Behind-step capacity i n k hi hk b))

-- What the operations do to the queue of elements.
unfoldable pub push_back : ℕ → List ℕ → ℕ → Bool × List ℕ
push_back capacity q x = if length q == capacity then (false, q) else (true, q ++ (x ∷ []))

unfoldable pub pop_front : List ℕ → Bool × Option ℕ × List ℕ
pop_front [] = (false, none, [])
pop_front (x ∷ q) = (true, some x, q)

pub elements_first :
    (slots : List ℕ) (capacity i n : ℕ)
    → 0 < n
    → elements slots capacity i n
      ≡ get_or slots i 0 ∷ elements slots capacity (behind capacity i) (n - 1)
elements_first slots capacity i zero h = absurd (omega arith)
elements_first slots capacity i (suc n) h =
    ap (λ k. get_or slots i 0 ∷ elements slots capacity (behind capacity i) k) (omega arith)

-- The elements after a write behind the last one, from any count that is one more.
module _ (r : Ringbuf) (v : IsValid r) (x : ℕ) where
  push_kept :
      (k n : ℕ)
      → 0 < r.size
      → r.size < r.capacity
      → k < r.capacity
      → Behind r.capacity r.read_ptr r.size k
      → n ≡ suc r.size
      → elements (set r.slots k x) r.capacity r.read_ptr n ≡ contents r ++ (x ∷ [])
  push_kept k n pos room hk b e =
      rw e (elements-set r.slots r.capacity v.storage x r.read_ptr r.size k (omega arith) hk room b)

  push_first :
      r.size ≡ 0 → elements (set r.slots 0 x) r.capacity 0 (add64 r.size 1) ≡ contents r ++ (x ∷ [])
  push_first e =
      let one : add64 r.size 1 ≡ 1 = omega arith in
      rw (one, e, get_or-set_self r.slots 0 x 0 (omega (arith, v.storage, v.some_room)))

-- Every push, pop and peek of a valid ring returns what the bounded queue of its elements returns,
-- and leaves the ring holding that queue.
pub ringbuf_push_refines :
    {r : Ringbuf} (x : ℕ)
    → IsValid r
    → let (done, r') = ringbuf_push r x in (done, contents r') ≡ push_back r.capacity (contents r) x
unfolding ringbuf_push push_back
ringbuf_push_refines {r} x v =
    let k = advance r.capacity r.write_ptr in
    ground (arith, length-contents r, push_kept r v x k (add64 r.size 1), push_first r v x)

pub ringbuf_pop_refines :
    {r : Ringbuf}
    → IsValid r
    → let (done, out, r') = ringbuf_pop r in (done, out, contents r') ≡ pop_front (contents r)
unfolding ringbuf_pop pop_front
ringbuf_pop_refines {r} v = ground (
  arith,
  elements_first r.slots r.capacity r.read_ptr r.size,
  get_elem?-eq-get_or r.slots r.read_ptr 0,
)
