-- ===== src/Utils/Ringbuf/Run.antt =====
-- Sequences of calls on one ring, from its creation on.
use piggy_os.Common.{
  ℕ, ◌<◌, ◌^◌, ◌≡◌, refl, Bool, true, false, Option, none, some, List, [], ◌∷◌, length,
  get_elem?-eq-get_or, inl, arith,
}
use piggy_os.Utils.Ringbuf.{
  Ringbuf, ringbuf_create, ringbuf_push, ringbuf_pop, ringbuf_peek, no_ptr,
}
use piggy_os.Utils.Ringbuf.Inv.{IsValid, ringbuf_push-IsValid, ringbuf_pop-IsValid}
use piggy_os.Utils.Ringbuf.Refine.{
  contents, elements_first, push_back, pop_front, ringbuf_push_refines, ringbuf_pop_refines,
}

-- A call, and what it returns.
pub data Call : Type 0 where
  push : ℕ → Call
  pop : Call
  peek : Call

abbrev pub Reply : Type 0
Reply = Bool × Option ℕ

unfoldable pub serve : Ringbuf → List Call → List Reply
serve r [] = []
serve r (push x ∷ calls) = let (done, r') = ringbuf_push r x in (done, none) ∷ serve r' calls
serve r (pop ∷ calls) = let (done, out, r') = ringbuf_pop r in (done, out) ∷ serve r' calls
serve r (peek ∷ calls) = ringbuf_peek r ∷ serve r calls

unfoldable pub peek_front : List ℕ → Reply
peek_front [] = (false, none)
peek_front (x ∷ q) = (true, some x)

-- The same calls on a queue of at most `capacity` elements.
unfoldable pub serve_queue : ℕ → List ℕ → List Call → List Reply
serve_queue capacity q [] = []
serve_queue capacity q (push x ∷ calls) =
    let (done, q') = push_back capacity q x in (done, none) ∷ serve_queue capacity q' calls
serve_queue capacity q (pop ∷ calls) =
    let (done, out, q') = pop_front q in (done, out) ∷ serve_queue capacity q' calls
serve_queue capacity q (peek ∷ calls) = peek_front q ∷ serve_queue capacity q calls

peek_refines : {r : Ringbuf} → IsValid r → ringbuf_peek r ≡ peek_front (contents r)
unfolding ringbuf_peek peek_front
peek_refines {r} v = ground (
  arith,
  elements_first r.slots r.capacity r.read_ptr r.size,
  get_elem?-eq-get_or r.slots r.read_ptr 0,
)

capacity-push : (r : Ringbuf) (x : ℕ) → (ringbuf_push r x).1.capacity ≡ r.capacity
unfolding ringbuf_push
capacity-push r x = ground arith

capacity-pop : (r : Ringbuf) → (ringbuf_pop r).2.capacity ≡ r.capacity
unfolding ringbuf_pop
capacity-pop r = ground arith

serve_refines :
    (calls : List Call) {r : Ringbuf}
    → IsValid r
    → serve r calls ≡ serve_queue r.capacity (contents r) calls
unfolding serve serve_queue
serve_refines [] v = refl
serve_refines (push x ∷ calls) {r} v = ground (
  arith,
  serve_refines calls (ringbuf_push-IsValid x v),
  ringbuf_push_refines x v,
  capacity-push r x,
)
serve_refines (pop ∷ calls) {r} v =
    ground
      (arith, serve_refines calls (ringbuf_pop-IsValid v), ringbuf_pop_refines v, capacity-pop r)
serve_refines (peek ∷ calls) {r} v = ground (arith, serve_refines calls v, peek_refines v)

-- A ring that `ringbuf_create` made answers every sequence of pushes, pops and peeks as the
-- empty queue of at most `size` elements does, for sizes of 1 up to 2 ^ 63 - 1.
pub serve-create :
    (size : ℕ) (storage : List ℕ) (calls : List Call) {r : Ringbuf}
    → 0 < size
    → size < 2 ^ 63
    → length storage ≡ size
    → ringbuf_create size true (some storage) ≡ some r
    → serve r calls ≡ serve_queue size [] calls
unfolding ringbuf_create
serve-create size storage calls {r} pos small len e =
    let fresh : Ringbuf = record {
      size = 0;
      capacity = size;
      read_ptr = no_ptr;
      write_ptr = no_ptr;
      slots = storage;
    } in
    let made : fresh ≡ r = cc in
    let valid : IsValid fresh = record {
      storage = len;
      some_room = pos;
      small = small;
      pointers = inl (refl, refl, refl);
    } in
    rw (← made) (serve_refines calls valid)
