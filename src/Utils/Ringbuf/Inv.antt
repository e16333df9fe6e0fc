-- ===== src/Utils/Ringbuf/Inv.antt =====
-- The invariant of a ring, and the queue of elements that it holds.
use piggy_os.Common.{
  ℕ, ◌+◌, ◌^◌, ◌<◌, ◌≤◌, ◌≡◌, ◌⊎◌, length, length-set, ◌==◌, if◌then◌else◌, arith,
}
use piggy_os.Utils.Ringbuf.{Ringbuf, no_ptr, ringbuf_push, ringbuf_pop, ringbuf_pop_tail, advance}

-- A ring is empty, with both pointers at -1, or its `size` elements run from the read pointer
-- round to the write pointer.
pub record IsValid (r : Ringbuf) : Type 0 where
  pub storage : length r.slots ≡ r.capacity
  pub some_room : 0 < r.capacity
  pub small : r.capacity < 2 ^ 63
  pub pointers :
      (r.size ≡ 0) × (r.read_ptr ≡ no_ptr) × (r.write_ptr ≡ no_ptr)
      ⊎ (0 < r.size)
        × (r.size ≤ r.capacity)
        × (r.read_ptr < r.capacity)
        × (r.write_ptr < r.capacity)
        × ((r.write_ptr + 1 ≡ r.read_ptr + r.size)
            ⊎ (r.write_ptr + 1 + r.capacity ≡ r.read_ptr + r.size))

pub ringbuf_push-IsValid : {r : Ringbuf} (x : ℕ) → IsValid r → IsValid (ringbuf_push r x).1
unfolding ringbuf_push
ringbuf_push-IsValid {r} x v = ground (
  arith,
  length-set r.slots (if r.read_ptr == no_ptr then 0 else advance r.capacity r.write_ptr) x,
)

pub ringbuf_pop-IsValid : {r : Ringbuf} → IsValid r → IsValid (ringbuf_pop r).2
unfolding ringbuf_pop
ringbuf_pop-IsValid v = ground arith

pub ringbuf_pop_tail-IsValid : {r : Ringbuf} → IsValid r → IsValid (ringbuf_pop_tail r).2
unfolding ringbuf_pop_tail
ringbuf_pop_tail-IsValid v = ground arith
