-- ===== src/Utils/Ringbuf.antt =====
-- kernel/src/utils/ringbuf.c: a ring of elements between a read and a write pointer, both
-- (size_t) -1 while the ring is empty. An element stands for its `elem_size` bytes, read or written
-- whole by memcpy. Each operation is one step, as where one processor uses the
-- ring at a time: ringbuf_push tests for a full ring before it takes the ring's lock, so two pushes at once can
-- both pass the test for the last place.
pub mod Inv
pub mod Refine
pub mod Tail
pub mod Run
mod Tests
use piggy_os.Common.{
  ℕ, ◌+◌, ◌-◌, ◌^◌, ◌≡◌, Bool, true, false, ◌&&◌, ◌||◌, Option, none, some, List, get_elem?, set,
  ◌==◌, if◌then◌else◌, add64, sub64,
}

-- `ringbuf_t`
pub record Ringbuf : Type 0 where
  pub size : ℕ
  pub capacity : ℕ
  pub read_ptr : ℕ
  pub write_ptr : ℕ
  pub slots : List ℕ

-- (size_t) -1
abbrev pub no_ptr : ℕ
no_ptr = 2 ^ 64 - 1

-- `ringbuf_create`; the arguments are what the two calls of `kmalloc` give: whether there is
-- memory for the header, and the elements of the storage.
unfoldable pub ringbuf_create : ℕ → Bool → Option (List ℕ) → Option Ringbuf
ringbuf_create size false storage = none
ringbuf_create size true none = none
ringbuf_create size true (some storage) =
    some
      (record { size = 0; capacity = size; read_ptr = no_ptr; write_ptr = no_ptr; slots = storage })

-- The test of `ringbuf_push` for a full ring.
unfoldable pub is_full : Ringbuf → Bool
is_full r =
    r.read_ptr == 0 && r.write_ptr == sub64 r.capacity 1 || r.read_ptr == add64 r.write_ptr 1

-- A pointer moved on by one, round the end of the storage.
unfoldable pub advance : ℕ → ℕ → ℕ
advance capacity ptr = if ptr == sub64 capacity 1 then 0 else add64 ptr 1

-- `ringbuf_push`
unfoldable pub ringbuf_push : Ringbuf → ℕ → Bool × Ringbuf
unfolding is_full advance
ringbuf_push r x =
    let empty = r.read_ptr == no_ptr in
    let write_ptr = if empty then 0 else advance r.capacity r.write_ptr in
    if is_full r then (false, r) else (
      true,
      record r {
        size = add64 r.size 1;
        read_ptr = if empty then 0 else r.read_ptr;
        write_ptr = write_ptr;
        slots = set r.slots write_ptr x;
      },
    )

-- `ringbuf_pop`; the option is what is copied out.
unfoldable pub ringbuf_pop : Ringbuf → Bool × Option ℕ × Ringbuf
unfolding advance
ringbuf_pop r =
    let last = r.read_ptr == r.write_ptr in
    if r.read_ptr == no_ptr then (false, none, r) else (
      true,
      get_elem? r.slots r.read_ptr,
      record r {
        size = sub64 r.size 1;
        read_ptr = if last then no_ptr else advance r.capacity r.read_ptr;
        write_ptr = if last then no_ptr else r.write_ptr;
      },
    )

-- `ringbuf_pop_tail`: the write pointer goes back before the element is copied out.
unfoldable pub ringbuf_pop_tail : Ringbuf → Bool × Option ℕ × Ringbuf
ringbuf_pop_tail r =
    let write_ptr = if r.write_ptr == 0 then sub64 r.capacity 1 else sub64 r.write_ptr 1 in
    if r.read_ptr == r.write_ptr then (false, none, r) else (
      true,
      get_elem? r.slots write_ptr,
      record r { size = sub64 r.size 1; write_ptr = write_ptr },
    )

-- `ringbuf_peek`
unfoldable pub ringbuf_peek : Ringbuf → Bool × Option ℕ
ringbuf_peek r =
    if r.read_ptr == no_ptr then (false, none) else (true, get_elem? r.slots r.read_ptr)
