-- ===== src/Utils/Vector.antt =====
-- kernel/src/utils/vector.c: an array of pointers. `slots` is `data`, the array slot by slot; a slot is 8 bytes.
-- `krealloc` succeeds and keeps the slots.
pub mod Laws
mod Tests
use piggy_os.Common.{
  ℕ, zero, suc, ◌+◌, ◌-◌, ◌*◌, ◌/◌, ◌%◌, Bool, true, false, not, ◌&&◌, Option, none, some, ltb, leb,
  ◌==◌, if◌then◌else◌, sub64, mul64, update,
}

abbrev pub vector_initial_capacity : ℕ
vector_initial_capacity = 4

abbrev pub vector_resize_factor : ℕ
vector_resize_factor = 2

pub record Vector : Type 0 where
  pub elem_size : ℕ
  pub size : ℕ
  pub capacity : ℕ
  pub slots : ℕ → ℕ

-- `vector_create`; the arguments are the memory that the two calls of `kmalloc` give.
unfoldable pub vector_create : ℕ → Bool → Option (ℕ → ℕ) → Option Vector
vector_create elem_size header none = none
vector_create elem_size header (some memory) =
    if header
    then some (record {
      elem_size = elem_size;
      size = 0;
      capacity = vector_initial_capacity;
      slots = memory;
    })
    else none

-- `vector_get`: the slot whose address is returned
unfoldable pub vector_get : Vector → ℕ → Option ℕ
vector_get v index = if leb v.size index then none else some (v.elem_size * index)

-- `vector_set`
unfoldable pub vector_set : Vector → ℕ → ℕ → Bool × Vector
vector_set v index value =
    if leb v.size index
    then (false, v)
    else (true, record v { slots = update v.slots (v.elem_size * index) value })

-- `vector_pop_back`: the slot whose address is returned
unfoldable pub vector_pop_back : Vector → ℕ × Vector
vector_pop_back v = (v.elem_size * v.size, record v { size = sub64 v.size 1 })

-- `memmove(&data[index], &data[index + 1], bytes)`; a slot that is copied in part becomes `part`.
unfoldable pub move_down : ℕ → ℕ → ℕ → (ℕ → ℕ) → ℕ → ℕ
move_down index bytes part slots slot =
    if leb index slot && ltb slot (index + bytes / 8)
    then slots (slot + 1)
    else if slot == index + bytes / 8 && not (bytes % 8 == 0)
    then part
    else slots slot

-- `vector_remove`
unfoldable pub vector_remove : ℕ → Vector → ℕ → Bool × Vector
vector_remove part v index =
    if leb v.size index
    then (false, v)
    else if index == sub64 v.size 1
    then (true, (vector_pop_back v).1)
    else (
      true,
      record v {
        slots = move_down index (sub64 (sub64 (v.elem_size * v.size) index) 1) part v.slots;
        size = sub64 v.size 1;
      },
    )

-- The loop of `vector_remove_by_value`, with `n` rounds left, from `i` on.
unfoldable pub remove_first : ℕ → ℕ → ℕ → Vector → ℕ → Bool × Vector
remove_first zero i part v value = (false, v)
remove_first (suc n) i part v value =
    let rest = remove_first n (i + 1) part v value in
    if v.slots (v.elem_size * i) == value then (true, (vector_remove part v i).1) else rest

-- `vector_remove_by_value`
unfoldable pub vector_remove_by_value : ℕ → Vector → ℕ → Bool × Vector
vector_remove_by_value part v value = remove_first v.size 0 part v value

-- `vector_push_back`
unfoldable pub vector_push_back : Vector → ℕ → Vector
vector_push_back v value = record v {
  capacity = if v.size == v.capacity then mul64 v.capacity vector_resize_factor else v.capacity;
  slots = update v.slots v.size value;
  size = v.size + 1;
}
