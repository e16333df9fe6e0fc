-- ===== src/Utils/Ringbuf/Tests.antt =====
-- Runs of a ring of three elements, and the theorems at concrete states.
use piggy_os.Common.{◌≡◌, refl, true, false, none, some, List, [], ◌∷◌, arith}
use piggy_os.Utils.Ringbuf.{
  Ringbuf, no_ptr, ringbuf_create, ringbuf_push, ringbuf_pop, ringbuf_pop_tail, ringbuf_peek,
}
use piggy_os.Utils.Ringbuf.Inv.{IsValid}
use piggy_os.Utils.Ringbuf.Run.{Call, push, pop, peek, serve, serve_queue, serve-create}

abbrev fresh : Ringbuf
fresh = record {
  size = 0;
  capacity = 3;
  read_ptr = no_ptr;
  write_ptr = no_ptr;
  slots = 0 ∷ 0 ∷ 0 ∷ [];
}

-- 7, then 8, then 9 round the end of the storage
abbrev wrapped : Ringbuf
wrapped = record { size = 3; capacity = 3; read_ptr = 1; write_ptr = 0; slots = 9 ∷ 7 ∷ 8 ∷ [] }

abbrev script : List Call
script = push 1 ∷ push 2 ∷ push 3 ∷ push 4 ∷ pop ∷ push 5 ∷ peek ∷ pop ∷ pop ∷ pop ∷ pop ∷ []

serve-script :
    serve fresh script
    ≡ (true, none)
      ∷ (true, none)
      ∷ (true, none)
      ∷ (false, none)
      ∷ (true, some 1)
      ∷ (true, none)
      ∷ (true, some 2)
      ∷ (true, some 2)
      ∷ (true, some 3)
      ∷ (true, some 5)
      ∷ (false, none)
      ∷ []
unfolding serve ringbuf_push ringbuf_pop ringbuf_peek
serve-script = refl

serve-create_example : serve fresh script ≡ serve_queue 3 [] script
unfolding ringbuf_create
serve-create_example = serve-create 3 (0 ∷ 0 ∷ 0 ∷ []) script (omega arith) (omega arith) refl refl

wrapped-IsValid : IsValid wrapped
wrapped-IsValid = record {
  storage = refl;
  some_room = omega arith;
  small = omega arith;
  pointers = omega arith;
}

pop_tail_wrapped : (ringbuf_pop_tail wrapped).1 ≡ some 8
unfolding ringbuf_pop_tail
pop_tail_wrapped = refl
