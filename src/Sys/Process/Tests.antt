-- ===== src/Sys/Process/Tests.antt =====
-- A process with an empty heap, a fork of it and its wait, and the theorems at them.
use piggy_os.Common.{
  ℕ, ◌≤◌, ◌≡◌, refl, true, false, none, some, [], ◌∷◌, ◌==◌, if◌then◌else◌, arith,
}
use piggy_os.Common.Int.{pos, negsuc}
use piggy_os.Fs.Fd.{eagain}
use piggy_os.Fs.Fd.Sample.{no_files}
use piggy_os.Mem.Pmm.{Pmm, pmm_alloc, alloc_first_fit_from_last, scan, count_used}
use piggy_os.Utils.Bitmap.{bitmap_test, bitmap_set}
use piggy_os.Utils.Bitmap.Range.{set_run}
use piggy_os.Mem.Vmm.Sample.{pagemap, empty, empty-IsValid}
use piggy_os.Mem.Vmm.{vmm_get_page_mapping, descend}
use piggy_os.Utils.Vector.{Vector}
use piggy_os.Sys.Process.{
  process_running, process_waiting, process_zombie, Process, Processes, Allocated, process_create,
  create_with, create_fork, end_fork, finish_create, dup_fds, process_sbrk,
}
use piggy_os.Sys.Process.Heap.{heap_page}
use piggy_os.Sys.Process.Grow.{HeapValid, Affords, more, Moves}
use piggy_os.Sys.Process.Sbrk.{process_sbrk_lem}
use piggy_os.Sys.Process.Fork.{process_sbrk-process_create}
use piggy_os.Sys.Process.Wait.{
  Family, exited, wait_error, process_wait, process_wait_lem, process_wait-any,
}

abbrev no_pointers : Vector
no_pointers = record { elem_size = 8; size = 0; capacity = 4; slots = λ i. 0 }

-- A process with an empty heap
abbrev first : Process
first = record {
  pid = 2;
  state = process_running;
  status = pos 0;
  pagemap = pagemap;
  thread_stack_top = 0x70000000000;
  brk = 0x60000000000;
  brk_next_unallocated_page_begin = 0x60000000000;
  cwd = 1;
  children = no_pointers;
  threads = no_pointers;
}

empty_unmapped : (v : ℕ) → vmm_get_page_mapping pagemap v empty ≡ none
unfolding vmm_get_page_mapping descend
empty_unmapped v = refl

first-HeapValid : HeapValid 0x70000000000 first empty
first-HeapValid = record {
  pages = 0;
  heap = record {
    valid = empty-IsValid;
    under = omega arith;
    mapped = λ k l. absurd (omega arith);
    unmapped = λ k l i. empty_unmapped (heap_page k);
    inside = omega arith;
  };
  next = refl;
  low = omega arith;
  high = omega arith;
  tight = omega arith;
}

-- The page 3 is the next one.
-- The pages below the seventh are in use, among them those of the page map and of its tables to come.
abbrev physical : Pmm
physical = record {
  bitmap = 0b0011_1111 ∷ 0b1111_1111 ∷ [];
  used_pages = 14;
  last_used_index = 6;
  highest_page_index = 15;
}

abbrev physical_after : Pmm
physical_after = record {
  bitmap = 0b0111_1111 ∷ 0b1111_1111 ∷ [];
  used_pages = 15;
  last_used_index = 7;
  highest_page_index = 15;
}

first-Affords : Affords first 100 physical
unfolding pmm_alloc alloc_first_fit_from_last scan bitmap_test count_used set_run bitmap_set
first-Affords = more 24576 physical_after refl (omega arith)

process_sbrk_lem_example :
    Moves first 0x60000000064 0x70000000000 empty (process_sbrk first (pos 100) physical empty)
process_sbrk_lem_example =
    process_sbrk_lem first (pos 100) 0x60000000064 0x70000000000 physical empty first-HeapValid
      (omega arith) (omega arith) (omega arith) (omega arith) (omega arith) (omega arith)
      first-Affords

abbrev processes : Processes
processes = record {
  process = λ a. first;
  running_processes = no_pointers;
  next_pid = 3;
  files = no_files;
}

abbrev allocated : Allocated
allocated = record {
  object = some 700;
  children = some no_pointers;
  threads = some no_pointers;
  forked = some pagemap;
  descriptor = λ i. none;
}

forked :
    process_create (some 600) pagemap 1 allocated processes
    ≡ (some 700, (process_create (some 600) pagemap 1 allocated processes).1)
unfolding process_create create_with create_fork dup_fds end_fork finish_create
forked = refl

process_sbrk-process_create_example :
    let child = (process_create (some 600) pagemap 1 allocated processes).1.process 700 in
    process_sbrk child (pos 100) physical empty
    ≡ some (some 0x60000000000, record child { brk = 0x60000000064 }, physical, empty)
process_sbrk-process_create_example =
    process_sbrk-process_create 600 700 pagemap 1 allocated processes
      (process_create (some 600) pagemap 1 allocated processes).1 99 physical empty forked
      (omega arith) (omega arith) (omega arith)

-- A child that is a zombie after three yields.
abbrev family : ℕ → Family
family k = record {
  process = λ a.
      if k == 3
      then record first { pid = 9; state = process_zombie; status = pos 4 }
      else record first { pid = 9 };
  children = record { elem_size = 8; size = 1; capacity = 4; slots = λ i. 800 };
}

process_wait_lem_example :
    (time : ℕ) × (time ≤ 3)
    × (((family time).process 800).state ≡ process_zombie)
    × (process_wait 4 family (pos 9) false
        ≡ some (
          process_running,
          exited ((family time).process 800).pid ((family time).process 800).status,
        ))
process_wait_lem_example =
    process_wait_lem 4 family 8 0 3 (omega arith) refl (λ l b. absurd (omega arith)) refl
      (omega arith)

process_wait-any_example :
    (process_wait 4 family (negsuc 0) false ≡ none)
    × (process_wait 5 family (negsuc 0) true ≡ some (process_waiting, wait_error eagain))
process_wait-any_example = process_wait-any 4 family (λ i. omega arith)
