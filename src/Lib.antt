-- ===== src/Lib.antt =====
-- A verification library for piggy-os, a small x86-64 kernel with its own C library.
--
-- The kernel (kernel/) runs processes over a physical and a virtual memory manager, a slab
-- allocator, a file tree with descriptors, and drivers; the C library (libc/) and the programs
-- (userspace/) run on its system calls. Each module below follows one source file, function by
-- function, under the source's names:
--
--   Utils.Bitmap     kernel/include/utils/macros.h     bits of a byte array, rounding
--   Utils.Ringbuf    kernel/src/utils/ringbuf.c        the ring between two pointers
--   Utils.Str        kernel/src/utils/string.c         comparison of strings
--   Utils.Hashmap    kernel/src/utils/hashmap.c        chained buckets of string keys
--   Utils.Move       kernel/src/utils/string.c         memcpy and memmove
--   Utils.Vector     kernel/src/utils/vector.c         an array of pointers
--   Mem.Pmm          kernel/src/mem/pmm.c              physical pages, next fit over a bitmap
--   Mem.Vmm          kernel/src/mem/vmm.c              page tables of four or five levels
--   Mem.Slab         kernel/src/mem/slab.c             objects of fixed sizes, kmalloc
--   Sys.Time         kernel/src/sys/time.c             clocks and the arithmetic of times
--   Sys.Sched        kernel/src/sys/sched.c            thread lists and the choice of a thread
--   Sys.Process      kernel/src/sys/process.c          the break, creation, exit and wait of processes
--   Sys.Files        kernel/src/sys/syscalls/sc_file.c the system calls on files
--   Dev.Cmos         kernel/src/dev/cmos.c             the date of the real-time clock
--   Dev.Tty          kernel/src/dev/char/tty/tty.c     a terminal's input and its lines
--   Fs.Fd            kernel/src/fs/fd.c                file descriptors and their tables
--   Fs.Vfs           kernel/src/fs/vfs.c              the tree of files, paths and new nodes
--   Fs.Tmpfs         kernel/src/fs/tmpfs.c             files in memory
--   Libc.Malloc      libc/src/stdlib/mallocfree.c      the heap below the program break
--   Libc.Strtox      libc/src/stdlib/strtox.c          reading numbers
--   Libc.Printf      libc/src/stdio/stdio_internal.c  formatted output
--   Libc.Gmtime      libc/src/time/gmtime_r.c, timegm.c  dates from times and back
--
-- A struct is a record, static variables are a record that the operations take and return, and a
-- pointer is an address in a store (Fs.Fd, Fs.Vfs, Sys.Sched, Mem.Vmm, Sys.Process) or the list
-- that it heads. An operation that holds a lock from its first to its last access is one step;
-- interleavings of several processors are not modelled. Words wrap as `% 2 ^ w` where the
-- source's value can wrap; where a comment says that it cannot, the sum is plain. A read or write
-- that would leave an array is outside the model, and the invariants rule it out. `kpanic` and
-- NULL are `none`.
--
-- Loops over a range recur on the rounds left. The scan of the page bitmap runs on fuel, the
-- distance from the index to the limit, which is enough since each round moves the index by one.
-- The walks of Sys.Sched over a list run on a bound of the lists' lengths, which its record of
-- well-formed lists holds. The capacity of a file of Fs.Tmpfs is doubled at most 64 times, which
-- reaches every size below 2^62. The loop of Dev.Tty over its input has a round for each
-- character in it and one more. A wait of Sys.Process runs on fuel, the number of times that it
-- looks; the theorems say which number is enough, and that none is for the wait for any child.
-- The loop of Libc.Printf over a format and that of Fs.Vfs over a path take a byte a round at
-- least. Links and mount points of Fs.Vfs are followed as far as an argument says, since a chain
-- of them may be a circle. The year loop of Libc.Gmtime runs on the seconds left, of which each
-- round takes a year. The loop of its normalize_entries over the months has a round for each day.
--
-- Outside Mem.Slab the memory that `kmalloc` and `krealloc` return, and what a port or a register
-- reads, are arguments. Not modelled: code that only talks to hardware (interrupt tables,
-- controllers, the boot sequence), assembly, logging, and the system calls' copying between
-- address spaces. Sys.Files takes the functions of a node and the results of the file tree as
-- arguments, and a result for whether a pointer is accepted.
pub mod Common
pub mod Utils
pub mod Mem
pub mod Sys
pub mod Dev
pub mod Fs
pub mod Libc
