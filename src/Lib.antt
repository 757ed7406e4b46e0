-- ===== src/Lib.antt =====
-- Pintos: a teaching operating system for the 80x86. This library models parts of its kernel, in C,
-- as functions on explicit states, and proves properties of them.
--
-- Parts, and the files that model them (paths from the root of the repository):
--   * Base: tests on numbers, lists as arrays, `Option` as code that may panic, the bits of words.
--   * Bitmap: pintos/lib/kernel/bitmap.c, arrays of bits in 32-bit elements. The swap area keeps one.
--   * Vm: pintos/vm. `Vm.State` is the state: frame table, clock hand, supplemental pages, page table
--     entries, physical memory and swap area. `Vm.Frame` is pin, unpin and free of frame.c, `Vm.Clock`
--     its `select_victim`, `Vm.Swap` all of swap.c, `Vm.Pagedir` the entries of pagedir.c. `Vm.Evict` is
--     eviction and allocation of frame.c, `Vm.Claim` the claim of a page and `Vm.Page` the table of
--     page.c. A claim takes a frame from `Vm.Evict`, which asks the clock for a victim and writes it
--     to the swap area; it reads the content back from there, or from a file.
--   * Process: pintos/userprog. `Process.Fault` is the decisions of the page fault handler of
--     exception.c, `Process.Syscall` syscall.c: the checks of pointers, the table of open files, the
--     dispatch; `Process.Load` the segments of an executable in process.c, `Process.Arguments` the
--     arguments on its stack, by the functions of `Clib.Strings`. The operations of other components
--     that the first three call are interfaces.
--   * Structures: `Structures.LinkedList` is pintos/lib/kernel/list.c, on the pointers in memory, with
--     `Structures.LinkedList.Sort` for its sort and `Structures.LinkedList.Loops` for the walks along a
--     list; `Structures.HashTable` is pintos/lib/kernel/hash.c. Its buckets are sequences, which is what
--     the lists promise.
--   * Threads: pintos/threads. `Threads.Schedule` is the scheduler of thread.c, `Threads.Synch` the
--     semaphores and locks of synch.c, `Threads.Step` the kernel that threads make of them: a step is
--     one operation, or the part of one that runs with interrupts off. `Threads.Palloc` is the page
--     allocator of palloc.c, whose pools keep a `Bitmap` each.
--   * Filesys: pintos/filesys. `Filesys.Inode` is the reads, the writes and the counts of inode.c,
--     `Filesys.File` the open files of file.c, which share inodes; `Filesys.File.Step` the runs of
--     calls on them. `Filesys.FreeMap` is allocation and release of free-map.c, on `Bitmap`.
--   * Devices: `Devices.Intq` is the queue of bytes of pintos/devices/intq.c.
--   * Clib: `Clib.Strings` is pintos/lib/string.c, on a memory of bytes, and `Clib.Stdlib` the
--     binary search of pintos/lib/stdlib.c.
--
-- A function of the source is a function of the same name. It takes the state and returns the new
-- one beside its result. `none` is a failed ASSERT, a PANIC or a fault. What `malloc` and the page
-- allocator return is an argument; a page that goes back to the page allocator is filled as
-- `palloc_free_multiple` fills it. A pointer is a number. The arithmetic of `size_t` wraps at
-- 2 ^ 32 where a sum can leave the word, and the stack limit of exception.c compares a signed word.
-- Whether the kernel can read a word of user memory whose first byte `check_ptr` has accepted is an
-- answer of the interface of `Process.Syscall`: where it cannot, the fault ends the process.
--
-- Loops over a range recur on the rounds that are left. `select_victim` makes at most twice as many
-- rounds as the table has frames, as in the source. The loops over the pages of a buffer make at
-- most two rounds more than the buffer has whole pages: it touches no more pages than that. The loops
-- of `inode_read_at` and `inode_write_at` make at most one round for a byte, that of `load_segment`
-- one for a page and one more. A loop along a list, and binary search, take more fuel than
-- there are elements, that of `rehash` more than its first bucket count,
-- and a loop to the end of a string more than the string has bytes.
--
-- Not modelled: the assertions that a page directory is not that of the kernel; outside of
-- `Threads`, locks and the interrupt level around one operation, and so what other threads do while
-- an operation sleeps; the hardware; the devices but that queue; of the lists their reversal,
-- `list_unique` and walks in reverse, of the hash table its iterator and its end; the start of the
-- page pools and malloc.c; formatted output, the heap sort and the rest of the C library; of the
-- file system, directories, the creation of inodes, the release of the sectors of a removed one, and
-- the file of the free map; the start, wait and end of processes; the user library; the tests.
pub mod Base
pub mod Bitmap
pub mod Vm
pub mod Process
pub mod Threads
pub mod Filesys
pub mod Structures
pub mod Devices
pub mod Clib
