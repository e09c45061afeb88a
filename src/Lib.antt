-- ===== src/Lib.antt =====
-- quarkOS is a small 32-bit x86 kernel in C with a user space. This library models the parts of it
-- that keep data structures, and states what each of them promises.
--
-- Parts and files:
--   kernel/include/lib/list.h     Klib/LinkedList: circular doubly linked lists on a heap of nodes.
--       LinkedList/Ring says what a list is, Edit and Count are about the operations.
--   kernel/lib/queue.c            Klib/Queue: the queue of write-back and of the page cache, with a
--       dummy node. `lfQueue_put` is put, `lfQueue_get` is get, and so on. Queue/Fifo.
--   kernel/include/lib/qlib.h, kernel/lib/qlib.c
--                                 Klib/Bits: `fixSize` and `log2`, by which the page allocator finds
--       the order of a request. Bits/Digits, Bits/PowerOfTwo, Bits/Log.
--   kernel/include/lib/rwlock.h   Klib/RwLock: the lock of readers and writers, as a step relation.
--       RwLock/Counts is about one step and RwLock/Exclusion about all runs.
--   kernel/lib/qstring.c          Klib/Strings: copying, comparing and printing in memory.
--       Strings/Memory, Strings/Length, Strings/Equality, Strings/Reverse, Strings/Printing.
--   kernel/lib/time.c, kernel/drivers/cmos.c
--                                 Klib/Calendar: the clock's registers to a time stamp. Calendar/Stamp.
--   kernel/mm/page_alloc.c        Mm/Buddy: the buddy allocator of physical pages; its functions keep
--       their names, except that alloc_page and free_page are `__alloc_page` and `__free_page`, and
--       alloc_address and free_address are `alloc_page` and `free_page`, which take addresses.
--       Buddy/Invariant is well-formedness; Take, Split, Alloc and Request are about allocation, Cover,
--       Merge, Loose, Coalesce and Free about release, RoundTrip about both, and Address about physical addresses.
--   kernel/mm/slab.c              Mm/Slab: slabs of small chunks; list_alloc and list_free are
--       `__slab_alloc` and `__slab_free`. Slab/Invariant sees the slabs as the chunks that are free and
--       the chunks that are handed out; Fill, Take, Alloc, Free and Request are about the operations,
--       and Apart about chunks that do not overlap.
--   kernel/task/schedule.c, and of kernel/task/fork.c and kernel/task/timer.c what concerns it
--                                 Task/Scheduler: the feedback scheduler. Scheduler/Invariant is
--       well-formedness; Reset, Choice, Switch, Kept and Schedule are about the operations, Waiting and
--       Waiting/Events about how long a task waits.
--   kernel/task/timer.c           Task/Timer: the timers and the clock interrupt, which wakes tasks of
--       the scheduler. Timer/Pool.
--   kernel/task/fork.c            Task/Pids: the numbers of processes. Pids/Alloc.
--   kernel/fs/hash.c              Fs/FdTable: descriptors to inodes and back. FdTable/Probe is about
--       the probe sequence, Invariant, Alloc, Free and Progress about the operations.
--   kernel/fs/ext2/block.c        Fs/Ext2/Bitmap and Fs/Ext2/Layers: the block bitmap, and the place
--       of a block number in the trees of pointer blocks.
--   kernel/fs/ext2/dir.c          Fs/Ext2/Directory: the entries of a directory block. create_loop,
--       find_entry_loop and remove_loop are the loops of `create_dir_entry`, `find_entry_disk` and
--       `remove_from_parent` over one block. Directory/Tiles says what such a block is, Merge, Create and
--       Remove are about the operations.
--
--   kernel/mm/block_alloc.c       Mm/Blocks: the allocator of memory before paging. Blocks/First.
--   kernel/mm/vm.c                Mm/Kvm: the kernel's page table. get_page_table_entry is
--       `getPageTableEntry`, and an entry goes by its index. Kvm/Maps is about entries, Kvm/Translate
--       about addresses.
--   kernel/mm/uvm.c               Mm/Uvm: the tables of a process, in two levels. Uvm/View sees them as one
--       map from addresses to entries, Uvm/Areas is about mapping an area and Uvm/Translate about
--       addresses. calloc_table is `kcalloc`, whose pages are an argument.
--   kernel/drivers/vga.c          Drivers/Screen: the text screen. Screen/Cells is about filling and
--       moving cells, Screen/Cursor about writing characters; clean_cells is `__vga_clean`,
--       clean_cell `__vga_cleanc`, cursor_row_up and cursor_row_down are `cursor_up` and `cursor_down`.
--   kernel/terminal.c, kernel/include/drivers/keyboard.h
--                                 Drivers/Keyboard: scan codes and the ring of typed characters, with
--       Keyboard/Codes for the tables, Keyboard/Ring and Keyboard/Typing about them; and
--       Drivers/Terminal: printing, with Terminal/Numbers about it.
--   userspace/malloc.c            User/Malloc: the heap of a process. Malloc/Chunks sees it as a list of
--       chunks, Malloc/Fit is about `malloc` and Malloc/Join about `free`.
--
-- How they interact: the page allocator keeps its free blocks on the circular lists and rounds by
-- `fixSize` and `log2`; it is modelled over lists of page indices in place of linked nodes. The
-- slab allocator picks its lists by `fixSize` and `log2` too, and takes the pages that the page
-- allocator has yielded as arguments. The queues of the scheduler are the circular lists, as lists
-- of tasks, and the clock interrupt wakes the tasks of expired timers and runs down the current
-- task's slice. The block bitmap uses `set_bit` and `clear_bit` of qlib.h. The terminal writes the
-- numbers of `utoa` and `hex` to the screen, and keys move its cursor. The other parts stand alone.
-- Members has the lemmas on lists without repetitions, and Prelude what all files share.
--
-- Conventions: numbers are natural numbers, and the wrap-around of 8, 16 and 32 bits is written out
-- where a value can reach it. A pointer is its address or its index, and NULL is 0. Stateful
-- functions take and return their state. `assertk` is Option's `none`: the kernel panics. But for
-- Klib/RwLock, a lock is not a part of the state: each operation runs alone, as its critical
-- section, and the scheduler has one processor. Every address that the scheduler is given is that of a
-- control block: the assertions of `sched_task_add` and of `tcb_entry` that a task is not NULL, is
-- aligned and has the magic of a task are not part of the model. A slab's page keeps its magic,
-- and an address of no page is that of a page that is no slab.
--
-- Bounds and fuel: the loops over orders, probes, descriptors and bitmap bytes have as many rounds
-- as the source's bounds give. `log2` has 16 rounds, as many as its argument has bits, and
-- `get_clear_bit` 9 for a byte. The loops over a directory block have one round more than it has
-- bytes. `list_cnt` and the loops over strings are given a number of rounds, which their theorems
-- say is enough. The loops over page tables and strings of the terminal are given their rounds too;
-- `printfk` has one round more than its format has characters. Numbers are printed in at most 20
-- digits, as many as a 64-bit value has.
--
-- Not modelled: devices, interrupts, descriptor tables, boot and loading, which are instructions
-- and memory of the machine; the recycling of slabs, unmapping and copying the page tables of
-- processes, the other locks, inodes, the file system's upper layers and the rest of user space.
pub mod Prelude
pub mod Members
pub mod Klib
pub mod Fs
pub mod Mm
pub mod Task
pub mod Drivers
pub mod User
