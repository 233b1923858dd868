-- ===== src/Lib.antt =====
-- OrdOS is a 32-bit x86 hobby kernel. This library models the parts of it that carry state and logic
-- as functions over explicit state, written after the C code function by function, and proves what
-- makes them correct. Paths are given from the repository's root.
--
-- Files and what they model:
--   ListHead    lib/list_head.c: circular doubly linked lists on a heap of `next` and `prev` fields.
--   Str         lib/string.c: strings that end with 0, and memory blocks.
--   Num         lib/types.c: numbers as text, signed and unsigned.
--   Bitmap      kernel/utils/bitmap.c: bits in bytes and the first-fit search for a run.
--   Pid         kernel/task/pid.c: process ids from a bitmap of 1024 bits.
--   Intr        the interrupt flag: kernel/interrupt/interrupt.c, include/kernel/task/sync.h.
--   Sched       kernel/task/task.c: the ready queue, the timer, yield, park, unpark and sleep.
--   Spin        the spin lock of kernel/task/sync.c, with any number of interleaved threads.
--   Sync        the mutex and the semaphore of kernel/task/sync.c, on top of Sched.
--   Slab        kernel/memory/sslab/cache.c: the free list inside a page of objects; the size classes of
--               include/kernel/memory/sslab/sslab.h.
--   Sslab       kernel/memory/sslab/sslab.c and the taking and giving back of pages in
--               kernel/memory/sslab/cache.c: allocators of one size, `kmalloc` and `kfree`.
--   Buddy       kernel/memory/buddy: blocks of pages, taken and given back, split and merged.
--   Vpage       kernel/memory/vpage.c: linking a page into the two-level table of a task.
--   TaskMem     kernel/task/task.c: the stack and the directory of page tables of a new task.
--   KernelMap   kernel/memory/vpage.c: the page table of the kernel, set up at boot.
--   Console     kernel/utils/print.c: the text screen, the cursor and printing with interrupts off.
--   Format      kernel/utils/print.c: `kvsprint` and the functions that print what it writes.
--   Locked      kernel/utils/print.c: printing under the mutex of the console.
--   Syscall     kernel/interrupt/syscall.c and lib/syscall.c: the dispatch of system calls.
--   User        user/print.c: formatted output of user programs.
--   Mkfs        scripts/mkfs.c: the layout of a new file system and what is written to the disk for it.
--   Boot        kernel/memory/e820.c and kernel/memory/bootmem.c: the memory map, the pages that are
--               marked and the allocation of memory at boot.
--   Partition   the look-ups of kernel/device/disk/partition.c and of the disks in
--               kernel/device/disk/disk.c.
--   Gdt         include/kernel/memory/gdt.h and kernel/memory/gdt.c: segment descriptors and their
--               table, with what kernel/memory/vpage.c and kernel/task/tss.c write into it.
--   Idt         kernel/interrupt/idt.c, kernel/interrupt/interrupt.c, kernel/interrupt/exception.c and
--               the vectors of kernel/interrupt/vecs.S: the gates of the interrupt table, the table of
--               handlers and the dispatch of an interrupt.
--   Base        tests, lists, 32-bit words and well-founded order that the others share.
--
-- How they interact. A lock parks its caller and wakes its waiters through the scheduler, so its
-- functions take and return the state of both. The scheduler keeps its queue in a `list_head` ring;
-- ListHead proves that the ring operations act as list operations on the entries, and the other files
-- work on those lists. The pool of ids is a bitmap behind a spin lock, and so are the lists of the
-- buddy allocator, whose rings Buddy takes as the lists that ListHead shows them to be. Printing turns
-- interrupts off through Intr and reads its string as Str does. The `print` of a user program writes the
-- text with the loop that the kernel uses too, into a buffer of its own, and the system call `write`
-- puts it on the screen through `kputs_nint`. Sslab takes the pages of Slab from Buddy and
-- gives them back, and so does Vpage with the pages that it links; TaskMem builds the directory that Vpage
-- links them into. `kputs` and what prints with it take the mutex of Sync, which parks the caller through
-- Sched when another task prints. A system call without a function prints through `kprintln_nint`.
--
-- Conventions. An integer is the natural number of its bit pattern, and wrap-around is written out
-- (`add32`, `sub32`, `u8`). `NPOS` is the pattern of -1. A function that updates an object returns the
-- new object. `Option` stands for a fault, a failed assertion of the DEBUG build or a loop that does not
-- end; each theorem about such a function says that it returns. The loops of `bitmap_find` run on fuel,
-- one round more than there are bits, and `list_find` on any fuel above the number of entries; both are
-- proved to be enough. The loops of the buddy allocator recurse on the orders that are left, those of
-- the screen on the cells that are left, the loops that mark pages at boot run on one round more than
-- there are pages, and the loop of `kputs_nint` on fuel, for which any number above the length of the
-- string is proved to be enough. Formatted output takes two numbers: `rounds`, more than the characters of
-- the format, and `fuel`, more than those of the text. The functions of lib/string.c that stop at a 0
-- byte take fuel as an argument, and any number above the length of the string is enough; `utoa` and
-- `itoa` run on 33 rounds, one more than the
-- 32 halvings that a number allows, and `sslab_size_to_order` on 33, one more than `base` has bits. The
-- objects of a slab page are, in Slab, offsets in the page, at most 4095, and the loop that links them runs on
-- 4096 rounds. `_asm_task_switch_to` exchanges stacks and registers; the model follows the
-- state up to that point, and what a call does when its task runs again is the Boolean that it returns,
-- which is the argument of its `intr_unlock`.
--
-- Mkfs takes the functions that read and write a file of the host as a parameter, with the laws that a
-- write is read back and changes no block before it, and the memory that `malloc` gives, or its failure,
-- as arguments.
--
-- The VGA memory is the array of its cells, and the cursor the two bytes that the controller keeps.
--
-- The arguments of a formatted call are the list of their words, and a missing one is a fault; the
-- address of a buffer on the stack is an argument. What a system call logs is printed on the screen, at
-- the default log level, and the addresses of the literals of its messages are arguments (`Kernel`).
--
-- A write behind the end of a buffer that `malloc` gave is `none` in Mkfs: nothing is said of what the
-- program does after it.
--
-- The runs of Sched/Timer are made of whole calls, which run with the interrupts off. Not among them are
-- the creation of a task and the calls of Sync interrupted halfway: `mutex_lock` and `semaphore_down` link
-- the node of their task into a wait queue before `task_park`, and an interrupt between the two links it
-- into the ready queue as well.
--
-- Not modelled: the boot code and the context switch (assembly), port input and output, and the log
-- messages of functions other than the system calls, which are hardware or output; and the setting up of
-- the memory zones, the transfer from and to disks and the scan for partitions, the file system in the
-- kernel, and the creation of tasks apart from their pages, which need models of their own.
pub mod Base
pub mod ListHead
pub mod Str
pub mod Locked
pub mod Num
pub mod Bitmap
pub mod Intr
pub mod Sched
pub mod Spin
pub mod Partition
pub mod Pid
pub mod Gdt
pub mod Idt
pub mod Console
pub mod Format
pub mod Syscall
pub mod User
pub mod Boot
pub mod Buddy
pub mod Slab
pub mod Sslab
pub mod Vpage
pub mod TaskMem
pub mod KernelMap
pub mod Mkfs
pub mod Sync
