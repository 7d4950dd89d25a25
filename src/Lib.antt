-- ===== src/Lib.antt =====
-- A verification library for the kernel of SGOS, a multitasking system for 32-bit x86 machines.
-- Paths are from the repository's root.
--
-- The parts and the files that model them:
--
-- Dll, Dll/Links, Dll/Splice: doubly linked nodes on a heap of addresses. The kernel's lists all
--   have this shape; `Links` says what a segment stands for, and `Splice` how the guarded pointer
--   writes of the code insert and remove a node.
-- Queue: sgos2/kernel/lib/kqueue.c. `push_back` is RtlPushBackQueue, `pop_front` RtlPopFrontQueue,
--   and so on. Semaphores and message boxes keep their waiters and messages in such queues.
-- Frames: the first half of sgos2/kernel/mm/physical.c, the reference counts of physical pages.
--   `get_page` is MmGetPhysicalPage, `free_page` MmFreePhysicalPage.
-- Paging: sgos2/kernel/arch/i386/mmu/map.c, page directories and page tables in physical memory.
--   `map_one` is ArMapOnePage, `query` ArQueryPageInformation. `IsDirectory` of Paging/Translate says
--   that the tables of a directory are pages that the allocator does not give and do not overlap.
--   Paging/Boot: the part of sgos2/kernel/arch/i386/mmu/page.c that makes the kernel's directory
--   (`initialize_paging` is ArInitializePaging) and the one of a space (`initialize_directory`). The
--   first table and its entry come from multiboot.S and are taken as given.
-- Pages: the part of the second half of physical.c that takes, gives back, swaps and duplicates
--   single pages of a space, over Frames and Paging. `acquire_page` is MmAcquirePhysicalPage,
--   `duplicate_page` MmDuplicatePhysicalPage. A space is named by the page of its directory.
-- Spaces: the two functions of physical.c on a range of two different spaces, over Pages and Virtual.
--   `swap_multiple` is MmSwapMultiplePhysicalPages, `duplicate_multiple`
--   MmDuplicateMultiplePhysicalPages.
-- Memory: what is left of physical.c for one space (MmMapMemory and the page-fault handlers),
--   sgos2/kernel/mm/usermemory.c and, in Memory/Global, sgos2/kernel/mm/globalmemory.c, over Pages
--   and Virtual. `handle_read_only` is MmHandleReadOnlyPageFault.
-- Virtual: sgos2/kernel/mm/virtual.c, the list of allocations of an address range. `allocate` is
--   MmAllocateVirtualMemory, with a function for each of its three ways.
-- Allocator: sgos2/kernel/mm/allocator.c, the kernel's heap. Functions keep their names; `occupy` and
--   `split` are the body of mm_alloc's loop, `release` the rest of mm_free. Allocator/Shape says how
--   the list of the blocks lies in memory, Allocator/Chains what the free table holds,
--   Allocator/Coalesce what mm_free makes of the list, and Allocator/Client follows the users' calls.
-- KernelMemory: sgos2/kernel/mm/kernelmemory.c, over Allocator. `allocate_kernel_memory` is
--   MmAllocateKernelMemory.
-- Scheduler, Scheduler/Clock, Scheduler/Threads: sgos2/kernel/tm/sched.c and part of
--   sgos2/kernel/tm/thread.c, the threads in their chains by state. `set_thread_state` is
--   TmSetThreadState, `schedule` TmSchedule, `sleep_thread` TmSleepThread. `IsScheduler` of
--   Scheduler/Chains says which list each chain is.
-- Semaphore: sgos2/kernel/ipc/semaphore.c, over Queue and Scheduler. `lock` is IpcLockSemaphore,
--   `unlock` IpcUnlockSemaphore.
-- Message: sgos2/kernel/ipc/message.c, the mailbox of one thread over Queue, Semaphore and
--   Scheduler. `send` is IpcSend to its owner, `receive` IpcReceive by its owner. Message/Threads has
--   the mailboxes of all threads; there `receive_current` takes that of the current thread.
-- Calendar: sgos2/kernel/lib/time.c. `gettime` and `mktime` keep their names, `offtime` is
--   __offtime. Calendar/Days counts the dates one by one; that is the reference.
--
-- A function that changes memory is a command, Prelude/Run: it takes the state and returns, faults
-- (a NULL or dangling pointer), blocks (the thread goes to sleep, or another one runs), or runs out
-- of fuel. Fuel bounds the list walks; each theorem asks for more fuel than the list has nodes, and
-- shows that the run then returns. The loops of gettime are given three rounds, which is enough
-- for every 32-bit time. Addresses, sizes and clocks are natural numbers with the wrap at
-- 2 ^ 32 written out; the counts of a queue are integers without bounds. Outside
-- Allocator and KernelMemory, what the kernel's heap returns for a new node is an argument, a fresh
-- address or NULL, with whatever that memory held before. Allocator/Client gives its calls a fuel
-- above 2 ^ 27, which is more than a heap of 2 ^ 31 bytes can have blocks of 24 bytes and more.
--
-- Not modelled: interrupts and preemption inside these functions (they run with interrupts off or
-- under their lock), the debug prints, the creation and the end of threads and of spaces, a
-- range operation of Spaces with one space on both sides, the contents of heap blocks, and the
-- services outside the kernel.
pub mod Prelude
pub mod Dll
pub mod Queue
pub mod Frames
pub mod Virtual
pub mod Scheduler
pub mod Semaphore
pub mod Paging
pub mod Pages
pub mod Spaces
pub mod Allocator
pub mod KernelMemory
pub mod Calendar
pub mod Message
pub mod Memory
