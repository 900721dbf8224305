-- ===== src/Lib.antt =====
-- Sigma, an x86_64 microkernel with a user-space file server: models of its kernel's core.
--
-- Base holds what the modules share: tests, lists over the native numbers, uint64_t arithmetic and
-- `Outcome`, in which `panic` stands for PANIC, a failed ASSERT and so a halted kernel.
-- Klibc models kernel/source/klibc/string.cpp over memory as a function from addresses to bytes.
-- Misc models the kernel command line of kernel/source/misc/misc.cpp.
-- Mm/Pmm models kernel/source/mm/pmm.cpp: the stack of free runs, with the stale slots above its
-- pointer, which `sort_stack` reads; Mm/Pmm/Frames is its abstract view, the number of times that
-- each address is listed as free; Alloc, Free, Sort, Reserve and Init follow the routines.
-- Mm/Heap models kernel/source/mm/alloc.cpp: the headers in the order of their links, `morecore` and
-- the pages it maps; Placed says where blocks lie, Backing is about the loop of `morecore`, and
-- Growth about the block at the end.
-- Paging models kernel/source/arch/x86_64/paging.cpp over tables in physical memory: Entries the bits
-- of an entry, Clean what is freed, Search the free addresses; Tree says what it is for tables to
-- form a tree, Space how that stands to the free frames, Hung, Map and Leaf follow the writes of
-- `map_page`, Pages reads it back; Tables and Release are about `deinit`, FirstFit about the search;
-- Clone follows the copy of an address space, from the entry and the loop to the whole.
-- Pci models kernel/source/arch/x86_64/drivers/pci.cpp: Config the two ways to the configuration space,
-- Bars the base address registers, Enumerate the search for devices, whose recursion over bridges and
-- capability lists has fuel, Msi message interrupts; Sizing is about the registers, Yields, Grows, Ends
-- and Terminates about the search. What the hardware does is a parameter, with what the PCI standard
-- says of it as hypotheses.
-- Idt models the handler table of kernel/source/arch/x86_64/idt.cpp.
-- Types models kernel/include/Sigma/types: queue, hash map, bitmap, vector, and the linked list with
-- its pointers by address.
-- Generic models kernel/include/Sigma/generic (events and the handle catalogues) and, in Device, the
-- device list of kernel/source/generic/device.cpp with the commands of `devctl`.
-- Proc models kernel/source/proc: Ipc the rings of ipc.cpp; in process.cpp, Thread, Scheduler
-- and Lifecycle the contexts, the timer interrupt, and threads made, blocked and killed, and
-- Mapping the pages that `map_anonymous` adds; Initrd the TAR archive of initrd.cpp; Syscall the
-- table and the guards of syscall.cpp.
-- Spinlock models the count of irq_lock in kernel/include/Sigma/arch/x86_64/misc/spinlock.h.
-- Zeta models zeta/source/vfs.cpp: Paths the normal form of paths, Mounts the choice of a mount
-- point, Descriptors the calls on file descriptors, with the file systems behind them as arguments.
--
-- The parts meet as in the code: a ring holds two queues and their events; the scheduler tests the
-- events that threads wait for; threads own frames that the frame allocator gave and that `kill`
-- frees; the heap takes its pages from it, and so do page tables and the mappings of a thread;
-- system calls read the saved registers.
-- Locks are not modelled as such: what runs under one lock is one step. Numbers of the code wrap
-- at 2 ^ 64, written out where an operation can wrap. Loops recur on a list or on counted rounds:
-- those of `reserve_all` and of `map_pages` are counted from the state and proved to be enough; a
-- loop that runs to the end of a string or of an archive, and the search for free addresses, have
-- fuel, and theorems say how much is enough. The walk along a capability list has 256 steps, more
-- than there are places, and the search over PCI bridges as many levels as there are buses above.
-- Not modelled: assembly and the registers of other devices, which the language has no account of;
-- the routing of PCI interrupts through the AML interpreter, a submodule; printing; the
-- message loop of the file server; fork_address_space, which copies the pages as well; the translation
-- cache; drivers and the other servers in user space.
pub mod Base
pub mod Mm
pub mod Types
pub mod Generic
pub mod Idt
pub mod Klibc
pub mod Misc
pub mod Paging
pub mod Pci
pub mod Proc
pub mod Spinlock
pub mod Zeta
