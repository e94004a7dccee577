-- ===== src/Lib.antt =====
-- The kernel of riscv_os, a small operating system for RISC-V: its heap, its pages and page tables,
-- its processes with their creation, scheduling, messages and end, its clock, its strings and its
-- formatted output. The program is C and assembly; what is modelled is the C code of kernel/ and
-- the structures of include/, the assembly of the context switch and of traps, user/shell.c, and
-- the heap, the strings, the formatting and the output of user programs.
--
-- The parts, and how they hang together. kernel/page.c hands out physical pages, which
-- kernel/alloc-tracker.c records with their owners, and builds SV39 page tables from them.
-- kernel/process.c keeps the table of processes, and gives a process its page table, image, stack
-- and heap. kernel/scheduler.c chooses the next process of that table. kernel/syscall.c changes
-- processes at their own wish: it grows their heap, forks, ends and reaps them, and carries messages
-- between them. kernel/heap.c, kernel/string.c, kernel/time.c, kernel/uart.c and kernel/common.c
-- stand on their own and serve the rest.
--
-- The files:
--   Prelude      names of the libraries, Boolean tests, lists and their lemmas
--   Heap         kernel/heap.c: heap_init, malloc, free over a store of block headers. Spans and
--                Tiling say what a heap in order is, Refine and Free follow one step of the loops,
--                Taken and Live the blocks in use, and Correct has the theorems
--   Frames       kernel/page.c (alloc_pages, free_page, free_pages_range) and
--                kernel/alloc-tracker.c. Chain has the invariant, Handed what an allocation
--                promises, Counted the count of the tracker, and Alloc, Release and Tracker the theorems
--   Paging       kernel/page.c: paging_init, map_page, unmap_page, map_mmio_range, walk_page, walk,
--                walkaddr. Entry has the bits of an entry, Level and Walk one level of a walk, Map
--                and Address the tables of an address, Leaf the mapped page
--   Process      include/process.h and kernel/process.c: proc_t, the kernel's variables,
--                alloc_free_proc, get_proc_by_pid. Table has the theorems
--   Image        kernel/process.c: create_init_process and exec_process
--   Teardown     kernel/page.c (free_pagetable) and kernel/process.c (process_free_userspace,
--                free_proc). Reset has the theorem
--   Scheduler    kernel/scheduler.c: yield. Pick has its choice, Running its states
--   Ipc          kernel/syscall.c: sys_ipc_send and sys_ipc_recv. Delivery has the theorems
--   Syscalls     kernel/syscall.c: sys_sbrk, sys_fork, sys_exit, sys_wait; Copy has copy_to_user of
--                kernel/user.c, sys_sysinfo and sys_time, Console the calls that read, write or list
--                on the console, with virtio_emerg_log_ext of kernel/virtio-emerg.c, Exec sys_exec,
--                Reap the theorem on sys_wait, Fork that on sys_fork, and Delivered those on
--                copy_to_user
--   Arguments    kernel/arguments.c: setup_user_arguments. Placed has the theorem
--   Archive      kernel/tar-parser.c: tarfs_lookup. Size has the size of a file, Entries says what an
--                archive of files is, and Lookup has the theorem
--   Clock        kernel/time.c and include/time.h. Calendar and RoundTrip have the theorems
--   Text         kernel/string.c. Compare, Copy and Search have the theorems; Token has strtok,
--                Words the words of a text, Calls one call of strtok, and Cut the text that calls leave
--   Uart         kernel/uart.c. Digits has the theorems
--   Format       kernel/common.c. Bounds has the theorems
--   Elf          kernel/elf-loader.c: get_symbol_address, extract_flat_binary_from_elf. Bounds has the
--                bounds of the image, and Loaded the theorem on its bytes
--   Traps        kernel/syscall.c (handle_syscall), with trap_handler of kernel/trap.c in Handler.
--                Invariant says what holds of the kernel's variables; Yield, Calls, Forked,
--                Programs, Messages and Dispatch go through the calls, Interrupted through a sys_wait
--                that the timer interrupts, Reach has the theorem on all of them, and Timer that on
--                interrupts
--   Boot         kernel/kernel.c: the first processes that kernel_main creates. Started has the state
--                of the kernel when the first yield is called
--   Machine      the assembly of kernel/context.c, kernel/trap.c (trap_vector) and kernel/user.c
--                (user_return). Frame has the lemmas on saved registers, Switch, Trap and Return
--                the theorems
--   Shell        user/shell.c: the line editor, the arguments, the choice of a command. Editor and
--                Command have the theorems, and Rounds one round of the loop over the arguments
--   UserHeap     user/lib/malloc.c and user/lib/sbrk.c. FreeList says how the free blocks lie, Links
--                and Take go through the loop, Fit keeps the blocks apart, and Correct has the theorem
--   Printf       user/lib/printf.c, as system calls. Calls has what the kernel writes for them, Says
--                and Switch compare them with the functions of Uart, and Same has the theorem
--   Strings      user/lib/string.c, at addresses of one memory. Held says which bytes stand there,
--                Copied has the theorems on copies, Read and Scan go through the loops that read,
--                and Tokens has the theorem on strtok
--   UserFormat   user/lib/common.c and user/lib/log.c, at addresses too. Inside has the theorem
--   Emerg        kernel/virtio-emerg.c, kernel/virtio.c, and log_user of kernel/user.c. Bounds has the
--                theorem
-- The Tests files run definitions and theorems at concrete inputs.
--
-- How the code is read. Numbers are natural numbers, and the wrap of 64 bits is written where it can
-- happen. Physical memory is a function from the address of a word to its value, since the kernel
-- maps memory one to one; the headers of the heap are a store of their own. A string is the list of
-- the bytes from its address on. `none` is the end of the machine in a PANIC, the use of a null
-- pointer, or an access behind an object. A process is known by its index in the table; the values
-- that a system call returns to its caller, errors among them, are integers. A year and the other
-- fields of a date are numbers below 2^31, the range of the source's int. copy_to_user stores each
-- byte into the memory that the next address is translated in.
--
-- Bounds and fuel. malloc's loop takes fuel for its blocks, and the end of the heap is enough,
-- since each block takes up bytes of it; that of a user program takes one unit for each free
-- block; a loop over an array or an address range has its number of rounds as an argument, which
-- the caller computes from the loop's condition. free_pagetable takes one unit of fuel for each
-- level of tables, and tarfs_lookup one for each entry. A loop of Strings takes one unit for each
-- byte that it reads; kvnprintf of UserFormat one for each round, and its theorem holds at every fuel. The loop over the years takes the days as
-- fuel, which is enough since each year takes days off.
--
-- Linker symbols, the addresses of functions, the time of the build and the length of the table of
-- tracked allocations are arguments. What surrounds a trap, the memory of the running process and
-- its console input among it, is the record World.
--
-- Interrupts. A trap is handled with interrupts disabled, but free_all_tracked_for_pid enables them
-- at its end, inside sys_wait. Reach has the interrupts that come there among its steps. Where such an
-- interrupt returns to the call, on a stack that it has overwritten, the call's rest is not modelled.
--
-- Not modelled: control registers beyond sscratch, sepc, sstatus and the satp of a log line, the
-- TLB, calls of the firmware, the setup in boot/ and in kernel_main before the first process, what is
-- only printed for debugging, and the programs of user/ and servers/ but the shell. Of user/lib,
-- ipc.c and exit.c wrap one system call each.
pub mod Prelude
pub mod Clock
pub mod Heap
pub mod Text
pub mod Frames
pub mod Paging
pub mod Process
pub mod Teardown
pub mod Image
pub mod Scheduler
pub mod Ipc
pub mod Syscalls
pub mod Arguments
pub mod Archive
pub mod Elf
pub mod Traps
pub mod Boot
pub mod Machine
pub mod Uart
pub mod Printf
pub mod Strings
pub mod UserFormat
pub mod Emerg
pub mod Format
pub mod Shell
pub mod UserHeap
