-- ===== src/Lib.antt =====
-- xk, the teaching kernel of the UW CSE 451 labs: a model of its core and the theorems about it.
--
-- The kernel's parts and how they meet. `kernel/kalloc.c` owns the physical pages; `kernel/proc.c`
-- takes kernel stacks from it and keeps the process table, on which `sleep`, `wakeup`, `exit`,
-- `wait` and the scheduler work; `kernel/spinlock.c` guards all shared state; `kernel/file.c` gives
-- processes descriptors of pipes and of the files of `kernel/fs.c`; `kernel/string.c` moves the bytes.
--
-- Kalloc       kernel/kalloc.c: the core map with its reference counts, the counters, the bytes of
--              the frames, as one record `Kmem`; one function for each routine
-- StringC      kernel/string.c and the two string instructions of inc/x86_64.h, over a memory that
--              is a function from addresses to bytes
-- Spinlock     kernel/spinlock.c: a lock, the cpu's `ncli`, `intena` and interrupt flag
-- Sleeplock    kernel/sleeplock.c: one lock, and where each process is with it
-- Pipe         kernel/file.c, the pipe branches of `fileread` and `filewrite`, over `struct pipe`
-- Proc         kernel/proc.c: the table as a function from slots to processes; Lifecycle has the
--              step relation of all routines on one processor
-- Extents      kernel/fs.c: `readi`, `writei`, `appendi`, `getCapacity`, `getfreestartblkno` over a disk
--              that is a function from blocks and offsets to bytes
-- Icache       kernel/fs.c: the inode cache with its references and sleep locks
-- Files        kernel/file.c: `ftable`, the descriptors of the process that runs, and all routines on
--              them; Io has the branches of `fileread` and `filewrite` for inodes, Reachable the
--              step relation of all operations
-- Bio          kernel/bio.c: the buffer cache as the list of buffers, the last used one first
-- Paths        kernel/fs.c: `skipelem`, `dirlookup`, `namex`, over the byte list of a path
-- Vspace       kernel/vspace.c and the page fault of kernel/trap.c: the regions of a process with
--              their lists of infos, and the page table as a function. Table builds it, Cow copies a
--              space and serves a write to a shared page, Map and Growth add pages; the other
--              children are about owners (Counts, Copy, Fork, Invalidate, Owners, Moves, Grant,
--              Progress), places (Regions, Layout, Stack) and loops (Stuck). Load is vspaceloadcode,
--              over what `readi` gives of the file and its headers in inc/elf.h, Program says where the
--              loaded program stands, and Exec is kernel/exec.c
-- Paging       kernel/x86_64vm.c: the four levels of the page table, as the words of its pages. Shape
--              says what a tree of tables is, Fresh and Walked follow `walkpml4`, and Mapped and
--              Refines show that `mappages` is a write to the function that Vspace takes for a table
-- Syscall      kernel/syscall.c, kernel/sysfile.c and kernel/sysproc.c: the arguments of a call,
--              checked against the regions of Vspace; Calls has the handlers, over Files, Proc and
--              Vspace
-- Console      kernel/console.c: `cprintf` with the digits of a number; Input has the ring of the
--              input line, Screen the CGA memory and the cursor, Keyboard the maps of
--              inc/kbd.h and kernel/kbd.c
-- User         user/ulib.c and user/printf.c, over lists of bytes; Grep has the pattern matcher of
--              user/grep.c, and Pattern what patterns mean
-- Shell        user/sh.c: the parser of commands. Ends shows that it always ends; Print says how a
--              command is written, and Tokens, Steps, Reads, Places, Joined and RoundTrip that it is read back
-- Base         numbers, lists, machine words and the outcome of a routine: it returns, panics, or
--              spins for ever
-- Examples     runs on concrete states
--
-- A routine that holds one lock from its first to its last access of the state that the lock guards
-- is one step; a routine that sleeps is cut at the call of `sched`, and `fork` with its `allocproc` where
-- they give the lock back (Fork shows that a `fork` without a break is such a sequence of steps). Integers are numbers with the
-- wrap-around of their width written out where the code relies on it; the reference counts of pages
-- are counted without a bound, and so are the sums over extents, which stay below 2^32 on a disk of
-- less than 4 GB. `nextpid` and the counters of a pipe are words of 32 bits that only grow; theorems about
-- them are about runs in which they do not pass the largest `int`. The loops of `freerange` and `strlen` run on fuel: that of
-- `freerange` is the number of pages in the range and one more, that of `strlen` is an argument. Those
-- of `readi`, `writei` and `appendi` run on the number of bytes, the number of extents and one or two
-- more: a round moves at least one byte or goes to the next extent. That of `namex` is the length of
-- the path and one more: a round takes at least one byte of it. An access behind the last extent
-- has no meaning in C and ends the run with a result of its own.
--
-- The loop that takes pages back in `vregionaddmap` runs on the number of pages of the range and two
-- more, that of `vspacewritetova` on the number of bytes and one more; a round of either that does
-- not come nearer to the end is repeated for ever, and running out of fuel means that. A word of 64
-- bits has at most 64 digits, and as many rounds `put_digits` has; `consoleintr` kills a line in as
-- many rounds as the edit index is ahead.
--
-- The routines of the shell's parser have three times as much fuel as the text has bytes, and three more:
-- at most three calls stand between two tokens. Its loops have one round for each byte, and one more.
-- `deallocuvm` has as many rounds as the range has pages, and two more; it runs out of them only if a
-- round leads back.
--
-- Not modelled: device drivers, boot code and assembly, which are register accesses; the pages that
-- the tables of a process take, where Vspace is concerned; `createi` and the loading of the inode
-- file, which are left for later; the other programs of the user and the tools of the host.
-- The branch of `sbrk` for a negative size is not modelled, since `sys_sbrk` never takes it.
pub mod Base
pub mod Kalloc
pub mod StringC
pub mod Spinlock
pub mod Sleeplock
pub mod Pipe
pub mod Proc
pub mod Extents
pub mod Icache
pub mod Files
pub mod Bio
pub mod Paths
pub mod Vspace
pub mod Paging
pub mod Syscall
pub mod Console
pub mod User
pub mod Shell
mod Examples
