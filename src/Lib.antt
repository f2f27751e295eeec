-- ===== src/Lib.antt =====
-- A small RISC-V kernel in the line of xv6 (kernel/), its shell and user library (user/).
-- These files model its core: physical memory and page tables, the spin lock, processes and
-- their scheduling, the buffer cache, inodes, open files, path names, the console and the
-- byte functions.
--
-- Base holds what the parts share. A function of the kernel is a Cmd: from a state it
-- returns with the new state (done), panics with the source's message, goes to sleep, or,
-- in the model only, has been given too few rounds for a loop (out_of_fuel). Machine
-- integers are natural numbers with the wrap-around written out where the source can reach
-- it.
--
-- Mm is kernel/mm. Mm.Mem is physical memory as 64-bit words with the fields of kmem;
-- Mm.Kalloc is kalloc.c, the free list threaded through the free pages; Mm.Pte is the entry
-- and address arithmetic of kernel/riscv/riscv.h; Mm.Vm is vm.c, page tables as words of
-- that memory. kmem.lock covers a whole function, so each is one step. A page filled or
-- copied is the memset or memmove of that page. Loops over pages count their rounds with
-- fuel: one for each page of the range, and one for the round that ends; walk descends the
-- three levels by structural recursion. Mm.Copy is copyout, copyin and copyinstr, with a
-- round for each byte left and one more; the bytes of a word are its digits from the lowest
-- on.
--
-- Sync is kernel/sync. Sync.Spinlock is spinlock.c: push_off and pop_off on the fields of
-- struct cpu, and acquire and release of one lock cut at their accesses to the lock, so
-- that the calls of all CPUs interleave there.
--
-- Fs is kernel/fs. Fs.Bio is bio.c: the buffers by index, the LRU list as the list of their
-- indices, bget cut into the part under bcache.lock and the acquiresleep that follows;
-- virtio_disk_rw copies a block between the buffer and the disk. Fs.Files is the file table
-- of file.c with argfd, fdalloc, sys_dup and sys_close of sysfile.c for one process, the
-- descriptors of the others being a number for each file. Fs.PathName is skipelem of fs.c.
-- Fs.Inode is the inode table and the reads of fs.c over Fs.Bio, with the format of
-- include/fs.h in Fs.Inode.Layout and dirlookup and namei, which is namex with its name
-- buffer, in Fs.Inode.Lookup; namex has fuel for each byte of the path and one more,
-- dirlookup for each entry and two more, readi for each byte and one more; either_copyout
-- of readi is the list of the bytes that it is given.
--
-- Proc is kernel/proc/proc.c. Proc.Kernel is the process table, what each CPU runs, and the
-- memory, file table and inode table that the calls work on. Proc.Alloc allocates and frees
-- entries and has userinit, Proc.Sched is the scheduler, sched, yield, sleep, wakeup, kkill
-- and setkilled, Proc.Life is kfork, kexit and kwait. p->lock is held from where a function
-- changes an entry to where scheduler has cleared c->proc, and wait_lock from where kexit
-- has closed its files, so that each call, or round of the loop of scheduler or kwait, is
-- one step; the steps of all CPUs come in any order (Proc.Life.Reach). An address of a
-- process is its index; as a channel it is the index and one. nextpid is a counter, of
-- which the int is the low 32 bits. Each loop over the table has a count of the entries
-- left. Proc.Keeps has what a function leaves if it returns.
--
-- Dev is kernel/dev. Dev.Console is the input ring and consoleintr of console.c with its
-- UTF-8 aware erasing; its fuel is for the loop of Control-U, one round for each byte of
-- the line and one more.
--
-- Core is kernel/core. Core.Strings is string.c on a memory of bytes; strlen has fuel, as a
-- string may have no end.
--
-- User is user/. User.Shell is parsecmd of user/bin/sh.c on a memory of bytes: the line is
-- cut in place, with a pointer that reads and one that writes; each loop has a round for
-- each byte of the line and one more. User.Shell.Editor is its line editor: the line is the
-- list of its bytes, and a run is a function of the bytes typed, the history, the entries
-- of the directory and what complete_token finds in the memory it has not written; a write
-- past the end of draft, out or history is marked in the state; getcmd has a round for each
-- byte typed and two more. User.Utf8 is user/lib/utf8.c and user/lib/term.c.
--
-- Not modelled: the other devices, traps, the system calls on files but dup and close,
-- exec, reading and writing the console, the device tree, the shell's calls of the kernel,
-- the rest of the user library, and the other user programs; kvmmake of vm.c; forkret,
-- killed, either_copyout, either_copyin and procdump of proc.c, which change nothing in the
-- process table. sleep returns where the CPU is given up, since the process goes on by a
-- step of its own.
pub mod Base
pub mod Core
pub mod Dev
pub mod Fs
pub mod Mm
pub mod Proc
pub mod Sync
pub mod User
