-- ===== src/Lib.antt =====
-- xv6 for RISC-V with a lottery scheduler: a teaching kernel in C and its user programs.
--
-- Parts of the program, and the files that model them:
-- - proc.c, proc.h, the table of processes. Proc.antt has `struct proc` and the table as a list indexed
--   by slot; Proc/Scheduler.antt has `scheduler` with the lottery and round robin, its `total_tickets`
--   being `count_tickets` and its second pass `pick`; Proc/Signal.antt has sleep, wakeup, kill, killed,
--   setkilled, yield and settickets; Proc/Life.antt has allocproc, freeproc, fork, reparent, exit and
--   wait; Proc/Memory.antt has growproc, procinit and the checks of sched. Pointers to processes are
--   slots. What proc.c calls of kalloc.c, vm.c, file.c, fs.c and log.c are the fields of the record
--   `Services` of Proc/Services.antt, over a state that proc.c does not look into; they do not panic there,
--   and those that call wakeup give the channels.
-- - random.c, the generator that draws the winning ticket: Random.antt.
-- - sysproc.c, the system calls on processes: Sysproc.antt. They call the operations of Proc.
-- - spinlock.c: Spinlock.antt, with push_off and pop_off of one CPU, and one lock with any number of
--   CPUs as a step relation. sleeplock.c: Sleeplock.antt. The other files model what happens while a
--   lock is held as one operation, and so rely on spinlocks to exclude each other.
-- - log.c, the redo log under the file system: Log.antt. The disk is a header block and data blocks,
--   and the model keeps each state that the disk goes through, since a crash leaves one of them.
--   Log/Full.antt runs begin_op and log_write on a log of the size that mkfs.c gives it.
-- - bio.c, the cache of disk blocks: Bio.antt, the circular list as a list; it uses Sleeplock.
-- - kalloc.c, the allocator of pages: Kalloc.antt, the list through the free pages as a map from a page
--   to the next one.
-- - fs.c, fs.h, the file system: Fs.antt has its state and the allocator of blocks (balloc, bfree, bzero),
--   Fs/Itable.antt the inodes (ialloc, iget, idup, ilock, iunlock, iput, iupdate) and their blocks (bmap,
--   itrunc), Fs/Files.antt their content (readi, writei, stati), Fs/Dirs.antt directories (dirlookup,
--   dirlink) and Fs/Names.antt paths (skipelem, namex, namei, nameiparent). The disk has three parts, the
--   free map, the inodes and the data blocks, which its layout keeps apart; a pointer to an inode is its
--   slot in `itable`. Each operation is what one process does in a transaction, on a run on which the
--   locks that it takes are free; the blocks that `log_write` is called for are listed.
-- - vm.c, page tables: Vm.antt has walk, walkaddr, mappages and uvmunmap, Vm/User.antt the memory of
--   processes, Vm/Copy.antt copyout, copyin and copyinstr, and Vm/Kernel.antt the table of the kernel,
--   with proc_mapstacks, proc_pagetable and proc_freepagetable of proc.c. Page tables are kept apart from
--   the other pages, and both kinds come from the allocator of Kalloc. Vm/View.antt is the abstract
--   view, an entry for each virtual address.
-- - file.c: File.antt has the reference counts of open files, File/Content.antt filestat, fileread and
--   filewrite, which call Fs; pipes and devices are arguments there.
-- - sysfile.c, the system calls on files: Sysfile.antt has their state, the file system with the table of
--   files, the descriptors and the directory of the process, and the calls on descriptors;
--   Sysfile/Paths.antt has sys_link, sys_unlink and sys_chdir, Sysfile/Create.antt create, sys_mkdir and
--   sys_mknod, and Sysfile/Open.antt sys_open and sys_pipe with pipealloc of pipe.c. They call Fs and File.
--   Sysfile/Ledger.antt and Sysfile/Shared.antt are the accounts of references that their theorems are
--   about, with a rule for each step; Sysfile/Runs.antt is the family of postconditions under them. Sysfile/Exec.antt has sys_exec, on the
--   memory of Vm; `exec` is its argument, and nothing is assumed of it.
-- - syscall.c, syscall.h, the arguments and the dispatch of system calls: Syscall.antt, which calls Vm.
--   `Name` has the names of syscall.h, two of which are of no function.
-- - pipe.c: Pipe.antt. console.c: Console.antt. Both are ring buffers with indices that wrap at 2 ^ 32.
-- - string.c: Str.antt. ulib.c: Ulib.antt. printf.c: Printf.antt. grep.c, its matcher: Grep.antt.
-- - sh.c, the tokens and the parser of the shell: Sh.antt. A pointer into the line is its place and the
--   bytes behind it; the nodes of commands are the data type `Cmd`. `parseline`, which the other
--   functions of the parser call, is their argument `line`.
--
-- Numbers are natural numbers; `uint` and `int` are 32-bit patterns and wrap where the compiled code
-- does (Prelude/Words.antt). A `panic` is the value `panic` of the type `Result`; in the
-- shell it is a failure of the type `Parse`, which tells it from a parser that is out of fuel. A loop that sleeps is
-- modelled by one round of it, whose result says that it sleeps.
--
-- Bounds and fuel. Loops over the table and over lists are structural. `kinit` runs on fuel, one unit a
-- page: more units than there are pages below the end of memory are enough. `kill_line`
-- has 128 units, the size of the buffer, which is the largest distance between the edit index and the
-- write index. `printint` has 32 units, enough for 32 bits in any base from 2 on. `balloc` has a unit for
-- each block of the free map; `readi`, `writei`, `copyin` and `copyout` have one for each byte, and each
-- round moves a byte; `namex` has one more than the path has bytes, and each round takes one off; the
-- parser of the shell needs two more than the line has bytes, since each round takes a token off;
-- `freewalk` has three, one a level, and a deeper table is the model's `panic`.
--
-- Not modelled: readsb, fsinit and iinit of fs.c, which read the superblock and initialise locks; kvminit
-- and kvminithart of vm.c, which set a register; exec.c, trap.c and umalloc.c; runcmd, getcmd and main of sh.c, which are system calls;
-- userinit, forkret, either_copyin, either_copyout and procdump of proc.c; consolewrite; the line loop of grep; the drivers, the boot code and the
-- assembly, which stand on hardware registers; mkfs.c and the test programs. Memory is sequentially consistent: the fences of spinlock.c are
-- no steps.
pub mod Prelude
pub mod Random
pub mod Proc
pub mod Str
pub mod Spinlock
pub mod Pipe
pub mod Log
pub mod Kalloc
pub mod Grep
pub mod Sh
pub mod Sleeplock
pub mod Bio
pub mod Console
pub mod Ulib
pub mod Vm
pub mod Printf
pub mod Sysfile
pub mod Sysproc
pub mod File
pub mod Fs
pub mod Syscall
