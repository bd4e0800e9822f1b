-- ===== src/Lib.antt =====
-- The heap allocator of p3/mem, the process table of p4/xv6, the lottery scheduler of p2/xv6, the
-- file server and its client of p5/MFS and the shell of p2/c of BaconEggs, a collection of
-- operating system projects in C.
--
-- Mem (p3/mem/mem.c, mem.h, include.h). Mem_Init maps one region; Mem_Alloc finds the smallest
-- gap that is large enough (findsmallest), writes a header there and links it (insert); Mem_Free
-- marks a header and unlinks it (removeBlock). The file's globals and the headers in the region
-- are the record `Mem`: `heap` maps an address to the header that stands there, zeros where none
-- was written, with NULL as 0. `mem_init`, `mem_alloc`, `mem_free`, `find_smallest`, `insert` and
-- `remove_block` are the functions of the same names, and their `_loop`s the loops in them. A
-- header has 16 bytes, as on a 64-bit machine. A NULL that is dereferenced, a header that
-- Mem_Free reads outside the region, and an `int` beyond its range, is a `fault`. A loop gets as
-- many rounds as there are blocks, and one more: the list has exactly that many blocks in every
-- state that the calls reach, so no loop runs out. Headers are objects of their own: the client's
-- data, and headers that overlap, are not in the model, and the invariant has headers apart.
-- Mem/Store and Mem/Chain have the list in the store, Mem/BestFit, Mem/Insert, Mem/Remove and
-- Mem/Gap the parts, Mem/Alloc, Mem/Free and Mem/Init the calls, Mem/Region that the calls leave
-- the region in its place, Mem/Session sequences of calls, Mem/Overrun the end of the region.
-- Mem_Dump and the printing are not modelled: they write no state.
--
-- Proc (p4/xv6/kernel/proc.c, proc.h). Proc/Table has `struct proc` and the table; `parent`,
-- `proc` and a channel that is a process are indices into it. Proc/Create has allocproc, fork and
-- clone, Proc/Exit has exit, Proc/Reap has wait and join, Proc/Sched has sleep, wakeup, yield,
-- kill and the body of the loop of scheduler. A function that holds ptable.lock while it changes
-- the table is one step; a function that sleeps is cut there, and a round of wait or join is one
-- step. fork and clone hold the lock only while allocproc takes the slot: they are three steps
-- each, between which other steps may come. growproc changes the table without the lock by one
-- write, of the size of its own process. The loops run over the 64 slots by structural recursion.
-- The answers of kalloc, copyuvm and copyout are arguments, and the calls into kalloc.c, vm.c,
-- file.c and fs.c are recorded in `trace`. Pids are natural numbers: no step takes a slot when
-- nextpid is 2^31 - 1 or more, where `nextpid++` overflows the `int`. Addresses are below 2^32.
-- Proc/Pids has the well-formedness of the table, Proc/Leaves and its children that every
-- function keeps it, Proc/NextPid that only allocproc changes nextpid, Proc/Step the functions as
-- steps of a system, Proc/Runs fork and clone as runs of these steps, Proc/Alloc, Proc/Fork,
-- Proc/Files, Proc/Moves, Proc/Orphans, Proc/Waiting and Proc/Signals what each function does.
-- Proc/Boot has userinit and what the kernel reaches from it, Proc/Grow growproc. Not modelled:
-- the locks and interrupt flags, the switch of contexts, and the output.
--
-- Lock (p4/xv6/user/thread_lib.c). lock_init, a round of lock_acquire and lock_release over the
-- flag, with the phase that each thread is in; `xchg` is one atomic step, and threads that misuse
-- the lock, by a release without an acquire or an acquire while holding it, are not in the model.
--
-- Lottery (p2/xv6/kernel/proc.c). `Player` has the fields of a process that the lottery reads;
-- its other fields are not in the model. `lottery` is one round of scheduler from the word of
-- get_rand to the switch to the first process that runs; ptable.lock is free between the count of
-- the tickets and the search for the winner, and an argument says what other processors change
-- there. What the loop does when that process has given the processor back, and the statistics
-- `pst`, are not modelled. An overflow of the sums has no result. Lottery/Draw has who wins,
-- Lottery/Twice the round of second runs, Lottery/Random the generator with words modulo 2^32.
--
-- Shell (p2/c/mysh.c). A line is a list of bytes; Shell has the loop that counts ">" and "&",
-- strtok by its documented behaviour, the loop that fills `token`, with one more round than the
-- line has bytes as fuel, and the choice of what is done, as an `Action`. Shell/Files has the
-- table of descriptors with closeSTDOUT and openSTDOUT, Shell/Line the main loop: a line with
-- what the system answers in it gives the next state, an exit, another program in the child, or a
-- read of NULL. A run follows one process; the lines are what fgets gives. Shell/Words has the
-- theorem on the words; Descriptors, Kept, Valid, Redirected, Background, Lost and Terminal what
-- holds of the descriptors in every run. The prompt that printf leaves in its buffer, the texts
-- of messages and lines with a zero are not modelled.
--
-- Mfs (p5/MFS/server.c and server_utils.c). Mfs/Disk is the image file, a function from addresses
-- to bytes with a size, under lseek, read and write. Mfs/State has `Server`: the image, the
-- globals inode_t, direntry_t, rbuf, stat_t and messagecount, and what uninitialised locals hold;
-- `Call` is a call on it, with no result where the code reads behind an array, seeks before the
-- file or does not end. Mfs/Utils is server_utils.c, Mfs/Files has the handlers MFS_Lookup_h,
-- MFS_Stat_h, MFS_Write_h and MFS_Read_h, Mfs/Names MFS_Creat_h, Mfs/Unlink MFS_Unlink_h, and
-- Mfs/Commands processcommand and one message of receiving, with the buffer of a message as a
-- record. The loops over 14 pointers, 64 entries and 256 regions are counted; the inner loop of
-- MFS_Lookup_h has the size of the image and one as fuel, since it stops at an entry that is not
-- used. Positions are below 2^31 and their sums do not wrap: geteol has no result from 2^31 on,
-- which is a negative `int`. MFS_Unlink_h writes entry[64].inum, four bytes behind rbuf: they are
-- in the field `behind`, and are taken to belong to no variable that another function of the
-- server reads. Mfs/Count has that the handlers leave messagecount alone, Mfs/FileAt where the
-- parts of a file stand in the image; Mfs/Entries, FreeNumber and Found have the entries of a
-- directory block, the free inode numbers and the search for a name, Create, CreateImage and
-- CreateRun a creation write by write, Shift and Removal a removal call by call; Mfs/Lookup,
-- Start, WriteRead, Existing, CreateLookup, CreateWrite, Unlinked and Replay have the theorems.
-- main, the sockets, fsync and the debug output are not modelled.
--
-- Mfs, the client (p5/MFS/mfs.c). Mfs/Transmit has the buffers and transmit, on a list of the
-- rounds of its inner loop: what UDP_Read gives, and whether the time is over. Mfs/Client has the
-- MFS_* calls, which have no result when the rounds end before an answer. Mfs/Network is a
-- client, the server and a network that loses, repeats and reorders messages, as a step relation
-- whose steps are transmit_round and receive; Mfs/Reply, Agreement and Exchange have what holds
-- of its runs, EndToEnd and LostAnswer calls with the server's answers. MFS_Shutdown in a run of
-- the network, verify, which nothing calls, and the `%` of a name in MFS_Lookup, which sprintf
-- takes as its format, are not modelled.
--
-- Not modelled: the rest of the three copies of the xv6 kernel, thread_create and thread_join of
-- p4.
pub mod Prelude
pub mod Shell
pub mod Mem
pub mod Proc
pub mod Lottery
pub mod Lock
pub mod Mfs
