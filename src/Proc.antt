-- ===== src/Proc.antt =====
-- The process table of p4/xv6/kernel/proc.c, with kernel threads.
-- `proc`, the current process, is an index into the table. A part of a function that holds `ptable.lock`
-- is one step, and so is what a process writes to its own slot, or to that of its embryo, without it.
pub mod Table
pub mod Create
pub mod Exit
pub mod Reap
pub mod Sched
pub mod Pids
pub mod Alloc
pub mod Files
pub mod Fork
pub mod Moves
pub mod Orphans
pub mod Waiting
pub mod Signals
pub mod Leaves
pub mod NextPid
pub mod Step
pub mod Runs
pub mod Grow
pub mod Boot
mod Tests
