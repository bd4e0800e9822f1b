-- ===== src/Proc/Tests.antt =====
-- The theorems on p4/xv6/kernel/proc.c at a table with init, a process, its child and its thread.
use bacon_eggs.Prelude.{
  ◌<◌, ◌^◌, ℕ, zero, suc, ◌≡◌, ◌≢◌, refl, true, false, Option, none, some, List, [], ◌∷◌, arith,
  modify, replicate,
}
use bacon_eggs.Prelude.Int.{ℤ, pos}
use bacon_eggs.Proc.Table.{
  Outcome, panic, unused, runnable, running, sleeping, zombie, ProcState, unset, at_forkret,
  nowhere, slot, address, TrapFrame, pushed, Proc, Table, ok, Effect, filedup, idup,
}
use bacon_eggs.Proc.Create.{fork}
use bacon_eggs.Proc.Files.{CallsEach}
use bacon_eggs.Proc.Exit.{exit}
use bacon_eggs.Proc.Reap.{
  returns, sleeps, wait_round, join_round, wait_again, forked_child, thread_child, cleared,
}
use bacon_eggs.Proc.Sched.{wakeup, sleep, kill, find_pid, dispatch}
use bacon_eggs.Proc.Pids.{At, IsValid, take-IsValid}
use bacon_eggs.Proc.Alloc.{AllocAnswer, allocproc_lem}
use bacon_eggs.Proc.Fork.{CanFork, Elsewhere, fork_lem, fork-stale_thread}
use bacon_eggs.Proc.Waiting.{WaitAnswer, JoinAnswer, wait_round_lem, join_round_lem}
use bacon_eggs.Proc.Orphans.{Exited, IsDeadChild, exit_lem, exit-wait}
use bacon_eggs.Proc.Signals.{KillAnswer, kill_lem, kill_zero-fork, sleep-wakeup}
use bacon_eggs.Proc.Leaves.{Valid}
use bacon_eggs.Proc.Grow.{growproc, growproc-stale_size}
use bacon_eggs.Proc.Step.{here, next, kills, dispatches, Reach-Valid}

abbrev frame : TrapFrame
frame = record { eax = 7; eip = 100; esp = 200; rest = pushed 0 }

abbrev blank : Proc
blank = record {
  sz = 0;
  pgdir = 0;
  kstack = 0;
  state = unused;
  pid = 0;
  parent = none;
  tf = frame;
  context = unset;
  chan = nowhere;
  killed = false;
  ofile = 0 ∷ 0 ∷ [];
  cwd = 0;
  name = [];
  thread = 0;
}

abbrev used : ProcState → ℕ → Option ℕ → ℕ → Proc
used st pid par th = record blank {
  sz = 20480;
  pgdir = 5;
  kstack = 6;
  state = st;
  pid = pid;
  parent = par;
  ofile = 0 ∷ 9 ∷ [];
  cwd = 3;
  thread = th;
}

-- Slot 0 has init, slot 1 a shell, slot 2 its child and slot 3 its thread.
abbrev procs_with : (shell child thread : Proc) → List Proc
procs_with shell child thread =
    modify
      (modify (modify (modify (replicate 64 blank) 0 λ p. used sleeping 1 none 0) 1 λ p. shell) 2
        λ p. child)
      3 λ p. thread

abbrev shell : Proc
shell = used running 2 (some 0) 0

abbrev table : List Proc → Table
table ps = record { procs = ps; nextpid = 5; initproc = 0; trace = [] }

abbrev busy : Table
busy = table (procs_with shell (used running 3 (some 1) 0) (used zombie 4 (some 1) 4096))

At-replicate : (n i : ℕ) (p : Proc) → At (replicate n blank) i p → p ≡ blank
At-replicate zero i p at = cc
At-replicate (suc n) zero p at = cc
At-replicate (suc n) (suc i) p at = At-replicate n i p at

blank-IsValid : IsValid (replicate 64 blank) 1
blank-IsValid = record {
  size = refl;
  started = omega arith;
  bounded = λ i p at. ground (arith, At-replicate 64 i p at);
  used = λ i p at u. ground (arith, At-replicate 64 i p at);
  distinct = λ i j p q at at' e positive. absurd (ground (arith, At-replicate 64 i p at));
}

busy-Valid : Valid busy
busy-Valid =
    take-IsValid 3 (λ p. used zombie 4 (some 1) 4096) (λ p. refl)
      (take-IsValid 2 (λ p. used running 3 (some 1) 0) (λ p. refl)
        (take-IsValid 1 (λ p. shell) (λ p. refl)
          (take-IsValid 0 (λ p. used sleeping 1 none 0) (λ p. refl) blank-IsValid)))

Reach-Valid_example :
    Valid (dispatch 4 (kill (pos 3) busy).1).1
    × ((dispatch 4 (kill (pos 3) busy).1).1.nextpid < 2 ^ 31)
Reach-Valid_example =
    Reach-Valid busy-Valid (omega arith) (next (next here (kills (pos 3))) (dispatches 4))

allocproc_lem_example : AllocAnswer (some 8) busy
allocproc_lem_example = allocproc_lem (some 8) busy

shell-CanFork : CanFork busy 1 4 8 shell blank
shell-CanFork = record {
  current = refl;
  in_use = refl;
  free = (refl, (refl, (refl, (refl, refl))));
  slot_old = refl;
}

fork_lem_example :
    (t : Table) × (fork (some 8) (some 11) 1 busy ≡ ok (pos 5) t)
    × At t.procs 4 (record blank {
      pgdir = 11;
      sz = 20480;
      kstack = 8;
      state = runnable;
      pid = 5;
      parent = some 1;
      tf = record frame { eax = 0 };
      context = at_forkret;
      ofile = 0 ∷ 9 ∷ [];
      cwd = 3;
    })
    × ((es : List Effect) × CallsEach filedup (0 ∷ 9 ∷ []) [] es × (t.trace ≡ idup 3 ∷ es))
    × Elsewhere 4 busy t
fork_lem_example = fork_lem busy 1 4 8 11 shell blank shell-CanFork refl

-- The table that a call leaves.
abbrev table_of : Outcome ℤ → Table
table_of (ok r t) = t
table_of panic = busy

-- The table after the thread was reaped: its slot still has its stack pointer.
abbrev reaped : Proc
reaped = cleared (used zombie 4 (some 1) 4096)

abbrev after_join : Table
after_join = table (procs_with shell (used running 3 (some 1) 0) reaped)

fork-stale_thread_example :
    (t : Table) × (fork (some 8) (some 11) 1 after_join ≡ ok (pos 5) t)
    × ((p : Proc) × At t.procs 3 p
        × (p.parent ≡ some 1)
        × (forked_child 1 p ≡ false)
        × (thread_child 1 p ≡ true))
fork-stale_thread_example =
    fork-stale_thread after_join 1 3 8 11 shell reaped
      (record {
        current = refl;
        in_use = refl;
        free = (refl, (refl, (refl, refl)));
        slot_old = refl;
      })
      (omega arith)

wait_round_lem_example : WaitAnswer 1 busy shell
wait_round_lem_example = wait_round_lem 1 busy shell refl

join_round_lem_example : JoinAnswer 4000 1 busy shell
join_round_lem_example = join_round_lem 4000 1 busy shell refl

-- `join` finds the thread, and `wait` passes it over and sleeps for the child.
join_round_run : (t : Table) × (join_round 4000 1 busy ≡ ok (returns (pos 4)) t)
unfolding join_round
join_round_run = (_, refl)

wait_round_run : (t : Table) × (wait_round 1 busy ≡ ok sleeps t)
unfolding wait_round
wait_round_run = (_, refl)

exit_lem_example : Exited busy 2 (used running 3 (some 1) 0)
exit_lem_example = exit_lem busy 2 (used running 3 (some 1) 0) refl (omega arith)

abbrev waiting : Table
waiting = table (
    procs_with (record shell { state = sleeping; chan = slot 1 }) (used running 3 (some 1) 0) blank)

exit-wait_example :
    (t : Table) × (exit 2 waiting ≡ ok tt t)
    × ((p : Proc) × At t.procs 1 p × (p.state ≡ runnable))
    × ((i : ℕ) × (r : Proc) × At t.procs i r
        × IsDeadChild 1 r
        × (t' : Table) × (wait_again 1 t ≡ ok (returns (pos r.pid)) t'))
exit-wait_example =
    exit-wait waiting 2 1 (used running 3 (some 1) 0)
      (record shell { state = sleeping; chan = slot 1 }) refl (omega arith) refl refl (omega arith)
      refl refl refl

kill_lem_example : KillAnswer 3 busy
kill_lem_example = kill_lem 3 busy busy-Valid (omega arith)

kill_zero-fork_example :
    (t : Table) × (kill (pos 0) busy ≡ (pos 0, t))
    × ((t' : Table) × (fork (some 8) (some 11) 1 t ≡ ok (pos 5) t')
        × ((p : Proc) × At t'.procs 4 p × (p.killed ≡ true) × (p.pid ≡ 5)))
unfolding find_pid
kill_zero-fork_example = kill_zero-fork busy 1 4 8 11 shell blank shell-CanFork refl

sleep-wakeup_example :
    (t : Table) × (sleep (address 77) 1 busy ≡ ok tt t)
    × At (wakeup (address 77) t).procs 1 (record shell { chan = address 77; state = runnable })
sleep-wakeup_example = sleep-wakeup (address 77) 1 busy shell refl

-- What vm.c answers when every request succeeds.
abbrev always : (pgdir old new : ℕ) → ℕ
always pgdir old new = new

growproc-stale_size_example :
    (t : Table) × (growproc always always (pos 4096) 1 busy ≡ ok (pos 0) t)
    × ((p : Proc) × (q : Proc) × At t.procs 1 p
        × At t.procs 3 q
        × (p.pgdir ≡ q.pgdir)
        × (p.sz ≢ q.sz)
        × (q.sz ≡ 20480)
        × (p.sz ≡ 24576))
growproc-stale_size_example =
    growproc-stale_size always always (pos 4096) 1 3 busy shell (used zombie 4 (some 1) 4096) refl
      refl (omega arith) refl refl (omega arith) (omega arith)
