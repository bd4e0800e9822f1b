-- ===== src/Proc/Leaves.antt =====
-- What a call on the process table of p4/xv6/kernel/proc.c leaves when it returns: a valid table.
pub mod Create
pub mod Reap
use mathlib.Core.Path.{subst}
use bacon_eggs.Prelude.{
  ℕ, zero, suc, ◌+◌, ◌≤◌, ◌<◌, ◌≡◌, refl, ◌≢◌, ◌⊎◌, inl, inr, Bool, true, false, not, ◌||◌, Option,
  none, some, List, [], ◌∷◌, map, arith, ◌==◌, if◌then◌else◌, get_elem?, modify, get_elem?-modify,
  Bool-cases, Option-cases,
}
use bacon_eggs.Prelude.Int.{ℤ, pos, negsuc, minus_one}
use bacon_eggs.Proc.Table.{
  zombie, is_zombie, sleeping, slot, is_child, parent_chan, unused, embryo, running, is_unused,
  ProcState, Chan, at_forkret, Proc, Table, Outcome, ok, panic, put, nproc, with_proc, emit, kfree,
  idup, filedup, copyout,
}
use bacon_eggs.Proc.Create.{
  allocproc, alloc_slot, fork_from, fork_into, fork, emit_dups, fork_child, bad_stack, clone_share,
  clone_child, clone_from, clone_into, clone,
}
use bacon_eggs.Proc.Exit.{exit, exit_from, adopt, adopt_at, emit_closes}
use bacon_eggs.Proc.Reap.{
  Round, Scan, found, havekids, forked_child, thread_child, cleared, scan, wait_round, wait_found,
  join_round, join_found, no_zombie, wait_reap, join_reap, wait_again, join_again,
}
use bacon_eggs.Proc.Sched.{
  wake, wakeup1, wakeup, sleep, awake, yield, find_pid, kill, mark_killed, dispatch,
}
use bacon_eggs.Proc.Pids.{
  At, IsValid, Keeps, Kept, Kept-refl, Kept-trans, Kept-IsValid, Kept-modify, Kept-modify_used,
  Kept-map, reap-IsValid, take-IsValid, At-modify,
}
use bacon_eggs.Proc.Alloc.{allocproc_lem, FirstUnused, FirstUnused-At}

abbrev pub Valid : Table → Type 0
Valid t = IsValid t.procs t.nextpid

-- `me` is the slot of a process that runs on some processor.
pub record Running (t : Table) (me : ℕ) : Type 0 where
  pub proc : Proc
  pub here : At t.procs me proc
  pub runs : proc.state ≡ running

-- A change of a slot that keeps its pid and does not bring it into use.
pub put-Valid :
    (t : Table) (i : ℕ) (f : Proc → Proc)
    → Valid t
    → ((p : Proc) → At t.procs i p → Keeps p (f p))
    → Valid (put t i f)
put-Valid t i f v keeps = Kept-IsValid v (Kept-modify t.procs i f keeps)

-- A call that returns leaves a valid table.
abbrev pub Leaves : {A : Type 0} → Outcome A → Type 0
Leaves (ok a t) = Valid t
Leaves panic = Unit {0}

pub with_proc-Leaves :
    {A : Type 0} (i : ℕ) (t : Table) (k : Proc → Outcome A)
    → ((p : Proc) → At t.procs i p → Leaves (k p))
    → Leaves (with_proc i t k)
with_proc-Leaves {A} i t k each = go (get_elem? t.procs i) refl
  where
    go :
        (o : Option Proc)
        → get_elem? t.procs i ≡ o
        → Leaves (elim o as (λ _. Outcome A) [ none ↦ panic | some p ↦ k p ])
    go none e = tt
    go (some p) e = each p e

pub wake-Keeps : (c : Chan) (p : Proc) → Keeps p (wake c p)
wake-Keeps c p = ground arith

-- A running process is in use.
pub Running-used :
    {t : Table} {me : ℕ} → Running t me → (p : Proc) → At t.procs me p → is_unused p.state ≡ false
Running-used r p at = ground (arith, r.here, r.runs)
