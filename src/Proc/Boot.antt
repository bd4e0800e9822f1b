-- ===== src/Proc/Boot.antt =====
-- `userinit` of p4/xv6/kernel/proc.c: the first process, and all that comes after it.
-- What `setupkvm` and `namei` answer are arguments, like the page of `kalloc`.
use bacon_eggs.Prelude.{ℕ, ◌≡◌, false, Option, none, some, List, [], ◌∷◌, replicate}
use bacon_eggs.Proc.Table.{
  unused, runnable, unset, at_forkret, nowhere, user_start, pushed, Proc, nproc, nofile, pgsize,
  inituvm, Table, Outcome, ok, panic, put, emit,
}
use bacon_eggs.Proc.Create.{allocproc}
use bacon_eggs.Proc.Pids.{At}
use bacon_eggs.Proc.Leaves.{Leaves}

-- A slot and the table as the kernel starts: static data are zero but for `nextpid`. The slot of
-- `initproc` is not set yet.
abbrev pub zero_proc : Proc
zero_proc = record {
  sz = 0;
  pgdir = 0;
  kstack = 0;
  state = unused;
  pid = 0;
  parent = none;
  tf = record { eax = 0; eip = 0; esp = 0; rest = pushed 0 };
  context = unset;
  chan = nowhere;
  killed = false;
  ofile = replicate nofile 0;
  cwd = 0;
  name = [];
  thread = 0;
}

abbrev pub start_table : Table
start_table = record { procs = replicate nproc zero_proc; nextpid = 1; initproc = 0; trace = [] }

abbrev pub initcode : List ℕ
initcode = b'i' ∷ b'n' ∷ b'i' ∷ b't' ∷ b'c' ∷ b'o' ∷ b'd' ∷ b'e' ∷ []

abbrev pub first_process : (pgdir root : ℕ) → Proc → Proc
first_process d root p = record p {
  pgdir = d;
  sz = pgsize;
  tf = record { eax = 0; eip = 0; esp = pgsize; rest = user_start };
  name = initcode;
  cwd = root;
  state = runnable;
}

unfoldable pub userinit_from : Option ℕ → ℕ → Option ℕ × Table → Outcome (Unit {0})
userinit_from kvm root (none, t) = panic
userinit_from none root (some i, t) = panic
userinit_from (some d) root (some i, t) =
    ok tt (put (emit (inituvm d) (record t { initproc = i })) i (first_process d root))

unfoldable pub userinit : (page kvm : Option ℕ) → ℕ → Table → Outcome (Unit {0})
unfolding userinit_from
userinit page kvm root t = userinit_from kvm root (allocproc page t)

-- What `userinit` leaves on the zero table, from the page `k`, the directory `d` and the root `root`.
abbrev pub Booted : (k d root : ℕ) → Table → Type 0
Booted k d root t =
    (userinit (some k) (some d) root start_table ≡ ok tt t)
    × (t.initproc ≡ 0)
    × (t.nextpid ≡ 2)
    × At t.procs 0
        (first_process d root (record zero_proc { pid = 1; kstack = k; context = at_forkret }))
