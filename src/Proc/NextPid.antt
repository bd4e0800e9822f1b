-- ===== src/Proc/NextPid.antt =====
-- `nextpid` of p4/xv6/kernel/proc.c, which only `allocproc` changes.
use bacon_eggs.Prelude.{
  ℕ, zero, suc, ◌≡◌, refl, Bool, true, false, Option, none, some, get_elem?, if◌then◌else◌, not,
  ◌||◌, ◌==◌, arith,
}
use bacon_eggs.Prelude.Int.{ℤ, pos, negsuc}
use bacon_eggs.Proc.Table.{Proc, Chan, Table, Outcome, ok, panic, with_proc}
use bacon_eggs.Proc.Create.{fork_into, clone_into}
use bacon_eggs.Proc.Exit.{exit, exit_from}
use bacon_eggs.Proc.Reap.{
  Scan, found, havekids, forked_child, thread_child, scan, wait_round, wait_found, join_round,
  join_found, no_zombie, wait_reap, join_reap,
}
use bacon_eggs.Proc.Sched.{sleep, kill, dispatch}
use bacon_eggs.Proc.Grow.{Resize, growproc, grow_by, resized, set_size}

-- A call that returns leaves `nextpid` as it was.
abbrev pub SameNext : {A : Type 0} → Table → Outcome A → Type 0
SameNext t (ok a u) = u.nextpid ≡ t.nextpid
SameNext t panic = Unit {0}

with_proc-SameNext :
    {A : Type 0} (i : ℕ) (t : Table) (f : Proc → Outcome A)
    → ((p : Proc) → SameNext t (f p))
    → SameNext t (with_proc i t f)
with_proc-SameNext {A} i t f each = go (get_elem? t.procs i)
  where
    go : (o : Option Proc) → SameNext t (elim o as (λ _. Outcome A) [ none ↦ panic | some p ↦ f p ])
    go none = tt
    go (some p) = each p

if-SameNext :
    {A : Type 0} (t : Table) (b : Bool) (x y : Outcome A)
    → SameNext t x
    → SameNext t y
    → SameNext t (if b then x else y)
if-SameNext t true x y p q = p
if-SameNext t false x y p q = q

pub fork_into-SameNext :
    (uvm : Option ℕ) (me i : ℕ) (cur np : Proc) (t : Table)
    → SameNext t (fork_into uvm me i cur np t)
unfolding fork_into
fork_into-SameNext none me i cur np t = refl
fork_into-SameNext (some d) me i cur np t = refl

pub clone_into-SameNext :
    (copied : Bool) (fcn arg stack me i : ℕ) (cur np : Proc) (t : Table)
    → SameNext t (clone_into copied fcn arg stack me i cur np t)
unfolding clone_into
clone_into-SameNext copied fcn arg stack me i cur np t = if-SameNext t copied _ _ refl refl

pub exit-SameNext : (me : ℕ) (t : Table) → SameNext t (exit me t)
unfolding exit exit_from
exit-SameNext me t =
    if-SameNext t (me == t.initproc) panic _ tt (with_proc-SameNext me t _ λ cur. refl)

no_zombie-SameNext :
    (me : ℕ) (cur : Proc) (kids : Bool) (t : Table) → SameNext t (no_zombie me cur kids t)
unfolding no_zombie
no_zombie-SameNext me cur kids t = if-SameNext t (not kids || cur.killed) _ _ refl refl

wait_found-SameNext :
    (me : ℕ) (s : Scan) (cur : Proc) (t : Table) → SameNext t (wait_found me s cur t)
unfolding wait_found wait_reap
wait_found-SameNext me (havekids kids) cur t = no_zombie-SameNext me cur kids t
wait_found-SameNext me (found i) cur t = with_proc-SameNext i t _ λ p. refl

pub wait_round-SameNext : (me : ℕ) (t : Table) → SameNext t (wait_round me t)
unfolding wait_round
wait_round-SameNext me t =
    with_proc-SameNext me t _
      λ cur. wait_found-SameNext me (scan (forked_child me) t.procs 0 false) cur t

join_found-SameNext :
    (va me : ℕ) (s : Scan) (cur : Proc) (t : Table) → SameNext t (join_found va me s cur t)
unfolding join_found join_reap
join_found-SameNext va me (havekids kids) cur t = no_zombie-SameNext me cur kids t
join_found-SameNext va me (found i) cur t = with_proc-SameNext i t _ λ p. refl

pub join_round-SameNext : (va me : ℕ) (t : Table) → SameNext t (join_round va me t)
unfolding join_round
join_round-SameNext va me t =
    with_proc-SameNext me t _
      λ cur. join_found-SameNext va me (scan (thread_child me) t.procs 0 false) cur t

pub sleep-SameNext : (c : Chan) (me : ℕ) (t : Table) → SameNext t (sleep c me t)
unfolding sleep
sleep-SameNext c me t = with_proc-SameNext me t _ λ p. refl

resized-SameNext : (me sz : ℕ) (t : Table) → SameNext t (resized me sz t)
unfolding resized set_size
resized-SameNext me sz t = if-SameNext t (sz == 0) _ _ refl refl

pub growproc-SameNext :
    (allocuvm deallocuvm : Resize) (n : ℤ) (me : ℕ) (t : Table)
    → SameNext t (growproc allocuvm deallocuvm n me t)
unfolding growproc grow_by set_size
growproc-SameNext allocuvm deallocuvm n me t = with_proc-SameNext me t _ λ p. go n p
  where
    go : (n : ℤ) (p : Proc) → SameNext t (grow_by allocuvm deallocuvm n me p t)
    go (pos zero) p = refl
    go (pos (suc n)) p = resized-SameNext me _ t
    go (negsuc n) p = resized-SameNext me _ t

pub kill-next : (pid : ℤ) (t : Table) → (kill pid t).1.nextpid ≡ t.nextpid
unfolding kill
kill-next (negsuc n) t = refl
kill-next (pos pid) t = ground arith

pub dispatch-next : (i : ℕ) (t : Table) → (dispatch i t).1.nextpid ≡ t.nextpid
unfolding dispatch
dispatch-next i t = ground arith
