-- ===== src/Proc/Step.antt =====
-- The process table of p4/xv6/kernel/proc.c as a transition system: running processes call the
-- functions in any order, interrupts wake processes and schedulers dispatch them. What the other
-- parts of the kernel answer is left open in every step. A function that holds `ptable.lock` while it
-- changes the table is one step. `fork` and `clone` hold it only while `allocproc` takes the slot, and
-- are three steps, between which any other step may come: the slot is taken, it gets its stack or is
-- given up, and it gets the rest of the child. `growproc` changes the table without the lock, but only
-- by one write of the size of the process that calls it, which no other function of the file writes in a slot
-- in use. The third step of `fork` and of `clone` makes several writes without the lock: they are in a
-- slot that is an embryo until the last write, or in `fork` the last but that of `name`, and the other
-- functions read of an embryo only its state, its pid, its parent and its `thread`, and write only
-- `killed`, and the parent where it is still that of the process that had the slot before.
-- A slot is taken only while `nextpid` is below 2 ^ 31 - 1: at that number `nextpid++` overflows the
-- `int`, and the transition system has no step for what the code does from there on.
use bacon_eggs.Prelude.{
  ℕ, ◌<◌, ◌-◌, ◌^◌, ◌≡◌, refl, inl, inr, Bool, Option, none, some, Bool-cases, arith, get_elem?,
}
use mathlib.Core.Path.{subst}
use bacon_eggs.Prelude.Int.{ℤ, pos, negsuc}
use bacon_eggs.Proc.Table.{
  unused, embryo, at_forkret, runnable, running, sleeping, nowhere, is_runnable, Chan, Proc, Table,
  ok, Outcome,
}
use bacon_eggs.Proc.Create.{find_unused, take_slot, set_stack, fork_into, clone_into}
use bacon_eggs.Proc.Exit.{exit}
use bacon_eggs.Proc.Reap.{Round, wait_round, join_round}
use bacon_eggs.Proc.Sched.{
  wake, wakeup1, wakeup, sleep, awake, yield, find_pid, kill, mark_killed, dispatch,
}
use bacon_eggs.Proc.Grow.{Resize, growproc, growproc-Leaves}
use bacon_eggs.Proc.Pids.{At, take-IsValid, Kept-IsValid, Kept-map, Kept-refl, Kept-modify_used}
use bacon_eggs.Proc.Leaves.{
  Valid, Running, Leaves, put-Valid, with_proc-Leaves, wake-Keeps, Running-used,
}
use bacon_eggs.Proc.NextPid.{
  SameNext, fork_into-SameNext, clone_into-SameNext, exit-SameNext, wait_round-SameNext,
  join_round-SameNext, sleep-SameNext, growproc-SameNext, kill-next, dispatch-next,
}
use bacon_eggs.Proc.Leaves.Create.{Allocated, fork_into-Leaves, clone_into-Leaves}
use bacon_eggs.Proc.Leaves.Reap.{exit-Leaves, wait_round-Leaves, join_round-Leaves}

-- Slot `i` is taken, and its process does not run yet.
pub record Taken (t : Table) (i : ℕ) : Type 0 where
  pub proc : Proc
  pub here : At t.procs i proc
  pub new : proc.state ≡ embryo

Taken-Allocated : {t : Table} {i : ℕ} → Valid t → Taken t i → Allocated (some i, t)
Taken-Allocated v c = (v, λ p at. ground (arith, c.here, c.new))

-- `me` is a process that runs. A sleeper that was woken and dispatched runs `woken`, the end of
-- `sleep`, and then the next round of `wait` or `join` if it slept there.
pub data Step (t : Table) : Table → Type 0 where
  takes :
      (me i : ℕ)
      → Running t me
      → find_unused t.procs 0 ≡ some i
      → t.nextpid < 2 ^ 31 - 1
      → Step t (take_slot i t)
  stacks : (page : Option ℕ) (i : ℕ) → Taken t i → Step t (set_stack page i t).1
  forks :
      {t' : Table} {r : ℤ} (uvm : Option ℕ) (me i : ℕ)
      → (parent : Running t me) → (child : Taken t i)
      → fork_into uvm me i parent.proc child.proc t ≡ ok r t'
      → Step t t'
  clones :
      {t' : Table} {r : ℤ} (copied : Bool) (fcn arg stack me i : ℕ)
      → (parent : Running t me) → (child : Taken t i)
      → clone_into copied fcn arg stack me i parent.proc child.proc t ≡ ok r t'
      → Step t t'
  exits : {t' : Table} (me : ℕ) → Running t me → exit me t ≡ ok tt t' → Step t t'
  waits : {t' : Table} {r : Round} (me : ℕ) → Running t me → wait_round me t ≡ ok r t' → Step t t'
  joins :
      {t' : Table} {r : Round} (va me : ℕ) → Running t me → join_round va me t ≡ ok r t' → Step t t'
  sleeps : {t' : Table} (c : Chan) (me : ℕ) → Running t me → sleep c me t ≡ ok tt t' → Step t t'
  grows :
      {t' : Table} {r : ℤ} (allocuvm deallocuvm : Resize) (n : ℤ) (me : ℕ)
      → Running t me
      → growproc allocuvm deallocuvm n me t ≡ ok r t'
      → Step t t'
  woken : (me : ℕ) → Running t me → Step t (awake me t)
  yields : (me : ℕ) → Running t me → Step t (yield me t)
  wakes : (c : Chan) → Step t (wakeup c t)
  kills : (pid : ℤ) → Step t (kill pid t).1
  dispatches : (i : ℕ) → Step t (dispatch i t).1

pub data Reach (s : Table) : Table → Type 0 where
  here : Reach s s
  next : {t u : Table} → Reach s t → Step t u → Reach s u

kill-Valid : (pid : ℤ) (t : Table) → Valid t → Valid (kill pid t).1
unfolding kill
kill-Valid (negsuc n) t v = v
kill-Valid (pos pid) t v = go (find_pid pid t.procs 0) refl
  where
    go : (o : Option ℕ) → find_pid pid t.procs 0 ≡ o → Valid (kill (pos pid) t).1
    go none e = rw (e, kill) v
    go (some i) e = rw (e, kill) (put-Valid t i mark_killed v λ p at. (refl, ground arith))

dispatch-Valid : (i : ℕ) (t : Table) → Valid t → Valid (dispatch i t).1
unfolding dispatch
dispatch-Valid i t v = go (get_elem? t.procs i) refl
  where
    go : (o : Option Proc) → get_elem? t.procs i ≡ o → Valid (dispatch i t).1
    go none e = rw (e, dispatch) v
    go (some p) e =
        rw (e, dispatch)
          (elim (Bool-cases (is_runnable p.state)) [
            | inl y ↦ rw y (
                put-Valid t i (λ p. record p { state = running }) v
                  λ q at. (refl, λ u. ground arith))
            | inr n ↦ rw n v
          ])

Leaves-ok : {A : Type 0} {o : Outcome A} {a : A} {t : Table} → o ≡ ok a t → Leaves o → Valid t
Leaves-ok e l = subst Leaves e l

pub Step-Valid : {t u : Table} → Step t u → Valid t → Valid u
unfolding wakeup wakeup1 awake yield sleep
Step-Valid {t} (takes me i r free small) v =
    take-IsValid i (λ p. record p { state = embryo; pid = t.nextpid }) (λ p. refl) v
Step-Valid {t} (stacks none i c) v =
    put-Valid t i (λ p. record p { kstack = 0; state = unused }) v λ p at. (refl, λ e. cc)
Step-Valid {t} (stacks (some k) i c) v =
    put-Valid t i (λ p. record p { kstack = k; context = at_forkret }) v λ p at. (refl, λ e. e)
Step-Valid {t} (forks uvm me i r c e) v =
    Leaves-ok e (fork_into-Leaves uvm me i r.proc c.proc t (Taken-Allocated v c))
Step-Valid {t} (clones copied fcn arg stack me i r c e) v =
    Leaves-ok e (clone_into-Leaves copied fcn arg stack me i r.proc c.proc t (Taken-Allocated v c))
Step-Valid {t} (exits me r e) v = Leaves-ok e (exit-Leaves me t v r)
Step-Valid {t} (waits me r e) v = Leaves-ok e (wait_round-Leaves me t v r)
Step-Valid {t} (joins va me r e) v = Leaves-ok e (join_round-Leaves va me t v r)
Step-Valid {t} (sleeps c me r e) v = Leaves-ok e (
    with_proc-Leaves me t _ λ p at. Kept-IsValid v (
      Kept-modify_used me (λ p. record p { chan = c; state = sleeping }) (Kept-refl t.procs)
        (Running-used r) λ q. refl))
Step-Valid {t} (grows allocuvm deallocuvm n me r e) v =
    Leaves-ok e (growproc-Leaves allocuvm deallocuvm n me t v)
Step-Valid {t} (woken me r) v =
    put-Valid t me (λ p. record p { chan = nowhere }) v λ p at. (refl, λ u. u)
Step-Valid {t} (yields me r) v = Kept-IsValid v (
    Kept-modify_used me (λ p. record p { state = runnable }) (Kept-refl t.procs) (Running-used r)
      λ q. refl)
Step-Valid {t} (wakes c) v = Kept-IsValid v (Kept-map t.procs (wake c) (wake-Keeps c))
Step-Valid {t} (kills pid) v = kill-Valid pid t v
Step-Valid {t} (dispatches i) v = dispatch-Valid i t v

Next-ok :
    {A : Type 0} (t : Table) {o : Outcome A} {a : A} {u : Table}
    → o ≡ ok a u
    → SameNext t o
    → u.nextpid ≡ t.nextpid
Next-ok t e same = subst (SameNext t) e same

-- No step takes `nextpid` beyond an `int`.
Step-small : {t u : Table} → Step t u → t.nextpid < 2 ^ 31 → u.nextpid < 2 ^ 31
unfolding wakeup awake yield
Step-small (takes me i r free low) small = omega (arith, low)
Step-small (stacks none i c) small = small
Step-small (stacks (some k) i c) small = small
Step-small {t} (forks uvm me i r c e) small =
    omega (arith, small, Next-ok t e (fork_into-SameNext uvm me i r.proc c.proc t))
Step-small {t} (clones copied fcn arg stack me i r c e) small =
    omega
      (arith, small, Next-ok t e (clone_into-SameNext copied fcn arg stack me i r.proc c.proc t))
Step-small {t} (exits me r e) small = omega (arith, small, Next-ok t e (exit-SameNext me t))
Step-small {t} (waits me r e) small = omega (arith, small, Next-ok t e (wait_round-SameNext me t))
Step-small {t} (joins va me r e) small =
    omega (arith, small, Next-ok t e (join_round-SameNext va me t))
Step-small {t} (sleeps c me r e) small = omega (arith, small, Next-ok t e (sleep-SameNext c me t))
Step-small {t} (grows allocuvm deallocuvm n me r e) small =
    omega (arith, small, Next-ok t e (growproc-SameNext allocuvm deallocuvm n me t))
Step-small (woken me r) small = small
Step-small (yields me r) small = small
Step-small (wakes c) small = small
Step-small {t} (kills pid) small = omega (arith, small, kill-next pid t)
Step-small {t} (dispatches i) small = omega (arith, small, dispatch-next i t)

-- In every table that steps reach from a valid one whose `nextpid` is an `int`, where a step takes a
-- slot only while `nextpid` is below 2^31 - 1, there are 64 slots, every slot in use has a positive pid
-- below `nextpid`, no two slots share a positive pid, and `nextpid` is still below 2^31, so that it and
-- every pid are numbers that an `int` holds.
pub Reach-Valid :
    {t u : Table} → Valid t → t.nextpid < 2 ^ 31 → Reach t u → Valid u × (u.nextpid < 2 ^ 31)
Reach-Valid v small here = (v, small)
Reach-Valid v small (next r s) =
    let (v', small') = Reach-Valid v small r in (Step-Valid s v', Step-small s small')
