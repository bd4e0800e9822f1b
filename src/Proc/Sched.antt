-- ===== src/Proc/Sched.antt =====
-- `sleep`, `wakeup`, `yield`, `kill` and the choice of `scheduler` of p4/xv6/kernel/proc.c. The lock
-- that `sleep` gives up is not modelled: the step ends with `ptable.lock` held and given to the
-- scheduler. The checks of `sched` concern locks and interrupts only.
use bacon_eggs.Prelude.{
  ℕ, suc, true, ◌&&◌, Option, none, some, List, [], ◌∷◌, map, ◌==◌, if◌then◌else◌, get_elem?,
}
use bacon_eggs.Prelude.Int.{ℤ, pos, minus_one}
use bacon_eggs.Proc.Table.{
  sleeping, runnable, running, is_sleeping, is_runnable, Chan, nowhere, same_chan, Proc, Table,
  Outcome, with_proc, ok, put,
}

-- The loop of `wakeup1`, on one process.
abbrev pub wake : Chan → Proc → Proc
wake c p = if is_sleeping p.state && same_chan p.chan c then record p { state = runnable } else p

unfoldable pub wakeup1 : Chan → List Proc → List Proc
wakeup1 c ps = map (wake c) ps

unfoldable pub wakeup : Chan → Table → Table
unfolding wakeup1
wakeup c t = record t { procs = wakeup1 c t.procs }

-- `sleep` up to the switch to the scheduler, and from the switch back on.
unfoldable pub sleep : Chan → ℕ → Table → Outcome (Unit {0})
sleep c me t = with_proc me t λ p. ok tt (put t me λ p. record p { chan = c; state = sleeping })

unfoldable pub awake : ℕ → Table → Table
awake me t = put t me (λ p. record p { chan = nowhere })

unfoldable pub yield : ℕ → Table → Table
yield me t = put t me (λ p. record p { state = runnable })

-- The loop of `kill`, with the slot that it stops at.
unfoldable pub find_pid : ℕ → List Proc → ℕ → Option ℕ
find_pid pid [] i = none
find_pid pid (p ∷ ps) i = if p.pid == pid then some i else find_pid pid ps (suc i)

abbrev pub mark_killed : Proc → Proc
mark_killed p = record p {
  killed = true;
  state = if is_sleeping p.state then runnable else p.state;
}

-- `pid` is an `int`: a negative one is no process's.
unfoldable pub kill : ℤ → Table → ℤ × Table
unfolding find_pid
kill (pos pid) t = elim (find_pid pid t.procs 0) [
  | none ↦ (minus_one, t)
  | some i ↦ (pos 0, put t i mark_killed)
]
kill n t = (minus_one, t)

-- The body of the loop of `scheduler` at slot `i`, up to the switch to the process: the process that
-- runs, if one does.
unfoldable pub dispatch : ℕ → Table → Option ℕ × Table
dispatch i t = elim (get_elem? t.procs i) [
  | none ↦ (none, t)
  | some p ↦
      if is_runnable p.state
      then (some i, put t i (λ p. record p { state = running }))
      else (none, t)
]
