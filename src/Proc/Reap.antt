-- ===== src/Proc/Reap.antt =====
-- `wait` and `join` of p4/xv6/kernel/proc.c. A round scans the table once: it returns to the caller or
-- goes to sleep; after a wakeup the next round begins.
use bacon_eggs.Prelude.{
  ℕ, suc, Bool, false, ◌&&◌, ◌||◌, not, none, List, [], ◌∷◌, ltb, ◌==◌, if◌then◌else◌,
}
use bacon_eggs.Prelude.Int.{ℤ, pos, minus_one}
use bacon_eggs.Proc.Table.{
  unused, sleeping, is_zombie, with_proc, slot, Proc, kfree, freevm, copyout, Table, Outcome, ok,
  put, emit, is_child,
}
use bacon_eggs.Proc.Sched.{awake}

-- What a scan of the table finds: a zombie to reap, or whether there are children at all.
pub data Scan : Type 0 where
  found : ℕ → Scan
  havekids : Bool → Scan

pub data Round : Type 0 where
  returns : ℤ → Round
  sleeps : Round

-- The children that `wait` looks at, and those that `join` looks at.
abbrev pub forked_child : ℕ → Proc → Bool
forked_child me p = is_child me p && not (ltb 0 p.thread)

abbrev pub thread_child : ℕ → Proc → Bool
thread_child me p = is_child me p && not (p.thread == 0)

unfoldable pub scan : (Proc → Bool) → List Proc → ℕ → Bool → Scan
scan child [] i kids = havekids kids
scan child (p ∷ ps) i kids =
    let rest = scan child ps (suc i) (kids || child p) in
    if child p && is_zombie p.state then found i else rest

-- A reaped process: `wait` has also freed its kernel stack.
abbrev pub cleared : Proc → Proc
cleared p = record p { state = unused; pid = 0; parent = none; name = []; killed = false }

unfoldable pub wait_reap : ℕ → Proc → Table → Table
wait_reap i p t =
    put (emit (freevm p.pgdir) (emit (kfree p.kstack) t)) i (λ p. record (cleared p) { kstack = 0 })

-- `join` copies the stack of the thread to the address that its caller passed.
unfoldable pub join_reap : (va pgdir i : ℕ) → Proc → Table → Table
join_reap va pgdir i p t = emit (copyout pgdir va (p.thread ∷ [])) (put t i cleared)

-- The end of a round in which no zombie was found.
unfoldable pub no_zombie : ℕ → Proc → Bool → Table → Outcome Round
no_zombie me cur kids t =
    if not kids || cur.killed
    then ok (returns minus_one) t
    else ok sleeps (put t me (λ p. record p { chan = slot me; state = sleeping }))

unfoldable pub wait_found : ℕ → Scan → Proc → Table → Outcome Round
wait_found me (havekids kids) cur t = no_zombie me cur kids t
wait_found me (found i) cur t = with_proc i t λ p. ok (returns (pos p.pid)) (wait_reap i p t)

unfoldable pub wait_round : ℕ → Table → Outcome Round
unfolding scan wait_reap no_zombie wait_found
wait_round me t = with_proc me t λ cur. wait_found me (scan (forked_child me) t.procs 0 false) cur t

unfoldable pub join_found : (va me : ℕ) → Scan → Proc → Table → Outcome Round
join_found va me (havekids kids) cur t = no_zombie me cur kids t
join_found va me (found i) cur t =
    with_proc i t λ p. ok (returns (pos p.pid)) (join_reap va cur.pgdir i p t)

unfoldable pub join_round : (va me : ℕ) → Table → Outcome Round
unfolding scan join_reap no_zombie join_found
join_round va me t =
    with_proc me t λ cur. join_found va me (scan (thread_child me) t.procs 0 false) cur t

-- The round after a wakeup.
unfoldable pub wait_again : ℕ → Table → Outcome Round
unfolding wait_round
wait_again me t = wait_round me (awake me t)

unfoldable pub join_again : (va me : ℕ) → Table → Outcome Round
unfolding join_round
join_again va me t = join_round va me (awake me t)
