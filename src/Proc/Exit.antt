-- ===== src/Proc/Exit.antt =====
-- `exit` of p4/xv6/kernel/proc.c, up to the switch to the scheduler that does not return.
use bacon_eggs.Prelude.{
  ℕ, zero, suc, none, some, List, [], ◌∷◌, ◌==◌, if◌then◌else◌, get_elem?, modify, length, map,
}
use bacon_eggs.Proc.Table.{
  zombie, is_zombie, Effect, with_proc, slot, Proc, fileclose, iput, Table, Outcome, ok, panic, put,
  emit, is_child, parent_chan,
}
use bacon_eggs.Proc.Sched.{wakeup1}

-- The loop over `ofile`: the calls of `fileclose`, and the entries it leaves.
abbrev pub close_calls : List ℕ → List Effect → List Effect
close_calls [] es = es
close_calls (f ∷ fs) es = close_calls fs (if f == 0 then es else fileclose f ∷ es)

abbrev pub emit_closes : List ℕ → Table → Table
emit_closes fs t = record t { trace = close_calls fs t.trace }

-- The loop over the table at slot `i`: an abandoned child goes to init, which is woken for a zombie.
unfoldable pub adopt_at : (me init i : ℕ) → List Proc → List Proc
adopt_at me init i ps = elim (get_elem? ps i) [
  | none ↦ ps
  | some p ↦
      let ps' = modify ps i (λ p. record p { parent = some init }) in
      if is_child me p then (if is_zombie p.state then wakeup1 (slot init) ps' else ps') else ps
]

-- From slot `i` on, for `k` slots.
unfoldable pub adopt : (me init k i : ℕ) → List Proc → List Proc
unfolding adopt_at
adopt me init zero i ps = ps
adopt me init (suc k) i ps = adopt me init k (suc i) (adopt_at me init i ps)

unfoldable pub exit_from : ℕ → Proc → Table → Table
exit_from me cur t =
    let t1 = put (emit_closes cur.ofile t) me (λ p. record p { ofile = map (λ f. 0) cur.ofile }) in
    let t2 = put (emit (iput cur.cwd) t1) me (λ p. record p { cwd = 0 }) in
    let woken = wakeup1 (parent_chan cur.parent) t2.procs in
    put (record t2 { procs = adopt me t.initproc (length woken) 0 woken }) me
      (λ p. record p { state = zombie })

unfoldable pub exit : ℕ → Table → Outcome (Unit {0})
unfolding exit_from
exit me t = if me == t.initproc then panic else with_proc me t (λ cur. ok tt (exit_from me cur t))
