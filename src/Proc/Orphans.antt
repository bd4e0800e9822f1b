-- ===== src/Proc/Orphans.antt =====
-- `exit` of p4/xv6/kernel/proc.c: the zombie, its children, and the parent that waits for it.
use bacon_eggs.Prelude.{
  ℕ, zero, suc, ◌<◌, ◌≡◌, refl, sym, ap, ◌∙◌, ◌≢◌, inl, inr, true, false, Option, none, some, List,
  [], ◌∷◌, map, arith, get_elem?, modify, length, get_elem?-modify, get_elem?-map,
}
use bacon_eggs.Prelude.Int.{pos}
use bacon_eggs.Proc.Files.{CallsEach, close_calls-CallsEach}
use bacon_eggs.Proc.Table.{
  ProcState, unused, embryo, running, is_zombie, Effect, fileclose, runnable, sleeping, zombie,
  nowhere, slot, Proc, Table, ok, iput, is_child, parent_chan, put,
}
use bacon_eggs.Proc.Sched.{wake, wakeup1, awake}
use bacon_eggs.Proc.Exit.{adopt, exit, exit_from, close_calls}
use bacon_eggs.Proc.Reap.{returns, wait_again}
use bacon_eggs.Proc.Pids.{At, Kept, At-modify}
use bacon_eggs.Proc.Leaves.Reap.{adopt-Kept}
use bacon_eggs.Proc.Moves.{Moved, Moves, Moves-trans, Moves-wakeup1, adopt-Moves, adopt-orphans}
use bacon_eggs.Proc.Waiting.{FirstZombie-At, not-NoZombie, child_of, forks_of, wait_round_lem}

At-lt : (ps : List Proc) (j : ℕ) (p : Proc) → At ps j p → j < length ps
At-lt [] j p at = cc
At-lt (q ∷ ps) zero p at = omega arith
At-lt (q ∷ ps) (suc j) p at = omega (arith, At-lt ps j p at)

module _ (t : Table) (me : ℕ) (cur : Proc) where
  -- The table when the loop over the children begins.
  abbrev closed : List Proc
  closed =
      modify (modify t.procs me λ p. record p { ofile = map (λ f. 0) cur.ofile }) me
        λ p. record p { cwd = 0 }

  abbrev woken : List Proc
  woken = wakeup1 (parent_chan cur.parent) closed

  abbrev adopted : List Proc
  adopted = adopt me t.initproc (length woken) 0 woken

  abbrev given_up : Proc
  given_up = record cur { ofile = map (λ f. 0) cur.ofile; cwd = 0 }

  closed-me : At t.procs me cur → At closed me given_up
  closed-me at = ground (
    arith,
    get_elem?-modify (modify t.procs me λ p. record p { ofile = map (λ f. 0) cur.ofile }) me
        (λ p. record p { cwd = 0 }) me,
    get_elem?-modify t.procs me (λ p. record p { ofile = map (λ f. 0) cur.ofile }) me,
  )

  closed-other : (j : ℕ) → j ≢ me → get_elem? closed j ≡ get_elem? t.procs j
  closed-other j ne = ground (
    arith,
    get_elem?-modify (modify t.procs me λ p. record p { ofile = map (λ f. 0) cur.ofile }) me
        (λ p. record p { cwd = 0 }) j,
    get_elem?-modify t.procs me (λ p. record p { ofile = map (λ f. 0) cur.ofile }) j,
  )

  adopted-Moves : Moves me closed adopted
  adopted-Moves =
      Moves-trans me closed woken adopted (Moves-wakeup1 me (parent_chan cur.parent) closed)
        (adopt-Moves me t.initproc (length woken) 0 woken)

  adopted-orphans : t.initproc ≢ me → (j : ℕ) (p : Proc) → At adopted j p → is_child me p ≡ false
  adopted-orphans ne j p at =
      adopt-orphans me t.initproc (length woken) 0 woken ne (λ l q lt atl. absurd (omega arith)) j p
        (omega (
          arith,
          At-lt adopted j p at,
          Kept.size (adopt-Kept me t.initproc (length woken) 0 woken),
        ))
        at

  final-orphans :
      t.initproc ≢ me
      → (j : ℕ) (p : Proc) → At (modify adopted me λ p. record p { state = zombie }) j p
      → is_child me p ≡ false
  final-orphans ne j p at = elim (At-modify adopted me (λ p. record p { state = zombie }) j p at) [
    | inl (e, (q, atq, made)) ↦ ground (arith, adopted-orphans ne j q atq)
    | inr (other, atp) ↦ adopted-orphans ne j p atp
  ]

-- What `exit` by the process `cur` in slot `me` leaves.
abbrev pub Exited : Table → ℕ → Proc → Type 0
Exited t me cur =
    (t' : Table) × (exit me t ≡ ok tt t')
    × ((es : List Effect) × CallsEach fileclose cur.ofile t.trace es
        × (t'.trace ≡ iput cur.cwd ∷ es))
    × ((z : Proc) × At t'.procs me z
        × (z.state ≡ zombie)
        × (z.pid ≡ cur.pid)
        × (z.thread ≡ cur.thread)
        × (z.ofile ≡ map (λ f. 0) cur.ofile)
        × (z.cwd ≡ 0)
        × (is_child me cur ≡ false → z.parent ≡ cur.parent))
    × ((j : ℕ) (p : Proc) → At t'.procs j p → is_child me p ≡ false)
    × ((j : ℕ) (p : Proc) → j ≢ me → At t.procs j p → (q : Proc) × At t'.procs j q × Moved me p q)

-- `exit` by a process other than init, in slot `me`, reaches the scheduler: it has then closed its
-- files and dropped its directory, in this order, its slot holds a zombie with its pid and no open
-- file, no process has it as its parent, and every other slot still has its pid, thread, files and
-- directory, with its parent too if that was not `me`.
pub exit_lem :
    (t : Table) (me : ℕ) (cur : Proc) → At t.procs me cur → t.initproc ≢ me → Exited t me cur
unfolding exit exit_from
exit_lem t me cur at ne =
    let final : Proc → Proc = λ p. record p { state = zombie } in
    let (q, atq, m) = adopted-Moves t me cur me (given_up t me cur) (closed-me t me cur at) in
    (
      record t {
        procs = modify (adopted t me cur) me final;
        trace = iput cur.cwd ∷ close_calls cur.ofile t.trace;
      },
      ground arith,
      (close_calls cur.ofile t.trace, close_calls-CallsEach cur.ofile t.trace, refl),
      (
        final q,
        ground (arith, get_elem?-modify (adopted t me cur) me final me),
        refl,
        m.pid,
        m.thread,
        m.ofile,
        m.cwd,
        m.parent,
      ),
      final-orphans t me cur ne,
      λ j p other atp.
          let (r, atr, n) =
            adopted-Moves t me cur j p (ground (arith, closed-other t me cur j other)) in
          (r, ground (arith, get_elem?-modify (adopted t me cur) me final j), n),
    )

-- A parent that sleeps in `wait` is runnable when the child has exited.
exit-wakes :
    (t : Table) (me q : ℕ) (cur par : Proc)
    → At t.procs me cur
    → t.initproc ≢ me
    → cur.parent ≡ some q
    → q ≢ me
    → At t.procs q par
    → par.state ≡ sleeping
    → par.chan ≡ slot q
    → (t' : Table) × (exit me t ≡ ok tt t') × ((p : Proc) × At t'.procs q p × (p.state ≡ runnable))
unfolding exit exit_from wakeup1
exit-wakes t me q cur par at ne from other atq asleep on =
    let final : Proc → Proc = λ p. record p { state = zombie } in
    let up : At (woken t me cur) q (wake (parent_chan cur.parent) par) = ground (
      arith,
      closed-other t me cur q other,
      get_elem?-map (wake (parent_chan cur.parent)) (closed t me cur) q,
    ) in
    let (r, atr, m) =
      adopt-Moves me t.initproc (length (woken t me cur)) 0 (woken t me cur) q _ up in
    let awake_now : (wake (parent_chan cur.parent) par).state ≡ runnable = ground arith in
    (
      record t {
        procs = modify (adopted t me cur) me final;
        trace = iput cur.cwd ∷ close_calls cur.ofile t.trace;
      },
      ground arith,
      (r, ground (arith, get_elem?-modify (adopted t me cur) me final q), m.runnables awake_now),
    )

child_of-some : (me : ℕ) (o : Option ℕ) → child_of me o ≡ true → o ≡ some me
child_of-some me none child = absurd (cc child)
child_of-some me (some q) child = ap some (ground arith)

zombie_of : (s : ProcState) → is_zombie s ≡ true → s ≡ zombie
zombie_of unused z = absurd (cc z)
zombie_of embryo z = absurd (cc z)
zombie_of sleeping z = absurd (cc z)
zombie_of runnable z = absurd (cc z)
zombie_of running z = absurd (cc z)
zombie_of zombie z = refl

-- A child that waits to be reaped.
pub record IsDeadChild (q : ℕ) (r : Proc) : Type 0 where
  pub of : r.parent ≡ some q
  pub forked : r.thread ≡ 0
  pub dead : r.state ≡ zombie

forks_of-IsDeadChild :
    (q : ℕ) (r : Proc) → forks_of q r ≡ true → is_zombie r.state ≡ true → IsDeadChild q r
forks_of-IsDeadChild q r child z = record {
  of = child_of-some q r.parent (ground (arith, child));
  forked = ground (arith, child);
  dead = zombie_of r.state z;
}

-- A process that is no thread exits while its parent sleeps in `wait`: the parent becomes runnable,
-- and its next round returns the pid of a zombie that is its child and no thread, instead of sleeping
-- again.
pub exit-wait :
    (t : Table) (me q : ℕ) (cur par : Proc)
    → At t.procs me cur
    → t.initproc ≢ me
    → cur.parent ≡ some q
    → cur.thread ≡ 0
    → q ≢ me
    → At t.procs q par
    → par.state ≡ sleeping
    → par.chan ≡ slot q
    → (t' : Table) × (exit me t ≡ ok tt t')
      × ((p : Proc) × At t'.procs q p × (p.state ≡ runnable))
      × ((i : ℕ) × (r : Proc) × At t'.procs i r
          × IsDeadChild q r
          × (t'' : Table) × (wait_again q t' ≡ ok (returns (pos r.pid)) t''))
unfolding wait_again awake
exit-wait t me q cur par at ne from plain other atq asleep on =
    let (t1, run1, _, (z, atz, zs, zp, zt, zo, zc, zpar), _, _) = exit_lem t me cur at ne in
    let (t2, run2, (p, atp, ready)) = exit-wakes t me q cur par at ne from other atq asleep on in
    let same : t2 ≡ t1 = cc in
    let atp' : At t1.procs q p = ground arith in
    let f : Proc → Proc = λ p. record p { chan = nowhere } in
    let t3 = put t1 q f in
    let atz' : At t3.procs me z = ground (arith, get_elem?-modify t1.procs q f me) in
    let atq' : At t3.procs q (f p) = ground (arith, get_elem?-modify t1.procs q f q) in
    (
      t1,
      run1,
      (p, atp', ready),
      elim (wait_round_lem q t3 (f p) atq') [
        | inl (i, r, first, ati, answer) ↦
            let (r', ati', child, dead) = FirstZombie-At (forks_of q) t3.procs i first in
            let one : some r' ≡ some r = sym ati' ∙ ati in
            let alike : r' ≡ r = cc one in
            let dead_child =
              forks_of-IsDeadChild q r (ap (forks_of q) (sym alike) ∙ child)
                (ap (λ x. is_zombie x.state) (sym alike) ∙ dead) in
            elim (At-modify t1.procs q f i r ati) [
              | inl (here, (x, atx, made)) ↦
                  let up : some x ≡ some p = cc in
                  let live : r.state ≡ runnable =
                    ap (λ y. y.state) made
                    ∙ ap (λ o. elim o [ none ↦ runnable | some y ↦ y.state ]) up
                    ∙ ready in
                  absurd (cc (live, dead_child.dead))
              | inr (away, atr) ↦ (i, r, atr, dead_child, _, answer)
            ]
        | inr (n, rest) ↦
            absurd (not-NoZombie (forks_of q) t3.procs me z atz' (ground arith) (ground arith) n)
      ],
    )
