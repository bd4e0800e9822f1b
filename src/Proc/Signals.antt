-- ===== src/Proc/Signals.antt =====
-- `kill`, `sleep` and `wakeup` of p4/xv6/kernel/proc.c.
use bacon_eggs.Prelude.{
  ℕ, zero, suc, ◌+◌, ◌<◌, ◌≡◌, refl, ap, ◌≢◌, ◌⊎◌, inl, inr, true, false, none, some, List, [], ◌∷◌,
  arith, ◌==◌, if◌then◌else◌, modify, get_elem?-modify, get_elem?-map, Bool-cases,
}
use bacon_eggs.Prelude.Int.{pos, minus_one}
use bacon_eggs.Proc.Table.{
  ProcState, unused, embryo, runnable, running, zombie, sleeping, is_sleeping, is_unused, Chan,
  nowhere, slot, address, same_chan, Proc, Table, ok, put,
}
use bacon_eggs.Proc.Create.{fork}
use bacon_eggs.Proc.Sched.{wake, wakeup1, wakeup, sleep, find_pid, kill, mark_killed}
use bacon_eggs.Proc.Pids.{At}
use bacon_eggs.Proc.Leaves.{Valid}
use bacon_eggs.Proc.Alloc.{FirstUnused}
use bacon_eggs.Proc.Fork.{CanFork, other_slot, Elsewhere, fork_dup_lem}

find_pid-cases :
    (pid : ℕ) (ps : List Proc) (b : ℕ)
    → (((j : ℕ) (p : Proc) → At ps j p → p.pid ≢ pid) × (find_pid pid ps b ≡ none))
      ⊎ ((i : ℕ) × (p : Proc) × At ps i p × (p.pid ≡ pid) × (find_pid pid ps b ≡ some (b + i)))
unfolding find_pid
find_pid-cases pid [] b = inl (λ j p at. cc, refl)
find_pid-cases pid (p ∷ ps) b = elim (Bool-cases (p.pid == pid)) [
  | inl hit ↦ inr (0, p, refl, ground arith, ground arith)
  | inr miss ↦ elim (find_pid-cases pid ps (suc b)) [
    | inl (all, run) ↦ inl (first_or p miss all, ground arith)
    | inr (i, q, at, e, run) ↦ inr (suc i, q, at, e, ground arith)
  ]
]
  where
    first_or :
        (p : Proc)
        → (p.pid == pid) ≡ false
        → ((j : ℕ) (q : Proc) → At ps j q → q.pid ≢ pid)
        → (j : ℕ) (q : Proc) → At (p ∷ ps) j q
        → q.pid ≢ pid
    first_or p miss all zero q at = ground arith
    first_or p miss all (suc j) q at = all j q at

stays : (s : ProcState) → s ≢ sleeping → is_sleeping s ≡ false
stays unused ne = refl
stays embryo ne = refl
stays sleeping ne = absurd (ne refl)
stays runnable ne = refl
stays running ne = refl
stays zombie ne = refl

marked :
    (p : Proc)
    → (mark_killed p ≡ record p { killed = true; state = (mark_killed p).state })
      × (p.state ≡ sleeping → (mark_killed p).state ≡ runnable)
      × (p.state ≢ sleeping → (mark_killed p).state ≡ p.state)
marked p = (
  refl,
  λ asleep. ap (λ s. if is_sleeping s then runnable else s) asleep,
  λ awake. rw (stays p.state awake) refl,
)

-- What `kill` of a positive pid answers.
abbrev pub KillAnswer : ℕ → Table → Type 0
KillAnswer pid t =
    (((j : ℕ) (p : Proc) → At t.procs j p → p.pid ≢ pid) × (kill (pos pid) t ≡ (minus_one, t)))
    ⊎ ((i : ℕ) × (p : Proc) × At t.procs i p
        × (p.pid ≡ pid)
        × ((j : ℕ) (q : Proc) → At t.procs j q → q.pid ≡ pid → j ≡ i)
        × (t' : Table) × (kill (pos pid) t ≡ (pos 0, t'))
        × ((q : Proc) × At t'.procs i q
            × (q ≡ record p { killed = true; state = q.state })
            × (p.state ≡ sleeping → q.state ≡ runnable)
            × (p.state ≢ sleeping → q.state ≡ p.state))
        × Elsewhere i t t')

-- `kill` of a positive pid in a valid table: if no slot has the pid it returns -1 and changes nothing.
-- Otherwise it returns 0, the one slot with the pid is marked killed and, if it slept, made runnable,
-- and the other slots stay as they are.
pub kill_lem : (pid : ℕ) (t : Table) → Valid t → 0 < pid → KillAnswer pid t
unfolding kill
kill_lem pid t v positive = elim (find_pid-cases pid t.procs 0) [
  | inl (all, run) ↦ inl (all, ground arith)
  | inr (i, p, at, e, run) ↦ inr (
    i,
    p,
    at,
    e,
    λ j q atq same. v.distinct j i q p atq at (ground arith) (omega arith),
    put t i mark_killed,
    ground arith,
    (let (m0, m1, m2) = marked p in
        (mark_killed p, ground (arith, get_elem?-modify t.procs i mark_killed i), m0, m1, m2)),
    λ j ne. ground (arith, get_elem?-modify t.procs i mark_killed j),
  )
]

FirstUnused-modify :
    (ps : List Proc) (i : ℕ) (f : Proc → Proc)
    → ((p : Proc) → is_unused p.state ≡ true → is_unused (f p).state ≡ true)
    → FirstUnused ps i
    → FirstUnused (modify ps i f) i
FirstUnused-modify [] i f keeps first = first
FirstUnused-modify (p ∷ ps) zero f keeps first = keeps p first
FirstUnused-modify (p ∷ ps) (suc i) f keeps first =
    (first.0, FirstUnused-modify ps i f keeps first.1)

-- `kill(0)` where the first slot with pid 0 is one that is not in use, and the first such: it returns
-- 0, and a process that then forks into that slot gets a child that is killed from the start.
pub kill_zero-fork :
    (t : Table) (me i k d : ℕ) (cur old : Proc)
    → CanFork t me i k cur old
    → find_pid 0 t.procs 0 ≡ some i
    → (t' : Table) × (kill (pos 0) t ≡ (pos 0, t'))
      × ((t'' : Table) × (fork (some k) (some d) me t' ≡ ok (pos t.nextpid) t'')
          × ((p : Proc) × At t''.procs i p × (p.killed ≡ true) × (p.pid ≡ t.nextpid)))
unfolding kill
kill_zero-fork t me i k d cur old can found =
    let t' = put t i mark_killed in
    let ne = other_slot can in
    let (t'', run, at, calls, rest) = fork_dup_lem t' me i k d cur (mark_killed old) (record {
      current = ground (arith, get_elem?-modify t.procs i mark_killed me, can.current);
      in_use = can.in_use;
      free = FirstUnused-modify t.procs i mark_killed (λ p. ground arith) can.free;
      slot_old = ground (arith, get_elem?-modify t.procs i mark_killed i, can.slot_old);
    }) in
    (t', ground arith, (t'', run, (_, at, refl, refl)))

same_chan_refl : (c : Chan) → same_chan c c ≡ true
same_chan_refl nowhere = refl
same_chan_refl (slot i) = ground arith
same_chan_refl (address a) = ground arith

-- A process that goes to sleep on `c` is runnable after a wakeup of `c`, whatever else sleeps there.
pub sleep-wakeup :
    (c : Chan) (me : ℕ) (t : Table) (cur : Proc)
    → At t.procs me cur
    → (t' : Table) × (sleep c me t ≡ ok tt t')
      × At (wakeup c t').procs me (record cur { chan = c; state = runnable })
unfolding sleep wakeup wakeup1
sleep-wakeup c me t cur at =
    let f : Proc → Proc = λ p. record p { chan = c; state = sleeping } in
    (
      put t me f,
      ground arith,
      ground (
        arith,
        same_chan_refl c,
        get_elem?-map (wake c) (modify t.procs me f) me,
        get_elem?-modify t.procs me f me,
      ),
    )
