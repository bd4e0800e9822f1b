-- ===== src/Proc/Waiting.antt =====
-- `wait` and `join` of p4/xv6/kernel/proc.c: what a round answers.
use bacon_eggs.Prelude.{
  ℕ, zero, suc, ◌+◌, ◌≡◌, refl, fun_ext, ltb, not, Option, none, some, ◌==◌, ◌⊎◌, inl, inr, Bool,
  true, false, ◌||◌, List, [], ◌∷◌, arith, ◌&&◌, modify, Bool-cases,
}
use mathlib.Core.Path.{subst}
use bacon_eggs.Prelude.Int.{pos, minus_one}
use bacon_eggs.Proc.Table.{
  unused, sleeping, slot, is_zombie, Proc, Table, Outcome, ok, kfree, freevm, copyout, put,
}
use bacon_eggs.Proc.Reap.{
  found, havekids, Round, returns, sleeps, scan, forked_child, thread_child, wait_reap, join_reap,
  wait_found, join_found, no_zombie, wait_round, join_round,
}
use bacon_eggs.Proc.Pids.{At}

-- `i` is the first slot with a zombie among the children.
abbrev pub FirstZombie : (Proc → Bool) → List Proc → ℕ → Type 0
FirstZombie child [] i = ⊥
FirstZombie child (p ∷ ps) zero = (child p ≡ true) × (is_zombie p.state ≡ true)
FirstZombie child (p ∷ ps) (suc i) =
    ((child p && is_zombie p.state) ≡ false) × FirstZombie child ps i

abbrev pub NoZombie : (Proc → Bool) → List Proc → Type 0
NoZombie child [] = Unit {0}
NoZombie child (p ∷ ps) = ((child p && is_zombie p.state) ≡ false) × NoZombie child ps

abbrev pub any_child : (Proc → Bool) → List Proc → Bool
any_child child [] = false
any_child child (p ∷ ps) = child p || any_child child ps

scan-cases :
    (child : Proc → Bool) (ps : List Proc) (b : ℕ) (kids : Bool)
    → ((i : ℕ) × FirstZombie child ps i × (scan child ps b kids ≡ found (b + i)))
      ⊎ (NoZombie child ps × (scan child ps b kids ≡ havekids (kids || any_child child ps)))
unfolding scan
scan-cases child [] b kids = inr (tt, ground arith)
scan-cases child (p ∷ ps) b kids = elim (Bool-cases (child p && is_zombie p.state)) [
  | inl hit ↦ inl (0, (ground arith, ground arith), ground arith)
  | inr miss ↦ elim (scan-cases child ps (suc b) (kids || child p)) [
    | inl (i, first, run) ↦ inl (suc i, (miss, first), ground arith)
    | inr (none_there, run) ↦ inr ((miss, none_there), ground arith)
  ]
]

pub FirstZombie-At :
    (child : Proc → Bool) (ps : List Proc) (i : ℕ)
    → FirstZombie child ps i
    → (p : Proc) × At ps i p × (child p ≡ true) × (is_zombie p.state ≡ true)
FirstZombie-At child [] i f = absurd f
FirstZombie-At child (p ∷ ps) zero f = (p, refl, f.0, f.1)
FirstZombie-At child (p ∷ ps) (suc i) f = FirstZombie-At child ps i f.1

pub not-NoZombie :
    (child : Proc → Bool) (ps : List Proc) (i : ℕ) (p : Proc)
    → At ps i p
    → child p ≡ true
    → is_zombie p.state ≡ true
    → NoZombie child ps
    → ⊥
not-NoZombie child [] i p at c z n = cc
not-NoZombie child (q ∷ ps) zero p at c z n = ground arith
not-NoZombie child (q ∷ ps) (suc i) p at c z n = not-NoZombie child ps i p at c z n.1

-- What a round that found no zombie answers: -1 without children or when killed, and else it sleeps
-- on the slot of the caller.
abbrev pub Waits : (Proc → Bool) → ℕ → Proc → Table → Outcome Round → Type 0
Waits child me cur t o =
    NoZombie child t.procs
    × ((((any_child child t.procs ≡ false) ⊎ (cur.killed ≡ true)) × (o ≡ ok (returns minus_one) t))
        ⊎ ((any_child child t.procs ≡ true)
            × (cur.killed ≡ false)
            × (o ≡ ok sleeps (put t me λ p. record p { chan = slot me; state = sleeping }))))

no_zombie-Waits :
    (child : Proc → Bool) (me : ℕ) (cur : Proc) (t : Table)
    → NoZombie child t.procs
    → Waits child me cur t (no_zombie me cur (false || any_child child t.procs) t)
unfolding no_zombie
no_zombie-Waits child me cur t n = (
  n,
  elim (Bool-cases (any_child child t.procs)) [
    | inr childless ↦ inl (inl childless, ground arith)
    | inl kids ↦ elim (Bool-cases cur.killed) [
      | inl dead ↦ inl (inr dead, ground arith)
      | inr alive ↦ inr (kids, alive, ground arith)
    ]
  ],
)

-- The children that were forked, and those that are threads.
abbrev pub child_of : ℕ → Option ℕ → Bool
child_of me none = false
child_of me (some q) = q == me

abbrev pub forks_of : ℕ → Proc → Bool
forks_of me p = child_of me p.parent && p.thread == 0

abbrev pub threads_of : ℕ → Proc → Bool
threads_of me p = child_of me p.parent && ltb 0 p.thread

forked_child-forks_of : (me : ℕ) → forked_child me ≡ forks_of me
forked_child-forks_of me = fun_ext λ p. go p.parent p.thread
  where
    go :
        (o : Option ℕ) (n : ℕ)
        → ((elim o [ none ↦ false | some q ↦ q == me ]) && not (ltb 0 n))
          ≡ (child_of me o && n == 0)
    go none n = refl
    go (some q) zero = refl
    go (some q) (suc n) = ground arith

thread_child-threads_of : (me : ℕ) → thread_child me ≡ threads_of me
thread_child-threads_of me = fun_ext λ p. go p.parent p.thread
  where
    go :
        (o : Option ℕ) (n : ℕ)
        → ((elim o [ none ↦ false | some q ↦ q == me ]) && not (n == 0))
          ≡ (child_of me o && ltb 0 n)
    go none n = refl
    go (some q) zero = refl
    go (some q) (suc n) = ground arith

-- What a round of `wait` may answer.
abbrev pub Waited : (Proc → Bool) → ℕ → Table → Proc → Type 0
Waited child me t cur =
    ((i : ℕ) × (p : Proc) × FirstZombie child t.procs i
      × At t.procs i p
      × (wait_round me t
          ≡ ok (returns (pos p.pid)) (record t {
            procs = modify t.procs i λ q. record q {
              state = unused;
              pid = 0;
              parent = none;
              name = [];
              killed = false;
              kstack = 0;
            };
            trace = freevm p.pgdir ∷ kfree p.kstack ∷ t.trace;
          })))
    ⊎ Waits child me cur t (wait_round me t)

abbrev pub WaitAnswer : ℕ → Table → Proc → Type 0
WaitAnswer me t cur = Waited (forks_of me) me t cur

wait_round-Waited :
    (me : ℕ) (t : Table) (cur : Proc) → At t.procs me cur → Waited (forked_child me) me t cur
unfolding wait_round wait_found wait_reap
wait_round-Waited me t cur at = elim (scan-cases (forked_child me) t.procs 0 false) [
  | inl (i, first, run) ↦
      let (p, atp, c, z) = FirstZombie-At (forked_child me) t.procs i first in
      inl (i, p, first, atp, ground arith)
  | inr (n, run) ↦ inr (
      subst (Waits (forked_child me) me cur t) (ground arith)
        (no_zombie-Waits (forked_child me) me cur t n))
]

-- A round of `wait` by the process in slot `me`: with a zombie among its children that are no threads,
-- it frees the kernel stack and the page directory of the first, clears its slot and returns its pid;
-- with none it returns -1 if it has no such child or is killed, and otherwise goes to sleep.
pub wait_round_lem : (me : ℕ) (t : Table) (cur : Proc) → At t.procs me cur → WaitAnswer me t cur
wait_round_lem me t cur at =
    subst (λ child. Waited child me t cur) (forked_child-forks_of me)
      (wait_round-Waited me t cur at)

-- What a round of `join` may answer.
abbrev pub Joined : (Proc → Bool) → (va me : ℕ) → Table → Proc → Type 0
Joined child va me t cur =
    ((i : ℕ) × (p : Proc) × FirstZombie child t.procs i
      × At t.procs i p
      × (join_round va me t
          ≡ ok (returns (pos p.pid)) (record t {
            procs =
                modify t.procs i λ q. record q {
                  state = unused;
                  pid = 0;
                  parent = none;
                  name = [];
                  killed = false;
                };
            trace = copyout cur.pgdir va (p.thread ∷ []) ∷ t.trace;
          })))
    ⊎ Waits child me cur t (join_round va me t)

abbrev pub JoinAnswer : (va me : ℕ) → Table → Proc → Type 0
JoinAnswer va me t cur = Joined (threads_of me) va me t cur

join_round-Joined :
    (va me : ℕ) (t : Table) (cur : Proc) → At t.procs me cur → Joined (thread_child me) va me t cur
unfolding join_round join_found join_reap
join_round-Joined va me t cur at = elim (scan-cases (thread_child me) t.procs 0 false) [
  | inl (i, first, run) ↦
      let (p, atp, c, z) = FirstZombie-At (thread_child me) t.procs i first in
      inl (i, p, first, atp, ground arith)
  | inr (n, run) ↦ inr (
      subst (Waits (thread_child me) me cur t) (ground arith)
        (no_zombie-Waits (thread_child me) me cur t n))
]

-- A round of `join` by the process in slot `me`: with a zombie among its children that are threads, it
-- clears the slot of the first, copies the stack pointer of that thread to the address `va`, frees
-- nothing and returns its pid; with none it returns -1 if it has no such child or is killed, and
-- otherwise goes to sleep.
pub join_round_lem :
    (va me : ℕ) (t : Table) (cur : Proc) → At t.procs me cur → JoinAnswer va me t cur
join_round_lem va me t cur at =
    subst (λ child. Joined child va me t cur) (thread_child-threads_of me)
      (join_round-Joined va me t cur at)
