-- ===== src/Proc/Leaves/Reap.antt =====
-- `exit`, `wait` and `join` of p4/xv6/kernel/proc.c keep the table valid.
use bacon_eggs.Prelude.{
  ℕ, zero, suc, ◌≡◌, refl, inl, inr, Bool, false, not, ◌||◌, Option, none, some, List, map, ◌==◌,
  get_elem?, modify, Bool-cases,
}
use bacon_eggs.Proc.Table.{zombie, is_zombie, sleeping, slot, is_child, parent_chan, Proc, Table}
use bacon_eggs.Proc.Exit.{exit, exit_from, adopt, adopt_at}
use bacon_eggs.Proc.Reap.{
  Scan, found, havekids, forked_child, thread_child, cleared, scan, wait_round, wait_found,
  join_round, join_found, no_zombie,
}
use bacon_eggs.Proc.Sched.{wake, wakeup1}
use bacon_eggs.Proc.Pids.{
  Kept, Kept-refl, Kept-trans, Kept-IsValid, Kept-modify, Kept-modify_used, Kept-map, reap-IsValid,
}
use bacon_eggs.Proc.Leaves.{Valid, Running, Leaves, with_proc-Leaves, wake-Keeps, Running-used}

pub adopt_at-Kept : (me init i : ℕ) (ps : List Proc) → Kept ps (adopt_at me init i ps)
unfolding adopt_at wakeup1
adopt_at-Kept me init i ps = go (get_elem? ps i) refl
  where
    parented : Kept ps (modify ps i λ p. record p { parent = some init })
    parented = Kept-modify ps i (λ p. record p { parent = some init }) λ p at. (refl, λ u. u)

    go : (o : Option Proc) → get_elem? ps i ≡ o → Kept ps (adopt_at me init i ps)
    go none e = rw (e, adopt_at) (Kept-refl ps)
    go (some p) e =
        rw (e, adopt_at)
          (elim (Bool-cases (is_child me p)) [
            | inl child ↦ rw child (elim (Bool-cases (is_zombie p.state)) [
              | inl z ↦
                  rw z
                    (Kept-trans parented (Kept-map _ (wake (slot init)) (wake-Keeps (slot init))))
              | inr z ↦ rw z parented
            ])
            | inr other ↦ rw other (Kept-refl ps)
          ])

pub adopt-Kept : (me init k i : ℕ) (ps : List Proc) → Kept ps (adopt me init k i ps)
unfolding adopt
adopt-Kept me init zero i ps = Kept-refl ps
adopt-Kept me init (suc k) i ps =
    Kept-trans (adopt_at-Kept me init i ps) (adopt-Kept me init k (suc i) (adopt_at me init i ps))

pub exit-Leaves : (me : ℕ) (t : Table) → Valid t → Running t me → Leaves (exit me t)
unfolding exit exit_from wakeup1
exit-Leaves me t v r = elim (Bool-cases (me == t.initproc)) [
  | inl init ↦ rw init tt
  | inr other ↦ rw other (
      with_proc-Leaves me t _ λ cur at. Kept-IsValid v (
        Kept-modify_used me (λ p. record p { state = zombie })
          (Kept-trans
            (Kept-modify t.procs me (λ p. record p { ofile = map (λ f. 0) cur.ofile })
              λ p at. (refl, λ u. u))
            (Kept-trans (Kept-modify _ me (λ p. record p { cwd = 0 }) λ p at. (refl, λ u. u)) (
              Kept-trans (Kept-map _ (wake (parent_chan cur.parent)) (wake-Keeps _))
                (adopt-Kept me t.initproc _ 0 _))))
          (Running-used r) λ q. refl))
]

no_zombie-Leaves :
    (me : ℕ) (cur : Proc) (kids : Bool) (t : Table)
    → Valid t
    → Running t me
    → Leaves (no_zombie me cur kids t)
unfolding no_zombie
no_zombie-Leaves me cur kids t v r = elim (Bool-cases (not kids || cur.killed)) [
  | inl stop ↦ rw stop v
  | inr on ↦ rw on (
      Kept-IsValid v (
        Kept-modify_used me (λ p. record p { chan = slot me; state = sleeping }) (Kept-refl t.procs)
          (Running-used r) λ q. refl))
]

pub wait_round-Leaves : (me : ℕ) (t : Table) → Valid t → Running t me → Leaves (wait_round me t)
unfolding wait_round
wait_round-Leaves me t v r =
    with_proc-Leaves me t _ λ cur at. go cur (scan (forked_child me) t.procs 0 false)
  where
    go : (cur : Proc) (s : Scan) → Leaves (wait_found me s cur t)
    go cur (havekids kids) = no_zombie-Leaves me cur kids t v r
    go cur (found i) =
        with_proc-Leaves i t _
          λ p at. reap-IsValid i (λ p. record (cleared p) { kstack = 0 }) (λ p. (refl, refl)) v

pub join_round-Leaves :
    (va me : ℕ) (t : Table) → Valid t → Running t me → Leaves (join_round va me t)
unfolding join_round
join_round-Leaves va me t v r =
    with_proc-Leaves me t _ λ cur at. go cur (scan (thread_child me) t.procs 0 false)
  where
    go : (cur : Proc) (s : Scan) → Leaves (join_found va me s cur t)
    go cur (havekids kids) = no_zombie-Leaves me cur kids t v r
    go cur (found i) = with_proc-Leaves i t _ λ p at. reap-IsValid i cleared (λ p. (refl, refl)) v
