-- ===== src/Proc/Leaves/Create.antt =====
-- `allocproc`, and `fork` and `clone` from the slot that it took on, keep the table of
-- p4/xv6/kernel/proc.c valid.
use bacon_eggs.Prelude.{
  ℕ, ◌+◌, ◌≡◌, refl, inl, inr, Bool, true, false, Option, none, some, arith, modify,
}
use bacon_eggs.Proc.Table.{unused, embryo, is_unused, at_forkret, Proc, Table, emit, kfree, idup}
use bacon_eggs.Proc.Create.{
  allocproc, fork_into, emit_dups, fork_child, clone_share, clone_child, clone_into,
}
use bacon_eggs.Proc.Pids.{
  At, IsValid, Kept-trans, Kept-IsValid, Kept-modify, take-IsValid, At-modify,
}
use bacon_eggs.Proc.Alloc.{allocproc_lem}
use bacon_eggs.Proc.Leaves.{Valid, Leaves, put-Valid}

-- What `allocproc` leaves: a valid table, and a slot in use where it returns one.
abbrev pub Allocated : Option ℕ × Table → Type 0
Allocated (none, t) = Valid t
Allocated (some i, t) = Valid t × ((p : Proc) → At t.procs i p → is_unused p.state ≡ false)

-- The slot that is taken, after both of its changes.
taken-Valid :
    (t : Table) (i : ℕ) (g : Proc → Proc)
    → Valid t
    → ((p : Proc)
        → ((g p).pid ≡ p.pid) × (is_unused (g p).state ≡ false → is_unused p.state ≡ false))
    → IsValid
        (modify (modify t.procs i λ p. record p { state = embryo; pid = t.nextpid }) i g)
        (t.nextpid + 1)
taken-Valid t i g v keeps =
    Kept-IsValid (take-IsValid i (λ p. record p { state = embryo; pid = t.nextpid }) (λ p. refl) v)
      (Kept-modify _ i g (λ p at. keeps p))

taken-used :
    (t : Table) (i k : ℕ) (p : Proc)
    → At
        (modify
          (modify t.procs i λ p. record p { state = embryo; pid = t.nextpid })
          i
          λ p. record p { kstack = k; context = at_forkret })
        i
        p
    → is_unused p.state ≡ false
taken-used t i k p at =
    elim (At-modify _ i (λ p. record p { kstack = k; context = at_forkret }) i p at) [
      | inl (e, (q, atq, made)) ↦
          elim (At-modify t.procs i (λ p. record p { state = embryo; pid = t.nextpid }) i q atq) [
            | inl (e', (r, atr, made')) ↦ ground arith
            | inr (ne, x) ↦ absurd (ne refl)
          ]
      | inr (ne, x) ↦ absurd (ne refl)
    ]

pub allocproc-Allocated : (page : Option ℕ) (t : Table) → Valid t → Allocated (allocproc page t)
allocproc-Allocated none t v = elim (allocproc_lem none t) [
  | inl (all, run) ↦ rw run v
  | inr (i, first, got, failed) ↦
      rw (failed refl)
        (taken-Valid t i (λ p. record p { kstack = 0; state = unused }) v λ p. (refl, λ u. cc))
]
allocproc-Allocated (some k) t v = elim (allocproc_lem (some k) t) [
  | inl (all, run) ↦ rw run v
  | inr (i, first, got, failed) ↦ rw (got k refl) (
    taken-Valid t i (λ p. record p { kstack = k; context = at_forkret }) v (λ p. (refl, λ u. u)),
    taken-used t i k,
  )
]

pub fork_into-Leaves :
    (uvm : Option ℕ) (me i : ℕ) (cur np : Proc) (t : Table)
    → Allocated (some i, t)
    → Leaves (fork_into uvm me i cur np t)
unfolding fork_into
fork_into-Leaves none me i cur np t (v, u) =
    put-Valid (emit (kfree np.kstack) t) i _ v λ p at. (refl, λ e. cc)
fork_into-Leaves (some d) me i cur np t (v, u) =
    put-Valid (emit (idup cur.cwd) (emit_dups cur.ofile t)) i (λ p. fork_child cur p me d) v
      λ p at. (refl, λ e. u p at)

pub clone_into-Leaves :
    (copied : Bool) (fcn arg stack me i : ℕ) (cur np : Proc) (t : Table)
    → Allocated (some i, t)
    → Leaves (clone_into copied fcn arg stack me i cur np t)
unfolding clone_into
clone_into-Leaves copied fcn arg stack me i cur np t (v, u) =
    elim copied as (λ b. Leaves (clone_into b fcn arg stack me i cur np t)) [
      | true ↦ Kept-IsValid v (
          Kept-trans (Kept-modify t.procs i share λ p at. (refl, λ e. e))
            (Kept-modify _ i (λ p. clone_child cur p stack) λ p at. (refl, λ e. used p at)))
      | false ↦ put-Valid t i share v λ p at. (refl, λ e. e)
    ]
  where
    share : Proc → Proc
    share p = clone_share cur p fcn stack me

    used : (q : Proc) → At (modify t.procs i share) i q → is_unused q.state ≡ false
    used q at = elim (At-modify t.procs i share i q at) [
      | inl (e, (p, atp, made)) ↦ ground (arith, u p)
      | inr (ne, x) ↦ absurd (ne refl)
    ]
