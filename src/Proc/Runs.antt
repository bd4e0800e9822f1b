-- ===== src/Proc/Runs.antt =====
-- `fork` and `clone` of p4/xv6/kernel/proc.c as runs of the steps of the table, where no other step comes
-- between.
use bacon_eggs.Prelude.{
  ℕ, ◌-◌, ◌^◌, ◌<◌, ◌≡◌, refl, sym, ap, ◌∙◌, subst, inl, inr, Option, none, some, arith, get_elem?,
  get_elem?-modify, Option-cases, Bool, Bool-cases, if◌then◌else◌,
}
use bacon_eggs.Prelude.Int.{ℤ, minus_one}
use bacon_eggs.Proc.Table.{embryo, is_unused, Proc, Table, ok, panic, Outcome, with_proc}
use bacon_eggs.Proc.Create.{take_slot, clone_from, clone_into, clone, bad_stack, allocproc}
use bacon_eggs.Proc.Alloc.{FirstUnused, FirstUnused-At, find_unused-first, allocproc_lem}
use bacon_eggs.Proc.Leaves.{Running}
use bacon_eggs.Proc.Fork.{CanFork, taken, embryo_of, taken-At, taken-Elsewhere, other_slot}
use bacon_eggs.Proc.Step.{Taken, takes, stacks, Reach, here, next, Step, clones}

same_table : {r q : ℤ} {t u : Table} → ok r t ≡ ok q u → t ≡ u
same_table e = cc e

-- The first step, and the slot after it.
taken_first :
    (t : Table) (me i : ℕ)
    → Running t me
    → t.nextpid < 2 ^ 31 - 1
    → FirstUnused t.procs i
    → Reach t (take_slot i t)
taken_first t me i runs small first =
    next here (takes me i runs (find_unused-first t.procs 0 i first ∙ ap some (omega arith)) small)

slot-Taken : (t : Table) (i : ℕ) → FirstUnused t.procs i → Taken (take_slot i t) i
slot-Taken t i first =
    let (old, at, free) = FirstUnused-At t.procs i first in
    record {
      proc = record old { state = embryo; pid = t.nextpid };
      here =
          ground (
            arith,
            get_elem?-modify t.procs i (λ p. record p { state = embryo; pid = t.nextpid }) i,
          );
      new = refl;
    }

with_proc-some :
    {A : Type 0} (i : ℕ) (t : Table) (f : Proc → Outcome A) {p : Proc}
    → get_elem? t.procs i ≡ some p
    → with_proc i t f ≡ f p
with_proc-some {A} i t f at =
    ap (λ (o : Option Proc). elim o as (λ _. Outcome A) [ none ↦ panic | some p ↦ f p ]) at

-- What is done with the slot that `allocproc` returns, to which the last step belongs.
pub record IsLast (from : Option ℕ × Table → Outcome ℤ) (t : Table) (me : ℕ) : Type 0 where
  pub failed : (u : Table) → from (none, u) ≡ ok minus_one u
  pub step :
      {r : ℤ} {t' : Table} (i k : ℕ)
      → Running (taken t i k) me
      → Taken (taken t i k) i
      → from (some i, taken t i k) ≡ ok r t'
      → Step (taken t i k) t'

alloc-Reach :
    (from : Option ℕ × Table → Outcome ℤ) (page : Option ℕ) (me : ℕ) {r : ℤ} {t t' : Table}
    → IsLast from t me
    → Running t me
    → t.nextpid < 2 ^ 31 - 1
    → from (allocproc page t) ≡ ok r t'
    → Reach t t'
alloc-Reach from page me {r} {t} {t'} last runs small e = elim (allocproc_lem page t) [
  | inl (all, run) ↦ subst (Reach t) (same_table (sym (last.failed t) ∙ sym (ap from run) ∙ e)) here
  | inr (i, first, got, failed) ↦ elim (Option-cases page) [
    | inl no_page ↦
        subst (Reach t) (same_table (sym (last.failed _) ∙ sym (ap from (failed no_page)) ∙ e))
          (next (taken_first t me i runs small first) (stacks none i (slot-Taken t i first)))
    | inr (k, got_page) ↦
        let (old, at, free) = FirstUnused-At t.procs i first in
        let can : CanFork t me i k runs.proc old = record {
          current = runs.here;
          in_use = ap is_unused runs.runs;
          free = first;
          slot_old = at;
        } in
        let parent : Running (taken t i k) me = record {
          proc = runs.proc;
          here = taken-Elsewhere t i k me (other_slot can) ∙ runs.here;
          runs = runs.runs;
        } in
        let child : Taken (taken t i k) i = record {
          proc = embryo_of t k old;
          here = taken-At t i k old at;
          new = refl;
        } in
        next (next (taken_first t me i runs small first) (stacks (some k) i (slot-Taken t i first)))
          (last.step i k parent child (sym (ap from (got k got_page)) ∙ e))
  ]
]

clone_from-IsLast :
    (copied : Bool) (fcn arg stack : ℕ) (t : Table) (me : ℕ)
    → IsLast (clone_from copied fcn arg stack me) t me
unfolding clone_from
clone_from-IsLast copied fcn arg stack t me = record {
  failed = λ u. refl;
  step = λ i k parent child e.
      let u = taken t i k in
      let last : Proc → Proc → Outcome ℤ =
        λ cur np. clone_into copied fcn arg stack me i cur np u in
      clones copied fcn arg stack me i parent child (
        sym (with_proc-some i u (last parent.proc) child.here)
        ∙ sym (with_proc-some me u (λ cur. with_proc i u (last cur)) parent.here)
        ∙ e);
}

-- The same for `clone`, which takes no slot when the stack is refused.
clone-Reach :
    (page : Option ℕ) (copied : Bool) (fcn arg stack me : ℕ) {r : ℤ} {t t' : Table}
    → Running t me
    → t.nextpid < 2 ^ 31 - 1
    → clone page copied fcn arg stack me t ≡ ok r t'
    → Reach t t'
unfolding clone
clone-Reach page copied fcn arg stack me {r} {t} {t'} runs small e =
    let rest = clone_from copied fcn arg stack me (allocproc page t) in
    let e' : (if bad_stack runs.proc stack then ok minus_one t else rest) ≡ ok r t' =
      sym (
        with_proc-some me t (λ cur. if bad_stack cur stack then ok minus_one t else rest) runs.here)
      ∙ e in
    elim (Bool-cases (bad_stack runs.proc stack)) [
      | inl bad ↦
          let same : (if bad_stack runs.proc stack then ok minus_one t else rest) ≡ ok minus_one t =
            rw bad refl in
          subst (Reach t) (same_table (sym same ∙ e')) here
      | inr good ↦
          let same : (if bad_stack runs.proc stack then ok minus_one t else rest) ≡ rest =
            rw good refl in
          alloc-Reach (clone_from copied fcn arg stack me) page me
            (clone_from-IsLast copied fcn arg stack t me) runs small (sym same ∙ e')
    ]
