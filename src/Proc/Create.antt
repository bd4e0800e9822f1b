-- ===== src/Proc/Create.antt =====
-- `allocproc`, `fork` and `clone` of p4/xv6/kernel/proc.c. What kalloc.c and vm.c answer is an
-- argument: the page of `kalloc` and the directory of `copyuvm`, `none` for NULL, and whether
-- `copyout` succeeds.
use bacon_eggs.Prelude.{
  ℕ, suc, ◌+◌, ◌-◌, ◌/◌, ◌%◌, ◌^◌, Bool, ◌||◌, not, Option, none, some, List, [], ◌∷◌, leb, ◌==◌,
  if◌then◌else◌,
}
use bacon_eggs.Prelude.Int.{ℤ, pos, minus_one}
use bacon_eggs.Proc.Table.{
  embryo, unused, runnable, is_unused, Effect, with_proc, at_forkret, Proc, pgsize, kfree, filedup,
  idup, copyout, Table, Outcome, ok, put, emit,
}

-- The loop of `allocproc`.
unfoldable pub find_unused : List Proc → ℕ → Option ℕ
find_unused [] i = none
find_unused (p ∷ ps) i = if is_unused p.state then some i else find_unused ps (suc i)

-- What is done at the label `found`, with `ptable.lock` held. `nextpid` is an `int`: the model stands
-- for the code as long as `nextpid` is below 2 ^ 31 - 1, since `nextpid++` overflows there.
abbrev pub take_slot : ℕ → Table → Table
take_slot i t =
    put (record t { nextpid = t.nextpid + 1 }) i (λ p. record p { state = embryo; pid = t.nextpid })

-- What is done after the lock was released.
abbrev pub set_stack : Option ℕ → ℕ → Table → Option ℕ × Table
set_stack none i t = (none, put t i (λ p. record p { kstack = 0; state = unused }))
set_stack (some k) i t = (some i, put t i (λ p. record p { kstack = k; context = at_forkret }))

unfoldable pub alloc_slot : Option ℕ → ℕ → Table → Option ℕ × Table
alloc_slot page i t = set_stack page i (take_slot i t)

unfoldable pub allocproc : Option ℕ → Table → Option ℕ × Table
unfolding find_unused alloc_slot
allocproc page t = elim (find_unused t.procs 0) [ none ↦ (none, t) | some i ↦ alloc_slot page i t ]

-- The loops over `ofile`: the child's entries, and the calls of `filedup`.
abbrev pub dup_files : List ℕ → List ℕ → List ℕ
dup_files [] gs = gs
dup_files (f ∷ fs) [] = []
dup_files (f ∷ fs) (g ∷ gs) = (if f == 0 then g else f) ∷ dup_files fs gs

abbrev pub dup_calls : List ℕ → List Effect → List Effect
dup_calls [] es = es
dup_calls (f ∷ fs) es = dup_calls fs (if f == 0 then es else filedup f ∷ es)

abbrev pub emit_dups : List ℕ → Table → Table
emit_dups fs t = record t { trace = dup_calls fs t.trace }

-- `fork` from the copied page directory on; `np` is the new process as `allocproc` left it.
abbrev pub fork_child : (cur np : Proc) → (me d : ℕ) → Proc
fork_child cur np me d = record np {
  pgdir = d;
  sz = cur.sz;
  parent = some me;
  tf = record (cur.tf) { eax = 0 };
  ofile = dup_files cur.ofile np.ofile;
  cwd = cur.cwd;
  state = runnable;
  name = cur.name;
}

unfoldable pub fork_into : Option ℕ → ℕ → ℕ → Proc → Proc → Table → Outcome ℤ
fork_into none me i cur np t =
    ok minus_one
      (put (emit (kfree np.kstack) t) i (λ p. record p { pgdir = 0; kstack = 0; state = unused }))
fork_into (some d) me i cur np t =
    ok (pos np.pid)
      (put (emit (idup cur.cwd) (emit_dups cur.ofile t)) i (λ p. fork_child cur p me d))

unfoldable pub fork_from : Option ℕ → ℕ → Option ℕ × Table → Outcome ℤ
fork_from uvm me (none, t) = ok minus_one t
fork_from uvm me (some i, t) = with_proc me t λ cur. with_proc i t λ np. fork_into uvm me i cur np t

unfoldable pub fork : Option ℕ → Option ℕ → ℕ → Table → Outcome ℤ
unfolding fork_from fork_into
fork page uvm me t = fork_from uvm me (allocproc page t)

-- `stacksize` is an unsigned difference, and the alignment is tested on an `int`.
abbrev pub bad_stack : Proc → ℕ → Bool
bad_stack cur stack =
    not (stack % pgsize == 0) || leb ((cur.sz + 2 ^ 32 - stack) % 2 ^ 32 / pgsize) 1

-- `clone` from the shared page directory on: before `copyout`, and after it.
abbrev pub clone_share : (cur np : Proc) → (fcn stack me : ℕ) → Proc
clone_share cur np fcn stack me = record np {
  sz = cur.sz;
  parent = some me;
  pgdir = cur.pgdir;
  tf = record (cur.tf) { eax = 0; eip = fcn; esp = stack };
}

abbrev pub clone_child : (cur np : Proc) → (stack : ℕ) → Proc
clone_child cur np stack = record np {
  ofile = dup_files cur.ofile np.ofile;
  cwd = cur.cwd;
  thread = stack;
  name = cur.name;
  state = runnable;
}

unfoldable pub clone_into : Bool → (fcn arg stack me i : ℕ) → Proc → Proc → Table → Outcome ℤ
clone_into copied fcn arg stack me i cur np t =
    let t' = put t i (λ p. clone_share cur p fcn stack me) in
    if copied
    then ok (pos np.pid) (
        put
          (emit (idup cur.cwd)
            (emit_dups cur.ofile (emit (copyout cur.pgdir stack (0xffff_ffff ∷ arg ∷ [])) t')))
          i (λ p. clone_child cur p stack))
    else ok minus_one t'

unfoldable pub clone_from : Bool → (fcn arg stack me : ℕ) → Option ℕ × Table → Outcome ℤ
clone_from copied fcn arg stack me (none, t) = ok minus_one t
clone_from copied fcn arg stack me (some i, t) =
    with_proc me t λ cur. with_proc i t λ np. clone_into copied fcn arg stack me i cur np t

unfoldable pub clone : Option ℕ → Bool → (fcn arg stack me : ℕ) → Table → Outcome ℤ
unfolding clone_from clone_into
clone page copied fcn arg stack me t = with_proc me t λ cur.
    let rest = clone_from copied fcn arg stack me (allocproc page t) in
    if bad_stack cur stack then ok minus_one t else rest
