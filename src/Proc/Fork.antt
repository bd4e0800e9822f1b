-- ===== src/Proc/Fork.antt =====
-- `fork` and `clone` of p4/xv6/kernel/proc.c: the child, its slot, and the ways to fail.
use bacon_eggs.Prelude.{
  ℕ, ◌+◌, ◌-◌, ◌%◌, ◌^◌, ◌<◌, ◌≡◌, refl, ap, ◌∙◌, map, List, ◌≢◌, ◌⊎◌, inl, inr, Bool, true, false,
  Option, none, some, ◌∷◌, arith, get_elem?, modify, get_elem?-modify,
}
use bacon_eggs.Prelude.Int.{pos, minus_one}
use bacon_eggs.Proc.Table.{
  unused, embryo, runnable, is_unused, Effect, filedup, at_forkret, Proc, Table, ok, emit, kfree,
  idup, put,
}
use bacon_eggs.Proc.Create.{
  allocproc, dup_files, fork_child, fork_from, fork_into, fork, bad_stack, clone_share, clone_from,
  clone_into, clone, emit_dups, dup_calls,
}
use bacon_eggs.Proc.Files.{CallsEach, dup_calls-CallsEach, dup_files-none}
use bacon_eggs.Proc.Reap.{forked_child, thread_child}
use bacon_eggs.Proc.Pids.{At}
use bacon_eggs.Proc.Alloc.{FirstUnused, FirstUnused-At, find_unused-first}

-- What the call leaves in the other slots of the table.
abbrev pub Elsewhere : ℕ → Table → Table → Type 0
Elsewhere i t t' = (j : ℕ) → j ≢ i → get_elem? t'.procs j ≡ get_elem? t.procs j

module _ (t : Table) (me i k : ℕ) (cur old : Proc) where
  -- A process that is in use forks, and slot `i` is the first that is not in use.
  pub record CanFork : Type 0 where
    pub current : At t.procs me cur
    pub in_use : is_unused cur.state ≡ false
    pub free : FirstUnused t.procs i
    pub slot_old : At t.procs i old

-- The table and the embryo that `allocproc` leaves.
abbrev pub taken : Table → (i k : ℕ) → Table
taken t i k = record t {
  nextpid = t.nextpid + 1;
  procs =
      modify (modify t.procs i λ p. record p { state = embryo; pid = t.nextpid }) i
        λ p. record p { kstack = k; context = at_forkret };
}

abbrev pub embryo_of : Table → ℕ → Proc → Proc
embryo_of t k old = record old { state = embryo; pid = t.nextpid; kstack = k; context = at_forkret }

pub allocproc-taken :
    (t : Table) (i k : ℕ) → FirstUnused t.procs i → allocproc (some k) t ≡ (some i, taken t i k)
unfolding allocproc
allocproc-taken t i k free = ground (arith, find_unused-first t.procs 0 i free)

pub taken-At :
    (t : Table) (i k : ℕ) (old : Proc)
    → At t.procs i old
    → At (taken t i k).procs i (embryo_of t k old)
taken-At t i k old at = ground (
  arith,
  get_elem?-modify (modify t.procs i λ p. record p { state = embryo; pid = t.nextpid }) i
      (λ p. record p { kstack = k; context = at_forkret }) i,
  get_elem?-modify t.procs i (λ p. record p { state = embryo; pid = t.nextpid }) i,
)

pub taken-Elsewhere : (t : Table) (i k : ℕ) → Elsewhere i t (taken t i k)
taken-Elsewhere t i k j ne = ground (
  arith,
  get_elem?-modify (modify t.procs i λ p. record p { state = embryo; pid = t.nextpid }) i
      (λ p. record p { kstack = k; context = at_forkret }) j,
  get_elem?-modify t.procs i (λ p. record p { state = embryo; pid = t.nextpid }) j,
)

-- The slot of the child is not that of the parent.
pub other_slot : {t : Table} {me i k : ℕ} {cur old : Proc} → CanFork t me i k cur old → me ≢ i
other_slot {t} {i} can =
    let (p, at, free) = FirstUnused-At t.procs i can.free in
    let a = can.current in let b = can.in_use in λ e. ground arith

-- The child, whatever files the slot had.
pub fork_dup_lem :
    (t : Table) (me i k d : ℕ) (cur old : Proc)
    → CanFork t me i k cur old
    → (t' : Table) × (fork (some k) (some d) me t ≡ ok (pos t.nextpid) t')
      × At t'.procs i (record old {
        pgdir = d;
        sz = cur.sz;
        kstack = k;
        state = runnable;
        pid = t.nextpid;
        parent = some me;
        tf = record (cur.tf) { eax = 0 };
        context = at_forkret;
        ofile = dup_files cur.ofile old.ofile;
        cwd = cur.cwd;
        name = cur.name;
      })
      × (t'.trace ≡ idup cur.cwd ∷ dup_calls cur.ofile t.trace)
      × Elsewhere i t t'
unfolding fork fork_from fork_into
fork_dup_lem t me i k d cur old can =
    let t2 = taken t i k in
    let at_me = taken-Elsewhere t i k me (other_slot can) in
    let at_i = taken-At t i k old can.slot_old in
    (
      put (emit (idup cur.cwd) (emit_dups cur.ofile t2)) i (λ p. fork_child cur p me d),
      ground (arith, allocproc-taken t i k can.free, can.current),
      ground (arith, get_elem?-modify t2.procs i (λ p. fork_child cur p me d) i),
      refl,
      λ j ne. ground (
        arith,
        get_elem?-modify t2.procs i (λ p. fork_child cur p me d) j,
        taken-Elsewhere t i k j ne,
      ),
    )

-- `fork` by a process in use, with a page and a copied directory, into a slot without open files, while
-- no other processor changes the table: it returns `nextpid`, the pid of the child in the first slot
-- that was not in use. The child is runnable, has the size, files, directory, name and trap frame of
-- the parent but for a zero `eax`, and the flag `killed` and the stack pointer `thread` of the process
-- that had the slot before. Each open file and then the directory is duplicated once, and the other
-- slots stay as they are.
pub fork_lem :
    (t : Table) (me i k d : ℕ) (cur old : Proc)
    → CanFork t me i k cur old
    → old.ofile ≡ map (λ f. 0) cur.ofile
    → (t' : Table) × (fork (some k) (some d) me t ≡ ok (pos t.nextpid) t')
      × At t'.procs i (record old {
        pgdir = d;
        sz = cur.sz;
        kstack = k;
        state = runnable;
        pid = t.nextpid;
        parent = some me;
        tf = record (cur.tf) { eax = 0 };
        context = at_forkret;
        ofile = cur.ofile;
        cwd = cur.cwd;
        name = cur.name;
      })
      × ((es : List Effect) × CallsEach filedup cur.ofile t.trace es
          × (t'.trace ≡ idup cur.cwd ∷ es))
      × Elsewhere i t t'
fork_lem t me i k d cur old can empty =
    let (t', run, at, calls, elsewhere) = fork_dup_lem t me i k d cur old can in
    let files : dup_files cur.ofile old.ofile ≡ cur.ofile =
      ap (dup_files cur.ofile) empty ∙ dup_files-none cur.ofile in
    (
      t',
      run,
      at
          ∙ ap
              (λ fs. some (record old {
                pgdir = d;
                sz = cur.sz;
                kstack = k;
                state = runnable;
                pid = t.nextpid;
                parent = some me;
                tf = record (cur.tf) { eax = 0 };
                context = at_forkret;
                ofile = fs;
                cwd = cur.cwd;
                name = cur.name;
              }))
              files,
      (dup_calls cur.ofile t.trace, dup_calls-CallsEach cur.ofile t.trace, calls),
      elsewhere,
    )

-- `fork` with a page and no directory returns -1: the slot is not in use again, its kernel stack is
-- given back, and the other slots stay as they are.
fork-no_copy :
    (t : Table) (me i k : ℕ) (cur old : Proc)
    → CanFork t me i k cur old
    → (t' : Table) × (fork (some k) none me t ≡ ok minus_one t')
      × ((p : Proc) × At t'.procs i p × (p.state ≡ unused))
      × (t'.trace ≡ kfree k ∷ t.trace)
      × Elsewhere i t t'
unfolding fork fork_from fork_into
fork-no_copy t me i k cur old can =
    let t2 = taken t i k in
    let at_me = taken-Elsewhere t i k me (other_slot can) in
    let at_i = taken-At t i k old can.slot_old in
    let undo : Proc → Proc = λ p. record p { pgdir = 0; kstack = 0; state = unused } in
    (
      put (emit (kfree k) t2) i undo,
      ground (arith, allocproc-taken t i k can.free, can.current),
      (undo (embryo_of t k old), ground (arith, get_elem?-modify t2.procs i undo i), refl),
      refl,
      λ j ne. ground (arith, get_elem?-modify t2.procs i undo j, taken-Elsewhere t i k j ne),
    )

-- A `fork` that takes the slot of a thread that `join` reaped, so that `thread` is not zero there,
-- makes a child that `wait` does not look at, and that `join` does.
pub fork-stale_thread :
    (t : Table) (me i k d : ℕ) (cur old : Proc)
    → CanFork t me i k cur old
    → 0 < old.thread
    → (t' : Table) × (fork (some k) (some d) me t ≡ ok (pos t.nextpid) t')
      × ((p : Proc) × At t'.procs i p
          × (p.parent ≡ some me)
          × (forked_child me p ≡ false)
          × (thread_child me p ≡ true))
fork-stale_thread t me i k d cur old can stale =
    let (t', run, at, calls, rest) = fork_dup_lem t me i k d cur old can in
    (t', run, (_, at, refl, ground arith, ground arith))

-- `clone` with a stack that does not lie on a page boundary, or with less than two pages from it up to
-- the size of the process as an unsigned difference, returns -1 and changes nothing.
pub clone-bad_stack :
    (t : Table) (page : Option ℕ) (copied : Bool) (fcn arg stack me : ℕ) (cur : Proc)
    → At t.procs me cur
    → (stack % 4096 ≢ 0) ⊎ ((cur.sz + 2 ^ 32 - stack) % 2 ^ 32 < 8192)
    → clone page copied fcn arg stack me t ≡ ok minus_one t
unfolding clone
clone-bad_stack t page copied fcn arg stack me cur at (inl odd) = ground arith
clone-bad_stack t page copied fcn arg stack me cur at (inr small) = ground arith

-- `clone` whose copy to the new stack fails returns -1 and does not give the slot back: it stays an
-- embryo, a child of the caller that no call frees.
clone-no_copy :
    (t : Table) (me i k fcn arg stack : ℕ) (cur old : Proc)
    → CanFork t me i k cur old
    → bad_stack cur stack ≡ false
    → (t' : Table) × (clone (some k) false fcn arg stack me t ≡ ok minus_one t')
      × ((p : Proc) × At t'.procs i p × (p.state ≡ embryo) × (p.parent ≡ some me))
      × (t'.trace ≡ t.trace)
unfolding clone clone_from clone_into
clone-no_copy t me i k fcn arg stack cur old can good =
    let t2 = taken t i k in
    let at_me = taken-Elsewhere t i k me (other_slot can) in
    let at_i = taken-At t i k old can.slot_old in
    let share : Proc → Proc = λ p. clone_share cur p fcn stack me in
    (
      put t2 i share,
      ground (arith, allocproc-taken t i k can.free, can.current),
      (share (embryo_of t k old), ground (arith, get_elem?-modify t2.procs i share i), refl, refl),
      refl,
    )
