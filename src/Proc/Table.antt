-- ===== src/Proc/Table.antt =====
-- `struct proc` of p4/xv6/kernel/proc.h, and `ptable` of p4/xv6/kernel/proc.c.
use bacon_eggs.Prelude.{
  ℕ, Bool, true, false, Option, none, some, List, ◌∷◌, ◌==◌, get_elem?, modify,
}

-- `enum procstate`.
pub data ProcState : Type 0 where
  unused embryo sleeping runnable running zombie : ProcState

abbrev pub is_unused : ProcState → Bool
is_unused unused = true
is_unused _ = false

abbrev pub is_sleeping : ProcState → Bool
is_sleeping sleeping = true
is_sleeping _ = false

abbrev pub is_runnable : ProcState → Bool
is_runnable runnable = true
is_runnable _ = false

abbrev pub is_zombie : ProcState → Bool
is_zombie zombie = true
is_zombie _ = false

-- What a process sleeps on: NULL, a slot of the table, or another kernel address.
pub data Chan : Type 0 where
  nowhere : Chan
  slot : ℕ → Chan
  address : ℕ → Chan

abbrev pub same_chan : Chan → Chan → Bool
same_chan nowhere nowhere = true
same_chan nowhere _ = false
same_chan (slot i) (slot j) = i == j
same_chan (slot i) _ = false
same_chan (address a) (address b) = a == b
same_chan (address a) _ = false

-- The registers that the functions do not set one by one: as a trap pushed them, or as `userinit`
-- makes them, the user segments and FL_IF over zeros.
pub data Registers : Type 0 where
  pushed : ℕ → Registers
  user_start : Registers

pub record TrapFrame : Type 0 where
  pub eax : ℕ
  pub eip : ℕ
  pub esp : ℕ
  pub rest : Registers

-- The saved kernel context: not set, or set up by `allocproc` to return to `forkret` and from there
-- to `trapret`.
pub data Context : Type 0 where
  unset at_forkret : Context

-- A zero pointer is 0; `parent` is a slot of the table; `name` has the characters before the final zero.
pub record Proc : Type 0 where
  pub sz : ℕ
  pub pgdir : ℕ
  pub kstack : ℕ
  pub state : ProcState
  pub pid : ℕ
  pub parent : Option ℕ
  pub tf : TrapFrame
  pub context : Context
  pub chan : Chan
  pub killed : Bool
  pub ofile : List ℕ
  pub cwd : ℕ
  pub name : List ℕ
  pub thread : ℕ

abbrev pub nproc : ℕ
nproc = 64

abbrev pub nofile : ℕ
nofile = 16

abbrev pub pgsize : ℕ
pgsize = 4096

-- A call into another part of the kernel: kalloc.c, vm.c, file.c, fs.c.
pub data Effect : Type 0 where
  kfree : ℕ → Effect
  freevm : ℕ → Effect
  filedup : ℕ → Effect
  fileclose : ℕ → Effect
  idup : ℕ → Effect
  iput : ℕ → Effect
  inituvm : (pgdir : ℕ) → Effect
  switchuvm : (i : ℕ) → Effect
  copyout : (pgdir va : ℕ) → List ℕ → Effect

-- `trace` has the calls into other parts, the last one first.
-- `nextpid` and the pids are of type `int`: the model stands for the code while `nextpid` is below
-- 2 ^ 31.
pub record Table : Type 0 where
  pub procs : List Proc
  pub nextpid : ℕ
  pub initproc : ℕ
  pub trace : List Effect

-- A function returns, or the kernel panics; a NULL `proc` is a panic too.
pub data Outcome (A : Type 0) : Type 0 where
  ok : A → Table → Outcome A
  panic : Outcome A

abbrev pub put : Table → ℕ → (Proc → Proc) → Table
put t i f = record t { procs = modify t.procs i f }

abbrev pub emit : Effect → Table → Table
emit e t = record t { trace = e ∷ t.trace }

-- `p->parent == &ptable.proc[me]`.
abbrev pub is_child : ℕ → Proc → Bool
is_child me p = elim p.parent [ none ↦ false | some q ↦ q == me ]

abbrev pub parent_chan : Option ℕ → Chan
parent_chan none = nowhere
parent_chan (some q) = slot q

-- The process in a slot, for a function that reads it.
abbrev pub with_proc : {A : Type 0} → ℕ → Table → (Proc → Outcome A) → Outcome A
with_proc i t k = elim (get_elem? t.procs i) [ none ↦ panic | some p ↦ k p ]
