-- ===== src/Proc/Alloc.antt =====
-- `allocproc` of p4/xv6/kernel/proc.c: which slot it takes, and what it leaves.
use bacon_eggs.Prelude.{
  ℕ, zero, suc, ◌+◌, ◌≡◌, refl, ◌⊎◌, inl, inr, true, false, Option, none, some, List, [], ◌∷◌,
  arith, modify, Bool-cases,
}
use bacon_eggs.Proc.Table.{unused, embryo, is_unused, at_forkret, Proc, Table}
use bacon_eggs.Proc.Create.{find_unused, allocproc}
use bacon_eggs.Proc.Pids.{At}

-- Every slot of the list is in use.
abbrev pub AllUsed : List Proc → Type 0
AllUsed [] = Unit {0}
AllUsed (p ∷ ps) = (is_unused p.state ≡ false) × AllUsed ps

-- `i` is the first slot that is not in use.
abbrev pub FirstUnused : List Proc → ℕ → Type 0
FirstUnused [] i = ⊥
FirstUnused (p ∷ ps) zero = is_unused p.state ≡ true
FirstUnused (p ∷ ps) (suc i) = (is_unused p.state ≡ false) × FirstUnused ps i

find_unused-cases :
    (ps : List Proc) (b : ℕ)
    → (AllUsed ps × (find_unused ps b ≡ none))
      ⊎ ((i : ℕ) × FirstUnused ps i × (find_unused ps b ≡ some (b + i)))
unfolding find_unused
find_unused-cases [] b = inl (tt, refl)
find_unused-cases (p ∷ ps) b = elim (Bool-cases (is_unused p.state)) [
  | inl free ↦ inr (0, free, ground arith)
  | inr taken ↦ elim (find_unused-cases ps (suc b)) [
    | inl (all, run) ↦ inl ((taken, all), ground arith)
    | inr (i, first, run) ↦ inr (suc i, (taken, first), ground arith)
  ]
]

pub find_unused-first :
    (ps : List Proc) (b i : ℕ) → FirstUnused ps i → find_unused ps b ≡ some (b + i)
unfolding find_unused
find_unused-first [] b i f = absurd f
find_unused-first (p ∷ ps) b zero f = ground arith
find_unused-first (p ∷ ps) b (suc i) f = ground (arith, find_unused-first ps (suc b) i f.1)

-- The slot that was first not in use.
pub FirstUnused-At :
    (ps : List Proc) (i : ℕ)
    → FirstUnused ps i
    → (p : Proc) × At ps i p × (is_unused p.state ≡ true)
FirstUnused-At [] i f = absurd f
FirstUnused-At (p ∷ ps) zero f = (p, refl, f)
FirstUnused-At (p ∷ ps) (suc i) f = FirstUnused-At ps i f.1

-- What `allocproc` answers, by the page that it gets.
abbrev pub AllocAnswer : Option ℕ → Table → Type 0
AllocAnswer page t =
    (AllUsed t.procs × (allocproc page t ≡ (none, t)))
    ⊎ ((i : ℕ) × FirstUnused t.procs i
        × ((k : ℕ)
            → page ≡ some k
            → allocproc page t ≡ (
              some i,
              record t {
                nextpid = t.nextpid + 1;
                procs =
                    modify (modify t.procs i λ p. record p { state = embryo; pid = t.nextpid }) i
                      λ p. record p { kstack = k; context = at_forkret };
              },
            ))
        × (page ≡ none
            → allocproc page t ≡ (
              none,
              record t {
                nextpid = t.nextpid + 1;
                procs =
                    modify (modify t.procs i λ p. record p { state = embryo; pid = t.nextpid }) i
                      λ p. record p { kstack = 0; state = unused };
              },
            )))

-- `allocproc` with every slot in use returns NULL and changes nothing. Otherwise it takes the first
-- slot that is not in use, whose pid becomes `nextpid`, which it advances: given a page, it returns
-- that slot, an embryo with the page as its kernel stack; without one, it returns NULL and the slot
-- is not in use.
pub allocproc_lem : (page : Option ℕ) (t : Table) → AllocAnswer page t
unfolding allocproc
allocproc_lem page t = elim (find_unused-cases t.procs 0) [
  | inl (all, run) ↦ inl (all, ground arith)
  | inr (i, first, run) ↦ inr (i, first, λ k e. ground arith, λ e. ground arith)
]
