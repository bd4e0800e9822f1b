-- ===== src/Proc/Grow.antt =====
-- `growproc` of p4/xv6/kernel/proc.c. `allocuvm` and `deallocuvm` of vm.c are arguments: from the page
-- directory, the old and the new size they compute the size that the process gets, 0 for a failure.
use mathlib.Core.Path.{subst, sym}
use bacon_eggs.Prelude.{
  ℕ, suc, ◌+◌, ◌-◌, ◌%◌, ◌^◌, ◌≡◌, refl, ◌≢◌, ◌<◌, ◌⊎◌, ◌∙◌, zero, ◌==◌, if◌then◌else◌, arith,
  get_elem?-modify, inl, inr, Bool-cases,
}
use bacon_eggs.Prelude.Int.{ℤ, pos, negsuc, minus_one}
use bacon_eggs.Proc.Table.{Proc, Table, Outcome, ok, put, emit, with_proc, switchuvm}
use bacon_eggs.Proc.Pids.{At}
use bacon_eggs.Proc.Fork.{Elsewhere}
use bacon_eggs.Proc.Leaves.{Valid, Leaves, put-Valid, with_proc-Leaves}

abbrev pub Resize : Type 0
Resize = (pgdir old new : ℕ) → ℕ

-- The end of `growproc`.
unfoldable pub set_size : (me sz : ℕ) → Table → Outcome ℤ
set_size me sz t = ok (pos 0) (emit (switchuvm me) (put t me (λ p. record p { sz = sz })))

unfoldable pub resized : (me sz : ℕ) → Table → Outcome ℤ
unfolding set_size
resized me sz t = if sz == 0 then ok minus_one t else set_size me sz t

-- The new size is an unsigned sum.
unfoldable pub grow_by : Resize → Resize → ℤ → ℕ → Proc → Table → Outcome ℤ
unfolding resized set_size
grow_by allocuvm deallocuvm (pos zero) me p t = set_size me p.sz t
grow_by allocuvm deallocuvm (pos (suc n)) me p t =
    resized me (allocuvm p.pgdir p.sz ((p.sz + suc n) % 2 ^ 32)) t
grow_by allocuvm deallocuvm (negsuc n) me p t =
    resized me (deallocuvm p.pgdir p.sz ((p.sz + (2 ^ 32 - (n + 1))) % 2 ^ 32)) t

unfoldable pub growproc : Resize → Resize → ℤ → ℕ → Table → Outcome ℤ
unfolding grow_by
growproc allocuvm deallocuvm n me t = with_proc me t λ p. grow_by allocuvm deallocuvm n me p t

resized-Leaves : (me sz : ℕ) (t : Table) → Valid t → Leaves (resized me sz t)
unfolding resized set_size
resized-Leaves me sz t v = elim (Bool-cases (sz == 0)) [
  | inl y ↦ rw y v
  | inr n ↦ rw n (put-Valid t me (λ p. record p { sz = sz }) v λ p at. (refl, λ u. u))
]

pub growproc-Leaves :
    (allocuvm deallocuvm : Resize) (n : ℤ) (me : ℕ) (t : Table)
    → Valid t
    → Leaves (growproc allocuvm deallocuvm n me t)
unfolding growproc grow_by set_size
growproc-Leaves allocuvm deallocuvm n me t v = with_proc-Leaves me t _ λ p at. go n p
  where
    go : (n : ℤ) (p : Proc) → Leaves (grow_by allocuvm deallocuvm n me p t)
    go (pos zero) p = put-Valid t me (λ q. record q { sz = p.sz }) v λ q at. (refl, λ u. u)
    go (pos (suc n)) p = resized-Leaves me _ t v
    go (negsuc n) p = resized-Leaves me _ t v

-- The table with a new size in slot `me`.
abbrev pub sized : (me sz : ℕ) → Table → Table
sized me sz t = emit (switchuvm me) (put t me (λ p. record p { sz = sz }))

sized-Elsewhere : (me sz : ℕ) (t : Table) → Elsewhere me t (sized me sz t)
sized-Elsewhere me sz t j ne =
    ground (arith, get_elem?-modify t.procs me (λ p. record p { sz = sz }) j)

sized-At :
    (me sz : ℕ) (t : Table) (cur : Proc)
    → At t.procs me cur
    → At (sized me sz t).procs me (record cur { sz = sz })
sized-At me sz t cur at = ground (arith, get_elem?-modify t.procs me (λ p. record p { sz = sz }) me)

-- The size that vm.c answers for `n` bytes more, the old one where none are asked for.
abbrev pub answer : Resize → Resize → ℤ → Proc → ℕ
answer allocuvm deallocuvm (pos zero) cur = cur.sz
answer allocuvm deallocuvm (pos (suc n)) cur = allocuvm cur.pgdir cur.sz ((cur.sz + suc n) % 2 ^ 32)
answer allocuvm deallocuvm (negsuc n) cur =
    deallocuvm cur.pgdir cur.sz ((cur.sz + (2 ^ 32 - (n + 1))) % 2 ^ 32)

-- What `growproc` leaves when the process gets the size `sz`.
abbrev pub Grown : (sz me : ℕ) → Proc → Table → Outcome ℤ → Type 0
Grown sz me cur t o =
    (t' : Table) × (o ≡ ok (pos 0) t') × At t'.procs me (record cur { sz = sz }) × Elsewhere me t t'

abbrev pub GrowAnswer : Resize → Resize → ℤ → ℕ → Table → Proc → Outcome ℤ → Type 0
GrowAnswer allocuvm deallocuvm n me t cur o =
    ((n ≢ pos 0) × (answer allocuvm deallocuvm n cur ≡ 0) × (o ≡ ok minus_one t))
    ⊎ (((n ≡ pos 0) ⊎ (0 < answer allocuvm deallocuvm n cur))
        × Grown (answer allocuvm deallocuvm n cur) me cur t o)

sized-Grown :
    (sz me : ℕ) (cur : Proc) (t : Table) (o : Outcome ℤ)
    → At t.procs me cur
    → o ≡ ok (pos 0) (sized me sz t)
    → Grown sz me cur t o
sized-Grown sz me cur t o at run =
    (sized me sz t, run, sized-At me sz t cur at, sized-Elsewhere me sz t)

-- The two ends of `growproc` that the answer of vm.c decides.
resized-cases :
    (me sz : ℕ) (t : Table) (cur : Proc)
    → At t.procs me cur
    → ((sz ≡ 0) × (resized me sz t ≡ ok minus_one t))
      ⊎ ((0 < sz) × Grown sz me cur t (resized me sz t))
unfolding resized set_size
resized-cases me sz t cur at = elim (Bool-cases (sz == 0)) [
  | inl y ↦ inl (ground arith, rw y refl)
  | inr n ↦ inr (ground arith, sized-Grown sz me cur t _ at (rw n refl))
]

grow_by_lem :
    (allocuvm deallocuvm : Resize) (n : ℤ) (me : ℕ) (t : Table) (cur : Proc)
    → At t.procs me cur
    → GrowAnswer allocuvm deallocuvm n me t cur (grow_by allocuvm deallocuvm n me cur t)
unfolding grow_by set_size
grow_by_lem allocuvm deallocuvm (pos zero) me t cur at =
    inr (inl refl, sized-Grown cur.sz me cur t _ at refl)
grow_by_lem allocuvm deallocuvm (pos (suc n)) me t cur at =
    elim (resized-cases me (answer allocuvm deallocuvm (pos (suc n)) cur) t cur at) [
      | inl (e, run) ↦ inl (λ eq. cc, e, run)
      | inr (p, grown) ↦ inr (inr p, grown)
    ]
grow_by_lem allocuvm deallocuvm (negsuc n) me t cur at =
    elim (resized-cases me (answer allocuvm deallocuvm (negsuc n) cur) t cur at) [
      | inl (e, run) ↦ inl (λ eq. cc, e, run)
      | inr (p, grown) ↦ inr (inr p, grown)
    ]

growproc-grow_by :
    (allocuvm deallocuvm : Resize) (n : ℤ) (me : ℕ) (t : Table) (cur : Proc)
    → At t.procs me cur
    → growproc allocuvm deallocuvm n me t ≡ grow_by allocuvm deallocuvm n me cur t
unfolding growproc
growproc-grow_by allocuvm deallocuvm n me t cur at = ground arith

-- `growproc` by the process in slot `me`: asked for bytes, where vm.c answers 0, it returns -1 and changes
-- nothing. Otherwise it returns 0, the process has the size that vm.c answers, or its old one where no
-- bytes were asked for, and the other slots stay as they are.
growproc_lem :
    (allocuvm deallocuvm : Resize) (n : ℤ) (me : ℕ) (t : Table) (cur : Proc)
    → At t.procs me cur
    → GrowAnswer allocuvm deallocuvm n me t cur (growproc allocuvm deallocuvm n me t)
growproc_lem allocuvm deallocuvm n me t cur at =
    subst (GrowAnswer allocuvm deallocuvm n me t cur)
      (sym (growproc-grow_by allocuvm deallocuvm n me t cur at))
      (grow_by_lem allocuvm deallocuvm n me t cur at)

-- Where `growproc` by the process in slot `me` succeeds with another size, the process gets that size,
-- and a thread in slot `j` that shares its page directory and had the same size keeps the old size.
pub growproc-stale_size :
    (allocuvm deallocuvm : Resize) (n : ℤ) (me j : ℕ) (t : Table) (cur other : Proc)
    → At t.procs me cur
    → At t.procs j other
    → me ≢ j
    → other.pgdir ≡ cur.pgdir
    → other.sz ≡ cur.sz
    → 0 < answer allocuvm deallocuvm n cur
    → answer allocuvm deallocuvm n cur ≢ cur.sz
    → (t' : Table) × (growproc allocuvm deallocuvm n me t ≡ ok (pos 0) t')
      × ((p : Proc) × (q : Proc) × At t'.procs me p
          × At t'.procs j q
          × (p.pgdir ≡ q.pgdir)
          × (p.sz ≢ q.sz)
          × (q.sz ≡ cur.sz)
          × (p.sz ≡ answer allocuvm deallocuvm n cur))
growproc-stale_size allocuvm deallocuvm n me j t cur other at at' ne same size grown moved =
    elim (growproc_lem allocuvm deallocuvm n me t cur at) [
      | inl (asked, zero_size, run) ↦ absurd (omega (arith, zero_size, grown))
      | inr (why, (t', run, here, elsewhere)) ↦ (
        t',
        run,
        (
          record cur { sz = answer allocuvm deallocuvm n cur },
          other,
          here,
          elsewhere j (λ e. ne cc) ∙ at',
          cc,
          λ e. moved (e ∙ size),
          size,
          refl,
        ),
      )
    ]
