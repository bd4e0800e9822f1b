-- ===== src/Mem/Session.antt =====
-- A client of the allocator of p3/mem/mem.c: any sequence of `Mem_Alloc` and `Mem_Free`.
use bacon_eggs.Prelude.{
  ℕ, ◌+◌, ◌≤◌, ◌<◌, ◌≡◌, refl, inl, inr, Bool, true, false, ◌||◌, ◌⊎◌, ◌%◌, ap, subst, ◌==◌, length,
  if◌then◌else◌, Option, none, some, List, [], ◌∷◌, arith, Bool-cases,
}
use bacon_eggs.Prelude.Int.{pos, minus_one}
use bacon_eggs.Mem.{round_up, mem_alloc, mem_free, in_region}
use bacon_eggs.Mem.Region.{InPlace, SameRegion, mem_alloc-InPlace, mem_free-InPlace}
use bacon_eggs.Mem.Store.{
  Ptr, null, e_bad_pointer, sizeof_header, int_max, Mem, Run, ok, exits, fault, out_of_fuel,
}
use bacon_eggs.Mem.Chain.{Blocks, has, IsValid}
use bacon_eggs.Mem.Alloc.{Returns, mem_alloc_lem, mem_alloc-first, error-IsValid}
use bacon_eggs.Mem.Free.{mem_free_lem, mem_free-bad}

pub data Call : Type 0 where
  alloc : ℕ → Call
  free : Ptr → Call

abbrev state_of : {A : Type 0} → Run A → Option Mem
state_of (ok a m) = some m
state_of (exits n) = none
state_of fault = none
state_of out_of_fuel = none

abbrev call : Call → Mem → Option Mem
call (alloc n) m = state_of (mem_alloc (pos n) m)
call (free p) m = state_of (mem_free p m)

-- The state after the calls, `none` if one of them does not return.
abbrev pub run : List Call → Mem → Option Mem
run [] m = some m
run (c ∷ cs) m = elim (call c m) [ none ↦ none | some m' ↦ run cs m' ]

-- The sizes asked for are positive, and with rounding and a header fit an `int`; a pointer is NULL, or
-- is on an 8-byte boundary and has the key and the size of a header in the region of `m`.
abbrev pub Allowed : Mem → List Call → Type 0
Allowed m [] = Unit {0}
Allowed m (alloc n ∷ cs) = (0 < n) × (round_up 8 n + sizeof_header ≤ int_max) × Allowed m cs
Allowed m (free p ∷ cs) =
    ((p ≡ null) ⊎ ((p % 8 ≡ 0) × (m.start ≤ p) × (p + 8 ≤ m.final))) × Allowed m cs

abbrev pub Holds : Option Mem → Type 0
Holds o = (m : Mem) × (bs : Blocks) × (o ≡ some m) × IsValid m bs

-- The same, with the region in its place.
abbrev Stays : Mem → Option Mem → Type 0
Stays m o = (m' : Mem) × (bs : Blocks) × (o ≡ some m') × IsValid m' bs × SameRegion m m'

state_of_Returns :
    {A : Type 0} {c : Run A} {P : A → Mem → Type 0} (m : Mem)
    → InPlace m c
    → Returns c P
    → ((a : A) (m' : Mem) → P a m' → (bs : Blocks) × IsValid m' bs)
    → Stays m (state_of c)
state_of_Returns m same (a, m', e, p) valid =
    let (bs, v) = valid a m' p in (m', bs, ap state_of e, v, subst (InPlace m) e same)

call-Stays :
    {m : Mem} {bs : Blocks} (c : Call) → IsValid m bs → Allowed m (c ∷ []) → Stays m (call c m)
call-Stays {m} {bs = []} (alloc n) v (positive, fits, _) =
    state_of_Returns m (mem_alloc-InPlace n m) (mem_alloc-first n v positive fits) λ a m p. (_, p.1)
call-Stays {m} {bs = b ∷ bs} (alloc n) v (positive, fits, _) =
    state_of_Returns m (mem_alloc-InPlace n m) (mem_alloc_lem n v (λ e. cc) positive fits)
      λ a m p. (p.0, p.1)
call-Stays {m} {bs} (free p) v (where_to, _) = elim (Bool-cases (has p bs)) [
  | inl hit ↦ state_of_Returns m (mem_free-InPlace p m) (mem_free_lem p v hit) λ a m q. (_, q.1)
  | inr miss ↦ bad (p == null || length bs == 0) (mem_free-bad p v miss (readable where_to))
]
  where
    readable :
        (p ≡ null) ⊎ ((p % 8 ≡ 0) × (m.start ≤ p) × (p + 8 ≤ m.final))
        → (p ≡ null) ⊎ (in_region p m ≡ true)
    readable (inl e) = inl e
    readable (inr (aligned, low, high)) = inr (ground (arith, low, high))

    bad :
        (b : Bool)
        → mem_free p m ≡ ok minus_one (if b then m else record m { m_error = e_bad_pointer })
        → Stays m (call (free p) m)
    bad true e = (m, bs, ap state_of e, v, (refl, refl))
    bad false e = (
      record m { m_error = e_bad_pointer },
      bs,
      ap state_of e,
      error-IsValid e_bad_pointer v,
      (refl, refl),
    )

Allowed-head :
    (m : Mem) (c : Call) (cs : List Call) → Allowed m (c ∷ cs) → Allowed m (c ∷ []) × Allowed m cs
Allowed-head m (alloc n) cs (positive, fits, a) = ((positive, fits, tt), a)
Allowed-head m (free p) cs (where_to, a) = ((where_to, tt), a)

Allowed-moved : (m m' : Mem) (cs : List Call) → SameRegion m m' → Allowed m cs → Allowed m' cs
Allowed-moved m m' [] same a = tt
Allowed-moved m m' (alloc n ∷ cs) same (positive, fits, a) =
    (positive, fits, Allowed-moved m m' cs same a)
Allowed-moved m m' (free p ∷ cs) (low, high) (inl e, a) =
    (inl e, Allowed-moved m m' cs (low, high) a)
Allowed-moved m m' (free p ∷ cs) (low, high) (inr (aligned, from, to), a) =
    (inr (aligned, omega arith, omega arith), Allowed-moved m m' cs (low, high) a)

-- From a valid state, any sequence of `Mem_Alloc` and `Mem_Free` calls, with sizes that are positive
-- and fit an `int` when rounded and with a header, and with pointers that are NULL or on an 8-byte
-- boundary with the key and the size of a header in the mapped region, live block or not, where the
-- client itself writes nothing into the region: every call returns, so that no loop runs out of fuel
-- and nothing faults, and the last state is valid.
pub run_lem :
    (cs : List Call) {m : Mem} {bs : Blocks} → IsValid m bs → Allowed m cs → Holds (run cs m)
run_lem [] {m} {bs} v a = (m, bs, refl, v)
run_lem (c ∷ cs) {m} v a =
    let (here, rest) = Allowed-head m c cs a in
    let (m', bs', e, v', same) = call-Stays c v here in
    rw (e, run) (run_lem cs v' (Allowed-moved m m' cs same rest))
