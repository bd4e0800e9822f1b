-- ===== src/Proc/Pids.antt =====
-- The process ids of the table of p4/xv6/kernel/proc.c: every slot in use has one, and no two share one.
use mathlib.Core.Option
use mathlib.Core.Path.{subst}
use bacon_eggs.Prelude.{
  ℕ, ◌+◌, ◌<◌, ◌≡◌, refl, ◌≢◌, ◌∙◌, ◌⊎◌, inl, inr, true, false, Option, none, some, List, map,
  arith, ◌==◌, length, get_elem?, modify, length-modify, get_elem?-modify, length-map,
  get_elem?-map, Bool-cases,
}
use bacon_eggs.Proc.Table.{is_unused, Proc, nproc}

-- Slot `i` holds `p`.
abbrev pub At : List Proc → ℕ → Proc → Type 0
At ps i p = get_elem? ps i ≡ some p

pub record IsValid (ps : List Proc) (nextpid : ℕ) : Type 0 where
  pub size : length ps ≡ nproc
  pub started : 0 < nextpid
  pub bounded : (i : ℕ) (p : Proc) → At ps i p → p.pid < nextpid
  pub used : (i : ℕ) (p : Proc) → At ps i p → is_unused p.state ≡ false → 0 < p.pid
  pub distinct : (i j : ℕ) (p q : Proc) → At ps i p → At ps j q → p.pid ≡ q.pid → 0 < p.pid → i ≡ j

-- `p'` has the pid of `p`, and is in use only if `p` is.
abbrev pub Keeps : Proc → Proc → Type 0
Keeps p p' = (p'.pid ≡ p.pid) × (is_unused p'.state ≡ false → is_unused p.state ≡ false)

-- Every slot keeps its pid, and none comes into use.
pub record Kept (ps qs : List Proc) : Type 0 where
  pub size : length qs ≡ length ps
  pub each : (i : ℕ) (q : Proc) → At qs i q → (p : Proc) × At ps i p × Keeps p q

pub Kept-refl : (ps : List Proc) → Kept ps ps
Kept-refl ps = record { size = refl; each = λ i q at. (q, at, (refl, λ u. u)) }

pub Kept-trans : {ps qs rs : List Proc} → Kept ps qs → Kept qs rs → Kept ps rs
Kept-trans k l = record {
  size = l.size ∙ k.size;
  each = λ i r at.
      let (q, atq, kq) = l.each i r at in
      let (p, atp, kp) = k.each i q atq in (p, atp, (kq.0 ∙ kp.0, λ u. kp.1 (kq.1 u)));
}

-- A slot of a list that was changed at one place.
pub At-modify :
    (ps : List Proc) (i : ℕ) (f : Proc → Proc) (j : ℕ) (q : Proc)
    → At (modify ps i f) j q
    → ((i ≡ j) × ((p : Proc) × At ps j p × (q ≡ f p))) ⊎ ((i ≢ j) × At ps j q)
At-modify ps i f j q at = elim (Bool-cases (i == j)) [
  | inl same ↦
      inl (ground arith, go (get_elem? ps j) refl (ground (arith, get_elem?-modify ps i f j)))
  | inr other ↦ inr (ground arith, ground (arith, get_elem?-modify ps i f j))
]
  where
    go :
        (o : Option Proc)
        → get_elem? ps j ≡ o
        → Option.map f o ≡ some q
        → (p : Proc) × At ps j p × (q ≡ f p)
    go none e h = cc
    go (some p) e h = (p, e, cc)

pub Kept-modify :
    (ps : List Proc) (i : ℕ) (f : Proc → Proc)
    → ((p : Proc) → At ps i p → Keeps p (f p))
    → Kept ps (modify ps i f)
Kept-modify ps i f keeps = record {
  size = length-modify ps i f;
  each = λ j q at. go j q (At-modify ps i f j q at);
}
  where
    go :
        (j : ℕ) (q : Proc)
        → ((i ≡ j) × ((p : Proc) × At ps j p × (q ≡ f p))) ⊎ ((i ≢ j) × At ps j q)
        → (p : Proc) × At ps j p × Keeps p q
    go j q (inl (e, (p, at, made))) = (p, at, rw made (keeps p (rw e at)))
    go j q (inr (ne, at)) = (q, at, (refl, λ u. u))

-- A change of a slot that was in use at the start.
pub Kept-modify_used :
    {ps qs : List Proc} (i : ℕ) (f : Proc → Proc)
    → Kept ps qs
    → ((p : Proc) → At ps i p → is_unused p.state ≡ false)
    → ((q : Proc) → (f q).pid ≡ q.pid)
    → Kept ps (modify qs i f)
Kept-modify_used {ps} {qs} i f k used pid = record {
  size = length-modify qs i f ∙ k.size;
  each = λ j r at. elim (At-modify qs i f j r at) [
    | inl (e, (q, atq, made)) ↦
        let (p, atp, kp) = k.each j q atq in
        (p, atp, (ground (arith, pid q), λ u. used p (rw e atp)))
    | inr (ne, atq) ↦ k.each j r atq
  ];
}

pub Kept-map :
    (ps : List Proc) (f : Proc → Proc) → ((p : Proc) → Keeps p (f p)) → Kept ps (map f ps)
Kept-map ps f keeps = record {
  size = length-map f ps;
  each = λ j q at. go j q (get_elem? ps j) refl (ground (arith, get_elem?-map f ps j));
}
  where
    go :
        (j : ℕ) (q : Proc) (o : Option Proc)
        → get_elem? ps j ≡ o
        → Option.map f o ≡ some q
        → (p : Proc) × At ps j p × Keeps p q
    go j q none e h = cc
    go j q (some p) e h = (p, e, (let made : f p ≡ q = cc in subst (λ r. Keeps p r) made (keeps p)))

pub Kept-IsValid : {ps qs : List Proc} {n : ℕ} → IsValid ps n → Kept ps qs → IsValid qs n
Kept-IsValid v k = record {
  size = k.size ∙ v.size;
  started = v.started;
  bounded = λ i q at. let (p, atp, kp) = k.each i q at in ground (arith, v.bounded i p);
  used = λ i q at u. let (p, atp, kp) = k.each i q at in ground (arith, v.used i p);
  distinct = λ i j q r at at' e pos_q.
      let (p, atp, kp) = k.each i q at in
      let (p', atp', kp') = k.each j r at' in
      v.distinct i j p p' atp atp' (ground arith) (ground arith);
}

-- A slot that is given up.
pub reap-IsValid :
    {ps : List Proc} {n : ℕ} (i : ℕ) (f : Proc → Proc)
    → ((p : Proc) → ((f p).pid ≡ 0) × (is_unused (f p).state ≡ true))
    → IsValid ps n
    → IsValid (modify ps i f) n
reap-IsValid {ps} {n} i f gone v = record {
  size = length-modify ps i f ∙ v.size;
  started = v.started;
  bounded = λ j q at. elim (At-modify ps i f j q at) [
    | inl (e, (p, atp, made)) ↦ ground (arith, gone p)
    | inr (ne, atq) ↦ v.bounded j q atq
  ];
  used = λ j q at u. elim (At-modify ps i f j q at) [
    | inl (e, (p, atp, made)) ↦ absurd (ground (arith, gone p))
    | inr (ne, atq) ↦ v.used j q atq u
  ];
  distinct = λ j k q r at at' e pos_q. elim (At-modify ps i f j q at) [
    | inl (here, (p, atp, made)) ↦ absurd (ground (arith, gone p))
    | inr (ne, atq) ↦ elim (At-modify ps i f k r at') [
      | inl (here, (p, atp, made)) ↦ absurd (ground (arith, gone p))
      | inr (ne', atr) ↦ v.distinct j k q r atq atr e pos_q
    ]
  ];
}

-- A slot that is taken with the next pid.
pub take-IsValid :
    {ps : List Proc} {n : ℕ} (i : ℕ) (f : Proc → Proc)
    → ((p : Proc) → (f p).pid ≡ n)
    → IsValid ps n
    → IsValid (modify ps i f) (n + 1)
take-IsValid {ps} {n} i f new v = record {
  size = length-modify ps i f ∙ v.size;
  started = omega arith;
  bounded = λ j q at. elim (At-modify ps i f j q at) [
    | inl (e, (p, atp, made)) ↦ ground (arith, new p)
    | inr (ne, atq) ↦ omega (arith, v.bounded j q atq)
  ];
  used = λ j q at u. elim (At-modify ps i f j q at) [
    | inl (e, (p, atp, made)) ↦ ground (arith, new p, v.started)
    | inr (ne, atq) ↦ v.used j q atq u
  ];
  distinct = λ j k q r at at' e pos_q. elim (At-modify ps i f j q at) [
    | inl (here, (p, atp, made)) ↦ elim (At-modify ps i f k r at') [
      | inl (here', (p', atp', made')) ↦ omega arith
      | inr (ne', atr) ↦ absurd (ground (arith, new p, v.bounded k r atr))
    ]
    | inr (ne, atq) ↦ elim (At-modify ps i f k r at') [
      | inl (here, (p, atp, made)) ↦ absurd (ground (arith, new p, v.bounded j q atq))
      | inr (ne', atr) ↦ v.distinct j k q r atq atr e pos_q
    ]
  ];
}
