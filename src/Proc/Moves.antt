-- ===== src/Proc/Moves.antt =====
-- What the end of a process in p4/xv6/kernel/proc.c changes in the slots of the others.
use bacon_eggs.Prelude.{
  ℕ, zero, suc, ◌+◌, ◌<◌, ◌≡◌, refl, ◌≢◌, ◌∙◌, inl, inr, true, false, Option, none, some, List,
  arith, ◌==◌, get_elem?, modify, get_elem?-modify, get_elem?-map, Bool-cases,
}
use bacon_eggs.Proc.Table.{runnable, zombie, Chan, slot, is_zombie, Proc, is_child}
use bacon_eggs.Proc.Sched.{wake, wakeup1}
use bacon_eggs.Proc.Exit.{adopt_at, adopt}
use bacon_eggs.Proc.Pids.{At, Kept}
use bacon_eggs.Proc.Leaves.Reap.{adopt_at-Kept}

-- `p'` is `p`, perhaps woken, and with its parent perhaps replaced if that was `me`.
pub record Moved (me : ℕ) (p p' : Proc) : Type 0 where
  pub pid : p'.pid ≡ p.pid
  pub thread : p'.thread ≡ p.thread
  pub ofile : p'.ofile ≡ p.ofile
  pub cwd : p'.cwd ≡ p.cwd
  pub parent : is_child me p ≡ false → p'.parent ≡ p.parent
  pub zombies : p.state ≡ zombie → p'.state ≡ zombie
  pub runnables : p.state ≡ runnable → p'.state ≡ runnable

abbrev pub Moves : ℕ → List Proc → List Proc → Type 0
Moves me ps qs = (j : ℕ) (p : Proc) → At ps j p → (q : Proc) × At qs j q × Moved me p q

pub Moved-refl : (me : ℕ) (p : Proc) → Moved me p p
Moved-refl me p = ground arith

pub Moves-refl : (me : ℕ) (ps : List Proc) → Moves me ps ps
Moves-refl me ps j p at = (p, at, Moved-refl me p)

Moved-trans : {me : ℕ} {p q r : Proc} → Moved me p q → Moved me q r → Moved me p r
Moved-trans m n = record {
  pid = n.pid ∙ m.pid;
  thread = n.thread ∙ m.thread;
  ofile = n.ofile ∙ m.ofile;
  cwd = n.cwd ∙ m.cwd;
  parent = λ c. let e = m.parent c in ground (arith, n.parent);
  zombies = λ z. n.zombies (m.zombies z);
  runnables = λ z. n.runnables (m.runnables z);
}

pub Moves-trans : (me : ℕ) (ps qs rs : List Proc) → Moves me ps qs → Moves me qs rs → Moves me ps rs
Moves-trans me ps qs rs m n j p at =
    let (q, atq, mq) = m j p at in let (r, atr, mr) = n j q atq in (r, atr, Moved-trans mq mr)

pub Moves-modify :
    (me : ℕ) (ps : List Proc) (i : ℕ) (f : Proc → Proc)
    → ((p : Proc) → At ps i p → Moved me p (f p))
    → Moves me ps (modify ps i f)
Moves-modify me ps i f each j p at = elim (Bool-cases (i == j)) [
  | inl same ↦ (f p, ground (arith, get_elem?-modify ps i f j), each p (ground arith))
  | inr other ↦ (p, ground (arith, get_elem?-modify ps i f j), Moved-refl me p)
]

Moved-wake : (me : ℕ) (c : Chan) (p : Proc) → Moved me p (wake c p)
Moved-wake me c p = ground arith

pub Moves-wakeup1 : (me : ℕ) (c : Chan) (ps : List Proc) → Moves me ps (wakeup1 c ps)
unfolding wakeup1
Moves-wakeup1 me c ps j p at =
    (wake c p, ground (arith, get_elem?-map (wake c) ps j), Moved-wake me c p)

module _ (me init : ℕ) where
  adopt_at-Moves : (i : ℕ) (ps : List Proc) → Moves me ps (adopt_at me init i ps)
  unfolding adopt_at
  adopt_at-Moves i ps = go (get_elem? ps i) refl
    where
      given : Proc → Proc
      given p = record p { parent = some init }

      parented : (p : Proc) → At ps i p → is_child me p ≡ true → Moves me ps (modify ps i given)
      parented p at c = Moves-modify me ps i given λ q atq. ground arith

      go : (o : Option Proc) → get_elem? ps i ≡ o → Moves me ps (adopt_at me init i ps)
      go none e = rw (e, adopt_at) (Moves-refl me ps)
      go (some p) e =
          rw (e, adopt_at)
            (elim (Bool-cases (is_child me p)) [
              | inl child ↦ rw child (elim (Bool-cases (is_zombie p.state)) [
                | inl z ↦ rw z (
                    Moves-trans me ps (modify ps i given) _ (parented p e child)
                      (Moves-wakeup1 me (slot init) (modify ps i given)))
                | inr z ↦ rw z (parented p e child)
              ])
              | inr other ↦ rw other (Moves-refl me ps)
            ])

  pub adopt-Moves : (k i : ℕ) (ps : List Proc) → Moves me ps (adopt me init k i ps)
  unfolding adopt
  adopt-Moves zero i ps = Moves-refl me ps
  adopt-Moves (suc k) i ps =
      Moves-trans me ps (adopt_at me init i ps) _ (adopt_at-Moves i ps)
        (adopt-Moves k (suc i) (adopt_at me init i ps))

  -- After its turn slot `i` holds no child of `me`.
  adopt_at-slot :
      (i : ℕ) (ps : List Proc) (q : Proc)
      → init ≢ me
      → At (adopt_at me init i ps) i q
      → is_child me q ≡ false
  unfolding adopt_at wakeup1
  adopt_at-slot i ps q ne at = go (get_elem? ps i) refl at
    where
      given : Proc → Proc
      given p = record p { parent = some init }

      go :
          (o : Option Proc)
          → get_elem? ps i ≡ o
          → At (adopt_at me init i ps) i q
          → is_child me q ≡ false
      go none e h = ground arith
      go (some p) e h = ground (
        arith,
        get_elem?-modify ps i given i,
        get_elem?-map (wake (slot init)) (modify ps i given) i,
      )

  -- A slot without a child of `me` stays so.
  adopt_at-other :
      (i j : ℕ) (ps : List Proc)
      → ((p : Proc) → At ps j p → is_child me p ≡ false)
      → (q : Proc) → At (adopt_at me init i ps) j q
      → is_child me q ≡ false
  adopt_at-other i j ps nochild q at =
      let (p, atp, keeps) = Kept.each (adopt_at-Kept me init i ps) j q at in
      let (q', atq, m) = adopt_at-Moves i ps j p atp in
      let e = m.parent (nochild p atp) in ground (arith, nochild p)

  pub adopt-orphans :
      (k i : ℕ) (ps : List Proc)
      → init ≢ me
      → ((j : ℕ) (p : Proc) → j < i → At ps j p → is_child me p ≡ false)
      → (j : ℕ) (p : Proc) → j < i + k
      → At (adopt me init k i ps) j p
      → is_child me p ≡ false
  unfolding adopt
  adopt-orphans zero i ps ne done j p lt at = done j p (omega arith) at
  adopt-orphans (suc k) i ps ne done j p lt at =
      adopt-orphans k (suc i) (adopt_at me init i ps) ne
        (λ l q ltl atl. elim (Bool-cases (l == i)) [
          | inl here ↦ adopt_at-slot i ps q ne (ground arith)
          | inr before ↦ adopt_at-other i l ps (λ r atr. done l r (ground arith) atr) q atl
        ])
        j p (omega arith) at
