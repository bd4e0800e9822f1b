-- ===== src/Lock.antt =====
-- The spin lock of p4/xv6/user/thread_lib.c, and any number of threads that use it. `xchg` is one
-- atomic step; a thread is a number.
mod Tests
use bacon_eggs.Prelude.{
  ℕ, ◌≡◌, refl, ◌≢◌, ◌⊎◌, ◌↔◌, inl, inr, Bool, true, false, arith, ◌==◌, if◌then◌else◌, Bool-cases,
}

-- What a thread is in: neither function, the loop of `lock_acquire`, or the time from the return of
-- `lock_acquire` to the call of `lock_release`.
pub data Phase : Type 0 where
  outside spinning holding : Phase

pub record Threads : Type 0 where
  pub flag : ℕ
  pub phase : ℕ → Phase

abbrev pub set_phase : Threads → ℕ → Phase → Threads
set_phase s i q = record s { phase = λ j. if i == j then q else s.phase j }

-- `xchg`: the old value of the flag, and the new state.
abbrev pub xchg : ℕ → Threads → ℕ × Threads
xchg v s = (s.flag, record s { flag = v })

abbrev pub lock_init : Threads → Threads
lock_init s = record s { flag = 0 }

-- One round of the loop of `lock_acquire`.
unfoldable pub acquire_round : ℕ → Threads → Threads
acquire_round i s = let (old, s') = xchg 1 s in if old == 1 then s' else set_phase s' i holding

unfoldable pub lock_release : ℕ → Threads → Threads
lock_release i s = set_phase (record s { flag = 0 }) i outside

pub data Step (s : Threads) : Threads → Type 0 where
  calls : (i : ℕ) → s.phase i ≡ outside → Step s (set_phase s i spinning)
  tries : (i : ℕ) → s.phase i ≡ spinning → Step s (acquire_round i s)
  releases : (i : ℕ) → s.phase i ≡ holding → Step s (lock_release i s)

pub data Reach (s : Threads) : Threads → Type 0 where
  here : Reach s s
  next : {t u : Threads} → Reach s t → Step t u → Reach s u

-- The flag is 0 or 1, it is 1 while a thread holds the lock, and only one does.
pub record Exclusive (s : Threads) : Type 0 where
  pub bit : (s.flag ≡ 0) ⊎ (s.flag ≡ 1)
  pub owner : s.flag ≡ 1 → (i : ℕ) × (s.phase i ≡ holding)
  pub held : (i : ℕ) → s.phase i ≡ holding → s.flag ≡ 1
  pub single : (i j : ℕ) → s.phase i ≡ holding → s.phase j ≡ holding → i ≡ j

Step-Exclusive : {s t : Threads} → Step s t → Exclusive s → Exclusive t
unfolding acquire_round lock_release
Step-Exclusive {s} (calls i out) x = record {
  bit = x.bit;
  owner = λ e. let (j, h) = x.owner e in (j, ground arith);
  held = λ j h. ground (arith, x.held j);
  single = λ j k h h'. ground (arith, x.single j k);
}
Step-Exclusive {s} (tries i spins) x = elim (Bool-cases (s.flag == 1)) [
  | inl taken ↦ rw taken (record {
    bit = inr refl;
    owner = λ e. x.owner (ground arith);
    held = λ j h. refl;
    single = x.single;
  })
  | inr free ↦ rw free (record {
    bit = inr refl;
    owner = λ e. (i, ground arith);
    held = λ j h. refl;
    single = λ j k h h'. ground (arith, x.held j, x.held k);
  })
]
Step-Exclusive {s} (releases i holds) x = record {
  bit = inl refl;
  owner = λ e. absurd (ground arith);
  held = λ j h. ground (arith, x.single i j holds);
  single = λ j k h h'. ground (arith, x.single i j holds);
}

Reach-Exclusive :
    (s : Threads) {u : Threads}
    → ((i : ℕ) → s.phase i ≢ holding)
    → Reach (lock_init s) u
    → Exclusive u
Reach-Exclusive s none_holds here = record {
  bit = inl refl;
  owner = λ e. absurd (ground arith);
  held = λ i h. absurd (none_holds i h);
  single = λ i j h h'. absurd (none_holds i h);
}
Reach-Exclusive s none_holds (next r step) = Step-Exclusive step (Reach-Exclusive s none_holds r)

-- From a state after `lock_init` in which no thread holds the lock, no sequence of calls and rounds of
-- any threads, in which `lock_release` is called only by a thread that holds the lock and
-- `lock_acquire` only by one that neither holds nor waits for it, leads to a state in which two of
-- them hold it.
pub exclusion_lem :
    (s : Threads) {t : Threads}
    → ((i : ℕ) → s.phase i ≢ holding)
    → Reach (lock_init s) t
    → (i j : ℕ) → t.phase i ≡ holding
    → t.phase j ≡ holding
    → i ≡ j
exclusion_lem s none_holds r = (Reach-Exclusive s none_holds r).single

-- In every state that is reached so, a thread that does one round of `lock_acquire` while it spins holds
-- the lock afterwards exactly if no thread held it.
acquire_lem :
    (s : Threads) {t : Threads}
    → ((i : ℕ) → s.phase i ≢ holding)
    → Reach (lock_init s) t
    → (i : ℕ) → t.phase i ≡ spinning
    → ((acquire_round i t).phase i ≡ holding) ↔ ((j : ℕ) → t.phase j ≢ holding)
unfolding acquire_round
acquire_lem s {t} none_holds r i spins =
    let x = Reach-Exclusive s none_holds r in
    elim (Bool-cases (t.flag == 1)) [
      | inl taken ↦
          let (k, holds) = x.owner (ground arith) in
          rw taken ((λ h. absurd (ground arith)), (λ free. absurd (free k holds)))
      | inr free ↦
          rw free ((λ h j held. ground (arith, x.held j held)), (λ none_held. ground arith))
    ]
