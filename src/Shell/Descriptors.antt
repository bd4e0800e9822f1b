-- ===== src/Shell/Descriptors.antt =====
-- The descriptors of p2/c/mysh.c under closeSTDOUT and openSTDOUT.
use bacon_eggs.Prelude.{
  ℕ, zero, suc, ◌-◌, ◌≤◌, ◌≡◌, ◌≢◌, refl, sym, ap, ◌∙◌, ◌⊎◌, inl, inr, Bool, true, false, Option,
  none, some, ◌∷◌, ◌==◌, arith, Bool-cases, Option-cases,
}
use bacon_eggs.Shell.{String}
use bacon_eggs.Shell.Files.{
  reported, Target, file, Shell, report, set_fd, with_fd, lowest, dup, close, open_file,
  close_stdout, open_instead,
}

-- A descriptor that is open.
abbrev pub IsOpen : (fds : ℕ → Option Target) → ℕ → Type 0
IsOpen fds i = (t : Target) × (fds i ≡ some t)

pub lowest-free : (fds : ℕ → Option Target) (k i j : ℕ) → lowest fds k i ≡ some j → fds j ≡ none
unfolding lowest
lowest-free fds zero i j found = absurd (cc found)
lowest-free fds (suc k) i j found = elim (Option-cases (fds i)) [
  | inl free ↦
      let same : some i ≡ some j = rw (free, lowest) at found in
      let here : i ≡ j = cc same in ap fds (sym here) ∙ free
  | inr (t, used) ↦ lowest-free fds k (suc i) j (rw (used, lowest) at found)
]

-- Descriptor 1 is the lowest that is free.
lowest-one :
    (fds : ℕ → Option Target) (k : ℕ)
    → IsOpen fds 0
    → fds 1 ≡ none
    → lowest fds (suc (suc k)) 0 ≡ some 1
unfolding lowest
lowest-one fds k (t, used) free = rw (used, free, lowest) refl

-- `closeSTDOUT` leaves every other open descriptor as it was. Stdout is then closed or a file, and
-- the copy that is returned was free, and is what stdout was.
pub record IsSwapped (s : Shell) (r : Option ℕ × Shell) : Type 0 where
  pub kept : (i : ℕ) → i ≢ 1 → IsOpen s.fds i → r.1.fds i ≡ s.fds i
  pub output : (r.1.fds 1 ≡ none) ⊎ ((name : String) × (r.1.fds 1 ≡ some (file name)))
  pub copy :
      (v : ℕ)
      → r.0 ≡ some v
      → (s.fds v ≡ none) × (r.1.fds v ≡ s.fds 1) × IsOpen s.fds 1 × IsOpen r.1.fds 1
  pub same_limit : r.1.limit ≡ s.limit
  pub same_trace :
      (r.1.trace ≡ s.trace) ⊎ ((t : Option Target) × (r.1.trace ≡ reported t ∷ s.trace))

pub close-used :
    (fd : ℕ) (s : Shell) {t : Target} → s.fds fd ≡ some t → close fd s ≡ some (with_fd fd none s)
unfolding close
close-used fd s used = rw (used, close) refl

pub opened_lem :
    (name : String) (fd : ℕ) (s : Shell)
    → lowest s.fds s.limit 0 ≡ some fd
    → open_file true (some name) s ≡ some (with_fd fd (some (file name)) s)
unfolding open_file
opened_lem name fd s found = rw (found, open_file) refl

-- `open` takes the descriptor 1 that was closed.
pub open_instead-opened :
    (n : String) (save : Option ℕ) (s : Shell)
    → 2 ≤ s.limit
    → IsOpen s.fds 0
    → IsOpen s.fds 1
    → open_instead true (some n) save s ≡ (save, with_fd 1 (some (file n)) (with_fd 1 none s))
unfolding open_instead open_file
open_instead-opened n save s room (z, zero_used) (t, used) =
    let two : suc (suc (s.limit - 2)) ≡ s.limit = omega arith in
    let found : lowest (set_fd 1 none s.fds) s.limit 0 ≡ some 1 =
      ap (λ k. lowest (set_fd 1 none s.fds) k 0) (sym two)
      ∙ lowest-one (set_fd 1 none s.fds) (s.limit - 2) (z, zero_used) refl in
    rw (close-used 1 s used, found, open_instead) refl

-- `open` takes the descriptor 1 that was closed, or fails.
open_instead_lem :
    (works : Bool) (name : Option String) (save : Option ℕ) (s : Shell)
    → 2 ≤ s.limit
    → IsOpen s.fds 0
    → IsOpen s.fds 1
    → (open_instead works name save s ≡ (none, report (with_fd 1 none s)))
      ⊎ ((n : String) × (open_instead works name save s
            ≡ (save, with_fd 1 (some (file n)) (with_fd 1 none s))))
unfolding open_instead open_file
open_instead_lem works none save s room (z, zero_used) (t, used) =
    inl (rw (close-used 1 s used, open_instead) refl)
open_instead_lem false (some n) save s room (z, zero_used) (t, used) =
    inl (rw (close-used 1 s used, open_instead) refl)
open_instead_lem true (some n) save s room zero_used used =
    inr (n, open_instead-opened n save s room zero_used used)

pub dup-copied :
    (s : Shell) {v : ℕ} {t : Target}
    → s.fds 1 ≡ some t
    → lowest s.fds s.limit 0 ≡ some v
    → dup 1 s ≡ (some v, with_fd v (some t) s)
unfolding dup
dup-copied s used found = rw (used, found, dup) refl

-- `dup` of stdout fails, or takes a descriptor that is free.
dup_lem :
    (s : Shell) {t : Target}
    → s.fds 1 ≡ some t
    → (dup 1 s ≡ (none, s))
      ⊎ ((v : ℕ) × (lowest s.fds s.limit 0 ≡ some v) × (dup 1 s ≡ (some v, with_fd v (some t) s)))
unfolding dup
dup_lem s used = elim (Option-cases (lowest s.fds s.limit 0)) [
  | inl full ↦ inl (rw (used, full, dup) refl)
  | inr (v, found) ↦ inr (v, found, dup-copied s used found)
]

-- The same for `close` and `open` after it.
instead-IsSwapped :
    (works : Bool) (name : Option String) (save : Option ℕ) (s s1 : Shell)
    → 2 ≤ s1.limit
    → IsOpen s1.fds 0
    → IsOpen s1.fds 1
    → ((i : ℕ) → i ≢ 1 → IsOpen s.fds i → s1.fds i ≡ s.fds i)
    → ((v : ℕ) → save ≡ some v → (v ≢ 1) × (s.fds v ≡ none) × (s1.fds v ≡ s.fds 1) × IsOpen s.fds 1)
    → s1.limit ≡ s.limit
    → s1.trace ≡ s.trace
    → IsSwapped s (open_instead works name save s1)
instead-IsSwapped works name save s s1 room zero_used used kept copy same_limit same_trace =
    elim (open_instead_lem works name save s1 room zero_used used) [
      | inl failed ↦ rw failed record {
        kept =
            λ i other was. let apart : i == 1 ≡ false = ground arith in rw apart (kept i other was);
        output = inl refl;
        copy = λ v got. absurd (cc got);
        same_limit = same_limit;
        same_trace = inr (s1.fds 2, ap (λ tr. reported (s1.fds 2) ∷ tr) same_trace);
      }
      | inr (n, opened) ↦ rw opened record {
        kept =
            λ i other was. let apart : i == 1 ≡ false = ground arith in rw apart (kept i other was);
        output = inr (n, refl);
        copy = λ v got.
            let (other, free, same, was) = copy v got in
            let apart : v == 1 ≡ false = ground arith in (free, rw apart same, was, (file n, refl));
        same_limit = same_limit;
        same_trace = inl same_trace;
      }
    ]

dup-free : (fd : ℕ) (s : Shell) → s.fds fd ≡ none → dup fd s ≡ (none, s)
unfolding dup
dup-free fd s free = rw (free, dup) refl

close-free : (fd : ℕ) (s : Shell) → s.fds fd ≡ none → close fd s ≡ none
unfolding close
close-free fd s free = rw (free, close) refl

open_instead-free :
    (works : Bool) (name : Option String) (save : Option ℕ) (s : Shell)
    → s.fds 1 ≡ none
    → open_instead works name save s ≡ (none, report s)
unfolding open_instead
open_instead-free works name save s free = rw (close-free 1 s free, open_instead) refl

without_stdout :
    (works : Bool) (name : Option String) (s : Shell)
    → s.fds 1 ≡ none
    → close_stdout works name s ≡ (none, report s)
unfolding close_stdout
without_stdout works name s free =
    ap (λ (save, s1). open_instead works name save s1) (dup-free 1 s free)
    ∙ open_instead-free works name none s free

-- An open descriptor is not one that was free.
pub not_free : (fds : ℕ → Option Target) {v i : ℕ} → fds v ≡ none → IsOpen fds i → i == v ≡ false
not_free fds {v} {i} free (t, used) = elim (Bool-cases (i == v)) [
  | inl same ↦
      let here : i ≡ v = ground arith in
      let both : fds i ≡ none = ap fds here ∙ free in absurd (cc (both, used))
  | inr other ↦ other
]

-- `closeSTDOUT`, where descriptor 0 is open.
pub close_stdout-IsSwapped :
    (works : Bool) (name : Option String) (s : Shell)
    → 2 ≤ s.limit
    → IsOpen s.fds 0
    → IsSwapped s (close_stdout works name s)
unfolding close_stdout
close_stdout-IsSwapped works name s room (z, zero_used) = elim (Option-cases (s.fds 1)) [
  | inl free ↦ rw (without_stdout works name s free) record {
    kept = λ i other was. refl;
    output = inl free;
    copy = λ v got. absurd (cc got);
    same_limit = refl;
    same_trace = inr (s.fds 2, refl);
  }
  | inr (t, used) ↦ elim (dup_lem s used) [
    | inl failed ↦
        rw (failed, close_stdout)
          (instead-IsSwapped works name none s s room (z, zero_used) (t, used) (λ i other was. refl)
            (λ v got. absurd (cc got)) refl refl)
    | inr (v, found, took) ↦
        let free : s.fds v ≡ none = lowest-free s.fds s.limit 0 v found in
        let one : 1 == v ≡ false = not_free s.fds free (t, used) in
        let first : 0 == v ≡ false = not_free s.fds free (z, zero_used) in
        rw (took, close_stdout)
          (instead-IsSwapped works name (some v) s (with_fd v (some t) s) room
            (z, rw first zero_used) (t, rw one used)
            (λ i other was. rw (not_free s.fds free was) refl)
            (λ w got.
              let here : v ≡ w = cc got in
              let same : w == v ≡ true = ground arith in
              let other : w ≢ 1 = λ e. absurd (ground arith) in
              (other, ap s.fds (sym here) ∙ free, rw same (sym used), (t, used)))
            refl refl)
  ]
]
