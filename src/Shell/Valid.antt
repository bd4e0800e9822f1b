-- ===== src/Shell/Valid.antt =====
-- The descriptors of p2/c/mysh.c in every run: stdin and stderr stay open, and stdout can be restored.
use bacon_eggs.Prelude.{
  ℕ, ◌≤◌, ◌≡◌, ◌≢◌, refl, ap, ◌∙◌, inl, inr, Bool, true, false, Option, none, some, ◌==◌, arith,
  Option-cases,
}
use bacon_eggs.Shell.{String}
use bacon_eggs.Shell.Files.{
  Effect, Target, Shell, log, with_fd, close, dup2, open_stdout, close_stdout,
}
use bacon_eggs.Shell.Line.{goes, restore_from, opened_again, restore}
use bacon_eggs.Shell.Descriptors.{IsOpen, close_stdout-IsSwapped, close-used, not_free}
use bacon_eggs.Shell.Kept.{Ends, swapped, IsKept}

-- Descriptors 0 and 2 are open, and a saved copy of stdout is an open descriptor behind them, with
-- stdout open too.
pub record IsValid (s : Shell) : Type 0 where
  pub room : 2 ≤ s.limit
  pub input : IsOpen s.fds 0
  pub errors : IsOpen s.fds 2
  pub saved : (v : ℕ) → s.saved_stdout ≡ some v → (3 ≤ v) × IsOpen s.fds v × IsOpen s.fds 1

pub restore-none : (s : Shell) → s.saved_stdout ≡ none → restore s ≡ goes s
unfolding restore_from
restore-none s unsaved = ap (λ o. restore_from o s) unsaved

abbrev pub restored : (v : ℕ) → Target → Shell → Shell
restored v w s = record (with_fd v none (with_fd 1 (some w) (with_fd 1 none s))) {
  saved_stdout = none;
}

dup2-used :
    (v fd : ℕ) (s : Shell) {w : Target}
    → s.fds v ≡ some w
    → dup2 v fd s ≡ some (with_fd fd (some w) s)
unfolding dup2
dup2-used v fd s used = rw (used, dup2) refl

open_stdout_lem :
    (v : ℕ) (s : Shell) {t w : Target}
    → v ≢ 1
    → s.fds 1 ≡ some t
    → s.fds v ≡ some w
    → open_stdout v s ≡ (true, with_fd v none (with_fd 1 (some w) (with_fd 1 none s)))
unfolding open_stdout
open_stdout_lem v s {t} {w} other used kept =
    let apart : v == 1 ≡ false = ground arith in
    let s1 = with_fd 1 none s in
    let copied : dup2 v 1 s1 ≡ some (with_fd 1 (some w) s1) =
      dup2-used v 1 s1 {w = w} (rw apart kept) in
    let freed : close v (with_fd 1 (some w) s1) ≡ some (with_fd v none (with_fd 1 (some w) s1)) =
      close-used v (with_fd 1 (some w) s1) {t = w} (rw apart kept) in
    rw (close-used 1 s used, copied, freed, open_stdout) refl

pub restore_lem :
    (s : Shell) (v : ℕ) {t w : Target}
    → s.saved_stdout ≡ some v
    → v ≢ 1
    → s.fds 1 ≡ some t
    → s.fds v ≡ some w
    → restore s ≡ goes (restored v w s)
unfolding restore_from
restore_lem s v save other used kept =
    ap (λ o. restore_from o s) save ∙ ap opened_again (open_stdout_lem v s other used kept)

-- A saved copy is not descriptor 1, and is restored.
pub restored-IsValid : (s : Shell) → IsValid s → Ends IsValid (restore s)
unfolding restore_from
restored-IsValid s valid = elim (Option-cases s.saved_stdout) [
  | inl unsaved ↦ rw (restore-none s unsaved) valid
  | inr (v, save) ↦
      let (high, (w, kept), (t, used)) = valid.saved v save in
      let (z, zero_used) = valid.input in
      let (e, two_used) = valid.errors in
      let first : 0 == v ≡ false = ground arith in
      let third : 2 == v ≡ false = ground arith in
      rw (restore_lem s v save (λ same. absurd (omega arith)) used kept) record {
        room = valid.room;
        input = (z, rw first zero_used);
        errors = (e, rw third two_used);
        saved = λ x none_saved. absurd (cc none_saved);
      }
]

-- A descriptor that was free is behind the three that are open.
behind_three : (s : Shell) (v : ℕ) → IsValid s → s.fds v ≡ none → IsOpen s.fds 1 → 3 ≤ v
behind_three s v valid free used =
    let first = not_free s.fds free valid.input in
    let second = not_free s.fds free used in
    let third = not_free s.fds free valid.errors in ground arith

pub opened-IsValid :
    (works : Bool) (name : Option String) (s : Shell)
    → IsValid s
    → IsValid (swapped (close_stdout works name s))
opened-IsValid works name s valid =
    let swap = close_stdout-IsSwapped works name s valid.room valid.input in
    let (z, zero_used) = valid.input in
    let (e, two_used) = valid.errors in
    record {
      room = omega (arith, valid.room, swap.same_limit);
      input = (z, swap.kept 0 (λ same. absurd (omega arith)) valid.input ∙ zero_used);
      errors = (e, swap.kept 2 (λ same. absurd (omega arith)) valid.errors ∙ two_used);
      saved = λ v save.
          let (free, same, (t, used), now) = swap.copy v save in
          (behind_three s v valid free (t, used), (t, same ∙ used), now);
    }

pub log-IsValid : (e : Effect) (s : Shell) → IsValid s → IsValid (log e s)
log-IsValid e s valid = record {
  room = valid.room;
  input = valid.input;
  errors = valid.errors;
  saved = valid.saved;
}

pub IsValid-IsKept : IsKept IsValid
IsValid-IsKept = record {
  logged = λ e s allowed valid. log-IsValid e s valid;
  restored = restored-IsValid;
  opened = opened-IsValid;
}
