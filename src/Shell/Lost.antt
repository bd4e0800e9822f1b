-- ===== src/Shell/Lost.antt =====
-- When the stdout of p2/c/mysh.c never reaches the terminal again.
use bacon_eggs.Prelude.{
  ℕ, subst, ◌+◌, ◌≡◌, refl, sym, ap, ◌∙◌, inl, inr, Bool, false, Option, none, some, List, [], ◌∷◌,
  ◌==◌, arith, Option-cases,
}
use bacon_eggs.Shell.{String}
use bacon_eggs.Shell.Files.{
  Effect, reported, wrote, entered, started, waited, Target, terminal, file, Shell, log,
  close_stdout,
}
use bacon_eggs.Shell.Line.{restore}
use bacon_eggs.Shell.Descriptors.{IsSwapped, close_stdout-IsSwapped}
use bacon_eggs.Shell.Kept.{
  Allowed, a_report, a_text, a_directory, a_child, a_wait, Ends, swapped, IsKept,
}
use bacon_eggs.Shell.Valid.{
  IsValid, log-IsValid, restore_lem, restore-none, restored-IsValid, opened-IsValid,
}

-- How often a text on stdout was written to the terminal, or a child was started that has it as its
-- stdout. The error messages on stderr are not counted.
abbrev pub is_terminal : Option Target → ℕ
is_terminal none = 0
is_terminal (some terminal) = 1
is_terminal (some (file name)) = 0

abbrev pub seen : Effect → ℕ
seen (reported t) = 0
seen (wrote target text) = is_terminal (some target)
seen (entered dir) = 0
seen (started background args target) = is_terminal target
seen waited = 0

unfoldable pub output_on_terminal : List Effect → ℕ
output_on_terminal [] = 0
output_on_terminal (e ∷ es) = seen e + output_on_terminal es

-- Neither stdout nor the copy that is saved is the terminal; `n` is how often stdout has reached it.
pub record IsLost (n : ℕ) (s : Shell) : Type 0 where
  pub valid : IsValid s
  pub output : is_terminal (s.fds 1) ≡ 0
  pub copy : (v : ℕ) → s.saved_stdout ≡ some v → is_terminal (s.fds v) ≡ 0
  pub count : output_on_terminal s.trace ≡ n

-- An event of a shell whose stdout is not the terminal.
seen-Allowed : (s : Shell) (e : Effect) → Allowed s e → is_terminal (s.fds 1) ≡ 0 → seen e ≡ 0
seen-Allowed s _ a_report output = refl
seen-Allowed s _ (a_text t text at) output = ap is_terminal (sym at) ∙ output
seen-Allowed s _ (a_directory dir) output = refl
seen-Allowed s _ (a_child background args) output = output
seen-Allowed s _ a_wait output = refl

log-IsLost : {n : ℕ} (e : Effect) (s : Shell) → Allowed s e → IsLost n s → IsLost n (log e s)
unfolding output_on_terminal
log-IsLost e s allowed lost = record {
  valid = log-IsValid e s lost.valid;
  output = lost.output;
  copy = lost.copy;
  count = omega (arith, seen-Allowed s e allowed lost.output, lost.count);
}

restored-IsLost : {n : ℕ} (s : Shell) → IsLost n s → Ends (IsLost n) (restore s)
restored-IsLost s lost = elim (Option-cases s.saved_stdout) [
  | inl unsaved ↦ rw (restore-none s unsaved) lost
  | inr (v, save) ↦
      let (high, (w, kept), (t, used)) = lost.valid.saved v save in
      let run = restore_lem s v save (λ same. absurd (omega arith)) used kept in
      let first : 1 == v ≡ false = ground arith in
      rw run record {
        valid = subst (Ends IsValid) run (restored-IsValid s lost.valid);
        output = rw first (ap is_terminal (sym kept) ∙ lost.copy v save);
        copy = λ x none_saved. absurd (cc none_saved);
        count = lost.count;
      }
]

-- A redirection from a stdout that is not the terminal.
pub count-swapped :
    (s : Shell) (r : Option ℕ × Shell)
    → IsSwapped s r
    → output_on_terminal (swapped r).trace ≡ output_on_terminal s.trace
unfolding output_on_terminal
count-swapped s r swap = elim swap.same_trace [
  | inl same ↦ ap output_on_terminal same
  | inr (t, reports) ↦
      let one_more : output_on_terminal r.1.trace ≡ 0 + output_on_terminal s.trace =
        ap output_on_terminal reports in
      omega arith
]

pub output-swapped :
    (s : Shell) (r : Option ℕ × Shell) → IsSwapped s r → is_terminal (r.1.fds 1) ≡ 0
output-swapped s r swap = elim swap.output [
  | inl closed ↦ ap is_terminal closed
  | inr (name, in_file) ↦ ap is_terminal in_file
]

pub opened-IsLost :
    (works : Bool) (name : Option String) (s : Shell)
    → IsValid s
    → is_terminal (s.fds 1) ≡ 0
    → IsLost (output_on_terminal s.trace) (swapped (close_stdout works name s))
opened-IsLost works name s valid output =
    let swap = close_stdout-IsSwapped works name s valid.room valid.input in
    record {
      valid = opened-IsValid works name s valid;
      output = output-swapped s (close_stdout works name s) swap;
      copy =
          λ v save. let (free, same, was, now) = swap.copy v save in ap is_terminal same ∙ output;
      count = count-swapped s (close_stdout works name s) swap;
    }

-- A redirection that returns -1.
pub failed-IsLost :
    (works : Bool) (name : Option String) (s : Shell)
    → IsValid s
    → (close_stdout works name s).0 ≡ none
    → IsLost (output_on_terminal s.trace) (swapped (close_stdout works name s))
failed-IsLost works name s valid failed =
    let swap = close_stdout-IsSwapped works name s valid.room valid.input in
    record {
      valid = opened-IsValid works name s valid;
      output = output-swapped s (close_stdout works name s) swap;
      copy = λ v save. absurd (cc (failed, save));
      count = count-swapped s (close_stdout works name s) swap;
    }

pub IsLost-IsKept : (n : ℕ) → IsKept (IsLost n)
IsLost-IsKept n = record {
  logged = λ e s allowed lost. log-IsLost e s allowed lost;
  restored = λ s lost. restored-IsLost s lost;
  opened = λ works name s lost.
      subst (λ m. IsLost m (swapped (close_stdout works name s))) lost.count
        (opened-IsLost works name s lost.valid lost.output);
}
