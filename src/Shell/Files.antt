-- ===== src/Shell/Files.antt =====
-- The swap of the standard output of p2/c/mysh.c, `closeSTDOUT` and `openSTDOUT`.
-- `fds` is what each descriptor stands for, with `limit` descriptors at most; dup, close, open and
-- dup2 are by their documented behaviour, where `open` may fail. A descriptor -1 is `none`.
use bacon_eggs.Prelude.{
  ℕ, zero, suc, Bool, true, false, Option, none, some, List, ◌∷◌, ◌==◌, if◌then◌else◌,
}
use bacon_eggs.Shell.{String}

-- What descriptors 0, 1 and 2 are at first, or a file by the name that it was opened with.
pub data Target : Type 0 where
  terminal : Target
  file : String → Target

-- What the shell has done: an error message, with what stderr stands for, a text on stdout, a
-- directory that was entered, and a command that a child was started for, with the child's stdout.
pub data Effect : Type 0 where
  reported : Option Target → Effect
  wrote : Target → String → Effect
  entered : String → Effect
  started : (background : Bool) → List String → Option Target → Effect
  waited : Effect

-- The process. `saved_stdout` is -1 or a descriptor; `trace` has the last event first.
pub record Shell : Type 0 where
  pub limit : ℕ
  pub fds : ℕ → Option Target
  pub saved_stdout : Option ℕ
  pub trace : List Effect

abbrev pub log : Effect → Shell → Shell
log e s = record s { trace = e ∷ s.trace }

-- `write(STDERR_FILENO, error_message, ...)`, to what stderr stands for.
abbrev pub report : Shell → Shell
report s = log (reported (s.fds 2)) s

-- `write(STDOUT_FILENO, ...)`, which does nothing where stdout is closed.
abbrev pub print : String → Shell → Shell
print text s = elim (s.fds 1) [ none ↦ s | some target ↦ log (wrote target text) s ]

abbrev pub set_fd : (fd : ℕ) → Option Target → (ℕ → Option Target) → ℕ → Option Target
set_fd fd t fds i = if i == fd then t else fds i

-- The lowest descriptor that is free, from `i` on with `k` left.
unfoldable pub lowest : (fds : ℕ → Option Target) → (k i : ℕ) → Option ℕ
lowest fds zero i = none
lowest fds (suc k) i =
    let rest = lowest fds k (suc i) in elim (fds i) [ none ↦ some i | some t ↦ rest ]

abbrev pub with_fd : (fd : ℕ) → Option Target → Shell → Shell
with_fd fd t s = record s { fds = set_fd fd t s.fds }

-- `dup`, whose failure is seen in what it returns.
abbrev pub copied : Option ℕ → Target → Shell → Option ℕ × Shell
copied none t s = (none, s)
copied (some fd) t s = (some fd, with_fd fd (some t) s)

unfoldable pub dup : (fd : ℕ) → Shell → Option ℕ × Shell
unfolding lowest
dup fd s = elim (s.fds fd) [ none ↦ (none, s) | some t ↦ copied (lowest s.fds s.limit 0) t s ]

-- `close`, `dup2` and `open`, which fail or change the descriptors. The name that is opened may be
-- NULL, and `works` is whether the name can be opened.
unfoldable pub close : (fd : ℕ) → Shell → Option Shell
close fd s = elim (s.fds fd) [ none ↦ none | some t ↦ some (with_fd fd none s) ]

unfoldable pub dup2 : (save fd : ℕ) → Shell → Option Shell
dup2 save fd s = elim (s.fds save) [ none ↦ none | some t ↦ some (with_fd fd (some t) s) ]

unfoldable pub open_file : (works : Bool) → Option String → Shell → Option Shell
unfolding lowest
open_file works none s = none
open_file false (some name) s = none
open_file true (some name) s = elim (lowest s.fds s.limit 0) [
  | none ↦ none
  | some fd ↦ some (with_fd fd (some (file name)) s)
]

-- From the `close` on; `save` is what `dup` has returned.
unfoldable pub open_instead :
    (works : Bool) → Option String → (save : Option ℕ) → Shell → Option ℕ × Shell
unfolding close open_file
open_instead works name save s = elim (close 1 s) [
  | none ↦ (none, report s)
  | some s1 ↦ elim (open_file works name s1) [ none ↦ (none, report s1) | some s2 ↦ (save, s2) ]
]

-- The descriptor of the copy of stdout, or -1.
unfoldable pub close_stdout : (works : Bool) → Option String → Shell → Option ℕ × Shell
unfolding open_instead dup
close_stdout works name s = let (save, s1) = dup 1 s in open_instead works name save s1

-- Whether stdout is what the descriptor `save` was; each failure is reported.
unfoldable pub open_stdout : (save : ℕ) → Shell → Bool × Shell
unfolding close dup2
open_stdout save s = elim (close 1 s) [
  | none ↦ (false, report s)
  | some s1 ↦ elim (dup2 save 1 s1) [
    | none ↦ (false, report s1)
    | some s2 ↦ elim (close save s2) [ none ↦ (false, report s2) | some s3 ↦ (true, s3) ]
  ]
]
