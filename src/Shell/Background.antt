-- ===== src/Shell/Background.antt =====
-- A command in the background with its output in a file, in p2/c/mysh.c: stdout is restored.
use bacon_eggs.Prelude.{
  ℕ, ◌≡◌, refl, sym, ap, ◌∙◌, Bool, true, false, none, some, List, ◌==◌, arith,
}
use bacon_eggs.Shell.{String, dispatch, tokens, execute}
use bacon_eggs.Shell.Files.{Target, file, Shell, wrote, log, with_fd, lowest, close_stdout, started}
use bacon_eggs.Shell.Line.{
  SystemAnswers, parent, goes, redirect_file, before, redirected, echoed, read_line, perform,
  launch, restore_from,
}
use bacon_eggs.Shell.Descriptors.{lowest-free, not_free}
use bacon_eggs.Shell.Kept.{swapped}
use bacon_eggs.Shell.Valid.{IsValid, log-IsValid, restore_lem}
use bacon_eggs.Shell.Redirected.{IsRedirected, read_line-redirected, close_stdout_lem, restored-fds}

-- The text of a line goes where stdout is.
echoed-open :
    (line : String) (s : Shell) {t : Target}
    → s.fds 1 ≡ some t
    → echoed true line s ≡ log (wrote t line) s
echoed-open line s {t} used =
    ap (λ o. elim o as (λ _. Shell) [ none ↦ s | some t ↦ log (wrote t line) s ]) used

-- The command starts, and the descriptors are swapped back.
launched :
    (name : String) (args : List String) (s : Shell) {v : ℕ} {t : Target}
    → s.saved_stdout ≡ none
    → s.fds 1 ≡ some t
    → s.fds v ≡ none
    → launch parent true args
        (swapped (some v, with_fd 1 (some (file name)) (with_fd 1 none (with_fd v (some t) s))))
      ≡ goes (log (started true args (some (file name))) s)
unfolding launch restore_from
launched name args s {v} {t} unsaved used free =
    let one : 1 == v ≡ false = not_free s.fds free (t, used) in
    let other : v == 1 ≡ false = ground arith in
    let here : v == v ≡ true = ground arith in
    let u : Shell = with_fd 1 (some (file name)) (with_fd 1 none (with_fd v (some t) s)) in
    let e = started true args (some (file name)) in
    restore_lem (log e (swapped (some v, u))) v {w = t} refl (λ same. absurd (ground arith)) refl
      (rw (other, here) refl)
    ∙ ap (λ fds. goes (record (log e s) { fds = fds; saved_stdout = none }))
        (restored-fds s name used free)
    ∙ ap (λ o. goes (record (log e s) { saved_stdout = o })) (sym unsaved)

module _ (a : SystemAnswers) (line : String) {ands : ℕ} {marked name : String} {args : List String}
    (d : IsRedirected line ands marked)
    (words : dispatch ands (tokens (before marked)) ≡ execute true args)
    (named : redirect_file marked ≡ some name) (works : a.open_works ≡ true)
    (forked : a.forked ≡ parent) where
  background :
      (s : Shell) {v : ℕ} {t : Target}
      → IsValid s
      → s.saved_stdout ≡ none
      → s.fds 1 ≡ some t
      → lowest s.fds s.limit 0 ≡ some v
      → redirected a ands marked (close_stdout a.open_works (redirect_file marked) s)
        ≡ goes (log (started true args (some (file name))) s)
  unfolding perform
  background s {v} {t} valid unsaved used found =
      let u : Shell = with_fd 1 (some (file name)) (with_fd 1 none (with_fd v (some t) s)) in
      let free : s.fds v ≡ none = lowest-free s.fds s.limit 0 v found in
      ap (λ b. redirected a ands marked (close_stdout b (redirect_file marked) s)) works
      ∙ ap (λ o. redirected a ands marked (close_stdout true o s)) named
      ∙ ap (redirected a ands marked) (close_stdout_lem name s valid.room valid.input used found)
      ∙ ap (λ w. perform a w (swapped (some v, u))) words
      ∙ ap (λ f. launch f true args (swapped (some v, u))) forked
      ∙ launched name args s unsaved used free

  -- A line with one ">", one file behind it and a command with "&" in front of it, from valid
  -- descriptors, where stdout is open, no copy of it is saved, a descriptor is free, the file can be
  -- opened and the shell is the parent of the child: the child starts with the file as its stdout, and
  -- the shell is as it was before the line, each descriptor included, but for what it has logged.
  pub background_lem :
      (batch : Bool) (s : Shell) {v : ℕ} {t : Target}
      → IsValid s
      → s.saved_stdout ≡ none
      → s.fds 1 ≡ some t
      → lowest s.fds s.limit 0 ≡ some v
      → read_line batch a line s
        ≡ goes (log (started true args (some (file name))) (echoed batch line s))
  background_lem batch s valid unsaved used found =
      read_line-redirected batch a line s d ∙ echo batch
    where
      echo :
          (b : Bool)
          → redirected a ands marked
              (close_stdout a.open_works (redirect_file marked) (echoed b line s))
            ≡ goes (log (started true args (some (file name))) (echoed b line s))
      echo false = background s valid unsaved used found
      echo true = rw (echoed-open line s used) (
          background (log (wrote _ line) s) (log-IsValid (wrote _ line) s valid) unsaved used found)
