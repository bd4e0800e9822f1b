-- ===== src/Shell/Kept.antt =====
-- What every line of p2/c/mysh.c keeps: a predicate that holds after every event, every restored stdout
-- and every call of closeSTDOUT.
use bacon_eggs.Prelude.{
  ℕ, ◌≡◌, refl, inl, inr, Bool, true, false, Option, none, some, List, [], ◌∷◌, leb, ◌==◌,
  Bool-cases, Option-cases,
}
use bacon_eggs.Shell.{
  String, Action, fault, error, leave, go_home, go_to, print_directory, wait_children, execute,
  count_loop, dispatch, tokens,
}
use bacon_eggs.Shell.Files.{
  Effect, reported, wrote, entered, started, waited, Target, Shell, log, report, print,
  close_stdout,
}
use bacon_eggs.Shell.Line.{
  SystemAnswers, Fork, fork_failed, parent, child_failed, child, Next, goes, exits, replaced,
  faults, Lines, restore, launch, enter_directory, show_directory, perform, redirected, redirection,
  counted_line, second_word, redirect_file, before, is_newline, echoed, read_line, after, run_lines,
}

-- An event that a line may log: an error message goes to stderr, a text goes to stdout, and a child
-- has the same stdout.
pub data Allowed (s : Shell) : Effect → Type 0 where
  a_report : Allowed s (reported (s.fds 2))
  a_text : (t : Target) → (text : String) → s.fds 1 ≡ some t → Allowed s (wrote t text)
  a_directory : (dir : String) → Allowed s (entered dir)
  a_child :
      (background : Bool) → (args : List String) → Allowed s (started background args (s.fds 1))
  a_wait : Allowed s waited

-- The predicate holds at the end of a line, and a process that exits has the status 0.
abbrev pub Ends : (P : Shell → Type 0) → Next → Type 0
Ends P (goes s) = P s
Ends P (exits n s) = (n ≡ 0) × P s
Ends P (replaced args s) = P s
Ends P (faults s) = P s

abbrev pub swapped : Option ℕ × Shell → Shell
swapped (r, u) = record u { saved_stdout = r }

pub record IsKept (P : Shell → Type 0) : Type 0 where
  pub logged : (e : Effect) (s : Shell) → Allowed s e → P s → P (log e s)
  pub restored : (s : Shell) → P s → Ends P (restore s)
  pub opened :
      (works : Bool) (name : Option String) (s : Shell)
      → P s
      → P (swapped (close_stdout works name s))

module _ {P : Shell → Type 0} (k : IsKept P) where
  pub print-kept : (text : String) (s : Shell) → P s → P (print text s)
  print-kept text s p = elim (Option-cases (s.fds 1)) [
    | inl free ↦ rw (free, print) p
    | inr (t, used) ↦ rw (used, print) (k.logged (wrote t text) s (a_text t text used) p)
  ]

  report-kept : (s : Shell) → P s → P (report s)
  report-kept s = k.logged (reported (s.fds 2)) s a_report

  launch-kept :
      (f : Fork) (background : Bool) (args : List String) (s : Shell)
      → P s
      → Ends P (launch f background args s)
  unfolding launch
  launch-kept fork_failed background args s p = k.restored (report s) (report-kept s p)
  launch-kept child_failed background args s p = k.restored s p
  launch-kept child background args s p = p
  launch-kept parent true args s p =
      let e = started true args (s.fds 1) in
      k.restored (log e s) (k.logged e s (a_child true args) p)
  launch-kept parent false args s p =
      let e = started false args (s.fds 1) in
      k.logged waited (log e s) a_wait (k.logged e s (a_child false args) p)

  enter_directory-kept :
      (works : Bool) (dir : Option String) (s : Shell) → P s → Ends P (enter_directory works dir s)
  enter_directory-kept works none s p = report-kept s p
  enter_directory-kept true (some dir) s p = k.logged (entered dir) s (a_directory dir) p
  enter_directory-kept false (some dir) s p = report-kept s p

  show-kept :
      (cwd : Option String) (junk : String) (s : Shell) → P s → Ends P (show_directory cwd junk s)
  show-kept none junk s p =
      print-kept _ (print junk (report s)) (print-kept junk (report s) (report-kept s p))
  show-kept (some dir) junk s p = print-kept _ (print dir s) (print-kept dir s p)

  perform-kept :
      (a : SystemAnswers) (action : Action) (s : Shell) → P s → Ends P (perform a action s)
  unfolding perform
  perform-kept a fault s p = p
  perform-kept a error s p = report-kept s p
  perform-kept a leave s p = (refl, p)
  perform-kept a go_home s p = enter_directory-kept a.chdir_works a.home s p
  perform-kept a (go_to dir) s p = enter_directory-kept a.chdir_works (some dir) s p
  perform-kept a print_directory s p = show-kept a.cwd a.junk s p
  perform-kept a wait_children s p = p
  perform-kept a (execute background args) s p = launch-kept a.forked background args s p

  pub redirected-kept :
      (a : SystemAnswers) (ands : ℕ) (line : String) (r : Option ℕ × Shell)
      → P (swapped r)
      → Ends P (redirected a ands line r)
  redirected-kept a ands line (none, u) p = p
  redirected-kept a ands line (some v, u) p =
      perform-kept a (dispatch ands (tokens (before line))) (swapped (some v, u)) p

  redirection-kept :
      (a : SystemAnswers) (ands : ℕ) (line : String) (s : Shell)
      → P s
      → Ends P (redirection a ands line s)
  unfolding redirection
  redirection-kept a ands line s p = elim (Option-cases (second_word line)) [
    | inl one ↦
        rw (one, redirection)
          (redirected-kept a ands line (close_stdout a.open_works (redirect_file line) s)
            (k.opened a.open_works (redirect_file line) s p))
    | inr (word, two) ↦ rw (two, redirection) (report-kept s p)
  ]

  counted_line-kept :
      (a : SystemAnswers) (c : ℕ × ℕ × String) (s : Shell) → P s → Ends P (counted_line a c s)
  counted_line-kept a (carrots, ands, line) s p = elim (Bool-cases (leb 2 carrots)) [
    | inl many ↦ rw many (report-kept s p)
    | inr few ↦ elim (Bool-cases (carrots == 1)) [
      | inl one ↦ rw (few, one) (redirection-kept a ands line s p)
      | inr zero_carrots ↦ rw (few, zero_carrots) (perform-kept a (dispatch ands (tokens line)) s p)
    ]
  ]

  pub echoed-kept : (batch : Bool) (line : String) (s : Shell) → P s → P (echoed batch line s)
  echoed-kept true line s p = print-kept line s p
  echoed-kept false line s p = p

  read_line-kept :
      (batch : Bool) (a : SystemAnswers) (line : String) (s : Shell)
      → P s
      → Ends P (read_line batch a line s)
  unfolding read_line
  read_line-kept batch a line s p =
      let echo = echoed-kept batch line s p in
      elim (Bool-cases (is_newline line)) [
        | inl empty ↦ rw empty echo
        | inr more ↦ rw more (counted_line-kept a (count_loop line) (echoed batch line s) echo)
      ]

  pub after-kept :
      (n : Next) (f : Shell → Next)
      → Ends P n
      → ((t : Shell) → P t → Ends P (f t))
      → Ends P (after n f)
  after-kept (goes t) f p keep = keep t p
  after-kept (exits m t) f p keep = p
  after-kept (replaced args t) f p keep = p
  after-kept (faults t) f p keep = p

  -- The lines one after the other.
  pub run_lines-kept : (batch : Bool) (ls : Lines) (s : Shell) → P s → Ends P (run_lines batch ls s)
  unfolding run_lines
  run_lines-kept batch [] s p = p
  run_lines-kept batch ((a, line) ∷ ls) s p =
      after-kept (read_line batch a line s) (run_lines batch ls) (read_line-kept batch a line s p)
        λ t q. run_lines-kept batch ls t q
