-- ===== src/Shell/Line.antt =====
-- One line of the main loop of p2/c/mysh.c, with the redirection, the commands and the children.
use bacon_eggs.Prelude.{
  ℕ, Bool, true, false, Option, none, some, List, [], ◌∷◌, leb, ◌==◌, if◌then◌else◌,
}
use bacon_eggs.Shell.{
  String, del2, strtok, break_at, count_loop, tokens, Action, fault, error, leave, go_home, go_to,
  print_directory, wait_children, execute, dispatch,
}
use bacon_eggs.Shell.Files.{
  Shell, entered, started, waited, log, report, print, open_file, close_stdout, open_stdout,
}

-- What `fork` gives, for the process that is followed: -1, the parent, or the child, whose `execvp`
-- fails or does not return.
pub data Fork : Type 0 where
  fork_failed : Fork
  parent : Fork
  child_failed : Fork
  child : Fork

-- What the system answers during a line: whether the file can be opened and the directory entered,
-- the variable HOME, the working directory, and what stands in the array where `getcwd` fails.
pub record SystemAnswers : Type 0 where
  pub open_works : Bool
  pub chdir_works : Bool
  pub home : Option String
  pub cwd : Option String
  pub junk : String
  pub forked : Fork

-- How a line ends: the loop goes on, the process exits or is another program, or it reads NULL.
pub data Next : Type 0 where
  goes : Shell → Next
  exits : (status : ℕ) → Shell → Next
  replaced : List String → Shell → Next
  faults : Shell → Next

abbrev del1 : ℕ → Bool
del1 c = c == b'>'

-- What a call of `strtok` gives, and what the next call goes on with: NULL, and the end of the string,
-- where there is no token.
abbrev token_of : Option (String × String) → Option String
token_of none = none
token_of (some (token, rest)) = some token

abbrev rest_of : Option (String × String) → String
rest_of none = []
rest_of (some (token, rest)) = rest

-- The calls of `strtok` on a line with one ">": the part behind it, its first word, and the second.
abbrev pub behind : String → String
behind line = elim (token_of (strtok del1 (rest_of (strtok del1 line)))) [
  | none ↦ []
  | some region ↦ region
]

abbrev pub redirect_file : String → Option String
redirect_file line = token_of (strtok del2 (behind line))

abbrev pub second_word : String → Option String
second_word line = token_of (strtok del2 (rest_of (strtok del2 (behind line))))

-- `buff` after these calls, where the line does not begin with the ">".
abbrev pub before : String → String
before line = let (command, rest) = break_at del1 line in command

-- The end of the loop's body, with what `saved_stdout` is.
abbrev pub opened_again : Bool × Shell → Next
opened_again (true, s) = goes (record s { saved_stdout = none })
opened_again (false, s) = exits 1 (report s)

unfoldable pub restore_from : Option ℕ → Shell → Next
unfolding open_stdout
restore_from none s = goes s
restore_from (some save) s = opened_again (open_stdout save s)

abbrev pub restore : Shell → Next
restore s = restore_from s.saved_stdout s

unfoldable pub launch : Fork → (background : Bool) → List String → Shell → Next
unfolding restore_from
launch fork_failed background args s = restore (report s)
launch child_failed background args s = restore s
launch child background args s = replaced args s
launch parent true args s = restore (log (started true args (s.fds 1)) s)
launch parent false args s = goes (log waited (log (started false args (s.fds 1)) s))

abbrev pub enter_directory : (works : Bool) → Option String → Shell → Next
enter_directory works none s = goes (report s)
enter_directory works (some dir) s = if works then goes (log (entered dir) s) else goes (report s)

-- `pwd` writes the array in each case.
abbrev pub show_directory : Option String → (junk : String) → Shell → Next
show_directory none junk s = goes (print (b'\n' ∷ []) (print junk (report s)))
show_directory (some dir) junk s = goes (print (b'\n' ∷ []) (print dir s))

-- `numprocess` is 0 in every line, so `wait` does nothing.
unfoldable pub perform : SystemAnswers → Action → Shell → Next
perform a fault s = faults s
perform a error s = goes (report s)
perform a leave s = exits 0 s
perform a go_home s = enter_directory a.chdir_works a.home s
perform a (go_to dir) s = enter_directory a.chdir_works (some dir) s
perform a print_directory s = show_directory a.cwd a.junk s
perform a wait_children s = goes s
perform a (execute background args) s = launch a.forked background args s

abbrev pub command : SystemAnswers → (andcount : ℕ) → String → Shell → Next
command a andcount line s = perform a (dispatch andcount (tokens line)) s

-- A line with one ">".
abbrev pub redirected : SystemAnswers → (andcount : ℕ) → String → Option ℕ × Shell → Next
redirected a andcount line (none, s) = goes (record s { saved_stdout = none })
redirected a andcount line (some save, s) =
    command a andcount (before line) (record s { saved_stdout = some save })

unfoldable pub redirection : SystemAnswers → (andcount : ℕ) → String → Shell → Next
unfolding close_stdout
redirection a andcount line s = elim (second_word line) [
  | none ↦ redirected a andcount line (close_stdout a.open_works (redirect_file line) s)
  | some word ↦ goes (report s)
]

-- A line that is not only a newline, from the counts on.
abbrev pub counted_line : SystemAnswers → ℕ × ℕ × String → Shell → Next
counted_line a (carrotcount, andcount, line) s =
    if leb 2 carrotcount
    then goes (report s)
    else if carrotcount == 1
    then redirection a andcount line s
    else command a andcount line s

abbrev pub is_newline : String → Bool
is_newline [] = false
is_newline (c ∷ []) = c == b'\n'
is_newline (c ∷ d ∷ cs) = false

-- In batch mode the line is written first.
abbrev pub echoed : (batch : Bool) → String → Shell → Shell
echoed batch line s = if batch then print line s else s

unfoldable pub read_line : (batch : Bool) → SystemAnswers → String → Shell → Next
unfolding redirection perform
read_line batch a line s =
    if is_newline line
    then goes (echoed batch line s)
    else counted_line a (count_loop line) (echoed batch line s)

-- The loop goes on.
abbrev pub after : Next → (Shell → Next) → Next
after (goes s) f = f s
after (exits n s) f = exits n s
after (replaced args s) f = replaced args s
after (faults s) f = faults s

-- The lines, with what the system answers in each.
abbrev pub Lines : Type 0
Lines = List (SystemAnswers × String)

unfoldable pub run_lines : (batch : Bool) → Lines → Shell → Next
unfolding read_line
run_lines batch [] s = goes s
run_lines batch ((a, line) ∷ ls) s = after (read_line batch a line s) λ t. run_lines batch ls t

-- `main`, until `fgets` gives NULL: `argc`, which is 1 or more, whether the batch file `argv[1]` can be opened,
-- and the lines. Interactive mode writes the prompt once.
abbrev pub prompt : String
prompt = b'm' ∷ b'y' ∷ b's' ∷ b'h' ∷ b'>' ∷ b' ' ∷ []

unfoldable pub main : (argc : ℕ) → (opened : Bool) → (script : String) → Lines → Shell → Next
unfolding run_lines open_file
main argc opened script ls s =
    if argc == 2
    then elim (open_file opened (some script) s) [
      | none ↦ exits 1 (report s)
      | some s' ↦ after (run_lines true ls s') (exits 0)
    ]
    else if leb 2 argc
    then exits 1 (report s)
    else after (run_lines false ls (print prompt s)) (exits 0)
