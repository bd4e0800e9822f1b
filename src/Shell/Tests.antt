-- ===== src/Shell/Tests.antt =====
-- Lines of p2/c/mysh.c, and runs of the shell.
use bacon_eggs.Prelude.{
  ◌≡◌, ℕ, refl, true, false, none, some, Option, map, List, [], ◌∷◌, arith, ltb, if◌then◌else◌,
}
use bacon_eggs.Shell.{
  String, tokens, token_loop, skip, break_at, count_loop, same, contains, dispatch, plain_line,
  fault, error, execute, python_name,
}
use bacon_eggs.Shell.Files.{
  Target, terminal, file, Shell, Effect, started, waited, wrote, log, lowest,
}
use bacon_eggs.Shell.Line.{
  SystemAnswers, parent, Next, goes, exits, replaced, faults, run_lines, read_line, launch,
}
use bacon_eggs.Shell.Valid.{IsValid}
use bacon_eggs.Shell.Redirected.{IsRedirected}
use bacon_eggs.Shell.Background.{background_lem}
use bacon_eggs.Shell.Words.{words, count, blank, plain_line_lem}

abbrev ls_line : String
ls_line = b' ' ∷ b'l' ∷ b's' ∷ b'\t' ∷ b' ' ∷ b'/' ∷ b'\n' ∷ []

plain_line_lem_example :
    (count_loop ls_line ≡ (count b'>' ls_line, count b'&' ls_line, map blank ls_line))
    × (plain_line ls_line ≡ dispatch (count b'&' ls_line) (words (map blank ls_line)))
plain_line_lem_example = plain_line_lem ls_line

ls_run : tokens ls_line ≡ (b'l' ∷ b's' ∷ []) ∷ (b'/' ∷ []) ∷ []
unfolding token_loop skip break_at
ls_run = refl

-- "a.py &", and a line of spaces.
python_run :
    plain_line (b'a' ∷ b'.' ∷ b'p' ∷ b'y' ∷ b' ' ∷ b'&' ∷ b'\n' ∷ [])
    ≡ execute true (python_name ∷ (b'a' ∷ b'.' ∷ b'p' ∷ b'y' ∷ []) ∷ [])
unfolding token_loop skip break_at count_loop same contains dispatch
python_run = refl

space_run : plain_line (b' ' ∷ b'\n' ∷ []) ≡ fault
unfolding token_loop skip break_at count_loop dispatch
space_run = refl

-- "pwd x".
pwd_run : plain_line (b'p' ∷ b'w' ∷ b'd' ∷ b' ' ∷ b'x' ∷ b'\n' ∷ []) ≡ error
unfolding token_loop skip break_at count_loop same dispatch
pwd_run = refl

-- Descriptors 0, 1 and 2 on the terminal.
abbrev at_first : ℕ → Option Target
at_first i = if ltb i 3 then some terminal else none

abbrev shell : Shell
shell = record { limit = 1024; fds = at_first; saved_stdout = none; trace = [] }

shell-IsValid : IsValid shell
shell-IsValid = record {
  room = omega arith;
  input = (terminal, refl);
  errors = (terminal, refl);
  saved = λ v save. absurd (cc save);
}

abbrev yes : SystemAnswers
yes = record {
  open_works = true;
  chdir_works = true;
  home = none;
  cwd = some (b'/' ∷ []);
  junk = [];
  forked = parent;
}

abbrev no_file : SystemAnswers
no_file = record yes { open_works = false }

-- "ls >o", "ls >o &" and "pwd".
abbrev to_file : String
to_file = b'l' ∷ b's' ∷ b' ' ∷ b'>' ∷ b'o' ∷ b'\n' ∷ []

abbrev in_background : String
in_background = b'l' ∷ b's' ∷ b' ' ∷ b'>' ∷ b'o' ∷ b' ' ∷ b'&' ∷ b'\n' ∷ []

abbrev pwd_line : String
pwd_line = b'p' ∷ b'w' ∷ b'd' ∷ b'\n' ∷ []

abbrev ls_name : String
ls_name = b'l' ∷ b's' ∷ []

in_background-IsRedirected :
    IsRedirected in_background 1 (b'l' ∷ b's' ∷ b' ' ∷ b'>' ∷ b'o' ∷ b' ' ∷ b' ' ∷ b'\n' ∷ [])
unfolding count_loop skip break_at
in_background-IsRedirected = record { counts = refl; one_word = refl }

background_lem_example :
    read_line false yes in_background shell
    ≡ goes (log (started true (ls_name ∷ []) (some (file (b'o' ∷ [])))) shell)
unfolding dispatch same contains token_loop skip break_at lowest
background_lem_example =
    background_lem yes in_background {name = b'o' ∷ []} {args = ls_name ∷ []}
      in_background-IsRedirected refl refl refl refl false shell {v = 3} {t = terminal}
      shell-IsValid refl refl refl

-- After a redirected command in the foreground, `pwd` writes to the file.
abbrev trace_of : Next → List Effect
trace_of (goes s) = s.trace
trace_of (exits n s) = s.trace
trace_of (replaced args s) = s.trace
trace_of (faults s) = s.trace

pwd_in_file :
    trace_of (run_lines false ((yes, to_file) ∷ (yes, pwd_line) ∷ []) shell)
    ≡ wrote (file (b'o' ∷ [])) (b'\n' ∷ [])
      ∷ wrote (file (b'o' ∷ [])) (b'/' ∷ [])
      ∷ waited
      ∷ started false (ls_name ∷ []) (some (file (b'o' ∷ [])))
      ∷ []
unfolding run_lines dispatch same contains token_loop skip break_at count_loop launch
pwd_in_file = refl
