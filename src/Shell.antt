-- ===== src/Shell.antt =====
-- The parser and the choice of the command of the shell p2/c/mysh.c. A line is its bytes, without the
-- zero behind it; `char` values are taken as they are.
mod Tests
pub mod Words
pub mod Files
pub mod Line
pub mod Descriptors
pub mod Kept
pub mod Valid
pub mod Redirected
pub mod Background
pub mod Lost
pub mod Terminal
use bacon_eggs.Prelude.{
  ℕ, zero, suc, Bool, true, false, ◌&&◌, ◌||◌, not, Option, none, some, List, [], ◌∷◌, length, leb,
  ◌==◌, if◌then◌else◌,
}

-- A string, and the bytes of `del2`, " \t\n\v\f\r".
abbrev pub String : Type 0
String = List ℕ

abbrev pub del2 : ℕ → Bool
del2 c = c == b' ' || (leb 9 c && leb c 13)

-- The loop that counts ">" and "&" and puts a space for "&": `carrotcount`, `andcount`, and the line.
unfoldable pub count_loop : String → ℕ × ℕ × String
count_loop [] = (0, 0, [])
count_loop (c ∷ cs) =
    let (carrots, ands, rest) = count_loop cs in
    if c == b'>'
    then (suc carrots, ands, c ∷ rest)
    else if c == b'&'
    then (carrots, suc ands, b' ' ∷ rest)
    else (carrots, ands, c ∷ rest)

-- `strtok(s, del)`: the bytes before the token are passed over, and one byte behind it is.
unfoldable pub skip : (del : ℕ → Bool) → String → String
skip del [] = []
skip del (c ∷ cs) = let rest = skip del cs in if del c then rest else c ∷ cs

unfoldable pub break_at : (del : ℕ → Bool) → String → String × String
break_at del [] = ([], [])
break_at del (c ∷ cs) =
    let (token, rest) = break_at del cs in if del c then ([], cs) else (c ∷ token, rest)

abbrev pub start_token : (del : ℕ → Bool) → String → Option (String × String)
start_token del [] = none
start_token del (c ∷ cs) = some (break_at del (c ∷ cs))

abbrev pub strtok : (del : ℕ → Bool) → String → Option (String × String)
strtok del s = start_token del (skip del s)

-- The loop that fills `token`.
unfoldable pub token_loop : (fuel : ℕ) → String → List String
token_loop zero s = []
token_loop (suc fuel) s = elim (strtok del2 s) [
  | none ↦ []
  | some (token, rest) ↦ token ∷ token_loop fuel rest
]

-- A token and the next call take a byte of the line at least.
abbrev pub tokens : String → List String
tokens s = token_loop (suc (length s)) s

-- `strncmp` of strings shorter than its bound gives 0, and `strstr` finds a string.
unfoldable pub same : String → String → Bool
same [] [] = true
same [] (d ∷ ds) = false
same (c ∷ cs) [] = false
same (c ∷ cs) (d ∷ ds) = c == d && same cs ds

unfoldable pub is_prefix : String → String → Bool
is_prefix [] s = true
is_prefix (c ∷ cs) [] = false
is_prefix (c ∷ cs) (d ∷ ds) = c == d && is_prefix cs ds

unfoldable pub contains : String → String → Bool
unfolding is_prefix
contains part [] = is_prefix part []
contains part (c ∷ cs) = is_prefix part (c ∷ cs) || contains part cs

abbrev pub exit_name : String
exit_name = b'e' ∷ b'x' ∷ b'i' ∷ b't' ∷ []

abbrev pub cd_name : String
cd_name = b'c' ∷ b'd' ∷ []

abbrev pub pwd_name : String
pwd_name = b'p' ∷ b'w' ∷ b'd' ∷ []

abbrev pub wait_name : String
wait_name = b'w' ∷ b'a' ∷ b'i' ∷ b't' ∷ []

abbrev pub pypart : String
pypart = b'.' ∷ b'p' ∷ b'y' ∷ []

abbrev pub python_name : String
python_name = b'p' ∷ b'y' ∷ b't' ∷ b'h' ∷ b'o' ∷ b'n' ∷ []

-- What the shell does with the tokens of a line. `fault` is a read of the NULL in `token[0]`; `execute`
-- is `fork` with `execvp` in the child, and with a `wait` unless it is in the background.
pub data Action : Type 0 where
  fault : Action
  error : Action
  leave : Action
  go_home : Action
  go_to : String → Action
  print_directory : Action
  wait_children : Action
  execute : (background : Bool) → List String → Action

-- A command that takes no argument.
abbrev pub alone : Action → List String → Action
alone action [] = action
alone action (arg ∷ args) = error

abbrev pub change_directory : List String → Action
change_directory [] = go_home
change_directory (arg ∷ args) = go_to arg

abbrev pub interpreted : String → List String → List String
interpreted name args = if contains pypart name then python_name ∷ name ∷ args else name ∷ args

unfoldable pub dispatch : (andcount : ℕ) → List String → Action
dispatch andcount [] = fault
dispatch andcount (name ∷ args) =
    if same name exit_name
    then alone leave args
    else if same name cd_name
    then change_directory args
    else if same name pwd_name
    then alone print_directory args
    else if same name wait_name
    then alone wait_children args
    else execute (not (andcount == 0)) (interpreted name args)

-- A line that has no ">" and is more than a newline, from the counts on.
abbrev pub plain_line : String → Action
plain_line line = let (carrots, ands, marked) = count_loop line in dispatch ands (tokens marked)
