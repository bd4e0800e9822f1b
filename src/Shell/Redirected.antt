-- ===== src/Shell/Redirected.antt =====
-- A line of p2/c/mysh.c with one ">" and one file.
use bacon_eggs.Prelude.{
  ℕ, ◌≤◌, ◌≡◌, refl, sym, ap, fun_ext, ◌∙◌, inl, inr, Bool, true, false, none, some, [], ◌∷◌, ◌==◌,
  arith, Bool-cases,
}
use bacon_eggs.Shell.{String, count_loop}
use bacon_eggs.Shell.Files.{
  Target, file, Shell, report, set_fd, with_fd, lowest, open_instead, close_stdout,
}
use bacon_eggs.Shell.Line.{
  SystemAnswers, Next, goes, second_word, redirect_file, redirected, redirection, echoed,
  is_newline, counted_line, read_line,
}
use bacon_eggs.Shell.Descriptors.{IsOpen, lowest-free, not_free, open_instead-opened, dup-copied}

-- The counts, and the file behind the ">".
pub record IsRedirected (line : String) (ands : ℕ) (marked : String) : Type 0 where
  pub counts : count_loop line ≡ (1, ands, marked)
  pub one_word : second_word marked ≡ none

not_newline :
    (line : String) {ands : ℕ} {marked : String}
    → IsRedirected line ands marked
    → is_newline line ≡ false
unfolding count_loop
not_newline [] d = refl
not_newline (c ∷ []) {ands} {marked} d = elim (Bool-cases (c == b'\n')) [
  | inl newline ↦
      let same : c ≡ b'\n' = ground arith in
      let none_found : (0, 0, b'\n' ∷ []) ≡ (1, ands, marked) =
        ap (λ x. count_loop (x ∷ [])) (sym same) ∙ d.counts in
      absurd (cc none_found)
  | inr other ↦ other
]
not_newline (c ∷ e ∷ cs) d = refl

-- Such a line is `closeSTDOUT`, and the command in front of the ">".
pub read_line-redirected :
    (batch : Bool) (a : SystemAnswers) (line : String) {ands : ℕ} {marked : String} (s : Shell)
    → IsRedirected line ands marked
    → read_line batch a line s
      ≡ redirected a ands marked
          (close_stdout a.open_works (redirect_file marked) (echoed batch line s))
unfolding read_line redirection
read_line-redirected batch a line {ands} {marked} s d =
    let s1 = echoed batch line s in
    let opened = redirected a ands marked (close_stdout a.open_works (redirect_file marked) s1) in
    let one : redirection a ands marked s1 ≡ opened =
      ap (λ w. elim w as (λ _. Next) [ none ↦ opened | some word ↦ goes (report s1) ]) d.one_word in
    rw (not_newline line d) (ap (λ c. counted_line a c s1) d.counts) ∙ one

-- `closeSTDOUT` where nothing fails.
pub close_stdout_lem :
    (n : String) (s : Shell) {v : ℕ} {t : Target}
    → 2 ≤ s.limit
    → IsOpen s.fds 0
    → s.fds 1 ≡ some t
    → lowest s.fds s.limit 0 ≡ some v
    → close_stdout true (some n) s
      ≡ (some v, with_fd 1 (some (file n)) (with_fd 1 none (with_fd v (some t) s)))
unfolding close_stdout open_instead
close_stdout_lem n s {v} {t} room (z, zero_used) used found =
    let free : s.fds v ≡ none = lowest-free s.fds s.limit 0 v found in
    let one : 1 == v ≡ false = not_free s.fds free (t, used) in
    let first : 0 == v ≡ false = not_free s.fds free (z, zero_used) in
    ap (λ (save, s1). open_instead true (some n) save s1) (dup-copied s used found)
    ∙ open_instead-opened n (some v) (with_fd v (some t) s) room (z, rw first zero_used)
        (t, rw one used)

-- The descriptors after a command in the background are those before it.
pub restored-fds :
    (s : Shell) (n : String) {v : ℕ} {t : Target}
    → s.fds 1 ≡ some t
    → s.fds v ≡ none
    → set_fd v none (
        set_fd 1
          (some t)
          (set_fd 1 none (set_fd 1 (some (file n)) (set_fd 1 none (set_fd v (some t) s.fds)))))
      ≡ s.fds
restored-fds s n {v} {t} used free = fun_ext λ i. elim (Bool-cases (i == v)) [
  | inl here ↦ let same : i ≡ v = ground arith in rw here (sym free ∙ ap s.fds (sym same))
  | inr other ↦ elim (Bool-cases (i == 1)) [
    | inl one ↦ let same : i ≡ 1 = ground arith in rw (other, one) (sym used ∙ ap s.fds (sym same))
    | inr more ↦ rw (other, more) refl
  ]
]
