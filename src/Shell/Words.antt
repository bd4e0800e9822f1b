-- ===== src/Shell/Words.antt =====
-- The tokens of a line of p2/c/mysh.c are its words.
use bacon_eggs.Prelude.{
  ℕ, zero, suc, ◌≤◌, ◌<◌, ◌≡◌, refl, ap, sym, ◌∙◌, inl, inr, Bool, true, false, List, [], ◌∷◌, none,
  some, length, map, ◌==◌, arith, Bool-cases, if◌then◌else◌,
}
use bacon_eggs.Shell.{
  String, del2, skip, break_at, start_token, token_loop, tokens, count_loop, plain_line, dispatch,
}

-- The words of a line, by the line's bytes: a byte that is no space begins a word, or goes before the
-- word that the next byte begins.
abbrev pub begins : String → Bool
begins [] = false
begins (c ∷ cs) = if del2 c then false else true

abbrev pub onto_first : ℕ → List String → List String
onto_first c [] = (c ∷ []) ∷ []
onto_first c (w ∷ ws) = (c ∷ w) ∷ ws

unfoldable pub words : String → List String
words [] = []
words (c ∷ cs) =
    let rest = words cs in
    if del2 c then rest else if begins cs then onto_first c rest else (c ∷ []) ∷ rest

skip-words : (s : String) → words (skip del2 s) ≡ words s
unfolding skip words
skip-words [] = refl
skip-words (c ∷ cs) = elim (Bool-cases (del2 c)) [
  | inl space ↦ rw space (skip-words cs)
  | inr letter ↦ rw (letter, letter) refl
]

skip-shorter : (s : String) → length (skip del2 s) ≤ length s
unfolding skip
skip-shorter [] = omega arith
skip-shorter (c ∷ cs) = elim (Bool-cases (del2 c)) [
  | inl space ↦ rw space (omega (arith, skip-shorter cs))
  | inr letter ↦ rw letter (omega arith)
]

skip-head : (s : String) {c : ℕ} {cs : String} → skip del2 s ≡ c ∷ cs → del2 c ≡ false
unfolding skip
skip-head [] e = absurd (cc e)
skip-head (d ∷ ds) {c} {cs} e = elim (Bool-cases (del2 d)) [
  | inl space ↦ skip-head ds (rw space at e)
  | inr letter ↦
      let same : d ∷ ds ≡ c ∷ cs = rw letter at e in
      let first : d ≡ c = cc same in ap del2 (sym first) ∙ letter
]

-- One byte of `break_at`, and of `words`.
break_at-letter :
    (c : ℕ) (cs : String)
    → del2 c ≡ false
    → break_at del2 (c ∷ cs) ≡ (c ∷ (break_at del2 cs).0, (break_at del2 cs).1)
unfolding break_at
break_at-letter c cs letter = rw letter refl

break_at-space : (c : ℕ) (cs : String) → del2 c ≡ true → break_at del2 (c ∷ cs) ≡ ([], cs)
unfolding break_at
break_at-space c cs space = rw space refl

words-letter :
    (c d : ℕ) (ds : String)
    → del2 c ≡ false
    → del2 d ≡ false
    → words (c ∷ d ∷ ds) ≡ onto_first c (words (d ∷ ds))
unfolding words
words-letter c d ds letter other = rw (letter, other) refl

words-space :
    (c d : ℕ) (ds : String)
    → del2 c ≡ false
    → del2 d ≡ true
    → words (c ∷ d ∷ ds) ≡ (c ∷ []) ∷ words ds
unfolding words
words-space c d ds letter space = rw (letter, space) refl

words-end : (c : ℕ) → del2 c ≡ false → words (c ∷ []) ≡ (c ∷ []) ∷ []
unfolding words
words-end c letter = rw letter refl

-- What a token leaves.
abbrev word_first : String × String → List String
word_first (token, rest) = token ∷ words rest

break_at-words :
    (c : ℕ) (cs : String) → del2 c ≡ false → words (c ∷ cs) ≡ word_first (break_at del2 (c ∷ cs))
unfolding break_at words
break_at-words c [] letter = words-end c letter ∙ ap word_first (sym (break_at-letter c [] letter))
break_at-words c (d ∷ ds) letter = elim (Bool-cases (del2 d)) [
  | inl space ↦
      words-space c d ds letter space
      ∙ ap (λ (p : String × String). word_first (c ∷ p.0, p.1)) (sym (break_at-space d ds space))
      ∙ ap word_first (sym (break_at-letter c (d ∷ ds) letter))
  | inr other ↦
      words-letter c d ds letter other
      ∙ ap (onto_first c) (break_at-words d ds other)
      ∙ ap word_first (sym (break_at-letter c (d ∷ ds) letter))
]

length-break_at : (s : String) → length (break_at del2 s).1 ≤ length s
unfolding break_at
length-break_at [] = omega arith
length-break_at (c ∷ cs) = elim (Bool-cases (del2 c)) [
  | inl space ↦ rw space (omega arith)
  | inr letter ↦ rw letter (omega (arith, length-break_at cs))
]

token_loop-words : (k : ℕ) (s : String) → length s < k → token_loop k s ≡ words s
unfolding token_loop words
token_loop-words zero s enough = absurd (omega arith)
token_loop-words (suc k) s enough = go (skip del2 s) (λ r. token_loop-words k r) refl
  where
    go :
        (x : String)
        → ((r : String) → length r < k → token_loop k r ≡ words r)
        → skip del2 s ≡ x
        → elim (start_token del2 x) as (λ _. List String) [
          | none ↦ []
          | some (token, rest) ↦ token ∷ token_loop k rest
        ]
          ≡ words s
    go [] loop e = ap words (sym e) ∙ skip-words s
    go (c ∷ cs) loop e =
        let letter = skip-head s e in
        let short : length (break_at del2 (c ∷ cs)).1 ≤ length cs =
          rw (break_at-letter c cs letter) (length-break_at cs) in
        let low = skip-shorter s in
        let size : length (skip del2 s) ≡ suc (length cs) = ap length e in
        let rest = loop (break_at del2 (c ∷ cs)).1 (omega arith) in
        ap (λ ws. (break_at del2 (c ∷ cs)).0 ∷ ws) rest
        ∙ sym (break_at-words c cs letter)
        ∙ ap words (sym e)
        ∙ skip-words s

tokens_lem : (s : String) → tokens s ≡ words s
tokens_lem s = token_loop-words (suc (length s)) s (omega arith)

-- How often a byte is in a line, and a space for "&".
abbrev pub count : ℕ → String → ℕ
count b [] = 0
count b (c ∷ cs) = let rest = count b cs in if c == b then suc rest else rest

abbrev pub blank : ℕ → ℕ
blank c = if c == b'&' then b' ' else c

count_loop_lem : (s : String) → count_loop s ≡ (count b'>' s, count b'&' s, map blank s)
unfolding count_loop
count_loop_lem [] = refl
count_loop_lem (c ∷ cs) = rw (count_loop_lem cs) (elim (Bool-cases (c == b'>')) [
  | inl carrot ↦ let plain : c == b'&' ≡ false = ground arith in rw (carrot, plain) refl
  | inr other ↦ elim (Bool-cases (c == b'&')) [
    | inl and ↦ rw (other, and) refl
    | inr letter ↦ rw (other, letter) refl
  ]
])

-- The loop over the line counts its ">" and "&" and puts spaces for the "&". The loop that fills
-- `token` ends, and what is done with a line, from the counts on and without redirection, is the
-- choice for the words that are left, the longest runs of bytes that are no spaces in their order,
-- and for the number of "&".
pub plain_line_lem :
    (s : String)
    → (count_loop s ≡ (count b'>' s, count b'&' s, map blank s))
      × (plain_line s ≡ dispatch (count b'&' s) (words (map blank s)))
plain_line_lem s = (
  count_loop_lem s,
  rw (plain_line, count_loop_lem s) (ap (dispatch (count b'&' s)) (tokens_lem (map blank s))),
)
