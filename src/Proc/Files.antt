-- ===== src/Proc/Files.antt =====
-- The calls of file.c for the open files of a process, which `exit` and `fork` of p4/xv6/kernel/proc.c
-- make.
use bacon_eggs.Prelude.{ℕ, zero, suc, ◌≡◌, ◌≢◌, refl, ap, false, List, [], ◌∷◌, map, ◌==◌, arith}
use bacon_eggs.Proc.Table.{Effect, fileclose, filedup}
use bacon_eggs.Proc.Create.{dup_files, dup_calls}
use bacon_eggs.Proc.Exit.{close_calls}

-- From the trace `es` to `es'` there is one call for each entry that is not 0, in the order of the entries.
pub data CallsEach (call : ℕ → Effect) : List ℕ → List Effect → List Effect → Type 0 where
  at_end : {es : List Effect} → CallsEach call [] es es
  no_file :
      {fs : List ℕ} {es es' : List Effect}
      → CallsEach call fs es es'
      → CallsEach call (0 ∷ fs) es es'
  one_file :
      {f : ℕ} {fs : List ℕ} {es es' : List Effect}
      → f ≢ 0
      → CallsEach call fs (call f ∷ es) es'
      → CallsEach call (f ∷ fs) es es'

pub close_calls-CallsEach :
    (fs : List ℕ) (es : List Effect) → CallsEach fileclose fs es (close_calls fs es)
close_calls-CallsEach [] es = at_end
close_calls-CallsEach (zero ∷ fs) es = no_file (close_calls-CallsEach fs es)
close_calls-CallsEach (suc f ∷ fs) es =
    let full : suc f == 0 ≡ false = ground arith in
    rw full (
      one_file (λ e. absurd (omega (arith, e))) (close_calls-CallsEach fs (fileclose (suc f) ∷ es)))

pub dup_calls-CallsEach :
    (fs : List ℕ) (es : List Effect) → CallsEach filedup fs es (dup_calls fs es)
dup_calls-CallsEach [] es = at_end
dup_calls-CallsEach (zero ∷ fs) es = no_file (dup_calls-CallsEach fs es)
dup_calls-CallsEach (suc f ∷ fs) es =
    let full : suc f == 0 ≡ false = ground arith in
    rw full
      (one_file (λ e. absurd (omega (arith, e))) (dup_calls-CallsEach fs (filedup (suc f) ∷ es)))

-- A slot without open files takes those of the parent.
pub dup_files-none : (fs : List ℕ) → dup_files fs (map (λ f. 0) fs) ≡ fs
dup_files-none [] = refl
dup_files-none (zero ∷ fs) = ap (λ gs. 0 ∷ gs) (dup_files-none fs)
dup_files-none (suc f ∷ fs) =
    let full : suc f == 0 ≡ false = ground arith in
    rw full (ap (λ gs. suc f ∷ gs) (dup_files-none fs))
