-- ===== src/Mem/BestFit.antt =====
-- `findsmallest` of p3/mem/mem.c against the best-fit policy over the gaps of the region.
use bacon_eggs.Prelude.{
  ℕ, zero, suc, ◌+◌, ◌-◌, ◌≤◌, ◌<◌, ◌≡◌, refl, ◌≢◌, ◌⊎◌, inl, inr, some, List, [], ◌∷◌, arith, ltb,
  ◌==◌, ◌&&◌, if◌then◌else◌, length, Bool-cases,
}
use bacon_eggs.Mem.{find_loop, find_smallest}
use bacon_eggs.Mem.Store.{Ptr, null, sizeof_header, Heap, Mem}
use bacon_eggs.Mem.Chain.{Blocks, Chain, nil, cons, Layout, IsValid, head_of_Chain}

-- A gap runs from its first address up to its second; where blocks overlap it is upside down.
abbrev pub Gaps : Type 0
Gaps = List (Ptr × Ptr)

abbrev pub first_of : Ptr → Blocks → Ptr
first_of final [] = final
first_of final ((a, s) ∷ bs) = a

-- The gap behind each block.
abbrev pub gaps_after : Ptr → Blocks → Gaps
gaps_after final [] = []
gaps_after final ((a, s) ∷ bs) = (a + s, first_of final bs) ∷ gaps_after final bs

abbrev pub all_gaps : Mem → Blocks → Gaps
all_gaps m bs = (m.start, first_of m.final bs) ∷ gaps_after m.final bs

abbrev pub IsGap : Ptr → Ptr → Gaps → Type 0
IsGap lo hi [] = ⊥
IsGap lo hi ((l, h) ∷ gs) = ((lo ≡ l) × (hi ≡ h)) ⊎ IsGap lo hi gs

-- No gap has more than `size` bytes.
abbrev pub NoFit : ℕ → Gaps → Type 0
NoFit size [] = Unit {0}
NoFit size ((l, h) ∷ gs) = (h ≤ l + size) × NoFit size gs

-- Each gap of more than `size` bytes has at least `w`.
abbrev pub AtLeast : ℕ → ℕ → Gaps → Type 0
AtLeast size w [] = Unit {0}
AtLeast size w ((l, h) ∷ gs) = (l + size < h → l + w ≤ h) × AtLeast size w gs

-- The policy: NULL if no gap has more than `size` bytes, and otherwise the start of a gap that has
-- more than `size` bytes and as few as any that has.
abbrev pub IsBestFit : ℕ → Ptr → Gaps → Type 0
IsBestFit size r gs =
    ((r ≡ null) × NoFit size gs) ⊎ ((w : ℕ) × IsGap r (r + w) gs × (size < w) × AtLeast size w gs)

-- What the loop answers, started with `smallest` and `best` before the gaps `gs`.
abbrev Picked : ℕ → ℕ → Ptr → Gaps → Ptr → Type 0
Picked size smallest best gs r =
    ((r ≡ best) × AtLeast size smallest gs)
    ⊎ ((w : ℕ) × IsGap r (r + w) gs × (size < w) × (w < smallest) × AtLeast size w gs)

Picked-better :
    (size smallest : ℕ) (best lo hi : Ptr) (gs : Gaps) (r : Ptr)
    → lo + size < hi
    → hi < lo + smallest
    → Picked size (hi - lo) lo gs r
    → Picked size smallest best ((lo, hi) ∷ gs) r
Picked-better size smallest best lo hi gs r fits less (inl (e, all)) =
    inr (hi - lo, inl (omega arith, omega arith), omega arith, omega arith, (λ _. omega arith, all))
Picked-better size smallest best lo hi gs r fits less (inr (w, gap, fit, lt, all)) =
    inr (w, inr gap, fit, omega arith, (λ _. omega arith, all))

Picked-keep :
    (size smallest : ℕ) (best lo hi : Ptr) (gs : Gaps) (r : Ptr)
    → (lo + size < hi → lo + smallest ≤ hi)
    → Picked size smallest best gs r
    → Picked size smallest best ((lo, hi) ∷ gs) r
Picked-keep size smallest best lo hi gs r worse (inl (e, all)) = inl (e, (worse, all))
Picked-keep size smallest best lo hi gs r worse (inr (w, gap, fit, lt, all)) =
    inr (w, inr gap, fit, lt, (λ f. omega (arith, worse f), all))

Chain-first :
    {h : Heap} {p : Ptr} {bs : Blocks} (final : Ptr)
    → Chain h p bs
    → (if p == null then final else p) ≡ first_of final bs
Chain-first final nil = refl
Chain-first final (cons e c) = ground arith

module _ (size final : ℕ) {h : Heap} where
  find_loop-Picked :
      (k smallest : ℕ) (best : Ptr) {p : Ptr} {bs : Blocks}
      → Chain h p bs
      → length bs < k
      → (r : Ptr) × (find_loop k size final p smallest best h ≡ some r)
        × Picked size smallest best (gaps_after final bs) r
  unfolding find_loop
  find_loop-Picked zero smallest best c fuel = absurd (omega arith)
  find_loop-Picked (suc k) smallest best nil fuel = (best, refl, inl (refl, tt))
  find_loop-Picked (suc k) smallest best (cons {p} {q} {s} {bs} e c) fuel =
      elim (Bool-cases
        (ltb (p + s + size) (first_of final bs) && ltb (first_of final bs) (p + s + smallest))) [
          | inl better ↦
              let (r, run, picked) =
                find_loop-Picked k (first_of final bs - (p + s)) (p + s) c (omega arith) in
              (
                r,
                ground (arith, Chain-first final c),
                Picked-better size smallest best (p + s) (first_of final bs) _ r (ground arith)
                    (ground arith) picked,
              )
          | inr worse ↦
              let (r, run, picked) = find_loop-Picked k smallest best c (omega arith) in
              (
                r,
                ground (arith, Chain-first final c),
                Picked-keep size smallest best (p + s) (first_of final bs) _ r (ground arith)
                    picked,
              )
        ]

pub first_of-le :
    (final : ℕ) (bs : Blocks) (lo : ℕ) → Layout final lo bs → first_of final bs ≤ final
first_of-le final [] lo l = omega arith
first_of-le final ((a, s) ∷ bs) lo l = omega arith

-- No gap behind a block is as large as the region, so the loop's initial `smallest` loses none.
NoFit-AtLeast :
    (final size total : ℕ) (bs : Blocks) (lo : ℕ)
    → Layout final lo bs
    → final ≤ lo + total
    → AtLeast size total (gaps_after final bs)
    → NoFit size (gaps_after final bs)
NoFit-AtLeast final size total [] lo l e g = tt
NoFit-AtLeast final size total ((a, s) ∷ bs) lo l e g = (
  ground (arith, g.0, first_of-le final bs (a + sizeof_header) l.5),
  NoFit-AtLeast final size total bs (a + sizeof_header) l.5 (omega arith) g.1,
)

-- The gap above the first block was tried before the loop.
best_above :
    (size start a r : ℕ) (gs : Gaps)
    → start + size < a
    → Picked size (a - start) start gs r
    → IsBestFit size r ((start, a) ∷ gs)
best_above size start a r gs fits (inl (e, all)) =
    inr (a - start, inl (omega arith, omega arith), omega arith, (λ _. omega arith, all))
best_above size start a r gs fits (inr (w, gap, fit, lt, all)) =
    inr (w, inr gap, fit, (λ _. omega arith, all))

best_below :
    (size start a total r : ℕ) (gs : Gaps)
    → a ≤ start + size
    → (AtLeast size total gs → NoFit size gs)
    → Picked size total null gs r
    → IsBestFit size r ((start, a) ∷ gs)
best_below size start a total r gs small none (inl (e, all)) = inl (e, (small, none all))
best_below size start a total r gs small none (inr (w, gap, fit, lt, all)) =
    inr (w, inr gap, fit, (λ f. absurd (omega arith), all))

-- In a valid state that holds blocks `findsmallest` answers, within its fuel, by the best-fit policy
-- over all the gaps of the region: above the first block, between blocks, and behind the last.
pub find_smallest_lem :
    (size : ℕ) (m : Mem) (bs : Blocks)
    → IsValid m bs
    → bs ≢ []
    → (r : Ptr) × (find_smallest size m ≡ some r) × IsBestFit size r (all_gaps m bs)
unfolding find_smallest
find_smallest_lem size m [] v ne = absurd (ne refl)
find_smallest_lem size m ((a, s) ∷ bs) v ne = elim (Bool-cases (ltb (m.start + size) a)) [
  | inl above ↦
      let (r, run, picked) =
        find_loop-Picked size m.final (suc m.numblocks) (a - m.start) m.start v.chain fuel in
      (r, ground (arith, at), best_above size m.start a r gs (ground arith) picked)
  | inr below ↦
      let (r, run, picked) =
        find_loop-Picked size m.final (suc m.numblocks) m.total null v.chain fuel in
      (
        r,
        ground (arith, at),
        best_below size m.start a m.total r gs (ground arith)
            (NoFit-AtLeast m.final size m.total ((a, s) ∷ bs) m.start v.layout (omega arith))
            picked,
      )
]
  where
    gs : Gaps
    gs = gaps_after m.final ((a, s) ∷ bs)

    fuel : suc (length bs) < suc m.numblocks
    fuel = omega (arith, v.count)

    at : m.head ≡ a
    at = (head_of_Chain v.chain).0
