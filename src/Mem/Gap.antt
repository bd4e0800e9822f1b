-- ===== src/Mem/Gap.antt =====
-- A header put at the start of a gap keeps the layout of the region.
use bacon_eggs.Prelude.{
  ℕ, suc, ◌+◌, ◌%◌, ◌≤◌, ◌<◌, ◌≡◌, refl, ◌≢◌, ◌⊎◌, inl, inr, true, false, ◌||◌, [], ◌∷◌, arith, ltb,
  ◌==◌, length, Bool-cases,
}
use bacon_eggs.Mem.Store.{Ptr, sizeof_header}
use bacon_eggs.Mem.Chain.{Blocks, has, Layout, insert_block, remove_at}
use bacon_eggs.Mem.BestFit.{first_of, first_of-le, gaps_after, IsGap}

-- The header at `a` keeps clear of every header of the list.
abbrev pub Clear : Ptr → Blocks → Type 0
Clear a [] = Unit {0}
Clear a ((b, t) ∷ bs) = ((a + sizeof_header ≤ b) ⊎ (b + sizeof_header ≤ a)) × Clear a bs

pub Clear-below :
    (final a : ℕ) (bs : Blocks) (lo : ℕ) → Layout final lo bs → a + sizeof_header ≤ lo → Clear a bs
Clear-below final a [] lo l h = tt
Clear-below final a ((b, t) ∷ bs) lo l h =
    (inl (omega arith), Clear-below final a bs (b + sizeof_header) l.5 (omega arith))

-- The same from the first block on.
pub Clear-first :
    (final a : ℕ) (bs : Blocks) (lo : ℕ)
    → Layout final lo bs
    → a + sizeof_header ≤ first_of final bs
    → Clear a bs
Clear-first final a [] lo l h = tt
Clear-first final a ((b, t) ∷ bs) lo l h =
    (inl h, Clear-below final a bs (b + sizeof_header) l.5 (omega arith))

pub not-mem_of_Clear : (a : Ptr) (bs : Blocks) → Clear a bs → has a bs ≡ false
not-mem_of_Clear a [] c = refl
not-mem_of_Clear a ((b, t) ∷ bs) c = ground (arith, not-mem_of_Clear a bs c.1)

pub first_of-aligned :
    (final : ℕ) (bs : Blocks) (lo : ℕ)
    → Layout final lo bs
    → final % 8 ≡ 0
    → first_of final bs % 8 ≡ 0
first_of-aligned final [] lo l f = f
first_of-aligned final ((a, s) ∷ bs) lo l f = l.1

-- The facts about a gap behind a block that placing a header there needs.
pub record IsPlace (final lo : ℕ) (bs : Blocks) (a hi : Ptr) : Type 0 where
  pub low : lo + sizeof_header ≤ a
  pub low_aligned : a % 8 ≡ 0
  pub high_aligned : hi % 8 ≡ 0
  pub in_region : hi ≤ final
  pub clear : a + sizeof_header ≤ hi → Clear a bs

gap-IsPlace :
    (final a hi : ℕ) (bs : Blocks) (lo : ℕ)
    → Layout final lo bs
    → final % 8 ≡ 0
    → IsGap a hi (gaps_after final bs)
    → IsPlace final lo bs a hi
gap-IsPlace final a hi [] lo l f g = elim g [ ]
gap-IsPlace final a hi ((b, t) ∷ bs) lo l f (inl (e, e')) = record {
  low = omega arith;
  low_aligned = omega arith;
  high_aligned = omega (arith, first_of-aligned final bs (b + sizeof_header) l.5 f);
  in_region = omega (arith, first_of-le final bs (b + sizeof_header) l.5);
  clear = λ h. (inr (omega arith), Clear-first final a bs (b + sizeof_header) l.5 (omega arith));
}
gap-IsPlace final a hi ((b, t) ∷ bs) lo l f (inr g) =
    let p = gap-IsPlace final a hi bs (b + sizeof_header) l.5 f g in
    record {
      low = omega arith;
      low_aligned = p.low_aligned;
      high_aligned = p.high_aligned;
      in_region = p.in_region;
      clear = λ h. (inr (omega arith), p.clear h);
    }

-- A gap of a valid region that has more than `size` bytes has room for a header, since addresses
-- and sizes are multiples of 8.
pub gap-Clear :
    (start final size a w : ℕ) (bs : Blocks)
    → Layout final start bs
    → start % 8 ≡ 0
    → final % 8 ≡ 0
    → IsGap a (a + w) ((start, first_of final bs) ∷ gaps_after final bs)
    → size % 8 ≡ 0
    → 8 ≤ size
    → size < w
    → Clear a bs × (start ≤ a) × (a % 8 ≡ 0) × (a + sizeof_header ≤ final)
gap-Clear start final size a w bs l s f (inl (e, e')) m n lt = (
  Clear-first final a bs start l (omega (arith, first_of-aligned final bs start l f)),
  omega arith,
  omega arith,
  omega (arith, first_of-aligned final bs start l f, first_of-le final bs start l),
)
gap-Clear start final size a w bs l s f (inr g) m n lt =
    let p = gap-IsPlace final a (a + w) bs start l f g in
    (p.clear (omega arith), omega arith, p.low_aligned, omega arith)

pub Layout-insert_block :
    (final a s : ℕ) (bs : Blocks) (lo : ℕ)
    → Layout final lo bs
    → Clear a bs
    → lo ≤ a
    → a % 8 ≡ 0
    → s % 8 ≡ 0
    → sizeof_header + 8 ≤ s
    → a + sizeof_header ≤ final
    → Layout final lo (insert_block a s bs)
Layout-insert_block final a s [] lo l c h ha hs hn hf = (h, ha, hs, hn, hf, tt)
Layout-insert_block final a s ((b, t) ∷ bs) lo l c h ha hs hn hf = elim (Bool-cases (ltb a b)) [
  | inl before ↦ rw before (h, ha, hs, hn, hf, (ground arith, l.1, l.2, l.3, l.4, l.5))
  | inr after ↦ rw after (
    l.0,
    l.1,
    l.2,
    l.3,
    l.4,
    Layout-insert_block final a s bs (b + sizeof_header) l.5 c.1 (ground arith) ha hs hn hf,
  )
]

pub Layout-weaken :
    (final : ℕ) (bs : Blocks) (lo lo' : ℕ) → lo' ≤ lo → Layout final lo bs → Layout final lo' bs
Layout-weaken final [] lo lo' h l = tt
Layout-weaken final ((b, t) ∷ bs) lo lo' h l = (omega arith, l.1, l.2, l.3, l.4, l.5)

pub Layout-remove_at :
    (final a : ℕ) (bs : Blocks) (lo : ℕ) → Layout final lo bs → Layout final lo (remove_at a bs)
Layout-remove_at final a [] lo l = tt
Layout-remove_at final a ((b, t) ∷ bs) lo l = elim (Bool-cases (b == a)) [
  | inl here ↦ rw here (Layout-weaken final bs (b + sizeof_header) lo (omega arith) l.5)
  | inr on ↦ rw on (l.0, l.1, l.2, l.3, l.4, Layout-remove_at final a bs (b + sizeof_header) l.5)
]

pub has-insert_block :
    (c a s : ℕ) (bs : Blocks) → has c (insert_block a s bs) ≡ (c == a || has c bs)
has-insert_block c a s [] = refl
has-insert_block c a s ((b, t) ∷ bs) = ground (arith, has-insert_block c a s bs)

pub length-insert_block : (a s : ℕ) (bs : Blocks) → length (insert_block a s bs) ≡ suc (length bs)
length-insert_block a s [] = refl
length-insert_block a s ((b, t) ∷ bs) = ground (arith, length-insert_block a s bs)

pub length-remove_at :
    (a : ℕ) (bs : Blocks) → has a bs ≡ true → suc (length (remove_at a bs)) ≡ length bs
length-remove_at a [] h = absurd (cc)
length-remove_at a ((b, t) ∷ bs) h = ground (arith, length-remove_at a bs)

-- A layout names an address once.
pub has-remove_at :
    (final c a : ℕ) (bs : Blocks) (lo : ℕ)
    → Layout final lo bs
    → has c bs ≡ true
    → c ≢ a
    → has c (remove_at a bs) ≡ true
has-remove_at final c a [] lo l h n = absurd (cc)
has-remove_at final c a ((b, t) ∷ bs) lo l h n =
    ground (arith, has-remove_at final c a bs (b + sizeof_header) l.5)
