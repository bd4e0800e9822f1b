-- ===== src/Mem/Chain.antt =====
-- What the linked list of p3/mem/mem.c stands for: the blocks, in the order of their addresses.
use bacon_eggs.Prelude.{
  ℕ, ◌+◌, ◌%◌, ◌≤◌, ◌≡◌, refl, ◌≢◌, Bool, true, false, ◌||◌, List, [], ◌∷◌, arith, ltb, ◌==◌,
  if◌then◌else◌, length,
}
use bacon_eggs.Mem.Store.{Ptr, null, key_value, sizeof_header, Heap, Mem}

-- Address and size, the header included, of each block.
abbrev pub Blocks : Type 0
Blocks = List (Ptr × ℕ)

abbrev pub has : Ptr → Blocks → Bool
has p [] = false
has p ((a, s) ∷ bs) = p == a || has p bs

-- A live block at `p`.
pub record Points (h : Heap) (p : Ptr) (s : ℕ) (q : Ptr) : Type 0 where
  pub ne_null : p ≢ null
  pub key_ok : (h p).key ≡ key_value
  pub size_ok : (h p).size ≡ s
  pub next_ok : (h p).next ≡ q

-- From `p` the `next` pointers lead through the blocks `bs` to NULL.
pub data Chain (h : Heap) : Ptr → Blocks → Type 0 where
  nil : Chain h null []
  cons : {p q : Ptr} {s : ℕ} {bs : Blocks} → Points h p s q → Chain h q bs → Chain h p ((p, s) ∷ bs)

-- The blocks lie between `lo` and `final` in ascending order, on 8-byte boundaries, each has at
-- least 8 bytes behind its header, and no header runs into the next.
abbrev pub Layout : ℕ → ℕ → Blocks → Type 0
Layout final lo [] = Unit {0}
Layout final lo ((a, s) ∷ bs) =
    (lo ≤ a)
    × (a % 8 ≡ 0)
    × (s % 8 ≡ 0)
    × (sizeof_header + 8 ≤ s)
    × (a + sizeof_header ≤ final)
    × Layout final (a + sizeof_header) bs

-- The block `(a, s)` at its place in the order.
abbrev pub insert_block : Ptr → ℕ → Blocks → Blocks
insert_block a s [] = (a, s) ∷ []
insert_block a s ((b, t) ∷ bs) =
    if ltb a b then (a, s) ∷ (b, t) ∷ bs else (b, t) ∷ insert_block a s bs

abbrev pub remove_at : Ptr → Blocks → Blocks
remove_at a [] = []
remove_at a ((b, t) ∷ bs) = if b == a then bs else (b, t) ∷ remove_at a bs

-- The state holds the blocks `bs`.
pub record IsValid (m : Mem) (bs : Blocks) : Type 0 where
  pub chain : Chain m.heap m.head bs
  pub layout : Layout m.final m.start bs
  pub count : m.numblocks ≡ length bs
  pub live : (a : Ptr) → (m.heap a).key ≡ key_value → has a bs ≡ true
  pub region : m.final ≡ m.start + m.total
  pub start_pos : m.start ≢ null
  pub start_aligned : m.start % 8 ≡ 0
  pub total_aligned : m.total % 8 ≡ 0
  pub total_pos : sizeof_header ≤ m.total

-- `g` has the same keys and sizes as `h`: they differ in `next` fields only.
abbrev pub SameBlocks : Heap → Heap → Type 0
SameBlocks h g = (a : Ptr) → ((g a).key ≡ (h a).key) × ((g a).size ≡ (h a).size)

-- A layout bounds every block that it holds.
pub le-mem :
    (final a : Ptr) (bs : Blocks) (lo : ℕ)
    → Layout final lo bs
    → has a bs ≡ true
    → (lo ≤ a) × (a % 8 ≡ 0)
le-mem final a [] lo l h = cc
le-mem final a ((b, t) ∷ bs) lo l h = ground (arith, le-mem final a bs (b + sizeof_header) l.5)

-- A chain survives any change that spares the headers of its blocks.
pub frame :
    {h g : Heap} {p : Ptr} {bs : Blocks}
    → Chain h p bs
    → ((a : Ptr) → has a bs ≡ true → g a ≡ h a)
    → Chain g p bs
frame nil same = nil
frame (cons {p} e c) same = cons (ground (arith, same p)) (frame c λ a i. same a (ground arith))

pub head_of_Chain :
    {h : Heap} {p a : Ptr} {s : ℕ} {bs : Blocks} → Chain h p ((a, s) ∷ bs) → (p ≡ a) × (a ≢ null)
head_of_Chain (cons e c) = (refl, e.ne_null)
