-- ===== src/Mem/Alloc.antt =====
-- `Mem_Alloc` of p3/mem/mem.c.
use bacon_eggs.Prelude.{ℕ, ◌+◌, ◌%◌, ◌≤◌, ◌<◌, ◌≡◌, refl, ◌≢◌, ◌⊎◌, inl, inr, some, [], ◌∷◌, arith}
use bacon_eggs.Prelude.Int.{pos}
use bacon_eggs.Mem.{round_up, find_smallest, place, alloc_rounded, mem_alloc}
use bacon_eggs.Mem.Store.{
  Ptr, null, key_value, sizeof_header, int_max, e_no_space, Heap, write, Mem, Run, ok,
}
use bacon_eggs.Mem.Chain.{Blocks, Chain, nil, insert_block, IsValid, frame, head_of_Chain}
use bacon_eggs.Mem.BestFit.{all_gaps, IsGap, NoFit, AtLeast, IsBestFit, find_smallest_lem}
use bacon_eggs.Mem.Insert.{Inserted, insert_lem, insert-alone}
use bacon_eggs.Mem.Gap.{
  Clear, not-mem_of_Clear, gap-Clear, Layout-insert_block, has-insert_block, length-insert_block,
}

-- The size that a request of `n` bytes is rounded to.
pub round_up_bounds : (n : ℕ) → (n ≤ round_up 8 n) × (round_up 8 n < n + 8) × (round_up 8 n % 8 ≡ 0)
unfolding round_up
round_up_bounds n = ground arith

-- A list header that `place` writes.
abbrev filled : Mem → Ptr → ℕ → Mem
filled m a size = record m {
  heap = write m.heap a (record { key = key_value; size = size; next = null });
}

-- The state after a block was linked in is valid.
linked-IsValid :
    {m : Mem} {bs : Blocks} (a s : ℕ) (p : Ptr) (g : Heap)
    → IsValid m bs
    → Clear a bs
    → m.start ≤ a
    → a % 8 ≡ 0
    → a + sizeof_header ≤ m.final
    → s % 8 ≡ 0
    → sizeof_header + 8 ≤ s
    → Inserted (filled m a s) a s bs p g
    → IsValid (record m { head = p; heap = g; numblocks = m.numblocks + 1 }) (insert_block a s bs)
linked-IsValid {m} {bs} a s p g v c lo al hi sl sb r = record {
  chain = r.chain;
  layout = Layout-insert_block m.final a s bs m.start v.layout c lo al sl sb hi;
  count = omega (arith, v.count, length-insert_block a s bs);
  live = λ b k. ground (arith, r.same b, v.live b, has-insert_block b a s bs);
  region = v.region;
  start_pos = v.start_pos;
  start_aligned = v.start_aligned;
  total_aligned = v.total_aligned;
  total_pos = v.total_pos;
}

place-cons :
    {m : Mem} {bs : Blocks} (a size : ℕ)
    → IsValid m bs
    → bs ≢ []
    → Clear a bs
    → m.start ≤ a
    → a % 8 ≡ 0
    → a + sizeof_header ≤ m.final
    → size % 8 ≡ 0
    → 8 ≤ size
    → size + sizeof_header ≤ int_max
    → (m' : Mem) × (place a size m ≡ ok a m')
      × IsValid m' (insert_block a (size + sizeof_header) bs)
unfolding place
place-cons {m} {bs} a size v ne c lo al hi sl sb fits =
    let new = not-mem_of_Clear a bs c in
    let (p, g, run, r) =
      insert_lem (filled m a (size + sizeof_header)) a (size + sizeof_header) bs
        (frame v.chain λ b i. ground arith) ne v.layout v.count new
        (omega (arith, v.start_pos), ground arith, ground arith) in
    (
      record m { head = p; heap = g; numblocks = m.numblocks + 1 },
      ground arith,
      linked-IsValid a (size + sizeof_header) p g v c lo al hi (omega arith) (omega arith) r,
    )

-- What a request for `size` bytes, rounded, may answer in a state that holds the blocks `bs`, by the
-- best-fit policy: NULL and the same blocks, or the start of a best gap and the new block there.
abbrev pub Answers : ℕ → Mem → Blocks → Ptr → Blocks → Type 0
Answers size m bs r bs' =
    ((r ≡ null) × NoFit size (all_gaps m bs) × (bs' ≡ bs))
    ⊎ ((w : ℕ) × IsGap r (r + w) (all_gaps m bs)
        × (size < w)
        × AtLeast size w (all_gaps m bs)
        × (bs' ≡ insert_block r (size + sizeof_header) bs))

-- A call that returns: its result, the state after it, and the blocks of that state.
abbrev pub Returns : {A : Type 0} → Run A → (A → Mem → Type 0) → Type 0
Returns {A} c P = (r : A) × (m : Mem) × (c ≡ ok r m) × P r m

pub error-IsValid :
    {m : Mem} {bs : Blocks} (e : ℕ) → IsValid m bs → IsValid (record m { m_error = e }) bs
error-IsValid e v = record {
  chain = v.chain;
  layout = v.layout;
  count = v.count;
  live = v.live;
  region = v.region;
  start_pos = v.start_pos;
  start_aligned = v.start_aligned;
  total_aligned = v.total_aligned;
  total_pos = v.total_pos;
}

alloc_rounded_lem :
    {m : Mem} {bs : Blocks} (size : ℕ)
    → IsValid m bs
    → bs ≢ []
    → size % 8 ≡ 0
    → 8 ≤ size
    → size + sizeof_header ≤ int_max
    → Returns
        (alloc_rounded size m)
        λ r m'. (bs' : Blocks) × IsValid m' bs' × Answers size m bs r bs'
unfolding alloc_rounded
alloc_rounded_lem {m} {bs = []} size v ne sl sb fits = absurd (ne refl)
alloc_rounded_lem {m} {bs = (a, s) ∷ bs} size v ne sl sb fits =
    go (find_smallest_lem size m ((a, s) ∷ bs) v ne)
  where
    some_head : m.head ≢ null
    some_head = let h = head_of_Chain v.chain in ground arith

    go :
        (r : Ptr) × (find_smallest size m ≡ some r) × IsBestFit size r (all_gaps m ((a, s) ∷ bs))
        → Returns
            (alloc_rounded size m)
            λ r m'. (bs' : Blocks) × IsValid m' bs' × Answers size m ((a, s) ∷ bs) r bs'
    go (r, run, inl (e, none)) = (
      null,
      record m { m_error = e_no_space },
      ground (arith, some_head),
      ((a, s) ∷ bs, error-IsValid e_no_space v, inl (refl, none, refl)),
    )
    go (r, run, inr (w, gap, fit, least)) =
        let (clear, low, al, hi) =
          gap-Clear m.start m.final size r w ((a, s) ∷ bs) v.layout v.start_aligned
            (omega (arith, v.region, v.total_aligned, v.start_aligned)) gap sl sb fit in
        let (m', placed, v') = place-cons r size v ne clear low al hi sl sb fits in
        (
          r,
          m',
          ground (arith, some_head, v.start_pos),
          (insert_block r (size + sizeof_header) ((a, s) ∷ bs), v', inr (w, gap, fit, least, refl)),
        )

-- `Mem_Alloc` of a positive size in a valid state that holds blocks, where the rounded size and a
-- header fit an `int`: it returns, within the fuel, a valid state. It answers by the best-fit policy
-- for the rounded size: NULL exactly when no gap is larger, and else the start of a smallest gap
-- that is larger, where it adds a block of the rounded size and a header.
pub mem_alloc_lem :
    {m : Mem} {bs : Blocks} (n : ℕ)
    → IsValid m bs
    → bs ≢ []
    → 0 < n
    → round_up 8 n + sizeof_header ≤ int_max
    → Returns
        (mem_alloc (pos n) m)
        λ r m'. (bs' : Blocks) × IsValid m' bs' × Answers (round_up 8 n) m bs r bs'
unfolding mem_alloc
mem_alloc_lem {m} {bs} n v ne p fits =
    let b = round_up_bounds n in
    let (r, m', run, post) =
      alloc_rounded_lem (round_up 8 n) v ne b.2 (omega (arith, b.0, b.2)) fits in
    (r, m', ground arith, post)

empty_head : {h : Heap} {p : Ptr} → Chain h p [] → p ≡ null
empty_head nil = refl

-- `Mem_Alloc` of a positive size in a valid state without blocks, where the rounded size and a header
-- fit an `int`: it returns the start of the region, whatever the size of the region is, and the
-- state then holds the one block.
pub mem_alloc-first :
    {m : Mem} (n : ℕ)
    → IsValid m []
    → 0 < n
    → round_up 8 n + sizeof_header ≤ int_max
    → Returns
        (mem_alloc (pos n) m)
        λ r m'. (r ≡ m.start) × IsValid m' ((m.start, round_up 8 n + sizeof_header) ∷ [])
unfolding mem_alloc alloc_rounded place
mem_alloc-first {m} n v p fits =
    let size = round_up 8 n + sizeof_header in
    let b = round_up_bounds n in
    let (g, run, r) =
      insert-alone (filled (record m { head = m.start }) m.start size) m.start size refl v.count
        (v.start_pos, ground arith, ground arith) in
    let m' : Mem = record m { head = m.start; heap = g; numblocks = m.numblocks + 1 } in
    (
      m.start,
      m',
      ground (arith, v.chain, b, empty_head v.chain),
      (
        refl,
        linked-IsValid {m = m} m.start size m.start g v tt (omega arith) v.start_aligned
            (omega (arith, v.region, v.total_pos)) (omega (arith, b.2)) (omega (arith, b.0, b.2))
            (record { chain = r.chain; same = r.same }),
      ),
    )
