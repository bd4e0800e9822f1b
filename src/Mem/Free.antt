-- ===== src/Mem/Free.antt =====
-- `Mem_Free` of p3/mem/mem.c, on a live block and on any other pointer.
use bacon_eggs.Prelude.{
  ℕ, ◌+◌, ◌-◌, ◌≤◌, ◌<◌, ◌≡◌, refl, ◌≢◌, ◌⊎◌, inl, inr, true, false, ◌||◌, [], ◌∷◌, arith, ◌==◌,
  if◌then◌else◌, length, Bool-cases,
}
use mathlib.Core.Path.{subst, ap, ◌∙◌}
use bacon_eggs.Prelude.Int.{pos, minus_one}
use bacon_eggs.Mem.{round_up, mem_alloc, mem_free, in_region}
use bacon_eggs.Mem.Store.{
  Ptr, null, key_value, freed_key, sizeof_header, int_max, e_bad_pointer, Heap, Mem, ok,
}
use bacon_eggs.Mem.Chain.{Blocks, has, Layout, Chain, nil, cons, insert_block, remove_at, IsValid}
use bacon_eggs.Mem.Remove.{Freed, remove_block_lem}
use bacon_eggs.Mem.Alloc.{Returns, Answers, mem_alloc_lem, round_up_bounds}
use bacon_eggs.Mem.Gap.{
  gap-Clear, not-mem_of_Clear, has-insert_block, Layout-remove_at, length-remove_at, has-remove_at,
}

live-key :
    {h : Heap} {p : Ptr} {bs : Blocks} (a : Ptr)
    → Chain h p bs
    → has a bs ≡ true
    → (a ≢ null) × ((h a).key ≡ key_value)
live-key a nil e = absurd (cc)
live-key a (cons {p} points c) e = ground (arith, live-key a c)

removed-IsValid :
    {m : Mem} {bs : Blocks} (ptr p : Ptr) (g : Heap)
    → IsValid m bs
    → has ptr bs ≡ true
    → Chain g p (remove_at ptr bs)
    → Freed m.heap ptr g
    → IsValid (record m { head = p; heap = g; numblocks = m.numblocks - 1 }) (remove_at ptr bs)
removed-IsValid {m} {bs} ptr p g v hit c f = record {
  chain = c;
  layout = Layout-remove_at m.final ptr bs m.start v.layout;
  count = omega (arith, v.count, length-remove_at ptr bs hit);
  live = λ a k. elim (Bool-cases (a == ptr)) [
    | inl here ↦ absurd (ground (arith, f.invalid))
    | inr other ↦
        has-remove_at m.final a ptr bs m.start v.layout (v.live a (ground (arith, f.keys a)))
          (ground arith)
  ];
  region = v.region;
  start_pos = v.start_pos;
  start_aligned = v.start_aligned;
  total_aligned = v.total_aligned;
  total_pos = v.total_pos;
}

-- The header of a block is in the region.
has-in_region :
    (m : Mem) (ptr : Ptr) (bs : Blocks) (lo : ℕ)
    → Layout m.final lo bs
    → m.start ≤ lo
    → has ptr bs ≡ true
    → in_region ptr m ≡ true
has-in_region m ptr [] lo l le hit = absurd (cc hit)
has-in_region m ptr ((b, t) ∷ bs) lo l le hit = elim (Bool-cases (ptr == b)) [
  | inl here ↦ ground (arith, l.0, l.4)
  | inr on ↦ has-in_region m ptr bs (b + sizeof_header) l.5 (omega (arith, l.0)) (ground arith)
]

-- `Mem_Free` of a live block in a valid state returns 0, within the fuel: the state is valid again,
-- holds exactly the other blocks, and the key of the freed header is invalid.
pub mem_free_lem :
    {m : Mem} {bs : Blocks} (ptr : Ptr)
    → IsValid m bs
    → has ptr bs ≡ true
    → Returns
        (mem_free ptr m)
        λ r m'. (r ≡ pos 0) × IsValid m' (remove_at ptr bs) × ((m'.heap ptr).key ≡ freed_key)
unfolding mem_free
mem_free_lem {m} {bs} ptr v hit =
    let (p, g, run, c, f) = remove_block_lem m ptr bs v.chain v.layout v.count hit in
    let k = live-key ptr v.chain hit in
    let mapped = has-in_region m ptr bs m.start v.layout (omega arith) hit in
    let m' : Mem = record m { head = p; heap = g; numblocks = m.numblocks - 1 } in
    (
      pos 0,
      m',
      ground (arith, v.count, length-remove_at ptr bs),
      (refl, removed-IsValid ptr p g v hit c f, f.invalid),
    )

-- `Mem_Free` of any other pointer in a valid state, NULL or with a header in the region, returns -1 and changes no block: without an error
-- code for NULL and where there is no block, and with E_BAD_POINTER otherwise.
pub mem_free-bad :
    {m : Mem} {bs : Blocks} (ptr : Ptr)
    → IsValid m bs
    → has ptr bs ≡ false
    → (ptr ≡ null) ⊎ (in_region ptr m ≡ true)
    → mem_free ptr m
      ≡ ok minus_one
          (if ptr == null || length bs == 0 then m else record m { m_error = e_bad_pointer })
unfolding mem_free
mem_free-bad {m} {bs} ptr v miss readable = ground (arith, v.count, v.live ptr)

remove_at-insert_block :
    (a s : ℕ) (bs : Blocks) → has a bs ≡ false → remove_at a (insert_block a s bs) ≡ bs
remove_at-insert_block a s [] h = ground arith
remove_at-insert_block a s ((b, t) ∷ bs) h = ground (arith, remove_at-insert_block a s bs)

has_self : (a s : ℕ) (bs : Blocks) → has a (insert_block a s bs) ≡ true
has_self a s bs = ground (arith, has-insert_block a a s bs)

-- A block that `Mem_Alloc` returns in a valid state with blocks is freed by `Mem_Free` with result 0,
-- and the state then holds the blocks of before both calls. The size is positive, and rounded and
-- with a header it fits an `int`.
pub free-alloc :
    {m : Mem} {bs : Blocks} (n : ℕ)
    → IsValid m bs
    → bs ≢ []
    → 0 < n
    → round_up 8 n + sizeof_header ≤ int_max
    → Returns
        (mem_alloc (pos n) m)
        λ r m'. r ≢ null → Returns (mem_free r m') λ c m''. (c ≡ pos 0) × IsValid m'' bs
free-alloc {m} {bs} n v ne p fits =
    let (r, m', run, (bs', v', answer)) = mem_alloc_lem n v ne p fits in
    (r, m', run, λ some_r. go r m' bs' v' answer some_r)
  where
    go :
        (r : Ptr) (m' : Mem) (bs' : Blocks)
        → IsValid m' bs'
        → Answers (round_up 8 n) m bs r bs'
        → r ≢ null
        → Returns (mem_free r m') λ c m''. (c ≡ pos 0) × IsValid m'' bs
    go r m' bs' v' (inl (e, none, same)) some_r = absurd (some_r e)
    go r m' bs' v' (inr (w, gap, fit, least, e)) some_r =
        let b = round_up_bounds n in
        let (clear, _, _, _) =
          gap-Clear m.start m.final (round_up 8 n) r w bs v.layout v.start_aligned
            (omega (arith, v.region, v.total_aligned, v.start_aligned)) gap b.2
            (omega (arith, b.0, b.2)) fit in
        let s = round_up 8 n + sizeof_header in
        let (c, m'', run, (zero_c, v'', freed)) = mem_free_lem r v' (rw e (has_self r s bs)) in
        (
          c,
          m'',
          run,
          (
            zero_c,
            subst (λ xs. IsValid m'' xs)
                (ap (remove_at r) e ∙ remove_at-insert_block r s bs (not-mem_of_Clear r bs clear))
                v'',
          ),
        )
