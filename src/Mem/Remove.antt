-- ===== src/Mem/Remove.antt =====
-- `removeBlock` of p3/mem/mem.c takes a block out of the list and invalidates its key.
use bacon_eggs.Prelude.{
  ℕ, zero, suc, ◌+◌, ◌<◌, ◌≡◌, refl, ◌≢◌, inl, inr, true, false, some, ◌∷◌, arith, ◌==◌, length,
  Bool-cases,
}
use bacon_eggs.Prelude.Int.{pos}
use bacon_eggs.Mem.{remove_loop, remove_block}
use bacon_eggs.Mem.Store.{Ptr, null, freed_key, sizeof_header, Heap, set_next, set_key, Mem}
use bacon_eggs.Mem.Chain.{Blocks, has, Points, Chain, nil, cons, Layout, remove_at, le-mem, frame}

-- What a removal leaves of the headers.
pub record Freed (h : Heap) (ptr : Ptr) (g : Heap) : Type 0 where
  pub invalid : (g ptr).key ≡ freed_key
  pub keys : (a : Ptr) → a ≢ ptr → (g a).key ≡ (h a).key
  pub sizes : (a : Ptr) → (g a).size ≡ (h a).size

record Cut (h : Heap) (v : Ptr) (s : ℕ) (ptr : Ptr) (bs : Blocks) (g : Heap) : Type 0 where
  chain : Chain g v ((v, s) ∷ remove_at ptr bs)
  freed : Freed h ptr g
  outside : (a : Ptr) → has a bs ≡ false → a ≢ v → g a ≡ h a

module _ (final ptr : ℕ) (head : Ptr) where
  -- The loop behind a block `(v, s)`, which `prev` points to.
  remove_loop-Cut :
      (k : ℕ) {h : Heap} {v q : Ptr} {s lo : ℕ} {bs : Blocks}
      → Points h v s q
      → Chain h q bs
      → Layout final lo ((v, s) ∷ bs)
      → has ptr bs ≡ true
      → length bs < k
      → (g : Heap) × (remove_loop k ptr v q head h ≡ some (pos 0, head, g)) × Cut h v s ptr bs g
  unfolding remove_loop
  remove_loop-Cut zero e c l hit fuel = absurd (omega arith)
  remove_loop-Cut (suc k) e nil l hit fuel = absurd (cc)
  remove_loop-Cut (suc k) {h} {v} {q} e (cons {q = q'} {s = s'} {bs} e' c) l hit fuel =
      elim (Bool-cases (q == ptr)) [
        | inl here ↦ (
          set_next (set_key (set_next h v q') q freed_key) q null,
          ground arith,
          record {
            chain = rw here (
                cons (ground arith)
                  (frame c λ a i. ground (arith, le-mem final a bs (q + sizeof_header) l.5.5)));
            freed = record { invalid = ground arith; keys = ground arith; sizes = ground arith };
            outside = ground arith;
          },
        )
        | inr on ↦
            let (g, run, r) = remove_loop-Cut k e' c l.5 (ground arith) (omega arith) in
            (
              g,
              ground arith,
              record {
                chain = rw on (
                    cons (ground (arith, r.outside v, le-mem final v bs (q + sizeof_header) l.5.5))
                      r.chain);
                freed = r.freed;
                outside = λ a o n. r.outside a (ground arith) (ground arith);
              },
            )
      ]

remove-cons :
    (m : Mem) (ptr : Ptr) {p q : Ptr} {s : ℕ} {bs : Blocks}
    → m.head ≡ p
    → Points m.heap p s q
    → Chain m.heap q bs
    → Layout m.final m.start ((p, s) ∷ bs)
    → m.numblocks ≡ suc (length bs)
    → has ptr ((p, s) ∷ bs) ≡ true
    → (p' : Ptr) × (g : Heap) × (remove_block ptr m
        ≡ some (pos 0, record m { head = p'; heap = g }))
      × Chain g p' (remove_at ptr ((p, s) ∷ bs))
      × Freed m.heap ptr g
unfolding remove_block remove_loop
remove-cons m ptr {p} {q} {s} {bs} at e c l n hit = elim (Bool-cases (p == ptr)) [
  | inl here ↦ (
    q,
    set_key m.heap p freed_key,
    ground arith,
    rw here (frame c λ a i. ground (arith, le-mem m.final a bs (p + sizeof_header) l.5)),
    record { invalid = ground arith; keys = ground arith; sizes = ground arith },
  )
  | inr on ↦
      let (g, run, r) =
        remove_loop-Cut m.final ptr p m.numblocks e c l (ground arith) (omega arith) in
      (p, g, ground arith, rw on r.chain, r.freed)
]

-- `removeBlock` of a block of the list succeeds, within its fuel: the list loses exactly that block,
-- its key becomes invalid, and no other key and no size changes.
pub remove_block_lem :
    (m : Mem) (ptr : Ptr) (bs : Blocks)
    → Chain m.heap m.head bs
    → Layout m.final m.start bs
    → m.numblocks ≡ length bs
    → has ptr bs ≡ true
    → (p' : Ptr) × (g : Heap) × (remove_block ptr m
        ≡ some (pos 0, record m { head = p'; heap = g }))
      × Chain g p' (remove_at ptr bs)
      × Freed m.heap ptr g
remove_block_lem m ptr bs c = go c refl
  where
    go :
        {p : Ptr} {xs : Blocks}
        → Chain m.heap p xs
        → m.head ≡ p
        → Layout m.final m.start xs
        → m.numblocks ≡ length xs
        → has ptr xs ≡ true
        → (p' : Ptr) × (g : Heap) × (remove_block ptr m
            ≡ some (pos 0, record m { head = p'; heap = g }))
          × Chain g p' (remove_at ptr xs)
          × Freed m.heap ptr g
    go nil at l n hit = absurd (cc)
    go (cons e c) at l n hit = remove-cons m ptr at e c l n hit
