-- ===== src/Mem/Insert.antt =====
-- `insert` of p3/mem/mem.c puts a block at its place in the order of addresses.
use bacon_eggs.Prelude.{
  ℕ, zero, suc, ◌+◌, ◌<◌, ◌≡◌, refl, ◌≢◌, inl, inr, false, some, [], ◌∷◌, arith, ltb, length,
  Bool-cases,
}
use bacon_eggs.Prelude.Int.{pos}
use bacon_eggs.Mem.{insert_loop, insert}
use bacon_eggs.Mem.Store.{Ptr, null, key_value, sizeof_header, Heap, set_next, Mem}
use bacon_eggs.Mem.Chain.{
  Blocks, has, Points, Chain, nil, cons, Layout, insert_block, SameBlocks, le-mem, frame,
}

-- The header of a block that is about to be linked in.
abbrev pub IsFilled : Heap → Ptr → ℕ → Type 0
IsFilled h p s = (p ≢ null) × ((h p).key ≡ key_value) × ((h p).size ≡ s)

-- What the loop has done when it stops, started at the block `(t, s)` before the blocks `bs`.
record Linked (h : Heap) (t : Ptr) (s : ℕ) (ptr : Ptr) (size : ℕ) (bs : Blocks) (g : Heap)
    : Type 0 where
  chain : Chain g t ((t, s) ∷ insert_block ptr size bs)
  same : SameBlocks h g
  outside : (a : Ptr) → has a bs ≡ false → a ≢ t → a ≢ ptr → g a ≡ h a

module _ (final ptr size : ℕ) where
  insert_loop-Linked :
      (k : ℕ) {h : Heap} {t q : Ptr} {s lo : ℕ} {bs : Blocks}
      → Points h t s q
      → Chain h q bs
      → Layout final lo ((t, s) ∷ bs)
      → t < ptr
      → has ptr bs ≡ false
      → IsFilled h ptr size
      → length bs < k
      → (g : Heap) × (insert_loop k ptr t h ≡ some (pos 0, g)) × Linked h t s ptr size bs g
  unfolding insert_loop
  insert_loop-Linked zero e c l lt new f fuel = absurd (omega arith)
  insert_loop-Linked (suc k) {h} {t} e nil l lt new f fuel = (
    set_next (set_next h t ptr) ptr null,
    ground arith,
    record {
      chain = cons (ground arith) (cons (ground arith) nil);
      same = ground arith;
      outside = ground arith;
    },
  )
  insert_loop-Linked (suc k) {h} {t} {q} e (cons {s = s'} {bs} e' c) l lt new f fuel =
      elim (Bool-cases (ltb ptr q)) [
        | inl before ↦ (
          set_next (set_next h ptr q) t ptr,
          ground arith,
          record {
            chain = rw before (
                cons (ground arith) (
                  cons (ground arith) (
                    frame (cons e' c) λ a i.
                      ground (arith, le-mem final a ((q, s') ∷ bs) (t + sizeof_header) l.5))));
            same = ground arith;
            outside = ground arith;
          },
        )
        | inr after ↦
            let (g, run, r) =
              insert_loop-Linked k e' c l.5 (ground arith) (ground arith) f (omega arith) in
            (
              g,
              ground arith,
              record {
                chain = rw after (
                    cons (ground (arith, r.outside t, le-mem final t bs (q + sizeof_header) l.5.5))
                      r.chain);
                same = r.same;
                outside = λ a o n m. r.outside a (ground arith) (ground arith) m;
              },
            )
      ]

-- What `insert` leaves: the chain holds the new block, and only `next` fields and the head change.
pub record Inserted (m : Mem) (ptr size : ℕ) (bs : Blocks) (p : Ptr) (g : Heap) : Type 0 where
  pub chain : Chain g p (insert_block ptr size bs)
  pub same : SameBlocks m.heap g

insert-cons :
    (m : Mem) (ptr size : ℕ) {p q : Ptr} {s : ℕ} {bs : Blocks}
    → m.head ≡ p
    → Points m.heap p s q
    → Chain m.heap q bs
    → Layout m.final m.start ((p, s) ∷ bs)
    → m.numblocks ≡ suc (length bs)
    → has ptr ((p, s) ∷ bs) ≡ false
    → IsFilled m.heap ptr size
    → (p' : Ptr) × (g : Heap) × (insert ptr m ≡ some (pos 0, record m { head = p'; heap = g }))
      × Inserted m ptr size ((p, s) ∷ bs) p' g
unfolding insert
insert-cons m ptr size {p} {q} {s} {bs} at e c l n new f = elim (Bool-cases (ltb ptr p)) [
  | inl before ↦ (
    ptr,
    set_next m.heap ptr p,
    ground arith,
    record {
      chain = rw before (cons (ground arith) (frame (cons e c) λ a i. ground arith));
      same = ground arith;
    },
  )
  | inr after ↦
      let (g, run, r) =
        insert_loop-Linked m.final ptr size (suc m.numblocks) e c l (ground arith) (ground arith) f
          (omega arith) in
      (p, g, ground arith, record { chain = rw after r.chain; same = r.same })
]

-- On a list that is not empty `insert` succeeds, within its fuel: the list then holds the new block
-- at its place in the order of addresses, and no key and no size has changed.
pub insert_lem :
    (m : Mem) (ptr size : ℕ) (bs : Blocks)
    → Chain m.heap m.head bs
    → bs ≢ []
    → Layout m.final m.start bs
    → m.numblocks ≡ length bs
    → has ptr bs ≡ false
    → IsFilled m.heap ptr size
    → (p' : Ptr) × (g : Heap) × (insert ptr m ≡ some (pos 0, record m { head = p'; heap = g }))
      × Inserted m ptr size bs p' g
insert_lem m ptr size bs c = go c refl
  where
    go :
        {p : Ptr} {xs : Blocks}
        → Chain m.heap p xs
        → m.head ≡ p
        → xs ≢ []
        → Layout m.final m.start xs
        → m.numblocks ≡ length xs
        → has ptr xs ≡ false
        → IsFilled m.heap ptr size
        → (p' : Ptr) × (g : Heap) × (insert ptr m ≡ some (pos 0, record m { head = p'; heap = g }))
          × Inserted m ptr size xs p' g
    go nil at ne l n new f = absurd (ne refl)
    go (cons e c) at ne l n new f = insert-cons m ptr size at e c l n new f

-- With the list empty and the head set to the block, as `Mem_Alloc` sets it, `insert` closes the list.
pub insert-alone :
    (m : Mem) (ptr size : ℕ)
    → m.head ≡ ptr
    → m.numblocks ≡ 0
    → IsFilled m.heap ptr size
    → (g : Heap) × (insert ptr m ≡ some (pos 0, record m { heap = g }))
      × Inserted m ptr size [] ptr g
unfolding insert
insert-alone m ptr size at n f = (
  set_next m.heap ptr null,
  ground arith,
  record { chain = cons (ground arith) nil; same = ground arith },
)
