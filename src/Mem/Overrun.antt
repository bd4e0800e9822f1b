-- ===== src/Mem/Overrun.antt =====
-- The requests for which `Mem_Alloc` of p3/mem/mem.c lays a block over what follows its gap: it looks
-- for more than the rounded size, and takes 16 bytes more than that.
use bacon_eggs.Prelude.{ℕ, ◌+◌, ◌≤◌, ◌<◌, ◌≢◌, inl, inr, [], ◌∷◌, arith}
use bacon_eggs.Prelude.Int.{pos}
use bacon_eggs.Mem.{round_up, mem_alloc}
use bacon_eggs.Mem.Store.{Ptr, sizeof_header, int_max, Mem}
use bacon_eggs.Mem.Chain.{Blocks, insert_block, IsValid}
use bacon_eggs.Mem.BestFit.{Gaps, all_gaps, IsGap, NoFit, AtLeast}
use bacon_eggs.Mem.Alloc.{Returns, Answers, mem_alloc_lem}

not_NoFit : (lo hi size : ℕ) (gs : Gaps) → IsGap lo hi gs → lo + size < hi → NoFit size gs → ⊥
not_NoFit lo hi size [] g fits none = g
not_NoFit lo hi size ((l, h) ∷ gs) (inl e) fits none = omega arith
not_NoFit lo hi size ((l, h) ∷ gs) (inr g) fits none = not_NoFit lo hi size gs g fits none.1

least_bound :
    (lo hi size w : ℕ) (gs : Gaps)
    → IsGap lo hi gs
    → lo + size < hi
    → AtLeast size w gs
    → lo + w ≤ hi
least_bound lo hi size w [] g fits least = absurd g
least_bound lo hi size w ((l, h) ∷ gs) (inl e) fits least = omega (arith, least.0)
least_bound lo hi size w ((l, h) ∷ gs) (inr g) fits least =
    least_bound lo hi size w gs g fits least.1

-- In a valid state with blocks where some gap has exactly 8 bytes more than the rounded size,
-- `Mem_Alloc` returns the start of a gap and adds a block there that ends beyond the end of the gap:
-- over the header of the next block, or beyond the region.
pub mem_alloc-overrun :
    {m : Mem} {bs : Blocks} (n : ℕ) (lo : Ptr)
    → IsValid m bs
    → bs ≢ []
    → 0 < n
    → round_up 8 n + sizeof_header ≤ int_max
    → IsGap lo (lo + (round_up 8 n + 8)) (all_gaps m bs)
    → Returns (mem_alloc (pos n) m) λ r m'.
      (hi : Ptr) × IsGap r hi (all_gaps m bs)
      × IsValid m' (insert_block r (round_up 8 n + sizeof_header) bs)
      × (hi < r + (round_up 8 n + sizeof_header))
mem_alloc-overrun {m} {bs} n lo v ne p fits gap =
    let (r, m', run, (bs', v', answer)) = mem_alloc_lem n v ne p fits in
    (r, m', run, go r m' bs' v' answer)
  where
    go :
        (r : Ptr) (m' : Mem) (bs' : Blocks)
        → IsValid m' bs'
        → Answers (round_up 8 n) m bs r bs'
        → (hi : Ptr) × IsGap r hi (all_gaps m bs)
          × IsValid m' (insert_block r (round_up 8 n + sizeof_header) bs)
          × (hi < r + (round_up 8 n + sizeof_header))
    go r m' bs' v' (inl (e, none, same)) =
        absurd (not_NoFit lo _ (round_up 8 n) (all_gaps m bs) gap (omega arith) none)
    go r m' bs' v' (inr (w, at, fit, least, e)) = (
      r + w,
      at,
      rw (← e) v',
      omega (
        arith,
        least_bound lo (lo + (round_up 8 n + 8)) (round_up 8 n) w (all_gaps m bs) gap (omega arith)
            least,
      ),
    )
