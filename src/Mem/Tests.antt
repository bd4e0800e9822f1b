-- ===== src/Mem/Tests.antt =====
-- The theorems on p3/mem/mem.c at a region of one page at 4096, and runs of its functions.
use bacon_eggs.Prelude.{
  ℕ, ◌+◌, ◌*◌, ◌≤◌, ◌<◌, ◌≡◌, refl, ◌≢◌, inl, inr, true, false, some, [], ◌∷◌, arith,
}
use bacon_eggs.Prelude.Int.{pos}
use bacon_eggs.Mem.{round_up, find_smallest, find_loop, mem_init, mem_alloc, mem_free}
use bacon_eggs.Mem.Store.{Ptr, null, freed_key, Header, sizeof_header, Heap, write, Mem, fault}
use bacon_eggs.Mem.Chain.{Blocks, insert_block, Chain, nil, cons, IsValid}
use bacon_eggs.Mem.BestFit.{all_gaps, IsGap, IsBestFit, find_smallest_lem}
use bacon_eggs.Mem.Alloc.{Returns, Answers, mem_alloc_lem}
use bacon_eggs.Mem.Free.{mem_free_lem, free-alloc}
use bacon_eggs.Mem.Init.{mem_init_lem}
use bacon_eggs.Mem.Overrun.{mem_alloc-overrun}
use bacon_eggs.Mem.Session.{alloc, free, run, Holds, run_lem}

abbrev header : ℕ → ℕ → Ptr → Header
header k s q = record { key = k; size = s; next = q }

abbrev zeros : Heap
zeros a = header 0 0 0

-- Before `Mem_Init`, and after it.
abbrev unused : Mem
unused = record {
  start = 0;
  final = 0;
  total = 0;
  head = 0;
  numblocks = 0;
  called = false;
  m_error = 0;
  heap = zeros;
}

abbrev fresh : Mem
fresh = record unused { start = 4096; final = 8192; total = 4096; called = true }

-- Two blocks of 48 bytes with a gap of 80 bytes between them.
abbrev two_heap : Heap
two_heap = write (write zeros 4224 (header 122 48 0)) 4096 (header 122 48 4224)

abbrev two : Mem
two = record fresh { head = 4096; numblocks = 2; heap = two_heap }

abbrev two_blocks : Blocks
two_blocks = (4096, 48) ∷ (4224, 48) ∷ []

two-Chain : Chain two_heap 4096 two_blocks
two-Chain = cons (ground arith) (cons (ground arith) nil)

fresh-IsValid : IsValid fresh []
fresh-IsValid = record {
  chain = nil;
  layout = tt;
  count = refl;
  live = λ a k. absurd (omega arith);
  region = refl;
  start_pos = omega arith;
  start_aligned = refl;
  total_aligned = refl;
  total_pos = omega arith;
}

two-IsValid : IsValid two two_blocks
two-IsValid = record {
  chain = two-Chain;
  layout = omega arith;
  count = refl;
  live = ground arith;
  region = refl;
  start_pos = omega arith;
  start_aligned = refl;
  total_aligned = refl;
  total_pos = omega arith;
}

find_smallest_run : find_smallest 40 two ≡ some 4144
unfolding find_smallest find_loop
find_smallest_run = refl

-- The gap of 80 bytes is not larger than 80, so the answer is the gap behind the last block.
find_smallest_last : find_smallest 80 two ≡ some 4272
unfolding find_smallest find_loop
find_smallest_last = refl

find_smallest_none : find_smallest 4000 two ≡ some null
unfolding find_smallest find_loop
find_smallest_none = refl

alloc_on_unmapped : mem_alloc (pos 8) unused ≡ fault
unfolding mem_alloc round_up
alloc_on_unmapped = refl

find_smallest_lem_example :
    (r : Ptr) × (find_smallest 40 two ≡ some r) × IsBestFit 40 r (all_gaps two two_blocks)
find_smallest_lem_example = find_smallest_lem 40 two two_blocks two-IsValid (λ e. cc)

abbrev third : Mem
third = record two { heap = write two_heap 4144 (header 122 56 0) }

mem_alloc_lem_example :
    Returns
      (mem_alloc (pos 33) two)
      λ r m'. (bs' : Blocks) × IsValid m' bs' × Answers (round_up 8 33) two two_blocks r bs'
unfolding round_up
mem_alloc_lem_example = mem_alloc_lem 33 two-IsValid (λ e. cc) (omega arith) (omega arith)

mem_free_lem_example :
    Returns
      (mem_free 4096 two)
      λ r m'. (r ≡ pos 0) × IsValid m' ((4224, 48) ∷ []) × ((m'.heap 4096).key ≡ freed_key)
mem_free_lem_example = mem_free_lem 4096 two-IsValid refl

free-alloc_example :
    Returns
      (mem_alloc (pos 33) two)
      λ r m'. r ≢ null → Returns (mem_free r m') λ c m''. (c ≡ pos 0) × IsValid m'' two_blocks
unfolding round_up
free-alloc_example = free-alloc 33 two-IsValid (λ e. cc) (omega arith) (omega arith)

mem_alloc-overrun_example : Returns (mem_alloc (pos 72) two) λ r m'.
    (hi : Ptr) × IsGap r hi (all_gaps two two_blocks)
    × IsValid m' (insert_block r (round_up 8 72 + sizeof_header) two_blocks)
    × (hi < r + (round_up 8 72 + sizeof_header))
unfolding round_up
mem_alloc-overrun_example =
    mem_alloc-overrun 72 4144 two-IsValid (λ e. cc) (omega arith) (omega arith)
      (inr (inl (refl, refl)))

mem_init_lem_example : Returns (mem_init 4096 (some 4096) (pos 5000) unused) λ r m'.
    (r ≡ pos 0)
    × IsValid m' []
    × (m'.start ≡ 4096)
    × (5000 ≤ m'.total)
    × (m'.total < 5000 + 4096)
    × ((j : ℕ) × (m'.total ≡ j * 4096))
unfolding round_up
mem_init_lem_example =
    mem_init_lem 4096 5000 4096 unused refl (λ a e. omega arith) refl (omega arith) (omega arith)
      (omega arith) (omega arith) refl

run_lem_example : Holds (run (alloc 40 ∷ free 4224 ∷ free 4224 ∷ alloc 9 ∷ []) two)
unfolding round_up
run_lem_example = run_lem (alloc 40 ∷ free 4224 ∷ free 4224 ∷ alloc 9 ∷ []) two-IsValid (
  omega arith,
  omega arith,
  (inr (omega arith), (inr (omega arith), (omega arith, omega arith, tt))),
)
