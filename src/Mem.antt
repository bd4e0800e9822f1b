-- ===== src/Mem.antt =====
-- p3/mem/mem.c: the best-fit allocator over one mapped region.
-- Each loop over the linked list runs on fuel and is given one round more than `numblocks` counts.
-- A function that writes the globals returns them beside its result.
pub mod Store
mod Tests
pub mod Chain
pub mod Alloc
pub mod BestFit
pub mod Free
pub mod Gap
pub mod Init
pub mod Insert
pub mod Overrun
pub mod Region
pub mod Remove
pub mod Session
use bacon_eggs.Prelude.{
  ℕ, zero, suc, ◌+◌, ◌-◌, ◌%◌, Bool, true, ◌&&◌, not, Option, none, some, ltb, leb, ◌==◌,
  if◌then◌else◌,
}
use bacon_eggs.Prelude.Int.{ℤ, pos, negsuc, minus_one}
use bacon_eggs.Mem.Store.{
  Ptr, null, key_value, freed_key, Header, sizeof_header, int_max, e_no_space, e_bad_args,
  e_bad_pointer, Heap, write, set_next, set_key, Mem, Run, ok, exits, fault, out_of_fuel,
}

-- The smallest multiple of `k` that is not below `n`.
unfoldable pub round_up : ℕ → ℕ → ℕ
round_up k n = if n % k == 0 then n else n + (k - n % k)

-- `Mem_Init`. `pagesize` is what `getpagesize` returns and `mapped` what `mmap` returns, `none` for
-- MAP_FAILED.
init_region : ℕ → Option Ptr → ℕ → Mem → Run ℤ
init_region pagesize mapped n m =
    let size = round_up pagesize n in
    let m' = record m { numblocks = 0; head = null } in
    if ltb int_max size then fault else elim mapped [
      | none ↦ exits 1
      | some p ↦ ok (pos 0) (record m' { start = p; total = size; final = p + size })
    ]

init_first : ℕ → Option Ptr → ℤ → Mem → Run ℤ
init_first pagesize mapped (negsuc n) m = ok minus_one (record m { m_error = e_bad_args })
init_first pagesize mapped (pos n) m =
    if n == 0
    then ok minus_one (record m { m_error = e_bad_args })
    else init_region pagesize mapped n m

pub mem_init : ℕ → Option Ptr → ℤ → Mem → Run ℤ
unfolding init_region init_first
mem_init pagesize mapped size m =
    if m.called
    then ok minus_one (record m { m_error = e_bad_args })
    else init_first pagesize mapped size (record m { called = true })

-- The while loop of `insert`: `t` walks the list.
insert_loop : ℕ → Ptr → Ptr → Heap → Option (ℤ × Heap)
insert_loop zero ptr t h = none
insert_loop (suc k) ptr t h =
    let tn = (h t).next in
    let rest = insert_loop k ptr tn h in
    if t == null
    then some (minus_one, h)
    else if ltb t ptr && tn == null
    then some (pos 0, set_next (set_next h t ptr) ptr null)
    else if ltb t ptr && ltb ptr tn
    then some (pos 0, set_next (set_next h ptr tn) t ptr)
    else rest

pub insert : Ptr → Mem → Option (ℤ × Mem)
unfolding insert_loop
insert ptr m =
    if leb ptr m.head
    then some (
      pos 0,
      record m {
        heap = set_next m.heap ptr (if ltb m.numblocks 1 then null else m.head);
        head = ptr;
      },
    )
    else elim (insert_loop (suc m.numblocks) ptr m.head m.heap) [
      | none ↦ none
      | some (check, h) ↦ some (check, record m { heap = h })
    ]

-- The while loop of `removeBlock`: `prev` trails `temp`. The result has the new head.
remove_loop : ℕ → Ptr → (prev temp : Ptr) → Ptr → Heap → Option (ℤ × Ptr × Heap)
remove_loop zero ptr prev temp head h = none
remove_loop (suc k) ptr prev temp head h =
    let next = (h temp).next in
    let rest = remove_loop k ptr temp next head h in
    if temp == null
    then some (minus_one, head, h)
    else if temp == ptr
    then if prev == null
      then (let h' = set_key h head freed_key in some (pos 0, (h' head).next, h'))
      else some (pos 0, head, set_next (set_key (set_next h prev next) temp freed_key) temp null)
    else rest

pub remove_block : Ptr → Mem → Option (ℤ × Mem)
unfolding remove_loop
remove_block ptr m = elim (remove_loop (suc m.numblocks) ptr null m.head m.head m.heap) [
  | none ↦ none
  | some (check, head, h) ↦ some (check, record m { head = head; heap = h })
]

-- The while loop of `findsmallest`. `lo` is `taddr` and `hi` the end of the gap behind `curr`; the
-- tests `freespace > size` and `freespace < smallest` on `hi - lo` are written with sums, since the
-- difference may be negative.
find_loop : ℕ → ℕ → Ptr → Ptr → ℕ → Ptr → Heap → Option Ptr
find_loop zero size final curr smallest best h = none
find_loop (suc k) size final curr smallest best h =
    let tn = (h curr).next in
    let lo = curr + (h curr).size in
    let hi = if tn == null then final else tn in
    let better = ltb (lo + size) hi && ltb hi (lo + smallest) in
    let rest =
      find_loop k size final tn (if better then hi - lo else smallest) (if better then lo else best)
        h in
    if curr == null then some best else rest

pub find_smallest : ℕ → Mem → Option Ptr
find_smallest size m =
    let above = ltb (m.start + size) m.head in
    find_loop (suc m.numblocks) size m.final m.head (if above then m.head - m.start else m.total)
      (if above then m.start else null) m.heap

-- The end of `Mem_Alloc`: write the header, link it in, count it. A block size that no `int` holds
-- is a `fault`.
place : Ptr → ℕ → Mem → Run Ptr
place addr fsize m =
    let c : Header = record { key = key_value; size = fsize + sizeof_header; next = null } in
    let linked : Run Ptr = elim (insert addr (record m { heap = write m.heap addr c })) [
      | none ↦ out_of_fuel
      | some (pos check, m') ↦
          if check == 0 then ok addr (record m' { numblocks = m'.numblocks + 1 }) else ok addr m'
      | some (negsuc check, m') ↦ ok addr m'
    ] in
    if ltb int_max (fsize + sizeof_header) then fault else linked

alloc_rounded : ℕ → Mem → Run Ptr
alloc_rounded fsize m =
    if ltb int_max fsize
    then fault
    else if m.head == null
    then if m.start == null then fault else place m.start fsize (record m { head = m.start })
    else elim (find_smallest fsize m) [
      | none ↦ out_of_fuel
      | some addr ↦
          if addr == null then ok null (record m { m_error = e_no_space }) else place addr fsize m
    ]

pub mem_alloc : ℤ → Mem → Run Ptr
unfolding place alloc_rounded
mem_alloc (negsuc n) m = exits 1
mem_alloc (pos n) m = if n == 0 then exits 1 else alloc_rounded (round_up 8 n) m

-- The key and the size of a header at `ptr` are in the mapped region; reading them elsewhere is a fault.
abbrev pub in_region : Ptr → Mem → Bool
in_region ptr m = leb m.start ptr && leb (ptr + 8) m.final

pub mem_free : Ptr → Mem → Run ℤ
mem_free ptr m =
    if ptr == null
    then ok minus_one m
    else if m.numblocks == 0
    then ok minus_one m
    else if not (in_region ptr m)
    then fault
    else if not ((m.heap ptr).key == key_value)
    then ok minus_one (record m { m_error = e_bad_pointer })
    else elim (remove_block ptr m) [
      | none ↦ out_of_fuel
      | some (pos check, m') ↦
          ok (pos 0) (if check == 0 then record m' { numblocks = m'.numblocks - 1 } else m')
      | some (negsuc check, m') ↦ ok (pos 0) m'
    ]
