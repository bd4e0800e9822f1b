-- ===== src/Mem/Region.antt =====
-- `Mem_Alloc` and `Mem_Free` of p3/mem/mem.c leave the region in its place.
use bacon_eggs.Prelude.{
  ℕ, suc, not, ◌-◌, ◌+◌, ◌≡◌, refl, Bool, true, false, Option, none, some, leb, ltb, ◌==◌,
  if◌then◌else◌,
}
use bacon_eggs.Prelude.Int.{ℤ, pos, negsuc}
use bacon_eggs.Mem.{
  remove_loop, insert, insert_loop, place, alloc_rounded, find_smallest, mem_alloc, remove_block,
  mem_free, in_region, round_up,
}
use bacon_eggs.Mem.Store.{
  Ptr, null, Mem, Run, ok, exits, fault, out_of_fuel, int_max, write, Heap, key_value,
  sizeof_header, e_no_space,
}

abbrev pub SameRegion : Mem → Mem → Type 0
SameRegion m m' = (m'.start ≡ m.start) × (m'.final ≡ m.final)

abbrev OnHeap : Mem → Option (ℤ × Mem) → Type 0
OnHeap m none = Unit {0}
OnHeap m (some (check, m')) = SameRegion m m'

abbrev pub InPlace : {A : Type 0} → Mem → Run A → Type 0
InPlace m (ok a m') = SameRegion m m'
InPlace m (exits n) = Unit {0}
InPlace m fault = Unit {0}
InPlace m out_of_fuel = Unit {0}

if-InPlace :
    {A : Type 0} (m : Mem) (b : Bool) (x y : Run A)
    → InPlace m x
    → InPlace m y
    → InPlace m (if b then x else y)
if-InPlace m true x y p q = p
if-InPlace m false x y p q = q

if-OnHeap :
    (m : Mem) (b : Bool) (x y : Option (ℤ × Mem))
    → OnHeap m x
    → OnHeap m y
    → OnHeap m (if b then x else y)
if-OnHeap m true x y p q = p
if-OnHeap m false x y p q = q

insert-OnHeap : (ptr : Ptr) (m : Mem) → OnHeap m (insert ptr m)
unfolding insert
insert-OnHeap ptr m =
    if-OnHeap m (leb ptr m.head) _ _ (refl, refl)
      (walked (insert_loop (suc m.numblocks) ptr m.head m.heap))
  where
    walked :
        (o : Option (ℤ × Heap))
        → OnHeap m (elim o as (λ _. Option (ℤ × Mem)) [
          | none ↦ none
          | some (check, h) ↦ some (check, record m { heap = h })
        ])
    walked none = tt
    walked (some (check, h)) = (refl, refl)

remove_block-OnHeap : (ptr : Ptr) (m : Mem) → OnHeap m (remove_block ptr m)
unfolding remove_block
remove_block-OnHeap ptr m = walked (remove_loop (suc m.numblocks) ptr null m.head m.head m.heap)
  where
    walked :
        (o : Option (ℤ × Ptr × Heap))
        → OnHeap m (elim o as (λ _. Option (ℤ × Mem)) [
          | none ↦ none
          | some (check, head, h) ↦ some (check, record m { head = head; heap = h })
        ])
    walked none = tt
    walked (some (check, head, h)) = (refl, refl)

abbrev with_header : Ptr → ℕ → Mem → Mem
with_header addr fsize m = record m {
  heap = write m.heap addr (record { key = key_value; size = fsize + sizeof_header; next = null });
}

abbrev counted : Ptr → Option (ℤ × Mem) → Run Ptr
counted addr none = out_of_fuel
counted addr (some (pos check, m')) =
    if check == 0 then ok addr (record m' { numblocks = m'.numblocks + 1 }) else ok addr m'
counted addr (some (negsuc check, m')) = ok addr m'

counted-InPlace :
    (addr : Ptr) (m : Mem) (o : Option (ℤ × Mem)) → OnHeap m o → InPlace m (counted addr o)
counted-InPlace addr m none p = tt
counted-InPlace addr m (some (pos check, m')) p = if-InPlace m (check == 0) _ _ p p
counted-InPlace addr m (some (negsuc check, m')) p = p

place-InPlace : (addr : Ptr) (fsize : ℕ) (m : Mem) → InPlace m (place addr fsize m)
unfolding place
place-InPlace addr fsize m = if-InPlace m (ltb int_max (fsize + sizeof_header)) fault _ tt (
    counted-InPlace addr m (insert addr (with_header addr fsize m))
      (insert-OnHeap addr (with_header addr fsize m)))

alloc_rounded-InPlace : (fsize : ℕ) (m : Mem) → InPlace m (alloc_rounded fsize m)
unfolding alloc_rounded
alloc_rounded-InPlace fsize m = if-InPlace m (ltb int_max fsize) fault _ tt (
    if-InPlace m (m.head == null) _ _
      (if-InPlace m (m.start == null) fault _ tt
        (place-InPlace m.start fsize (record m { head = m.start })))
      (found (find_smallest fsize m)))
  where
    found :
        (o : Option Ptr)
        → InPlace m (elim o as (λ _. Run Ptr) [
          | none ↦ out_of_fuel
          | some addr ↦
              if addr == null
              then ok null (record m { m_error = e_no_space })
              else place addr fsize m
        ])
    found none = tt
    found (some addr) = if-InPlace m (addr == null) _ _ (refl, refl) (place-InPlace addr fsize m)

pub mem_alloc-InPlace : (n : ℕ) (m : Mem) → InPlace m (mem_alloc (pos n) m)
unfolding mem_alloc
mem_alloc-InPlace n m =
    if-InPlace m (n == 0) (exits 1) _ tt (alloc_rounded-InPlace (round_up 8 n) m)

pub mem_free-InPlace : (ptr : Ptr) (m : Mem) → InPlace m (mem_free ptr m)
unfolding mem_free
mem_free-InPlace ptr m =
    if-InPlace m (ptr == null) _ _ (refl, refl)
      (if-InPlace m (m.numblocks == 0) _ _ (refl, refl)
        (if-InPlace m (not (in_region ptr m)) fault _ tt (
          if-InPlace m (not ((m.heap ptr).key == key_value)) _ _ (refl, refl)
            (gone (remove_block ptr m) (remove_block-OnHeap ptr m)))))
  where
    gone :
        (o : Option (ℤ × Mem))
        → OnHeap m o
        → InPlace m (elim o as (λ _. Run ℤ) [
          | none ↦ out_of_fuel
          | some (pos check, m') ↦
              ok (pos 0) (if check == 0 then record m' { numblocks = m'.numblocks - 1 } else m')
          | some (negsuc check, m') ↦ ok (pos 0) m'
        ])
    gone none p = tt
    gone (some (pos check, m')) p =
        elim (check == 0)
          as (λ b. SameRegion m (if b then record m' { numblocks = m'.numblocks - 1 } else m')) [
            | true ↦ p
            | false ↦ p
          ]
    gone (some (negsuc check, m')) p = p
