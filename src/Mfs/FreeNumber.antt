-- ===== src/Mfs/FreeNumber.antt =====
-- The slots of the inode map in the image of p5/MFS: the first that is free, and `nextinum`.
use bacon_eggs.Prelude.{
  ℕ, zero, suc, ◌+◌, ◌*◌, ◌≤◌, ◌<◌, ◌≡◌, refl, ap, ◌∙◌, true, false, some, arith, ◌==◌,
}
use bacon_eggs.Mfs.Disk.{Bytes, word_at, Disk, read_int, read_int-word_at}
use bacon_eggs.Mfs.State.{Server}
use bacon_eggs.Mfs.Utils.{free_slot, free_inum, nextinum}
use bacon_eggs.Mfs.Entries.{word_at-kept}

-- The first of the slots from `ptr` on that is 0 is slot `k`.
abbrev pub FirstFree : Disk → (ptr k : ℕ) → Type 0
FirstFree d ptr zero = word_at d.bytes ptr == 0 ≡ true
FirstFree d ptr (suc k) = (word_at d.bytes ptr == 0 ≡ false) × FirstFree d (ptr + 4) k

free_slot-FirstFree :
    (d : Disk) (junk : Bytes) (k l ptr count : ℕ)
    → FirstFree d ptr k
    → k < l
    → ptr + 4 * suc k ≤ d.size
    → free_slot d junk l ptr count ≡ some (count + k)
unfolding free_slot
free_slot-FirstFree d junk k zero ptr count free enough inside = absurd (omega arith)
free_slot-FirstFree d junk zero (suc l) ptr count free enough inside =
    rw (read_int-word_at d ptr (word_at junk 4) (omega arith), free) (ap some (omega arith))
free_slot-FirstFree d junk (suc k) (suc l) ptr count (used, free) enough inside =
    rw (read_int-word_at d ptr (word_at junk 4) (omega arith), used)
      (free_slot-FirstFree d junk k l (ptr + 4) (count + 1) free (omega arith) (omega arith)
        ∙ ap some (omega arith))

pub FirstFree-kept :
    (d d' : Disk) (ptr k : ℕ)
    → ((a : ℕ) → ptr ≤ a → a < ptr + 4 * suc k → d'.bytes a ≡ d.bytes a)
    → FirstFree d ptr k
    → FirstFree d' ptr k
FirstFree-kept d d' ptr zero kept free =
    ap (λ w. w == 0) (word_at-kept d d' ptr λ a low high. kept a low (omega arith)) ∙ free
FirstFree-kept d d' ptr (suc k) kept (used, free) = (
  ap (λ w. w == 0) (word_at-kept d d' ptr λ a low high. kept a low (omega arith)) ∙ used,
  FirstFree-kept d d' (ptr + 4) k (λ a low high. kept a (omega arith) (omega arith)) free,
)

zero_of_test : (w : ℕ) → w == 0 ≡ true → w ≡ 0
zero_of_test w test = ground arith

pub FirstFree-end : (d : Disk) (ptr k : ℕ) → FirstFree d ptr k → word_at d.bytes (ptr + 4 * k) ≡ 0
FirstFree-end d ptr zero free =
    let here : ptr + 4 * 0 ≡ ptr = omega arith in
    ap (word_at d.bytes) here ∙ zero_of_test (word_at d.bytes ptr) free
FirstFree-end d ptr (suc k) (used, free) =
    let here : ptr + 4 * suc k ≡ ptr + 4 + 4 * k = omega arith in
    ap (word_at d.bytes) here ∙ FirstFree-end d (ptr + 4) k free

-- A free number in the first region of the inode map.
pub nextinum-FirstFree :
    (s : Server) (m k : ℕ)
    → read_int s.disk 4 (word_at s.junk 0) ≡ m
    → 0 < m
    → FirstFree s.disk m k
    → k < 16
    → m + 4 * suc k ≤ s.disk.size
    → nextinum s ≡ some (some k, s)
unfolding nextinum free_inum
nextinum-FirstFree s m k region positive free low inside =
    let set : m == 0 ≡ false = ground arith in
    let found : free_slot s.disk s.junk 16 m 0 ≡ some k =
      free_slot-FirstFree s.disk s.junk k 16 m 0 free low inside ∙ ap some (omega arith) in
    rw (region, set, found) refl
