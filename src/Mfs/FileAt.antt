-- ===== src/Mfs/FileAt.antt =====
-- Where the parts of one file stand in the image of p5/MFS/server.c, and what `getinode` finds.
use bacon_eggs.Prelude.{
  ℕ, ◌+◌, ◌*◌, ◌/◌, ◌%◌, ◌^◌, ◌≤◌, ◌<◌, ◌≡◌, refl, ◌∙◌, ◌⊎◌, false, some, arith, ◌==◌,
}
use bacon_eggs.Prelude.Int.{pos}
use bacon_eggs.Mfs.Disk.{word_at, Disk, read_int, read_int-word_at, word_at-byte_of}
use bacon_eggs.Mfs.State.{Server, int_bytes}
use bacon_eggs.Mfs.Utils.{getinode, load_inode}

-- The inode `n`, below 16, stands at `p`; the inode map's region at `m` points to it, and the log ends
-- at `eol`. Neither pointer is in the way of the other or of the words that change at the start.
pub record InodeAt (d : Disk) (n m p eol : ℕ) : Type 0 where
  pub below : n < 16
  pub end : word_at d.bytes 0 ≡ eol
  pub region : word_at d.bytes 4 ≡ m
  pub slot : word_at d.bytes (m + 4 * n) ≡ p
  pub within : (p + 64 ≤ eol) × (m + 64 ≤ eol) × (eol ≤ d.size)
  pub behind : (8 ≤ m) × (8 ≤ p)
  pub apart : (p + 64 ≤ m) ⊎ (m + 64 ≤ p)

pub getinode-InodeAt :
    (s : Server) (n : ℕ) {m p eol : ℕ}
    → InodeAt s.disk n m p eol
    → getinode (pos n) s ≡ some (some p, record s { inode = load_inode s.disk s.junk p })
unfolding getinode
getinode-InodeAt s n {m} {p} {eol} f =
    let (inode_fits, map_fits, file) = f.within in
    let (low_map, low_inode) = f.behind in
    let first : n / 16 + 4 ≡ 4 = omega (arith, f.below) in
    let index : n % 16 ≡ n = omega (arith, f.below) in
    let read_map : read_int s.disk 4 (word_at s.junk 0) ≡ m =
      read_int-word_at s.disk 4 _ (omega arith) ∙ f.region in
    let read_slot : read_int s.disk (m + 4 * n) m ≡ p =
      read_int-word_at s.disk (m + 4 * n) _ (omega (arith, f.below)) ∙ f.slot in
    let map_set : m == 0 ≡ false = ground arith in
    let inode_set : p == 0 ≡ false = ground arith in
    rw (first, index, read_map, map_set, read_slot, inode_set) refl

-- A word of an array of words.
pub word_at-int_bytes : (ws : ℕ → ℕ) (i : ℕ) → ws i < 2 ^ 32 → word_at (int_bytes ws) (4 * i) ≡ ws i
word_at-int_bytes ws i small =
    let q0 : 4 * i / 4 ≡ i = omega arith in
    let q1 : (4 * i + 1) / 4 ≡ i = omega arith in
    let q2 : (4 * i + 2) / 4 ≡ i = omega arith in
    let q3 : (4 * i + 3) / 4 ≡ i = omega arith in
    let r0 : 4 * i % 4 ≡ 0 = omega arith in
    let r1 : (4 * i + 1) % 4 ≡ 1 = omega arith in
    let r2 : (4 * i + 2) % 4 ≡ 2 = omega arith in
    let r3 : (4 * i + 3) % 4 ≡ 3 = omega arith in
    rw (q0, q1, q2, q3, r0, r1, r2, r3) (word_at-byte_of (ws i) small)
