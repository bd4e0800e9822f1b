-- ===== src/Mfs/CreateImage.antt =====
-- The image after MFS_Creat_h of p5/MFS/server.c has made a regular file.
use bacon_eggs.Prelude.{
  ℕ, ◌+◌, ◌*◌, ◌/◌, ◌%◌, ◌^◌, ◌≤◌, ◌<◌, ◌≡◌, ◌≢◌, refl, ◌∙◌, ◌⊎◌, inl, inr, arith, ◌==◌, Bool-cases,
  if◌then◌else◌,
}
use native.Mathlib.Nat.{le_trans}
use bacon_eggs.Mfs.Disk.{
  Bytes, byte_of, word_at, read, write, store, store_out, word_at-store_in, word_at-store_out,
  word_at-byte_of, size-write, word_at-read,
}
use bacon_eggs.Mfs.State.{Server, int_bytes, inode_words}
use bacon_eggs.Mfs.Names.{new_inode, string_length}
use bacon_eggs.Mfs.FileAt.{InodeAt, word_at-int_bytes}
use bacon_eggs.Mfs.Entries.{NoName, word_at-kept}
use bacon_eggs.Mfs.FreeNumber.{FirstFree}
use bacon_eggs.Mfs.Existing.{opened}
use bacon_eggs.Mfs.Create.{named, numbered, with_inode, with_map, new_region}

-- In the directory's block at `q`, entry `i` at `slot` is the first that is not used, and no entry before
-- it has the name; slot `k` of the inode map's region at `m` is the first that is 0, and 16 slots
-- are enough; the entry is in the way of neither the region nor the directory's inode at `p`, and
-- the log, which ends at `eol`, can take two parts of 64 bytes.
pub record Room (s : Server) (name : Bytes) (m p eol q i slot k : ℕ) : Type 0 where
  pub free_entry : NoName s.disk name q i
  pub entry_low : i < 64
  pub entry : slot ≡ q + 64 * i
  pub free_slot : FirstFree s.disk m k
  pub slot_low : k < 16
  pub behind : 8 ≤ q
  pub inside : slot + 64 ≤ eol
  pub apart_map : (slot + 64 ≤ m) ⊎ (m + 64 ≤ slot)
  pub apart_inode : (slot + 64 ≤ p) ⊎ (p + 64 ≤ slot)
  pub fits : eol + 128 < 2 ^ 31
  pub short : string_length name 0 4096 < 60

-- After the entry, after the inode, and after the map.
abbrev pub with_entry : (name : Bytes) (p slot k : ℕ) → Server → Server
with_entry name p slot k s = numbered slot k (named name slot (opened p s))

abbrev pub created : (name : Bytes) (m p eol slot k : ℕ) → Server → Server
created name m p eol slot k s = with_map m k eol (with_inode eol k (with_entry name p slot k s))

module _ (s : Server) (name : Bytes) {m p eol q i slot k n : ℕ} (f : InodeAt s.disk n m p eol)
    (room : Room s name m p eol q i slot k) where
  -- The bytes after the map's new region, and after the word that leads to it.
  abbrev region_bytes : Bytes
  region_bytes =
      store (with_inode eol k (with_entry name p slot k s)).disk.bytes (eol + 64) 64
        (new_region m k eol (with_inode eol k (with_entry name p slot k s)))

  abbrev pointer_bytes : Bytes
  pointer_bytes = store region_bytes (4 + 4 * (k / 16)) 4 (byte_of (eol + 64))

  pub entry_kept :
      (a : ℕ)
      → (a < slot) ⊎ (slot + 64 ≤ a)
      → (with_entry name p slot k s).disk.bytes a ≡ s.disk.bytes a
  entry_kept a apart =
      store_out (named name slot s).disk.bytes (slot + 60) 4 (byte_of k) a (ground (arith, apart))
      ∙ store_out s.disk.bytes slot 60 name a (ground (arith, apart))

  -- The inode's part begins at the end of the log.
  pub inode_kept :
      (a : ℕ)
      → a < eol
      → (a < slot) ⊎ (slot + 64 ≤ a)
      → (with_inode eol k (with_entry name p slot k s)).disk.bytes a ≡ s.disk.bytes a
  inode_kept a low apart =
      store_out (with_entry name p slot k s).disk.bytes eol 64
        (int_bytes (inode_words (new_inode 1 eol s.junk))) a (inl low)
      ∙ entry_kept a apart

  low_slot : 4 + 4 * (k / 16) ≡ 4
  low_slot = omega (arith, room.slot_low)

  -- What is before the log's end and behind the first words is from the entry's writes.
  pub created_entry :
      (a : ℕ)
      → 8 ≤ a
      → a < eol
      → (created name m p eol slot k s).disk.bytes a ≡ (with_entry name p slot k s).disk.bytes a
  created_entry a high low =
      store_out pointer_bytes 0 4 (byte_of (eol + 64 + 64)) a (inr (omega arith))
      ∙ store_out region_bytes (4 + 4 * (k / 16)) 4 (byte_of (eol + 64)) a
          (inr (omega (arith, room.slot_low)))
      ∙ store_out (with_inode eol k (with_entry name p slot k s)).disk.bytes (eol + 64) 64
          (new_region m k eol (with_inode eol k (with_entry name p slot k s))) a (inl (omega arith))
      ∙ store_out (with_entry name p slot k s).disk.bytes eol 64
          (int_bytes (inode_words (new_inode 1 eol s.junk))) a (inl low)

  pub created_kept :
      (a : ℕ)
      → 8 ≤ a
      → a < eol
      → (a < slot) ⊎ (slot + 64 ≤ a)
      → (created name m p eol slot k s).disk.bytes a ≡ s.disk.bytes a
  created_kept a high low apart = created_entry a high low ∙ entry_kept a apart

  pub created_size : eol + 128 ≤ (created name m p eol slot k s).disk.size
  created_size =
      let d = (with_inode eol k (with_entry name p slot k s)).disk in
      let region = new_region m k eol (with_inode eol k (with_entry name p slot k s)) in
      let d' = write d (eol + 64) 64 region in
      let d'' = write d' (4 + 4 * (k / 16)) 4 (byte_of (eol + 64)) in
      let whole : eol + 128 ≤ eol + 64 + 64 = omega arith in
      le_trans whole (
        le_trans (size-write d (eol + 64) 64 region).1 (
          le_trans (size-write d' (4 + 4 * (k / 16)) 4 (byte_of (eol + 64))).0
            (size-write d'' 0 4 (byte_of (eol + 64 + 64))).0))

  -- The two words at the start.
  pub created_end : word_at (created name m p eol slot k s).disk.bytes 0 ≡ eol + 128
  created_end =
      word_at-store_in pointer_bytes 0 4 (byte_of (eol + 64 + 64)) 0 0 (omega arith) (omega arith)
      ∙ word_at-byte_of (eol + 64 + 64) (omega (arith, room.fits))
      ∙ omega arith

  pub created_region : word_at (created name m p eol slot k s).disk.bytes 4 ≡ eol + 64
  created_region =
      word_at-store_out pointer_bytes 0 4 (byte_of (eol + 64 + 64)) 4 (inr (omega arith))
      ∙ word_at-store_in region_bytes (4 + 4 * (k / 16)) 4 (byte_of (eol + 64)) 4 0
          (omega (arith, room.slot_low)) (omega arith)
      ∙ word_at-byte_of (eol + 64) (omega (arith, room.fits))

  -- A word behind the old end of the log, of the inode or of the region.
  word_behind :
      (a : ℕ)
      → 8 ≤ a
      → word_at (created name m p eol slot k s).disk.bytes a ≡ word_at region_bytes a
  word_behind a high =
      word_at-store_out pointer_bytes 0 4 (byte_of (eol + 64 + 64)) a (inr (omega arith))
      ∙ word_at-store_out region_bytes (4 + 4 * (k / 16)) 4 (byte_of (eol + 64)) a
          (inr (omega (arith, room.slot_low)))

  pub created_inode :
      (j : ℕ)
      → j < 16
      → inode_words (new_inode 1 eol s.junk) j < 2 ^ 32
      → word_at (created name m p eol slot k s).disk.bytes (eol + 4 * j)
        ≡ inode_words (new_inode 1 eol s.junk) j
  created_inode j low small =
      let (_, map_fits, _) = f.within in
      let (low_map, _) = f.behind in
      word_behind (eol + 4 * j) (omega arith)
      ∙ word_at-store_out (with_inode eol k (with_entry name p slot k s)).disk.bytes (eol + 64) 64
          (new_region m k eol (with_inode eol k (with_entry name p slot k s))) (eol + 4 * j)
          (inl (omega arith))
      ∙ word_at-store_in (with_entry name p slot k s).disk.bytes eol 64
          (int_bytes (inode_words (new_inode 1 eol s.junk))) (eol + 4 * j) (4 * j) refl
          (omega arith)
      ∙ word_at-int_bytes (inode_words (new_inode 1 eol s.junk)) j small

  -- The region of the map that is read, inside the image.
  region_word :
      (old : Bytes) (j : ℕ)
      → j < 16
      → word_at (read (with_inode eol k (with_entry name p slot k s)).disk m 64 old) (4 * j)
        ≡ word_at s.disk.bytes (m + 4 * j)
  region_word old j low =
      let d = (with_inode eol k (with_entry name p slot k s)).disk in
      let (_, map_fits, _) = f.within in
      let (_, grown) =
        size-write (with_entry name p slot k s).disk eol 64
          (int_bytes (inode_words (new_inode 1 eol s.junk))) in
      word_at-read d m 64 old (4 * j) (omega arith) (omega arith)
      ∙ word_at-kept s.disk d (m + 4 * j)
          λ a high less. inode_kept a (omega arith) (ground (arith, room.apart_map))

  new_region_word :
      (j : ℕ)
      → j < 16
      → word_at (new_region m k eol (with_inode eol k (with_entry name p slot k s))) (4 * j)
        ≡ (if j == k then eol else word_at s.disk.bytes (m + 4 * j))
  new_region_word j low =
      let w = with_inode eol k (with_entry name p slot k s) in
      elim (Bool-cases (j == k)) [
        | inl same ↦
            let at : j ≡ k = ground arith in
            rw same (
              word_at-store_in (read w.disk m 64 w.rbuf) (4 * (k % 16)) 4 (byte_of eol) (4 * j) 0
                (omega (arith, room.slot_low)) (omega arith)
              ∙ word_at-byte_of eol (omega (arith, room.fits)))
        | inr other ↦
            let apart : j ≢ k = ground arith in
            rw other (
              word_at-store_out (read w.disk m 64 w.rbuf) (4 * (k % 16)) 4 (byte_of eol) (4 * j)
                (ground (arith, room.slot_low))
              ∙ region_word w.rbuf j low)
      ]

  pub created_slot :
      (j : ℕ)
      → j < 16
      → word_at (created name m p eol slot k s).disk.bytes (eol + 64 + 4 * j)
        ≡ (if j == k then eol else word_at s.disk.bytes (m + 4 * j))
  created_slot j low =
      let (_, map_fits, _) = f.within in
      word_behind (eol + 64 + 4 * j) (omega arith)
      ∙ word_at-store_in (with_inode eol k (with_entry name p slot k s)).disk.bytes (eol + 64) 64
          (new_region m k eol (with_inode eol k (with_entry name p slot k s))) (eol + 64 + 4 * j)
          (4 * j) refl (omega arith)
      ∙ new_region_word j low
