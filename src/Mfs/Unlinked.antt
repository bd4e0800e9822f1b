-- ===== src/Mfs/Unlinked.antt =====
-- MFS_Unlink_h of p5/MFS/server.c on a regular file: what is left of the directory's block.
use bacon_eggs.Prelude.{ℕ, ◌+◌, ◌-◌, ◌*◌, ◌≤◌, ◌<◌, ◌≡◌, refl, ap, ◌∙◌, ◌⊎◌, inl, inr, some, arith}
use bacon_eggs.Prelude.Int.{pos}
use bacon_eggs.Mfs.Disk.{
  Bytes, byte_of, word_at, read, store, store_in, store_out, word_at-store_in, word_at-byte_of,
  read_int-word_at, read_in,
}
use bacon_eggs.Mfs.State.{minus_one_word, Server, bind-some}
use bacon_eggs.Mfs.Utils.{getinode}
use bacon_eggs.Mfs.Unlink.{shift_down, blank_name, mfs_unlink_h}
use bacon_eggs.Mfs.Lookup.{inum_at}
use bacon_eggs.Mfs.FileAt.{InodeAt, getinode-InodeAt}
use bacon_eggs.Mfs.Entries.{HasName}
use bacon_eggs.Mfs.Existing.{opened}
use bacon_eggs.Mfs.Shift.{shift_down-before, shift_down-behind, shift_down-moved}
use bacon_eggs.Mfs.Removal.{marked, cut, removed, unlink_blocks_run}

module _ (s : Server) (name : Bytes) {n m p eol q k x pf : ℕ} (parent : InodeAt s.disk n m p eol)
    (ptr : word_at s.disk.bytes (p + 8) ≡ q) (positive : 0 < q) (inside : q + 4096 ≤ s.disk.size)
    (has : HasName s.disk name q k) (low : k < 63) (number : inum_at s.disk (q + 64 * k) ≡ x)
    (f : InodeAt s.disk x m pf eol) (regular : word_at s.disk.bytes (pf + 4) ≡ 1) where
  -- The server when the entry is found, and at the end.
  abbrev before : Server
  before = opened pf (record (opened p s) { rbuf = read s.disk q 4096 s.rbuf })

  unlink_run : mfs_unlink_h (pos n) name s ≡ some (pos 0, removed p k q before)
  unfolding mfs_unlink_h
  unlink_run =
      let (inode_fits, map_fits, file) = parent.within in
      let here : p + 8 + 4 * 0 ≡ p + 8 = omega arith in
      let loaded_ptr : (opened p s).inode.data_ptrs 0 ≡ q =
        read_int-word_at s.disk (p + 8 + 4 * 0) (word_at s.junk (4 * 0)) (omega arith)
        ∙ ap (word_at s.disk.bytes) here
        ∙ ptr in
      bind-some (getinode (pos n)) _ s (getinode-InodeAt s n parent)
      ∙ unlink_blocks_run p q k x m pf eol name (opened p s) loaded_ptr positive inside has
          (omega arith) number f regular ptr (omega arith)

  -- A byte of the block that is written, before it is written.
  block_byte : (a : ℕ) → a < 4096 → (removed p k q before).disk.bytes (q + a) ≡ cut p k before a
  block_byte a small = store_in s.disk.bytes q 4096 (cut p k before) (q + a) a refl small

  marked_byte :
      (a : ℕ)
      → a < 4096
      → (a < 64 * k) ⊎ (64 * k + 64 ≤ a)
      → marked k before.rbuf a ≡ s.disk.bytes (q + a)
  marked_byte a small apart =
      store_out (store before.rbuf (64 * k + 60) 4 (byte_of minus_one_word)) (64 * k) 2 blank_name a
        (ground (arith, apart))
      ∙ store_out before.rbuf (64 * k + 60) 4 (byte_of minus_one_word) a (ground (arith, apart))
      ∙ read_in s.disk q 4096 s.rbuf a (q + a) small inside refl

  cut_byte : (a : ℕ) → 64 ≤ a → cut p k before a ≡ shift_down (63 - k) k (marked k before.rbuf) a
  cut_byte a high = ground arith

  -- `MFS_Unlink_h` of a name that is entry `k`, below 63, of a directory's first block, which is inside the
  -- image, where the inodes of the directory and of the entry are below 16 and in their places and the
  -- entry's is that of a regular file, returns 0. In the block, the entries before it but the first stay,
  -- the entries behind it move down by one, the last stays, and the first entry is lost: it is the 64
  -- bytes of the directory's inode. No byte outside the block changes. In memory the word at offset 60
  -- behind `rbuf` becomes -1, which is taken to belong to no other variable.
  pub unlink_lem :
      (t : Server) × (mfs_unlink_h (pos n) name s ≡ some (pos 0, t))
      × ((a : ℕ) → 64 ≤ a → a < 64 * k → t.disk.bytes (q + a) ≡ s.disk.bytes (q + a))
      × ((a : ℕ)
          → 64 ≤ a
          → 64 * k ≤ a
          → a < 4032
          → t.disk.bytes (q + a) ≡ s.disk.bytes (q + (a + 64)))
      × ((a : ℕ) → 4032 ≤ a → a < 4096 → t.disk.bytes (q + a) ≡ s.disk.bytes (q + a))
      × ((a : ℕ) → a < 64 → t.disk.bytes (q + a) ≡ s.disk.bytes (p + a))
      × ((a : ℕ) → (a < q) ⊎ (q + 4096 ≤ a) → t.disk.bytes a ≡ s.disk.bytes a)
      × (word_at t.behind 60 ≡ minus_one_word)
      × ((a : ℕ) → (a < 60) ⊎ (64 ≤ a) → t.behind a ≡ s.behind a)
  unlink_lem =
      let rest : 64 * (k + (63 - k)) ≡ 4032 = omega arith in
      let (inode_fits, map_fits, file) = parent.within in
      (
        removed p k q before,
        unlink_run,
        λ a high small.
            block_byte a (omega arith)
            ∙ cut_byte a high
            ∙ shift_down-before (63 - k) k (marked k before.rbuf) a small
            ∙ marked_byte a (omega arith) (inl small),
        λ a high from to.
            block_byte a (omega arith)
            ∙ cut_byte a high
            ∙ shift_down-moved (63 - k) k (marked k before.rbuf) a from (omega arith)
            ∙ marked_byte (a + 64) (omega arith) (inr (omega arith)),
        λ a high small.
            block_byte a small
            ∙ cut_byte a (omega arith)
            ∙ shift_down-behind (63 - k) k (marked k before.rbuf) a (omega arith)
            ∙ marked_byte a small (inr (omega arith)),
        λ a small.
            block_byte a (omega arith)
            ∙ read_in s.disk p 64 (shift_down (63 - k) k (marked k before.rbuf)) a (p + a) small
                (omega arith) refl,
        λ a apart. store_out s.disk.bytes q 4096 (cut p k before) a apart,
        word_at-store_in s.behind 60 4 (byte_of minus_one_word) 60 0 refl (omega arith)
            ∙ word_at-byte_of minus_one_word (omega arith),
        λ a apart. store_out s.behind 60 4 (byte_of minus_one_word) a apart,
      )
