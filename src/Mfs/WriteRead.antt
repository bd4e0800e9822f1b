-- ===== src/Mfs/WriteRead.antt =====
-- MFS_Write_h and MFS_Read_h of p5/MFS/server.c: what is written is read back.
use bacon_eggs.Prelude.{
  ℕ, suc, ◌+◌, ◌*◌, ◌^◌, ◌≤◌, ◌<◌, ◌≡◌, refl, ◌∙◌, ◌⊎◌, inl, inr, false, some, arith, ltb, ◌==◌,
  not,
}
use bacon_eggs.Prelude.Int.{pos}
use bacon_eggs.Mfs.Disk.{
  Bytes, byte_of, word_at, Disk, read, read_int, write, write_int, store, read_int-word_at,
  word_at-byte_of, word_at-store_out, word_at-store_in, store_in,
}
use bacon_eggs.Mfs.State.{minus_one_word, Server, Inode, int_bytes, inode_words, set_ptr, bind-some}
use bacon_eggs.Mfs.Utils.{getinode, load_inode, geteol, geteol_run}
use bacon_eggs.Mfs.Files.{mfs_write_h, mfs_read_h, write_file, write_block, read_file, sized}
use bacon_eggs.Mfs.FileAt.{InodeAt, getinode-InodeAt, word_at-int_bytes}

-- The bytes after the new block, and after the new end of the log.
abbrev with_block : (s : Server) (eol : ℕ) → Bytes → Bytes
with_block s eol buf = store s.disk.bytes eol 4096 buf

abbrev with_end : (s : Server) (eol : ℕ) → Bytes → Bytes
with_end s eol buf = store (with_block s eol buf) 0 4 (byte_of (eol + 4096))

read_file_run :
    (b q : ℕ) (s : Server)
    → ltb 13 b ≡ false
    → s.inode.data_ptrs b ≡ q
    → q == 0 ≡ false
    → read_file (pos b) s ≡ some (pos 0, record s { rbuf = read s.disk q 4096 s.rbuf })
unfolding read_file
read_file_run b q s valid ptr set = rw (valid, read_file, ptr, set) refl

-- A block that a pointer of the inode `n` leads to, inside the image.
pub read_block_lem :
    (t : Server) (n b : ℕ) {m p e q : ℕ}
    → InodeAt t.disk n m p e
    → (load_inode t.disk t.junk p).data_ptrs b ≡ q
    → 0 < q
    → b < 14
    → q + 4096 ≤ t.disk.size
    → (u : Server) × (mfs_read_h (pos n) (pos b) t ≡ some (pos 0, u))
      × ((a : ℕ) → a < 4096 → u.rbuf a ≡ t.disk.bytes (q + a))
unfolding mfs_read_h
read_block_lem t n b {m} {p} {e} {q} f ptr positive valid inside =
    let t' : Server = record t { inode = load_inode t.disk t.junk p } in
    (
      record t' { rbuf = read t.disk q 4096 t.rbuf },
      bind-some (getinode (pos n)) _ t (getinode-InodeAt t n f)
          ∙ read_file_run b q t' (ground arith) ptr (ground arith),
      λ a small. ground arith,
    )

-- The inode at `p` with block `b` at the end of the log, and the image that a write leaves.
abbrev grown : (s : Server) (p eol b : ℕ) → Inode
grown s p eol b = sized (set_ptr b eol (load_inode s.disk s.junk p))

abbrev image : (s : Server) (p eol b : ℕ) → Bytes → Disk
image s p eol b buf =
    write (write_int (write s.disk eol 4096 buf) 0 (eol + 4096)) p 64
      (int_bytes (inode_words (grown s p eol b)))

-- The server after the write.
abbrev pub written : (s : Server) (p eol b : ℕ) → Bytes → Server
written s p eol b buf = record s { disk = image s p eol b buf; inode = grown s p eol b }

write_file-write_block :
    (p b : ℕ) (buf : Bytes) (s : Server)
    → not (s.inode.type == 1) ≡ false
    → ltb 13 b ≡ false
    → write_file p buf (pos b) s ≡ write_block p buf b s
unfolding write_file
write_file-write_block p b buf s regular valid = rw (regular, valid) refl

write_block_run :
    (p eol b : ℕ) (buf : Bytes) (s : Server)
    → read_int s.disk 0 (word_at s.junk 0) ≡ eol
    → eol < 2 ^ 31
    → write_block p buf b s
      ≡ some (
        pos 0,
        record s {
          disk =
              write
                (write_int (write s.disk eol 4096 buf) 0 (eol + 4096))
                p
                64
                (int_bytes (inode_words (sized (set_ptr b eol s.inode))));
          inode = sized (set_ptr b eol s.inode);
        },
      )
unfolding write_block
write_block_run p eol b buf s end fits = bind-some geteol _ s (geteol_run s end fits)

module _ (s : Server) (n : ℕ) {m p eol : ℕ} (b : ℕ) (buf : Bytes) (f : InodeAt s.disk n m p eol)
    (regular : word_at s.disk.bytes (p + 4) ≡ 1) (valid : b < 14) (fits : eol < 2 ^ 31) where
  pub write_run : mfs_write_h (pos n) buf (pos b) s ≡ some (pos 0, written s p eol b buf)
  unfolding mfs_write_h
  write_run =
      let (inode_fits, map_fits, file) = f.within in
      let type : read_int s.disk (p + 4) minus_one_word ≡ 1 =
        read_int-word_at s.disk (p + 4) minus_one_word (omega arith) ∙ regular in
      let end : read_int s.disk 0 (word_at s.junk 0) ≡ eol =
        read_int-word_at s.disk 0 (word_at s.junk 0) (omega (arith, f.behind)) ∙ f.end in
      let s' : Server = record s { inode = load_inode s.disk s.junk p } in
      let one : not (s'.inode.type == 1) ≡ false = ground (arith, type) in
      let in_range : ltb 13 b ≡ false = ground arith in
      bind-some (getinode (pos n)) _ s (getinode-InodeAt s n f)
      ∙ write_file-write_block p b buf s' one in_range
      ∙ write_block_run p eol b buf s' end fits

  -- A word that is in none of the three writes.
  kept_word :
      (q : ℕ)
      → (q + 4 ≤ p) ⊎ (p + 64 ≤ q)
      → 4 ≤ q
      → q + 4 ≤ eol
      → word_at (image s p eol b buf).bytes q ≡ word_at s.disk.bytes q
  kept_word q apart high low =
      word_at-store_out (with_end s eol buf) p 64 (int_bytes (inode_words (grown s p eol b))) q
        apart
      ∙ word_at-store_out (with_block s eol buf) 0 4 (byte_of (eol + 4096)) q (inr high)
      ∙ word_at-store_out s.disk.bytes eol 4096 buf q (inl low)

  pub image-InodeAt : InodeAt (image s p eol b buf) n m p (eol + 4096)
  image-InodeAt =
      let (inode_fits, map_fits, file) = f.within in
      let (low_map, low_inode) = f.behind in
      record {
        below = f.below;
        end =
            word_at-store_out (with_end s eol buf) p 64 (int_bytes (inode_words (grown s p eol b)))
              0 (inl (omega arith))
            ∙ word_at-store_in (with_block s eol buf) 0 4 (byte_of (eol + 4096)) 0 0 (omega arith)
                (omega arith)
            ∙ word_at-byte_of (eol + 4096) (omega (arith, fits));
        region = kept_word 4 (inl (omega arith)) (omega arith) (omega arith) ∙ f.region;
        slot =
            kept_word (m + 4 * n) (ground (arith, f.apart, f.below)) (omega arith)
              (omega (arith, f.below))
            ∙ f.slot;
        within = (omega arith, omega arith, ground arith);
        behind = f.behind;
        apart = f.apart;
      }

  grown_ptr : (grown s p eol b).data_ptrs b ≡ eol
  unfolding sized
  grown_ptr = ground arith

  -- The word of the inode that a later call loads.
  loaded_ptr : (junk : Bytes) → (load_inode (image s p eol b buf) junk p).data_ptrs b ≡ eol
  loaded_ptr junk =
      let (inode_fits, map_fits, file) = f.within in
      read_int-word_at (image s p eol b buf) (p + 8 + 4 * b) _ (ground arith)
      ∙ word_at-store_in (with_end s eol buf) p 64 (int_bytes (inode_words (grown s p eol b)))
          (p + 8 + 4 * b) (4 * suc (suc b)) (omega arith) (omega arith)
      ∙ word_at-int_bytes (inode_words (grown s p eol b)) (suc (suc b)) (omega (arith, grown_ptr))
      ∙ grown_ptr

  -- The bytes of the block.
  image_block : (a : ℕ) → a < 4096 → (image s p eol b buf).bytes (eol + a) ≡ buf a
  image_block a low =
      let (inode_fits, map_fits, file) = f.within in
      let inside : (with_block s eol buf) (eol + a) ≡ buf a =
        store_in s.disk.bytes eol 4096 buf (eol + a) a refl low in
      ground (arith, f.behind)

  -- The read, whatever the message count is by then.
  pub read_written :
      (count : ℕ)
      → (u : Server) × (mfs_read_h
            (pos n)
            (pos b)
            (record (written s p eol b buf) { messagecount = count })
          ≡ some (pos 0, u))
        × ((a : ℕ) → a < 4096 → u.rbuf a ≡ buf a)
  read_written count =
      let (inode_fits, map_fits, file) = f.within in
      let (u, run, text) =
        read_block_lem (record (written s p eol b buf) { messagecount = count }) n b image-InodeAt
          (loaded_ptr s.junk) (omega (arith, f.behind)) valid (ground arith) in
      (u, run, λ a small. text a small ∙ image_block a small)

  -- A byte before the old end of the log.
  pub written_kept :
      (a : ℕ)
      → 4 ≤ a
      → a < eol
      → (a < p) ⊎ (p + 64 ≤ a)
      → (written s p eol b buf).disk.bytes a ≡ s.disk.bytes a
  written_kept a high low apart = ground (arith, apart, f.within)

module _ (s : Server) (n : ℕ) {m p eol : ℕ} (b : ℕ) (buf : Bytes) (f : InodeAt s.disk n m p eol)
    (regular : word_at s.disk.bytes (p + 4) ≡ 1) (valid : b < 14) (fits : eol + 4096 < 2 ^ 31) where
  -- In an image where the inode `n`, below 16, stands in its place and is that of a regular file, and
  -- with room for the log below 2^31: `MFS_Write_h` of a block below 14 returns 0, leaves the inode in its place,
  -- the end of the log 4096 further on, and every byte before the old end that is neither in that
  -- end's word nor in the inode; `MFS_Read_h` of the block then returns 0 with the 4096 bytes written.
  pub write-read :
      (t : Server) × (mfs_write_h (pos n) buf (pos b) s ≡ some (pos 0, t))
      × InodeAt t.disk n m p (eol + 4096)
      × ((a : ℕ) → 4 ≤ a → a < eol → (a < p) ⊎ (p + 64 ≤ a) → t.disk.bytes a ≡ s.disk.bytes a)
      × ((u : Server) × (mfs_read_h (pos n) (pos b) t ≡ some (pos 0, u))
          × ((a : ℕ) → a < 4096 → u.rbuf a ≡ buf a))
  write-read =
      let small : eol < 2 ^ 31 = omega (arith, fits) in
      (
        written s p eol b buf,
        write_run s n b buf f regular valid small,
        image-InodeAt s n b buf f regular valid small,
        written_kept s n b buf f regular valid small,
        read_written s n b buf f regular valid small s.messagecount,
      )
