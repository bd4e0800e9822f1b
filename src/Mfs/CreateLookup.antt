-- ===== src/Mfs/CreateLookup.antt =====
-- MFS_Creat_h of p5/MFS/server.c with a new name: the file is there afterwards.
use bacon_eggs.Prelude.{
  ℕ, ◌+◌, ◌*◌, ◌^◌, ◌≤◌, ◌<◌, ◌≡◌, refl, sym, ap, ◌∙◌, ◌⊎◌, inl, inr, true, false, some, arith,
  ◌==◌, Bool-cases,
}
use bacon_eggs.Prelude.Int.{pos}
use bacon_eggs.Mfs.Disk.{
  Bytes, byte_of, word_at, read_int, store_in, store_out, word_at-store_in, word_at-byte_of,
  read_int-word_at,
}
use bacon_eggs.Mfs.State.{minus_one_word, Server, inode_words}
use bacon_eggs.Mfs.Utils.{same_string}
use bacon_eggs.Mfs.Files.{mfs_lookup_h, mfs_stat_h}
use bacon_eggs.Mfs.Names.{new_inode, mfs_creat_h}
use bacon_eggs.Mfs.Lookup.{entry_at, inum_at}
use bacon_eggs.Mfs.FileAt.{InodeAt}
use bacon_eggs.Mfs.Entries.{
  HasName, NoName-HasName, same_string-copy, word_at-kept, inum_at-word, small-not_minus_one,
}
use bacon_eggs.Mfs.FreeNumber.{FirstFree-end}
use bacon_eggs.Mfs.Found.{lookup-HasName, mfs_stat_h_lem}
use bacon_eggs.Mfs.Existing.{opened}
use bacon_eggs.Mfs.Create.{named}
use bacon_eggs.Mfs.CreateRun.{creat_run}
use bacon_eggs.Mfs.CreateImage.{
  Room, with_entry, created, created_kept, created_entry, created_end, created_region,
  created_inode, created_slot, created_size,
}

module _ (s : Server) (name : Bytes) {m p eol q i slot k n : ℕ} (f : InodeAt s.disk n m p eol)
    (room : Room s name m p eol q i slot k) (directory : word_at s.disk.bytes (p + 4) ≡ 0)
    (block : word_at s.disk.bytes (p + 8) ≡ q) where
  -- The new parts stand in their places, for any inode `j` of the region.
  created-InodeAt :
      (j o : ℕ)
      → j < 16
      → word_at (created name m p eol slot k s).disk.bytes (eol + 64 + 4 * j) ≡ o
      → 8 ≤ o
      → o ≤ eol
      → o + 64 ≤ eol + 64
      → InodeAt (created name m p eol slot k s).disk j (eol + 64) o (eol + 128)
  created-InodeAt j o low at behind inside within =
      let (_, map_fits, _) = f.within in
      let (low_map, _) = f.behind in
      record {
        below = low;
        end = created_end s name f room;
        region = created_region s name f room;
        slot = at;
        within = (omega arith, omega arith, created_size s name f room);
        behind = (omega arith, behind);
        apart = inl within;
      }

  -- The directory's slot is not the one that was free.
  slot_apart : n == k ≡ false
  slot_apart = elim (Bool-cases (n == k)) [
    | inl same ↦
        let at : n ≡ k = ground arith in
        let free = FirstFree-end s.disk m k room.free_slot in
        let used : word_at s.disk.bytes (m + 4 * k) ≡ p =
          ap (λ j. word_at s.disk.bytes (m + 4 * j)) (sym at) ∙ f.slot in
        let (_, low_inode) = f.behind in absurd (omega arith)
    | inr other ↦ other
  ]

  pub directory-InodeAt : InodeAt (created name m p eol slot k s).disk n (eol + 64) p (eol + 128)
  directory-InodeAt =
      let (inode_fits, _, _) = f.within in
      let (_, low_inode) = f.behind in
      created-InodeAt n p f.below (created_slot s name f room n f.below ∙ rw slot_apart f.slot)
        low_inode (omega arith) (omega arith)

  pub file-InodeAt : InodeAt (created name m p eol slot k s).disk k (eol + 64) eol (eol + 128)
  file-InodeAt =
      let (_, map_fits, _) = f.within in
      let (low_map, _) = f.behind in
      let same : k == k ≡ true = ground arith in
      created-InodeAt k eol room.slot_low
        (created_slot s name f room k room.slot_low ∙ rw same refl) (omega arith) (omega arith)
        (omega arith)

  -- The new entry.
  pub entry_inum : inum_at (created name m p eol slot k s).disk slot ≡ k
  entry_inum =
      inum_at-word (created name m p eol slot k s).disk slot
      ∙ word_at-kept (with_entry name p slot k s).disk (created name m p eol slot k s).disk
          (slot + 60)
          (λ a high low.
            created_entry s name f room a (omega (arith, room.entry, room.behind))
              (omega (arith, room.inside)))
      ∙ word_at-store_in (named name slot s).disk.bytes (slot + 60) 4 (byte_of k) (slot + 60) 0
          (omega arith) (omega arith)
      ∙ word_at-byte_of k (omega (arith, room.slot_low))

  entry_name : same_string (entry_at (created name m p eol slot k s).disk slot) name 0 64 ≡ true
  entry_name =
      same_string-copy (entry_at (created name m p eol slot k s).disk slot) name 0 4096 60 64
        room.short (omega arith) (omega arith)
        λ a low.
          created_entry s name f room (slot + a) (omega (arith, room.entry, room.behind))
            (omega (arith, room.inside))
          ∙ store_out (named name slot s).disk.bytes (slot + 60) 4 (byte_of k) (slot + a)
              (inl (omega arith))
          ∙ store_in s.disk.bytes slot 60 name (slot + a) a refl (omega arith)

  pub created-HasName : HasName (created name m p eol slot k s).disk name q i
  created-HasName =
      NoName-HasName s.disk (created name m p eol slot k s).disk name q i slot room.free_entry
        room.entry
        (λ a high low.
          created_kept s name f room a (omega (arith, room.behind)) (omega (arith, room.inside))
            (inl low))
        entry_name (small-not_minus_one _ k entry_inum room.slot_low)

  -- The inode of the file is new: a regular file of size 0.
  file_word :
      (j : ℕ) (old : ℕ)
      → j < 16
      → inode_words (new_inode 1 eol s.junk) j < 2 ^ 32
      → read_int (created name m p eol slot k s).disk (eol + 4 * j) old
        ≡ inode_words (new_inode 1 eol s.junk) j
  file_word j old low small =
      let big = created_size s name f room in
      read_int-word_at (created name m p eol slot k s).disk (eol + 4 * j) old (omega arith)
      ∙ created_inode s name f room j low small

  created_stat :
      (v : Server) × (mfs_stat_h (pos k) (created name m p eol slot k s) ≡ some (pos 0, v))
      × (v.stat ≡ (1, 0))
  created_stat =
      let t = created name m p eol slot k s in
      let size : (opened eol t).inode.size ≡ 0 =
        ap (λ x. read_int t.disk x minus_one_word) (omega arith)
        ∙ file_word 0 minus_one_word (omega arith) (omega arith) in
      let type : (opened eol t).inode.type ≡ 1 =
        file_word 1 minus_one_word (omega arith) (omega arith) in
      (
        record (opened eol t) { stat = ((opened eol t).inode.type, (opened eol t).inode.size) },
        mfs_stat_h_lem t k file-InodeAt,
        ap (λ x. (x, (opened eol t).inode.size)) type ∙ ap (λ x. (1, x)) size,
      )

  pub directory_block : word_at (created name m p eol slot k s).disk.bytes (p + 8) ≡ q
  directory_block =
      let t = created name m p eol slot k s in
      let (inode_fits, _, _) = f.within in
      let (_, low_inode) = f.behind in
      word_at-kept s.disk t.disk (p + 8) (λ a high low.
        created_kept s name f room a (omega arith) (omega arith) (ground (arith, room.apart_inode)))
      ∙ block

  directory_ptr : (opened p (created name m p eol slot k s)).inode.data_ptrs 0 ≡ q
  directory_ptr =
      let t = created name m p eol slot k s in
      let (inode_fits, _, _) = f.within in
      let big = created_size s name f room in
      let here : p + 8 + 4 * 0 ≡ p + 8 = omega arith in
      read_int-word_at t.disk (p + 8 + 4 * 0) (word_at s.junk (4 * 0)) (omega arith)
      ∙ ap (word_at t.disk.bytes) here
      ∙ directory_block

  created_lookup :
      (u : Server) × (mfs_lookup_h (pos n) name (created name m p eol slot k s) ≡ some (some k, u))
  created_lookup =
      let t = created name m p eol slot k s in
      let big = created_size s name f room in
      let (e, run) =
        lookup-HasName t n i q slot name directory-InodeAt directory_ptr
          (omega (arith, room.behind)) room.entry (omega (arith, room.inside)) created-HasName in
      let u : Server = record (opened p t) { entry = e } in
      (u, run ∙ ap (λ w. some (some w, u)) entry_inum)

  -- In an image with room for the name, in the directory `n` (below 16, in its place, of type 0 and with a
  -- block): `MFS_Creat_h` of a regular file returns 0. The directory and the new file, whose number is
  -- the free one, then stand in their places, `MFS_Lookup_h` of the name in the directory answers that
  -- number, and `MFS_Stat_h` of it answers a regular file of size 0. Every other byte of the old log
  -- but the first 8 stays as it is.
  pub creat-lookup :
      (t : Server) × (mfs_creat_h (pos n) (pos 1) name s ≡ some (pos 0, t))
      × InodeAt t.disk n (eol + 64) p (eol + 128)
      × InodeAt t.disk k (eol + 64) eol (eol + 128)
      × ((u : Server) × (mfs_lookup_h (pos n) name t ≡ some (some k, u)))
      × ((v : Server) × (mfs_stat_h (pos k) t ≡ some (pos 0, v)) × (v.stat ≡ (1, 0)))
      × ((a : ℕ) → 8 ≤ a → a < eol → (a < slot) ⊎ (slot + 64 ≤ a) → t.disk.bytes a ≡ s.disk.bytes a)
  creat-lookup = (
    created name m p eol slot k s,
    creat_run s name f room directory block,
    directory-InodeAt,
    file-InodeAt,
    created_lookup,
    created_stat,
    λ a high low apart. created_kept s name f room a high low apart,
  )
