-- ===== src/Mfs/CreateRun.antt =====
-- MFS_Creat_h of p5/MFS/server.c with a new name: the call runs through.
use bacon_eggs.Prelude.{ℕ, ◌+◌, ◌*◌, ◌/◌, ◌≤◌, ◌<◌, ◌≡◌, ap, ◌∙◌, ◌⊎◌, inl, false, some, arith}
use bacon_eggs.Prelude.Int.{pos}
use bacon_eggs.Mfs.Disk.{
  Bytes, byte_of, word_at, read, read_int, store_out, size-write, read_int-word_at, word_at-read,
}
use bacon_eggs.Mfs.State.{minus_one_word, Server, int_bytes, inode_words, bind-some}
use bacon_eggs.Mfs.Utils.{getinode, nextinum, creatdirentry}
use bacon_eggs.Mfs.Names.{new_inode, no_region, mfs_creat_h}
use bacon_eggs.Mfs.FileAt.{InodeAt, getinode-InodeAt}
use bacon_eggs.Mfs.Entries.{word_at-kept, creatdirentry-NoName}
use bacon_eggs.Mfs.FreeNumber.{FirstFree-kept, nextinum-FirstFree}
use bacon_eggs.Mfs.Existing.{opened}
use bacon_eggs.Mfs.Create.{named, with_inode, creat_in_run, creat_loop_run, creat_inode_run}
use bacon_eggs.Mfs.CreateImage.{Room, with_entry, created, entry_kept, inode_kept}

module _ (s : Server) (name : Bytes) {m p eol q i slot k n : ℕ} (f : InodeAt s.disk n m p eol)
    (room : Room s name m p eol q i slot k) (directory : word_at s.disk.bytes (p + 4) ≡ 0)
    (block : word_at s.disk.bytes (p + 8) ≡ q) where
  opened_type : (opened p s).inode.type ≡ 0
  opened_type =
      let (inode_fits, _, file) = f.within in
      read_int-word_at s.disk (p + 4) minus_one_word (omega arith) ∙ directory

  opened_ptr : (opened p s).inode.data_ptrs 0 ≡ q
  opened_ptr =
      let (inode_fits, _, file) = f.within in
      read_int-word_at s.disk (p + 8 + 4 * 0) _ (omega arith)
      ∙ ap (word_at s.disk.bytes) (omega arith)
      ∙ block

  entry_found :
      creatdirentry ((opened p s).inode.data_ptrs 0) name (opened p s)
      ≡ some (pos (slot + 60), named name slot (opened p s))
  entry_found =
      let (_, _, file) = f.within in
      ap (λ ptr. creatdirentry ptr name (opened p s)) opened_ptr
      ∙ creatdirentry-NoName i q slot name (opened p s) room.free_entry room.entry_low room.entry
          (omega (arith, room.inside))

  number_found :
      nextinum (named name slot (opened p s)) ≡ some (some k, named name slot (opened p s))
  number_found =
      let (_, map_fits, file) = f.within in
      let (low_map, _) = f.behind in
      let named_kept : (a : ℕ)
          → (a < slot) ⊎ (slot + 64 ≤ a)
          → (named name slot (opened p s)).disk.bytes a ≡ s.disk.bytes a =
        λ a apart. store_out s.disk.bytes slot 60 name a (ground (arith, apart)) in
      let (grown, _) = size-write s.disk slot 60 name in
      nextinum-FirstFree (named name slot (opened p s)) m k
        (read_int-word_at (named name slot (opened p s)).disk 4 _ (omega arith)
          ∙ word_at-kept s.disk (named name slot (opened p s)).disk 4
              (λ a high low. named_kept a (inl (omega (arith, room.entry, room.behind))))
          ∙ f.region)
        (omega arith)
        (FirstFree-kept s.disk (named name slot (opened p s)).disk m k
          (λ a high low. named_kept a (ground (arith, room.apart_map, room.slot_low)))
          room.free_slot)
        room.slot_low (omega (arith, room.slot_low))

  end_read : read_int (with_entry name p slot k s).disk 0 (word_at s.junk 0) ≡ eol
  end_read =
      let (_, map_fits, file) = f.within in
      let (grown, _) = size-write s.disk slot 60 name in
      let (grown', _) = size-write (named name slot s).disk (slot + 60) 4 (byte_of k) in
      read_int-word_at (with_entry name p slot k s).disk 0 _ (omega arith)
      ∙ word_at-kept s.disk (with_entry name p slot k s).disk 0
          (λ a high low. entry_kept s name f room a (inl (omega (arith, room.entry, room.behind))))
      ∙ f.end

  region_read : word_at (with_inode eol k (with_entry name p slot k s)).rbuf 0 ≡ m
  region_read =
      let d = (with_inode eol k (with_entry name p slot k s)).disk in
      let (_, map_fits, _) = f.within in
      let (low_map, _) = f.behind in
      let (_, grown) =
        size-write (with_entry name p slot k s).disk eol 64
          (int_bytes (inode_words (new_inode 1 eol s.junk))) in
      word_at-read d (4 + 4 * (k / 16)) 4 (read d eol 64 s.rbuf) 0 (omega arith)
        (omega (arith, room.slot_low))
      ∙ ap (word_at d.bytes) (omega (arith, room.slot_low))
      ∙ word_at-kept s.disk d 4 (λ a high low.
        inode_kept s name f room a (omega arith) (inl (omega (arith, room.entry, room.behind))))
      ∙ f.region

  region_valid : no_region m ≡ false
  region_valid =
      let (_, map_fits, _) = f.within in let (low_map, _) = f.behind in ground (arith, room.fits)

  pub creat_run : mfs_creat_h (pos n) (pos 1) name s ≡ some (pos 0, created name m p eol slot k s)
  unfolding mfs_creat_h
  creat_run =
      bind-some (getinode (pos n)) _ s (getinode-InodeAt s n f)
      ∙ creat_in_run n p name (opened p s) opened_type (omega (arith, room.short))
      ∙ creat_loop_run n p slot name (opened p s) (omega (arith, opened_ptr, room.behind))
          entry_found
      ∙ creat_inode_run n m k eol slot (named name slot (opened p s)) number_found end_read
          (omega (arith, room.fits)) region_read region_valid
