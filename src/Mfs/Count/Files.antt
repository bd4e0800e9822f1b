-- ===== src/Mfs/Count/Files.antt =====
-- MFS_Lookup_h, MFS_Stat_h, MFS_Write_h and MFS_Read_h of p5/MFS/server.c leave `messagecount` alone.
use bacon_eggs.Prelude.{ℕ, zero, suc, ◌+◌, refl, not, ◌==◌}
use bacon_eggs.Prelude.Int.{ℤ}
use bacon_eggs.Mfs.Disk.{Bytes, word_at}
use bacon_eggs.Mfs.State.{minus_one_word}
use bacon_eggs.Mfs.Utils.{geteol, same_string, getinode, getentry}
use bacon_eggs.Mfs.Files.{
  lookup_entries, lookup_blocks, mfs_lookup_h, mfs_stat_h, write_block, write_file, mfs_write_h,
  read_file, mfs_read_h, valid_block,
}
use bacon_eggs.Mfs.Count.Rules.{
  geteol-Keeps, Keeps, Keeps-bind, Stays-if, Stays-option, Keeps-option, getinode-Keeps,
}

pub lookup_entries-Keeps : (fuel ptr : ℕ) (name : Bytes) → Keeps (lookup_entries fuel ptr name)
unfolding lookup_entries
lookup_entries-Keeps zero ptr name s = tt
lookup_entries-Keeps (suc fuel) ptr name s =
    Stays-if (word_at s.entry 60 == minus_one_word) _ _ s.messagecount refl (
      Stays-if (same_string s.entry name 0 64) _ _ s.messagecount refl (
        Keeps-bind (getentry (ptr + 64)) (λ _. lookup_entries fuel (ptr + 64) name) (λ t. refl)
          (λ _. lookup_entries-Keeps fuel (ptr + 64) name) s))

pub lookup_blocks-Keeps : (k i : ℕ) (name : Bytes) → Keeps (lookup_blocks k i name)
unfolding lookup_blocks
lookup_blocks-Keeps zero i name s = tt
lookup_blocks-Keeps (suc k) i name s = Stays-if (s.inode.data_ptrs i == 0) _ _ s.messagecount refl (
    Keeps-bind _ _
      (Keeps-bind (getentry (s.inode.data_ptrs i)) _ (λ t. refl)
        λ _. lookup_entries-Keeps (suc s.disk.size) (s.inode.data_ptrs i) name)
      (λ found. Keeps-option found _ _ (lookup_blocks-Keeps k (suc i) name) λ inum t. refl) s)

pub mfs_lookup_h-Keeps : (pinum : ℤ) (name : Bytes) → Keeps (mfs_lookup_h pinum name)
unfolding mfs_lookup_h
mfs_lookup_h-Keeps pinum name =
    Keeps-bind (getinode pinum) _ (getinode-Keeps pinum) λ _. lookup_blocks-Keeps 14 0 name

pub mfs_stat_h-Keeps : (inum : ℤ) → Keeps (mfs_stat_h inum)
unfolding mfs_stat_h
mfs_stat_h-Keeps inum =
    Keeps-bind (getinode inum) _ (getinode-Keeps inum)
      λ found. Keeps-option found _ _ (λ t. refl) λ p t. refl

pub write_file-Keeps :
    (inodeptr : ℕ) (buf : Bytes) (block : ℤ) → Keeps (write_file inodeptr buf block)
unfolding write_file write_block
write_file-Keeps inodeptr buf block s = Stays-if (not (s.inode.type == 1)) _ _ s.messagecount refl (
    Stays-option (valid_block block) _ _ s.messagecount refl
      λ b. Keeps-bind geteol _ geteol-Keeps (λ eol t. refl) s)

pub mfs_write_h-Keeps : (inum : ℤ) (buf : Bytes) (block : ℤ) → Keeps (mfs_write_h inum buf block)
unfolding mfs_write_h
mfs_write_h-Keeps inum buf block =
    Keeps-bind (getinode inum) _ (getinode-Keeps inum)
      λ found. Keeps-option found _ _ (λ t. refl) λ p. write_file-Keeps p buf block

pub read_file-Keeps : (block : ℤ) → Keeps (read_file block)
unfolding read_file
read_file-Keeps block s =
    Stays-option (valid_block block) _ _ s.messagecount refl
      λ b. Stays-if (s.inode.data_ptrs b == 0) _ _ s.messagecount refl refl

pub mfs_read_h-Keeps : (inum block : ℤ) → Keeps (mfs_read_h inum block)
unfolding mfs_read_h
mfs_read_h-Keeps inum block =
    Keeps-bind (getinode inum) _ (getinode-Keeps inum)
      λ found. Keeps-option found _ _ (λ t. refl) λ p. read_file-Keeps block
