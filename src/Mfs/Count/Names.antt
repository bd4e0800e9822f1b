-- ===== src/Mfs/Count/Names.antt =====
-- MFS_Creat_h and MFS_Unlink_h of p5/MFS/server.c leave `messagecount` alone.
use bacon_eggs.Prelude.{
  Bool, true, false, some, Option, ℕ, zero, suc, ◌+◌, ◌*◌, ◌/◌, refl, ◌&&◌, not, some, ltb, ◌==◌,
}
use bacon_eggs.Prelude.Int.{ℤ, pos, negsuc, minus_one}
use bacon_eggs.Mfs.Disk.{Bytes, byte_of, read, word_at}
use bacon_eggs.Mfs.State.{Server, minus_one_word, word_int, int_bytes, inode_words, Call, return}
use bacon_eggs.Mfs.Utils.{
  geteol, writeblock, readblock, free_inum, same_string, getinode, creatdirentry,
  creatdirentry_loop, nextinum,
}
use bacon_eggs.Mfs.Names.{
  new_inode, string_length, write_imap, no_region, write_region, write_inode, creat_inode,
  new_dir_block, creat_loop, creat_in, mfs_creat_h, valid_type,
}
use bacon_eggs.Mfs.Unlink.{
  remove_entry, unlink_kind, unlink_found, unlink_entries, unlink_blocks, mfs_unlink_h,
}
use bacon_eggs.Mfs.Count.Rules.{
  geteol-Keeps, Stays, Keeps, Keeps-bind, Stays-if, Keeps-if, Stays-option, Keeps-option,
  Keeps-bool, getinode-Keeps,
}

pub creatdirentry_loop-Keeps : (k tptr : ℕ) (name : Bytes) → Keeps (creatdirentry_loop k tptr name)
unfolding creatdirentry_loop
creatdirentry_loop-Keeps zero tptr name s = refl
creatdirentry_loop-Keeps (suc k) tptr name s =
    let testing = read s.disk tptr 64 s.junk in
    let free = word_at testing 60 == minus_one_word in
    Stays-if (same_string testing name 0 64 && not free) _ _ s.messagecount refl
      (Stays-if free _ _ s.messagecount refl (creatdirentry_loop-Keeps k (tptr + 64) name s))

pub write_imap-Keeps : (newinum inodeptr eol : ℕ) → Keeps (write_imap newinum inodeptr eol)
unfolding write_imap
write_imap-Keeps newinum inodeptr eol s =
    elim (no_region (word_at s.rbuf 0))
      as (λ b.
        Stays
          (elim b as (λ _. Option (ℤ × Server)) [
            | true ↦ some (minus_one, s)
            | false ↦ write_region (word_at s.rbuf 0) newinum inodeptr eol s
          ])
          s.messagecount) [ true ↦ refl | false ↦ refl ]

pub write_inode-Keeps : (pinum : ℤ) (type newinum : ℕ) → Keeps (write_inode pinum type newinum)
unfolding write_inode
write_inode-Keeps pinum type newinum = Keeps-bind geteol _ geteol-Keeps λ eol s.
    let temp = int_bytes (inode_words (new_inode type eol s.junk)) in
    Keeps-bind _ _ (Keeps-bool (type == 0) _ _ (λ t. refl) λ t. refl)
      (λ inodeptr.
        Keeps-bind (writeblock inodeptr temp 64) _ (λ t. refl)
          λ eol'.
            Keeps-bind (readblock inodeptr 64) _ (λ t. refl)
              λ _.
                Keeps-bind (readblock (4 + 4 * (newinum / 16)) 4) _ (λ t. refl)
                  λ _. write_imap-Keeps newinum inodeptr eol')
      s

pub creat_inode-Keeps : (pinum : ℤ) (type check : ℕ) → Keeps (creat_inode pinum type check)
unfolding creat_inode nextinum
creat_inode-Keeps pinum type check s =
    Keeps-option (free_inum s.disk s.junk 256 4 0) _ _ (λ t. refl)
      (λ n.
        Keeps-bind (writeblock check (byte_of n) 4) _ (λ t. refl)
          λ _. write_inode-Keeps pinum type n)
      s

pub new_dir_block-Keeps : (inodeptr i : ℕ) → Keeps (new_dir_block inodeptr i)
unfolding new_dir_block
new_dir_block-Keeps inodeptr i s =
    Stays-if (s.inode.data_ptrs i == 0) _ _ s.messagecount
      (Keeps-bind geteol _ geteol-Keeps (λ teol t. refl) s) refl

pub Keeps-int :
    {A : Type 0} (n : ℤ) (m k : ℕ → Call A)
    → ((i : ℕ) → Keeps (m i))
    → ((i : ℕ) → Keeps (k i))
    → Keeps (elim n as (λ _. Call A) [ negsuc i ↦ m i | pos i ↦ k i ])
Keeps-int (pos i) m k l r = r i
Keeps-int (negsuc i) m k l r = l i

pub creat_loop-Keeps :
    (pinum : ℤ) (type inodeptr : ℕ) (name : Bytes) (k i : ℕ)
    → Keeps (creat_loop pinum type inodeptr name k i)
unfolding creat_loop creatdirentry
creat_loop-Keeps pinum type inodeptr name zero i s = refl
creat_loop-Keeps pinum type inodeptr name (suc k) i s =
    Keeps-bind (new_dir_block inodeptr i) _ (new_dir_block-Keeps inodeptr i)
      (λ _ t.
        Keeps-bind (creatdirentry_loop 64 (t.inode.data_ptrs i) name) _
          (creatdirentry_loop-Keeps 64 (t.inode.data_ptrs i) name)
          (λ check.
            Keeps-int check _ _ (λ _. creat_loop-Keeps pinum type inodeptr name k (suc i))
              λ n. Keeps-if (n == 0) _ _ (λ u. refl) (creat_inode-Keeps pinum type n))
          t)
      s

pub mfs_creat_h-Keeps : (pinum type : ℤ) (name : Bytes) → Keeps (mfs_creat_h pinum type name)
unfolding mfs_creat_h creat_in
mfs_creat_h-Keeps pinum type name = Keeps-bind (getinode pinum) _ (getinode-Keeps pinum) λ found.
    Keeps-option found _ _ (λ t. refl)
      λ p t. Stays-if (not (t.inode.type == 0)) _ _ t.messagecount refl (
        Stays-option (valid_type type) _ _ t.messagecount refl λ ty.
          Stays-if (ltb 60 (string_length name 0 4096)) _ _ t.messagecount refl
            (creat_loop-Keeps pinum ty p name 14 0 t))

unlink_kind-Keeps :
    (directory : Bool) (ptr pinum_ptr i k : ℕ) → Keeps (unlink_kind directory ptr pinum_ptr i k)
unfolding unlink_kind remove_entry
unlink_kind-Keeps false ptr pinum_ptr i k = λ u. refl
unlink_kind-Keeps true ptr pinum_ptr i k =
    Keeps-bind (readblock ptr 192) _ (λ u. refl)
      λ _ v.
        Keeps-bool (word_at v.rbuf 188 == minus_one_word) (remove_entry pinum_ptr i k)
          (return minus_one) (λ w. refl) (λ w. refl) v

pub unlink_found-Keeps : (pinum_ptr i k : ℕ) → Keeps (unlink_found pinum_ptr i k)
unfolding unlink_found
unlink_found-Keeps pinum_ptr i k s =
    Keeps-bind (getinode (word_int (word_at s.rbuf (64 * k + 60)))) _ (getinode-Keeps _)
      (λ found t.
        Keeps-option found _ _ (λ u. refl)
          (λ p. unlink_kind-Keeps (t.inode.type == 0) (t.inode.data_ptrs 0) pinum_ptr i k) t)
      s

pub unlink_entries-Keeps :
    (pinum_ptr i left k : ℕ) (name : Bytes) → Keeps (unlink_entries pinum_ptr i left k name)
unfolding unlink_entries
unlink_entries-Keeps pinum_ptr i zero k name s = tt
unlink_entries-Keeps pinum_ptr i (suc left) k name s =
    Stays-if (word_at s.rbuf (64 * k + 60) == minus_one_word) _ _ s.messagecount refl (
      Stays-if (same_string (λ a. s.rbuf (64 * k + a)) name 0 64) _ _ s.messagecount
        (Keeps-bind (unlink_found pinum_ptr i k) (λ r. return (some r))
          (unlink_found-Keeps pinum_ptr i k) (λ r t. refl) s)
        (unlink_entries-Keeps pinum_ptr i left (suc k) name s))

pub unlink_blocks-Keeps :
    (pinum_ptr : ℕ) (name : Bytes) (k i : ℕ) → Keeps (unlink_blocks pinum_ptr name k i)
unfolding unlink_blocks
unlink_blocks-Keeps pinum_ptr name zero i s = tt
unlink_blocks-Keeps pinum_ptr name (suc k) i s =
    Stays-if (s.inode.data_ptrs i == 0) _ _ s.messagecount refl (
      Keeps-bind _ _
        (Keeps-bind (readblock (s.inode.data_ptrs i) 4096) _ (λ t. refl)
          λ _. unlink_entries-Keeps pinum_ptr i 64 0 name)
        (λ found. Keeps-option found _ _ (unlink_blocks-Keeps pinum_ptr name k (suc i)) λ r t. refl)
        s)

pub mfs_unlink_h-Keeps : (pinum : ℤ) (name : Bytes) → Keeps (mfs_unlink_h pinum name)
unfolding mfs_unlink_h
mfs_unlink_h-Keeps pinum name =
    Keeps-bind (getinode pinum) _ (getinode-Keeps pinum)
      λ found. Keeps-option found _ _ (λ t. refl) λ p. unlink_blocks-Keeps p name 14 0
