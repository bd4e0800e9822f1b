-- ===== src/Mfs/Existing.antt =====
-- MFS_Creat_h of p5/MFS/server.c with a name that the directory has.
use bacon_eggs.Prelude.{
  ℕ, zero, suc, ◌+◌, ◌*◌, ◌/◌, ◌%◌, ◌≤◌, ◌<◌, ◌≡◌, refl, ap, ◌∙◌, true, false, some, arith,
  ltb-false, ltb, ◌==◌,
}
use bacon_eggs.Prelude.Int.{pos}
use bacon_eggs.Mfs.Disk.{Bytes, byte_of, word_at, write}
use bacon_eggs.Mfs.State.{Server, bind-some}
use bacon_eggs.Mfs.Utils.{
  getinode, load_inode, nextinum, free_inum, creatdirentry, creatdirentry_loop,
}
use bacon_eggs.Mfs.Names.{
  mfs_creat_h, creat_in, creat_loop, creat_inode, new_dir_block, write_inode, string_length,
}
use bacon_eggs.Mfs.Entries.{HasName, read-inum, read-name}
use bacon_eggs.Mfs.FileAt.{InodeAt, getinode-InodeAt}

creatdirentry_loop-HasName :
    (j k ptr : ℕ) (name : Bytes) (s : Server)
    → HasName s.disk name ptr j
    → j < k
    → ptr + 64 * suc j ≤ s.disk.size
    → creatdirentry_loop k ptr name s ≡ some (pos 1, s)
unfolding creatdirentry_loop
creatdirentry_loop-HasName j zero ptr name s has enough inside = absurd (omega arith)
creatdirentry_loop-HasName zero (suc k) ptr name s (same, used) enough inside =
    rw
      (
        read-name s.disk ptr s.junk name (omega arith),
        read-inum s.disk ptr s.junk (omega arith),
        same,
        used,
      )
      refl
creatdirentry_loop-HasName (suc j) (suc k) ptr name s (other, used, has) enough inside =
    rw
      (
        read-name s.disk ptr s.junk name (omega arith),
        read-inum s.disk ptr s.junk (omega arith),
        other,
        used,
      )
      (creatdirentry_loop-HasName j k (ptr + 64) name s has (omega arith) (omega arith))

-- The image with the number `k` over the last bytes of the end of the log.
abbrev pub overwritten : ℕ → Server → Server
overwritten k s = record s { disk = write s.disk 1 4 (byte_of k) }

nextinum-some :
    (k : ℕ) (s : Server) → free_inum s.disk s.junk 256 4 0 ≡ some k → nextinum s ≡ some (some k, s)
unfolding nextinum
nextinum-some k s free = ap (λ o. some (o, s)) free

creat_inode-overwritten :
    (i ty k : ℕ) (s : Server)
    → free_inum s.disk s.junk 256 4 0 ≡ some k
    → creat_inode (pos i) ty 1 s ≡ write_inode (pos i) ty k (overwritten k s)
unfolding creat_inode
creat_inode-overwritten i ty k s free = bind-some nextinum _ s (nextinum-some k s free)

pub new_dir_block-used :
    (p i : ℕ) (s : Server) → 0 < s.inode.data_ptrs i → new_dir_block p i s ≡ some (tt, s)
unfolding new_dir_block
new_dir_block-used p i s used =
    let held : s.inode.data_ptrs i == 0 ≡ false = ground arith in rw held refl

creatdirentry-HasName :
    (j ptr : ℕ) (name : Bytes) (s : Server)
    → HasName s.disk name ptr j
    → j < 64
    → ptr + 64 * suc j ≤ s.disk.size
    → creatdirentry ptr name s ≡ some (pos 1, s)
unfolding creatdirentry
creatdirentry-HasName j ptr name s has low inside =
    creatdirentry_loop-HasName j 64 ptr name s has low inside

creat_loop-HasName :
    (i ty p j : ℕ) (name : Bytes) (s : Server)
    → 0 < s.inode.data_ptrs 0
    → HasName s.disk name (s.inode.data_ptrs 0) j
    → j < 64
    → s.inode.data_ptrs 0 + 64 * suc j ≤ s.disk.size
    → creat_loop (pos i) ty p name 14 0 s ≡ creat_inode (pos i) ty 1 s
unfolding creat_loop
creat_loop-HasName i ty p j name s positive has enough inside =
    bind-some (new_dir_block p 0) _ s (new_dir_block-used p 0 s positive)
    ∙ bind-some (creatdirentry (s.inode.data_ptrs 0) name) _ s
        (creatdirentry-HasName j _ name s has enough inside)

-- The end of the log that the overwritten bytes make.
word-overwritten :
    (k : ℕ) (s : Server)
    → k < 256
    → 5 ≤ s.disk.size
    → word_at (overwritten k s).disk.bytes 0 ≡ s.disk.bytes 0 + 256 * k
word-overwritten k s small big =
    let h0 : k / 256 ≡ 0 = omega (arith, small) in
    let h1 : k % 256 ≡ k = omega (arith, small) in ground arith

creat_in-existing :
    (i ty p k j : ℕ) (name : Bytes) (s : Server)
    → s.inode.type ≡ 0
    → ty ≤ 1
    → string_length name 0 4096 ≤ 60
    → 0 < s.inode.data_ptrs 0
    → HasName s.disk name (s.inode.data_ptrs 0) j
    → j < 64
    → s.inode.data_ptrs 0 + 64 * suc j ≤ s.disk.size
    → free_inum s.disk s.junk 256 4 0 ≡ some k
    → creat_in (pos i) (pos ty) name p s ≡ write_inode (pos i) ty k (overwritten k s)
unfolding creat_in
creat_in-existing i ty p k j name s dir kind short used has low inside free =
    let directory : s.inode.type == 0 ≡ true = ap (λ x. x == 0) dir in
    let known : ltb 1 ty ≡ false = ltb-false 1 ty kind in
    let fits : ltb 60 (string_length name 0 4096) ≡ false = ltb-false 60 _ short in
    rw (directory, known, fits)
      (creat_loop-HasName i ty p j name s used has low inside
        ∙ creat_inode-overwritten i ty k s free)

-- The server with the inode at `p` loaded.
abbrev pub opened : ℕ → Server → Server
opened p s = record s { inode = load_inode s.disk s.junk p }

-- `MFS_Creat_h` of a name that directory `n` (below 16, found, of type 0) has in its first block,
-- before any entry that is not used, with a type of 0 or 1, a name of at most 60 bytes and a free
-- inode number `k` below 256: the call goes on as for a new name, after it has written `k` to the
-- bytes 1 to 4 of the image. The word at 0, where the end of the log is read next, is then the byte
-- at 0 plus 256 times `k`.
pub creat-existing :
    (s : Server) (name : Bytes) (n ty k j : ℕ) {m p eol : ℕ}
    → InodeAt s.disk n m p eol
    → (opened p s).inode.type ≡ 0
    → 0 < (opened p s).inode.data_ptrs 0
    → HasName s.disk name ((opened p s).inode.data_ptrs 0) j
    → j < 64
    → (opened p s).inode.data_ptrs 0 + 64 * suc j ≤ s.disk.size
    → string_length name 0 4096 ≤ 60
    → ty ≤ 1
    → free_inum s.disk s.junk 256 4 0 ≡ some k
    → k < 256
    → (mfs_creat_h (pos n) (pos ty) name s ≡ write_inode (pos n) ty k (overwritten k (opened p s)))
      × (word_at (overwritten k (opened p s)).disk.bytes 0 ≡ s.disk.bytes 0 + 256 * k)
unfolding mfs_creat_h
creat-existing s name n ty k j {m} {p} at dir used has low inside short kind free small =
    let (fits, _, file) = at.within in
    (
      bind-some (getinode (pos n)) _ s (getinode-InodeAt s n at)
          ∙ creat_in-existing n ty p k j name (opened p s) dir kind short used has low inside free,
      word-overwritten k (opened p s) small (omega arith),
    )
