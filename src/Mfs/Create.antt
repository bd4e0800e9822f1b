-- ===== src/Mfs/Create.antt =====
-- MFS_Creat_h of p5/MFS/server.c with a new name in a directory's first block, step by step: the
-- server that each step leaves.
use bacon_eggs.Prelude.{
  ◌^◌, ℕ, ◌+◌, ◌*◌, ◌/◌, ◌%◌, ◌≤◌, ◌<◌, ◌≡◌, refl, ap, ◌∙◌, Bool, Option, true, false, some, arith,
  ltb-false, ltb, ◌==◌,
}
use bacon_eggs.Prelude.Int.{ℤ, pos, minus_one}
use bacon_eggs.Mfs.Disk.{Bytes, byte_of, word_at, read, read_int, write, store}
use bacon_eggs.Mfs.State.{Server, int_bytes, inode_words, bind-some}
use bacon_eggs.Mfs.Utils.{geteol, geteol_run, nextinum, creatdirentry}
use bacon_eggs.Mfs.Names.{
  creat_in, creat_loop, creat_inode, new_dir_block, write_inode, write_imap, write_region,
  no_region, new_inode, string_length,
}
use bacon_eggs.Mfs.Existing.{new_dir_block-used}

-- The name is in the entry at `slot`, and then its number.
abbrev pub named : Bytes → (slot : ℕ) → Server → Server
named name slot s = record s { disk = write s.disk slot 60 name }

abbrev pub numbered : (slot k : ℕ) → Server → Server
numbered slot k s = record s { disk = write s.disk (slot + 60) 4 (byte_of k) }

-- The inode of a regular file is at the end of the log, and `rbuf` has the word of the map's region.
abbrev pub with_inode : (eol k : ℕ) → Server → Server
with_inode eol k s =
    let d = write s.disk eol 64 (int_bytes (inode_words (new_inode 1 eol s.junk))) in
    record s { disk = d; rbuf = read d (4 + 4 * (k / 16)) 4 (read d eol 64 s.rbuf) }

-- The region of the inode map with the new slot.
abbrev pub new_region : (m k eol : ℕ) → Server → Bytes
new_region m k eol s = store (read s.disk m 64 s.rbuf) (4 * (k % 16)) 4 (byte_of eol)

-- The region behind the inode, and the words that lead to it and to the new end.
abbrev pub with_map : (m k eol : ℕ) → Server → Server
with_map m k eol s = record s {
  disk =
      write
        (write (write s.disk (eol + 64) 64 (new_region m k eol s)) (4 + 4 * (k / 16)) 4
          (byte_of (eol + 64)))
        0 4 (byte_of (eol + 64 + 64));
  rbuf = new_region m k eol s;
}

write_imap_run :
    (m k eol : ℕ) (s : Server)
    → word_at s.rbuf 0 ≡ m
    → no_region m ≡ false
    → write_imap k eol (eol + 64) s ≡ some (pos 0, with_map m k eol s)
unfolding write_imap
write_imap_run m k eol s region valid =
    ap
      (λ (w : ℕ). elim (no_region w) as (λ _. Option (ℤ × Server)) [
        | true ↦ some (minus_one, s)
        | false ↦ write_region w k eol (eol + 64) s
      ])
      region
    ∙ ap
        (λ (b : Bool). elim b as (λ _. Option (ℤ × Server)) [
          | true ↦ some (minus_one, s)
          | false ↦ write_region m k eol (eol + 64) s
        ])
        valid

write_inode_run :
    (n m k eol : ℕ) (s : Server)
    → read_int s.disk 0 (word_at s.junk 0) ≡ eol
    → eol < 2 ^ 31
    → word_at (with_inode eol k s).rbuf 0 ≡ m
    → no_region m ≡ false
    → write_inode (pos n) 1 k s ≡ some (pos 0, with_map m k eol (with_inode eol k s))
unfolding write_inode
write_inode_run n m k eol s end small region valid =
    bind-some geteol _ s (geteol_run s end small)
    ∙ write_imap_run m k eol (with_inode eol k s) region valid

pub creat_inode_run :
    (n m k eol slot : ℕ) (s : Server)
    → nextinum s ≡ some (some k, s)
    → read_int (numbered slot k s).disk 0 (word_at s.junk 0) ≡ eol
    → eol < 2 ^ 31
    → word_at (with_inode eol k (numbered slot k s)).rbuf 0 ≡ m
    → no_region m ≡ false
    → creat_inode (pos n) 1 (slot + 60) s
      ≡ some (pos 0, with_map m k eol (with_inode eol k (numbered slot k s)))
unfolding creat_inode
creat_inode_run n m k eol slot s free end small region valid =
    bind-some nextinum _ s free
    ∙ write_inode_run n m k eol (numbered slot k s) end small region valid

pub creat_loop_run :
    (n p slot : ℕ) (name : Bytes) (s : Server)
    → 0 < s.inode.data_ptrs 0
    → creatdirentry (s.inode.data_ptrs 0) name s ≡ some (pos (slot + 60), named name slot s)
    → creat_loop (pos n) 1 p name 14 0 s ≡ creat_inode (pos n) 1 (slot + 60) (named name slot s)
unfolding creat_loop
creat_loop_run n p slot name s used entry =
    let somewhere : slot + 60 == 0 ≡ false = ground arith in
    bind-some (new_dir_block p 0) _ s (new_dir_block-used p 0 s used)
    ∙ bind-some (creatdirentry (s.inode.data_ptrs 0) name) _ s entry
    ∙ rw somewhere refl

pub creat_in_run :
    (n p : ℕ) (name : Bytes) (s : Server)
    → s.inode.type ≡ 0
    → string_length name 0 4096 ≤ 60
    → creat_in (pos n) (pos 1) name p s ≡ creat_loop (pos n) 1 p name 14 0 s
unfolding creat_in
creat_in_run n p name s dir short =
    let directory : s.inode.type == 0 ≡ true = ap (λ x. x == 0) dir in
    let fits : ltb 60 (string_length name 0 4096) ≡ false = ltb-false 60 _ short in
    rw (directory, fits) refl
