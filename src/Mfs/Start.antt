-- ===== src/Mfs/Start.antt =====
-- `startfs` of p5/MFS/server_utils.c: the image that the server starts with.
use bacon_eggs.Prelude.{
  ◌≡◌, refl, ◌∙◌, ap, inr, Bool, ◌&&◌, ◌||◌, none, some, arith, ◌==◌, if◌then◌else◌,
}
use bacon_eggs.Prelude.Int.{pos}
use bacon_eggs.Mfs.Disk.{Bytes}
use bacon_eggs.Mfs.State.{Server}
use bacon_eggs.Mfs.Utils.{startfs, clear_entries, same_string, load_inode, free_inum, nextinum}
use bacon_eggs.Mfs.Files.{mfs_lookup_h}
use bacon_eggs.Mfs.FileAt.{InodeAt}
use bacon_eggs.Mfs.Lookup.{DirectoryAt, search_entries, lookup_lem}

-- The strings "." and "..".
abbrev pub is_dot : Bytes → Bool
is_dot name = name 0 == b'.' && name 1 == 0

abbrev pub is_dot_dot : Bytes → Bool
is_dot_dot name = name 0 == b'.' && (name 1 == b'.' && name 2 == 0)

pub start-InodeAt : (junk : Bytes) → InodeAt (startfs junk) 0 1028 1092 5252
unfolding startfs clear_entries
start-InodeAt junk = record {
  below = omega arith;
  end = refl;
  region = refl;
  slot = refl;
  within = (omega arith, omega arith, omega arith);
  behind = (omega arith, omega arith);
  apart = inr (omega arith);
}

-- Any server with this image.
abbrev pub started : Bytes → Server → Server
started junk s = record s { disk = startfs junk }

pub start-DirectoryAt :
    (junk : Bytes) (s : Server) → DirectoryAt (started junk s) 1028 1092 5252 1156 2
unfolding startfs clear_entries
start-DirectoryAt junk s = record {
  first = refl;
  second = refl;
  positive = omega arith;
  ends = (refl, (refl, refl));
  inside = omega arith;
}

start-search :
    (junk name : Bytes)
    → search_entries (startfs junk) name 1156 2
      ≡ (if is_dot name || is_dot_dot name then some 0 else none)
unfolding startfs clear_entries same_string
start-search junk name = ground arith

start-free : (junk old : Bytes) → free_inum (startfs junk) old 256 4 0 ≡ some 1
unfolding startfs clear_entries free_inum
start-free junk old = refl

-- On the image that `startfs` writes, whatever its buffers held before, `MFS_Lookup_h` in the root answers
-- inode 0 for the names "." and ".." and -1 for every other name, changes no byte of the image, and
-- the next free inode number is 1.
pub startfs_lem :
    (junk name : Bytes) (s : Server)
    → (t : Server) × (mfs_lookup_h (pos 0) name (started junk s)
        ≡ some ((if is_dot name || is_dot_dot name then some 0 else none), t))
      × (t.disk ≡ startfs junk)
      × (nextinum t ≡ some (some 1, t))
unfolding nextinum
startfs_lem junk name s =
    let s' = started junk s in
    let (e, run) = lookup_lem s' 0 2 name (start-InodeAt junk) (start-DirectoryAt junk s) in
    (
      record s' { inode = load_inode s'.disk s'.junk 1092; entry = e },
      run
          ∙ ap (λ o. some (o, record s' { inode = load_inode s'.disk s'.junk 1092; entry = e }))
              (start-search junk name),
      refl,
      ap (λ o. some (o, record s' { inode = load_inode s'.disk s'.junk 1092; entry = e }))
          (start-free junk s.junk),
    )
