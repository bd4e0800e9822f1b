-- ===== src/Mfs/Tests.antt =====
-- The server of p5/MFS on the image that it starts with.
mod Client
use bacon_eggs.Prelude.{
  inr, ℕ, ◌+◌, ◌*◌, ◌≤◌, ◌<◌, ◌≡◌, refl, inl, ◌⊎◌, Option, none, some, [], ◌∷◌, arith, ◌==◌,
  if◌then◌else◌,
}
use bacon_eggs.Prelude.Int.{pos}
use bacon_eggs.Mfs.Disk.{Bytes, word_at}
use bacon_eggs.Mfs.State.{Server, minus_one_word}
use bacon_eggs.Mfs.Utils.{startfs, same_string, load_inode, getinode, nextinum, creatdirentry}
use bacon_eggs.Mfs.Files.{
  mfs_lookup_h, mfs_stat_h, mfs_write_h, mfs_read_h, lookup_blocks, lookup_entries,
}
use bacon_eggs.Mfs.Names.{mfs_creat_h, new_dir_block, creat_inode, write_inode, string_length}
use bacon_eggs.Mfs.Unlink.{mfs_unlink_h}
use bacon_eggs.Mfs.Commands.{Packet, receive, processcommand}
use bacon_eggs.Mfs.Replay.{plain_answer, receive_twice, deliver, deliver-stuck}
use bacon_eggs.Mfs.FileAt.{InodeAt}
use bacon_eggs.Mfs.Lookup.{lookup_lem, search_entries}
use bacon_eggs.Mfs.Start.{started, start-InodeAt, start-DirectoryAt, startfs_lem}
use bacon_eggs.Mfs.WriteRead.{write-read}
use bacon_eggs.Mfs.CreateImage.{Room, created, created_inode}
use bacon_eggs.Mfs.CreateLookup.{
  creat-lookup, directory-InodeAt, file-InodeAt, created-HasName, entry_inum, directory_block,
}
use bacon_eggs.Mfs.Unlinked.{unlink_lem}
use bacon_eggs.Mfs.Existing.{creat-existing, overwritten, opened}

abbrev pub zeros : Bytes
zeros a = 0

abbrev pub fresh : Server
fresh = started zeros (record {
  disk = record { bytes = zeros; size = 0 };
  inode = record { size = 0; type = 0; data_ptrs = zeros };
  entry = zeros;
  rbuf = zeros;
  stat = (0, 0);
  behind = zeros;
  messagecount = 0;
  junk = zeros;
})

abbrev pub letter : ℕ → Bytes
letter c a = if a == 0 then c else 0

abbrev disk_after : {A : Type 0} → Option (A × Server) → Server
disk_after none = fresh
disk_after (some (a, s)) = s

-- A new file gets number 1, and is found.
abbrev pub with_file : Server
with_file = disk_after (mfs_creat_h (pos 0) (pos 1) (letter b'a') fresh)

creat_run : (t : Server) × (mfs_lookup_h (pos 0) (letter b'a') with_file ≡ some (some 1, t))
unfolding mfs_creat_h mfs_lookup_h getinode startfs nextinum creatdirentry same_string lookup_blocks
    lookup_entries new_dir_block creat_inode write_inode
creat_run = (_, refl)

-- What removing it does to the root's first entry: "." is not found any more, and ".." is.
abbrev without_file : Server
without_file = disk_after (mfs_unlink_h (pos 0) (letter b'a') with_file)

unlink_run :
    ((t : Server) × (mfs_lookup_h (pos 0) (letter b'a') without_file ≡ some (none, t)))
    × ((t : Server) × (mfs_lookup_h (pos 0) (letter b'.') without_file ≡ some (none, t)))
unfolding mfs_unlink_h mfs_creat_h mfs_lookup_h getinode startfs nextinum creatdirentry same_string
    lookup_blocks lookup_entries new_dir_block creat_inode write_inode
unlink_run = ((_, refl), (_, refl))

abbrev hello : Packet
hello = record { text = zeros; key = b'k'; message_id = 0; command = 0; cmd_int1 = 0; cmd_int2 = 0 }

abbrev greeted : Server
greeted = record fresh { messagecount = 1 }

abbrev late : Server
late = record fresh { messagecount = 128 }

deliver-stuck_example :
    deliver (record hello { message_id = 128; command = 5 } ∷ []) late ≡ some late
deliver-stuck_example =
    deliver-stuck (record hello { message_id = 128; command = 5 } ∷ []) late (omega arith)

lookup_lem_example :
    (e : Bytes) × (mfs_lookup_h (pos 0) (letter b'.') fresh
      ≡ some (
        search_entries fresh.disk (letter b'.') 1156 2,
        record fresh { inode = load_inode fresh.disk zeros 1092; entry = e },
      ))
lookup_lem_example =
    lookup_lem fresh 0 2 (letter b'.') (start-InodeAt zeros) (start-DirectoryAt zeros fresh)

startfs_lem_example :
    (t : Server) × (mfs_lookup_h (pos 0) (letter b'x') fresh ≡ some (none, t))
    × (t.disk ≡ startfs zeros)
    × (nextinum t ≡ some (some 1, t))
startfs_lem_example = startfs_lem zeros (letter b'x') fresh

pub with_file-InodeAt : InodeAt with_file.disk 1 5316 5252 5380
unfolding mfs_creat_h getinode startfs nextinum creatdirentry same_string new_dir_block creat_inode
    write_inode
with_file-InodeAt = record {
  below = omega arith;
  end = refl;
  region = refl;
  slot = refl;
  within = (omega arith, omega arith, omega arith);
  behind = (omega arith, omega arith);
  apart = inl (omega arith);
}

pub with_file_type : word_at with_file.disk.bytes (5252 + 4) ≡ 1
unfolding mfs_creat_h getinode startfs nextinum creatdirentry same_string new_dir_block creat_inode
    write_inode
with_file_type = refl

pub with_file_count : 0 ≡ with_file.messagecount
unfolding mfs_creat_h getinode startfs nextinum creatdirentry same_string new_dir_block creat_inode
    write_inode
with_file_count = refl

write-read_example :
    (t : Server) × (mfs_write_h (pos 1) (letter b'x') (pos 2) with_file ≡ some (pos 0, t))
    × InodeAt t.disk 1 5316 5252 9476
    × ((a : ℕ)
        → 4 ≤ a
        → a < 5380
        → (a < 5252) ⊎ (5316 ≤ a)
        → t.disk.bytes a ≡ with_file.disk.bytes a)
    × ((u : Server) × (mfs_read_h (pos 1) (pos 2) t ≡ some (pos 0, u))
        × ((a : ℕ) → a < 4096 → u.rbuf a ≡ letter b'x' a))
unfolding mfs_creat_h getinode startfs nextinum creatdirentry same_string new_dir_block creat_inode
    write_inode
write-read_example =
    write-read with_file 1 2 (letter b'x') with_file-InodeAt with_file_type (omega arith)
      (omega arith)

root-InodeAt : InodeAt with_file.disk 0 5316 1092 5380
unfolding mfs_creat_h getinode startfs nextinum creatdirentry same_string new_dir_block creat_inode
    write_inode
root-InodeAt = record {
  below = omega arith;
  end = refl;
  region = refl;
  slot = refl;
  within = (omega arith, omega arith, omega arith);
  behind = (omega arith, omega arith);
  apart = inl (omega arith);
}

creat-existing_example :
    (mfs_creat_h (pos 0) (pos 1) (letter b'a') with_file
      ≡ write_inode (pos 0) 1 2 (overwritten 2 (opened 1092 with_file)))
    × (word_at (overwritten 2 (opened 1092 with_file)).disk.bytes 0
        ≡ with_file.disk.bytes 0 + 256 * 2)
unfolding mfs_creat_h getinode startfs nextinum creatdirentry same_string string_length
    new_dir_block creat_inode write_inode
creat-existing_example =
    creat-existing with_file (letter b'a') 0 1 2 2 root-InodeAt refl (omega arith)
      (refl, refl, (refl, refl, (refl, refl))) (omega arith) (omega arith) (omega arith)
      (omega arith) refl (omega arith)

fresh-Room : Room fresh (letter b'a') 1028 1092 5252 1156 2 1284 1
unfolding startfs same_string string_length
fresh-Room = record {
  free_entry = (refl, refl, (refl, refl, refl));
  entry_low = omega arith;
  entry = omega arith;
  free_slot = (refl, refl);
  slot_low = omega arith;
  behind = omega arith;
  inside = omega arith;
  apart_map = inr (omega arith);
  apart_inode = inr (omega arith);
  fits = omega arith;
  short = omega arith;
}

creat-lookup_example :
    (t : Server) × (mfs_creat_h (pos 0) (pos 1) (letter b'a') fresh ≡ some (pos 0, t))
    × InodeAt t.disk 0 5316 1092 5380
    × InodeAt t.disk 1 5316 5252 5380
    × ((u : Server) × (mfs_lookup_h (pos 0) (letter b'a') t ≡ some (some 1, u)))
    × ((v : Server) × (mfs_stat_h (pos 1) t ≡ some (pos 0, v)) × (v.stat ≡ (1, 0)))
    × ((a : ℕ) → 8 ≤ a → a < 5252 → (a < 1284) ⊎ (1348 ≤ a) → t.disk.bytes a ≡ fresh.disk.bytes a)
unfolding startfs
creat-lookup_example = creat-lookup fresh (letter b'a') (start-InodeAt zeros) fresh-Room refl refl

-- The new file is entry 2 of the root.
abbrev with_a : Server
with_a = created (letter b'a') 1028 1092 5252 1284 1 fresh

unlink_lem_example :
    (t : Server) × (mfs_unlink_h (pos 0) (letter b'a') with_a ≡ some (pos 0, t))
    × ((a : ℕ) → 64 ≤ a → a < 128 → t.disk.bytes (1156 + a) ≡ with_a.disk.bytes (1156 + a))
    × ((a : ℕ)
        → 64 ≤ a
        → 128 ≤ a
        → a < 4032
        → t.disk.bytes (1156 + a) ≡ with_a.disk.bytes (1156 + (a + 64)))
    × ((a : ℕ) → 4032 ≤ a → a < 4096 → t.disk.bytes (1156 + a) ≡ with_a.disk.bytes (1156 + a))
    × ((a : ℕ) → a < 64 → t.disk.bytes (1156 + a) ≡ with_a.disk.bytes (1092 + a))
    × ((a : ℕ) → (a < 1156) ⊎ (5252 ≤ a) → t.disk.bytes a ≡ with_a.disk.bytes a)
    × (word_at t.behind 60 ≡ minus_one_word)
    × ((a : ℕ) → (a < 60) ⊎ (64 ≤ a) → t.behind a ≡ with_a.behind a)
unfolding startfs
unlink_lem_example =
    unlink_lem with_a (letter b'a') {k = 2}
      (directory-InodeAt fresh (letter b'a') (start-InodeAt zeros) fresh-Room refl refl)
      (directory_block fresh (letter b'a') (start-InodeAt zeros) fresh-Room refl refl) (omega arith)
      (omega arith) (created-HasName fresh (letter b'a') (start-InodeAt zeros) fresh-Room refl refl)
      (omega arith) (entry_inum fresh (letter b'a') (start-InodeAt zeros) fresh-Room refl refl)
      (file-InodeAt fresh (letter b'a') (start-InodeAt zeros) fresh-Room refl refl)
      (created_inode fresh (letter b'a') (start-InodeAt zeros) fresh-Room 1 (omega arith)
        (omega arith))
