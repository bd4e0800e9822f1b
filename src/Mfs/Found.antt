-- ===== src/Mfs/Found.antt =====
-- MFS_Lookup_h of p5/MFS/server.c for a name that the directory's first block has.
use bacon_eggs.Prelude.{ℕ, zero, suc, ◌+◌, ◌*◌, ◌≤◌, ◌<◌, ◌≡◌, ap, ◌∙◌, some, arith}
use bacon_eggs.Prelude.Int.{pos}
use bacon_eggs.Mfs.Disk.{Bytes, read}
use bacon_eggs.Mfs.State.{Server, bind-some}
use bacon_eggs.Mfs.Utils.{getinode}
use bacon_eggs.Mfs.Files.{lookup_entries, mfs_lookup_h, mfs_stat_h}
use bacon_eggs.Mfs.FileAt.{InodeAt, getinode-InodeAt}
use bacon_eggs.Mfs.Lookup.{
  inum_at, Loaded, Loaded-end, Loaded-name, getentry-Loaded, lookup_blocks-step,
}
use bacon_eggs.Mfs.Entries.{HasName}
use bacon_eggs.Mfs.Existing.{opened}

lookup_entries-HasName :
    (j fuel ptr slot : ℕ) (name : Bytes) (s : Server)
    → Loaded s ptr
    → slot ≡ ptr + 64 * j
    → slot + 64 ≤ s.disk.size
    → HasName s.disk name ptr j
    → j < fuel
    → (e : Bytes) × (lookup_entries fuel ptr name s
        ≡ some (some (inum_at s.disk slot), record s { entry = e }))
unfolding lookup_entries
lookup_entries-HasName j zero ptr slot name s loaded at inside has enough = absurd (omega arith)
lookup_entries-HasName zero (suc fuel) ptr slot name s loaded at inside (same, used) enough =
    let here : ptr ≡ slot = omega arith in
    (
      s.entry,
      rw (Loaded-end s ptr loaded, used, Loaded-name s ptr name loaded, same)
          (ap (λ p. some (some (inum_at s.disk p), s)) here),
    )
lookup_entries-HasName (suc j) (suc fuel) ptr slot name s loaded at inside (other, used, has)
      enough =
    let s' : Server = record s { entry = read s.disk (ptr + 64) 64 s.entry } in
    let (e, run) =
      lookup_entries-HasName j fuel (ptr + 64) slot name s'
        (getentry-Loaded s (ptr + 64) (omega arith)) (omega arith) inside has (omega arith) in
    (e, rw (Loaded-end s ptr loaded, used, Loaded-name s ptr name loaded, other) run)

-- A directory with the name in its first block.
pub lookup-HasName :
    (s : Server) (i j q slot : ℕ) (name : Bytes) {m p eol : ℕ}
    → InodeAt s.disk i m p eol
    → (opened p s).inode.data_ptrs 0 ≡ q
    → 0 < q
    → slot ≡ q + 64 * j
    → slot + 64 ≤ s.disk.size
    → HasName s.disk name q j
    → (e : Bytes) × (mfs_lookup_h (pos i) name s
        ≡ some (some (inum_at s.disk slot), record (opened p s) { entry = e }))
unfolding mfs_lookup_h
lookup-HasName s i j q slot name {m} {p} {eol} f ptr positive at inside has =
    let s' = opened p s in
    let s'' : Server = record s' { entry = read s.disk q 64 s.entry } in
    let (e, run) =
      lookup_entries-HasName j (suc s.disk.size) q slot name s''
        (getentry-Loaded s' q (omega arith)) at inside has (omega arith) in
    (
      e,
      bind-some (getinode (pos i)) _ s (getinode-InodeAt s i f)
          ∙ lookup_blocks-step 13 0 q name s' ptr (ground arith) run,
    )

-- `MFS_Stat_h` of an inode that stands in its place.
pub mfs_stat_h_lem :
    (s : Server) (n : ℕ) {m p eol : ℕ}
    → InodeAt s.disk n m p eol
    → mfs_stat_h (pos n) s
      ≡ some
          (pos 0, record (opened p s) { stat = ((opened p s).inode.type, (opened p s).inode.size) })
unfolding mfs_stat_h
mfs_stat_h_lem s n f = bind-some (getinode (pos n)) _ s (getinode-InodeAt s n f)
