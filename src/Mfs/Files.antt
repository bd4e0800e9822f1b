-- ===== src/Mfs/Files.antt =====
-- MFS_Lookup_h, MFS_Stat_h, MFS_Write_h and MFS_Read_h of p5/MFS/server.c. -1 is `none`, or the integer.
use bacon_eggs.Prelude.{
  ℕ, zero, suc, ◌+◌, ◌-◌, ◌*◌, not, Option, none, some, ltb, ◌==◌, if◌then◌else◌,
}
use bacon_eggs.Prelude.Int.{ℤ, pos, negsuc, minus_one}
use bacon_eggs.Mfs.Disk.{Bytes, word_at}
use bacon_eggs.Mfs.State.{
  minus_one_word, int_bytes, inode_words, Inode, Call, ◌>>=◌, ◌>>◌, return, get, set_inode, set_ptr,
}
use bacon_eggs.Mfs.Utils.{same_string, getinode, getentry, geteol, seteol, writeblock, readblock}

-- The inner loop of `MFS_Lookup_h`: the entry at `ptr` is loaded. `some` is a match.
unfoldable pub lookup_entries : (fuel ptr : ℕ) → Bytes → Call (Option ℕ)
lookup_entries zero ptr name s = none
lookup_entries (suc fuel) ptr name s =
    let next = (getentry (ptr + 64) >> lookup_entries fuel (ptr + 64) name) s in
    if word_at s.entry 60 == minus_one_word
    then some (none, s)
    else if same_string s.entry name 0 64
    then some (some (word_at s.entry 60), s)
    else next

-- The outer loop from pointer `i` on, with `k` pointers left: `data_ptrs[14]` is behind the array. The
-- fuel is above the number of entries in the image, behind which no entry ends the inner loop.
unfoldable pub lookup_blocks : (k i : ℕ) → Bytes → Call (Option ℕ)
lookup_blocks zero i name s = none
lookup_blocks (suc k) i name s =
    let ptr = s.inode.data_ptrs i in
    let searched =
      (getentry ptr >> lookup_entries (suc s.disk.size) ptr name >>= λ found. elim found [
        | none ↦ lookup_blocks k (suc i) name
        | some inum ↦ return (some inum)
      ])
        s in
    if ptr == 0 then some (none, s) else searched

-- What `getinode` returns is not looked at.
unfoldable pub mfs_lookup_h : ℤ → Bytes → Call (Option ℕ)
unfolding lookup_blocks
mfs_lookup_h pinum name = do getinode pinum; lookup_blocks 14 0 name

unfoldable pub mfs_stat_h : ℤ → Call ℤ
mfs_stat_h inum = do
  found ← getinode inum
  elim found as (λ _. Call ℤ) [
    | none ↦ return minus_one
    | some p ↦ λ s. some (pos 0, record s { stat = (s.inode.type, s.inode.size) })
  ]

-- `(block < 0)||(block > 13)` is `none`.
abbrev pub valid_block : ℤ → Option ℕ
valid_block (pos n) = if ltb 13 n then none else some n
valid_block (negsuc n) = none

-- The loop over the pointers: `low` is `lowblock` and `high` is `highblock` once one is set.
abbrev pub Span : Type 0
Span = Option (ℕ × ℕ)

abbrev pub extend : ℕ → Span → Span
extend i none = some (i, i)
extend i (some (low, high)) = some (low, i)

unfoldable pub span_loop : (ptrs : ℕ → ℕ) → (k i : ℕ) → Span → Span
span_loop ptrs zero i span = span
span_loop ptrs (suc k) i span =
    span_loop ptrs k (suc i) (if ptrs i == 0 then span else extend i span)

-- `highblock+1-lowblock`, where both are -1 at first.
abbrev pub span_blocks : Span → ℕ
span_blocks none = 1
span_blocks (some (low, high)) = high + 1 - low

unfoldable pub sized : Inode → Inode
unfolding span_loop
sized nd = record nd { size = span_blocks (span_loop nd.data_ptrs 14 0 none) * 4096 }

unfoldable pub write_block : (inodeptr : ℕ) → Bytes → ℕ → Call ℤ
write_block inodeptr buf block = do
  eol ← geteol
  s ← get
  set_inode (set_ptr block eol s.inode)
  eol' ← writeblock eol buf 4096
  seteol eol'
  s' ← get
  set_inode (sized s'.inode)
  writeblock inodeptr (int_bytes (inode_words (sized s'.inode))) 64
  return (pos 0)

unfoldable pub write_file : (inodeptr : ℕ) → Bytes → ℤ → Call ℤ
unfolding write_block
write_file inodeptr buf block s =
    if not (s.inode.type == 1) then some (minus_one, s) else elim (valid_block block) [
      | none ↦ some (minus_one, s)
      | some b ↦ write_block inodeptr buf b s
    ]

unfoldable pub mfs_write_h : ℤ → Bytes → ℤ → Call ℤ
unfolding write_file
mfs_write_h inum buf block = do
  found ← getinode inum
  elim found as (λ _. Call ℤ) [
    | none ↦ return minus_one
    | some inodeptr ↦ write_file inodeptr buf block
  ]

unfoldable pub read_file : ℤ → Call ℤ
read_file block s = elim (valid_block block) [
  | none ↦ some (minus_one, s)
  | some b ↦
      if s.inode.data_ptrs b == 0
      then some (minus_one, s)
      else (do readblock (s.inode.data_ptrs b) 4096; return (pos 0)) s
]

unfoldable pub mfs_read_h : ℤ → ℤ → Call ℤ
unfolding read_file
mfs_read_h inum block = do
  found ← getinode inum
  elim found as (λ _. Call ℤ) [ none ↦ return minus_one | some p ↦ read_file block ]
