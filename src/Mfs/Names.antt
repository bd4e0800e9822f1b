-- ===== src/Mfs/Names.antt =====
-- MFS_Creat_h and MFS_Unlink_h of p5/MFS/server.c.
use bacon_eggs.Prelude.{
  Bool, ℕ, zero, suc, ◌+◌, ◌-◌, ◌*◌, ◌/◌, ◌%◌, ◌^◌, true, false, ◌&&◌, ◌||◌, not, Option, none,
  some, leb, ltb, ◌==◌, if◌then◌else◌,
}
use bacon_eggs.Prelude.Int.{ℤ, pos, negsuc, minus_one}
use bacon_eggs.Mfs.Disk.{Bytes, byte_of, word_at, store}
use bacon_eggs.Mfs.State.{
  minus_one_word, int_word, int_bytes, inode_words, Inode, Call, ◌>>=◌, ◌>>◌, return, get,
  set_inode, set_rbuf, set_ptr,
}
use bacon_eggs.Mfs.Utils.{
  dot, dot_dot, nextinum, creatdirentry, getinode, geteol, seteol, writeblock, readblock,
}

-- `strlen`, up to `k` bytes.
unfoldable pub string_length : Bytes → (i k : ℕ) → ℕ
string_length f i zero = 0
string_length f i (suc k) = if f i == 0 then 0 else suc (string_length f (suc i) k)

-- A directory block without entries: the names are not initialised.
abbrev pub empty_entries : Bytes → Bytes
empty_entries junk a = if ltb (a % 64) 60 then junk a else 255

-- A new directory's block: "..", "." and no other entry.
abbrev pub first_entries : (pinum newinum : ℕ) → Bytes → Bytes
first_entries pinum newinum junk a =
    if ltb a 60
    then dot_dot junk a
    else if ltb a 64
    then byte_of pinum (a - 60)
    else if ltb a 124
    then dot (λ b. junk (64 + b)) (a - 64)
    else if ltb a 128
    then byte_of newinum (a - 124)
    else empty_entries junk a

-- `temp`, the new inode: what is not set is not initialised.
abbrev pub new_inode : (type eol : ℕ) → Bytes → Inode
new_inode type eol junk = record {
  size = if type == 0 then 4096 else 0;
  type = type;
  data_ptrs = λ i. if type == 0 && i == 0 then eol else word_at junk (4 * i);
}

-- The new region of the inode map, and the words that lead to it and to the end of the log.
abbrev pub write_region : (imapptr newinum inodeptr eol : ℕ) → Call ℤ
write_region imapptr newinum inodeptr eol = do
  readblock imapptr 64
  s ← get
  set_rbuf (store s.rbuf (4 * (newinum % 16)) 4 (byte_of inodeptr))
  s' ← get
  eol' ← writeblock eol s'.rbuf 64
  writeblock (4 + 4 * (newinum / 16)) (byte_of eol) 4
  writeblock 0 (byte_of eol') 4
  return (pos 0)

-- `imapptr < 1`, for the `int` in the word.
abbrev pub no_region : ℕ → Bool
no_region imapptr = ltb imapptr 1 || leb (2 ^ 31) imapptr

unfoldable pub write_imap : (newinum inodeptr eol : ℕ) → Call ℤ
write_imap newinum inodeptr eol s = elim (no_region (word_at s.rbuf 0)) [
  | true ↦ some (minus_one, s)
  | false ↦ write_region (word_at s.rbuf 0) newinum inodeptr eol s
]

-- From the new inode's number on: its directory block, the inode, and the map.
unfoldable pub write_inode : (pinum : ℤ) → (type newinum : ℕ) → Call ℤ
unfolding write_imap
write_inode pinum type newinum = do
  eol ← geteol
  s ← get
  let temp = new_inode type eol s.junk
  inodeptr ← elim (type == 0) as (λ _. Call ℕ) [
    | true ↦ writeblock eol (first_entries (int_word pinum) newinum s.junk) 4096
    | false ↦ return eol
  ]
  eol' ← writeblock inodeptr (int_bytes (inode_words temp)) 64
  readblock inodeptr 64
  readblock (4 + 4 * (newinum / 16)) 4
  write_imap newinum inodeptr eol'

unfoldable pub creat_inode : (pinum : ℤ) → (type check : ℕ) → Call ℤ
creat_inode pinum type check = do
  found ← nextinum
  elim found as (λ _. Call ℤ) [
    | none ↦ do writeblock check (byte_of minus_one_word) 4; return minus_one
    | some newinum ↦ do writeblock check (byte_of newinum) 4; write_inode pinum type newinum
  ]

-- A new block of entries for the pointer `i` of the directory, where it is 0.
unfoldable pub new_dir_block : (inodeptr i : ℕ) → Call (Unit {0})
new_dir_block inodeptr i s =
    if s.inode.data_ptrs i == 0
    then (do
      teol ← geteol
      let nd = set_ptr i teol s.inode
      let nd' = record nd { size = nd.size + 4096 }
      set_inode nd'
      writeblock inodeptr (int_bytes (inode_words nd')) 64
      teol' ← writeblock teol (empty_entries s.junk) 4096
      seteol teol')
        s
    else some (tt, s)

-- The loop over the pointers, from `i` on with `k` left.
unfoldable pub creat_loop : (pinum : ℤ) → (type inodeptr : ℕ) → Bytes → (k i : ℕ) → Call ℤ
creat_loop pinum type inodeptr name zero i = return minus_one
creat_loop pinum type inodeptr name (suc k) i = do
  new_dir_block inodeptr i
  s ← get
  check ← creatdirentry (s.inode.data_ptrs i) name
  elim check as (λ _. Call ℤ) [
    | negsuc n ↦ creat_loop pinum type inodeptr name k (suc i)
    | pos n ↦ if n == 0 then return (pos 0) else creat_inode pinum type n
  ]

abbrev pub valid_type : ℤ → Option ℕ
valid_type (pos n) = if ltb 1 n then none else some n
valid_type (negsuc n) = none

unfoldable pub creat_in : (pinum type : ℤ) → Bytes → ℕ → Call ℤ
unfolding creat_loop string_length
creat_in pinum type name inodeptr s =
    if not (s.inode.type == 0) then some (minus_one, s) else elim (valid_type type) [
      | none ↦ some (minus_one, s)
      | some ty ↦
          if ltb 60 (string_length name 0 4096)
          then some (minus_one, s)
          else creat_loop pinum ty inodeptr name 14 0 s
    ]

unfoldable pub mfs_creat_h : (pinum type : ℤ) → Bytes → Call ℤ
unfolding creat_in
mfs_creat_h pinum type name = do
  found ← getinode pinum
  elim found as (λ _. Call ℤ) [
    | none ↦ return minus_one
    | some inodeptr ↦ creat_in pinum type name inodeptr
  ]
