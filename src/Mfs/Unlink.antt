-- ===== src/Mfs/Unlink.antt =====
-- MFS_Unlink_h of p5/MFS/server.c. `entry` points into `rbuf`, which later reads overwrite. The write
-- to `entry[64]` goes behind `rbuf`.
use bacon_eggs.Prelude.{
  ℕ, zero, suc, ◌+◌, ◌-◌, ◌*◌, Bool, true, false, Option, none, some, ◌==◌, if◌then◌else◌,
}
use bacon_eggs.Prelude.Int.{ℤ, pos, minus_one}
use bacon_eggs.Mfs.Disk.{Bytes, byte_of, word_at, store}
use bacon_eggs.Mfs.State.{
  minus_one_word, word_int, Call, ◌>>=◌, ◌>>◌, return, get, set_rbuf, set_behind,
}
use bacon_eggs.Mfs.Utils.{same_string, getinode, writeblock, readblock}

-- `entry[j] = entry[j+1]`, and the loop of `n` rounds from `j` on.
abbrev pub shift_one : ℕ → Bytes → Bytes
shift_one j f = store f (64 * j) 64 (λ a. f (64 * (j + 1) + a))

unfoldable pub shift_down : (n j : ℕ) → Bytes → Bytes
shift_down zero j f = f
shift_down (suc n) j f = shift_down n (suc j) (shift_one j f)

-- The string " " in a name.
abbrev pub blank_name : Bytes
blank_name a = if a == 0 then b' ' else 0

-- Entry `k` of the block in `rbuf`, whose pointer is number `i` of the parent's, is removed.
unfoldable pub remove_entry : (pinum_ptr i k : ℕ) → Call ℤ
unfolding shift_down
remove_entry pinum_ptr i k = do
  s ← get
  set_rbuf (
      shift_down (63 - k) k
        (store (store s.rbuf (64 * k + 60) 4 (byte_of minus_one_word)) (64 * k) 2 blank_name))
  set_behind (store s.behind 60 4 (byte_of minus_one_word))
  readblock pinum_ptr 64
  s' ← get
  writeblock (word_at s'.rbuf (8 + 4 * i)) s'.rbuf 4096
  return (pos 0)

-- A directory, whose first block is at `ptr`, must be empty: its third entry is looked at.
unfoldable pub unlink_kind : (directory : Bool) → (ptr pinum_ptr i k : ℕ) → Call ℤ
unfolding remove_entry
unlink_kind false ptr pinum_ptr i k = remove_entry pinum_ptr i k
unlink_kind true ptr pinum_ptr i k = do
  readblock ptr 192
  s ← get
  elim (word_at s.rbuf 188 == minus_one_word) as (λ _. Call ℤ) [
    | true ↦ remove_entry pinum_ptr i k
    | false ↦ return minus_one
  ]

unfoldable pub unlink_found : (pinum_ptr i k : ℕ) → Call ℤ
unfolding unlink_kind
unlink_found pinum_ptr i k = do
  s ← get
  found ← getinode (word_int (word_at s.rbuf (64 * k + 60)))
  s' ← get
  elim found as (λ _. Call ℤ) [
    | none ↦ return minus_one
    | some p ↦ unlink_kind (s'.inode.type == 0) (s'.inode.data_ptrs 0) pinum_ptr i k
  ]

-- The inner loop over the entries in `rbuf` from `k` on, with `left` entries left: `none` when it
-- finds none, and no result where it goes behind `rbuf`.
unfoldable pub unlink_entries : (pinum_ptr i left k : ℕ) → Bytes → Call (Option ℤ)
unfolding same_string unlink_found
unlink_entries pinum_ptr i zero k name s = none
unlink_entries pinum_ptr i (suc left) k name s =
    let rest = unlink_entries pinum_ptr i left (suc k) name s in
    let found = (unlink_found pinum_ptr i k >>= λ r. return (some r)) s in
    if word_at s.rbuf (64 * k + 60) == minus_one_word
    then some (none, s)
    else if same_string (λ a. s.rbuf (64 * k + a)) name 0 64
    then found
    else rest

unfoldable pub unlink_blocks : (pinum_ptr : ℕ) → Bytes → (k i : ℕ) → Call ℤ
unfolding unlink_entries
unlink_blocks pinum_ptr name zero i s = none
unlink_blocks pinum_ptr name (suc k) i s =
    let ptr = s.inode.data_ptrs i in
    let searched =
      (readblock ptr 4096 >> unlink_entries pinum_ptr i 64 0 name >>= λ found. elim found [
        | none ↦ unlink_blocks pinum_ptr name k (suc i)
        | some r ↦ return r
      ])
        s in
    if ptr == 0 then some (pos 0, s) else searched

unfoldable pub mfs_unlink_h : ℤ → Bytes → Call ℤ
unfolding unlink_blocks
mfs_unlink_h pinum name = do
  found ← getinode pinum
  elim found as (λ _. Call ℤ) [
    | none ↦ return minus_one
    | some pinum_ptr ↦ unlink_blocks pinum_ptr name 14 0
  ]
