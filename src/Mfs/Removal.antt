-- ===== src/Mfs/Removal.antt =====
-- MFS_Unlink_h of p5/MFS/server.c on a regular file, call by call.
use bacon_eggs.Prelude.{
  ℕ, zero, suc, ◌+◌, ◌-◌, ◌*◌, ◌^◌, ◌≤◌, ◌<◌, ◌≡◌, refl, subst, ap, ◌∙◌, true, false, some, arith,
  ltb, ◌==◌,
}
use bacon_eggs.Prelude.Int.{ℤ, pos}
use bacon_eggs.Mfs.Disk.{
  Bytes, byte_of, word_at, read, write, store, read_int-word_at, word_at-read, read_in,
}
use bacon_eggs.Mfs.State.{minus_one_word, word_int, Server, ◌>>=◌, ◌>>◌, return, bind-some}
use bacon_eggs.Mfs.Utils.{same_string, getinode, readblock}
use bacon_eggs.Mfs.Unlink.{
  shift_down, blank_name, remove_entry, unlink_kind, unlink_found, unlink_entries, unlink_blocks,
}
use bacon_eggs.Mfs.Lookup.{entry_at, inum_at, same_string_ext}
use bacon_eggs.Mfs.FileAt.{InodeAt, getinode-InodeAt}
use bacon_eggs.Mfs.Entries.{HasName}
use bacon_eggs.Mfs.Existing.{opened}

-- `rbuf` after the entry is cut out, and after the read of the parent's inode; the server after the write.
abbrev pub marked : ℕ → Bytes → Bytes
marked k f = store (store f (64 * k + 60) 4 (byte_of minus_one_word)) (64 * k) 2 blank_name

abbrev pub cut : (p k : ℕ) → Server → Bytes
cut p k s = read s.disk p 64 (shift_down (63 - k) k (marked k s.rbuf))

abbrev pub removed : (p k q : ℕ) → Server → Server
removed p k q s = record s {
  rbuf = cut p k s;
  behind = store s.behind 60 4 (byte_of minus_one_word);
  disk = write s.disk q 4096 (cut p k s);
}

remove_entry_run :
    (p k q : ℕ) (s : Server)
    → word_at s.disk.bytes (p + 8) ≡ q
    → p + 64 ≤ s.disk.size
    → remove_entry p 0 k s ≡ some (pos 0, removed p k q s)
unfolding remove_entry
remove_entry_run p k q s block inside =
    let at : word_at (cut p k s) 8 ≡ q =
      word_at-read s.disk p 64 (shift_down (63 - k) k (marked k s.rbuf)) 8 (omega arith) inside
      ∙ block in
    ap (λ x. some (pos 0, removed p k x s)) at

unlink_found_run :
    (p k x m pf eol q : ℕ) (s : Server)
    → word_at s.rbuf (64 * k + 60) ≡ x
    → InodeAt s.disk x m pf eol
    → word_at s.disk.bytes (pf + 4) ≡ 1
    → word_at s.disk.bytes (p + 8) ≡ q
    → p + 64 ≤ s.disk.size
    → unlink_found p 0 k s ≡ some (pos 0, removed p k q (opened pf s))
unfolding unlink_found unlink_kind
unlink_found_run p k x m pf eol q s number f regular block inside =
    let (inode_fits, map_fits, file) = f.within in
    let type : (opened pf s).inode.type ≡ 1 =
      read_int-word_at s.disk (pf + 4) minus_one_word (omega arith) ∙ regular in
    let other : (opened pf s).inode.type == 0 ≡ false = ground (arith, type) in
    let small_int : word_int x ≡ pos x =
      let low : ltb x (2 ^ 31) ≡ true = ground (arith, f.below) in rw low refl in
    let int : word_int (word_at s.rbuf (64 * k + 60)) ≡ pos x = ap word_int number ∙ small_int in
    let call : getinode (word_int (word_at s.rbuf (64 * k + 60))) s ≡ some (some pf, opened pf s) =
      ap (λ i. getinode i s) int ∙ getinode-InodeAt s x f in
    bind-some (getinode (word_int (word_at s.rbuf (64 * k + 60)))) _ s call
    ∙ ap (λ b. unlink_kind b ((opened pf s).inode.data_ptrs 0) p 0 k (opened pf s)) other
    ∙ remove_entry_run p k q (opened pf s) block inside

-- What the loop reads of an entry in `rbuf`.
loaded_inum :
    (k q : ℕ) (s : Server)
    → ((a : ℕ) → a < 4096 → s.rbuf a ≡ s.disk.bytes (q + a))
    → k < 64
    → word_at s.rbuf (64 * k + 60) ≡ inum_at s.disk (q + 64 * k)
loaded_inum k q s loaded low = cc (
  byte (64 * k + 60) 60 refl (omega arith),
  byte (64 * k + 60 + 1) 61 (omega arith) (omega arith),
  byte (64 * k + 60 + 2) 62 (omega arith) (omega arith),
  byte (64 * k + 60 + 3) 63 (omega arith) (omega arith),
)
  where
    byte : (c a : ℕ) → c ≡ 64 * k + a → a < 64 → s.rbuf c ≡ s.disk.bytes (q + 64 * k + a)
    byte c a at small = loaded c (omega arith) ∙ ap s.disk.bytes (omega arith)

loaded_name :
    (k q : ℕ) (name : Bytes) (s : Server)
    → ((a : ℕ) → a < 4096 → s.rbuf a ≡ s.disk.bytes (q + a))
    → k < 64
    → same_string (λ a. s.rbuf (64 * k + a)) name 0 64
      ≡ same_string (entry_at s.disk (q + 64 * k)) name 0 64
loaded_name k q name s loaded low =
    same_string_ext (λ a. s.rbuf (64 * k + a)) (entry_at s.disk (q + 64 * k)) name 0 64
      λ a small. loaded (64 * k + a) (omega arith) ∙ ap s.disk.bytes (omega arith)

-- The loop over the entries comes to the name.
unlink_entries_run :
    (p j left k0 q : ℕ) (name : Bytes) (s : Server)
    → ((a : ℕ) → a < 4096 → s.rbuf a ≡ s.disk.bytes (q + a))
    → HasName s.disk name (q + 64 * k0) j
    → j < left
    → k0 + left ≡ 64
    → unlink_entries p 0 left k0 name s ≡ (unlink_found p 0 (k0 + j) >>= λ r. return (some r)) s
unfolding unlink_entries
unlink_entries_run p j zero k0 q name s loaded has enough all = absurd (omega arith)
unlink_entries_run p zero (suc left) k0 q name s loaded (same, used) enough all =
    rw
      (
        loaded_inum k0 q s loaded (omega arith),
        used,
        loaded_name k0 q name s loaded (omega arith),
        same,
      )
      (ap (λ k. (unlink_found p 0 k >>= λ r. return (some r)) s) (omega arith))
unlink_entries_run p (suc j) (suc left) k0 q name s loaded (other, used, has) enough all =
    rw
      (
        loaded_inum k0 q s loaded (omega arith),
        used,
        loaded_name k0 q name s loaded (omega arith),
        other,
      )
      (unlink_entries_run p j left (suc k0) q name s loaded
          (subst (λ x. HasName s.disk name x j) (omega arith) has) (omega arith) (omega arith)
        ∙ ap (λ k. (unlink_found p 0 k >>= λ r. return (some r)) s) (omega arith))

unlink_blocks-step :
    (p k i q : ℕ) (name : Bytes) (s : Server) {r : ℤ} {t : Server}
    → s.inode.data_ptrs i ≡ q
    → q == 0 ≡ false
    → unlink_entries p i 64 0 name (record s { rbuf = read s.disk q 4096 s.rbuf })
      ≡ some (some r, t)
    → unlink_blocks p name (suc k) i s ≡ some (r, t)
unfolding unlink_blocks
unlink_blocks-step p k i q name s ptr set found =
    rw (ptr, set) (bind-some (readblock q 4096 >> unlink_entries p i 64 0 name) _ s found)

pub unlink_blocks_run :
    (p q k x m pf eol : ℕ) (name : Bytes) (s : Server)
    → s.inode.data_ptrs 0 ≡ q
    → 0 < q
    → q + 4096 ≤ s.disk.size
    → HasName s.disk name q k
    → k < 64
    → inum_at s.disk (q + 64 * k) ≡ x
    → InodeAt s.disk x m pf eol
    → word_at s.disk.bytes (pf + 4) ≡ 1
    → word_at s.disk.bytes (p + 8) ≡ q
    → p + 64 ≤ s.disk.size
    → unlink_blocks p name 14 0 s
      ≡ some (pos 0, removed p k q (opened pf (record s { rbuf = read s.disk q 4096 s.rbuf })))
unlink_blocks_run p q k x m pf eol name s ptr positive inside has low number f regular block
      within =
    let s1 : Server = record s { rbuf = read s.disk q 4096 s.rbuf } in
    let loaded : (a : ℕ) → a < 4096 → s1.rbuf a ≡ s.disk.bytes (q + a) =
      λ a small. read_in s.disk q 4096 s.rbuf a (q + a) small inside refl in
    let found =
      unlink_found_run p k x m pf eol q s1 (loaded_inum k q s1 loaded low ∙ number) f regular block
        within in
    let set : q == 0 ≡ false = ground arith in
    let entries =
      unlink_entries_run p k 64 0 q name s1 loaded
        (subst (λ y. HasName s.disk name y k) (omega arith) has) low refl in
    unlink_blocks-step p 13 0 q name s ptr set (
      entries
      ∙ bind-some (unlink_found p 0 (0 + k)) (λ r. return (some r)) s1
          (ap (λ j. unlink_found p 0 j s1) (omega arith) ∙ found))
