-- ===== src/Mfs/Lookup.antt =====
-- MFS_Lookup_h of p5/MFS/server.c against a search in the entries of a directory block.
use bacon_eggs.Prelude.{
  ℕ, zero, suc, ◌+◌, ◌*◌, ◌≤◌, ◌<◌, ◌≡◌, refl, ◌∙◌, inl, inr, true, false, Option, none, some,
  arith, ◌==◌, if◌then◌else◌, Bool-cases,
}
use bacon_eggs.Prelude.Int.{pos}
use bacon_eggs.Mfs.Disk.{Bytes, word_at, Disk, read}
use bacon_eggs.Mfs.State.{minus_one_word, Server, Call, ◌>>◌, return, bind-some}
use bacon_eggs.Mfs.Utils.{same_string, getinode, getentry, load_inode}
use bacon_eggs.Mfs.Files.{lookup_entries, lookup_blocks, mfs_lookup_h}
use bacon_eggs.Mfs.FileAt.{InodeAt, getinode-InodeAt}

-- The entry that stands at `ptr`, and its inode number.
abbrev pub entry_at : Disk → ℕ → Bytes
entry_at d ptr a = d.bytes (ptr + a)

abbrev pub inum_at : Disk → ℕ → ℕ
inum_at d ptr = word_at (entry_at d ptr) 60

-- The block at `ptr` has `n` entries before the first that is not used.
abbrev pub Ends : Disk → (ptr n : ℕ) → Type 0
Ends d ptr zero = inum_at d ptr == minus_one_word ≡ true
Ends d ptr (suc n) = (inum_at d ptr == minus_one_word ≡ false) × Ends d (ptr + 64) n

-- The inode number of the first of `n` entries with this name.
abbrev pub search_entries : Disk → Bytes → (ptr n : ℕ) → Option ℕ
search_entries d name ptr zero = none
search_entries d name ptr (suc n) =
    if same_string (entry_at d ptr) name 0 64
    then some (inum_at d ptr)
    else search_entries d name (ptr + 64) n

-- `entry` holds the entry at `ptr`.
abbrev pub Loaded : Server → ℕ → Type 0
Loaded s ptr = (a : ℕ) → a < 64 → s.entry a ≡ s.disk.bytes (ptr + a)

pub same_string_ext :
    (f f' g : Bytes) (i k : ℕ)
    → ((a : ℕ) → a < i + k → f a ≡ f' a)
    → same_string f g i k ≡ same_string f' g i k
unfolding same_string
same_string_ext f f' g i zero same = refl
same_string_ext f f' g i (suc k) same =
    ground (
      arith,
      same i (omega arith),
      same_string_ext f f' g (suc i) k (λ a low. same a (omega arith)),
    )

pub getentry-Loaded :
    (s : Server) (ptr : ℕ)
    → ptr + 64 ≤ s.disk.size
    → Loaded (record s { entry = read s.disk ptr 64 s.entry }) ptr
getentry-Loaded s ptr inside a low = ground arith

-- What the loop reads of the loaded entry.
pub Loaded-end : (s : Server) (ptr : ℕ) → Loaded s ptr → word_at s.entry 60 ≡ inum_at s.disk ptr
Loaded-end s ptr loaded = cc (
  loaded 60 (omega arith),
  loaded 61 (omega arith),
  loaded 62 (omega arith),
  loaded 63 (omega arith),
)

pub Loaded-name :
    (s : Server) (ptr : ℕ) (name : Bytes)
    → Loaded s ptr
    → same_string s.entry name 0 64 ≡ same_string (entry_at s.disk ptr) name 0 64
Loaded-name s ptr name loaded =
    same_string_ext s.entry (entry_at s.disk ptr) name 0 64 λ a low. loaded a (omega arith)

lookup_entries-search :
    (n fuel ptr : ℕ) (name : Bytes) (s : Server)
    → Loaded s ptr
    → ptr + 64 * suc n ≤ s.disk.size
    → Ends s.disk ptr n
    → n < fuel
    → (e : Bytes) × (lookup_entries fuel ptr name s
        ≡ some (search_entries s.disk name ptr n, record s { entry = e }))
unfolding lookup_entries
lookup_entries-search n zero ptr name s loaded inside ends enough = absurd (omega arith)
lookup_entries-search zero (suc fuel) ptr name s loaded inside ends enough =
    (s.entry, rw (Loaded-end s ptr loaded, ends) refl)
lookup_entries-search (suc n) (suc fuel) ptr name s loaded inside (used, ends) enough =
    elim (Bool-cases (same_string (entry_at s.disk ptr) name 0 64)) [
      | inl match ↦
          (s.entry, rw (Loaded-end s ptr loaded, used, Loaded-name s ptr name loaded, match) refl)
      | inr other ↦
          let s' : Server = record s { entry = read s.disk (ptr + 64) 64 s.entry } in
          let (e, run) =
            lookup_entries-search n fuel (ptr + 64) name s'
              (getentry-Loaded s (ptr + 64) (omega arith)) (omega arith) ends (omega arith) in
          (e, rw (Loaded-end s ptr loaded, used, Loaded-name s ptr name loaded, other) run)
    ]

-- A directory with one block of entries, `n` of them in use, at `q`.
pub record DirectoryAt (s : Server) (m p eol q n : ℕ) : Type 0 where
  pub first : (load_inode s.disk s.junk p).data_ptrs 0 ≡ q
  pub second : (load_inode s.disk s.junk p).data_ptrs 1 ≡ 0
  pub positive : 0 < q
  pub ends : Ends s.disk q n
  pub inside : q + 64 * suc n ≤ s.disk.size

lookup_blocks-end :
    (k i : ℕ) (name : Bytes) (s : Server)
    → s.inode.data_ptrs i ≡ 0
    → lookup_blocks (suc k) i name s ≡ some (none, s)
unfolding lookup_blocks
lookup_blocks-end k i name s e = rw e refl

-- What the loop does with the answer of a block.
abbrev pub after_block : (k i : ℕ) → Bytes → Option ℕ → Call (Option ℕ)
after_block k i name found = elim found [
  | none ↦ lookup_blocks k (suc i) name
  | some inum ↦ return (some inum)
]

pub lookup_blocks-step :
    (k i q : ℕ) (name : Bytes) (s : Server) {o : Option ℕ} {t : Server}
    → s.inode.data_ptrs i ≡ q
    → q == 0 ≡ false
    → lookup_entries (suc s.disk.size) q name (record s { entry = read s.disk q 64 s.entry })
      ≡ some (o, t)
    → lookup_blocks (suc k) i name s ≡ after_block k i name o t
unfolding lookup_blocks
lookup_blocks-step k i q name s ptr set run =
    rw (ptr, set)
      (bind-some (getentry q >> lookup_entries (suc s.disk.size) q name) (after_block k i name) s
        run)

lookup_blocks-search :
    (s : Server) (name : Bytes) (q n : ℕ)
    → s.inode.data_ptrs 0 ≡ q
    → s.inode.data_ptrs 1 ≡ 0
    → 0 < q
    → Ends s.disk q n
    → q + 64 * suc n ≤ s.disk.size
    → (e : Bytes) × (lookup_blocks 14 0 name s
        ≡ some (search_entries s.disk name q n, record s { entry = e }))
lookup_blocks-search s name q n first second positive ends inside =
    let s' : Server = record s { entry = read s.disk q 64 s.entry } in
    let (e, run) =
      lookup_entries-search n (suc s.disk.size) q name s' (getentry-Loaded s q (omega arith)) inside
        ends (omega arith) in
    let t : Server = record s { entry = e } in
    (
      e,
      lookup_blocks-step 13 0 q name s first (ground arith) run
          ∙ settle (search_entries s.disk name q n) t second,
    )
  where
    settle :
        (o : Option ℕ) (t : Server)
        → t.inode.data_ptrs 1 ≡ 0
        → after_block 13 0 name o t ≡ some (o, t)
    settle none t end = lookup_blocks-end 12 1 name t end
    settle (some inum) t end = refl

-- `MFS_Lookup_h` in a directory whose inode, below 16, stands in its place and that has one block, with a
-- first unused entry behind `n` used ones: it ends, changes no more than `inode_t` and `direntry_t`, and
-- answers the inode number of the first of these entries with the name, or -1 if there is none.
pub lookup_lem :
    (s : Server) (i n : ℕ) (name : Bytes) {m p eol q : ℕ}
    → InodeAt s.disk i m p eol
    → DirectoryAt s m p eol q n
    → (e : Bytes) × (mfs_lookup_h (pos i) name s
        ≡ some (
          search_entries s.disk name q n,
          record s { inode = load_inode s.disk s.junk p; entry = e },
        ))
unfolding mfs_lookup_h
lookup_lem s i n name {m} {p} {eol} {q} f dir =
    let s' : Server = record s { inode = load_inode s.disk s.junk p } in
    let (e, run) =
      lookup_blocks-search s' name q n dir.first dir.second dir.positive dir.ends dir.inside in
    (e, bind-some (getinode (pos i)) _ s (getinode-InodeAt s i f) ∙ run)
