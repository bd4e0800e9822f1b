-- ===== src/Mfs/Utils.antt =====
-- p5/MFS/server_utils.c. Positions in the image are below 2^31, and a sum that leaves the range of
-- `int` is not modelled. `fsync` changes nothing here.
use bacon_eggs.Prelude.{
  ℕ, zero, suc, ◌+◌, ◌-◌, ◌*◌, ◌/◌, ◌%◌, ◌^◌, Bool, true, false, ◌&&◌, not, Option, none, some, leb,
  ltb, ◌==◌, if◌then◌else◌, ◌<◌, ◌≡◌, refl, arith,
}
use bacon_eggs.Prelude.Int.{ℤ, pos, negsuc, minus_one}
use bacon_eggs.Mfs.Disk.{Bytes, word_at, Disk, read, read_int, write, write_int}
use bacon_eggs.Mfs.State.{minus_one_word, Server, Inode, int_bytes, Call}

-- The root's name buffer, with the string "." and with "..".
abbrev pub dot : Bytes → Bytes
dot junk a = if a == 0 then b'.' else (if a == 1 then 0 else junk a)

abbrev pub dot_dot : Bytes → Bytes
dot_dot junk a = if ltb a 2 then b'.' else (if a == 2 then 0 else junk a)

-- The loop of `startfs` over the entries that are not used.
unfoldable pub clear_entries : ℕ → ℕ → Disk → Disk
clear_entries zero pt d = d
clear_entries (suc k) pt d = clear_entries k (pt + 64) (write_int d (pt + 60) minus_one_word)

abbrev pub only_first : ℕ → ℕ → ℕ
only_first w i = if i == 0 then w else 0

unfoldable pub startfs : Bytes → Disk
unfolding clear_entries
startfs junk =
    let d0 : Disk = record { bytes = λ a. 0; size = 0 } in
    let d1 = write d0 4 1024 (int_bytes (only_first 1028)) in
    let d2 = write d1 1028 64 (int_bytes (only_first 1092)) in
    let d3 = write_int d2 1092 4096 in
    let d4 = write_int d3 1096 0 in
    let d5 = write d4 1100 56 (int_bytes (only_first 1156)) in
    let d6 = write d5 1156 60 (dot junk) in
    let d7 = write_int d6 1216 0 in
    let d8 = write d7 1220 60 (dot_dot (dot junk)) in
    let d9 = write_int d8 1280 0 in write_int (clear_entries 62 1284 d9) 0 5252

-- `strcmp` of an entry and a name gives 0: the bytes agree up to a zero. The last argument counts the
-- bytes of the entry that are left; behind them the model has no match.
unfoldable pub same_string : (f g : Bytes) → (i k : ℕ) → Bool
same_string f g i zero = false
same_string f g i (suc k) = f i == g i && (if f i == 0 then true else same_string f g (suc i) k)

-- The inner loop of `nextinum`: the first slot that is 0, of the `k` slots from `tptr` on.
unfoldable pub free_slot : Disk → Bytes → (k tptr count : ℕ) → Option ℕ
free_slot d junk zero tptr count = none
free_slot d junk (suc k) tptr count =
    let rest = free_slot d junk k (tptr + 4) (count + 1) in
    if read_int d tptr (word_at junk 4) == 0 then some count else rest

-- The outer loop, over the `k` regions from `start` on.
unfoldable pub free_inum : Disk → Bytes → (k start count : ℕ) → Option ℕ
unfolding free_slot
free_inum d junk zero start count = none
free_inum d junk (suc k) start count =
    let imap_ptr = read_int d start (word_at junk 0) in
    let rest = free_inum d junk k (start + 4) (count + 16) in
    if imap_ptr == 0
    then some count
    else elim (free_slot d junk 16 imap_ptr count) [ none ↦ rest | some n ↦ some n ]

-- `none` is -1.
unfoldable pub nextinum : Call (Option ℕ)
unfolding free_inum
nextinum s = some (free_inum s.disk s.junk 256 4 0, s)

-- The loop of `creatdirentry` over the `k` entries from `tptr` on.
unfoldable pub creatdirentry_loop : (k tptr : ℕ) → Bytes → Call ℤ
creatdirentry_loop zero tptr name s = some (minus_one, s)
creatdirentry_loop (suc k) tptr name s =
    let testing = read s.disk tptr 64 s.junk in
    let rest = creatdirentry_loop k (tptr + 64) name s in
    if same_string testing name 0 64 && not (word_at testing 60 == minus_one_word)
    then some (pos 1, s)
    else if word_at testing 60 == minus_one_word
    then some (pos (tptr + 60), record s { disk = write s.disk tptr 60 name })
    else rest

unfoldable pub creatdirentry : ℕ → Bytes → Call ℤ
unfolding creatdirentry_loop
creatdirentry ptr name = creatdirentry_loop 64 ptr name

-- `imap + 4` and `temp + (inode*4)` of `getinode`, with the division of C: `none` is before the file.
abbrev pub imap_position : ℤ → Option ℕ
imap_position (pos n) = some (n / 16 + 4)
imap_position (negsuc n) = if leb ((n + 1) / 16) 4 then some (4 - (n + 1) / 16) else none

abbrev pub slot_position : ℤ → ℕ → Option ℕ
slot_position (pos n) temp = some (temp + 4 * (n % 16))
slot_position (negsuc n) temp =
    if leb (4 * ((n + 1) % 16)) temp then some (temp - 4 * ((n + 1) % 16)) else none

abbrev pub load_inode : Disk → Bytes → ℕ → Inode
load_inode d junk temp = record {
  size = read_int d temp minus_one_word;
  type = read_int d (temp + 4) minus_one_word;
  data_ptrs = λ i. read_int d (temp + 8 + 4 * i) (word_at junk (4 * i));
}

unfoldable pub getinode_at : ℕ → Call (Option ℕ)
getinode_at temp s =
    if temp == 0
    then some (none, s)
    else some (some temp, record s { inode = load_inode s.disk s.junk temp })

unfoldable pub getinode_in : ℤ → ℕ → Call (Option ℕ)
unfolding getinode_at
getinode_in inum temp s = if temp == 0 then some (none, s) else elim (slot_position inum temp) [
  | none ↦ none
  | some p ↦ getinode_at (read_int s.disk p temp) s
]

unfoldable pub getinode : ℤ → Call (Option ℕ)
unfolding getinode_in
getinode inum s = elim (imap_position inum) [
  | none ↦ none
  | some p ↦ getinode_in inum (read_int s.disk p (word_at s.junk 0)) s
]

abbrev pub getentry : ℕ → Call (Unit {0})
getentry ptr s = some (tt, record s { entry = read s.disk ptr 64 s.entry })

-- An end of the log from 2^31 on is a negative `int`, to which `lseek` fails; what the server does then
-- is not in the model, and there is no result.
abbrev pub geteol : Call ℕ
geteol s =
    let eol = read_int s.disk 0 (word_at s.junk 0) in
    if ltb eol (2 ^ 31) then some (eol, s) else none

pub geteol_run :
    (s : Server) {eol : ℕ}
    → read_int s.disk 0 (word_at s.junk 0) ≡ eol
    → eol < 2 ^ 31
    → geteol s ≡ some (eol, s)
geteol_run s {eol} end small =
    let seen : ltb eol (2 ^ 31) ≡ true = ground (arith, small) in rw (end, seen) refl

abbrev pub seteol : ℕ → Call (Unit {0})
seteol eol s = some (tt, record s { disk = write_int s.disk 0 eol })

abbrev pub writeblock : ℕ → Bytes → ℕ → Call ℕ
writeblock loc buf size s = some (loc + size, record s { disk = write s.disk loc size buf })

abbrev pub readblock : (loc size : ℕ) → Call (Unit {0})
readblock loc size s = some (tt, record s { rbuf = read s.disk loc size s.rbuf })
