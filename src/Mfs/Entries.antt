-- ===== src/Mfs/Entries.antt =====
-- The entries of a directory block in the image of p5/MFS: a name that is there, and one that is not.
use bacon_eggs.Prelude.{
  ℕ, zero, suc, ◌+◌, ◌*◌, ◌≤◌, ◌<◌, ◌≡◌, refl, ap, ◌∙◌, Bool, true, false, ◌&&◌, some, arith, ◌==◌,
}
use bacon_eggs.Prelude.Int.{pos}
use bacon_eggs.Mfs.Disk.{Bytes, word_at, Disk, read, write}
use bacon_eggs.Mfs.State.{minus_one_word, Server}
use bacon_eggs.Mfs.Utils.{same_string, creatdirentry_loop, creatdirentry}
use bacon_eggs.Mfs.Names.{string_length}
use bacon_eggs.Mfs.Lookup.{entry_at, inum_at, same_string_ext}

-- Entry `j` of the block at `ptr` is the first with this name, and no entry up to it is unused.
abbrev pub HasName : Disk → Bytes → (ptr j : ℕ) → Type 0
HasName d name ptr zero =
    (same_string (entry_at d ptr) name 0 64 ≡ true) × (inum_at d ptr == minus_one_word ≡ false)
HasName d name ptr (suc j) =
    (same_string (entry_at d ptr) name 0 64 ≡ false)
    × (inum_at d ptr == minus_one_word ≡ false)
    × HasName d name (ptr + 64) j

pub read-inum :
    (d : Disk) (ptr : ℕ) (old : Bytes)
    → ptr + 64 ≤ d.size
    → word_at (read d ptr 64 old) 60 ≡ inum_at d ptr
read-inum d ptr old inside = ground arith

pub read-name :
    (d : Disk) (ptr : ℕ) (old name : Bytes)
    → ptr + 64 ≤ d.size
    → same_string (read d ptr 64 old) name 0 64 ≡ same_string (entry_at d ptr) name 0 64
read-name d ptr old name inside =
    same_string_ext (read d ptr 64 old) (entry_at d ptr) name 0 64 λ a low. ground arith

-- Entry `n` of the block at `ptr` is the first that is not used, and none before it has this name.
abbrev pub NoName : Disk → Bytes → (ptr n : ℕ) → Type 0
NoName d name ptr zero = inum_at d ptr == minus_one_word ≡ true
NoName d name ptr (suc n) =
    (same_string (entry_at d ptr) name 0 64 ≡ false)
    × (inum_at d ptr == minus_one_word ≡ false)
    × NoName d name (ptr + 64) n

and_false : (b : Bool) → (b && false) ≡ false
and_false true = refl
and_false false = refl

-- `creatdirentry` writes the name to the first unused entry.
creatdirentry_loop-NoName :
    (n k ptr slot : ℕ) (name : Bytes) (s : Server)
    → NoName s.disk name ptr n
    → n < k
    → slot ≡ ptr + 64 * n
    → slot + 64 ≤ s.disk.size
    → creatdirentry_loop k ptr name s
      ≡ some (pos (slot + 60), record s { disk = write s.disk slot 60 name })
unfolding creatdirentry_loop
creatdirentry_loop-NoName n zero ptr slot name s free enough at inside = absurd (omega arith)
creatdirentry_loop-NoName zero (suc k) ptr slot name s free enough at inside =
    let here : ptr ≡ slot = omega arith in
    let free' : inum_at s.disk slot == minus_one_word ≡ true = rw here at free in
    rw (here, read-inum s.disk slot s.junk inside, free', and_false) refl
creatdirentry_loop-NoName (suc n) (suc k) ptr slot name s (other, used, free) enough at inside =
    rw
      (
        read-name s.disk ptr s.junk name (omega arith),
        read-inum s.disk ptr s.junk (omega arith),
        other,
        used,
      )
      (creatdirentry_loop-NoName n k (ptr + 64) slot name s free (omega arith) (omega arith) inside)

pub creatdirentry-NoName :
    (n ptr slot : ℕ) (name : Bytes) (s : Server)
    → NoName s.disk name ptr n
    → n < 64
    → slot ≡ ptr + 64 * n
    → slot + 64 ≤ s.disk.size
    → creatdirentry ptr name s
      ≡ some (pos (slot + 60), record s { disk = write s.disk slot 60 name })
unfolding creatdirentry
creatdirentry-NoName n ptr slot name s free low at inside =
    creatdirentry_loop-NoName n 64 ptr slot name s free low at inside

pub word_at-kept :
    (d d' : Disk) (p : ℕ)
    → ((a : ℕ) → p ≤ a → a < p + 4 → d'.bytes a ≡ d.bytes a)
    → word_at d'.bytes p ≡ word_at d.bytes p
word_at-kept d d' p kept = cc (
  kept p (omega arith) (omega arith),
  kept (p + 1) (omega arith) (omega arith),
  kept (p + 2) (omega arith) (omega arith),
  kept (p + 3) (omega arith) (omega arith),
)

pub inum_at-kept :
    (d d' : Disk) (ptr : ℕ)
    → ((a : ℕ) → a < 64 → d'.bytes (ptr + a) ≡ d.bytes (ptr + a))
    → inum_at d' ptr ≡ inum_at d ptr
inum_at-kept d d' ptr kept =
    cc (kept 60 (omega arith), kept 61 (omega arith), kept 62 (omega arith), kept 63 (omega arith))

-- The entries before stay, and the slot has the name.
pub NoName-HasName :
    (d d' : Disk) (name : Bytes) (ptr n slot : ℕ)
    → NoName d name ptr n
    → slot ≡ ptr + 64 * n
    → ((a : ℕ) → ptr ≤ a → a < slot → d'.bytes a ≡ d.bytes a)
    → same_string (entry_at d' slot) name 0 64 ≡ true
    → inum_at d' slot == minus_one_word ≡ false
    → HasName d' name ptr n
NoName-HasName d d' name ptr zero slot free at kept match used =
    let here : slot ≡ ptr = omega arith in (rw here at match, rw here at used)
NoName-HasName d d' name ptr (suc n) slot (other, used, free) at kept match set = (
  same_string_ext (entry_at d' ptr) (entry_at d ptr) name 0 64
        (λ a low. kept (ptr + a) (omega arith) (omega arith))
      ∙ other,
  ap (λ w. w == minus_one_word)
        (inum_at-kept d d' ptr λ a low. kept (ptr + a) (omega arith) (omega arith))
      ∙ used,
  NoName-HasName d d' name (ptr + 64) n slot free (omega arith)
      (λ a low high. kept a (omega arith) high) match set,
)

-- The entries up to the slot stay.
pub HasName-kept :
    (d d' : Disk) (name : Bytes) (ptr n : ℕ)
    → ((a : ℕ) → ptr ≤ a → a < ptr + 64 * suc n → d'.bytes a ≡ d.bytes a)
    → HasName d name ptr n
    → HasName d' name ptr n
HasName-kept d d' name ptr zero kept (same, used) = (
  same_string_ext (entry_at d' ptr) (entry_at d ptr) name 0 64
        (λ a low. kept (ptr + a) (omega arith) (omega arith))
      ∙ same,
  ap (λ w. w == minus_one_word)
        (inum_at-kept d d' ptr λ a low. kept (ptr + a) (omega arith) (omega arith))
      ∙ used,
)
HasName-kept d d' name ptr (suc n) kept (other, used, has) = (
  same_string_ext (entry_at d' ptr) (entry_at d ptr) name 0 64
        (λ a low. kept (ptr + a) (omega arith) (omega arith))
      ∙ other,
  ap (λ w. w == minus_one_word)
        (inum_at-kept d d' ptr λ a low. kept (ptr + a) (omega arith) (omega arith))
      ∙ used,
  HasName-kept d d' name (ptr + 64) n (λ a low high. kept a (omega arith) (omega arith)) has,
)

-- A name of fewer than `j` bytes that was copied.
pub same_string-copy :
    (f name : Bytes) (i k j l : ℕ)
    → string_length name i k < j
    → j ≤ k
    → j ≤ l
    → ((a : ℕ) → a < i + j → f a ≡ name a)
    → same_string f name i l ≡ true
unfolding same_string string_length
same_string-copy f name i k zero l short in_name in_entry copied = absurd (omega arith)
same_string-copy f name i zero (suc j) l short in_name in_entry copied = absurd (omega arith)
same_string-copy f name i (suc k) (suc j) zero short in_name in_entry copied = absurd (omega arith)
same_string-copy f name i (suc k) (suc j) (suc l) short in_name in_entry copied = ground (
  arith,
  copied i (omega arith),
  same_string-copy f name (suc i) k j l,
  λ (a : ℕ) (low : a < suc i + j). copied a (omega arith),
)

pub small-not_minus_one : (w k : ℕ) → w ≡ k → k < 16 → w == minus_one_word ≡ false
small-not_minus_one w k same low = ground arith

pub inum_at-word : (d : Disk) (ptr : ℕ) → inum_at d ptr ≡ word_at d.bytes (ptr + 60)
inum_at-word d ptr =
    let one : ptr + 61 ≡ ptr + 60 + 1 = omega arith in
    let two : ptr + 62 ≡ ptr + 60 + 2 = omega arith in
    let three : ptr + 63 ≡ ptr + 60 + 3 = omega arith in cc
