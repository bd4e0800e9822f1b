-- ===== src/Mfs/Disk.antt =====
-- The image file of the server in p5/MFS, and memory as bytes. An `int` is its bit pattern, with the
-- least byte first, and a buffer is a function from offsets.
use bacon_eggs.Prelude.{
  refl, ℕ, zero, suc, ◌+◌, ◌-◌, ◌*◌, ◌/◌, ◌%◌, ◌^◌, ◌≤◌, ◌<◌, ◌≡◌, ap, Bool-cases, ◌⊎◌, inl, inr,
  ◌&&◌, arith, ltb, leb, if◌then◌else◌,
}

abbrev pub Bytes : Type 0
Bytes = ℕ → ℕ

-- The bytes of a word.
abbrev pub byte_of : ℕ → Bytes
byte_of w zero = w % 256
byte_of w (suc zero) = w / 256 % 256
byte_of w (suc (suc zero)) = w / 65536 % 256
byte_of w (suc (suc (suc j))) = w / 16777216 % 256

-- The word at an offset.
abbrev pub word_at : Bytes → ℕ → ℕ
word_at f p = f p + 256 * f (p + 1) + 65536 * f (p + 2) + 16777216 * f (p + 3)

-- A copy of `n` bytes of `buf` to offset `loc`.
abbrev pub store : Bytes → (loc n : ℕ) → Bytes → Bytes
store f loc n buf a = if leb loc a && ltb a (loc + n) then buf (a - loc) else f a

-- What `lseek` and `read`, `lseek` and `write` do: a read stops at the end of the file, and a write
-- behind it leaves zeros between.
pub record Disk : Type 0 where
  pub bytes : Bytes
  pub size : ℕ

abbrev pub read : Disk → (loc n : ℕ) → Bytes → Bytes
read d loc n old a = if ltb a n && ltb (loc + a) d.size then d.bytes (loc + a) else old a

abbrev pub read_int : Disk → (loc old : ℕ) → ℕ
read_int d loc old = word_at (read d loc 4 (byte_of old)) 0

abbrev pub write : Disk → (loc n : ℕ) → Bytes → Disk
write d loc n buf = record {
  bytes = store d.bytes loc n buf;
  size = if ltb d.size (loc + n) then loc + n else d.size;
}

abbrev pub write_int : Disk → (loc w : ℕ) → Disk
write_int d loc w = write d loc 4 (byte_of w)

-- A word inside the file.
pub read_int-word_at :
    (d : Disk) (loc old : ℕ) → loc + 4 ≤ d.size → read_int d loc old ≡ word_at d.bytes loc
read_int-word_at d loc old inside = ground arith

-- A write beside a word.
pub word_at-store_out :
    (f : Bytes) (loc n : ℕ) (buf : Bytes) (p : ℕ)
    → (p + 4 ≤ loc) ⊎ (loc + n ≤ p)
    → word_at (store f loc n buf) p ≡ word_at f p
word_at-store_out f loc n buf p apart = ground arith

pub store_in :
    (f : Bytes) (loc n : ℕ) (buf : Bytes) (a q : ℕ)
    → a ≡ loc + q
    → q < n
    → store f loc n buf a ≡ buf q
store_in f loc n buf a q e inside =
    let e' : a - loc ≡ q = omega arith in
    elim (Bool-cases (leb loc a && ltb a (loc + n))) [
      | inl there ↦ rw there (ap buf e')
      | inr away ↦ absurd (ground arith)
    ]

-- A write over a word.
pub word_at-store_in :
    (f : Bytes) (loc n : ℕ) (buf : Bytes) (p q : ℕ)
    → p ≡ loc + q
    → q + 4 ≤ n
    → word_at (store f loc n buf) p ≡ word_at buf q
word_at-store_in f loc n buf p q e inside = cc (
  store_in f loc n buf p q e (omega arith),
  store_in f loc n buf (p + 1) (q + 1) (omega arith) (omega arith),
  store_in f loc n buf (p + 2) (q + 2) (omega arith) (omega arith),
  store_in f loc n buf (p + 3) (q + 3) (omega arith) (omega arith),
)

pub word_at-byte_of : (w : ℕ) → w < 2 ^ 32 → word_at (byte_of w) 0 ≡ w
word_at-byte_of w small = omega arith

-- A byte beside a write, and the size after one.
pub store_out :
    (f : Bytes) (loc n : ℕ) (buf : Bytes) (a : ℕ)
    → (a < loc) ⊎ (loc + n ≤ a)
    → store f loc n buf a ≡ f a
store_out f loc n buf a apart = ground arith

pub size-write :
    (d : Disk) (loc n : ℕ) (buf : Bytes)
    → (d.size ≤ (write d loc n buf).size) × (loc + n ≤ (write d loc n buf).size)
size-write d loc n buf = ground arith

pub read_in :
    (d : Disk) (loc n : ℕ) (old : Bytes) (a q : ℕ)
    → a < n
    → loc + n ≤ d.size
    → q ≡ loc + a
    → read d loc n old a ≡ d.bytes q
read_in d loc n old a q low inside at = ground arith

-- A word that is read whole.
pub word_at-read :
    (d : Disk) (loc n : ℕ) (old : Bytes) (p : ℕ)
    → p + 4 ≤ n
    → loc + n ≤ d.size
    → word_at (read d loc n old) p ≡ word_at d.bytes (loc + p)
word_at-read d loc n old p low inside = cc (
  read_in d loc n old p (loc + p) (omega arith) inside refl,
  read_in d loc n old (p + 1) (loc + p + 1) (omega arith) inside (omega arith),
  read_in d loc n old (p + 2) (loc + p + 2) (omega arith) inside (omega arith),
  read_in d loc n old (p + 3) (loc + p + 3) (omega arith) inside (omega arith),
)
