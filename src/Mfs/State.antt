-- ===== src/Mfs/State.antt =====
-- The globals of the server in p5/MFS (server.c, server_utils.c) and a call that works on them.
use bacon_eggs.Prelude.{
  ℕ, zero, suc, ◌-◌, ◌/◌, ◌%◌, ◌^◌, ◌≡◌, ap, Option, none, some, ltb, ◌==◌, if◌then◌else◌,
}
use bacon_eggs.Prelude.Int.{ℤ, pos, negsuc}
use bacon_eggs.Mfs.Disk.{Bytes, byte_of, Disk}

-- The pattern of -1.
abbrev pub minus_one_word : ℕ
minus_one_word = 2 ^ 32 - 1

abbrev pub int_word : ℤ → ℕ
int_word (pos n) = n
int_word (negsuc n) = minus_one_word - n

abbrev pub word_int : ℕ → ℤ
word_int w = if ltb w (2 ^ 31) then pos w else negsuc (minus_one_word - w)

-- `inode`: `data_ptrs` is read below 14 only.
pub record Inode : Type 0 where
  pub size : ℕ
  pub type : ℕ
  pub data_ptrs : ℕ → ℕ

-- An array of words as bytes, and an inode as it stands in memory.
abbrev pub int_bytes : (ℕ → ℕ) → Bytes
int_bytes ws a = byte_of (ws (a / 4)) (a % 4)

abbrev pub inode_words : Inode → ℕ → ℕ
inode_words nd zero = nd.size
inode_words nd (suc zero) = nd.type
inode_words nd (suc (suc i)) = nd.data_ptrs i

-- `entry` is `direntry_t`: a name of 60 bytes and the inode number at offset 60. `junk` is what an
-- uninitialised local variable holds, and `behind` what stands in memory behind the 4096 bytes of
-- `rbuf`. Of these bytes `MFS_Unlink_h` writes those at 60 to 63; the model takes them for padding or a
-- variable that no other function of the server reads.
pub record Server : Type 0 where
  pub disk : Disk
  pub inode : Inode
  pub entry : Bytes
  pub rbuf : Bytes
  pub behind : Bytes
  pub stat : ℕ × ℕ
  pub messagecount : ℕ
  pub junk : Bytes

-- A call returns, or has no result: it reads behind an array, seeks before the file, or does not end.
abbrev pub Call : Type 0 → Type 0
Call A = Server → Option (A × Server)

infixl 5 ◌>>=◌ ◌>>◌
abbrev pub ◌>>=◌ : {A B : Type 0} → Call A → (A → Call B) → Call B
◌>>=◌ m f s = elim (m s) [ none ↦ none | some (a, s') ↦ f a s' ]

abbrev pub ◌>>◌ : {A B : Type 0} → Call A → Call B → Call B
m >> k = m >>= λ _. k

abbrev pub return : {A : Type 0} → A → Call A
return a s = some (a, s)

abbrev pub get : Call Server
get s = some (s, s)

abbrev pub fault : {A : Type 0} → Call A
fault s = none

abbrev pub set_inode : Inode → Call (Unit {0})
set_inode nd s = some (tt, record s { inode = nd })

abbrev pub set_rbuf : Bytes → Call (Unit {0})
set_rbuf b s = some (tt, record s { rbuf = b })

abbrev pub set_behind : Bytes → Call (Unit {0})
set_behind b s = some (tt, record s { behind = b })

-- `data_ptrs[i] = p`.
abbrev pub set_ptr : (i p : ℕ) → Inode → Inode
set_ptr i p nd = record nd { data_ptrs = λ j. if j == i then p else nd.data_ptrs j }

pub bind-some :
    {A B : Type 0} (m : Call A) (f : A → Call B) (s : Server) {a : A} {t : Server}
    → m s ≡ some (a, t)
    → (m >>= f) s ≡ f a t
bind-some {A} {B} m f s e =
    ap
      (λ (o : Option (A × Server)). elim o as (λ _. Option (B × Server)) [
        | none ↦ none
        | some (a, t) ↦ f a t
      ])
      e
