-- ===== src/Mem/Store.antt =====
-- The globals of p3/mem/mem.c and the headers of p3/mem/include.h.
-- The headers in the region are a function from addresses to `struct header`; the region is mapped
-- from /dev/zero, so a header that was never written reads as zeros. The bytes that a client writes
-- into its blocks are not in the model.
use bacon_eggs.Prelude.{ℕ, ◌-◌, ◌^◌, Bool, ◌==◌, if◌then◌else◌}

abbrev pub Ptr : Type 0
Ptr = ℕ

abbrev pub null : Ptr
null = 0

-- `KEY`, the character z, and the character l of a freed block.
abbrev pub key_value : ℕ
key_value = b'z'

abbrev pub freed_key : ℕ
freed_key = b'l'

-- `struct header`, and its size under the x86-64 ABI.
pub record Header : Type 0 where
  pub key : ℕ
  pub size : ℕ
  pub next : Ptr

abbrev pub sizeof_header : ℕ
sizeof_header = 16

abbrev pub int_max : ℕ
int_max = 2 ^ 31 - 1

abbrev pub e_no_space : ℕ
e_no_space = 1

abbrev pub e_bad_args : ℕ
e_bad_args = 4

abbrev pub e_bad_pointer : ℕ
e_bad_pointer = 5

abbrev pub Heap : Type 0
Heap = Ptr → Header

abbrev pub write : Heap → Ptr → Header → Heap
write h p c a = if a == p then c else h a

abbrev pub set_next : Heap → Ptr → Ptr → Heap
set_next h p q = write h p (record (h p) { next = q })

abbrev pub set_key : Heap → Ptr → ℕ → Heap
set_key h p k = write h p (record (h p) { key = k })

pub record Mem : Type 0 where
  pub start : Ptr
  pub final : Ptr
  pub total : ℕ
  pub head : Ptr
  pub numblocks : ℕ
  pub called : Bool
  pub m_error : ℕ
  pub heap : Heap

-- How a call ends: it returns; the process exits; it runs into undefined behaviour (a NULL
-- dereference or an `int` that overflows); or a loop has used its fuel.
pub data Run (A : Type 0) : Type 0 where
  ok : A → Mem → Run A
  exits : ℕ → Run A
  fault : Run A
  out_of_fuel : Run A
