-- ===== src/Prelude/Int.antt =====
-- The integers of C over the native numbers. `negsuc n` is -(n + 1).
use Prim.Native.Nat.{ℕ}

pub data ℤ : Type 0 where
  pos : ℕ → ℤ
  negsuc : ℕ → ℤ

-- The -1 that the C functions return on failure.
abbrev pub minus_one : ℤ
minus_one = negsuc 0
