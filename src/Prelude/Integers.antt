-- ===== src/Prelude/Integers.antt =====
-- Integers, under the library's names.
use Prim.Native.Nat.{ℕ}

-- The integers over the native numbers: `negsuc n` is -(n + 1).
pub data ℤ : Type 0 where
  pos negsuc : ℕ → ℤ
