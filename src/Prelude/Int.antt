-- ===== src/Prelude/Int.antt =====
-- Signed results of operations that answer with a number or a negative error code.
use Prim.Native.Nat.{ℕ}

-- `negsuc n` is -(n + 1).
pub data ℤ : Type 0 where
  pos : ℕ → ℤ
  negsuc : ℕ → ℤ
