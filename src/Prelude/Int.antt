-- ===== src/Prelude/Int.antt =====
-- Go's `int` where it may be negative, over the native numbers (the library's ℤ stands on the unary ℕ).
use Prim.Native.Nat.{ℕ}

-- `negsuc n` is -(n + 1).
pub data ℤ : Type 0 where
  pos : ℕ → ℤ
  negsuc : ℕ → ℤ
