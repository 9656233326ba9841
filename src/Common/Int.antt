-- ===== src/Common/Int.antt =====
-- The few signed values that the program uses as marks, such as -1.
use Prim.Native.Nat.{ℕ}

-- `negsuc n` is -(n + 1).
pub data ℤ : Type 0 where
  pos : ℕ → ℤ
  negsuc : ℕ → ℤ
