-- ===== src/Common/Integer.antt =====
-- Go's int, where the program only passes it on. `negsuc n` is -(n + 1).
use Prim.Native.Nat.{ℕ}

pub data ℤ : Type 0 where
  pos : ℕ → ℤ
  negsuc : ℕ → ℤ
