-- ===== src/Base/Numbers.antt =====
-- C's signed numbers over the native naturals.
use Prim.Native.Nat.{ℕ}

pub data ℤ : Type 0 where
  pos negsuc : ℕ → ℤ
