-- ===== src/Prelude/Integers.antt =====
-- The integers: a number, or the negative of its successor.
use Prim.Native.Nat.{ℕ}

pub data ℤ : Type 0 where
  pos : ℕ → ℤ
  negsuc : ℕ → ℤ
