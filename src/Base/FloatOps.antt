-- ===== src/Base/FloatOps.antt =====
-- The floating-point operations of the C++ implementation, which the sources only call.
use Prim.Native.Nat.{ℕ}
use mathlib.Core.Bool.{Bool}

-- `float` sums, differences and products, and `<`, on bit patterns of 32 bits.
pub record Floats : Type 0 where
  pub float_add : ℕ → ℕ → ℕ
  pub float_sub : ℕ → ℕ → ℕ
  pub float_mul : ℕ → ℕ → ℕ
  pub float_lt : ℕ → ℕ → Bool

-- The tests on `static_cast<T>(a)` and `static_cast<T>(b)` for a floating-point type T and words a, b.
pub record Conversions : Type 0 where
  pub lt : ℕ → ℕ → Bool
  pub le : ℕ → ℕ → Bool
  pub eq : ℕ → ℕ → Bool
  pub is_nan : ℕ → Bool
