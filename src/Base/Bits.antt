-- ===== src/Base/Bits.antt =====
-- The native bit operations at variables: one equation for the lowest digit, from the recursion
-- on binary digits that they stand for, and what follows for masks, fields and single bits.
use Prim.Native.Nat.{
  ℕ, zero, suc, ◌+◌, ◌*◌, ◌/◌, ◌%◌, ◌≤◌, ◌<◌, min, max, differ, bit_and, bit_or, bit_xor, digits,
  bitwise, bit_and-bitwise, bit_or-bitwise, bit_xor-bitwise,
}
use mathlib.Core.Path.{◌≡◌, refl}
use native.Mathlib.Omega.{arith}

-- More fuel than digits changes nothing.
module _ (z : ℕ → ℕ) (f : ℕ → ℕ → ℕ) where
  digits-enough : (a b n m : ℕ) → a ≤ m → a ≤ n → digits z f n a b ≡ digits z f m a b
  digits-enough zero b zero zero h k = refl
  digits-enough zero b (suc n) zero h k = refl
  digits-enough zero b zero (suc m) h k = refl
  digits-enough zero b (suc n) (suc m) h k = refl
  digits-enough (suc a) b zero m h k = absurd (omega arith)
  digits-enough (suc a) b (suc n) zero h k = absurd (omega arith)
  digits-enough (suc a) b (suc n) (suc m) h k =
      let half = digits-enough (suc a / 2) (b / 2) n m (omega arith) (omega arith) in rw half refl

  bitwise_step :
      (a b : ℕ)
      → bitwise z f (suc a) b ≡ bitwise z f (suc a / 2) (b / 2) * 2 + f (suc a % 2) (b % 2)
  bitwise_step a b =
      omega (arith, digits-enough (suc a / 2) (b / 2) a (suc a / 2) (omega arith) (omega arith))

pub bit_and_step : (x y : ℕ) → bit_and x y ≡ bit_and (x / 2) (y / 2) * 2 + min (x % 2) (y % 2)
bit_and_step (suc x) y = let step = bitwise_step (λ z. 0) min x y in simp bit_and-bitwise step
bit_and_step zero y = simp bit_and-bitwise (omega arith)

pub bit_or_step : (x y : ℕ) → bit_or x y ≡ bit_or (x / 2) (y / 2) * 2 + max (x % 2) (y % 2)
bit_or_step (suc x) y = let step = bitwise_step (λ z. z) max x y in simp bit_or-bitwise step
bit_or_step zero y = simp bit_or-bitwise (omega arith)

differ-digit : (a b : ℕ) → a < 2 → b < 2 → differ a b ≡ (a + b) % 2
differ-digit zero b p q = omega arith
differ-digit (suc zero) zero p q = refl
differ-digit (suc zero) (suc zero) p q = refl
differ-digit (suc zero) (suc (suc b)) p q = absurd (omega arith)
differ-digit (suc (suc a)) b p q = absurd (omega arith)

pub bit_xor_step : (a b : ℕ) → bit_xor a b ≡ bit_xor (a / 2) (b / 2) * 2 + (a + b) % 2
bit_xor_step zero b = simp bit_xor-bitwise (omega arith)
bit_xor_step (suc a) b = simp bit_xor-bitwise (
    omega (
      arith,
      bitwise_step (λ y. y) differ a b,
      differ-digit (suc a % 2) (b % 2) (omega arith) (omega arith),
    ))
