-- ===== src/WorkGroup/Lanes.antt =====
-- The EXEC mask that a wavefront starts with.
use red_o_lator.Base.{
  ℕ, ◌-◌, ◌*◌, ◌^◌, ◌≤◌, ◌<◌, ◌≡◌, arith, refl, if◌then◌else◌, ltb, ok, zero, suc, ◌/◌,
}
use native.Mathlib.Decide.{ℕ_discrete}
use native.Mathlib.Nat.{pow-suc, one-le-pow}
use red_o_lator.Base.BitLaws.{bit, bit-zero}
use red_o_lator.WorkGroup.{evaluate_exec_reg_value}

bit_ones : (n i : ℕ) → bit i (2 ^ n - 1) ≡ (if ltb i n then 1 else 0)
unfolding bit
bit_ones zero zero = refl
bit_ones zero (suc i) = ground (arith, bit-zero i)
bit_ones (suc n) zero = ground (arith, pow-suc 2 n, one-le-pow n 2)
bit_ones (suc n) (suc i) =
    let half : (2 ^ suc n - 1) / 2 ≡ 2 ^ n - 1 = omega (arith, pow-suc 2 n, one-le-pow n 2) in
    rw half (ground (arith, bit_ones n i))

-- For a wavefront of n work items, n at most 64, `evaluate_exec_reg_value` returns a mask whose bit i
-- (i below 64) is set exactly when i is below n.
pub evaluate_exec_reg_value-lanes :
    (n i : ℕ)
    → n ≤ 64
    → i < 64
    → (mask : ℕ) × (evaluate_exec_reg_value n ≡ ok mask) × (bit i mask ≡ (if ltb i n then 1 else 0))
unfolding evaluate_exec_reg_value
evaluate_exec_reg_value-lanes n i h k = (2 ^ n - 1, value, bit_ones n i)
  where
    value : evaluate_exec_reg_value n ≡ ok (2 ^ n - 1)
    value = elim (ℕ_discrete n 64) [
      | yes p ↦ rw p refl
      | no p ↦ let one : 1 * 2 ^ n ≡ 2 ^ n = omega arith in ground (arith, one)
    ]
