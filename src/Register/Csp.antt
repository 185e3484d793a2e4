-- ===== src/Register/Csp.antt =====
-- The stack pointer field of MODE, which the fork instructions step by `csp(csp() + 1)`.
use red_o_lator.Base.{
  ℕ, zero, suc, ◌+◌, ◌*◌, ◌/◌, ◌%◌, ◌^◌, ◌-◌, ◌≤◌, ◌<◌, ◌≡◌, refl, arith, ap, bit_and, bit_or, u32,
}
use red_o_lator.Base.Bits.{bit_and_step, bit_or_step}
use red_o_lator.Base.BitLaws.{bit_and-zero}
use red_o_lator.Base.BitOps.{bit_or_high}
use red_o_lator.Register.Mode.{ModeReg, csp, set_csp}

-- The mask 0xe drops the lowest bit.
and_mask : (x : ℕ) → x < 8 → bit_and x 14 ≡ x - x % 2
and_mask x h = ground (
  arith,
  bit_and_step x 14,
  bit_and_step (x / 2) 7,
  bit_and_step (x / 2 / 2) 3,
  bit_and_step (x / 2 / 2 / 2) 1,
  bit_and-zero (x / 2 / 2 / 2 / 2),
)

pub csp-eq : (m : ModeReg) → m.value < 2 ^ 32 → csp m ≡ m.value / 2 ^ 29 - m.value / 2 ^ 29 % 2
unfolding csp
csp-eq m h = omega (arith, and_mask (m.value / 2 ^ 29) (omega arith))

or_self : (n x : ℕ) → x ≤ n → bit_or x x ≡ x
or_self n zero h = refl
or_self zero (suc x) h = absurd (omega arith)
or_self (suc n) (suc x) h =
    omega (arith, bit_or_step (suc x) (suc x), or_self n (suc x / 2) (omega arith))

or_even : (x : ℕ) → bit_or x (x - x % 2) ≡ x
or_even x =
    let half : (x - x % 2) / 2 ≡ x / 2 = omega arith in
    ground (arith, bit_or_step x (x - x % 2), half, or_self (x / 2) (x / 2) (omega arith))

-- Stepping the stack pointer as the fork instructions do, `csp(csp() + 1)`, changes no bit of MODE,
-- whatever MODE holds: the field's masks drop the bit that the increment sets.
pub set_csp_step : (m : ModeReg) → m.value < 2 ^ 32 → set_csp m (csp m + 1) ≡ m
unfolding set_csp
set_csp_step m h = λ i. record { value = same_value i }
  where
    high : ℕ
    high = m.value / 2 ^ 29

    stored : u32 (bit_and (csp m + 1) 0xe * 2 ^ 29) ≡ (high - high % 2) * 2 ^ 29
    stored = rw (csp-eq m h) (omega (arith, and_mask (high - high % 2 + 1) (omega arith)))

    parts : high * 2 ^ 29 + m.value % 2 ^ 29 ≡ m.value
    parts = omega arith

    same_value : bit_or m.value (u32 (bit_and (csp m + 1) 0xe * 2 ^ 29)) ≡ m.value
    same_value = rw stored (
        omega (
          arith,
          ap (λ t. bit_or t ((high - high % 2) * 2 ^ 29)) parts,
          bit_or_high 29 high (m.value % 2 ^ 29) (high - high % 2) (omega arith),
          or_even high,
        ))
