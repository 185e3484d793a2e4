-- ===== src/Base/BitOps.antt =====
-- Complements, powers of two and high fields under the bit operations.
use native.Mathlib.Nat.{pow-suc, mod-eq_of_lt}
use Prim.Native.Nat.{ℕ, zero, suc, ◌+◌, ◌-◌, ◌*◌, ◌/◌, ◌^◌, ◌<◌, bit_or}
use mathlib.Core.Path.{◌≡◌, refl}
use native.Mathlib.Omega.{arith}
use red_o_lator.Base.Tests.{◌==◌, if◌then◌else◌}
use red_o_lator.Base.Word.{bit_not}
use red_o_lator.Base.Bits.{bit_or_step}
use red_o_lator.Base.BitLaws.{bit, bit-zero, shift-suc}

complement : (w i x : ℕ) → x < 2 ^ w → i < w → bit i (2 ^ w - 1 - x) + bit i x ≡ 1
unfolding bit
complement zero i x h lt = absurd (omega arith)
complement (suc w) zero x h lt = omega (arith, pow-suc 2 w)
complement (suc w) (suc i) x h lt =
    let half : (2 ^ suc w - 1 - x) / 2 ≡ 2 ^ w - 1 - x / 2 = omega (arith, pow-suc 2 w) in
    rw half (complement w i (x / 2) (omega (arith, pow-suc 2 w)) (omega arith))

pub bit-bit_not : (w i x : ℕ) → x < 2 ^ w → i < w → bit i (bit_not w x) + bit i x ≡ 1
bit-bit_not w i x h lt = rw (mod-eq_of_lt h) (complement w i x h lt)

pub bit-pow : (i j : ℕ) → bit i (2 ^ j) ≡ (if i == j then 1 else 0)
unfolding bit
bit-pow zero zero = refl
bit-pow zero (suc j) = ground (arith, pow-suc 2 j)
bit-pow (suc i) zero = ground (arith, bit-zero i)
bit-pow (suc i) (suc j) =
    let half : 2 ^ suc j / 2 ≡ 2 ^ j = omega (arith, pow-suc 2 j) in
    rw half (ground (arith, bit-pow i j))

-- `|` with a word that has only high bits leaves the low field alone.
pub bit_or_high :
    (k q r s : ℕ) → r < 2 ^ k → bit_or (q * 2 ^ k + r) (s * 2 ^ k) ≡ bit_or q s * 2 ^ k + r
bit_or_high zero q zero s h = ground arith
bit_or_high zero q (suc r) s h = absurd (omega arith)
bit_or_high (suc k) q r s h = ground (
  arith,
  bit_or_step (q * 2 ^ suc k + r) (s * 2 ^ suc k),
  shift-suc q k,
  shift-suc s k,
  shift-suc (bit_or q s) k,
  pow-suc 2 k,
  bit_or_high k q (r / 2) s (omega (arith, pow-suc 2 k)),
)
