-- ===== src/Base/LaneBits.antt =====
-- Setting, clearing and testing the bit of one lane in a word of 64 bits.
use native.Mathlib.Nat.{
  pow-suc, pow-le-pow_right, one-le-pow, mod-eq_of_lt, div-div-eq-div-mul, mul_comm,
}
use Prim.Native.Nat.{ℕ, zero, suc, ◌*◌, ◌/◌, ◌^◌, ◌<◌, bit_and, bit_or}
use mathlib.Core.Path.{◌≡◌, refl}
use mathlib.Core.Bool.{Bool, true, false}
use native.Mathlib.Omega.{arith}
use red_o_lator.Base.Tests.{◌==◌, ◌!=◌, if◌then◌else◌, to_nat}
use red_o_lator.Base.Word.{u64, ◌<<<◌, bit_not}
use red_o_lator.Base.BitLaws.{
  bit, bit-zero, bit-lt, bit-bit_and, bit-bit_or, bit_and_pow, bit_or-lt, bit_and-le_left,
}
use red_o_lator.Base.BitOps.{bit-bit_not, bit-pow}

-- `1ull << i`
abbrev pub lane_bit : ℕ → ℕ
lane_bit i = u64 (1 <<< i)

pub pow-lt-word : (i w : ℕ) → i < w → 2 ^ i < 2 ^ w
pow-lt-word i w h = omega (
  arith,
  pow-le-pow_right {n = 2} (omega arith) {i = suc i} {j = w} (omega arith),
  pow-suc 2 i,
  one-le-pow i 2,
)

pub lane_bit-eq : (i : ℕ) → i < 64 → lane_bit i ≡ 2 ^ i
lane_bit-eq i h =
    let one : 1 * 2 ^ i ≡ 2 ^ i = omega arith in rw one (mod-eq_of_lt (pow-lt-word i 64 h))

-- The word with the lane's bit set, or cleared.
abbrev pub put_bit : ℕ → ℕ → Bool → ℕ
put_bit word i b = if b then bit_or word (lane_bit i) else bit_and word (bit_not 64 (lane_bit i))

pub bit-put_bit :
    (word i : ℕ) (b : Bool) (j : ℕ)
    → i < 64
    → j < 64
    → bit j (put_bit word i b) ≡ (if j == i then to_nat b else bit j word)
bit-put_bit word i true j h k =
    rw (lane_bit-eq i h, bit-bit_or j word (2 ^ i), bit-pow j i) (ground (arith, bit-lt j word))
bit-put_bit word i false j h k =
    let other = bit-bit_not 64 j (2 ^ i) (pow-lt-word i 64 h) k in
    rw (lane_bit-eq i h, bit-bit_and j word (bit_not 64 (2 ^ i)))
      (ground (arith, bit-lt j word, bit-pow j i, other))

pub put_bit-lt : (word i : ℕ) (b : Bool) → i < 64 → word < 2 ^ 64 → put_bit word i b < 2 ^ 64
put_bit-lt word i true h lt =
    rw (lane_bit-eq i h) (bit_or-lt 64 word (2 ^ i) lt (pow-lt-word i 64 h))
put_bit-lt word i false h lt = omega (arith, bit_and-le_left word (bit_not 64 (lane_bit i)))

-- The test of the lane's bit.
pub test_bit : (word i : ℕ) → i < 64 → to_nat (bit_and word (lane_bit i) != 0) ≡ bit i word
test_bit word i h =
    rw (lane_bit-eq i h, bit_and_pow i word) (ground (arith, bit-lt i word, one-le-pow i 2))

-- A word with a bit set above bit i is not 1 when it is shifted down to bit i.
not_one : (j word : ℕ) → bit j (word / 2) ≡ 1 → (word == 1) ≡ false
not_one j zero set = refl
not_one j (suc zero) set = let e = bit-zero j in cc
not_one j (suc (suc word)) set = ground arith

pub high_bit : (i j word : ℕ) → i < j → bit j word ≡ 1 → (word / 2 ^ i == 1) ≡ false
unfolding bit
high_bit zero zero word lt set = absurd (omega arith)
high_bit (suc i) zero word lt set = absurd (omega arith)
high_bit zero (suc j) word lt set =
    let whole : word / 1 ≡ word = omega arith in rw whole (not_one j word set)
high_bit (suc i) (suc j) word lt set =
    let halves : word / 2 / 2 ^ i ≡ word / 2 ^ suc i =
      rw (div-div-eq-div-mul word 2 (2 ^ i), mul_comm 2 (2 ^ i), pow-suc 2 i) refl in
    rw halves at (high_bit i j (word / 2) (omega arith) set)
