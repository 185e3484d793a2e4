-- ===== src/Base/BitLaws.antt =====
-- Single bits of the native bit operations, low masks, disjoint fields, and bounds.
use native.Mathlib.Nat.{pow-suc, one-le-pow, div-div-eq-div-mul, mul_comm, div-add-mod', mod-lt}
use Prim.Native.Nat.{
  ℕ, zero, suc, ◌+◌, ◌-◌, ◌*◌, ◌/◌, ◌%◌, ◌^◌, ◌≤◌, ◌<◌, min, max, bit_and, bit_or, bit_xor,
  bit_and-bitwise, bit_or-bitwise,
}
use mathlib.Core.Path.{◌≡◌, refl, ap}
use native.Mathlib.Omega.{arith}
use red_o_lator.Base.Tests.{◌!=◌}
use red_o_lator.Base.Word.{get_bit}
use red_o_lator.Base.Bits.{bit_and_step, bit_or_step, bit_xor_step}

-- Digit i of n.
unfoldable pub bit : ℕ → ℕ → ℕ
bit zero n = n % 2
bit (suc i) n = bit i (n / 2)

pub bit-lt : (i n : ℕ) → bit i n < 2
unfolding bit
bit-lt zero n = omega arith
bit-lt (suc i) n = bit-lt i (n / 2)

pub bit-bit_and : (i a b : ℕ) → bit i (bit_and a b) ≡ min (bit i a) (bit i b)
unfolding bit
bit-bit_and zero a b = omega (arith, bit_and_step a b)
bit-bit_and (suc i) a b =
    let half : bit_and a b / 2 ≡ bit_and (a / 2) (b / 2) = omega (arith, bit_and_step a b) in
    rw half (bit-bit_and i (a / 2) (b / 2))

pub bit-bit_or : (i a b : ℕ) → bit i (bit_or a b) ≡ max (bit i a) (bit i b)
unfolding bit
bit-bit_or zero a b = omega (arith, bit_or_step a b)
bit-bit_or (suc i) a b =
    let half : bit_or a b / 2 ≡ bit_or (a / 2) (b / 2) = omega (arith, bit_or_step a b) in
    rw half (bit-bit_or i (a / 2) (b / 2))

pub bit-bit_xor : (i a b : ℕ) → bit i (bit_xor a b) ≡ (bit i a + bit i b) % 2
unfolding bit
bit-bit_xor zero a b = omega (arith, bit_xor_step a b)
bit-bit_xor (suc i) a b =
    let half : bit_xor a b / 2 ≡ bit_xor (a / 2) (b / 2) = omega (arith, bit_xor_step a b) in
    rw half (bit-bit_xor i (a / 2) (b / 2))

pub bit-eq : (i n : ℕ) → bit i n ≡ n / 2 ^ i % 2
unfolding bit
bit-eq zero n = omega arith
bit-eq (suc i) n =
    rw (bit-eq i (n / 2), div-div-eq-div-mul n 2 (2 ^ i), mul_comm 2 (2 ^ i), pow-suc 2 i) refl

pub bit-zero : (i : ℕ) → bit i 0 ≡ 0
unfolding bit
bit-zero zero = refl
bit-zero (suc i) = bit-zero i

-- Words with the same digits are equal.
pub bit_ext : (w a b : ℕ) → a < 2 ^ w → b < 2 ^ w → ((i : ℕ) → i < w → bit i a ≡ bit i b) → a ≡ b
unfolding bit
bit_ext zero a b p q h = omega arith
bit_ext (suc w) a b p q h =
    let rest : a / 2 ≡ b / 2 =
      bit_ext w (a / 2) (b / 2) (omega (arith, pow-suc 2 w)) (omega (arith, pow-suc 2 w))
        (λ i lt. h (suc i) (omega arith)) in
    omega (arith, h 0 (omega arith))

pub zero-bit_and : (b : ℕ) → bit_and 0 b ≡ 0
zero-bit_and b = bit_and-bitwise 0 b

pub zero-bit_or : (b : ℕ) → bit_or 0 b ≡ b
zero-bit_or b = bit_or-bitwise 0 b

pub bit_and-le_left : (a b : ℕ) → bit_and a b ≤ a
bit_and-le_left a b = go a a b (omega arith)
  where
    go : (n x y : ℕ) → x ≤ n → bit_and x y ≤ x
    go n zero y h = omega (arith, zero-bit_and y)
    go zero (suc x) y h = absurd (omega arith)
    go (suc n) (suc x) y h =
        omega (arith, bit_and_step (suc x) y, go n (suc x / 2) (y / 2) (omega arith))

pub bit_and-zero : (a : ℕ) → bit_and a 0 ≡ 0
bit_and-zero a = go a a (omega arith)
  where
    go : (n x : ℕ) → x ≤ n → bit_and x 0 ≡ 0
    go n zero h = refl
    go zero (suc x) h = absurd (omega arith)
    go (suc n) (suc x) h = omega (arith, bit_and_step (suc x) 0, go n (suc x / 2) (omega arith))

pub bit_or-zero : (a : ℕ) → bit_or a 0 ≡ a
bit_or-zero a = go a a (omega arith)
  where
    go : (n x : ℕ) → x ≤ n → bit_or x 0 ≡ x
    go n zero h = refl
    go zero (suc x) h = absurd (omega arith)
    go (suc n) (suc x) h = omega (arith, bit_or_step (suc x) 0, go n (suc x / 2) (omega arith))

pub bit_and_comm : (a b : ℕ) → bit_and a b ≡ bit_and b a
bit_and_comm a b = go a a b (omega arith)
  where
    go : (n x y : ℕ) → x ≤ n → bit_and x y ≡ bit_and y x
    go n zero y h = rw (bit_and-zero, zero-bit_and y) refl
    go zero (suc x) y h = absurd (omega arith)
    go (suc n) (suc x) y h = omega (
      arith,
      bit_and_step (suc x) y,
      bit_and_step y (suc x),
      go n (suc x / 2) (y / 2) (omega arith),
    )

pub bit_or_comm : (a b : ℕ) → bit_or a b ≡ bit_or b a
bit_or_comm a b = go a a b (omega arith)
  where
    go : (n x y : ℕ) → x ≤ n → bit_or x y ≡ bit_or y x
    go n zero y h = rw (bit_or-zero, zero-bit_or y) refl
    go zero (suc x) y h = absurd (omega arith)
    go (suc n) (suc x) y h = omega (
      arith,
      bit_or_step (suc x) y,
      bit_or_step y (suc x),
      go n (suc x / 2) (y / 2) (omega arith),
    )

pub bit_and-le_right : (a b : ℕ) → bit_and a b ≤ b
bit_and-le_right a b = rw (bit_and_comm a b) (bit_and-le_left b a)

pub bit_or-lt : (w a b : ℕ) → a < 2 ^ w → b < 2 ^ w → bit_or a b < 2 ^ w
bit_or-lt zero zero zero p q = omega arith
bit_or-lt zero (suc a) b p q = absurd (omega arith)
bit_or-lt zero zero (suc b) p q = absurd (omega arith)
bit_or-lt (suc w) a b p q = omega (
  arith,
  pow-suc 2 w,
  bit_or_step a b,
  bit_or-lt w (a / 2) (b / 2) (omega (arith, pow-suc 2 w)) (omega (arith, pow-suc 2 w)),
)

pub bit_xor-lt : (w a b : ℕ) → a < 2 ^ w → b < 2 ^ w → bit_xor a b < 2 ^ w
bit_xor-lt zero zero zero p q = omega arith
bit_xor-lt zero (suc a) b p q = absurd (omega arith)
bit_xor-lt zero zero (suc b) p q = absurd (omega arith)
bit_xor-lt (suc w) a b p q = omega (
  arith,
  pow-suc 2 w,
  bit_xor_step a b,
  bit_xor-lt w (a / 2) (b / 2) (omega (arith, pow-suc 2 w)) (omega (arith, pow-suc 2 w)),
)

pub shift-suc : (q k : ℕ) → q * 2 ^ suc k ≡ 2 * (q * 2 ^ k)
shift-suc q k = let power = pow-suc 2 k in omega (arith, ap (λ (y : ℕ). q * y) power)

-- `(q << k) | r` is a sum when r fits k bits.
pub bit_or_fields : (k q r : ℕ) → r < 2 ^ k → bit_or (q * 2 ^ k) r ≡ q * 2 ^ k + r
bit_or_fields zero q zero h = ground (arith, bit_or-zero q)
bit_or_fields zero q (suc r) h = absurd (omega arith)
bit_or_fields (suc k) q r h = ground (
  arith,
  bit_or_step (q * 2 ^ suc k) r,
  shift-suc q k,
  pow-suc 2 k,
  bit_or_fields k q (r / 2) (omega (arith, pow-suc 2 k)),
)

bit_and_fields : (k q r : ℕ) → r < 2 ^ k → bit_and (q * 2 ^ k + r) (2 ^ k - 1) ≡ r
bit_and_fields zero q zero h = bit_and-zero _
bit_and_fields zero q (suc r) h = absurd (omega arith)
bit_and_fields (suc k) q r h = ground (
  arith,
  bit_and_step (q * 2 ^ suc k + r) (2 ^ suc k - 1),
  shift-suc q k,
  pow-suc 2 k,
  one-le-pow k 2,
  bit_and_fields k q (r / 2) (omega (arith, pow-suc 2 k)),
)

-- A mask of k low bits keeps the remainder by 2 ^ k.
pub bit_and_mask : (k a : ℕ) → bit_and a (2 ^ k - 1) ≡ a % 2 ^ k
bit_and_mask k a =
    let pos : 0 < 2 ^ k = one-le-pow k 2 (omega arith) in
    let split : a / 2 ^ k * 2 ^ k + a % 2 ^ k ≡ a = div-add-mod' a (2 ^ k) in
    rw split at (bit_and_fields k (a / 2 ^ k) (a % 2 ^ k) (mod-lt a pos))

-- A mask of one bit.
pub bit_and_pow : (k a : ℕ) → bit_and a (2 ^ k) ≡ bit k a * 2 ^ k
unfolding bit
bit_and_pow zero a = omega (arith, bit_and_step a 1, bit_and-zero (a / 2))
bit_and_pow (suc k) a = ground (
  arith,
  bit_and_step a (2 ^ suc k),
  pow-suc 2 k,
  bit_and_pow k (a / 2),
  shift-suc (bit k (a / 2)) k,
)

pub get_bit-eq : (n value : ℕ) → get_bit n value ≡ (bit n value != 0)
unfolding get_bit
get_bit-eq n value = ground (arith, bit_and_pow n value, one-le-pow n 2, bit-lt n value)
