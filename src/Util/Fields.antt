-- ===== src/Util/Fields.antt =====
-- `bit_count` adds neighbouring fields, twice as wide in each line: each line keeps the sum of the
-- fields, so the last product holds the number of ones.
use red_o_lator.Base.{
  ℕ, zero, suc, ◌+◌, ◌-◌, ◌*◌, ◌/◌, ◌%◌, ◌^◌, ◌≤◌, ◌<◌, ◌≡◌, refl, arith, bit_and,
}
use native.Mathlib.Nat.{pow-suc}
use red_o_lator.Base.Bits.{bit_and_step}
use red_o_lator.Base.BitLaws.{bit_and-le_right, bit_and-zero}

-- The number of ones among the low w bits.
unfoldable pub popcount : ℕ → ℕ → ℕ
popcount zero n = 0
popcount (suc w) n = n % 2 + popcount w (n / 2)

-- The sum of the k low digits to base 2 ^ 2, 2 ^ 4 or 2 ^ 8.
abbrev pub digit_sum : ℕ → ℕ → ℕ → ℕ
digit_sum base zero n = 0
digit_sum base (suc k) n = n % base + digit_sum base k (n / base)

-- n has k digits to that base, none above c.
abbrev pub HasSmall : ℕ → ℕ → ℕ → ℕ → Type 0
HasSmall base c zero n = n ≡ 0
HasSmall base c (suc k) n = (n % base ≤ c) × HasSmall base c k (n / base)

-- The number whose k digits to a base are all c.
abbrev pub repeat : ℕ → ℕ → ℕ → ℕ
repeat base c zero = 0
repeat base c (suc k) = repeat base c k * base + c

abbrev pub pairs : ℕ → ℕ → ℕ
pairs k n = n - bit_and (n / 2) (repeat 4 1 k)

pairs_and_step :
    (k n : ℕ)
    → bit_and (n / 2) (repeat 4 1 (suc k)) ≡ bit_and (n / 4 / 2) (repeat 4 1 k) * 4 + n / 2 % 2
pairs_and_step k n = ground (
  arith,
  bit_and_step (n / 2) (repeat 4 1 k * 4 + 1),
  bit_and_step (n / 2 / 2) (repeat 4 1 k * 2),
)

abbrev pub double : ℕ → ℕ
double zero = 0
double (suc k) = suc (suc (double k))

-- First line: a pair of bits becomes the number of its ones.
pub record Pairs (k n : ℕ) : Type 0 where
  pub fits : bit_and (n / 2) (repeat 4 1 k) ≤ n
  pub counts : digit_sum 4 k (pairs k n) ≡ popcount (double k) n
  pub small : HasSmall 4 2 k (pairs k n)

pub pairs_lem : (k n : ℕ) → n < 4 ^ k → Pairs k n
unfolding popcount
pairs_lem zero n h = record {
  fits = omega (arith, bit_and-le_right (n / 2) 0);
  counts = refl;
  small = omega arith;
}
pairs_lem (suc k) n h =
    let p = pairs_lem k (n / 4) (omega (arith, pow-suc 4 k)) in
    let low : pairs (suc k) n % 4 ≡ n % 2 + n / 2 % 2 = omega (arith, pairs_and_step k n, p.fits) in
    let rest : pairs (suc k) n / 4 ≡ pairs k (n / 4) = omega (arith, pairs_and_step k n, p.fits) in
    let quarter : n / 2 / 2 ≡ n / 4 = omega arith in
    record {
      fits = omega (arith, pairs_and_step k n, p.fits);
      counts = rw (low, rest, quarter) (omega (arith, p.counts));
      small = (omega (arith, low), rw rest p.small);
    }

-- A mask with two low zeros, and one with two low ones.
and_zeros : (a r : ℕ) → bit_and a (r * 4) ≡ bit_and (a / 4) r * 4
and_zeros a r = ground (arith, bit_and_step a (r * 4), bit_and_step (a / 2) (r * 2))

and_ones : (a r : ℕ) → bit_and a (r * 4 + 3) ≡ bit_and (a / 4) r * 4 + a % 4
and_ones a r = ground (arith, bit_and_step a (r * 4 + 3), bit_and_step (a / 2) (r * 2 + 1))

and_nibble : (a r : ℕ) → bit_and a (r * 16 + 3) ≡ bit_and (a / 16) r * 16 + a % 4
and_nibble a r = ground (arith, and_ones a (r * 4), and_zeros (a / 4) r)

and_byte : (a r : ℕ) → bit_and a (r * 256 + 15) ≡ bit_and (a / 256) r * 256 + a % 16
and_byte a r = ground (
  arith,
  and_ones a (r * 64 + 3),
  and_ones (a / 4) (r * 16),
  and_zeros (a / 16) (r * 4),
  and_zeros (a / 64) r,
)

abbrev pub nibbles : ℕ → ℕ → ℕ
nibbles k m = bit_and m (repeat 16 3 k) + bit_and (m / 4) (repeat 16 3 k)

nibbles_step : (k m : ℕ) → nibbles (suc k) m ≡ nibbles k (m / 16) * 16 + (m % 4 + m / 4 % 4)
nibbles_step k m = ground (arith, and_nibble m (repeat 16 3 k), and_nibble (m / 4) (repeat 16 3 k))

-- Second line: pairs to nibbles.
pub record Nibbles (k m : ℕ) : Type 0 where
  pub counts : digit_sum 16 k (nibbles k m) ≡ digit_sum 4 (double k) m
  pub small : HasSmall 16 4 k (nibbles k m)

pub nibbles_lem : (k m : ℕ) → HasSmall 4 2 (double k) m → Nibbles k m
nibbles_lem zero m h = record {
  counts = refl;
  small = rw (bit_and-zero m, bit_and-zero (m / 4)) refl;
}
nibbles_lem (suc k) m h =
    let quarter : m / 4 / 4 ≡ m / 16 = omega arith in
    let p = nibbles_lem k (m / 16) (rw quarter at (h.1.1)) in
    let low : nibbles (suc k) m % 16 ≡ m % 4 + m / 4 % 4 = omega (arith, nibbles_step k m) in
    let rest : nibbles (suc k) m / 16 ≡ nibbles k (m / 16) = omega (arith, nibbles_step k m) in
    record {
      counts = rw (low, rest, quarter) (omega (arith, p.counts));
      small = (omega (arith, low), rw rest p.small);
    }

abbrev pub bytes : ℕ → ℕ → ℕ
bytes k m = bit_and (m + m / 16) (repeat 256 15 k)

bytes_step :
    (k m : ℕ)
    → HasSmall 16 4 (double (suc k)) m
    → m / 256 % 16 ≤ 4
    → bytes (suc k) m ≡ bytes k (m / 256) * 256 + (m % 16 + m / 16 % 16)
bytes_step k m h next = ground (arith, and_byte (m + m / 16) (repeat 256 15 k), carry)
  where
    carry : (m + m / 16) / 256 ≡ m / 256 + m / 256 / 16
    carry = omega arith

-- Third line: nibbles to bytes; the sum of two nibbles fits a nibble.
pub record Bytes (k m : ℕ) : Type 0 where
  pub counts : digit_sum 256 k (bytes k m) ≡ digit_sum 16 (double k) m
  pub small : HasSmall 256 8 k (bytes k m)

top_small : (k m : ℕ) → HasSmall 16 4 (double k) m → m % 16 ≤ 4
top_small zero m h = omega arith
top_small (suc k) m h = h.0

pub bytes_lem : (k m : ℕ) → HasSmall 16 4 (double k) m → Bytes k m
bytes_lem zero m h = record { counts = refl; small = bit_and-zero _ }
bytes_lem (suc k) m h =
    let part : m / 16 / 16 ≡ m / 256 = omega arith in
    let tail : HasSmall 16 4 (double k) (m / 256) = rw part at (h.1.1) in
    let p = bytes_lem k (m / 256) tail in
    let step = bytes_step k m h (top_small k (m / 256) tail) in
    let low : bytes (suc k) m % 256 ≡ m % 16 + m / 16 % 16 = omega (arith, step) in
    let rest : bytes (suc k) m / 256 ≡ bytes k (m / 256) = omega (arith, step) in
    record {
      counts = rw (low, rest, part) (omega (arith, p.counts));
      small = (omega (arith, low), rw rest p.small);
    }
