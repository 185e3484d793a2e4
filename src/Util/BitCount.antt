-- ===== src/Util/BitCount.antt =====
-- `bit_count` is the number of ones: its last line is a product whose top byte is the sum of the
-- bytes.
use red_o_lator.Base.{
  ℕ, ◌+◌, ◌*◌, ◌/◌, ◌^◌, ◌≤◌, ◌<◌, ◌≡◌, arith, bit_and, u32, u64, ◌>>>◌, wrap_sub, ◌∙◌,
}
use red_o_lator.Base.BitLaws.{bit_and-le_right}
use red_o_lator.Util.{bit_count32, bit_count64}
use red_o_lator.Util.Fields.{
  popcount, digit_sum, HasSmall, pairs, nibbles, pairs_lem, nibbles_lem, bytes_lem,
}

product32 : (m : ℕ) → HasSmall 256 8 4 m → u32 (m * 0x01010101) >>> 24 ≡ digit_sum 256 4 m
product32 m h = omega arith

product64 : (m : ℕ) → HasSmall 256 8 8 m → u64 (m * 0x0101010101010101) >>> 56 ≡ digit_sum 256 8 m
product64 m h = omega arith

-- The cuts to the word's width do nothing, since no line overflows.
nibbles32-lt : (m : ℕ) → nibbles 8 m ≤ 0x66666666
nibbles32-lt m = omega (arith, bit_and-le_right m 0x33333333, bit_and-le_right (m / 4) 0x33333333)

nibbles64-lt : (m : ℕ) → nibbles 16 m ≤ 0x6666666666666666
nibbles64-lt m =
    omega
      (arith, bit_and-le_right m 0x3333333333333333, bit_and-le_right (m / 4) 0x3333333333333333)

-- For every 32-bit word, `bit_count(uint32_t)` returns the number of its one bits.
pub bit_count32-popcount : (n : ℕ) → n < 2 ^ 32 → bit_count32 n ≡ popcount 32 n
unfolding bit_count32
bit_count32-popcount n h =
    let p = pairs_lem 16 n h in
    let q = nibbles_lem 8 (pairs 16 n) p.small in
    let r = bytes_lem 4 (nibbles 8 (pairs 16 n)) q.small in
    let small = nibbles32-lt (pairs 16 n) in
    let first : wrap_sub 32 n (bit_and (n / 2) 0x55555555) ≡ pairs 16 n = omega (arith, p.fits) in
    let second : u32 (nibbles 8 (pairs 16 n)) ≡ nibbles 8 (pairs 16 n) = omega arith in
    let third : u32 (nibbles 8 (pairs 16 n) + nibbles 8 (pairs 16 n) / 16)
        ≡ nibbles 8 (pairs 16 n) + nibbles 8 (pairs 16 n) / 16 =
      omega arith in
    rw (first, second, third) (product32 _ r.small ∙ r.counts ∙ q.counts ∙ p.counts)

-- For every 64-bit word, `bit_count(uint64_t)` returns the number of its one bits.
pub bit_count64-popcount : (n : ℕ) → n < 2 ^ 64 → bit_count64 n ≡ popcount 64 n
unfolding bit_count64
bit_count64-popcount n h =
    let p = pairs_lem 32 n h in
    let q = nibbles_lem 16 (pairs 32 n) p.small in
    let r = bytes_lem 8 (nibbles 16 (pairs 32 n)) q.small in
    let small = nibbles64-lt (pairs 32 n) in
    let first : wrap_sub 64 n (bit_and (n / 2) 0x5555555555555555) ≡ pairs 32 n =
      omega (arith, p.fits) in
    let second : u64 (nibbles 16 (pairs 32 n)) ≡ nibbles 16 (pairs 32 n) = omega arith in
    let third : u64 (nibbles 16 (pairs 32 n) + nibbles 16 (pairs 32 n) / 16)
        ≡ nibbles 16 (pairs 32 n) + nibbles 16 (pairs 32 n) / 16 =
      omega arith in
    rw (first, second, third) (product64 _ r.small ∙ r.counts ∙ q.counts ∙ p.counts)

-- For every 64-bit word, `bit_count(uint64_t)` returns the number of its one bits, and `bit_count(uint32_t)`
-- that of its low half.
pub bit_count-popcount :
    (n : ℕ)
    → n < 2 ^ 64
    → (bit_count64 n ≡ popcount 64 n) × (bit_count32 (u32 n) ≡ popcount 32 (u32 n))
bit_count-popcount n h = (bit_count64-popcount n h, bit_count32-popcount (u32 n) (omega arith))
