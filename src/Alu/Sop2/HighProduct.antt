-- ===== src/Alu/Sop2/HighProduct.antt =====
-- `s_mul_hi_i32` widens its first operand without its sign.
use red_o_lator.Base.{
  ℕ, ◌+◌, ◌-◌, ◌*◌, ◌^◌, ◌≤◌, ◌<◌, ◌≡◌, arith, ltb, false, ℤ, pos, negsuc, i32, i64, of_int, suc,
  ◌+ℤ◌, ◌*ℤ◌, floor_div, if◌then◌else◌, lt→ltb, ap,
}
use native.Mathlib.Decide.{dec_lt}
use red_o_lator.Wavefront.States.{WfStateSop2}
use red_o_lator.Alu.Sop2.Arith.{run_s_mul_hi_i32, wrap64}
use red_o_lator.Alu.Sop2.Carry.{HasWords}

-- The high word of the signed product.
abbrev pub signed_high : ℕ → ℕ → ℤ
signed_high a b = floor_div (i32 a *ℤ i32 b) (2 ^ 32)

below : (a b m n : ℕ) → a ≤ m → b ≤ n → a * b ≤ m * n
below a b m n p q = grind arith

i32_pos : (n : ℕ) → n < 2 ^ 31 → i32 n ≡ pos n
i32_pos n h = ground arith

i32_neg : (n : ℕ) → 2 ^ 31 ≤ n → n < 2 ^ 32 → i32 n ≡ negsuc (2 ^ 32 - 1 - n)
i32_neg n h k = ground arith

i64_word : (n : ℕ) → n < 2 ^ 32 → i64 n ≡ pos n
i64_word n h = ground arith

-- The stored word as a function of the operands.
high_word : ℕ → ℕ → ℕ
unfolding run_s_mul_hi_i32
high_word a b = of_int 64 (floor_div (wrap64 (i64 a *ℤ i32 b)) (2 ^ 32))

plus_plus : (a b : ℕ) → a < 2 ^ 31 → b < 2 ^ 31 → i32 (high_word a b) ≡ signed_high a b
unfolding high_word
plus_plus a b h k =
    rw (i64_word a (omega arith), i32_pos b k, i32_pos a h)
      (ground (arith, below a b (2 ^ 31) (2 ^ 31) (omega arith) (omega arith)))

plus_minus :
    (a b : ℕ) → a < 2 ^ 31 → 2 ^ 31 ≤ b → b < 2 ^ 32 → i32 (high_word a b) ≡ signed_high a b
unfolding high_word
plus_minus a b h k l =
    rw (i64_word a (omega arith), i32_neg b k l, i32_pos a h)
      (ground (arith, below a (suc (2 ^ 32 - 1 - b)) (2 ^ 31) (2 ^ 31) (omega arith) (omega arith)))

halves : (a c b : ℕ) → a + c ≡ 2 ^ 32 → a * b + c * b ≡ 2 ^ 32 * b
halves a c b h = omega (arith, ap (λ (t : ℕ). t * b) h)

minus_plus :
    (a b : ℕ)
    → 2 ^ 31 ≤ a
    → a < 2 ^ 32
    → b < 2 ^ 31
    → i32 (high_word a b) ≡ signed_high a b +ℤ i32 b
unfolding high_word ◌+ℤ◌
minus_plus a b h k l =
    let c = suc (2 ^ 32 - 1 - a) in
    rw (i64_word a k, i32_pos b l, i32_neg a h k)
      (ground (
        arith,
        below a b (2 ^ 32) (2 ^ 31) (omega arith) (omega arith),
        below c b (2 ^ 31) (2 ^ 31) (omega arith) (omega arith),
        halves a c b (omega arith),
      ))

minus_minus :
    (a b : ℕ)
    → 2 ^ 31 ≤ a
    → a < 2 ^ 32
    → 2 ^ 31 ≤ b
    → b < 2 ^ 32
    → i32 (high_word a b) ≡ signed_high a b +ℤ i32 b
unfolding high_word ◌+ℤ◌
minus_minus a b h k l m =
    let c = suc (2 ^ 32 - 1 - a) in
    let d = suc (2 ^ 32 - 1 - b) in
    rw (i64_word a k, i32_neg b l m, i32_neg a h k)
      (ground (
        arith,
        below a d (2 ^ 32) (2 ^ 31) (omega arith) (omega arith),
        below c d (2 ^ 31) (2 ^ 31) (omega arith) (omega arith),
        halves a c d (omega arith),
      ))

-- For all 32-bit operands, `s_mul_hi_i32` stores the high word of the signed product when the first
-- operand is not negative; when it is, it stores that word plus the second operand.
pub mul_hi_i32_lem :
    (s : WfStateSop2)
    → HasWords s
    → let high = signed_high s.ssrc0 s.ssrc1 in
      i32 (run_s_mul_hi_i32 s).sdst ≡ (if ltb s.ssrc0 (2 ^ 31) then high else high +ℤ i32 s.ssrc1)
unfolding run_s_mul_hi_i32 high_word
mul_hi_i32_lem s h = elim (dec_lt s.ssrc0 (2 ^ 31)) [
  | yes p ↦ elim (dec_lt s.ssrc1 (2 ^ 31)) [
    | yes q ↦ rw (lt→ltb _ _ p) (plus_plus s.ssrc0 s.ssrc1 p q)
    | no q ↦ rw (lt→ltb _ _ p) (plus_minus s.ssrc0 s.ssrc1 p (omega arith) h.1)
  ]
  | no p ↦
      let e : ltb s.ssrc0 (2 ^ 31) ≡ false = ground arith in
      elim (dec_lt s.ssrc1 (2 ^ 31)) [
        | yes q ↦ rw e (minus_plus s.ssrc0 s.ssrc1 (omega arith) h.0 q)
        | no q ↦ rw e (minus_minus s.ssrc0 s.ssrc1 (omega arith) h.0 (omega arith) h.1)
      ]
]
