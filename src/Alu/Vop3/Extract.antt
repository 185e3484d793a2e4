-- ===== src/Alu/Vop3/Extract.antt =====
-- V_BFE_U32 and the clamped sums.
use native.Mathlib.Nat.{
  mul_comm, mul-div-mul_left, one-le-pow, pow-le-pow_right, mul-le-mul, mod-eq_of_lt,
}
use red_o_lator.Base.Fields.{pow-add}
use red_o_lator.Base.{
  ℕ, ◌+◌, ◌-◌, ◌*◌, ◌/◌, ◌%◌, ◌^◌, ◌<◌, ◌≤◌, ◌≡◌, arith, refl, true, false, bit_and, ltb, ltb→lt,
  if◌then◌else◌, Bool-cases, inl, inr, ltb_ℤ, pos, negsuc, to_int, ◌+ℤ◌,
}
use red_o_lator.Base.BitLaws.{bit_and_mask}
use red_o_lator.Util.{sign_ext16}
use red_o_lator.Wavefront.VectorStates.{Vop3Lane}
use red_o_lator.Alu.Vop3.Arith.{run_v_add_i16}
use red_o_lator.Alu.Vop3.Bits.{run_v_bfe_u32}

-- No sum of two 16-bit values passes the bounds of the tests.
sum_16 :
    (a b : ℕ)
    → (ltb_ℤ (pos 0xffff) (to_int 16 a +ℤ to_int 16 b) ≡ false)
      × (ltb_ℤ (to_int 16 a +ℤ to_int 16 b) (negsuc 0xffff) ≡ false)
unfolding ◌+ℤ◌
sum_16 a b = (ground arith, ground arith)

-- The clamp flag does not change what `v_add_i16` stores, in any lane.
pub add_i16-clamp : (lane : Vop3Lane) → run_v_add_i16 true lane ≡ run_v_add_i16 false lane
unfolding run_v_add_i16 sign_ext16
add_i16-clamp lane =
    let (below, above) = sum_16 (bit_and lane.src0 0xffff) (bit_and lane.src1 0xffff) in
    rw (below, above) refl

scaled : (x k s : ℕ) → x * 2 ^ k / 2 ^ (k + s) ≡ x / 2 ^ s
scaled x k s =
    rw (pow-add k s, mul_comm x (2 ^ k)) (mul-div-mul_left x (2 ^ s) (one-le-pow k 2 (omega arith)))

-- A word shifted up by k is not cut off.
whole : (x k : ℕ) → x < 2 ^ 32 → k ≤ 32 → x * 2 ^ k % 2 ^ 64 ≡ x * 2 ^ k
whole x k small few =
    let power : 2 ^ k ≤ 2 ^ 32 = pow-le-pow_right {n = 2} (omega arith) few in
    let product : x * 2 ^ k ≤ (2 ^ 32 - 1) * 2 ^ 32 =
      mul-le-mul {m₁ = 2 ^ k} {n₂ = 2 ^ 32 - 1} (omega arith) power in
    mod-eq_of_lt (omega arith)

extracted :
    (x s l : ℕ)
    → x < 2 ^ 32
    → s < 32
    → l < 32
    → (if ltb (s + l) 32 then x * 2 ^ (32 - s - l) % 2 ^ 64 / 2 ^ (32 - l) else x / 2 ^ s)
      ≡ x / 2 ^ s
extracted x s l small hs hl = elim (Bool-cases (ltb (s + l) 32)) [
  | inl e ↦
      let lt : s + l < 32 = ltb→lt (s + l) 32 e in
      let up : 32 - l ≡ (32 - s - l) + s = omega arith in
      rw (e, whole x (32 - s - l) small (omega arith), up) (scaled x (32 - s - l) s)
  | inr e ↦ rw e refl
]

-- For a SRC0 of 32 bits, `v_bfe_u32` stores SRC0 shifted down by the low five bits of SRC1, whatever the
-- length in SRC2: no bit above the field is cut off.
pub bfe_u32-uncut :
    (lane : Vop3Lane) (src2 : ℕ)
    → lane.src0 < 2 ^ 32
    → (run_v_bfe_u32 lane src2).vdst ≡ lane.src0 / 2 ^ (lane.src1 % 32)
unfolding run_v_bfe_u32
bfe_u32-uncut lane src2 small =
    rw (bit_and_mask 5 lane.src1, bit_and_mask 5 src2)
      (extracted lane.src0 (lane.src1 % 32) (src2 % 32) small (omega arith) (omega arith))
