-- ===== src/Alu/Sop2/Signed.antt =====
-- The signed instructions against integer arithmetic.
use red_o_lator.Base.{
  ℕ, ◌-◌, ◌/◌, ◌%◌, ◌^◌, ◌≡◌, ◌↔◌, ◌≢◌, arith, ◌!=◌, true, false, pos, negsuc, i32, ◌+ℤ◌, ◌-ℤ◌,
  ◌≤ℤ◌, ◌<ℤ◌, abs, get_bit, refl,
}
use red_o_lator.Base.BitLaws.{get_bit-eq, bit-eq}
use red_o_lator.Wavefront.States.{WfStateSop2}
use red_o_lator.Alu.Sop2.Arith.{run_s_add_i32, run_s_sub_i32, run_s_absdiff_i32}
use red_o_lator.Alu.Sop2.Carry.{HasWords}

get_bit_31 : (v : ℕ) → get_bit 31 v ≡ (v / 2 ^ 31 % 2 != 0)
get_bit_31 v = rw (get_bit-eq, bit-eq) refl

-- For all 32-bit operands, `s_sub_i32` stores the exact difference of the signed operands exactly
-- when it leaves SCC clear.
pub sub_i32_overflow :
    (s : WfStateSop2)
    → HasWords s
    → let r = run_s_sub_i32 s in (r.scc ≡ false) ↔ (i32 r.sdst ≡ i32 s.ssrc0 -ℤ i32 s.ssrc1)
unfolding run_s_sub_i32 ◌-ℤ◌
sub_i32_overflow s h = simp get_bit_31 (ground arith)

-- For all 32-bit operands, `s_add_i32` stores the exact sum of the signed operands exactly when it
-- leaves SCC clear.
pub add_i32_overflow :
    (s : WfStateSop2)
    → HasWords s
    → let r = run_s_add_i32 s in (r.scc ≡ false) ↔ (i32 r.sdst ≡ i32 s.ssrc0 +ℤ i32 s.ssrc1)
unfolding run_s_add_i32 ◌+ℤ◌
add_i32_overflow s h = simp get_bit_31 (ground arith)

-- For all 32-bit operands whose signed difference fits 32 bits, `s_absdiff_i32` stores its absolute
-- value, and sets SCC exactly when the operands differ.
pub absdiff_i32_lem :
    (s : WfStateSop2)
    → HasWords s
    → negsuc (2 ^ 31 - 2) ≤ℤ (i32 s.ssrc0 -ℤ i32 s.ssrc1)
    → (i32 s.ssrc0 -ℤ i32 s.ssrc1) <ℤ pos (2 ^ 31)
    → let r = run_s_absdiff_i32 s in
      (pos r.sdst ≡ abs (i32 s.ssrc0 -ℤ i32 s.ssrc1)) × ((r.scc ≡ true) ↔ (s.ssrc0 ≢ s.ssrc1))
unfolding run_s_absdiff_i32
absdiff_i32_lem s h lo hi = ground arith

-- For all 32-bit operands: `s_add_i32` stores the exact sum of the signed operands, and `s_sub_i32` their exact
-- difference, exactly when it leaves SCC clear.
pub add_sub_i32_overflow :
    (s : WfStateSop2)
    → HasWords s
    → (((run_s_add_i32 s).scc ≡ false) ↔ (i32 (run_s_add_i32 s).sdst ≡ i32 s.ssrc0 +ℤ i32 s.ssrc1))
      × (((run_s_sub_i32 s).scc ≡ false)
          ↔ (i32 (run_s_sub_i32 s).sdst ≡ i32 s.ssrc0 -ℤ i32 s.ssrc1))
add_sub_i32_overflow s h = (add_i32_overflow s h, sub_i32_overflow s h)
