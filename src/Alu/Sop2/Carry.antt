-- ===== src/Alu/Sop2/Carry.antt =====
-- Sums and differences of 64-bit numbers in two instructions, with the carry in SCC.
use red_o_lator.Base.{◌+◌, ◌*◌, ◌^◌, ◌<◌, ◌≡◌, arith, u32, to_nat}
use red_o_lator.Base.BitLaws.{bit_and_mask}
use red_o_lator.Wavefront.States.{WfStateSop2}
use red_o_lator.Alu.Sop2.Arith.{run_s_add_u32, run_s_addc_u32, run_s_sub_u32, run_s_subb_u32}

-- The operands of an instruction are 32-bit words.
abbrev pub HasWords : WfStateSop2 → Type 0
HasWords state = (state.ssrc0 < 2 ^ 32) × (state.ssrc1 < 2 ^ 32)

pub add_u32_lem :
    (s : WfStateSop2)
    → HasWords s
    → let r = run_s_add_u32 s in u32 r.sdst + to_nat r.scc * 2 ^ 32 ≡ s.ssrc0 + s.ssrc1
unfolding run_s_add_u32
add_u32_lem s h = ground arith

pub addc_u32_lem :
    (s : WfStateSop2)
    → HasWords s
    → let r = run_s_addc_u32 s in
      u32 r.sdst + to_nat r.scc * 2 ^ 32 ≡ s.ssrc0 + s.ssrc1 + to_nat s.scc
unfolding run_s_addc_u32
addc_u32_lem s h = ground arith

pub sub_u32_lem :
    (s : WfStateSop2)
    → HasWords s
    → let r = run_s_sub_u32 s in u32 r.sdst + s.ssrc1 ≡ s.ssrc0 + to_nat r.scc * 2 ^ 32
unfolding run_s_sub_u32
sub_u32_lem s h = ground arith

pub subb_u32_lem :
    (s : WfStateSop2)
    → HasWords s
    → let r = run_s_subb_u32 s in
      u32 r.sdst + s.ssrc1 + to_nat s.scc ≡ s.ssrc0 + to_nat r.scc * 2 ^ 32
unfolding run_s_subb_u32
subb_u32_lem s h = rw (bit_and_mask 1) (ground arith)

-- The instruction pair: the second one reads the carry that the first one left in SCC.
abbrev pub chained : WfStateSop2 → WfStateSop2 → WfStateSop2
chained first second = record second { scc = first.scc }

-- For all 32-bit operands, `s_add_u32` on the low words followed by `s_addc_u32` on the high words
-- (which takes SCC from the first) computes the sum of two 64-bit numbers: the two result words,
-- with the final SCC as the 65th bit, are that sum exactly.
pub add_u32-addc_u32 :
    (low high : WfStateSop2)
    → HasWords low
    → HasWords high
    → let r = run_s_add_u32 low in
      let q = run_s_addc_u32 (chained r high) in
      u32 q.sdst * 2 ^ 32 + u32 r.sdst + to_nat q.scc * 2 ^ 64
      ≡ high.ssrc0 * 2 ^ 32 + low.ssrc0 + (high.ssrc1 * 2 ^ 32 + low.ssrc1)
add_u32-addc_u32 low high h k =
    let r = run_s_add_u32 low in omega (arith, add_u32_lem low h, addc_u32_lem (chained r high) k)

-- For all 32-bit operands, `s_sub_u32` on the low words followed by `s_subb_u32` on the high words
-- computes the difference of two 64-bit numbers: the result words plus the subtrahend are the
-- minuend plus 2 ^ 64 times the final borrow in SCC.
pub sub_u32-subb_u32 :
    (low high : WfStateSop2)
    → HasWords low
    → HasWords high
    → let r = run_s_sub_u32 low in
      let q = run_s_subb_u32 (chained r high) in
      u32 q.sdst * 2 ^ 32 + u32 r.sdst + (high.ssrc1 * 2 ^ 32 + low.ssrc1)
      ≡ high.ssrc0 * 2 ^ 32 + low.ssrc0 + to_nat q.scc * 2 ^ 64
sub_u32-subb_u32 low high h k =
    let r = run_s_sub_u32 low in omega (arith, sub_u32_lem low h, subb_u32_lem (chained r high) k)
