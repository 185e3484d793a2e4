-- ===== src/Alu/Sop1/Mask.antt =====
-- alu_sop1.cpp: single bits, and masks of groups of four bits.
use red_o_lator.Base.{
  ℕ, zero, suc, ◌+◌, ◌*◌, u32, u64, ◌<<<◌, ◌>>>◌, bit_and, bit_or, bit_not, ◌!=◌, ltb,
  if◌then◌else◌, for_step, Result, ok, fail, Fault, ◌>>=◌,
}
use red_o_lator.Wavefront.States.{WfStateSop1}

-- The shifted operand has 32 bits, so a shift by `i << 1` of 32 or more is undefined.
replicate_bits : ℕ → ℕ → ℕ → ℕ → Result ℕ
replicate_bits zero i src0 sdst = ok sdst
replicate_bits (suc rounds) i src0 sdst =
    let rest =
      replicate_bits rounds (i + 1) src0
        (bit_or sdst (u32 ((bit_and (src0 >>> i) 1 * 3) <<< (i <<< 1)))) in
    if ltb (i <<< 1) 32 then rest else fail Fault.undefined

unfoldable pub run_s_bitreplicate_b64_b32 : WfStateSop1 → Result WfStateSop1
unfolding replicate_bits
run_s_bitreplicate_b64_b32 state = do
  sdst ← replicate_bits 32 0 (u32 state.ssrc0) 0
  ok (record state { sdst = sdst })

unfoldable pub run_s_bitset0_b32 : WfStateSop1 → WfStateSop1
run_s_bitset0_b32 state = record state {
  sdst = bit_and state.sdst (bit_not 32 (1 <<< bit_and state.ssrc0 31));
}

unfoldable pub run_s_bitset0_b64 : WfStateSop1 → WfStateSop1
run_s_bitset0_b64 state = record state {
  sdst = bit_and state.sdst (bit_not 64 (1 <<< bit_and state.ssrc0 63));
}

unfoldable pub run_s_bitset1_b32 : WfStateSop1 → WfStateSop1
run_s_bitset1_b32 state = record state { sdst = bit_or state.sdst (1 <<< bit_and state.ssrc0 31) }

unfoldable pub run_s_bitset1_b64 : WfStateSop1 → WfStateSop1
run_s_bitset1_b64 state = record state { sdst = bit_or state.sdst (1 <<< bit_and state.ssrc0 63) }

-- One round of `quadmask`: the value for an empty group is `i`.
unfoldable pub quad_bit : ℕ → ℕ → ℕ → ℕ
quad_bit src0 i temp =
    bit_or temp (if bit_and (src0 >>> (i <<< 2)) 15 != 0 then u32 (1 <<< i) else i)

unfoldable pub run_s_quadmask_b32 : WfStateSop1 → WfStateSop1
unfolding for_step quad_bit
run_s_quadmask_b32 state =
    let sdst = for_step 1 8 0 (quad_bit (u32 state.ssrc0)) 0 in
    record state { sdst = sdst; scc = sdst != 0 }

unfoldable pub run_s_quadmask_b64 : WfStateSop1 → WfStateSop1
unfolding for_step quad_bit
run_s_quadmask_b64 state =
    let sdst = for_step 1 16 0 (quad_bit state.ssrc0) 0 in
    record state { sdst = sdst; scc = sdst != 0 }

unfoldable pub run_s_wqm_b32 : WfStateSop1 → WfStateSop1
unfolding for_step
run_s_wqm_b32 state =
    let src0 = u32 state.ssrc0 in
    let sdst =
      for_step 4 8 0
        (λ i temp. bit_or temp (if bit_and (src0 >>> i) 15 != 0 then u32 (15 <<< i) else 0)) 0 in
    record state { sdst = sdst; scc = sdst != 0 }

unfoldable pub run_s_wqm_b64 : WfStateSop1 → WfStateSop1
unfolding for_step
run_s_wqm_b64 state =
    let src0 = state.ssrc0 in
    let sdst =
      for_step 4 16 0
        (λ i temp. bit_or temp (if bit_and (src0 >>> i) 15 != 0 then u64 (15 <<< i) else 0)) 0 in
    record state { sdst = sdst; scc = sdst != 0 }
