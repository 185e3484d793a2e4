-- ===== src/Alu/Vop2/Run.antt =====
-- alu_vop2.cpp: `run_vop2`.
use red_o_lator.Base.{ℕ, Bool, List, Result, ok, fail, Fault, ◌>>=◌, for_lanes, Floats}
use red_o_lator.Instruction.{Operand}
use red_o_lator.Wavefront.{Wavefront, work_item_masked}
use red_o_lator.Wavefront.VectorStates.{Vop2Lane, get_vop2_state, update_with_vop2_state}
use red_o_lator.Alu.Vop2.Arith.{
  run_v_addc_u32, run_v_add_u32, run_v_bcnt_u32_b32, run_v_max_i16, run_v_max_i32, run_v_max_u16,
  run_v_max_u32, run_v_min_i16, run_v_min_i32, run_v_min_u16, run_v_min_u32, run_v_sub_u16,
  run_v_sub_u32, run_v_subrev_u16, run_v_subrev_u32,
}
use red_o_lator.Alu.Vop2.Logic.{
  run_v_ashr_i32, run_v_lshr_b32, run_v_and_b32, run_v_ashrrev_i32, run_v_bfm_b32,
  run_v_cndmask_b32, run_v_cvt_pk_i16_i32, run_v_cvt_pk_u16_u32, run_v_lshlrev_b16,
  run_v_lshlrev_b32, run_v_lshrrev_b16, run_v_lshrrev_b32, run_v_or_b32, run_v_xor_b32,
}
use red_o_lator.Alu.Vop2.Product.{
  run_v_mul_hi_i32_i24, run_v_mul_hi_u32_u24, run_v_mul_i32_i24, run_v_mul_lo_u16,
  run_v_mul_u32_u24,
}
use red_o_lator.Alu.Vop2.Float.{
  run_v_sub_f32, run_v_mul_f32, run_v_mac_f32, run_v_add_f32, run_v_max_f32, run_v_min_f32,
  run_v_subrev_f32,
}

pub data Vop2Key : Type 0 where
  v_addc_u32 v_add_u32 v_sub_u32 v_and_b32 v_ashrrev_i32 v_bcnt_u32_b32 v_bfm_b32 : Vop2Key
  v_cndmask_b32 v_cvt_pk_i16_i32 v_cvt_pk_u16_u32 v_lshlrev_b16 v_lshlrev_b32 : Vop2Key
  v_lshrrev_b16 v_lshrrev_b32 v_max_i16 v_max_i32 v_max_u16 v_max_u32 v_min_i16 : Vop2Key
  v_min_i32 v_min_u16 v_min_u32 v_mul_hi_i32_i24 v_mul_hi_u32_u24 v_mul_i32_i24 : Vop2Key
  v_mul_lo_u16 v_mul_u32_u24 v_or_b32 v_sub_u16 v_subrev_u16 v_subrev_u32 v_xor_b32 : Vop2Key
  v_sub_f32 v_mul_f32 v_mac_f32 v_add_f32 v_max_f32 v_min_f32 v_subrev_f32 v_lshr_b32 : Vop2Key
  v_ashr_i32 unsupported_key : Vop2Key

-- One round of the loop: VCC after it, and the lane.
unfoldable pub run_vop2_op : Floats → Vop2Key → Bool → ℕ → ℕ → Vop2Lane → Result (ℕ × Vop2Lane)
run_vop2_op floats v_addc_u32 clamp i vcc lane = ok (run_v_addc_u32 i vcc lane)
run_vop2_op floats v_add_u32 clamp i vcc lane = ok (vcc, run_v_add_u32 clamp lane)
run_vop2_op floats v_sub_u32 clamp i vcc lane = ok (vcc, run_v_sub_u32 clamp lane)
run_vop2_op floats v_and_b32 clamp i vcc lane = ok (vcc, run_v_and_b32 lane)
run_vop2_op floats v_ashrrev_i32 clamp i vcc lane = ok (vcc, run_v_ashrrev_i32 lane)
run_vop2_op floats v_bcnt_u32_b32 clamp i vcc lane = ok (vcc, run_v_bcnt_u32_b32 lane)
run_vop2_op floats v_bfm_b32 clamp i vcc lane = ok (vcc, run_v_bfm_b32 lane)
run_vop2_op floats v_cndmask_b32 clamp i vcc lane = ok (vcc, run_v_cndmask_b32 i vcc lane)
run_vop2_op floats v_cvt_pk_i16_i32 clamp i vcc lane = ok (vcc, run_v_cvt_pk_i16_i32 lane)
run_vop2_op floats v_cvt_pk_u16_u32 clamp i vcc lane = ok (vcc, run_v_cvt_pk_u16_u32 lane)
run_vop2_op floats v_lshlrev_b16 clamp i vcc lane = ok (vcc, run_v_lshlrev_b16 lane)
run_vop2_op floats v_lshlrev_b32 clamp i vcc lane = ok (vcc, run_v_lshlrev_b32 lane)
run_vop2_op floats v_lshrrev_b16 clamp i vcc lane = ok (vcc, run_v_lshrrev_b16 lane)
run_vop2_op floats v_lshrrev_b32 clamp i vcc lane = ok (vcc, run_v_lshrrev_b32 lane)
run_vop2_op floats v_max_i16 clamp i vcc lane = ok (vcc, run_v_max_i16 lane)
run_vop2_op floats v_max_i32 clamp i vcc lane = ok (vcc, run_v_max_i32 lane)
run_vop2_op floats v_max_u16 clamp i vcc lane = ok (vcc, run_v_max_u16 lane)
run_vop2_op floats v_max_u32 clamp i vcc lane = ok (vcc, run_v_max_u32 lane)
run_vop2_op floats v_min_i16 clamp i vcc lane = ok (vcc, run_v_min_i16 lane)
run_vop2_op floats v_min_i32 clamp i vcc lane = ok (vcc, run_v_min_i32 lane)
run_vop2_op floats v_min_u16 clamp i vcc lane = ok (vcc, run_v_min_u16 lane)
run_vop2_op floats v_min_u32 clamp i vcc lane = ok (vcc, run_v_min_u32 lane)
run_vop2_op floats v_mul_hi_i32_i24 clamp i vcc lane = ok (vcc, run_v_mul_hi_i32_i24 lane)
run_vop2_op floats v_mul_hi_u32_u24 clamp i vcc lane = ok (vcc, run_v_mul_hi_u32_u24 lane)
run_vop2_op floats v_mul_i32_i24 clamp i vcc lane = ok (vcc, run_v_mul_i32_i24 lane)
run_vop2_op floats v_mul_lo_u16 clamp i vcc lane = ok (vcc, run_v_mul_lo_u16 lane)
run_vop2_op floats v_mul_u32_u24 clamp i vcc lane = ok (vcc, run_v_mul_u32_u24 lane)
run_vop2_op floats v_or_b32 clamp i vcc lane = ok (vcc, run_v_or_b32 lane)
run_vop2_op floats v_sub_u16 clamp i vcc lane = ok (vcc, run_v_sub_u16 clamp lane)
run_vop2_op floats v_subrev_u16 clamp i vcc lane = ok (vcc, run_v_subrev_u16 clamp lane)
run_vop2_op floats v_subrev_u32 clamp i vcc lane = ok (vcc, run_v_subrev_u32 clamp lane)
run_vop2_op floats v_xor_b32 clamp i vcc lane = ok (vcc, run_v_xor_b32 lane)
run_vop2_op floats v_sub_f32 clamp i vcc lane = ok (vcc, run_v_sub_f32 floats lane)
run_vop2_op floats v_mul_f32 clamp i vcc lane = ok (vcc, run_v_mul_f32 floats lane)
run_vop2_op floats v_mac_f32 clamp i vcc lane = ok (vcc, run_v_mac_f32 floats lane)
run_vop2_op floats v_add_f32 clamp i vcc lane = ok (vcc, run_v_add_f32 floats lane)
run_vop2_op floats v_max_f32 clamp i vcc lane = ok (vcc, run_v_max_f32 floats lane)
run_vop2_op floats v_min_f32 clamp i vcc lane = ok (vcc, run_v_min_f32 floats lane)
run_vop2_op floats v_subrev_f32 clamp i vcc lane = ok (vcc, run_v_subrev_f32 floats lane)
run_vop2_op floats v_lshr_b32 clamp i vcc lane = ok (vcc, run_v_lshr_b32 lane)
run_vop2_op floats v_ashr_i32 clamp i vcc lane = ok (vcc, run_v_ashr_i32 lane)
run_vop2_op floats unsupported_key clamp i vcc lane = fail Fault.unsupported

unfoldable pub run_vop2 : Floats → Vop2Key → List Operand → Wavefront → Result Wavefront
run_vop2 floats key operands wf = do
  state ← get_vop2_state wf operands
  (vcc, lanes) ←
      for_lanes (work_item_masked wf) (run_vop2_op floats key state.clamp) 0 state.vcc state.lanes
  update_with_vop2_state wf operands (record state { lanes = lanes; vcc = vcc })
