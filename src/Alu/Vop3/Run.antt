-- ===== src/Alu/Vop3/Run.antt =====
-- alu_vop3.cpp: `run_vop3`.
use red_o_lator.Base.{ℕ, Bool, List, Result, ok, fail, Fault, or_fail, ◌>>=◌, for_lanes}
use red_o_lator.Instruction.{Operand}
use red_o_lator.Wavefront.{Wavefront, work_item_masked}
use red_o_lator.Wavefront.VectorStates.{Vop3Lane, get_vop3_state, update_with_vop3_state}
use red_o_lator.Alu.Vop3.Arith.{
  run_v_add_i16, run_v_add_i32, run_v_addc_co_u32, run_v_add3_u32, run_v_add_lshl_u32,
  run_v_bcnt_u32_b32, run_v_lshl_add_u32, run_v_mbcnt_hi_u32_b32, run_v_mbcnt_lo_u32_b32,
  run_v_sub_i16, run_v_sub_i32, run_v_xad_u32,
}
use red_o_lator.Alu.Vop3.Bits.{
  run_v_alignbit_b32, run_v_alignbyte_b32, run_v_and_or_b32, run_v_ashr_i64, run_v_ashrrev_i64,
  run_v_bfe_i32, run_v_bfe_u32, run_v_bfi_b32, run_v_bfm_b32, run_v_cvt_pk_i16_i32,
  run_v_cvt_pk_u16_u32, run_v_lshl_b64, run_v_lshl_or_b32, run_v_lshlrev_b64, run_v_lshr_b64,
  run_v_lshrrev_b64, run_v_or3_b32, run_v_pack_b32_f16,
}
use red_o_lator.Alu.Vop3.Multiply.{
  run_v_mad_i16, run_v_mad_i32_i16, run_v_mad_i32_i24, run_v_mad_legacy_i16, run_v_mad_legacy_u16,
  run_v_mad_u16, run_v_mad_u32_u16, run_v_mad_u32_u24, run_v_mul_hi_i32, run_v_mul_hi_u32,
  run_v_mul_lo_i32, run_v_mul_lo_u32,
}
use red_o_lator.Alu.Vop3.Compare.{
  run_v_max3_i16, run_v_max3_i32, run_v_max3_u16, run_v_max3_u32, run_v_med3_i16, run_v_med3_i32,
  run_v_med3_u16, run_v_med3_u32, run_v_min3_i16, run_v_min3_i32, run_v_min3_u16, run_v_min3_u32,
}
use red_o_lator.Alu.Vop3.Bytes.{
  run_v_lerp_u8, run_v_msad_u8, run_v_perm_b32, run_v_sad_hi_u8, run_v_sad_u16, run_v_sad_u32,
  run_v_sad_u8,
}

-- The instructions that read `SRC2`.
pub data ThreeSources : Type 0 where
  v_add3_u32 v_add_lshl_u32 v_alignbit_b32 v_alignbyte_b32 v_and_or_b32 v_bfe_i32 : ThreeSources
  v_bfe_u32 v_bfi_b32 v_lerp_u8 v_lshl_add_u32 v_lshl_or_b32 v_mad_i16 : ThreeSources
  v_mad_i32_i16 v_mad_i32_i24 v_mad_legacy_i16 v_mad_legacy_u16 v_mad_u16 : ThreeSources
  v_mad_u32_u16 v_mad_u32_u24 v_max3_i16 v_max3_i32 v_max3_u16 v_max3_u32 : ThreeSources
  v_med3_i16 v_med3_i32 v_med3_u16 v_med3_u32 v_min3_i16 v_min3_i32 v_min3_u16 : ThreeSources
  v_min3_u32 v_msad_u8 v_or3_b32 v_perm_b32 v_sad_hi_u8 v_sad_u16 v_sad_u32 : ThreeSources
  v_sad_u8 v_xad_u32 : ThreeSources

pub data Vop3Key : Type 0 where
  three : ThreeSources → Vop3Key
  v_add_i16 v_add_i32 v_ashr_i64 v_ashrrev_i64 v_bcnt_u32_b32 v_bfm_b32 : Vop3Key
  v_cvt_pk_i16_i32 v_cvt_pk_u16_u32 v_lshl_b64 v_lshlrev_b64 v_lshr_b64 v_lshrrev_b64 : Vop3Key
  v_mbcnt_hi_u32_b32 v_mbcnt_lo_u32_b32 v_mul_hi_i32 v_mul_hi_u32 v_mul_lo_i32 : Vop3Key
  v_pack_b32_f16 v_sub_i16 v_sub_i32 v_mul_lo_u32 v_addc_co_u32 unsupported_key : Vop3Key

unfoldable pub run_three_op : ThreeSources → Vop3Lane → ℕ → Result Vop3Lane
run_three_op v_add3_u32 lane src2 = ok (run_v_add3_u32 lane src2)
run_three_op v_add_lshl_u32 lane src2 = ok (run_v_add_lshl_u32 lane src2)
run_three_op v_alignbit_b32 lane src2 = ok (run_v_alignbit_b32 lane src2)
run_three_op v_alignbyte_b32 lane src2 = ok (run_v_alignbyte_b32 lane src2)
run_three_op v_and_or_b32 lane src2 = ok (run_v_and_or_b32 lane src2)
run_three_op v_bfe_i32 lane src2 = run_v_bfe_i32 lane src2
run_three_op v_bfe_u32 lane src2 = ok (run_v_bfe_u32 lane src2)
run_three_op v_bfi_b32 lane src2 = ok (run_v_bfi_b32 lane src2)
run_three_op v_lerp_u8 lane src2 = ok (run_v_lerp_u8 lane src2)
run_three_op v_lshl_add_u32 lane src2 = ok (run_v_lshl_add_u32 lane src2)
run_three_op v_lshl_or_b32 lane src2 = ok (run_v_lshl_or_b32 lane src2)
run_three_op v_mad_i16 lane src2 = ok (run_v_mad_i16 lane src2)
run_three_op v_mad_i32_i16 lane src2 = ok (run_v_mad_i32_i16 lane src2)
run_three_op v_mad_i32_i24 lane src2 = ok (run_v_mad_i32_i24 lane src2)
run_three_op v_mad_legacy_i16 lane src2 = ok (run_v_mad_legacy_i16 lane src2)
run_three_op v_mad_legacy_u16 lane src2 = ok (run_v_mad_legacy_u16 lane src2)
run_three_op v_mad_u16 lane src2 = ok (run_v_mad_u16 lane src2)
run_three_op v_mad_u32_u16 lane src2 = ok (run_v_mad_u32_u16 lane src2)
run_three_op v_mad_u32_u24 lane src2 = ok (run_v_mad_u32_u24 lane src2)
run_three_op v_max3_i16 lane src2 = ok (run_v_max3_i16 lane src2)
run_three_op v_max3_i32 lane src2 = ok (run_v_max3_i32 lane src2)
run_three_op v_max3_u16 lane src2 = ok (run_v_max3_u16 lane src2)
run_three_op v_max3_u32 lane src2 = ok (run_v_max3_u32 lane src2)
run_three_op v_med3_i16 lane src2 = ok (run_v_med3_i16 lane src2)
run_three_op v_med3_i32 lane src2 = ok (run_v_med3_i32 lane src2)
run_three_op v_med3_u16 lane src2 = ok (run_v_med3_u16 lane src2)
run_three_op v_med3_u32 lane src2 = ok (run_v_med3_u32 lane src2)
run_three_op v_min3_i16 lane src2 = ok (run_v_min3_i16 lane src2)
run_three_op v_min3_i32 lane src2 = ok (run_v_min3_i32 lane src2)
run_three_op v_min3_u16 lane src2 = ok (run_v_min3_u16 lane src2)
run_three_op v_min3_u32 lane src2 = ok (run_v_min3_u32 lane src2)
run_three_op v_msad_u8 lane src2 = ok (run_v_msad_u8 lane src2)
run_three_op v_or3_b32 lane src2 = ok (run_v_or3_b32 lane src2)
run_three_op v_perm_b32 lane src2 = ok (run_v_perm_b32 lane src2)
run_three_op v_sad_hi_u8 lane src2 = ok (run_v_sad_hi_u8 lane src2)
run_three_op v_sad_u16 lane src2 = ok (run_v_sad_u16 lane src2)
run_three_op v_sad_u32 lane src2 = ok (run_v_sad_u32 lane src2)
run_three_op v_sad_u8 lane src2 = ok (run_v_sad_u8 lane src2)
run_three_op v_xad_u32 lane src2 = ok (run_v_xad_u32 lane src2)

-- One round of the loop: VCC after it, and the lane. Without a fourth operand `SRC2[i]` is out of range.
unfoldable pub run_vop3_op : Vop3Key → Bool → ℕ → ℕ → Vop3Lane → Result (ℕ × Vop3Lane)
run_vop3_op (three op) clamp i vcc lane = do
  src2 ← or_fail lane.src2 Fault.undefined
  lane' ← run_three_op op lane src2
  ok (vcc, lane')
run_vop3_op v_add_i16 clamp i vcc lane = ok (vcc, run_v_add_i16 clamp lane)
run_vop3_op v_add_i32 clamp i vcc lane = ok (vcc, run_v_add_i32 clamp lane)
run_vop3_op v_ashr_i64 clamp i vcc lane = ok (vcc, run_v_ashr_i64 lane)
run_vop3_op v_ashrrev_i64 clamp i vcc lane = ok (vcc, run_v_ashrrev_i64 lane)
run_vop3_op v_bcnt_u32_b32 clamp i vcc lane = ok (vcc, run_v_bcnt_u32_b32 lane)
run_vop3_op v_bfm_b32 clamp i vcc lane = ok (vcc, run_v_bfm_b32 lane)
run_vop3_op v_cvt_pk_i16_i32 clamp i vcc lane = ok (vcc, run_v_cvt_pk_i16_i32 lane)
run_vop3_op v_cvt_pk_u16_u32 clamp i vcc lane = ok (vcc, run_v_cvt_pk_u16_u32 lane)
run_vop3_op v_lshl_b64 clamp i vcc lane = ok (vcc, run_v_lshl_b64 lane)
run_vop3_op v_lshlrev_b64 clamp i vcc lane = ok (vcc, run_v_lshlrev_b64 lane)
run_vop3_op v_lshr_b64 clamp i vcc lane = ok (vcc, run_v_lshr_b64 lane)
run_vop3_op v_lshrrev_b64 clamp i vcc lane = ok (vcc, run_v_lshrrev_b64 lane)
run_vop3_op v_mbcnt_hi_u32_b32 clamp i vcc lane = ok (vcc, run_v_mbcnt_hi_u32_b32 i lane)
run_vop3_op v_mbcnt_lo_u32_b32 clamp i vcc lane = ok (vcc, run_v_mbcnt_lo_u32_b32 i lane)
run_vop3_op v_mul_hi_i32 clamp i vcc lane = ok (vcc, run_v_mul_hi_i32 lane)
run_vop3_op v_mul_hi_u32 clamp i vcc lane = ok (vcc, run_v_mul_hi_u32 lane)
run_vop3_op v_mul_lo_i32 clamp i vcc lane = ok (vcc, run_v_mul_lo_i32 lane)
run_vop3_op v_pack_b32_f16 clamp i vcc lane = ok (vcc, run_v_pack_b32_f16 lane)
run_vop3_op v_sub_i16 clamp i vcc lane = ok (vcc, run_v_sub_i16 lane)
run_vop3_op v_sub_i32 clamp i vcc lane = ok (vcc, run_v_sub_i32 lane)
run_vop3_op v_mul_lo_u32 clamp i vcc lane = ok (vcc, run_v_mul_lo_u32 lane)
run_vop3_op v_addc_co_u32 clamp i vcc lane = ok (run_v_addc_co_u32 i vcc lane)
run_vop3_op unsupported_key clamp i vcc lane = fail Fault.unsupported

unfoldable pub run_vop3 : Vop3Key → List Operand → Wavefront → Result Wavefront
run_vop3 key operands wf = do
  state ← get_vop3_state wf operands
  (vcc, lanes) ←
      for_lanes (work_item_masked wf) (run_vop3_op key state.clamp) 0 state.vcc state.lanes
  update_with_vop3_state wf operands (record state { lanes = lanes; vcc = vcc })
