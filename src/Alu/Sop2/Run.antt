-- ===== src/Alu/Sop2/Run.antt =====
-- alu_sop2.cpp: `run_sop2`.
use red_o_lator.Base.{List, Result, ok, fail, Fault, ◌>>=◌}
use red_o_lator.Instruction.{Operand}
use red_o_lator.Wavefront.{Wavefront}
use red_o_lator.Wavefront.States.{
  WfStateSop2, read_u64, write_first, put_registers, get_sop2_state, update_with_sop2_state,
}
use red_o_lator.Alu.Sop2.Arith.{
  run_s_absdiff_i32, run_s_addc_u32, run_s_add_i32, run_s_add_u32, run_s_lshl1_add_u32,
  run_s_lshl2_add_u32, run_s_lshl3_add_u32, run_s_lshl4_add_u32, run_s_mul_hi_i32, run_s_mul_hi_u32,
  run_s_mul_i32, run_s_subb_u32, run_s_sub_i32, run_s_sub_u32,
}
use red_o_lator.Alu.Sop2.Compare.{
  run_s_cselect_b32, run_s_cselect_b64, run_s_max_i32, run_s_max_u32, run_s_min_i32, run_s_min_u32,
}
use red_o_lator.Alu.Sop2.Shift.{
  run_s_ashr_i32, run_s_ashr_i64, run_s_bfe_i32, run_s_bfe_i64, run_s_bfe_u32, run_s_bfe_u64,
  run_s_bfm_b32, run_s_bfm_b64, run_s_lshl_b32, run_s_lshl_b64, run_s_lshr_b32, run_s_lshr_b64,
}
use red_o_lator.Alu.Sop2.Logic.{
  run_s_and_b32, run_s_and_b64, run_s_andn2_b32, run_s_andn2_b64, run_s_nand_b32, run_s_nand_b64,
  run_s_nor_b32, run_s_nor_b64, run_s_or_b32, run_s_or_b64, run_s_orn2_b32, run_s_orn2_b64,
  run_s_xnor_b32, run_s_xnor_b64, run_s_xor_b32, run_s_xor_b64, run_s_pack_hh_b32_b16,
  run_s_pack_lh_b32_b16, run_s_pack_ll_b32_b16,
}
use red_o_lator.Alu.Sop2.Fork.{run_s_cbranch_g_fork, run_s_rfe_restore_b64}

-- The instructions that work on the state alone.
pub data Sop2Op : Type 0 where
  s_absdiff_i32 s_addc_u32 s_add_i32 s_add_u32 s_and_b32 s_and_b64 s_andn2_b32 : Sop2Op
  s_andn2_b64 s_ashr_i32 s_ashr_i64 s_bfe_i32 s_bfe_i64 s_bfe_u32 s_bfe_u64 s_bfm_b32 : Sop2Op
  s_bfm_b64 s_cselect_b32 s_cselect_b64 s_lshl_b32 s_lshl_b64 s_lshl1_add_u32 : Sop2Op
  s_lshl2_add_u32 s_lshl3_add_u32 s_lshl4_add_u32 s_lshr_b32 s_lshr_b64 s_max_i32 : Sop2Op
  s_max_u32 s_min_i32 s_min_u32 s_mul_hi_i32 s_mul_hi_u32 s_mul_i32 s_nand_b32 : Sop2Op
  s_nand_b64 s_nor_b32 s_nor_b64 s_or_b32 s_or_b64 s_orn2_b32 s_orn2_b64 : Sop2Op
  s_pack_hh_b32_b16 s_pack_lh_b32_b16 s_pack_ll_b32_b16 s_subb_u32 s_sub_i32 s_sub_u32 : Sop2Op
  s_xnor_b32 s_xnor_b64 s_xor_b32 s_xor_b64 : Sop2Op

pub data Sop2Key : Type 0 where
  s_cbranch_g_fork s_rfe_restore_b64 unsupported_key : Sop2Key
  plain : Sop2Op → Sop2Key

unfoldable pub run_sop2_op : Sop2Op → WfStateSop2 → Result WfStateSop2
unfolding run_s_absdiff_i32 run_s_addc_u32 run_s_add_i32 run_s_add_u32 run_s_lshl1_add_u32
    run_s_lshl2_add_u32 run_s_lshl3_add_u32 run_s_lshl4_add_u32 run_s_mul_hi_i32 run_s_mul_hi_u32
    run_s_mul_i32 run_s_subb_u32 run_s_sub_i32 run_s_sub_u32 run_s_cselect_b32 run_s_cselect_b64
    run_s_max_i32 run_s_max_u32 run_s_min_i32 run_s_min_u32 run_s_ashr_i32 run_s_ashr_i64
    run_s_bfe_i32 run_s_bfe_i64 run_s_bfe_u32 run_s_bfe_u64 run_s_bfm_b32 run_s_bfm_b64
    run_s_lshl_b32 run_s_lshl_b64 run_s_lshr_b32 run_s_lshr_b64 run_s_and_b32 run_s_and_b64
    run_s_andn2_b32 run_s_andn2_b64 run_s_nand_b32 run_s_nand_b64 run_s_nor_b32 run_s_nor_b64
    run_s_or_b32 run_s_or_b64 run_s_orn2_b32 run_s_orn2_b64 run_s_xnor_b32 run_s_xnor_b64
    run_s_xor_b32 run_s_xor_b64 run_s_pack_hh_b32_b16 run_s_pack_lh_b32_b16 run_s_pack_ll_b32_b16
run_sop2_op s_absdiff_i32 state = ok (run_s_absdiff_i32 state)
run_sop2_op s_addc_u32 state = ok (run_s_addc_u32 state)
run_sop2_op s_add_i32 state = ok (run_s_add_i32 state)
run_sop2_op s_add_u32 state = ok (run_s_add_u32 state)
run_sop2_op s_and_b32 state = ok (run_s_and_b32 state)
run_sop2_op s_and_b64 state = ok (run_s_and_b64 state)
run_sop2_op s_andn2_b32 state = ok (run_s_andn2_b32 state)
run_sop2_op s_andn2_b64 state = ok (run_s_andn2_b64 state)
run_sop2_op s_ashr_i32 state = ok (run_s_ashr_i32 state)
run_sop2_op s_ashr_i64 state = ok (run_s_ashr_i64 state)
run_sop2_op s_bfe_i32 state = run_s_bfe_i32 state
run_sop2_op s_bfe_i64 state = run_s_bfe_i64 state
run_sop2_op s_bfe_u32 state = ok (run_s_bfe_u32 state)
run_sop2_op s_bfe_u64 state = run_s_bfe_u64 state
run_sop2_op s_bfm_b32 state = ok (run_s_bfm_b32 state)
run_sop2_op s_bfm_b64 state = ok (run_s_bfm_b64 state)
run_sop2_op s_cselect_b32 state = ok (run_s_cselect_b32 state)
run_sop2_op s_cselect_b64 state = ok (run_s_cselect_b64 state)
run_sop2_op s_lshl_b32 state = ok (run_s_lshl_b32 state)
run_sop2_op s_lshl_b64 state = ok (run_s_lshl_b64 state)
run_sop2_op s_lshl1_add_u32 state = ok (run_s_lshl1_add_u32 state)
run_sop2_op s_lshl2_add_u32 state = ok (run_s_lshl2_add_u32 state)
run_sop2_op s_lshl3_add_u32 state = ok (run_s_lshl3_add_u32 state)
run_sop2_op s_lshl4_add_u32 state = ok (run_s_lshl4_add_u32 state)
run_sop2_op s_lshr_b32 state = ok (run_s_lshr_b32 state)
run_sop2_op s_lshr_b64 state = ok (run_s_lshr_b64 state)
run_sop2_op s_max_i32 state = ok (run_s_max_i32 state)
run_sop2_op s_max_u32 state = ok (run_s_max_u32 state)
run_sop2_op s_min_i32 state = ok (run_s_min_i32 state)
run_sop2_op s_min_u32 state = ok (run_s_min_u32 state)
run_sop2_op s_mul_hi_i32 state = ok (run_s_mul_hi_i32 state)
run_sop2_op s_mul_hi_u32 state = ok (run_s_mul_hi_u32 state)
run_sop2_op s_mul_i32 state = ok (run_s_mul_i32 state)
run_sop2_op s_nand_b32 state = ok (run_s_nand_b32 state)
run_sop2_op s_nand_b64 state = ok (run_s_nand_b64 state)
run_sop2_op s_nor_b32 state = ok (run_s_nor_b32 state)
run_sop2_op s_nor_b64 state = ok (run_s_nor_b64 state)
run_sop2_op s_or_b32 state = ok (run_s_or_b32 state)
run_sop2_op s_or_b64 state = ok (run_s_or_b64 state)
run_sop2_op s_orn2_b32 state = ok (run_s_orn2_b32 state)
run_sop2_op s_orn2_b64 state = ok (run_s_orn2_b64 state)
run_sop2_op s_pack_hh_b32_b16 state = ok (run_s_pack_hh_b32_b16 state)
run_sop2_op s_pack_lh_b32_b16 state = ok (run_s_pack_lh_b32_b16 state)
run_sop2_op s_pack_ll_b32_b16 state = ok (run_s_pack_ll_b32_b16 state)
run_sop2_op s_subb_u32 state = ok (run_s_subb_u32 state)
run_sop2_op s_sub_i32 state = ok (run_s_sub_i32 state)
run_sop2_op s_sub_u32 state = ok (run_s_sub_u32 state)
run_sop2_op s_xnor_b32 state = ok (run_s_xnor_b32 state)
run_sop2_op s_xnor_b64 state = ok (run_s_xnor_b64 state)
run_sop2_op s_xor_b32 state = ok (run_s_xor_b32 state)
run_sop2_op s_xor_b64 state = ok (run_s_xor_b64 state)

-- The write-back of a state whose pointers were written through.
finish_sop2 : Wavefront → List Operand → WfStateSop2 → Result Wavefront
finish_sop2 wf operands state =
    update_with_sop2_state (put_registers state.pc state.mode state.status wf) operands state

unfoldable pub run_sop2 : Sop2Key → List Operand → Wavefront → Result Wavefront
unfolding get_sop2_state update_with_sop2_state finish_sop2 run_sop2_op read_u64 write_first
run_sop2 s_cbranch_g_fork operands wf = do
  state ← get_sop2_state wf operands
  ssrc0 ← read_u64 wf operands 0
  ssrc1 ← read_u64 wf operands 1
  (state', wf') ← run_s_cbranch_g_fork (record state { ssrc0 = ssrc0; ssrc1 = ssrc1 }) wf
  finish_sop2 wf' operands state'
run_sop2 s_rfe_restore_b64 operands wf = do
  state ← get_sop2_state wf operands
  sdst ← read_u64 wf operands 0
  ssrc0 ← read_u64 wf operands 1
  let state' = run_s_rfe_restore_b64 (record state { sdst = sdst; ssrc0 = ssrc0 })
  wf' ← write_first wf operands state'.sdst
  finish_sop2 wf' operands state'
run_sop2 unsupported_key operands wf = do state ← get_sop2_state wf operands; fail Fault.unsupported
run_sop2 (plain op) operands wf = do
  state ← get_sop2_state wf operands
  state' ← run_sop2_op op state
  finish_sop2 wf operands state'
