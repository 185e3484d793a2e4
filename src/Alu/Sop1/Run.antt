-- ===== src/Alu/Sop1/Run.antt =====
-- alu_sop1.cpp: `run_sop1`.
use red_o_lator.Base.{List, length, ◌==◌, Result, ok, fail, Fault, assert, ◌>>=◌, ◌>>◌}
use red_o_lator.Instruction.{Operand}
use red_o_lator.Wavefront.{Wavefront}
use red_o_lator.Wavefront.States.{
  WfStateSop1, read_u64, write_first, put_registers, get_sop1_state, update_with_sop1_state,
}
use red_o_lator.Alu.Sop1.Exec.{
  run_s_and_saveexec_b64, run_s_andn1_saveexec_b64, run_s_andn1_wrexec_b64,
  run_s_andn2_saveexec_b64, run_s_andn2_wrexec_b64, run_s_nand_saveexec_b64, run_s_nor_saveexec_b64,
  run_s_or_saveexec_b64, run_s_orn2_saveexec_b64, run_s_xnor_saveexec_b64, run_s_xor_saveexec_b64,
}
use red_o_lator.Alu.Sop1.Count.{
  run_s_abs_i32, run_s_bcnt0_i32_b32, run_s_bcnt0_i32_b64, run_s_bcnt1_i32_b32, run_s_bcnt1_i32_b64,
  run_s_ff0_i32_b32, run_s_ff0_i32_b64, run_s_ff1_i32_b32, run_s_ff1_i32_b64, run_s_flbit_i32_b32,
  run_s_flbit_i32_b64, run_s_flbit_i32, run_s_flbit_i32_i64,
}
use red_o_lator.Alu.Sop1.Move.{
  run_s_brev_b32, run_s_brev_b64, run_s_cmov_b32, run_s_cmov_b64, run_s_mov_b32, run_s_mov_b64,
  run_s_not_b32, run_s_not_b64, run_s_sext_i32_i8, run_s_sext_i32_i16, run_s_set_gpr_idx_idx,
  run_s_movreld_b32, run_s_movreld_b64, run_s_movrels_b32, run_s_movrels_b64,
}
use red_o_lator.Alu.Sop1.Mask.{
  run_s_bitreplicate_b64_b32, run_s_bitset0_b32, run_s_bitset0_b64, run_s_bitset1_b32,
  run_s_bitset1_b64, run_s_quadmask_b32, run_s_quadmask_b64, run_s_wqm_b32, run_s_wqm_b64,
}
use red_o_lator.Alu.Sop1.Jump.{
  run_s_cbranch_join, run_s_getpc_b64, run_s_rfe_b64, run_s_setpc_b64, run_s_swappc_b64,
}

-- The instructions that work on the state alone.
pub data Sop1Op : Type 0 where
  s_abs_i32 s_and_saveexec_b64 s_andn1_saveexec_b64 s_andn1_wrexec_b64 : Sop1Op
  s_andn2_saveexec_b64 s_andn2_wrexec_b64 s_bcnt0_i32_b32 s_bcnt0_i32_b64 : Sop1Op
  s_bcnt1_i32_b32 s_bcnt1_i32_b64 s_bitreplicate_b64_b32 s_bitset0_b32 s_bitset0_b64 : Sop1Op
  s_bitset1_b32 s_bitset1_b64 s_brev_b32 s_brev_b64 s_cmov_b32 s_cmov_b64 s_ff0_i32_b32 : Sop1Op
  s_ff0_i32_b64 s_ff1_i32_b32 s_ff1_i32_b64 s_flbit_i32_b32 s_flbit_i32_b64 s_flbit_i32 : Sop1Op
  s_flbit_i32_i64 s_mov_b32 s_mov_b64 s_nand_saveexec_b64 s_nor_saveexec_b64 s_not_b32 : Sop1Op
  s_not_b64 s_or_saveexec_b64 s_orn2_saveexec_b64 s_quadmask_b32 s_quadmask_b64 : Sop1Op
  s_sext_i32_i8 s_sext_i32_i16 s_swappc_b64 s_wqm_b32 s_wqm_b64 s_xnor_saveexec_b64 : Sop1Op
  s_xor_saveexec_b64 : Sop1Op

pub data Sop1Key : Type 0 where
  s_cbranch_join s_set_gpr_idx_idx s_rfe_b64 s_setpc_b64 s_getpc_b64 s_movreld_b32 : Sop1Key
  s_movreld_b64 s_movrels_b32 s_movrels_b64 unsupported_key : Sop1Key
  plain : Sop1Op → Sop1Key

unfoldable pub run_sop1_op : Sop1Op → WfStateSop1 → Result WfStateSop1
unfolding run_s_abs_i32 run_s_and_saveexec_b64 run_s_andn1_saveexec_b64 run_s_andn1_wrexec_b64
    run_s_andn2_saveexec_b64 run_s_andn2_wrexec_b64 run_s_bcnt0_i32_b32 run_s_bcnt0_i32_b64
    run_s_bcnt1_i32_b32 run_s_bcnt1_i32_b64 run_s_bitreplicate_b64_b32 run_s_bitset0_b32
    run_s_bitset0_b64 run_s_bitset1_b32 run_s_bitset1_b64 run_s_brev_b32 run_s_brev_b64
    run_s_cmov_b32 run_s_cmov_b64 run_s_ff0_i32_b32 run_s_ff0_i32_b64 run_s_ff1_i32_b32
    run_s_ff1_i32_b64 run_s_flbit_i32_b32 run_s_flbit_i32_b64 run_s_flbit_i32 run_s_flbit_i32_i64
    run_s_mov_b32 run_s_mov_b64 run_s_nand_saveexec_b64 run_s_nor_saveexec_b64 run_s_not_b32
    run_s_not_b64 run_s_or_saveexec_b64 run_s_orn2_saveexec_b64 run_s_quadmask_b32
    run_s_quadmask_b64 run_s_sext_i32_i8 run_s_sext_i32_i16 run_s_swappc_b64 run_s_wqm_b32
    run_s_wqm_b64 run_s_xnor_saveexec_b64 run_s_xor_saveexec_b64
run_sop1_op s_abs_i32 state = ok (run_s_abs_i32 state)
run_sop1_op s_and_saveexec_b64 state = ok (run_s_and_saveexec_b64 state)
run_sop1_op s_andn1_saveexec_b64 state = ok (run_s_andn1_saveexec_b64 state)
run_sop1_op s_andn1_wrexec_b64 state = ok (run_s_andn1_wrexec_b64 state)
run_sop1_op s_andn2_saveexec_b64 state = ok (run_s_andn2_saveexec_b64 state)
run_sop1_op s_andn2_wrexec_b64 state = ok (run_s_andn2_wrexec_b64 state)
run_sop1_op s_bcnt0_i32_b32 state = ok (run_s_bcnt0_i32_b32 state)
run_sop1_op s_bcnt0_i32_b64 state = ok (run_s_bcnt0_i32_b64 state)
run_sop1_op s_bcnt1_i32_b32 state = ok (run_s_bcnt1_i32_b32 state)
run_sop1_op s_bcnt1_i32_b64 state = ok (run_s_bcnt1_i32_b64 state)
run_sop1_op s_bitreplicate_b64_b32 state = run_s_bitreplicate_b64_b32 state
run_sop1_op s_bitset0_b32 state = ok (run_s_bitset0_b32 state)
run_sop1_op s_bitset0_b64 state = ok (run_s_bitset0_b64 state)
run_sop1_op s_bitset1_b32 state = ok (run_s_bitset1_b32 state)
run_sop1_op s_bitset1_b64 state = ok (run_s_bitset1_b64 state)
run_sop1_op s_brev_b32 state = ok (run_s_brev_b32 state)
run_sop1_op s_brev_b64 state = ok (run_s_brev_b64 state)
run_sop1_op s_cmov_b32 state = ok (run_s_cmov_b32 state)
run_sop1_op s_cmov_b64 state = ok (run_s_cmov_b64 state)
run_sop1_op s_ff0_i32_b32 state = ok (run_s_ff0_i32_b32 state)
run_sop1_op s_ff0_i32_b64 state = ok (run_s_ff0_i32_b64 state)
run_sop1_op s_ff1_i32_b32 state = ok (run_s_ff1_i32_b32 state)
run_sop1_op s_ff1_i32_b64 state = ok (run_s_ff1_i32_b64 state)
run_sop1_op s_flbit_i32_b32 state = ok (run_s_flbit_i32_b32 state)
run_sop1_op s_flbit_i32_b64 state = ok (run_s_flbit_i32_b64 state)
run_sop1_op s_flbit_i32 state = ok (run_s_flbit_i32 state)
run_sop1_op s_flbit_i32_i64 state = ok (run_s_flbit_i32_i64 state)
run_sop1_op s_mov_b32 state = ok (run_s_mov_b32 state)
run_sop1_op s_mov_b64 state = ok (run_s_mov_b64 state)
run_sop1_op s_nand_saveexec_b64 state = ok (run_s_nand_saveexec_b64 state)
run_sop1_op s_nor_saveexec_b64 state = ok (run_s_nor_saveexec_b64 state)
run_sop1_op s_not_b32 state = ok (run_s_not_b32 state)
run_sop1_op s_not_b64 state = ok (run_s_not_b64 state)
run_sop1_op s_or_saveexec_b64 state = ok (run_s_or_saveexec_b64 state)
run_sop1_op s_orn2_saveexec_b64 state = ok (run_s_orn2_saveexec_b64 state)
run_sop1_op s_quadmask_b32 state = ok (run_s_quadmask_b32 state)
run_sop1_op s_quadmask_b64 state = ok (run_s_quadmask_b64 state)
run_sop1_op s_sext_i32_i8 state = ok (run_s_sext_i32_i8 state)
run_sop1_op s_sext_i32_i16 state = ok (run_s_sext_i32_i16 state)
run_sop1_op s_swappc_b64 state = ok (run_s_swappc_b64 state)
run_sop1_op s_wqm_b32 state = ok (run_s_wqm_b32 state)
run_sop1_op s_wqm_b64 state = ok (run_s_wqm_b64 state)
run_sop1_op s_xnor_saveexec_b64 state = ok (run_s_xnor_saveexec_b64 state)
run_sop1_op s_xor_saveexec_b64 state = ok (run_s_xor_saveexec_b64 state)

-- The write-back of a state whose pointers were written through.
unfoldable pub finish_sop1 : Wavefront → List Operand → WfStateSop1 → Result Wavefront
finish_sop1 wf operands state =
    update_with_sop1_state (put_registers state.pc state.mode state.status wf) operands state

-- The instructions with one operand read it themselves.
unfoldable pub start_one : Wavefront → List Operand → Result WfStateSop1
start_one wf operands = do
  state ← get_sop1_state wf operands
  assert (length operands == 1)
  ssrc0 ← read_u64 wf operands 0
  ok (record state { ssrc0 = ssrc0 })

unfoldable pub run_sop1 : Sop1Key → List Operand → Wavefront → Result Wavefront
unfolding get_sop1_state update_with_sop1_state finish_sop1 start_one run_sop1_op read_u64
    write_first
run_sop1 s_cbranch_join operands wf = do
  state ← start_one wf operands
  state' ← run_s_cbranch_join state wf
  finish_sop1 wf operands state'
run_sop1 s_set_gpr_idx_idx operands wf = do
  state ← start_one wf operands
  finish_sop1 wf operands (run_s_set_gpr_idx_idx state)
run_sop1 s_rfe_b64 operands wf = do
  state ← start_one wf operands
  finish_sop1 wf operands (run_s_rfe_b64 state)
run_sop1 s_setpc_b64 operands wf = do
  state ← start_one wf operands
  finish_sop1 wf operands (run_s_setpc_b64 state)
run_sop1 s_getpc_b64 operands wf = do
  state ← get_sop1_state wf operands
  assert (length operands == 1)
  sdst ← read_u64 wf operands 0
  let state' = run_s_getpc_b64 (record state { sdst = sdst })
  wf' ← write_first wf operands state'.sdst
  finish_sop1 wf' operands state'
run_sop1 s_movreld_b32 operands wf = do
  state ← get_sop1_state wf operands
  wf' ← run_s_movreld_b32 state wf
  finish_sop1 wf' operands state
run_sop1 s_movreld_b64 operands wf = do
  state ← get_sop1_state wf operands
  wf' ← run_s_movreld_b64 state wf
  finish_sop1 wf' operands state
run_sop1 s_movrels_b32 operands wf = do
  state ← get_sop1_state wf operands
  state' ← run_s_movrels_b32 state wf
  finish_sop1 wf operands state'
run_sop1 s_movrels_b64 operands wf = do
  state ← get_sop1_state wf operands
  state' ← run_s_movrels_b64 state wf
  finish_sop1 wf operands state'
run_sop1 unsupported_key operands wf = do state ← get_sop1_state wf operands; fail Fault.unsupported
run_sop1 (plain op) operands wf = do
  state ← get_sop1_state wf operands
  state' ← run_sop1_op op state
  finish_sop1 wf operands state'
