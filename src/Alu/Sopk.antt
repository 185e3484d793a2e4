-- ===== src/Alu/Sopk.antt =====
-- emulator/src/alu/alu_sopk.cpp: instructions with a 16-bit constant.
pub mod Constants
use red_o_lator.Base.{
  ◌+◌, ◌*◌, not, ◌&&◌, u8, u32, u64, i32, of_int, to_int, ltb_ℤ, leb_ℤ, eqb_ℤ, ◌+ℤ◌, ◌*ℤ◌, ltb, leb,
  ◌==◌, ◌!=◌, bit_and, bit_not, get_bit, same, if◌then◌else◌, List, Result, ok, fail, Fault, ◌>>=◌,
}
use red_o_lator.Register.{set_value, add}
use red_o_lator.Register.Mode.{csp, set_csp}
use red_o_lator.Util.{bit_count64}
use red_o_lator.Instruction.{Operand}
use red_o_lator.Wavefront.{Wavefront, set_sgpr_pair}
use red_o_lator.Wavefront.States.{
  WfStateSopk, new_sopk_state, read_u64, write_first, get_sopk_state, update_with_sopk_state,
}

-- `temp` adds the constant a second time, to the sum that SDST already holds.
unfoldable pub run_s_addk_i32 : WfStateSopk → WfStateSopk
unfolding ◌+ℤ◌ get_bit
run_s_addk_i32 state =
    let sdst = of_int 64 (to_int 32 (of_int 32 (i32 state.sdst +ℤ i32 state.imm16))) in
    let temp = u64 (sdst + state.imm16) in
    record state {
      sdst = sdst;
      scc =
          same (get_bit 31 temp) (get_bit 15 state.imm16)
          && not (same (get_bit 31 temp) (get_bit 31 (u32 sdst)));
    }

unfoldable pub run_s_call_b64 : WfStateSopk → WfStateSopk
unfolding set_value
run_s_call_b64 state = record state {
  sdst = u64 (state.pc.value + 4);
  pc = set_value state.pc state.reladdr;
}

unfoldable pub run_s_cbranch_i_fork : WfStateSopk → Wavefront → Result (WfStateSopk × Wavefront)
unfolding set_value add csp set_csp bit_count64 set_sgpr_pair
run_s_cbranch_i_fork state wf =
    let passes = bit_and wf.exec_reg state.ssrc0 in
    let failures = bit_and wf.exec_reg (bit_not 64 state.ssrc0) in
    let sp = csp wf.mode_reg in
    if passes == wf.exec_reg
    then ok (record state { pc = set_value state.pc state.reladdr }, wf)
    else if failures == wf.exec_reg
    then ok (record state { pc = add state.pc 4 }, wf)
    else if ltb (bit_count64 failures) (bit_count64 passes)
    then (do
      wf' ← set_sgpr_pair (record wf { exec_reg = failures }) (sp * 4) passes
      wf'' ← set_sgpr_pair wf' (sp * 4 + 2) state.reladdr
      ok (
        record state { pc = add state.pc 4 },
        record wf'' { mode_reg = set_csp wf''.mode_reg (u8 (sp + 1)) },
      ))
    else (do
      wf' ← set_sgpr_pair (record wf { exec_reg = passes }) (sp * 4) failures
      wf'' ← set_sgpr_pair wf' (sp * 4 + 2) (u64 (state.pc.value + 4))
      ok (
        record state { pc = set_value state.pc state.reladdr },
        record wf'' { mode_reg = set_csp wf''.mode_reg (u8 (sp + 1)) },
      ))

unfoldable pub run_s_cmovk_i32 : WfStateSopk → WfStateSopk
run_s_cmovk_i32 state =
    if state.scc then record state { sdst = of_int 64 (i32 state.imm16) } else state

unfoldable pub run_s_cmpk_eq_i32 : WfStateSopk → WfStateSopk
run_s_cmpk_eq_i32 state = record state { scc = eqb_ℤ (i32 state.sdst) (i32 state.imm16) }

unfoldable pub run_s_cmpk_eq_u32 : WfStateSopk → WfStateSopk
run_s_cmpk_eq_u32 state = record state { scc = state.sdst == state.imm16 }

unfoldable pub run_s_cmpk_ge_i32 : WfStateSopk → WfStateSopk
run_s_cmpk_ge_i32 state = record state { scc = leb_ℤ (i32 state.imm16) (i32 state.sdst) }

unfoldable pub run_s_cmpk_ge_u32 : WfStateSopk → WfStateSopk
run_s_cmpk_ge_u32 state = record state { scc = leb state.imm16 state.sdst }

unfoldable pub run_s_cmpk_gt_i32 : WfStateSopk → WfStateSopk
run_s_cmpk_gt_i32 state = record state { scc = leb_ℤ (i32 state.imm16) (i32 state.sdst) }

unfoldable pub run_s_cmpk_gt_u32 : WfStateSopk → WfStateSopk
run_s_cmpk_gt_u32 state = record state { scc = ltb state.imm16 state.sdst }

unfoldable pub run_s_cmpk_le_i32 : WfStateSopk → WfStateSopk
run_s_cmpk_le_i32 state = record state { scc = leb_ℤ (i32 state.sdst) (i32 state.imm16) }

unfoldable pub run_s_cmpk_le_u32 : WfStateSopk → WfStateSopk
run_s_cmpk_le_u32 state = record state { scc = leb state.sdst state.imm16 }

unfoldable pub run_s_cmpk_lg_i32 : WfStateSopk → WfStateSopk
run_s_cmpk_lg_i32 state = record state { scc = not (eqb_ℤ (i32 state.sdst) (i32 state.imm16)) }

unfoldable pub run_s_cmpk_lg_u32 : WfStateSopk → WfStateSopk
run_s_cmpk_lg_u32 state = record state { scc = state.sdst != state.imm16 }

unfoldable pub run_s_cmpk_lt_i32 : WfStateSopk → WfStateSopk
run_s_cmpk_lt_i32 state = record state { scc = ltb_ℤ (i32 state.sdst) (i32 state.imm16) }

unfoldable pub run_s_cmpk_lt_u32 : WfStateSopk → WfStateSopk
run_s_cmpk_lt_u32 state = record state { scc = ltb state.sdst state.imm16 }

-- The constant goes to SCC, as a `bool`.
unfoldable pub run_s_movk_i32 : WfStateSopk → WfStateSopk
run_s_movk_i32 state = record state { scc = of_int 32 (i32 state.imm16) != 0 }

unfoldable pub run_s_mulk_i32 : WfStateSopk → WfStateSopk
unfolding ◌*ℤ◌
run_s_mulk_i32 state = record state {
  sdst = of_int 64 (to_int 32 (of_int 32 (i32 state.sdst *ℤ i32 state.imm16)));
}

pub data SopkOp : Type 0 where
  s_addk_i32 s_cmovk_i32 s_cmpk_eq_i32 s_cmpk_eq_u32 s_cmpk_ge_i32 s_cmpk_ge_u32 : SopkOp
  s_cmpk_gt_i32 s_cmpk_gt_u32 s_cmpk_le_i32 s_cmpk_le_u32 s_cmpk_lg_i32 s_cmpk_lg_u32 : SopkOp
  s_cmpk_lt_i32 s_cmpk_lt_u32 s_movk_i32 s_mulk_i32 : SopkOp

pub data SopkKey : Type 0 where
  s_call_b64 s_cbranch_i_fork unsupported_key : SopkKey
  plain : SopkOp → SopkKey

unfoldable pub run_sopk_op : SopkOp → WfStateSopk → WfStateSopk
unfolding run_s_addk_i32 run_s_cmovk_i32 run_s_cmpk_eq_i32 run_s_cmpk_eq_u32 run_s_cmpk_ge_i32
    run_s_cmpk_ge_u32 run_s_cmpk_gt_i32 run_s_cmpk_gt_u32 run_s_cmpk_le_i32 run_s_cmpk_le_u32
    run_s_cmpk_lg_i32 run_s_cmpk_lg_u32 run_s_cmpk_lt_i32 run_s_cmpk_lt_u32 run_s_movk_i32
    run_s_mulk_i32
run_sopk_op s_addk_i32 state = run_s_addk_i32 state
run_sopk_op s_cmovk_i32 state = run_s_cmovk_i32 state
run_sopk_op s_cmpk_eq_i32 state = run_s_cmpk_eq_i32 state
run_sopk_op s_cmpk_eq_u32 state = run_s_cmpk_eq_u32 state
run_sopk_op s_cmpk_ge_i32 state = run_s_cmpk_ge_i32 state
run_sopk_op s_cmpk_ge_u32 state = run_s_cmpk_ge_u32 state
run_sopk_op s_cmpk_gt_i32 state = run_s_cmpk_gt_i32 state
run_sopk_op s_cmpk_gt_u32 state = run_s_cmpk_gt_u32 state
run_sopk_op s_cmpk_le_i32 state = run_s_cmpk_le_i32 state
run_sopk_op s_cmpk_le_u32 state = run_s_cmpk_le_u32 state
run_sopk_op s_cmpk_lg_i32 state = run_s_cmpk_lg_i32 state
run_sopk_op s_cmpk_lg_u32 state = run_s_cmpk_lg_u32 state
run_sopk_op s_cmpk_lt_i32 state = run_s_cmpk_lt_i32 state
run_sopk_op s_cmpk_lt_u32 state = run_s_cmpk_lt_u32 state
run_sopk_op s_movk_i32 state = run_s_movk_i32 state
run_sopk_op s_mulk_i32 state = run_s_mulk_i32 state

unfoldable pub run_sopk : SopkKey → List Operand → Wavefront → Result Wavefront
unfolding new_sopk_state read_u64 write_first get_sopk_state update_with_sopk_state run_sopk_op
run_sopk s_call_b64 operands wf = do
  sdst ← read_u64 wf operands 0
  reladdr ← read_u64 wf operands 1
  let state = run_s_call_b64 (record (new_sopk_state wf) { sdst = sdst; reladdr = reladdr })
  write_first (record wf { program_counter = state.pc }) operands state.sdst
run_sopk s_cbranch_i_fork operands wf = do
  ssrc0 ← read_u64 wf operands 0
  reladdr ← read_u64 wf operands 1
  (state, wf') ←
      run_s_cbranch_i_fork (record (new_sopk_state wf) { ssrc0 = ssrc0; reladdr = reladdr }) wf
  ok (record wf' { program_counter = state.pc })
run_sopk unsupported_key operands wf = do state ← get_sopk_state wf operands; fail Fault.unsupported
run_sopk (plain op) operands wf = do
  state ← get_sopk_state wf operands
  let state' = run_sopk_op op state
  update_with_sopk_state (record wf { program_counter = state'.pc }) operands state'
