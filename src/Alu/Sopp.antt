-- ===== src/Alu/Sopp.antt =====
-- emulator/src/alu/alu_sopp.cpp: branches and control.
pub mod IndexMode
use red_o_lator.Base.{
  false, not, ◌&&◌, ◌||◌, u32, ◌<<<◌, ◌==◌, ◌!=◌, bit_and, bit_or, if◌then◌else◌, List, Result, ok,
  fail, Fault, ◌>>=◌,
}
use red_o_lator.Register.{set_value}
use red_o_lator.Register.Mode.{set_gpr_idx_en}
use red_o_lator.Register.Status.{cond_dbg_sys, cond_dbg_user, set_halt}
use red_o_lator.Instruction.{Operand}
use red_o_lator.Wavefront.{Wavefront}
use red_o_lator.Wavefront.States.{
  WfStateSopp, read_u64, put_registers, get_common_sopp_state, update_with_common_sopp_state,
}

abbrev jump : WfStateSopp → WfStateSopp
unfolding set_value
jump state = record state { pc = set_value state.pc state.reladdr }

unfoldable pub run_s_branch : WfStateSopp → WfStateSopp
unfolding jump
run_s_branch state = jump state

unfoldable pub run_s_cbranch_cdbgsys : WfStateSopp → WfStateSopp
unfolding jump cond_dbg_sys
run_s_cbranch_cdbgsys state = if cond_dbg_sys state.status then jump state else state

unfoldable pub run_s_cbranch_cdbgsys_and_user : WfStateSopp → WfStateSopp
unfolding jump cond_dbg_sys cond_dbg_user
run_s_cbranch_cdbgsys_and_user state =
    if cond_dbg_sys state.status && cond_dbg_user state.status then jump state else state

unfoldable pub run_s_cbranch_cdbgsys_or_user : WfStateSopp → WfStateSopp
unfolding jump cond_dbg_sys cond_dbg_user
run_s_cbranch_cdbgsys_or_user state =
    if cond_dbg_sys state.status || cond_dbg_user state.status then jump state else state

unfoldable pub run_s_cbranch_cdbguser : WfStateSopp → WfStateSopp
unfolding jump cond_dbg_user
run_s_cbranch_cdbguser state = if cond_dbg_user state.status then jump state else state

unfoldable pub run_s_cbranch_execnz : WfStateSopp → WfStateSopp
unfolding jump
run_s_cbranch_execnz state = if state.exec != 0 then jump state else state

unfoldable pub run_s_cbranch_execz : WfStateSopp → WfStateSopp
unfolding jump
run_s_cbranch_execz state = if state.exec == 0 then jump state else state

unfoldable pub run_s_cbranch_scc0 : WfStateSopp → WfStateSopp
unfolding jump
run_s_cbranch_scc0 state = if not state.scc then jump state else state

unfoldable pub run_s_cbranch_scc1 : WfStateSopp → WfStateSopp
unfolding jump
run_s_cbranch_scc1 state = if state.scc then jump state else state

unfoldable pub run_s_cbranch_vccnz : WfStateSopp → WfStateSopp
unfolding jump
run_s_cbranch_vccnz state = if state.vcc != 0 then jump state else state

unfoldable pub run_s_cbranch_vccz : WfStateSopp → WfStateSopp
unfolding jump
run_s_cbranch_vccz state = if state.vcc == 0 then jump state else state

unfoldable pub run_s_nop : WfStateSopp → WfStateSopp
run_s_nop state = state

unfoldable pub run_s_set_gpr_idx_mode : WfStateSopp → WfStateSopp
run_s_set_gpr_idx_mode state = record state {
  m0 = bit_or (bit_and state.m0 0xffff0fff) (u32 (bit_and state.simm16 15 <<< 12));
}

unfoldable pub run_s_set_gpr_idx_off : WfStateSopp → WfStateSopp
unfolding set_gpr_idx_en
run_s_set_gpr_idx_off state = record state { mode = set_gpr_idx_en state.mode false }

unfoldable pub run_s_sethalt : WfStateSopp → WfStateSopp
unfolding set_halt
run_s_sethalt state = record state { status = set_halt state.status (bit_and state.simm16 1 != 0) }

unfoldable pub run_s_waitcnt : WfStateSopp → WfStateSopp
run_s_waitcnt state = state

-- The branches read their target from operand 0; S_BARRIER and S_ENDPGM are no instructions here.
pub data SoppBranch : Type 0 where
  s_branch s_cbranch_cdbgsys s_cbranch_cdbgsys_and_user s_cbranch_cdbgsys_or_user : SoppBranch
  s_cbranch_cdbguser s_cbranch_execnz s_cbranch_execz s_cbranch_scc0 s_cbranch_scc1 : SoppBranch
  s_cbranch_vccnz s_cbranch_vccz : SoppBranch

pub data SoppKey : Type 0 where
  s_nop s_set_gpr_idx_mode s_set_gpr_idx_off s_sethalt s_waitcnt s_barrier s_endpgm : SoppKey
  unsupported_key : SoppKey
  branches : SoppBranch → SoppKey

unfoldable pub run_branch : SoppBranch → WfStateSopp → WfStateSopp
unfolding run_s_branch run_s_cbranch_cdbgsys run_s_cbranch_cdbgsys_and_user
    run_s_cbranch_cdbgsys_or_user run_s_cbranch_cdbguser run_s_cbranch_execnz run_s_cbranch_execz
    run_s_cbranch_scc0 run_s_cbranch_scc1 run_s_cbranch_vccnz run_s_cbranch_vccz
run_branch s_branch state = run_s_branch state
run_branch s_cbranch_cdbgsys state = run_s_cbranch_cdbgsys state
run_branch s_cbranch_cdbgsys_and_user state = run_s_cbranch_cdbgsys_and_user state
run_branch s_cbranch_cdbgsys_or_user state = run_s_cbranch_cdbgsys_or_user state
run_branch s_cbranch_cdbguser state = run_s_cbranch_cdbguser state
run_branch s_cbranch_execnz state = run_s_cbranch_execnz state
run_branch s_cbranch_execz state = run_s_cbranch_execz state
run_branch s_cbranch_scc0 state = run_s_cbranch_scc0 state
run_branch s_cbranch_scc1 state = run_s_cbranch_scc1 state
run_branch s_cbranch_vccnz state = run_s_cbranch_vccnz state
run_branch s_cbranch_vccz state = run_s_cbranch_vccz state

unfoldable pub set_reladdr_and_exec :
    List Operand → Wavefront → WfStateSopp → (WfStateSopp → WfStateSopp) → Result WfStateSopp
unfolding read_u64
set_reladdr_and_exec operands wf state exec = do
  reladdr ← read_u64 wf operands 0
  ok (exec (record state { reladdr = reladdr }))

unfoldable pub run_sopp_op : SoppKey → List Operand → Wavefront → WfStateSopp → Result WfStateSopp
unfolding set_reladdr_and_exec run_branch run_s_nop run_s_set_gpr_idx_mode run_s_set_gpr_idx_off
    run_s_sethalt run_s_waitcnt
run_sopp_op (branches b) operands wf state = set_reladdr_and_exec operands wf state (run_branch b)
run_sopp_op s_nop operands wf state = ok (run_s_nop state)
run_sopp_op s_set_gpr_idx_mode operands wf state = ok (run_s_set_gpr_idx_mode state)
run_sopp_op s_set_gpr_idx_off operands wf state = ok (run_s_set_gpr_idx_off state)
run_sopp_op s_sethalt operands wf state = ok (run_s_sethalt state)
run_sopp_op s_waitcnt operands wf state = ok (run_s_waitcnt state)
run_sopp_op s_barrier operands wf state = fail Fault.unsupported
run_sopp_op s_endpgm operands wf state = fail Fault.unsupported
run_sopp_op unsupported_key operands wf state = fail Fault.unsupported

unfoldable pub run_sopp : SoppKey → List Operand → Wavefront → Result Wavefront
unfolding get_common_sopp_state run_sopp_op update_with_common_sopp_state
run_sopp key operands wf = do
  state ← run_sopp_op key operands wf (get_common_sopp_state wf)
  ok (update_with_common_sopp_state (put_registers state.pc state.mode state.status wf) state)
