-- ===== src/Alu/Sop1/Jump.antt =====
-- alu_sop1.cpp: the program counter, and the join of forked masks.
use red_o_lator.Base.{◌+◌, ◌*◌, u8, u64, ◌==◌, false, if◌then◌else◌, Result, ok, ◌>>=◌}
use red_o_lator.Register.{set_value, add}
use red_o_lator.Register.Mode.{csp}
use red_o_lator.Register.Status.{set_priv}
use red_o_lator.Wavefront.{Wavefront, read_sgpr_pair}
use red_o_lator.Wavefront.States.{WfStateSop1}

-- `csp--` is on a uint8_t; MODE keeps its old stack pointer.
unfoldable pub run_s_cbranch_join : WfStateSop1 → Wavefront → Result WfStateSop1
unfolding csp add set_value read_sgpr_pair
run_s_cbranch_join state wf =
    let sp = csp state.mode in
    if sp == state.ssrc0 then ok (record state { pc = add state.pc 4 }) else (do
      let top = u8 (sp + 255)
      exec ← read_sgpr_pair wf (top * 4)
      value ← read_sgpr_pair wf (top * 4 + 2)
      ok (record state { exec = exec; pc = set_value state.pc value }))

unfoldable pub run_s_getpc_b64 : WfStateSop1 → WfStateSop1
run_s_getpc_b64 state = record state { sdst = u64 (state.pc.value + 4) }

unfoldable pub run_s_rfe_b64 : WfStateSop1 → WfStateSop1
unfolding set_priv set_value
run_s_rfe_b64 state = record state {
  status = set_priv state.status false;
  pc = set_value state.pc state.ssrc0;
}

unfoldable pub run_s_setpc_b64 : WfStateSop1 → WfStateSop1
unfolding set_value
run_s_setpc_b64 state = record state { pc = set_value state.pc state.ssrc0 }

unfoldable pub run_s_swappc_b64 : WfStateSop1 → WfStateSop1
unfolding set_value
run_s_swappc_b64 state = record state {
  sdst = u64 (state.pc.value + 4);
  pc = set_value state.pc state.ssrc0;
}
