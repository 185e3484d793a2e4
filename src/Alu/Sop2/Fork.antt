-- ===== src/Alu/Sop2/Fork.antt =====
-- alu_sop2.cpp: the fork and the return from a trap handler.
use red_o_lator.Base.{
  ◌+◌, ◌*◌, u8, u64, bit_and, bit_not, ltb, ◌==◌, false, if◌then◌else◌, Result, ok, ◌>>=◌,
}
use red_o_lator.Register.{set_value, add}
use red_o_lator.Register.Mode.{csp, set_csp}
use red_o_lator.Register.Status.{set_priv}
use red_o_lator.Util.{bit_count64}
use red_o_lator.Wavefront.{Wavefront, set_sgpr_pair}
use red_o_lator.Wavefront.States.{WfStateSop2}

unfoldable pub run_s_cbranch_g_fork : WfStateSop2 → Wavefront → Result (WfStateSop2 × Wavefront)
unfolding set_value add csp set_csp bit_count64 set_sgpr_pair
run_s_cbranch_g_fork state wf =
    let passes = bit_and state.exec state.ssrc0 in
    let failures = bit_and state.exec (bit_not 64 state.ssrc0) in
    let sp = csp state.mode in
    if passes == state.exec
    then ok (record state { pc = set_value state.pc state.ssrc1 }, wf)
    else if failures == state.exec
    then ok (record state { pc = add state.pc 4 }, wf)
    else if ltb (bit_count64 failures) (bit_count64 passes)
    then (do
      wf' ← set_sgpr_pair wf (sp * 4) passes
      wf'' ← set_sgpr_pair wf' (sp * 4 + 2) state.ssrc1
      ok (
        record state {
          exec = failures;
          mode = set_csp state.mode (u8 (sp + 1));
          pc = add state.pc 4;
        },
        wf'',
      ))
    else (do
      wf' ← set_sgpr_pair wf (sp * 4) failures
      wf'' ← set_sgpr_pair wf' (sp * 4 + 2) (u64 (state.pc.value + 4))
      ok (
        record state {
          exec = passes;
          mode = set_csp state.mode (u8 (sp + 1));
          pc = set_value state.pc state.ssrc1;
        },
        wf'',
      ))

unfoldable pub run_s_rfe_restore_b64 : WfStateSop2 → WfStateSop2
unfolding set_priv set_value
run_s_rfe_restore_b64 state = record state {
  status = set_priv state.status false;
  pc = set_value state.pc state.ssrc0;
}
