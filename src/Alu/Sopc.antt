-- ===== src/Alu/Sopc.antt =====
-- emulator/src/alu/alu_sopc.cpp: scalar comparisons, which set SCC.
pub mod Order
use red_o_lator.Base.{
  true, u32, ◌<<<◌, i32, of_int, to_int, ltb_ℤ, leb_ℤ, ltb, leb, ◌==◌, ◌!=◌, bit_and, bit_or, List,
  Result, ok, fail, Fault, ◌>>=◌,
}
use red_o_lator.Register.Mode.{set_gpr_idx_en, set_vskip}
use red_o_lator.Instruction.{Operand}
use red_o_lator.Wavefront.{Wavefront}
use red_o_lator.Wavefront.States.{WfStateSopc, get_sopc_state, update_with_sopc_state}

unfoldable pub run_s_bitcmp0_b32 : WfStateSopc → WfStateSopc
run_s_bitcmp0_b32 state = record state {
  scc = bit_and state.ssrc0 (1 <<< bit_and state.ssrc1 31) == 0;
}

unfoldable pub run_s_bitcmp0_b64 : WfStateSopc → WfStateSopc
run_s_bitcmp0_b64 state = record state {
  scc = bit_and state.ssrc0 (1 <<< bit_and state.ssrc1 63) == 0;
}

unfoldable pub run_s_bitcmp1_b32 : WfStateSopc → WfStateSopc
run_s_bitcmp1_b32 state = record state {
  scc = bit_and state.ssrc0 (1 <<< bit_and state.ssrc1 31) != 0;
}

unfoldable pub run_s_bitcmp1_b64 : WfStateSopc → WfStateSopc
run_s_bitcmp1_b64 state = record state {
  scc = bit_and state.ssrc0 (1 <<< bit_and state.ssrc1 63) != 0;
}

unfoldable pub run_s_cmp_eq_u64 : WfStateSopc → WfStateSopc
run_s_cmp_eq_u64 state = record state { scc = state.ssrc0 == state.ssrc1 }

unfoldable pub run_s_cmp_ge_i32 : WfStateSopc → WfStateSopc
run_s_cmp_ge_i32 state = record state { scc = leb_ℤ (i32 state.ssrc1) (i32 state.ssrc0) }

unfoldable pub run_s_cmp_ge_u32 : WfStateSopc → WfStateSopc
run_s_cmp_ge_u32 state = record state { scc = leb (u32 state.ssrc1) (u32 state.ssrc0) }

unfoldable pub run_s_cmp_gt_i32 : WfStateSopc → WfStateSopc
run_s_cmp_gt_i32 state = record state { scc = ltb_ℤ (i32 state.ssrc1) (i32 state.ssrc0) }

unfoldable pub run_s_cmp_gt_u32 : WfStateSopc → WfStateSopc
run_s_cmp_gt_u32 state = record state { scc = ltb (u32 state.ssrc1) (u32 state.ssrc0) }

unfoldable pub run_s_cmp_le_i32 : WfStateSopc → WfStateSopc
run_s_cmp_le_i32 state = record state { scc = leb_ℤ (i32 state.ssrc0) (i32 state.ssrc1) }

unfoldable pub run_s_cmp_le_u32 : WfStateSopc → WfStateSopc
run_s_cmp_le_u32 state = record state { scc = leb (u32 state.ssrc0) (u32 state.ssrc1) }

unfoldable pub run_s_cmp_lg_u64 : WfStateSopc → WfStateSopc
run_s_cmp_lg_u64 state = record state { scc = state.ssrc0 != state.ssrc1 }

unfoldable pub run_s_cmp_lt_i32 : WfStateSopc → WfStateSopc
run_s_cmp_lt_i32 state = record state { scc = ltb_ℤ (i32 state.ssrc0) (i32 state.ssrc1) }

unfoldable pub run_s_cmp_lt_u32 : WfStateSopc → WfStateSopc
run_s_cmp_lt_u32 state = record state { scc = ltb state.ssrc0 state.ssrc1 }

unfoldable pub run_s_cmp_eq_i32 : WfStateSopc → WfStateSopc
unfolding run_s_cmp_eq_u64
run_s_cmp_eq_i32 state = run_s_cmp_eq_u64 state

unfoldable pub run_s_cmp_eq_u32 : WfStateSopc → WfStateSopc
unfolding run_s_cmp_eq_u64
run_s_cmp_eq_u32 state = run_s_cmp_eq_u64 state

unfoldable pub run_s_cmp_lg_i32 : WfStateSopc → WfStateSopc
unfolding run_s_cmp_lg_u64
run_s_cmp_lg_i32 state = run_s_cmp_lg_u64 state

unfoldable pub run_s_cmp_lg_u32 : WfStateSopc → WfStateSopc
unfolding run_s_cmp_lg_u64
run_s_cmp_lg_u32 state = run_s_cmp_lg_u64 state

unfoldable pub run_s_cmp_ne_u64 : WfStateSopc → WfStateSopc
unfolding run_s_cmp_lg_u64
run_s_cmp_ne_u64 state = run_s_cmp_lg_u64 state

unfoldable pub run_s_set_gpr_idx_on : WfStateSopc → WfStateSopc
unfolding set_gpr_idx_en
run_s_set_gpr_idx_on state = record state {
  mode = set_gpr_idx_en state.mode true;
  m0 = u32 (bit_or (bit_and state.ssrc1 15 <<< 12) (bit_and state.ssrc0 0xff));
}

-- `1 << k` is an `int`, which widens with its sign: at k = 31 the mask has 33 ones.
unfoldable pub run_s_setvskip : WfStateSopc → WfStateSopc
unfolding set_vskip
run_s_setvskip state =
    let mask = of_int 64 (to_int 32 (1 <<< bit_and state.ssrc1 31)) in
    record state { mode = set_vskip state.mode (bit_and state.ssrc0 mask != 0) }

pub data SopcKey : Type 0 where
  s_bitcmp0_b32 s_bitcmp0_b64 s_bitcmp1_b32 s_bitcmp1_b64 s_cmp_eq_u64 s_cmp_ge_i32 : SopcKey
  s_cmp_ge_u32 s_cmp_gt_i32 s_cmp_gt_u32 s_cmp_le_i32 s_cmp_le_u32 s_cmp_lg_u64 : SopcKey
  s_cmp_lt_i32 s_cmp_lt_u32 s_cmp_eq_i32 s_cmp_eq_u32 s_cmp_lg_i32 s_cmp_lg_u32 : SopcKey
  s_cmp_ne_u64 s_set_gpr_idx_on s_setvskip unsupported_key : SopcKey

unfoldable pub run_sopc_op : SopcKey → WfStateSopc → Result WfStateSopc
unfolding run_s_bitcmp0_b32 run_s_bitcmp0_b64 run_s_bitcmp1_b32 run_s_bitcmp1_b64 run_s_cmp_eq_u64
    run_s_cmp_ge_i32 run_s_cmp_ge_u32 run_s_cmp_gt_i32 run_s_cmp_gt_u32 run_s_cmp_le_i32
    run_s_cmp_le_u32 run_s_cmp_lg_u64 run_s_cmp_lt_i32 run_s_cmp_lt_u32 run_s_cmp_eq_i32
    run_s_cmp_eq_u32 run_s_cmp_lg_i32 run_s_cmp_lg_u32 run_s_cmp_ne_u64 run_s_set_gpr_idx_on
    run_s_setvskip
run_sopc_op s_bitcmp0_b32 state = ok (run_s_bitcmp0_b32 state)
run_sopc_op s_bitcmp0_b64 state = ok (run_s_bitcmp0_b64 state)
run_sopc_op s_bitcmp1_b32 state = ok (run_s_bitcmp1_b32 state)
run_sopc_op s_bitcmp1_b64 state = ok (run_s_bitcmp1_b64 state)
run_sopc_op s_cmp_eq_u64 state = ok (run_s_cmp_eq_u64 state)
run_sopc_op s_cmp_ge_i32 state = ok (run_s_cmp_ge_i32 state)
run_sopc_op s_cmp_ge_u32 state = ok (run_s_cmp_ge_u32 state)
run_sopc_op s_cmp_gt_i32 state = ok (run_s_cmp_gt_i32 state)
run_sopc_op s_cmp_gt_u32 state = ok (run_s_cmp_gt_u32 state)
run_sopc_op s_cmp_le_i32 state = ok (run_s_cmp_le_i32 state)
run_sopc_op s_cmp_le_u32 state = ok (run_s_cmp_le_u32 state)
run_sopc_op s_cmp_lg_u64 state = ok (run_s_cmp_lg_u64 state)
run_sopc_op s_cmp_lt_i32 state = ok (run_s_cmp_lt_i32 state)
run_sopc_op s_cmp_lt_u32 state = ok (run_s_cmp_lt_u32 state)
run_sopc_op s_cmp_eq_i32 state = ok (run_s_cmp_eq_i32 state)
run_sopc_op s_cmp_eq_u32 state = ok (run_s_cmp_eq_u32 state)
run_sopc_op s_cmp_lg_i32 state = ok (run_s_cmp_lg_i32 state)
run_sopc_op s_cmp_lg_u32 state = ok (run_s_cmp_lg_u32 state)
run_sopc_op s_cmp_ne_u64 state = ok (run_s_cmp_ne_u64 state)
run_sopc_op s_set_gpr_idx_on state = ok (run_s_set_gpr_idx_on state)
run_sopc_op s_setvskip state = ok (run_s_setvskip state)
run_sopc_op unsupported_key state = fail Fault.unsupported

unfoldable pub run_sopc : SopcKey → List Operand → Wavefront → Result Wavefront
unfolding get_sopc_state run_sopc_op update_with_sopc_state
run_sopc key operands wf = do
  state ← get_sopc_state wf operands
  state' ← run_sopc_op key state
  ok (update_with_sopc_state (record wf { mode_reg = state'.mode }) state')
