-- ===== src/Alu/Sopc/Order.antt =====
-- The orders that the scalar comparisons stand for, and what they do to M0.
use red_o_lator.Base.{
  ◌≡◌, ◌≢◌, ◌<◌, ◌^◌, refl, u32, true, ◌↔◌, ◌≤◌, i32, ◌<ℤ◌, ◌≤ℤ◌, ◌==◌, arith, length, assert, List,
  ok, >>=-eq-ok,
}
use red_o_lator.Instruction.{Operand}
use red_o_lator.Wavefront.{Wavefront}
use red_o_lator.Wavefront.States.{WfStateSopc, get_sopc_state, read_u64}
use red_o_lator.Alu.Sopc.{
  SopcKey, run_sopc, run_sopc_op, run_s_cmp_eq_u32, run_s_cmp_ge_i32, run_s_cmp_ge_u32,
  run_s_cmp_gt_i32, run_s_cmp_gt_u32, run_s_cmp_le_i32, run_s_cmp_le_u32, run_s_cmp_lg_u32,
  run_s_cmp_lt_i32, run_s_cmp_lt_u32, run_s_cmp_eq_i32, run_s_cmp_lg_i32,
}

-- For 32-bit operands, SCC after a comparison: `lt`, `le`, `gt` and `ge` of `_i32` set it exactly when the
-- integers that the operands stand for in two's complement compare so, `eq` and `lg` exactly when these
-- integers are equal or differ; those of `_u32` exactly when the operands themselves compare so.
pub cmp_orders :
    (s : WfStateSopc)
    → s.ssrc0 < 2 ^ 32
    → s.ssrc1 < 2 ^ 32
    → (((run_s_cmp_lt_i32 s).scc ≡ true) ↔ (i32 s.ssrc0 <ℤ i32 s.ssrc1))
      × (((run_s_cmp_le_i32 s).scc ≡ true) ↔ (i32 s.ssrc0 ≤ℤ i32 s.ssrc1))
      × (((run_s_cmp_gt_i32 s).scc ≡ true) ↔ (i32 s.ssrc1 <ℤ i32 s.ssrc0))
      × (((run_s_cmp_ge_i32 s).scc ≡ true) ↔ (i32 s.ssrc1 ≤ℤ i32 s.ssrc0))
      × (((run_s_cmp_eq_i32 s).scc ≡ true) ↔ (i32 s.ssrc0 ≡ i32 s.ssrc1))
      × (((run_s_cmp_lg_i32 s).scc ≡ true) ↔ (i32 s.ssrc0 ≢ i32 s.ssrc1))
      × (((run_s_cmp_lt_u32 s).scc ≡ true) ↔ (s.ssrc0 < s.ssrc1))
      × (((run_s_cmp_le_u32 s).scc ≡ true) ↔ (s.ssrc0 ≤ s.ssrc1))
      × (((run_s_cmp_gt_u32 s).scc ≡ true) ↔ (s.ssrc1 < s.ssrc0))
      × (((run_s_cmp_ge_u32 s).scc ≡ true) ↔ (s.ssrc1 ≤ s.ssrc0))
      × (((run_s_cmp_eq_u32 s).scc ≡ true) ↔ (s.ssrc0 ≡ s.ssrc1))
      × (((run_s_cmp_lg_u32 s).scc ≡ true) ↔ (s.ssrc0 ≢ s.ssrc1))
unfolding run_s_cmp_eq_u32 run_s_cmp_ge_i32 run_s_cmp_ge_u32 run_s_cmp_gt_i32 run_s_cmp_gt_u32
    run_s_cmp_le_i32 run_s_cmp_le_u32 run_s_cmp_lg_u32 run_s_cmp_lt_i32 run_s_cmp_lt_u32
    run_s_cmp_eq_i32 run_s_cmp_lg_i32
cmp_orders s h k = (
  ground arith,
  ground arith,
  ground arith,
  ground arith,
  ground arith,
  ground arith,
  ground arith,
  ground arith,
  ground arith,
  ground arith,
  ground arith,
  ground arith,
)

state_m0 :
    (operands : List Operand) (wf : Wavefront) (s : WfStateSopc)
    → get_sopc_state wf operands ≡ ok s
    → s.m0 ≡ u32 wf.exec_reg
unfolding get_sopc_state
state_m0 operands wf s e =
    let (_, _, e1) = >>=-eq-ok (assert (length operands == 2)) _ e in
    let (_, _, e2) = >>=-eq-ok (read_u64 wf operands 0) _ e1 in
    let (_, _, e3) = >>=-eq-ok (read_u64 wf operands 1) _ e2 in cc

op_m0 :
    (key : SopcKey) (s s' : WfStateSopc)
    → key ≢ SopcKey.s_set_gpr_idx_on
    → run_sopc_op key s ≡ ok s'
    → s'.m0 ≡ s.m0
unfolding run_sopc_op
op_m0 SopcKey.s_set_gpr_idx_on s s' h e = absurd (h refl)
op_m0 SopcKey.unsupported_key s s' h e = cc
op_m0 SopcKey.s_bitcmp0_b32 s s' h e = cc
op_m0 SopcKey.s_bitcmp0_b64 s s' h e = cc
op_m0 SopcKey.s_bitcmp1_b32 s s' h e = cc
op_m0 SopcKey.s_bitcmp1_b64 s s' h e = cc
op_m0 SopcKey.s_cmp_eq_u64 s s' h e = cc
op_m0 SopcKey.s_cmp_ge_i32 s s' h e = cc
op_m0 SopcKey.s_cmp_ge_u32 s s' h e = cc
op_m0 SopcKey.s_cmp_gt_i32 s s' h e = cc
op_m0 SopcKey.s_cmp_gt_u32 s s' h e = cc
op_m0 SopcKey.s_cmp_le_i32 s s' h e = cc
op_m0 SopcKey.s_cmp_le_u32 s s' h e = cc
op_m0 SopcKey.s_cmp_lg_u64 s s' h e = cc
op_m0 SopcKey.s_cmp_lt_i32 s s' h e = cc
op_m0 SopcKey.s_cmp_lt_u32 s s' h e = cc
op_m0 SopcKey.s_cmp_eq_i32 s s' h e = cc
op_m0 SopcKey.s_cmp_eq_u32 s s' h e = cc
op_m0 SopcKey.s_cmp_lg_i32 s s' h e = cc
op_m0 SopcKey.s_cmp_lg_u32 s s' h e = cc
op_m0 SopcKey.s_cmp_ne_u64 s s' h e = cc
op_m0 SopcKey.s_setvskip s s' h e = cc

-- For every instruction but `s_set_gpr_idx_on`: when a scalar comparison completes, M0 holds the low
-- word of EXEC, whatever M0 held before.
pub run_sopc-m0 :
    (key : SopcKey) (operands : List Operand) (wf wf' : Wavefront)
    → key ≢ SopcKey.s_set_gpr_idx_on
    → run_sopc key operands wf ≡ ok wf'
    → wf'.m0_reg ≡ u32 wf.exec_reg
unfolding run_sopc
run_sopc-m0 key operands wf wf' h e =
    let (s, e1, rest) = >>=-eq-ok (get_sopc_state wf operands) _ e in
    let (s', e2, stored) = >>=-eq-ok (run_sopc_op key s) _ rest in
    let a = state_m0 operands wf s e1 in let b = op_m0 key s s' h e2 in cc
