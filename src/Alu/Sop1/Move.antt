-- ===== src/Alu/Sop1/Move.antt =====
-- alu_sop1.cpp: moves, also relative to M0, complement, sign extension and reversal.
use red_o_lator.Base.{
  ℕ, ◌+◌, ◌-◌, u32, of_int, bit_not, bit_and, bit_or, ◌!=◌, if◌then◌else◌, ltb, length, set,
  get_elem?, Result, ok, fail, Fault, assert, or_fail, ◌>>=◌, ◌>>◌,
}
use red_o_lator.Register.{reg_s0, is_s_reg}
use red_o_lator.Util.{rev_bit32, rev_bit64, sign_ext8, sign_ext16}
use red_o_lator.Wavefront.{Wavefront, set_sgpr_pair, read_sgpr_pair}
use red_o_lator.Wavefront.States.{WfStateSop1}

unfoldable pub run_s_brev_b32 : WfStateSop1 → WfStateSop1
unfolding rev_bit32
run_s_brev_b32 state = record state { sdst = rev_bit32 (u32 state.ssrc0) }

unfoldable pub run_s_brev_b64 : WfStateSop1 → WfStateSop1
unfolding rev_bit64
run_s_brev_b64 state = record state { sdst = rev_bit64 state.ssrc0 }

unfoldable pub run_s_cmov_b32 : WfStateSop1 → WfStateSop1
run_s_cmov_b32 state = if state.scc then record state { sdst = u32 state.ssrc0 } else state

unfoldable pub run_s_cmov_b64 : WfStateSop1 → WfStateSop1
run_s_cmov_b64 state = if state.scc then record state { sdst = state.ssrc0 } else state

unfoldable pub run_s_mov_b32 : WfStateSop1 → WfStateSop1
run_s_mov_b32 state = record state { sdst = u32 state.ssrc0 }

unfoldable pub run_s_mov_b64 : WfStateSop1 → WfStateSop1
run_s_mov_b64 state = record state { sdst = state.ssrc0 }

unfoldable pub run_s_not_b32 : WfStateSop1 → WfStateSop1
run_s_not_b32 state =
    let sdst = bit_not 32 (u32 state.ssrc0) in record state { sdst = sdst; scc = sdst != 0 }

unfoldable pub run_s_not_b64 : WfStateSop1 → WfStateSop1
run_s_not_b64 state =
    let sdst = bit_not 64 state.ssrc0 in record state { sdst = sdst; scc = sdst != 0 }

unfoldable pub run_s_sext_i32_i8 : WfStateSop1 → WfStateSop1
unfolding sign_ext8
run_s_sext_i32_i8 state = record state { sdst = of_int 64 (sign_ext8 state.ssrc0) }

unfoldable pub run_s_sext_i32_i16 : WfStateSop1 → WfStateSop1
unfolding sign_ext16
run_s_sext_i32_i16 state = record state { sdst = of_int 64 (sign_ext16 state.ssrc0) }

unfoldable pub run_s_set_gpr_idx_idx : WfStateSop1 → WfStateSop1
run_s_set_gpr_idx_idx state = record state {
  m0 = bit_or (bit_and state.m0 0xffffff00) (bit_and (u32 state.ssrc0) 0xff);
}

-- `TYPE - S0 + M0`, in 32 bits.
abbrev relative : ℕ → ℕ → ℕ
relative reg m0 = u32 (reg - reg_s0 + m0)

unfoldable pub run_s_movreld_b32 : WfStateSop1 → Wavefront → Result Wavefront
unfolding is_s_reg
run_s_movreld_b32 state wf = do
  assert (is_s_reg state.dest_type)
  let i = relative state.dest_type state.m0
  if ltb i (length wf.scalar_reg_file)
      then ok (record wf { scalar_reg_file = set wf.scalar_reg_file i (u32 state.ssrc0) })
      else fail Fault.undefined

unfoldable pub run_s_movreld_b64 : WfStateSop1 → Wavefront → Result Wavefront
unfolding is_s_reg set_sgpr_pair
run_s_movreld_b64 state wf = do
  assert (is_s_reg state.dest_type)
  set_sgpr_pair wf (relative state.dest_type state.m0) state.ssrc0

unfoldable pub run_s_movrels_b32 : WfStateSop1 → Wavefront → Result WfStateSop1
unfolding is_s_reg
run_s_movrels_b32 state wf = do
  assert (is_s_reg state.src0_type)
  word ← or_fail (get_elem? wf.scalar_reg_file (relative state.src0_type state.m0)) Fault.undefined
  ok (record state { sdst = word })

unfoldable pub run_s_movrels_b64 : WfStateSop1 → Wavefront → Result WfStateSop1
unfolding is_s_reg read_sgpr_pair
run_s_movrels_b64 state wf = do
  assert (is_s_reg state.src0_type)
  pair ← read_sgpr_pair wf (relative state.src0_type state.m0)
  ok (record state { sdst = pair })
