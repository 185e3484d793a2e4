-- ===== src/Alu/Sop2/Compare.antt =====
-- alu_sop2.cpp: maxima, minima and selection.
use red_o_lator.Base.{u32, of_int, i32, max_ℤ, min_ℤ, ltb_ℤ, ltb, if◌then◌else◌}
use red_o_lator.Wavefront.States.{WfStateSop2}

unfoldable pub run_s_cselect_b32 : WfStateSop2 → WfStateSop2
run_s_cselect_b32 state = record state { sdst = if state.scc then state.ssrc0 else state.ssrc1 }

unfoldable pub run_s_cselect_b64 : WfStateSop2 → WfStateSop2
run_s_cselect_b64 state = record state { sdst = if state.scc then state.ssrc0 else state.ssrc1 }

unfoldable pub run_s_max_i32 : WfStateSop2 → WfStateSop2
run_s_max_i32 state =
    let src0 = i32 state.ssrc0 in
    let src1 = i32 state.ssrc1 in
    record state { sdst = of_int 64 (max_ℤ src0 src1); scc = ltb_ℤ src1 src0 }

unfoldable pub run_s_max_u32 : WfStateSop2 → WfStateSop2
run_s_max_u32 state =
    let src0 = u32 state.ssrc0 in
    let src1 = u32 state.ssrc1 in
    record state { sdst = if ltb src0 src1 then src1 else src0; scc = ltb src1 src0 }

unfoldable pub run_s_min_i32 : WfStateSop2 → WfStateSop2
run_s_min_i32 state =
    let src0 = i32 state.ssrc0 in
    let src1 = i32 state.ssrc1 in
    record state { sdst = of_int 64 (min_ℤ src0 src1); scc = ltb_ℤ src0 src1 }

unfoldable pub run_s_min_u32 : WfStateSop2 → WfStateSop2
run_s_min_u32 state =
    let src0 = u32 state.ssrc0 in
    let src1 = u32 state.ssrc1 in
    record state { sdst = if ltb src1 src0 then src1 else src0; scc = ltb src0 src1 }
