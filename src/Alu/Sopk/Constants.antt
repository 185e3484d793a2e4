-- ===== src/Alu/Sopk/Constants.antt =====
-- `s_cmpk_gt_i32` and `s_movk_i32`.
use red_o_lator.Base.{◌≡◌, refl, ltb_ℤ, ◌||◌, i32, arith}
use red_o_lator.Wavefront.States.{WfStateSopk}
use red_o_lator.Alu.Sopk.{run_s_cmpk_gt_i32, run_s_cmpk_ge_i32, run_s_cmpk_eq_i32}

-- For every state, `s_cmpk_gt_i32` does what `s_cmpk_ge_i32` does: SCC is set also when the signed
-- words are equal.
pub cmpk_gt_i32_lem :
    (s : WfStateSopk)
    → (run_s_cmpk_gt_i32 s ≡ run_s_cmpk_ge_i32 s)
      × ((run_s_cmpk_gt_i32 s).scc
          ≡ (ltb_ℤ (i32 s.imm16) (i32 s.sdst) || (run_s_cmpk_eq_i32 s).scc))
unfolding run_s_cmpk_gt_i32 run_s_cmpk_ge_i32 run_s_cmpk_eq_i32
cmpk_gt_i32_lem s = (refl, ground arith)
