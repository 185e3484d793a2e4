-- ===== src/Alu/Vop3/Median.antt =====
-- The selection of one of three values.
use red_o_lator.Base.{ℕ, ◌≡◌, ◌↔◌, arith, max, min}
use red_o_lator.Wavefront.VectorStates.{Vop3Lane}
use red_o_lator.Alu.Vop3.Compare.{run_v_max3_u32, run_v_min3_u32, run_v_med3_u32}

-- For all sources, `v_max3_u32` stores the largest of the three and `v_min3_u32` the smallest.
pub max3_min3_u32_lem :
    (lane : Vop3Lane) (src2 : ℕ)
    → ((run_v_max3_u32 lane src2).vdst ≡ max (max lane.src0 lane.src1) src2)
      × ((run_v_min3_u32 lane src2).vdst ≡ min (min lane.src0 lane.src1) src2)
unfolding run_v_max3_u32 run_v_min3_u32
max3_min3_u32_lem lane src2 = ground arith

-- For all sources, `v_med3_u32` stores the middle one of the three values exactly when not both SRC1 equals
-- SRC2 and SRC0 differs from them; then it stores SRC0.
pub med3_u32-median :
    (lane : Vop3Lane) (src2 : ℕ)
    → let median = max (min lane.src0 lane.src1) (min (max lane.src0 lane.src1) src2) in
      (((run_v_med3_u32 lane src2).vdst ≡ median) ↔ ((lane.src1 ≡ src2) → (lane.src0 ≡ src2)))
      × ((lane.src1 ≡ src2) → ((run_v_med3_u32 lane src2).vdst ≡ lane.src0))
unfolding run_v_med3_u32
med3_u32-median lane src2 = ground arith
