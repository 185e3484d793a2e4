-- ===== src/Alu/Vop2/Float.antt =====
-- alu_vop2.cpp: the instructions on floats. `to_float` keeps the low word of a source, and reports in the
-- log that it loses bits.
use red_o_lator.Base.{u32, Floats, if◌then◌else◌}
use red_o_lator.Wavefront.VectorStates.{Vop2Lane}

module _ (floats : Floats) where
  open floats use {float_add, float_sub, float_mul, float_lt}

  unfoldable pub run_v_sub_f32 : Vop2Lane → Vop2Lane
  run_v_sub_f32 lane = record lane { vdst = float_sub (u32 lane.src0) (u32 lane.src1) }

  unfoldable pub run_v_mul_f32 : Vop2Lane → Vop2Lane
  run_v_mul_f32 lane = record lane { vdst = float_mul (u32 lane.src0) (u32 lane.src1) }

  -- The product is rounded before the sum.
  unfoldable pub run_v_mac_f32 : Vop2Lane → Vop2Lane
  run_v_mac_f32 lane = record lane {
    vdst = float_add (float_mul (u32 lane.src0) (u32 lane.src1)) (u32 lane.vdst);
  }

  unfoldable pub run_v_add_f32 : Vop2Lane → Vop2Lane
  run_v_add_f32 lane = record lane { vdst = float_add (u32 lane.src0) (u32 lane.src1) }

  unfoldable pub run_v_max_f32 : Vop2Lane → Vop2Lane
  run_v_max_f32 lane = record lane {
    vdst = if float_lt (u32 lane.src0) (u32 lane.src1) then u32 lane.src1 else u32 lane.src0;
  }

  unfoldable pub run_v_min_f32 : Vop2Lane → Vop2Lane
  run_v_min_f32 lane = record lane {
    vdst = if float_lt (u32 lane.src1) (u32 lane.src0) then u32 lane.src1 else u32 lane.src0;
  }

  unfoldable pub run_v_subrev_f32 : Vop2Lane → Vop2Lane
  run_v_subrev_f32 lane = record lane { vdst = float_sub (u32 lane.src1) (u32 lane.src0) }
