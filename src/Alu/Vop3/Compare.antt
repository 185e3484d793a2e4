-- ===== src/Alu/Vop3/Compare.antt =====
-- alu_vop3.cpp: the largest, the smallest and the middle one of three values.
use red_o_lator.Base.{
  ℕ, ◌&&◌, ◌||◌, u16, to_int, of_int, i32, ℤ, ltb, ltb_ℤ, max, min, max_ℤ, min_ℤ, if◌then◌else◌,
}
use red_o_lator.Wavefront.VectorStates.{Vop3Lane}

-- `(int16_t) x`, and the value stored through `uint16_t`.
abbrev pub i16 : ℕ → ℤ
i16 x = to_int 16 x

unfoldable pub run_v_max3_i16 : Vop3Lane → ℕ → Vop3Lane
run_v_max3_i16 lane src2 = record lane {
  vdst =
      if ltb_ℤ (i16 lane.src0) (i16 src2) && ltb_ℤ (i16 lane.src1) (i16 src2)
      then u16 src2
      else of_int 16 (max_ℤ (i16 lane.src1) (i16 lane.src0));
}

unfoldable pub run_v_max3_i32 : Vop3Lane → ℕ → Vop3Lane
run_v_max3_i32 lane src2 = record lane {
  vdst =
      if ltb_ℤ (i32 lane.src0) (i32 src2) && ltb_ℤ (i32 lane.src1) (i32 src2)
      then src2
      else of_int 64 (max_ℤ (i32 lane.src1) (i32 lane.src0));
}

unfoldable pub run_v_max3_u16 : Vop3Lane → ℕ → Vop3Lane
run_v_max3_u16 lane src2 = record lane {
  vdst =
      if ltb (u16 lane.src0) (u16 src2) && ltb (u16 lane.src1) (u16 src2)
      then u16 src2
      else max (u16 lane.src1) (u16 lane.src0);
}

unfoldable pub run_v_max3_u32 : Vop3Lane → ℕ → Vop3Lane
run_v_max3_u32 lane src2 = record lane {
  vdst = if ltb lane.src0 src2 && ltb lane.src1 src2 then src2 else max lane.src1 lane.src0;
}

unfoldable pub run_v_med3_i16 : Vop3Lane → ℕ → Vop3Lane
run_v_med3_i16 lane src2 =
    let s0 = i16 lane.src0 in
    let s1 = i16 lane.src1 in
    let s2 = i16 src2 in
    record lane {
      vdst =
          if (ltb_ℤ s1 s2 && ltb_ℤ s2 s0) || (ltb_ℤ s2 s1 && ltb_ℤ s0 s2)
          then of_int 16 s2
          else if (ltb_ℤ s2 s1 && ltb_ℤ s1 s0) || (ltb_ℤ s1 s2 && ltb_ℤ s0 s1)
          then of_int 16 s1
          else of_int 16 s0;
    }

unfoldable pub run_v_med3_i32 : Vop3Lane → ℕ → Vop3Lane
run_v_med3_i32 lane src2 =
    let s0 = i32 lane.src0 in
    let s1 = i32 lane.src1 in
    let s2 = i32 src2 in
    record lane {
      vdst =
          if (ltb_ℤ s1 s2 && ltb_ℤ s2 s0) || (ltb_ℤ s2 s1 && ltb_ℤ s0 s2)
          then of_int 64 s2
          else if (ltb_ℤ s2 s1 && ltb_ℤ s1 s0) || (ltb_ℤ s1 s2 && ltb_ℤ s0 s1)
          then of_int 64 s1
          else of_int 64 s0;
    }

-- The common body of the unsigned forms.
abbrev pub median : ℕ → ℕ → ℕ → ℕ
median s0 s1 s2 =
    if (ltb s1 s2 && ltb s2 s0) || (ltb s2 s1 && ltb s0 s2)
    then s2
    else if (ltb s2 s1 && ltb s1 s0) || (ltb s1 s2 && ltb s0 s1)
    then s1
    else s0

unfoldable pub run_v_med3_u16 : Vop3Lane → ℕ → Vop3Lane
run_v_med3_u16 lane src2 = record lane { vdst = median (u16 lane.src0) (u16 lane.src1) (u16 src2) }

unfoldable pub run_v_med3_u32 : Vop3Lane → ℕ → Vop3Lane
run_v_med3_u32 lane src2 = record lane { vdst = median lane.src0 lane.src1 src2 }

unfoldable pub run_v_min3_i16 : Vop3Lane → ℕ → Vop3Lane
run_v_min3_i16 lane src2 = record lane {
  vdst =
      if ltb_ℤ (i16 src2) (i16 lane.src0) && ltb_ℤ (i16 src2) (i16 lane.src1)
      then u16 src2
      else of_int 16 (min_ℤ (i16 lane.src1) (i16 lane.src0));
}

unfoldable pub run_v_min3_i32 : Vop3Lane → ℕ → Vop3Lane
run_v_min3_i32 lane src2 = record lane {
  vdst =
      if ltb_ℤ (i32 src2) (i32 lane.src0) && ltb_ℤ (i32 src2) (i32 lane.src1)
      then src2
      else of_int 64 (min_ℤ (i32 lane.src1) (i32 lane.src0));
}

unfoldable pub run_v_min3_u16 : Vop3Lane → ℕ → Vop3Lane
run_v_min3_u16 lane src2 = record lane {
  vdst =
      if ltb (u16 src2) (u16 lane.src0) && ltb (u16 src2) (u16 lane.src1)
      then u16 src2
      else min (u16 lane.src1) (u16 lane.src0);
}

unfoldable pub run_v_min3_u32 : Vop3Lane → ℕ → Vop3Lane
run_v_min3_u32 lane src2 = record lane {
  vdst = if ltb src2 lane.src0 && ltb src2 lane.src1 then src2 else min lane.src1 lane.src0;
}
