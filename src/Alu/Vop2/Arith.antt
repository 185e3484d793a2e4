-- ===== src/Alu/Vop2/Arith.antt =====
-- alu_vop2.cpp: sums, differences, minima and maxima.
use red_o_lator.Base.{
  ℕ, ◌+◌, Bool, u64, ◌<<<◌, bit_and, bit_or, bit_not, wrap_sub, to_int, of_int, i32, i64, pos,
  max_ℤ, min_ℤ, max, min, if◌then◌else◌, ◌!=◌, leb, to_nat,
}
use red_o_lator.Util.{bit_count64}
use red_o_lator.Wavefront.VectorStates.{Vop2Lane}

-- VCC after the round, and the lane.
unfoldable pub run_v_addc_u32 : ℕ → ℕ → Vop2Lane → ℕ × Vop2Lane
run_v_addc_u32 wi_ind vcc lane =
    let mask = u64 (1 <<< wi_ind) in
    let cc = to_nat (bit_and vcc mask != 0) in
    let temp = u64 (lane.src0 + lane.src1 + cc) in
    (
      if leb 0x100000000 temp then bit_or vcc mask else bit_and vcc (bit_not 64 mask),
      record lane { vdst = bit_and temp 0xffffffff },
    )

unfoldable pub run_v_add_u32 : Bool → Vop2Lane → Vop2Lane
run_v_add_u32 clamp lane =
    let temp = u64 (lane.src0 + lane.src1) in
    record lane { vdst = if clamp then min temp 0xffffffff else temp }

unfoldable pub run_v_bcnt_u32_b32 : Vop2Lane → Vop2Lane
run_v_bcnt_u32_b32 lane = record lane { vdst = u64 (lane.src1 + bit_count64 lane.src0) }

unfoldable pub run_v_max_i16 : Vop2Lane → Vop2Lane
run_v_max_i16 lane = record lane {
  vdst = of_int 64 (max_ℤ (to_int 16 lane.src0) (to_int 16 lane.src1));
}

unfoldable pub run_v_max_i32 : Vop2Lane → Vop2Lane
run_v_max_i32 lane = record lane { vdst = of_int 64 (max_ℤ (i32 lane.src0) (i32 lane.src1)) }

unfoldable pub run_v_max_u16 : Vop2Lane → Vop2Lane
run_v_max_u16 lane = record lane {
  vdst = max (bit_and lane.src0 0xffff) (bit_and lane.src1 0xffff);
}

unfoldable pub run_v_max_u32 : Vop2Lane → Vop2Lane
run_v_max_u32 lane = record lane { vdst = max lane.src0 lane.src1 }

unfoldable pub run_v_min_i16 : Vop2Lane → Vop2Lane
run_v_min_i16 lane = record lane {
  vdst = of_int 64 (min_ℤ (to_int 16 lane.src0) (to_int 16 lane.src1));
}

unfoldable pub run_v_min_i32 : Vop2Lane → Vop2Lane
run_v_min_i32 lane = record lane { vdst = of_int 64 (min_ℤ (i32 lane.src0) (i32 lane.src1)) }

unfoldable pub run_v_min_u16 : Vop2Lane → Vop2Lane
run_v_min_u16 lane = record lane {
  vdst = min (bit_and lane.src0 0xffff) (bit_and lane.src1 0xffff);
}

unfoldable pub run_v_min_u32 : Vop2Lane → Vop2Lane
run_v_min_u32 lane = record lane { vdst = min lane.src0 lane.src1 }

-- `int32_t((a & 0xffff) - (b & 0xffff))`, and `std::max(temp, 0)` of it under the clamp flag.
abbrev pub low_difference : Bool → ℕ → ℕ → ℕ
low_difference clamp a b =
    let temp = i32 (wrap_sub 64 (bit_and a 0xffff) (bit_and b 0xffff)) in
    of_int 64 (if clamp then max_ℤ temp (pos 0) else temp)

-- `int64_t(a - b)`, and `std::max(int64_t(0), temp)` of it under the clamp flag.
abbrev pub full_difference : Bool → ℕ → ℕ → ℕ
full_difference clamp a b =
    let temp = i64 (wrap_sub 64 a b) in of_int 64 (if clamp then max_ℤ (pos 0) temp else temp)

unfoldable pub run_v_sub_u16 : Bool → Vop2Lane → Vop2Lane
run_v_sub_u16 clamp lane = record lane { vdst = low_difference clamp lane.src0 lane.src1 }

unfoldable pub run_v_sub_u32 : Bool → Vop2Lane → Vop2Lane
run_v_sub_u32 clamp lane = record lane { vdst = full_difference clamp lane.src0 lane.src1 }

unfoldable pub run_v_subrev_u16 : Bool → Vop2Lane → Vop2Lane
run_v_subrev_u16 clamp lane = record lane { vdst = low_difference clamp lane.src1 lane.src0 }

unfoldable pub run_v_subrev_u32 : Bool → Vop2Lane → Vop2Lane
run_v_subrev_u32 clamp lane = record lane { vdst = full_difference clamp lane.src1 lane.src0 }
