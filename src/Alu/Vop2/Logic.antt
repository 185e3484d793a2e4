-- ===== src/Alu/Vop2/Logic.antt =====
-- alu_vop2.cpp: shifts, bit operations, selection and packing.
use red_o_lator.Base.{
  ℕ, ◌^◌, u32, u64, ◌<<<◌, ◌>>>◌, bit_and, bit_or, bit_xor, of_int, i32, ℤ, pos, negsuc, max_ℤ,
  min_ℤ, min, floor_div, if◌then◌else◌, ◌==◌, wrap_sub,
}
use red_o_lator.Wavefront.VectorStates.{Vop2Lane}

unfoldable pub run_v_ashr_i32 : Vop2Lane → Vop2Lane
run_v_ashr_i32 lane = record lane { vdst = bit_and (lane.src0 >>> bit_and lane.src1 31) 0xffffffff }

unfoldable pub run_v_lshr_b32 : Vop2Lane → Vop2Lane
run_v_lshr_b32 lane = record lane { vdst = bit_and (lane.src0 >>> bit_and lane.src1 31) 0xffffffff }

unfoldable pub run_v_and_b32 : Vop2Lane → Vop2Lane
run_v_and_b32 lane = record lane { vdst = bit_and lane.src0 lane.src1 }

unfoldable pub run_v_ashrrev_i32 : Vop2Lane → Vop2Lane
unfolding floor_div
run_v_ashrrev_i32 lane = record lane {
  vdst = of_int 64 (floor_div (i32 lane.src1) (2 ^ bit_and lane.src0 31));
}

unfoldable pub run_v_bfm_b32 : Vop2Lane → Vop2Lane
run_v_bfm_b32 lane =
    let ones = wrap_sub 32 (u32 (1 <<< bit_and lane.src0 31)) 1 in
    record lane { vdst = u32 (ones <<< bit_and lane.src1 31) }

-- The lane is selected by `(state.VCC >> i) == 1`.
unfoldable pub run_v_cndmask_b32 : ℕ → ℕ → Vop2Lane → Vop2Lane
run_v_cndmask_b32 i vcc lane = record lane {
  vdst = bit_and (if vcc >>> i == 1 then lane.src1 else lane.src0) 0xffffffff;
}

-- `int16_t(std::max(std::min(x, 0x7fff), -0x8000))`
abbrev pub saturate_i16 : ℕ → ℤ
saturate_i16 x = max_ℤ (min_ℤ (i32 x) (pos 0x7fff)) (negsuc 0x7fff)

unfoldable pub run_v_cvt_pk_i16_i32 : Vop2Lane → Vop2Lane
run_v_cvt_pk_i16_i32 lane = record lane {
  vdst =
      bit_or (of_int 32 (saturate_i16 lane.src0)) (u32 (of_int 32 (saturate_i16 lane.src1) <<< 16));
}

unfoldable pub run_v_cvt_pk_u16_u32 : Vop2Lane → Vop2Lane
run_v_cvt_pk_u16_u32 lane = record lane {
  vdst = bit_or (min lane.src0 0xffff) (u32 (min lane.src1 0xffff <<< 16));
}

unfoldable pub run_v_lshlrev_b16 : Vop2Lane → Vop2Lane
run_v_lshlrev_b16 lane = record lane {
  vdst = bit_and (u64 (lane.src1 <<< bit_and lane.src0 15)) 0xffff;
}

unfoldable pub run_v_lshlrev_b32 : Vop2Lane → Vop2Lane
run_v_lshlrev_b32 lane = record lane {
  vdst = bit_and (u64 (lane.src1 <<< bit_and lane.src0 31)) 0xffffffff;
}

unfoldable pub run_v_lshrrev_b16 : Vop2Lane → Vop2Lane
run_v_lshrrev_b16 lane = record lane { vdst = bit_and (lane.src1 >>> bit_and lane.src0 15) 0xffff }

unfoldable pub run_v_lshrrev_b32 : Vop2Lane → Vop2Lane
run_v_lshrrev_b32 lane = record lane { vdst = lane.src1 >>> bit_and lane.src0 31 }

unfoldable pub run_v_or_b32 : Vop2Lane → Vop2Lane
run_v_or_b32 lane = record lane { vdst = bit_or lane.src0 lane.src1 }

unfoldable pub run_v_xor_b32 : Vop2Lane → Vop2Lane
run_v_xor_b32 lane = record lane { vdst = bit_xor lane.src0 lane.src1 }
