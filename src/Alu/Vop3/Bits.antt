-- ===== src/Alu/Vop3/Bits.antt =====
-- alu_vop3.cpp: shifts, fields and bit operations.
use red_o_lator.Base.{
  ℕ, ◌+◌, ◌-◌, ◌*◌, ◌^◌, u32, u64, ◌<<<◌, ◌>>>◌, bit_and, bit_or, bit_not, wrap_sub, of_int, i32,
  i64, ℤ, pos, negsuc, max_ℤ, min_ℤ, min, floor_div, if◌then◌else◌, ltb, ◌==◌, Result, ok, fail,
  Fault,
}
use red_o_lator.Wavefront.VectorStates.{Vop3Lane}

-- `((uint64_t) SRC0 << 32) | SRC1`
abbrev pub quad_word : Vop3Lane → ℕ
quad_word lane = bit_or (u64 (lane.src0 <<< 32)) lane.src1

unfoldable pub run_v_alignbit_b32 : Vop3Lane → ℕ → Vop3Lane
run_v_alignbit_b32 lane src2 = record lane { vdst = quad_word lane >>> bit_and src2 31 }

unfoldable pub run_v_alignbyte_b32 : Vop3Lane → ℕ → Vop3Lane
run_v_alignbyte_b32 lane src2 = record lane { vdst = quad_word lane >>> (bit_and src2 3 * 8) }

unfoldable pub run_v_and_or_b32 : Vop3Lane → ℕ → Vop3Lane
run_v_and_or_b32 lane src2 = record lane { vdst = bit_or (bit_and lane.src0 lane.src1) src2 }

unfoldable pub run_v_ashr_i64 : Vop3Lane → Vop3Lane
unfolding floor_div
run_v_ashr_i64 lane = record lane {
  vdst = of_int 64 (floor_div (i64 lane.src0) (2 ^ bit_and lane.src1 63));
}

unfoldable pub run_v_ashrrev_i64 : Vop3Lane → Vop3Lane
unfolding floor_div
run_v_ashrrev_i64 lane = record lane {
  vdst = of_int 64 (floor_div (i64 lane.src0) (2 ^ bit_and lane.src0 63));
}

-- The value 0 stored for a field of length 0 is overwritten: a shift below 32 then shifts a 32-bit value
-- by 32, which is undefined.
unfoldable pub run_v_bfe_i32 : Vop3Lane → ℕ → Result Vop3Lane
unfolding floor_div
run_v_bfe_i32 lane src2 =
    let shift = bit_and lane.src1 31 in
    let length = bit_and src2 31 in
    let field = i32 (u64 (lane.src0 <<< (32 - shift - length))) in
    if ltb (shift + length) 32
    then (if length == 0
        then fail Fault.undefined
        else ok (record lane { vdst = of_int 64 (floor_div field (2 ^ (32 - length))) }))
    else ok (record lane { vdst = of_int 64 (floor_div (i32 lane.src0) (2 ^ shift)) })

-- The operands have 64 bits, so a shift by 32 is defined.
unfoldable pub run_v_bfe_u32 : Vop3Lane → ℕ → Vop3Lane
run_v_bfe_u32 lane src2 =
    let shift = bit_and lane.src1 31 in
    let length = bit_and src2 31 in
    record lane {
      vdst =
          if ltb (shift + length) 32
          then u64 (lane.src0 <<< (32 - shift - length)) >>> (32 - length)
          else lane.src0 >>> shift;
    }

unfoldable pub run_v_bfi_b32 : Vop3Lane → ℕ → Vop3Lane
run_v_bfi_b32 lane src2 = record lane {
  vdst = bit_or (bit_and lane.src0 lane.src1) (bit_and (bit_not 64 lane.src0) src2);
}

unfoldable pub run_v_bfm_b32 : Vop3Lane → Vop3Lane
run_v_bfm_b32 lane =
    let ones = wrap_sub 32 (u32 (1 <<< bit_and lane.src0 31)) 1 in
    record lane { vdst = u32 (ones <<< bit_and lane.src1 31) }

-- `int16_t(std::max(std::min(x, 0x7fff), -0x8000))`
abbrev pub saturate_i16 : ℕ → ℤ
saturate_i16 x = max_ℤ (min_ℤ (i32 x) (pos 0x7fff)) (negsuc 0x7fff)

unfoldable pub run_v_cvt_pk_i16_i32 : Vop3Lane → Vop3Lane
run_v_cvt_pk_i16_i32 lane = record lane {
  vdst =
      bit_or (of_int 32 (saturate_i16 lane.src0)) (u32 (of_int 32 (saturate_i16 lane.src1) <<< 16));
}

unfoldable pub run_v_cvt_pk_u16_u32 : Vop3Lane → Vop3Lane
run_v_cvt_pk_u16_u32 lane = record lane {
  vdst = bit_or (min (u32 lane.src0) 0xffff) (u32 (min (u32 lane.src1) 0xffff <<< 16));
}

unfoldable pub run_v_lshl_b64 : Vop3Lane → Vop3Lane
run_v_lshl_b64 lane = record lane { vdst = u64 (lane.src0 <<< bit_and lane.src1 63) }

unfoldable pub run_v_lshl_or_b32 : Vop3Lane → ℕ → Vop3Lane
run_v_lshl_or_b32 lane src2 = record lane {
  vdst = bit_or (u64 (lane.src0 <<< bit_and lane.src1 31)) src2;
}

unfoldable pub run_v_lshlrev_b64 : Vop3Lane → Vop3Lane
run_v_lshlrev_b64 lane = record lane { vdst = u64 (lane.src1 <<< bit_and lane.src0 63) }

unfoldable pub run_v_lshr_b64 : Vop3Lane → Vop3Lane
run_v_lshr_b64 lane = record lane { vdst = lane.src0 >>> bit_and lane.src1 63 }

unfoldable pub run_v_lshrrev_b64 : Vop3Lane → Vop3Lane
run_v_lshrrev_b64 lane = record lane { vdst = lane.src1 >>> bit_and lane.src0 63 }

unfoldable pub run_v_or3_b32 : Vop3Lane → ℕ → Vop3Lane
run_v_or3_b32 lane src2 = record lane { vdst = bit_or (bit_or lane.src0 lane.src1) src2 }

unfoldable pub run_v_pack_b32_f16 : Vop3Lane → Vop3Lane
run_v_pack_b32_f16 lane = record lane {
  vdst = bit_or (bit_and lane.src0 0xffff) (u64 (lane.src1 <<< 16));
}
