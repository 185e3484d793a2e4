-- ===== src/Alu/Vop2/Product.antt =====
-- alu_vop2.cpp: products. An `int` product that overflows, undefined in C++, wraps.
use red_o_lator.Base.{
  ℕ, ◌*◌, ◌^◌, u32, u64, ◌>>>◌, bit_and, bit_or, of_int, i32, ℤ, ◌*ℤ◌, floor_div, if◌then◌else◌,
  ◌!=◌,
}
use red_o_lator.Wavefront.VectorStates.{Vop2Lane}
use red_o_lator.Alu.Sop2.Arith.{wrap32}

-- The signed value of 24 bits.
unfoldable pub signed_24 : ℕ → ℤ
signed_24 x = i32 (bit_or (bit_and x 0x7fffff) (if bit_and x 0x800000 != 0 then 0xff800000 else 0))

unfoldable pub run_v_mul_hi_i32_i24 : Vop2Lane → Vop2Lane
unfolding signed_24 ◌*ℤ◌ floor_div
run_v_mul_hi_i32_i24 lane = record lane {
  vdst = of_int 64 (floor_div (signed_24 lane.src0 *ℤ signed_24 lane.src1) (2 ^ 32));
}

unfoldable pub run_v_mul_hi_u32_u24 : Vop2Lane → Vop2Lane
run_v_mul_hi_u32_u24 lane = record lane {
  vdst = u64 (bit_and lane.src0 0xffffff * bit_and lane.src1 0xffffff) >>> 32;
}

unfoldable pub run_v_mul_i32_i24 : Vop2Lane → Vop2Lane
unfolding signed_24 ◌*ℤ◌
run_v_mul_i32_i24 lane = record lane {
  vdst = of_int 64 (wrap32 (signed_24 lane.src0 *ℤ signed_24 lane.src1));
}

unfoldable pub run_v_mul_lo_u16 : Vop2Lane → Vop2Lane
run_v_mul_lo_u16 lane = record lane {
  vdst = bit_and (u64 (bit_and lane.src0 0xffff * bit_and lane.src1 0xffff)) 0xffff;
}

unfoldable pub run_v_mul_u32_u24 : Vop2Lane → Vop2Lane
run_v_mul_u32_u24 lane = record lane {
  vdst = u32 (bit_and lane.src0 0xffffff * bit_and lane.src1 0xffffff);
}
