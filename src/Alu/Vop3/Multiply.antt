-- ===== src/Alu/Vop3/Multiply.antt =====
-- alu_vop3.cpp: products, with and without a sum. `int` arithmetic that overflows, undefined in C++, wraps.
use red_o_lator.Base.{
  ℕ, ◌+◌, ◌*◌, ◌^◌, u16, u32, u64, ◌>>>◌, bit_and, to_int, of_int, i32, i64, ℤ, ◌+ℤ◌, ◌*ℤ◌,
  floor_div,
}
use red_o_lator.Util.{sign_ext16}
use red_o_lator.Wavefront.VectorStates.{Vop3Lane}
use red_o_lator.Alu.Sop2.Arith.{wrap32, wrap64}
use red_o_lator.Alu.Vop2.Product.{signed_24}

-- `sign_ext((int16_t) SRC0) * (int16_t) SRC1`
abbrev pub product_16 : Vop3Lane → ℤ
product_16 lane = sign_ext16 lane.src0 *ℤ to_int 16 lane.src1

unfoldable pub run_v_mad_i16 : Vop3Lane → ℕ → Vop3Lane
unfolding sign_ext16 ◌*ℤ◌ ◌+ℤ◌
run_v_mad_i16 lane src2 = record lane {
  vdst = bit_and (of_int 32 (product_16 lane +ℤ to_int 16 src2)) 0xffff;
}

unfoldable pub run_v_mad_i32_i16 : Vop3Lane → ℕ → Vop3Lane
unfolding sign_ext16 ◌*ℤ◌
run_v_mad_i32_i16 lane src2 = record lane { vdst = u64 (of_int 32 (product_16 lane) + src2) }

unfoldable pub run_v_mad_i32_i24 : Vop3Lane → ℕ → Vop3Lane
unfolding signed_24 ◌*ℤ◌
run_v_mad_i32_i24 lane src2 = record lane {
  vdst = u64 (of_int 64 (wrap32 (signed_24 lane.src0 *ℤ signed_24 lane.src1)) + src2);
}

unfoldable pub run_v_mad_legacy_i16 : Vop3Lane → ℕ → Vop3Lane
unfolding sign_ext16 ◌*ℤ◌ ◌+ℤ◌
run_v_mad_legacy_i16 lane src2 = record lane {
  vdst = bit_and (of_int 32 (product_16 lane +ℤ to_int 16 src2)) 0xffff;
}

-- The `int` product of two words of 16 bits may pass 2 ^ 31; its low bits are kept.
unfoldable pub run_v_mad_legacy_u16 : Vop3Lane → ℕ → Vop3Lane
run_v_mad_legacy_u16 lane src2 = record lane {
  vdst = bit_and (u32 (u16 lane.src0 * u16 lane.src1 + u16 src2)) 0xffff;
}

unfoldable pub run_v_mad_u16 : Vop3Lane → ℕ → Vop3Lane
run_v_mad_u16 lane src2 = record lane {
  vdst = bit_and (u32 (u16 lane.src0 * u16 lane.src1 + u16 src2)) 0xffff;
}

unfoldable pub run_v_mad_u32_u16 : Vop3Lane → ℕ → Vop3Lane
run_v_mad_u32_u16 lane src2 = record lane {
  vdst = u64 (u32 (bit_and lane.src0 0xffff * bit_and lane.src1 0xffff) + src2);
}

unfoldable pub run_v_mad_u32_u24 : Vop3Lane → ℕ → Vop3Lane
run_v_mad_u32_u24 lane src2 = record lane {
  vdst = u64 (u32 (bit_and lane.src0 0xffffff * bit_and lane.src1 0xffffff) + src2);
}

unfoldable pub run_v_mul_hi_i32 : Vop3Lane → Vop3Lane
unfolding ◌*ℤ◌ floor_div
run_v_mul_hi_i32 lane = record lane {
  vdst = of_int 64 (floor_div (wrap64 (i64 lane.src0 *ℤ i32 lane.src1)) (2 ^ 32));
}

unfoldable pub run_v_mul_hi_u32 : Vop3Lane → Vop3Lane
run_v_mul_hi_u32 lane = record lane { vdst = u64 (lane.src0 * lane.src1) >>> 32 }

unfoldable pub run_v_mul_lo_i32 : Vop3Lane → Vop3Lane
unfolding ◌*ℤ◌
run_v_mul_lo_i32 lane = record lane { vdst = of_int 64 (wrap32 (i32 lane.src0 *ℤ i32 lane.src1)) }

unfoldable pub run_v_mul_lo_u32 : Vop3Lane → Vop3Lane
run_v_mul_lo_u32 lane = record lane { vdst = u32 (lane.src0 * lane.src1) }
