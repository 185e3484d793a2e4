-- ===== src/Alu/Vop3/Arith.antt =====
-- alu_vop3.cpp: sums, differences and counts.
use red_o_lator.Base.{
  ℕ, ◌+◌, Bool, ◌&&◌, u16, u32, u64, ◌<<<◌, ◌>>>◌, bit_and, bit_or, bit_xor, bit_not, wrap_sub,
  to_int, of_int, i32, pos, negsuc, ltb_ℤ, ◌+ℤ◌, ◌-ℤ◌, if◌then◌else◌, leb,
}
use red_o_lator.Util.{sign_ext16, bit_count32, bit_count64}
use red_o_lator.Wavefront.VectorStates.{Vop3Lane}
use red_o_lator.Alu.Sop2.Arith.{wrap32}

-- Both tests of the clamped sum are made on `temp`; the second one may overwrite the first's value.
unfoldable pub run_v_add_i16 : Bool → Vop3Lane → Vop3Lane
run_v_add_i16 clamp lane =
    let a = bit_and lane.src0 0xffff in
    let b = bit_and lane.src1 0xffff in
    let sum = u16 (a + b) in
    let temp = sign_ext16 a +ℤ sign_ext16 b in
    let high = if clamp && ltb_ℤ (pos 0xffff) temp then 0x7fff else sum in
    let result = if clamp && ltb_ℤ temp (negsuc 0xffff) then 0x8000 else high in
    record lane { vdst = bit_or (bit_and lane.vdst 0xffff0000) result }

-- The `int` sum that overflows, undefined in C++, wraps.
unfoldable pub run_v_add_i32 : Bool → Vop3Lane → Vop3Lane
unfolding ◌+ℤ◌
run_v_add_i32 clamp lane =
    let temp = wrap32 (i32 (bit_and lane.src0 0xffffffff) +ℤ i32 (bit_and lane.src1 0xffffffff)) in
    record lane {
      vdst =
          if ltb_ℤ temp (pos 0)
          then (if clamp && ltb_ℤ temp (pos 0x8000) then 0 else of_int 64 temp)
          else (if clamp && ltb_ℤ (pos 0x7fffffff) temp then 0 else of_int 64 temp);
    }

-- VCC after the round, and the lane.
unfoldable pub run_v_addc_co_u32 : ℕ → ℕ → Vop3Lane → ℕ × Vop3Lane
run_v_addc_co_u32 i vcc lane =
    let temp = u64 (lane.src0 + lane.src1) in
    let mask = u64 (1 <<< i) in
    (
      if leb 0x100000000 temp then bit_or vcc mask else bit_and vcc (bit_not 64 mask),
      record lane { vdst = bit_and temp 0xffffffff },
    )

unfoldable pub run_v_add3_u32 : Vop3Lane → ℕ → Vop3Lane
run_v_add3_u32 lane src2 = record lane { vdst = u64 (lane.src0 + lane.src1 + src2) }

unfoldable pub run_v_add_lshl_u32 : Vop3Lane → ℕ → Vop3Lane
run_v_add_lshl_u32 lane src2 = record lane {
  vdst = u64 (u64 (lane.src0 + lane.src1) <<< bit_and src2 31);
}

unfoldable pub run_v_bcnt_u32_b32 : Vop3Lane → Vop3Lane
run_v_bcnt_u32_b32 lane = record lane { vdst = u64 (lane.src1 + bit_count64 lane.src0) }

unfoldable pub run_v_lshl_add_u32 : Vop3Lane → ℕ → Vop3Lane
run_v_lshl_add_u32 lane src2 = record lane {
  vdst = u64 (u64 (lane.src0 <<< bit_and lane.src1 31) + src2);
}

-- `(1ull << i) - 1`: the lanes below lane i.
abbrev pub thread_mask : ℕ → ℕ
thread_mask i = wrap_sub 64 (u64 (1 <<< i)) 1

unfoldable pub run_v_mbcnt_hi_u32_b32 : ℕ → Vop3Lane → Vop3Lane
run_v_mbcnt_hi_u32_b32 i lane =
    let mask = u32 (bit_and lane.src0 (u32 (thread_mask i >>> 32))) in
    record lane { vdst = u64 (lane.src1 + bit_count32 mask) }

unfoldable pub run_v_mbcnt_lo_u32_b32 : ℕ → Vop3Lane → Vop3Lane
run_v_mbcnt_lo_u32_b32 i lane =
    let mask = u32 (bit_and lane.src0 (u32 (bit_and (thread_mask i) 0xffffffff))) in
    record lane { vdst = u64 (lane.src1 + bit_count32 mask) }

unfoldable pub run_v_sub_i16 : Vop3Lane → Vop3Lane
unfolding ◌-ℤ◌
run_v_sub_i16 lane =
    let difference = to_int 16 (bit_and lane.src0 0xffff) -ℤ to_int 16 (bit_and lane.src1 0xffff) in
    record lane { vdst = of_int 64 (to_int 16 (of_int 16 difference)) }

unfoldable pub run_v_sub_i32 : Vop3Lane → Vop3Lane
run_v_sub_i32 lane = record lane { vdst = wrap_sub 64 lane.src0 lane.src1 }

unfoldable pub run_v_xad_u32 : Vop3Lane → ℕ → Vop3Lane
run_v_xad_u32 lane src2 = record lane { vdst = u64 (bit_xor lane.src0 lane.src1 + src2) }
