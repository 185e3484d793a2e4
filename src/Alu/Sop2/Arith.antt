-- ===== src/Alu/Sop2/Arith.antt =====
-- alu_sop2.cpp: sums, differences and products. Signed overflow, undefined in C++, wraps.
use red_o_lator.Base.{
  ℕ, ◌+◌, ◌*◌, ◌^◌, ◌&&◌, not, u32, u64, ◌>>>◌, wrap_sub, of_int, to_int, i32, i64, ℤ, ◌-ℤ◌, ◌*ℤ◌,
  abs, floor_div, get_bit, ◌!=◌, to_nat, same, bit_and, ◌<<<◌, leb,
}
use red_o_lator.Wavefront.States.{WfStateSop2}

-- The value of `int` arithmetic, and of `int64_t` arithmetic.
abbrev pub wrap32 : ℤ → ℤ
wrap32 z = to_int 32 (of_int 32 z)

abbrev pub wrap64 : ℤ → ℤ
wrap64 z = to_int 64 (of_int 64 z)

unfoldable pub run_s_absdiff_i32 : WfStateSop2 → WfStateSop2
unfolding abs ◌-ℤ◌
run_s_absdiff_i32 state =
    let difference = wrap32 (i32 state.ssrc0 -ℤ i32 state.ssrc1) in
    let sdst = of_int 64 (wrap32 (abs difference)) in record state { sdst = sdst; scc = sdst != 0 }

unfoldable pub run_s_addc_u32 : WfStateSop2 → WfStateSop2
run_s_addc_u32 state =
    let temp = u64 (state.ssrc0 + state.ssrc1 + to_nat state.scc) in
    record state { sdst = temp; scc = temp >>> 32 != 0 }

unfoldable pub run_s_add_i32 : WfStateSop2 → WfStateSop2
unfolding get_bit
run_s_add_i32 state =
    let sdst = u64 (state.ssrc0 + state.ssrc1) in
    record state {
      sdst = sdst;
      scc =
          same (get_bit 31 state.ssrc0) (get_bit 31 state.ssrc1)
          && not (same (get_bit 31 state.ssrc1) (get_bit 31 sdst));
    }

unfoldable pub run_s_add_u32 : WfStateSop2 → WfStateSop2
run_s_add_u32 state =
    let sdst = u64 (state.ssrc0 + state.ssrc1) in
    record state { sdst = sdst; scc = sdst >>> 32 != 0 }

unfoldable pub run_s_lshl_n_add_u32 : WfStateSop2 → ℕ → WfStateSop2
run_s_lshl_n_add_u32 state n =
    let temp = u64 (u64 (state.ssrc0 <<< n) + state.ssrc1) in
    record state { sdst = bit_and temp 0xffffffff; scc = leb (u64 (1 <<< 32)) temp }

unfoldable pub run_s_lshl1_add_u32 : WfStateSop2 → WfStateSop2
unfolding run_s_lshl_n_add_u32
run_s_lshl1_add_u32 state = run_s_lshl_n_add_u32 state 1

unfoldable pub run_s_lshl2_add_u32 : WfStateSop2 → WfStateSop2
unfolding run_s_lshl_n_add_u32
run_s_lshl2_add_u32 state = run_s_lshl_n_add_u32 state 2

unfoldable pub run_s_lshl3_add_u32 : WfStateSop2 → WfStateSop2
unfolding run_s_lshl_n_add_u32
run_s_lshl3_add_u32 state = run_s_lshl_n_add_u32 state 3

unfoldable pub run_s_lshl4_add_u32 : WfStateSop2 → WfStateSop2
unfolding run_s_lshl_n_add_u32
run_s_lshl4_add_u32 state = run_s_lshl_n_add_u32 state 4

unfoldable pub run_s_mul_hi_i32 : WfStateSop2 → WfStateSop2
unfolding ◌*ℤ◌ floor_div
run_s_mul_hi_i32 state = record state {
  sdst = of_int 64 (floor_div (wrap64 (i64 state.ssrc0 *ℤ i32 state.ssrc1)) (2 ^ 32));
}

unfoldable pub run_s_mul_hi_u32 : WfStateSop2 → WfStateSop2
run_s_mul_hi_u32 state = record state { sdst = u64 (state.ssrc0 * state.ssrc1) >>> 32 }

unfoldable pub run_s_mul_i32 : WfStateSop2 → WfStateSop2
run_s_mul_i32 state = record state { sdst = of_int 64 (i32 (u64 (state.ssrc0 * state.ssrc1))) }

unfoldable pub run_s_subb_u32 : WfStateSop2 → WfStateSop2
run_s_subb_u32 state =
    let temp = wrap_sub 64 (wrap_sub 64 state.ssrc0 state.ssrc1) (to_nat state.scc) in
    record state { sdst = temp; scc = bit_and (temp >>> 32) 1 != 0 }

unfoldable pub run_s_sub_i32 : WfStateSop2 → WfStateSop2
unfolding get_bit ◌-ℤ◌
run_s_sub_i32 state =
    let sdst = of_int 64 (wrap32 (i32 state.ssrc0 -ℤ i32 state.ssrc1)) in
    record state {
      sdst = sdst;
      scc =
          not (same (get_bit 31 (u32 state.ssrc0)) (get_bit 31 (u32 state.ssrc1)))
          && not (same (get_bit 31 (u32 state.ssrc0)) (get_bit 31 (u32 sdst)));
    }

unfoldable pub run_s_sub_u32 : WfStateSop2 → WfStateSop2
run_s_sub_u32 state =
    let temp = wrap_sub 64 state.ssrc0 state.ssrc1 in
    record state { sdst = temp; scc = temp >>> 32 != 0 }
