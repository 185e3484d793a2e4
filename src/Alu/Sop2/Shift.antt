-- ===== src/Alu/Sop2/Shift.antt =====
-- alu_sop2.cpp: shifts and bit fields. A shift by the word's width or more is undefined in C++.
use red_o_lator.Base.{
  ℕ, ◌+◌, ◌-◌, ◌^◌, u8, u32, u64, ◌<<<◌, ◌>>>◌, of_int, i32, i64, floor_div, bit_and, ◌!=◌, ◌==◌,
  ltb, if◌then◌else◌, Result, ok, fail, Fault,
}
use red_o_lator.Wavefront.States.{WfStateSop2}

abbrev store_nonzero : WfStateSop2 → ℕ → WfStateSop2
store_nonzero state sdst = record state { sdst = sdst; scc = sdst != 0 }

unfoldable pub run_s_ashr_i32 : WfStateSop2 → WfStateSop2
unfolding floor_div
run_s_ashr_i32 state =
    store_nonzero state (of_int 64 (floor_div (i32 state.ssrc0) (2 ^ bit_and state.ssrc1 31)))

unfoldable pub run_s_ashr_i64 : WfStateSop2 → WfStateSop2
unfolding floor_div
run_s_ashr_i64 state =
    store_nonzero state (of_int 64 (floor_div (i64 state.ssrc0) (2 ^ bit_and state.ssrc1 63)))

-- The first `if` of the source stores a value that the second one overwrites; with length 0 the
-- shift by `32 - length` or `64 - length` is out of range.
unfoldable pub run_s_bfe_i32 : WfStateSop2 → Result WfStateSop2
unfolding floor_div
run_s_bfe_i32 state =
    let shift = u8 (bit_and state.ssrc1 31) in
    let len = u8 (bit_and (state.ssrc1 >>> 16) 0x7f) in
    if ltb (shift + len) 32
    then (if len == 0
        then fail Fault.undefined
        else ok (
            store_nonzero state (
              of_int 64
                (floor_div (i32 (u64 (state.ssrc0 <<< (32 - shift - len)))) (2 ^ (32 - len))))))
    else ok (store_nonzero state (of_int 64 (floor_div (i32 state.ssrc0) (2 ^ shift))))

unfoldable pub run_s_bfe_i64 : WfStateSop2 → Result WfStateSop2
unfolding floor_div
run_s_bfe_i64 state =
    let shift = u8 (bit_and state.ssrc1 63) in
    let len = u8 (bit_and (state.ssrc1 >>> 16) 0x7f) in
    if ltb (shift + len) 64
    then (if len == 0
        then fail Fault.undefined
        else ok (
            store_nonzero state (
              of_int 64
                (floor_div (i64 (u64 (state.ssrc0 <<< (64 - shift - len)))) (2 ^ (64 - len))))))
    else ok (store_nonzero state (of_int 64 (floor_div (i64 state.ssrc0) (2 ^ shift))))

unfoldable pub run_s_bfe_u32 : WfStateSop2 → WfStateSop2
run_s_bfe_u32 state =
    let shift = u8 (bit_and state.ssrc1 31) in
    let len = u8 (bit_and (state.ssrc1 >>> 16) 0x7f) in
    let src0 = u32 state.ssrc0 in
    store_nonzero state (
      if len == 0
      then 0
      else if ltb (shift + len) 32
      then u32 (src0 <<< (32 - shift - len)) >>> (32 - len)
      else src0 >>> shift)

unfoldable pub run_s_bfe_u64 : WfStateSop2 → Result WfStateSop2
run_s_bfe_u64 state =
    let shift = u8 (bit_and state.ssrc1 63) in
    let len = u8 (bit_and (state.ssrc1 >>> 16) 0x7f) in
    if ltb (shift + len) 64
    then (if len == 0
        then fail Fault.undefined
        else ok (store_nonzero state (u64 (state.ssrc0 <<< (64 - shift - len)) >>> (64 - len))))
    else ok (store_nonzero state (state.ssrc0 >>> shift))

unfoldable pub run_s_bfm_b32 : WfStateSop2 → WfStateSop2
run_s_bfm_b32 state = record state {
  sdst = u32 ((u32 (1 <<< bit_and state.ssrc0 31) - 1) <<< bit_and state.ssrc1 31);
}

unfoldable pub run_s_bfm_b64 : WfStateSop2 → WfStateSop2
run_s_bfm_b64 state = record state {
  sdst = u64 ((u64 (1 <<< bit_and state.ssrc0 63) - 1) <<< bit_and state.ssrc1 63);
}

unfoldable pub run_s_lshl_b32 : WfStateSop2 → WfStateSop2
run_s_lshl_b32 state = store_nonzero state (u32 (u32 state.ssrc0 <<< bit_and state.ssrc1 31))

unfoldable pub run_s_lshl_b64 : WfStateSop2 → WfStateSop2
run_s_lshl_b64 state = store_nonzero state (u64 (state.ssrc0 <<< bit_and state.ssrc1 63))

unfoldable pub run_s_lshr_b32 : WfStateSop2 → WfStateSop2
run_s_lshr_b32 state = store_nonzero state (state.ssrc0 >>> bit_and state.ssrc1 31)

unfoldable pub run_s_lshr_b64 : WfStateSop2 → WfStateSop2
run_s_lshr_b64 state = store_nonzero state (state.ssrc0 >>> bit_and state.ssrc1 63)
