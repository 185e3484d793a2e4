-- ===== src/Alu/Sop1/Count.antt =====
-- alu_sop1.cpp: absolute value, bit counts and searches for a bit.
use red_o_lator.Base.{
  ℕ, ◌-◌, Option, none, some, u32, u64, ◌<<<◌, of_int, to_int, i32, i64, pos, negsuc, ◌-ℤ◌, ltb_ℤ,
  leb_ℤ, bit_and, bit_not, ◌!=◌, ◌==◌, if◌then◌else◌, find_up, find_down,
}
use red_o_lator.Util.{bit_count32, bit_count64}
use red_o_lator.Wavefront.States.{WfStateSop1}

unfoldable pub run_s_abs_i32 : WfStateSop1 → WfStateSop1
unfolding ◌-ℤ◌
run_s_abs_i32 state =
    let src0 = i32 state.ssrc0 in
    let magnitude = if ltb_ℤ src0 (pos 0) then to_int 32 (of_int 32 (pos 0 -ℤ src0)) else src0 in
    let sdst = bit_and (of_int 64 magnitude) 0xffffffff in
    record state { sdst = sdst; scc = sdst != 0 }

unfoldable pub run_s_bcnt0_i32_b32 : WfStateSop1 → WfStateSop1
unfolding bit_count32
run_s_bcnt0_i32_b32 state =
    let sdst = bit_count32 (bit_not 32 (u32 state.ssrc0)) in
    record state { sdst = sdst; scc = sdst != 0 }

unfoldable pub run_s_bcnt0_i32_b64 : WfStateSop1 → WfStateSop1
unfolding bit_count64
run_s_bcnt0_i32_b64 state =
    let sdst = bit_count64 (bit_not 64 state.ssrc0) in record state { sdst = sdst; scc = sdst != 0 }

unfoldable pub run_s_bcnt1_i32_b32 : WfStateSop1 → WfStateSop1
unfolding bit_count32
run_s_bcnt1_i32_b32 state =
    let sdst = bit_count32 (u32 state.ssrc0) in record state { sdst = sdst; scc = sdst != 0 }

unfoldable pub run_s_bcnt1_i32_b64 : WfStateSop1 → WfStateSop1
unfolding bit_count64
run_s_bcnt1_i32_b64 state =
    let sdst = bit_count64 state.ssrc0 in record state { sdst = sdst; scc = sdst != 0 }

-- `int32_t(-1)` where the loop finds nothing: kept to 32 bits, or widened to 64.
abbrev pub found_or : ℕ → Option ℕ → ℕ
found_or default none = default
found_or default (some i) = i

unfoldable pub run_s_ff0_i32_b32 : WfStateSop1 → WfStateSop1
unfolding find_up
run_s_ff0_i32_b32 state =
    let found = find_up 32 0 (λ i. bit_and (1 <<< i) (u32 state.ssrc0) == 0) in
    record state { sdst = bit_and (found_or (of_int 32 (negsuc 0)) found) 0xffffffff }

unfoldable pub run_s_ff0_i32_b64 : WfStateSop1 → WfStateSop1
unfolding find_up
run_s_ff0_i32_b64 state =
    let found = find_up 64 0 (λ i. bit_and (1 <<< i) state.ssrc0 == 0) in
    record state { sdst = found_or (of_int 64 (negsuc 0)) found }

unfoldable pub run_s_ff1_i32_b32 : WfStateSop1 → WfStateSop1
unfolding find_up
run_s_ff1_i32_b32 state =
    let found = find_up 32 0 (λ i. bit_and (1 <<< i) (u32 state.ssrc0) != 0) in
    record state { sdst = bit_and (found_or (of_int 32 (negsuc 0)) found) 0xffffffff }

unfoldable pub run_s_ff1_i32_b64 : WfStateSop1 → WfStateSop1
unfolding find_up
run_s_ff1_i32_b64 state =
    let found = find_up 64 0 (λ i. bit_and (1 <<< i) state.ssrc0 != 0) in
    record state { sdst = found_or (of_int 64 (negsuc 0)) found }

-- The index counts from the top: `31 - i`.
abbrev pub from_top : ℕ → Option ℕ → Option ℕ
from_top top none = none
from_top top (some i) = some (top - i)

unfoldable pub run_s_flbit_i32_b32 : WfStateSop1 → WfStateSop1
unfolding find_down
run_s_flbit_i32_b32 state =
    let found = find_down 32 (λ i. bit_and (1 <<< i) (u32 state.ssrc0) != 0) in
    record state { sdst = bit_and (found_or (of_int 32 (negsuc 0)) (from_top 31 found)) 0xffffffff }

unfoldable pub run_s_flbit_i32_b64 : WfStateSop1 → WfStateSop1
unfolding find_down
run_s_flbit_i32_b64 state =
    let found = find_down 64 (λ i. bit_and (1 <<< i) state.ssrc0 != 0) in
    record state { sdst = found_or (of_int 64 (negsuc 0)) (from_top 63 found) }

unfoldable pub run_s_flbit_i32 : WfStateSop1 → WfStateSop1
unfolding find_down
run_s_flbit_i32 state =
    let bitval = if leb_ℤ (pos 0) (i32 state.ssrc0) then 1 else 0 in
    let found = find_down 32 (λ i. bit_and (1 <<< i) (u32 state.ssrc0) == u32 (bitval <<< i)) in
    record state { sdst = bit_and (found_or (of_int 32 (negsuc 0)) (from_top 31 found)) 0xffffffff }

unfoldable pub run_s_flbit_i32_i64 : WfStateSop1 → WfStateSop1
unfolding find_down
run_s_flbit_i32_i64 state =
    let bitval = if leb_ℤ (pos 0) (i64 state.ssrc0) then 1 else 0 in
    let found = find_down 64 (λ i. bit_and (1 <<< i) state.ssrc0 == u64 (bitval <<< i)) in
    record state { sdst = found_or (of_int 64 (negsuc 0)) (from_top 63 found) }
