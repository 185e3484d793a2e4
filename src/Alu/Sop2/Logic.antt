-- ===== src/Alu/Sop2/Logic.antt =====
-- alu_sop2.cpp: bitwise instructions. Each stores its result and whether that is not zero.
use red_o_lator.Base.{ℕ, u32, u64, ◌<<<◌, ◌>>>◌, bit_and, bit_or, bit_xor, bit_not, ◌!=◌}
use red_o_lator.Wavefront.States.{WfStateSop2}

abbrev store_nonzero : WfStateSop2 → ℕ → WfStateSop2
store_nonzero state sdst = record state { sdst = sdst; scc = sdst != 0 }

unfoldable pub run_s_and_b32 : WfStateSop2 → WfStateSop2
run_s_and_b32 state = store_nonzero state (bit_and state.ssrc0 state.ssrc1)

unfoldable pub run_s_and_b64 : WfStateSop2 → WfStateSop2
run_s_and_b64 state = store_nonzero state (bit_and state.ssrc0 state.ssrc1)

unfoldable pub run_s_andn2_b32 : WfStateSop2 → WfStateSop2
run_s_andn2_b32 state = store_nonzero state (bit_and state.ssrc0 (bit_not 64 state.ssrc1))

unfoldable pub run_s_andn2_b64 : WfStateSop2 → WfStateSop2
run_s_andn2_b64 state = store_nonzero state (bit_and state.ssrc0 (bit_not 64 state.ssrc1))

unfoldable pub run_s_nand_b32 : WfStateSop2 → WfStateSop2
run_s_nand_b32 state =
    store_nonzero state (bit_not 32 (bit_and (u32 state.ssrc0) (u32 state.ssrc1)))

unfoldable pub run_s_nand_b64 : WfStateSop2 → WfStateSop2
run_s_nand_b64 state = store_nonzero state (bit_not 64 (bit_and state.ssrc0 state.ssrc1))

unfoldable pub run_s_nor_b32 : WfStateSop2 → WfStateSop2
run_s_nor_b32 state = store_nonzero state (bit_not 32 (bit_or (u32 state.ssrc0) (u32 state.ssrc1)))

unfoldable pub run_s_nor_b64 : WfStateSop2 → WfStateSop2
run_s_nor_b64 state = store_nonzero state (bit_not 64 (bit_or state.ssrc0 state.ssrc1))

unfoldable pub run_s_or_b32 : WfStateSop2 → WfStateSop2
run_s_or_b32 state = store_nonzero state (bit_or (u32 state.ssrc0) (u32 state.ssrc1))

unfoldable pub run_s_or_b64 : WfStateSop2 → WfStateSop2
run_s_or_b64 state = store_nonzero state (bit_or state.ssrc0 state.ssrc1)

unfoldable pub run_s_orn2_b32 : WfStateSop2 → WfStateSop2
run_s_orn2_b32 state = store_nonzero state (bit_or (u32 state.ssrc0) (bit_not 32 (u32 state.ssrc1)))

unfoldable pub run_s_orn2_b64 : WfStateSop2 → WfStateSop2
run_s_orn2_b64 state = store_nonzero state (bit_or state.ssrc0 (bit_not 64 state.ssrc1))

unfoldable pub run_s_xnor_b32 : WfStateSop2 → WfStateSop2
run_s_xnor_b32 state =
    store_nonzero state (bit_not 32 (bit_xor (u32 state.ssrc0) (u32 state.ssrc1)))

unfoldable pub run_s_xnor_b64 : WfStateSop2 → WfStateSop2
run_s_xnor_b64 state = store_nonzero state (bit_not 64 (bit_xor state.ssrc0 state.ssrc1))

unfoldable pub run_s_xor_b32 : WfStateSop2 → WfStateSop2
run_s_xor_b32 state = store_nonzero state (bit_xor (u32 state.ssrc0) (u32 state.ssrc1))

unfoldable pub run_s_xor_b64 : WfStateSop2 → WfStateSop2
run_s_xor_b64 state = store_nonzero state (bit_xor state.ssrc0 state.ssrc1)

unfoldable pub run_s_pack_hh_b32_b16 : WfStateSop2 → WfStateSop2
run_s_pack_hh_b32_b16 state = record state {
  sdst = bit_or (state.ssrc0 >>> 16) (bit_and state.ssrc1 0xffff0000);
}

unfoldable pub run_s_pack_lh_b32_b16 : WfStateSop2 → WfStateSop2
run_s_pack_lh_b32_b16 state = record state {
  sdst = bit_or (bit_and state.ssrc0 0xffff) (bit_and state.ssrc1 0xffff0000);
}

unfoldable pub run_s_pack_ll_b32_b16 : WfStateSop2 → WfStateSop2
run_s_pack_ll_b32_b16 state = record state {
  sdst = bit_or (bit_and state.ssrc0 0xffff) (u64 (bit_and state.ssrc1 0xffff <<< 16));
}
