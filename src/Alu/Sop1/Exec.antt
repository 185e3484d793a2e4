-- ===== src/Alu/Sop1/Exec.antt =====
-- alu_sop1.cpp: instructions that replace the EXEC mask. `saveexec` stores the old mask and `wrexec`
-- the new one.
use red_o_lator.Base.{ℕ, bit_and, bit_or, bit_xor, bit_not, ◌!=◌}
use red_o_lator.Wavefront.States.{WfStateSop1}

abbrev save_exec : WfStateSop1 → ℕ → WfStateSop1
save_exec state exec = record state { sdst = state.exec; exec = exec; scc = exec != 0 }

abbrev write_exec : WfStateSop1 → ℕ → WfStateSop1
write_exec state exec = record state { sdst = exec; exec = exec; scc = exec != 0 }

unfoldable pub run_s_and_saveexec_b64 : WfStateSop1 → WfStateSop1
run_s_and_saveexec_b64 state = save_exec state (bit_and state.ssrc0 state.exec)

unfoldable pub run_s_andn1_saveexec_b64 : WfStateSop1 → WfStateSop1
run_s_andn1_saveexec_b64 state = save_exec state (bit_and (bit_not 64 state.ssrc0) state.exec)

unfoldable pub run_s_andn1_wrexec_b64 : WfStateSop1 → WfStateSop1
run_s_andn1_wrexec_b64 state = write_exec state (bit_and (bit_not 64 state.ssrc0) state.exec)

unfoldable pub run_s_andn2_saveexec_b64 : WfStateSop1 → WfStateSop1
run_s_andn2_saveexec_b64 state = save_exec state (bit_and state.ssrc0 (bit_not 64 state.exec))

unfoldable pub run_s_andn2_wrexec_b64 : WfStateSop1 → WfStateSop1
run_s_andn2_wrexec_b64 state = write_exec state (bit_and state.ssrc0 (bit_not 64 state.exec))

unfoldable pub run_s_nand_saveexec_b64 : WfStateSop1 → WfStateSop1
run_s_nand_saveexec_b64 state = save_exec state (bit_not 64 (bit_and state.ssrc0 state.exec))

unfoldable pub run_s_nor_saveexec_b64 : WfStateSop1 → WfStateSop1
run_s_nor_saveexec_b64 state = save_exec state (bit_not 64 (bit_or state.ssrc0 state.exec))

unfoldable pub run_s_or_saveexec_b64 : WfStateSop1 → WfStateSop1
run_s_or_saveexec_b64 state = save_exec state (bit_or state.ssrc0 state.exec)

unfoldable pub run_s_orn2_saveexec_b64 : WfStateSop1 → WfStateSop1
run_s_orn2_saveexec_b64 state = save_exec state (bit_and (bit_not 64 state.ssrc0) state.exec)

unfoldable pub run_s_xnor_saveexec_b64 : WfStateSop1 → WfStateSop1
run_s_xnor_saveexec_b64 state = save_exec state (bit_not 64 (bit_xor state.ssrc0 state.exec))

unfoldable pub run_s_xor_saveexec_b64 : WfStateSop1 → WfStateSop1
run_s_xor_saveexec_b64 state = save_exec state (bit_xor state.ssrc0 state.exec)
