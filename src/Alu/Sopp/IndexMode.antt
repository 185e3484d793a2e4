-- ===== src/Alu/Sopp/IndexMode.antt =====
-- The write-back of M0.
use red_o_lator.Base.{◌≡◌, refl, List, ok}
use red_o_lator.Instruction.{Operand}
use red_o_lator.Wavefront.{Wavefront}
use red_o_lator.Alu.Sopp.{run_sopp, s_set_gpr_idx_mode}

-- For every wavefront and operands, running `s_set_gpr_idx_mode` returns the wavefront unchanged:
-- the new M0 of the state is not written back.
pub set_gpr_idx_mode_lem :
    (operands : List Operand) (wf : Wavefront) → run_sopp s_set_gpr_idx_mode operands wf ≡ ok wf
unfolding run_sopp
set_gpr_idx_mode_lem operands wf = refl
