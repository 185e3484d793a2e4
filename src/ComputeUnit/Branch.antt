-- ===== src/ComputeUnit/Branch.antt =====
-- A branch and the step to the next instruction.
use red_o_lator.Base.{
  ℕ, ◌+◌, ◌≡◌, refl, Bool, true, false, not, ◌&&◌, ◌||◌, List, ◌==◌, ◌!=◌, u64, if◌then◌else◌, ok,
  ◌>>=◌, Bool-cases, inl, inr,
}
use red_o_lator.Register.{set_value, was_used, hidden_add, bitset_get}
use red_o_lator.Register.Status.{cond_dbg_sys, cond_dbg_user}
use red_o_lator.Instruction.{Operand}
use red_o_lator.Wavefront.{Wavefront}
use red_o_lator.Wavefront.States.{
  WfStateSopp, read_u64, get_common_sopp_state, update_with_common_sopp_state,
}
use red_o_lator.Alu.Sopp.{
  SoppBranch, branches, s_branch, s_cbranch_cdbgsys, s_cbranch_cdbgsys_and_user,
  s_cbranch_cdbgsys_or_user, s_cbranch_cdbguser, s_cbranch_execnz, s_cbranch_execz, s_cbranch_scc0,
  s_cbranch_scc1, s_cbranch_vccnz, s_cbranch_vccz, run_branch, run_s_branch, run_s_cbranch_cdbgsys,
  run_s_cbranch_cdbgsys_and_user, run_s_cbranch_cdbgsys_or_user, run_s_cbranch_cdbguser,
  run_s_cbranch_execnz, run_s_cbranch_execz, run_s_cbranch_scc0, run_s_cbranch_scc1,
  run_s_cbranch_vccnz, run_s_cbranch_vccz, run_sopp, run_sopp_op, set_reladdr_and_exec,
}
use red_o_lator.KernelCode.{Instruction, KernelCode, get_width}
use red_o_lator.ComputeUnit.{get_cur_instr, to_next_instr}

-- Whether a branch is taken in a wavefront.
unfoldable pub is_taken : SoppBranch → Wavefront → Bool
is_taken s_branch wf = true
is_taken s_cbranch_scc0 wf = not wf.scc_reg
is_taken s_cbranch_scc1 wf = wf.scc_reg
is_taken s_cbranch_execz wf = wf.exec_reg == 0
is_taken s_cbranch_execnz wf = wf.exec_reg != 0
is_taken s_cbranch_vccz wf = wf.vcc_reg == 0
is_taken s_cbranch_vccnz wf = wf.vcc_reg != 0
is_taken s_cbranch_cdbgsys wf = bitset_get wf.status_reg.value 21
is_taken s_cbranch_cdbguser wf = bitset_get wf.status_reg.value 20
is_taken s_cbranch_cdbgsys_and_user wf =
    bitset_get wf.status_reg.value 21 && bitset_get wf.status_reg.value 20
is_taken s_cbranch_cdbgsys_or_user wf =
    bitset_get wf.status_reg.value 21 || bitset_get wf.status_reg.value 20

-- The state that a branch to `target` runs on, and the one that it leaves if it is taken.
abbrev before : Wavefront → ℕ → WfStateSopp
before wf target = record (get_common_sopp_state wf) { reladdr = target }

abbrev jumped : Wavefront → ℕ → WfStateSopp
jumped wf target = record (before wf target) { pc = record { value = target; used = true } }

branch_lem :
    (b : SoppBranch) (wf : Wavefront) (target : ℕ)
    → run_branch b (before wf target)
      ≡ (if is_taken b wf then jumped wf target else before wf target)
unfolding run_branch run_s_branch run_s_cbranch_cdbgsys run_s_cbranch_cdbgsys_and_user
    run_s_cbranch_cdbgsys_or_user run_s_cbranch_cdbguser run_s_cbranch_execnz run_s_cbranch_execz
    run_s_cbranch_scc0 run_s_cbranch_scc1 run_s_cbranch_vccnz run_s_cbranch_vccz is_taken
    cond_dbg_sys cond_dbg_user set_value get_common_sopp_state
branch_lem s_branch wf target = refl
branch_lem s_cbranch_scc0 wf target = refl
branch_lem s_cbranch_scc1 wf target = refl
branch_lem s_cbranch_execz wf target = refl
branch_lem s_cbranch_execnz wf target = refl
branch_lem s_cbranch_vccz wf target = refl
branch_lem s_cbranch_vccnz wf target = refl
branch_lem s_cbranch_cdbgsys wf target = refl
branch_lem s_cbranch_cdbguser wf target = refl
branch_lem s_cbranch_cdbgsys_and_user wf target = refl
branch_lem s_cbranch_cdbgsys_or_user wf target = refl

-- For each of the eleven branches, in a wavefront whose program counter no jump has set, with an operand
-- that reads as `target` and a current instruction of a valid width: `run_sopp` and the step to the next
-- instruction after it return the wavefront with its program counter at `target` if the branch is taken, and
-- behind the current instruction if not, and all else as it was. A branch is taken always (`s_branch`), or by
-- SCC, by EXEC or VCC being 0 or not, or by bits 21 (system) and 20 (user) of STATUS.
pub run_sopp-target :
    (b : SoppBranch) (operands : List Operand) (wf : Wavefront) (code : KernelCode)
    (target width : ℕ) (instr : Instruction)
    → read_u64 wf operands 0 ≡ ok target
    → wf.program_counter.used ≡ false
    → get_cur_instr code wf ≡ ok instr
    → get_width instr ≡ ok width
    → (run_sopp (branches b) operands wf >>= to_next_instr code)
      ≡ ok (record wf {
        program_counter = record {
          value = if is_taken b wf then target else u64 (wf.program_counter.value + width);
          used = false;
        };
      })
unfolding run_sopp run_sopp_op set_reladdr_and_exec to_next_instr was_used hidden_add get_cur_instr
    get_common_sopp_state update_with_common_sopp_state
run_sopp-target b operands wf code target width instr reads unused current wide =
    elim (Bool-cases (is_taken b wf)) [
      | inl taken ↦ rw (reads, branch_lem b wf target, taken) refl
      | inr passed ↦ rw (reads, branch_lem b wf target, passed, unused, current, wide) refl
    ]
