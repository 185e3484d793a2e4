-- ===== src/Alu/Smem.antt =====
-- emulator/src/alu/alu_smem.cpp, and the state of the scalar memory instructions.
use red_o_lator.Base.{
  ℕ, ◌*◌, false, List, none, length, ◌==◌, u32, Result, ok, fail, Fault, assert, ◌>>=◌, ◌>>◌,
}
use red_o_lator.Instruction.{Operand, operand_at}
use red_o_lator.Util.{to_uint32_v}
use red_o_lator.Storage.{Storage, read_data}
use red_o_lator.Wavefront.{Wavefront, read_operand, write_words_to_gpr}
use red_o_lator.Wavefront.States.{read_u64}

pub record WfStateSmem : Type 0 where
  pub base : ℕ
  pub offset : ℕ
  pub sdst : List ℕ

unfoldable pub get_smem_state : Wavefront → List Operand → Result WfStateSmem
unfolding read_u64 operand_at
get_smem_state wf operands = do
  assert (length operands == 3)
  base ← read_u64 wf operands 1
  offset ← read_u64 wf operands 2
  operand ← operand_at operands 0
  sdst ← read_operand wf operand none
  ok (record { base = base; offset = offset; sdst = sdst })

unfoldable pub update_with_smem_state : Wavefront → List Operand → WfStateSmem → Result Wavefront
unfolding operand_at
update_with_smem_state wf operands state = do
  operand ← operand_at operands 0
  write_words_to_gpr wf operand state.sdst none

-- The offset is cut down to the `uint32_t` that `read_data` takes.
unfoldable pub run_s_load_dword_n : Storage → WfStateSmem → ℕ → Result WfStateSmem
run_s_load_dword_n storage state n = do
  bytes ← read_data storage state.base (u32 state.offset) n false
  words ← to_uint32_v bytes
  ok (record state { sdst = words })

pub data SmemKey : Type 0 where
  s_load_dword s_load_dwordx2 s_load_dwordx4 s_load_dwordx8 s_load_dwordx16 : SmemKey
  unsupported_key : SmemKey

unfoldable pub run_smem_op : Storage → SmemKey → WfStateSmem → Result WfStateSmem
run_smem_op storage s_load_dword state = run_s_load_dword_n storage state 4
run_smem_op storage s_load_dwordx2 state = run_s_load_dword_n storage state (4 * 2)
run_smem_op storage s_load_dwordx4 state = run_s_load_dword_n storage state (4 * 4)
run_smem_op storage s_load_dwordx8 state = run_s_load_dword_n storage state (4 * 8)
run_smem_op storage s_load_dwordx16 state = run_s_load_dword_n storage state (4 * 16)
run_smem_op storage unsupported_key state = fail Fault.unsupported

unfoldable pub run_smem : Storage → SmemKey → List Operand → Wavefront → Result Wavefront
run_smem storage key operands wf = do
  state ← get_smem_state wf operands
  state' ← run_smem_op storage key state
  update_with_smem_state wf operands state'
