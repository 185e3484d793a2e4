-- ===== src/Wavefront/States.antt =====
-- emulator/src/flow/wf_state.h, and the `get_*_state` and `update_with_*_state` of wavefront.cpp for
-- the scalar formats. `PC`, `MODE` and `STATUS` are pointers into the wavefront: an operation's
-- writes through them are carried by `put_registers`.
use red_o_lator.Base.{
  ℕ, Bool, List, length, leb, ltb, ◌==◌, u32, if◌then◌else◌, none, Result, ok, assert, ◌>>=◌, ◌>>◌,
}
use red_o_lator.Register.{ProgramCounter}
use red_o_lator.Register.Mode.{ModeReg}
use red_o_lator.Register.Status.{StatusReg}
use red_o_lator.Instruction.{Operand, operand_at, get_reg}
use red_o_lator.Util.{to_uin64_t}
use red_o_lator.Wavefront.{Wavefront, read_operand, write_operand_to_gpr}

pub record WfStateSop1 : Type 0 where
  pub sdst : ℕ
  pub ssrc0 : ℕ
  pub exec : ℕ
  pub dest_type : ℕ
  pub src0_type : ℕ
  pub m0 : ℕ
  pub pc : ProgramCounter
  pub mode : ModeReg
  pub status : StatusReg
  pub scc : Bool

pub record WfStateSop2 : Type 0 where
  pub sdst : ℕ
  pub ssrc0 : ℕ
  pub ssrc1 : ℕ
  pub exec : ℕ
  pub pc : ProgramCounter
  pub mode : ModeReg
  pub status : StatusReg
  pub scc : Bool

pub record WfStateSopp : Type 0 where
  pub reladdr : ℕ
  pub exec : ℕ
  pub vcc : ℕ
  pub m0 : ℕ
  pub simm16 : ℕ
  pub pc : ProgramCounter
  pub status : StatusReg
  pub mode : ModeReg
  pub scc : Bool

pub record WfStateSopc : Type 0 where
  pub ssrc0 : ℕ
  pub ssrc1 : ℕ
  pub m0 : ℕ
  pub mode : ModeReg
  pub scc : Bool

pub record WfStateSopk : Type 0 where
  pub sdst : ℕ
  pub ssrc0 : ℕ
  pub reladdr : ℕ
  pub pc : ProgramCounter
  pub imm16 : ℕ
  pub scc : Bool

-- `to_uin64_t(read_operand(*instruction[i]))`
unfoldable pub read_u64 : Wavefront → List Operand → ℕ → Result ℕ
unfolding read_operand to_uin64_t operand_at
read_u64 wf operands i = do
  operand ← operand_at operands i
  words ← read_operand wf operand none
  to_uin64_t words

-- `write_operand_to_gpr(*instruction[0], value)`
unfoldable pub write_first : Wavefront → List Operand → ℕ → Result Wavefront
unfolding write_operand_to_gpr operand_at
write_first wf operands value = do
  operand ← operand_at operands 0
  write_operand_to_gpr wf operand value

-- Writes through the pointers of a state.
abbrev pub put_registers : ProgramCounter → ModeReg → StatusReg → Wavefront → Wavefront
put_registers pc mode status wf = record wf {
  program_counter = pc;
  mode_reg = mode;
  status_reg = status;
}

new_sop1_state : Wavefront → WfStateSop1
new_sop1_state wf = record {
  sdst = 0;
  ssrc0 = 0;
  exec = wf.exec_reg;
  dest_type = 0;
  src0_type = 0;
  m0 = wf.m0_reg;
  pc = wf.program_counter;
  mode = wf.mode_reg;
  status = wf.status_reg;
  scc = wf.scc_reg;
}

unfoldable pub get_sop1_state : Wavefront → List Operand → Result WfStateSop1
unfolding new_sop1_state read_u64 operand_at get_reg
get_sop1_state wf operands = do
  assert (leb (length operands) 2)
  if ltb (length operands) 2 then ok (new_sop1_state wf) else do
    sdst ← read_u64 wf operands 0
    ssrc0 ← read_u64 wf operands 1
    dest ← operand_at operands 0
    dest_type ← get_reg dest.value
    src ← operand_at operands 1
    src0_type ← get_reg src.value
    ok (record (new_sop1_state wf) {
      sdst = sdst;
      ssrc0 = ssrc0;
      dest_type = dest_type;
      src0_type = src0_type;
    })

unfoldable pub update_with_sop1_state : Wavefront → List Operand → WfStateSop1 → Result Wavefront
unfolding write_first
update_with_sop1_state wf operands state = do
  assert (leb (length operands) 2)
  let wf' = record wf { exec_reg = state.exec; m0_reg = state.m0; scc_reg = state.scc }
  if ltb (length operands) 2 then ok wf' else write_first wf' operands state.sdst

new_sop2_state : Wavefront → WfStateSop2
new_sop2_state wf = record {
  sdst = 0;
  ssrc0 = 0;
  ssrc1 = 0;
  exec = wf.exec_reg;
  pc = wf.program_counter;
  mode = wf.mode_reg;
  status = wf.status_reg;
  scc = wf.scc_reg;
}

unfoldable pub get_sop2_state : Wavefront → List Operand → Result WfStateSop2
unfolding new_sop2_state read_u64
get_sop2_state wf operands = do
  assert (leb (length operands) 3)
  if ltb (length operands) 3 then ok (new_sop2_state wf) else do
    sdst ← read_u64 wf operands 0
    ssrc0 ← read_u64 wf operands 1
    ssrc1 ← read_u64 wf operands 2
    ok (record (new_sop2_state wf) { sdst = sdst; ssrc0 = ssrc0; ssrc1 = ssrc1 })

unfoldable pub update_with_sop2_state : Wavefront → List Operand → WfStateSop2 → Result Wavefront
unfolding write_first
update_with_sop2_state wf operands state = do
  assert (leb (length operands) 3)
  let wf' = record wf { exec_reg = state.exec; scc_reg = state.scc }
  if ltb (length operands) 3 then ok wf' else write_first wf' operands state.sdst

unfoldable pub new_sopk_state : Wavefront → WfStateSopk
new_sopk_state wf = record {
  sdst = 0;
  ssrc0 = 0;
  reladdr = 0;
  pc = wf.program_counter;
  imm16 = 0;
  scc = wf.scc_reg;
}

unfoldable pub get_sopk_state : Wavefront → List Operand → Result WfStateSopk
unfolding new_sopk_state read_u64
get_sopk_state wf operands = do
  assert (length operands == 2)
  sdst ← read_u64 wf operands 0
  imm16 ← read_u64 wf operands 1
  ok (record (new_sopk_state wf) { sdst = sdst; imm16 = u32 imm16 })

unfoldable pub update_with_sopk_state : Wavefront → List Operand → WfStateSopk → Result Wavefront
unfolding write_first
update_with_sopk_state wf operands state =
    write_first (record wf { scc_reg = state.scc }) operands state.sdst

-- The constructor's first parameter is M0; the call passes `execReg`.
unfoldable pub get_sopc_state : Wavefront → List Operand → Result WfStateSopc
unfolding read_u64
get_sopc_state wf operands = do
  assert (length operands == 2)
  ssrc0 ← read_u64 wf operands 0
  ssrc1 ← read_u64 wf operands 1
  ok (record {
    ssrc0 = ssrc0;
    ssrc1 = ssrc1;
    m0 = u32 wf.exec_reg;
    mode = wf.mode_reg;
    scc = wf.scc_reg;
  })

unfoldable pub update_with_sopc_state : Wavefront → WfStateSopc → Wavefront
update_with_sopc_state wf state = record wf { scc_reg = state.scc; m0_reg = state.m0 }

unfoldable pub get_common_sopp_state : Wavefront → WfStateSopp
get_common_sopp_state wf = record {
  reladdr = 0;
  exec = wf.exec_reg;
  vcc = wf.vcc_reg;
  m0 = wf.m0_reg;
  simm16 = 0;
  pc = wf.program_counter;
  status = wf.status_reg;
  mode = wf.mode_reg;
  scc = wf.scc_reg;
}

unfoldable pub update_with_common_sopp_state : Wavefront → WfStateSopp → Wavefront
update_with_common_sopp_state wf state = record wf {
  exec_reg = state.exec;
  vcc_reg = state.vcc;
  scc_reg = state.scc;
}
