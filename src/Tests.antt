-- ===== src/Tests.antt =====
-- The states that the tests run on, and the tests of the modules.
pub mod Instructions
pub mod Registers
pub mod Memory
pub mod Groups
pub mod Vector
pub mod Machine
pub mod Threads
pub mod Arguments
use red_o_lator.Base.{ℕ, Bool, true, false, List}
use red_o_lator.Register.{ProgramCounter}
use red_o_lator.Register.Mode.{ModeReg}
use red_o_lator.Register.Status.{StatusReg}
use red_o_lator.Wavefront.{Wavefront, new_wavefront}
use red_o_lator.Wavefront.States.{WfStateSop1, WfStateSop2, WfStateSopc, WfStateSopk}

abbrev pub start_pc : ProgramCounter
start_pc = record { value = 0x100; used = false }

abbrev pub some_mode : ModeReg
some_mode = record { value = 0x40000100 }

abbrev pub some_status : StatusReg
some_status = record { value = 0 }

abbrev pub sop1_state : ℕ → ℕ → WfStateSop1
sop1_state ssrc0 exec = record {
  sdst = 0;
  ssrc0 = ssrc0;
  exec = exec;
  dest_type = 1;
  src0_type = 2;
  m0 = 0;
  pc = start_pc;
  mode = some_mode;
  status = some_status;
  scc = false;
}

abbrev pub sop2_state : ℕ → ℕ → WfStateSop2
sop2_state ssrc0 ssrc1 = record {
  sdst = 0;
  ssrc0 = ssrc0;
  ssrc1 = ssrc1;
  exec = 0xff;
  pc = start_pc;
  mode = some_mode;
  status = some_status;
  scc = true;
}

abbrev pub sopc_state : ℕ → ℕ → WfStateSopc
sopc_state ssrc0 ssrc1 = record {
  ssrc0 = ssrc0;
  ssrc1 = ssrc1;
  m0 = 0;
  mode = some_mode;
  scc = false;
}

abbrev pub sopk_state : ℕ → ℕ → WfStateSopk
sopk_state sdst imm16 = record {
  sdst = sdst;
  ssrc0 = 0;
  reladdr = 0x200;
  pc = start_pc;
  imm16 = imm16;
  scc = false;
}

-- A wavefront of four work items with sixteen scalar and four vector registers.
abbrev pub small_wavefront : Wavefront
unfolding new_wavefront
small_wavefront = record (new_wavefront 4 0 16 4) { exec_reg = 0xf; mode_reg = some_mode }
