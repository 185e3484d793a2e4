-- ===== src/Alu/Instr.antt =====
-- emulator/src/alu/alu.cpp: `run_instr`.
use red_o_lator.Base.{Bool, true, false, List, Result, ok, fail, Fault, ◌>>=◌, Floats, Conversions}
use red_o_lator.Instruction.{Operand}
use red_o_lator.Storage.{Storage}
use red_o_lator.Wavefront.{Wavefront}
use red_o_lator.Alu.Sop1.Run.{Sop1Key, run_sop1}
use red_o_lator.Alu.Sop2.Run.{Sop2Key, run_sop2}
use red_o_lator.Alu.Sopk.{SopkKey, run_sopk}
use red_o_lator.Alu.Sopp.{SoppKey, run_sopp}
use red_o_lator.Alu.Sopc.{SopcKey, run_sopc}
use red_o_lator.Alu.Smem.{SmemKey, run_smem}
use red_o_lator.Alu.Vop1.{Vop1Key, run_vop1}
use red_o_lator.Alu.Vop2.Run.{Vop2Key, run_vop2}
use red_o_lator.Alu.Vop3.Run.{Vop3Key, run_vop3}
use red_o_lator.Alu.Vopc.{VopcInstr, run_vopc}
use red_o_lator.Alu.Flat.{FlatStoreKey, FlatLoadKey, run_flat_store, run_flat_load}

-- The implementation's floating-point arithmetic.
pub record FloatUnit : Type 0 where
  pub floats : Floats
  pub f32 : Conversions
  pub f64 : Conversions

-- An instruction's format and key.
pub data InstrKey : Type 0 where
  sop1 : Sop1Key → InstrKey
  sop2 : Sop2Key → InstrKey
  sopk : SopkKey → InstrKey
  sopp : SoppKey → InstrKey
  smem : SmemKey → InstrKey
  sopc : SopcKey → InstrKey
  vop1 : Vop1Key → InstrKey
  vop2 : Vop2Key → InstrKey
  vop3 : Vop3Key → InstrKey
  flat_store : FlatStoreKey → InstrKey
  flat_load : FlatLoadKey → InstrKey
  vopc : VopcInstr → InstrKey
  unsupported_format : InstrKey

-- What an instruction leaves: the wavefront, the storage, and whether it threw a `runtime_error`.
pub record Ran : Type 0 where
  pub wavefront : Wavefront
  pub storage : Storage
  pub thrown : Bool

-- No instruction throws a `runtime_error` after it has changed the wavefront.
unfoldable pub after_run : Wavefront → Storage → Result Wavefront → Result Ran
after_run wf storage (ok wf') = ok (record { wavefront = wf'; storage = storage; thrown = false })
after_run wf storage (fail Fault.runtime_error) =
    ok (record { wavefront = wf; storage = storage; thrown = true })
after_run wf storage (fail Fault.assertion) = fail Fault.assertion
after_run wf storage (fail Fault.unsupported) = fail Fault.unsupported
after_run wf storage (fail Fault.undefined) = fail Fault.undefined
after_run wf storage (fail Fault.bad_variant) = fail Fault.bad_variant
after_run wf storage (fail Fault.no_fuel) = fail Fault.no_fuel

unfoldable pub run_instr : FloatUnit → InstrKey → List Operand → Wavefront → Storage → Result Ran
run_instr fpu (sop1 key) operands wf storage = after_run wf storage (run_sop1 key operands wf)
run_instr fpu (sop2 key) operands wf storage = after_run wf storage (run_sop2 key operands wf)
run_instr fpu (sopk key) operands wf storage = after_run wf storage (run_sopk key operands wf)
run_instr fpu (sopp key) operands wf storage = after_run wf storage (run_sopp key operands wf)
run_instr fpu (smem key) operands wf storage =
    after_run wf storage (run_smem storage key operands wf)
run_instr fpu (sopc key) operands wf storage = after_run wf storage (run_sopc key operands wf)
run_instr fpu (vop1 key) operands wf storage = after_run wf storage (run_vop1 key operands wf)
run_instr fpu (vop2 key) operands wf storage =
    after_run wf storage (run_vop2 fpu.floats key operands wf)
run_instr fpu (vop3 key) operands wf storage = after_run wf storage (run_vop3 key operands wf)
run_instr fpu (flat_store key) operands wf storage = do
  written ← run_flat_store key operands wf storage
  ok (record { wavefront = wf; storage = written.storage; thrown = written.thrown })
run_instr fpu (flat_load key) operands wf storage =
    after_run wf storage (run_flat_load key operands wf storage)
run_instr fpu (vopc instr) operands wf storage =
    after_run wf storage (run_vopc fpu.f32 fpu.f64 instr operands wf)
run_instr fpu unsupported_format operands wf storage = fail Fault.assertion
