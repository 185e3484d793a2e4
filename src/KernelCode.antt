-- ===== src/KernelCode.antt =====
-- common/model/instr/instruction.h and instruction.cpp: instructions and the code of a kernel. An
-- `unordered_map` is the list of its entries.
use red_o_lator.Base.{
  ℕ, ◌%◌, ◌||◌, List, [], ◌∷◌, Option, none, some, ◌==◌, if◌then◌else◌, Result, ok, fail, Fault,
  assert, or_fail, ◌>>◌,
}
use red_o_lator.Instruction.{Operand}
use red_o_lator.Alu.Instr.{InstrKey}

-- The three keys that the compute unit handles itself, and those that it gives to `run_instr`.
pub data Key : Type 0 where
  s_endpgm s_barrier s_waitcnt : Key
  executed : InstrKey → Key

pub record Instruction : Type 0 where
  pub key : Key
  pub width_in_bytes : ℕ
  pub addr : ℕ
  pub operands : List Operand

unfoldable pub get_width : Instruction → Result ℕ
get_width instr =
    if instr.width_in_bytes == 4 || instr.width_in_bytes == 8
    then ok instr.width_in_bytes
    else fail Fault.runtime_error

pub record KernelCode : Type 0 where
  pub code : List (ℕ × Instruction)

unfoldable pub find : List (ℕ × Instruction) → ℕ → Option Instruction
find [] address = none
find ((a, instr) ∷ rest) address = if a == address then some instr else find rest address

unfoldable pub get_instr : KernelCode → ℕ → Result Instruction
get_instr kernel address = do
  assert (address % 4 == 0)
  or_fail (find kernel.code address) Fault.assertion

unfoldable pub put_instr : List (ℕ × Instruction) → ℕ → Instruction → List (ℕ × Instruction)
put_instr [] address instr = (address, instr) ∷ []
put_instr ((a, old) ∷ rest) address instr =
    if a == address then (address, instr) ∷ rest else (a, old) ∷ put_instr rest address instr

-- `code[addr] = Instruction{addr, …}`
unfoldable pub add_instr : KernelCode → ℕ → Instruction → KernelCode
add_instr kernel addr instr = record kernel {
  code = put_instr kernel.code addr (record instr { addr = addr });
}
