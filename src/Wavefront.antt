-- ===== src/Wavefront.antt =====
-- emulator/src/flow/wavefront.h and wavefront.cpp: a wavefront, and how operands read and write its
-- registers. The objects behind `programCounter`, `statusReg` and `modeReg` are held by value.
pub mod Registers
pub mod Operands
pub mod States
pub mod VectorStates
pub mod VectorFile
use red_o_lator.Base.{
  ℕ, zero, suc, ◌+◌, ◌-◌, ◌*◌, ◌/◌, ◌%◌, ◌^◌, ◌≤◌, Bool, true, false, List, [], ◌∷◌, Option, none,
  some, u32, u64, ◌<<<◌, ◌>>>◌, bit_or, bit_and, of_int, length, get_elem?, set, replicate,
  if◌then◌else◌, ltb, leb, ◌==◌, ◌!=◌, to_nat, Result, ok, fail, Fault, assert, or_fail, ◌>>=◌,
  ◌>>◌,
}
use red_o_lator.Register.{
  ProgramCounter, reg_s0, reg_v0, reg_exec, reg_scc, reg_vcc, reg_m0, is_s_reg, is_v_reg,
}
use red_o_lator.Register.Mode.{ModeReg}
use red_o_lator.Register.Status.{StatusReg}
use red_o_lator.Instruction.{
  Operand, OperandType, get_reg, get_uint, get_int, get_float, is_register,
}

pub record Wavefront : Type 0 where
  pub scalar_reg_file : List ℕ
  pub vector_reg_file : List ℕ
  pub status_reg : StatusReg
  pub mode_reg : ModeReg
  pub program_counter : ProgramCounter
  pub exec_reg : ℕ
  pub vcc_reg : ℕ
  pub m0_reg : ℕ
  pub scc_reg : Bool
  pub at_barrier : Bool
  pub id : ℕ
  pub size : ℕ
  pub sgprsnum : ℕ
  pub vgprsnum : ℕ
  pub completed : Bool

abbrev pub wavefront_size : ℕ
wavefront_size = 64

-- `Wavefront::Wavefront(wg, size, id, sgprnum, vgprnum)`
unfoldable pub new_wavefront : ℕ → ℕ → ℕ → ℕ → Wavefront
new_wavefront size id sgprnum vgprnum = record {
  scalar_reg_file = replicate sgprnum 0;
  vector_reg_file = replicate (wavefront_size * vgprnum) 0;
  status_reg = record { value = 0 };
  mode_reg = record { value = 0 };
  program_counter = record { value = 0; used = false };
  exec_reg = 0;
  vcc_reg = 0;
  m0_reg = 0;
  scc_reg = false;
  at_barrier = false;
  id = id;
  size = size;
  sgprsnum = sgprnum;
  vgprsnum = vgprnum;
  completed = false;
}

unfoldable pub set_vgpr : Wavefront → ℕ → ℕ → ℕ → Result Wavefront
set_vgpr wf wi v value = do
  let ind = wi * wf.vgprsnum + v
  assert (ltb ind (length wf.vector_reg_file))
  ok (record wf { vector_reg_file = set wf.vector_reg_file ind value })

unfoldable pub read_vgpr : Wavefront → ℕ → ℕ → Result ℕ
read_vgpr wf wi v = or_fail (get_elem? wf.vector_reg_file (wi * wf.vgprsnum + v)) Fault.assertion

-- The loops run from the last register of the operand down to the first.
unfoldable pub read_sgprs : Wavefront → ℕ → ℕ → Result (List ℕ)
read_sgprs wf first zero = ok []
read_sgprs wf first (suc i) = do
  word ← or_fail (get_elem? wf.scalar_reg_file (first + i)) Fault.assertion
  rest ← read_sgprs wf first i
  ok (word ∷ rest)

unfoldable pub read_vgprs : Wavefront → ℕ → ℕ → ℕ → Result (List ℕ)
unfolding read_vgpr
read_vgprs wf wi first zero = ok []
read_vgprs wf wi first (suc i) = do
  word ← read_vgpr wf wi (first + i)
  rest ← read_vgprs wf wi first i
  ok (word ∷ rest)

read_special : Wavefront → ℕ → Result (List ℕ)
read_special wf reg =
    if reg == reg_exec
    then ok (u32 (wf.exec_reg >>> 32) ∷ u32 wf.exec_reg ∷ [])
    else if reg == reg_scc
    then ok (to_nat wf.scc_reg ∷ [])
    else if reg == reg_vcc
    then ok (u32 (wf.vcc_reg >>> 32) ∷ u32 wf.vcc_reg ∷ [])
    else if reg == reg_m0
    then ok (wf.m0_reg ∷ [])
    else fail Fault.assertion

-- The work item's index is `none` where the source passes -1.
unfoldable pub read_reg_operand : Wavefront → Operand → Option ℕ → Result (List ℕ)
unfolding is_s_reg is_v_reg read_sgprs read_vgprs read_special
read_reg_operand wf operand wi = do
  reg ← get_reg operand.value
  if is_s_reg reg
      then read_sgprs wf (reg - reg_s0) operand.reg_amount
      else if is_v_reg reg
      then (do i ← or_fail wi Fault.assertion; read_vgprs wf i (reg - reg_v0) operand.reg_amount)
      else read_special wf reg

read_by_type : OperandType → Wavefront → Operand → Option ℕ → Result (List ℕ)
read_by_type OperandType.float_const wf operand wi = do v ← get_float operand.value; ok (v ∷ [])
read_by_type OperandType.int_const wf operand wi = do
  v ← get_int operand.value
  ok (of_int 32 v ∷ [])
read_by_type OperandType.label wf operand wi = do v ← get_uint operand.value; ok (v ∷ [])
read_by_type OperandType.literal_const wf operand wi = do v ← get_uint operand.value; ok (v ∷ [])
read_by_type OperandType.register wf operand wi = read_reg_operand wf operand wi

unfoldable pub read_operand : Wavefront → Operand → Option ℕ → Result (List ℕ)
unfolding read_by_type
read_operand wf operand wi = read_by_type operand.type wf operand wi

-- Rounds `i`, `i + 1`, … of the loop over `operand.regAmount`: word `i` from the end of `words`
-- goes to register `first + i`.
unfoldable pub write_sgprs : List ℕ → ℕ → ℕ → ℕ → List ℕ → Result (List ℕ)
write_sgprs words first zero i file = ok file
write_sgprs words first (suc left) i file = do
  assert (ltb (first + i) (length file))
  word ← or_fail (get_elem? words (length words - 1 - i)) Fault.undefined
  write_sgprs words first left (i + 1) (set file (first + i) word)

unfoldable pub write_vgprs : List ℕ → ℕ → ℕ → ℕ → ℕ → Wavefront → Result Wavefront
unfolding set_vgpr
write_vgprs words wi first zero i wf = ok wf
write_vgprs words wi first (suc left) i wf = do
  assert (ltb (first + i) (length wf.vector_reg_file))
  word ← or_fail (get_elem? words (length words - 1 - i)) Fault.undefined
  wf' ← set_vgpr wf wi (first + i) word
  write_vgprs words wi first left (i + 1) wf'

pair_of_words : List ℕ → Result ℕ
pair_of_words (msb ∷ lsb ∷ []) = ok (bit_or (u64 (msb <<< 32)) lsb)
pair_of_words _ = fail Fault.assertion

unfoldable pub write_words_to_gpr : Wavefront → Operand → List ℕ → Option ℕ → Result Wavefront
unfolding is_s_reg is_v_reg write_sgprs write_vgprs pair_of_words
write_words_to_gpr wf operand words wi = do
  reg ← get_reg operand.value
  if is_s_reg reg
      then (do
        assert (length words == operand.reg_amount)
        file ← write_sgprs words (reg - reg_s0) operand.reg_amount 0 wf.scalar_reg_file
        ok (record wf { scalar_reg_file = file }))
      else if is_v_reg reg
      then (do
        assert (length words == operand.reg_amount)
        i ← or_fail wi Fault.assertion
        write_vgprs words i (reg - reg_v0) operand.reg_amount 0 wf)
      else if reg == reg_vcc
      then (do pair ← pair_of_words words; ok (record wf { vcc_reg = pair }))
      else if reg == reg_exec
      then (do pair ← pair_of_words words; ok (record wf { exec_reg = pair }))
      else ok wf

-- `write_data_to_gpr(operand, uint64_t, wiInd)`
unfoldable pub write_data_to_gpr : Wavefront → Operand → ℕ → Option ℕ → Result Wavefront
unfolding write_words_to_gpr is_register
write_data_to_gpr wf operand value wi = do
  assert (is_register operand.type)
  assert (leb operand.reg_amount 2)
  write_words_to_gpr wf operand
      (if operand.reg_amount == 2 then u32 (value >>> 32) ∷ u32 value ∷ [] else u32 value ∷ []) wi

unfoldable pub write_operand_to_gpr : Wavefront → Operand → ℕ → Result Wavefront
unfolding write_data_to_gpr
write_operand_to_gpr wf operand value = write_data_to_gpr wf operand value none

unfoldable pub work_item_masked : Wavefront → ℕ → Bool
work_item_masked wf wi = bit_and wf.exec_reg (u64 (1 <<< wi)) != 0

-- The vector is indexed with no check: an index out of range is undefined.
unfoldable pub set_sgpr_pair : Wavefront → ℕ → ℕ → Result Wavefront
set_sgpr_pair wf sgpr value = do
  assert (sgpr % 2 == 0)
  let file = wf.scalar_reg_file
  if ltb (sgpr + 1) (length file)
      then ok (record wf {
        scalar_reg_file = set (set file sgpr (u32 value)) (sgpr + 1) (u32 (value >>> 32));
      })
      else fail Fault.undefined

unfoldable pub read_sgpr_pair : Wavefront → ℕ → Result ℕ
read_sgpr_pair wf sgpr = do
  assert (sgpr % 2 == 0)
  lsb ← or_fail (get_elem? wf.scalar_reg_file sgpr) Fault.undefined
  msb ← or_fail (get_elem? wf.scalar_reg_file (sgpr + 1)) Fault.undefined
  ok (bit_or lsb (u64 (msb <<< 32)))
