-- ===== src/Instruction.antt =====
-- common/model/instr/instruction.h: operands and instructions, as the scalar formats use them.
use red_o_lator.Base.{ℕ, ℤ, List, get_elem?, Result, Fault, or_fail, ok, fail, Bool, true, false}

pub data OperandType : Type 0 where
  register float_const int_const literal_const label : OperandType

-- `std::variant<int, uint32_t, float, RegisterType>`; a float is kept as its bit pattern.
pub data OperandValue : Type 0 where
  int_value : ℤ → OperandValue
  uint_value : ℕ → OperandValue
  float_value : ℕ → OperandValue
  reg_value : ℕ → OperandValue

pub record Operand : Type 0 where
  pub type : OperandType
  pub value : OperandValue
  pub reg_amount : ℕ

-- `std::get<RegisterType>(operand.value)` and its kin throw on another alternative.
unfoldable pub get_reg : OperandValue → Result ℕ
get_reg (OperandValue.reg_value r) = ok r
get_reg (OperandValue.int_value z) = fail Fault.bad_variant
get_reg (OperandValue.uint_value n) = fail Fault.bad_variant
get_reg (OperandValue.float_value f) = fail Fault.bad_variant

unfoldable pub get_uint : OperandValue → Result ℕ
get_uint (OperandValue.uint_value n) = ok n
get_uint (OperandValue.int_value z) = fail Fault.bad_variant
get_uint (OperandValue.reg_value r) = fail Fault.bad_variant
get_uint (OperandValue.float_value f) = fail Fault.bad_variant

unfoldable pub get_int : OperandValue → Result ℤ
get_int (OperandValue.int_value z) = ok z
get_int (OperandValue.uint_value n) = fail Fault.bad_variant
get_int (OperandValue.reg_value r) = fail Fault.bad_variant
get_int (OperandValue.float_value f) = fail Fault.bad_variant

unfoldable pub get_float : OperandValue → Result ℕ
get_float (OperandValue.float_value f) = ok f
get_float (OperandValue.int_value z) = fail Fault.bad_variant
get_float (OperandValue.uint_value n) = fail Fault.bad_variant
get_float (OperandValue.reg_value r) = fail Fault.bad_variant

-- `operator[]` of an instruction asserts that the index is in range.
unfoldable pub operand_at : List Operand → ℕ → Result Operand
operand_at operands i = or_fail (get_elem? operands i) Fault.assertion

unfoldable pub is_register : OperandType → Bool
is_register OperandType.register = true
is_register OperandType.float_const = false
is_register OperandType.int_const = false
is_register OperandType.literal_const = false
is_register OperandType.label = false
