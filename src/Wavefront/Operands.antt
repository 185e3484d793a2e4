-- ===== src/Wavefront/Operands.antt =====
-- A scalar operand written by an instruction and read by the next one.
use red_o_lator.Base.{
  ℕ, ◌+◌, ◌-◌, ◌*◌, ◌/◌, ◌^◌, ◌<◌, ◌≡◌, ◌≢◌, arith, refl, true, none, u32, u64, length, get_elem?,
  set, length-set, ok, ltb, bit_or, ◌>>=◌,
}
use red_o_lator.Base.BitLaws.{bit_or_fields}
use red_o_lator.Register.{is_s_reg}
use red_o_lator.Instruction.{Operand, OperandType, OperandValue, get_reg, is_register}
use red_o_lator.Util.{to_uin64_t}
use red_o_lator.Wavefront.{
  Wavefront, write_operand_to_gpr, write_data_to_gpr, write_words_to_gpr, write_sgprs, read_operand,
  read_reg_operand, read_sgprs,
}
use red_o_lator.Wavefront.Registers.{store_pair, low_word, high_word, others}

-- Scalar registers from r on.
abbrev pub sgprs : ℕ → ℕ → Operand
sgprs r amount = record {
  type = OperandType.register;
  value = OperandValue.reg_value (r + 1);
  reg_amount = amount;
}

s_test : (r : ℕ) → r < 104 → is_s_reg (r + 1) ≡ true
unfolding is_s_reg
s_test r h = ground arith

index : (r : ℕ) → r + 1 - 1 ≡ r
index r = omega arith

-- The words as `to_uin64_t` joins them.
pub join_words :
    (value : ℕ) → value < 2 ^ 64 → bit_or (u64 (u32 (value / 2 ^ 32) * 2 ^ 32)) (u32 value) ≡ value
join_words value h =
    let top : u64 (u32 (value / 2 ^ 32) * 2 ^ 32) ≡ value / 2 ^ 32 * 2 ^ 32 = omega arith in
    rw top (omega (arith, bit_or_fields 32 (value / 2 ^ 32) (u32 value) (omega arith)))

-- For a pair of scalar registers inside the file and a 64-bit value: `write_operand_to_gpr` succeeds,
-- the words that `read_operand` then returns for the same operand are joined by `to_uin64_t` to the
-- value, and every other scalar register keeps its contents.
pub read_operand-write_operand_to_gpr :
    (wf : Wavefront) (r value : ℕ)
    → r < 104
    → r + 1 < length wf.scalar_reg_file
    → value < 2 ^ 64
    → (wf' : Wavefront) × (write_operand_to_gpr wf (sgprs r 2) value ≡ ok wf')
      × ((read_operand wf' (sgprs r 2) none >>= to_uin64_t) ≡ ok value)
      × ((i : ℕ)
          → i ≢ r
          → i ≢ r + 1
          → get_elem? wf'.scalar_reg_file i ≡ get_elem? wf.scalar_reg_file i)
unfolding write_operand_to_gpr write_data_to_gpr write_words_to_gpr is_register get_reg write_sgprs
    store_pair read_operand read_reg_operand read_sgprs to_uin64_t
read_operand-write_operand_to_gpr wf r value h inside small =
    let file = wf.scalar_reg_file in
    let zero_index : r + 0 ≡ r = omega arith in
    let first : ltb r (length file) ≡ true = ground (arith, inside) in
    let again : ltb (r + 1) (length (set file r (u32 value))) ≡ true =
      ground (arith, inside, length-set file r (u32 value)) in
    (
      record wf { scalar_reg_file = store_pair file r value },
      rw (s_test r h, index r, zero_index, first, again) refl,
      rw
          (
            s_test r h,
            index r,
            zero_index,
            high_word file r value inside,
            low_word file r value inside,
            join_words value small,
          )
          refl,
      others file r value inside,
    )
