-- ===== src/Tests/Instructions.antt =====
-- Runs of single instructions.
use red_o_lator.Base.{
  ◌<ℤ◌, ◌≤ℤ◌, ◌<◌, ◌≤◌, ◌≡◌, ◌≢◌, ◌↔◌, ◌+◌, ◌*◌, ◌/◌, ◌%◌, ◌^◌, refl, arith, true, false, [], ◌∷◌,
  ok, u32, pos, to_nat, i32, ◌+ℤ◌, ◌-ℤ◌, set,
}
use red_o_lator.Base.BitLaws.{bit}
use red_o_lator.Instruction.{Operand, OperandType, OperandValue, get_reg}
use red_o_lator.Util.Fields.{popcount}
use red_o_lator.Wavefront.{Wavefront}
use red_o_lator.Wavefront.States.{WfStateSop2}
use red_o_lator.Alu.Sop1.Run.{Sop1Key, Sop1Op, run_sop1}
use red_o_lator.Alu.Sop1.Count.{
  run_s_ff0_i32_b32, run_s_ff0_i32_b64, run_s_ff1_i32_b32, run_s_ff1_i32_b64, run_s_flbit_i32_b32,
  run_s_flbit_i32_b64, run_s_bcnt0_i32_b32, run_s_bcnt0_i32_b64, run_s_bcnt1_i32_b32,
  run_s_bcnt1_i32_b64,
}
use red_o_lator.Alu.Sop1.Search.{searches_lem, Lowest, Highest}
use red_o_lator.Alu.Sop1.Ones.{bcnt_lem}
use red_o_lator.Alu.Sop1.Exec.{
  run_s_and_saveexec_b64, run_s_andn1_saveexec_b64, run_s_andn2_saveexec_b64,
  run_s_nand_saveexec_b64, run_s_nor_saveexec_b64, run_s_or_saveexec_b64, run_s_xnor_saveexec_b64,
  run_s_xor_saveexec_b64,
}
use red_o_lator.Alu.Sop1.Lanes.{Saves, saveexec_lanes}
use red_o_lator.Alu.Sop1.Sources.{run_sop1-constant}
use red_o_lator.Alu.Sop2.Arith.{
  run_s_add_u32, run_s_addc_u32, run_s_sub_u32, run_s_subb_u32, run_s_add_i32, run_s_sub_i32,
}
use red_o_lator.Alu.Sop2.Shift.{run_s_bfe_u32}
use red_o_lator.Alu.Sop2.Fork.{run_s_cbranch_g_fork}
use red_o_lator.Alu.Sop2.Carry.{chained, add_u32-addc_u32, sub_u32-subb_u32}
use red_o_lator.Alu.Sop2.Signed.{add_sub_i32_overflow}
use red_o_lator.Alu.Sop2.Extract.{field_shift, field_length, bfe_u32_lem}
use red_o_lator.Alu.Sop2.Split.{cbranch_g_fork-mode}
use red_o_lator.Alu.Sopc.{
  SopcKey, run_sopc, run_s_cmp_eq_u32, run_s_cmp_ge_i32, run_s_cmp_ge_u32, run_s_cmp_gt_i32,
  run_s_cmp_gt_u32, run_s_cmp_le_i32, run_s_cmp_le_u32, run_s_cmp_lg_u32, run_s_cmp_lg_i32,
  run_s_cmp_lt_i32, run_s_cmp_lt_u32, run_s_cmp_eq_i32,
}
use red_o_lator.Alu.Sopc.Order.{cmp_orders, run_sopc-m0}
use red_o_lator.Tests.{sop1_state, sop2_state, sopc_state, small_wavefront}

add_u32-addc_u32_example :
    let r = run_s_add_u32 (sop2_state 0xffffffff 1) in
    let q = run_s_addc_u32 (chained r (sop2_state 3 4)) in
    u32 q.sdst * 2 ^ 32 + u32 r.sdst + to_nat q.scc * 2 ^ 64
    ≡ 3 * 2 ^ 32 + 0xffffffff + (4 * 2 ^ 32 + 1)
add_u32-addc_u32_example =
    add_u32-addc_u32 (sop2_state 0xffffffff 1) (sop2_state 3 4) (omega arith, omega arith)
      (omega arith, omega arith)

sub_u32-subb_u32_example :
    let r = run_s_sub_u32 (sop2_state 1 2) in
    let q = run_s_subb_u32 (chained r (sop2_state 3 4)) in
    u32 q.sdst * 2 ^ 32 + u32 r.sdst + (4 * 2 ^ 32 + 2) ≡ 3 * 2 ^ 32 + 1 + to_nat q.scc * 2 ^ 64
sub_u32-subb_u32_example =
    sub_u32-subb_u32 (sop2_state 1 2) (sop2_state 3 4) (omega arith, omega arith)
      (omega arith, omega arith)

bfe_u32_lem_example :
    let s = sop2_state 0xabcd 0x80004 in
    let r = run_s_bfe_u32 s in
    (r.sdst ≡ u32 0xabcd / 2 ^ field_shift s % 2 ^ field_length s) × ((r.scc ≡ true) ↔ (r.sdst ≢ 0))
bfe_u32_lem_example = bfe_u32_lem (sop2_state 0xabcd 0x80004)

saveexec_lanes_example :
    let s = sop1_state 0x5 0x3 in
    Saves run_s_and_saveexec_b64 s 0 1
    × Saves run_s_or_saveexec_b64 s 0 1
    × Saves run_s_xor_saveexec_b64 s 0 0
    × Saves run_s_nand_saveexec_b64 s 0 0
    × Saves run_s_nor_saveexec_b64 s 0 0
    × Saves run_s_xnor_saveexec_b64 s 0 1
    × Saves run_s_andn1_saveexec_b64 s 0 0
    × Saves run_s_andn2_saveexec_b64 s 0 0
unfolding bit
saveexec_lanes_example =
    saveexec_lanes (sop1_state 0x5 0x3) 0 (omega arith) (omega arith) (omega arith)

-- `s_mov_b32 s0, 5`
abbrev destination : Operand
destination = record {
  type = OperandType.register;
  value = OperandValue.reg_value 1;
  reg_amount = 1;
}

abbrev five : Operand
five = record {
  type = OperandType.int_const;
  value = OperandValue.int_value (pos 5);
  reg_amount = 0;
}

run_sop1-constant_example :
    run_sop1 (Sop1Key.plain Sop1Op.s_mov_b32) (destination ∷ five ∷ []) small_wavefront
    ≢ ok small_wavefront
unfolding get_reg
run_sop1-constant_example =
    run_sop1-constant (Sop1Key.plain Sop1Op.s_mov_b32) small_wavefront destination five refl
      small_wavefront

-- A fork that two of eight work items take, with the stack pointer at 2.
abbrev forked_state : WfStateSop2
forked_state = record (sop2_state 0x3 0x200) {
  exec = 0x3;
  pc = record { value = 0x200; used = true };
}

abbrev forked_wavefront : Wavefront
forked_wavefront = record small_wavefront {
  scalar_reg_file = set (set small_wavefront.scalar_reg_file 8 0xfc) 10 0x104;
}

cbranch_g_fork-mode_example : forked_state.mode ≡ (sop2_state 0x3 0x200).mode
unfolding run_s_cbranch_g_fork small_wavefront
cbranch_g_fork-mode_example =
    cbranch_g_fork-mode (sop2_state 0x3 0x200) forked_state small_wavefront forked_wavefront
      (omega arith) refl

cmp_orders_example :
    let s = sopc_state 3 0xfffffff0 in
    (((run_s_cmp_lt_i32 s).scc ≡ true) ↔ (i32 3 <ℤ i32 0xfffffff0))
    × (((run_s_cmp_le_i32 s).scc ≡ true) ↔ (i32 3 ≤ℤ i32 0xfffffff0))
    × (((run_s_cmp_gt_i32 s).scc ≡ true) ↔ (i32 0xfffffff0 <ℤ i32 3))
    × (((run_s_cmp_ge_i32 s).scc ≡ true) ↔ (i32 0xfffffff0 ≤ℤ i32 3))
    × (((run_s_cmp_eq_i32 s).scc ≡ true) ↔ (i32 3 ≡ i32 0xfffffff0))
    × (((run_s_cmp_lg_i32 s).scc ≡ true) ↔ (i32 3 ≢ i32 0xfffffff0))
    × (((run_s_cmp_lt_u32 s).scc ≡ true) ↔ (s.ssrc0 < s.ssrc1))
    × (((run_s_cmp_le_u32 s).scc ≡ true) ↔ (s.ssrc0 ≤ s.ssrc1))
    × (((run_s_cmp_gt_u32 s).scc ≡ true) ↔ (s.ssrc1 < s.ssrc0))
    × (((run_s_cmp_ge_u32 s).scc ≡ true) ↔ (s.ssrc1 ≤ s.ssrc0))
    × (((run_s_cmp_eq_u32 s).scc ≡ true) ↔ (s.ssrc0 ≡ s.ssrc1))
    × (((run_s_cmp_lg_u32 s).scc ≡ true) ↔ (s.ssrc0 ≢ s.ssrc1))
cmp_orders_example = cmp_orders (sopc_state 3 0xfffffff0) (omega arith) (omega arith)

-- `s_cmp_eq_i32 s0, s1` with M0 = 0 and EXEC = 15.
abbrev second_register : Operand
second_register = record {
  type = OperandType.register;
  value = OperandValue.reg_value 2;
  reg_amount = 1;
}

abbrev compared : Wavefront
compared = record small_wavefront { scc_reg = true; m0_reg = 0xf }

run_sopc-m0_example : 0xf ≡ u32 0xf
unfolding run_sopc red_o_lator.Wavefront.read_reg_operand get_reg small_wavefront
run_sopc-m0_example =
    run_sopc-m0 SopcKey.s_cmp_eq_i32 (destination ∷ second_register ∷ []) small_wavefront compared
      (λ e. cc) refl

add_sub_i32_overflow_example :
    (((run_s_add_i32 (sop2_state 0x7fffffff 1)).scc ≡ false)
      ↔ (i32 (run_s_add_i32 (sop2_state 0x7fffffff 1)).sdst ≡ i32 0x7fffffff +ℤ i32 1))
    × (((run_s_sub_i32 (sop2_state 0x7fffffff 1)).scc ≡ false)
        ↔ (i32 (run_s_sub_i32 (sop2_state 0x7fffffff 1)).sdst ≡ i32 0x7fffffff -ℤ i32 1))
add_sub_i32_overflow_example =
    add_sub_i32_overflow (sop2_state 0x7fffffff 1) (omega arith, omega arith)

searches_lem_example :
    Lowest 32 1 0xffffffff 0x57 (run_s_ff1_i32_b32 (sop1_state 0x57 0)).sdst
    × Lowest 64 1 0xffffffffffffffff 0x57 (run_s_ff1_i32_b64 (sop1_state 0x57 0)).sdst
    × Lowest 32 0 0xffffffff 0x57 (run_s_ff0_i32_b32 (sop1_state 0x57 0)).sdst
    × Lowest 64 0 0xffffffffffffffff 0x57 (run_s_ff0_i32_b64 (sop1_state 0x57 0)).sdst
    × Highest 32 1 0xffffffff 0x57 (run_s_flbit_i32_b32 (sop1_state 0x57 0)).sdst
    × Highest 64 1 0xffffffffffffffff 0x57 (run_s_flbit_i32_b64 (sop1_state 0x57 0)).sdst
searches_lem_example = searches_lem (sop1_state 0x57 0)

bcnt_lem_example :
    (((run_s_bcnt1_i32_b32 (sop1_state 0x57 0)).sdst ≡ popcount 32 0x57)
      × ((run_s_bcnt0_i32_b32 (sop1_state 0x57 0)).sdst
            + (run_s_bcnt1_i32_b32 (sop1_state 0x57 0)).sdst
          ≡ 32))
    × (((run_s_bcnt1_i32_b64 (sop1_state 0x57 0)).sdst ≡ popcount 64 0x57)
        × ((run_s_bcnt0_i32_b64 (sop1_state 0x57 0)).sdst
              + (run_s_bcnt1_i32_b64 (sop1_state 0x57 0)).sdst
            ≡ 64))
bcnt_lem_example = bcnt_lem (sop1_state 0x57 0) (omega arith)
