-- ===== src/Alu/Vopc.antt =====
-- emulator/src/alu/alu_vopc.cpp: the vector comparisons. `get<T>` with an explicit T is the template, a
-- `static_cast`, for floating-point types too.
pub mod Lost
use red_o_lator.Base.{
  ℕ, ◌+◌, ◌-◌, ◌*◌, ◌/◌, ◌%◌, ◌^◌, Bool, true, not, ◌&&◌, ◌||◌, List, u16, u32, u64, ◌<<<◌, bit_and,
  bit_or, bit_not, to_int, of_int, pos, get_bit, ltb, leb, ◌==◌, ltb_ℤ, leb_ℤ, eqb_ℤ, if◌then◌else◌,
  Result, ok, fail, Fault, ◌>>=◌, for_lanes, Conversions, Bool, false,
}
use red_o_lator.Instruction.{Operand}
use red_o_lator.Wavefront.{Wavefront, work_item_masked}
use red_o_lator.Wavefront.VectorStates.{VopcLane, WfStateVopc, get_vopc_state}
use red_o_lator.Alu.Sop2.Arith.{wrap32}

-- `state.SDST &= ~(1ull << i)` and `state.SDST |= 1ull << i`
unfoldable pub run_f : ℕ → ℕ → ℕ
run_f sdst i = bit_and sdst (bit_not 64 (u64 (1 <<< i)))

unfoldable pub run_tru : ℕ → ℕ → ℕ
run_tru sdst i = bit_or sdst (u64 (1 <<< i))

-- `get<T>` and the tests on the values of an integer type.
unfoldable pub signed_tests : ℕ → Conversions
signed_tests w = record {
  lt = λ a b. ltb_ℤ (to_int w a) (to_int w b);
  le = λ a b. leb_ℤ (to_int w a) (to_int w b);
  eq = λ a b. eqb_ℤ (to_int w a) (to_int w b);
  is_nan = λ a. false;
}

unfoldable pub unsigned_tests : ℕ → Conversions
unsigned_tests w = record {
  lt = λ a b. ltb (a % 2 ^ w) (b % 2 ^ w);
  le = λ a b. leb (a % 2 ^ w) (b % 2 ^ w);
  eq = λ a b. a % 2 ^ w == b % 2 ^ w;
  is_nan = λ a. false;
}

-- `run_LT` to `run_U`, for any type.
pub data VopcTest : Type 0 where
  lt eq le gt lg ge nge nlt neq nle ngt nlg o u : VopcTest

unfoldable pub run_test : Conversions → VopcTest → VopcLane → Bool
run_test t VopcTest.lt lane = t.lt lane.src0 lane.src1
run_test t VopcTest.eq lane = t.eq lane.src0 lane.src1
run_test t VopcTest.le lane = t.le lane.src0 lane.src1
run_test t VopcTest.gt lane = t.lt lane.src1 lane.src0
run_test t VopcTest.lg lane = not (t.eq lane.src0 lane.src1)
run_test t VopcTest.ge lane = t.le lane.src1 lane.src0
run_test t VopcTest.nge lane = not (t.le lane.src1 lane.src0)
run_test t VopcTest.nlt lane = not (t.lt lane.src0 lane.src1)
run_test t VopcTest.neq lane = not (t.eq lane.src0 lane.src1)
run_test t VopcTest.nle lane = not (t.le lane.src0 lane.src1)
run_test t VopcTest.ngt lane = not (t.lt lane.src1 lane.src0)
run_test t VopcTest.nlg lane = not (not (t.eq lane.src0 lane.src1))
run_test t VopcTest.o lane = not (t.is_nan lane.src0) && not (t.is_nan lane.src0)
run_test t VopcTest.u lane = not (t.is_nan lane.src0) || not (t.is_nan lane.src0)

-- The integer types have the first six tests only.
pub data IntegerTest : Type 0 where
  lt eq le gt lg ge : IntegerTest

unfoldable pub vopc_test : IntegerTest → VopcTest
vopc_test IntegerTest.lt = VopcTest.lt
vopc_test IntegerTest.eq = VopcTest.eq
vopc_test IntegerTest.le = VopcTest.le
vopc_test IntegerTest.gt = VopcTest.gt
vopc_test IntegerTest.lg = VopcTest.lg
vopc_test IntegerTest.ge = VopcTest.ge

-- The key, by its type and test; for any other key, whether the text holds "_f_", and "_tru_" or "_t_".
pub data VopcKey : Type 0 where
  compare_i16 compare_u16 compare_i32 compare_u32 compare_i64 compare_u64 : IntegerTest → VopcKey
  compare_f32 compare_f64 : VopcTest → VopcKey
  other : Bool → Bool → VopcKey

-- The key, and whether the text starts with "v_cmpx".
pub record VopcInstr : Type 0 where
  pub key : VopcKey
  pub is_cmpx : Bool

-- The implementation's floating-point types `float` and `double`.
module _ (f32 f64 : Conversions) where
  -- The switch: the condition under which bit i of SDST is set.
  unfoldable pub run_vopc_op : VopcKey → VopcLane → Result Bool
  unfolding run_test vopc_test signed_tests unsigned_tests
  run_vopc_op (compare_i16 t) lane = ok (run_test (signed_tests 16) (vopc_test t) lane)
  run_vopc_op (compare_u16 t) lane = ok (run_test (unsigned_tests 16) (vopc_test t) lane)
  run_vopc_op (compare_i32 t) lane = ok (run_test (signed_tests 32) (vopc_test t) lane)
  run_vopc_op (compare_u32 t) lane = ok (run_test (unsigned_tests 32) (vopc_test t) lane)
  run_vopc_op (compare_i64 t) lane = ok (run_test (signed_tests 64) (vopc_test t) lane)
  run_vopc_op (compare_u64 t) lane = ok (run_test (unsigned_tests 64) (vopc_test t) lane)
  run_vopc_op (compare_f32 t) lane = ok (run_test f32 t lane)
  run_vopc_op (compare_f64 t) lane = ok (run_test f64 t lane)
  run_vopc_op (other has_f has_tru) lane =
      if has_f then ok false else if has_tru then ok true else fail Fault.unsupported

  -- `1 << i` is an `int`: a shift by 32 or more is undefined, and bit 31 is extended.
  unfoldable pub put_exec_bit : ℕ → ℕ → Bool → Result ℕ
  put_exec_bit exec i value =
      let mask = of_int 64 (wrap32 (pos (1 <<< i))) in
      if ltb i 32
      then ok (if value then bit_or exec mask else bit_and exec (bit_not 64 mask))
      else fail Fault.undefined

  -- EXEC and SDST after the round.
  unfoldable pub vopc_round : VopcInstr → ℕ → ℕ × ℕ → VopcLane → Result ((ℕ × ℕ) × VopcLane)
  vopc_round instr i (exec, sdst) lane = do
    holds ← run_vopc_op instr.key lane
    let sdst' = if holds then run_tru sdst i else run_f sdst i
    exec' ← if instr.is_cmpx then put_exec_bit exec i (get_bit i sdst') else ok exec
    ok ((exec', sdst'), lane)

  -- The state that the loop leaves.
  unfoldable pub vopc_loop : VopcInstr → Wavefront → WfStateVopc → Result WfStateVopc
  vopc_loop instr wf state = do
    (shared, lanes) ←
        for_lanes (work_item_masked wf) (vopc_round instr) 0 (state.exec, state.sdst) state.lanes
    ok (record { exec = shared.0; sdst = shared.1; lanes = lanes })

  -- `update_with_vopc_state` is not called.
  unfoldable pub run_vopc : VopcInstr → List Operand → Wavefront → Result Wavefront
  run_vopc instr operands wf = do
    state ← get_vopc_state wf operands
    state' ← vopc_loop instr wf state
    ok wf
