-- ===== src/Tests/Vector.antt =====
-- Runs of the vector and memory instructions.
use red_o_lator.Base.{
  ℕ, zero, suc, ◌+◌, ◌*◌, ◌/◌, ◌^◌, ◌<◌, ◌≡◌, ◌≢◌, ◌⊎◌, ◌↔◌, refl, arith, false, List, [], ◌∷◌,
  none, some, u32, ltb, leb, ◌==◌, min, max, get_elem?, get_or, if◌then◌else◌, to_nat, ok,
  for_lanes, Floats, Conversions,
}
use red_o_lator.Base.BitLaws.{bit}
use red_o_lator.Base.BitLoop.{All}
use red_o_lator.Register.Mode.{dx10_clamp}
use red_o_lator.Storage.{Storage, init}
use red_o_lator.Storage.Bytes.{written}
use red_o_lator.Wavefront.{Wavefront, work_item_masked}
use red_o_lator.Wavefront.VectorFile.{vgpr_of}
use red_o_lator.Wavefront.VectorStates.{Vop1Lane, Vop2Lane, Vop3Lane, WfStateVopc, get_vopc_state}
use red_o_lator.Alu.Vop1.{run_v_ffbh_u32}
use red_o_lator.Alu.Vop1.FindBit.{NoBit, TopBit, ffbh_u32-TopBit}
use red_o_lator.Alu.Vop2.Arith.{run_v_add_u32}
use red_o_lator.Alu.Vop2.Run.{run_vop2_op, run_vop2, v_add_u32, v_addc_u32}
use red_o_lator.Alu.Vop2.Registers.{lane_of, three_vgprs, run_vop2-vgprs}
use red_o_lator.Alu.Vop2.Carry.{HasWords, total, addc_u32-lanes}
use red_o_lator.Alu.Vop3.Compare.{run_v_med3_u32}
use red_o_lator.Alu.Vop3.Median.{med3_u32-median}
use red_o_lator.Alu.Vopc.{
  IntegerTest, compare_u32, unsigned_tests, vopc_test, run_test, run_vopc_op, vopc_loop, run_vopc,
}
use red_o_lator.Alu.Vopc.Lost.{comparison, compared_vgprs, compared_lane, run_vopc-lost}
use red_o_lator.Alu.Flat.{run_flat_store_dwordxn}
use red_o_lator.Alu.Flat.Words.{StoredAt, store_dwordxn-last}
use red_o_lator.Tests.{small_wavefront}

-- Floating-point operations that a test can run.
abbrev some_floats : Floats
some_floats = record {
  float_add = λ a b. a + b;
  float_sub = λ a b. a;
  float_mul = λ a b. a * b;
  float_lt = ltb;
}

abbrev some_conversions : Conversions
some_conversions = record { lt = ltb; le = leb; eq = λ a b. a == b; is_nan = λ a. false }

-- Two lanes of three registers; EXEC has the first lane only.
abbrev two_lanes : Wavefront
unfolding small_wavefront
two_lanes = record small_wavefront {
  vector_reg_file = 9 ∷ 0xffffffff ∷ 3 ∷ 8 ∷ 5 ∷ 6 ∷ [];
  exec_reg = 1;
  size = 2;
  vgprsnum = 3;
}

two_lanes_words : (i : ℕ) → i < 2 → vgpr_of two_lanes i 0 < 2 ^ 32
unfolding two_lanes
two_lanes_words zero h = omega arith
two_lanes_words (suc zero) h = omega arith
two_lanes_words (suc (suc i)) h = omega arith

run_vop2-vgprs_example :
    let new =
      λ (i : ℕ). (run_v_add_u32 (dx10_clamp two_lanes.mode_reg) (lane_of two_lanes 0 1 2 i)).vdst in
    (wf' : Wavefront) × (run_vop2 some_floats v_add_u32 (three_vgprs 0 1 2) two_lanes ≡ ok wf')
    × ((i : ℕ)
        → i < 2
        → get_elem? wf'.vector_reg_file (i * 3 + 0)
          ≡ some (if work_item_masked two_lanes i then u32 (new i) else vgpr_of two_lanes i 0))
    × ((c : ℕ)
        → ((i : ℕ) → i < 2 → c ≢ i * 3 + 0)
        → get_elem? wf'.vector_reg_file c ≡ get_elem? two_lanes.vector_reg_file c)
    × (wf'.vcc_reg ≡ two_lanes.vcc_reg)
unfolding two_lanes run_vop2_op
run_vop2-vgprs_example =
    run_vop2-vgprs some_floats v_add_u32 (λ clamp i vcc lane. run_v_add_u32 clamp lane)
      (λ clamp i vcc lane. refl) two_lanes 0 1 2
      (record {
        dst_below = omega arith;
        src0_below = omega arith;
        src1_below = omega arith;
        few = omega arith;
        words = two_lanes_words;
        rows = omega arith;
      })

abbrev carrying : List Vop2Lane
carrying =
    record { vdst = 0; src0 = 0xffffffff; src1 = 1 } ∷ record { vdst = 7; src0 = 1; src1 = 2 } ∷ []

carrying_words : All HasWords carrying
carrying_words = ((omega arith, omega arith), ((omega arith, omega arith), tt))

addc_u32-lanes_example :
    (r : ℕ × List Vop2Lane) × (for_lanes
        (λ i. i == 0)
        (run_vop2_op some_floats v_addc_u32 false)
        0
        2
        carrying
      ≡ ok r)
    × ((i : ℕ) (lane : Vop2Lane)
        → get_elem? carrying i ≡ some lane
        → (get_elem? r.1 i
            ≡ some (if i == 0 then record lane { vdst = u32 (total lane i 2) } else lane))
          × (bit i r.0 ≡ (if i == 0 then total lane i 2 / 2 ^ 32 else bit i 2)))
addc_u32-lanes_example =
    addc_u32-lanes some_floats false (λ i. i == 0) carrying 2 carrying_words (omega arith)
      (omega arith)

run_vopc-lost_example :
    (state state' : WfStateVopc) × (get_vopc_state two_lanes (compared_vgprs 1 2) ≡ ok state)
    × (vopc_loop some_conversions some_conversions
          (comparison (compare_u32 IntegerTest.lt))
          two_lanes
          state
        ≡ ok state')
    × ((i : ℕ)
        → i < 2
        → bit i state'.sdst ≡ (
            if work_item_masked two_lanes i
            then to_nat (
                run_test
                  (unsigned_tests 32)
                  (vopc_test IntegerTest.lt)
                  (compared_lane two_lanes 1 2 i))
            else bit i 0))
    × (run_vopc some_conversions some_conversions
          (comparison (compare_u32 IntegerTest.lt))
          (compared_vgprs 1 2)
          two_lanes
        ≡ ok two_lanes)
unfolding two_lanes run_vopc_op
run_vopc-lost_example =
    run_vopc-lost some_conversions some_conversions (compare_u32 IntegerTest.lt)
      (run_test (unsigned_tests 32) (vopc_test IntegerTest.lt)) (λ lane. refl) two_lanes 1 2
      (record {
        src0_below = omega arith;
        src1_below = omega arith;
        few = omega arith;
        lanes = omega arith;
        rows = omega arith;
        vcc_word = omega arith;
      })

abbrev found_bit : Vop1Lane
found_bit = record { vdst = 0; src0 = 0x00f0 }

ffbh_u32-TopBit_example :
    NoBit found_bit (run_v_ffbh_u32 found_bit)
    ⊎ ((i : ℕ) × TopBit found_bit (run_v_ffbh_u32 found_bit) i)
ffbh_u32-TopBit_example = ffbh_u32-TopBit found_bit

abbrev three_values : Vop3Lane
three_values = record { vdst = 0; src0 = 7; src1 = 3; src2 = none }

med3_u32-median_example :
    (((run_v_med3_u32 three_values 5).vdst ≡ max (min 7 3) (min (max 7 3) 5))
      ↔ ((three_values.src1 ≡ 5) → (three_values.src0 ≡ 5)))
    × ((three_values.src1 ≡ 5) → ((run_v_med3_u32 three_values 5).vdst ≡ 7))
med3_u32-median_example = med3_u32-median three_values 5

abbrev twelve_bytes : Storage
unfolding init
twelve_bytes = init 12

two_words : (i : ℕ) → i < 2 → get_or (0x11 ∷ 0x22 ∷ []) i 0 < 2 ^ 32
two_words zero h = omega arith
two_words (suc zero) h = omega arith
two_words (suc (suc i)) h = omega arith

store_dwordxn-last_example :
    (s' : Storage) × (run_flat_store_dwordxn (0x11 ∷ 0x22 ∷ []) 4 0 2 twelve_bytes
      ≡ ok (written s'))
    × StoredAt twelve_bytes 4 0x22 s'
unfolding twelve_bytes
store_dwordxn-last_example =
    store_dwordxn-last (0x11 ∷ 0x22 ∷ []) 4 0 1 twelve_bytes refl (omega arith) (omega arith)
      (omega arith) two_words
