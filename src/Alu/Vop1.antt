-- ===== src/Alu/Vop1.antt =====
-- emulator/src/alu/alu_vop1.cpp: the vector instructions with one source. Each instruction is a function
-- of the lane that it reads and writes.
pub mod Table
pub mod FindBit
use red_o_lator.Base.{
  ℕ, zero, suc, ◌+◌, ◌-◌, ◌*◌, ◌/◌, ◌%◌, ◌^◌, Bool, true, false, List, Option, none, some, u32, u64,
  ◌<<<◌, ◌>>>◌, bit_and, bit_or, bit_not, to_int, of_int, i32, ℤ, pos, negsuc, max_ℤ, min_ℤ, leb_ℤ,
  get_elem?, if◌then◌else◌, ◌==◌, ◌!=◌, Result, ok, fail, Fault, or_fail, ◌>>=◌, for_lanes, find_up,
  find_down, pos_part, to_nat,
}
use red_o_lator.Util.{rev_bit32}
use red_o_lator.Instruction.{Operand}
use red_o_lator.Wavefront.{Wavefront, work_item_masked}
use red_o_lator.Wavefront.VectorStates.{Vop1Lane, get_vop1_state, update_with_vop1_state}
use red_o_lator.Alu.Vop1.Table.{screen_partition_table}

unfoldable pub run_v_not_b32 : Vop1Lane → Vop1Lane
run_v_not_b32 lane = record lane { vdst = bit_not 64 lane.src0 }

-- `std::max(std::min((int16_t) x, int16_t(255)), int16_t(0))`, which is not negative.
unfoldable pub saturate_u8 : ℕ → ℕ
saturate_u8 x = pos_part (max_ℤ (min_ℤ (to_int 16 x) (pos 255)) (pos 0))

unfoldable pub run_v_sat_pk_u8_i16 : Vop1Lane → Vop1Lane
run_v_sat_pk_u8_i16 lane = record lane {
  vdst = bit_or (saturate_u8 (bit_and lane.src0 0xffff)) (saturate_u8 (lane.src0 >>> 16) <<< 8);
}

unfoldable pub run_v_screen_partition_4se_b32 : Vop1Lane → Result Vop1Lane
run_v_screen_partition_4se_b32 lane = do
  entry ← or_fail (get_elem? screen_partition_table (bit_and lane.src0 0xff)) Fault.undefined
  ok (record lane { vdst = entry })

unfoldable pub run_v_swap_b32 : Vop1Lane → Vop1Lane
run_v_swap_b32 lane = record lane { vdst = lane.src0; src0 = u32 lane.vdst }

unfoldable pub run_v_bfrev_b32 : Vop1Lane → Vop1Lane
run_v_bfrev_b32 lane = record lane { vdst = rev_bit32 (u32 lane.src0) }

-- `(uint64_t(1) << i) & value) != 0`
abbrev pub has_bit : ℕ → ℕ → Bool
has_bit value i = bit_and (1 <<< i) value != 0

-- The counter of the downward loops is unsigned and never negative: after round 0 it is 255, and the
-- shift by it is undefined.
abbrev pub stored_at : Vop1Lane → Option ℕ → Result Vop1Lane
stored_at lane none = fail Fault.undefined
stored_at lane (some i) = ok (record lane { vdst = 31 - i })

unfoldable pub run_v_ffbh_u32 : Vop1Lane → Result Vop1Lane
run_v_ffbh_u32 lane = stored_at lane (find_down 32 (has_bit lane.src0))

unfoldable pub run_v_ffbh_i32 : Vop1Lane → Result Vop1Lane
run_v_ffbh_i32 lane =
    let bitval = to_nat (leb_ℤ (pos 0) (i32 lane.src0)) in
    stored_at lane (find_down 32 (λ i. bit_and (1 <<< i) lane.src0 == u32 (bitval <<< i)))

abbrev pub first_or_minus_one : Option ℕ → ℤ
first_or_minus_one none = negsuc 0
first_or_minus_one (some i) = pos i

unfoldable pub run_v_ffbl_b32 : Vop1Lane → Vop1Lane
run_v_ffbl_b32 lane = record lane {
  vdst = of_int 64 (first_or_minus_one (find_up 32 0 (has_bit lane.src0)));
}

unfoldable pub run_v_mov_b32 : Vop1Lane → Vop1Lane
run_v_mov_b32 lane = record lane { vdst = lane.src0 }

pub data Vop1Key : Type 0 where
  v_swap_b32 v_not_b32 v_sat_pk_u8_i16 v_screen_partition_4se_b32 v_bfrev_b32 v_ffbh_u32 : Vop1Key
  v_ffbh_i32 v_ffbl_b32 v_mov_b32 unsupported_key : Vop1Key

unfoldable pub run_vop1_op : Vop1Key → Vop1Lane → Result Vop1Lane
run_vop1_op v_swap_b32 lane = ok (run_v_swap_b32 lane)
run_vop1_op v_not_b32 lane = ok (run_v_not_b32 lane)
run_vop1_op v_sat_pk_u8_i16 lane = ok (run_v_sat_pk_u8_i16 lane)
run_vop1_op v_screen_partition_4se_b32 lane = run_v_screen_partition_4se_b32 lane
run_vop1_op v_bfrev_b32 lane = ok (run_v_bfrev_b32 lane)
run_vop1_op v_ffbh_u32 lane = run_v_ffbh_u32 lane
run_vop1_op v_ffbh_i32 lane = run_v_ffbh_i32 lane
run_vop1_op v_ffbl_b32 lane = ok (run_v_ffbl_b32 lane)
run_vop1_op v_mov_b32 lane = ok (run_v_mov_b32 lane)
run_vop1_op unsupported_key lane = fail Fault.unsupported

-- The rounds of VOP1 share nothing.
vop1_round : Vop1Key → ℕ → Unit {0} → Vop1Lane → Result (Unit {0} × Vop1Lane)
vop1_round key i shared lane = do lane' ← run_vop1_op key lane; ok (shared, lane')

unfoldable pub run_vop1 : Vop1Key → List Operand → Wavefront → Result Wavefront
unfolding vop1_round
run_vop1 key operands wf = do
  lanes ← get_vop1_state wf operands
  (shared, lanes') ← for_lanes (work_item_masked wf) (vop1_round key) 0 tt lanes
  update_with_vop1_state wf operands lanes'
