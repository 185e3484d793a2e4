-- ===== src/Alu/Vop2/Select.antt =====
-- V_CNDMASK_B32.
use red_o_lator.Base.{ℕ, ◌/◌, ◌^◌, ◌<◌, ◌≡◌, refl, u32, ◌==◌, false}
use red_o_lator.Base.BitLaws.{bit, bit_and_mask}
use red_o_lator.Base.LaneBits.{high_bit}
use red_o_lator.Wavefront.VectorStates.{Vop2Lane}
use red_o_lator.Alu.Vop2.Logic.{run_v_cndmask_b32}

-- If a bit of VCC above lane i is set, `v_cndmask_b32` stores the low word of SRC0 in lane i, whether bit i of
-- VCC is set or not.
pub cndmask_b32-higher_bit :
    (i j vcc : ℕ) (lane : Vop2Lane)
    → i < j
    → bit j vcc ≡ 1
    → run_v_cndmask_b32 i vcc lane ≡ record lane { vdst = u32 lane.src0 }
unfolding run_v_cndmask_b32
cndmask_b32-higher_bit i j vcc lane lt set =
    let test : (vcc / 2 ^ i == 1) ≡ false = high_bit i j vcc lt set in
    rw (test, bit_and_mask 32 lane.src0) refl
