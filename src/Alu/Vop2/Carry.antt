-- ===== src/Alu/Vop2/Carry.antt =====
-- V_ADDC_U32 over the lanes of a wavefront.
use red_o_lator.Base.{
  ℕ, zero, suc, ◌+◌, ◌/◌, ◌^◌, ◌≤◌, ◌<◌, ◌≡◌, refl, arith, ap, Bool, List, [], ◌∷◌, some, u32, u64,
  length, get_elem?, if◌then◌else◌, leb, to_nat, ok, for_lanes, Floats,
}
use red_o_lator.Base.BitLaws.{bit, bit-lt, bit_and_mask}
use red_o_lator.Base.LaneBits.{put_bit, test_bit}
use red_o_lator.Wavefront.VectorStates.{Vop2Lane}
use red_o_lator.Base.BitLoop.{All, for_lanes-bits}
use red_o_lator.Alu.Vop2.Arith.{run_v_addc_u32}
use red_o_lator.Alu.Vop2.Run.{run_vop2_op, v_addc_u32}

-- Both sources are words of 32 bits.
abbrev pub HasWords : Vop2Lane → Type 0
HasWords lane = (lane.src0 < 2 ^ 32) × (lane.src1 < 2 ^ 32)

-- The sum of a lane and of its bit of VCC.
abbrev pub total : Vop2Lane → ℕ → ℕ → ℕ
total lane i vcc = lane.src0 + lane.src1 + bit i vcc

-- A lane's carry and its result, from its bit of VCC.
carries : ℕ → Vop2Lane → Bool
carries b lane = leb 0x100000000 (lane.src0 + lane.src1 + b)

sums : ℕ → Vop2Lane → Vop2Lane
sums b lane = record lane { vdst = u32 (lane.src0 + lane.src1 + b) }

-- One round.
addc_round :
    (i vcc : ℕ) (lane : Vop2Lane)
    → i < 64
    → HasWords lane
    → run_v_addc_u32 i vcc lane ≡ (put_bit vcc i (carries (bit i vcc) lane), sums (bit i vcc) lane)
unfolding run_v_addc_u32 carries sums
addc_round i vcc lane h words =
    let small : u64 (total lane i vcc) ≡ total lane i vcc = omega (arith, bit-lt i vcc) in
    rw (test_bit vcc i h, small, bit_and_mask 32 (total lane i vcc)) refl

carry : (t : ℕ) → t < 2 ^ 33 → to_nat (leb 0x100000000 t) ≡ t / 2 ^ 32
carry t h = ground arith

All-get_elem? :
    (lanes : List Vop2Lane) (i : ℕ) (lane : Vop2Lane)
    → All HasWords lanes
    → get_elem? lanes i ≡ some lane
    → HasWords lane
All-get_elem? [] i lane w e = cc
All-get_elem? (x ∷ xs) zero lane w e = let same : x ≡ lane = cc in rw same at w.0
All-get_elem? (x ∷ xs) (suc i) lane w e = All-get_elem? xs i lane w.1 e

-- For at most 64 lanes of 32-bit words, any set of active lanes and any VCC: the loop of V_ADDC_U32 returns;
-- in an active lane VDST is the low word of SRC0 + SRC1 + the lane's bit of VCC before the loop, and the
-- lane's bit of VCC after it is the carry of that sum; an inactive lane and its bit of VCC are unchanged.
pub addc_u32-lanes :
    (floats : Floats) (clamp : Bool) (active : ℕ → Bool) (lanes : List Vop2Lane) (vcc : ℕ)
    → All HasWords lanes
    → length lanes ≤ 64
    → vcc < 2 ^ 64
    → (r : ℕ × List Vop2Lane) × (for_lanes active (run_vop2_op floats v_addc_u32 clamp) 0 vcc lanes
        ≡ ok r)
      × ((i : ℕ) (lane : Vop2Lane)
          → get_elem? lanes i ≡ some lane
          → (get_elem? r.1 i
              ≡ some (if active i then record lane { vdst = u32 (total lane i vcc) } else lane))
            × (bit i r.0 ≡ (if active i then total lane i vcc / 2 ^ 32 else bit i vcc)))
unfolding run_vop2_op carries sums
addc_u32-lanes floats clamp active lanes vcc words few small =
    let (r, ran, done) =
      for_lanes-bits (λ (s : ℕ). s) (λ (s w : ℕ). w) (λ s w. refl) active
        (run_vop2_op floats v_addc_u32 clamp) carries sums HasWords
        (λ i s lane h w. ap ok (addc_round i s lane h w)) vcc lanes words few small in
    (
      r,
      ran,
      λ i lane e.
          let (lane_after, bit_after) = done i lane e in
          let small_sum : total lane i vcc < 2 ^ 33 =
            omega (arith, All-get_elem? lanes i lane words e, bit-lt i vcc) in
          (lane_after, rw (carry (total lane i vcc) small_sum) at bit_after),
    )
