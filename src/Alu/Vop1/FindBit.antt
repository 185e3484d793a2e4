-- ===== src/Alu/Vop1/FindBit.antt =====
-- The bit searches of VOP1.
use red_o_lator.Base.{
  ℕ, ◌-◌, ◌*◌, ◌%◌, ◌^◌, ◌<◌, ◌≡◌, ◌≢◌, ◌⊎◌, inl, inr, refl, arith, false, Option, none, some,
  bit_and, ◌!=◌, of_int, Result, ok, fail, Fault,
}
use red_o_lator.Base.BitLaws.{bit}
use red_o_lator.Base.Searches.{FirstIn, LastBelow, find_up-FirstIn, find_down-LastBelow}
use red_o_lator.Wavefront.VectorStates.{Vop1Lane}
use red_o_lator.Alu.Sop1.Search.{bit_test, Lowest}
use red_o_lator.Alu.Vop1.{run_v_ffbh_u32, run_v_ffbl_b32, first_or_minus_one, stored_at}

test_fails : (x j : ℕ) → (bit_and (1 * 2 ^ j) x != 0) ≡ false → bit j x ≢ 1
test_fails x j f e = ground (arith, (bit_test x j).1 e)

-- The word has no bit set, and the instruction's loop shifts by 255.
abbrev pub NoBit : Vop1Lane → Result Vop1Lane → Type 0
NoBit lane r = (r ≡ fail Fault.undefined) × ((j : ℕ) → j < 32 → bit j lane.src0 ≢ 1)

-- Bit i is the highest one that is set, and the number of bits above it is stored.
abbrev pub TopBit : Vop1Lane → Result Vop1Lane → ℕ → Type 0
TopBit lane r i =
    (i < 32)
    × (r ≡ ok (record lane { vdst = 31 - i }))
    × (bit i lane.src0 ≡ 1)
    × ((j : ℕ) → i < j → j < 32 → bit j lane.src0 ≢ 1)

from_search :
    (lane : Vop1Lane) (o : Option ℕ)
    → LastBelow 32 (λ i. bit_and (1 * 2 ^ i) lane.src0 != 0) o
    → NoBit lane (stored_at lane o) ⊎ ((i : ℕ) × TopBit lane (stored_at lane o) i)
from_search lane none f = inl (refl, λ j p. test_fails lane.src0 j (f j p))
from_search lane (some i) f =
    inr (i, (f.0, refl, (bit_test lane.src0 i).0 f.1, λ j p q. test_fails lane.src0 j (f.2 j p q)))

-- For every lane: either no bit below 32 of SRC0 is set and `v_ffbh_u32` is undefined, or it stores how many
-- of these bits lie above the highest one that is set.
pub ffbh_u32-TopBit :
    (lane : Vop1Lane)
    → NoBit lane (run_v_ffbh_u32 lane) ⊎ ((i : ℕ) × TopBit lane (run_v_ffbh_u32 lane) i)
unfolding run_v_ffbh_u32
ffbh_u32-TopBit lane =
    from_search lane _ (find_down-LastBelow 32 (λ i. bit_and (1 * 2 ^ i) lane.src0 != 0))

minus_one_or :
    (x : ℕ) (o : Option ℕ)
    → FirstIn 0 32 (λ i. bit_and (1 * 2 ^ i) x != 0) o
    → Lowest 32 1 0xffffffffffffffff x (of_int 64 (first_or_minus_one o))
minus_one_or x none f = inl (refl, λ j p. test_fails x j (f j (omega arith) p))
minus_one_or x (some i) f =
    let small : i % 2 ^ 64 ≡ i = omega arith in
    rw small (inr (f.1, (bit_test x i).0 f.2, λ j p. test_fails x j (f.3 j (omega arith) p)))

-- For every lane, `v_ffbl_b32` stores the position of the lowest set bit below 32 of SRC0, or 64 ones if no
-- such bit is set.
pub ffbl_b32-Lowest :
    (lane : Vop1Lane) → Lowest 32 1 0xffffffffffffffff lane.src0 (run_v_ffbl_b32 lane).vdst
unfolding run_v_ffbl_b32
ffbl_b32-Lowest lane =
    minus_one_or lane.src0 _
      (find_up-FirstIn 32 0 32 (λ i. bit_and (1 * 2 ^ i) lane.src0 != 0) refl)
