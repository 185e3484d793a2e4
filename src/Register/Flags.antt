-- ===== src/Register/Flags.antt =====
-- The single-bit fields of MODE.
use red_o_lator.Base.{
  ℕ, suc, ◌*◌, ◌^◌, ◌<◌, ◌≡◌, arith, refl, Bool, true, false, ◌==◌, if◌then◌else◌,
}
use native.Mathlib.Nat.{pow-suc, pow-le-pow_right, one-le-pow}
use red_o_lator.Base.BitLaws.{bit-lt, bit-bit_and, bit-bit_or, get_bit-eq}
use red_o_lator.Base.BitOps.{bit-pow, bit-bit_not}
use red_o_lator.Register.{bitset_get, bitset_set}
use red_o_lator.Register.Mode.{
  ModeReg, dx10_clamp, set_dx10_clamp, ieee, set_ieee, lod_clamped, set_lod_clamped, debug,
  set_debug, fp16_ovfl, set_fp16_ovfl, pops_packer0, set_pops_packer0, pops_packer1,
  set_pops_packer1, disable_perf, set_disable_perf, gpr_idx_en, set_gpr_idx_en, vskip, set_vskip,
}

power-lt : (j : ℕ) → j < 32 → 2 ^ j < 2 ^ 32
power-lt j h = omega (
  arith,
  pow-suc 2 j,
  pow-le-pow_right {n = 2} (omega arith) {i = suc j} {j = 32} (omega arith),
  one-le-pow j 2,
)

bitset_get-set :
    (v i j : ℕ) (b : Bool)
    → i < 32
    → j < 32
    → bitset_get (bitset_set v j b) i ≡ (if i == j then b else bitset_get v i)
unfolding bitset_get bitset_set
bitset_get-set v i j true hi hj =
    let one : 1 * 2 ^ j ≡ 2 ^ j = omega arith in
    rw (get_bit-eq, get_bit-eq, bit-bit_or, one, bit-pow) (ground (arith, bit-lt i v))
bitset_get-set v i j false hi hj =
    let one : 1 * 2 ^ j ≡ 2 ^ j = omega arith in
    rw (get_bit-eq, get_bit-eq, bit-bit_and, one)
      (ground (arith, bit-lt i v, bit-bit_not 32 i (2 ^ j) (power-lt j hj) hi, bit-pow i j))

-- The fields, each with its getter, its setter and its bit.
pub data ModeFlag : Type 0 where
  flag_dx10_clamp flag_ieee flag_lod_clamped flag_debug flag_fp16_ovfl : ModeFlag
  flag_pops_packer0 flag_pops_packer1 flag_disable_perf flag_gpr_idx_en flag_vskip : ModeFlag

unfoldable pub get_flag : ModeFlag → ModeReg → Bool
unfolding dx10_clamp ieee lod_clamped debug fp16_ovfl pops_packer0 pops_packer1 disable_perf
    gpr_idx_en vskip
get_flag flag_dx10_clamp m = dx10_clamp m
get_flag flag_ieee m = ieee m
get_flag flag_lod_clamped m = lod_clamped m
get_flag flag_debug m = debug m
get_flag flag_fp16_ovfl m = fp16_ovfl m
get_flag flag_pops_packer0 m = pops_packer0 m
get_flag flag_pops_packer1 m = pops_packer1 m
get_flag flag_disable_perf m = disable_perf m
get_flag flag_gpr_idx_en m = gpr_idx_en m
get_flag flag_vskip m = vskip m

unfoldable pub set_flag : ModeFlag → ModeReg → Bool → ModeReg
unfolding set_dx10_clamp set_ieee set_lod_clamped set_debug set_fp16_ovfl set_pops_packer0
    set_pops_packer1 set_disable_perf set_gpr_idx_en set_vskip
set_flag flag_dx10_clamp m b = set_dx10_clamp m b
set_flag flag_ieee m b = set_ieee m b
set_flag flag_lod_clamped m b = set_lod_clamped m b
set_flag flag_debug m b = set_debug m b
set_flag flag_fp16_ovfl m b = set_fp16_ovfl m b
set_flag flag_pops_packer0 m b = set_pops_packer0 m b
set_flag flag_pops_packer1 m b = set_pops_packer1 m b
set_flag flag_disable_perf m b = set_disable_perf m b
set_flag flag_gpr_idx_en m b = set_gpr_idx_en m b
set_flag flag_vskip m b = set_vskip m b

abbrev pub flag_bit : ModeFlag → ℕ
flag_bit flag_dx10_clamp = 8
flag_bit flag_ieee = 9
flag_bit flag_lod_clamped = 10
flag_bit flag_debug = 11
flag_bit flag_fp16_ovfl = 23
flag_bit flag_pops_packer0 = 24
flag_bit flag_pops_packer1 = 25
flag_bit flag_disable_perf = 26
flag_bit flag_gpr_idx_en = 27
flag_bit flag_vskip = 28

flag_bit-lt : (f : ModeFlag) → flag_bit f < 32
flag_bit-lt flag_dx10_clamp = omega arith
flag_bit-lt flag_ieee = omega arith
flag_bit-lt flag_lod_clamped = omega arith
flag_bit-lt flag_debug = omega arith
flag_bit-lt flag_fp16_ovfl = omega arith
flag_bit-lt flag_pops_packer0 = omega arith
flag_bit-lt flag_pops_packer1 = omega arith
flag_bit-lt flag_disable_perf = omega arith
flag_bit-lt flag_gpr_idx_en = omega arith
flag_bit-lt flag_vskip = omega arith

get_flag-eq : (f : ModeFlag) (m : ModeReg) → get_flag f m ≡ bitset_get m.value (flag_bit f)
unfolding get_flag
get_flag-eq flag_dx10_clamp m = refl
get_flag-eq flag_ieee m = refl
get_flag-eq flag_lod_clamped m = refl
get_flag-eq flag_debug m = refl
get_flag-eq flag_fp16_ovfl m = refl
get_flag-eq flag_pops_packer0 m = refl
get_flag-eq flag_pops_packer1 m = refl
get_flag-eq flag_disable_perf m = refl
get_flag-eq flag_gpr_idx_en m = refl
get_flag-eq flag_vskip m = refl

set_flag-value :
    (f : ModeFlag) (m : ModeReg) (b : Bool)
    → (set_flag f m b).value ≡ bitset_set m.value (flag_bit f) b
unfolding set_flag
set_flag-value flag_dx10_clamp m b = refl
set_flag-value flag_ieee m b = refl
set_flag-value flag_lod_clamped m b = refl
set_flag-value flag_debug m b = refl
set_flag-value flag_fp16_ovfl m b = refl
set_flag-value flag_pops_packer0 m b = refl
set_flag-value flag_pops_packer1 m b = refl
set_flag-value flag_disable_perf m b = refl
set_flag-value flag_gpr_idx_en m b = refl
set_flag-value flag_vskip m b = refl

-- For any two of the ten single-bit fields of MODE and every value of MODE: after the setter of one
-- field has stored a value, the getter of that field returns it, and the getter of any other field
-- returns what it did before.
pub get_flag-set_flag :
    (f g : ModeFlag) (m : ModeReg) (b : Bool)
    → get_flag f (set_flag g m b) ≡ (if flag_bit f == flag_bit g then b else get_flag f m)
get_flag-set_flag f g m b =
    rw (get_flag-eq f (set_flag g m b), get_flag-eq f m, set_flag-value g m b)
      (bitset_get-set m.value (flag_bit f) (flag_bit g) b (flag_bit-lt f) (flag_bit-lt g))
