-- ===== src/Register/Mode.antt =====
-- struct ModeReg. A setter `f(x)` of the source is `set_f` here.
use red_o_lator.Base.{ℕ, Bool, bit_and, bit_or, u8, u32, ◌<<<◌, ◌>>>◌}
use red_o_lator.Register.{bitset_get, bitset_set}

pub record ModeReg : Type 0 where
  pub value : ℕ

unfoldable pub fp_round : ModeReg → ℕ
fp_round m = u8 (bit_and m.value 0xe)

unfoldable pub fp_denorm : ModeReg → ℕ
fp_denorm m = u8 (bit_and (m.value >>> 4) 0xe)

unfoldable pub excp_en : ModeReg → ℕ
excp_en m = u8 (bit_and (m.value >>> 12) 0x7f)

unfoldable pub csp : ModeReg → ℕ
csp m = u8 (bit_and (m.value >>> 29) 0xe)

unfoldable pub set_fp_round : ModeReg → ℕ → ModeReg
set_fp_round m i = record m { value = bit_or m.value (bit_and i 0xe) }

unfoldable pub set_fp_denorm : ModeReg → ℕ → ModeReg
set_fp_denorm m i = record m { value = bit_or m.value (u32 (bit_and i 0xe <<< 4)) }

unfoldable pub set_excp_en : ModeReg → ℕ → ModeReg
set_excp_en m i = record m { value = bit_or m.value (u32 (bit_and i 0x3f <<< 12)) }

unfoldable pub set_csp : ModeReg → ℕ → ModeReg
set_csp m i = record m { value = bit_or m.value (u32 (bit_and i 0xe <<< 29)) }

unfoldable pub dx10_clamp : ModeReg → Bool
unfolding bitset_get
dx10_clamp r = bitset_get r.value 8

unfoldable pub set_dx10_clamp : ModeReg → Bool → ModeReg
unfolding bitset_set
set_dx10_clamp r b = record r { value = bitset_set r.value 8 b }

unfoldable pub ieee : ModeReg → Bool
unfolding bitset_get
ieee r = bitset_get r.value 9

unfoldable pub set_ieee : ModeReg → Bool → ModeReg
unfolding bitset_set
set_ieee r b = record r { value = bitset_set r.value 9 b }

unfoldable pub lod_clamped : ModeReg → Bool
unfolding bitset_get
lod_clamped r = bitset_get r.value 10

unfoldable pub set_lod_clamped : ModeReg → Bool → ModeReg
unfolding bitset_set
set_lod_clamped r b = record r { value = bitset_set r.value 10 b }

unfoldable pub debug : ModeReg → Bool
unfolding bitset_get
debug r = bitset_get r.value 11

unfoldable pub set_debug : ModeReg → Bool → ModeReg
unfolding bitset_set
set_debug r b = record r { value = bitset_set r.value 11 b }

unfoldable pub fp16_ovfl : ModeReg → Bool
unfolding bitset_get
fp16_ovfl r = bitset_get r.value 23

unfoldable pub set_fp16_ovfl : ModeReg → Bool → ModeReg
unfolding bitset_set
set_fp16_ovfl r b = record r { value = bitset_set r.value 23 b }

unfoldable pub pops_packer0 : ModeReg → Bool
unfolding bitset_get
pops_packer0 r = bitset_get r.value 24

unfoldable pub set_pops_packer0 : ModeReg → Bool → ModeReg
unfolding bitset_set
set_pops_packer0 r b = record r { value = bitset_set r.value 24 b }

unfoldable pub pops_packer1 : ModeReg → Bool
unfolding bitset_get
pops_packer1 r = bitset_get r.value 25

unfoldable pub set_pops_packer1 : ModeReg → Bool → ModeReg
unfolding bitset_set
set_pops_packer1 r b = record r { value = bitset_set r.value 25 b }

unfoldable pub disable_perf : ModeReg → Bool
unfolding bitset_get
disable_perf r = bitset_get r.value 26

unfoldable pub set_disable_perf : ModeReg → Bool → ModeReg
unfolding bitset_set
set_disable_perf r b = record r { value = bitset_set r.value 26 b }

unfoldable pub gpr_idx_en : ModeReg → Bool
unfolding bitset_get
gpr_idx_en r = bitset_get r.value 27

unfoldable pub set_gpr_idx_en : ModeReg → Bool → ModeReg
unfolding bitset_set
set_gpr_idx_en r b = record r { value = bitset_set r.value 27 b }

unfoldable pub vskip : ModeReg → Bool
unfolding bitset_get
vskip r = bitset_get r.value 28

unfoldable pub set_vskip : ModeReg → Bool → ModeReg
unfolding bitset_set
set_vskip r b = record r { value = bitset_set r.value 28 b }
