-- ===== src/Register.antt =====
-- emulator/src/flow/register.h and register.cpp: the program counter, MODE and STATUS.
pub mod Mode
pub mod Status
pub mod Csp
pub mod Flags
use red_o_lator.Base.{
  ℕ, ◌+◌, ◌-◌, ◌*◌, ◌/◌, ◌%◌, ◌^◌, Bool, true, false, bit_and, bit_or, u64, ◌<<<◌, bit_not, get_bit,
  if◌then◌else◌, leb, ◌&&◌,
}

-- The enumerators of `RegisterType` that the code names, by their position in
-- common/model/instr/reg_info.h.
abbrev pub reg_s0 : ℕ
reg_s0 = 1

abbrev pub reg_s103 : ℕ
reg_s103 = 104

abbrev pub reg_exec : ℕ
reg_exec = 105

abbrev pub reg_scc : ℕ
reg_scc = 106

abbrev pub reg_vcc : ℕ
reg_vcc = 107

abbrev pub reg_m0 : ℕ
reg_m0 = 112

abbrev pub reg_v0 : ℕ
reg_v0 = 135

abbrev pub reg_v255 : ℕ
reg_v255 = 390

unfoldable pub is_s_reg : ℕ → Bool
is_s_reg reg = leb reg_s0 reg && leb reg reg_s103

unfoldable pub is_v_reg : ℕ → Bool
is_v_reg reg = leb reg_v0 reg && leb reg reg_v255

pub record ProgramCounter : Type 0 where
  pub value : ℕ
  pub used : Bool

unfoldable pub set_value : ProgramCounter → ℕ → ProgramCounter
set_value pc v = record pc { value = v; used = true }

unfoldable pub add : ProgramCounter → ℕ → ProgramCounter
add pc v = record pc { value = u64 (pc.value + v); used = true }

unfoldable pub hidden_add : ProgramCounter → ℕ → ProgramCounter
hidden_add pc v = record pc { value = u64 (pc.value + v) }

unfoldable pub was_used : ProgramCounter → Bool × ProgramCounter
was_used pc = (pc.used, record pc { used = false })

-- `std::bitset<32>`: `value[i]` and `value[i] = b`.
unfoldable pub bitset_get : ℕ → ℕ → Bool
unfolding get_bit
bitset_get value i = get_bit i value

unfoldable pub bitset_set : ℕ → ℕ → Bool → ℕ
bitset_set value i b = if b then bit_or value (1 <<< i) else bit_and value (bit_not 32 (1 <<< i))
