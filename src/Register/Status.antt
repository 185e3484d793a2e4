-- ===== src/Register/Status.antt =====
-- struct StatusReg. A setter `f(x)` of the source is `set_f` here.
use red_o_lator.Base.{ℕ, Bool, bit_and, u8, ◌>>>◌}
use red_o_lator.Register.{bitset_get, bitset_set}

pub record StatusReg : Type 0 where
  pub value : ℕ

unfoldable pub spi_prio : StatusReg → ℕ
spi_prio s = u8 (bit_and (s.value >>> 1) 0x3)

unfoldable pub wave_prio : StatusReg → ℕ
wave_prio s = u8 (bit_and (s.value >>> 3) 0x3)

unfoldable pub scc : StatusReg → Bool
unfolding bitset_get
scc r = bitset_get r.value 0

unfoldable pub set_scc : StatusReg → Bool → StatusReg
unfolding bitset_set
set_scc r b = record r { value = bitset_set r.value 0 b }

unfoldable pub priv : StatusReg → Bool
unfolding bitset_get
priv r = bitset_get r.value 5

unfoldable pub set_priv : StatusReg → Bool → StatusReg
unfolding bitset_set
set_priv r b = record r { value = bitset_set r.value 5 b }

unfoldable pub trap_en : StatusReg → Bool
unfolding bitset_get
trap_en r = bitset_get r.value 6

unfoldable pub ttrace_en : StatusReg → Bool
unfolding bitset_get
ttrace_en r = bitset_get r.value 7

unfoldable pub export_rdy : StatusReg → Bool
unfolding bitset_get
export_rdy r = bitset_get r.value 8

unfoldable pub execz : StatusReg → Bool
unfolding bitset_get
execz r = bitset_get r.value 9

unfoldable pub vccz : StatusReg → Bool
unfolding bitset_get
vccz r = bitset_get r.value 10

unfoldable pub in_tg : StatusReg → Bool
unfolding bitset_get
in_tg r = bitset_get r.value 11

unfoldable pub in_barrier : StatusReg → Bool
unfolding bitset_get
in_barrier r = bitset_get r.value 12

unfoldable pub halt : StatusReg → Bool
unfolding bitset_get
halt r = bitset_get r.value 13

unfoldable pub set_halt : StatusReg → Bool → StatusReg
unfolding bitset_set
set_halt r b = record r { value = bitset_set r.value 13 b }

unfoldable pub trap : StatusReg → Bool
unfolding bitset_get
trap r = bitset_get r.value 14

unfoldable pub ttrace_cu_en : StatusReg → Bool
unfolding bitset_get
ttrace_cu_en r = bitset_get r.value 15

unfoldable pub valid : StatusReg → Bool
unfolding bitset_get
valid r = bitset_get r.value 16

unfoldable pub ecc_err : StatusReg → Bool
unfolding bitset_get
ecc_err r = bitset_get r.value 17

unfoldable pub skip_export : StatusReg → Bool
unfolding bitset_get
skip_export r = bitset_get r.value 18

unfoldable pub perf_en : StatusReg → Bool
unfolding bitset_get
perf_en r = bitset_get r.value 19

unfoldable pub cond_dbg_user : StatusReg → Bool
unfolding bitset_get
cond_dbg_user r = bitset_get r.value 20

unfoldable pub cond_dbg_sys : StatusReg → Bool
unfolding bitset_get
cond_dbg_sys r = bitset_get r.value 21

unfoldable pub allow_replay : StatusReg → Bool
unfolding bitset_get
allow_replay r = bitset_get r.value 22

unfoldable pub must_export : StatusReg → Bool
unfolding bitset_get
must_export r = bitset_get r.value 27
