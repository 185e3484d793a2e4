-- ===== src/Alu/Sop2/Split.antt =====
-- The fork: how `s_cbranch_g_fork` splits EXEC, and what it does to MODE.
use red_o_lator.Base.{◌+◌, ◌/◌, ◌≡◌, ◌<◌, ◌≤◌, ◌^◌, arith, u8, ok}
use red_o_lator.Base.BitLaws.{bit_and-le_right}
use red_o_lator.Register.Mode.{ModeReg, csp, set_csp}
use red_o_lator.Register.Csp.{set_csp_step}
use red_o_lator.Wavefront.{Wavefront, set_sgpr_pair}
use red_o_lator.Wavefront.States.{WfStateSop2}
use red_o_lator.Alu.Sop2.Fork.{run_s_cbranch_g_fork}

csp-lt : (m : ModeReg) → csp m ≤ 14
unfolding csp
csp-lt m = omega (arith, bit_and-le_right (m.value / 2 ^ 29) 14)

next_mode : (m : ModeReg) → m.value < 2 ^ 32 → set_csp m (u8 (csp m + 1)) ≡ m
next_mode m h =
    let small : u8 (csp m + 1) ≡ csp m + 1 = omega (arith, csp-lt m) in rw small (set_csp_step m h)

-- Whenever `s_cbranch_g_fork` completes, on each of its four branches, MODE with the stack pointer in
-- it is what it was, for every 32-bit value of MODE.
pub cbranch_g_fork-mode :
    (s s' : WfStateSop2) (wf wf' : Wavefront)
    → s.mode.value < 2 ^ 32
    → run_s_cbranch_g_fork s wf ≡ ok (s', wf')
    → s'.mode ≡ s.mode
unfolding run_s_cbranch_g_fork set_sgpr_pair
cbranch_g_fork-mode s s' wf wf' h e = ground (arith, next_mode s.mode h)
