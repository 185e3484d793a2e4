-- ===== src/Alu/Sop1/Ones.antt =====
-- What `s_bcnt0` and `s_bcnt1` store.
use red_o_lator.Base.{ℕ, zero, suc, ◌+◌, ◌-◌, ◌/◌, ◌%◌, ◌^◌, ◌<◌, ◌≡◌, refl, arith, u32, bit_not}
use native.Mathlib.Nat.{pow-suc, mod-eq_of_lt}
use red_o_lator.Util.Fields.{popcount}
use red_o_lator.Util.BitCount.{bit_count32-popcount, bit_count64-popcount}
use red_o_lator.Wavefront.States.{WfStateSop1}
use red_o_lator.Alu.Sop1.Count.{
  run_s_bcnt0_i32_b32, run_s_bcnt0_i32_b64, run_s_bcnt1_i32_b32, run_s_bcnt1_i32_b64,
}

not_small : (w n : ℕ) → n < 2 ^ w → bit_not w n ≡ 2 ^ w - 1 - n
not_small w n h = rw (mod-eq_of_lt h) refl

-- A word and its complement have as many ones together as the word has bits.
popcount_complement : (w n : ℕ) → n < 2 ^ w → popcount w (2 ^ w - 1 - n) + popcount w n ≡ w
unfolding popcount
popcount_complement zero n h = omega arith
popcount_complement (suc w) n h =
    let twice = pow-suc 2 w in
    let half : (2 ^ suc w - 1 - n) / 2 ≡ 2 ^ w - 1 - n / 2 = omega (arith, twice) in
    let low : (2 ^ suc w - 1 - n) % 2 + n % 2 ≡ 1 = omega (arith, twice) in
    rw half (omega (arith, low, popcount_complement w (n / 2) (omega (arith, twice))))

popcount-bit_not : (w n : ℕ) → n < 2 ^ w → popcount w (bit_not w n) + popcount w n ≡ w
popcount-bit_not w n h = rw (not_small w n h) (popcount_complement w n h)

-- For every state, `s_bcnt1_i32_b32` stores the number of ones of the operand's low word, and this
-- and what `s_bcnt0_i32_b32` stores are 32 together.
pub bcnt_b32_lem :
    (s : WfStateSop1)
    → ((run_s_bcnt1_i32_b32 s).sdst ≡ popcount 32 (u32 s.ssrc0))
      × ((run_s_bcnt0_i32_b32 s).sdst + (run_s_bcnt1_i32_b32 s).sdst ≡ 32)
unfolding run_s_bcnt1_i32_b32 run_s_bcnt0_i32_b32
bcnt_b32_lem s =
    let ones = bit_count32-popcount (u32 s.ssrc0) (omega arith) in
    let zeros = bit_count32-popcount (bit_not 32 (u32 s.ssrc0)) (omega arith) in
    (ones, omega (arith, ones, zeros, popcount-bit_not 32 (u32 s.ssrc0) (omega arith)))

-- For every 64-bit operand, `s_bcnt1_i32_b64` stores the number of its ones, and this and what
-- `s_bcnt0_i32_b64` stores are 64 together.
pub bcnt_b64_lem :
    (s : WfStateSop1)
    → s.ssrc0 < 2 ^ 64
    → ((run_s_bcnt1_i32_b64 s).sdst ≡ popcount 64 s.ssrc0)
      × ((run_s_bcnt0_i32_b64 s).sdst + (run_s_bcnt1_i32_b64 s).sdst ≡ 64)
unfolding run_s_bcnt1_i32_b64 run_s_bcnt0_i32_b64
bcnt_b64_lem s h =
    let ones = bit_count64-popcount s.ssrc0 h in
    let zeros = bit_count64-popcount (bit_not 64 s.ssrc0) (omega arith) in
    (ones, omega (arith, ones, zeros, popcount-bit_not 64 s.ssrc0 h))

-- For every 64-bit operand: each `s_bcnt1` stores the number of ones of its word, and this and what the
-- `s_bcnt0` of the same width stores are the width together. The word is the low half for b32, the operand for
-- b64.
pub bcnt_lem :
    (s : WfStateSop1)
    → s.ssrc0 < 2 ^ 64
    → (((run_s_bcnt1_i32_b32 s).sdst ≡ popcount 32 (u32 s.ssrc0))
        × ((run_s_bcnt0_i32_b32 s).sdst + (run_s_bcnt1_i32_b32 s).sdst ≡ 32))
      × (((run_s_bcnt1_i32_b64 s).sdst ≡ popcount 64 s.ssrc0)
          × ((run_s_bcnt0_i32_b64 s).sdst + (run_s_bcnt1_i32_b64 s).sdst ≡ 64))
bcnt_lem s h = (bcnt_b32_lem s, bcnt_b64_lem s h)
