-- ===== src/Alu/Sop1/Lanes.antt =====
-- The `saveexec` instructions, one work item at a time.
use red_o_lator.Base.{
  ℕ, ◌+◌, ◌-◌, ◌%◌, ◌^◌, ◌<◌, ◌≡◌, arith, refl, min, max, bit_and, bit_or, bit_xor, bit_not, ◌!=◌,
}
use red_o_lator.Base.BitLaws.{
  bit, bit-bit_and, bit-bit_or, bit-bit_xor, bit_or-lt, bit_xor-lt, bit_and-le_left,
}
use red_o_lator.Base.BitOps.{bit-bit_not}
use red_o_lator.Wavefront.States.{WfStateSop1}
use red_o_lator.Alu.Sop1.Exec.{
  run_s_and_saveexec_b64, run_s_andn1_saveexec_b64, run_s_andn2_saveexec_b64,
  run_s_nand_saveexec_b64, run_s_nor_saveexec_b64, run_s_or_saveexec_b64, run_s_orn2_saveexec_b64,
  run_s_xnor_saveexec_b64, run_s_xor_saveexec_b64,
}

-- The new mask has this bit for a lane; the destination gets the old mask.
abbrev pub Saves : (WfStateSop1 → WfStateSop1) → WfStateSop1 → ℕ → ℕ → Type 0
Saves run s i lane =
    (bit i (run s).exec ≡ lane) × ((run s).sdst ≡ s.exec) × ((run s).scc ≡ ((run s).exec != 0))

-- For 64-bit masks and every lane i below 64, with a and b the lane's bits of the operand and of
-- EXEC: the `saveexec` instructions give the lane a ∧ b, a ∨ b, a ⊕ b, the complements of these
-- three, ¬a ∧ b (`andn1`) and a ∧ ¬b (`andn2`); each stores the old EXEC and sets SCC if the new one
-- is not 0.
pub saveexec_lanes :
    (s : WfStateSop1) (i : ℕ)
    → s.ssrc0 < 2 ^ 64
    → s.exec < 2 ^ 64
    → i < 64
    → let a = bit i s.ssrc0 in
      let b = bit i s.exec in
      Saves run_s_and_saveexec_b64 s i (min a b)
      × Saves run_s_or_saveexec_b64 s i (max a b)
      × Saves run_s_xor_saveexec_b64 s i ((a + b) % 2)
      × Saves run_s_nand_saveexec_b64 s i (1 - min a b)
      × Saves run_s_nor_saveexec_b64 s i (1 - max a b)
      × Saves run_s_xnor_saveexec_b64 s i (1 - (a + b) % 2)
      × Saves run_s_andn1_saveexec_b64 s i (min (1 - a) b)
      × Saves run_s_andn2_saveexec_b64 s i (min a (1 - b))
unfolding run_s_and_saveexec_b64 run_s_andn1_saveexec_b64 run_s_andn2_saveexec_b64
    run_s_nand_saveexec_b64 run_s_nor_saveexec_b64 run_s_or_saveexec_b64 run_s_xnor_saveexec_b64
    run_s_xor_saveexec_b64
saveexec_lanes s i h k l =
    let a = s.ssrc0 in
    let b = s.exec in
    let not_lane : (x : ℕ) → x < 2 ^ 64 → bit i (bit_not 64 x) ≡ 1 - bit i x =
      λ x p. omega (arith, bit-bit_not 64 i x p l) in
    let and_lt : bit_and a b < 2 ^ 64 = omega (arith, bit_and-le_left a b) in
    (
      (bit-bit_and i a b, refl, refl),
      (bit-bit_or i a b, refl, refl),
      (bit-bit_xor i a b, refl, refl),
      (rw (not_lane (bit_and a b) and_lt, bit-bit_and i a b) refl, refl, refl),
      (rw (not_lane (bit_or a b) (bit_or-lt 64 a b h k), bit-bit_or i a b) refl, refl, refl),
      (rw (not_lane (bit_xor a b) (bit_xor-lt 64 a b h k), bit-bit_xor i a b) refl, refl, refl),
      (rw (bit-bit_and i (bit_not 64 a) b, not_lane a h) refl, refl, refl),
      (rw (bit-bit_and i a (bit_not 64 b), not_lane b k) refl, refl, refl),
    )

-- `s_orn2_saveexec_b64` computes what `s_andn1_saveexec_b64` computes: for 64-bit masks and every
-- lane i below 64 the new EXEC has ¬a ∧ b, with a and b the lane's bits of the operand and of EXEC.
pub orn2_saveexec_lane :
    (s : WfStateSop1) (i : ℕ)
    → s.ssrc0 < 2 ^ 64
    → i < 64
    → (run_s_orn2_saveexec_b64 s ≡ run_s_andn1_saveexec_b64 s)
      × Saves run_s_orn2_saveexec_b64 s i (min (1 - bit i s.ssrc0) (bit i s.exec))
unfolding run_s_andn1_saveexec_b64 run_s_orn2_saveexec_b64
orn2_saveexec_lane s i h l =
    let a = s.ssrc0 in
    let b = s.exec in
    let not_lane : bit i (bit_not 64 a) ≡ 1 - bit i a = omega (arith, bit-bit_not 64 i a h l) in
    (refl, (rw (bit-bit_and i (bit_not 64 a) b, not_lane) refl, refl, refl))
