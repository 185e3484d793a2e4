-- ===== src/Alu/Sop1/Search.antt =====
-- The searches for a bit: what `s_ff0`, `s_ff1` and `s_flbit` store.
use red_o_lator.Base.{
  ℕ, ◌-◌, ◌*◌, ◌%◌, ◌^◌, ◌<◌, ◌≡◌, ◌⊎◌, inl, inr, ◌↔◌, ◌≢◌, arith, Bool, true, false, Option, none,
  some, u32, bit_and, ◌==◌, ◌!=◌, refl,
}
use native.Mathlib.Nat.{one-le-pow}
use red_o_lator.Base.BitLaws.{bit, bit-lt, bit_and_mask, bit_and_pow, bit_and_comm}
use red_o_lator.Base.Searches.{FirstIn, LastBelow, find_up-FirstIn, find_down-LastBelow}
use red_o_lator.Wavefront.States.{WfStateSop1}
use red_o_lator.Alu.Sop1.Count.{
  found_or, from_top, run_s_ff0_i32_b32, run_s_ff0_i32_b64, run_s_ff1_i32_b32, run_s_ff1_i32_b64,
  run_s_flbit_i32_b32, run_s_flbit_i32_b64,
}

-- The test of the loops reads bit i of the word.
pub bit_test : (x i : ℕ) → ((bit_and (1 * 2 ^ i) x != 0) ≡ true) ↔ (bit i x ≡ 1)
bit_test x i =
    let one : 1 * 2 ^ i ≡ 2 ^ i = omega arith in
    rw (one, bit_and_comm (2 ^ i) x, bit_and_pow) (ground (arith, bit-lt i x, one-le-pow i 2))

clear_test : (x i : ℕ) → ((bit_and (1 * 2 ^ i) x == 0) ≡ true) ↔ (bit i x ≡ 0)
clear_test x i =
    let one : 1 * 2 ^ i ≡ 2 ^ i = omega arith in
    rw (one, bit_and_comm (2 ^ i) x, bit_and_pow) (ground (arith, bit-lt i x, one-le-pow i 2))

-- What a search stores: all ones if no bit of the word has the wanted value, or else the index of a
-- bit that has it, with none below.
abbrev pub Lowest : (width wanted all_ones x stored : ℕ) → Type 0
Lowest width wanted all_ones x stored =
    ((stored ≡ all_ones) × ((j : ℕ) → j < width → bit j x ≢ wanted))
    ⊎ ((stored < width) × (bit stored x ≡ wanted) × ((j : ℕ) → j < stored → bit j x ≢ wanted))

-- The same from the top: how far the highest such bit lies below the top bit.
abbrev pub Highest : (width wanted all_ones x stored : ℕ) → Type 0
Highest width wanted all_ones x stored =
    ((stored ≡ all_ones) × ((j : ℕ) → j < width → bit j x ≢ wanted))
    ⊎ ((i : ℕ) × (i < width)
        × (stored ≡ width - 1 - i)
        × (bit i x ≡ wanted)
        × ((j : ℕ) → i < j → j < width → bit j x ≢ wanted))

module _ (width wanted ones x : ℕ) (test : ℕ → Bool)
    (reads : (i : ℕ) → (test i ≡ true) ↔ (bit i x ≡ wanted)) where
  fails : (j : ℕ) → test j ≡ false → bit j x ≢ wanted
  fails j f e = ground (arith, (reads j).1 e)

  lowest : (o : Option ℕ) → FirstIn 0 width test o → Lowest width wanted ones x (found_or ones o)
  lowest none f = inl (refl, λ j p. fails j (f j (omega arith) p))
  lowest (some i) f = inr (f.1, (reads i).0 f.2, λ j p. fails j (f.3 j (omega arith) p))

  highest :
      (o : Option ℕ)
      → LastBelow width test o
      → Highest width wanted ones x (found_or ones (from_top (width - 1) o))
  highest none f = inl (refl, λ j p. fails j (f j p))
  highest (some i) f = inr (i, f.0, refl, (reads i).0 f.1, λ j p q. fails j (f.2 j p q))

-- A mask of 32 ones keeps what a search over a word stores.
cut-Lowest :
    (wanted x stored : ℕ)
    → Lowest 32 wanted 0xffffffff x stored
    → Lowest 32 wanted 0xffffffff x (bit_and stored 0xffffffff)
cut-Lowest wanted x stored h =
    let small : stored % 2 ^ 32 ≡ stored = ground arith in rw (bit_and_mask 32, small) h

cut-Highest :
    (wanted x stored : ℕ)
    → Highest 32 wanted 0xffffffff x stored
    → Highest 32 wanted 0xffffffff x (bit_and stored 0xffffffff)
cut-Highest wanted x stored h =
    let small : stored % 2 ^ 32 ≡ stored = ground arith in rw (bit_and_mask 32, small) h

-- For every operand, `s_ff1_i32_b32` stores the position of the lowest set bit of the low word, or
-- all ones if it has no such bit.
pub ff1_i32_b32-Lowest :
    (s : WfStateSop1) → Lowest 32 1 0xffffffff (u32 s.ssrc0) (run_s_ff1_i32_b32 s).sdst
unfolding run_s_ff1_i32_b32
ff1_i32_b32-Lowest s = cut-Lowest 1 (u32 s.ssrc0) _ (
    lowest 32 1 0xffffffff (u32 s.ssrc0) _ (bit_test (u32 s.ssrc0)) _
      (find_up-FirstIn 32 0 32 (λ i. bit_and (1 * 2 ^ i) (u32 s.ssrc0) != 0) refl))

-- For every operand, `s_ff1_i32_b64` stores the position of the lowest set bit of the operand, or
-- all ones if it has no such bit.
pub ff1_i32_b64-Lowest :
    (s : WfStateSop1) → Lowest 64 1 0xffffffffffffffff s.ssrc0 (run_s_ff1_i32_b64 s).sdst
unfolding run_s_ff1_i32_b64
ff1_i32_b64-Lowest s =
    lowest 64 1 0xffffffffffffffff s.ssrc0 _ (bit_test s.ssrc0) _
      (find_up-FirstIn 64 0 64 (λ i. bit_and (1 * 2 ^ i) s.ssrc0 != 0) refl)

-- For every operand, `s_ff0_i32_b32` stores the position of the lowest clear bit of the low word, or
-- all ones if it has no such bit.
pub ff0_i32_b32-Lowest :
    (s : WfStateSop1) → Lowest 32 0 0xffffffff (u32 s.ssrc0) (run_s_ff0_i32_b32 s).sdst
unfolding run_s_ff0_i32_b32
ff0_i32_b32-Lowest s = cut-Lowest 0 (u32 s.ssrc0) _ (
    lowest 32 0 0xffffffff (u32 s.ssrc0) _ (clear_test (u32 s.ssrc0)) _
      (find_up-FirstIn 32 0 32 (λ i. bit_and (1 * 2 ^ i) (u32 s.ssrc0) == 0) refl))

-- For every operand, `s_ff0_i32_b64` stores the position of the lowest clear bit of the operand, or
-- all ones if it has no such bit.
pub ff0_i32_b64-Lowest :
    (s : WfStateSop1) → Lowest 64 0 0xffffffffffffffff s.ssrc0 (run_s_ff0_i32_b64 s).sdst
unfolding run_s_ff0_i32_b64
ff0_i32_b64-Lowest s =
    lowest 64 0 0xffffffffffffffff s.ssrc0 _ (clear_test s.ssrc0) _
      (find_up-FirstIn 64 0 64 (λ i. bit_and (1 * 2 ^ i) s.ssrc0 == 0) refl)

-- For every operand, `s_flbit_i32_b32` stores how many clear bits the low word has above its highest set bit, or
-- all ones if it has no such bit.
pub flbit_i32_b32-Highest :
    (s : WfStateSop1) → Highest 32 1 0xffffffff (u32 s.ssrc0) (run_s_flbit_i32_b32 s).sdst
unfolding run_s_flbit_i32_b32
flbit_i32_b32-Highest s = cut-Highest 1 (u32 s.ssrc0) _ (
    highest 32 1 0xffffffff (u32 s.ssrc0) _ (bit_test (u32 s.ssrc0)) _
      (find_down-LastBelow 32 (λ i. bit_and (1 * 2 ^ i) (u32 s.ssrc0) != 0)))

-- For every operand, `s_flbit_i32_b64` stores how many clear bits the operand has above its highest set bit, or
-- all ones if it has no such bit.
pub flbit_i32_b64-Highest :
    (s : WfStateSop1) → Highest 64 1 0xffffffffffffffff s.ssrc0 (run_s_flbit_i32_b64 s).sdst
unfolding run_s_flbit_i32_b64
flbit_i32_b64-Highest s =
    highest 64 1 0xffffffffffffffff s.ssrc0 _ (bit_test s.ssrc0) _
      (find_down-LastBelow 64 (λ i. bit_and (1 * 2 ^ i) s.ssrc0 != 0))

-- For every operand: each of the two `s_ff1` and the two `s_ff0` stores the position of the lowest set or
-- clear bit of its word, and each of the two `s_flbit` how many bits its word has above its highest set bit;
-- without such a bit each stores all ones. The word is the low half for b32, the operand for b64.
pub searches_lem :
    (s : WfStateSop1)
    → Lowest 32 1 0xffffffff (u32 s.ssrc0) (run_s_ff1_i32_b32 s).sdst
      × Lowest 64 1 0xffffffffffffffff s.ssrc0 (run_s_ff1_i32_b64 s).sdst
      × Lowest 32 0 0xffffffff (u32 s.ssrc0) (run_s_ff0_i32_b32 s).sdst
      × Lowest 64 0 0xffffffffffffffff s.ssrc0 (run_s_ff0_i32_b64 s).sdst
      × Highest 32 1 0xffffffff (u32 s.ssrc0) (run_s_flbit_i32_b32 s).sdst
      × Highest 64 1 0xffffffffffffffff s.ssrc0 (run_s_flbit_i32_b64 s).sdst
searches_lem s = (
  ff1_i32_b32-Lowest s,
  ff1_i32_b64-Lowest s,
  ff0_i32_b32-Lowest s,
  ff0_i32_b64-Lowest s,
  flbit_i32_b32-Highest s,
  flbit_i32_b64-Highest s,
)
