-- ===== src/Alu/Sop2/Extract.antt =====
-- `s_bfe_u32` extracts a bit field.
use red_o_lator.Base.{
  ℕ, ◌+◌, ◌-◌, ◌*◌, ◌/◌, ◌%◌, ◌^◌, ◌≤◌, ◌<◌, ◌≡◌, ◌↔◌, ◌≢◌, arith, u32, ltb, ◌==◌, if◌then◌else◌,
  true, sym, ap,
}
use native.Mathlib.Decide.{dec_lt, ℕ_discrete}
use native.Mathlib.Nat.{one-le-pow, pow-le-pow_right, mod-eq_of_lt, le_trans, div-lt_iff_lt-mul}
use red_o_lator.Base.BitLaws.{bit_and_mask}
use red_o_lator.Base.Fields.{pow-add, field_lem}
use red_o_lator.Wavefront.States.{WfStateSop2}
use red_o_lator.Alu.Sop2.Shift.{run_s_bfe_u32}

-- The two fields of the second operand.
abbrev pub field_shift : WfStateSop2 → ℕ
field_shift s = s.ssrc1 % 32

abbrev pub field_length : WfStateSop2 → ℕ
field_length s = s.ssrc1 / 2 ^ 16 % 128

extract : ℕ → ℕ → ℕ → ℕ
extract x shift len =
    if len == 0
    then 0
    else if ltb (shift + len) 32
    then u32 (x * 2 ^ (32 - shift - len)) / 2 ^ (32 - len)
    else x / 2 ^ shift

inside :
    (x shift len : ℕ)
    → shift + len < 32
    → u32 (x * 2 ^ (32 - shift - len)) / 2 ^ (32 - len) ≡ x / 2 ^ shift % 2 ^ len
inside x shift len h =
    let k = 32 - shift - len in
    let width : 2 ^ k * (2 ^ shift * 2 ^ len) ≡ 2 ^ 32 =
      rw (← pow-add shift len, ← pow-add k (shift + len))
        (ap (λ t. 2 ^ t) {y = 32} (omega arith)) in
    let part : 2 ^ k * 2 ^ shift ≡ 2 ^ (32 - len) =
      rw (← pow-add k shift) (ap (λ t. 2 ^ t) (omega arith)) in
    rw (← width, ← part)
      (field_lem x (2 ^ k) (2 ^ shift) (2 ^ len) (one-le-pow k 2 (omega arith))
        (one-le-pow shift 2 (omega arith)) (one-le-pow len 2 (omega arith)))

outside :
    (x shift len : ℕ) → x < 2 ^ 32 → 32 ≤ shift + len → x / 2 ^ shift ≡ x / 2 ^ shift % 2 ^ len
outside x shift len hx h =
    sym (mod-eq_of_lt ((div-lt_iff_lt-mul (one-le-pow shift 2 (omega arith))).1 small))
  where
    small : x < 2 ^ len * 2 ^ shift
    small = rw (← pow-add len shift) (
        le_trans hx
          (pow-le-pow_right {n = 2} (omega arith) {i = 32} {j = len + shift} (omega arith)))

extract_lem : (x shift len : ℕ) → x < 2 ^ 32 → extract x shift len ≡ x / 2 ^ shift % 2 ^ len
unfolding extract
extract_lem x shift len hx = elim (ℕ_discrete len 0) [
  | yes e ↦ rw e (ground arith)
  | no n ↦ elim (dec_lt (shift + len) 32) [
    | yes p ↦ ground (arith, inside x shift len p)
    | no q ↦ ground (arith, outside x shift len hx (omega arith))
  ]
]

-- For every pair of operands, `s_bfe_u32` stores the field of `length` bits (bits 16 to 22 of the
-- second operand) that starts at bit `shift` (its low five bits) of the first operand's low word,
-- also where the field is empty or reaches past the word, and sets SCC exactly when that is not zero.
pub bfe_u32_lem :
    (s : WfStateSop2)
    → let r = run_s_bfe_u32 s in
      (r.sdst ≡ u32 s.ssrc0 / 2 ^ field_shift s % 2 ^ field_length s)
      × ((r.scc ≡ true) ↔ (r.sdst ≢ 0))
unfolding run_s_bfe_u32 extract
bfe_u32_lem s =
    let shift_byte : s.ssrc1 % 32 % 256 ≡ s.ssrc1 % 32 = omega arith in
    let length_byte : s.ssrc1 / 2 ^ 16 % 128 % 256 ≡ s.ssrc1 / 2 ^ 16 % 128 = omega arith in
    (
      rw (bit_and_mask 5, bit_and_mask 7, shift_byte, length_byte)
          (extract_lem (u32 s.ssrc0) (field_shift s) (field_length s) (omega arith)),
      ground arith,
    )
