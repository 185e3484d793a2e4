-- ===== src/Alu/Sop1/Sources.antt =====
-- `get_sop1_state` takes the register of each operand, so a constant source is not accepted.
use red_o_lator.Base.{
  ◌≡◌, ◌≢◌, [], ◌∷◌, Result, ok, fail, ◌>>=◌, >>=-eq-ok, >>=-never, >>=-fail, fail-never, Fault,
}
use red_o_lator.Instruction.{Operand, get_reg, operand_at}
use red_o_lator.Wavefront.{Wavefront}
use red_o_lator.Wavefront.States.{WfStateSop1, get_sop1_state, read_u64}
use red_o_lator.Alu.Sop1.Run.{Sop1Key, run_sop1, start_one}

-- The operand holds no register.
abbrev pub IsConstant : Operand → Type 0
IsConstant operand = get_reg operand.value ≡ fail Fault.bad_variant

no_state :
    (wf : Wavefront) (dest src : Operand)
    → IsConstant src
    → (state : WfStateSop1) → get_sop1_state wf (dest ∷ src ∷ []) ≢ ok state
unfolding get_sop1_state operand_at
no_state wf dest src h = >>=-never (read_u64 wf (dest ∷ src ∷ []) 0) _ (λ sdst.
    >>=-never (read_u64 wf (dest ∷ src ∷ []) 1) _ (λ ssrc0.
      >>=-never (get_reg dest.value) _
        (λ dest_type. fail-never (>>=-fail (get_reg src.value) _ h))))

no_start :
    (wf : Wavefront) (dest src : Operand)
    → IsConstant src
    → (state : WfStateSop1) → start_one wf (dest ∷ src ∷ []) ≢ ok state
unfolding start_one
no_start wf dest src h state e =
    no_state wf dest src h _ (>>=-eq-ok (get_sop1_state wf (dest ∷ src ∷ [])) _ e).1

module _ (wf : Wavefront) (dest src : Operand) (h : IsConstant src) where
  after_state :
      (f : WfStateSop1 → Result Wavefront) (wf' : Wavefront)
      → (get_sop1_state wf (dest ∷ src ∷ []) >>= f) ≢ ok wf'
  after_state f wf' e =
      no_state wf dest src h _ (>>=-eq-ok (get_sop1_state wf (dest ∷ src ∷ [])) f e).1

  after_start :
      (f : WfStateSop1 → Result Wavefront) (wf' : Wavefront)
      → (start_one wf (dest ∷ src ∷ []) >>= f) ≢ ok wf'
  after_start f wf' e = no_start wf dest src h _ (>>=-eq-ok (start_one wf (dest ∷ src ∷ [])) f e).1

-- For every SOP1 instruction with two operands, the source a constant, and every wavefront: the
-- instruction does not complete.
pub run_sop1-constant :
    (key : Sop1Key) (wf : Wavefront) (dest src : Operand)
    → IsConstant src
    → (wf' : Wavefront) → run_sop1 key (dest ∷ src ∷ []) wf ≢ ok wf'
unfolding run_sop1
run_sop1-constant Sop1Key.s_cbranch_join wf dest src h wf' e = after_start wf dest src h _ wf' e
run_sop1-constant Sop1Key.s_set_gpr_idx_idx wf dest src h wf' e = after_start wf dest src h _ wf' e
run_sop1-constant Sop1Key.s_rfe_b64 wf dest src h wf' e = after_start wf dest src h _ wf' e
run_sop1-constant Sop1Key.s_setpc_b64 wf dest src h wf' e = after_start wf dest src h _ wf' e
run_sop1-constant Sop1Key.s_getpc_b64 wf dest src h wf' e = after_state wf dest src h _ wf' e
run_sop1-constant Sop1Key.s_movreld_b32 wf dest src h wf' e = after_state wf dest src h _ wf' e
run_sop1-constant Sop1Key.s_movreld_b64 wf dest src h wf' e = after_state wf dest src h _ wf' e
run_sop1-constant Sop1Key.s_movrels_b32 wf dest src h wf' e = after_state wf dest src h _ wf' e
run_sop1-constant Sop1Key.s_movrels_b64 wf dest src h wf' e = after_state wf dest src h _ wf' e
run_sop1-constant Sop1Key.unsupported_key wf dest src h wf' e = after_state wf dest src h _ wf' e
run_sop1-constant (Sop1Key.plain op) wf dest src h wf' e = after_state wf dest src h _ wf' e
