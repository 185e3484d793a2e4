-- ===== src/Wavefront/VectorStates.antt =====
-- emulator/src/flow/wf_state.h and wavefront.cpp: the states of the vector formats. The vectors `VDST`,
-- `SRC0`, … of a state are equally long and an instruction reads and writes them at the same index, so
-- a state keeps one list of lanes. `SRC2` is empty for an instruction of three operands.
use red_o_lator.Base.{
  ℕ, ◌+◌, Bool, ◌&&◌, List, [], ◌∷◌, Option, none, some, length, map, leb, ◌==◌, if◌then◌else◌,
  Result, ok, fail, Fault, assert, ◌>>=◌, ◌>>◌, for_items,
}
use red_o_lator.Register.{reg_vcc}
use red_o_lator.Register.Mode.{dx10_clamp}
use red_o_lator.Instruction.{Operand, operand_at, get_reg, is_register}
use red_o_lator.Util.{to_uin64_t}
use red_o_lator.Wavefront.{Wavefront, read_operand, write_data_to_gpr}

pub record Vop1Lane : Type 0 where
  pub vdst : ℕ
  pub src0 : ℕ

pub record Vop2Lane : Type 0 where
  pub vdst : ℕ
  pub src0 : ℕ
  pub src1 : ℕ

pub record WfStateVop2 : Type 0 where
  pub lanes : List Vop2Lane
  pub vcc : ℕ
  pub clamp : Bool

pub record Vop3Lane : Type 0 where
  pub vdst : ℕ
  pub src0 : ℕ
  pub src1 : ℕ
  pub src2 : Option ℕ

pub record WfStateVop3 : Type 0 where
  pub clamp : Bool
  pub lanes : List Vop3Lane
  pub vcc : ℕ

pub record VopcLane : Type 0 where
  pub src0 : ℕ
  pub src1 : ℕ

pub record WfStateVopc : Type 0 where
  pub exec : ℕ
  pub sdst : ℕ
  pub lanes : List VopcLane

-- `to_uin64_t(read_operand(*instruction[k], i))`
unfoldable pub read_lane : Wavefront → List Operand → ℕ → ℕ → Result ℕ
unfolding operand_at
read_lane wf operands k i = do
  operand ← operand_at operands k
  words ← read_operand wf operand (some i)
  to_uin64_t words

unfoldable pub vop1_lane : Wavefront → List Operand → ℕ → Result Vop1Lane
vop1_lane wf operands i = do
  vdst ← read_lane wf operands 0 i
  src0 ← read_lane wf operands 1 i
  ok (record { vdst = vdst; src0 = src0 })

unfoldable pub get_vop1_state : Wavefront → List Operand → Result (List Vop1Lane)
get_vop1_state wf operands = do
  assert (length operands == 2)
  for_items wf.size 0 (vop1_lane wf operands)

-- The loop that stores `VDST[i]`, `VDST[i + 1]`, … in every lane, active or not.
unfoldable pub write_lanes : List Operand → List ℕ → ℕ → Wavefront → Result Wavefront
unfolding operand_at
write_lanes operands [] i wf = ok wf
write_lanes operands (value ∷ values) i wf = do
  operand ← operand_at operands 0
  wf' ← write_data_to_gpr wf operand value (some i)
  write_lanes operands values (i + 1) wf'

unfoldable pub update_with_vop1_state : Wavefront → List Operand → List Vop1Lane → Result Wavefront
update_with_vop1_state wf operands lanes = write_lanes operands (map (λ lane. lane.vdst) lanes) 0 wf

-- The sources stand at the operands `a` and `b`.
unfoldable pub vop2_lane : Wavefront → List Operand → ℕ → ℕ → ℕ → Result Vop2Lane
vop2_lane wf operands a b i = do
  vdst ← read_lane wf operands 0 i
  src0 ← read_lane wf operands a i
  src1 ← read_lane wf operands b i
  ok (record { vdst = vdst; src0 = src0; src1 = src1 })

vop2_state : Wavefront → List Operand → ℕ → ℕ → Result WfStateVop2
unfolding dx10_clamp
vop2_state wf operands a b = do
  lanes ← for_items wf.size 0 (vop2_lane wf operands a b)
  ok (record { lanes = lanes; vcc = wf.vcc_reg; clamp = dx10_clamp wf.mode_reg })

-- Both carry operands of the form with five operands are VCC.
assert_vcc : List Operand → Result (Unit {0})
unfolding operand_at
assert_vcc operands = do
  carry_out ← operand_at operands 1
  carry_in ← operand_at operands 4
  assert (is_register carry_out.type && is_register carry_in.type)
  out ← get_reg carry_out.value
  assert (out == reg_vcc)
  in_reg ← get_reg carry_in.value
  assert (in_reg == reg_vcc)

unfoldable pub get_vop2_state : Wavefront → List Operand → Result WfStateVop2
unfolding vop2_state assert_vcc
get_vop2_state wf operands =
    if length operands == 3
    then vop2_state wf operands 1 2
    else if length operands == 5
    then assert_vcc operands >> vop2_state wf operands 2 3
    else fail Fault.runtime_error

unfoldable pub update_with_vop2_state : Wavefront → List Operand → WfStateVop2 → Result Wavefront
update_with_vop2_state wf operands state = do
  wf' ← write_lanes operands (map (λ lane. lane.vdst) state.lanes) 0 wf
  ok (record wf' { vcc_reg = state.vcc })

read_src2 : Wavefront → List Operand → ℕ → Result (Option ℕ)
read_src2 wf operands i =
    if length operands == 4 then (do src2 ← read_lane wf operands 3 i; ok (some src2)) else ok none

unfoldable pub vop3_lane : Wavefront → List Operand → ℕ → Result Vop3Lane
unfolding read_src2
vop3_lane wf operands i = do
  vdst ← read_lane wf operands 0 i
  src0 ← read_lane wf operands 1 i
  src1 ← read_lane wf operands 2 i
  src2 ← read_src2 wf operands i
  ok (record { vdst = vdst; src0 = src0; src1 = src1; src2 = src2 })

unfoldable pub get_vop3_state : Wavefront → List Operand → Result WfStateVop3
unfolding dx10_clamp
get_vop3_state wf operands = do
  assert (leb (length operands) 4)
  lanes ← for_items wf.size 0 (vop3_lane wf operands)
  ok (record { clamp = dx10_clamp wf.mode_reg; lanes = lanes; vcc = wf.vcc_reg })

unfoldable pub update_with_vop3_state : Wavefront → List Operand → WfStateVop3 → Result Wavefront
update_with_vop3_state wf operands state =
    write_lanes operands (map (λ lane. lane.vdst) state.lanes) 0 wf

unfoldable pub vopc_lane : Wavefront → List Operand → ℕ → Result VopcLane
vopc_lane wf operands i = do
  src0 ← read_lane wf operands 1 i
  src1 ← read_lane wf operands 2 i
  ok (record { src0 = src0; src1 = src1 })

unfoldable pub get_vopc_state : Wavefront → List Operand → Result WfStateVopc
unfolding operand_at
get_vopc_state wf operands = do
  operand ← operand_at operands 0
  words ← read_operand wf operand none
  sdst ← to_uin64_t words
  lanes ← for_items wf.size 0 (vopc_lane wf operands)
  ok (record { exec = wf.exec_reg; sdst = sdst; lanes = lanes })
