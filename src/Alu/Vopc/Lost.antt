-- ===== src/Alu/Vopc/Lost.antt =====
-- What a vector comparison computes, and what is left of it.
use red_o_lator.Base.{
  ℕ, zero, suc, ◌+◌, ◌*◌, ◌^◌, ◌≤◌, ◌<◌, ◌≡◌, ◌∙◌, refl, arith, ap, Bool, false, List, [], ◌∷◌,
  some, length, if◌then◌else◌, to_nat, ok, for_items-ok, tabulate, get_elem?-tabulate,
  length-tabulate, none, >>=-eq-ok, Conversions,
}
use red_o_lator.Base.BitLaws.{bit}
use red_o_lator.Base.LaneBits.{put_bit}
use red_o_lator.Base.BitLoop.{All, for_lanes-bits}
use red_o_lator.Instruction.{Operand, operand_at}
use red_o_lator.Util.{to_uin64_t}
use red_o_lator.Wavefront.{Wavefront, work_item_masked, read_operand}
use red_o_lator.Wavefront.VectorStates.{VopcLane, WfStateVopc, vopc_lane, get_vopc_state}
use red_o_lator.Wavefront.VectorFile.{
  vgpr, vcc_operand, read_vcc, read_vgpr_lane, vgpr_of, cell_inside,
}
use red_o_lator.Alu.Vopc.{
  VopcKey, VopcInstr, run_vopc_op, vopc_round, vopc_loop, run_vopc, run_f, run_tru,
}

abbrev pub comparison : VopcKey → VopcInstr
comparison key = record { key = key; is_cmpx = false }

abbrev pub compared_vgprs : ℕ → ℕ → List Operand
compared_vgprs a b = vcc_operand ∷ vgpr a ∷ vgpr b ∷ []

abbrev pub compared_lane : Wavefront → ℕ → ℕ → ℕ → VopcLane
compared_lane wf a b i = record { src0 = vgpr_of wf i a; src1 = vgpr_of wf i b }

-- Two registers of a file that has room for every lane.
pub record HasRoom (wf : Wavefront) (a b : ℕ) : Type 0 where
  pub src0_below : a < wf.vgprsnum
  pub src1_below : b < wf.vgprsnum
  pub few : wf.vgprsnum ≤ 256
  pub lanes : wf.size ≤ 64
  pub rows : wf.size * wf.vgprsnum ≤ length wf.vector_reg_file
  pub vcc_word : wf.vcc_reg < 2 ^ 64

module _ (wf : Wavefront) (a b : ℕ) (room : HasRoom wf a b) where
  open room use {src0_below, src1_below, few, lanes, rows, vcc_word}

  first_state : WfStateVopc
  first_state = record {
    exec = wf.exec_reg;
    sdst = wf.vcc_reg;
    lanes = tabulate wf.size 0 (compared_lane wf a b);
  }

  lane_read :
      (i : ℕ) → i < wf.size → vopc_lane wf (compared_vgprs a b) i ≡ ok (compared_lane wf a b i)
  unfolding vopc_lane operand_at
  lane_read i lt =
      let inside = λ (v : ℕ) (below : v < wf.vgprsnum).
        cell_inside wf.vgprsnum v i wf.size (length wf.vector_reg_file) below lt rows in
      rw
        (
          read_vgpr_lane wf (compared_vgprs a b) 1 a i refl (omega arith) (inside a src0_below),
          read_vgpr_lane wf (compared_vgprs a b) 2 b i refl (omega arith) (inside b src1_below),
        )
        refl

  state_read : get_vopc_state wf (compared_vgprs a b) ≡ ok first_state
  unfolding get_vopc_state operand_at first_state
  state_read =
      let (words, read, joined) =
        >>=-eq-ok (read_operand wf vcc_operand none) to_uin64_t (read_vcc wf vcc_word) in
      rw
        (
          read,
          joined,
          for_items-ok wf.size 0 (vopc_lane wf (compared_vgprs a b)) (compared_lane wf a b)
              (λ j p q. lane_read j (omega arith)),
        )
        refl

AnyLane : VopcLane → Type 0
AnyLane lane = Unit

any_lanes : (n i : ℕ) (g : ℕ → VopcLane) → All AnyLane (tabulate n i g)
unfolding AnyLane
any_lanes zero i g = tt
any_lanes (suc n) i g = (tt, any_lanes n (i + 1) g)

module _ (f32 f64 : Conversions) (key : VopcKey) (holds : VopcLane → Bool)
    (tests : (lane : VopcLane) → run_vopc_op f32 f64 key lane ≡ ok (holds lane)) where
  round_lem :
      (i : ℕ) (s : ℕ × ℕ) (lane : VopcLane)
      → vopc_round f32 f64 (comparison key) i s lane ≡ ok ((s.0, put_bit s.1 i (holds lane)), lane)
  unfolding vopc_round run_f run_tru
  round_lem i s lane = rw (tests lane) (ground arith)

-- For a comparison that is no V_CMPX and passes in a lane exactly when `holds` does, of two vector registers
-- with room for at most 64 lanes, into VCC: the loop computes an SDST that has, in every lane that EXEC has,
-- bit i set exactly when the lane's values pass, and elsewhere the bit of VCC; and `run_vopc` returns with
-- the wavefront as it was, so that VCC does not receive these bits.
pub run_vopc-lost :
    (f32 f64 : Conversions) (key : VopcKey) (holds : VopcLane → Bool)
    → ((lane : VopcLane) → run_vopc_op f32 f64 key lane ≡ ok (holds lane))
    → (wf : Wavefront) (a b : ℕ) → HasRoom wf a b
    → (state state' : WfStateVopc) × (get_vopc_state wf (compared_vgprs a b) ≡ ok state)
      × (vopc_loop f32 f64 (comparison key) wf state ≡ ok state')
      × ((i : ℕ)
          → i < wf.size
          → bit i state'.sdst ≡ (
              if work_item_masked wf i
              then to_nat (holds (compared_lane wf a b i))
              else bit i wf.vcc_reg))
      × (run_vopc f32 f64 (comparison key) (compared_vgprs a b) wf ≡ ok wf)
unfolding run_vopc vopc_loop first_state AnyLane
run_vopc-lost f32 f64 key holds tests wf a b room =
    let read = state_read wf a b room in
    let size = length-tabulate wf.size 0 (compared_lane wf a b) in
    let (r, ran, done) =
      for_lanes-bits (λ (s : ℕ × ℕ). s.1) (λ (s : ℕ × ℕ) (w : ℕ). (s.0, w)) (λ s w. refl)
        (work_item_masked wf) (vopc_round f32 f64 (comparison key)) (λ b lane. holds lane)
        (λ b lane. lane) AnyLane (λ i s lane h g. round_lem f32 f64 key holds tests i s lane)
        (wf.exec_reg, wf.vcc_reg) (tabulate wf.size 0 (compared_lane wf a b))
        (any_lanes wf.size 0 (compared_lane wf a b)) (rw size room.lanes) room.vcc_word in
    (
      first_state wf a b room,
      record { exec = r.0.0; sdst = r.0.1; lanes = r.1 },
      read,
      rw ran refl,
      λ i lt.
          let start : 0 + i ≡ i = omega arith in
          (done i (compared_lane wf a b i) (
            get_elem?-tabulate wf.size 0 (compared_lane wf a b) i lt
            ∙ ap (λ (k : ℕ). some (compared_lane wf a b k)) start)).1,
      rw (read, ran) refl,
    )
