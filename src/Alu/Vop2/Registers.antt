-- ===== src/Alu/Vop2/Registers.antt =====
-- A VOP2 instruction on three vector registers, from the register file to the register file.
use red_o_lator.Base.{
  ℕ, ◌+◌, ◌*◌, ◌^◌, ◌≤◌, ◌<◌, ◌≡◌, ◌≢◌, refl, arith, Bool, List, [], ◌∷◌, u32, length, get_elem?,
  some, if◌then◌else◌, ok, Floats, tabulate, map-tabulate, true, false, ◌∙◌, ap, for_items-ok,
  for_lanes-tabulate,
}
use red_o_lator.Register.Mode.{dx10_clamp}
use red_o_lator.Instruction.{Operand, operand_at}
use red_o_lator.Wavefront.{Wavefront, work_item_masked}
use red_o_lator.Wavefront.VectorStates.{Vop2Lane, vop2_lane, get_vop2_state, update_with_vop2_state}
use red_o_lator.Wavefront.VectorFile.{
  vgpr, put_lanes, put_lanes-lane, put_lanes-other, read_vgpr_lane, write_lanes-vgpr, vgpr_of,
  cell_inside,
}
use red_o_lator.Alu.Vop2.Run.{Vop2Key, run_vop2_op, run_vop2}

abbrev pub lane_of : Wavefront → ℕ → ℕ → ℕ → ℕ → Vop2Lane
lane_of wf d a b i = record { vdst = vgpr_of wf i d; src0 = vgpr_of wf i a; src1 = vgpr_of wf i b }

-- Three registers of a file that has room for every lane.
pub record HasRoom (wf : Wavefront) (d a b : ℕ) : Type 0 where
  pub dst_below : d < wf.vgprsnum
  pub src0_below : a < wf.vgprsnum
  pub src1_below : b < wf.vgprsnum
  pub few : wf.vgprsnum ≤ 256
  pub words : (i : ℕ) → i < wf.size → vgpr_of wf i d < 2 ^ 32
  pub rows : wf.size * wf.vgprsnum ≤ length wf.vector_reg_file

abbrev pub three_vgprs : ℕ → ℕ → ℕ → List Operand
three_vgprs d a b = vgpr d ∷ vgpr a ∷ vgpr b ∷ []

module _ (wf : Wavefront) (d a b : ℕ) (room : HasRoom wf d a b) where
  open room use {dst_below, src0_below, src1_below, few, rows}

  inside :
      (v i : ℕ) → v < wf.vgprsnum → i < wf.size → i * wf.vgprsnum + v < length wf.vector_reg_file
  inside v i below lt =
      cell_inside wf.vgprsnum v i wf.size (length wf.vector_reg_file) below lt rows

  lane_read :
      (i : ℕ) → i < wf.size → vop2_lane wf (three_vgprs d a b) 1 2 i ≡ ok (lane_of wf d a b i)
  unfolding vop2_lane operand_at
  lane_read i lt =
      rw
        (
          read_vgpr_lane wf (three_vgprs d a b) 0 d i refl (omega arith) (inside d i dst_below lt),
          read_vgpr_lane wf (three_vgprs d a b) 1 a i refl (omega arith) (inside a i src0_below lt),
          read_vgpr_lane wf (three_vgprs d a b) 2 b i refl (omega arith) (inside b i src1_below lt),
        )
        refl

  state_read :
      get_vop2_state wf (three_vgprs d a b)
      ≡ ok (record {
        lanes = tabulate wf.size 0 (lane_of wf d a b);
        vcc = wf.vcc_reg;
        clamp = dx10_clamp wf.mode_reg;
      })
  unfolding get_vop2_state
  state_read =
      rw
        (for_items-ok wf.size 0 (vop2_lane wf (three_vgprs d a b) 1 2) (lane_of wf d a b)
          (λ j p q. lane_read j (omega arith)))
        refl

chosen_word :
    (active : Bool) (new old : Vop2Lane)
    → old.vdst < 2 ^ 32
    → u32 ((if active then new else old).vdst) ≡ (if active then u32 new.vdst else old.vdst)
chosen_word true new old h = refl
chosen_word false new old h = omega arith

module _ (floats : Floats) (key : Vop2Key) (f : Bool → ℕ → ℕ → Vop2Lane → Vop2Lane)
    (leaves_vcc : (clamp : Bool) (i vcc : ℕ) (lane : Vop2Lane)
      → run_vop2_op floats key clamp i vcc lane ≡ ok (vcc, f clamp i vcc lane))
    (wf : Wavefront) (d a b : ℕ) (room : HasRoom wf d a b) where
  open room use {dst_below, few, rows, words}

  f_lane : ℕ → Vop2Lane → Vop2Lane
  f_lane i lane = f (dx10_clamp wf.mode_reg) i wf.vcc_reg lane

  new_lane : ℕ → Vop2Lane
  new_lane i = if work_item_masked wf i then f_lane i (lane_of wf d a b i) else lane_of wf d a b i

  value : ℕ → ℕ
  value i = (new_lane i).vdst

  after : Wavefront
  after = record wf { vector_reg_file = put_lanes wf.vector_reg_file wf.vgprsnum d wf.size 0 value }

  ran : run_vop2 floats key (three_vgprs d a b) wf ≡ ok after
  unfolding run_vop2 update_with_vop2_state after new_lane f_lane value operand_at
  ran =
      let start : 0 + wf.size ≡ wf.size = omega arith in
      let all_rows : (0 + wf.size) * wf.vgprsnum ≤ length wf.vector_reg_file = rw start rows in
      rw
        (
          state_read wf d a b room,
          for_lanes-tabulate (work_item_masked wf) (run_vop2_op floats key (dx10_clamp wf.mode_reg))
              f_lane wf.vcc_reg (λ i lane. leaves_vcc (dx10_clamp wf.mode_reg) i wf.vcc_reg lane)
              wf.size 0 (lane_of wf d a b),
          map-tabulate (λ (l : Vop2Lane). l.vdst) wf.size 0 new_lane,
          write_lanes-vgpr (three_vgprs d a b) d wf.size 0 value wf refl (omega arith) dst_below
              all_rows,
        )
        refl

  stored :
      (i : ℕ)
      → i < wf.size
      → u32 (value i) ≡ (
          if work_item_masked wf i
          then u32 (f_lane i (lane_of wf d a b i)).vdst
          else vgpr_of wf i d)
  unfolding value new_lane
  stored i lt = chosen_word (work_item_masked wf i) _ _ (words i lt)

-- For a VOP2 instruction whose round turns lane i into `f clamp i vcc lane` and leaves VCC alone, on three
-- vector registers d, a and b of a file with room for every lane and words in register d: `run_vop2`
-- returns; in every lane that EXEC has, register d then holds the low word of what `f` makes of that lane's
-- registers, in every other lane its old word; every other cell of the vector register file, and VCC, is
-- unchanged.
pub run_vop2-vgprs :
    (floats : Floats) (key : Vop2Key) (f : Bool → ℕ → ℕ → Vop2Lane → Vop2Lane)
    → ((clamp : Bool) (i vcc : ℕ) (lane : Vop2Lane)
        → run_vop2_op floats key clamp i vcc lane ≡ ok (vcc, f clamp i vcc lane))
    → (wf : Wavefront) (d a b : ℕ) → HasRoom wf d a b
    → let new = λ (i : ℕ). (f (dx10_clamp wf.mode_reg) i wf.vcc_reg (lane_of wf d a b i)).vdst in
      (wf' : Wavefront) × (run_vop2 floats key (three_vgprs d a b) wf ≡ ok wf')
      × ((i : ℕ)
          → i < wf.size
          → get_elem? wf'.vector_reg_file (i * wf.vgprsnum + d)
            ≡ some (if work_item_masked wf i then u32 (new i) else vgpr_of wf i d))
      × ((c : ℕ)
          → ((i : ℕ) → i < wf.size → c ≢ i * wf.vgprsnum + d)
          → get_elem? wf'.vector_reg_file c ≡ get_elem? wf.vector_reg_file c)
      × (wf'.vcc_reg ≡ wf.vcc_reg)
unfolding after f_lane
run_vop2-vgprs floats key f leaves_vcc wf d a b room = (
  after floats key f leaves_vcc wf d a b room,
  ran floats key f leaves_vcc wf d a b room,
  λ i lt.
      put_lanes-lane wf.vector_reg_file wf.vgprsnum d wf.size 0
        (value floats key f leaves_vcc wf d a b room) i room.dst_below (omega arith) (omega arith)
        (inside wf d a b room d i room.dst_below lt)
      ∙ ap some (stored floats key f leaves_vcc wf d a b room i lt),
  λ c other.
      put_lanes-other wf.vector_reg_file wf.vgprsnum d wf.size 0
        (value floats key f leaves_vcc wf d a b room) c (λ j p q. other j (omega arith)),
  refl,
)
