-- ===== src/Wavefront/VectorFile.antt =====
-- One vector register in all lanes: what is stored there, and what is read.
use red_o_lator.Base.{
  ℕ, zero, suc, ◌+◌, ◌-◌, ◌*◌, ◌^◌, ◌≤◌, ◌<◌, ◌≡◌, ◌≢◌, ◌∙◌, refl, sym, arith, true, false, ltb,
  List, some, u32, length, get_elem?, get_or, set, length-set, get_elem?-set_self, get_elem?-set_ne,
  get_elem?-get_or, lt→ltb, ok, none, ◌>>=◌, tabulate,
}
use native.Mathlib.Decide.{dec_lt}
use red_o_lator.Register.{reg_v0, reg_vcc, is_s_reg, is_v_reg}
use red_o_lator.Instruction.{Operand, OperandType, OperandValue, operand_at, get_reg, is_register}
use red_o_lator.Wavefront.Operands.{join_words}
use red_o_lator.Util.{to_uin64_t}
use red_o_lator.Wavefront.{
  Wavefront, read_operand, read_reg_operand, read_special, read_vgprs, read_vgpr, write_data_to_gpr,
  write_words_to_gpr, write_vgprs, set_vgpr,
}
use red_o_lator.Wavefront.VectorStates.{read_lane, write_lanes}

-- The vector register v.
abbrev pub vgpr : ℕ → Operand
vgpr v = record {
  type = OperandType.register;
  value = OperandValue.reg_value (v + reg_v0);
  reg_amount = 1;
}

-- The file with `value j` in cell j * stride + v for each of n lanes from i on.
unfoldable pub put_lanes : List ℕ → ℕ → ℕ → ℕ → ℕ → (ℕ → ℕ) → List ℕ
put_lanes file stride v zero i value = file
put_lanes file stride v (suc n) i value =
    put_lanes (set file (i * stride + v) (u32 (value i))) stride v n (i + 1) value

pub length-put_lanes :
    (file : List ℕ) (stride v n i : ℕ) (value : ℕ → ℕ)
    → length (put_lanes file stride v n i value) ≡ length file
unfolding put_lanes
length-put_lanes file stride v zero i value = refl
length-put_lanes file stride v (suc n) i value =
    length-put_lanes (set file (i * stride + v) (u32 (value i))) stride v n (i + 1) value
    ∙ length-set file _ _

pub put_lanes-other :
    (file : List ℕ) (stride v n i : ℕ) (value : ℕ → ℕ) (c : ℕ)
    → ((j : ℕ) → i ≤ j → j < i + n → c ≢ j * stride + v)
    → get_elem? (put_lanes file stride v n i value) c ≡ get_elem? file c
unfolding put_lanes
put_lanes-other file stride v zero i value c h = refl
put_lanes-other file stride v (suc n) i value c h =
    put_lanes-other (set file (i * stride + v) (u32 (value i))) stride v n (i + 1) value c
      (λ j p q. h j (omega arith) (omega arith))
    ∙ get_elem?-set_ne file (u32 (value i)) (λ e. h i (omega arith) (omega arith) (sym e))

pub apart : (stride v i j : ℕ) → v < stride → i < j → i * stride + v < j * stride + v
apart stride v i j h lt = grind arith

pub put_lanes-lane :
    (file : List ℕ) (stride v n i : ℕ) (value : ℕ → ℕ) (j : ℕ)
    → v < stride
    → i ≤ j
    → j < i + n
    → j * stride + v < length file
    → get_elem? (put_lanes file stride v n i value) (j * stride + v) ≡ some (u32 (value j))
unfolding put_lanes
put_lanes-lane file stride v zero i value j h p q inside = absurd (omega arith)
put_lanes-lane file stride v (suc n) i value j h p q inside = elim (dec_lt i j) [
  | yes lt ↦
      put_lanes-lane (set file (i * stride + v) (u32 (value i))) stride v n (i + 1) value j h
        (omega arith) (omega arith)
        (omega (arith, length-set file (i * stride + v) (u32 (value i))))
  | no ge ↦
      let e : j ≡ i = omega arith in
      put_lanes-other (set file (i * stride + v) (u32 (value i))) stride v n (i + 1) value
        (j * stride + v) (λ k a b w. absurd (omega (arith, apart stride v j k h (omega arith))))
      ∙ (rw e (get_elem?-set_self file (i * stride + v) (u32 (value i)) (rw e at inside)))
]

-- Writing one vector register in one lane.
pub write_vgpr :
    (wf : Wavefront) (v value i : ℕ)
    → v < 256
    → v < wf.vgprsnum
    → i * wf.vgprsnum + v < length wf.vector_reg_file
    → write_data_to_gpr wf (vgpr v) value (some i)
      ≡ ok
          (record wf { vector_reg_file = set wf.vector_reg_file (i * wf.vgprsnum + v) (u32 value) })
unfolding write_data_to_gpr write_words_to_gpr is_register get_reg write_vgprs set_vgpr is_s_reg
    is_v_reg
write_vgpr wf v value i small below inside =
    let not_scalar : is_s_reg (v + reg_v0) ≡ false = ground arith in
    let is_vector : is_v_reg (v + reg_v0) ≡ true = ground arith in
    let first : v + reg_v0 - reg_v0 + 0 ≡ v = omega arith in
    let room : ltb v (length wf.vector_reg_file) ≡ true = lt→ltb _ _ (omega arith) in
    rw (not_scalar, is_vector, first, room, lt→ltb _ _ inside) refl

-- Reading one vector register in one lane.
pub read_vgpr_lane :
    (wf : Wavefront) (operands : List Operand) (k v i : ℕ)
    → operand_at operands k ≡ ok (vgpr v)
    → v < 256
    → i * wf.vgprsnum + v < length wf.vector_reg_file
    → read_lane wf operands k i ≡ ok (get_or wf.vector_reg_file (i * wf.vgprsnum + v) 0)
unfolding read_lane read_operand read_reg_operand get_reg is_s_reg is_v_reg read_vgprs read_vgpr
    to_uin64_t
read_vgpr_lane wf operands k v i at small inside =
    let not_scalar : is_s_reg (v + reg_v0) ≡ false = ground arith in
    let is_vector : is_v_reg (v + reg_v0) ≡ true = ground arith in
    let first : v + reg_v0 - reg_v0 + 0 ≡ v = omega arith in
    rw (at, not_scalar, is_vector, first, get_elem?-get_or wf.vector_reg_file _ 0 inside) refl

-- A cell of row i lies below the end of the rows.
pub row : (stride v i n size : ℕ) → v < stride → (i + suc n) * stride ≤ size → i * stride + v < size
row stride v i n size below room = grind arith

-- Writing one vector register in n lanes.
pub write_lanes-vgpr :
    (operands : List Operand) (v : ℕ) (n i : ℕ) (value : ℕ → ℕ) (wf : Wavefront)
    → operand_at operands 0 ≡ ok (vgpr v)
    → v < 256
    → v < wf.vgprsnum
    → (i + n) * wf.vgprsnum ≤ length wf.vector_reg_file
    → write_lanes operands (tabulate n i value) i wf
      ≡ ok (record wf { vector_reg_file = put_lanes wf.vector_reg_file wf.vgprsnum v n i value })
unfolding write_lanes put_lanes
write_lanes-vgpr operands v zero i value wf at small below room = refl
write_lanes-vgpr operands v (suc n) i value wf at small below room =
    let inside : i * wf.vgprsnum + v < length wf.vector_reg_file =
      row wf.vgprsnum v i n (length wf.vector_reg_file) below room in
    let shift : i + 1 + n ≡ i + suc n = omega arith in
    let wf' : Wavefront = record wf {
      vector_reg_file = set wf.vector_reg_file (i * wf.vgprsnum + v) (u32 (value i));
    } in
    rw
      (
        at,
        write_vgpr wf v (value i) i small below inside,
        write_lanes-vgpr operands v n (i + 1) value wf' at small below
            (rw (shift, length-set wf.vector_reg_file (i * wf.vgprsnum + v) (u32 (value i))) room),
      )
      refl

-- The VCC register.
abbrev pub vcc_operand : Operand
vcc_operand = record {
  type = OperandType.register;
  value = OperandValue.reg_value reg_vcc;
  reg_amount = 2;
}

pub read_vcc :
    (wf : Wavefront)
    → wf.vcc_reg < 2 ^ 64
    → (read_operand wf vcc_operand none >>= to_uin64_t) ≡ ok wf.vcc_reg
unfolding read_operand read_reg_operand read_special get_reg is_s_reg is_v_reg to_uin64_t
read_vcc wf h = rw (join_words wf.vcc_reg h) refl

-- Registers of a file with room for every lane.
pub cell_inside :
    (stride v i size len : ℕ) → v < stride → i < size → size * stride ≤ len → i * stride + v < len
cell_inside stride v i size len below lt room = grind arith

-- The word of a vector register in a lane.
abbrev pub vgpr_of : Wavefront → ℕ → ℕ → ℕ
vgpr_of wf i v = get_or wf.vector_reg_file (i * wf.vgprsnum + v) 0
