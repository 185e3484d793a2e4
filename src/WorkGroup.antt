-- ===== src/WorkGroup.antt =====
-- common/model/kernel/KernelConfig.h, and the work group of emulator/src/flow/wavefront.h and
-- wavefront.cpp: its work items, and its wavefronts with their first registers. The three vectors of
-- the configuration hold three sizes each.
pub mod Lanes
pub mod Split
use red_o_lator.Base.{
  ℕ, zero, suc, ◌+◌, ◌-◌, ◌*◌, ◌/◌, ◌%◌, ◌^◌, Bool, true, false, List, [], ◌∷◌, ◌++◌, u8, u32,
  ◌<<<◌, ◌>>>◌, bit_and, get_bit, length, get_elem?, set, if◌then◌else◌, ltb, leb, ◌==◌, min,
  Result, ok, fail, Fault, assert, or_fail, ◌>>=◌, ◌>>◌,
}
use red_o_lator.Register.Mode.{set_ieee, set_dx10_clamp}
use red_o_lator.Wavefront.{Wavefront, wavefront_size, new_wavefront, set_vgpr, set_sgpr_pair}

pub record WorkSize : Type 0 where
  pub x : ℕ
  pub y : ℕ
  pub z : ℕ

pub record KernelConfig : Type 0 where
  pub kern_arg_addr : ℕ
  pub kern_setup_ptr : ℕ
  pub dims : ℕ
  pub global_work_size : WorkSize
  pub local_work_size : WorkSize
  pub sgprsnum : ℕ
  pub vgprsnum : ℕ
  pub pgmrsrc2 : ℕ
  pub dx10clamp : Bool
  pub ieeemode : Bool
  pub useargs : Bool
  pub usesetup : Bool

-- `get_NDRange_X_size` and its kin
unfoldable pub get_ndrange_size : KernelConfig → WorkSize
get_ndrange_size config =
    let size = config.global_work_size in
    record {
      x = size.x;
      y = if ltb 1 config.dims then size.y else 1;
      z = if ltb 2 config.dims then size.z else 1;
    }

-- `get_wg_X_size` and its kin
unfoldable pub get_wg_size : KernelConfig → WorkSize
get_wg_size config =
    let size = config.local_work_size in
    record {
      x = size.x;
      y = if ltb 1 config.dims then size.y else 1;
      z = if ltb 2 config.dims then size.z else 1;
    }

unfoldable pub get_user_sgpr : KernelConfig → ℕ
get_user_sgpr config = u8 (bit_and (config.pgmrsrc2 >>> 1) 0x1f)

pub record WorkItem : Type 0 where
  pub local_id_x : ℕ
  pub local_id_y : ℕ
  pub local_id_z : ℕ

pub record WorkGroup : Type 0 where
  pub group_size : WorkSize
  pub group_id : WorkSize
  pub wavefronts : List Wavefront
  pub work_items : List WorkItem

-- The loops of `init_workitems`: from z, y and x for so many rounds.
unfoldable pub items_z : ℕ → ℕ → ℕ → ℕ → List WorkItem
items_z x y z zero = []
items_z x y z (suc rounds) =
    record { local_id_x = x; local_id_y = y; local_id_z = z } ∷ items_z x y (z + 1) rounds

unfoldable pub items_y : ℕ → ℕ → ℕ → ℕ → List WorkItem
items_y x y size_z zero = []
items_y x y size_z (suc rounds) = items_z x y 0 size_z ++ items_y x (y + 1) size_z rounds

unfoldable pub items_x : ℕ → WorkSize → ℕ → List WorkItem
items_x x size zero = []
items_x x size (suc rounds) = items_y x 0 size.z size.y ++ items_x (x + 1) size rounds

unfoldable pub init_workitems : WorkGroup → WorkGroup
init_workitems wg = record wg {
  work_items = wg.work_items ++ items_x 0 wg.group_size wg.group_size.x;
}

unfoldable pub get_workitem_for_wf : WorkGroup → ℕ → ℕ → Result WorkItem
get_workitem_for_wf wg wi_id wf_id =
    or_fail (get_elem? wg.work_items (wf_id * wavefront_size + wi_id)) Fault.assertion

unfoldable pub evaluate_exec_reg_value : ℕ → Result ℕ
evaluate_exec_reg_value wf_size =
    if ltb 64 wf_size
    then fail Fault.assertion
    else if wf_size == 64
    then ok 0xffffffffffffffff
    else ok ((1 <<< wf_size) - 1)

-- `scalarRegFile[sgprInd++] = id`, if the flag is on: the vector is indexed with no check.
unfoldable pub put_id : Bool → ℕ → Wavefront → ℕ → Result (Wavefront × ℕ)
put_id enabled id wf ind =
    if enabled
    then (if ltb ind (length wf.scalar_reg_file)
        then ok (record wf { scalar_reg_file = set wf.scalar_reg_file ind (u32 id) }, ind + 1)
        else fail Fault.undefined)
    else ok (wf, ind)

-- The last loop of `init_wf_regs`, from work item i.
unfoldable pub init_vgprs : WorkGroup → ℕ → ℕ → Wavefront → Result Wavefront
init_vgprs wg zero i wf = ok wf
init_vgprs wg (suc rounds) i wf = do
  item ← get_workitem_for_wf wg i wf.id
  a ← set_vgpr wf i 0 (u32 item.local_id_x)
  b ← set_vgpr a i 1 (u32 item.local_id_y)
  c ← set_vgpr b i 2 (u32 item.local_id_z)
  init_vgprs wg rounds (i + 1) c

unfoldable pub init_wf_regs : WorkGroup → KernelConfig → Wavefront → Result Wavefront
init_wf_regs wg config wf = do
  (a, i) ← put_id (get_bit 7 config.pgmrsrc2) wg.group_id.x wf (get_user_sgpr config)
  (b, j) ← put_id (get_bit 8 config.pgmrsrc2) wg.group_id.y a i
  (c, k) ← put_id (get_bit 9 config.pgmrsrc2) wg.group_id.z b j
  d ← (if config.useargs then set_sgpr_pair c 4 config.kern_arg_addr else ok c)
  e ←
      (if config.usesetup
        then (do
          setup ← set_sgpr_pair d 4 config.kern_setup_ptr
          set_sgpr_pair setup 6 config.kern_arg_addr)
        else ok d)
  init_vgprs wg e.size 0 (record e {
    mode_reg = set_dx10_clamp (set_ieee e.mode_reg config.ieeemode) config.dx10clamp;
  })

-- The loop of `init_wavefronts` from a work item on. `wfInd` stays 0. Each round takes at least one
-- work item, so as many rounds as work items are enough.
unfoldable pub wavefront_rounds : WorkGroup → KernelConfig → ℕ → ℕ → Result (List Wavefront)
wavefront_rounds wg config zero ind =
    if ltb ind (length wg.work_items) then fail Fault.no_fuel else ok []
wavefront_rounds wg config (suc fuel) ind =
    let wf_size = min (length wg.work_items - ind) wavefront_size in
    let rest = wavefront_rounds wg config fuel (ind + wf_size) in
    if ltb ind (length wg.work_items)
    then (do
      wf ← init_wf_regs wg config (new_wavefront wf_size 0 config.sgprsnum config.vgprsnum)
      exec ← evaluate_exec_reg_value wf_size
      others ← rest
      ok (record wf { exec_reg = exec } ∷ others))
    else ok []

unfoldable pub init_wavefronts : WorkGroup → KernelConfig → Result WorkGroup
init_wavefronts wg config = do
  wavefronts ← wavefront_rounds wg config (length wg.work_items) 0
  ok (record wg { wavefronts = wg.wavefronts ++ wavefronts })
