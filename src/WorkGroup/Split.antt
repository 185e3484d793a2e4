-- ===== src/WorkGroup/Split.antt =====
-- The fuel of the loop that splits the work items into wavefronts.
use red_o_lator.Base.{
  ℕ, zero, suc, ◌+◌, ◌-◌, ◌≤◌, ◌≡◌, ◌≢◌, arith, refl, min, false, length, ltb, Bool, u32, HasFuel,
  >>=-HasFuel, or_fail-HasFuel, choice-HasFuel, assert-HasFuel, assert, ◌*◌, ◌%◌, ◌==◌, get_bit,
  fail, Fault,
}
use native.Mathlib.Decide.{dec_lt}
use red_o_lator.WorkGroup.{
  WorkGroup, KernelConfig, put_id, init_vgprs, init_wf_regs, get_workitem_for_wf,
  evaluate_exec_reg_value, get_user_sgpr, wavefront_rounds,
}
use red_o_lator.Wavefront.{Wavefront, set_vgpr, set_sgpr_pair}

past_end : (ind n : ℕ) → n ≤ ind → ltb ind n ≡ false
past_end ind n h = ground arith

put_id-HasFuel :
    (enabled : Bool) (id : ℕ) (wf : Wavefront) (ind : ℕ) → HasFuel (put_id enabled id wf ind)
unfolding put_id
put_id-HasFuel enabled id wf ind =
    choice-HasFuel enabled
      (choice-HasFuel (ltb ind (length wf.scalar_reg_file)) (λ e. cc) (λ e. cc)) (λ e. cc)

set_vgpr-HasFuel : (wf : Wavefront) (wi v value : ℕ) → HasFuel (set_vgpr wf wi v value)
unfolding set_vgpr
set_vgpr-HasFuel wf wi v value =
    >>=-HasFuel (assert (ltb (wi * wf.vgprsnum + v) (length wf.vector_reg_file))) _
      (assert-HasFuel _) (λ done e. cc)

set_sgpr_pair-HasFuel : (wf : Wavefront) (sgpr value : ℕ) → HasFuel (set_sgpr_pair wf sgpr value)
unfolding set_sgpr_pair
set_sgpr_pair-HasFuel wf sgpr value =
    >>=-HasFuel (assert (sgpr % 2 == 0)) _ (assert-HasFuel _)
      (λ done. choice-HasFuel (ltb (sgpr + 1) (length wf.scalar_reg_file)) (λ e. cc) (λ e. cc))

init_vgprs-HasFuel :
    (wg : WorkGroup) (rounds i : ℕ) (wf : Wavefront) → HasFuel (init_vgprs wg rounds i wf)
unfolding init_vgprs get_workitem_for_wf
init_vgprs-HasFuel wg zero i wf = λ e. cc
init_vgprs-HasFuel wg (suc rounds) i wf =
    >>=-HasFuel (get_workitem_for_wf wg i wf.id) _ (or_fail-HasFuel _ _ (λ e. cc)) (λ item.
      >>=-HasFuel (set_vgpr wf i 0 (u32 item.local_id_x)) _ (set_vgpr-HasFuel wf i 0 _) (λ a.
        >>=-HasFuel (set_vgpr a i 1 (u32 item.local_id_y)) _ (set_vgpr-HasFuel a i 1 _) (λ b.
          >>=-HasFuel (set_vgpr b i 2 (u32 item.local_id_z)) _ (set_vgpr-HasFuel b i 2 _)
            (λ c. init_vgprs-HasFuel wg rounds (i + 1) c))))

init_wf_regs-HasFuel :
    (wg : WorkGroup) (config : KernelConfig) (wf : Wavefront) → HasFuel (init_wf_regs wg config wf)
unfolding init_wf_regs
init_wf_regs-HasFuel wg config wf =
    >>=-HasFuel (put_id (get_bit 7 config.pgmrsrc2) wg.group_id.x wf (get_user_sgpr config)) _
      (put_id-HasFuel _ _ wf _)
      (λ x.
        >>=-HasFuel (put_id (get_bit 8 config.pgmrsrc2) wg.group_id.y x.0 x.1) _
          (put_id-HasFuel _ _ x.0 x.1)
          (λ y.
            >>=-HasFuel (put_id (get_bit 9 config.pgmrsrc2) wg.group_id.z y.0 y.1) _
              (put_id-HasFuel _ _ y.0 y.1)
              (λ z.
                >>=-HasFuel _ _
                  (choice-HasFuel config.useargs (set_sgpr_pair-HasFuel z.0 4 _) (λ e. cc))
                  (λ d.
                    >>=-HasFuel _ _
                      (choice-HasFuel config.usesetup
                        (>>=-HasFuel (set_sgpr_pair d 4 config.kern_setup_ptr) _
                          (set_sgpr_pair-HasFuel d 4 _) (λ setup. set_sgpr_pair-HasFuel setup 6 _))
                        (λ e. cc))
                      (λ e. init_vgprs-HasFuel wg e.size 0 _)))))

exec_reg_value-HasFuel : (n : ℕ) → HasFuel (evaluate_exec_reg_value n)
unfolding evaluate_exec_reg_value
exec_reg_value-HasFuel n =
    choice-HasFuel (ltb 64 n) (λ e. cc) (choice-HasFuel (n == 64) (λ e. cc) (λ e. cc))

wavefront_rounds-HasFuel :
    (wg : WorkGroup) (config : KernelConfig) (fuel ind : ℕ)
    → length wg.work_items ≤ ind + fuel
    → HasFuel (wavefront_rounds wg config fuel ind)
unfolding wavefront_rounds
wavefront_rounds-HasFuel wg config zero ind h =
    rw (past_end ind (length wg.work_items) (omega arith)) (λ e. cc)
wavefront_rounds-HasFuel wg config (suc fuel) ind h = elim (dec_lt ind (length wg.work_items)) [
  | yes p ↦
      let size = min (length wg.work_items - ind) 64 in
      choice-HasFuel (ltb ind (length wg.work_items))
        (>>=-HasFuel _ _ (init_wf_regs-HasFuel wg config _) (λ wf.
          >>=-HasFuel (evaluate_exec_reg_value size) _ (exec_reg_value-HasFuel size) (λ exec.
            >>=-HasFuel (wavefront_rounds wg config fuel (ind + size)) _
              (wavefront_rounds-HasFuel wg config fuel (ind + size) (omega arith))
              (λ others e. cc))))
        (λ e. cc)
  | no p ↦ rw (past_end ind (length wg.work_items) (omega arith)) (λ e. cc)
]

rounds_more :
    (wg : WorkGroup) (config : KernelConfig) (fuel more ind : ℕ)
    → length wg.work_items ≤ ind + fuel
    → fuel ≤ more
    → wavefront_rounds wg config more ind ≡ wavefront_rounds wg config fuel ind
unfolding wavefront_rounds
rounds_more wg config zero zero ind h k = refl
rounds_more wg config zero (suc more) ind h k =
    rw (past_end ind (length wg.work_items) (omega arith)) refl
rounds_more wg config (suc fuel) zero ind h k = absurd (omega arith)
rounds_more wg config (suc fuel) (suc more) ind h k = elim (dec_lt ind (length wg.work_items)) [
  | yes p ↦
      let next = ind + min (length wg.work_items - ind) 64 in
      let rest = rounds_more wg config fuel more next (omega arith) (omega arith) in rw rest refl
  | no p ↦ rw (past_end ind (length wg.work_items) (omega arith)) refl
]

-- For every work group and configuration, from work item `ind` on: with as much fuel as there are work items
-- left the loop does not run out of it, so that it ends with the wavefronts or with the fault of one of its
-- rounds; and any greater amount of fuel gives the same.
pub wavefront_rounds-fuel :
    (wg : WorkGroup) (config : KernelConfig) (fuel more ind : ℕ)
    → length wg.work_items ≤ ind + fuel
    → fuel ≤ more
    → (wavefront_rounds wg config fuel ind ≢ fail Fault.no_fuel)
      × (wavefront_rounds wg config more ind ≡ wavefront_rounds wg config fuel ind)
wavefront_rounds-fuel wg config fuel more ind h k =
    (wavefront_rounds-HasFuel wg config fuel ind h, rounds_more wg config fuel more ind h k)
