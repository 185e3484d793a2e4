-- ===== src/Tests/Groups.antt =====
-- Runs of the dispatcher on three work items in groups of two.
use red_o_lator.Base.{
  ◌≡◌, ◌≢◌, ◌≤◌, arith, refl, ℕ, Fault, true, false, [], ◌∷◌, Option, none, some, Result, ok, fail,
  ltb, length,
}
use red_o_lator.Base.{get_bit}
use red_o_lator.Register.{bitset_set}
use red_o_lator.Register.Mode.{set_dx10_clamp, set_ieee}
use red_o_lator.Wavefront.{new_wavefront, set_sgpr_pair, set_vgpr}
use red_o_lator.WorkGroup.{
  WorkGroup, KernelConfig, get_ndrange_size, get_wg_size, init_wavefronts, wavefront_rounds,
  init_workitems, items_x, items_y, items_z, init_wf_regs, put_id, get_user_sgpr,
  evaluate_exec_reg_value, get_workitem_for_wf, init_vgprs,
}
use red_o_lator.WorkGroup.Lanes.{evaluate_exec_reg_value-lanes}
use red_o_lator.WorkGroup.Split.{wavefront_rounds-fuel}
use red_o_lator.Base.BitLaws.{bit}
use red_o_lator.Dispatcher.{
  Dispatcher, new_dispatcher, next_wg, has_next_wg, left, left_sizes, next_size, next_id, amount,
}
use red_o_lator.Dispatcher.Order.{IsAt, Numbers, next_wg-IsAt}
use red_o_lator.Dispatcher.Runs.{hand, done, AreNumbered, new_dispatcher-AreNumbered}

abbrev two_groups : KernelConfig
two_groups = record {
  kern_arg_addr = 0x40;
  kern_setup_ptr = 0;
  dims = 1;
  global_work_size = record { x = 3; y = 1; z = 1 };
  local_work_size = record { x = 2; y = 1; z = 1 };
  sgprsnum = 8;
  vgprsnum = 3;
  pgmrsrc2 = 0x80;
  dx10clamp = true;
  ieeemode = false;
  useargs = true;
  usesetup = false;
}

start : Dispatcher
unfolding new_dispatcher
start = new_dispatcher two_groups

no_group : WorkGroup
no_group = record {
  group_size = record { x = 0; y = 0; z = 0 };
  group_id = record { x = 9; y = 9; z = 9 };
  wavefronts = [];
  work_items = [];
}

handed_group : Result (Option WorkGroup × Dispatcher) → WorkGroup
handed_group (fail x) = no_group
handed_group (ok (none, d)) = no_group
handed_group (ok (some wg, d)) = wg

handed_state : Dispatcher → Result (Option WorkGroup × Dispatcher) → Dispatcher
handed_state d (fail x) = d
handed_state d (ok p) = p.1

-- What the first call returns.
first_group : WorkGroup
first_group = handed_group (next_wg start)

second : Dispatcher
second = handed_state start (next_wg start)

first_call : next_wg start ≡ ok (some first_group, second)
unfolding start next_wg new_dispatcher handed_state handed_group has_next_wg left_sizes left
    get_ndrange_size get_wg_size init_wavefronts wavefront_rounds init_workitems items_x next_size
    items_y items_z init_wf_regs put_id get_bit get_user_sgpr new_wavefront set_sgpr_pair amount
    next_id set_dx10_clamp set_ieee bitset_set set_vgpr evaluate_exec_reg_value get_workitem_for_wf
    init_vgprs first_group second
first_call = refl

first_more : has_next_wg start ≡ true
unfolding start new_dispatcher has_next_wg get_ndrange_size get_wg_size amount
first_more = refl

next_wg-IsAt_example :
    (wg : WorkGroup) × (some first_group ≡ some wg)
    × Numbers 2 1 wg.group_id 0
    × IsAt 2 1 second 1
    × (second.kernel_config ≡ start.kernel_config)
    × (second.wg_amount ≡ start.wg_amount)
unfolding start new_dispatcher get_ndrange_size get_wg_size
next_wg-IsAt_example =
    next_wg-IsAt start second (some first_group) 0
      (
        (omega arith, omega arith, omega arith),
        (omega arith, omega arith, omega arith),
        (omega arith, omega arith, omega arith),
      )
      (refl, omega arith, omega arith, omega arith) (omega arith) first_call

new_dispatcher-AreNumbered_example :
    AreNumbered 2 1 0 (first_group ∷ [])
    × (length (first_group ∷ []) ≤ 2)
    × (has_next_wg second ≡ ltb 1 2)
unfolding start get_ndrange_size get_wg_size
new_dispatcher-AreNumbered_example =
    new_dispatcher-AreNumbered two_groups second (first_group ∷ [])
      (
        (omega arith, omega arith, omega arith),
        (omega arith, omega arith, omega arith),
        (omega arith, omega arith, omega arith),
      )
      (omega arith) (hand start second second first_group [] first_more first_call (done second))

evaluate_exec_reg_value-lanes_example :
    (mask : ℕ) × (evaluate_exec_reg_value 5 ≡ ok mask) × (bit 3 mask ≡ 1)
evaluate_exec_reg_value-lanes_example =
    evaluate_exec_reg_value-lanes 5 3 (omega arith) (omega arith)

wavefront_rounds-fuel_example :
    (wavefront_rounds first_group two_groups 2 0 ≢ fail Fault.no_fuel)
    × (wavefront_rounds first_group two_groups 7 0 ≡ wavefront_rounds first_group two_groups 2 0)
unfolding start next_wg new_dispatcher handed_state handed_group has_next_wg left_sizes left
    get_ndrange_size get_wg_size init_wavefronts wavefront_rounds init_workitems items_x next_size
    items_y items_z init_wf_regs put_id get_bit get_user_sgpr new_wavefront set_sgpr_pair amount
    next_id set_dx10_clamp set_ieee bitset_set set_vgpr evaluate_exec_reg_value get_workitem_for_wf
    init_vgprs first_group
wavefront_rounds-fuel_example =
    wavefront_rounds-fuel first_group two_groups 2 7 0 (omega arith) (omega arith)
