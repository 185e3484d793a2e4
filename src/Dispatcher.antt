-- ===== src/Dispatcher.antt =====
-- emulator/src/gpu/dispatcher.h and dispatcher.cpp: hands out the work groups, one per call.
pub mod Order
pub mod Runs
use red_o_lator.Base.{
  ℕ, ◌+◌, ◌-◌, ◌*◌, ◌/◌, ◌%◌, ◌^◌, Bool, true, false, [], Option, none, some, u64, wrap_sub,
  if◌then◌else◌, ltb, ◌==◌, ◌||◌, min, Result, ok, ◌>>=◌,
}
use red_o_lator.WorkGroup.{
  WorkSize, KernelConfig, WorkGroup, get_ndrange_size, get_wg_size, init_workitems, init_wavefronts,
}

pub record Dispatcher : Type 0 where
  pub cur_id : WorkSize
  pub dispatched_wg : ℕ
  pub wg_amount : ℕ
  pub kernel_config : KernelConfig

-- `(size - 1) / wg + 1`, in 64 bits; the constructor does not check that neither is 0.
unfoldable pub amount : ℕ → ℕ → ℕ
amount size wg = u64 (wrap_sub 64 size 1 / wg + 1)

unfoldable pub new_dispatcher : KernelConfig → Dispatcher
new_dispatcher config =
    let size = get_ndrange_size config in
    let wg = get_wg_size config in
    record {
      cur_id = record { x = 0; y = 0; z = 0 };
      dispatched_wg = 0;
      wg_amount = u64 (amount size.x wg.x * amount size.y wg.y * amount size.z wg.z);
      kernel_config = config;
    }

unfoldable pub has_next_wg : Dispatcher → Bool
has_next_wg dispatcher = ltb dispatcher.dispatched_wg dispatcher.wg_amount

-- The work items left in one dimension.
unfoldable pub left : ℕ → ℕ → ℕ → ℕ
left size cur wg = wrap_sub 64 size (u64 (cur * wg))

unfoldable pub left_sizes : Dispatcher → WorkSize
left_sizes dispatcher =
    let size = get_ndrange_size dispatcher.kernel_config in
    let wg = get_wg_size dispatcher.kernel_config in
    let cur = dispatcher.cur_id in
    record { x = left size.x cur.x wg.x; y = left size.y cur.y wg.y; z = left size.z cur.z wg.z }

-- The sizes of the next group.
unfoldable pub next_size : Dispatcher → WorkSize
next_size dispatcher =
    let wg = get_wg_size dispatcher.kernel_config in
    let rest = left_sizes dispatcher in
    record { x = min wg.x rest.x; y = min wg.y rest.y; z = min wg.z rest.z }

-- The ids after a group of these sizes: the three nested tests.
unfoldable pub next_id : WorkSize → WorkSize → WorkSize → WorkSize
next_id cur rest size =
    if rest.x - size.x == 0
    then (if rest.y - size.y == 0
        then record { x = 0; y = 0; z = cur.z + 1 }
        else record { x = 0; y = cur.y + 1; z = cur.z })
    else record { x = cur.x + 1; y = cur.y; z = cur.z }

unfoldable pub next_wg : Dispatcher → Result (Option WorkGroup × Dispatcher)
next_wg dispatcher =
    let rest = left_sizes dispatcher in
    if (rest.x == 0) || (rest.y == 0) || (rest.z == 0) then ok (none, dispatcher) else (do
      let size = next_size dispatcher
      let wg = init_workitems (record {
        group_size = size;
        group_id = dispatcher.cur_id;
        wavefronts = [];
        work_items = [];
      })
      wg' ← init_wavefronts wg dispatcher.kernel_config
      ok (
        some wg',
        record dispatcher {
          cur_id = next_id dispatcher.cur_id rest size;
          dispatched_wg = dispatcher.dispatched_wg + 1;
        },
      ))
