-- ===== src/DebugContext/Local.antt =====
-- Which breakpoints stop a run.
use red_o_lator.Base.{◌≡◌, ◌∙◌, refl, ap, false, List, ok}
use red_o_lator.Storage.{Storage}
use red_o_lator.WorkGroup.{WorkGroup}
use red_o_lator.Breakpoint.{global_at, has_breakpoint}
use red_o_lator.Breakpoint.Replay.{Change, replay, is_set, has_breakpoint-replay}
use red_o_lator.DebugContext.{
  DebugContext, ExecutionMode, ExecutionContext, is_terminal, is_step, process_instruction,
}

-- In a run that is not stepping, at an address whose global breakpoint the history of the storage does not
-- set: `process_instruction` leaves the context as it was, whatever local breakpoints the history sets there.
pub process_instruction-local :
    (storage : Storage) (wg : WorkGroup) (c : DebugContext) (context : ExecutionContext)
    (cs : List Change)
    → c.execution_mode ≡ ExecutionMode.run
    → c.breakpoints ≡ replay cs
    → is_set cs (global_at context.address) ≡ false
    → process_instruction storage wg c context ≡ ok c
unfolding process_instruction is_terminal is_step
process_instruction-local storage wg c context cs running history unset =
    let none : has_breakpoint c.breakpoints context.address ≡ false =
      ap (λ s. has_breakpoint s context.address) history
      ∙ (has_breakpoint-replay cs context.address 0).0
      ∙ unset in
    rw (running, none) refl
