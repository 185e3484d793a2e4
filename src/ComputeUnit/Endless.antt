-- ===== src/ComputeUnit/Endless.antt =====
-- The turns of a work group whose wavefronts have all reached an S_BARRIER.
use red_o_lator.Base.{
  ℕ, zero, suc, ◌+◌, ◌*◌, ◌≡◌, ◌≢◌, refl, sym, ap, arith, Bool, true, false, List, [], ◌∷◌, ◌++◌,
  some, map, length, get_elem?, set, ok, fail, Fault, ◌>>=◌,
}
use mathlib.Core.List.{append_assoc}
use red_o_lator.Base.BitLoop.{All}
use red_o_lator.Wavefront.{Wavefront, wavefront_size}
use red_o_lator.WorkGroup.{WorkGroup, WorkItem, get_workitem_for_wf}
use red_o_lator.Breakpoint.{has_breakpoint}
use red_o_lator.Alu.Instr.{FloatUnit}
use red_o_lator.KernelCode.{Key, Instruction, KernelCode}
use red_o_lator.DebugContext.{
  DebugContext, ExecutionMode, ExecutionContext, process_instruction, create_context, is_terminal,
  is_step,
}
use red_o_lator.ComputeUnit.{
  Machine, get_cur_instr, wavefront_at, put_wavefront, run_key, run_round, run_rounds,
  run_wavefront, all_wf_completed, clear_barriers, resolve_barrier, run_wavefronts, run_work_group,
}

-- A running wavefront before an S_BARRIER that has no breakpoint, and whose first work item is there for the
-- debugger's context.
pub record Arrives (code : KernelCode) (items : List WorkItem) (debug : DebugContext)
    (wf : Wavefront) : Type 0 where
  pub instr : Instruction
  pub current : get_cur_instr code wf ≡ ok instr
  pub is_barrier : instr.key ≡ Key.s_barrier
  pub no_breakpoint : has_breakpoint debug.breakpoints instr.addr ≡ false
  pub not_completed : wf.completed ≡ false
  pub not_waiting : wf.at_barrier ≡ false
  pub item : WorkItem
  pub item_there : get_elem? items (wf.id * wavefront_size + 0) ≡ some item

abbrev pub with_wavefronts : Machine → List Wavefront → Machine
with_wavefronts m wfs = record m { group = record m.group { wavefronts = wfs } }

abbrev pub waiting : Wavefront → Wavefront
waiting wf = record wf { at_barrier = true }

found_behind :
    (xs ys : List Wavefront) (wf : Wavefront) → get_elem? (xs ++ wf ∷ ys) (length xs) ≡ some wf
found_behind [] ys wf = refl
found_behind (x ∷ xs) ys wf = found_behind xs ys wf

set_behind :
    (xs ys : List Wavefront) (wf wf' : Wavefront)
    → set (xs ++ wf ∷ ys) (length xs) wf' ≡ xs ++ wf' ∷ ys
set_behind [] ys wf wf' = refl
set_behind (x ∷ xs) ys wf wf' = ap (λ (l : List Wavefront). x ∷ l) (set_behind xs ys wf wf')

length_behind : (xs : List Wavefront) (wf : Wavefront) → length (xs ++ wf ∷ []) ≡ length xs + 1
length_behind [] wf = refl
length_behind (x ∷ xs) wf = omega (arith, length_behind xs wf)

module _ (fpu : FloatUnit) (code : KernelCode) (fuel : ℕ) where
  key_waits :
      (k : ℕ) (instr : Instruction) (key : Key) (wf : Wavefront) (m : Machine)
      → key ≡ Key.s_barrier
      → run_key fpu code k instr key wf m ≡ ok (put_wavefront m k (waiting wf), false)
  unfolding run_key
  key_waits k instr key wf m e = rw e refl

  context_made :
      (wg : WorkGroup) (wf : Wavefront) (item : WorkItem)
      → get_elem? wg.work_items (wf.id * wavefront_size + 0) ≡ some item
      → (ctx : ExecutionContext) × (create_context wg 0 wf ≡ ok ctx)
  unfolding create_context get_workitem_for_wf
  context_made wg wf item e = (
    record {
      wavefront_id = wf.id;
      work_item_x = item.local_id_x;
      work_item_y = item.local_id_y;
      work_item_z = item.local_id_z;
      address = 0;
      wf_size = length wg.wavefronts;
      group_size = wg.group_size;
    },
    rw e refl,
  )

  not_asked :
      (m : Machine) (ctx : ExecutionContext)
      → m.debug.execution_mode ≡ ExecutionMode.run
      → has_breakpoint m.debug.breakpoints ctx.address ≡ false
      → process_instruction m.storage m.group m.debug ctx ≡ ok m.debug
  unfolding process_instruction is_terminal is_step
  not_asked m ctx mode none = rw (mode, none) refl

  one_turns_up :
      (k : ℕ) (m : Machine) (wf : Wavefront)
      → get_elem? m.group.wavefronts k ≡ some wf
      → m.debug.execution_mode ≡ ExecutionMode.run
      → Arrives code m.group.work_items m.debug wf
      → run_wavefront (suc fuel) fpu code k m ≡ ok (put_wavefront m k (waiting wf))
  unfolding run_wavefront run_rounds run_round wavefront_at
  one_turns_up k m wf found mode a =
      let (ctx, made) = context_made m.group wf a.item a.item_there in
      let quiet = not_asked m (record ctx { address = a.instr.addr }) mode a.no_breakpoint in
      let waits = key_waits k a.instr a.instr.key wf m a.is_barrier in
      rw (found, made, a.current, quiet, waits) refl

  each_turns_up :
      (todo done : List Wavefront) (m : Machine)
      → m.debug.execution_mode ≡ ExecutionMode.run
      → All (Arrives code m.group.work_items m.debug) todo
      → run_wavefronts
          (suc fuel)
          fpu
          code
          (length todo)
          (length done)
          (with_wavefronts m (done ++ todo))
        ≡ ok (with_wavefronts m (done ++ map waiting todo))
  unfolding run_wavefronts put_wavefront
  each_turns_up [] done m mode arrives = refl
  each_turns_up (wf ∷ todo) done m mode (a, arrives) =
      let one =
        one_turns_up (length done) (with_wavefronts m (done ++ wf ∷ todo)) wf
          (found_behind done todo wf) mode a in
      let replaced = set_behind done todo wf (waiting wf) in
      let later = each_turns_up todo (done ++ waiting wf ∷ []) m mode arrives in
      let later' =
        rw
          (
            length_behind done (waiting wf),
            append_assoc done (waiting wf ∷ []) todo,
            append_assoc done (waiting wf ∷ []) (map waiting todo),
          )
          at later in
      rw (one, replaced) later'

  cleared :
      (items : List WorkItem) (debug : DebugContext) (wfs : List Wavefront)
      → All (Arrives code items debug) wfs
      → clear_barriers (map waiting wfs) ≡ ok wfs
  unfolding clear_barriers
  cleared items debug [] arrives = refl
  cleared items debug (wf ∷ wfs) (a, arrives) =
      let same : record wf { at_barrier = false } ≡ wf =
        ap (λ (b : Bool). record wf { at_barrier = b }) (sym a.not_waiting) in
      let rest = cleared items debug wfs arrives in
      rw rest (ap (λ (w : Wavefront). ok (w ∷ wfs)) same)

  going_on :
      (items : List WorkItem) (debug : DebugContext) (wfs : List Wavefront)
      → wfs ≢ []
      → All (Arrives code items debug) wfs
      → (all_wf_completed wfs ≡ false) × (all_wf_completed (map waiting wfs) ≡ false)
  unfolding all_wf_completed
  going_on items debug [] filled arrives = absurd (filled refl)
  going_on items debug (wf ∷ wfs) filled (a, arrives) =
      let n = a.not_completed in (rw n refl, rw n refl)

  one_turn :
      (m : Machine)
      → m.group.wavefronts ≢ []
      → m.debug.execution_mode ≡ ExecutionMode.run
      → All (Arrives code m.group.work_items m.debug) m.group.wavefronts
      → (run_wavefronts (suc fuel) fpu code (length m.group.wavefronts) 0 m >>= resolve_barrier)
        ≡ ok m
  unfolding resolve_barrier
  one_turn m filled mode arrives =
      let wfs = m.group.wavefronts in
      let arrived = each_turns_up wfs [] m mode arrives in
      let (_, running) = going_on m.group.work_items m.debug wfs filled arrives in
      let rest = cleared m.group.work_items m.debug wfs arrives in rw (arrived, running, rest) refl

  every_turn :
      (m : Machine)
      → m.group.wavefronts ≢ []
      → All (Arrives code m.group.work_items m.debug) m.group.wavefronts
      → (run_wavefronts (suc fuel) fpu code (length m.group.wavefronts) 0 m >>= resolve_barrier)
        ≡ ok m
      → (turns : ℕ) → run_work_group turns (suc fuel) fpu code m ≡ fail Fault.no_fuel
  unfolding run_work_group
  every_turn m filled arrives turn zero =
      let (running, _) = going_on m.group.work_items m.debug m.group.wavefronts filled arrives in
      rw running refl
  every_turn m filled arrives turn (suc turns) =
      let (running, _) = going_on m.group.work_items m.debug m.group.wavefronts filled arrives in
      rw (running, run_work_group, turn) (every_turn m filled arrives turn turns)

-- For a work group of at least one wavefront, in execution mode RUN, with fuel for at least one round of a
-- wavefront, where every wavefront is not completed, not marked as waiting, has its first work item, and is
-- before an S_BARRIER without a global breakpoint: a turn of the loop of `run_work_group`, in which every
-- wavefront arrives and the barrier is resolved, returns the machine as it was, with every wavefront before
-- the same S_BARRIER; and for every number of turns the run of the group uses them all up and does not end.
pub run_work_group-barrier :
    (fpu : FloatUnit) (code : KernelCode) (fuel turns : ℕ) (m : Machine)
    → m.group.wavefronts ≢ []
    → m.debug.execution_mode ≡ ExecutionMode.run
    → All (Arrives code m.group.work_items m.debug) m.group.wavefronts
    → ((run_wavefronts (suc fuel) fpu code (length m.group.wavefronts) 0 m >>= resolve_barrier)
        ≡ ok m)
      × (run_work_group turns (suc fuel) fpu code m ≡ fail Fault.no_fuel)
run_work_group-barrier fpu code fuel turns m filled mode arrives =
    let turn = one_turn fpu code fuel m filled mode arrives in
    (turn, every_turn fpu code fuel m filled arrives turn turns)
