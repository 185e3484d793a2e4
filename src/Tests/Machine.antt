-- ===== src/Tests/Machine.antt =====
-- Runs of the compute unit and the debugger's part of it.
use red_o_lator.Base.{
  ℕ, ◌+◌, ◌≡◌, ◌≢◌, refl, arith, true, false, ◌||◌, List, [], ◌∷◌, get_elem?, take, drop, ok, fail,
  Fault, ◌>>=◌, Conversions, ltb, leb, ◌==◌,
}
use red_o_lator.Storage.{Storage, init, read_data}
use red_o_lator.Storage.Bytes.{IsSized}
use red_o_lator.Storage.Safe.{read_data-safe}
use red_o_lator.Wavefront.{Wavefront}
use red_o_lator.WorkGroup.{WorkGroup, get_workitem_for_wf}
use red_o_lator.Alu.Instr.{FloatUnit, sopp}
use red_o_lator.KernelCode.{Key, Instruction, KernelCode, find, get_instr}
use red_o_lator.Breakpoint.{
  global_at, local_at, contains, insert, set_of, put_set, empty_storage, add_breakpoint,
  has_breakpoint, has_breakpoint_in,
}
use red_o_lator.Breakpoint.Replay.{
  added, removed, apply, replay, is_set, same_breakpoint, has_breakpoint-replay,
}
use red_o_lator.DebugContext.{
  DebugContext, ExecutionMode, ExecutionContext, DebuggerMessage, Event, set_breakpoint, message,
  idle, is_pause, wait_for_resume, read_messages, process_instruction, process_exception,
  process_message, is_terminal, is_step, create_context,
}
use red_o_lator.DebugContext.Terminal.{DebugReach, Ended, messages, exception, DebugReach-Ended}
use red_o_lator.DebugContext.Resume.{wait_for_resume-resumed}
use red_o_lator.DebugContext.Local.{process_instruction-local}
use red_o_lator.ComputeUnit.{
  Machine, get_cur_instr, wavefront_at, put_wavefront, run_key, run_round, run_rounds,
  run_wavefront, resolve_barrier, run_work_group,
}
use red_o_lator.ComputeUnit.Endless.{Arrives, run_work_group-barrier}
use red_o_lator.ComputeUnit.Branch.{is_taken, run_sopp-target}
use red_o_lator.Instruction.{Operand, get_uint, OperandType, OperandValue}
use red_o_lator.Alu.Sopp.{run_sopp, branches, s_cbranch_scc0}
use red_o_lator.Wavefront.States.{read_u64}
use red_o_lator.ComputeUnit.{to_next_instr, run_wavefronts}
use red_o_lator.KernelCode.{get_width}
use red_o_lator.Base.{u64, if◌then◌else◌}
use red_o_lator.ComputeUnit.Ends.{HasEnded, run_wavefront-Left, resolve_barrier-away}
use red_o_lator.Tests.{small_wavefront}

abbrev no_conversions : Conversions
no_conversions = record { lt = ltb; le = leb; eq = λ a b. a == b; is_nan = λ a. false }

abbrev some_fpu : FloatUnit
some_fpu = record {
  floats = record {
    float_add = λ a b. a + b;
    float_sub = λ a b. a;
    float_mul = λ a b. a;
    float_lt = ltb;
  };
  f32 = no_conversions;
  f64 = no_conversions;
}

-- A barrier and the end of the program.
abbrev barrier_instr : Instruction
barrier_instr = record { key = Key.s_barrier; width_in_bytes = 4; addr = 0; operands = [] }

abbrev end_instr : Instruction
end_instr = record { key = Key.s_endpgm; width_in_bytes = 4; addr = 4; operands = [] }

abbrev with_barrier : KernelCode
with_barrier = record { code = (0, barrier_instr) ∷ (4, end_instr) ∷ [] }

abbrev at_the_end : Wavefront
unfolding small_wavefront
at_the_end = record small_wavefront { program_counter = record { value = 4; used = false } }

abbrev at_the_start : Wavefront
unfolding small_wavefront
at_the_start = record small_wavefront { program_counter = record { value = 0; used = false } }

abbrev two_wavefronts : WorkGroup
two_wavefronts = record {
  group_size = record { x = 8; y = 1; z = 1 };
  group_id = record { x = 0; y = 0; z = 0 };
  wavefronts = at_the_start ∷ at_the_end ∷ [];
  work_items = record { local_id_x = 0; local_id_y = 0; local_id_z = 0 } ∷ [];
}

abbrev small_storage : Storage
unfolding init
small_storage = init 8

abbrev running : DebugContext
running = record {
  execution_mode = ExecutionMode.run;
  breakpoints = replay (added (local_at 4 0) ∷ added (global_at 8) ∷ []);
  sent = [];
  incoming = [];
}

abbrev two_machine : Machine
two_machine = record { group = two_wavefronts; storage = small_storage; debug = running }

abbrev at_barrier : Machine
at_barrier = record two_machine {
  group = record two_wavefronts { wavefronts = at_the_start ∷ at_the_start ∷ [] };
}

start_Arrives : Arrives with_barrier two_wavefronts.work_items running at_the_start
unfolding get_cur_instr get_instr at_the_start find has_breakpoint contains replay apply
    add_breakpoint empty_storage insert set_of put_set
start_Arrives = record {
  instr = barrier_instr;
  current = refl;
  is_barrier = refl;
  no_breakpoint = refl;
  not_completed = refl;
  not_waiting = refl;
  item = record { local_id_x = 0; local_id_y = 0; local_id_z = 0 };
  item_there = refl;
}

run_work_group-barrier_example :
    ((run_wavefronts 5 some_fpu with_barrier 2 0 at_barrier >>= resolve_barrier) ≡ ok at_barrier)
    × (run_work_group 3 5 some_fpu with_barrier at_barrier ≡ fail Fault.no_fuel)
run_work_group-barrier_example =
    run_work_group-barrier some_fpu with_barrier 4 3 at_barrier (λ e. cc) refl
      (start_Arrives, (start_Arrives, tt))

-- A jump from address 0 to address 64.
abbrev branch_target : Operand
branch_target = record {
  type = OperandType.label;
  value = OperandValue.uint_value 0x40;
  reg_amount = 0;
}

abbrev branch_instr : Instruction
branch_instr = record {
  key = Key.executed (sopp (branches s_cbranch_scc0));
  width_in_bytes = 4;
  addr = 0;
  operands = branch_target ∷ [];
}

abbrev with_branch : KernelCode
with_branch = record { code = (0, branch_instr) ∷ (64, end_instr) ∷ [] }

run_sopp-target_example :
    (run_sopp (branches s_cbranch_scc0) (branch_target ∷ []) at_the_start
      >>= to_next_instr with_branch)
    ≡ ok (record at_the_start {
      program_counter = record {
        value = if is_taken s_cbranch_scc0 at_the_start then 0x40 else u64 (0 + 4);
        used = false;
      };
    })
unfolding at_the_start get_cur_instr get_instr find get_width read_u64 get_uint
run_sopp-target_example =
    run_sopp-target s_cbranch_scc0 (branch_target ∷ []) at_the_start with_branch 0x40 4 branch_instr
      refl refl refl refl

abbrev ended_machine : Machine
ended_machine = record two_machine {
  group = record two_wavefronts {
    wavefronts = at_the_start ∷ record at_the_end { completed = true } ∷ [];
  };
}

wavefront_ends : run_wavefront 1 some_fpu with_barrier 1 two_machine ≡ ok ended_machine
unfolding run_wavefront run_rounds run_round run_key wavefront_at create_context get_workitem_for_wf
    at_the_end get_cur_instr get_instr find process_instruction is_terminal is_step has_breakpoint
    contains replay apply add_breakpoint empty_storage insert set_of put_set put_wavefront
wavefront_ends = refl

run_wavefront-Left_example :
    HasEnded 1 ended_machine.group.wavefronts
    × ((j : ℕ)
        → 1 ≢ j
        → get_elem? ended_machine.group.wavefronts j ≡ get_elem? two_wavefronts.wavefronts j)
run_wavefront-Left_example =
    run_wavefront-Left some_fpu with_barrier 1 1 two_machine ended_machine wavefront_ends

resolve_barrier-away_example : resolve_barrier ended_machine ≡ fail Fault.assertion
unfolding at_the_end
resolve_barrier-away_example =
    resolve_barrier-away ended_machine 1 0 (record at_the_end { completed = true }) at_the_start
      refl refl refl refl

abbrev stopped : DebugContext
stopped = record running {
  execution_mode = ExecutionMode.stop;
  incoming = message (set_breakpoint false (global_at 12)) ∷ [];
}

stop_terminal : is_terminal ExecutionMode.stop ≡ true
unfolding is_terminal
stop_terminal = refl

stopped_reads :
    read_messages small_storage two_wavefronts stopped.incoming stopped
    ≡ ok (record stopped { incoming = [] })
unfolding read_messages process_message is_terminal
stopped_reads = refl

DebugReach-Ended_example : Ended stopped (process_exception (record stopped { incoming = [] }))
DebugReach-Ended_example = DebugReach-Ended stop_terminal (
    DebugReach.next
      (DebugReach.next DebugReach.here (
        messages small_storage two_wavefronts stopped (record stopped { incoming = [] })
          stopped_reads))
      (exception (record stopped { incoming = [] })))

abbrev waiting : DebugContext
waiting = record running { execution_mode = ExecutionMode.pause }

abbrev some_messages : List Event
some_messages =
    idle ∷ message (set_breakpoint true (global_at 8)) ∷ message (DebuggerMessage.run true) ∷ []

storage-IsSized : IsSized small_storage
unfolding small_storage
storage-IsSized = refl

wait_for_resume-resumed_example :
    (c' : DebugContext) × (wait_for_resume small_storage two_wavefronts some_messages waiting
      ≡ ok c')
    × (is_pause c'.execution_mode ≡ false)
wait_for_resume-resumed_example =
    wait_for_resume-resumed small_storage two_wavefronts some_messages waiting storage-IsSized
      (tt, (tt, tt)) refl

abbrev at_four : ExecutionContext
at_four = record {
  wavefront_id = 0;
  work_item_x = 0;
  work_item_y = 0;
  work_item_z = 0;
  address = 4;
  wf_size = 2;
  group_size = record { x = 8; y = 1; z = 1 };
}

four_unset : is_set (added (local_at 4 0) ∷ added (global_at 8) ∷ []) (global_at 4) ≡ false
unfolding is_set same_breakpoint
four_unset = refl

process_instruction-local_example :
    process_instruction small_storage two_wavefronts running at_four ≡ ok running
process_instruction-local_example =
    process_instruction-local small_storage two_wavefronts running at_four
      (added (local_at 4 0) ∷ added (global_at 8) ∷ []) refl refl four_unset

has_breakpoint-replay_example :
    let history = removed (global_at 8) ∷ added (local_at 8 1) ∷ added (global_at 8) ∷ [] in
    (has_breakpoint (replay history) 8 ≡ is_set history (global_at 8))
    × (has_breakpoint_in (replay history) 8 1
        ≡ (is_set history (global_at 8) || is_set history (local_at 8 1)))
has_breakpoint-replay_example =
    has_breakpoint-replay (removed (global_at 8) ∷ added (local_at 8 1) ∷ added (global_at 8) ∷ [])
      8 1

read_data-safe_example :
    read_data small_storage 6 1 4 true ≡ ok (take 4 (drop (6 + 1) small_storage.data_))
read_data-safe_example = read_data-safe small_storage 6 1 4 storage-IsSized (omega arith)
