-- ===== src/ComputeUnit.antt =====
-- emulator/src/gpu/compute_unit.cpp: the run of a work group, with the wavefront's `get_cur_instr` and
-- `to_next_instr`. The wavefronts are named by their index in the group, so that the debugger's view of
-- the group and the running wavefront are one. Both loops take fuel: a kernel need not end.
pub mod Rounds
pub mod Barrier
pub mod Ends
pub mod Branch
pub mod Endless
use red_o_lator.Base.{
  ℕ, zero, suc, ◌+◌, Bool, true, false, ◌&&◌, List, [], ◌∷◌, length, get_elem?, set, if◌then◌else◌,
  Result, ok, fail, Fault, or_fail, ◌>>=◌,
}
use red_o_lator.Register.{hidden_add, was_used}
use red_o_lator.Storage.{Storage}
use red_o_lator.Wavefront.{Wavefront}
use red_o_lator.WorkGroup.{WorkGroup}
use red_o_lator.Alu.Instr.{FloatUnit, Ran, run_instr}
use red_o_lator.KernelCode.{Key, Instruction, KernelCode, get_width, get_instr}
use red_o_lator.DebugContext.{
  DebugContext, ExecutionContext, process_instruction, process_exception, create_context,
}

unfoldable pub get_cur_instr : KernelCode → Wavefront → Result Instruction
get_cur_instr code wf = get_instr code wf.program_counter.value

unfoldable pub to_next_instr : KernelCode → Wavefront → Result Wavefront
to_next_instr code wf = do
  let (used, pc) = was_used wf.program_counter
  if used then ok (record wf { program_counter = pc }) else do
    instr ← get_cur_instr code wf
    width ← get_width instr
    ok (record wf { program_counter = hidden_add pc width })

-- What a run changes.
pub record Machine : Type 0 where
  pub group : WorkGroup
  pub storage : Storage
  pub debug : DebugContext

unfoldable pub wavefront_at : Machine → ℕ → Result Wavefront
wavefront_at m k = or_fail (get_elem? m.group.wavefronts k) Fault.undefined

unfoldable pub put_wavefront : Machine → ℕ → Wavefront → Machine
put_wavefront m k wf = record m {
  group = record m.group { wavefronts = set m.group.wavefronts k wf };
}

-- The machine after an instruction, and after the handler of its exception.
unfoldable pub after_instr : Machine → ℕ → Ran → Wavefront → Machine
after_instr m k ran wf = record (put_wavefront m k wf) {
  storage = ran.storage;
  debug = if ran.thrown then process_exception m.debug else m.debug;
}

-- The body of the loop of `run_wavefront` after the debugger was asked: the machine, and whether the loop
-- goes on.
unfoldable pub run_key :
    FloatUnit → KernelCode → ℕ → Instruction → Key → Wavefront → Machine → Result (Machine × Bool)
run_key fpu code k instr Key.s_endpgm wf m =
    ok (put_wavefront m k (record wf { completed = true }), false)
run_key fpu code k instr Key.s_barrier wf m =
    ok (put_wavefront m k (record wf { at_barrier = true }), false)
run_key fpu code k instr Key.s_waitcnt wf m = do
  wf' ← to_next_instr code wf
  ok (put_wavefront m k wf', true)
run_key fpu code k instr (Key.executed key) wf m = do
  ran ← run_instr fpu key instr.operands wf m.storage
  wf' ← to_next_instr code ran.wavefront
  ok (after_instr m k ran wf', true)

unfoldable pub run_round :
    FloatUnit → KernelCode → ℕ → ExecutionContext → Machine → Result (Machine × Bool)
run_round fpu code k ctx m = do
  wf ← wavefront_at m k
  instr ← get_cur_instr code wf
  debug ← process_instruction m.storage m.group m.debug (record ctx { address = instr.addr })
  run_key fpu code k instr instr.key wf (record m { debug = debug })

unfoldable pub run_rounds :
    ℕ → FloatUnit → KernelCode → ℕ → ExecutionContext → Machine → Result Machine
run_rounds zero fpu code k ctx m = fail Fault.no_fuel
run_rounds (suc fuel) fpu code k ctx m = do
  (m', goes_on) ← run_round fpu code k ctx m
  elim goes_on [ true ↦ run_rounds fuel fpu code k ctx m' | false ↦ ok m' ]

unfoldable pub run_wavefront : ℕ → FloatUnit → KernelCode → ℕ → Machine → Result Machine
run_wavefront fuel fpu code k m = do
  wf ← wavefront_at m k
  ctx ← create_context m.group 0 wf
  run_rounds fuel fpu code k ctx m

unfoldable pub all_wf_completed : List Wavefront → Bool
all_wf_completed [] = true
all_wf_completed (wf ∷ wfs) = wf.completed && all_wf_completed wfs

-- The loop of `resolve_barrier`.
unfoldable pub clear_barriers : List Wavefront → Result (List Wavefront)
clear_barriers [] = ok []
clear_barriers (wf ∷ wfs) = do
  rest ← clear_barriers wfs
  if wf.at_barrier then ok (record wf { at_barrier = false } ∷ rest) else fail Fault.assertion

unfoldable pub resolve_barrier : Machine → Result Machine
resolve_barrier m = if all_wf_completed m.group.wavefronts then ok m else do
  wfs ← clear_barriers m.group.wavefronts
  ok (record m { group = record m.group { wavefronts = wfs } })

-- The `for` loop over the wavefronts from index k on.
unfoldable pub run_wavefronts : ℕ → FloatUnit → KernelCode → ℕ → ℕ → Machine → Result Machine
run_wavefronts fuel fpu code zero k m = ok m
run_wavefronts fuel fpu code (suc left) k m = do
  m' ← run_wavefront fuel fpu code k m
  run_wavefronts fuel fpu code left (k + 1) m'

unfoldable pub run_work_group : ℕ → ℕ → FloatUnit → KernelCode → Machine → Result Machine
run_work_group zero fuel fpu code m =
    if all_wf_completed m.group.wavefronts then ok m else fail Fault.no_fuel
run_work_group (suc turns) fuel fpu code m = elim (all_wf_completed m.group.wavefronts) [
  | true ↦ ok m
  | false ↦
      run_wavefronts fuel fpu code (length m.group.wavefronts) 0 m
      >>= resolve_barrier
      >>= run_work_group turns fuel fpu code
]
