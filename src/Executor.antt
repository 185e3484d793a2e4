-- ===== src/Executor.antt =====
-- emulator/src/Executor.h and Executor.cpp, and common/model/kernel/arg: a kernel's arguments in the storage, and
-- its run. Writes to the log are left out.
pub mod Scalar
pub mod Quads
pub mod Pointer
use red_o_lator.Base.{
  ℕ, zero, suc, ◌+◌, ◌*◌, ◌/◌, ◌%◌, ◌^◌, Bool, true, false, not, List, [], ◌∷◌, ◌++◌, Option, none,
  some, u8, u32, u64, ◌<<<◌, bit_or, get_elem?, if◌then◌else◌, Result, ok, fail, Fault, or_fail,
  ◌>>=◌,
}
use red_o_lator.Storage.{Storage, Written, init, read_data, write_data8, write_data64}
use red_o_lator.WorkGroup.{WorkSize, KernelConfig, WorkGroup}
use red_o_lator.Dispatcher.{Dispatcher, new_dispatcher, has_next_wg, next_wg}
use red_o_lator.Alu.Instr.{FloatUnit}
use red_o_lator.KernelCode.{KernelCode}
use red_o_lator.Breakpoint.{BreakpointStorage}
use red_o_lator.DebugContext.{DebugContext, ExecutionMode, Event}
use red_o_lator.ComputeUnit.{Machine, run_work_group}

pub data KernelArgumentKind : Type 0 where
  scalar vector struct image sampler event pointer : KernelArgumentKind

pub record KernelArgumentStore : Type 0 where
  pub kind : KernelArgumentKind
  pub size : ℕ
  pub read_permission : Bool
  pub write_permission : Bool
  pub bytes : Option (List ℕ)
  pub output : Option (List ℕ)

-- A write whose exception leaves the executor.
unfoldable pub stored : Written → Result Storage
stored w = if w.thrown then fail Fault.runtime_error else ok w.storage

-- `read_8_bytes` of the storage: the eight bytes, most significant first, with no check that they are there.
unfoldable pub join_8_bytes : List ℕ → Result ℕ
join_8_bytes (a ∷ b ∷ c ∷ d ∷ e ∷ f ∷ g ∷ h ∷ rest) =
    let high = bit_or (bit_or (bit_or (a <<< 56) (b <<< 48)) (c <<< 40)) (d <<< 32) in
    ok (bit_or (bit_or (bit_or (bit_or high (e <<< 24)) (f <<< 16)) (g <<< 8)) h)
join_8_bytes _ = fail Fault.undefined

unfoldable pub read_8_bytes : Storage → ℕ → Result ℕ
read_8_bytes storage address = do bytes ← read_data storage address 0 8 false; join_8_bytes bytes

-- What one argument adds to the size.
unfoldable pub arg_size : KernelArgumentStore → Result ℕ
arg_size arg = elim arg.bytes [
  | none ↦ ok 0
  | some bytes ↦ elim arg.kind [
    | pointer ↦ ok 8
    | scalar ↦ ok arg.size
    | _ ↦ fail Fault.runtime_error
  ]
]

unfoldable pub evaluate_arg_size : List KernelArgumentStore → Result ℕ
evaluate_arg_size [] = ok 0
evaluate_arg_size (arg ∷ args) = do
  size ← arg_size arg
  rest ← evaluate_arg_size args
  ok (u64 (size + rest))

-- The loop over `bytes[i]`: the storage and `offsetForValue` after it. The offset is cut down to 32 bits.
unfoldable pub write_bytes : List ℕ → ℕ → ℕ → ℕ → ℕ → Storage → Result (Storage × ℕ)
write_bytes bytes i zero addr offset storage = ok (storage, offset)
write_bytes bytes i (suc left) addr offset storage = do
  byte ← or_fail (get_elem? bytes i) Fault.undefined
  storage' ← stored (write_data8 storage addr (u32 offset) (u8 byte))
  write_bytes bytes (i + 1) left addr (u64 (offset + 1)) storage'

-- The storage, `addr` and `offsetForValue` after an argument.
unfoldable pub write_arg_bytes :
    KernelArgumentStore → List ℕ → ℕ → ℕ → Storage → Result (Storage × ℕ × ℕ)
write_arg_bytes arg bytes addr offset storage = elim arg.kind [
  | pointer ↦ do
    storage' ← stored (write_data64 storage addr 0 (u64 (addr + offset)))
    (storage_end, offset') ←
        if arg.read_permission
        then write_bytes bytes 0 arg.size addr offset storage'
        else ok (storage', offset)
    ok (storage_end, u64 (addr + 8), offset')
  | scalar ↦ do
    (storage', offset') ← write_bytes bytes 0 arg.size addr offset storage
    ok (storage', addr, offset')
  | _ ↦ fail Fault.runtime_error
]

unfoldable pub write_arg : KernelArgumentStore → ℕ → ℕ → Storage → Result (Storage × ℕ × ℕ)
write_arg arg addr offset storage = elim arg.bytes [
  | none ↦ ok (storage, addr, offset)
  | some bytes ↦ write_arg_bytes arg bytes addr offset storage
]

-- The loop over the arguments: the addresses that they were written at.
unfoldable pub write_args : List KernelArgumentStore → ℕ → ℕ → Storage → Result (Storage × List ℕ)
write_args [] addr offset storage = ok (storage, [])
write_args (arg ∷ args) addr offset storage = do
  (storage', addr', offset') ← write_arg arg addr offset storage
  (storage_end, addrs) ← write_args args addr' offset' storage'
  ok (storage_end, addr ∷ addrs)

unfoldable pub read_args : Storage → ℕ → KernelArgumentStore → Result KernelArgumentStore
read_args storage addr arg = elim arg.bytes [
  | none ↦ ok arg
  | some bytes ↦ elim arg.kind [
    | scalar ↦ fail Fault.assertion
    | pointer ↦ if not arg.write_permission then ok arg else do
      real_addr ← read_8_bytes storage addr
      data_ ← read_data storage real_addr 0 (u32 arg.size) false
      ok (record arg { output = some data_ })
    | _ ↦ fail Fault.runtime_error
  ]
]

unfoldable pub read_all_args :
    Storage → List ℕ → List KernelArgumentStore → Result (List KernelArgumentStore)
read_all_args storage addrs [] = ok []
read_all_args storage [] (arg ∷ args) = fail Fault.undefined
read_all_args storage (addr ∷ addrs) (arg ∷ args) = do
  arg' ← read_args storage addr arg
  rest ← read_all_args storage addrs args
  ok (arg' ∷ rest)

-- The loop over the work groups. A work group that is a null pointer is run all the same.
unfoldable pub run_groups :
    ℕ
    → ℕ
    → ℕ
    → FloatUnit
    → KernelCode
    → Dispatcher
    → Storage
    → DebugContext
    → Result (Storage × DebugContext)
run_groups zero turns fuel fpu code dispatcher storage debug =
    if has_next_wg dispatcher then fail Fault.no_fuel else ok (storage, debug)
run_groups (suc groups) turns fuel fpu code dispatcher storage debug =
    elim (has_next_wg dispatcher) [
      | false ↦ ok (storage, debug)
      | true ↦ do
        (group, dispatcher') ← next_wg dispatcher
        wg ← or_fail group Fault.undefined
        m ←
            run_work_group turns fuel fpu code
              (record { group = wg; storage = storage; debug = debug })
        run_groups groups turns fuel fpu code dispatcher' m.storage m.debug
    ]

unfoldable pub is_stop : ExecutionMode → Bool
is_stop ExecutionMode.stop = true
is_stop ExecutionMode.pause = false
is_stop ExecutionMode.run = false
is_stop ExecutionMode.step = false
is_stop ExecutionMode.exc = false

-- What a kernel's run leaves: its arguments, the debugger's context, and whether OnStop was sent.
pub record Executed : Type 0 where
  pub arguments : List KernelArgumentStore
  pub debug : DebugContext
  pub on_stop : Bool

unfoldable pub execute_kernel :
    ℕ
    → ℕ
    → ℕ
    → FloatUnit
    → KernelConfig
    → WorkSize
    → KernelCode
    → List KernelArgumentStore
    → BreakpointStorage
    → List Event
    → Result Executed
execute_kernel groups turns fuel fpu config offsets code arguments breakpoints incoming = do
  x ← stored (write_data64 (init 10000000) 0 0 offsets.x)
  y ← stored (write_data64 x 0 8 offsets.y)
  z ← stored (write_data64 y 0 16 offsets.z)
  offset ← evaluate_arg_size arguments
  (written, addrs) ← write_args arguments (8 * 6) offset z
  (storage, debug) ← run_groups groups turns fuel fpu code (new_dispatcher config) written (record {
    execution_mode = ExecutionMode.run;
    breakpoints = breakpoints;
    sent = [];
    incoming = incoming;
  })
  arguments' ← read_all_args storage addrs arguments
  ok (record { arguments = arguments'; debug = debug; on_stop = is_stop debug.execution_mode })
