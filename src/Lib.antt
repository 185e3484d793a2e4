-- ===== src/Lib.antt =====
-- red-o-lator: an emulator of AMD GCN compute kernels. A kernel's work items run in wavefronts of up
-- to 64; a wavefront has scalar and vector registers, EXEC (which work items are active), VCC, SCC,
-- M0, MODE, STATUS and a program counter. `emulator/src/gpu` hands out work groups and holds the
-- memory, `emulator/src/flow` keeps the wavefronts and `emulator/src/alu` executes one instruction: a
-- format's `get_*_state` reads the operands into a state, a function of that state computes, and
-- `update_with_*_state` writes the results back.
--
-- The files:
--   Base          shared types: words of w bits as natural numbers cut by `% 2 ^ w`, integers,
--                 lists, results that can fail, loops, and the laws of bits
--   Util          emulator/src/commons/util.h and util.cpp: bit_count, rev_bit, sign_ext, to_uin64_t
--   Register      emulator/src/flow/register.h and register.cpp: ProgramCounter, ModeReg, StatusReg
--   Instruction   common/model/instr/instruction.h: Operand and the access to it
--   KernelCode    common/model/instr/instruction.cpp: instructions and the map from addresses to them
--   Wavefront     emulator/src/flow/wavefront.cpp: read_operand, write_data_to_gpr, set_sgpr_pair;
--                 States and VectorStates: wf_state.h and the state functions of the formats
--   Alu           emulator/src/alu: one module for each alu_*.cpp, with one function for each
--                 `run_s_*` and `run_v_*` and the `run_*` that choose one (Sop1, Sop2, Sopc, Sopk,
--                 Sopp, Smem, Vop1, Vop2, Vop3, Vopc, Flat); Instr: alu.cpp, which chooses the format
--   Storage       emulator/src/gpu/storage.cpp: the device memory, big-endian words in bytes
--   WorkGroup     emulator/src/flow/wavefront.cpp and common/model/kernel/KernelConfig.h: the work
--                 items of a group, and its wavefronts with their first registers
--   Dispatcher    emulator/src/gpu/dispatcher.cpp: the order of the work groups
--   ComputeUnit   emulator/src/gpu/compute_unit.cpp: the run of a work group, which asks DebugContext
--                 before each instruction and gives the instruction to Alu.Instr
--   DebugContext  emulator/src/flow/debug_context.cpp: execution modes, messages, pauses
--   Breakpoint    common/debugger/breakpoint: the breakpoints of a run, which DebugContext asks
--   Channel       common/debugger/channel/Channel.h: the channel of one value between two threads, one
--                 that reads and one that writes, with the condition variables they sleep on
--   Executor      emulator/src/Executor.cpp: a kernel's arguments in Storage, and its run over the work
--                 groups of Dispatcher
--   Tests         concrete runs
--
-- The choices of the model. Code that can abort returns a Result: a failed assert is
-- `Fault.assertion`, an instruction that only asserts that it is unsupported is `Fault.unsupported`,
-- `std::get` on the wrong alternative is `Fault.bad_variant`, a thrown `std::runtime_error` is
-- `Fault.runtime_error`, and undefined behaviour (a shift by the width or more, an unchecked vector
-- index out of range) is `Fault.undefined`. Signed arithmetic that overflows wraps. A
-- state's pointers to the program counter, MODE and STATUS are values, which `put_registers` stores
-- back. DEST_TYPE and SRC0_TYPE, which the constructor leaves unset, start as 0. A float is kept as its
-- bit pattern; the floating-point operations of the C++ implementation are the parameters `Floats` and
-- `Conversions`. The instruction key is one data type for each format. A vector instruction's state,
-- in the sources one vector for each operand, is a list of lanes here, and a `run_v_*` works on its
-- lane; VCC, which the lanes share, is passed on beside them. The storage, one object in the sources,
-- is passed on explicitly. A wavefront is named by its index in its group. What arrives on the
-- debugger's channel in a run is a list of events: a message, or a moment at which `tryRead` finds
-- none; its end is the closed channel.
--
-- The loop of `init_wavefronts` runs on fuel, one round for each work item, since each round takes
-- at least one of them. The loops of `run_wavefront`, `run_work_group` and `execute_kernel` run on
-- fuel, since a kernel need not end; what is stated of them holds for every amount (of at least one
-- round, where it says so). The other loops run a known number of rounds.
--
-- Not modelled: the FLAT atomics, which no instruction reaches; `update_with_vopc_state`, which nothing
-- calls; writes of float values to the storage; the log; the parser and the instruction tables; the
-- OpenCL runtime in driver/; the debugger's windows; the inter-process messages.

pub mod Base
pub mod Util
pub mod Register
pub mod Instruction
pub mod Storage
pub mod Wavefront
pub mod Alu
pub mod WorkGroup
pub mod Dispatcher
pub mod Tests
pub mod Breakpoint
pub mod Channel
pub mod ComputeUnit
pub mod DebugContext
pub mod Executor
pub mod KernelCode
