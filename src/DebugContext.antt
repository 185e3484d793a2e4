-- ===== src/DebugContext.antt =====
-- emulator/src/flow/debug_context.h and debug_context.cpp: the debugger's side of a run. The outgoing channel is
-- the list of the messages written to it; the incoming one is the list of what its reader meets: a message,
-- or a moment without one. Where the list ends, the channel is closed and empty.
pub mod Terminal
pub mod Resume
pub mod Local
use red_o_lator.Base.{
  ℕ, zero, suc, ◌+◌, ◌*◌, ◌%◌, ◌^◌, Bool, true, false, not, ◌&&◌, ◌||◌, List, [], ◌∷◌, ◌++◌, length,
  get_elem?, take, drop, leb, ◌==◌, if◌then◌else◌, Result, ok, fail, Fault, or_fail, ◌>>=◌,
}
use red_o_lator.Storage.{Storage, read_data}
use red_o_lator.Wavefront.{Wavefront}
use red_o_lator.Wavefront.States.{get_common_sopp_state}
use red_o_lator.WorkGroup.{WorkGroup, WorkItem, WorkSize, get_workitem_for_wf}
use red_o_lator.Breakpoint.{
  Breakpoint, BreakpointStorage, add_breakpoint, remove_breakpoint, has_breakpoint,
}

pub data ExecutionMode : Type 0 where
  stop pause run step exc : ExecutionMode

pub record ExecutionContext : Type 0 where
  pub wavefront_id : ℕ
  pub work_item_x : ℕ
  pub work_item_y : ℕ
  pub work_item_z : ℕ
  pub address : ℕ
  pub wf_size : ℕ
  pub group_size : WorkSize

pub record RegData : Type 0 where
  pub s_file : List ℕ
  pub v_file : List ℕ
  pub reladdr : ℕ
  pub exec : ℕ
  pub vcc : ℕ
  pub m0 : ℕ
  pub simm16 : ℕ
  pub scc : Bool

-- The messages that `processMessage` handles, and those that the context writes.
pub data DebuggerMessage : Type 0 where
  req_mem : (address : ℕ) → DebuggerMessage
  req_reg : ExecutionContext → DebuggerMessage
  set_breakpoint : (remove : Bool) → Breakpoint → DebuggerMessage
  run : (stepping : Bool) → DebuggerMessage
  stop : DebuggerMessage

pub data OutMessage : Type 0 where
  on_respond_memory : (address : ℕ) → List ℕ → OutMessage
  on_respond_registers : RegData → OutMessage
  on_pause : ExecutionContext → OutMessage
  on_exception : OutMessage

pub data Event : Type 0 where
  message : DebuggerMessage → Event
  idle : Event

pub record DebugContext : Type 0 where
  pub execution_mode : ExecutionMode
  pub breakpoints : BreakpointStorage
  pub sent : List OutMessage
  pub incoming : List Event

unfoldable pub is_terminal : ExecutionMode → Bool
is_terminal ExecutionMode.stop = true
is_terminal ExecutionMode.exc = true
is_terminal ExecutionMode.pause = false
is_terminal ExecutionMode.run = false
is_terminal ExecutionMode.step = false

unfoldable pub is_pause : ExecutionMode → Bool
is_pause ExecutionMode.pause = true
is_pause ExecutionMode.stop = false
is_pause ExecutionMode.exc = false
is_pause ExecutionMode.run = false
is_pause ExecutionMode.step = false

unfoldable pub is_step : ExecutionMode → Bool
is_step ExecutionMode.step = true
is_step ExecutionMode.stop = false
is_step ExecutionMode.exc = false
is_step ExecutionMode.run = false
is_step ExecutionMode.pause = false

-- The first work item with the context's ids, from index i on; 0 if there is none.
unfoldable pub item_index : ExecutionContext → List WorkItem → ℕ → ℕ
item_index context [] i = 0
item_index context (wi ∷ wis) i =
    let rest = item_index context wis (i + 1) in
    if context.work_item_x == wi.local_id_x
      && (context.work_item_y == wi.local_id_y && context.work_item_z == wi.local_id_z)
    then i
    else rest

-- The wavefront is indexed with no check; so is the range of the vector file.
unfoldable pub get_registers : WorkGroup → ExecutionContext → Result RegData
get_registers wg context = do
  wf ← or_fail (get_elem? wg.wavefronts context.wavefront_id) Fault.undefined
  let sopp = get_common_sopp_state wf
  let v_start = item_index context wg.work_items 0 * wf.vgprsnum
  if leb (v_start + wf.vgprsnum) (length wf.vector_reg_file)
      then ok (record {
        s_file = wf.scalar_reg_file;
        v_file = take wf.vgprsnum (drop v_start wf.vector_reg_file);
        reladdr = sopp.reladdr;
        exec = sopp.exec;
        vcc = sopp.vcc;
        m0 = sopp.m0;
        simm16 = sopp.simm16;
        scc = sopp.scc;
      })
      else fail Fault.undefined

unfoldable pub send : DebugContext → OutMessage → DebugContext
send ctx m = record ctx { sent = ctx.sent ++ m ∷ [] }

unfoldable pub process_message :
    Storage → WorkGroup → DebugContext → DebuggerMessage → Result DebugContext
process_message storage wg ctx (req_mem address) = do
  mem ← read_data storage address 0 512 true
  ok (send ctx (on_respond_memory address mem))
process_message storage wg ctx (req_reg context) = do
  registers ← get_registers wg context
  ok (send ctx (on_respond_registers registers))
process_message storage wg ctx (set_breakpoint remove breakpoint) = ok (
    if is_terminal ctx.execution_mode then ctx else record ctx {
      breakpoints =
          if remove
          then remove_breakpoint ctx.breakpoints breakpoint
          else add_breakpoint ctx.breakpoints breakpoint;
    })
process_message storage wg ctx (DebuggerMessage.run stepping) = ok (
    if is_terminal ctx.execution_mode
    then ctx
    else record ctx { execution_mode = if stepping then ExecutionMode.step else ExecutionMode.run })
process_message storage wg ctx DebuggerMessage.stop =
    ok (record ctx { execution_mode = ExecutionMode.stop })

-- `tryRead` finds nothing at an idle moment.
unfoldable pub read_messages : Storage → WorkGroup → List Event → DebugContext → Result DebugContext
read_messages storage wg [] ctx = ok (record ctx { incoming = [] })
read_messages storage wg (idle ∷ events) ctx = ok (record ctx { incoming = events })
read_messages storage wg (message m ∷ events) ctx = do
  ctx' ← process_message storage wg ctx m
  read_messages storage wg events ctx'

-- `read` waits for the next message.
unfoldable pub wait_for_resume :
    Storage → WorkGroup → List Event → DebugContext → Result DebugContext
wait_for_resume storage wg [] ctx = read_messages storage wg [] ctx
wait_for_resume storage wg (idle ∷ events) ctx =
    let waited = wait_for_resume storage wg events ctx in
    if is_pause ctx.execution_mode then waited else read_messages storage wg (idle ∷ events) ctx
wait_for_resume storage wg (message m ∷ events) ctx =
    let resumed = (do
      ctx' ← process_message storage wg ctx m
      wait_for_resume storage wg events ctx') in
    if is_pause ctx.execution_mode
    then resumed
    else read_messages storage wg (message m ∷ events) ctx

unfoldable pub process_instruction :
    Storage → WorkGroup → DebugContext → ExecutionContext → Result DebugContext
process_instruction storage wg ctx context =
    let paused = send (record ctx { execution_mode = ExecutionMode.pause }) (on_pause context) in
    if is_terminal ctx.execution_mode
    then ok ctx
    else if is_step ctx.execution_mode || has_breakpoint ctx.breakpoints context.address
    then wait_for_resume storage wg ctx.incoming paused
    else ok ctx

unfoldable pub process_exception : DebugContext → DebugContext
process_exception ctx = send (record ctx { execution_mode = ExecutionMode.exc }) on_exception

unfoldable pub create_context : WorkGroup → ℕ → Wavefront → Result ExecutionContext
create_context wg address wf = do
  wi ← get_workitem_for_wf wg 0 wf.id
  ok (record {
    wavefront_id = wf.id;
    work_item_x = wi.local_id_x;
    work_item_y = wi.local_id_y;
    work_item_z = wi.local_id_z;
    address = address;
    wf_size = length wg.wavefronts;
    group_size = wg.group_size;
  })
