-- ===== src/DebugContext/Terminal.antt =====
-- A stopped run, and one that met an exception, stay so.
use red_o_lator.Base.{ℕ, suc, ◌+◌, ◌≡◌, ◌∙◌, refl, arith, true, List, [], ◌∷◌, ◌++◌, ok, >>=-eq-ok}
use red_o_lator.Storage.{Storage, read_data}
use red_o_lator.WorkGroup.{WorkGroup}
use red_o_lator.DebugContext.{
  DebugContext, ExecutionMode, ExecutionContext, DebuggerMessage, OutMessage, Event, req_mem,
  req_reg, set_breakpoint, on_respond_memory, on_respond_registers, on_pause, on_exception, message,
  idle, is_terminal, send, get_registers, process_message, read_messages, process_instruction,
  process_exception,
}

-- How many pauses were reported.
unfoldable pub pauses : List OutMessage → ℕ
pauses [] = 0
pauses (on_pause c ∷ ms) = suc (pauses ms)
pauses (on_respond_memory a bytes ∷ ms) = pauses ms
pauses (on_respond_registers r ∷ ms) = pauses ms
pauses (on_exception ∷ ms) = pauses ms

pauses-append : (ms ns : List OutMessage) → pauses (ms ++ ns) ≡ pauses ms + pauses ns
unfolding pauses
pauses-append [] ns = omega arith
pauses-append (on_pause c ∷ ms) ns = omega (arith, pauses-append ms ns)
pauses-append (on_respond_memory a bytes ∷ ms) ns = pauses-append ms ns
pauses-append (on_respond_registers r ∷ ms) ns = pauses-append ms ns
pauses-append (on_exception ∷ ms) ns = pauses-append ms ns

-- A terminal context later: still terminal, with the same breakpoints and no new pause.
pub record Ended (before after : DebugContext) : Type 0 where
  pub terminal : is_terminal after.execution_mode ≡ true
  pub breakpoints : after.breakpoints ≡ before.breakpoints
  pub no_pause : pauses after.sent ≡ pauses before.sent

Ended-trans : {a b c : DebugContext} → Ended a b → Ended b c → Ended a c
Ended-trans p q = record {
  terminal = q.terminal;
  breakpoints = q.breakpoints ∙ p.breakpoints;
  no_pause = q.no_pause ∙ p.no_pause;
}

sent-Ended :
    (c : DebugContext) (m : OutMessage)
    → is_terminal c.execution_mode ≡ true
    → pauses (m ∷ []) ≡ 0
    → Ended c (send c m)
unfolding send
sent-Ended c m t none = record {
  terminal = t;
  breakpoints = refl;
  no_pause = omega (arith, pauses-append c.sent (m ∷ []));
}

stop_terminal : is_terminal ExecutionMode.stop ≡ true
unfolding is_terminal
stop_terminal = refl

exc_terminal : is_terminal ExecutionMode.exc ≡ true
unfolding is_terminal
exc_terminal = refl

module _ (storage : Storage) (wg : WorkGroup) where
  process_message-Ended :
      (c c' : DebugContext) (m : DebuggerMessage)
      → is_terminal c.execution_mode ≡ true
      → process_message storage wg c m ≡ ok c'
      → Ended c c'
  unfolding process_message pauses
  process_message-Ended c c' (req_mem address) t h =
      let (mem, read, done) =
        >>=-eq-ok (read_data storage address 0 512 true)
          (λ mem. ok (send c (on_respond_memory address mem))) h in
      let e : c' ≡ send c (on_respond_memory address mem) = cc in
      rw e (sent-Ended c (on_respond_memory address mem) t refl)
  process_message-Ended c c' (req_reg context) t h =
      let (registers, read, done) =
        >>=-eq-ok (get_registers wg context)
          (λ registers. ok (send c (on_respond_registers registers))) h in
      let e : c' ≡ send c (on_respond_registers registers) = cc in
      rw e (sent-Ended c (on_respond_registers registers) t refl)
  process_message-Ended c c' (set_breakpoint remove b) t h =
      let e : c' ≡ c = ground arith in
      rw e (record { terminal = t; breakpoints = refl; no_pause = refl })
  process_message-Ended c c' (DebuggerMessage.run stepping) t h =
      let e : c' ≡ c = ground arith in
      rw e (record { terminal = t; breakpoints = refl; no_pause = refl })
  process_message-Ended c c' DebuggerMessage.stop t h =
      let e : c' ≡ record c { execution_mode = ExecutionMode.stop } = cc in
      rw e (record { terminal = stop_terminal; breakpoints = refl; no_pause = refl })

  read_messages-Ended :
      (events : List Event) (c c' : DebugContext)
      → is_terminal c.execution_mode ≡ true
      → read_messages storage wg events c ≡ ok c'
      → Ended c c'
  unfolding read_messages
  read_messages-Ended [] c c' t h =
      let e : c' ≡ record c { incoming = [] } = cc in
      rw e (record { terminal = t; breakpoints = refl; no_pause = refl })
  read_messages-Ended (idle ∷ events) c c' t h =
      let e : c' ≡ record c { incoming = events } = cc in
      rw e (record { terminal = t; breakpoints = refl; no_pause = refl })
  read_messages-Ended (message m ∷ events) c c' t h =
      let (next, first, rest) =
        >>=-eq-ok (process_message storage wg c m) (read_messages storage wg events) h in
      let one = process_message-Ended c next m t first in
      Ended-trans one (read_messages-Ended events next c' one.terminal rest)

-- What happens to a context: an instruction is met, the messages are read, an exception is reported.
pub data DebugStep : DebugContext → DebugContext → Type 0 where
  instruction :
      (storage : Storage) (wg : WorkGroup) (context : ExecutionContext) (c c' : DebugContext)
      → process_instruction storage wg c context ≡ ok c'
      → DebugStep c c'
  messages :
      (storage : Storage) (wg : WorkGroup) (c c' : DebugContext)
      → read_messages storage wg c.incoming c ≡ ok c'
      → DebugStep c c'
  exception : (c : DebugContext) → DebugStep c (process_exception c)

pub data DebugReach (start : DebugContext) : DebugContext → Type 0 where
  here : DebugReach start start
  next : {b c : DebugContext} → DebugReach start b → DebugStep b c → DebugReach start c

DebugStep-Ended :
    {c c' : DebugContext} → is_terminal c.execution_mode ≡ true → DebugStep c c' → Ended c c'
unfolding process_instruction process_exception pauses
DebugStep-Ended t (instruction storage wg context c c' h) =
    let e : c' ≡ c = ground arith in
    rw e (record { terminal = t; breakpoints = refl; no_pause = refl })
DebugStep-Ended t (messages storage wg c c' h) = read_messages-Ended storage wg c.incoming c c' t h
DebugStep-Ended t (exception c) =
    Ended-trans (record { terminal = exc_terminal; breakpoints = refl; no_pause = refl })
      (sent-Ended (record c { execution_mode = ExecutionMode.exc }) on_exception exc_terminal refl)

-- From a context whose mode is STOP or EXC, whatever instructions, messages and exceptions follow: the mode
-- stays one of these two, the breakpoints stay as they are, and no further pause is reported.
pub DebugReach-Ended :
    {c c' : DebugContext} → is_terminal c.execution_mode ≡ true → DebugReach c c' → Ended c c'
DebugReach-Ended t here = record { terminal = t; breakpoints = refl; no_pause = refl }
DebugReach-Ended t (next r s) =
    let before = DebugReach-Ended t r in Ended-trans before (DebugStep-Ended before.terminal s)
