-- ===== src/DebugContext/Resume.antt =====
-- A paused run goes on when the debugger says so.
use red_o_lator.Base.{
  ◌+◌, ◌-◌, ◌≡◌, ◌⊎◌, inl, inr, refl, arith, Bool, true, false, List, [], ◌∷◌, u64, ok,
  if◌then◌else◌, Bool-cases, take, drop, ◌∙◌,
}
use red_o_lator.Storage.{Storage, read_data}
use red_o_lator.Storage.Bytes.{IsSized}
use red_o_lator.Storage.Safe.{rounds-safe}
use red_o_lator.WorkGroup.{WorkGroup}
use red_o_lator.Breakpoint.{Breakpoint, add_breakpoint, remove_breakpoint}
use red_o_lator.DebugContext.{
  DebugContext, ExecutionMode, DebuggerMessage, Event, req_mem, req_reg, set_breakpoint,
  on_respond_memory, message, idle, is_terminal, is_pause, send, process_message, read_messages,
  wait_for_resume,
}

-- Messages that ask for no registers: the range of a wavefront's registers may be out of bounds.
abbrev pub IsPlain : DebuggerMessage → Type 0
IsPlain (req_mem address) = Unit {0}
IsPlain (req_reg context) = ⊥
IsPlain (set_breakpoint remove b) = Unit {0}
IsPlain (DebuggerMessage.run stepping) = Unit {0}
IsPlain DebuggerMessage.stop = Unit {0}

abbrev pub ArePlain : List Event → Type 0
ArePlain [] = Unit {0}
ArePlain (idle ∷ events) = ArePlain events
ArePlain (message m ∷ events) = IsPlain m × ArePlain events

-- Messages that end a pause.
abbrev pub resumes : DebuggerMessage → Bool
resumes (req_mem address) = false
resumes (req_reg context) = false
resumes (set_breakpoint remove b) = false
resumes (DebuggerMessage.run stepping) = true
resumes DebuggerMessage.stop = true

abbrev pub has_resume : List Event → Bool
has_resume [] = false
has_resume (idle ∷ events) = has_resume events
has_resume (message m ∷ events) = if resumes m then true else has_resume events

-- The context after a change of a breakpoint, and after a message to run.
abbrev changed : DebugContext → Bool → Breakpoint → DebugContext
changed c remove b = if is_terminal c.execution_mode then c else record c {
  breakpoints =
      if remove then remove_breakpoint c.breakpoints b else add_breakpoint c.breakpoints b;
}

abbrev started : DebugContext → Bool → DebugContext
started c stepping =
    if is_terminal c.execution_mode
    then c
    else record c { execution_mode = if stepping then ExecutionMode.step else ExecutionMode.run }

changed-mode :
    (c : DebugContext) (remove : Bool) (b : Breakpoint)
    → is_pause (changed c remove b).execution_mode ≡ is_pause c.execution_mode
changed-mode c remove b = ground arith

pause_not_terminal : (m : ExecutionMode) → is_pause m ≡ true → is_terminal m ≡ false
unfolding is_pause is_terminal
pause_not_terminal ExecutionMode.pause h = refl
pause_not_terminal ExecutionMode.stop h = cc
pause_not_terminal ExecutionMode.exc h = cc
pause_not_terminal ExecutionMode.run h = cc
pause_not_terminal ExecutionMode.step h = cc

started-mode :
    (c : DebugContext) (stepping : Bool)
    → (is_pause c.execution_mode ≡ false) ⊎ (is_pause c.execution_mode ≡ true)
    → is_pause (started c stepping).execution_mode ≡ false
unfolding is_pause
started-mode c stepping (inl h) = ground arith
started-mode c stepping (inr h) = ground (arith, pause_not_terminal c.execution_mode h)

-- Either the message has ended the pause, or a later one will.
still_waiting :
    (m : DebuggerMessage) (events : List Event) (before after : Bool)
    → (before ≡ false) ⊎ (has_resume (message m ∷ events) ≡ true)
    → before ≡ true
    → (resumes m ≡ true → after ≡ false)
    → (after ≡ false) ⊎ (has_resume events ≡ true)
still_waiting m events before after (inl h) e ends = cc
still_waiting m events before after (inr h) e ends = elim (Bool-cases (resumes m)) [
  | inl r ↦ inl (ends r)
  | inr r ↦ inr (rw r at h)
]

module _ (storage : Storage) (wg : WorkGroup) (sized : IsSized storage) where
  -- A message is processed, and it leaves a context that goes on going on.
  process_message-plain :
      (c : DebugContext) (m : DebuggerMessage)
      → IsPlain m
      → (c' : DebugContext) × (process_message storage wg c m ≡ ok c')
        × (is_pause c.execution_mode ≡ false → is_pause c'.execution_mode ≡ false)
        × (resumes m ≡ true → is_pause c.execution_mode ≡ true → is_pause c'.execution_mode ≡ false)
  unfolding process_message send read_data is_pause is_terminal
  process_message-plain c (req_mem address) p =
      let start = u64 (address + 0) in
      let count = u64 (start + 512) - start in
      (
        send c (on_respond_memory address (take count (drop start storage.data_))),
        rw (rounds-safe storage count start sized) refl,
        λ h. h,
        λ e. cc,
      )
  process_message-plain c (req_reg context) p = elim p [ ]
  process_message-plain c (set_breakpoint remove b) p =
      (changed c remove b, refl, λ h. changed-mode c remove b ∙ h, λ e. cc)
  process_message-plain c (DebuggerMessage.run stepping) p = (
    started c stepping,
    refl,
    λ h. started-mode c stepping (inl h),
    λ e h. started-mode c stepping (inr h),
  )
  process_message-plain c DebuggerMessage.stop p =
      (record c { execution_mode = ExecutionMode.stop }, refl, λ h. refl, λ e h. refl)

  -- Reading goes on while nothing pauses.
  read_messages-plain :
      (events : List Event) (c : DebugContext)
      → ArePlain events
      → is_pause c.execution_mode ≡ false
      → (c' : DebugContext) × (read_messages storage wg events c ≡ ok c')
        × (is_pause c'.execution_mode ≡ false)
  unfolding read_messages
  read_messages-plain [] c p h = (record c { incoming = [] }, refl, h)
  read_messages-plain (idle ∷ events) c p h = (record c { incoming = events }, refl, h)
  read_messages-plain (message m ∷ events) c p h =
      let (next, one, keeps, ends) = process_message-plain c m p.0 in
      let (c', rest, done) = read_messages-plain events next p.1 (keeps h) in
      (c', rw one rest, done)

  wait_for_resume-plain :
      (events : List Event) (c : DebugContext)
      → ArePlain events
      → (is_pause c.execution_mode ≡ false) ⊎ (has_resume events ≡ true)
      → (c' : DebugContext) × (wait_for_resume storage wg events c ≡ ok c')
        × (is_pause c'.execution_mode ≡ false)
  unfolding wait_for_resume
  wait_for_resume-plain [] c p (inl h) = read_messages-plain [] c p h
  wait_for_resume-plain [] c p (inr h) = cc
  wait_for_resume-plain (idle ∷ events) c p why = elim (Bool-cases (is_pause c.execution_mode)) [
    | inl e ↦ rw e (wait_for_resume-plain events c p why)
    | inr e ↦ rw e (read_messages-plain (idle ∷ events) c p e)
  ]
  wait_for_resume-plain (message m ∷ events) c p why =
      let (next, one, keeps, ends) = process_message-plain c m p.0 in
      elim (Bool-cases (is_pause c.execution_mode)) [
        | inl e ↦
            let (c', rest, done) =
              wait_for_resume-plain events next p.1
                (still_waiting m events _ _ why e (λ r. ends r e)) in
            (c', rw (e, one) rest, done)
        | inr e ↦ rw e (read_messages-plain (message m ∷ events) c p e)
      ]

-- For a storage whose size is the number of its bytes, a context of any mode, and incoming messages none of
-- which asks for registers, one of them a message to run, to step or to stop: `wait_for_resume` returns, and
-- the context it leaves is not paused.
pub wait_for_resume-resumed :
    (storage : Storage) (wg : WorkGroup) (events : List Event) (c : DebugContext)
    → IsSized storage
    → ArePlain events
    → has_resume events ≡ true
    → (c' : DebugContext) × (wait_for_resume storage wg events c ≡ ok c')
      × (is_pause c'.execution_mode ≡ false)
wait_for_resume-resumed storage wg events c sized plain h =
    wait_for_resume-plain storage wg sized events c plain (inr h)
