-- ===== src/Channel.antt =====
-- common/debugger/channel/Channel.h: a channel of one value between two threads, one that reads and one that
-- writes. Each operation holds the mutex. The condition variables `read_cond` and `write_cond` say whether
-- the thread that waits on them sleeps: there is one such thread for each, so that `notify_one` wakes it.
-- `wait_read` and `wait_write` are the waits of `read` and `write`: a thread goes on with the rest of the
-- operation, which is `read` or `write` here, when it is awake and its condition holds.
pub mod Fifo
pub mod Wakeups
use red_o_lator.Base.{
  Bool, true, false, not, ◌&&◌, ◌||◌, Option, none, some, if◌then◌else◌, Result, ok, fail, Fault,
  or_fail, ◌>>=◌,
}

pub record Channel {ℓ} (T : Type ℓ) : Type ℓ where
  pub is_closed : Bool
  pub is_empty : Bool
  pub value : Option T
  pub read_cond : Bool
  pub write_cond : Bool

unfoldable pub new_channel {ℓ} : {T : Type ℓ} → Channel T
new_channel = record {
  is_closed = false;
  is_empty = true;
  value = none;
  read_cond = false;
  write_cond = false;
}

-- The end of `read` and `tryRead`, with `write_cond.notify_one()`. `value.value()` throws on an empty optional.
unfoldable pub take_value {ℓ} : {T : Type ℓ} → Channel T → Result (Option T × Channel T)
take_value c = do
  result ← or_fail c.value Fault.bad_variant
  ok (some result, record c { is_empty = true; value = none; write_cond = false })

-- The condition that `read` waits for, and `read`.
unfoldable pub can_read {ℓ} : {T : Type ℓ} → Channel T → Bool
can_read c = not c.is_empty || c.is_closed

unfoldable pub read {ℓ} : {T : Type ℓ} → Channel T → Result (Option T × Channel T)
read c = if c.is_empty && c.is_closed then ok (none, c) else take_value c

unfoldable pub try_read {ℓ} : {T : Type ℓ} → Channel T → Result (Option T × Channel T)
try_read c = if c.is_empty || c.is_closed then ok (none, c) else take_value c

-- The condition that `write` waits for, and `write`.
unfoldable pub can_write {ℓ} : {T : Type ℓ} → Channel T → Bool
can_write c = c.is_empty || c.is_closed

-- With `read_cond.notify_one()`.
unfoldable pub write {ℓ} : {T : Type ℓ} → Channel T → T → Bool × Channel T
write c value =
    if c.is_closed
    then (false, c)
    else (true, record c { is_empty = false; value = some value; read_cond = false })

unfoldable pub close {ℓ} : {T : Type ℓ} → Channel T → Channel T
close c = record c { is_closed = true; read_cond = false; write_cond = false }

-- The thread sleeps if its condition does not hold.
unfoldable pub wait_read {ℓ} : {T : Type ℓ} → Channel T → Channel T
wait_read c = record c { read_cond = not (can_read c) }

unfoldable pub wait_write {ℓ} : {T : Type ℓ} → Channel T → Channel T
wait_write c = record c { write_cond = not (can_write c) }

unfoldable pub is_exhausted {ℓ} : {T : Type ℓ} → Channel T → Bool
is_exhausted c = c.is_closed && c.is_empty
