-- ===== src/Channel/Wakeups.antt =====
-- No thread sleeps on a channel that it could use.
use red_o_lator.Base.{
  ◌≡◌, refl, arith, Bool, true, false, ◌&&◌, ◌||◌, Option, none, some, if◌then◌else◌, ok,
  Option-cases, inl, inr,
}
use red_o_lator.Channel.{
  Channel, new_channel, take_value, can_read, read, try_read, can_write, write, close, wait_read,
  wait_write,
}
use red_o_lator.Channel.Fifo.{
  Traffic, Step, Reach, start, writes, reads, tries, closes, waits_to_read, waits_to_write,
  reader_wakes, writer_wakes, here, next,
}

-- A sleeping thread's condition does not hold.
pub record IsAwake {ℓ} {T : Type ℓ} (c : Channel T) : Type 0 where
  pub reader : (c.read_cond && can_read c) ≡ false
  pub writer : (c.write_cond && can_write c) ≡ false

module _ {ℓ} {T : Type ℓ} where
  write-IsAwake : (c : Channel T) (x : T) → IsAwake c → IsAwake (write c x).1
  unfolding write can_read can_write
  write-IsAwake c x h = record {
    reader = ground (arith, h.reader);
    writer = ground (arith, h.writer);
  }

  take-IsAwake :
      (c : Channel T) (r : Option T × Channel T)
      → c.read_cond ≡ false
      → take_value c ≡ ok r
      → IsAwake r.1
  unfolding take_value can_read can_write
  take-IsAwake c r awake e = elim (Option-cases c.value) [
    | inl none_there ↦ let e' = rw (none_there, take_value) at e in cc
    | inr (y, there) ↦
        let e' = rw (there, take_value) at e in
        let same : r ≡ (some y, record c { is_empty = true; value = none; write_cond = false }) =
          cc in
        rw same (record { reader = rw awake refl; writer = refl })
  ]

  chosen-IsAwake :
      (b : Bool) (c : Channel T) (r : Option T × Channel T)
      → c.read_cond ≡ false
      → (if b then ok (none, c) else take_value c) ≡ ok r
      → IsAwake c
      → IsAwake r.1
  chosen-IsAwake true c r awake e h = let same : r ≡ (none, c) = cc in rw same h
  chosen-IsAwake false c r awake e h = take-IsAwake c r awake e

  Step-IsAwake : {t u : Traffic T} → Step t u → IsAwake t.channel → IsAwake u.channel
  unfolding read try_read close wait_read wait_write can_read can_write
  Step-IsAwake (writes t x awake free) h = write-IsAwake t.channel x h
  Step-IsAwake (reads t r awake ready e) h =
      chosen-IsAwake (t.channel.is_empty && t.channel.is_closed) t.channel r awake e h
  Step-IsAwake (tries t r awake e) h =
      chosen-IsAwake (t.channel.is_empty || t.channel.is_closed) t.channel r awake e h
  Step-IsAwake (closes t) h = record { reader = refl; writer = refl }
  Step-IsAwake (waits_to_read t awake) h = record { reader = ground arith; writer = h.writer }
  Step-IsAwake (waits_to_write t awake) h = record { reader = h.reader; writer = ground arith }
  Step-IsAwake (reader_wakes t) h = record { reader = refl; writer = h.writer }
  Step-IsAwake (writer_wakes t) h = record { reader = h.reader; writer = refl }

reached-IsAwake {ℓ} : {T : Type ℓ} (t : Traffic T) → Reach start t → IsAwake t.channel
unfolding new_channel
reached-IsAwake t here = record { reader = refl; writer = refl }
reached-IsAwake t (next r s) = Step-IsAwake s (reached-IsAwake _ r)

-- In every channel that the two threads reach from a new one, by whatever interleaving of their operations,
-- sleeps and wake-ups: the reader does not sleep on `read_cond` while its condition holds, nor the writer on
-- `write_cond` while its own does; and never do both sleep.
pub Reach-IsAwake {ℓ} :
    {T : Type ℓ} (t : Traffic T)
    → Reach start t
    → ((t.channel.read_cond && can_read t.channel) ≡ false)
      × ((t.channel.write_cond && can_write t.channel) ≡ false)
      × ((t.channel.read_cond && t.channel.write_cond) ≡ false)
unfolding can_read can_write
Reach-IsAwake t r =
    let h = reached-IsAwake t r in (h.reader, h.writer, ground (arith, h.reader, h.writer))
