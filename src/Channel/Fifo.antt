-- ===== src/Channel/Fifo.antt =====
-- Any interleaving of the operations of the two threads.
use red_o_lator.Base.{
  ◌≡◌, ◌∙◌, refl, sym, ap, inl, inr, Bool, true, false, ◌&&◌, ◌||◌, List, [], ◌∷◌, ◌++◌, Option,
  none, some, if◌then◌else◌, Option-cases, ok,
}
use mathlib.Core.List.{append-nil}
use red_o_lator.Channel.{
  Channel, new_channel, take_value, can_read, read, try_read, can_write, write, close, wait_read,
  wait_write,
}

abbrev pub to_list {ℓ} : {T : Type ℓ} → Option T → List T
to_list none = []
to_list (some x) = x ∷ []

-- A channel with its history: the values that `write` accepted, and those that were read.
pub record Traffic {ℓ} (T : Type ℓ) : Type ℓ where
  pub channel : Channel T
  pub accepted : List T
  pub received : List T

module _ {ℓ} {T : Type ℓ} where
  abbrev pub after_write : Traffic T → T → Traffic T
  after_write t x = record {
    channel = (write t.channel x).1;
    accepted = if (write t.channel x).0 then t.accepted ++ x ∷ [] else t.accepted;
    received = t.received;
  }

  abbrev pub after_read : Traffic T → Option T × Channel T → Traffic T
  after_read t r = record {
    channel = r.1;
    accepted = t.accepted;
    received = t.received ++ to_list r.0;
  }

  abbrev pub on_channel : Traffic T → Channel T → Traffic T
  on_channel t c = record t { channel = c }

  -- A thread that is awake goes on, falls asleep or closes the channel; one that sleeps may also wake up by
  -- itself.
  pub data Step : Traffic T → Traffic T → Type ℓ where
    writes :
        (t : Traffic T) (x : T)
        → t.channel.write_cond ≡ false
        → can_write t.channel ≡ true
        → Step t (after_write t x)
    reads :
        (t : Traffic T) (r : Option T × Channel T)
        → t.channel.read_cond ≡ false
        → can_read t.channel ≡ true
        → read t.channel ≡ ok r
        → Step t (after_read t r)
    tries :
        (t : Traffic T) (r : Option T × Channel T)
        → t.channel.read_cond ≡ false
        → try_read t.channel ≡ ok r
        → Step t (after_read t r)
    closes : (t : Traffic T) → Step t (on_channel t (close t.channel))
    waits_to_read :
        (t : Traffic T) → t.channel.read_cond ≡ false → Step t (on_channel t (wait_read t.channel))
    waits_to_write :
        (t : Traffic T)
        → t.channel.write_cond ≡ false
        → Step t (on_channel t (wait_write t.channel))
    reader_wakes : (t : Traffic T) → Step t (on_channel t (record t.channel { read_cond = false }))
    writer_wakes : (t : Traffic T) → Step t (on_channel t (record t.channel { write_cond = false }))

  pub data Reach (s : Traffic T) : Traffic T → Type ℓ where
    here : Reach s s
    next : {t u : Traffic T} → Reach s t → Step t u → Reach s u

  -- What was accepted is what was received and what is still in the channel, in this order.
  pub record IsFifo (t : Traffic T) : Type ℓ where
    pub flag : t.channel.is_empty ≡ (elim t.channel.value [ none ↦ true | some x ↦ false ])
    pub order : t.accepted ≡ t.received ++ to_list t.channel.value

  abbrev pub start : Traffic T
  start = record { channel = new_channel; accepted = []; received = [] }

  write-IsFifo :
      (closed empty rc wc : Bool) (v : Option T) (accepted received : List T) (x : T)
      → (empty || closed) ≡ true
      → let t : Traffic T = record {
        channel = record {
          is_closed = closed;
          is_empty = empty;
          value = v;
          read_cond = rc;
          write_cond = wc;
        };
        accepted = accepted;
        received = received;
      } in
        IsFifo t → IsFifo (after_write t x)
  unfolding write
  write-IsFifo true empty rc wc v accepted received x free h = record {
    flag = h.flag;
    order = h.order;
  }
  write-IsFifo false true rc wc none accepted received x free h = record {
    flag = refl;
    order = rw (h.order, append-nil received) refl;
  }
  write-IsFifo false true rc wc (some y) accepted received x free h = let taken = h.flag in cc
  write-IsFifo false false rc wc v accepted received x free h = cc

  nothing-IsFifo : (t : Traffic T) → IsFifo t → IsFifo (after_read t (none, t.channel))
  nothing-IsFifo t h = record { flag = h.flag; order = rw (append-nil t.received) h.order }

  took-IsFifo :
      (t : Traffic T) (r : Option T × Channel T)
      → take_value t.channel ≡ ok r
      → IsFifo t
      → IsFifo (after_read t r)
  unfolding take_value
  took-IsFifo t r e h = elim (Option-cases t.channel.value) [
    | inl none_there ↦ let e' = rw (none_there, take_value) at e in cc
    | inr (y, there) ↦
        let e' = rw (there, take_value) at e in
        let same : r
            ≡ (some y, record t.channel { is_empty = true; value = none; write_cond = false }) =
          cc in
        let held : t.accepted ≡ t.received ++ y ∷ [] =
          h.order ∙ ap (λ (o : Option T). t.received ++ to_list o) there in
        rw same (record { flag = refl; order = held ∙ sym (append-nil (t.received ++ y ∷ [])) })
  ]

  chosen-IsFifo :
      (b : Bool) (t : Traffic T) (r : Option T × Channel T)
      → (if b then ok (none, t.channel) else take_value t.channel) ≡ ok r
      → IsFifo t
      → IsFifo (after_read t r)
  chosen-IsFifo true t r e h = let same : r ≡ (none, t.channel) = cc in rw same (nothing-IsFifo t h)
  chosen-IsFifo false t r e h = took-IsFifo t r e h

  Step-IsFifo : {t u : Traffic T} → Step t u → IsFifo t → IsFifo u
  unfolding read try_read can_write close wait_read wait_write
  Step-IsFifo (writes t x awake free) h =
      write-IsFifo t.channel.is_closed t.channel.is_empty t.channel.read_cond t.channel.write_cond
        t.channel.value t.accepted t.received x free h
  Step-IsFifo (reads t r awake ready e) h =
      chosen-IsFifo (t.channel.is_empty && t.channel.is_closed) t r e h
  Step-IsFifo (tries t r awake e) h =
      chosen-IsFifo (t.channel.is_empty || t.channel.is_closed) t r e h
  Step-IsFifo (closes t) h = record { flag = h.flag; order = h.order }
  Step-IsFifo (waits_to_read t awake) h = record { flag = h.flag; order = h.order }
  Step-IsFifo (waits_to_write t awake) h = record { flag = h.flag; order = h.order }
  Step-IsFifo (reader_wakes t) h = record { flag = h.flag; order = h.order }
  Step-IsFifo (writer_wakes t) h = record { flag = h.flag; order = h.order }

-- In whatever order the two threads write, read, try to read and close, sleep while their conditions do not hold,
-- are notified or wake up by themselves, from a new channel on: the values accepted so far are those received followed by the one in the channel, if
-- any, in the order of the writes; and the flag `is_empty` says whether there is none.
pub Reach-IsFifo {ℓ} : {T : Type ℓ} (t : Traffic T) → Reach start t → IsFifo t
unfolding new_channel
Reach-IsFifo t here = record { flag = refl; order = refl }
Reach-IsFifo t (next r s) = Step-IsFifo s (Reach-IsFifo _ r)
