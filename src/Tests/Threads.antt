-- ===== src/Tests/Threads.antt =====
-- Runs of the channel's two threads.
use red_o_lator.Base.{ℕ, ◌≡◌, refl, true, false, ◌&&◌, [], ◌∷◌, none, some}
use red_o_lator.Channel.{
  Channel, new_channel, write, can_write, can_read, close, wait_read, wait_write,
}
use red_o_lator.Channel.Fifo.{
  Traffic, Reach, IsFifo, start, on_channel, writes, closes, waits_to_read, waits_to_write,
  Reach-IsFifo,
}
use red_o_lator.Channel.Wakeups.{Reach-IsAwake}

-- The reader sleeps, the writer writes a value, falls asleep and the channel is closed.
abbrev closed_traffic : Traffic ℕ
closed_traffic = record {
  channel = record {
    is_closed = true;
    is_empty = false;
    value = some 7;
    read_cond = false;
    write_cond = false;
  };
  accepted = 7 ∷ [];
  received = [];
}

abbrev sleeping : Channel ℕ
sleeping = record {
  is_closed = false;
  is_empty = true;
  value = none;
  read_cond = true;
  write_cond = false;
}

abbrev full_traffic : Traffic ℕ
full_traffic = record {
  channel = record sleeping { is_empty = false; value = some 7; read_cond = false };
  accepted = 7 ∷ [];
  received = [];
}

writer_sleeps :
    Reach start (on_channel full_traffic (record full_traffic.channel { write_cond = true }))
unfolding write new_channel can_write can_read wait_read wait_write
writer_sleeps =
    Reach.next
      (Reach.next (Reach.next Reach.here (waits_to_read start refl))
        (writes (on_channel start sleeping) 7 refl refl))
      (waits_to_write full_traffic refl)

closed_reached : Reach start closed_traffic
unfolding close
closed_reached =
    Reach.next writer_sleeps
      (closes (on_channel full_traffic (record full_traffic.channel { write_cond = true })))

Reach-IsFifo_example : IsFifo closed_traffic
Reach-IsFifo_example = Reach-IsFifo closed_traffic closed_reached

abbrev asleep : Channel ℕ
asleep = record full_traffic.channel { write_cond = true }

Reach-IsAwake_example :
    ((asleep.read_cond && can_read asleep) ≡ false)
    × ((asleep.write_cond && can_write asleep) ≡ false)
    × ((asleep.read_cond && asleep.write_cond) ≡ false)
Reach-IsAwake_example = Reach-IsAwake (on_channel full_traffic asleep) writer_sleeps
