-- ===== src/Pdo/Tpdo/Tests.antt =====
-- pkg/pdo: the theorems on TPDOs at a concrete TPDO.
use gocanopen.Base.{
  ℕ, ◌≡◌, refl, true, false, none, some, List, [], ◌∷◌, inl, inr, arith, replicate, Bool, take,
  length, suc, ◌+◌, ◌-◌, ◌/◌, ◌++◌,
}
use gocanopen.Can.{new_frame}
use gocanopen.Od.Entry.{Entry, Variable, variable, plain_streamer, data_length, opened_stream}
use gocanopen.Pdo.{Slot, mapped, no_slot}
use gocanopen.Od.Errors.{done, partial}
use gocanopen.Od.Lookup.{entry_at, variable_at}
use gocanopen.Sync.{Sync}
use gocanopen.Pdo.Rpdo.{shared_bytes}
use gocanopen.Pdo.Tpdo.Packed.{IsReadable, Fits, one_more, none_left, packed, sends, send-packed}
use gocanopen.Pdo.Tests.{silent}
use gocanopen.Pdo.Tpdo.{Tpdo, send, has_clear_flag, is_clear}
use gocanopen.Pdo.Tpdo.Cycle.{IsCyclic, Sends, on_syncs-count}
use gocanopen.Pdo.Tpdo.Start.{
  none_before, one_before, on_syncs-start, counting_from, IsUnrequested, on_syncs-unrequested,
}
use gocanopen.Pdo.Tpdo.Inhibit.{
  IsEventDriven, over_time, total, waiting, over_time-inhibited, over_time-once,
}
use gocanopen.Pdo.Tpdo.Unfit.{Unfit, here, later, OrPanics, send-Unfit}

abbrev pub speed : Variable
speed = record { value = 5 ∷ 6 ∷ []; spare = []; data_type = 6; attribute = 0x07; sub_index = 0 }

abbrev sync_at : (counter : ℕ) → Sync
sync_at counter = record {
  rx_new = false;
  receive_error = 0;
  rx_toggle = false;
  timeout_error = 0;
  counter_overflow = 10;
  counter = counter;
  is_outside_window = false;
  timer = 0;
  is_producer = false;
  cob_id = 0x80;
  tx_buffer = new_frame 0x80 0 1;
}

abbrev block : Variable
block = record {
  value = replicate 7 9;
  spare = [];
  data_type = 10;
  attribute = 0x07;
  sub_index = 0;
}

abbrev pub od : List Entry
od =
    record { index = 0x2100; object = variable speed; extension = none }
    ∷ record { index = 0x2101; object = variable block; extension = none }
    ∷ []

abbrev pub slots : List Slot
slots = mapped no_slot 0x2100 0 (plain_streamer speed 0) 2 ∷ replicate 7 no_slot

speed-IsReadable : IsReadable od (mapped no_slot 0x2100 0 (plain_streamer speed 0) 2)
unfolding shared_bytes entry_at variable_at mapped plain_streamer opened_stream data_length
speed-IsReadable = record { reader = refl; there = refl; whole = refl; part = omega arith }

pub speed-Fits : Fits od 1 slots 0
unfolding shared_bytes entry_at variable_at mapped plain_streamer opened_stream
speed-Fits = one_more speed-IsReadable (omega arith) none_left

-- The two bytes of an object are mapped; the type is the argument.
abbrev pub measuring : (transmission_type : ℕ) → Tpdo
measuring transmission_type = record {
  pdo = record {
    od = od;
    emcy = silent;
    slots = slots;
    valid = true;
    data_length = 2;
    nb_mapped = 1;
    is_rpdo = false;
    predefined_id = 0x187;
    configured_id = 0x187;
  };
  flags = λ index number. 0;
  tx_buffer = new_frame 0x187 0 2;
  transmission_type = transmission_type;
  send_request = true;
  sync_start_value = 3;
  sync_counter = 255;
  inhibit_time_us = 1000;
  event_time_us = 0;
  inhibit_timer = 500;
  event_timer = 0;
}

abbrev cyclic_one : Tpdo
cyclic_one = record (measuring 2) { sync_counter = 2 }

on_sync_six-IsCyclic : (counter : ℕ) → IsCyclic 2 (record (measuring 2) { sync_counter = counter })
on_sync_six-IsCyclic counter = record {
  valid = refl;
  type_is = refl;
  positive = omega arith;
  small = omega arith;
  fits = speed-Fits;
  eight = refl;
}

event-IsEventDriven : IsEventDriven (measuring 254)
event-IsEventDriven = record { valid = refl; type_is = omega arith; flags = omega arith }

send-packed_example :
    (bytes : List ℕ) × (send (measuring 254) none ≡ done (sends (measuring 254) none bytes))
    × (take (length (packed od 1 slots)) bytes ≡ packed od 1 slots)
    × (length bytes ≡ 8)
send-packed_example = send-packed (measuring 254) none speed-Fits refl

-- Three SYNC messages from the counter 2: the second is answered.
on_syncs-count_example :
    Sends
      (measuring 2).pdo
      0x187
      2
      cyclic_one
      100
      (sync_at 1 ∷ sync_at 2 ∷ sync_at 3 ∷ [])
      ((3 + 2 - 2) / 2)
on_syncs-count_example =
    on_syncs-count 2 cyclic_one 100 (sync_at 1 ∷ sync_at 2 ∷ sync_at 3 ∷ [])
      (on_sync_six-IsCyclic 2) (omega arith) (omega arith)

on_syncs-start_example :
    Sends (measuring 2).pdo 0x187 2 (measuring 2) 100 (sync_at 1 ∷ sync_at 2 ∷ []) 0
    × Sends
        (measuring 2).pdo
        0x187
        2
        (measuring 2)
        100
        ((sync_at 1 ∷ sync_at 2 ∷ []) ++ (sync_at 3 ∷ sync_at 4 ∷ sync_at 5 ∷ []))
        (suc (2 / 2))
on_syncs-start_example =
    on_syncs-start 2 (measuring 2) 100 (sync_at 1 ∷ sync_at 2 ∷ []) (sync_at 3)
      (sync_at 4 ∷ sync_at 5 ∷ []) (on_sync_six-IsCyclic 255) (inl refl) (omega arith)
      (one_before (omega arith) (omega arith) (one_before (omega arith) (omega arith) none_before))
      (omega arith) refl

over_time-inhibited_example :
    (event_timer : ℕ) × (request : Bool) × (over_time (measuring 254) (200 ∷ 200 ∷ [])
      ≡ done (waiting (measuring 254) (500 - total (200 ∷ 200 ∷ [])) event_timer request, []))
    × (true ≡ true → request ≡ true)
over_time-inhibited_example =
    over_time-inhibited (measuring 254) (200 ∷ 200 ∷ []) event-IsEventDriven (omega arith)

over_time-once_example :
    (t' : Tpdo) × (bytes : List ℕ) × (over_time (measuring 254) ((200 ∷ 200 ∷ []) ++ (200 ∷ []))
      ≡ done (t', record (measuring 254).tx_buffer { bytes = bytes } ∷ []))
    × (take (length (packed od 1 slots)) bytes ≡ packed od 1 slots)
    × (t'.inhibit_timer ≡ 1000)
    × (t'.send_request ≡ false)
over_time-once_example =
    over_time-once (measuring 254) (200 ∷ 200 ∷ []) 200 event-IsEventDriven refl (inr (omega arith))
      (omega arith) speed-Fits refl

-- Seven bytes in front of the two of the object, of which one is mapped.
abbrev long_slot : Slot
long_slot = mapped no_slot 0x2101 0 (plain_streamer block 0) 7

abbrev crowded : Tpdo
crowded = record (measuring 254) {
  pdo = record (measuring 254).pdo {
    data_length = 8;
    nb_mapped = 2;
    slots = long_slot ∷ mapped no_slot 0x2100 0 (plain_streamer speed 0) 1 ∷ [];
  };
}

crowded-Unfit : Unfit od 2 crowded.pdo.slots 0
unfolding shared_bytes entry_at variable_at mapped plain_streamer opened_stream data_length
crowded-Unfit =
    later (record { reader = refl; there = refl; whole = refl; part = omega arith }) (omega arith)
      (here (record { reader = refl; there = refl; whole = refl; part = omega arith }) (omega arith)
        (omega arith))

send-Unfit_example :
    OrPanics
      (λ p. (p.frames ≡ []) × (p.err ≡ some partial) × (p.tpdo.send_request ≡ true))
      (send crowded none)
send-Unfit_example = send-Unfit crowded none crowded-Unfit refl

abbrev idle : Tpdo
idle = record (measuring 0) { send_request = false; sync_start_value = 0 }

idle-flags : has_clear_flag (λ index number. 0) 1 slots ≡ false
unfolding has_clear_flag is_clear mapped
idle-flags = refl

idle-IsUnrequested : IsUnrequested idle
idle-IsUnrequested = record {
  valid = refl;
  type_is = refl;
  no_request = refl;
  no_timer = refl;
  no_start = refl;
  few = omega arith;
  flags_set = idle-flags;
  fits = speed-Fits;
  eight = refl;
}

-- Three messages and no request: two frames.
on_syncs-unrequested_example :
    Sends idle.pdo 0x187 2
      (counting_from idle 255)
      100
      (sync_at 1 ∷ sync_at 2 ∷ sync_at 3 ∷ [])
      ((3 + 1) / 2)
on_syncs-unrequested_example =
    on_syncs-unrequested idle 100 (sync_at 1 ∷ sync_at 2 ∷ sync_at 3 ∷ []) idle-IsUnrequested
