-- ===== src/Pdo/Transfer/Tests.antt =====
-- pkg/pdo: the theorem on a frame from a TPDO to an RPDO at concrete ones.
use gocanopen.Base.{Option, ℕ, zero, suc, ◌≡◌, refl, true, false, none, [], ◌∷◌, arith, replicate}
use mathlib.Core.Option
use gocanopen.Can.{Frame, zeros8}
use gocanopen.Od.Errors.{done}
use gocanopen.Od.Entry.{Variable, variable, plain_streamer, opened_stream, data_length}
use gocanopen.Od.Lookup.{entry_at, variable_at, value_at}
use gocanopen.Pdo.{Slot, mapped, no_slot}
use gocanopen.Pdo.Tpdo.Packed.{packed}
use gocanopen.Pdo.Rpdo.{shared_bytes, Rpdo, handle, process}
use gocanopen.Pdo.Rpdo.Store.{no_values, receives, Avoids, no_slots, untargeted, concat}
use gocanopen.Pdo.Tests.{silent}
use gocanopen.Pdo.Tpdo.{Tpdo, send}
use gocanopen.Pdo.Tpdo.Tests.{measuring, od, slots, speed-Fits}
use gocanopen.Pdo.Transfer.{Takes, Delivered, send-process}

abbrev display : Variable
display = record { value = 0 ∷ 0 ∷ []; spare = []; data_type = 6; attribute = 0x0b; sub_index = 0 }

abbrev target : Slot
target = mapped no_slot 0x2200 0 (plain_streamer display 0) 2

abbrev showing : Rpdo
showing = record {
  pdo = record {
    od = record { index = 0x2200; object = variable display; extension = none } ∷ [];
    emcy = silent;
    slots = target ∷ replicate 7 no_slot;
    valid = true;
    data_length = 2;
    nb_mapped = 1;
    is_rpdo = true;
    predefined_id = 0x207;
    configured_id = 0x187;
  };
  rx_new0 = false;
  rx_new1 = false;
  rx_data0 = zeros8;
  rx_data1 = zeros8;
  receive_error = 0;
  synchronous = false;
  timeout_time_us = 0;
  timeout_timer = 0;
}

away : (n : ℕ) → Avoids 0x2200 0 (replicate n no_slot)
away zero = no_slots
away (suc n) = untargeted refl (away n)

measured : packed od 1 slots ≡ concat ((5 ∷ 6 ∷ []) ∷ [])
unfolding packed shared_bytes entry_at variable_at mapped plain_streamer opened_stream data_length
measured = refl

showing-Takes : Takes showing ((5 ∷ 6 ∷ []) ∷ [])
unfolding value_at entry_at variable_at mapped plain_streamer opened_stream data_length Option.bind
showing-Takes = record {
  valid = refl;
  asynchronous = refl;
  count = refl;
  size = refl;
  receives =
      receives {index = 0x2200} {place = 0}
        (record {
          target = refl;
          value = 0 ∷ 0 ∷ [];
          there = refl;
          size_is = refl;
          writer = refl;
          allocated = refl;
          whole = refl;
          mapped = refl;
        })
        (away 7) no_values;
}

send-process_example :
    (frame : Frame) × (t' : Tpdo) × (r' : Rpdo) × (next : Option ℕ) × (send (measuring 254) none
      ≡ done (record { tpdo = t'; frames = frame ∷ []; err = none; timer_next = none }))
    × (process (handle showing none frame) 1000 none true false none ≡ done (r', next))
    × Delivered showing ((5 ∷ 6 ∷ []) ∷ []) r'
send-process_example =
    send-process (measuring 254) showing ((5 ∷ 6 ∷ []) ∷ []) 1000 speed-Fits refl measured
      (omega arith) (omega arith) showing-Takes
