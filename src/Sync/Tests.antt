-- ===== src/Sync/Tests.antt =====
-- The theorems on pkg/sync at concrete inputs.
use gocanopen.Base.{
  ◌+◌, ◌-◌, ◌%◌, ◌≡◌, refl, true, false, not, ◌&&◌, leb, ◌==◌, if◌then◌else◌, none, [], ◌∷◌, arith,
}
use gocanopen.Can.{new_frame}
use gocanopen.Emergency.Tests.{quiet}
use gocanopen.Sync.{Sync, send, handle, process}
use gocanopen.Sync.Counter.{IsValid, sends, sends-counter, handle-send}
use gocanopen.Sync.Cycle.{process-frames}

abbrev producer : Sync
producer = record {
  rx_new = false;
  receive_error = 0;
  rx_toggle = false;
  timeout_error = 0;
  counter_overflow = 10;
  counter = 9;
  is_outside_window = false;
  timer = 9500;
  is_producer = true;
  cob_id = 0x80;
  tx_buffer = new_frame 0x80 0 1;
}

producer-IsValid : IsValid producer
producer-IsValid = record { frame = refl; room = refl; overflow = omega arith }

sends-counter_example :
    (sends 3 producer).counter ≡ 1 + (producer.counter - 1 + 3) % producer.counter_overflow
sends-counter_example =
    sends-counter 3 producer (omega arith) (omega arith) (omega arith) (omega arith)

abbrev consumer : Sync
consumer = record producer { is_producer = false; counter = 0; timer = 100 }

handle-send_example :
    ((handle consumer (send producer).tx_buffer).rx_new ≡ true)
    × ((handle consumer (send producer).tx_buffer).counter
        ≡ (if consumer.counter_overflow == 0 then consumer.counter else (send producer).counter))
    × ((handle consumer (send producer).tx_buffer).receive_error ≡ consumer.receive_error)
handle-send_example = handle-send producer consumer producer-IsValid refl

process-frames_example : (process producer quiet true 10000 0 1000 [] none).frames ≡ (
    if not producer.rx_new && leb 10000 (producer.timer + 1000)
    then (send producer).tx_buffer ∷ []
    else [])
process-frames_example =
    process-frames producer quiet 10000 0 1000 [] none refl (omega arith) (omega arith)
