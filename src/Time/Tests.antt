-- ===== src/Time/Tests.antt =====
-- The theorems on pkg/time at concrete inputs.
use gocanopen.Base.{◌+◌, ◌≡◌, refl, true, false, arith, replicate}
use gocanopen.Time.{Clock, handle, timestamp, process, receive}
use gocanopen.Time.Passing.{microseconds, process-microseconds, process-handle-timestamp}

abbrev late_evening : Clock
late_evening = record {
  raw_timestamp = replicate 6 0;
  ms = 86399999;
  days = 15000;
  residual_us = 600;
  is_consumer = true;
  is_producer = true;
  rx_new = false;
  producer_interval_ms = 100;
  producer_timer_ms = 100;
  cob_id = 0x100;
}

evening-silent : (process late_evening true 500).received ≡ false
unfolding process receive
evening-silent = refl

process-microseconds_example :
    microseconds (process late_evening true 500).clock ≡ microseconds late_evening + 500
process-microseconds_example =
    process-microseconds late_evening true 500
      (record { ms_in = omega arith; residual_in = omega arith; days_in = omega arith })
      (omega arith) evening-silent

abbrev morning : Clock
morning = record late_evening { ms = 30000000; days = 15001 }

process-handle-timestamp_example :
    ((process (handle late_evening (timestamp morning)) true 1000).clock.ms ≡ 30000000)
    × ((process (handle late_evening (timestamp morning)) true 1000).clock.days ≡ 15001)
    × ((process (handle late_evening (timestamp morning)) true 1000).received ≡ true)
process-handle-timestamp_example =
    process-handle-timestamp morning late_evening 1000 (omega arith) (omega arith) refl
