-- ===== src/Time.antt =====
-- pkg/time/time.go, pkg/time/extensions.go: the TIME object, a clock of days and milliseconds that
-- consumes and produces time stamps. The machine's clock, which `SetInternalTime` reads, is not modelled.
pub mod Passing
mod Tests
use gocanopen.Base.{
  ℕ, ◌+◌, ◌-◌, ◌*◌, ◌/◌, ◌%◌, Bool, true, false, not, ◌&&◌, ◌||◌, Option, none, some, List, [], ◌∷◌,
  ◌++◌, take, length, ltb, leb, ◌==◌, if◌then◌else◌, u16, u32, sub_u32, bit_and, has_bits, le16,
  le32, bytes16, bytes32,
}
use gocanopen.Can.{Frame, is_id_restricted}
use gocanopen.Od.Errors.{Odr, dev_incompat, invalid_value, Outcome, done}
use gocanopen.Od.Stream.{Stream, WriteResult, write_entry_default}

-- `TIME`
pub record Clock : Type 0 where
  pub raw_timestamp : List ℕ
  pub ms : ℕ
  pub days : ℕ
  pub residual_us : ℕ
  pub is_consumer : Bool
  pub is_producer : Bool
  pub rx_new : Bool
  pub producer_interval_ms : ℕ
  pub producer_timer_ms : ℕ
  pub cob_id : ℕ

-- `Handle`: the first six bytes are kept.
unfoldable pub handle : Clock → Frame → Clock
handle t frame =
    if frame.dlc == 6 then record t { raw_timestamp = take 6 frame.bytes; rx_new = true } else t

abbrev pub ms_per_day : ℕ
ms_per_day = 86400000

-- The first part of `Process`: a received time stamp is taken over by a consumer, else dropped.
unfoldable pub receive : Clock → Bool → Clock × Bool
receive t active =
    if active && t.is_consumer
    then if t.rx_new
      then (
        record t {
          ms = le32 t.raw_timestamp 0 % 268435456;
          days = le16 t.raw_timestamp 4;
          residual_us = 0;
          rx_new = false;
        },
        true,
      )
      else (t, false)
    else (record t { rx_new = false }, false)

-- The milliseconds that pass, beside the clock that they are added to.
unfoldable pub advance : Clock → ℕ → Clock × ℕ
advance t dt =
    let us = u32 (dt + t.residual_us) in
    let ms = u32 (t.ms + us / 1000) in
    (
      if leb ms_per_day ms
          then record t { residual_us = us % 1000; ms = ms - ms_per_day; days = u16 (t.days + 1) }
          else record t { residual_us = us % 1000; ms = ms },
      us / 1000,
    )

-- The frame that a producer sends.
unfoldable pub timestamp : Clock → Frame
timestamp t = record {
  id = t.cob_id;
  flags = 0;
  dlc = 6;
  bytes = bytes32 t.ms ++ bytes16 t.days ++ (0 ∷ 0 ∷ []);
}

-- The last part of `Process`: the clock and the frame sent.
unfoldable pub produce : Clock → Bool → ℕ → Clock × Option Frame
produce t active ms =
    if active && t.is_producer && ltb 0 t.producer_interval_ms
    then if ltb t.producer_timer_ms t.producer_interval_ms
      then (record t { producer_timer_ms = u32 (t.producer_timer_ms + ms) }, none)
      else (
        record t { producer_timer_ms = t.producer_timer_ms - t.producer_interval_ms },
        some (timestamp t),
      )
    else (record t { producer_timer_ms = t.producer_interval_ms }, none)

-- What `Process` leaves; the error is that of sending the frame.
pub record Processed : Type 0 where
  pub clock : Clock
  pub received : Bool
  pub frame : Option Frame

-- `Process`
unfoldable pub process : Clock → Bool → ℕ → Processed
process t active dt =
    let (t', received) = receive t active in
    let (t'', ms) = if not received && ltb 0 dt then advance t' dt else (t', 0) in
    let (t''', frame) = produce t'' active ms in
    record { clock = t'''; received = received; frame = frame }

-- `SetProducerIntervalMs`
unfoldable pub set_producer_interval_ms : Clock → ℕ → Clock
set_producer_interval_ms t ms = record t { producer_interval_ms = ms; producer_timer_ms = ms }

-- `writeEntry1012`, on a stream whose object is the clock; a consumer subscribes to the old `cobId`,
-- and that succeeds.
unfoldable pub write_entry_1012 : Clock → Stream → List ℕ → Clock × Outcome WriteResult
write_entry_1012 t s data' =
    if not (s.subindex == 0) || not (length data' == 4)
    then (t, refused dev_incompat)
    else if has_bits cob_id 0x3ffff800 || is_id_restricted (bit_and cob_id 0x7ff)
    then (t, refused invalid_value)
    else (
      record t {
        is_producer = has_bits cob_id 0x40000000;
        is_consumer = has_bits cob_id 0x80000000;
      },
      write_entry_default s data',
    )
  where
    cob_id : ℕ
    cob_id = le32 data' 0

    refused : Odr → Outcome WriteResult
    refused err = done (record { stream = s; count = 0; err = some err })
