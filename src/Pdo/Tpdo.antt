-- ===== src/Pdo/Tpdo.antt =====
-- pkg/pdo/tpdo.go: a TPDO, which sends the bytes of the objects mapped into it. The mutex, logging and
-- the outcome of `Send` are left out, and a reader changes nothing but the frame and its own offset.
pub mod Setup
pub mod Packed
pub mod Unfit
pub mod Cycle
pub mod Start
pub mod Inhibit
pub mod Tests
use gocanopen.Base.{
  ℕ, zero, suc, ◌+◌, ◌-◌, ◌/◌, Bool, true, false, not, ◌&&◌, ◌||◌, Option, none, some, List, [],
  ◌∷◌, ◌++◌, length, take, drop, ltb, leb, ◌==◌, if◌then◌else◌, u8, bit_and, bit_or,
}
use mathlib.Core.Option
use gocanopen.Can.{Frame, at_most}
use gocanopen.Od.Errors.{Odr, Outcome, done, panicked, ◌>>=◌}
use gocanopen.Od.Stream.{Streamer, ReadResult, read}
use gocanopen.Od.Entry.{Entry}
use gocanopen.Pdo.{Pdo, Slot}
use gocanopen.Pdo.Rpdo.{shared_bytes}
use gocanopen.Sync.{Sync}

abbrev pub sync_acyclic : ℕ
sync_acyclic = 0

abbrev pub sync_event_lo : ℕ
sync_event_lo = 0xfe

-- The flag bytes of the extensions: the byte of an index with a number.
abbrev pub Flags : Type 0
Flags = ℕ → ℕ → ℕ

-- `TPDO`. The SYNC object is an argument of `process`.
pub record Tpdo : Type 0 where
  pub pdo : Pdo
  pub flags : Flags
  pub tx_buffer : Frame
  pub transmission_type : ℕ
  pub send_request : Bool
  pub sync_start_value : ℕ
  pub sync_counter : ℕ
  pub inhibit_time_us : ℕ
  pub event_time_us : ℕ
  pub inhibit_timer : ℕ
  pub event_timer : ℕ

-- `eventDriven`
unfoldable pub is_event_driven : Tpdo → Bool
is_event_driven t = (t.transmission_type == sync_acyclic) || leb sync_event_lo t.transmission_type

-- `*flagPDOByte |= mask`, for a flag byte that is there.
unfoldable pub with_flag : Flags → Option (ℕ × ℕ) → (mask : ℕ) → Flags
with_flag flags none mask = flags
with_flag flags (some (index, number)) mask =
    λ i n. if (i == index) && (n == number) then bit_or (flags i n) mask else flags i n

-- `*flagPDOByte & mask == 0`, for a flag byte that is there.
unfoldable pub is_clear : Flags → Option (ℕ × ℕ) → (mask : ℕ) → Bool
is_clear flags none mask = false
is_clear flags (some (index, number)) mask = bit_and (flags index number) mask == 0

-- A place beyond the slots has no flag byte.
unfoldable pub has_clear_flag : Flags → (left : ℕ) → List Slot → Bool
has_clear_flag flags zero slots = false
has_clear_flag flags (suc left) [] = false
has_clear_flag flags (suc left) (slot ∷ slots) =
    is_clear flags slot.flag slot.flag_bitmask || has_clear_flag flags left slots

-- What the loop of `send` leaves: the flag bytes, the slots, the bytes of the frame and the error.
pub record Gathered : Type 0 where
  pub flags : Flags
  pub slots : List Slot
  pub bytes : List ℕ
  pub err : Option Odr

-- The variable of a slot, read from its start into the end of the frame.
unfoldable pub read_slot : List Entry → Slot → (rest : List ℕ) → Outcome ReadResult
read_slot od slot rest =
    read
      (record slot.streamer {
        stream = record slot.streamer.stream { bytes = shared_bytes od slot; data_offset = 0 };
      })
      rest

-- The slot whose variable could not be read keeps the offset that the reader left.
unfoldable pub spoilt : Slot → (offset : ℕ) → Slot
spoilt slot offset = record slot {
  streamer = record slot.streamer { stream = record slot.streamer.stream { data_offset = offset } };
}

unfoldable pub before_rest : Slot → Gathered → Gathered
before_rest slot g = record g { slots = slot ∷ g.slots }

-- The rest of the loop is given for the frame and the flag bytes that it starts with.
unfoldable pub gathered_after :
    (event_driven : Bool)
    → Flags
    → Slot
    → List Slot
    → (start : List ℕ) → (Flags → List ℕ → Outcome Gathered)
    → ReadResult
    → Outcome Gathered
gathered_after event_driven flags slot slots start rest r = elim r.err [
  | some err ↦ done (record {
    flags = flags;
    slots = spoilt slot r.stream.data_offset ∷ slots;
    bytes = start ++ r.filled;
    err = some err;
  })
  | none ↦
      let flags' = if event_driven then with_flag flags slot.flag slot.flag_bitmask else flags in
      rest flags' (start ++ r.filled) >>= λ g. done (before_rest slot g)
]

-- The loop of `send` over the mapped slots; the array has no slot beyond the eighth.
unfoldable pub gather :
    (event_driven : Bool)
    → List Entry
    → (left : ℕ) → List Slot
    → (at : ℕ) → Flags
    → List ℕ
    → Outcome Gathered
gather event_driven od zero slots at flags bytes =
    done (record { flags = flags; slots = slots; bytes = bytes; err = none })
gather event_driven od (suc left) [] at flags bytes = panicked
gather event_driven od (suc left) (slot ∷ slots) at flags bytes =
    if ltb (length bytes) at
    then panicked
    else (read_slot od slot (drop at bytes) >>= λ r.
        gathered_after event_driven flags slot slots (take at bytes)
          (gather event_driven od left slots (at + slot.streamer.stream.data_offset)) r)

-- What `send` and `Process` leave: the TPDO, the frames sent, the error, and the time of the next call.
pub record Processed : Type 0 where
  pub tpdo : Tpdo
  pub frames : List Frame
  pub err : Option Odr
  pub timer_next : Option ℕ

abbrev pub quiet : Tpdo → Option ℕ → Processed
quiet t next = record { tpdo = t; frames = []; err = none; timer_next = next }

-- The TPDO with the frame, the slots and the flags of the loop.
unfoldable pub gathered : Tpdo → Gathered → Tpdo
gathered t g = record t {
  pdo = record t.pdo { slots = g.slots };
  flags = g.flags;
  tx_buffer = record t.tx_buffer { bytes = g.bytes };
}

unfoldable pub sent : Tpdo → Option ℕ → Gathered → Processed
sent t next g = elim g.err [
  | some err ↦ record (quiet (gathered t g) next) { err = some err }
  | none ↦
      let t' = record (gathered t g) {
        send_request = false;
        event_timer = t.event_time_us;
        inhibit_timer = t.inhibit_time_us;
      } in
      record (quiet t' next) { frames = t'.tx_buffer ∷ [] }
]

-- `send`
unfoldable pub send : Tpdo → Option ℕ → Outcome Processed
send t next =
    gather (is_event_driven t) t.pdo.od t.pdo.nb_mapped t.pdo.slots 0 t.flags t.tx_buffer.bytes
    >>= λ g. done (sent t next g)

-- A TPDO that does not take part.
unfoldable pub cleared : Tpdo → Tpdo
cleared t = record t { send_request = true; inhibit_timer = 0; event_timer = 0; sync_counter = 255 }

abbrev pub counted_down : (timer time_us : ℕ) → ℕ
counted_down timer time_us = if ltb time_us timer then timer - time_us else 0

-- The event timer of `Process`.
unfoldable pub run_event_timer : Tpdo → (time_us : ℕ) → Tpdo
run_event_timer t time_us =
    let timer = counted_down t.event_timer time_us in
    if t.event_time_us == 0
    then t
    else record t { event_timer = timer; send_request = t.send_request || (timer == 0) }

-- The requests of the event timer and of the flag bytes, of which the array has 32.
unfoldable pub requested : Tpdo → (time_us : ℕ) → Outcome Tpdo
requested t time_us =
    let t' = run_event_timer t time_us in
    if not (is_event_driven t)
    then done t
    else if t'.send_request
    then done t'
    else if ltb 32 t.pdo.nb_mapped
    then panicked
    else done (record t' { send_request = has_clear_flag t.flags t.pdo.nb_mapped t.pdo.slots })

unfoldable pub event_next : Tpdo → Option ℕ → Option ℕ
event_next t next =
    if is_event_driven t && not (t.event_time_us == 0)
    then Option.map (at_most t.event_timer) next
    else next

-- The time of the next call where a request waits for the inhibit time.
unfoldable pub inhibited_next : Processed → Processed
inhibited_next p = record p {
  err = none;
  timer_next =
      if p.tpdo.send_request
      then Option.map (at_most p.tpdo.inhibit_timer) p.timer_next
      else p.timer_next;
}

-- A TPDO that sends on events, once its inhibit time is over. The error of `send` is dropped.
unfoldable pub on_event : Tpdo → (time_us : ℕ) → Option ℕ → Outcome Processed
on_event t time_us next =
    let t' = record t { inhibit_timer = counted_down t.inhibit_timer time_us } in
    if t'.send_request && (t'.inhibit_timer == 0)
    then (send t' next >>= λ p. done (inhibited_next p))
    else done (inhibited_next (quiet t' next))

-- The counter of a TPDO that has seen no SYNC yet.
unfoldable pub started : Tpdo → Sync → Tpdo
started t sync =
    if t.sync_counter == 255
    then record t {
      sync_counter =
          if not (sync.counter_overflow == 0) && not (t.sync_start_value == 0)
          then 254
          else t.transmission_type / 2 + 1;
    }
    else t

-- The switch over the counter.
unfoldable pub cyclic : Tpdo → Sync → Option ℕ → Outcome Processed
cyclic t sync next =
    let again = record t { sync_counter = t.transmission_type } in
    if t.sync_counter == 254
    then if sync.counter == t.sync_start_value then send again next else done (quiet t next)
    else if t.sync_counter == 1
    then send again next
    else done (quiet (record t { sync_counter = u8 (t.sync_counter + 255) }) next)

unfoldable pub on_sync : Tpdo → Sync → Option ℕ → Outcome Processed
on_sync t sync next =
    if (t.transmission_type == sync_acyclic) && t.send_request
    then send t next
    else cyclic (started t sync) sync next

-- The two ways to send.
unfoldable pub transmit :
    Tpdo → (time_us : ℕ) → Option ℕ → (sync_was : Bool) → Option Sync → Outcome Processed
transmit t time_us next sync_was none =
    if leb sync_event_lo t.transmission_type then on_event t time_us next else done (quiet t next)
transmit t time_us next sync_was (some sync) =
    if leb sync_event_lo t.transmission_type
    then on_event t time_us next
    else if sync_was
    then on_sync t sync next
    else done (quiet t next)

-- `Process`
unfoldable pub process :
    Tpdo
    → (time_us : ℕ) → Option ℕ
    → (nmt_is_operational sync_was : Bool) → Option Sync
    → Outcome Processed
process t time_us next nmt_is_operational sync_was sync =
    if not t.pdo.valid || not nmt_is_operational
    then done (quiet (cleared t) next)
    else (requested t time_us >>= λ t'. transmit t' time_us (event_next t' next) sync_was sync)
