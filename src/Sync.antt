-- ===== src/Sync.antt =====
-- pkg/sync/sync.go, pkg/sync/extensions.go: the SYNC object. The emergency object is passed through.
-- What other goroutines make of the object while `Process` has released its mutex to send is an
-- argument, a list of received frames. Logging and the outcome of `Send` are left out.
pub mod Counter
pub mod Cycle
mod Tests
use gocanopen.Base.{
  ℕ, ◌+◌, ◌-◌, ◌*◌, ◌/◌, Bool, true, false, not, ◌&&◌, ◌||◌, Option, none, some, List, [], ◌∷◌,
  length, get_or, set, ltb, leb, ◌==◌, if◌then◌else◌, u8, u32, sub_u32, bit_and, bit_or, has_bits,
  le32,
}
use gocanopen.Can.{Frame, new_frame, is_id_restricted, at_most}
use gocanopen.Emergency.{
  Emcy, error, em_sync_time_out, em_sync_length, err_communication, err_sync_data_length,
}
use gocanopen.Od.Errors.{Odr, dev_incompat, invalid_value, data_dev_state, Outcome, done}
use gocanopen.Od.Stream.{Stream, WriteResult, write_entry_default}

-- The events of a call of `Process`.
abbrev pub event_none : ℕ
event_none = 0

abbrev pub event_rx_or_tx : ℕ
event_rx_or_tx = 1

abbrev pub event_passed_window : ℕ
event_passed_window = 2

-- `SYNC`. The entries 0x1006 and 0x1007 are arguments of the operations that read them.
pub record Sync : Type 0 where
  pub rx_new : Bool
  pub receive_error : ℕ
  pub rx_toggle : Bool
  pub timeout_error : ℕ
  pub counter_overflow : ℕ
  pub counter : ℕ
  pub is_outside_window : Bool
  pub timer : ℕ
  pub is_producer : Bool
  pub cob_id : ℕ
  pub tx_buffer : Frame

-- The end of `Handle`.
unfoldable pub accept : Sync → Sync
accept s = record s { rx_toggle = not s.rx_toggle; rx_new = true }

-- `Handle`
unfoldable pub handle : Sync → Frame → Sync
handle s frame =
    if s.counter_overflow == 0
    then if frame.dlc == 0 then accept s else record s { receive_error = bit_or frame.dlc 0x40 }
    else if frame.dlc == 1
    then accept (record s { counter = get_or frame.bytes 0 0 })
    else record s { receive_error = bit_or frame.dlc 0x80 }

unfoldable pub handle_all : Sync → List Frame → Sync
handle_all s [] = s
handle_all s (frame ∷ frames) = handle_all (handle s frame) frames

-- The counter of the next message.
unfoldable pub next_counter : (overflow counter : ℕ) → ℕ
next_counter overflow counter = if ltb overflow (u8 (counter + 1)) then 1 else u8 (counter + 1)

-- `send`: the state before the frame goes out, which holds the frame.
unfoldable pub send : Sync → Sync
send s = record s {
  counter = next_counter s.counter_overflow s.counter;
  timer = 0;
  rx_toggle = not s.rx_toggle;
  tx_buffer = record s.tx_buffer {
    bytes = set s.tx_buffer.bytes 0 (next_counter s.counter_overflow s.counter);
  };
}

-- The state, the emergency object, the event, the time to the next call, the frames sent.
pub record Processed : Type 0 where
  pub sync : Sync
  pub emcy : Emcy
  pub status : ℕ
  pub timer_next : Option ℕ
  pub frames : List Frame

-- The timer runs on, and a received message restarts it.
unfoldable pub run_timer : Sync → ℕ → Sync
run_timer s dt = record s {
  timer = if ltb s.timer (u32 (s.timer + dt)) then u32 (s.timer + dt) else s.timer;
}

unfoldable pub take_message : Sync → Sync
take_message s = if s.rx_new then record s { timer = 0; rx_new = false } else s

recheck : ℕ → Option ℕ → Option ℕ
recheck diff none = none
recheck diff (some timer) = some (at_most diff timer)

-- One and a half periods, or the largest uint32.
unfoldable pub period_timeout : ℕ → ℕ
period_timeout period =
    let sum = u32 (period + period / 2) in if ltb sum period then 0xffffffff else sum

-- What the producer leaves, and its part of `Process`, with a period that is not 0.
unfoldable pub produced : Sync → Emcy → ℕ → Option ℕ → (status : ℕ) → List Frame → Processed
unfolding recheck
produced s e period next status frames = record {
  sync = s;
  emcy = e;
  status = status;
  timer_next = recheck (sub_u32 period s.timer) next;
  frames = frames;
}

unfoldable pub produce : Sync → Emcy → (period status : ℕ) → List Frame → Option ℕ → Processed
produce s e period status window next =
    if leb period s.timer
    then produced (handle_all (send s) window) e period next event_rx_or_tx
        ((send s).tx_buffer ∷ [])
    else produced s e period next status []

-- The part for a consumer that has seen a message, with a period that is not 0.
unfoldable pub supervise : Sync → Emcy → (period status : ℕ) → Option ℕ → Processed
unfolding recheck
supervise s e period status next =
    if ltb (period_timeout period) s.timer
    then record {
      sync = record s { timeout_error = 2 };
      emcy = error e true em_sync_time_out err_communication s.timer;
      status = status;
      timer_next = next;
      frames = [];
    }
    else record {
      sync = s;
      emcy = e;
      status = status;
      timer_next = recheck (sub_u32 (period_timeout period) s.timer) next;
      frames = [];
    }

-- The communication cycle of `Process`.
unfoldable pub cycle : Sync → Emcy → (period status : ℕ) → List Frame → Option ℕ → Processed
cycle s e period status window next =
    let idle : Processed = record {
      sync = s;
      emcy = e;
      status = status;
      timer_next = next;
      frames = [];
    } in
    if not (ltb 0 period)
    then idle
    else if s.is_producer
    then produce s e period status window next
    else if s.timeout_error == 1
    then supervise s e period status next
    else idle

-- The synchronous window of `Process`.
unfoldable pub check_window : ℕ → Processed → Processed
check_window window_length p =
    if ltb 0 window_length && ltb window_length p.sync.timer
    then record p {
      sync = record p.sync { is_outside_window = true };
      status = if p.sync.is_outside_window then p.status else event_passed_window;
    }
    else record p { sync = record p.sync { is_outside_window = false } }

-- The reception errors of `Process`.
unfoldable pub check_reception : Processed → Processed
check_reception p = if p.sync.receive_error == 0 then p else record p {
  sync = record p.sync { receive_error = 0 };
  emcy = error p.emcy true em_sync_length err_sync_data_length p.sync.timer;
}

-- The timeout state of `Process`.
unfoldable pub check_timeout : Processed → Processed
check_timeout p =
    if p.status == event_rx_or_tx
    then record p {
      sync = record p.sync { timeout_error = 1 };
      emcy = if p.sync.timeout_error == 2 then error p.emcy false em_sync_time_out 0 0 else p.emcy;
    }
    else p

-- `Process`, with the period and the window length that the two entries hold.
unfoldable pub process :
    Sync → Emcy → Bool → (period window_length dt : ℕ) → List Frame → Option ℕ → Processed
process s e active period window_length dt window next =
    if not active
    then record {
      sync = record s { rx_new = false; receive_error = 0; counter = 0; timer = 0 };
      emcy = e;
      status = event_none;
      timer_next = next;
      frames = [];
    }
    else check_timeout (
        check_reception (
          check_window window_length (
            cycle (take_message (run_timer s dt)) e period
              (if s.rx_new then event_rx_or_tx else event_none) window next)))

abbrev refused : Stream → Odr → Outcome WriteResult
refused s err = done (record { stream = s; count = 0; err = some err })

-- The identifier in a value of 0x1005.
abbrev can_id_of : ℕ → ℕ
can_id_of value = bit_and value 0x7ff

-- The new identifier, if it differs.
unfoldable pub renamed : Sync → ℕ → Sync
renamed s can_id = if can_id == s.cob_id then s else record s {
  tx_buffer = new_frame can_id 0 (if s.counter_overflow == 0 then 0 else 1);
  cob_id = can_id;
}

-- The new role; a producer starts over.
unfoldable pub switched : Sync → Bool → Sync
switched s true = record s { is_producer = true; counter = 0; timer = 0 }
switched s false = record s { is_producer = false }

-- `writeEntry1005`, on a stream whose object is the SYNC object; the subscription succeeds.
unfoldable pub write_entry_1005 : Sync → Stream → List ℕ → Sync × Outcome WriteResult
write_entry_1005 s st data' =
    if not (st.subindex == 0) || not (length data' == 4)
    then (s, refused st dev_incompat)
    else if has_bits (le32 data' 0) 0xbffff800
        || is_id_restricted (can_id_of (le32 data' 0))
        || (s.is_producer
            && has_bits (le32 data' 0) 0x40000000
            && not (can_id_of (le32 data' 0) == s.cob_id))
    then (s, refused st invalid_value)
    else (
      switched (renamed s (can_id_of (le32 data' 0))) (has_bits (le32 data' 0) 0x40000000),
      write_entry_default st data',
    )

-- `writeEntry1006` and `writeEntry1007`: only the value changes.
unfoldable pub write_entry_period : Stream → List ℕ → Outcome WriteResult
write_entry_period st data' =
    if not (st.subindex == 0) || not (length data' == 4)
    then refused st dev_incompat
    else write_entry_default st data'

-- `writeEntry1019` with the period that 0x1006 holds.
unfoldable pub write_entry_1019 : Sync → ℕ → Stream → List ℕ → Sync × Outcome WriteResult
write_entry_1019 s period st data' =
    if not (length data' == 1)
    then (s, refused st dev_incompat)
    else if (get_or data' 0 0 == 1) || ltb 240 (get_or data' 0 0)
    then (s, refused st invalid_value)
    else if not (period == 0)
    then (s, refused st data_dev_state)
    else (
      record s {
        tx_buffer = new_frame s.cob_id 0 (if get_or data' 0 0 == 0 then 0 else 1);
        counter_overflow = get_or data' 0 0;
      },
      write_entry_default st data',
    )

-- The overflow value that `NewSYNC` makes of 0x1019.
unfoldable pub initial_overflow : ℕ → ℕ
initial_overflow value = if value == 1 then 2 else if ltb 240 value then 240 else value

-- `NewSYNC` with the values of 0x1005 and 0x1019, 0 where there is no 0x1019.
unfoldable pub new_sync : (cob_id_sync overflow : ℕ) → Sync
new_sync cob_id_sync overflow = record {
  rx_new = false;
  receive_error = 0;
  rx_toggle = false;
  timeout_error = 0;
  counter_overflow = initial_overflow overflow;
  counter = 0;
  is_outside_window = false;
  timer = 0;
  is_producer = has_bits cob_id_sync 0x40000000;
  cob_id = can_id_of cob_id_sync;
  tx_buffer = new_frame (can_id_of cob_id_sync) 0 (if initial_overflow overflow == 0 then 0 else 1);
}
