-- ===== src/Emergency.antt =====
-- pkg/emergency/emergency.go: the emergency producer with its queue of messages. The bus driver's
-- error word and what Send does are arguments; sent frames and callback calls are returned in order.
-- Logging is left out, and no other goroutine runs while the mutex is released.
pub mod Access
pub mod Inv
pub mod Status
pub mod Queue
pub mod Tests
use gocanopen.Base.{
  ℕ, ◌+◌, ◌-◌, ◌*◌, ◌/◌, ◌%◌, ◌^◌, Bool, true, false, not, ◌&&◌, ◌||◌, Option, none, some, List, [],
  ◌∷◌, ◌++◌, length, get_or, set, replicate, drop, ltb, leb, ◌==◌, if◌then◌else◌, u8, u32, sub_u32,
  bit_and, bit_or, bit_xor, has_bits, bytes32,
}
use gocanopen.Can.{Frame, new_frame, at_most}

-- `emfifo`
pub record Emfifo : Type 0 where
  pub msg : ℕ
  pub info : ℕ

abbrev pub no_message : Emfifo
no_message = record { msg = 0; info = 0 }

-- `EMCY`. `error_status_bits` are ten bytes, `error_register` is `none` for a nil pointer, and
-- `rx_callback` says that a callback is set.
pub record Emcy : Type 0 where
  pub node_id : ℕ
  pub error_status_bits : List ℕ
  pub error_register : Option ℕ
  pub can_error_old : ℕ
  pub tx_buffer : Frame
  pub fifo : List Emfifo
  pub fifo_wr_ptr : ℕ
  pub fifo_pp_ptr : ℕ
  pub fifo_overflow : ℕ
  pub fifo_count : ℕ
  pub producer_enabled : Bool
  pub producer_ident : ℕ
  pub inhibit_time_us : ℕ
  pub inhibit_timer : ℕ
  pub rx_callback : Bool

-- Error status bits and error codes that the code below names.
abbrev pub em_can_bus_warning : ℕ
em_can_bus_warning = 0x01

abbrev pub em_can_rx_bus_passive : ℕ
em_can_rx_bus_passive = 0x06

abbrev pub em_can_tx_bus_passive : ℕ
em_can_tx_bus_passive = 0x07

abbrev pub em_can_tx_bus_off : ℕ
em_can_tx_bus_off = 0x12

abbrev pub em_can_rxb_overflow : ℕ
em_can_rxb_overflow = 0x13

abbrev pub em_can_tx_overflow : ℕ
em_can_tx_overflow = 0x14

abbrev pub em_tpdo_outside_window : ℕ
em_tpdo_outside_window = 0x15

abbrev pub em_sync_time_out : ℕ
em_sync_time_out = 0x18

abbrev pub em_sync_length : ℕ
em_sync_length = 0x19

abbrev pub em_heartbeat_consumer : ℕ
em_heartbeat_consumer = 0x1b

abbrev pub em_hb_consumer_remote_reset : ℕ
em_hb_consumer_remote_reset = 0x1c

abbrev pub em_emergency_buffer_full : ℕ
em_emergency_buffer_full = 0x20

abbrev pub em_wrong_error_report : ℕ
em_wrong_error_report = 0x28

abbrev pub err_no_error : ℕ
err_no_error = 0x0000

abbrev pub err_generic : ℕ
err_generic = 0x1000

abbrev pub err_software_internal : ℕ
err_software_internal = 0x6100

abbrev pub err_communication : ℕ
err_communication = 0x8100

abbrev pub err_can_overrun : ℕ
err_can_overrun = 0x8110

abbrev pub err_can_passive : ℕ
err_can_passive = 0x8120

abbrev pub err_heartbeat : ℕ
err_heartbeat = 0x8130

abbrev pub err_bus_off_recovered : ℕ
err_bus_off_recovered = 0x8140

abbrev pub err_sync_data_length : ℕ
err_sync_data_length = 0x8240

-- What an emergency object does on the outside.
pub data Effect : Type 0 where
  sent : Frame → Effect
  called_back : (ident error_code error_register error_bit info_code : ℕ) → Effect

-- `fifoWrPtr + 1` as a byte, back to 0 at the end of the fifo.
pub next_ptr : ℕ → ℕ → ℕ
next_ptr size p = if leb size (u8 (p + 1)) then 0 else u8 (p + 1)

-- The end of `Error`: the message goes into the fifo, or the overflow is noted.
unfoldable pub push : Emcy → ℕ → ℕ → Emcy
push e msg info =
    let size = length e.fifo in
    let next = next_ptr size e.fifo_wr_ptr in
    if leb 2 size
    then if next == e.fifo_pp_ptr then record e { fifo_overflow = 1 } else record e {
      fifo = set e.fifo e.fifo_wr_ptr (record { msg = msg; info = info });
      fifo_wr_ptr = next;
      fifo_count = if ltb e.fifo_count (size - 1) then u8 (e.fifo_count + 1) else e.fifo_count;
    }
    else e

-- `Error` for a bit that stands at `index` under `mask`.
unfoldable pub error_at : Emcy → Bool → (bit index mask code info : ℕ) → Emcy
error_at e set_error bit index mask code info =
    let masked = bit_and (get_or e.error_status_bits index 0) mask in
    let already = not (masked == 0) in
    if set_error
    then if already then e else push e (bit_or (u32 (bit * 16777216)) code) info
    else if already
    then push e (bit_or (u32 (bit * 16777216)) err_no_error) info
    else e

-- `Error`
unfoldable pub error : Emcy → Bool → (bit code info : ℕ) → Emcy
error e set_error bit code info =
    if leb 10 (bit / 8)
    then error_at e set_error bit 5 1 err_software_internal bit
    else error_at e set_error bit (bit / 8) (2 ^ (bit % 8)) code info

unfoldable pub error_report : Emcy → (bit code info : ℕ) → Emcy
error_report e bit code info = error e true bit code info

unfoldable pub error_reset : Emcy → (bit info : ℕ) → Emcy
error_reset e bit info = error e false bit err_no_error info

-- `IsError`
unfoldable pub is_error : Emcy → ℕ → Bool
is_error e bit =
    if leb 10 (bit / 8)
    then true
    else has_bits (get_or e.error_status_bits (bit / 8) 0) (2 ^ (bit % 8))

-- `GetErrorRegister`
unfoldable pub get_error_register : Emcy → ℕ
get_error_register e = elim e.error_register [ none ↦ 0 | some r ↦ r ]

-- `Handle`: the call of the callback, if there is one and the frame is no SYNC message.
unfoldable pub handle : Emcy → Frame → List Effect
handle e frame =
    if not e.rx_callback || (frame.id == 0x80) || not (length frame.bytes == 8)
    then []
    else called_back (frame.id % 65536) (byte 0 + 256 * byte 1) (byte 2) (byte 3)
        (byte 4 + 256 * byte 5 + 65536 * byte 6 + 16777216 * byte 7)
      ∷ []
  where
    byte : ℕ → ℕ
    byte i = get_or frame.bytes i 0

-- One driver error: reported or reset when its bits have changed.
driver_error : ℕ → ℕ → (mask bit code : ℕ) → Emcy → Emcy
driver_error status changed mask bit code e =
    if has_bits changed mask then error e (has_bits status mask) bit code 0 else e

-- The driver errors in the order of `Process`: mask, status bit, error code.
abbrev pub driver_table : List (ℕ × ℕ × ℕ)
driver_table =
    (0x0101, em_can_bus_warning, err_no_error)
    ∷ (0x0002, em_can_tx_bus_passive, err_can_passive)
    ∷ (0x0004, em_can_tx_bus_off, err_bus_off_recovered)
    ∷ (0x0008, em_can_tx_overflow, err_can_overrun)
    ∷ (0x0080, em_tpdo_outside_window, err_communication)
    ∷ (0x0200, em_can_rx_bus_passive, err_can_passive)
    ∷ (0x0800, em_can_rxb_overflow, err_can_overrun)
    ∷ []

unfoldable pub driver_chain : ℕ → ℕ → List (ℕ × ℕ × ℕ) → Emcy → Emcy
unfolding driver_error
driver_chain status changed [] e = e
driver_chain status changed ((mask, bit, code) ∷ rows) e =
    driver_chain status changed rows (driver_error status changed mask bit code e)

-- The first part of `Process`: errors from the driver.
unfoldable pub driver_errors : Emcy → ℕ → Emcy
driver_errors e status =
    if status == e.can_error_old
    then e
    else driver_chain status (bit_xor status e.can_error_old) driver_table
        (record e { can_error_old = status })

-- The error register that `Process` puts into each message.
abbrev pub sent_register : ℕ
sent_register = 0xbf

-- The frame for a message: its four bytes replace the first four of the transmit buffer.
unfoldable pub frame_for : Frame → ℕ → Frame
frame_for tx msg = record tx { bytes = bytes32 msg ++ drop 4 tx.bytes }

-- The oldest message with the error register put in.
unfoldable pub oldest_msg : Emcy → ℕ
oldest_msg e = bit_or (get_or e.fifo e.fifo_pp_ptr no_message).msg (sent_register * 65536)

-- The state once the oldest message is sent and the read pointer is moved on.
unfoldable pub pop_oldest : Emcy → Emcy
unfolding frame_for oldest_msg
pop_oldest e =
    let after = u8 (e.fifo_pp_ptr + 1) in
    let oldest = get_or e.fifo e.fifo_pp_ptr no_message in
    record e {
      inhibit_timer = 0;
      fifo = set e.fifo e.fifo_pp_ptr (record oldest { msg = oldest_msg e });
      tx_buffer = frame_for e.tx_buffer (oldest_msg e);
      fifo_pp_ptr = if ltb after (length e.fifo) then after else 0;
    }

-- An overflow is reported with the next message sent, and reset once the queue is empty again.
unfoldable pub note_overflow : Emcy → ℕ → Emcy
note_overflow e after =
    if e.fifo_overflow == 1
    then error_report (record e { fifo_overflow = 2 }) em_emergency_buffer_full err_generic 0
    else if (e.fifo_overflow == 2) && (after == e.fifo_wr_ptr)
    then error_reset (record e { fifo_overflow = 0 }) em_emergency_buffer_full 0
    else e

-- The effects of sending: the frame, and the call of an own callback.
unfoldable pub sending : Emcy → List Effect
unfolding frame_for oldest_msg
sending e =
    sent (frame_for e.tx_buffer (oldest_msg e))
    ∷ (if e.rx_callback
        then called_back 0 (oldest_msg e % 65536) sent_register (u8 (oldest_msg e / 16777216))
            (get_or e.fifo e.fifo_pp_ptr no_message).info
          ∷ []
        else [])

-- `Process` with a message to send: the state and the effects.
unfoldable pub send_oldest : Emcy → Emcy × List Effect
send_oldest e = (note_overflow (pop_oldest e) (u8 (e.fifo_pp_ptr + 1)), sending e)

-- The inhibit timer runs on while it is below the inhibit time.
unfoldable pub run_timer : Emcy → ℕ → Emcy
run_timer e dt = record e {
  inhibit_timer =
      if ltb e.inhibit_timer e.inhibit_time_us then u32 (e.inhibit_timer + dt) else e.inhibit_timer;
}

unfoldable pub may_send : Emcy → Bool
may_send e = not (e.fifo_pp_ptr == e.fifo_wr_ptr) && leb e.inhibit_time_us e.inhibit_timer

-- The second part of `Process`, with the time to the next call, `none` for a nil pointer.
unfoldable pub process_fifo : Emcy → ℕ → Option ℕ → Emcy × Option ℕ × List Effect
process_fifo e dt next =
    let e' = run_timer e dt in
    if leb 2 (length e.fifo)
    then if may_send e'
      then (let (e'', effects) = send_oldest e' in (e'', next, effects))
      else (e', recheck e' next, [])
    else (e, next, [])
  where
    recheck : Emcy → Option ℕ → Option ℕ
    recheck e none = none
    recheck e (some timer) = some (
        if ltb e.inhibit_time_us e.inhibit_timer
        then at_most (sub_u32 e.inhibit_time_us e.inhibit_timer) timer
        else timer)

-- `Process`
unfoldable pub process : Emcy → ℕ → Bool → ℕ → Option ℕ → Emcy × Option ℕ × List Effect
process e can_error nmt_is_pre_or_operational dt next =
    let e' = driver_errors e can_error in
    if nmt_is_pre_or_operational then process_fifo e' dt next else (e', next, [])
