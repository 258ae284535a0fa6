-- ===== src/Pdo/Rpdo.antt =====
-- pkg/pdo/rpdo.go: an RPDO, which writes the bytes of a frame to the objects mapped into it. The mutex
-- and logging are left out.
pub mod Setup
pub mod Timeout
pub mod Store
mod Tests
use gocanopen.Base.{
  ℕ, zero, suc, ◌+◌, ◌-◌, Bool, true, false, not, ◌&&◌, ◌||◌, Option, none, some, List, [], ◌∷◌,
  length, take, drop, ltb, leb, ◌==◌, if◌then◌else◌, u8, u32,
}
use mathlib.Core.Option
use gocanopen.Can.{Frame, at_most}
use gocanopen.Emergency.{Emcy, error, error_report, error_reset}
use gocanopen.Od.Errors.{Outcome, done, panicked, ◌>>=◌}
use gocanopen.Od.Stream.{Stream, Streamer, WriteResult, write}
use gocanopen.Od.Entry.{Entry}
use gocanopen.Od.Lookup.{entry_at, stored, variable_at}
use gocanopen.Pdo.{Pdo, Slot, max_pdo_length}

abbrev pub ack_no_error : ℕ
ack_no_error = 0

abbrev pub ack_error : ℕ
ack_error = 1

abbrev pub ack : ℕ
ack = 10

abbrev pub rx_ok : ℕ
rx_ok = 11

abbrev pub rx_short : ℕ
rx_short = 12

abbrev pub rx_long : ℕ
rx_long = 13

abbrev pub em_rpdo_wrong_length : ℕ
em_rpdo_wrong_length = 0x04

abbrev pub em_rpdo_time_out : ℕ
em_rpdo_time_out = 0x17

abbrev pub err_pdo_length : ℕ
err_pdo_length = 0x8210

abbrev pub err_pdo_length_exc : ℕ
err_pdo_length_exc = 0x8220

abbrev pub err_rpdo_timeout : ℕ
err_rpdo_timeout = 0x8250

-- `RPDO`, with its two receive buffers.
pub record Rpdo : Type 0 where
  pub pdo : Pdo
  pub rx_new0 : Bool
  pub rx_new1 : Bool
  pub rx_data0 : List ℕ
  pub rx_data1 : List ℕ
  pub receive_error : ℕ
  pub synchronous : Bool
  pub timeout_time_us : ℕ
  pub timeout_timer : ℕ

-- The second buffer takes the frame while the toggle of the SYNC object is set. `sync` is that toggle,
-- `none` without a SYNC object.
unfoldable pub is_second : Rpdo → Option Bool → Bool
is_second r none = false
is_second r (some toggle) = r.synchronous && toggle

-- The error in the length of a frame, before it is acknowledged.
unfoldable pub length_error : (dlc data_length err : ℕ) → ℕ
length_error dlc data_length err =
    if ltb dlc data_length
    then if err == ack_no_error then rx_short else err
    else if dlc == data_length
    then if err == ack_error then rx_ok else err
    else if err == ack_no_error
    then rx_long
    else err

-- `Handle`
unfoldable pub handle : Rpdo → Option Bool → Frame → Rpdo
handle r sync frame =
    let r' = record r {
      receive_error = length_error frame.dlc (u8 r.pdo.data_length) r.receive_error;
    } in
    if not r.pdo.valid
    then r
    else if ltb frame.dlc (u8 r.pdo.data_length)
    then r'
    else if is_second r sync
    then record r' { rx_data1 = frame.bytes; rx_new1 = true }
    else record r' { rx_data0 = frame.bytes; rx_new0 = true }

abbrev pub with_emcy : Rpdo → Emcy → Rpdo
with_emcy r emcy = record r { pdo = record r.pdo { emcy = emcy } }

-- The error of the length goes to the emergency object once.
unfoldable pub acknowledged : Rpdo → Rpdo
acknowledged r =
    let set_error = not (r.receive_error == rx_ok) in
    let code = if r.receive_error == rx_short then err_pdo_length else err_pdo_length_exc in
    if ltb ack r.receive_error
    then record (with_emcy r
        (error r.pdo.emcy set_error em_rpdo_wrong_length code r.pdo.data_length)) {
          receive_error = if set_error then ack_error else ack_no_error;
        }
    else r

-- The bytes that a slot shares with a variable now.
unfoldable pub shared_bytes : List Entry → Slot → List ℕ
shared_bytes od slot = elim slot.target [
  | none ↦ slot.streamer.stream.bytes
  | some (index, place) ↦ elim (entry_at od index) [
    | none ↦ slot.streamer.stream.bytes
    | some e ↦ elim (variable_at e.object place) [
      | none ↦ slot.streamer.stream.bytes
      | some v ↦ v.value
    ]
  ]
]

unfoldable pub stored_at : List Entry → Option (ℕ × ℕ) → List ℕ → List Entry
stored_at od none bytes = od
stored_at od (some (index, place)) bytes = stored od index place bytes

-- The bytes of the frame for a slot: what is mapped, or up to the end of the frame for a longer variable.
unfoldable pub slot_bytes : Slot → (at : ℕ) → List ℕ → List ℕ
slot_bytes slot at bytes =
    let mapped = slot.streamer.stream.data_offset in
    let whole = slot.streamer.stream.data_length in
    if ltb mapped (if ltb max_pdo_length whole then max_pdo_length else whole)
    then drop at bytes
    else take mapped (drop at bytes)

-- A slot is written from the start of its variable; its offset is the mapped length again after that. The
-- error of the write is not looked at.
unfoldable pub write_slot : List Entry → Slot → (at : ℕ) → List ℕ → Outcome (List Entry × Slot)
write_slot od slot at bytes =
    let st = slot.streamer.stream in
    let opened = record slot.streamer {
      stream = record st { bytes = shared_bytes od slot; data_offset = 0 };
    } in
    if ltb max_pdo_length (u32 (at + st.data_offset)) || ltb (u32 (at + st.data_offset)) at
    then panicked
    else write opened (slot_bytes slot at bytes) >>= λ (r : WriteResult). done (
      stored_at od slot.target r.stream.bytes,
      record slot {
        streamer = record opened { stream = record r.stream { data_offset = st.data_offset } };
      },
    )

-- The loop over the mapped slots; the array has no slot beyond the eighth.
unfoldable pub write_slots :
    (left : ℕ) → List Entry → List Slot → (at : ℕ) → List ℕ → Outcome (List Entry × List Slot)
write_slots zero od slots at bytes = done (od, slots)
write_slots (suc left) od [] at bytes = panicked
write_slots (suc left) od (slot ∷ slots) at bytes = write_slot od slot at bytes >>= λ (od', slot').
    write_slots left od' slots (u32 (at + slot.streamer.stream.data_offset)) bytes
    >>= λ (od'', slots'). done (od'', slot' ∷ slots')

-- The buffer that is read: the other one than frames go to now.
unfoldable pub reads_second : Rpdo → Option Bool → Bool
reads_second r none = false
reads_second r (some toggle) = r.synchronous && not toggle

unfoldable pub is_new : Rpdo → Bool → Bool
is_new r second = if second then r.rx_new1 else r.rx_new0

-- A frame that has come is written to its objects. The loop of the code ends after one round, since
-- nothing is received in between.
unfoldable pub receive : Rpdo → (second : Bool) → Outcome Rpdo
receive r second =
    write_slots r.pdo.nb_mapped r.pdo.od r.pdo.slots 0 (if second then r.rx_data1 else r.rx_data0)
    >>= λ (od, slots). done (record r {
      rx_new0 = if second then r.rx_new0 else false;
      rx_new1 = if second then false else r.rx_new1;
      pdo = record r.pdo { od = od; slots = slots };
    })

-- The timer of the timeout, which runs from the first frame on.
unfoldable pub timed : Rpdo → (received : Bool) → (time_us : ℕ) → Rpdo
timed r true time_us =
    let emcy =
      if ltb r.timeout_time_us r.timeout_timer
      then error_reset r.pdo.emcy em_rpdo_time_out r.timeout_timer
      else r.pdo.emcy in
    record (with_emcy r emcy) { timeout_timer = 1 }
timed r false time_us =
    let timer = u32 (r.timeout_timer + time_us) in
    let emcy =
      if ltb r.timeout_time_us timer
      then error_report r.pdo.emcy em_rpdo_time_out err_rpdo_timeout timer
      else r.pdo.emcy in
    if ltb 0 r.timeout_timer && ltb r.timeout_timer r.timeout_time_us
    then record (with_emcy r emcy) { timeout_timer = timer }
    else r

-- The end of `Process`, with the time of the next call.
unfoldable pub finished : Rpdo → (received : Bool) → (time_us : ℕ) → Option ℕ → Rpdo × Option ℕ
finished r received time_us timer_next =
    let r' = timed r received time_us in
    if r.timeout_time_us == 0
    then (r, timer_next)
    else if ltb r'.timeout_timer r'.timeout_time_us
    then (r', Option.map (at_most (r'.timeout_time_us - r'.timeout_timer)) timer_next)
    else (r', timer_next)

-- An RPDO that does not take part forgets what it has received.
unfoldable pub cleared : Rpdo → Rpdo
cleared r = record r { rx_new0 = false; rx_new1 = false; timeout_timer = 0 }

-- `Process`
unfoldable pub process :
    Rpdo
    → (time_us : ℕ) → Option ℕ
    → (nmt_is_operational sync_was : Bool) → Option Bool
    → Outcome (Rpdo × Option ℕ)
process r time_us timer_next nmt_is_operational sync_was sync =
    let second = reads_second r sync in
    let r' = acknowledged r in
    if not r.pdo.valid || not nmt_is_operational
    then done (cleared r, timer_next)
    else if not sync_was && r.synchronous
    then done (r, timer_next)
    else if is_new r second
    then (receive r' second >>= λ r''. done (finished r'' true time_us timer_next))
    else done (finished r' false time_us timer_next)
