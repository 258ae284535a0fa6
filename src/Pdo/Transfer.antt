-- ===== src/Pdo/Transfer.antt =====
-- pkg/pdo: from the frame of a TPDO to the objects mapped into an RPDO.
mod Tests
use gocanopen.Base.{
  ℕ, ◌+◌, ◌≤◌, ◌<◌, ◌≡◌, ◌≢◌, refl, ap, ◌∙◌, sym, Bool, true, false, not, ◌&&◌, ◌||◌, Option, none,
  some, List, [], ◌∷◌, ◌++◌, length, take, drop, arith, ltb, leb, u8, u32, take-append-drop,
  if_both,
}
use mathlib.Core.Path.{subst}
use gocanopen.Can.{Frame}
use gocanopen.Od.Errors.{Outcome, done, panicked, ◌>>=◌}
use gocanopen.Od.Entry.{Entry}
use gocanopen.Od.Lookup.{value_at}
use gocanopen.Pdo.{Pdo, Slot}
use gocanopen.Pdo.Rpdo.{
  Rpdo, handle, length_error, is_second, process, acknowledged, with_emcy, reads_second, is_new,
  receive, write_slots, timed, finished, ack,
}
use gocanopen.Pdo.Rpdo.Store.{Receives, Hold, Avoids, Delivers, write_slots-Delivers, concat}
use gocanopen.Pdo.Tpdo.{Tpdo, send}
use gocanopen.Pdo.Tpdo.Packed.{Fits, packed, sends, after_send, send-packed}

-- A valid asynchronous RPDO of a dictionary, whose mapped slots take the values.
pub record Takes (r : Rpdo) (values : List (List ℕ)) : Type 0 where
  pub valid : r.pdo.valid ≡ true
  pub asynchronous : r.synchronous ≡ false
  pub count : r.pdo.nb_mapped ≡ length values
  pub size : u8 r.pdo.data_length ≡ length (concat values)
  pub receives : Receives r.pdo.od r.pdo.slots values

-- What stays of an RPDO between the frame and the loop that writes its bytes.
record Loaded (r r' : Rpdo) (frame : Frame) : Type 0 where
  valid : r'.pdo.valid ≡ true
  asynchronous : r'.synchronous ≡ false
  fresh : r'.rx_new0 ≡ true
  bytes : r'.rx_data0 ≡ frame.bytes
  count : r'.pdo.nb_mapped ≡ r.pdo.nb_mapped
  od : r'.pdo.od ≡ r.pdo.od
  slots : r'.pdo.slots ≡ r.pdo.slots

handle-Loaded :
    (r : Rpdo) (frame : Frame) (values : List (List ℕ))
    → Takes r values
    → length (concat values) ≤ frame.dlc
    → Loaded r (handle r none frame) frame
unfolding handle is_second
handle-Loaded r frame values t long =
    let runs : handle r none frame ≡ record r {
      receive_error = length_error frame.dlc (u8 r.pdo.data_length) r.receive_error;
      rx_data0 = frame.bytes;
      rx_new0 = true;
    } =
      ground (arith, t.valid, t.size, long) in
    rw runs (record {
      valid = t.valid;
      asynchronous = t.asynchronous;
      fresh = refl;
      bytes = refl;
      count = refl;
      od = refl;
      slots = refl;
    })

acknowledged-Loaded :
    (r r' : Rpdo) (frame : Frame) → Loaded r r' frame → Loaded r (acknowledged r') frame
unfolding acknowledged
acknowledged-Loaded r r' frame l =
    if_both (λ s. Loaded r s frame) (ltb ack r'.receive_error) _ r'
      (record {
        valid = l.valid;
        asynchronous = l.asynchronous;
        fresh = l.fresh;
        bytes = l.bytes;
        count = l.count;
        od = l.od;
        slots = l.slots;
      })
      l

finished_od :
    (r : Rpdo) (received : Bool) (time_us : ℕ) (timer_next : Option ℕ)
    → (finished r received time_us timer_next).0.pdo.od ≡ r.pdo.od
unfolding finished timed
finished_od r true time_us timer_next = ground arith
finished_od r false time_us timer_next = ground arith

process_fresh :
    (r : Rpdo) (time_us : ℕ) (timer_next : Option ℕ) (sync_was : Bool)
    → r.pdo.valid ≡ true
    → r.synchronous ≡ false
    → (acknowledged r).rx_new0 ≡ true
    → r.rx_new0 ≡ true
    → process r time_us timer_next true sync_was none
      ≡ (receive (acknowledged r) false >>= λ r'. done (finished r' true time_us timer_next))
unfolding process is_new reads_second
process_fresh r time_us timer_next sync_was valid asynchronous fresh new =
    ground (arith, valid, asynchronous, fresh, new)

abbrev stored_slots : Rpdo → List Entry → List Slot → Rpdo
stored_slots r od slots = record r {
  rx_new0 = false;
  pdo = record r.pdo { od = od; slots = slots };
}

receive-Loaded :
    (r r' : Rpdo) (frame : Frame) (values : List (List ℕ))
    → Takes r values
    → Loaded r r' frame
    → (d : Delivers r.pdo.od r.pdo.slots values 0 frame.bytes)
    → receive r' false ≡ done (stored_slots r' d.od' d.slots')
unfolding receive
receive-Loaded r r' frame values t l d =
    let runs : write_slots r'.pdo.nb_mapped r'.pdo.od r'.pdo.slots 0 r'.rx_data0
        ≡ done (d.od', d.slots') =
      cc (l.count, t.count, l.od, l.slots, l.bytes, d.runs) in
    rw runs refl

-- What a frame leaves of an RPDO: the values in the variables mapped into it, and every other variable as
-- it was.
pub record Delivered (r : Rpdo) (values : List (List ℕ)) (r' : Rpdo) : Type 0 where
  pub stored_all : Hold r'.pdo.od r.pdo.slots values
  pub kept :
      (index place : ℕ)
      → Avoids index place r.pdo.slots
      → value_at r'.pdo.od index place ≡ value_at r.pdo.od index place

-- A frame that is not too short and starts with the values, put together in their order to eight bytes
-- at most, is written by the next call of Process in an operational node: each variable mapped into the
-- valid asynchronous RPDO holds its value afterwards, and every other variable its old one.
pub process-handle :
    (r : Rpdo) (frame : Frame) (values : List (List ℕ)) (rest : List ℕ) (time_us : ℕ)
    (timer_next : Option ℕ) (sync_was : Bool)
    → Takes r values
    → length (concat values) ≤ 8
    → length (concat values) ≤ frame.dlc
    → frame.bytes ≡ concat values ++ rest
    → (r' : Rpdo) × (next : Option ℕ) × (process
          (handle r none frame)
          time_us
          timer_next
          true
          sync_was
          none
        ≡ done (r', next))
      × Delivered r values r'
process-handle r frame values rest time_us timer_next sync_was t room long starts =
    let l = handle-Loaded r frame values t long in
    let r1 = acknowledged (handle r none frame) in
    let a = acknowledged-Loaded r (handle r none frame) frame l in
    let d =
      write_slots-Delivers r.pdo.od r.pdo.slots values rest frame.bytes 0 t.receives starts
        (omega (arith, room)) in
    let last = finished (stored_slots r1 d.od' d.slots') true time_us timer_next in
    let od_is : last.0.pdo.od ≡ d.od' =
      finished_od (stored_slots r1 d.od' d.slots') true time_us timer_next in
    (
      last.0,
      last.1,
      process_fresh (handle r none frame) time_us timer_next sync_was l.valid l.asynchronous a.fresh
            l.fresh
          ∙ rw (receive-Loaded r r1 frame values t a d) refl,
      record {
        stored_all = subst (λ od. Hold od r.pdo.slots values) (sym od_is) d.stored_all;
        kept =
            λ index place away. ap (λ od. value_at od index place) od_is ∙ d.kept index place away;
      },
    )

starts_with :
    (bytes front : List ℕ)
    → take (length front) bytes ≡ front
    → bytes ≡ front ++ drop (length front) bytes
starts_with bytes front h =
    sym (take-append-drop (length front) bytes) ∙ ap (λ xs. xs ++ drop (length front) bytes) h

-- The frame that a TPDO sends arrives: the variables mapped into a valid asynchronous RPDO, all of them
-- different and each as long as its value, hold the values whose bytes the TPDO has mapped, once the
-- frame has come and Process is called.
pub send-process :
    (t : Tpdo) (r : Rpdo) (values : List (List ℕ)) (time_us : ℕ)
    → Fits t.pdo.od t.pdo.nb_mapped t.pdo.slots 0
    → length t.tx_buffer.bytes ≡ 8
    → packed t.pdo.od t.pdo.nb_mapped t.pdo.slots ≡ concat values
    → length (concat values) ≤ t.tx_buffer.dlc
    → length (concat values) ≤ 8
    → Takes r values
    → (frame : Frame) × (t' : Tpdo) × (r' : Rpdo) × (next : Option ℕ) × (send t none
        ≡ done (record { tpdo = t'; frames = frame ∷ []; err = none; timer_next = none }))
      × (process (handle r none frame) time_us none true false none ≡ done (r', next))
      × Delivered r values r'
send-process t r values time_us fits eight same long room takes =
    let (bytes, sent, mapped, size) = send-packed t none fits eight in
    let starts = starts_with bytes (concat values) (rw same at mapped) in
    let frame = record t.tx_buffer { bytes = bytes } in
    let (r', next, runs, delivered) =
      process-handle r frame values (drop (length (concat values)) bytes) time_us none false takes
        room long starts in
    (frame, after_send t bytes, r', next, sent, runs, delivered)
