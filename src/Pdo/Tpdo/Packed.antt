-- ===== src/Pdo/Tpdo/Packed.antt =====
-- pkg/pdo/tpdo.go: what the frame that `send` sends holds.
use gocanopen.Base.{
  take-append_left, take-append_add, ltb, length-take, append-nil, length-drop, length-append, ℕ,
  zero, suc, ◌+◌, ◌≤◌, ◌≡◌, refl, Bool, true, false, Option, none, some, List, [], ◌∷◌, ◌++◌,
  length, take, drop, arith, if◌then◌else◌, append_assoc,
}
use gocanopen.Od.Errors.{done}
use gocanopen.Od.Stream.{read, read_entry_default}
use gocanopen.Od.Stream.Whole.{read_whole}
use gocanopen.Od.Entry.{Entry}
use gocanopen.Pdo.{Slot}
use gocanopen.Pdo.Rpdo.{shared_bytes}
use gocanopen.Pdo.Tpdo.{
  gathered, Tpdo, Flags, Processed, with_flag, read_slot, before_rest, gathered_after, gather, sent,
  send, is_event_driven,
}

-- A slot that shares its bytes with a variable under the default reader, of which a part is mapped.
pub record IsReadable (od : List Entry) (slot : Slot) : Type 0 where
  pub reader : slot.streamer.reader ≡ some read_entry_default
  pub there : slot.streamer.stream.allocated ≡ true
  pub whole : slot.streamer.stream.data_length ≡ length (shared_bytes od slot)
  pub part : slot.streamer.stream.data_offset ≤ length (shared_bytes od slot)

-- Each of the first slots is readable, and its whole variable fits behind what is mapped before it.
pub data Fits (od : List Entry) : (left : ℕ) → List Slot → (at : ℕ) → Type 0 where
  none_left : {slots : List Slot} {at : ℕ} → Fits od zero slots at
  one_more :
      {left : ℕ} {slot : Slot} {slots : List Slot} {at : ℕ}
      → IsReadable od slot
      → at + length (shared_bytes od slot) ≤ 8
      → Fits od left slots (at + slot.streamer.stream.data_offset)
      → Fits od (suc left) (slot ∷ slots) at

-- The mapped bytes of the first slots, one after another.
unfoldable pub packed : List Entry → (left : ℕ) → List Slot → List ℕ
packed od zero slots = []
packed od (suc left) [] = []
packed od (suc left) (slot ∷ slots) =
    take slot.streamer.stream.data_offset (shared_bytes od slot) ++ packed od left slots

-- The flag bytes with the flags of the first slots set.
unfoldable pub marked : (event_driven : Bool) → Flags → (left : ℕ) → List Slot → Flags
marked event_driven flags zero slots = flags
marked event_driven flags (suc left) [] = flags
marked event_driven flags (suc left) (slot ∷ slots) =
    marked event_driven
      (if event_driven then with_flag flags slot.flag slot.flag_bitmask else flags) left slots

pub read_slot_lem :
    (od : List Entry) (slot : Slot) (rest : List ℕ)
    → IsReadable od slot
    → length rest ≤ 8
    → length (shared_bytes od slot) ≤ length rest
    → read_slot od slot rest
      ≡ done (record {
        stream = record slot.streamer.stream { bytes = shared_bytes od slot; data_offset = 0 };
        filled = shared_bytes od slot ++ drop (length (shared_bytes od slot)) rest;
        count = length (shared_bytes od slot);
        err = none;
      })
unfolding read_slot read
read_slot_lem od slot rest r small room = rw r.reader (
    ground (
      arith,
      read_whole (record slot.streamer.stream { bytes = shared_bytes od slot; data_offset = 0 })
          rest (record { there = r.there; start = refl; whole = r.whole; small = omega arith })
          room,
    ))

-- What the loop leaves behind the bytes at `at`.
record Gathers (event_driven : Bool) (od : List Entry) (left : ℕ) (slots : List Slot) (at : ℕ)
    (flags : Flags) (bytes : List ℕ) : Type 0 where
  result : List ℕ
  runs :
      gather event_driven od left slots at flags bytes
      ≡ done (record {
        flags = marked event_driven flags left slots;
        slots = slots;
        bytes = result;
        err = none;
      })
  filled : take (at + length (packed od left slots)) result ≡ take at bytes ++ packed od left slots
  size : length result ≡ 8

abbrev pub flags_after : (event_driven : Bool) → Flags → Slot → Flags
flags_after event_driven flags slot =
    if event_driven then with_flag flags slot.flag slot.flag_bitmask else flags

abbrev pub bytes_after : List Entry → Slot → (at : ℕ) → List ℕ → List ℕ
bytes_after od slot at bytes =
    let value = shared_bytes od slot in
    take at bytes ++ (value ++ drop (length value) (drop at bytes))

pub length-bytes_after :
    (od : List Entry) (slot : Slot) (at : ℕ) (bytes : List ℕ)
    → at + length (shared_bytes od slot) ≤ 8
    → length bytes ≡ 8
    → length (bytes_after od slot at bytes) ≡ 8
length-bytes_after od slot at bytes room eight =
    let value = shared_bytes od slot in
    omega (
      arith,
      length-append (take at bytes) (value ++ drop (length value) (drop at bytes)),
      length-append value (drop (length value) (drop at bytes)),
      length-take at bytes,
      length-drop at bytes,
      length-drop (length value) (drop at bytes),
    )

take-bytes_after :
    (od : List Entry) (slot : Slot) (at m : ℕ) (bytes : List ℕ)
    → at ≤ length bytes
    → m ≤ length (shared_bytes od slot)
    → take (at + m) (bytes_after od slot at bytes) ≡ take at bytes ++ take m (shared_bytes od slot)
take-bytes_after od slot at m bytes inside part =
    let value = shared_bytes od slot in
    let rest = value ++ drop (length value) (drop at bytes) in
    let e : at + m ≡ length (take at bytes) + m = omega (arith, length-take at bytes) in
    rw
      (
        e,
        take-append_add (take at bytes) rest m,
        take-append_left m value (drop (length value) (drop at bytes)) part,
      )
      refl

-- One more slot in front of a loop that does its work.
next-Gathers :
    (event_driven : Bool) (od : List Entry) (left : ℕ) (slot : Slot) (slots : List Slot) (at : ℕ)
    (flags : Flags) (bytes : List ℕ)
    → IsReadable od slot
    → at + length (shared_bytes od slot) ≤ 8
    → length bytes ≡ 8
    → Gathers event_driven od left slots
        (at + slot.streamer.stream.data_offset)
        (flags_after event_driven flags slot)
        (bytes_after od slot at bytes)
    → Gathers event_driven od (suc left) (slot ∷ slots) at flags bytes
unfolding gather marked packed gathered_after before_rest
next-Gathers event_driven od left slot slots at flags bytes r room eight later = record {
  result = later.result;
  runs =
      let read_it =
        read_slot_lem od slot (drop at bytes) r (omega (arith, length-drop at bytes))
          (omega (arith, length-drop at bytes)) in
      let inside : ltb (length bytes) at ≡ false = ground arith in
      rw (inside, read_it, later.runs) refl;
  filled =
      let m = slot.streamer.stream.data_offset in
      let value = shared_bytes od slot in
      let e : at + length (take m value ++ packed od left slots)
          ≡ at + m + length (packed od left slots) =
        omega (arith, length-append (take m value) (packed od left slots), length-take m value) in
      rw (e, later.filled, take-bytes_after od slot at m bytes (omega arith) r.part)
        (append_assoc (take at bytes) (take m value) (packed od left slots));
  size = later.size;
}

gather-Gathers :
    (event_driven : Bool) (od : List Entry) (left : ℕ) (slots : List Slot) (at : ℕ) (flags : Flags)
    (bytes : List ℕ)
    → Fits od left slots at
    → length bytes ≡ 8
    → Gathers event_driven od left slots at flags bytes
unfolding gather marked packed
gather-Gathers event_driven od zero slots at flags bytes none_left eight = record {
  result = bytes;
  runs = refl;
  filled = let e : at + 0 ≡ at = omega arith in rw (e, append-nil (take at bytes)) refl;
  size = eight;
}
gather-Gathers event_driven od (suc left) [] at flags bytes fits eight = elim fits [ ]
gather-Gathers event_driven od (suc left) (slot ∷ slots) at flags bytes (one_more r room fits)
      eight =
    next-Gathers event_driven od left slot slots at flags bytes r room eight (
      gather-Gathers event_driven od left slots (at + slot.streamer.stream.data_offset)
        (flags_after event_driven flags slot) (bytes_after od slot at bytes) fits
        (length-bytes_after od slot at bytes room eight))

-- What `send` leaves when the loop has left `bytes`: no request, timers that start anew, flags set.
abbrev pub after_send : Tpdo → (bytes : List ℕ) → Tpdo
after_send t bytes = record t {
  flags = marked (is_event_driven t) t.flags t.pdo.nb_mapped t.pdo.slots;
  tx_buffer = record t.tx_buffer { bytes = bytes };
  send_request = false;
  event_timer = t.event_time_us;
  inhibit_timer = t.inhibit_time_us;
}

abbrev pub sends : Tpdo → Option ℕ → (bytes : List ℕ) → Processed
sends t next bytes = record {
  tpdo = after_send t bytes;
  frames = record t.tx_buffer { bytes = bytes } ∷ [];
  err = none;
  timer_next = next;
}

-- A TPDO whose mapped slots share their bytes with variables under the default reader, each of them
-- fitting with all its bytes behind what is mapped before it in the eight bytes of a frame, sends one
-- frame with its own identifier and length, whose first bytes are the mapped bytes of the variables, one
-- after another. It then has no request, its timers start at their times, and, where it is driven by
-- events, the flag bits of all mapped slots are set.
pub send-packed :
    (t : Tpdo) (next_time : Option ℕ)
    → Fits t.pdo.od t.pdo.nb_mapped t.pdo.slots 0
    → length t.tx_buffer.bytes ≡ 8
    → (bytes : List ℕ) × (send t next_time ≡ done (sends t next_time bytes))
      × (take (length (packed t.pdo.od t.pdo.nb_mapped t.pdo.slots)) bytes
          ≡ packed t.pdo.od t.pdo.nb_mapped t.pdo.slots)
      × (length bytes ≡ 8)
unfolding send sent gathered
send-packed t next_time fits eight =
    let g =
      gather-Gathers (is_event_driven t) t.pdo.od t.pdo.nb_mapped t.pdo.slots 0 t.flags
        t.tx_buffer.bytes fits eight in
    let e : 0 + length (packed t.pdo.od t.pdo.nb_mapped t.pdo.slots)
        ≡ length (packed t.pdo.od t.pdo.nb_mapped t.pdo.slots) =
      omega arith in
    (g.result, rw g.runs refl, rw⁻¹ e g.filled, g.size)
