-- ===== src/Pdo/Parameters.antt =====
-- pkg/pdo/extensions.go: the accesses to the communication and mapping parameters of RPDOs and TPDOs.
-- Subscribe, which returns no error, and logging are left out. No argument is a nil pointer.
pub mod Framed
pub mod Shown
pub mod Writes
pub mod Created
pub mod Lifetime
pub mod Identity
mod Tests
use gocanopen.Base.{
  ℕ, zero, suc, ◌+◌, ◌-◌, ◌*◌, Bool, true, false, not, ◌&&◌, ◌||◌, Option, none, some, List, [],
  ◌∷◌, length, ltb, leb, ◌==◌, if◌then◌else◌, u8, u16, u32, bit_and, bit_or, has_bits, le16, le32,
  bytes32, get_or, set, ◌++◌, drop,
}
use gocanopen.Can.{new_frame, is_id_restricted}
use gocanopen.Od.Errors.{
  Odr, dev_incompat, invalid_value, unsupp_access, map_len, no_map, Outcome, done, panicked, ◌>>=◌,
}
use gocanopen.Od.Stream.{Stream, WriteResult, ReadResult, write_entry_default, read_entry_default}
use gocanopen.Pdo.{Pdo, Slot, max_pdo_length, no_slot, configure_slot}
use gocanopen.Pdo.Rpdo.{Rpdo}
use gocanopen.Pdo.Rpdo.Setup.{transmission_type_sync240}
use gocanopen.Pdo.Tpdo.{Tpdo, sync_event_lo}

abbrev pub max_mapped_entries : ℕ
max_mapped_entries = 8

-- `stream.Object`
pub data PdoObject : Type 0 where
  rpdo : Rpdo → PdoObject
  tpdo : Tpdo → PdoObject
  other : PdoObject

-- What a write leaves: the object and the result of the write.
pub record Written (A : Type 0) : Type 0 where
  pub object : A
  pub result : WriteResult

abbrev pub refused : {A : Type 0} → A → Stream → Odr → Outcome (Written A)
refused a s err =
    done (record { object = a; result = record { stream = s; count = 0; err = some err } })

-- `WriteEntryDefault`, with the object as it is by then.
unfoldable pub written : {A : Type 0} → A → Stream → List ℕ → Outcome (Written A)
written a s bytes = write_entry_default s bytes >>= λ r. done (record { object = a; result = r })

abbrev pub is_valid_id : (cob_id : ℕ) → Bool
is_valid_id cob_id = not (has_bits cob_id 0x80000000)

abbrev pub can_id_of : (cob_id : ℕ) → ℕ
can_id_of cob_id = bit_and cob_id 0x7ff

-- `a != b`
abbrev is_other : Bool → Bool → Bool
is_other true b = not b
is_other false b = b

-- The conditions on a new COB-ID.
unfoldable pub is_allowed : Pdo → (cob_id : ℕ) → Bool
is_allowed p cob_id =
    let valid = is_valid_id cob_id in
    let can_id = can_id_of cob_id in
    not (
      has_bits cob_id 0x3ffff800
      || (valid && p.valid && not (can_id == p.configured_id))
      || (valid && is_id_restricted (u16 can_id))
      || (valid && (p.nb_mapped == 0)))

-- The COB-ID changes something.
unfoldable pub is_new_id : Pdo → (cob_id : ℕ) → Bool
is_new_id p cob_id =
    is_other (is_valid_id cob_id) p.valid || not (can_id_of cob_id == p.configured_id)

-- The bytes that are stored: the default identifier goes without the node id.
unfoldable pub stored_id : Pdo → (cob_id : ℕ) → List ℕ → List ℕ
stored_id p cob_id bytes =
    if is_new_id p cob_id && (can_id_of cob_id == p.predefined_id)
    then bytes32 (bit_and cob_id 0xffffff80)
    else bytes

-- The new COB-ID of an RPDO, which keeps its old identifier while it is not valid.
unfoldable pub rpdo_with_id : Rpdo → (cob_id : ℕ) → Rpdo
rpdo_with_id r cob_id =
    if not (is_new_id r.pdo cob_id)
    then r
    else if is_valid_id cob_id
    then record r { pdo = record r.pdo { valid = true; configured_id = can_id_of cob_id } }
    else record r { pdo = record r.pdo { valid = false }; rx_new0 = false; rx_new1 = false }

abbrev pub is_reserved_type : (transmission_type : ℕ) → Bool
is_reserved_type transmission_type =
    ltb transmission_type_sync240 transmission_type && ltb transmission_type sync_event_lo

-- A change between a synchronous and an asynchronous type drops the frame in the second buffer.
unfoldable pub with_type : Rpdo → (synchronous : Bool) → Rpdo
with_type r synchronous = record r {
  rx_new1 = if is_other r.synchronous synchronous then false else r.rx_new1;
  synchronous = synchronous;
}

-- `writeEntry14xx` of an RPDO, for the subindex. Too few bytes for a number panic.
unfoldable pub write_rpdo : Rpdo → Stream → List ℕ → Outcome (Written Rpdo)
write_rpdo r s bytes =
    if s.subindex == 1
    then if ltb (length bytes) 4
      then panicked
      else if not (is_allowed r.pdo (le32 bytes 0))
      then refused r s invalid_value
      else written (rpdo_with_id r (le32 bytes 0)) s (stored_id r.pdo (le32 bytes 0) bytes)
    else if s.subindex == 2
    then if ltb (length bytes) 1
      then panicked
      else if is_reserved_type (get_or bytes 0 0)
      then refused r s invalid_value
      else written (with_type r (leb (get_or bytes 0 0) transmission_type_sync240)) s bytes
    else if s.subindex == 5
    then if ltb (length bytes) 2
      then panicked
      else written (record r { timeout_time_us = u32 (le16 bytes 0 * 1000); timeout_timer = 0 }) s
          bytes
    else written r s bytes

-- `writeEntry14xx`
unfoldable pub write_entry_14xx : PdoObject → Stream → List ℕ → Outcome (Written PdoObject)
write_entry_14xx (rpdo r) s bytes =
    if ltb 4 (length bytes)
    then refused (rpdo r) s dev_incompat
    else (write_rpdo r s bytes >>= λ w. done (record { object = rpdo w.object; result = w.result }))
write_entry_14xx (tpdo t) s bytes = refused (tpdo t) s dev_incompat
write_entry_14xx other s bytes = refused other s dev_incompat

-- The new COB-ID of a TPDO, with a new frame.
unfoldable pub tpdo_with_id : Tpdo → (cob_id : ℕ) → Tpdo
tpdo_with_id t cob_id =
    let can_id = if is_valid_id cob_id then can_id_of cob_id else 0 in
    if not (is_new_id t.pdo cob_id) then t else record t {
      tx_buffer = new_frame can_id 0 (u8 t.pdo.data_length);
      pdo = record t.pdo { valid = is_valid_id cob_id; configured_id = can_id };
    }

-- `writeEntry18xx` of a TPDO, for the subindices 1 and 2, and for the others.
unfoldable pub write_identity : Tpdo → Stream → List ℕ → Outcome (Written Tpdo)
write_identity t s bytes =
    if s.subindex == 1
    then if ltb (length bytes) 4
      then panicked
      else if not (is_allowed t.pdo (le32 bytes 0))
      then refused t s invalid_value
      else written (tpdo_with_id t (le32 bytes 0)) s (stored_id t.pdo (le32 bytes 0) bytes)
    else if ltb (length bytes) 1
    then panicked
    else if is_reserved_type (get_or bytes 0 0)
    then refused t s invalid_value
    else written
        (record t {
          sync_counter = 255;
          transmission_type = get_or bytes 0 0;
          send_request = true;
          inhibit_timer = 0;
          event_timer = 0;
        })
        s bytes

unfoldable pub write_times : Tpdo → Stream → List ℕ → Outcome (Written Tpdo)
write_times t s bytes =
    if s.subindex == 3
    then if t.pdo.valid
      then refused t s invalid_value
      else if ltb (length bytes) 2
      then panicked
      else written (record t { inhibit_time_us = u32 (le16 bytes 0 * 100); inhibit_timer = 0 }) s
          bytes
    else if s.subindex == 5
    then if ltb (length bytes) 2
      then panicked
      else written (record t { event_time_us = u32 (le16 bytes 0 * 1000); event_timer = 0 }) s bytes
    else if s.subindex == 6
    then if ltb (length bytes) 1
      then panicked
      else if t.pdo.valid || ltb 240 (get_or bytes 0 0)
      then refused t s invalid_value
      else written (record t { sync_start_value = get_or bytes 0 0 }) s bytes
    else written t s bytes

unfoldable pub write_tpdo : Tpdo → Stream → List ℕ → Outcome (Written Tpdo)
write_tpdo t s bytes =
    if (s.subindex == 1) || (s.subindex == 2)
    then write_identity t s bytes
    else write_times t s bytes

-- `writeEntry18xx`
unfoldable pub write_entry_18xx : PdoObject → Stream → List ℕ → Outcome (Written PdoObject)
write_entry_18xx (tpdo t) s bytes =
    if ltb 4 (length bytes)
    then refused (tpdo t) s dev_incompat
    else (write_tpdo t s bytes >>= λ w. done (record { object = tpdo w.object; result = w.result }))
write_entry_18xx (rpdo r) s bytes = refused (rpdo r) s dev_incompat
write_entry_18xx other s bytes = refused other s dev_incompat

-- The loop over the mapped slots: the length of what is mapped, or the error. A place beyond the eighth
-- is not reached.
unfoldable pub length_from : (left : ℕ) → List Slot → (total : ℕ) → Option ℕ
length_from zero slots total = some total
length_from (suc left) [] total = none
length_from (suc left) (slot ∷ slots) total =
    let st = slot.streamer.stream in
    let rest = length_from left slots (u32 (total + st.data_offset)) in
    if ltb st.data_length st.data_offset then none else rest

-- The error of a number of mapped objects, or their length.
unfoldable pub count_error : (count : ℕ) → Option ℕ → Option Odr
count_error count none = some no_map
count_error count (some total) =
    if ltb max_pdo_length total
    then some map_len
    else if (total == 0) && ltb 0 count
    then some invalid_value
    else none

unfoldable pub length_of : Option ℕ → ℕ
length_of none = 0
length_of (some total) = total

-- A new number of mapped objects.
unfoldable pub write_count : Pdo → Stream → (count : ℕ) → List ℕ → Outcome (Written Pdo)
write_count p s count bytes =
    let total = length_from count p.slots 0 in
    if ltb max_mapped_entries count then refused p s map_len else elim (count_error count total) [
      | some err ↦ refused p s err
      | none ↦ written (record p { data_length = length_of total; nb_mapped = count }) s bytes
    ]

-- A new parameter of the slot at a place.
unfoldable pub write_parameter : Pdo → Stream → (place : ℕ) → List ℕ → Outcome (Written Pdo)
write_parameter p s place bytes =
    let (slot, err) = configure_slot p (le32 bytes 0) p.is_rpdo (get_or p.slots place no_slot) in
    let p' = record p { slots = set p.slots place slot } in
    elim err [ some e ↦ refused p' s e | none ↦ written p' s bytes ]

-- `writeEntry16xxOr1Axx` of what RPDOs and TPDOs share.
unfoldable pub write_mapping : Pdo → Stream → List ℕ → Outcome (Written Pdo)
write_mapping p s bytes =
    if p.valid || (not (p.nb_mapped == 0) && ltb 0 s.subindex)
    then refused p s unsupp_access
    else if s.subindex == 0
    then if ltb (length bytes) 1 then panicked else write_count p s (get_or bytes 0 0) bytes
    else if ltb (length bytes) 4
    then panicked
    else write_parameter p s (s.subindex - 1) bytes

-- `writeEntry16xxOr1Axx`
unfoldable pub write_entry_16xx_or_1axx : PdoObject → Stream → List ℕ → Outcome (Written PdoObject)
write_entry_16xx_or_1axx (rpdo r) s bytes =
    if ltb max_mapped_entries s.subindex
    then refused (rpdo r) s dev_incompat
    else (write_mapping r.pdo s bytes >>= λ w.
        done (record { object = rpdo (record r { pdo = w.object }); result = w.result }))
write_entry_16xx_or_1axx (tpdo t) s bytes =
    if ltb max_mapped_entries s.subindex
    then refused (tpdo t) s dev_incompat
    else (write_mapping t.pdo s bytes >>= λ w.
        done (record { object = tpdo (record t { pdo = w.object }); result = w.result }))
write_entry_16xx_or_1axx other s bytes = refused other s dev_incompat

-- The COB-ID that is read for a stored one.
unfoldable pub shown_id : Pdo → (cob_id : ℕ) → ℕ
shown_id p cob_id =
    let can_id = can_id_of cob_id in
    let with_node =
      if not (can_id == 0) && (can_id == bit_and p.predefined_id 0xff80)
      then bit_or (bit_and cob_id 0xffff0000) p.predefined_id
      else cob_id in
    if p.valid then with_node else bit_or with_node 0x80000000

unfoldable pub pdo_of : PdoObject → Option Pdo
pdo_of (rpdo r) = some r.pdo
pdo_of (tpdo t) = some t.pdo
pdo_of other = none

-- What `ReadEntryDefault` has read, with the COB-ID shown.
unfoldable pub shown : Stream → PdoObject → ReadResult → ReadResult
shown s object r =
    let is_id = (s.subindex == 1) && (r.count == 4) in
    elim r.err [
      | some err ↦ r
      | none ↦ if not is_id then r else elim (pdo_of object) [
        | none ↦ record r { err = some dev_incompat }
        | some p ↦ record r { filled = bytes32 (shown_id p (le32 r.filled 0)) ++ drop 4 r.filled }
      ]
    ]

-- `readEntry14xxOr18xx`
unfoldable pub read_entry_14xx_or_18xx : PdoObject → Stream → List ℕ → Outcome ReadResult
read_entry_14xx_or_18xx object s data' = read_entry_default s data' >>= λ r. done (shown s object r)
