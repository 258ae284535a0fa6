-- ===== src/Pdo.antt =====
-- pkg/pdo/common.go: what RPDOs and TPDOs share: the mapping of objects into a frame. Logging is left
-- out.
pub mod Rpdo
pub mod Tpdo
pub mod Length
pub mod Parameters
pub mod Transfer
pub mod Tests
use gocanopen.Base.{
  inl, inr, ◌⊎◌, length, ℕ, zero, suc, ◌+◌, ◌-◌, ◌/◌, ◌%◌, ◌^◌, Bool, true, false, not, ◌&&◌, ◌||◌,
  Option, none, some, List, [], ◌∷◌, ltb, leb, ◌==◌, if◌then◌else◌, u8, u16, u32, replicate,
  bit_and, get_or, set,
}
use gocanopen.Emergency.{Emcy}
use gocanopen.Nmt.{InitError, od_parameters}
use gocanopen.Od.Errors.{Odr, map_len, no_map, Outcome, done, panicked, ◌>>=◌}
use gocanopen.Od.Stream.{
  Stream, Streamer, StreamReader, StreamWriter, ReadResult, WriteResult, has_attribute,
}
use gocanopen.Od.Entry.{Entry, no_streamer, without_extension, uint8, uint32}
use gocanopen.Od.Lookup.{entry_at, opened}

abbrev pub max_pdo_length : ℕ
max_pdo_length = 8

abbrev pub attribute_tpdo : ℕ
attribute_tpdo = 0x04

abbrev pub attribute_rpdo : ℕ
attribute_rpdo = 0x08

-- A place of `streamers`. `target` is the index and the place of the variable that the streamer shares
-- its bytes with, and `flag` the index and the number of the flag byte with its mask.
pub record Slot : Type 0 where
  pub target : Option (ℕ × ℕ)
  pub streamer : Streamer
  pub flag : Option (ℕ × ℕ)
  pub flag_bitmask : ℕ

-- `PDOCommon`
pub record Pdo : Type 0 where
  pub od : List Entry
  pub emcy : Emcy
  pub slots : List Slot
  pub valid : Bool
  pub data_length : ℕ
  pub nb_mapped : ℕ
  pub is_rpdo : Bool
  pub predefined_id : ℕ
  pub configured_id : ℕ

-- `attribute`
unfoldable pub attribute : Pdo → ℕ
attribute p = if p.is_rpdo then attribute_rpdo else attribute_tpdo

abbrev pub no_slot : Slot
no_slot = record { target = none; streamer = no_streamer; flag = none; flag_bitmask = 0 }

-- `WriteDummy` and `ReadDummy`
unfoldable pub write_dummy : StreamWriter
write_dummy s data' = done (record { stream = s; count = u16 (length data'); err = none })

unfoldable pub read_dummy : StreamReader
read_dummy s data' = done (record {
  stream = s;
  filled = data';
  count = u16 (if ltb (length s.bytes) (length data') then length s.bytes else length data');
  err = none;
})

-- `ResetData`
unfoldable pub reset_data : Stream → (size offset : ℕ) → Stream
reset_data s size offset = record s {
  bytes = replicate size 0;
  spare = [];
  allocated = true;
  data_offset = offset;
}

-- A dummy entry only takes up room.
unfoldable pub dummy : Slot → ℕ → Slot
dummy slot length = record slot {
  target = none;
  streamer = record {
    stream = reset_data slot.streamer.stream length length;
    reader = some read_dummy;
    writer = some write_dummy;
  };
}

-- The variable at a place of the object at `index`, of which `length` bytes are mapped.
unfoldable pub mapped : Slot → (index place : ℕ) → Streamer → (length : ℕ) → Slot
mapped slot index place streamer length = record slot {
  target = some (index, place);
  streamer = record streamer { stream = record streamer.stream { data_offset = length } };
}

-- The flag byte of a TPDO, for an object with an extension.
unfoldable pub flagged : List Entry → (index subindex : ℕ) → Slot → Slot
flagged od index subindex slot = elim (entry_at od index) [
  | none ↦ record slot { flag = none }
  | some e ↦
      if ltb subindex 256 && not (without_extension e.extension)
      then record slot {
        flag = some (index, subindex / 8);
        flag_bitmask = u8 (2 ^ bit_and subindex 0x07);
      }
      else record slot { flag = none }
]

-- The checks of the attribute, the alignment and the length of a variable to be mapped.
unfoldable pub mappable : Pdo → Streamer → (bits : ℕ) → Option Odr
mappable p streamer bits =
    if not (has_attribute streamer.stream (attribute p))
    then some no_map
    else if not (bit_and bits 0x07 == 0)
    then some no_map
    else if ltb streamer.stream.data_length (bits / 8)
    then some no_map
    else none

-- `configureMap` for the slot that it changes: the slot and the error.
unfoldable pub configure_slot : Pdo → (map_param : ℕ) → (is_rpdo : Bool) → Slot → Slot × Option Odr
configure_slot p map_param is_rpdo slot =
    let index = u16 (map_param / 65536) in
    let subindex = u8 (map_param / 256) in
    let bits = u8 map_param in
    let (place, streamer, err) = opened p.od index subindex in
    if ltb max_pdo_length (bits / 8)
    then (slot, some map_len)
    else if ltb index 0x20 && (subindex == 0)
    then (dummy slot (bits / 8), none)
    else elim err [
      | some e ↦ (slot, some e)
      | none ↦ elim (mappable p streamer bits) [
        | some e ↦ (slot, some e)
        | none ↦
            let slot' = mapped slot index place streamer (bits / 8) in
            ((if is_rpdo then slot' else flagged p.od index subindex slot'), none)
      ]
    ]

-- The loop of `NewPDO` over the slots: the slots, the length of what is mapped, and the first parameter
-- that fails, 0 for none. A parameter that is not there leaves its slot alone, whose
-- offset is 0.
pub record Mapping : Type 0 where
  pub slots : List Slot
  pub length : ℕ
  pub erroneous : ℕ

unfoldable pub add_slot : (counts : Bool) → Slot → (erroneous : ℕ) → Mapping → Mapping
add_slot counts slot erroneous rest = record {
  slots = slot ∷ rest.slots;
  length = if counts then u32 (slot.streamer.stream.data_offset + rest.length) else rest.length;
  erroneous = if erroneous == 0 then rest.erroneous else erroneous;
}

-- A slot whose parameter fails counts with the offset 0xff.
unfoldable pub kept : (map_param : ℕ) → Slot × Option Odr → Slot × ℕ
kept map_param (slot, none) = (slot, 0)
kept map_param (slot, some err) = (
  record slot {
    target = none;
    streamer = record slot.streamer { stream = reset_data slot.streamer.stream 0 0xff };
  },
  map_param,
)

unfoldable pub is_sub_not_exist : Odr → Bool
is_sub_not_exist Odr.sub_not_exist = true
is_sub_not_exist _ = false

unfoldable pub with_slot : (Mapping → Mapping) → InitError ⊎ Mapping → InitError ⊎ Mapping
with_slot f (inl err) = inl err
with_slot f (inr m) = inr (f m)

-- The slot numbered `i`, whose parameter was read with the error, before the `rest`.
unfoldable pub next_slot :
    Pdo
    → (count i map_param : ℕ) → Option Odr
    → Outcome (InitError ⊎ Mapping)
    → Outcome (InitError ⊎ Mapping)
next_slot p count i map_param none rest =
    let (slot, erroneous) = kept map_param (configure_slot p map_param p.is_rpdo no_slot) in
    rest >>= λ r. done (with_slot (add_slot (ltb i count) slot erroneous) r)
next_slot p count i map_param (some err) rest =
    if is_sub_not_exist err
    then (rest >>= λ r. done (with_slot (add_slot (ltb i count) no_slot 0) r))
    else done (inl od_parameters)

-- `left` slots from the one numbered `i` on.
unfoldable pub mapping_from : Pdo → Entry → (count i left : ℕ) → Outcome (InitError ⊎ Mapping)
mapping_from p entry count i zero = done (inr (record { slots = []; length = 0; erroneous = 0 }))
mapping_from p entry count i (suc left) =
    let rest = mapping_from p entry count (i + 1) left in
    uint32 entry (i + 1) >>= λ (map_param, err). next_slot p count i map_param err rest

-- The parameter that is reported: 1 where the length of what is mapped is wrong.
unfoldable pub erroneous_map : Mapping → (count : ℕ) → ℕ
erroneous_map m count =
    if not (m.erroneous == 0)
    then m.erroneous
    else if ltb max_pdo_length m.length || ((m.length == 0) && ltb 0 count)
    then 1
    else 0

unfoldable pub empty : List Entry → Emcy → (is_rpdo : Bool) → Pdo
empty od emcy is_rpdo = record {
  od = od;
  emcy = emcy;
  slots = replicate 8 no_slot;
  valid = false;
  data_length = 0;
  nb_mapped = 0;
  is_rpdo = is_rpdo;
  predefined_id = 0;
  configured_id = 0;
}

-- The end of `NewPDO`, with the number of mapped objects.
unfoldable pub filled_in : Pdo → (count : ℕ) → InitError ⊎ Mapping → InitError ⊎ (Pdo × ℕ)
filled_in p count (inl err) = inl err
filled_in p count (inr m) =
    let erroneous = erroneous_map m count in
    inr (
      record p {
        slots = m.slots;
        data_length = if erroneous == 0 then m.length else 0;
        nb_mapped = if erroneous == 0 then count else 0;
      },
      erroneous,
    )

unfoldable pub mapped_by : Pdo → Entry → (count : ℕ) → Option Odr → Outcome (InitError ⊎ (Pdo × ℕ))
mapped_by p entry count none = mapping_from p entry count 0 8 >>= λ r. done (filled_in p count r)
mapped_by p entry count (some _) = done (inl od_parameters)

-- `NewPDO`, for a caller that has seen no erroneous parameter yet: the object and the erroneous parameter.
unfoldable pub new_pdo :
    List Entry → Emcy → (is_rpdo : Bool) → Entry → Outcome (InitError ⊎ (Pdo × ℕ))
new_pdo od emcy is_rpdo entry =
    uint8 entry 0 >>= λ (count, err). mapped_by (empty od emcy is_rpdo) entry count err
