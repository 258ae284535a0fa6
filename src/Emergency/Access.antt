-- ===== src/Emergency/Access.antt =====
-- pkg/emergency/extensions.go: reading and writing the emergency objects of the dictionary. The
-- stream's object is the emergency object, and no pointer is nil.
use gocanopen.Base.{
  ℕ, ◌+◌, ◌-◌, ◌*◌, Bool, not, ◌&&◌, ◌||◌, none, some, List, [], ◌∷◌, length, get_or, take, min,
  ltb, leb, ◌==◌, if◌then◌else◌, u16, u32, bit_and, bit_or, has_bits, bytes32, le16, le32,
}
use gocanopen.Can.{new_frame, is_id_restricted}
use gocanopen.Od.Errors.{Odr, dev_incompat, invalid_value, no_data, Outcome, done}
use gocanopen.Od.Stream.{Stream, ReadResult, WriteResult, copied, write_entry_default}
use gocanopen.Emergency.{Emcy, no_message}

abbrev refused_read : Stream → List ℕ → Odr → ReadResult
refused_read s data' err = record { stream = s; filled = data'; count = 0; err = some err }

abbrev refused_write : Stream → Odr → Outcome WriteResult
refused_write s err = done (record { stream = s; count = 0; err = some err })

-- The number of status bytes that fit the slice, and the entry if it has bytes.
status_count : Stream → List ℕ → ℕ
status_count s data' =
    let n = min 10 (length data') in
    if not (length s.bytes == 0) && ltb (length s.bytes) n then length s.bytes else n

-- `readEntryStatusBits`
unfoldable pub read_entry_status_bits : Emcy → Stream → List ℕ → ReadResult
unfolding status_count
read_entry_status_bits e s data' =
    if not (s.subindex == 0) then refused_read s data' dev_incompat else record {
      stream = s;
      filled = copied (take (status_count s data') e.error_status_bits) data';
      count = u16 (status_count s data');
      err = none;
    }

-- `writeEntryStatusBits`
unfoldable pub write_entry_status_bits : Emcy → Stream → List ℕ → Emcy × Outcome WriteResult
unfolding status_count
write_entry_status_bits e s data' =
    if not (s.subindex == 0) then (e, refused_write s dev_incompat) else (
      record e {
        error_status_bits = copied (take (status_count s data') data') e.error_status_bits;
      },
      done (record { stream = s; count = u16 (status_count s data'); err = none }),
    )

-- The place of the message that is `sub` back from the write pointer.
unfoldable pub history_place : Emcy → ℕ → ℕ
history_place e sub =
    if ltb e.fifo_wr_ptr sub then e.fifo_wr_ptr + length e.fifo - sub else e.fifo_wr_ptr - sub

-- `readEntry1003`
unfoldable pub read_entry_1003 : Emcy → Stream → List ℕ → ReadResult
read_entry_1003 e s data' =
    if (ltb (length data') 4 && ltb 0 s.subindex) || ltb (length data') 1 || ltb (length e.fifo) 2
    then refused_read s data' dev_incompat
    else if s.subindex == 0
    then record { stream = s; filled = copied (e.fifo_count ∷ []) data'; count = 1; err = none }
    else if ltb e.fifo_count s.subindex
    then refused_read s data' no_data
    else if not (ltb e.fifo_wr_ptr s.subindex) && leb (length e.fifo) (e.fifo_wr_ptr - s.subindex)
    then refused_read s data' dev_incompat
    else record {
      stream = s;
      filled = copied (bytes32 (get_or e.fifo (history_place e s.subindex) no_message).msg) data';
      count = 4;
      err = none;
    }

-- `writeEntry1003`
unfoldable pub write_entry_1003 : Emcy → Stream → List ℕ → Emcy × Outcome WriteResult
write_entry_1003 e s data' =
    if not (s.subindex == 0) || not (length data' == 1)
    then (e, refused_write s dev_incompat)
    else if not (get_or data' 0 0 == 0)
    then (e, refused_write s invalid_value)
    else (record e { fifo_count = 0 }, done (record { stream = s; count = 1; err = none }))

-- The identifier that the producer sends under.
unfoldable pub current_can_id : Emcy → ℕ
current_can_id e = if e.producer_ident == 0x80 then u16 (0x80 + e.node_id) else e.producer_ident

-- `readEntry1014`
unfoldable pub read_entry_1014 : Emcy → Stream → List ℕ → ReadResult
read_entry_1014 e s data' =
    if ltb (length data') 4 || not (s.subindex == 0)
    then refused_read s data' dev_incompat
    else record {
      stream = s;
      filled =
          copied
            (bytes32 (bit_or (if e.producer_enabled then 0 else 0x80000000) (current_can_id e)))
            data';
      count = 4;
      err = none;
    }

-- The test of `writeEntry1014` that decides whether the producer is enabled.
unfoldable pub newly_enabled : Emcy → ℕ → Bool
newly_enabled e cob_id = (bit_and cob_id (current_can_id e) == 0) && not (bit_and cob_id 0x7ff == 0)

-- `writeEntry1014`
unfoldable pub write_entry_1014 : Emcy → Stream → List ℕ → Emcy × Outcome WriteResult
write_entry_1014 e s data' =
    if not (length data' == 4) || not (s.subindex == 0)
    then (e, refused_write s dev_incompat)
    else if has_bits cob_id 0x7ffff800
        || is_id_restricted new_can_id
        || (e.producer_enabled && enabled && not (new_can_id == current_can_id e))
    then (e, refused_write s invalid_value)
    else (
      record e {
        producer_enabled = enabled;
        producer_ident = if new_can_id == u16 (0x80 + e.node_id) then 0x80 else new_can_id;
        tx_buffer = if enabled then new_frame new_can_id 0 8 else e.tx_buffer;
      },
      write_entry_default s data',
    )
  where
    cob_id : ℕ
    cob_id = le32 data' 0

    new_can_id : ℕ
    new_can_id = bit_and cob_id 0x7ff

    enabled : Bool
    enabled = newly_enabled e cob_id

-- `writeEntry1015`
unfoldable pub write_entry_1015 : Emcy → Stream → List ℕ → Emcy × Outcome WriteResult
write_entry_1015 e s data' =
    if not (s.subindex == 0) || not (length data' == 2)
    then (e, refused_write s dev_incompat)
    else (
      record e { inhibit_time_us = u32 (le16 data' 0 * 100); inhibit_timer = 0 },
      write_entry_default s data',
    )
