-- ===== src/Pdo/Parameters/Tests.antt =====
-- pkg/pdo: the theorems on the parameters at a concrete TPDO.
use gocanopen.Pdo.Tpdo.{
  process, requested, is_event_driven, run_event_timer, transmit, on_event, send, gather, read_slot,
  Processed, cleared, before_rest, event_next, gathered, gathered_after, has_clear_flag,
  inhibited_next, is_clear, sent, with_flag, Flags, Tpdo,
}
use gocanopen.Pdo.Rpdo.{shared_bytes}
use gocanopen.Od.Lookup.{variable_at, entry_at, opened}
use gocanopen.Od.Stream.{
  copy_in, write_entry_default, read_entry_default, copy_out, copied, has_attribute, read, Stream,
}
use gocanopen.Pdo.Parameters.Lifetime.{
  tpdo_of, perform, Op, set_mapping, perform_all, AllOwn, set_communication, call,
  perform_all-IsFramed,
}
use gocanopen.Pdo.Tpdo.Packed.{sends, marked}
use gocanopen.Pdo.Parameters.{
  count_error, is_new_id, length_from, length_of, write_count, write_entry_16xx_or_1axx,
  write_identity, write_mapping, write_tpdo, written, tpdo, write_entry_18xx,
  read_entry_14xx_or_18xx, tpdo_with_id, stored_id, is_allowed,
}
use gocanopen.Pdo.{
  new_pdo, mapped_by, mapping_from, next_slot, is_sub_not_exist, filled_in, with_slot, add_slot,
  attribute, configure_slot, dummy, empty, erroneous_map, flagged, kept, mappable, mapped, no_slot,
}
use gocanopen.Od.Entry.{
  uint8, read_exactly, opened_stream, uint32, uint16, data_length, find_variable, is_domain,
  new_streamer, Entry, Variable, rec, plain_streamer,
}
use gocanopen.Pdo.Tpdo.Setup.{
  configure_transmission_type, configure_cob_id, configure_times, usable_type, new_tpdo,
}
use gocanopen.Pdo.Rpdo.Setup.{actual_id, is_usable, report_mapping}
use gocanopen.Pdo.Tpdo.Tests.{od, speed, measuring}
use gocanopen.Can.{new_frame, is_id_restricted}
use gocanopen.Base.{replicate, false, ℕ, List, inr, ◌≡◌, refl, true, none, [], ◌∷◌, arith, bytes32}
use gocanopen.Od.Errors.{done}
use gocanopen.Od.Stream.Whole.{IsOpened}
use gocanopen.Pdo.Tests.{silent}
use gocanopen.Pdo.Parameters.Framed.{IsFramed, shape}
use gocanopen.Pdo.Parameters.Identity.{read-write_cob_id}

abbrev stopped : Tpdo
stopped = record (measuring 254) { pdo = record (measuring 254).pdo { valid = false } }

abbrev over_id : Stream
over_id = record {
  bytes = bytes32 0x80000187;
  spare = [];
  allocated = true;
  data_offset = 0;
  data_length = 4;
  attribute = 3;
  subindex = 1;
}

over_id-IsOpened : IsOpened over_id
over_id-IsOpened = record { there = refl; start = refl; whole = refl; small = omega arith }

default_id-allowed : is_allowed stopped.pdo 0x80000180 ≡ true
unfolding is_allowed is_id_restricted
default_id-allowed = refl

-- The default identifier without the node id is read with it.
read-write_cob_id_example :
    let t' = tpdo_with_id stopped 0x80000180 in
    let s' = record over_id { bytes = stored_id stopped.pdo 0x80000180 (bytes32 0x80000180) } in
    (write_entry_18xx (tpdo stopped) over_id (bytes32 0x80000180)
      ≡ done (record { object = tpdo t'; result = record { stream = s'; count = 4; err = none } }))
    × (read_entry_14xx_or_18xx (tpdo t') s' (0 ∷ 0 ∷ 0 ∷ 0 ∷ [])
        ≡ done (record { stream = s'; filled = bytes32 0x80000187; count = 4; err = none }))
read-write_cob_id_example =
    read-write_cob_id stopped over_id 0x80000180 over_id-IsOpened refl refl (omega arith)
      default_id-allowed (omega arith)

-- Communication parameters with the identifier 0x187 in use.
abbrev parameter : (sub : ℕ) → List ℕ → Variable
parameter sub bytes = record {
  value = bytes;
  spare = [];
  data_type = 7;
  attribute = 0x03;
  sub_index = sub;
}

abbrev communication : Entry
communication = record {
  index = 0x1800;
  object = rec (
      parameter 0 (6 ∷ [])
      ∷ parameter 1 (bytes32 0x187)
      ∷ parameter 2 (254 ∷ [])
      ∷ parameter 3 (0 ∷ 0 ∷ [])
      ∷ parameter 5 (0 ∷ 0 ∷ [])
      ∷ parameter 6 (0 ∷ [])
      ∷ []);
  extension = none;
}

-- Two bytes of 0x2100, mapped once.
abbrev speed_mapping : Entry
speed_mapping = record {
  index = 0x1a00;
  object = rec (parameter 0 (1 ∷ []) ∷ parameter 1 (bytes32 0x21000010) ∷ []);
  extension = none;
}

abbrev parameters : List Entry
parameters = communication ∷ speed_mapping ∷ od

abbrev no_flags : Flags
no_flags = λ index number. 0

abbrev created : Tpdo
created = record {
  pdo = record {
    od = parameters;
    emcy = silent;
    slots = mapped no_slot 0x2100 0 (plain_streamer speed 0) 2 ∷ replicate 7 no_slot;
    valid = true;
    data_length = 2;
    nb_mapped = 1;
    is_rpdo = false;
    predefined_id = 0x187;
    configured_id = 0x187;
  };
  flags = no_flags;
  tx_buffer = new_frame 0x187 0 2;
  transmission_type = 254;
  send_request = true;
  sync_start_value = 0;
  sync_counter = 255;
  inhibit_time_us = 0;
  event_time_us = 0;
  inhibit_timer = 0;
  event_timer = 0;
}

abbrev count_stream : Stream
count_stream = record over_id { bytes = 1 ∷ []; data_length = 1; subindex = 0 }

test_created :
    new_tpdo parameters silent no_flags communication speed_mapping 0x187 ≡ done (inr created)
unfolding new_tpdo new_pdo uint8 read_exactly opened_stream read_entry_default copy_out mapped_by
    mapping_from uint32 next_slot is_sub_not_exist filled_in with_slot configure_transmission_type
    configure_cob_id configure_times uint16 data_length find_variable is_domain new_streamer
    plain_streamer entry_at opened copied has_attribute read actual_id is_usable report_mapping
    usable_type add_slot attribute configure_slot dummy empty erroneous_map flagged kept mappable
    mapped
test_created = refl

-- A frame, the identifier out of use, a call while it is, the mapping off and on again, and another
-- identifier.
abbrev life : List Op
life =
    call 1000 none true false none
    ∷ set_communication over_id (bytes32 0x80000187)
    ∷ call 1000 none true false none
    ∷ set_mapping count_stream (0 ∷ [])
    ∷ set_mapping count_stream (1 ∷ [])
    ∷ set_communication over_id (bytes32 0x1a7)
    ∷ []

abbrev renewed : Tpdo
renewed = record created {
  pdo = record created.pdo { configured_id = 0x1a7 };
  tx_buffer = new_frame 0x1a7 0 2;
}

test_renewed : perform_all created life ≡ done renewed
unfolding perform_all perform cleared process requested is_event_driven run_event_timer transmit
    on_event send gather read_slot read mapped plain_streamer read_entry_default opened_stream
    copy_out shared_bytes entry_at is_id_restricted data_length variable_at copied copy_in
    has_attribute write_entry_default tpdo_of count_error is_allowed is_new_id length_from length_of
    stored_id tpdo_with_id write_count write_entry_16xx_or_1axx write_entry_18xx write_identity
    write_mapping write_tpdo written before_rest event_next gathered gathered_after has_clear_flag
    inhibited_next is_clear sent with_flag
test_renewed = refl

-- The next call sends a frame with the new identifier.
abbrev called : Processed
called = sends renewed none (5 ∷ 6 ∷ replicate 6 0)

test_called : process renewed 1000 none true false none ≡ done called
unfolding marked process requested is_event_driven run_event_timer transmit on_event send gather
    read_slot read mapped plain_streamer read_entry_default opened_stream copy_out shared_bytes
    entry_at is_id_restricted data_length variable_at copied copy_in has_attribute
    write_entry_default tpdo_of count_error is_allowed is_new_id length_from length_of stored_id
    tpdo_with_id write_count write_entry_16xx_or_1axx write_entry_18xx write_identity write_mapping
    write_tpdo written before_rest event_next gathered gathered_after has_clear_flag inhibited_next
    is_clear sent with_flag
test_called = refl

perform_all-IsFramed_example : IsFramed (shape renewed) × AllOwn renewed called.frames
unfolding marked is_event_driven
perform_all-IsFramed_example =
    perform_all-IsFramed parameters silent no_flags communication speed_mapping 0x187 created life
      renewed 1000 none true false none called (omega arith) test_created test_renewed test_called
