-- ===== src/Pdo/Tpdo/Setup.antt =====
-- `configureTransmissionType`, `configureCOBID` and `NewTPDO` of pkg/pdo/tpdo.go. No argument is a nil
-- pointer.
use gocanopen.Base.{
  ℕ, ◌*◌, true, false, ◌&&◌, none, some, List, ◌⊎◌, inl, inr, ltb, if◌then◌else◌, u8, u16, u32,
}
use gocanopen.Can.{new_frame}
use gocanopen.Emergency.{Emcy}
use gocanopen.Nmt.{InitError, od_parameters}
use gocanopen.Od.Errors.{Outcome, done, ◌>>=◌}
use gocanopen.Od.Entry.{Entry, uint8, uint16, uint32}
use gocanopen.Pdo.{Pdo, new_pdo}
use gocanopen.Pdo.Rpdo.Setup.{
  is_usable, report_mapping, actual_id, or_failed, transmission_type_sync240,
}
use gocanopen.Pdo.Tpdo.{Tpdo, Flags, sync_event_lo}

-- A reserved transmission type is read as the event-driven one.
unfoldable pub usable_type : (transmission_type : ℕ) → ℕ
usable_type transmission_type =
    if ltb transmission_type sync_event_lo && ltb transmission_type_sync240 transmission_type
    then sync_event_lo
    else transmission_type

-- `configureTransmissionType`
unfoldable pub configure_transmission_type : Tpdo → Entry → Outcome (InitError ⊎ Tpdo)
configure_transmission_type t entry = uint8 entry 2 >>= λ (transmission_type, err). elim err [
  | some _ ↦ done (inl od_parameters)
  | none ↦
      done
        (inr (record t { transmission_type = usable_type transmission_type; send_request = true }))
]

-- `configureCOBID`: the TPDO and the identifier.
unfoldable pub configure_cob_id :
    Tpdo → Entry → (predefined erroneous : ℕ) → Outcome (InitError ⊎ (Tpdo × ℕ))
configure_cob_id t entry predefined erroneous = uint32 entry 1 >>= λ (cob_id, err). elim err [
  | some _ ↦ done (inl od_parameters)
  | none ↦
      let p = t.pdo in
      done (
        inr (
          record t {
            tx_buffer = new_frame (actual_id p cob_id predefined) 0 (u8 p.data_length);
            pdo = record p { emcy = report_mapping p cob_id erroneous; valid = is_usable p cob_id };
          },
          actual_id p cob_id predefined,
        ))
]

abbrev pub fresh : Pdo → Flags → Tpdo
fresh p flags = record {
  pdo = p;
  flags = flags;
  tx_buffer = new_frame 0 0 0;
  transmission_type = 0;
  send_request = false;
  sync_start_value = 0;
  sync_counter = 0;
  inhibit_time_us = 0;
  event_time_us = 0;
  inhibit_timer = 0;
  event_timer = 0;
}

-- The times and the start value, which are 0 where they cannot be read.
unfoldable pub configure_times : Tpdo → (can_id predefined : ℕ) → Entry → Outcome Tpdo
configure_times t can_id predefined entry = uint16 entry 3 >>= λ (inhibit_time, _).
    uint16 entry 5 >>= λ (event_time, _). uint8 entry 6 >>= λ (start, _). done (record t {
      inhibit_time_us = u32 (inhibit_time * 100);
      event_time_us = u32 (event_time * 1000);
      sync_start_value = start;
      sync_counter = 255;
      pdo = record t.pdo {
        is_rpdo = false;
        predefined_id = predefined;
        configured_id = u16 can_id;
      };
    })

-- `NewTPDO` over the communication and the mapping parameters, with the flag bytes as they are. The
-- extensions that it gives to both entries are in `Parameters`.
unfoldable pub new_tpdo :
    List Entry
    → Emcy
    → Flags
    → (communication mapping : Entry) → (predefined : ℕ) → Outcome (InitError ⊎ Tpdo)
new_tpdo od emcy flags communication mapping predefined = new_pdo od emcy false mapping >>= λ p.
    or_failed p (λ (pdo, erroneous).
      configure_transmission_type (fresh pdo flags) communication >>= λ c. or_failed c (λ t.
        configure_cob_id t communication predefined erroneous >>= λ d. or_failed d (λ (t', can_id).
          configure_times t' can_id predefined communication >>= λ t''. done (inr t''))))
