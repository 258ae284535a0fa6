-- ===== src/Pdo/Rpdo/Setup.antt =====
-- `configureCOBID` and `NewRPDO` of pkg/pdo/rpdo.go. No argument is a nil pointer, and the subscription
-- on the bus, which returns no error, is left out.
use gocanopen.Base.{
  ℕ, ◌*◌, Bool, true, false, not, ◌&&◌, none, some, List, ◌⊎◌, inl, inr, leb, ◌==◌, if◌then◌else◌,
  bit_and, has_bits, u16, u32,
}
use gocanopen.Can.{zeros8}
use gocanopen.Emergency.{Emcy, error_report}
use gocanopen.Nmt.{InitError, od_parameters}
use gocanopen.Od.Errors.{Outcome, done, ◌>>=◌}
use gocanopen.Od.Entry.{Entry, uint8, uint16, uint32}
use gocanopen.Pdo.{Pdo, new_pdo}
use gocanopen.Pdo.Rpdo.{Rpdo}

abbrev pub em_pdo_wrong_mapping : ℕ
em_pdo_wrong_mapping = 0x1a

abbrev pub err_protocol_error : ℕ
err_protocol_error = 0x8200

abbrev pub transmission_type_sync240 : ℕ
transmission_type_sync240 = 0xf0

-- The COB-ID names an identifier that is in use, and something is mapped.
unfoldable pub is_usable : Pdo → (cob_id : ℕ) → Bool
is_usable p cob_id =
    not (has_bits cob_id 0x80000000) && not (p.nb_mapped == 0) && not (bit_and cob_id 0x7ff == 0)

-- The wrong mapping, or the COB-ID of an RPDO that is valid by its own bit but of no use.
unfoldable pub report_mapping : Pdo → (cob_id erroneous : ℕ) → Emcy
report_mapping p cob_id erroneous =
    let wrong_cob_id = not (has_bits cob_id 0x80000000) && not (is_usable p cob_id) in
    let erroneous' = if wrong_cob_id && (erroneous == 0) then 1 else erroneous in
    if erroneous' == 0
    then p.emcy
    else error_report p.emcy em_pdo_wrong_mapping err_protocol_error
        (if erroneous' == 1 then cob_id else erroneous')

-- The default identifier gets the node id added.
unfoldable pub actual_id : Pdo → (cob_id predefined : ℕ) → ℕ
actual_id p cob_id predefined =
    let can_id = if is_usable p cob_id then bit_and cob_id 0x7ff else 0 in
    if not (can_id == 0) && (can_id == bit_and predefined 0xff80) then predefined else can_id

-- `configureCOBID`: the RPDO and the identifier.
unfoldable pub configure_cob_id :
    Rpdo → Entry → (predefined erroneous : ℕ) → Outcome (InitError ⊎ (Rpdo × ℕ))
configure_cob_id r entry predefined erroneous = uint32 entry 1 >>= λ (cob_id, err). elim err [
  | some _ ↦ done (inl od_parameters)
  | none ↦
      let p = r.pdo in
      done (
        inr (
          record r {
            pdo = record p { emcy = report_mapping p cob_id erroneous; valid = is_usable p cob_id };
          },
          actual_id p cob_id predefined,
        ))
]

abbrev fresh : Pdo → Rpdo
fresh p = record {
  pdo = p;
  rx_new0 = false;
  rx_new1 = false;
  rx_data0 = zeros8;
  rx_data1 = zeros8;
  receive_error = 0;
  synchronous = false;
  timeout_time_us = 0;
  timeout_timer = 0;
}

-- The transmission type and the event timer, which is 0 where it cannot be read.
unfoldable pub configure_timing :
    Rpdo → (can_id predefined : ℕ) → Entry → Outcome (InitError ⊎ Rpdo)
configure_timing r can_id predefined entry = uint8 entry 2 >>= λ (transmission_type, err).
    elim err [
      | some _ ↦ done (inl od_parameters)
      | none ↦ uint16 entry 5 >>= λ (event_time, _). done (
          inr (record r {
            synchronous = leb transmission_type transmission_type_sync240;
            timeout_time_us = u32 (event_time * 1000);
            pdo = record r.pdo {
              is_rpdo = true;
              predefined_id = predefined;
              configured_id = u16 can_id;
            };
          }))
    ]

abbrev pub or_failed :
    {A B : Type 0} → InitError ⊎ A → (A → Outcome (InitError ⊎ B)) → Outcome (InitError ⊎ B)
or_failed (inl err) f = done (inl err)
or_failed (inr x) f = f x

-- `NewRPDO` over the communication and the mapping parameters; the extensions that it gives to both
-- entries are left out.
unfoldable pub new_rpdo :
    List Entry
    → Emcy
    → (communication mapping : Entry) → (predefined : ℕ) → Outcome (InitError ⊎ Rpdo)
new_rpdo od emcy communication mapping predefined = new_pdo od emcy true mapping >>= λ p.
    or_failed p (λ (pdo, erroneous).
      configure_cob_id (fresh pdo) communication predefined erroneous >>= λ c.
      or_failed c (λ (r, can_id). configure_timing r can_id predefined communication))
