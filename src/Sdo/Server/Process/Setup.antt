-- ===== src/Sdo/Server/Process/Setup.antt =====
-- `NewSDOServer`, `initRxTx` of pkg/sdo/server.go and `writeEntry1201` of pkg/sdo/extensions.go. The
-- bus manager and the dictionary are no nil pointers, and the subscription on the bus, which returns no
-- error, is left out.
use gocanopen.Base.{
  ℕ, ◌+◌, ◌==◌, Bool, true, false, not, ◌&&◌, ◌||◌, Option, none, some, List, [], ◌⊎◌, inl, inr,
  length, ltb, leb, if◌then◌else◌, bit_and, has_bits, le32, u16, get_or, replicate,
}
use gocanopen.Can.{new_frame, is_id_restricted}
use gocanopen.Nmt.{InitError, illegal_argument, od_parameters}
use gocanopen.Od.Errors.{
  Odr, readonly, invalid_value, type_mismatch, sub_not_exist, Outcome, done, panicked, ◌>>=◌,
}
use gocanopen.Od.Stream.{Stream, StreamWriter, WriteResult, read_entry_default, write_entry_default}
use gocanopen.Od.Entry.{Entry, no_streamer, put_uint32, uint8, uint32}
use gocanopen.Sdo.Message.{State, block_max_size, client_service_id, server_service_id}
use gocanopen.Sdo.Server.{Server}
use gocanopen.Od.Lookup.{with_entry}

-- The identifier in a COB-ID, 0 unless its valid bit is clear.
unfoldable pub can_id_of : ℕ → ℕ
can_id_of cob_id = if has_bits cob_id 0x80000000 then 0 else bit_and cob_id 0x7ff

-- `initRxTx`
unfoldable pub init_rx_tx : Server → (client_to_server server_to_client : ℕ) → Server
init_rx_tx s client_to_server server_to_client =
    let valid = not (can_id_of client_to_server == 0) && not (can_id_of server_to_client == 0) in
    if (server_to_client == s.cob_id_server_to_client)
      && (client_to_server == s.cob_id_client_to_server)
    then s
    else record s {
      cob_id_server_to_client = server_to_client;
      cob_id_client_to_server = client_to_server;
      valid = valid;
      tx_buffer = new_frame (if valid then can_id_of server_to_client else 0) 0 8;
    }

-- The server that `NewSDOServer` starts from.
abbrev pub initial : List Entry → (node_id : ℕ) → Server
initial od node_id = record {
  od = od;
  place = 0;
  rx = [];
  streamer = no_streamer;
  tx_buffer = new_frame 0 0 0;
  cob_id_client_to_server = 0;
  cob_id_server_to_client = 0;
  valid = false;
  buf = record { unread = []; off = 0; cap = 1000 };
  intermediate_buf = replicate 1000 0;
  index = 0;
  subindex = 0;
  size_indicated = 0;
  size_transferred = 0;
  toggle = 0;
  finished = false;
  state = State.idle;
  block_sequence_nb = 0;
  block_size = 0;
  block_no_data = 0;
  block_crc_enabled = false;
  block_crc = 0;
  node_id = node_id;
  nmt = 0;
  sent = [];
}

-- The default channel: its identifiers are put into the entry, whose errors are not looked at.
unfoldable pub default_channel : List Entry → (node_id : ℕ) → Entry → Outcome (InitError ⊎ Server)
default_channel od node_id entry =
    let client = u16 (client_service_id + node_id) in
    let server = u16 (server_service_id + node_id) in
    if ltb node_id 1 || ltb block_max_size node_id
    then done (inl illegal_argument)
    else put_uint32 entry 1 client true >>= λ (e, _). put_uint32 e 2 server true >>= λ (e', _).
        done (
          inr (
            init_rx_tx (record (initial (with_entry od e') node_id) { valid = true }) client
              server))

-- Another channel takes its identifiers from the entry, which gets `writer`, `writeEntry1201` on the
-- server, as its extension.
unfoldable pub other_channel :
    List Entry → (node_id : ℕ) → Entry → StreamWriter → Outcome (InitError ⊎ Server)
other_channel od node_id entry writer =
    let extended = record entry {
      extension = some (record { reader = some read_entry_default; writer = some writer });
    } in
    uint8 entry 0 >>= λ (max_sub_index, err0). uint32 entry 1 >>= λ (client, err1).
    uint32 entry 2 >>= λ (server, err2). done (
      if failing err0
        || not ((max_sub_index == 2) || (max_sub_index == 3))
        || failing err1
        || failing err2
      then inl od_parameters
      else inr (
          init_rx_tx (initial (with_entry od extended) node_id) (can_id_of client)
            (can_id_of server)))
  where
    failing : Option Odr → Bool
    failing none = false
    failing (some err) = true

-- `NewSDOServer` for an entry of the dictionary.
unfoldable pub new_sdo_server :
    List Entry → (node_id : ℕ) → Entry → StreamWriter → Outcome (InitError ⊎ Server)
new_sdo_server od node_id entry writer =
    if entry.index == 0x1200
    then default_channel od node_id entry
    else if ltb 0x1200 entry.index && leb entry.index 0x127f
    then other_channel od node_id entry writer
    else done (inl illegal_argument)

-- The test of a new COB-ID against the one in use.
unfoldable pub is_refused : Server → (current cob_id : ℕ) → Bool
is_refused s current cob_id =
    let can_id = bit_and cob_id 0x7ff in
    let valid = not (has_bits cob_id 0x80000000) in
    has_bits cob_id 0x3ffff800
    || (valid && s.valid && not (can_id == bit_and current 0x7ff))
    || (valid && is_id_restricted can_id)

abbrev refused : Stream → Odr → Outcome WriteResult
refused st err = done (record { stream = st; count = 0; err = some err })

-- `writeEntry1201`, on a stream whose object is the server: a value of fewer than four bytes panics.
unfoldable pub write_entry_1201 : Server → Stream → List ℕ → Server × Outcome WriteResult
write_entry_1201 s st data' =
    let cob_id = le32 data' 0 in
    if st.subindex == 0
    then (s, refused st readonly)
    else if st.subindex == 1
    then if ltb (length data') 4
      then (s, panicked)
      else if is_refused s s.cob_id_client_to_server cob_id
      then (s, refused st invalid_value)
      else (init_rx_tx s cob_id s.cob_id_server_to_client, write_entry_default st data')
    else if st.subindex == 2
    then if ltb (length data') 4
      then (s, panicked)
      else if is_refused s s.cob_id_server_to_client cob_id
      then (s, refused st invalid_value)
      else (init_rx_tx s s.cob_id_client_to_server cob_id, write_entry_default st data')
    else if st.subindex == 3
    then if not (length data' == 1)
      then (s, refused st type_mismatch)
      else if ltb (get_or data' 0 0) 1 || ltb 127 (get_or data' 0 0)
      then (s, refused st invalid_value)
      else (record s { node_id = get_or data' 0 0 }, write_entry_default st data')
    else (s, refused st sub_not_exist)
