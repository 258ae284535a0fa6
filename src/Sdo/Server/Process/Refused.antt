-- ===== src/Sdo/Server/Process/Refused.antt =====
-- pkg/sdo/requests.go and `updateStreamer` of pkg/sdo/server.go: the requests that the dictionary turns
-- down, in the four kinds of transfer.
use gocanopen.Base.{
  ℕ, ◌≡◌, refl, Bool, Option, true, false, none, some, List, [], ◌∷◌, ◌++◌, bit_and, bytes32, arith,
}
use gocanopen.Od.Errors.{
  Odr, idx_not_exist, sub_not_exist, attribute_sdo_r, attribute_sdo_w, attribute_sdo_rw,
}
use gocanopen.Od.Stream.{Streamer, has_attribute}
use gocanopen.Od.Entry.{
  Entry, Variable, find_variable, missing, no_streamer, opened_stream, plain_streamer,
}
use gocanopen.Od.Entry.Access.{new_streamer-missing, Holds, opened_Holds_default}
use gocanopen.Od.Lookup.{entry_at, opened}
use gocanopen.Sdo.Abort.{convert_od_to_sdo_abort}
use gocanopen.Sdo.Message.{
  State, Message, raw, is_abort, get_index, get_subindex, mask_cs, cs_download_initiate,
  cs_upload_initiate, cs_download_block_initiate, cs_upload_block_initiate,
}
use gocanopen.Sdo.Server.{Server, Run, ok, aborts, ◌>>=◌, at_state, send}
use gocanopen.Sdo.Server.Dictionary.{is_upload, permitted, looked_up, update_streamer}
use gocanopen.Sdo.Server.Process.{started, process_incoming, send_abort, tx_abort, settled, serve}
use gocanopen.Sdo.Server.Process.Offers.{answer, begun_idle}
use gocanopen.Sdo.Server.Process.ExpeditedUpload.{Ends}

-- A message that starts a transfer, with the state that it leads to.
pub data IsRequest (m : Message) : State → Type 0 where
  download :
      bit_and (raw m 0) mask_cs ≡ cs_download_initiate → IsRequest m State.download_initiate_req
  upload : bit_and (raw m 0) mask_cs ≡ cs_upload_initiate → IsRequest m State.upload_initiate_req
  download_block :
      bit_and (raw m 0) mask_cs ≡ cs_download_block_initiate
      → bit_and (raw m 0) 0x01 ≡ 0
      → IsRequest m State.download_blk_initiate_req
  upload_block :
      bit_and (raw m 0) mask_cs ≡ cs_upload_block_initiate
      → bit_and (raw m 0) 0x03 ≡ 0
      → IsRequest m State.upload_blk_initiate_req

-- Why a transfer of an object is refused, and the abort code for it.
pub data IsRefused (od : List Entry) (index sub : ℕ) (uploads : Bool) : (code : ℕ) → Type 0 where
  no_entry : entry_at od index ≡ none → IsRefused od index sub uploads 0x06020000
  no_variable :
      {e : Entry}
      → entry_at od index ≡ some e
      → find_variable e.object sub ≡ missing sub_not_exist
      → IsRefused od index sub uploads 0x06090011
  no_access :
      {e : Entry} {i : ℕ} {v : Variable}
      → entry_at od index ≡ some e
      → Holds e sub i v
      → e.extension ≡ none
      → has_attribute (opened_stream v sub) attribute_sdo_rw ≡ false
      → IsRefused od index sub uploads 0x06010000
  not_readable :
      {e : Entry} {i : ℕ} {v : Variable}
      → entry_at od index ≡ some e
      → Holds e sub i v
      → e.extension ≡ none
      → has_attribute (opened_stream v sub) attribute_sdo_rw ≡ true
      → uploads ≡ true
      → has_attribute (opened_stream v sub) attribute_sdo_r ≡ false
      → IsRefused od index sub uploads 0x06010001
  not_writable :
      {e : Entry} {i : ℕ} {v : Variable}
      → entry_at od index ≡ some e
      → Holds e sub i v
      → e.extension ≡ none
      → has_attribute (opened_stream v sub) attribute_sdo_rw ≡ true
      → uploads ≡ false
      → has_attribute (opened_stream v sub) attribute_sdo_w ≡ false
      → IsRefused od index sub uploads 0x06010002

-- The server is idle with the dictionary as it was, and has sent one abort for the object.
pub record Refused (s : Server) (index sub code : ℕ) (s' : Server) : Type 0 where
  pub idle : s'.state ≡ State.idle
  pub od : s'.od ≡ s.od
  pub sent : s'.sent ≡ s.sent ++ (answer s index sub 0x80 (bytes32 code) ∷ [])

-- The state that a request leads to.
started_lem :
    (s : Server) (m : Message) (st : State) → IsRequest m st → started s m ≡ ok (at_state s st)
unfolding started
started_lem s m st (download e) = ground (arith, e)
started_lem s m st (upload e) = ground (arith, e)
started_lem s m st (download_block e low) = ground (arith, e, low)
started_lem s m st (upload_block e low) = ground (arith, e, low)

-- A look up that aborts leaves what the answer needs.
record Aborts (s : Server) (index sub code : ℕ) (r : Run) : Type 0 where
  last : Server
  aborted : r ≡ aborts last code
  same_od : last.od ≡ s.od
  same_sent : last.sent ≡ s.sent
  same_buffer : last.tx_buffer ≡ s.tx_buffer
  at_index : last.index ≡ index
  at_sub : last.subindex ≡ sub

abbrev addressed : Server → (index sub place : ℕ) → Streamer → Server
addressed s index sub place streamer = record s {
  index = index;
  subindex = sub;
  place = place;
  streamer = streamer;
}

looked_up-Aborts :
    (s : Server) (m : Message) (place : ℕ) (streamer : Streamer) (err : Option Odr) (code : ℕ)
    → opened s.od (get_index m) (get_subindex m) ≡ (place, streamer, err)
    → looked_up (addressed s (get_index m) (get_subindex m) place streamer) err
      ≡ aborts (addressed s (get_index m) (get_subindex m) place streamer) code
    → Aborts s (get_index m) (get_subindex m) code (update_streamer s m)
unfolding update_streamer
looked_up-Aborts s m place streamer err code found refused = record {
  last = addressed s (get_index m) (get_subindex m) place streamer;
  aborted = rw (found, refused) refl;
  same_od = refl;
  same_sent = refl;
  same_buffer = refl;
  at_index = refl;
  at_sub = refl;
}

opened_lem :
    (od : List Entry) (index sub : ℕ) (e : Entry) (i : ℕ) (v : Variable)
    → entry_at od index ≡ some e
    → Holds e sub i v
    → e.extension ≡ none
    → opened od index sub ≡ (i, plain_streamer v sub, none)
unfolding opened
opened_lem od index sub e i v found h default =
    ground (arith, found, opened_Holds_default e sub i v h default)

opened_missing :
    (od : List Entry) (index sub : ℕ) (e : Entry) (err : Odr)
    → entry_at od index ≡ some e
    → find_variable e.object sub ≡ missing err
    → opened od index sub ≡ (0, no_streamer, some err)
unfolding opened
opened_missing od index sub e err found gone =
    ground (arith, found, new_streamer-missing e sub err false gone)

opened_nothing :
    (od : List Entry) (index sub : ℕ)
    → entry_at od index ≡ none
    → opened od index sub ≡ (0, no_streamer, some idx_not_exist)
unfolding opened
opened_nothing od index sub none_there = ground (arith, none_there)

update_streamer-Aborts :
    (s : Server) (m : Message) (code : ℕ)
    → IsRefused s.od (get_index m) (get_subindex m) (is_upload s.state) code
    → Aborts s (get_index m) (get_subindex m) code (update_streamer s m)
unfolding looked_up permitted convert_od_to_sdo_abort plain_streamer
update_streamer-Aborts s m code (no_entry e) =
    looked_up-Aborts s m 0 no_streamer (some idx_not_exist) code (opened_nothing _ _ _ e) refl
update_streamer-Aborts s m code (no_variable {e = e} found gone) =
    looked_up-Aborts s m 0 no_streamer (some sub_not_exist) code
      (opened_missing _ _ _ e sub_not_exist found gone) refl
update_streamer-Aborts s m code (no_access {e = e} {i = i} {v = v} found h default access) =
    looked_up-Aborts s m i (plain_streamer v (get_subindex m)) none code
      (opened_lem _ _ _ e i v found h default) (rw access refl)
update_streamer-Aborts s m code
      (not_readable {e = e} {i = i} {v = v} found h default access uploads readable) =
    looked_up-Aborts s m i (plain_streamer v (get_subindex m)) none code
      (opened_lem _ _ _ e i v found h default) (rw (access, uploads, readable) refl)
update_streamer-Aborts s m code
      (not_writable {e = e} {i = i} {v = v} found h default access uploads writable) =
    looked_up-Aborts s m i (plain_streamer v (get_subindex m)) none code
      (opened_lem _ _ _ e i v found h default) (rw (access, uploads, writable) refl)

-- The state of the server does not matter.
from_state :
    (s : Server) (state : State) (index sub code : ℕ) (r : Run)
    → Aborts (at_state s state) index sub code r
    → Aborts s index sub code r
from_state s state index sub code r a = record {
  last = a.last;
  aborted = a.aborted;
  same_od = a.same_od;
  same_sent = a.same_sent;
  same_buffer = a.same_buffer;
  at_index = a.at_index;
  at_sub = a.at_sub;
}

settled-Refused :
    (s : Server) (index sub code : ℕ) (r : Run) (f g : Server → Run)
    → Aborts s index sub code r
    → Ends (Refused s index sub code) (settled (r >>= f >>= g))
unfolding tx_abort send_abort send
settled-Refused s index sub code r f g a = rw a.aborted (record {
  idle = refl;
  od = a.same_od;
  sent = rw (a.same_sent, a.same_buffer, a.at_index, a.at_sub) refl;
})

-- An idle server answers the request of a transfer, in segments or blocks or expedited, by one abort for
-- the object of the request, and is idle again with its dictionary as it was: 0x06020000 if there is no
-- such entry, 0x06090011 if the entry has no such subindex, 0x06010000 if a variable without an
-- extension may be neither read nor written, and otherwise 0x06010001 for an upload of one that may not
-- be read and 0x06010002 for a download to one that may not be written.
pub serve-IsRefused :
    (s : Server) (m : Message) (state : State) (code : ℕ)
    → s.state ≡ State.idle
    → is_abort m ≡ false
    → IsRequest m state
    → IsRefused s.od (get_index m) (get_subindex m) (is_upload state) code
    → Ends (Refused s (get_index m) (get_subindex m) code) (serve s m)
unfolding serve process_incoming
serve-IsRefused s m state code idle no_abort request refused =
    rw (no_abort, begun_idle s m idle, started_lem s m state request)
      (settled-Refused s (get_index m) (get_subindex m) code (update_streamer (at_state s state) m)
        _ _
        (from_state s state (get_index m) (get_subindex m) code _
          (update_streamer-Aborts (at_state s state) m code refused)))
