-- ===== src/Sdo/Server/Process/Offers.antt =====
-- pkg/sdo/server.go: an idle server, a variable of its dictionary, and the requests of a client for it.
use gocanopen.Base.{
  ℕ, ◌+◌, ◌-◌, ◌*◌, ◌<◌, ◌≤◌, ◌≡◌, true, none, some, List, ◌∷◌, ◌++◌, length, arith, bytes16,
  replicate,
}
use gocanopen.Od.Errors.{attribute_sdo_r, attribute_sdo_w, attribute_sdo_rw}
use gocanopen.Od.Stream.{has_attribute}
use gocanopen.Od.Entry.{Entry, Variable, plain_streamer, opened_stream}
use gocanopen.Od.Entry.Access.{opened_Holds_default, Holds}
use gocanopen.Sdo.Message.{State, Message}
use gocanopen.Sdo.Server.{Frame, Server, ◌>>=◌}
use gocanopen.Sdo.Server.Dictionary.{update_streamer}
use gocanopen.Od.Lookup.{entry_at, opened}
use gocanopen.Sdo.Server.Upload.{padded}
use gocanopen.Sdo.Server.Process.{started, begun}

-- An idle server, and a variable of its dictionary that SDO transfers may read and write.
pub record Offers (s : Server) (index sub : ℕ) (e : Entry) (i : ℕ) (v : Variable) : Type 0 where
  pub idle : s.state ≡ State.idle
  pub short : index < 65536
  pub entry : entry_at s.od index ≡ some e
  pub holds : Holds e sub i v
  pub default : e.extension ≡ none
  pub readable : has_attribute (opened_stream v sub) attribute_sdo_r ≡ true
  pub writable : has_attribute (opened_stream v sub) attribute_sdo_w ≡ true
  pub transferable : has_attribute (opened_stream v sub) attribute_sdo_rw ≡ true
  pub room : 4 ≤ length s.intermediate_buf

-- The request of an expedited download, and that of an upload.
abbrev pub download_request : (index sub : ℕ) → List ℕ → Message
download_request index sub bytes =
    (0x23 + 4 * (4 - length bytes)) ∷ bytes16 index ++ (sub ∷ padded 4 bytes)

abbrev pub upload_request : (index sub : ℕ) → Message
upload_request index sub = 0x40 ∷ bytes16 index ++ (sub ∷ replicate 4 0)

abbrev pub addressed : Server → (index sub i : ℕ) → Variable → State → Server
addressed s index sub i v state = record s {
  state = state;
  index = index;
  subindex = sub;
  place = i;
  streamer = plain_streamer v sub;
}

pub opened_lem :
    (s : Server) (index sub : ℕ) (e : Entry) (i : ℕ) (v : Variable)
    → Offers s index sub e i v
    → opened s.od index sub ≡ (i, plain_streamer v sub, none)
unfolding opened
opened_lem s index sub e i v o =
    ground (arith, o.entry, opened_Holds_default e sub i v o.holds o.default)

pub begun_idle :
    (s : Server) (m : Message)
    → s.state ≡ State.idle
    → begun s m ≡ (started s m >>= λ s'. update_streamer s' m)
unfolding begun
begun_idle s m e = ground (arith, e)

-- The frame that answers a request.
abbrev pub answer : Server → (index sub command : ℕ) → List ℕ → Frame
answer s index sub command bytes = record s.tx_buffer {
  bytes = command ∷ bytes16 index ++ (sub ∷ bytes);
}
