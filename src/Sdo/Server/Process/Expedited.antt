-- ===== src/Sdo/Server/Process/Expedited.antt =====
-- pkg/sdo/download_expedited.go, pkg/sdo/upload_expedited.go: a download of one to four bytes, and the
-- upload of the same object after it.
use gocanopen.Base.{
  append_assoc, ℕ, ◌≤◌, ◌≡◌, refl, ◌∙◌, ◌++◌, false, List, [], ◌∷◌, length, replicate,
}
use gocanopen.Od.Errors.{attribute_str}
use gocanopen.Od.Stream.{has_attribute}
use gocanopen.Od.Entry.{Entry, Variable, opened_stream, shared_write, replace_value}
use gocanopen.Od.Entry.Access.{shared_write-Holds}
use gocanopen.Sdo.Message.{State}
use gocanopen.Sdo.Server.{Server, ◌>>=◌}
use gocanopen.Od.Lookup.Values.{entry_at-stored}
use gocanopen.Od.Lookup.{stored}
use gocanopen.Sdo.Server.Upload.{padded}
use gocanopen.Sdo.Server.Process.{serve}
use gocanopen.Sdo.Server.Process.Offers.{Offers, download_request, upload_request, answer}
use gocanopen.Sdo.Server.Process.ExpeditedDownload.{downloaded, serve-download_request}
use gocanopen.Sdo.Server.Process.ExpeditedUpload.{
  Ends, Ends-weaker, Uploaded, upload_command, serve-upload_request,
}

-- The server once a download is answered.
abbrev answered : Server → (index sub i : ℕ) → Variable → List ℕ → Server
answered s index sub i v bytes = record (downloaded s index sub i v bytes) {
  state = State.idle;
  tx_buffer = answer s index sub 0x60 (replicate 4 0);
  sent = s.sent ++ (answer s index sub 0x60 (replicate 4 0) ∷ []);
}

answered-Offers :
    (s : Server) (index sub : ℕ) (e : Entry) (i : ℕ) (v : Variable) (bytes : List ℕ)
    → Offers s index sub e i v
    → length bytes ≡ length v.value
    → Offers
        (answered s index sub i v bytes)
        index
        sub
        (shared_write e i bytes)
        i
        (replace_value v bytes)
unfolding replace_value opened_stream shared_write has_attribute
answered-Offers s index sub e i v bytes o same = record {
  idle = refl;
  short = o.short;
  entry = entry_at-stored s.od index i e bytes o.entry;
  holds = shared_write-Holds e sub i v bytes o.holds same;
  default = o.default;
  readable = o.readable;
  writable = o.writable;
  transferable = o.transferable;
  room = o.room;
}

-- What a download and an upload leave.
pub record Exchanged (s : Server) (index sub i : ℕ) (bytes : List ℕ) (s' : Server) : Type 0 where
  pub idle : s'.state ≡ State.idle
  pub od : s'.od ≡ stored s.od index i bytes
  pub sent :
      s'.sent
      ≡ s.sent
        ++ (answer s index sub 0x60 (replicate 4 0)
            ∷ answer s index sub (upload_command (length bytes)) (padded 4 bytes)
            ∷ [])

-- When an idle server, whose intermediate buffer has four bytes or more, offers a readable and
-- writable variable of one to four bytes that is no string and whose entry has no extension, the
-- request of an expedited download of as many bytes and then that of an upload are answered by the
-- confirmation and by just those bytes. The server is idle again and its dictionary holds the bytes.
pub download-upload :
    (s : Server) (index sub : ℕ) (e : Entry) (i : ℕ) (v : Variable) (bytes : List ℕ)
    → Offers s index sub e i v
    → has_attribute (opened_stream v sub) attribute_str ≡ false
    → (1 ≤ length bytes) × (length bytes ≤ 4)
    → length bytes ≡ length v.value
    → Ends
        (Exchanged s index sub i bytes)
        (serve s (download_request index sub bytes) >>= λ s'. serve s' (upload_request index sub))
unfolding replace_value opened_stream has_attribute
download-upload s index sub e i v bytes o plain size same =
    rw (serve-download_request s index sub e i v bytes o plain size same) (
      Ends-weaker (Uploaded t index sub w) (Exchanged s index sub i bytes)
        (serve t (upload_request index sub))
        (serve-upload_request t index sub (shared_write e i bytes) i w
          (answered-Offers s index sub e i v bytes o same) plain size)
        (λ s' u. record { idle = u.idle; od = u.od; sent = u.sent ∙ append_assoc s.sent _ _ }))
  where
    t : Server
    t = answered s index sub i v bytes

    w : Variable
    w = replace_value v bytes
