-- ===== src/Sdo/Server/Process/ExpeditedDownload.antt =====
-- pkg/sdo/download_expedited.go: a download of one to four bytes.
use gocanopen.Sdo.Server.Process.Offers.{
  Offers, download_request, addressed, opened_lem, begun_idle, answer,
}
use gocanopen.Base.{
  ◌⊎◌, ◌∙◌, u16, ◌/◌, ◌%◌, ℕ, ◌+◌, ◌-◌, ◌*◌, ◌<◌, ◌≤◌, ◌≡◌, refl, true, false, none, List, [], ◌∷◌,
  ◌++◌, length, take, drop, arith, bytes16, replicate,
}
use gocanopen.Od.Errors.{done, attribute_str}
use gocanopen.Od.Stream.{Stream, has_attribute, write}
use gocanopen.Od.Stream.Whole.{write_whole}
use gocanopen.Od.Entry.{
  Entry, Variable, open_at, plain_streamer, opened_stream, new_streamer, shared_write,
}
use gocanopen.Od.Entry
use gocanopen.Od.Entry.Access.{opened_stream-IsOpened}
use gocanopen.Sdo.Message.{
  State, Message, is_abort, get_index, get_subindex, is_expedited, is_size_indicated,
}
use gocanopen.Sdo.Server.{panics, Server, ok, at_state, send, has, data_length}
use gocanopen.Od.Lookup.{stored}
use gocanopen.Sdo.Server.Dictionary.{permitted, looked_up, update_streamer, is_upload, after_write}
use gocanopen.Sdo.Server.Download.{
  rx_download_initiate, rx_download_expedited, count_indicated, count_to_write, write_expedited,
  tx_download_initiate,
}
use gocanopen.Sdo.Server.Upload.{padded}
use gocanopen.Sdo.Server.Process.{
  started, begun, received, process_incoming, responded, outgoing, process_outgoing, serve,
}

-- The object of a request is opened for a download.
pub update_streamer_lem :
    (s : Server) (index sub : ℕ) (e : Entry) (i : ℕ) (v : Variable) (command : ℕ) (rest : List ℕ)
    → Offers s index sub e i v
    → update_streamer
        (at_state s State.download_initiate_req)
        (command ∷ bytes16 index ++ (sub ∷ rest))
      ≡ ok (addressed s index sub i v State.download_initiate_req)
unfolding update_streamer looked_up permitted is_upload get_index get_subindex plain_streamer
update_streamer_lem s index sub e i v command rest o =
    let same : index % 256 + 256 * (index / 256 % 256) ≡ index = omega (arith, o.short) in
    rw (same, opened_lem s index sub e i v o, o.writable, o.transferable) refl

-- How the server reads the request.
record Carries (s : Server) (m : Message) (bytes : List ℕ) : Type 0 where
  no_abort : is_abort m ≡ false
  starts : started s m ≡ ok (at_state s State.download_initiate_req)
  expedited : is_expedited m ≡ true
  counted : (t : Server) → count_indicated t m ≡ length bytes
  carried : take (length bytes) (drop 4 m) ≡ bytes

download_request-Carries :
    (s : Server) (index sub : ℕ) (bytes : List ℕ)
    → (1 ≤ length bytes) × (length bytes ≤ 4)
    → Carries s (download_request index sub bytes) bytes
unfolding started is_abort is_expedited count_indicated is_size_indicated
download_request-Carries s index sub [] size = absurd (omega arith)
download_request-Carries s index sub (a ∷ []) size = record {
  no_abort = refl;
  starts = refl;
  expedited = refl;
  counted = λ t. refl;
  carried = refl;
}
download_request-Carries s index sub (a ∷ b ∷ []) size = record {
  no_abort = refl;
  starts = refl;
  expedited = refl;
  counted = λ t. refl;
  carried = refl;
}
download_request-Carries s index sub (a ∷ b ∷ c ∷ []) size = record {
  no_abort = refl;
  starts = refl;
  expedited = refl;
  counted = λ t. refl;
  carried = refl;
}
download_request-Carries s index sub (a ∷ b ∷ c ∷ d ∷ []) size = record {
  no_abort = refl;
  starts = refl;
  expedited = refl;
  counted = λ t. refl;
  carried = refl;
}
download_request-Carries s index sub (a ∷ b ∷ c ∷ d ∷ e ∷ bytes) size = absurd (omega arith)

begun-download_request :
    (s : Server) (index sub : ℕ) (e : Entry) (i : ℕ) (v : Variable) (bytes : List ℕ)
    → Offers s index sub e i v
    → (1 ≤ length bytes) × (length bytes ≤ 4)
    → begun s (download_request index sub bytes)
      ≡ ok (addressed s index sub i v State.download_initiate_req)
unfolding begun
begun-download_request s index sub e i v bytes o size =
    rw
      (
        begun_idle s (download_request index sub bytes) o.idle,
        (download_request-Carries s index sub bytes size).starts,
      )
      (update_streamer_lem s index sub e i v (0x23 + 4 * (4 - length bytes)) (padded 4 bytes) o)

-- As many bytes as the variable has are all to be written.
count_to_write_lem :
    (s : Server) (n : ℕ)
    → has s attribute_str ≡ false
    → data_length s ≡ n
    → 0 < n
    → count_to_write s n ≡ (ok s, n)
unfolding count_to_write
count_to_write_lem s n plain size positive = ground (arith, plain, size)

rx_download_expedited_lem :
    (s : Server) (m : Message) (n : ℕ) (st : Stream) (count : ℕ)
    → has s attribute_str ≡ false
    → data_length s ≡ n
    → (1 ≤ n) × (n ≤ 4)
    → count_indicated s m ≡ n
    → write s.streamer (take n (drop 4 m))
      ≡ done (record { stream = st; count = count; err = none })
    → rx_download_expedited s m
      ≡ ok (record (after_write s st) { state = State.download_initiate_rsp; finished = true })
unfolding rx_download_expedited write_expedited
rx_download_expedited_lem s m n st count plain size bounds indicated written =
    rw (indicated, count_to_write_lem s n plain size (omega (arith, bounds)))
      (ground (arith, bounds, written))

-- The server after the download, before its response.
abbrev pub downloaded : Server → (index sub i : ℕ) → Variable → List ℕ → Server
downloaded s index sub i v bytes = record s {
  state = State.download_initiate_rsp;
  index = index;
  subindex = sub;
  place = i;
  streamer = plain_streamer (record v { value = bytes }) sub;
  od = stored s.od index i bytes;
  finished = true;
}

pub written_whole :
    (v : Variable) (sub : ℕ) (bytes : List ℕ)
    → length bytes < 4294967296
    → length bytes ≡ length v.value
    → write (plain_streamer v sub) bytes
      ≡ done (record {
        stream = opened_stream (record v { value = bytes }) sub;
        count = u16 (length bytes);
        err = none;
      })
unfolding plain_streamer opened_stream write Entry.data_length
written_whole v sub bytes small same =
    write_whole (opened_stream v sub) bytes (opened_stream-IsOpened v sub (omega (arith, same)))
      same
    ∙ rw same refl

rx_download_initiate_lem :
    (s : Server) (index sub : ℕ) (e : Entry) (i : ℕ) (v : Variable) (bytes : List ℕ)
    → Offers s index sub e i v
    → has_attribute (opened_stream v sub) attribute_str ≡ false
    → (1 ≤ length bytes) × (length bytes ≤ 4)
    → length bytes ≡ length v.value
    → rx_download_initiate
        (addressed s index sub i v State.download_initiate_req)
        (download_request index sub bytes)
      ≡ ok (downloaded s index sub i v bytes)
unfolding rx_download_initiate after_write plain_streamer opened_stream Entry.data_length
rx_download_initiate_lem s index sub e i v bytes o plain size same =
    let c = download_request-Carries s index sub bytes size in
    rw (c.expedited) (
      rx_download_expedited_lem (addressed s index sub i v State.download_initiate_req)
        (download_request index sub bytes) (length bytes)
        (opened_stream (record v { value = bytes }) sub) (u16 (length bytes)) plain
        (omega (arith, same)) size (c.counted _)
        (rw (c.carried) (written_whole v sub bytes (omega (arith, size)) same)))

pub serve-download_request :
    (s : Server) (index sub : ℕ) (e : Entry) (i : ℕ) (v : Variable) (bytes : List ℕ)
    → Offers s index sub e i v
    → has_attribute (opened_stream v sub) attribute_str ≡ false
    → (1 ≤ length bytes) × (length bytes ≤ 4)
    → length bytes ≡ length v.value
    → serve s (download_request index sub bytes)
      ≡ ok (record (downloaded s index sub i v bytes) {
        state = State.idle;
        tx_buffer = answer s index sub 0x60 (replicate 4 0);
        sent = s.sent ++ (answer s index sub 0x60 (replicate 4 0) ∷ []);
      })
unfolding serve process_incoming received process_outgoing outgoing responded tx_download_initiate
    send
serve-download_request s index sub e i v bytes o plain size same =
    let c = download_request-Carries s index sub bytes size in
    rw
      (
        c.no_abort,
        begun-download_request s index sub e i v bytes o size,
        rx_download_initiate_lem s index sub e i v bytes o plain size same,
      )
      refl

-- A string gets one or two zeros more than its bytes, and the message has no room for them.
rx_download_expedited_string :
    (s : Server) (m : Message) (n : ℕ)
    → has s attribute_str ≡ true
    → (3 ≤ n) × (n ≤ 4)
    → (data_length s ≡ 0) ⊎ ((5 ≤ data_length s) × (data_length s < 4294967296))
    → count_indicated s m ≡ n
    → rx_download_expedited s m ≡ panics
unfolding rx_download_expedited count_to_write write_expedited
rx_download_expedited_string s m n string size long indicated =
    ground (arith, string, size, long, indicated)

rx_download_initiate_string :
    (s : Server) (index sub i : ℕ) (v : Variable) (bytes : List ℕ)
    → has_attribute (opened_stream v sub) attribute_str ≡ true
    → (3 ≤ length bytes) × (length bytes ≤ 4)
    → (length v.value ≡ 0) ⊎ ((5 ≤ length v.value) × (length v.value < 4294967296))
    → rx_download_initiate
        (addressed s index sub i v State.download_initiate_req)
        (download_request index sub bytes)
      ≡ panics
unfolding rx_download_initiate plain_streamer opened_stream Entry.data_length
rx_download_initiate_string s index sub i v bytes string size long =
    let c = download_request-Carries s index sub bytes (omega (arith, size)) in
    rw (c.expedited) (
      rx_download_expedited_string (addressed s index sub i v State.download_initiate_req)
        (download_request index sub bytes) (length bytes) string size (ground (arith, long))
        (c.counted _))

-- When an idle server, whose intermediate buffer has four bytes or more, offers a readable and
-- writable string of an entry without an extension, and it is empty or has five bytes or more, the
-- request of an expedited download of three or four bytes to it ends in a run-time panic.
pub serve-download_request_string :
    (s : Server) (index sub : ℕ) (e : Entry) (i : ℕ) (v : Variable) (bytes : List ℕ)
    → Offers s index sub e i v
    → has_attribute (opened_stream v sub) attribute_str ≡ true
    → (3 ≤ length bytes) × (length bytes ≤ 4)
    → (length v.value ≡ 0) ⊎ (5 ≤ length v.value)
    → serve s (download_request index sub bytes) ≡ panics
unfolding serve process_incoming received
serve-download_request_string s index sub e i v bytes o string size long =
    let c = download_request-Carries s index sub bytes (omega (arith, size)) in
    rw
      (
        c.no_abort,
        begun-download_request s index sub e i v bytes o (omega (arith, size)),
        rx_download_initiate_string s index sub i v bytes string size
            (ground (arith, long, o.holds.small)),
      )
      refl
