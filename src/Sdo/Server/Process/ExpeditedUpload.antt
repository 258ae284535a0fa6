-- ===== src/Sdo/Server/Process/ExpeditedUpload.antt =====
-- pkg/sdo/upload_expedited.go: an upload of one to four bytes.
use gocanopen.Base.{
  zero, suc, suc, bit_or, take_all, ◌/◌, ◌%◌, length-append, ◌∙◌, ap, ℕ, ◌+◌, ◌-◌, ◌*◌, ◌<◌, ◌≤◌,
  ◌≡◌, refl, true, false, none, List, [], ◌∷◌, ◌++◌, length, take, drop, arith,
}
use gocanopen.Od.Errors.{done, attribute_str}
use gocanopen.Od.Stream.{has_attribute, read}
use gocanopen.Od.Stream.Whole.{read_whole}
use gocanopen.Od.Entry.{Entry, Variable, plain_streamer, opened_stream}
use gocanopen.Od.Entry
use gocanopen.Od.Entry.Access.{opened_stream-IsOpened}
use gocanopen.Sdo.Buffer.{Buffer, reset, grow}
use gocanopen.Sdo.Buffer
use gocanopen.Sdo.Message.{is_abort, get_subindex, get_index, block_seq_size, State, Message}
use gocanopen.Sdo.Server.{Server, Run, ok, aborts, panics, spinning, at_state, send, data_length}
use gocanopen.Sdo.Server.Dictionary.{
  is_upload, permitted, looked_up, update_streamer, read_object_dictionary, read_outcome, buffered,
  cut_string, prepared, prepare_rx,
}
use gocanopen.Sdo.Server.Upload.{padded, rx_upload_initiate, tx_upload_expedited}
use gocanopen.Sdo.Server.Process.{
  zeros8, settled, begun, started, responded, outgoing, process_outgoing, received,
  process_incoming, serve,
}
use gocanopen.Sdo.Server.Process.Offers.{
  Offers, upload_request, addressed, opened_lem, begun_idle, answer,
}

unread-write-reset : (b : Buffer) (bytes : List ℕ) → (Buffer.write (reset b) bytes).unread ≡ bytes
unfolding Buffer.write grow reset
unread-write-reset b bytes = ground arith

take-append_length : (xs ys : List ℕ) → take (length xs) (xs ++ ys) ≡ xs
take-append_length [] ys = refl
take-append_length (x ∷ xs) ys = ap (◌∷◌ x) (take-append_length xs ys)

-- What a server has read of the variable of an upload.
abbrev prefilled : Server → (index sub i : ℕ) → Variable → State → Server
prefilled s index sub i v state = record s {
  state = state;
  index = index;
  subindex = sub;
  place = i;
  streamer = plain_streamer v sub;
  buf = Buffer.write (reset s.buf) v.value;
  intermediate_buf = v.value ++ drop (length v.value) s.intermediate_buf;
  size_transferred = 0;
  finished = true;
  size_indicated = length v.value;
}

read_plain :
    (v : Variable) (sub : ℕ) (room : List ℕ)
    → (length v.value ≤ length room) × (length v.value < 65536)
    → read (plain_streamer v sub) room
      ≡ done (record {
        stream = opened_stream v sub;
        filled = v.value ++ drop (length v.value) room;
        count = length v.value;
        err = none;
      })
unfolding plain_streamer opened_stream read
read_plain v sub room size =
    read_whole (opened_stream v sub) room (opened_stream-IsOpened v sub (omega (arith, size)))
      size.0
    ∙ ground (arith, size)

-- A variable that is not a string is read at once.
read_object_dictionary_lem :
    (s : Server) (v : Variable) (sub minimum : ℕ)
    → has_attribute (opened_stream v sub) attribute_str ≡ false
    → (length v.value ≤ length s.intermediate_buf) × (length v.value < 65536)
    → 0 < minimum
    → read_object_dictionary minimum 0 false
        (record s { streamer = plain_streamer v sub; buf = reset s.buf; finished = false })
      ≡ ok (record s {
        streamer = plain_streamer v sub;
        buf = Buffer.write (reset s.buf) v.value;
        intermediate_buf = v.value ++ drop (length v.value) s.intermediate_buf;
        finished = true;
      })
unfolding read_object_dictionary buffered read_outcome cut_string reset plain_streamer
read_object_dictionary_lem s v sub minimum plain size positive = ground (
  arith,
  plain,
  size,
  positive,
  read_plain v sub s.intermediate_buf size,
  length-append v.value (drop (length v.value) s.intermediate_buf),
  take-append_length v.value (drop (length v.value) s.intermediate_buf),
)

prepared_lem :
    (s : Server)
    → s.finished ≡ true
    → s.buf.unread ≡ s.streamer.stream.bytes
    → data_length s ≡ length s.streamer.stream.bytes
    → (1 ≤ length s.streamer.stream.bytes) × (length s.streamer.stream.bytes < 4294967296)
    → prepared s ≡ ok (record s { size_indicated = length s.streamer.stream.bytes })
unfolding prepared
prepared_lem s finished all whole size = ground (arith, finished, all, whole, size)

-- A variable of one to six bytes.
prepare_rx_lem :
    (s : Server) (index sub i : ℕ) (v : Variable) (state : State)
    → has_attribute (opened_stream v sub) attribute_str ≡ false
    → (1 ≤ length v.value) × (length v.value ≤ length s.intermediate_buf)
    → length v.value < 7
    → prepare_rx (addressed s index sub i v state) ≡ ok (prefilled s index sub i v state)
unfolding prepare_rx Entry.data_length opened_stream plain_streamer
prepare_rx_lem s index sub i v state plain size small =
    rw
      (read_object_dictionary_lem
        (record (addressed s index sub i v state) { size_transferred = 0 }) v sub block_seq_size
        plain (omega (arith, size, small)) (omega arith))
      (prepared_lem (record (prefilled s index sub i v state) { size_indicated = s.size_indicated })
        refl (unread-write-reset s.buf v.value) (omega (arith, small)) (omega (arith, small, size)))

upload_request_lem :
    (s : Server) (index sub : ℕ) (e : Entry) (i : ℕ) (v : Variable)
    → Offers s index sub e i v
    → has_attribute (opened_stream v sub) attribute_str ≡ false
    → (1 ≤ length v.value) × (length v.value ≤ 4)
    → begun s (upload_request index sub) ≡ ok (prefilled s index sub i v State.upload_initiate_req)
unfolding update_streamer looked_up permitted is_upload get_index get_subindex started
    plain_streamer
upload_request_lem s index sub e i v o plain size =
    let same : index % 256 + 256 * (index / 256 % 256) ≡ index = omega (arith, o.short) in
    rw
      (
        begun_idle s (upload_request index sub) o.idle,
        same,
        opened_lem s index sub e i v o,
        o.readable,
        o.transferable,
      )
      (prepare_rx_lem s index sub i v State.upload_initiate_req plain (omega (arith, size, o.room))
        (omega (arith, size)))

-- The command byte of an expedited upload of `n` bytes.
abbrev pub upload_command : ℕ → ℕ
upload_command n = 0x43 + 4 * (4 - n)

-- A run that ends without an error, in a server with `P`.
abbrev pub Ends : (P : Server → Type 0) → Run → Type 0
Ends P (ok s) = P s
Ends P (aborts s code) = ⊥
Ends P panics = ⊥
Ends P spinning = ⊥

pub Ends-weaker :
    (P Q : Server → Type 0) (r : Run) → Ends P r → ((s : Server) → P s → Q s) → Ends Q r
Ends-weaker P Q (ok s) h weaker = weaker s h
Ends-weaker P Q (aborts s code) h weaker = elim h [ ]
Ends-weaker P Q panics h weaker = h
Ends-weaker P Q spinning h weaker = h

-- What an expedited upload leaves.
pub record Uploaded (s : Server) (index sub : ℕ) (v : Variable) (s' : Server) : Type 0 where
  pub idle : s'.state ≡ State.idle
  pub od : s'.od ≡ s.od
  pub sent :
      s'.sent
      ≡ s.sent ++ (answer s index sub (upload_command (length v.value)) (padded 4 v.value) ∷ [])

read_all :
    (b : Buffer) (bytes : List ℕ)
    → b.unread ≡ bytes
    → 1 ≤ length bytes
    → (Buffer.read b (length bytes)).0 ≡ bytes
unfolding Buffer.read
read_all b bytes all some_bytes =
    ground (arith, all, some_bytes, take_all (length bytes) bytes (omega arith))

command_lem : (n : ℕ) → (1 ≤ n) × (n ≤ 4) → bit_or 0x43 ((4 - n) * 4) ≡ upload_command n
command_lem zero size = absurd (omega arith)
command_lem (suc zero) size = refl
command_lem (suc (suc zero)) size = refl
command_lem (suc (suc (suc zero))) size = refl
command_lem (suc (suc (suc (suc zero)))) size = refl
command_lem (suc (suc (suc (suc (suc n))))) size = absurd (omega arith)

tx_upload_expedited-Uploaded :
    (s : Server) (v : Variable)
    → s.buf.unread ≡ v.value
    → s.size_indicated ≡ length v.value
    → (1 ≤ length v.value) × (length v.value ≤ 4)
    → Ends (Uploaded s s.index s.subindex v) (tx_upload_expedited s)
unfolding tx_upload_expedited send
tx_upload_expedited-Uploaded s v all indicated size = record {
  idle = refl;
  od = refl;
  sent = rw (indicated, read_all s.buf v.value all size.0, command_lem (length v.value) size) refl;
}

rx_upload_initiate_lem :
    (s : Server) (m : Message)
    → (1 ≤ s.size_indicated) × (s.size_indicated ≤ 4)
    → rx_upload_initiate s m ≡ ok (at_state s State.upload_expedited_rsp)
unfolding rx_upload_initiate
rx_upload_initiate_lem s m size = ground (arith, size)

settled-Ends :
    (P Q : Server → Type 0) (r : Run) → Ends P r → ((s : Server) → P s → Q s) → Ends Q (settled r)
settled-Ends P Q (ok s) h weaker = weaker s h
settled-Ends P Q (aborts s code) h weaker = elim h [ ]
settled-Ends P Q panics h weaker = h
settled-Ends P Q spinning h weaker = h

pub serve-upload_request :
    (s : Server) (index sub : ℕ) (e : Entry) (i : ℕ) (v : Variable)
    → Offers s index sub e i v
    → has_attribute (opened_stream v sub) attribute_str ≡ false
    → (1 ≤ length v.value) × (length v.value ≤ 4)
    → Ends (Uploaded s index sub v) (serve s (upload_request index sub))
unfolding serve process_incoming received process_outgoing outgoing responded is_abort
serve-upload_request s index sub e i v o plain size =
    rw
      (
        upload_request_lem s index sub e i v o plain size,
        rx_upload_initiate_lem (prefilled s index sub i v State.upload_initiate_req)
            (upload_request index sub) size,
      )
      (settled-Ends (Uploaded t index sub v) (Uploaded s index sub v) (tx_upload_expedited t)
        (tx_upload_expedited-Uploaded t v (unread-write-reset s.buf v.value) refl size)
        (λ s' u. record { idle = u.idle; od = u.od; sent = u.sent }))
  where
    t : Server
    t = record (prefilled s index sub i v State.upload_expedited_rsp) {
      tx_buffer = record s.tx_buffer { bytes = zeros8 };
    }
