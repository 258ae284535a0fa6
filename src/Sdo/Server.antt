-- ===== src/Sdo/Server.antt =====
-- pkg/sdo/server.go: the state of an SDO server and its access to the dictionary. A handler returns
-- the server, with an abort code where the code returns an error, or it panics. The frames given to
-- `Send` are kept in `sent`, oldest first. The clock, the mutex and logging are left out.
pub mod After
pub mod Dictionary
pub mod Download
pub mod DownloadBlock
pub mod Upload
pub mod UploadBlock
pub mod Process
use gocanopen.Base.{
  ℕ, ◌+◌, Bool, true, false, Option, none, some, List, [], ◌∷◌, ◌++◌, ◌==◌, if◌then◌else◌, u8, u16,
  bytes16, bytes32,
}
use gocanopen.Can.{Frame}
use gocanopen.Od.Stream.{Stream, Streamer, has_attribute}
use gocanopen.Od.Entry.{Entry}
use gocanopen.Sdo.Buffer.{Buffer}
use gocanopen.Sdo.Message.{State, Message}

-- `SDOServer`. `place` is the place, in the object at `index`, of the variable that the streamer
-- shares its bytes with, and `rx` what waits in the channel.
pub record Server : Type 0 where
  pub od : List Entry
  pub place : ℕ
  pub rx : List Message
  pub streamer : Streamer
  pub tx_buffer : Frame
  pub cob_id_client_to_server : ℕ
  pub cob_id_server_to_client : ℕ
  pub valid : Bool
  pub buf : Buffer
  pub intermediate_buf : List ℕ
  pub index : ℕ
  pub subindex : ℕ
  pub size_indicated : ℕ
  pub size_transferred : ℕ
  pub toggle : ℕ
  pub finished : Bool
  pub state : State
  pub block_sequence_nb : ℕ
  pub block_size : ℕ
  pub block_no_data : ℕ
  pub block_crc_enabled : Bool
  pub block_crc : ℕ
  pub node_id : ℕ
  pub nmt : ℕ
  pub sent : List Frame

-- What a handler returns: nil, an abort code, or a run-time panic. `spinning` is the end of the fuel.
pub data Run : Type 0 where
  ok : Server → Run
  aborts : Server → ℕ → Run
  panics : Run
  spinning : Run

infixl 5 ◌>>=◌
abbrev pub ◌>>=◌ : Run → (Server → Run) → Run
ok s >>= f = f s
aborts s code >>= f = aborts s code
panics >>= f = panics
spinning >>= f = spinning

-- `s.state = stateAbort; return code`
abbrev pub fail : Server → ℕ → Run
fail s code = aborts (record s { state = State.abort }) code

abbrev pub at_state : Server → State → Server
at_state s state = record s { state = state }

abbrev pub with_stream : Server → Stream → Server
with_stream s st = record s { streamer = record s.streamer { stream = st } }

-- `server.streamer.DataLength = n`
abbrev pub with_data_length : Server → ℕ → Server
with_data_length s n = with_stream s (record s.streamer.stream { data_length = n })

abbrev pub data_length : Server → ℕ
data_length s = s.streamer.stream.data_length

abbrev pub has : Server → ℕ → Bool
has s attribute = has_attribute s.streamer.stream attribute

-- The eight bytes are put into the transmit buffer and sent.
unfoldable pub send : Server → List ℕ → Server
send s bytes =
    let frame = record s.tx_buffer { bytes = bytes } in
    record s { tx_buffer = frame; sent = s.sent ++ (frame ∷ []) }

-- The bytes of a message that names the object of the transfer.
abbrev pub about : Server → (command : ℕ) → (rest : List ℕ) → List ℕ
about s command rest = command ∷ bytes16 s.index ++ (s.subindex ∷ rest)
