-- ===== src/Sdo/Server/Process/Toggle.antt =====
-- pkg/sdo/download_segmented.go, pkg/sdo/upload_segmented.go: a segment with the wrong toggle bit.
use gocanopen.Base.{
  ℕ, ◌≡◌, ◌≢◌, refl, true, false, [], ◌∷◌, ◌++◌, arith, bit_and, has_bits, bytes32, ◌==◌,
}
use gocanopen.Sdo.Abort.{abort_toggle_bit}
use gocanopen.Sdo.Message.{State, Message, is_abort, raw, get_toggle}
use gocanopen.Sdo.Server.{Server, ok, ◌>>=◌, send}
use gocanopen.Sdo.Server.Download.{rx_download_segment}
use gocanopen.Sdo.Server.Upload.{rx_upload_segment}
use gocanopen.Sdo.Server.Process.{
  begun, received, process_incoming, process_outgoing, send_abort, tx_abort, settled, serve,
}
use gocanopen.Sdo.Server.Process.Offers.{answer}
use gocanopen.Sdo.Server.Process.ExpeditedUpload.{Ends}

-- The server has given up the transfer, with one frame that says why.
pub record GivenUp (s : Server) (code : ℕ) (s' : Server) : Type 0 where
  pub idle : s'.state ≡ State.idle
  pub od : s'.od ≡ s.od
  pub sent : s'.sent ≡ s.sent ++ (answer s s.index s.subindex 0x80 (bytes32 code) ∷ [])

-- A segment of the transfer that the server is in.
pub data IsSegment (s : Server) (m : Message) : Type 0 where
  downloads : s.state ≡ State.download_segment_req → has_bits (raw m 0) 0xe0 ≡ false → IsSegment s m
  uploads :
      s.state ≡ State.upload_segment_req → (bit_and (raw m 0) 0xef == 0x60) ≡ true → IsSegment s m

pub begun_busy_download :
    (s : Server) (m : Message) → s.state ≡ State.download_segment_req → begun s m ≡ ok s
unfolding begun
begun_busy_download s m e = ground (arith, e)

begun_busy_upload :
    (s : Server) (m : Message) → s.state ≡ State.upload_segment_req → begun s m ≡ ok s
unfolding begun
begun_busy_upload s m e = ground (arith, e)

tx_abort-GivenUp : (s : Server) (code : ℕ) → GivenUp s code (tx_abort s code)
unfolding tx_abort send_abort send
tx_abort-GivenUp s code = record { idle = refl; od = refl; sent = refl }

received-GivenUp :
    (s : Server) (m : Message)
    → IsSegment s m
    → get_toggle m ≢ s.toggle
    → Ends
        (GivenUp s abort_toggle_bit)
        (settled (begun s m >>= (λ s'. received m s'.state s') >>= process_outgoing))
unfolding received rx_download_segment rx_upload_segment tx_abort send_abort send
received-GivenUp s m (downloads e segment) wrong =
    rw (begun_busy_download s m e) (ground (arith, e, segment, wrong))
received-GivenUp s m (uploads e segment) wrong =
    rw (begun_busy_upload s m e) (ground (arith, e, segment, wrong))

-- A message that is no abort and a segment of the segmented download or upload that the server is in,
-- with the other toggle bit than the server waits for, is answered by the abort 0x05030000 alone. The
-- server is idle then, with the dictionary as it was.
pub serve_toggle :
    (s : Server) (m : Message)
    → IsSegment s m
    → is_abort m ≡ false
    → get_toggle m ≢ s.toggle
    → Ends (GivenUp s abort_toggle_bit) (serve s m)
unfolding serve process_incoming
serve_toggle s m segment no_abort wrong = rw no_abort (received-GivenUp s m segment wrong)
