-- ===== src/Sdo/Server/Process.antt =====
-- pkg/sdo/requests.go, pkg/sdo/responses.go and `Handle` and `Process` of pkg/sdo/server.go: the state
-- machine of the server.
pub mod Setup
pub mod Waiting
pub mod Running
pub mod Incoming
pub mod Offers
pub mod ExpeditedDownload
pub mod ExpeditedUpload
pub mod Expedited
pub mod Toggle
pub mod Refused
pub mod Header
pub mod Segment
pub mod Segmented
mod Tests
use gocanopen.Base.{
  ℕ, zero, suc, ◌+◌, Bool, true, false, not, ◌&&◌, ◌||◌, List, [], ◌∷◌, ◌++◌, length, leb, ltb,
  ◌==◌, if◌then◌else◌, bit_and, bytes32, replicate,
}
use gocanopen.Can.{Frame, zeros8}
use gocanopen.Sdo.Abort.{abort_cmd, abort_timeout}
use gocanopen.Sdo.Message.{
  State, Message, raw, is_abort, mask_cs, cs_download_initiate, cs_upload_initiate,
  cs_download_block_initiate, cs_upload_block_initiate,
}
use gocanopen.Sdo.Server.{Server, Run, ok, aborts, panics, spinning, ◌>>=◌, at_state, send, about}
use gocanopen.Sdo.Server.Dictionary.{update_streamer}
use gocanopen.Sdo.Server.Download.{
  rx_download_initiate, tx_download_initiate, rx_download_segment, tx_download_segment,
}
use gocanopen.Sdo.Server.DownloadBlock.{
  rx_download_block_initiate, rx_download_block_sub_block, rx_download_block_end,
  tx_download_block_initiate, tx_download_block_sub_block, tx_download_block_end,
}
use gocanopen.Sdo.Server.Upload.{
  rx_upload_initiate, tx_upload_initiate, tx_upload_expedited, rx_upload_segment, tx_upload_segment,
}
use gocanopen.Sdo.Server.UploadBlock.{
  rx_upload_block_initiate, rx_upload_sub_block, tx_upload_block_initiate,
  tx_upload_block_sub_block, tx_upload_block_end,
}

-- `Handle`: a frame of eight bytes waits in the channel, which holds 127.
unfoldable pub handle : Server → Frame → Server
handle s frame =
    if (frame.dlc == 8) && ltb (length s.rx) 127
    then record s { rx = s.rx ++ (frame.bytes ∷ []) }
    else s

-- The transfer that a message starts in the idle state.
unfoldable pub started : Server → Message → Run
started s m =
    let command = bit_and (raw m 0) mask_cs in
    if command == cs_download_initiate
    then ok (at_state s State.download_initiate_req)
    else if command == cs_upload_initiate
    then ok (at_state s State.upload_initiate_req)
    else if command == cs_download_block_initiate
    then if bit_and (raw m 0) 0x01 == 0
      then ok (at_state s State.download_blk_initiate_req)
      else aborts s abort_cmd
    else if command == cs_upload_block_initiate
    then if bit_and (raw m 0) 0x03 == 0
      then ok (at_state s State.upload_blk_initiate_req)
      else aborts s abort_cmd
    else aborts s abort_cmd

-- The first part of `processIncoming`, which acts in the idle state only.
unfoldable pub begun : Server → Message → Run
begun s m = elim s.state [ State.idle ↦ started s m >>= λ s'. update_streamer s' m | _ ↦ ok s ]

-- The receive state machine of `processIncoming`.
unfoldable pub received : Message → State → Server → Run
received m State.download_initiate_req s = rx_download_initiate s m
received m State.download_segment_req s = rx_download_segment s m
received m State.upload_initiate_req s = rx_upload_initiate s m
received m State.upload_segment_req s = rx_upload_segment s m
received m State.download_blk_initiate_req s = rx_download_block_initiate s m
received m State.download_blk_subblock_req s = rx_download_block_sub_block s m
received m State.download_blk_end_req s = rx_download_block_end s m
received m State.upload_blk_initiate_req s = rx_upload_block_initiate s m
received m State.upload_blk_initiate_req2 s =
    if raw m 0 == 0xa3
    then ok (record s { block_sequence_nb = 0; state = State.upload_blk_subblock_sreq })
    else aborts s abort_cmd
received m State.upload_blk_subblock_sreq s = rx_upload_sub_block s m
received m State.upload_blk_subblock_crsp s = rx_upload_sub_block s m
received m State.upload_blk_end_crsp s =
    if raw m 0 == 0xa1 then ok (at_state s State.idle) else aborts s abort_cmd
received m _ s = aborts s abort_cmd

-- `processIncoming`
unfoldable pub process_incoming : Server → Message → Run
process_incoming s m =
    if is_abort m then ok (at_state s State.idle) else begun s m >>= λ s'. received m s'.state s'

-- A call of `processOutgoing` whose error is not looked at: the server as the call leaves it.
abbrev pub unchecked : Run → Run
unchecked (ok s) = ok s
unchecked (aborts s code) = ok s
unchecked panics = panics
unchecked spinning = spinning

-- The send state machine of `processOutgoing`, with what it does after a segment of a block.
unfoldable pub responded : (Server → Run) → State → Server → Run
responded again State.download_initiate_rsp s = tx_download_initiate s
responded again State.download_segment_rsp s = tx_download_segment s
responded again State.upload_initiate_rsp s = tx_upload_initiate s
responded again State.upload_expedited_rsp s = tx_upload_expedited s
responded again State.upload_segment_rsp s = tx_upload_segment s
responded again State.download_blk_initiate_rsp s = tx_download_block_initiate s
responded again State.download_blk_subblock_rsp s = tx_download_block_sub_block s
responded again State.download_blk_end_rsp s = tx_download_block_end s
responded again State.upload_blk_initiate_rsp s = tx_upload_block_initiate s
responded again State.upload_blk_subblock_sreq s =
    tx_upload_block_sub_block s >>= λ s'. unchecked (again s')
responded again State.upload_blk_end_sreq s = tx_upload_block_end s
responded again _ s = ok s

-- `processOutgoing` on fuel: it calls itself once for each segment of a block.
unfoldable pub outgoing : (fuel : ℕ) → Server → Run
outgoing zero s = spinning
outgoing (suc fuel) s =
    responded (outgoing fuel) s.state
      (record s { tx_buffer = record s.tx_buffer { bytes = zeros8 } })

-- A sequence number is a byte, and the block ends when it reaches the size of the block.
unfoldable pub process_outgoing : Server → Run
process_outgoing = outgoing 257

-- `SendAbort`
unfoldable pub send_abort : Server → ℕ → Server
send_abort s code = send s (about s 0x80 (bytes32 code))

-- `txAbort` of an abort code.
unfoldable pub tx_abort : Server → ℕ → Server
tx_abort s code = at_state (send_abort s code) State.idle

-- An error of a handler is answered by an abort.
abbrev pub settled : Run → Run
settled (aborts s code) = ok (tx_abort s code)
settled (ok s) = ok s
settled panics = panics
settled spinning = spinning

-- A message from the client: it is taken, and a response is sent.
unfoldable pub serve : Server → Message → Run
serve s m = settled (process_incoming s m >>= process_outgoing)

-- No message has come for the time of the timeout.
unfoldable pub time_out : Server → Run
time_out s = elim s.state [ State.idle ↦ ok s | _ ↦ ok (tx_abort s abort_timeout) ]

-- What wakes the server in `Process`: a message in the channel, or the timeout.
abbrev pub wake : Server → List Message → Run
wake s [] = time_out s
wake s (m ∷ ms) = serve (record s { rx = ms }) m

-- One turn of the loop of `Process`. Only an operational or pre-operational node serves.
unfoldable pub turn : Server → Run
turn s =
    if s.valid && ((s.nmt == 5) || (s.nmt == 127)) then wake s s.rx else ok (at_state s State.idle)

-- `SetNMTState`
unfoldable pub set_nmt_state : Server → ℕ → Server
set_nmt_state s state = record s { nmt = state }
