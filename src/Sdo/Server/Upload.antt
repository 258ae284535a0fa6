-- ===== src/Sdo/Server/Upload.antt =====
-- pkg/sdo/upload_expedited.go, pkg/sdo/upload_segmented.go: uploads in one message, or in segments of
-- up to seven bytes.
use gocanopen.Base.{
  ℕ, ◌+◌, ◌-◌, ◌*◌, false, not, ◌&&◌, ◌||◌, List, ◌∷◌, ◌++◌, length, take, leb, ltb, ◌==◌,
  if◌then◌else◌, u32, bit_and, bit_or, bit_xor, replicate, bytes32,
}
use gocanopen.Sdo.Abort.{abort_cmd, abort_toggle_bit}
use gocanopen.Sdo.Buffer.{Buffer}
use gocanopen.Sdo.Buffer
use gocanopen.Sdo.Message.{State, Message, raw, get_toggle, block_seq_size}
use gocanopen.Sdo.Server.{Server, Run, ok, aborts, ◌>>=◌, at_state, send, about}
use gocanopen.Sdo.Server.Dictionary.{read_object_dictionary, check_size_consistency}

-- The bytes, with zeros up to `n`.
abbrev pub padded : ℕ → List ℕ → List ℕ
padded n bytes = take n (bytes ++ replicate n 0)

-- `rxUploadInitiate`
unfoldable pub rx_upload_initiate : Server → Message → Run
rx_upload_initiate s m =
    if ltb 0 s.size_indicated && leb s.size_indicated 4
    then ok (at_state s State.upload_expedited_rsp)
    else ok (at_state s State.upload_initiate_rsp)

-- `txUploadExpedited`, with one to four bytes.
unfoldable pub tx_upload_expedited : Server → Run
tx_upload_expedited s =
    let (bytes, buf) = Buffer.read s.buf s.size_indicated in
    ok (
      send (record s { buf = buf; state = State.idle })
        (about s (bit_or 0x43 ((4 - s.size_indicated) * 4)) (padded 4 bytes)))

-- `txUploadInitiate`
unfoldable pub tx_upload_initiate : Server → Run
tx_upload_initiate s = ok (
    send (record s { toggle = 0; state = State.upload_segment_req })
      (about s (bit_and s.size_indicated 1 + 0x40) (bytes32 s.size_indicated)))

-- `rxUploadSegment`
unfoldable pub rx_upload_segment : Server → Message → Run
rx_upload_segment s m =
    if not (bit_and (raw m 0) 0xef == 0x60)
    then aborts s abort_cmd
    else if get_toggle m == s.toggle
    then ok (at_state s State.upload_segment_rsp)
    else aborts s abort_toggle_bit

-- The segment, when `unread` bytes were in the buffer before it was filled up.
unfoldable pub send_segment : (unread : ℕ) → Server → Run
send_segment unread s =
    let last = ltb unread block_seq_size || (s.finished && (unread == block_seq_size)) in
    let n = if last then unread else block_seq_size in
    let header =
      if last then bit_or s.toggle (bit_or ((block_seq_size - unread) * 2) 1) else s.toggle in
    let (bytes, buf) = Buffer.read s.buf n in
    check_size_consistency (record s {
      toggle = bit_xor s.toggle 0x10;
      state = if last then State.idle else State.upload_segment_req;
      buf = buf;
      size_transferred = u32 (s.size_transferred + n);
    })
    >>= λ s'. ok (send s' (header ∷ padded 7 bytes))

-- `txUploadSegment`
unfoldable pub tx_upload_segment : Server → Run
tx_upload_segment s =
    read_object_dictionary block_seq_size 0 false s >>= send_segment (length s.buf.unread)
