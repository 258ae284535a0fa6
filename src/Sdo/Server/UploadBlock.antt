-- ===== src/Sdo/Server/UploadBlock.antt =====
-- pkg/sdo/upload_block.go: uploads in blocks of up to 127 segments.
use gocanopen.Base.{
  ℕ, ◌+◌, ◌-◌, ◌*◌, true, false, not, ◌&&◌, ◌||◌, List, ◌∷◌, ◌++◌, length, leb, ltb, ◌==◌,
  if◌then◌else◌, u8, u32, sub_u32, bit_or, has_bits, replicate, bytes16, bytes32,
}
use gocanopen.Crc.{block}
use gocanopen.Sdo.Abort.{abort_cmd, abort_block_size, abort_data_long, abort_data_short}
use gocanopen.Sdo.Buffer.{Buffer, reset}
use gocanopen.Sdo.Buffer
use gocanopen.Sdo.Message.{State, Message, raw, get_block_size, block_seq_size, block_max_size}
use gocanopen.Sdo.Server.{Server, Run, ok, aborts, ◌>>=◌, at_state, with_stream, send, about}
use gocanopen.Sdo.Server.Dictionary.{read_object_dictionary}
use gocanopen.Sdo.Server.Upload.{rx_upload_initiate, padded}

-- The CRC over the data that is in the buffer already, if the client asks for one.
unfoldable pub started_crc : Server → Message → Server
started_crc s m =
    if has_bits (raw m 0) 0x04
    then record s { block_crc_enabled = true; block_crc = block 0 s.buf.unread }
    else record s { block_crc_enabled = false }

-- `rxUploadBlockInitiate`
unfoldable pub rx_upload_block_initiate : Server → Message → Run
rx_upload_block_initiate s m =
    let s' = record (started_crc s m) { block_size = get_block_size m } in
    if ltb 0 s.size_indicated && ltb 0 (raw m 5) && leb s.size_indicated (raw m 5)
    then rx_upload_initiate s m
    else if ltb s'.block_size 1 || ltb block_max_size s'.block_size
    then aborts s' abort_block_size
    else if not s'.finished && ltb (length s'.buf.unread) (s'.block_size * block_seq_size)
    then aborts s' abort_block_size
    else ok (at_state s' State.upload_blk_initiate_rsp)

-- The streamer goes back to the first segment that was not acknowledged, and its data is read again.
unfoldable pub rewound : Server → (acknowledged : ℕ) → Run
rewound s acknowledged =
    let failed = sub_u32 ((s.block_sequence_nb - acknowledged) * block_seq_size) s.block_no_data in
    let again = u32 (failed + length s.buf.unread) in
    let st = s.streamer.stream in
    read_object_dictionary again (length s.buf.unread + failed) false
      (record (with_stream s (record st { data_offset = sub_u32 st.data_offset again })) {
        size_transferred = sub_u32 s.size_transferred failed;
        buf = reset s.buf;
      })

-- The buffer is filled up for the next block; with nothing left the upload ends.
unfoldable pub filled : Server → Run
filled s = read_object_dictionary (s.block_size * block_seq_size) 0 true s >>= λ s'. ok (
    if length s'.buf.unread == 0
    then at_state s' State.upload_blk_end_sreq
    else record s' { block_sequence_nb = 0; state = State.upload_blk_subblock_sreq })

-- `rxUploadSubBlock`
unfoldable pub rx_upload_sub_block : Server → Message → Run
rx_upload_sub_block s m =
    let s' = record s { block_size = raw m 2 } in
    if not (raw m 0 == 0xa2)
    then aborts s abort_cmd
    else if ltb s'.block_size 1 || ltb block_max_size s'.block_size
    then aborts s' abort_block_size
    else if ltb s.block_sequence_nb (raw m 1)
    then aborts s' abort_cmd
    else (if ltb (raw m 1) s.block_sequence_nb then rewound s' (raw m 1) else ok s') >>= filled

-- `txUploadBlockInitiate`
unfoldable pub tx_upload_block_initiate : Server → Run
tx_upload_block_initiate s = ok (
    at_state
      (send s (
        if ltb 0 s.size_indicated
        then about s 0xc6 (bytes32 s.size_indicated)
        else about s 0xc4 (replicate 4 0)))
      State.upload_blk_initiate_req2)

-- The sizes once a segment is taken from the buffer.
unfoldable pub check_transferred : Server → Run
check_transferred s =
    if s.size_indicated == 0
    then ok s
    else if ltb s.size_indicated s.size_transferred
    then aborts s abort_data_long
    else if (length s.buf.unread == 0) && ltb s.size_transferred s.size_indicated
    then aborts s abort_data_short
    else ok s

-- The segment is sent; the block ends with its last segment or with the data.
unfoldable pub send_block_segment : List ℕ → Server → Run
send_block_segment bytes s = ok (
    send
      (if (length s.buf.unread == 0) || leb s.block_size s.block_sequence_nb
        then at_state s State.upload_blk_subblock_crsp
        else s)
      bytes)

-- `txUploadBlockSubBlock`
unfoldable pub tx_upload_block_sub_block : Server → Run
tx_upload_block_sub_block s =
    let seq = u8 (s.block_sequence_nb + 1) in
    let unread = length s.buf.unread in
    let last = ltb unread block_seq_size || (s.finished && (unread == block_seq_size)) in
    let n = if last then unread else block_seq_size in
    let (bytes, buf) = Buffer.read s.buf block_seq_size in
    check_transferred (record s {
      block_sequence_nb = seq;
      buf = buf;
      block_no_data = block_seq_size - n;
      size_transferred = u32 (s.size_transferred + n);
    })
    >>= send_block_segment ((if last then bit_or seq 0x80 else seq) ∷ padded 7 bytes)

-- `txUploadBlockEnd`
unfoldable pub tx_upload_block_end : Server → Run
tx_upload_block_end s = ok (
    at_state
      (send s (bit_or 0xc1 (u8 (s.block_no_data * 4)) ∷ bytes16 s.block_crc ++ replicate 5 0))
      State.upload_blk_end_crsp)
