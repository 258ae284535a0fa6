-- ===== src/Sdo/Server/DownloadBlock.antt =====
-- pkg/sdo/download_block.go: downloads in blocks of up to 127 segments.
use gocanopen.Base.{
  ℕ, ◌+◌, ◌-◌, ◌/◌, true, false, not, ◌&&◌, ◌∷◌, length, drop, leb, ltb, ◌==◌, if◌then◌else◌, u8,
  u32, bit_and, replicate, sub_u32, min,
}
use gocanopen.Sdo.Abort.{abort_cmd, abort_device_incompat}
use gocanopen.Sdo.Buffer.{Buffer, available, reset, truncate}
use gocanopen.Sdo.Buffer
use gocanopen.Sdo.Message.{
  State, Message, raw, is_crc_enabled, is_size_indicated_block, size_indicated, seqno,
  segment_remaining, get_crc_client, block_seq_size, block_max_size,
}
use gocanopen.Sdo.Server.{Server, Run, ok, aborts, ◌>>=◌, at_state, send, about}
use gocanopen.Sdo.Server.Dictionary.{write_object_dictionary}
use gocanopen.Sdo.Server.Download.{fits_variable}

-- `rxDownloadBlockInitiate`
unfoldable pub rx_download_block_initiate : Server → Message → Run
rx_download_block_initiate s m =
    let s' = record s { block_crc_enabled = is_crc_enabled m; size_indicated = 0 } in
    (if is_size_indicated_block m
      then fits_variable (record s' { size_indicated = size_indicated m })
      else ok s')
    >>= λ s''. ok (record s'' { state = State.download_blk_initiate_rsp; finished = false })

-- A segment in sequence.
unfoldable pub accept_segment : Server → Message → Server
accept_segment s m =
    let s' = record s {
      buf = Buffer.write s.buf (drop 1 m);
      block_sequence_nb = seqno m;
      size_transferred = u32 (s.size_transferred + block_seq_size);
    } in
    if not (segment_remaining m)
    then record s' { finished = true; state = State.download_blk_subblock_rsp }
    else if seqno m == s.block_size
    then at_state s' State.download_blk_subblock_rsp
    else s'

-- `rxDownloadBlockSubBlock`: a segment out of sequence ends the block, but a repeated one, and one
-- before the first of the block, is ignored.
unfoldable pub rx_download_block_sub_block : Server → Message → Run
rx_download_block_sub_block s m =
    if leb (seqno m) s.block_size && (seqno m == u8 (s.block_sequence_nb + 1))
    then ok (accept_segment s m)
    else if not (seqno m == s.block_sequence_nb) && not (s.block_sequence_nb == 0)
    then ok (at_state s State.download_blk_subblock_rsp)
    else ok s

-- The number of bytes of the last segment that are no data.
unfoldable pub no_data : Message → ℕ
no_data m = bit_and (raw m 0 / 4) 0x07

-- `rxDownloadBlockEnd`
unfoldable pub rx_download_block_end : Server → Message → Run
rx_download_block_end s m =
    if not (bit_and (raw m 0) 0xe3 == 0xc1)
    then aborts s abort_cmd
    else if leb (length s.buf.unread) (no_data m)
    then aborts s abort_device_incompat
    else write_object_dictionary 2 (if s.block_crc_enabled then get_crc_client m else 0) (record s {
      size_transferred = sub_u32 s.size_transferred (no_data m);
      buf = truncate s.buf (length s.buf.unread - no_data m);
    })
      >>= λ s'. ok (at_state s' State.download_blk_end_rsp)

-- `txDownloadBlockInitiate`. With less than two bytes of room Go divides -2 or -1 by 7, which is 0.
unfoldable pub tx_download_block_initiate : Server → Run
tx_download_block_initiate s =
    let buf = reset s.buf in
    let count = min ((available buf - 2) / block_seq_size) block_max_size in
    ok (
      send
        (record s {
          size_transferred = 0;
          finished = false;
          buf = buf;
          block_sequence_nb = 0;
          block_crc = 0;
          block_size = count;
          state = State.download_blk_subblock_req;
        })
        (about s 0xa4 (count ∷ replicate 3 0)))

-- The next block, of `count` segments.
unfoldable pub next_block : (acknowledged count : ℕ) → Server → Run
next_block acknowledged count s = ok (
    send
      (record s {
        block_size = u8 count;
        block_sequence_nb = 0;
        state = State.download_blk_subblock_req;
      })
      (0xa2 ∷ acknowledged ∷ u8 count ∷ replicate 5 0))

-- `txDownloadBlockSubBlock`. In Go the second `count` is a variable of its own, so the size of the next
-- block is that of the room before the buffer is written to the dictionary.
unfoldable pub tx_download_block_sub_block : Server → Run
tx_download_block_sub_block s =
    let room = available s.buf in
    if s.finished
    then ok (
        send (at_state s State.download_blk_end_req)
          (0xa2 ∷ s.block_sequence_nb ∷ s.block_size ∷ replicate 5 0))
    else if ltb block_max_size room
    then next_block s.block_sequence_nb block_max_size s
    else if ltb 0 (length s.buf.unread)
    then write_object_dictionary 1 0 s >>= next_block s.block_sequence_nb room
    else next_block s.block_sequence_nb room s

-- `txDownloadBlockEnd`
unfoldable pub tx_download_block_end : Server → Run
tx_download_block_end s = ok (at_state (send s (0xa1 ∷ replicate 7 0)) State.idle)
