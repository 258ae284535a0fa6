-- ===== src/Sdo/Server/Download.antt =====
-- pkg/sdo/download_expedited.go, pkg/sdo/download_segmented.go: downloads of one message, or of
-- segments of up to seven bytes.
use gocanopen.Base.{
  ℕ, ◌+◌, ◌-◌, ◌/◌, true, false, not, ◌&&◌, ◌||◌, none, some, ◌∷◌, take, drop, ltb, ◌==◌,
  if◌then◌else◌, u32, bit_and, bit_or, bit_xor, has_bits, replicate, sub_u32,
}
use gocanopen.Od.Errors.{done, panicked, attribute_str}
use gocanopen.Od.Stream.{WriteResult, write}
use gocanopen.Sdo.Abort.{
  convert_od_to_sdo_abort, abort_data_long, abort_data_short, abort_cmd, abort_toggle_bit,
}
use gocanopen.Sdo.Buffer.{Buffer, available, reset}
use gocanopen.Sdo.Buffer
use gocanopen.Sdo.Message.{
  State, Message, raw, is_expedited, is_size_indicated, size_indicated, get_toggle, block_seq_size,
}
use gocanopen.Sdo.Server.{
  Server, Run, ok, aborts, panics, ◌>>=◌, at_state, with_data_length, data_length, has, send, about,
}
use gocanopen.Sdo.Server.Dictionary.{after_write, write_object_dictionary}

-- The indicated size of a download against the size of the variable, if it has one.
unfoldable pub fits_variable : Server → Run
fits_variable s =
    if data_length s == 0
    then ok s
    else if ltb (data_length s) s.size_indicated
    then aborts s abort_data_long
    else if ltb s.size_indicated (data_length s) && not (has s attribute_str)
    then aborts s abort_data_short
    else ok s

-- `rxDownloadInitiate` without the expedited bit.
unfoldable pub rx_download_segmented : Server → Message → Run
rx_download_segmented s m =
    (if is_size_indicated m
      then fits_variable (record s { size_indicated = size_indicated m })
      else ok s)
    >>= λ s'. ok (record s' { state = State.download_initiate_rsp; finished = false })

-- The number of bytes that an expedited message holds.
unfoldable pub count_indicated : Server → Message → ℕ
count_indicated s m =
    if is_size_indicated m
    then 4 - bit_and (raw m 0 / 4) 0x03
    else if ltb 0 (data_length s) && ltb (data_length s) 4
    then data_length s
    else 4

-- The number of bytes to write, with zeros for a string, and the length of the stream.
unfoldable pub count_to_write : Server → ℕ → Run × ℕ
count_to_write s n =
    if has s attribute_str && ((data_length s == 0) || ltb n (data_length s))
    then (let n' = if sub_u32 (data_length s) n == 1 then n + 1 else n + 2 in
        (ok (with_data_length s n'), n'))
    else if data_length s == 0
    then (ok (with_data_length s n), n)
    else if ltb (data_length s) n
    then (aborts s abort_data_long, n)
    else if ltb n (data_length s)
    then (aborts s abort_data_short, n)
    else (ok s, n)

expedited_written : Server → WriteResult → Run
expedited_written s r = elim r.err [
  | none ↦
      ok (record (after_write s r.stream) { state = State.download_initiate_rsp; finished = true })
  | some err ↦ aborts (after_write s r.stream) (convert_od_to_sdo_abort err)
]

-- The slice `rx.raw[4:4+n]` of an array of eight bytes is written.
unfoldable pub write_expedited : Message → ℕ → Server → Run
unfolding expedited_written
write_expedited m n s = if ltb 4 n then panics else elim (write s.streamer (take n (drop 4 m))) [
  | panicked ↦ panics
  | done r ↦ expedited_written s r
]

-- `rxDownloadInitiate` with the expedited bit.
unfoldable pub rx_download_expedited : Server → Message → Run
rx_download_expedited s m =
    let (run, n) = count_to_write s (count_indicated s m) in run >>= write_expedited m n

-- `rxDownloadInitiate`
unfoldable pub rx_download_initiate : Server → Message → Run
rx_download_initiate s m =
    if is_expedited m then rx_download_expedited s m else rx_download_segmented s m

-- `txDownloadInitiate`
unfoldable pub tx_download_initiate : Server → Run
tx_download_initiate s =
    let s' = send s (about s 0x60 (replicate 4 0)) in
    if s.finished
    then ok (at_state s' State.idle)
    else ok (record s' {
      toggle = 0;
      size_transferred = 0;
      buf = reset s'.buf;
      state = State.download_segment_req;
    })

-- The number of bytes in a segment. The difference is one of bytes: seven places less the empty ones.
unfoldable pub segment_count : Message → ℕ
segment_count m = block_seq_size - bit_and (raw m 0 / 2) 0x07

-- A segment is put into the buffer, and the buffer into the dictionary at the end or when it is full.
unfoldable pub take_segment : Server → Message → Run
take_segment s m =
    let s' = record s {
      buf = Buffer.write s.buf (take (segment_count m) (drop 1 m));
      size_transferred = u32 (s.size_transferred + segment_count m);
    } in
    if ltb 0 (data_length s) && ltb (data_length s) s'.size_transferred
    then aborts s' abort_data_long
    else (if s.finished || ltb (available s'.buf) 9 then write_object_dictionary 0 0 s' else ok s')
      >>= λ s''. ok (at_state s'' State.download_segment_rsp)

-- `rxDownloadSegment`
unfoldable pub rx_download_segment : Server → Message → Run
rx_download_segment s m =
    let s' = record s { finished = has_bits (raw m 0) 0x01 } in
    if has_bits (raw m 0) 0xe0
    then aborts s abort_cmd
    else if get_toggle m == s.toggle
    then take_segment s' m
    else aborts s' abort_toggle_bit

-- `txDownloadSegment`
unfoldable pub tx_download_segment : Server → Run
tx_download_segment s =
    let s' = record (send s (bit_or 0x20 s.toggle ∷ replicate 7 0)) {
      toggle = bit_xor s.toggle 0x10;
    } in
    if s.finished then ok (at_state s' State.idle) else ok (at_state s' State.download_segment_req)
