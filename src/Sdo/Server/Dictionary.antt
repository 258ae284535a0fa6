-- ===== src/Sdo/Server/Dictionary.antt =====
-- pkg/sdo/server.go: the transfer between the server's buffer and the object dictionary.
use gocanopen.Base.{
  ℕ, ◌+◌, ◌-◌, Bool, true, false, not, ◌&&◌, ◌||◌, Option, none, some, List, [], ◌∷◌, length, take,
  drop, leb, ltb, ◌==◌, if◌then◌else◌, u32,
}
use gocanopen.Crc.{block}
use gocanopen.Od.Errors.{
  Odr, done, panicked, attribute_str, attribute_sdo_r, attribute_sdo_w, attribute_sdo_rw,
  is_err_partial,
}
use gocanopen.Od.Stream.{Stream, WriteResult, read, write}
use gocanopen.Od.Lookup.{stored, opened}
use gocanopen.Sdo.Abort.{
  convert_od_to_sdo_abort, abort_data_long, abort_data_short, abort_crc, abort_device_incompat,
  abort_unsupported_access, abort_write_only, abort_read_only,
}
use gocanopen.Sdo.Buffer.{Buffer, available, reset}
use gocanopen.Sdo.Buffer
use gocanopen.Sdo.Message.{State, Message, get_index, get_subindex, block_seq_size}
use gocanopen.Sdo.Server.{
  Server, Run, ok, aborts, panics, ◌>>=◌, fail, with_stream, with_data_length, data_length, has,
}

-- The server after a call of the streamer's writer.
unfoldable pub after_write : Server → Stream → Server
after_write s st = record (with_stream s st) { od = stored s.od s.index s.place st.bytes }

-- A zero is put behind the data.
terminated_once : Server → Server
terminated_once s = record s {
  buf = Buffer.write s.buf (0 ∷ []);
  size_transferred = u32 (s.size_transferred + 1);
}

-- A string shorter than its variable gets one or two zeros: the server and their number.
unfoldable pub terminated : Server → Server × ℕ
unfolding terminated_once
terminated s =
    let once = terminated_once s in
    if (data_length s == 0) || ltb once.size_transferred (data_length s)
    then (with_data_length (terminated_once once) (terminated_once once).size_transferred, 2)
    else (with_data_length once once.size_transferred, 1)

-- The checks of the size when all data has come.
unfoldable pub sized : Server → Bool → (Server → ℕ → Run) → Run
sized s string after =
    if string
      && ((data_length s == 0) || ltb s.size_transferred (data_length s))
      && leb 2 (available s.buf)
    then (let (s', added) = terminated s in after s' added)
    else if data_length s == 0
    then after (with_data_length s s.size_transferred) 0
    else if ltb (data_length s) s.size_transferred
    then fail s abort_data_long
    else if ltb s.size_transferred (data_length s)
    then fail s abort_data_short
    else after s 0

-- The CRC over the data in the buffer without the zeros added, compared for operation 2.
unfoldable pub checked_crc : (operation client added : ℕ) → Server → Run
checked_crc operation client added s =
    if s.block_crc_enabled && ltb 0 operation
    then (let crc = block s.block_crc (take (length s.buf.unread - added) s.buf.unread) in
        let s' = record s { block_crc = crc } in
        if (operation == 2) && not (client == crc) then fail s' abort_crc else ok s')
    else ok s

-- The outcome of `io.Copy`, when the buffer has been written to the streamer.
unfoldable pub copied_to : Server → WriteResult → Run
copied_to s r =
    let s' = after_write s r.stream in
    let m = r.count in
    let s'' = record s' {
      buf = record s'.buf { unread = drop m s'.buf.unread; off = s'.buf.off + m };
    } in
    if ltb (length s.buf.unread) m then panics else elim r.err [
      | none ↦
          if not (m == length s.buf.unread)
          then panics
          else if s.finished
          then ok (record s'' { buf = reset s''.buf })
          else fail (record s'' { buf = reset s''.buf }) abort_data_long
      | some err ↦
          if not (is_err_partial err)
          then fail s'' (convert_od_to_sdo_abort err)
          else if s.finished
          then fail s'' abort_data_short
          else ok s''
    ]

-- `io.Copy(server.streamer, server.buf)` and the checks of its result: an empty buffer writes nothing,
-- and a short write without an error panics at the conversion of io.ErrShortWrite.
unfoldable pub copy_to_streamer : Server → Run
copy_to_streamer s =
    if length s.buf.unread == 0
    then (let s' = record s { buf = reset s.buf } in
        if s.finished then ok s' else fail s' abort_data_long)
    else elim (write s.streamer s.buf.unread) [ panicked ↦ panics | done r ↦ copied_to s r ]

unfoldable pub transfer : (operation client : ℕ) → Server → ℕ → Run
transfer operation client s added = checked_crc operation client added s >>= copy_to_streamer

-- `writeObjectDictionary`
unfoldable pub write_object_dictionary : (operation client : ℕ) → Server → Run
write_object_dictionary operation client s =
    if ltb 0 s.size_indicated && ltb s.size_indicated s.size_transferred
    then fail s abort_data_long
    else if not s.finished
    then transfer operation client s 0
    else if ltb 0 s.size_indicated && ltb s.size_transferred s.size_indicated
    then fail s abort_data_short
    else sized s (has s attribute_str) (transfer operation client)

-- The place of the first zero, or the default.
unfoldable pub first_zero : List ℕ → ℕ → ℕ → ℕ
first_zero [] i default = default
first_zero (b ∷ bs) i default =
    let rest = first_zero bs (i + 1) default in if b == 0 then i else rest

-- The length of the string in the intermediate buffer, at least 1.
string_length : Server → ℕ
string_length s = let n = first_zero s.intermediate_buf 0 (data_length s) in if n == 0 then 1 else n

-- The data read, with its number, goes into the buffer; `more` says that the variable has more.
unfoldable pub buffered :
    (count_minimum size : ℕ) → (calculate : Bool) → Server → (count : ℕ) → (more : Bool) → Run
buffered count_minimum size calculate s count more =
    let n = if ltb 0 size then size else count in
    let chunk = take n s.intermediate_buf in
    let s' = record s { buf = Buffer.write s.buf chunk; finished = not more } in
    if ltb (length s.intermediate_buf) n
    then panics
    else if more && ltb n count_minimum
    then fail s' abort_device_incompat
    else ok (
        if calculate && s.block_crc_enabled
        then record s' { block_crc = block s.block_crc chunk }
        else s')

-- The end of a string ends the read.
unfoldable pub cut_string :
    Server → (count : ℕ) → (more : Bool) → (Server → (count : ℕ) → (more : Bool) → Run) → Run
unfolding string_length
cut_string s count more next =
    if ltb 0 count && has s attribute_str && ltb (string_length s) count
    then next (with_data_length s (u32 (s.size_transferred + string_length s))) (string_length s)
        false
    else next s count more

unfoldable pub read_outcome :
    (count_minimum size : ℕ) → (calculate : Bool) → Server → (count : ℕ) → Option Odr → Run
read_outcome count_minimum size calculate s count none =
    cut_string s count false (buffered count_minimum size calculate)
read_outcome count_minimum size calculate s count (some err) =
    if is_err_partial err
    then cut_string s count true (buffered count_minimum size calculate)
    else fail s (convert_od_to_sdo_abort err)

-- `readObjectDictionary`
unfoldable pub read_object_dictionary : (count_minimum size : ℕ) → (calculate : Bool) → Server → Run
read_object_dictionary count_minimum size calculate s =
    if s.finished || leb count_minimum (length s.buf.unread)
    then ok s
    else elim (read s.streamer s.intermediate_buf) [
      | panicked ↦ panics
      | done r ↦
          read_outcome count_minimum size calculate
            (record (with_stream s r.stream) { intermediate_buf = r.filled }) r.count r.err
    ]

-- The size that is indicated for an upload.
unfoldable pub prepared : Server → Run
prepared s =
    if not s.finished
    then ok (record s { size_indicated = if has s attribute_str then 0 else data_length s })
    else if data_length s == 0
    then ok (record s { size_indicated = u32 (length s.buf.unread) })
    else if not (data_length s == u32 (length s.buf.unread))
    then aborts (record s { size_indicated = data_length s }) abort_device_incompat
    else ok (record s { size_indicated = data_length s })

-- `prepareRx`
unfoldable pub prepare_rx : Server → Run
prepare_rx s =
    read_object_dictionary block_seq_size 0 false
      (record s { buf = reset s.buf; size_transferred = 0; finished = false })
    >>= prepared

-- The states in which a transfer is an upload.
unfoldable pub is_upload : State → Bool
is_upload State.upload_blk_initiate_req = true
is_upload State.upload_initiate_req = true
is_upload _ = false

-- The access that the attributes of the object allow.
unfoldable pub permitted : Server → Run
permitted s =
    if not (has s attribute_sdo_rw)
    then aborts s abort_unsupported_access
    else if is_upload s.state
    then if has s attribute_sdo_r then prepare_rx s else aborts s abort_write_only
    else if has s attribute_sdo_w
    then ok s
    else aborts s abort_read_only

unfoldable pub looked_up : Server → Option Odr → Run
looked_up s none = permitted s
looked_up s (some err) = aborts s (convert_od_to_sdo_abort err)

-- `updateStreamer`
unfoldable pub update_streamer : Server → Message → Run
update_streamer s m =
    let (place, streamer, err) = opened s.od (get_index m) (get_subindex m) in
    let s' = record s {
      index = get_index m;
      subindex = get_subindex m;
      place = place;
      streamer = streamer;
    } in
    looked_up s' err

-- `checkSizeConsitency`
unfoldable pub check_size_consistency : Server → Run
check_size_consistency s =
    if s.size_indicated == 0
    then ok s
    else if ltb s.size_indicated s.size_transferred
    then fail s abort_data_long
    else elim s.state [
      | State.idle ↦
          if ltb s.size_transferred s.size_indicated then fail s abort_data_short else ok s
      | _ ↦ ok s
    ]
