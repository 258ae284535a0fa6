-- ===== src/Sdo/Server/Process/Segment.antt =====
-- pkg/sdo/download_segmented.go: one segment of a download.
use gocanopen.Base.{
  sym, take_all, bit_xor, ◌∙◌, ap, ℕ, ◌+◌, ◌<◌, ◌≤◌, ◌≡◌, refl, ◌⊎◌, Bool, true, false, not, List,
  ◌∷◌, ◌++◌, length, take, drop, ◌==◌, if◌then◌else◌, arith, u32, length-append,
}
use gocanopen.Od.Errors.{attribute_str}
use gocanopen.Od.Stream.{has_attribute}
use gocanopen.Od.Entry.{Variable, plain_streamer, opened_stream}
use gocanopen.Od.Entry
use gocanopen.Sdo.Buffer.{Buffer, available, reset, grow}
use gocanopen.Sdo.Buffer
use gocanopen.Sdo.Message.{State, Message, raw, is_abort, get_toggle}
use gocanopen.Sdo.Server.{Server, ok, ◌>>=◌, at_state, send, data_length}
use gocanopen.Od.Lookup.{stored}
use gocanopen.Sdo.Server.Dictionary.{
  after_write, write_object_dictionary, sized, transfer, checked_crc, copy_to_streamer, copied_to,
}
use gocanopen.Sdo.Server.Download.{
  segment_count, take_segment, rx_download_segment, tx_download_segment,
}
use gocanopen.Sdo.Server.Upload.{padded}
use gocanopen.Sdo.Server.Process.{
  serve, received, process_incoming, process_outgoing, outgoing, responded,
}
use gocanopen.Sdo.Server.Process.ExpeditedDownload.{written_whole}
use gocanopen.Sdo.Server.Process.ExpeditedUpload.{Ends}
use gocanopen.Sdo.Server.Process.Header.{
  toggle_bit, Reads, middle-Reads, last_header, last-Reads, take-padded,
}
use gocanopen.Sdo.Server.Process.Toggle.{begun_busy_download}

-- A download of segments into a variable that is not a string, with the bytes that have come.
pub record Loading (s : Server) (v : Variable) (sub : ℕ) (b : Bool) (bytes : List ℕ) : Type 0 where
  pub state : s.state ≡ State.download_segment_req
  pub streamer : s.streamer ≡ plain_streamer v sub
  pub plain : has_attribute (opened_stream v sub) attribute_str ≡ false
  pub toggle : s.toggle ≡ toggle_bit b
  pub unread : s.buf.unread ≡ bytes
  pub front : s.buf.off ≡ 0
  pub transferred : s.size_transferred ≡ length bytes
  pub indicated : (s.size_indicated ≡ 0) ⊎ (s.size_indicated ≡ length v.value)
  pub room : (length v.value + 9 ≤ s.buf.cap) × (length v.value < 65536)

write_fits :
    (b : Buffer) (bytes : List ℕ)
    → b.off + length b.unread + length bytes ≤ b.cap
    → Buffer.write b bytes ≡ record b { unread = b.unread ++ bytes }
unfolding Buffer.write
write_fits b bytes fits = ground (arith, fits)

-- The server with the bytes of a segment in its buffer.
abbrev added : Server → (bytes chunk : List ℕ) → (last : Bool) → Server
added s bytes chunk last = record s {
  finished = last;
  buf = record s.buf { unread = bytes ++ chunk };
  size_transferred = length bytes + length chunk;
}

pub data_length_lem :
    (s : Server) (v : Variable) (sub : ℕ)
    → s.streamer ≡ plain_streamer v sub
    → length v.value < 65536
    → data_length s ≡ length v.value
unfolding plain_streamer opened_stream Entry.data_length
data_length_lem s v sub e small = ap (λ t. t.stream.data_length) e ∙ omega arith

-- The bytes of a segment go into the buffer, and into the dictionary after the last one.
take_segment_lem :
    (s : Server) (v : Variable) (sub : ℕ) (b last : Bool) (bytes chunk : List ℕ) (m : Message)
    → Loading s v sub b bytes
    → segment_count m ≡ length chunk
    → take (length chunk) (drop 1 m) ≡ chunk
    → length bytes + length chunk ≤ length v.value
    → take_segment (record s { finished = last }) m ≡ (
        (if last
          then write_object_dictionary 0 0 (added s bytes chunk last)
          else ok (added s bytes chunk last))
        >>= λ s'. ok (at_state s' State.download_segment_rsp))
unfolding take_segment available
take_segment_lem s v sub b last bytes chunk m l counted taken fits =
    let whole : data_length s ≡ length v.value = data_length_lem s v sub l.streamer l.room.1 in
    let total : u32 (s.size_transferred + length chunk) ≡ length bytes + length chunk =
      omega (arith, l.transferred, l.room) in
    rw
      (
        counted,
        taken,
        total,
        write_fits s.buf chunk (omega (arith, l.front, ap length l.unread, l.room)),
        l.unread,
      )
      (ground (arith, whole, fits, l.front, l.room, length-append bytes chunk))

copy_to_streamer_lem :
    (s : Server) (v : Variable) (sub : ℕ) (bytes : List ℕ)
    → s.streamer ≡ plain_streamer v sub
    → s.finished ≡ true
    → s.buf.unread ≡ bytes
    → length bytes ≡ length v.value
    → (1 ≤ length bytes) × (length bytes < 65536)
    → copy_to_streamer s
      ≡ ok (record (after_write s (opened_stream (record v { value = bytes }) sub)) {
        buf = reset s.buf;
      })
unfolding copy_to_streamer copied_to reset after_write
copy_to_streamer_lem s v sub bytes e finished all same size =
    ground (arith, e, finished, all, size, written_whole v sub bytes (omega (arith, size)) same)

write_object_dictionary_lem :
    (s : Server) (v : Variable) (sub : ℕ) (bytes : List ℕ)
    → s.streamer ≡ plain_streamer v sub
    → has_attribute (opened_stream v sub) attribute_str ≡ false
    → (s.size_indicated ≡ 0) ⊎ (s.size_indicated ≡ length v.value)
    → s.finished ≡ true
    → s.buf.unread ≡ bytes
    → s.size_transferred ≡ length bytes
    → length bytes ≡ length v.value
    → (1 ≤ length bytes) × (length bytes < 65536)
    → write_object_dictionary 0 0 s
      ≡ ok (record (after_write s (opened_stream (record v { value = bytes }) sub)) {
        buf = reset s.buf;
      })
unfolding write_object_dictionary sized transfer checked_crc
write_object_dictionary_lem s v sub bytes e plain indicated finished all transferred same size =
    ground (
      arith,
      indicated,
      finished,
      transferred,
      same,
      size,
      data_length_lem s v sub e (omega (arith, same, size)),
      copy_to_streamer_lem s v sub bytes e finished all same size,
    )

-- A segment with the toggle bit that the server waits for is taken.
rx_download_segment_lem :
    (s : Server) (v : Variable) (sub : ℕ) (b last : Bool) (bytes : List ℕ) (n : ℕ) (m : Message)
    → Loading s v sub b bytes
    → Reads (raw m 0) n b last
    → rx_download_segment s m ≡ take_segment (record s { finished = last }) m
unfolding rx_download_segment get_toggle
rx_download_segment_lem s v sub b last bytes n m l r =
    ground (arith, l.toggle, r.end, r.segment, r.toggle)

process_incoming_busy :
    (s : Server) (m : Message)
    → s.state ≡ State.download_segment_req
    → (raw m 0 == 0x80) ≡ false
    → process_incoming s m ≡ rx_download_segment s m
unfolding process_incoming is_abort received
process_incoming_busy s m e no_abort =
    rw (no_abort, begun_busy_download s m e) (ap (λ state. received m state s) e)

process_incoming_segment :
    (s : Server) (v : Variable) (sub : ℕ) (b last : Bool) (bytes chunk : List ℕ) (m : Message)
    → Loading s v sub b bytes
    → Reads (raw m 0) (length chunk) b last
    → take (length chunk) (drop 1 m) ≡ chunk
    → length bytes + length chunk ≤ length v.value
    → process_incoming s m ≡ (
        (if last
          then write_object_dictionary 0 0 (added s bytes chunk last)
          else ok (added s bytes chunk last))
        >>= λ s'. ok (at_state s' State.download_segment_rsp))
unfolding segment_count
process_incoming_segment s v sub b last bytes chunk m l r taken fits =
    rw
      (
        process_incoming_busy s m l.state r.no_abort,
        rx_download_segment_lem s v sub b last bytes (length chunk) m l r,
      )
      (take_segment_lem s v sub b last bytes chunk m l r.count taken fits)

flips : (b : Bool) (toggle : ℕ) → toggle ≡ toggle_bit b → bit_xor toggle 0x10 ≡ toggle_bit (not b)
flips false toggle e = rw e refl
flips true toggle e = rw e refl

-- The same object of the same dictionary.
pub record SameObject (s t : Server) : Type 0 where
  pub od : t.od ≡ s.od
  pub index : t.index ≡ s.index
  pub place : t.place ≡ s.place

-- A segment of seven bytes that is not the last.
pub serve_middle :
    (s : Server) (v : Variable) (sub : ℕ) (b : Bool) (bytes chunk : List ℕ)
    → Loading s v sub b bytes
    → length chunk ≡ 7
    → length bytes + 7 ≤ length v.value
    → Ends
        (λ t. Loading t v sub (not b) (bytes ++ chunk) × SameObject s t)
        (serve s (toggle_bit b ∷ chunk))
unfolding serve process_outgoing outgoing responded tx_download_segment send
serve_middle s v sub b bytes chunk l seven fits =
    rw
      (process_incoming_segment s v sub b false bytes chunk (toggle_bit b ∷ chunk) l
        (rw seven (middle-Reads b)) (take_all (length chunk) chunk (omega arith))
        (omega (arith, seven, fits)))
      (
        record {
          state = refl;
          streamer = l.streamer;
          plain = l.plain;
          toggle = flips b s.toggle l.toggle;
          unread = refl;
          front = l.front;
          transferred = sym (length-append bytes chunk);
          indicated = l.indicated;
          room = l.room;
        },
        record { od = refl; index = refl; place = refl },
      )

-- What the last segment leaves.
pub record Loaded (s : Server) (bytes : List ℕ) (t : Server) : Type 0 where
  pub idle : t.state ≡ State.idle
  pub od : t.od ≡ stored s.od s.index s.place bytes

-- The last segment, of one to seven bytes.
pub serve_last :
    (s : Server) (v : Variable) (sub : ℕ) (b : Bool) (bytes chunk : List ℕ)
    → Loading s v sub b bytes
    → (1 ≤ length chunk) × (length chunk ≤ 7)
    → length bytes + length chunk ≡ length v.value
    → Ends (Loaded s (bytes ++ chunk)) (serve s (last_header b (length chunk) ∷ padded 7 chunk))
unfolding serve process_outgoing outgoing responded tx_download_segment send after_write
    opened_stream
serve_last s v sub b bytes chunk l size whole =
    rw
      (
        process_incoming_segment s v sub b true bytes chunk
            (last_header b (length chunk) ∷ padded 7 chunk) l (last-Reads b (length chunk) size)
            (take-padded chunk (omega (arith, size))) (omega (arith, whole)),
        write_object_dictionary_lem (added s bytes chunk true) v sub (bytes ++ chunk) l.streamer
            l.plain l.indicated refl refl (sym (length-append bytes chunk))
            (length-append bytes chunk ∙ whole)
            (omega (arith, length-append bytes chunk, whole, l.room, size)),
      )
      (record { idle = refl; od = refl })
