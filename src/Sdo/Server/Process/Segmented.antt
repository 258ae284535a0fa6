-- ===== src/Sdo/Server/Process/Segmented.antt =====
-- pkg/sdo/download_segmented.go: a download in segments, from its request to its last segment.
use gocanopen.Base.{
  ℕ, ◌+◌, ◌<◌, ◌≤◌, ◌≡◌, refl, ◌∙◌, sym, inr, Bool, false, not, List, [], ◌∷◌, ◌++◌, append_assoc,
  length, length-append, arith, bytes16, bytes32,
}
use gocanopen.Od.Errors.{attribute_str}
use gocanopen.Od.Stream.{has_attribute}
use gocanopen.Od.Entry.{Entry, Variable, plain_streamer, opened_stream}
use gocanopen.Sdo.Buffer.{reset}
use gocanopen.Sdo.Message.{
  State, Message, is_abort, is_expedited, is_size_indicated, size_indicated,
}
use gocanopen.Sdo.Server.{Server, Run, ok, aborts, panics, spinning, ◌>>=◌, at_state, send}
use gocanopen.Od.Lookup.{stored}
use gocanopen.Sdo.Server.Download.{
  rx_download_initiate, rx_download_segmented, fits_variable, tx_download_initiate,
}
use gocanopen.Sdo.Server.Upload.{padded}
use gocanopen.Sdo.Server.Process.{
  serve, started, received, process_incoming, process_outgoing, outgoing, responded,
}
use gocanopen.Sdo.Server.Process.Offers.{Offers, addressed, begun_idle}
use gocanopen.Sdo.Server.Process.ExpeditedDownload.{update_streamer_lem}
use gocanopen.Sdo.Server.Process.ExpeditedUpload.{Ends, Ends-weaker}
use gocanopen.Sdo.Server.Process.Header.{toggle_bit, last_header}
use gocanopen.Sdo.Server.Process.Segment.{
  data_length_lem, Loading, Loaded, SameObject, serve_middle, serve_last,
}

-- Messages one after the other.
unfoldable pub serve_all : Server → List Message → Run
serve_all s [] = ok s
serve_all s (m ∷ ms) = serve s m >>= λ s'. serve_all s' ms

-- The messages of the segments: full ones, then the last, with alternating toggle bits.
abbrev pub segments : Bool → List (List ℕ) → List ℕ → List Message
segments b [] last = (last_header b (length last) ∷ padded 7 last) ∷ []
segments b (chunk ∷ chunks) last = (toggle_bit b ∷ chunk) ∷ segments (not b) chunks last

-- The bytes of all segments.
abbrev pub joined : List (List ℕ) → List ℕ → List ℕ
joined [] last = last
joined (chunk ∷ chunks) last = chunk ++ joined chunks last

abbrev pub AreFull : List (List ℕ) → Type 0
AreFull [] = Unit
AreFull (chunk ∷ chunks) = (length chunk ≡ 7) × AreFull chunks

bind-Ends :
    (P Q : Server → Type 0) (r : Run) (f : Server → Run)
    → Ends P r
    → ((s : Server) → P s → Ends Q (f s))
    → Ends Q (r >>= f)
bind-Ends P Q (ok s) f h next = next s h
bind-Ends P Q (aborts s code) f h next = elim h [ ]
bind-Ends P Q panics f h next = h
bind-Ends P Q spinning f h next = h

serve_all-segments :
    (s : Server) (v : Variable) (sub : ℕ) (b : Bool) (bytes : List ℕ) (chunks : List (List ℕ))
    (last : List ℕ)
    → Loading s v sub b bytes
    → AreFull chunks
    → (1 ≤ length last) × (length last ≤ 7)
    → length bytes + length (joined chunks last) ≡ length v.value
    → Ends (Loaded s (bytes ++ joined chunks last)) (serve_all s (segments b chunks last))
unfolding serve_all
serve_all-segments s v sub b bytes [] last l full size whole =
    bind-Ends (Loaded s (bytes ++ last)) (Loaded s (bytes ++ last))
      (serve s (last_header b (length last) ∷ padded 7 last)) ok
      (serve_last s v sub b bytes last l size whole) (λ t h. h)
serve_all-segments s v sub b bytes (chunk ∷ chunks) last l (seven, full) size whole =
    bind-Ends (λ t. Loading t v sub (not b) (bytes ++ chunk) × SameObject s t)
      (Loaded s (bytes ++ (chunk ++ joined chunks last))) (serve s (toggle_bit b ∷ chunk))
      (λ t. serve_all t (segments (not b) chunks last))
      (serve_middle s v sub b bytes chunk l seven
        (omega (arith, whole, seven, length-append chunk (joined chunks last))))
      (λ t (l', same).
        Ends-weaker (Loaded t ((bytes ++ chunk) ++ joined chunks last))
          (Loaded s (bytes ++ (chunk ++ joined chunks last)))
          (serve_all t (segments (not b) chunks last))
          (serve_all-segments t v sub (not b) (bytes ++ chunk) chunks last l' full size (
            omega
              (arith, whole, length-append bytes chunk, length-append chunk (joined chunks last))))
          (λ u h. record {
            idle = h.idle;
            od =
                h.od
                ∙ rw
                    (same.od, same.index, same.place, append_assoc bytes chunk (joined chunks last))
                    refl;
          }))

-- The request of a download of `n` bytes in segments.
abbrev pub segmented_request : (index sub n : ℕ) → Message
segmented_request index sub n = 0x21 ∷ bytes16 index ++ (sub ∷ bytes32 n)

started-segmented_request :
    (s : Server) (index sub n : ℕ)
    → started s (segmented_request index sub n) ≡ ok (at_state s State.download_initiate_req)
unfolding started
started-segmented_request s index sub n = refl

rx_download_initiate-segmented_request :
    (s : Server) (v : Variable) (index sub n : ℕ)
    → s.streamer ≡ plain_streamer v sub
    → length v.value ≡ n
    → n < 65536
    → rx_download_initiate s (segmented_request index sub n)
      ≡ ok (record s { size_indicated = n; state = State.download_initiate_rsp; finished = false })
unfolding rx_download_initiate rx_download_segmented is_expedited is_size_indicated size_indicated
    fits_variable
rx_download_initiate-segmented_request s v index sub n e same small =
    ground (arith, same, small, data_length_lem s v sub e (omega (arith, same, small)))

-- After its request, the server waits for the first segment.
serve-segmented_request :
    (s : Server) (index sub : ℕ) (e : Entry) (i : ℕ) (v : Variable) (n : ℕ)
    → Offers s index sub e i v
    → has_attribute (opened_stream v sub) attribute_str ≡ false
    → length v.value ≡ n
    → (n + 9 ≤ s.buf.cap) × (n < 65536)
    → Ends
        (λ t. Loading t v sub false [] × SameObject (addressed s index sub i v State.idle) t)
        (serve s (segmented_request index sub n))
unfolding serve process_incoming received is_abort process_outgoing outgoing responded
    tx_download_initiate send reset started
serve-segmented_request s index sub e i v n o plain same room =
    rw
      (
        begun_idle s (segmented_request index sub n) o.idle,
        update_streamer_lem s index sub e i v 0x21 (bytes32 n) o,
        rx_download_initiate-segmented_request
            (addressed s index sub i v State.download_initiate_req) v index sub n refl same room.1,
      )
      (
        record {
          state = refl;
          streamer = refl;
          plain = plain;
          toggle = refl;
          unread = refl;
          front = refl;
          transferred = refl;
          indicated = inr (sym same);
          room = omega (arith, same, room);
        },
        record { od = refl; index = refl; place = refl },
      )

-- When an idle server, whose intermediate buffer has four bytes or more, offers a readable and
-- writable variable of fewer than 65536 bytes that is no string, whose entry has no extension and
-- which fits the buffer of the transfer with nine bytes to spare, a request that indicates the size of
-- the variable, then segments of seven bytes and a last one of one to seven, with alternating toggle
-- bits and that size together, leave the server idle and the joined bytes in its dictionary.
pub download-joined :
    (s : Server) (index sub : ℕ) (e : Entry) (i : ℕ) (v : Variable) (chunks : List (List ℕ))
    (last : List ℕ)
    → Offers s index sub e i v
    → has_attribute (opened_stream v sub) attribute_str ≡ false
    → AreFull chunks
    → (1 ≤ length last) × (length last ≤ 7)
    → length (joined chunks last) ≡ length v.value
    → (length v.value + 9 ≤ s.buf.cap) × (length v.value < 65536)
    → Ends
        (λ t. (t.state ≡ State.idle) × (t.od ≡ stored s.od index i (joined chunks last)))
        (serve_all s (segmented_request index sub (length v.value) ∷ segments false chunks last))
unfolding serve_all
download-joined s index sub e i v chunks last o plain full size whole room =
    bind-Ends _ _ (serve s (segmented_request index sub (length v.value)))
      (λ t. serve_all t (segments false chunks last))
      (serve-segmented_request s index sub e i v (length v.value) o plain refl room)
      (λ t (l, same).
        Ends-weaker (Loaded t (joined chunks last)) _ (serve_all t (segments false chunks last))
          (serve_all-segments t v sub false [] chunks last l full size (omega (arith, whole)))
          (λ u h. (h.idle, h.od ∙ rw (same.od, same.index, same.place) refl)))
