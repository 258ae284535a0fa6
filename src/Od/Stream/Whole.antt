-- ===== src/Od/Stream/Whole.antt =====
-- pkg/od/streamer.go: transfers of a whole variable in one call.
use gocanopen.Base.{
  ℕ, ◌+◌, ◌-◌, ◌<◌, ◌≤◌, ◌≡◌, refl, ap, true, none, List, [], ◌∷◌, ◌++◌, length, take, drop,
  length-append, append-nil, take_all, drop_all, arith, u16, u32,
}
use gocanopen.Od.Errors.{done}
use gocanopen.Od.Stream.{
  copied, copy_out, copy_in, Stream, copied, read_entry_default, write_entry_default,
}

-- A stream as NewStreamer opens it over a variable: at its start, with the variable's length.
pub record IsOpened (s : Stream) : Type 0 where
  pub there : s.allocated ≡ true
  pub start : s.data_offset ≡ 0
  pub whole : s.data_length ≡ length s.bytes
  pub small : length s.bytes < 4294967296

take-append_all : (xs ys : List ℕ) → take (length xs) (xs ++ ys) ≡ xs
take-append_all [] ys = refl
take-append_all (x ∷ xs) ys = ap (◌∷◌ x) (take-append_all xs ys)

-- The slice of all bytes of an opened stream.
all_bytes :
    (s : Stream)
    → IsOpened s
    → take
        (u32 (s.data_offset + s.data_length) - s.data_offset)
        (drop s.data_offset (s.bytes ++ s.spare))
      ≡ s.bytes
all_bytes s o =
    let e : u32 (s.data_offset + s.data_length) - s.data_offset ≡ length s.bytes = omega arith in
    rw (e, o.start) (take-append_all s.bytes s.spare)

-- From a stream just opened, a slice that has room for the variable gets all its bytes, in one
-- call and with no error.
pub read_whole :
    (s : Stream) (data' : List ℕ)
    → IsOpened s
    → length s.bytes ≤ length data'
    → read_entry_default s data'
      ≡ done (record {
        stream = s;
        filled = s.bytes ++ drop (length s.bytes) data';
        count = u16 (length s.bytes);
        err = none;
      })
unfolding read_entry_default copy_out copied
read_whole s data' o room =
    ground
      (arith, all_bytes s o, take_all (length data') s.bytes room, length-append s.bytes s.spare)

-- On a stream just opened, writing as many bytes as the variable has replaces them all, in one
-- call and with no error.
pub write_whole :
    (s : Stream) (data' : List ℕ)
    → IsOpened s
    → length data' ≡ length s.bytes
    → write_entry_default s data'
      ≡ done
          (record { stream = record s { bytes = data' }; count = u16 (length data'); err = none })
unfolding write_entry_default copy_in
write_whole s data' o same = ground (
  arith,
  o.start,
  take_all s.data_length data' (omega arith),
  drop_all (u32 (s.data_offset + s.data_length)) s.bytes (omega arith),
  append-nil data',
)
