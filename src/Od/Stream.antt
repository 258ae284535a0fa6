-- ===== src/Od/Stream.antt =====
-- pkg/od/streamer.go: the stream over the bytes of an entry, with its default reader and writer.
pub mod Whole
pub mod Chunks
use gocanopen.Base.{
  ℕ, ◌+◌, ◌-◌, Bool, true, false, not, ◌||◌, Option, none, some, List, [], ◌∷◌, ◌++◌, length, take,
  drop, ltb, leb, if◌then◌else◌, u16, u32, has_bits,
}
use gocanopen.Od.Errors.{
  Odr, partial, dev_incompat, data_long, unsupp_access, Outcome, done, panicked,
}

-- `Stream`. `bytes` is the slice `Data`, `spare` what its array has behind it, and `allocated` says
-- that neither `Data` nor the mutex is nil.
pub record Stream : Type 0 where
  pub bytes : List ℕ
  pub spare : List ℕ
  pub allocated : Bool
  pub data_offset : ℕ
  pub data_length : ℕ
  pub attribute : ℕ
  pub subindex : ℕ

-- What a `StreamReader` leaves: the stream, the caller's slice, the count and the error.
pub record ReadResult : Type 0 where
  pub stream : Stream
  pub filled : List ℕ
  pub count : ℕ
  pub err : Option Odr

pub record WriteResult : Type 0 where
  pub stream : Stream
  pub count : ℕ
  pub err : Option Odr

abbrev pub StreamReader : Type 0
StreamReader = Stream → List ℕ → Outcome ReadResult

abbrev pub StreamWriter : Type 0
StreamWriter = Stream → List ℕ → Outcome WriteResult

-- `HasAttribute`
unfoldable pub has_attribute : Stream → ℕ → Bool
has_attribute s attribute = has_bits s.attribute attribute

-- `copy(data, src)`
unfoldable pub copied : List ℕ → List ℕ → List ℕ
copied src data' = take (length data') src ++ drop (length src) data'

-- The end of `ReadEntryDefault`, with `n` bytes to copy from the offset. A slice beyond the array
-- panics; one beyond `Data` does not.
unfoldable pub copy_out : Stream → List ℕ → ℕ → Option Odr → Outcome ReadResult
copy_out s data' n err =
    let from = s.data_offset in
    let to = u32 (from + n) in
    if ltb (length (s.bytes ++ s.spare)) to || ltb to from
    then panicked
    else done (record {
      stream = s;
      filled = copied (take (to - from) (drop from (s.bytes ++ s.spare))) data';
      count = u16 n;
      err = err;
    })

-- `ReadEntryDefault`
unfoldable pub read_entry_default : StreamReader
read_entry_default s data' =
    let failed = done (record { stream = s; filled = data'; count = 0; err = some dev_incompat }) in
    let left = s.data_length - s.data_offset in
    let size = length data' in
    if not s.allocated
    then failed
    else if ltb 0 s.data_offset || ltb size s.data_length
    then if leb s.data_length s.data_offset
      then failed
      else if ltb size left
      then copy_out (record s { data_offset = u32 (s.data_offset + size) }) data' size
          (some partial)
      else copy_out (record s { data_offset = 0 }) data' left none
    else copy_out s data' s.data_length none

-- The end of `WriteEntryDefault`, with `n` bytes to copy to the offset.
unfoldable pub copy_in : Stream → List ℕ → ℕ → Option Odr → Outcome WriteResult
copy_in s data' n err =
    let from = s.data_offset in
    let to = u32 (from + n) in
    if ltb n (length data') || ltb (length s.bytes) to
    then done (record { stream = s; count = 0; err = some data_long })
    else if ltb to from
    then panicked
    else done (record {
      stream = record s { bytes = take from s.bytes ++ (take n data' ++ drop to s.bytes) };
      count = u16 n;
      err = err;
    })

-- `WriteEntryDefault`
unfoldable pub write_entry_default : StreamWriter
write_entry_default s data' =
    let failed = done (record { stream = s; count = 0; err = some dev_incompat }) in
    let left = s.data_length - s.data_offset in
    let size = length data' in
    if not s.allocated
    then failed
    else if ltb 0 s.data_offset || ltb size s.data_length
    then if leb s.data_length s.data_offset
      then failed
      else if ltb size left
      then copy_in (record s { data_offset = u32 (s.data_offset + size) }) data' size (some partial)
      else copy_in (record s { data_offset = 0 }) data' left none
    else copy_in s data' s.data_length none

unfoldable pub read_entry_disabled : StreamReader
read_entry_disabled s data' =
    done (record { stream = s; filled = data'; count = 0; err = some unsupp_access })

unfoldable pub write_entry_disabled : StreamWriter
write_entry_disabled s data' = done (record { stream = s; count = 0; err = some unsupp_access })

-- `Streamer`: a stream with its reader and writer, which are `none` while they are nil.
pub record Streamer : Type 0 where
  pub stream : Stream
  pub reader : Option StreamReader
  pub writer : Option StreamWriter

-- `Read` and `Write`; a call of a nil function panics.
unfoldable pub read : Streamer → List ℕ → Outcome ReadResult
read s data' = elim s.reader [ none ↦ panicked | some r ↦ r s.stream data' ]

unfoldable pub write : Streamer → List ℕ → Outcome WriteResult
write s data' = elim s.writer [ none ↦ panicked | some w ↦ w s.stream data' ]
