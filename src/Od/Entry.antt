-- ===== src/Od/Entry.antt =====
-- pkg/od: variables and lists of variables (variable.go, variable_list.go), NewStreamer
-- (streamer.go) and the typed access of an entry (entry.go). A slice that the streamer shares with
-- the variable is written back to the entry.
pub mod Access
mod Tests
use gocanopen.Base.{
  ℕ, zero, suc, ◌+◌, ◌-◌, ◌%◌, Bool, true, false, not, ◌||◌, ◌&&◌, Option, none, some, List, [],
  ◌∷◌, ◌++◌, length, get_elem?, set, ltb, leb, ◌==◌, if◌then◌else◌, u8, u32, replicate, le16, le32,
  bytes16, bytes32,
}
use gocanopen.Od.Errors.{
  Odr, idx_not_exist, sub_not_exist, type_mismatch, Outcome, done, panicked, ◌>>=◌,
}
use gocanopen.Od.Stream.{
  Stream, Streamer, StreamReader, StreamWriter, ReadResult, WriteResult, read_entry_default,
  write_entry_default, read_entry_disabled, write_entry_disabled, read, write,
}

-- `Variable`, as far as transfers use it; `spare` is what the array of `value` has behind it.
pub record Variable : Type 0 where
  pub value : List ℕ
  pub spare : List ℕ
  pub data_type : ℕ
  pub attribute : ℕ
  pub sub_index : ℕ

abbrev pub domain : ℕ
domain = 0x0f

-- `entry.object`: a variable, an ARRAY or a RECORD.
pub data Object : Type 0 where
  nil : Object
  variable : Variable → Object
  array : List Variable → Object
  rec : List Variable → Object

-- `extension`: the reader and the writer, `none` for nil.
pub record Extension : Type 0 where
  pub reader : Option StreamReader
  pub writer : Option StreamWriter

pub record Entry : Type 0 where
  pub index : ℕ
  pub object : Object
  pub extension : Option Extension

-- `DataLength`
unfoldable pub data_length : Variable → ℕ
data_length v = u32 (length v.value)

-- The place of the first variable of a RECORD with this subindex.
pub find_sub : List Variable → ℕ → ℕ → Option ℕ
find_sub [] sub i = none
find_sub (v ∷ vs) sub i = if v.sub_index == sub then some i else find_sub vs sub (i + 1)

-- `GetSubObject`: the place of the variable in the list. An ARRAY compares with its length as a
-- byte, and a RECORD looks for the subindex.
pub get_sub_object : Object → ℕ → Option ℕ
unfolding find_sub
get_sub_object nil sub = none
get_sub_object (variable v) sub = none
get_sub_object (array vs) sub = if leb (u8 (length vs)) sub then none else some sub
get_sub_object (rec vs) sub = find_sub vs sub 0

-- The variable that a subindex names, by its place, or the error of NewStreamer.
pub data Found : Type 0 where
  missing : Odr → Found
  at : ℕ → Variable → Found

pub at_place : List Variable → Option ℕ → Found
at_place vs none = missing sub_not_exist
at_place vs (some i) = elim (get_elem? vs i) [ none ↦ missing sub_not_exist | some v ↦ at i v ]

unfoldable pub find_variable : Object → ℕ → Found
unfolding get_sub_object at_place
find_variable nil sub = missing idx_not_exist
find_variable (variable v) sub = if ltb 0 sub then missing sub_not_exist else at 0 v
find_variable (array vs) sub = at_place vs (get_sub_object (array vs) sub)
find_variable (rec vs) sub = at_place vs (get_sub_object (rec vs) sub)

or_disabled_reader : Option StreamReader → StreamReader
or_disabled_reader none = read_entry_disabled
or_disabled_reader (some r) = r

or_disabled_writer : Option StreamWriter → StreamWriter
or_disabled_writer none = write_entry_disabled
or_disabled_writer (some w) = w

-- The stream over a variable, at its start.
unfoldable pub opened_stream : Variable → ℕ → Stream
unfolding data_length
opened_stream v sub = record {
  bytes = v.value;
  spare = v.spare;
  allocated = true;
  data_offset = 0;
  data_length = data_length v;
  attribute = v.attribute;
  subindex = sub;
}

unfoldable pub plain_streamer : Variable → ℕ → Streamer
plain_streamer v sub = record {
  stream = opened_stream v sub;
  reader = some read_entry_default;
  writer = some write_entry_default;
}

-- The streamer over a variable, with the reader and writer that the extension gives.
pub streamer_over : Variable → ℕ → Option Extension → Bool → Streamer
unfolding or_disabled_reader or_disabled_writer plain_streamer
streamer_over v sub none origin = plain_streamer v sub
streamer_over v sub (some e) true = plain_streamer v sub
streamer_over v sub (some e) false = record {
  stream = opened_stream v sub;
  reader = some (or_disabled_reader e.reader);
  writer = some (or_disabled_writer e.writer);
}

-- `Streamer{}`
abbrev pub no_streamer : Streamer
no_streamer = record {
  stream = record {
    bytes = [];
    spare = [];
    allocated = false;
    data_offset = 0;
    data_length = 0;
    attribute = 0;
    subindex = 0;
  };
  reader = none;
  writer = none;
}

-- What NewStreamer returns: an error, or a streamer over the variable at a place of the object.
-- `disabled` is the empty streamer of a DOMAIN entry that has no extension.
pub data Opened : Type 0 where
  failed : Odr → Opened
  disabled : Opened
  open_at : ℕ → Streamer → Opened

unfoldable pub is_domain : Object → Bool
is_domain (variable v) = v.data_type == domain
is_domain _ = false

opened_over : Entry → ℕ → Bool → Found → Opened
unfolding streamer_over
opened_over e sub origin (missing err) = failed err
opened_over e sub origin (at i v) = open_at i (streamer_over v sub e.extension origin)

pub without_extension : Option Extension → Bool
without_extension none = true
without_extension (some e) = false

-- `NewStreamer`
unfoldable pub new_streamer : Entry → ℕ → Bool → Opened
unfolding is_domain opened_over find_variable without_extension
new_streamer e sub origin =
    if is_domain e.object && without_extension e.extension && (sub == 0)
    then disabled
    else opened_over e sub origin (find_variable e.object sub)

-- The entry after bytes of the variable at a place were changed through its slice.
unfoldable pub replace_value : Variable → List ℕ → Variable
replace_value v bytes = record v { value = bytes }

unfoldable pub set_value : List Variable → ℕ → List ℕ → List Variable
unfolding replace_value
set_value [] i bytes = []
set_value (v ∷ vs) zero bytes = replace_value v bytes ∷ vs
set_value (v ∷ vs) (suc i) bytes = v ∷ set_value vs i bytes

unfoldable pub object_with : Object → ℕ → List ℕ → Object
unfolding set_value
object_with nil i bytes = nil
object_with (variable v) i bytes = variable (replace_value v bytes)
object_with (array vs) i bytes = array (set_value vs i bytes)
object_with (rec vs) i bytes = rec (set_value vs i bytes)

unfoldable pub shared_write : Entry → ℕ → List ℕ → Entry
unfolding object_with
shared_write e i bytes = record e { object = object_with e.object i bytes }

read_opened : ℕ → Opened → Outcome (List ℕ × Option Odr)
unfolding read
read_opened n (failed err) = done (replicate n 0, some err)
read_opened n disabled = if n == 0 then panicked else done (replicate n 0, some type_mismatch)
read_opened n (open_at i s) =
    if s.stream.data_length == n
    then (read s (replicate n 0) >>= λ (r : ReadResult). done (r.filled, r.err))
    else done (replicate n 0, some type_mismatch)

-- `ReadExactly` of `n` bytes: the bytes read and the error.
unfoldable pub read_exactly : Entry → ℕ → ℕ → Bool → Outcome (List ℕ × Option Odr)
unfolding new_streamer read_opened
read_exactly e sub n origin = read_opened n (new_streamer e sub origin)

write_opened : Entry → List ℕ → Opened → Outcome (Entry × Option Odr)
unfolding write shared_write
write_opened e bytes (failed err) = done (e, some err)
write_opened e bytes disabled = if length bytes == 0 then panicked else done (e, some type_mismatch)
write_opened e bytes (open_at i s) =
    if s.stream.data_length == length bytes
    then (write s bytes >>= λ (r : WriteResult). done (shared_write e i r.stream.bytes, r.err))
    else done (e, some type_mismatch)

-- `WriteExactly`: the entry afterwards and the error.
unfoldable pub write_exactly : Entry → ℕ → List ℕ → Bool → Outcome (Entry × Option Odr)
unfolding new_streamer write_opened
write_exactly e sub bytes origin = write_opened e bytes (new_streamer e sub origin)

-- The number and the error of `Uint8`, `Uint16` and `Uint32`: 0 beside an error.
decoded : (List ℕ → ℕ) → List ℕ × Option Odr → ℕ × Option Odr
decoded value (bytes, none) = (value bytes, none)
decoded value (bytes, some err) = (0, some err)

first_byte : List ℕ → ℕ
first_byte [] = 0
first_byte (b ∷ bs) = b

unfoldable pub uint8 : Entry → ℕ → Outcome (ℕ × Option Odr)
unfolding decoded first_byte
uint8 e sub = read_exactly e sub 1 true >>= λ r. done (decoded first_byte r)

unfoldable pub uint16 : Entry → ℕ → Outcome (ℕ × Option Odr)
unfolding decoded
uint16 e sub = read_exactly e sub 2 true >>= λ r. done (decoded (λ bs. le16 bs 0) r)

unfoldable pub uint32 : Entry → ℕ → Outcome (ℕ × Option Odr)
unfolding decoded
uint32 e sub = read_exactly e sub 4 true >>= λ r. done (decoded (λ bs. le32 bs 0) r)

-- `PutUint8`, `PutUint16` and `PutUint32`.
unfoldable pub put_uint8 : Entry → ℕ → ℕ → Bool → Outcome (Entry × Option Odr)
put_uint8 e sub value origin = write_exactly e sub (value ∷ []) origin

unfoldable pub put_uint16 : Entry → ℕ → ℕ → Bool → Outcome (Entry × Option Odr)
put_uint16 e sub value origin = write_exactly e sub (bytes16 value) origin

unfoldable pub put_uint32 : Entry → ℕ → ℕ → Bool → Outcome (Entry × Option Odr)
put_uint32 e sub value origin = write_exactly e sub (bytes32 value) origin
