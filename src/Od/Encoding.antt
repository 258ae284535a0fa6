-- ===== src/Od/Encoding.antt =====
-- pkg/od/variable.go: the encoding of Go values, and the decoding of a value by its data type. A
-- string is the list of its bytes, and a floating point number the number of its IEEE bits, which
-- math.Float32bits and the like read.
pub mod Decoded
mod Tests
use gocanopen.Base.{
  ℕ, zero, suc, ◌+◌, ◌-◌, ◌*◌, ◌/◌, ◌%◌, ◌^◌, Bool, true, false, ◌||◌, ◌&&◌, Option, none, some,
  List, [], ◌∷◌, ◌++◌, ◌⊎◌, inl, inr, length, get_or, ltb, leb, ◌==◌, if◌then◌else◌, u32, le16,
  le32, bytes16, bytes32, bit_and, bit_or,
}
use gocanopen.Base.Int.{ℤ, pos, negsuc}
use gocanopen.Od.Errors.{
  Odr, type_mismatch, data_short, data_long, attribute_sdo_r, attribute_sdo_w, attribute_sdo_rw,
  attribute_str,
}
use gocanopen.Od.Entry.{domain}

abbrev pub boolean : ℕ
boolean = 0x01

abbrev pub integer8 : ℕ
integer8 = 0x02

abbrev pub integer16 : ℕ
integer16 = 0x03

abbrev pub integer32 : ℕ
integer32 = 0x04

abbrev pub unsigned8 : ℕ
unsigned8 = 0x05

abbrev pub unsigned16 : ℕ
unsigned16 = 0x06

abbrev pub unsigned32 : ℕ
unsigned32 = 0x07

abbrev pub real32 : ℕ
real32 = 0x08

abbrev pub visible_string : ℕ
visible_string = 0x09

abbrev pub octet_string : ℕ
octet_string = 0x0a

abbrev pub real64 : ℕ
real64 = 0x11

abbrev pub integer64 : ℕ
integer64 = 0x15

abbrev pub unsigned64 : ℕ
unsigned64 = 0x1b

abbrev pub attribute_trpdo : ℕ
attribute_trpdo = 0x0c

-- A value of type `any`; `other` has none of the types that the code looks for.
pub data Any : Type 0 where
  uint8 : ℕ → Any
  int8 : ℤ → Any
  uint16 : ℕ → Any
  int16 : ℤ → Any
  uint32 : ℕ → Any
  int32 : ℤ → Any
  uint64 : ℕ → Any
  int64 : ℤ → Any
  string : List ℕ → Any
  float32 : ℕ → Any
  float64 : ℕ → Any
  bytes : List ℕ → Any
  other : Any

-- Go's conversion of a signed integer to an unsigned one with `m` values.
unfoldable pub to_unsigned : ℕ → ℤ → ℕ
to_unsigned m (pos n) = n % m
to_unsigned m (negsuc n) = m - 1 - n % m

-- Go's conversion of an unsigned integer to a signed one with `m` values.
unfoldable pub to_signed : ℕ → ℕ → ℤ
to_signed m n = if ltb n (m / 2) then pos n else negsuc (m - 1 - n)

-- binary.LittleEndian.PutUint64 and Uint64.
unfoldable pub bytes64 : ℕ → List ℕ
bytes64 v = bytes32 (v % 4294967296) ++ bytes32 (v / 4294967296)

unfoldable pub le64 : List ℕ → ℕ
le64 bs = le32 bs 0 + 4294967296 * le32 bs 4

-- `EncodeFromGeneric`
unfoldable pub encode_from_generic : Any → Odr ⊎ List ℕ
unfolding bytes64 to_unsigned
encode_from_generic (uint8 v) = inr (v ∷ [])
encode_from_generic (int8 v) = inr (to_unsigned 256 v ∷ [])
encode_from_generic (uint16 v) = inr (bytes16 v)
encode_from_generic (int16 v) = inr (bytes16 (to_unsigned 65536 v))
encode_from_generic (uint32 v) = inr (bytes32 v)
encode_from_generic (int32 v) = inr (bytes32 (to_unsigned 4294967296 v))
encode_from_generic (uint64 v) = inr (bytes64 v)
encode_from_generic (int64 v) = inr (bytes64 (to_unsigned 18446744073709551616 v))
encode_from_generic (string v) = inr v
encode_from_generic (float32 v) = inr (bytes32 v)
encode_from_generic (float64 v) = inr (bytes64 v)
encode_from_generic (bytes v) = inr v
encode_from_generic other = inl type_mismatch

size_fits : ℕ → ℕ → Option Odr
size_fits size n =
    if ltb n size then some data_short else if ltb size n then some data_long else none

-- `CheckSize`
unfoldable pub check_size : ℕ → ℕ → Option Odr
unfolding size_fits
check_size n t =
    if (t == boolean) || (t == unsigned8) || (t == integer8)
    then size_fits 1 n
    else if (t == unsigned16) || (t == integer16)
    then size_fits 2 n
    else if (t == unsigned32) || (t == integer32) || (t == real32)
    then size_fits 4 n
    else if (t == unsigned64) || (t == integer64) || (t == real64)
    then size_fits 8 n
    else none

-- The switch of `DecodeToType`, behind the check of the size: every index is in range there. An
-- INTEGER8 is the byte without a sign. `widen` is the conversion of the bits of a float32 to those of
-- a float64.
unfoldable pub cast_to_type : (widen : ℕ → ℕ) → List ℕ → ℕ → Odr ⊎ Any
unfolding to_signed le64
cast_to_type widen bs t =
    if (t == boolean) || (t == unsigned8)
    then inr (uint64 (get_or bs 0 0))
    else if t == integer8
    then inr (int64 (pos (get_or bs 0 0)))
    else if t == unsigned16
    then inr (uint64 (le16 bs 0))
    else if t == integer16
    then inr (int64 (to_signed 65536 (le16 bs 0)))
    else if t == unsigned32
    then inr (uint64 (le32 bs 0))
    else if t == integer32
    then inr (int64 (to_signed 4294967296 (le32 bs 0)))
    else if t == unsigned64
    then inr (uint64 (le64 bs))
    else if t == integer64
    then inr (int64 (to_signed 18446744073709551616 (le64 bs)))
    else if t == real32
    then inr (float64 (widen (le32 bs 0)))
    else if t == real64
    then inr (float64 (le64 bs))
    else if (t == visible_string) || (t == octet_string)
    then inr (string bs)
    else if t == domain
    then inr (int64 (pos 0))
    else inl type_mismatch

checked_cast : (widen : ℕ → ℕ) → List ℕ → ℕ → Option Odr → Odr ⊎ Any
unfolding cast_to_type
checked_cast widen bs t none = cast_to_type widen bs t
checked_cast widen bs t (some e) = inl e

-- `DecodeToType`
unfoldable pub decode_to_type : (widen : ℕ → ℕ) → List ℕ → ℕ → Odr ⊎ Any
unfolding check_size checked_cast
decode_to_type widen bs t = checked_cast widen bs t (check_size (length bs) t)

decoded_as : (widen : ℕ → ℕ) → ℕ → Odr ⊎ List ℕ → Odr ⊎ Any
unfolding decode_to_type
decoded_as widen t (inl e) = inl e
decoded_as widen t (inr bs) = decode_to_type widen bs t

-- A value through `EncodeFromGeneric`, and its bytes through `DecodeToType`.
unfoldable pub recoded : (widen : ℕ → ℕ) → ℕ → Any → Odr ⊎ Any
unfolding decoded_as encode_from_generic
recoded widen t v = decoded_as widen t (encode_from_generic v)

-- The access types that the code tells apart.
pub data AccessType : Type 0 where
  rw ro const wo unknown : AccessType

-- The switch of `EncodeAttribute`
access_attribute : AccessType → ℕ
access_attribute rw = attribute_sdo_rw
access_attribute ro = attribute_sdo_r
access_attribute const = attribute_sdo_r
access_attribute wo = attribute_sdo_w
access_attribute unknown = attribute_sdo_rw

-- `attribute |= bits` under an `if`
with_bits : Bool → ℕ → ℕ → ℕ
with_bits test bits attribute = if test then bit_or attribute bits else attribute

-- `EncodeAttribute`
unfoldable pub encode_attribute : AccessType → Bool → ℕ → ℕ
unfolding access_attribute with_bits
encode_attribute access pdo_mapping t =
    with_bits ((t == visible_string) || (t == octet_string)) attribute_str
      (with_bits pdo_mapping attribute_trpdo (access_attribute access))

-- `DecodeAttribute`
unfoldable pub decode_attribute : ℕ → AccessType
decode_attribute attribute =
    if ltb 0 (bit_and attribute attribute_sdo_rw)
    then rw
    else if ltb 0 (bit_and attribute attribute_sdo_r)
    then ro
    else if ltb 0 (bit_and attribute attribute_sdo_w)
    then wo
    else rw
