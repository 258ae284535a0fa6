-- ===== src/Od/Encoding/Decoded.antt =====
-- pkg/od/variable.go: what `DecodeToType` makes of the bytes of `EncodeFromGeneric`.
use gocanopen.Base.{
  inl, ℕ, ◌+◌, ◌*◌, ◌/◌, ◌%◌, ◌<◌, ◌≡◌, refl, ap, ◌∙◌, List, ◌++◌, ◌⊎◌, ◌-◌, inr, arith, le16, le32,
  bytes16, bytes32, le32-bytes32, le16-bytes16,
}
use mathlib.Core.Path.{ap₂}
use native.Mathlib.Nat.{mod-eq_of_lt}
use gocanopen.Od.Entry.{domain}
use gocanopen.Base.Int.{ℤ, pos, negsuc}
use gocanopen.Od.Errors.{Odr, type_mismatch}
use gocanopen.Od.Encoding.{
  Any, uint8, int8, uint16, int16, uint32, int32, uint64, int64, string, float32, float64, bytes,
  other, to_unsigned, to_signed, bytes64, le64, encode_from_generic, check_size, cast_to_type,
  decode_to_type, recoded, octet_string, integer8, integer16, integer32, unsigned8, unsigned16,
  unsigned32, real32, visible_string, real64, integer64, unsigned64,
}

-- A signed integer with `m` values.
abbrev pub InRange : ℕ → ℤ → Type 0
InRange m (pos n) = n + n < m
InRange m (negsuc n) = n + n < m

-- The data type that the dictionary has for a Go value.
abbrev pub type_of : Any → ℕ
type_of (uint8 v) = unsigned8
type_of (int8 v) = integer8
type_of (uint16 v) = unsigned16
type_of (int16 v) = integer16
type_of (uint32 v) = unsigned32
type_of (int32 v) = integer32
type_of (uint64 v) = unsigned64
type_of (int64 v) = integer64
type_of (string v) = visible_string
type_of (float32 v) = real32
type_of (float64 v) = real64
type_of (bytes v) = octet_string
type_of other = domain

-- The value lies in the range of its Go type.
abbrev pub IsTyped : Any → Type 0
IsTyped (uint8 v) = v < 256
IsTyped (int8 v) = InRange 256 v
IsTyped (uint16 v) = v < 65536
IsTyped (int16 v) = InRange 65536 v
IsTyped (uint32 v) = v < 4294967296
IsTyped (int32 v) = InRange 4294967296 v
IsTyped (uint64 v) = v < 18446744073709551616
IsTyped (int64 v) = InRange 18446744073709551616 v
IsTyped (string v) = Unit
IsTyped (float32 v) = v < 4294967296
IsTyped (float64 v) = v < 18446744073709551616
IsTyped (bytes v) = Unit
IsTyped other = Unit

-- The value in the widest type of its kind, but a negative int8 with 256 added, and a slice of bytes
-- as a string; a type of no kind is an error.
abbrev pub widened : (widen : ℕ → ℕ) → Any → Odr ⊎ Any
widened widen (uint8 v) = inr (uint64 v)
widened widen (int8 (pos n)) = inr (int64 (pos n))
widened widen (int8 (negsuc n)) = inr (int64 (pos (255 - n)))
widened widen (uint16 v) = inr (uint64 v)
widened widen (int16 v) = inr (int64 v)
widened widen (uint32 v) = inr (uint64 v)
widened widen (int32 v) = inr (int64 v)
widened widen (uint64 v) = inr (uint64 v)
widened widen (int64 v) = inr (int64 v)
widened widen (string v) = inr (string v)
widened widen (float32 v) = inr (float64 (widen v))
widened widen (float64 v) = inr (float64 v)
widened widen (bytes v) = inr (string v)
widened widen other = inl type_mismatch

to_signed-to_unsigned :
    (m : ℕ) (v : ℤ) → m % 2 ≡ 0 → InRange m v → to_signed m (to_unsigned m v) ≡ v
unfolding to_signed to_unsigned
to_signed-to_unsigned m (pos n) even h =
    rw (mod-eq_of_lt {n = n} {m = m} (omega arith)) (ground arith)
to_signed-to_unsigned m (negsuc n) even h =
    rw (mod-eq_of_lt {n = n} {m = m} (omega arith)) (ground arith)

to_unsigned-lt : (m : ℕ) (v : ℤ) → InRange m v → to_unsigned m v < m
unfolding to_unsigned
to_unsigned-lt m (pos n) h = rw (mod-eq_of_lt {n = n} {m = m} (omega arith)) (omega arith)
to_unsigned-lt m (negsuc n) h = omega arith

-- A signed integer comes back if the bytes of the unsigned one do.
module _ (m : ℕ) (even : m % 2 ≡ 0) (code : ℕ → List ℕ) (value : List ℕ → ℕ)
    (value-code : (n : ℕ) → n < m → value (code n) ≡ n) where
  signed_back : (v : ℤ) → InRange m v → to_signed m (value (code (to_unsigned m v))) ≡ v
  signed_back v h =
      ap (to_signed m) (value-code (to_unsigned m v) (to_unsigned-lt m v h))
      ∙ to_signed-to_unsigned m v even h

le32-bytes64_low : (a b : ℕ) → a < 4294967296 → le32 (bytes32 a ++ bytes32 b) 0 ≡ a
le32-bytes64_low a b h = omega arith

le32-bytes64_high : (a b : ℕ) → b < 4294967296 → le32 (bytes32 a ++ bytes32 b) 4 ≡ b
le32-bytes64_high a b h = omega arith

le64-bytes64 : (v : ℕ) → v < 18446744073709551616 → le64 (bytes64 v) ≡ v
unfolding le64 bytes64
le64-bytes64 v h =
    ap₂ (λ a b. a + 4294967296 * b)
      (le32-bytes64_low (v % 4294967296) (v / 4294967296) (omega arith))
      (le32-bytes64_high (v % 4294967296) (v / 4294967296) (omega arith))
    ∙ omega arith

-- Any value in the range of its Go type is encoded, and decoded with the data type of that Go type to
-- the value in the widest type of its kind: an unsigned, signed or floating point number of 64 bits, or
-- a string for a string or a slice of bytes. A negative int8 alone comes back with 256 added, and a
-- value of no such type is refused with the error of a type mismatch.
pub recoded-type_of :
    (widen : ℕ → ℕ) (v : Any) → IsTyped v → recoded widen (type_of v) v ≡ widened widen v
unfolding recoded decode_to_type encode_from_generic check_size cast_to_type
recoded-type_of widen (uint8 v) h = refl
recoded-type_of widen (int8 (pos n)) h =
    ap (λ k. inr (int64 (pos k))) (mod-eq_of_lt {n = n} {m = 256} (omega arith))
recoded-type_of widen (int8 (negsuc n)) h =
    ap (λ k. inr (int64 (pos (255 - k)))) (mod-eq_of_lt {n = n} {m = 256} (omega arith))
recoded-type_of widen (uint16 v) h = ap (λ k. inr (uint64 k)) (le16-bytes16 v h)
recoded-type_of widen (int16 v) h =
    ap (λ z. inr (int64 z)) (signed_back 65536 refl bytes16 (λ bs. le16 bs 0) le16-bytes16 v h)
recoded-type_of widen (uint32 v) h = ap (λ k. inr (uint64 k)) (le32-bytes32 v h)
recoded-type_of widen (int32 v) h =
    ap (λ z. inr (int64 z)) (signed_back 4294967296 refl bytes32 (λ bs. le32 bs 0) le32-bytes32 v h)
recoded-type_of widen (uint64 v) h = ap (λ k. inr (uint64 k)) (le64-bytes64 v h)
recoded-type_of widen (int64 v) h =
    ap (λ z. inr (int64 z)) (signed_back 18446744073709551616 refl bytes64 le64 le64-bytes64 v h)
recoded-type_of widen (string v) h = refl
recoded-type_of widen (float32 v) h = ap (λ k. inr (float64 (widen k))) (le32-bytes32 v h)
recoded-type_of widen (float64 v) h = ap (λ k. inr (float64 k)) (le64-bytes64 v h)
recoded-type_of widen (bytes v) h = refl
recoded-type_of widen other h = refl
