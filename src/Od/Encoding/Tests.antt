-- ===== src/Od/Encoding/Tests.antt =====
-- Concrete runs of pkg/od/variable.go, and the theorem at concrete inputs.
use gocanopen.Base.{arith, ◌≡◌, refl, true, false, [], ◌∷◌, inl, inr, Bool}
use gocanopen.Base.Int.{pos, negsuc}
use gocanopen.Od.Errors.{data_short}
use gocanopen.Od.Encoding.{
  int8, int64, integer8, unsigned16, recoded, decode_to_type, visible_string, AccessType, rw, ro,
  const, wo, unknown, encode_attribute, decode_attribute,
}
use gocanopen.Od.Encoding.Decoded.{recoded-type_of}

-- -2 is encoded as 0xfe, and decoded as 254.
recoded-minus_two : recoded (λ n. n) integer8 (int8 (negsuc 1)) ≡ inr (int64 (pos 254))
unfolding recoded
recoded-minus_two = refl

-- A byte is too short for an UNSIGNED16.
decode_to_type-short : decode_to_type (λ n. n) (7 ∷ []) unsigned16 ≡ inl data_short
unfolding decode_to_type
decode_to_type-short = refl

-- Every access type is encoded so that it is decoded as "rw".
decode_attribute-encode_attribute :
    (access : AccessType) (pdo_mapping : Bool)
    → decode_attribute (encode_attribute access pdo_mapping visible_string) ≡ rw
unfolding encode_attribute decode_attribute
decode_attribute-encode_attribute rw true = refl
decode_attribute-encode_attribute rw false = refl
decode_attribute-encode_attribute ro true = refl
decode_attribute-encode_attribute ro false = refl
decode_attribute-encode_attribute const true = refl
decode_attribute-encode_attribute const false = refl
decode_attribute-encode_attribute wo true = refl
decode_attribute-encode_attribute wo false = refl
decode_attribute-encode_attribute unknown true = refl
decode_attribute-encode_attribute unknown false = refl

recoded-type_of_example : recoded (λ n. n) integer8 (int8 (negsuc 1)) ≡ inr (int64 (pos 254))
recoded-type_of_example = recoded-type_of (λ n. n) (int8 (negsuc 1)) (omega arith)
