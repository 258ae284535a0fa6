-- ===== src/Pdo/Parameters/Shown.antt =====
-- pkg/pdo/extensions.go: the COB-ID that is shown for the one stored.
use gocanopen.Base.{
  ℕ, ◌*◌, ◌/◌, ◌%◌, ◌≤◌, ◌<◌, ◌≡◌, ◌≢◌, refl, ap, ◌∙◌, sym, Bool, true, ◌&&◌, arith, ◌==◌, bit_and,
  bit_or, bytes32, ◌⊎◌, if◌then◌else◌, ◌+◌, ◌-◌, not, ltb, inl, inr, Bool-cases, false, if_cases,
}
use gocanopen.Base.Bits.{bit_and-ones, bit_and-pow}
use gocanopen.Base.Masks.{or_and, bit_and-shifted, bit_or-disjoint}
use gocanopen.Pdo.{Pdo}
use gocanopen.Pdo.Tpdo.{Tpdo}
use gocanopen.Pdo.Parameters.{
  tpdo_with_id, is_allowed, is_new_id, stored_id, shown_id, is_valid_id, can_id_of,
}

can_id_is : (x : ℕ) → bit_and x 0x7ff ≡ x % 2048
can_id_is x = bit_and-ones 11 x

top_bit : (x : ℕ) → bit_and x 0x80000000 ≡ x / 2147483648 % 2 * 2147483648
top_bit x = bit_and-pow 31 x

middle_bits : (x : ℕ) → bit_and x 0x3ffff800 ≡ 2048 * (x / 2048 % 524288)
middle_bits x = bit_and-shifted 11 x 524287 ∙ ap (λ t. 2048 * t) (bit_and-ones 19 (x / 2048))

pub without_node : (x : ℕ) → bit_and x 0xffffff80 ≡ 128 * (x / 128 % 33554432)
without_node x = bit_and-shifted 7 x 33554431 ∙ ap (λ t. 128 * t) (bit_and-ones 25 (x / 128))

high_half : (x : ℕ) → bit_and x 0xffff0000 ≡ 65536 * (x / 65536 % 65536)
high_half x = bit_and-shifted 16 x 65535 ∙ ap (λ t. 65536 * t) (bit_and-ones 16 (x / 65536))

default_id : (x : ℕ) → bit_and x 0xff80 ≡ 128 * (x / 128 % 512)
default_id x = bit_and-shifted 7 x 511 ∙ ap (λ t. 128 * t) (bit_and-ones 9 (x / 128))

-- The bit of an object that is not valid is there already.
shown_valid :
    (valid : Bool) (cob_id : ℕ)
    → cob_id < 4294967296
    → valid ≡ is_valid_id cob_id
    → (if valid then cob_id else bit_or cob_id 0x80000000) ≡ cob_id
shown_valid valid cob_id small e =
    let both = or_and cob_id 0x80000000 in
    let top = top_bit cob_id in ground (arith, e, both, top, small)

with_node :
    (cob_id d : ℕ)
    → cob_id < 4294967296
    → cob_id / 2048 % 524288 ≡ 0
    → cob_id % 2048 ≡ d
    → bit_or (bit_and (bit_and cob_id 0xffffff80) 0xffff0000) d ≡ cob_id
with_node cob_id d small middle same =
    let high : bit_and (bit_and cob_id 0xffffff80) 0xffff0000 ≡ 65536 * (cob_id / 65536) =
      high_half (bit_and cob_id 0xffffff80) ∙ omega (arith, without_node cob_id, small) in
    rw high (
      bit_or-disjoint 16 (cob_id / 65536) d (omega (arith, same))
      ∙ omega (arith, middle, same, small))

-- The default identifier of a node is shown with the node id, which is not stored.
shown_default :
    (p : Pdo) (cob_id : ℕ)
    → cob_id < 4294967296
    → cob_id / 2048 % 524288 ≡ 0
    → cob_id % 2048 ≡ p.predefined_id
    → 128 ≤ p.predefined_id
    → p.valid ≡ is_valid_id cob_id
    → shown_id p (bit_and cob_id 0xffffff80) ≡ cob_id
unfolding shown_id
shown_default p cob_id small middle same node e =
    let stored = bit_and cob_id 0xffffff80 in
    let can_id : can_id_of stored ≡ bit_and p.predefined_id 0xff80 =
      can_id_is stored ∙ omega (arith, without_node cob_id, default_id p.predefined_id, same) in
    let positive : bit_and p.predefined_id 0xff80 ≢ 0 =
      omega (arith, default_id p.predefined_id, node, same) in
    let whole = with_node cob_id p.predefined_id small middle same in
    ground (arith, can_id, positive, whole, shown_valid p.valid cob_id small e)

-- Any other identifier is shown as it is stored.
shown_other :
    (p : Pdo) (cob_id : ℕ)
    → cob_id < 4294967296
    → (can_id_of cob_id ≡ 0) ⊎ (can_id_of cob_id ≢ bit_and p.predefined_id 0xff80)
    → p.valid ≡ is_valid_id cob_id
    → shown_id p cob_id ≡ cob_id
unfolding shown_id
shown_other p cob_id small ne e = ground (arith, ne, shown_valid p.valid cob_id small e)

-- The validity of the TPDO is that of the COB-ID.
valid-tpdo_with_id :
    (t : Tpdo) (cob_id : ℕ) → (tpdo_with_id t cob_id).pdo.valid ≡ is_valid_id cob_id
unfolding tpdo_with_id is_new_id
valid-tpdo_with_id t cob_id = ground arith

predefined_id-tpdo_with_id :
    (t : Tpdo) (cob_id : ℕ) → (tpdo_with_id t cob_id).pdo.predefined_id ≡ t.pdo.predefined_id
unfolding tpdo_with_id
predefined_id-tpdo_with_id t cob_id = ground arith

pub stored_number :
    (p : Pdo) (cob_id : ℕ)
    → cob_id < 4294967296
    → stored_id p cob_id (bytes32 cob_id)
      ≡ bytes32 (
          if is_new_id p cob_id && (can_id_of cob_id == p.predefined_id)
          then bit_and cob_id 0xffffff80
          else cob_id)
unfolding stored_id
stored_number p cob_id small = ground arith

no_middle : (p : Pdo) (cob_id : ℕ) → is_allowed p cob_id ≡ true → cob_id / 2048 % 524288 ≡ 0
unfolding is_allowed
no_middle p cob_id allowed =
    let none_set : bit_and cob_id 0x3ffff800 ≡ 0 = ground (arith, allowed) in
    omega (arith, none_set, middle_bits cob_id)

default_is :
    (p : Pdo) (cob_id : ℕ)
    → (is_new_id p cob_id && (can_id_of cob_id == p.predefined_id)) ≡ true
    → cob_id % 2048 ≡ p.predefined_id
default_is p cob_id e =
    let same : can_id_of cob_id ≡ p.predefined_id = ground (arith, e) in
    sym (can_id_is cob_id) ∙ same

-- Only the highest bit says whether a COB-ID is valid.
same_valid : (a b : ℕ) → a / 2147483648 ≡ b / 2147483648 → is_valid_id a ≡ is_valid_id b
same_valid a b e =
    let same : bit_and a 0x80000000 ≡ bit_and b 0x80000000 =
      top_bit a ∙ ap (λ q. q % 2 * 2147483648) e ∙ sym (top_bit b) in
    rw same refl

default_number :
    (predefined : ℕ) → predefined < 65536 → bit_and predefined 0xff80 ≡ predefined / 128 * 128
default_number predefined small = default_id predefined ∙ omega (arith, small)

-- The default identifier without a node id is shown with the node id.
shown_without_node :
    (p : Pdo) (cob_id : ℕ)
    → cob_id < 4294967296
    → cob_id / 2048 % 524288 ≡ 0
    → cob_id % 2048 ≢ 0
    → cob_id % 2048 ≡ p.predefined_id / 128 * 128
    → p.predefined_id < 65536
    → p.valid ≡ is_valid_id cob_id
    → shown_id p cob_id ≡ cob_id - cob_id % 2048 + p.predefined_id
unfolding shown_id
shown_without_node p cob_id small middle some_id same bound e =
    let shown_number : bit_or (bit_and cob_id 0xffff0000) p.predefined_id
        ≡ cob_id - cob_id % 2048 + p.predefined_id =
      rw (high_half cob_id) (
        bit_or-disjoint 16 (cob_id / 65536 % 65536) p.predefined_id bound
        ∙ omega (arith, small, middle, same)) in
    let number = cob_id - cob_id % 2048 + p.predefined_id in
    let can_id : can_id_of cob_id ≡ bit_and p.predefined_id 0xff80 =
      can_id_is cob_id ∙ same ∙ sym (default_number p.predefined_id bound) in
    let positive : bit_and p.predefined_id 0xff80 ≢ 0 =
      omega (arith, default_number p.predefined_id bound, same, some_id) in
    let valid : p.valid ≡ is_valid_id number =
      e ∙ same_valid cob_id number (omega (arith, small, middle, same)) in
    let whole = shown_valid p.valid number (omega (arith, small, middle, same)) valid in
    ground (arith, can_id, positive, shown_number, whole)

-- A predefined identifier below 128 is stored as 0, and shown so.
shown_small :
    (p : Pdo) (cob_id : ℕ)
    → cob_id < 4294967296
    → cob_id % 2048 ≡ p.predefined_id
    → p.predefined_id < 128
    → p.valid ≡ is_valid_id cob_id
    → shown_id p (bit_and cob_id 0xffffff80) ≡ cob_id - cob_id % 2048
shown_small p cob_id small same below e =
    let stored = bit_and cob_id 0xffffff80 in
    let number : stored ≡ cob_id - cob_id % 2048 =
      without_node cob_id ∙ omega (arith, small, same, below) in
    let none_left : can_id_of stored ≡ 0 =
      can_id_is stored ∙ omega (arith, number, small, same, below) in
    let valid : p.valid ≡ is_valid_id stored =
      e ∙ same_valid cob_id stored (omega (arith, number, small)) in
    shown_other p stored (omega (arith, number, small)) (inl none_left) valid ∙ number

-- What is read after a COB-ID was written: the COB-ID, but the node id is added to the default identifier
-- of the PDO, and a new identifier that is the predefined one and below 128 becomes 0.
abbrev pub read_back : Pdo → (cob_id : ℕ) → ℕ
read_back p cob_id =
    let can_id = cob_id % 2048 in
    if not (can_id == 0) && (can_id == p.predefined_id / 128 * 128)
    then cob_id - can_id + p.predefined_id
    else if is_new_id p cob_id && (can_id == p.predefined_id) && ltb p.predefined_id 128
    then cob_id - can_id
    else cob_id

-- The number that is stored for a COB-ID.
abbrev pub kept_id : Pdo → (cob_id : ℕ) → ℕ
kept_id p cob_id =
    if is_new_id p cob_id && (can_id_of cob_id == p.predefined_id)
    then bit_and cob_id 0xffffff80
    else cob_id

module _ (t : Tpdo) (cob_id : ℕ) (small : cob_id < 4294967296) (middle : cob_id / 2048 % 524288 ≡ 0)
    (bound : t.pdo.predefined_id < 65536) where
  shown_changed :
      (is_new_id t.pdo cob_id && (can_id_of cob_id == t.pdo.predefined_id)) ≡ true
      → shown_id (tpdo_with_id t cob_id).pdo (bit_and cob_id 0xffffff80) ≡ read_back t.pdo cob_id
  shown_changed e =
      let p = (tpdo_with_id t cob_id).pdo in
      let valid = valid-tpdo_with_id t cob_id in
      let same = predefined_id-tpdo_with_id t cob_id in
      let is_predefined = default_is t.pdo cob_id e in
      let is_new : is_new_id t.pdo cob_id ≡ true = ground (arith, e) in
      elim (Bool-cases (ltb t.pdo.predefined_id 128)) [
        | inl less ↦
            let below : t.pdo.predefined_id < 128 = ground (arith, less) in
            let zero_left : t.pdo.predefined_id / 128 * 128 ≡ 0 = omega (arith, below) in
            let result : read_back t.pdo cob_id ≡ cob_id - cob_id % 2048 =
              ground (arith, zero_left, is_new, less, is_predefined) in
            shown_small p cob_id small (is_predefined ∙ sym same) (omega (arith, same, below)) valid
            ∙ sym result
        | inr more ↦
            let above : 128 ≤ t.pdo.predefined_id = ground (arith, more) in
            let result : read_back t.pdo cob_id ≡ cob_id = ground (arith, more, is_predefined) in
            shown_default p cob_id small middle (is_predefined ∙ sym same)
              (omega (arith, same, above)) valid
            ∙ sym result
      ]

  shown_unchanged :
      (is_new_id t.pdo cob_id && (can_id_of cob_id == t.pdo.predefined_id)) ≡ false
      → shown_id (tpdo_with_id t cob_id).pdo cob_id ≡ read_back t.pdo cob_id
  shown_unchanged e =
      let p = (tpdo_with_id t cob_id).pdo in
      let valid = valid-tpdo_with_id t cob_id in
      let same = predefined_id-tpdo_with_id t cob_id in
      let can_id = can_id_is cob_id in
      let number = default_number t.pdo.predefined_id bound in
      elim (Bool-cases
        (not (cob_id % 2048 == 0) && (cob_id % 2048 == t.pdo.predefined_id / 128 * 128))) [
          | inl is_default ↦
              let some_id : cob_id % 2048 ≢ 0 = ground (arith, is_default) in
              let is_same : cob_id % 2048 ≡ t.pdo.predefined_id / 128 * 128 =
                ground (arith, is_default) in
              let result : read_back t.pdo cob_id ≡ cob_id - cob_id % 2048 + p.predefined_id =
                rw (is_default, same) refl in
              shown_without_node p cob_id small middle some_id (rw same is_same) (rw same bound)
                valid
              ∙ sym result
          | inr is_other ↦
              let none_or_other : (can_id_of cob_id ≡ 0)
                  ⊎ (can_id_of cob_id ≢ bit_and p.predefined_id 0xff80) =
                rw (same, can_id, number) (ground (arith, is_other)) in
              let kept : (is_new_id t.pdo cob_id && (cob_id % 2048 == t.pdo.predefined_id))
                  ≡ false =
                ap (λ n. is_new_id t.pdo cob_id && (n == t.pdo.predefined_id)) (sym can_id) ∙ e in
              let result : read_back t.pdo cob_id ≡ cob_id = ground (arith, is_other, kept) in
              shown_other p cob_id small none_or_other valid ∙ sym result
        ]

pub shown-stored :
    (t : Tpdo) (cob_id : ℕ)
    → cob_id < 4294967296
    → is_allowed t.pdo cob_id ≡ true
    → t.pdo.predefined_id < 65536
    → shown_id (tpdo_with_id t cob_id).pdo (kept_id t.pdo cob_id) ≡ read_back t.pdo cob_id
shown-stored t cob_id small allowed bound =
    let middle = no_middle t.pdo cob_id allowed in
    if_cases (λ n. shown_id (tpdo_with_id t cob_id).pdo n ≡ read_back t.pdo cob_id)
      (is_new_id t.pdo cob_id && (can_id_of cob_id == t.pdo.predefined_id)) _ _
      (shown_changed t cob_id small middle bound) (shown_unchanged t cob_id small middle bound)
