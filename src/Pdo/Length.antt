-- ===== src/Pdo/Length.antt =====
-- pkg/pdo/common.go: what `NewPDO` makes of the mapping parameters.
use gocanopen.Base.{
  ℕ, zero, suc, ◌+◌, ◌-◌, ◌<◌, ◌≤◌, ◌≡◌, ◌≢◌, refl, ◌⊎◌, inl, inr, Bool, Option, none, some, List,
  [], ◌∷◌, ltb, u32, arith, if_both,
}
use mathlib.Core.Path.{subst}
use gocanopen.Emergency.{Emcy}
use gocanopen.Nmt.{InitError}
use gocanopen.Od.Errors.{Odr, Outcome, done, panicked, ◌>>=◌}
use gocanopen.Od.Entry.{Entry, uint8, uint32}
use gocanopen.Pdo.{
  empty, mapped_by, filled_in, Pdo, Slot, Mapping, with_slot, next_slot, add_slot, is_sub_not_exist,
  no_slot, mapping_from, erroneous_map, new_pdo,
}

-- The bytes that the first `n` slots take up.
unfoldable pub counted : (n : ℕ) → List Slot → ℕ
counted n [] = 0
counted zero (slot ∷ slots) = 0
counted (suc n) (slot ∷ slots) = slot.streamer.stream.data_offset + counted n slots

abbrev Counts : (n : ℕ) → Outcome (InitError ⊎ Mapping) → Type 0
Counts n (done (inr m)) = m.length ≡ u32 (counted n m.slots)
Counts n (done (inl err)) = Unit
Counts n panicked = Unit

counted_zero : (slots : List Slot) → counted 0 slots ≡ 0
unfolding counted
counted_zero [] = refl
counted_zero (slot ∷ slots) = refl

-- `n` slots count from the new one on.
length-add_slot :
    (counts : Bool) (n k : ℕ) (slot : Slot) (erroneous : ℕ) (m : Mapping)
    → counts ≡ ltb 0 n
    → k ≡ n - 1
    → m.length ≡ u32 (counted k m.slots)
    → (add_slot counts slot erroneous m).length ≡ u32 (counted n (slot ∷ m.slots))
unfolding add_slot counted
length-add_slot counts zero k slot erroneous m e same h =
    let none_left : counted k m.slots ≡ 0 = rw same (counted_zero m.slots) in
    ground (arith, e, h, none_left)
length-add_slot counts (suc n) k slot erroneous m e same h =
    let k_is : k ≡ n = omega (arith, same) in
    let h' : m.length ≡ u32 (counted n m.slots) = rw⁻¹ k_is h in ground (arith, e, h')

add_slot-Counts :
    (i count : ℕ) (slot : Slot) (erroneous : ℕ) (rest : Outcome (InitError ⊎ Mapping))
    → Counts (count - (i + 1)) rest
    → Counts (count - i) (rest >>= λ r. done (with_slot (add_slot (ltb i count) slot erroneous) r))
unfolding with_slot add_slot
add_slot-Counts i count slot erroneous (done (inl err)) h = tt
add_slot-Counts i count slot erroneous panicked h = tt
add_slot-Counts i count slot erroneous (done (inr m)) h =
    length-add_slot (ltb i count) (count - i) (count - (i + 1)) slot erroneous m (ground arith)
      (omega arith) h

next_slot-Counts :
    (p : Pdo) (count i map_param : ℕ) (err : Option Odr) (rest : Outcome (InitError ⊎ Mapping))
    → Counts (count - (i + 1)) rest
    → Counts (count - i) (next_slot p count i map_param err rest)
unfolding next_slot
next_slot-Counts p count i map_param none rest h = add_slot-Counts i count _ _ rest h
next_slot-Counts p count i map_param (some err) rest h =
    if_both (Counts (count - i)) (is_sub_not_exist err) _ _
      (add_slot-Counts i count no_slot 0 rest h) tt

bind-Counts :
    {A : Type 0} (n : ℕ) (x : Outcome A) (f : A → Outcome (InitError ⊎ Mapping))
    → ((a : A) → Counts n (f a))
    → Counts n (x >>= f)
bind-Counts n (done a) f h = h a
bind-Counts n panicked f h = tt

mapping_from-Counts :
    (p : Pdo) (entry : Entry) (count i left : ℕ)
    → Counts (count - i) (mapping_from p entry count i left)
unfolding mapping_from counted
mapping_from-Counts p entry count i zero = refl
mapping_from-Counts p entry count i (suc left) =
    bind-Counts (count - i) (uint32 entry (i + 1)) _ (λ (map_param, err).
      next_slot-Counts p count i map_param err (mapping_from p entry count (i + 1) left)
        (mapping_from-Counts p entry count (i + 1) left))

-- Where the parameters are right, one to eight bytes are mapped if anything is; else nothing is mapped.
pub record IsMapped (p : Pdo) (erroneous : ℕ) : Type 0 where
  pub length : p.data_length ≡ u32 (counted p.nb_mapped p.slots)
  pub bound : p.data_length ≤ 8
  pub some_bytes : 0 < p.nb_mapped → 0 < p.data_length
  pub nothing : erroneous ≢ 0 → (p.nb_mapped ≡ 0) × (p.data_length ≡ 0)

-- `Q` of what is returned without an error and without a panic.
abbrev pub Returns : (Q : Pdo → ℕ → Type 0) → Outcome (InitError ⊎ (Pdo × ℕ)) → Type 0
Returns Q (done (inr (p, erroneous))) = Q p erroneous
Returns Q (done (inl err)) = Unit
Returns Q panicked = Unit

filled_in-IsMapped :
    (p : Pdo) (count : ℕ) (m : Mapping)
    → m.length ≡ u32 (counted count m.slots)
    → Returns IsMapped (done (filled_in p count (inr m)))
unfolding filled_in erroneous_map
filled_in-IsMapped p count m h = record {
  length = ground (arith, h, counted_zero m.slots);
  bound = ground arith;
  some_bytes = λ positive. ground (arith, positive);
  nothing = λ wrong. ground (arith, wrong);
}

filled_by-IsMapped :
    (p : Pdo) (count : ℕ) (r : Outcome (InitError ⊎ Mapping))
    → Counts count r
    → Returns IsMapped (r >>= λ m. done (filled_in p count m))
unfolding filled_in
filled_by-IsMapped p count (done (inl err)) h = tt
filled_by-IsMapped p count (done (inr m)) h = filled_in-IsMapped p count m h
filled_by-IsMapped p count panicked h = tt

mapped_by-IsMapped :
    (p : Pdo) (entry : Entry) (count : ℕ) (err : Option Odr)
    → Returns IsMapped (mapped_by p entry count err)
unfolding mapped_by
mapped_by-IsMapped p entry count none =
    filled_by-IsMapped p count (mapping_from p entry count 0 8) (
      subst (λ n. Counts n (mapping_from p entry count 0 8)) (omega arith)
        (mapping_from-Counts p entry count 0 8))
mapped_by-IsMapped p entry count (some err) = tt

read-IsMapped :
    (p : Pdo) (entry : Entry) (x : Outcome (ℕ × Option Odr))
    → Returns IsMapped (x >>= λ (count, err). mapped_by p entry count err)
read-IsMapped p entry (done (count, err)) = mapped_by-IsMapped p entry count err
read-IsMapped p entry panicked = tt

-- An object that NewPDO returns has as many bytes mapped as the slots of its mapped objects take up, at
-- most eight, at least one if it has any object mapped, and none beside an erroneous parameter.
pub new_pdo-IsMapped :
    (od : List Entry) (emcy : Emcy) (is_rpdo : Bool) (entry : Entry)
    → Returns IsMapped (new_pdo od emcy is_rpdo entry)
unfolding new_pdo
new_pdo-IsMapped od emcy is_rpdo entry = read-IsMapped (empty od emcy is_rpdo) entry (uint8 entry 0)
