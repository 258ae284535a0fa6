-- ===== src/Pdo/Rpdo/Store.antt =====
-- pkg/pdo/rpdo.go: what the objects mapped into an RPDO hold after a frame.
use gocanopen.Base.{
  ℕ, ◌⊎◌, ◌+◌, ◌≤◌, ◌≡◌, ◌≢◌, refl, ap, ◌∙◌, sym, true, Option, none, some, List, [], ◌∷◌, ◌++◌,
  length, take, drop, arith, inl, inr, u32, length-append, append_assoc, take-append_left, take_all,
  drop-drop, drop-append,
}
use mathlib.Core.Option
use gocanopen.Od.Errors.{done}
use gocanopen.Od.Stream.{write, write_entry_default}
use gocanopen.Od.Stream.Whole.{write_whole}
use gocanopen.Od.Entry.{Entry}
use gocanopen.Od.Lookup.{stored, value_at}
use gocanopen.Od.Lookup.Values.{value_at-stored_self, value_at-stored_ne, value_at_inv}
use gocanopen.Pdo.{Slot}
use gocanopen.Pdo.Rpdo.{shared_bytes, stored_at, slot_bytes, write_slot, write_slots}

-- A slot that maps the whole of the variable at a place of the object at an index, of `size` bytes, under
-- the default writer.
pub record Maps (od : List Entry) (slot : Slot) (index place size : ℕ) : Type 0 where
  pub target : slot.target ≡ some (index, place)
  pub value : List ℕ
  pub there : value_at od index place ≡ some value
  pub size_is : length value ≡ size
  pub writer : slot.streamer.writer ≡ some write_entry_default
  pub allocated : slot.streamer.stream.allocated ≡ true
  pub whole : slot.streamer.stream.data_length ≡ size
  pub mapped : slot.streamer.stream.data_offset ≡ size

-- No slot maps the variable at a place of the object at an index.
pub data Avoids (index place : ℕ) : List Slot → Type 0 where
  no_slots : Avoids index place []
  avoids :
      {slot : Slot} {slots : List Slot} {i p : ℕ}
      → slot.target ≡ some (i, p)
      → (index ≢ i) ⊎ (place ≢ p)
      → Avoids index place slots
      → Avoids index place (slot ∷ slots)
  untargeted :
      {slot : Slot} {slots : List Slot}
      → slot.target ≡ none
      → Avoids index place slots
      → Avoids index place (slot ∷ slots)

-- The first slots map different variables, which are as long as the values.
pub data Receives (od : List Entry) : List Slot → List (List ℕ) → Type 0 where
  no_values : {slots : List Slot} → Receives od slots []
  receives :
      {slot : Slot} {slots : List Slot} {bytes : List ℕ} {values : List (List ℕ)} {index place : ℕ}
      → Maps od slot index place (length bytes)
      → Avoids index place slots
      → Receives od slots values
      → Receives od (slot ∷ slots) (bytes ∷ values)

-- The variables of the first slots hold the values.
pub data Hold (od : List Entry) : List Slot → List (List ℕ) → Type 0 where
  no_values : {slots : List Slot} → Hold od slots []
  holds :
      {slot : Slot} {slots : List Slot} {bytes : List ℕ} {values : List (List ℕ)} {index place : ℕ}
      → slot.target ≡ some (index, place)
      → value_at od index place ≡ some bytes
      → Hold od slots values
      → Hold od (slot ∷ slots) (bytes ∷ values)

abbrev pub concat : List (List ℕ) → List ℕ
concat [] = []
concat (bytes ∷ values) = bytes ++ concat values

shared_bytes-Maps :
    (od : List Entry) (slot : Slot) (index place size : ℕ)
    → (m : Maps od slot index place size) → shared_bytes od slot ≡ m.value
unfolding shared_bytes value_at Option.bind
shared_bytes-Maps od slot index place size m =
    let (e, v, found, there) = value_at_inv od index place m.value m.there in
    let same : some v.value ≡ some m.value = rw (found, there) at m.there in
    ground (arith, m.target, found, there, same)

Maps-stored :
    (od : List Entry) (slot : Slot) (index place size i p : ℕ) (old bytes : List ℕ)
    → value_at od i p ≡ some old
    → (index ≢ i) ⊎ (place ≢ p)
    → Maps od slot index place size
    → Maps (stored od i p bytes) slot index place size
Maps-stored od slot index place size i p old bytes h ne m = record {
  target = m.target;
  value = m.value;
  there = value_at-stored_ne od i p old bytes index place h ne ∙ m.there;
  size_is = m.size_is;
  writer = m.writer;
  allocated = m.allocated;
  whole = m.whole;
  mapped = m.mapped;
}

none_or_some : {A B : Type 0} {t : Option A} {a : A} → t ≡ none → t ≡ some a → B
none_or_some e f = cc

some_pair : {a b c d : ℕ} → ◌≡◌ {A = Option (ℕ × ℕ)} (some (a, b)) (some (c, d)) → (a ≡ c) × (b ≡ d)
some_pair e = ground (arith, e)

swapped :
    {i p j q index place : ℕ}
    → (i ≢ j) ⊎ (p ≢ q)
    → (index ≡ j) × (place ≡ q)
    → (index ≢ i) ⊎ (place ≢ p)
swapped (inl ne) same = inl (λ e. ne (sym e ∙ same.0))
swapped (inr ne) same = inr (λ e. ne (sym e ∙ same.1))

elsewhere :
    {i p j q index place : ℕ}
    → (i ≢ j) ⊎ (p ≢ q)
    → (index ≡ j) × (place ≡ q)
    → (i ≢ index) ⊎ (p ≢ place)
elsewhere (inl ne) same = inl (λ e. ne (e ∙ same.0))
elsewhere (inr ne) same = inr (λ e. ne (e ∙ same.1))

Receives-stored :
    (od : List Entry) (slots : List Slot) (values : List (List ℕ)) (i p : ℕ) (old bytes : List ℕ)
    → value_at od i p ≡ some old
    → Avoids i p slots
    → Receives od slots values
    → Receives (stored od i p bytes) slots values
Receives-stored od slots [] i p old bytes h apart no_values = no_values
Receives-stored od [] (value ∷ values) i p old bytes h apart r = elim r [ ]
Receives-stored od (slot ∷ slots) (value ∷ values) i p old bytes h (untargeted missing apart)
      (receives m rest_apart r) =
    none_or_some missing m.target
Receives-stored od (slot ∷ slots) (value ∷ values) i p old bytes h (avoids target ne apart)
      (receives {index = index} {place = place} m rest_apart r) =
    let same = some_pair (sym m.target ∙ target) in
    receives (Maps-stored od slot index place (length value) i p old bytes h (swapped ne same) m)
      rest_apart (Receives-stored od slots values i p old bytes h apart r)

-- A slot takes its bytes from the frame behind what is mapped before it.
write_slot_lem :
    (od : List Entry) (slot : Slot) (index place : ℕ) (value rest bytes : List ℕ) (at : ℕ)
    → Maps od slot index place (length value)
    → drop at bytes ≡ value ++ rest
    → at + length value ≤ 8
    → write_slot od slot at bytes
      ≡ done (
        stored od index place value,
        record slot {
          streamer = record slot.streamer {
            stream = record slot.streamer.stream { bytes = value };
          };
        },
      )
unfolding write_slot write slot_bytes stored_at
write_slot_lem od slot index place value rest bytes at m here fits =
    let old = shared_bytes-Maps od slot index place (length value) m in
    let e : u32 (at + slot.streamer.stream.data_offset) ≡ at + length value =
      omega (arith, m.mapped, fits) in
    let taken : take (length value) (drop at bytes) ≡ value = rw here (
      take-append_left (length value) value rest (omega arith)
      ∙ take_all (length value) value (omega arith)) in
    let written =
      write_whole (record slot.streamer.stream { bytes = m.value; data_offset = 0 }) value
        (record {
          there = m.allocated;
          start = refl;
          whole = m.whole ∙ sym m.size_is;
          small = omega (arith, m.size_is, fits);
        })
        (sym m.size_is) in
    ground (arith, old, e, taken, written, m.target, m.writer, m.mapped, m.whole, fits)

-- What the loop leaves: the values where they belong, and every other variable as it was.
pub record Delivers (od : List Entry) (slots : List Slot) (values : List (List ℕ)) (at : ℕ)
    (bytes : List ℕ) : Type 0 where
  pub od' : List Entry
  pub slots' : List Slot
  pub runs : write_slots (length values) od slots at bytes ≡ done (od', slots')
  pub stored_all : Hold od' slots values
  pub kept :
      (index place : ℕ)
      → Avoids index place slots
      → value_at od' index place ≡ value_at od index place

rest_of :
    (value values rest bytes : List ℕ) (at : ℕ)
    → drop at bytes ≡ (value ++ values) ++ rest
    → drop (at + length value) bytes ≡ values ++ rest
rest_of value values rest bytes at here =
    drop-drop at (length value) bytes
    ∙ ap (drop (length value)) (here ∙ append_assoc value values rest)
    ∙ drop-append value (values ++ rest)

kept_next :
    (od : List Entry) (slot : Slot) (slots : List Slot) (index place : ℕ) (value : List ℕ)
    (values : List (List ℕ)) (at : ℕ) (bytes : List ℕ)
    → Maps od slot index place (length value)
    → (d : Delivers (stored od index place value) slots values (at + length value) bytes)
    → (i p : ℕ) → Avoids i p (slot ∷ slots)
    → value_at d.od' i p ≡ value_at od i p
kept_next od slot slots index place value values at bytes m d i p (untargeted missing away) =
    none_or_some missing m.target
kept_next od slot slots index place value values at bytes m d i p (avoids target ne away) =
    d.kept i p away
    ∙ value_at-stored_ne od index place m.value value i p m.there
        (elsewhere ne (some_pair (sym m.target ∙ target)))

deliver_next :
    (od : List Entry) (slot : Slot) (slots : List Slot) (index place : ℕ) (value : List ℕ)
    (values : List (List ℕ)) (rest bytes : List ℕ) (at : ℕ)
    → Maps od slot index place (length value)
    → Avoids index place slots
    → drop at bytes ≡ concat (value ∷ values) ++ rest
    → at + length (concat (value ∷ values)) ≤ 8
    → Delivers (stored od index place value) slots values (at + length value) bytes
    → Delivers od (slot ∷ slots) (value ∷ values) at bytes
unfolding write_slots
deliver_next od slot slots index place value values rest bytes at m apart here fits d =
    let room : at + length value ≤ 8 = omega (arith, length-append value (concat values), fits) in
    let next : u32 (at + slot.streamer.stream.data_offset) ≡ at + length value =
      omega (arith, m.mapped, room) in
    record {
      od' = d.od';
      slots' =
          record slot {
            streamer = record slot.streamer {
              stream = record slot.streamer.stream { bytes = value };
            };
          }
          ∷ d.slots';
      runs =
          rw
            (
              write_slot_lem od slot index place value (concat values ++ rest) bytes at m
                  (here ∙ append_assoc value (concat values) rest) room,
              next,
              d.runs,
            )
            refl;
      stored_all =
          holds m.target
            (d.kept index place apart ∙ value_at-stored_self od index place m.value value m.there)
            d.stored_all;
      kept = λ i p away. kept_next od slot slots index place value values at bytes m d i p away;
    }

pub write_slots-Delivers :
    (od : List Entry) (slots : List Slot) (values : List (List ℕ)) (rest bytes : List ℕ) (at : ℕ)
    → Receives od slots values
    → drop at bytes ≡ concat values ++ rest
    → at + length (concat values) ≤ 8
    → Delivers od slots values at bytes
unfolding write_slots
write_slots-Delivers od slots [] rest bytes at no_values here fits = record {
  od' = od;
  slots' = slots;
  runs = refl;
  stored_all = no_values;
  kept = λ index place apart. refl;
}
write_slots-Delivers od [] (value ∷ values) rest bytes at r here fits = elim r [ ]
write_slots-Delivers od (slot ∷ slots) (value ∷ values) rest bytes at
      (receives {index = index} {place = place} m apart r) here fits =
    deliver_next od slot slots index place value values rest bytes at m apart here fits (
      write_slots-Delivers (stored od index place value) slots values rest bytes (at + length value)
        (Receives-stored od slots values index place m.value value m.there apart r)
        (rest_of value (concat values) rest bytes at here)
        (omega (arith, length-append value (concat values), fits)))
