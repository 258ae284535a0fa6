-- ===== src/Od/Lookup/Values.antt =====
-- pkg/od/od.go: what is stored in a dictionary is what is found there, and nothing else changes.
use gocanopen.Base.{
  ℕ, ◌≡◌, ◌≢◌, refl, ◌∙◌, sym, none, some, List, [], ◌∷◌, arith, ◌==◌, ◌⊎◌, inl, inr, Option-cases,
  Bool-cases, ==_iff,
}
use mathlib.Core.Option
use gocanopen.Od.Entry.{
  Entry, Object, nil, variable, array, rec, Variable, object_with, shared_write, replace_value,
}
use gocanopen.Od.Entry.Access.{get_elem?-set_value_self, get_elem?-set_value_ne}
use gocanopen.Od.Lookup.{entry_at, with_entry, stored, variable_at, value_at}

-- The dictionary holds an entry that was changed at its place.
entry_at_index :
    (od : List Entry) (index : ℕ) (e : Entry) → entry_at od index ≡ some e → e.index ≡ index
unfolding entry_at
entry_at_index [] index e h = cc
entry_at_index (x ∷ od) index e h = ground (arith, entry_at_index od index e)

entry_at-with_entry :
    (od : List Entry) (index : ℕ) (e new : Entry)
    → entry_at od index ≡ some e
    → new.index ≡ index
    → entry_at (with_entry od new) index ≡ some new
unfolding entry_at with_entry
entry_at-with_entry [] index e new h same = cc
entry_at-with_entry (x ∷ od) index e new h same = ground (arith, entry_at-with_entry od index e new)

stored_lem :
    (od : List Entry) (index i : ℕ) (e : Entry) (bytes : List ℕ)
    → entry_at od index ≡ some e
    → stored od index i bytes ≡ with_entry od (shared_write e i bytes)
unfolding stored
stored_lem od index i e bytes h = ground (arith, h)

pub entry_at-stored :
    (od : List Entry) (index i : ℕ) (e : Entry) (bytes : List ℕ)
    → entry_at od index ≡ some e
    → entry_at (stored od index i bytes) index ≡ some (shared_write e i bytes)
unfolding shared_write
entry_at-stored od index i e bytes h =
    rw (stored_lem od index i e bytes h)
      (entry_at-with_entry od index e (shared_write e i bytes) h (entry_at_index od index e h))

entry_at-with_entry_ne :
    (od : List Entry) (index : ℕ) (new : Entry)
    → new.index ≢ index
    → entry_at (with_entry od new) index ≡ entry_at od index
unfolding entry_at with_entry
entry_at-with_entry_ne [] index new ne = refl
entry_at-with_entry_ne (x ∷ od) index new ne =
    ground (arith, entry_at-with_entry_ne od index new ne)

entry_at-stored_ne :
    (od : List Entry) (index i other : ℕ) (e : Entry) (bytes : List ℕ)
    → entry_at od index ≡ some e
    → other ≢ index
    → entry_at (stored od index i bytes) other ≡ entry_at od other
unfolding shared_write
entry_at-stored_ne od index i other e bytes h ne = rw (stored_lem od index i e bytes h) (
    entry_at-with_entry_ne od other (shared_write e i bytes)
      (λ same. ne (sym same ∙ entry_at_index od index e h)))

variable_at-object_with_self :
    (o : Object) (i : ℕ) (v : Variable) (bytes : List ℕ)
    → variable_at o i ≡ some v
    → variable_at (object_with o i bytes) i ≡ some (replace_value v bytes)
unfolding variable_at object_with
variable_at-object_with_self nil i v bytes h = cc
variable_at-object_with_self (variable w) i v bytes h = ground arith
variable_at-object_with_self (array vs) i v bytes h = get_elem?-set_value_self vs i v bytes h
variable_at-object_with_self (rec vs) i v bytes h = get_elem?-set_value_self vs i v bytes h

variable_at-object_with_ne :
    (o : Object) (i j : ℕ) (v : Variable) (bytes : List ℕ)
    → variable_at o i ≡ some v
    → i ≢ j
    → variable_at (object_with o i bytes) j ≡ variable_at o j
unfolding variable_at object_with
variable_at-object_with_ne nil i j v bytes h ne = cc
variable_at-object_with_ne (variable w) i j v bytes h ne = ground arith
variable_at-object_with_ne (array vs) i j v bytes h ne = get_elem?-set_value_ne vs i j bytes ne
variable_at-object_with_ne (rec vs) i j v bytes h ne = get_elem?-set_value_ne vs i j bytes ne

none_or_some : {A : Type 0} {a : A} → none ≢ some a
none_or_some e = cc

-- A value is the value of a variable of an entry.
pub value_at_inv :
    (od : List Entry) (index place : ℕ) (value : List ℕ)
    → value_at od index place ≡ some value
    → (e : Entry) × (v : Variable) × (entry_at od index ≡ some e)
      × (variable_at e.object place ≡ some v)
unfolding value_at Option.bind
value_at_inv od index place value h = elim (Option-cases (entry_at od index)) [
  | inl missing ↦ absurd (none_or_some (rw missing at h))
  | inr (e, found) ↦ elim (Option-cases (variable_at e.object place)) [
    | inl missing ↦ absurd (none_or_some (rw (found, missing) at h))
    | inr (v, there) ↦ (e, v, found, there)
  ]
]

pub value_at-stored_self :
    (od : List Entry) (index place : ℕ) (value bytes : List ℕ)
    → value_at od index place ≡ some value
    → value_at (stored od index place bytes) index place ≡ some bytes
unfolding value_at shared_write replace_value Option.bind
value_at-stored_self od index place value bytes h =
    let (e, v, found, there) = value_at_inv od index place value h in
    rw
      (
        entry_at-stored od index place e bytes found,
        variable_at-object_with_self e.object place v bytes there,
      )
      refl

value_at-stored_place :
    (od : List Entry) (index place : ℕ) (value bytes : List ℕ) (p : ℕ)
    → value_at od index place ≡ some value
    → p ≢ place
    → value_at (stored od index place bytes) index p ≡ value_at od index p
unfolding value_at shared_write Option.bind
value_at-stored_place od index place value bytes p h ne =
    let (e, v, found, there) = value_at_inv od index place value h in
    rw
      (
        entry_at-stored od index place e bytes found,
        found,
        variable_at-object_with_ne e.object place p v bytes there (λ same. ne (sym same)),
      )
      refl

value_at-stored_index :
    (od : List Entry) (index place : ℕ) (value bytes : List ℕ) (i p : ℕ)
    → value_at od index place ≡ some value
    → i ≢ index
    → value_at (stored od index place bytes) i p ≡ value_at od i p
unfolding value_at
value_at-stored_index od index place value bytes i p h ne =
    let (e, v, found, there) = value_at_inv od index place value h in
    rw (entry_at-stored_ne od index place i e bytes found ne) refl

pub value_at-stored_ne :
    (od : List Entry) (index place : ℕ) (value bytes : List ℕ) (i p : ℕ)
    → value_at od index place ≡ some value
    → (i ≢ index) ⊎ (p ≢ place)
    → value_at (stored od index place bytes) i p ≡ value_at od i p
value_at-stored_ne od index place value bytes i p h (inl ne) =
    value_at-stored_index od index place value bytes i p h ne
value_at-stored_ne od index place value bytes i p h (inr ne) = elim (Bool-cases (i == index)) [
  | inr other ↦
      value_at-stored_index od index place value bytes i p h (λ e. ground (arith, e, other))
  | inl same ↦
      rw ((==_iff i index).0 same) (value_at-stored_place od index place value bytes p h ne)
]
