-- ===== src/Od/Lookup.antt =====
-- pkg/od/od.go: a dictionary as the list of its entries.
pub mod Values
use mathlib.Core.Option
use gocanopen.Base.{get_elem?, false, ℕ, Option, none, some, List, [], ◌∷◌, ◌==◌, if◌then◌else◌}
use gocanopen.Od.Errors.{Odr, idx_not_exist}
use gocanopen.Od.Stream.{Streamer}
use gocanopen.Od.Entry.{
  Entry, Object, nil, variable, array, rec, Variable, failed, disabled, open_at, no_streamer,
  new_streamer, shared_write,
}

-- The entry at an index, and the dictionary with another entry there.
unfoldable pub entry_at : List Entry → ℕ → Option Entry
entry_at [] index = none
entry_at (e ∷ es) index = let rest = entry_at es index in if e.index == index then some e else rest

unfoldable pub with_entry : List Entry → Entry → List Entry
with_entry [] new = []
with_entry (e ∷ es) new =
    let rest = with_entry es new in if e.index == new.index then new ∷ es else e ∷ rest

-- The dictionary once the bytes that the streamer shares with a variable have changed.
unfoldable pub stored : List Entry → (index place : ℕ) → List ℕ → List Entry
stored od index place bytes = elim (entry_at od index) [
  | none ↦ od
  | some e ↦ with_entry od (shared_write e place bytes)
]

-- `Streamer` of the dictionary, not at the origin: the place, the streamer and the error.
unfoldable pub opened : List Entry → (index subindex : ℕ) → ℕ × Streamer × Option Odr
opened od index subindex = elim (entry_at od index) [
  | none ↦ (0, no_streamer, some idx_not_exist)
  | some e ↦ elim (new_streamer e subindex false) [
    | failed err ↦ (0, no_streamer, some err)
    | disabled ↦ (0, no_streamer, none)
    | open_at i streamer ↦ (i, streamer, none)
  ]
]

-- The variable at a place of an object; a single variable has the place 0.
unfoldable pub variable_at : Object → ℕ → Option Variable
variable_at nil i = none
variable_at (variable v) i = if i == 0 then some v else none
variable_at (array vs) i = get_elem? vs i
variable_at (rec vs) i = get_elem? vs i

-- The bytes of the variable at a place of the object at an index.
unfoldable pub value_at : List Entry → (index place : ℕ) → Option (List ℕ)
value_at od index place =
    Option.bind (entry_at od index) (λ e. Option.map (λ v. v.value) (variable_at e.object place))
