-- ===== src/Bus.antt =====
-- bus_manager.go: the listeners for the identifiers of received frames. A listener is the number of
-- an object, the map an association list. The driver that frames are sent to is left out.
pub mod Dispatch
mod Tests
use gocanopen.Base.{
  ℕ, Bool, true, false, ◌||◌, List, [], ◌∷◌, ◌++◌, ◌==◌, if◌then◌else◌, bit_and, bit_or,
}
use gocanopen.Can.{Frame}

-- `BusManager`
pub record BusManager : Type 0 where
  pub frame_listeners : List (ℕ × List ℕ)
  pub can_error : ℕ

-- `frameListeners[ident]`, empty for a missing key.
unfoldable pub listeners : List (ℕ × List ℕ) → ℕ → List ℕ
listeners [] ident = []
listeners ((key, ls) ∷ rows) ident =
    let rest = listeners rows ident in if key == ident then ls else rest

-- `frameListeners[ident] = ls`
unfoldable pub with_listeners : List (ℕ × List ℕ) → ℕ → List ℕ → List (ℕ × List ℕ)
with_listeners [] ident ls = (ident, ls) ∷ []
with_listeners ((key, old) ∷ rows) ident ls =
    let rest = with_listeners rows ident ls in
    if key == ident then (key, ls) ∷ rows else (key, old) ∷ rest

-- `Handle`: the listeners that are called, in order.
unfoldable pub handle : BusManager → Frame → List ℕ
handle bm frame = listeners bm.frame_listeners frame.id

unfoldable pub is_present : ℕ → List ℕ → Bool
is_present callback [] = false
is_present callback (cb ∷ cbs) = (cb == callback) || is_present callback cbs

-- The key that `Subscribe` makes of an identifier.
unfoldable pub key_of : ℕ → Bool → ℕ
key_of ident rtr = if rtr then bit_or (bit_and ident 0x7ff) 0x40000000 else bit_and ident 0x7ff

-- `Subscribe`; it returns no error.
unfoldable pub subscribe : BusManager → ℕ → Bool → ℕ → BusManager
subscribe bm ident rtr callback =
    let key = key_of ident rtr in
    let present = listeners bm.frame_listeners key in
    if is_present callback present then bm else record bm {
      frame_listeners = with_listeners bm.frame_listeners key (present ++ (callback ∷ []));
    }

-- `Process`
unfoldable pub process : BusManager → BusManager
process bm = record bm { can_error = 0 }

-- `NewBusManager`
abbrev pub new_bus_manager : BusManager
new_bus_manager = record { frame_listeners = []; can_error = 0 }
