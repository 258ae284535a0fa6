-- ===== src/Bus/Dispatch.antt =====
-- bus_manager.go: which listeners a frame reaches after a subscription.
use gocanopen.Base.{ℕ, ◌≡◌, refl, Bool, not, ◌&&◌, List, [], ◌∷◌, ◌++◌, arith, ◌==◌, if◌then◌else◌}
use gocanopen.Can.{Frame}
use gocanopen.Bus.{BusManager, listeners, with_listeners, handle, is_present, key_of, subscribe}

listeners-with_listeners :
    (rows : List (ℕ × List ℕ)) (key ident : ℕ) (ls : List ℕ)
    → listeners (with_listeners rows key ls) ident
      ≡ (if key == ident then ls else listeners rows ident)
unfolding listeners with_listeners
listeners-with_listeners [] key ident ls = refl
listeners-with_listeners ((k, old) ∷ rows) key ident ls =
    ground (arith, listeners-with_listeners rows key ident ls)

-- A subscription adds its listener at the end for frames of its own identifier, unless it is there
-- already, and changes nothing for any other frame.
pub handle-subscribe :
    (bm : BusManager) (ident : ℕ) (rtr : Bool) (callback : ℕ) (frame : Frame)
    → handle (subscribe bm ident rtr callback) frame ≡ (
        if (key_of ident rtr == frame.id) && not (is_present callback (handle bm frame))
        then handle bm frame ++ (callback ∷ [])
        else handle bm frame)
unfolding handle subscribe
handle-subscribe bm ident rtr callback frame = ground (
  arith,
  listeners-with_listeners bm.frame_listeners (key_of ident rtr) frame.id
      (listeners bm.frame_listeners (key_of ident rtr) ++ (callback ∷ [])),
)
