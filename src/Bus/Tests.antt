-- ===== src/Bus/Tests.antt =====
-- The theorem on bus_manager.go at a concrete input.
use gocanopen.Base.{◌≡◌, false, not, ◌&&◌, [], ◌∷◌, ◌++◌, ◌==◌, if◌then◌else◌}
use gocanopen.Can.{new_frame}
use gocanopen.Bus.{BusManager, new_bus_manager, handle, subscribe, is_present, key_of}
use gocanopen.Bus.Dispatch.{handle-subscribe}

abbrev busy : BusManager
busy = record new_bus_manager { frame_listeners = (0x80, 1 ∷ []) ∷ [] }

handle-subscribe_example : handle (subscribe busy 0x80 false 2) (new_frame 0x80 0 0) ≡ (
    if (key_of 0x80 false == 0x80) && not (is_present 2 (handle busy (new_frame 0x80 0 0)))
    then handle busy (new_frame 0x80 0 0) ++ (2 ∷ [])
    else handle busy (new_frame 0x80 0 0))
handle-subscribe_example = handle-subscribe busy 0x80 false 2 (new_frame 0x80 0 0)
