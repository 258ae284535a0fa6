-- ===== src/Sync/Cycle.antt =====
-- pkg/sync/sync.go: when the producer sends and when a consumer reports a timeout.
use gocanopen.Base.{
  ℕ, ◌+◌, ◌<◌, ◌≡◌, ◌∙◌, refl, true, not, ◌&&◌, Option, List, [], ◌∷◌, arith, leb, if◌then◌else◌,
  if_both,
}
use gocanopen.Can.{Frame}
use gocanopen.Emergency.{Emcy}
use gocanopen.Sync.{
  Sync, Processed, send, run_timer, take_message, produced, produce, cycle, check_window,
  check_reception, check_timeout, process,
}

-- The frames of a call are those of its communication cycle.
frames_checked :
    (window_length : ℕ) (p : Processed)
    → (check_timeout (check_reception (check_window window_length p))).frames ≡ p.frames
unfolding check_timeout check_reception check_window
frames_checked window_length p = ground arith

cycle_frames :
    (s : Sync) (e : Emcy) (period status : ℕ) (window : List Frame) (next : Option ℕ)
    → s.is_producer ≡ true
    → 0 < period
    → (cycle s e period status window next).frames
      ≡ (if leb period s.timer then (send s).tx_buffer ∷ [] else [])
unfolding cycle produce produced
cycle_frames s e period status window next producer on = ground arith

ready_producer : (s : Sync) (dt : ℕ) → (take_message (run_timer s dt)).is_producer ≡ s.is_producer
unfolding take_message run_timer
ready_producer s dt = ground arith

ready_frame :
    (s : Sync) (dt : ℕ) → (send (take_message (run_timer s dt))).tx_buffer ≡ (send s).tx_buffer
unfolding take_message run_timer send
ready_frame s dt =
    if_both (λ (x : Sync). (send x).tx_buffer ≡ (send s).tx_buffer) s.rx_new _ _ refl refl

ready_timer :
    (s : Sync) (dt : ℕ)
    → s.timer + dt < 4294967296
    → (take_message (run_timer s dt)).timer ≡ (if s.rx_new then 0 else s.timer + dt)
unfolding take_message run_timer
ready_timer s dt h = ground arith

-- An active producer with a period, whose timer does not wrap, sends one message in a call of
-- `Process`, the next in its count, when no message came in and the time since the last one
-- reaches the period; else it sends nothing.
pub process-frames :
    (s : Sync) (e : Emcy) (period window_length dt : ℕ) (window : List Frame) (next : Option ℕ)
    → s.is_producer ≡ true
    → 0 < period
    → s.timer + dt < 4294967296
    → (process s e true period window_length dt window next).frames
      ≡ (if not s.rx_new && leb period (s.timer + dt) then (send s).tx_buffer ∷ [] else [])
unfolding process
process-frames s e period window_length dt window next producer on time_in =
    frames_checked window_length _
    ∙ cycle_frames (take_message (run_timer s dt)) e period _ window next
        (ready_producer s dt ∙ producer) on
    ∙ ground (arith, ready_frame s dt, ready_timer s dt time_in, on)
