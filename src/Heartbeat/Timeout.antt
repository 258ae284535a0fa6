-- ===== src/Heartbeat/Timeout.antt =====
-- pkg/heartbeat/consumer.go: what `Process` makes of silence and of messages.
use gocanopen.Base.{ℕ, ◌+◌, ◌<◌, ◌≡◌, false, none, List, [], ◌∷◌}
use gocanopen.Emergency.{Emcy}
use gocanopen.Heartbeat.{HbEntry, process_entry}

-- Calls of `Process` on an active entry with no message in between.
unfoldable pub silent_cycles : ℕ → HbEntry → Emcy → List ℕ → HbEntry
silent_cycles i m e [] = m
silent_cycles i m e (dt ∷ dts) =
    let p = process_entry i m e dt none in silent_cycles i p.entry p.emcy dts

abbrev pub total : List ℕ → ℕ
total [] = 0
total (dt ∷ dts) = dt + total dts

-- An entry that is active with no message pending.
abbrev pub IsWaiting : HbEntry → Type 0
IsWaiting m =
    (m.hb_state ≡ 2) × (m.rx_new ≡ false) × (m.timeout_timer < m.time_us) × (m.time_us < 4294967296)
