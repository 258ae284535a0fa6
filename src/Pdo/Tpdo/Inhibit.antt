-- ===== src/Pdo/Tpdo/Inhibit.antt =====
-- pkg/pdo/tpdo.go: the inhibit time of a TPDO that sends on events, and the requests that make it send.
use gocanopen.Base.{
  ◌⊎◌, take, ℕ, ◌+◌, ◌-◌, ◌≤◌, ◌<◌, ◌≡◌, refl, ◌∙◌, Bool, true, false, not, ◌||◌, ◌&&◌, none, List,
  [], ◌∷◌, ◌++◌, length, arith, ◌==◌, inl, inr, if◌then◌else◌,
}
use gocanopen.Can.{Frame}
use gocanopen.Od.Errors.{Outcome, done, ◌>>=◌}
use gocanopen.Pdo.Tpdo.Packed.{Fits, packed, send-packed, sends, after_send}
use gocanopen.Pdo.Tpdo.{
  Tpdo, quiet, process, requested, run_event_timer, transmit, on_event, inhibited_next, event_next,
  has_clear_flag, counted_down, is_event_driven, send,
}

-- Calls of Process that take the given times while the node is operational: the TPDO and all frames sent.
unfoldable pub over_time : Tpdo → List ℕ → Outcome (Tpdo × List Frame)
over_time t [] = done (t, [])
over_time t (time_us ∷ times) = process t time_us none true false none >>= λ p.
    over_time p.tpdo times >>= λ (t', frames). done (t', p.frames ++ frames)

abbrev pub total : List ℕ → ℕ
total [] = 0
total (time_us ∷ times) = time_us + total times

-- A valid TPDO that sends on events, with as many mapped objects as it has flag bytes at most.
pub record IsEventDriven (t : Tpdo) : Type 0 where
  pub valid : t.pdo.valid ≡ true
  pub type_is : 254 ≤ t.transmission_type
  pub flags : t.pdo.nb_mapped ≤ 32

-- The TPDO when `timer` is left of its inhibit time: its event timer and its request may have changed.
abbrev pub waiting : Tpdo → (timer event_timer : ℕ) → (request : Bool) → Tpdo
waiting t timer event_timer request = record t {
  inhibit_timer = timer;
  event_timer = event_timer;
  send_request = request;
}

waiting-IsEventDriven :
    (t : Tpdo) (timer event_timer : ℕ) (request : Bool)
    → IsEventDriven t
    → IsEventDriven (waiting t timer event_timer request)
waiting-IsEventDriven t timer event_timer request e = record {
  valid = e.valid;
  type_is = e.type_is;
  flags = e.flags;
}

abbrev event_timer_after : Tpdo → (time_us : ℕ) → ℕ
event_timer_after t time_us =
    if t.event_time_us == 0 then t.event_timer else counted_down t.event_timer time_us

abbrev request_after : Tpdo → (time_us : ℕ) → Bool
request_after t time_us =
    t.send_request
    || (not (t.event_time_us == 0) && (counted_down t.event_timer time_us == 0))
    || has_clear_flag t.flags t.pdo.nb_mapped t.pdo.slots

requested_lem :
    (t : Tpdo) (time_us : ℕ)
    → IsEventDriven t
    → requested t time_us
      ≡ done (waiting t t.inhibit_timer (event_timer_after t time_us) (request_after t time_us))
unfolding requested run_event_timer is_event_driven
requested_lem t time_us e = ground (arith, e.type_is, e.flags)

process_event :
    (t : Tpdo) (time_us : ℕ)
    → IsEventDriven t
    → process t time_us none true false none
      ≡ on_event
          (waiting t t.inhibit_timer (event_timer_after t time_us) (request_after t time_us))
          time_us
          none
unfolding process transmit event_next
process_event t time_us e = ground (arith, e.valid, e.type_is, requested_lem t time_us e)

on_event_inhibited :
    (t : Tpdo) (time_us : ℕ)
    → time_us < t.inhibit_timer
    → on_event t time_us none
      ≡ done (quiet (record t { inhibit_timer = t.inhibit_timer - time_us }) none)
unfolding on_event inhibited_next
on_event_inhibited t time_us early = ground (arith, early)

on_event_over :
    (t : Tpdo) (time_us : ℕ)
    → t.send_request ≡ true
    → t.inhibit_timer ≤ time_us
    → on_event t time_us none
      ≡ (send (record t { inhibit_timer = 0 }) none >>= λ p. done (inhibited_next p))
unfolding on_event
on_event_over t time_us wanted late = ground (arith, wanted, late)

process_inhibited :
    (t : Tpdo) (time_us : ℕ)
    → IsEventDriven t
    → time_us < t.inhibit_timer
    → process t time_us none true false none
      ≡ done (
          quiet
            (waiting t
              (t.inhibit_timer - time_us)
              (event_timer_after t time_us)
              (request_after t time_us))
            none)
process_inhibited t time_us e early = process_event t time_us e ∙ on_event_inhibited _ time_us early

-- Below its inhibit time, a valid TPDO that sends on events sends nothing, however often Process is
-- called and whatever requests there are; a request is kept.
pub over_time-inhibited :
    (t : Tpdo) (times : List ℕ)
    → IsEventDriven t
    → total times < t.inhibit_timer
    → (event_timer : ℕ) × (request : Bool) × (over_time t times
        ≡ done (waiting t (t.inhibit_timer - total times) event_timer request, []))
      × (t.send_request ≡ true → request ≡ true)
unfolding over_time
over_time-inhibited t [] e early =
    let left : t.inhibit_timer - 0 ≡ t.inhibit_timer = omega arith in
    (t.event_timer, t.send_request, rw left refl, λ h. h)
over_time-inhibited t (time_us ∷ times) e early =
    let t' =
      waiting t (t.inhibit_timer - time_us) (event_timer_after t time_us)
        (request_after t time_us) in
    let (event_timer, request, runs, keeps) =
      over_time-inhibited t' times (waiting-IsEventDriven t _ _ _ e) (omega (arith, early)) in
    let left : t.inhibit_timer - time_us - total times ≡ t.inhibit_timer - (time_us + total times) =
      omega arith in
    (
      event_timer,
      request,
      rw (process_inhibited t time_us e (omega (arith, early)), runs, left) refl,
      λ h. keeps (rw h refl),
    )

process_over :
    (t : Tpdo) (time_us : ℕ)
    → IsEventDriven t
    → t.send_request ≡ true
    → t.inhibit_timer ≤ time_us
    → Fits t.pdo.od t.pdo.nb_mapped t.pdo.slots 0
    → length t.tx_buffer.bytes ≡ 8
    → (bytes : List ℕ) × (process t time_us none true false none
        ≡ done (
            sends (waiting t 0 (event_timer_after t time_us) (request_after t time_us)) none bytes))
      × (take (length (packed t.pdo.od t.pdo.nb_mapped t.pdo.slots)) bytes
          ≡ packed t.pdo.od t.pdo.nb_mapped t.pdo.slots)
unfolding inhibited_next
process_over t time_us e wanted late fits eight =
    let t' = waiting t 0 (event_timer_after t time_us) (request_after t time_us) in
    let (bytes, sent, mapped, size) = send-packed t' none fits eight in
    (
      bytes,
      process_event t time_us e ∙ on_event_over _ time_us (rw wanted refl) late ∙ rw sent refl,
      mapped,
    )

-- The request of a valid TPDO that sends on events, whose mapped variables fit its frame, is met once:
-- by the call in which its inhibit time is over, the first one if there is none, and with the mapped bytes of the variables. After it
-- the inhibit time starts anew.
pub over_time-once :
    (t : Tpdo) (before : List ℕ) (last : ℕ)
    → IsEventDriven t
    → t.send_request ≡ true
    → (before ≡ []) ⊎ (total before < t.inhibit_timer)
    → t.inhibit_timer ≤ total before + last
    → Fits t.pdo.od t.pdo.nb_mapped t.pdo.slots 0
    → length t.tx_buffer.bytes ≡ 8
    → (t' : Tpdo) × (bytes : List ℕ) × (over_time t (before ++ (last ∷ []))
        ≡ done (t', record t.tx_buffer { bytes = bytes } ∷ []))
      × (take (length (packed t.pdo.od t.pdo.nb_mapped t.pdo.slots)) bytes
          ≡ packed t.pdo.od t.pdo.nb_mapped t.pdo.slots)
      × (t'.inhibit_timer ≡ t.inhibit_time_us)
      × (t'.send_request ≡ false)
unfolding over_time
over_time-once t [] last e wanted early late fits eight =
    let (bytes, sent, mapped) = process_over t last e wanted (omega (arith, late)) fits eight in
    let t' = waiting t 0 (event_timer_after t last) (request_after t last) in
    (after_send t' bytes, bytes, rw sent refl, mapped, refl, refl)
over_time-once t (time_us ∷ before) last e wanted (inl empty) late fits eight = cc
over_time-once t (time_us ∷ before) last e wanted (inr early) late fits eight =
    let t' =
      waiting t (t.inhibit_timer - time_us) (event_timer_after t time_us)
        (request_after t time_us) in
    let (t'', bytes, runs, mapped, timer, request) =
      over_time-once t' before last (waiting-IsEventDriven t _ _ _ e) (rw wanted refl)
        (inr (omega (arith, early))) (omega (arith, early, late)) fits eight in
    (
      t'',
      bytes,
      rw (process_inhibited t time_us e (omega (arith, early)), runs) refl,
      mapped,
      timer,
      request,
    )
