-- ===== src/Time/Passing.antt =====
-- pkg/time/time.go: the clock keeps the time that passes, and a time stamp carries it over.
use gocanopen.Base.{
  ℕ, ◌+◌, ◌*◌, ◌<◌, ◌≤◌, ◌≡◌, Bool, true, false, arith, ltb, Bool-cases, inl, inr, ◌∙◌, ap,
}
use gocanopen.Time.{Clock, handle, receive, advance, timestamp, produce, process, ms_per_day}

-- The microseconds since the origin that the clock shows.
abbrev pub microseconds : Clock → ℕ
microseconds t = (t.days * 86400000 + t.ms) * 1000 + t.residual_us

-- A clock that shows a time of a day, with a day to come that fits a uint16.
pub record IsValid (t : Clock) : Type 0 where
  pub ms_in : t.ms < 86400000
  pub residual_in : t.residual_us < 1000
  pub days_in : t.days < 65535

advance_lem :
    (t : Clock) (dt : ℕ)
    → IsValid t
    → dt + 1000 ≤ 4294967296
    → microseconds (advance t dt).0 ≡ microseconds t + dt
unfolding advance
advance_lem t dt v h = ground arith

produce_keeps :
    (t : Clock) (active : Bool) (ms : ℕ) → microseconds (produce t active ms).0 ≡ microseconds t
unfolding produce
produce_keeps t active ms = ground arith

receive_keeps :
    (t : Clock) (active : Bool)
    → (receive t active).1 ≡ false
    → (microseconds (receive t active).0 ≡ microseconds t)
      × (IsValid t → IsValid (receive t active).0)
unfolding receive
receive_keeps t active h = ground (arith, h)

-- A call of `Process` that takes over no time stamp moves a clock that shows a time of a day,
-- before the last day that a uint16 counts, on by exactly the microseconds given, as long as they
-- and a residual millisecond fit a uint32.
pub process-microseconds :
    (t : Clock) (active : Bool) (dt : ℕ)
    → IsValid t
    → dt + 1000 ≤ 4294967296
    → (process t active dt).received ≡ false
    → microseconds (process t active dt).clock ≡ microseconds t + dt
unfolding process
process-microseconds t active dt v h silent =
    let kept = receive_keeps t active silent in
    let moved = advance_lem (receive t active).0 dt (kept.1 v) h in
    elim (Bool-cases (ltb 0 dt)) [
      | inl some_time ↦
          rw (silent, some_time)
            (produce_keeps (advance (receive t active).0 dt).0 active _
              ∙ moved
              ∙ ap (λ (x : ℕ). x + dt) kept.0)
      | inr no_time ↦
          rw (silent, no_time)
            (produce_keeps (receive t active).0 active 0 ∙ kept.0 ∙ ground (arith, no_time))
    ]

-- A consumer that handles a time stamp, made by a clock within a day and a uint16 of days, shows
-- that clock's day and milliseconds after its next active call of `Process`, which says that it
-- received one.
pub process-handle-timestamp :
    (a b : Clock) (dt : ℕ)
    → a.ms < ms_per_day
    → a.days < 65536
    → b.is_consumer ≡ true
    → ((process (handle b (timestamp a)) true dt).clock.ms ≡ a.ms)
      × ((process (handle b (timestamp a)) true dt).clock.days ≡ a.days)
      × ((process (handle b (timestamp a)) true dt).received ≡ true)
unfolding process handle timestamp receive produce
process-handle-timestamp a b dt ms days consumer = ground (arith, consumer)
