-- ===== src/Pdo/Tpdo/Start.antt =====
-- pkg/pdo/tpdo.go: the first frame of a TPDO that sends on SYNC messages.
use gocanopen.Base.{
  ℕ, ◌⊎◌, suc, ◌+◌, ◌-◌, ◌/◌, ◌≤◌, ◌≡◌, ◌≢◌, refl, ap, ◌∙◌, sym, true, false, none, some, List, [],
  ◌∷◌, ◌++◌, length, arith, inr, Bool, Option, zero, if◌then◌else◌, if_both,
}
use mathlib.Core.Path.{subst}
use gocanopen.Od.Errors.{done}
use gocanopen.Sync.{Sync}
use gocanopen.Pdo.Tpdo.{
  Tpdo, quiet, process, started, cyclic, send, requested, run_event_timer, event_next, transmit,
  on_sync, is_event_driven, has_clear_flag, Flags, with_flag, is_clear,
}
use gocanopen.Base.Masks.{bit_and-bit_or}
use gocanopen.Pdo.{Slot}
use gocanopen.Pdo.Tpdo.Packed.{after_send, marked, Fits}
use gocanopen.Pdo.Tpdo.Cycle.{
  no_frame, IsCyclic, Sends, on_syncs, on_syncs-count, quiet-Sends, send-Sends, process-cyclic,
  restarted, after_send-IsCyclic,
}

abbrev pub counting_from : Tpdo → (counter : ℕ) → Tpdo
counting_from t counter = record t { sync_counter = counter }

counting_from-IsCyclic :
    (n : ℕ) (t : Tpdo) (counter : ℕ) → IsCyclic n t → IsCyclic n (counting_from t counter)
counting_from-IsCyclic n t counter c = record {
  valid = c.valid;
  type_is = c.type_is;
  positive = c.positive;
  small = c.small;
  fits = c.fits;
  eight = c.eight;
}

process_first :
    (n : ℕ) (t : Tpdo) (time_us : ℕ) (sync : Sync)
    → IsCyclic n t
    → t.sync_counter ≡ 255
    → (sync.counter_overflow ≡ 0) ⊎ (t.sync_start_value ≡ 0)
    → process t time_us none true true (some sync)
      ≡ process (counting_from t (n / 2 + 1)) time_us none true true (some sync)
unfolding started
process_first n t time_us sync c fresh no_start =
    let small = c.small in
    let first : started t sync ≡ counting_from t (n / 2 + 1) =
      ground (arith, fresh, no_start, c.type_is) in
    let again : started (counting_from t (n / 2 + 1)) sync ≡ counting_from t (n / 2 + 1) =
      ground (arith, small) in
    process-cyclic n t time_us sync c
    ∙ ap (λ t'. cyclic t' sync none) (first ∙ sym again)
    ∙ sym (
        process-cyclic n (counting_from t (n / 2 + 1)) time_us sync
          (counting_from-IsCyclic n t (n / 2 + 1) c))

-- A TPDO of type `n` that has seen no SYNC message yet, without a counter of the SYNC object or without
-- a start value of its own, first sends on message number `n / 2 + 1` and then on every `n`-th one.
on_syncs_first :
    (n : ℕ) (t : Tpdo) (time_us : ℕ) (sync : Sync) (syncs : List Sync)
    → IsCyclic n t
    → t.sync_counter ≡ 255
    → (sync.counter_overflow ≡ 0) ⊎ (t.sync_start_value ≡ 0)
    → Sends t.pdo t.tx_buffer.id t.tx_buffer.dlc t time_us
        (sync ∷ syncs)
        ((length (sync ∷ syncs) + n - (n / 2 + 1)) / n)
unfolding on_syncs
on_syncs_first n t time_us sync syncs c fresh no_start =
    let (r, runs, counts, frames) =
      on_syncs-count n (counting_from t (n / 2 + 1)) time_us (sync ∷ syncs)
        (counting_from-IsCyclic n t (n / 2 + 1) c) (omega arith) (omega (arith, c.positive)) in
    (r, rw (process_first n t time_us sync c fresh no_start) runs, counts, frames)

-- SYNC messages with a counter in use that is not the start value yet.
pub data AllBefore (start : ℕ) : List Sync → Type 0 where
  none_before : AllBefore start []
  one_before :
      {sync : Sync} {syncs : List Sync}
      → sync.counter ≢ start
      → sync.counter_overflow ≢ 0
      → AllBefore start syncs
      → AllBefore start (sync ∷ syncs)

process_waiting :
    (n : ℕ) (t : Tpdo) (time_us : ℕ) (sync : Sync)
    → IsCyclic n t
    → (t.sync_counter ≡ 255) ⊎ (t.sync_counter ≡ 254)
    → t.sync_start_value ≢ 0
    → sync.counter_overflow ≢ 0
    → sync.counter ≢ t.sync_start_value
    → process t time_us none true true (some sync) ≡ done (quiet (counting_from t 254) none)
unfolding started cyclic
process_waiting n t time_us sync c waits start overflow early =
    process-cyclic n t time_us sync c ∙ ground (arith, waits, start, overflow, early)

process_starting :
    (n : ℕ) (t : Tpdo) (time_us : ℕ) (sync : Sync)
    → IsCyclic n t
    → (t.sync_counter ≡ 255) ⊎ (t.sync_counter ≡ 254)
    → t.sync_start_value ≢ 0
    → sync.counter_overflow ≢ 0
    → sync.counter ≡ t.sync_start_value
    → process t time_us none true true (some sync) ≡ send (restarted t) none
unfolding started cyclic
process_starting n t time_us sync c waits start overflow now =
    process-cyclic n t time_us sync c ∙ ground (arith, waits, start, overflow, now)

-- The messages before the start value and those from it on.
on_syncs_from_start :
    (n : ℕ) (t : Tpdo) (time_us : ℕ) (before : List Sync) (sync : Sync) (after : List Sync)
    → IsCyclic n t
    → (t.sync_counter ≡ 255) ⊎ (t.sync_counter ≡ 254)
    → t.sync_start_value ≢ 0
    → AllBefore t.sync_start_value before
    → sync.counter_overflow ≢ 0
    → sync.counter ≡ t.sync_start_value
    → Sends t.pdo t.tx_buffer.id t.tx_buffer.dlc t time_us
        (before ++ (sync ∷ after))
        (suc (length after / n))
on_syncs_from_start n t time_us [] sync after c waits start none_before overflow now =
    send-Sends t (restarted t) time_us sync after (length after / n)
      (process_starting n t time_us sync c waits start overflow now) c.fits c.eight
      (λ bytes size.
        subst
          (Sends t.pdo t.tx_buffer.id t.tx_buffer.dlc (after_send (restarted t) bytes) time_us
            after)
          (ap (λ m. m / n) (omega (arith, c.type_is)))
          (on_syncs-count n (after_send (restarted t) bytes) time_us after
            (after_send-IsCyclic n t bytes c size) (omega (arith, c.type_is, c.positive))
            (omega (arith, c.type_is))))
on_syncs_from_start n t time_us (first ∷ before) sync after c waits start
      (one_before early counts rest) overflow now =
    quiet-Sends t.pdo t.tx_buffer.id t.tx_buffer.dlc t (counting_from t 254) time_us first
      (before ++ (sync ∷ after)) (suc (length after / n))
      (process_waiting n t time_us first c waits start counts early)
      (on_syncs_from_start n (counting_from t 254) time_us before sync after
        (counting_from-IsCyclic n t 254 c) (inr refl) start rest overflow now)

-- Messages with other counters alone.
on_syncs_before :
    (n : ℕ) (t : Tpdo) (time_us : ℕ) (before : List Sync)
    → IsCyclic n t
    → (t.sync_counter ≡ 255) ⊎ (t.sync_counter ≡ 254)
    → t.sync_start_value ≢ 0
    → AllBefore t.sync_start_value before
    → Sends t.pdo t.tx_buffer.id t.tx_buffer.dlc t time_us before 0
unfolding on_syncs
on_syncs_before n t time_us [] c waits start none_before = ((t, []), refl, refl, no_frame)
on_syncs_before n t time_us (first ∷ before) c waits start (one_before early counts rest) =
    quiet-Sends t.pdo t.tx_buffer.id t.tx_buffer.dlc t (counting_from t 254) time_us first before 0
      (process_waiting n t time_us first c waits start counts early)
      (on_syncs_before n (counting_from t 254) time_us before (counting_from-IsCyclic n t 254 c)
        (inr refl) start rest)

-- Take a valid TPDO of type `n` from 1 to 240, whose mapped variables fit its frame, with a start value
-- that it waits for, as one that has seen no SYNC message yet, and a SYNC object with a counter. The TPDO
-- sends no frame on any number of messages with other counters. If a message with the start value as its
-- counter follows, and `m` more, it sends `1 + m / n` frames in all, with the mapped bytes: one on that
-- message and one on every `n`-th after it.
pub on_syncs-start :
    (n : ℕ) (t : Tpdo) (time_us : ℕ) (before : List Sync) (sync : Sync) (after : List Sync)
    → IsCyclic n t
    → (t.sync_counter ≡ 255) ⊎ (t.sync_counter ≡ 254)
    → t.sync_start_value ≢ 0
    → AllBefore t.sync_start_value before
    → sync.counter_overflow ≢ 0
    → sync.counter ≡ t.sync_start_value
    → Sends t.pdo t.tx_buffer.id t.tx_buffer.dlc t time_us before 0
      × Sends t.pdo t.tx_buffer.id t.tx_buffer.dlc t time_us
          (before ++ (sync ∷ after))
          (suc (length after / n))
on_syncs-start n t time_us before sync after c waits start early overflow now = (
  on_syncs_before n t time_us before c waits start early,
  on_syncs_from_start n t time_us before sync after c waits start early overflow now,
)

-- A valid TPDO of the acyclic type that nothing requests: no event timer, no flag bit that is clear and
-- no start value. Its mapped variables fit its frame.
pub record IsUnrequested (t : Tpdo) : Type 0 where
  pub valid : t.pdo.valid ≡ true
  pub type_is : t.transmission_type ≡ 0
  pub no_request : t.send_request ≡ false
  pub no_timer : t.event_time_us ≡ 0
  pub no_start : t.sync_start_value ≡ 0
  pub few : t.pdo.nb_mapped ≤ 32
  pub flags_set : has_clear_flag t.flags t.pdo.nb_mapped t.pdo.slots ≡ false
  pub fits : Fits t.pdo.od t.pdo.nb_mapped t.pdo.slots 0
  pub eight : length t.tx_buffer.bytes ≡ 8

-- Without a start value, the counter starts at 1, so that the frame is sent, and becomes 0.
process_at_255 :
    (t : Tpdo) (time_us : ℕ) (sync : Sync)
    → IsUnrequested t
    → process (counting_from t 255) time_us none true true (some sync)
      ≡ send (counting_from t 0) none
unfolding process requested run_event_timer event_next transmit on_sync started cyclic
    is_event_driven
process_at_255 t time_us sync u =
    ground (arith, u.valid, u.type_is, u.no_request, u.no_timer, u.few, u.flags_set, u.no_start)

-- From 0 it wraps to 255.
process_at_0 :
    (t : Tpdo) (time_us : ℕ) (sync : Sync)
    → IsUnrequested t
    → process (counting_from t 0) time_us none true true (some sync)
      ≡ done (quiet (counting_from t 255) none)
unfolding process requested run_event_timer event_next transmit on_sync started cyclic
    is_event_driven
process_at_0 t time_us sync u =
    ground (arith, u.valid, u.type_is, u.no_request, u.no_timer, u.few, u.flags_set)

-- Setting flag bits makes none clear.
is_clear-with_flag :
    (flags : Flags) (flag flag' : Option (ℕ × ℕ)) (mask mask' : ℕ)
    → is_clear flags flag' mask' ≡ false
    → is_clear (with_flag flags flag mask) flag' mask' ≡ false
unfolding is_clear with_flag
is_clear-with_flag flags none flag' mask mask' set = set
is_clear-with_flag flags (some (i, n)) none mask mask' set = refl
is_clear-with_flag flags (some (i, n)) (some (i', n')) mask mask' set =
    let more = bit_and-bit_or (flags i' n') mask mask' in ground (arith, set, more)

has_clear_flag-with_flag :
    (flags : Flags) (flag : Option (ℕ × ℕ)) (mask left : ℕ) (slots : List Slot)
    → has_clear_flag flags left slots ≡ false
    → has_clear_flag (with_flag flags flag mask) left slots ≡ false
unfolding has_clear_flag
has_clear_flag-with_flag flags flag mask zero slots set = refl
has_clear_flag-with_flag flags flag mask (suc left) [] set = refl
has_clear_flag-with_flag flags flag mask (suc left) (slot ∷ slots) set =
    let this : is_clear flags slot.flag slot.flag_bitmask ≡ false = ground (arith, set) in
    let rest : has_clear_flag flags left slots ≡ false = ground (arith, set) in
    rw (is_clear-with_flag flags flag slot.flag mask slot.flag_bitmask this)
      (has_clear_flag-with_flag flags flag mask left slots rest)

has_clear_flag-marked :
    (event_driven : Bool) (flags : Flags) (left' : ℕ) (slots' : List Slot) (left : ℕ)
    (slots : List Slot)
    → has_clear_flag flags left slots ≡ false
    → has_clear_flag (marked event_driven flags left' slots') left slots ≡ false
unfolding marked
has_clear_flag-marked event_driven flags zero slots' left slots set = set
has_clear_flag-marked event_driven flags (suc left') [] left slots set = set
has_clear_flag-marked event_driven flags (suc left') (slot ∷ slots') left slots set =
    has_clear_flag-marked event_driven
      (if event_driven then with_flag flags slot.flag slot.flag_bitmask else flags) left' slots'
      left slots
      (if_both (λ (f : Flags). has_clear_flag f left slots ≡ false) event_driven _ _
        (has_clear_flag-with_flag flags slot.flag slot.flag_bitmask left slots set) set)

after_send-IsUnrequested :
    (t : Tpdo) (bytes : List ℕ)
    → IsUnrequested t
    → length bytes ≡ 8
    → IsUnrequested (after_send (counting_from t 0) bytes)
after_send-IsUnrequested t bytes u size = record {
  valid = u.valid;
  type_is = u.type_is;
  no_request = refl;
  no_timer = u.no_timer;
  no_start = u.no_start;
  few = u.few;
  flags_set =
      has_clear_flag-marked (is_event_driven (counting_from t 0)) t.flags t.pdo.nb_mapped
        t.pdo.slots t.pdo.nb_mapped t.pdo.slots u.flags_set;
  fits = u.fits;
  eight = size;
}

-- The frames from each of the two values of the counter.
on_syncs_alternate :
    (t : Tpdo) (time_us : ℕ) (syncs : List Sync)
    → IsUnrequested t
    → Sends t.pdo t.tx_buffer.id t.tx_buffer.dlc
        (counting_from t 255)
        time_us
        syncs
        ((length syncs + 1) / 2)
      × Sends t.pdo t.tx_buffer.id t.tx_buffer.dlc
          (counting_from t 0)
          time_us
          syncs
          (length syncs / 2)
unfolding on_syncs
on_syncs_alternate t time_us [] u = (
  ((counting_from t 255, []), refl, refl, no_frame),
  ((counting_from t 0, []), refl, refl, no_frame),
)
on_syncs_alternate t time_us (sync ∷ syncs) u = (
  subst (Sends t.pdo t.tx_buffer.id t.tx_buffer.dlc (counting_from t 255) time_us (sync ∷ syncs))
      (omega arith)
      (send-Sends (counting_from t 255) (counting_from t 0) time_us sync syncs (length syncs / 2)
        (process_at_255 t time_us sync u) u.fits u.eight
        (λ bytes size.
          (on_syncs_alternate (after_send (counting_from t 0) bytes) time_us syncs
            (after_send-IsUnrequested t bytes u size)).1)),
  subst (Sends t.pdo t.tx_buffer.id t.tx_buffer.dlc (counting_from t 0) time_us (sync ∷ syncs))
      (omega arith)
      (quiet-Sends t.pdo t.tx_buffer.id t.tx_buffer.dlc (counting_from t 0) (counting_from t 255)
        time_us sync syncs ((length syncs + 1) / 2) (process_at_0 t time_us sync u)
        (on_syncs_alternate t time_us syncs u).0),
)

-- A valid TPDO of the acyclic type, without an event timer, a request or a start value, whose mapped
-- variables, at most 32, fit its frame, whose flag bits are all set and which has seen no SYNC message
-- yet, is sent without any request: on the first SYNC message and on every second one after it,
-- `(m + 1) / 2` times on `m` messages, each time with its identifier, its length and the mapped bytes.
pub on_syncs-unrequested :
    (t : Tpdo) (time_us : ℕ) (syncs : List Sync)
    → IsUnrequested t
    → Sends t.pdo t.tx_buffer.id t.tx_buffer.dlc
        (counting_from t 255)
        time_us
        syncs
        ((length syncs + 1) / 2)
on_syncs-unrequested t time_us syncs u = (on_syncs_alternate t time_us syncs u).0
