-- ===== src/Pdo/Parameters/Framed.antt =====
-- pkg/pdo: the frame of a TPDO while its parameters are written and Process is called.
use gocanopen.Base.{
  ℕ, ◌≤◌, ◌<◌, ◌≡◌, refl, ◌∙◌, Bool, true, false, not, ◌&&◌, ◌||◌, Option, none, some, List, arith,
  ltb, leb, ◌==◌, if_both, [], ◌∷◌,
}
use mathlib.Core.Path.{subst}
use gocanopen.Can.{Frame}
use gocanopen.Od.Errors.{Outcome, done, panicked, ◌>>=◌}
use gocanopen.Sync.{Sync}
use gocanopen.Pdo.Tpdo.{
  Tpdo, Gathered, Processed, quiet, gather, gathered, sent, send, cleared, run_event_timer,
  requested, on_event, inhibited_next, started, cyclic, on_sync, transmit, process, event_next,
  counted_down, is_event_driven,
}
use gocanopen.Pdo.Tpdo.Unfit.{OrPanics}

-- What the frame of a TPDO rests on.
pub record Shape : Type 0 where
  pub valid : Bool
  pub data_length : ℕ
  pub nb_mapped : ℕ
  pub configured_id : ℕ
  pub id : ℕ
  pub dlc : ℕ

abbrev pub shape : Tpdo → Shape
shape t = record {
  valid = t.pdo.valid;
  data_length = t.pdo.data_length;
  nb_mapped = t.pdo.nb_mapped;
  configured_id = t.pdo.configured_id;
  id = t.tx_buffer.id;
  dlc = t.tx_buffer.dlc;
}

-- At most eight bytes are mapped, and a valid TPDO has something mapped and a frame with its identifier
-- and the length of what is mapped.
pub record IsFramed (s : Shape) : Type 0 where
  pub bound : s.data_length ≤ 8
  pub some_mapped : s.valid ≡ true → 0 < s.nb_mapped
  pub dlc_is : s.valid ≡ true → s.dlc ≡ s.data_length
  pub id_is : s.valid ≡ true → s.id ≡ s.configured_id

module _ {A B : Type 0} (R : B → Type 0) (f : A → Outcome B) where
  pub any-OrPanics : (x : Outcome A) → ((a : A) → OrPanics R (f a)) → OrPanics R (x >>= f)
  any-OrPanics (done a) h = h a
  any-OrPanics panicked h = tt

  pub bind-OrPanics :
      (Q : A → Type 0) (x : Outcome A)
      → OrPanics Q x
      → ((a : A) → Q a → OrPanics R (f a))
      → OrPanics R (x >>= f)
  bind-OrPanics Q (done a) q h = h a q
  bind-OrPanics Q panicked q h = tt

pub weaken-OrPanics :
    {A : Type 0} (Q R : A → Type 0) (x : Outcome A)
    → OrPanics Q x
    → ((a : A) → Q a → R a)
    → OrPanics R x
weaken-OrPanics Q R (done a) q h = h a q
weaken-OrPanics Q R panicked q h = tt

-- Frames with the identifier and the length of a frame.
abbrev pub AllLike : Shape → List Frame → Type 0
AllLike s [] = Unit
AllLike s (f ∷ fs) = (f.id ≡ s.id) × (f.dlc ≡ s.dlc) × AllLike s fs

-- `Process` leaves the shape as it is, and sends frames of that shape.
abbrev Same : Tpdo → Processed → Type 0
Same t p = (shape p.tpdo ≡ shape t) × AllLike (shape t) p.frames

sent-Same : (t : Tpdo) (next : Option ℕ) (g : Gathered) → Same t (sent t next g)
unfolding sent gathered
sent-Same t next g = elim g.err as (λ err. Same t (sent t next (record g { err = err }))) [
  | none ↦ (refl, (refl, refl, tt))
  | some err ↦ (refl, tt)
]

send-Same : (t : Tpdo) (next : Option ℕ) → OrPanics (Same t) (send t next)
unfolding send
send-Same t next =
    any-OrPanics (Same t) (λ g. done (sent t next g))
      (gather (is_event_driven t) t.pdo.od t.pdo.nb_mapped t.pdo.slots 0 t.flags t.tx_buffer.bytes)
      (sent-Same t next)

inhibited_next-Same : (t : Tpdo) (p : Processed) → Same t p → Same t (inhibited_next p)
unfolding inhibited_next
inhibited_next-Same t p h = h

on_event-Same :
    (t : Tpdo) (time_us : ℕ) (next : Option ℕ) → OrPanics (Same t) (on_event t time_us next)
unfolding on_event inhibited_next
on_event-Same t time_us next =
    let t' = record t { inhibit_timer = counted_down t.inhibit_timer time_us } in
    if_both (OrPanics (Same t)) (t'.send_request && (t'.inhibit_timer == 0))
      (send t' next >>= λ p. done (inhibited_next p)) (done (inhibited_next (quiet t' next)))
      (bind-OrPanics (Same t) (λ p. done (inhibited_next p)) (Same t') (send t' next)
        (send-Same t' next) (λ p h. inhibited_next-Same t p h))
      (refl, tt)

cyclic-Same : (t : Tpdo) (sync : Sync) (next : Option ℕ) → OrPanics (Same t) (cyclic t sync next)
unfolding cyclic
cyclic-Same t sync next =
    let again = record t { sync_counter = t.transmission_type } in
    if_both (OrPanics (Same t)) (t.sync_counter == 254) _ _
      (if_both (OrPanics (Same t)) (sync.counter == t.sync_start_value) (send again next) _
        (send-Same again next) (refl, tt))
      (if_both (OrPanics (Same t)) (t.sync_counter == 1) (send again next) _ (send-Same again next)
        (refl, tt))

shape-started : (t : Tpdo) (sync : Sync) → shape (started t sync) ≡ shape t
unfolding started
shape-started t sync = ground arith

carry_over :
    (t t' : Tpdo) (x : Outcome Processed)
    → shape t' ≡ shape t
    → OrPanics (Same t') x
    → OrPanics (Same t) x
carry_over t t' (done p) e h = (h.0 ∙ e, subst (λ s. AllLike s p.frames) e h.1)
carry_over t t' panicked e h = tt

on_sync-Same : (t : Tpdo) (sync : Sync) (next : Option ℕ) → OrPanics (Same t) (on_sync t sync next)
unfolding on_sync
on_sync-Same t sync next =
    if_both (OrPanics (Same t)) ((t.transmission_type == 0) && t.send_request) (send t next)
      (cyclic (started t sync) sync next) (send-Same t next)
      (carry_over t (started t sync) (cyclic (started t sync) sync next) (shape-started t sync)
        (cyclic-Same (started t sync) sync next))

transmit-Same :
    (t : Tpdo) (time_us : ℕ) (next : Option ℕ) (sync_was : Bool) (sync : Option Sync)
    → OrPanics (Same t) (transmit t time_us next sync_was sync)
unfolding transmit
transmit-Same t time_us next sync_was none =
    if_both (OrPanics (Same t)) (leb 0xfe t.transmission_type) _ _ (on_event-Same t time_us next)
      (refl, tt)
transmit-Same t time_us next sync_was (some sync) =
    if_both (OrPanics (Same t)) (leb 0xfe t.transmission_type) _ _ (on_event-Same t time_us next)
      (if_both (OrPanics (Same t)) sync_was _ _ (on_sync-Same t sync next) (refl, tt))

shape-run_event_timer : (t : Tpdo) (time_us : ℕ) → shape (run_event_timer t time_us) ≡ shape t
unfolding run_event_timer
shape-run_event_timer t time_us = ground arith

shape-requested :
    (t : Tpdo) (time_us : ℕ) → OrPanics (λ (t' : Tpdo). shape t' ≡ shape t) (requested t time_us)
unfolding requested run_event_timer
shape-requested t time_us =
    let t' = run_event_timer t time_us in
    if_both Kept (not (is_event_driven t)) _ _ refl (
      if_both Kept t'.send_request _ _ (shape-run_event_timer t time_us)
        (if_both Kept (ltb 32 t.pdo.nb_mapped) panicked _ tt (shape-run_event_timer t time_us)))
  where
    Kept : Outcome Tpdo → Type 0
    Kept = OrPanics (λ (t' : Tpdo). shape t' ≡ shape t)

pub process-Same :
    (t : Tpdo) (time_us : ℕ) (next : Option ℕ) (nmt_is_operational sync_was : Bool)
    (sync : Option Sync)
    → OrPanics (Same t) (process t time_us next nmt_is_operational sync_was sync)
unfolding process cleared
process-Same t time_us next nmt_is_operational sync_was sync =
    if_both (OrPanics (Same t)) (not t.pdo.valid || not nmt_is_operational) _ _ (refl, tt)
      (bind-OrPanics (Same t) (λ t'. transmit t' time_us (event_next t' next) sync_was sync)
        (λ t'. shape t' ≡ shape t) (requested t time_us) (shape-requested t time_us)
        (λ t' e. carry_over t t' _ e (transmit-Same t' time_us (event_next t' next) sync_was sync)))

-- A TPDO that is not valid sends nothing.
pub process-invalid :
    (t : Tpdo) (time_us : ℕ) (next : Option ℕ) (nmt_is_operational sync_was : Bool)
    (sync : Option Sync)
    → t.pdo.valid ≡ false
    → process t time_us next nmt_is_operational sync_was sync ≡ done (quiet (cleared t) next)
unfolding process
process-invalid t time_us next nmt_is_operational sync_was sync invalid = rw invalid refl
