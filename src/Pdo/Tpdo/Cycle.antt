-- ===== src/Pdo/Tpdo/Cycle.antt =====
-- pkg/pdo/tpdo.go: when a TPDO that sends on SYNC messages sends.
use gocanopen.Base.{
  ℕ, ◌⊎◌, zero, suc, ◌+◌, ◌-◌, ◌/◌, ◌≤◌, ◌<◌, ◌≡◌, refl, ap, ◌∙◌, sym, true, none, some, List, [],
  ◌∷◌, ◌++◌, length, take, arith, inl, inr, u8,
}
use mathlib.Core.Path.{subst}
use native.Mathlib.Nat.{add-div_right, div-eq_of_lt}
use gocanopen.Can.{Frame}
use gocanopen.Od.Errors.{Outcome, done, ◌>>=◌}
use gocanopen.Sync.{Sync}
use gocanopen.Pdo.{Pdo}
use gocanopen.Pdo.Tpdo.{
  Tpdo, quiet, process, requested, event_next, transmit, on_sync, started, cyclic, send,
  is_event_driven,
}
use gocanopen.Pdo.Tpdo.Packed.{Fits, packed, send-packed, after_send}

-- Calls of Process while the node is operational, each after a SYNC message, with the SYNC object at
-- that time: the TPDO and all frames sent.
unfoldable pub on_syncs : Tpdo → (time_us : ℕ) → List Sync → Outcome (Tpdo × List Frame)
on_syncs t time_us [] = done (t, [])
on_syncs t time_us (sync ∷ syncs) = process t time_us none true true (some sync) >>= λ p.
    on_syncs p.tpdo time_us syncs >>= λ (t', frames). done (t', p.frames ++ frames)

-- A valid TPDO that is sent on every `n`-th SYNC message, whose mapped variables fit its frame.
pub record IsCyclic (n : ℕ) (t : Tpdo) : Type 0 where
  pub valid : t.pdo.valid ≡ true
  pub type_is : t.transmission_type ≡ n
  pub positive : 0 < n
  pub small : n ≤ 240
  pub fits : Fits t.pdo.od t.pdo.nb_mapped t.pdo.slots 0
  pub eight : length t.tx_buffer.bytes ≡ 8

-- A frame with an identifier and a length that holds the mapped bytes at its start.
pub record IsFrameOf (p : Pdo) (id dlc : ℕ) (f : Frame) : Type 0 where
  pub id_is : f.id ≡ id
  pub dlc_is : f.dlc ≡ dlc
  pub mapped :
      take (length (packed p.od p.nb_mapped p.slots)) f.bytes ≡ packed p.od p.nb_mapped p.slots

pub data AllFramesOf (p : Pdo) (id dlc : ℕ) : List Frame → Type 0 where
  no_frame : AllFramesOf p id dlc []
  frame_of :
      {f : Frame} {fs : List Frame}
      → IsFrameOf p id dlc f
      → AllFramesOf p id dlc fs
      → AllFramesOf p id dlc (f ∷ fs)

pub process-cyclic :
    (n : ℕ) (t : Tpdo) (time_us : ℕ) (sync : Sync)
    → IsCyclic n t
    → process t time_us none true true (some sync) ≡ cyclic (started t sync) sync none
unfolding process requested event_next transmit on_sync is_event_driven
process-cyclic n t time_us sync c = ground (arith, c.valid, c.type_is, c.positive, c.small)

-- A call below the period only counts.
process_counting :
    (n : ℕ) (t : Tpdo) (time_us : ℕ) (sync : Sync)
    → IsCyclic n t
    → 1 < t.sync_counter
    → t.sync_counter ≤ n
    → process t time_us none true true (some sync)
      ≡ done (quiet (record t { sync_counter = t.sync_counter - 1 }) none)
unfolding cyclic started
process_counting n t time_us sync c above below =
    let small = c.small in
    let e : u8 (t.sync_counter + 255) ≡ t.sync_counter - 1 = omega arith in
    process-cyclic n t time_us sync c ∙ ground (arith, above, below, small, e)

abbrev pub restarted : Tpdo → Tpdo
restarted t = record t { sync_counter = t.transmission_type }

process_due :
    (n : ℕ) (t : Tpdo) (time_us : ℕ) (sync : Sync)
    → IsCyclic n t
    → t.sync_counter ≡ 1
    → process t time_us none true true (some sync) ≡ send (restarted t) none
unfolding cyclic started
process_due n t time_us sync c one = process-cyclic n t time_us sync c ∙ rw one refl

counting-IsCyclic :
    (n : ℕ) (t : Tpdo) → IsCyclic n t → IsCyclic n (record t { sync_counter = t.sync_counter - 1 })
counting-IsCyclic n t c = record {
  valid = c.valid;
  type_is = c.type_is;
  positive = c.positive;
  small = c.small;
  fits = c.fits;
  eight = c.eight;
}

pub after_send-IsCyclic :
    (n : ℕ) (t : Tpdo) (bytes : List ℕ)
    → IsCyclic n t
    → length bytes ≡ 8
    → IsCyclic n (after_send (restarted t) bytes)
after_send-IsCyclic n t bytes c size = record {
  valid = c.valid;
  type_is = c.type_is;
  positive = c.positive;
  small = c.small;
  fits = c.fits;
  eight = size;
}

-- What SYNC messages make of a TPDO: frames with what is mapped, `count` of them.
abbrev pub Sends : (p : Pdo) (id dlc : ℕ) → Tpdo → (time_us : ℕ) → List Sync → (count : ℕ) → Type 0
Sends p id dlc t time_us syncs count =
    (r : Tpdo × List Frame) × (on_syncs t time_us syncs ≡ done r)
    × (length r.1 ≡ count)
    × AllFramesOf p id dlc r.1

-- A call that sends nothing, and one that sends, before others.
pub quiet-Sends :
    (p : Pdo) (id dlc : ℕ) (t t' : Tpdo) (time_us : ℕ) (sync : Sync) (syncs : List Sync) (count : ℕ)
    → process t time_us none true true (some sync) ≡ done (quiet t' none)
    → Sends p id dlc t' time_us syncs count
    → Sends p id dlc t time_us (sync ∷ syncs) count
unfolding on_syncs
quiet-Sends p id dlc t t' time_us sync syncs count e (r, runs, counts, all) =
    (r, rw (e, runs) refl, counts, all)

pub send-Sends :
    (t t' : Tpdo) (time_us : ℕ) (sync : Sync) (syncs : List Sync) (count : ℕ)
    → process t time_us none true true (some sync) ≡ send t' none
    → Fits t'.pdo.od t'.pdo.nb_mapped t'.pdo.slots 0
    → length t'.tx_buffer.bytes ≡ 8
    → ((bytes : List ℕ)
        → length bytes ≡ 8
        → Sends t'.pdo t'.tx_buffer.id t'.tx_buffer.dlc (after_send t' bytes) time_us syncs count)
    → Sends t'.pdo t'.tx_buffer.id t'.tx_buffer.dlc t time_us (sync ∷ syncs) (suc count)
unfolding on_syncs
send-Sends t t' time_us sync syncs count e fits eight later =
    let (bytes, sent, mapped, size) = send-packed t' none fits eight in
    let (r, runs, counts, all) = later bytes size in
    (
      (r.0, record t'.tx_buffer { bytes = bytes } ∷ r.1),
      rw (e, sent, runs) refl,
      ap suc counts,
      frame_of (record { id_is = refl; dlc_is = refl; mapped = mapped }) all,
    )

count_due : (n m : ℕ) → 0 < n → suc (m / n) ≡ (suc m + n - 1) / n
count_due n m h =
    let e : suc m + n - 1 ≡ m + n = omega arith in rw (e, add-div_right m h) (omega arith)

one_or_more : (k : ℕ) → 0 < k → (k ≡ 1) ⊎ (1 < k)
one_or_more zero h = elim h [ ]
one_or_more (suc zero) h = inl refl
one_or_more (suc (suc k)) h = inr (omega arith)

-- A valid TPDO of type `n` from 1 to 240, whose mapped variables fit its frame and whose counter is
-- `k` from 1 to `n`, sends on `m` SYNC messages in an operational node just `(m + n - k) / n` frames:
-- one on the `k`-th message and one on every `n`-th after it. Each has the TPDO's identifier and length
-- and the mapped bytes of the variables at its start.
pub on_syncs-count :
    (n : ℕ) (t : Tpdo) (time_us : ℕ) (syncs : List Sync)
    → IsCyclic n t
    → 0 < t.sync_counter
    → t.sync_counter ≤ n
    → Sends t.pdo t.tx_buffer.id t.tx_buffer.dlc t time_us syncs
        ((length syncs + n - t.sync_counter) / n)
unfolding on_syncs
on_syncs-count n t time_us [] c low high =
    let below : 0 + n - t.sync_counter < n = omega (arith, c.positive) in
    ((t, []), refl, sym (div-eq_of_lt below), no_frame)
on_syncs-count n t time_us (sync ∷ syncs) c low high = elim (one_or_more t.sync_counter low) [
  | inl one ↦
      let counts : suc ((length syncs + n - t.transmission_type) / n)
          ≡ (suc (length syncs) + n - t.sync_counter) / n =
        rw (one, c.type_is)
          (ap (λ m. suc (m / n)) (omega arith) ∙ count_due n (length syncs) c.positive) in
      subst (Sends t.pdo t.tx_buffer.id t.tx_buffer.dlc t time_us (sync ∷ syncs)) counts (
        send-Sends t (restarted t) time_us sync syncs _ (process_due n t time_us sync c one) c.fits
          c.eight
          (λ bytes size.
            on_syncs-count n (after_send (restarted t) bytes) time_us syncs
              (after_send-IsCyclic n t bytes c size) (omega (arith, c.type_is, c.positive))
              (omega (arith, c.type_is))))
  | inr above ↦
      let t' = record t { sync_counter = t.sync_counter - 1 } in
      let counts : (length syncs + n - t'.sync_counter) / n
          ≡ (suc (length syncs) + n - t.sync_counter) / n =
        ap (λ m. m / n) (omega (arith, above, high)) in
      subst (Sends t.pdo t.tx_buffer.id t.tx_buffer.dlc t time_us (sync ∷ syncs)) counts (
        quiet-Sends t.pdo t.tx_buffer.id t.tx_buffer.dlc t t' time_us sync syncs _
          (process_counting n t time_us sync c above high)
          (on_syncs-count n t' time_us syncs (counting-IsCyclic n t c) (omega (arith, above))
            (omega (arith, high))))
]
