-- ===== src/Pdo/Tpdo/Unfit.antt =====
-- pkg/pdo/tpdo.go: what `send` does with a variable that is longer than the rest of the frame.
use gocanopen.Base.{
  ℕ, zero, suc, ◌+◌, ◌≤◌, ◌<◌, ◌≡◌, refl, sym, Bool, true, false, Option, some, List, [], ◌∷◌, ◌++◌,
  length, take, drop, arith, ltb, length-drop, if_both, u32, ◌||◌,
}
use mathlib.Core.Path.{subst}
use gocanopen.Od.Errors.{Odr, partial, Outcome, done, panicked, ◌>>=◌}
use gocanopen.Od.Stream.{Stream, ReadResult, read, read_entry_default, copy_out}
use gocanopen.Od.Entry.{Entry}
use gocanopen.Pdo.{Slot}
use gocanopen.Pdo.Rpdo.{shared_bytes}
use gocanopen.Pdo.Tpdo.{
  Tpdo, Flags, Gathered, gathered, read_slot, before_rest, gathered_after, gather, sent, send,
  is_event_driven,
}
use gocanopen.Pdo.Tpdo.Packed.{
  IsReadable, read_slot_lem, flags_after, bytes_after, length-bytes_after,
}

-- The variable of one of the first slots, all of them readable, is longer than the rest of the frame
-- behind what is mapped before it.
pub data Unfit (od : List Entry) : (left : ℕ) → List Slot → (at : ℕ) → Type 0 where
  here :
      {left : ℕ} {slot : Slot} {slots : List Slot} {at : ℕ}
      → IsReadable od slot
      → at ≤ 8
      → 8 < at + length (shared_bytes od slot)
      → Unfit od (suc left) (slot ∷ slots) at
  later :
      {left : ℕ} {slot : Slot} {slots : List Slot} {at : ℕ}
      → IsReadable od slot
      → at + length (shared_bytes od slot) ≤ 8
      → Unfit od left slots (at + slot.streamer.stream.data_offset)
      → Unfit od (suc left) (slot ∷ slots) at

-- `Q` of what is returned, or a panic.
abbrev pub OrPanics : {A : Type 0} → (Q : A → Type 0) → Outcome A → Type 0
OrPanics Q (done a) = Q a
OrPanics Q panicked = Unit

copy_out-err :
    (s : Stream) (rest : List ℕ) (n : ℕ) (err : Option Odr)
    → OrPanics (λ r. r.err ≡ err) (copy_out s rest n err)
unfolding copy_out
copy_out-err s rest n err =
    if_both (OrPanics (λ (r : ReadResult). r.err ≡ err))
      (ltb (length (s.bytes ++ s.spare)) (u32 (s.data_offset + n))
        || ltb (u32 (s.data_offset + n)) s.data_offset)
      panicked _ tt refl

read_partial :
    (s : Stream) (rest : List ℕ)
    → s.allocated ≡ true
    → s.data_offset ≡ 0
    → length rest < s.data_length
    → OrPanics (λ r. r.err ≡ some partial) (read_entry_default s rest)
unfolding read_entry_default
read_partial s rest allocated start short =
    let runs : read_entry_default s rest
        ≡ copy_out (record s { data_offset = u32 (s.data_offset + length rest) }) rest (length rest)
            (some partial) =
      ground (arith, allocated, start, short) in
    subst (OrPanics (λ r. r.err ≡ some partial)) (sym runs)
      (copy_out-err _ rest (length rest) (some partial))

read_slot_partial :
    (od : List Entry) (slot : Slot) (rest : List ℕ)
    → IsReadable od slot
    → length rest < length (shared_bytes od slot)
    → OrPanics (λ r. r.err ≡ some partial) (read_slot od slot rest)
unfolding read_slot read
read_slot_partial od slot rest r short = rw r.reader (
    read_partial (record slot.streamer.stream { bytes = shared_bytes od slot; data_offset = 0 })
      rest r.there refl (omega (arith, r.whole, short)))

gathered_failed :
    (event_driven : Bool) (flags : Flags) (slot : Slot) (slots : List Slot) (start : List ℕ)
    (rest : Flags → List ℕ → Outcome Gathered) (r : Outcome ReadResult)
    → OrPanics (λ p. p.err ≡ some partial) r
    → OrPanics
        (λ g. g.err ≡ some partial)
        (r >>= λ p. gathered_after event_driven flags slot slots start rest p)
unfolding gathered_after
gathered_failed event_driven flags slot slots start rest (done p) h = rw h refl
gathered_failed event_driven flags slot slots start rest panicked h = tt

before_rest-failed :
    (slot : Slot) (g : Outcome Gathered)
    → OrPanics (λ g'. g'.err ≡ some partial) g
    → OrPanics (λ g'. g'.err ≡ some partial) (g >>= λ g'. done (before_rest slot g'))
unfolding before_rest
before_rest-failed slot (done g) h = h
before_rest-failed slot panicked h = tt

gather-failed :
    (event_driven : Bool) (od : List Entry) (left : ℕ) (slots : List Slot) (at : ℕ) (flags : Flags)
    (bytes : List ℕ)
    → Unfit od left slots at
    → length bytes ≡ 8
    → OrPanics (λ g. g.err ≡ some partial) (gather event_driven od left slots at flags bytes)
unfolding gather gathered_after
gather-failed event_driven od zero slots at flags bytes unfit eight = elim unfit [ ]
gather-failed event_driven od (suc left) [] at flags bytes unfit eight = elim unfit [ ]
gather-failed event_driven od (suc left) (slot ∷ slots) at flags bytes (here r inside long) eight =
    let inside' : ltb (length bytes) at ≡ false = ground arith in
    rw inside' (
      gathered_failed event_driven flags slot slots (take at bytes)
        (gather event_driven od left slots (at + slot.streamer.stream.data_offset))
        (read_slot od slot (drop at bytes))
        (read_slot_partial od slot (drop at bytes) r (omega (arith, length-drop at bytes))))
gather-failed event_driven od (suc left) (slot ∷ slots) at flags bytes (later r room rest) eight =
    let inside : ltb (length bytes) at ≡ false = ground arith in
    rw
      (
        inside,
        read_slot_lem od slot (drop at bytes) r (omega (arith, length-drop at bytes))
            (omega (arith, length-drop at bytes)),
      )
      (before_rest-failed slot _ (
        gather-failed event_driven od left slots (at + slot.streamer.stream.data_offset)
          (flags_after event_driven flags slot) (bytes_after od slot at bytes) rest
          (length-bytes_after od slot at bytes room eight)))

sent_failed :
    (t : Tpdo) (next_time : Option ℕ) (g : Outcome Gathered)
    → OrPanics (λ g'. g'.err ≡ some partial) g
    → OrPanics
        (λ p. (p.frames ≡ []) × (p.err ≡ some partial) × (p.tpdo.send_request ≡ t.send_request))
        (g >>= λ g'. done (sent t next_time g'))
unfolding sent gathered
sent_failed t next_time (done g) h = rw h (refl, refl, refl)
sent_failed t next_time panicked h = tt

-- A TPDO with a variable that does not fit with all its bytes behind what is mapped before it, although
-- the mapped part of it may, sends no frame: `send` ends with the error of a partial read, and
-- keeps the request, or it panics.
pub send-Unfit :
    (t : Tpdo) (next_time : Option ℕ)
    → Unfit t.pdo.od t.pdo.nb_mapped t.pdo.slots 0
    → length t.tx_buffer.bytes ≡ 8
    → OrPanics
        (λ p. (p.frames ≡ []) × (p.err ≡ some partial) × (p.tpdo.send_request ≡ t.send_request))
        (send t next_time)
unfolding send
send-Unfit t next_time unfit eight = sent_failed t next_time _ (
    gather-failed (is_event_driven t) t.pdo.od t.pdo.nb_mapped t.pdo.slots 0 t.flags
      t.tx_buffer.bytes unfit eight)
