-- ===== src/Pdo/Parameters/Writes.antt =====
-- pkg/pdo/extensions.go: the frame of a TPDO after writes to its parameters.
use gocanopen.Base.{
  ℕ, ◌≤◌, ◌≡◌, refl, Bool, true, false, not, ◌&&◌, ◌||◌, Option, none, some, List, arith, ltb, ◌==◌,
  inl, inr, if_both, if_cases, length, le32, get_or, ◌-◌, Bool-cases,
}
use gocanopen.Od.Errors.{Odr, Outcome, invalid_value, map_len, unsupp_access, panicked}
use gocanopen.Od.Stream.{Stream, write_entry_default}
use gocanopen.Pdo.{Pdo, configure_slot, no_slot}
use gocanopen.Pdo.Tpdo.{Tpdo}
use gocanopen.Pdo.Tpdo.Unfit.{OrPanics}
use gocanopen.Pdo.Parameters.{
  count_error, Written, written, write_identity, write_times, write_tpdo, write_count,
  write_parameter, write_mapping, tpdo_with_id, is_allowed, is_new_id, length_of, length_from,
  refused, is_reserved_type,
}
use gocanopen.Pdo.Parameters.Framed.{IsFramed, shape, any-OrPanics, weaken-OrPanics}

-- What a write leaves is framed.
abbrev Frames : Outcome (Written Tpdo) → Type 0
Frames = OrPanics (λ (w : Written Tpdo). IsFramed (shape w.object))

written-Frames :
    (t : Tpdo) (s : Stream) (bytes : List ℕ) → IsFramed (shape t) → Frames (written t s bytes)
unfolding written
written-Frames t s bytes h =
    any-OrPanics (λ (w : Written Tpdo). IsFramed (shape w.object)) _ (write_entry_default s bytes)
      (λ r. h)

tpdo_with_id-IsFramed :
    (t : Tpdo) (cob_id : ℕ)
    → is_allowed t.pdo cob_id ≡ true
    → IsFramed (shape t)
    → IsFramed (shape (tpdo_with_id t cob_id))
unfolding tpdo_with_id is_allowed
tpdo_with_id-IsFramed t cob_id allowed h =
    if_both (λ t'. IsFramed (shape t')) (not (is_new_id t.pdo cob_id)) t _ h
      (record {
        bound = h.bound;
        some_mapped = λ valid. ground (arith, allowed, valid);
        dlc_is = λ valid. omega (arith, h.bound);
        id_is = λ valid. refl;
      })

not-false : (b : Bool) → not b ≡ false → b ≡ true
not-false true e = refl
not-false false e = cc

write_identity-Frames :
    (t : Tpdo) (s : Stream) (bytes : List ℕ)
    → IsFramed (shape t)
    → Frames (write_identity t s bytes)
unfolding write_identity
write_identity-Frames t s bytes h =
    if_both Frames (s.subindex == 1) _ _
      (if_both Frames (ltb (length bytes) 4) panicked _ tt (
        if_cases Frames (not (is_allowed t.pdo (le32 bytes 0))) _ _ (λ e. h)
          (λ e.
            written-Frames (tpdo_with_id t (le32 bytes 0)) s _
              (tpdo_with_id-IsFramed t (le32 bytes 0) (not-false _ e) h))))
      (if_both Frames (ltb (length bytes) 1) panicked _ tt (
        if_both Frames (is_reserved_type (get_or bytes 0 0)) (refused t s invalid_value) _ h
          (written-Frames _ s bytes h)))

write_times-Frames :
    (t : Tpdo) (s : Stream) (bytes : List ℕ) → IsFramed (shape t) → Frames (write_times t s bytes)
unfolding write_times
write_times-Frames t s bytes h =
    if_both Frames (s.subindex == 3) _ _
      (if_both Frames t.pdo.valid _ _ h
        (if_both Frames (ltb (length bytes) 2) panicked _ tt (written-Frames _ s bytes h)))
      (if_both Frames (s.subindex == 5) _ _
        (if_both Frames (ltb (length bytes) 2) panicked _ tt (written-Frames _ s bytes h))
        (if_both Frames (s.subindex == 6) _ _
          (if_both Frames (ltb (length bytes) 1) panicked _ tt (
            if_both Frames (t.pdo.valid || ltb 240 (get_or bytes 0 0)) (refused t s invalid_value) _
              h (written-Frames _ s bytes h)))
          (written-Frames t s bytes h)))

pub write_tpdo-Frames :
    (t : Tpdo) (s : Stream) (bytes : List ℕ) → IsFramed (shape t) → Frames (write_tpdo t s bytes)
unfolding write_tpdo
write_tpdo-Frames t s bytes h =
    if_both Frames ((s.subindex == 1) || (s.subindex == 2)) _ _ (write_identity-Frames t s bytes h)
      (write_times-Frames t s bytes h)

-- What a write to the mapping of an object that is not valid leaves.
abbrev IsOff : Pdo → Type 0
IsOff p = (p.data_length ≤ 8) × (p.valid ≡ false)

abbrev Off : Outcome (Written Pdo) → Type 0
Off = OrPanics (λ (w : Written Pdo). IsOff w.object)

written-Off : (p : Pdo) (s : Stream) (bytes : List ℕ) → IsOff p → Off (written p s bytes)
unfolding written
written-Off p s bytes h =
    any-OrPanics (λ (w : Written Pdo). IsOff w.object) _ (write_entry_default s bytes) (λ r. h)

error_cases :
    (err : Option Odr) (f : Odr → Outcome (Written Pdo)) (x : Outcome (Written Pdo))
    → ((e : Odr) → Off (f e))
    → (err ≡ none → Off x)
    → Off (elim err [ some e ↦ f e | none ↦ x ])
error_cases none f x h g = g refl
error_cases (some e) f x h g = h e

length_of-le : (count : ℕ) (total : Option ℕ) → count_error count total ≡ none → length_of total ≤ 8
unfolding count_error length_of
length_of-le count none e = cc
length_of-le count (some total) e = ground (arith, e)

write_count-Off :
    (p : Pdo) (s : Stream) (count : ℕ) (bytes : List ℕ)
    → IsOff p
    → Off (write_count p s count bytes)
unfolding write_count
write_count-Off p s count bytes h = if_both Off (ltb 8 count) (refused p s map_len) _ h (
    error_cases (count_error count (length_from count p.slots 0)) (refused p s) _ (λ e. h)
      (λ e. written-Off _ s bytes (length_of-le count (length_from count p.slots 0) e, h.1)))

write_parameter-Off :
    (p : Pdo) (s : Stream) (place : ℕ) (bytes : List ℕ)
    → IsOff p
    → Off (write_parameter p s place bytes)
unfolding write_parameter
write_parameter-Off p s place bytes h =
    error_cases (configure_slot p (le32 bytes 0) p.is_rpdo (get_or p.slots place no_slot)).1 _ _
      (λ e. h) (λ e. written-Off _ s bytes h)

-- A valid object refuses the write.
write_mapping_valid :
    (p : Pdo) (s : Stream) (bytes : List ℕ)
    → p.valid ≡ true
    → write_mapping p s bytes ≡ refused p s unsupp_access
unfolding write_mapping
write_mapping_valid p s bytes valid = rw valid refl

write_mapping-Off :
    (p : Pdo) (s : Stream) (bytes : List ℕ) → IsOff p → Off (write_mapping p s bytes)
unfolding write_mapping
write_mapping-Off p s bytes h =
    if_both Off (p.valid || (not (p.nb_mapped == 0) && ltb 0 s.subindex))
      (refused p s unsupp_access) _ h
      (if_both Off (s.subindex == 0) _ _
        (if_both Off (ltb (length bytes) 1) panicked _ tt
          (write_count-Off p s (get_or bytes 0 0) bytes h))
        (if_both Off (ltb (length bytes) 4) panicked _ tt
          (write_parameter-Off p s (s.subindex - 1) bytes h)))

pub with_mapping-Frames :
    (t : Tpdo) (s : Stream) (bytes : List ℕ)
    → IsFramed (shape t)
    → OrPanics
        (λ (w : Written Pdo). IsFramed (shape (record t { pdo = w.object })))
        (write_mapping t.pdo s bytes)
with_mapping-Frames t s bytes h = elim (Bool-cases t.pdo.valid) [
  | inl valid ↦ rw (write_mapping_valid t.pdo s bytes valid) h
  | inr off ↦
      weaken-OrPanics (λ (w : Written Pdo). IsOff w.object) _ (write_mapping t.pdo s bytes)
        (write_mapping-Off t.pdo s bytes (h.bound, off))
        (λ w o. record {
          bound = o.0;
          some_mapped = λ valid. cc (o.1, valid);
          dlc_is = λ valid. cc (o.1, valid);
          id_is = λ valid. cc (o.1, valid);
        })
]
