-- ===== src/Pdo/Parameters/Created.antt =====
-- pkg/pdo/tpdo.go: the frame of a TPDO that NewTPDO returns.
use gocanopen.Base.{
  ℕ, ◌≤◌, ◌<◌, ◌≡◌, refl, ◌∙◌, true, false, Option, none, some, List, arith, ◌%◌, bit_and, inl, inr,
  ◌⊎◌,
}
use gocanopen.Pdo.Tpdo.{Tpdo, Flags}
use gocanopen.Base.Bits.{bit_and-ones}
use gocanopen.Emergency.{Emcy}
use gocanopen.Nmt.{InitError}
use gocanopen.Od.Errors.{Outcome, done, panicked, ◌>>=◌}
use gocanopen.Od.Entry.{Entry, uint8, uint16, uint32}
use gocanopen.Pdo.{Pdo, new_pdo}
use gocanopen.Pdo.Length.{IsMapped, Returns, new_pdo-IsMapped}
use gocanopen.Pdo.Rpdo.Setup.{is_usable, actual_id, or_failed}
use gocanopen.Pdo.Tpdo.Setup.{
  configure_transmission_type, configure_cob_id, configure_times, new_tpdo, fresh,
}
use gocanopen.Pdo.Tpdo.Unfit.{OrPanics}
use gocanopen.Pdo.Parameters.Framed.{IsFramed, shape, any-OrPanics, bind-OrPanics}

-- `Q` of what is returned without an error.
abbrev pub Right : {A : Type 0} → (Q : A → Type 0) → InitError ⊎ A → Type 0
Right Q (inl err) = Unit
Right Q (inr a) = Q a

module _ {A B : Type 0} (R : B → Type 0) (f : A → Outcome (InitError ⊎ B)) where
  or_failed-Right :
      (Q : A → Type 0) (r : InitError ⊎ A)
      → Right Q r
      → ((a : A) → Q a → OrPanics (Right R) (f a))
      → OrPanics (Right R) (or_failed r f)
  or_failed-Right Q (inl err) q h = tt
  or_failed-Right Q (inr a) q h = h a q

  then-Right :
      (Q : A → Type 0) (x : Outcome (InitError ⊎ A))
      → OrPanics (Right Q) x
      → ((a : A) → Q a → OrPanics (Right R) (f a))
      → OrPanics (Right R) (x >>= λ r. or_failed r f)
  then-Right Q x q h =
      bind-OrPanics (Right R) (λ r. or_failed r f) (Right Q) x q (λ r q'. or_failed-Right Q r q' h)

opt_both :
    {A B : Type 0} (P : B → Type 0) (o : Option A) (x : B) (f : A → B)
    → P x
    → ((a : A) → P (f a))
    → P (elim o [ none ↦ x | some a ↦ f a ])
opt_both P none x f h g = h
opt_both P (some a) x f h g = g a

-- A mapping of eight bytes at most.
mapped-Right :
    (x : Outcome (InitError ⊎ (Pdo × ℕ)))
    → Returns IsMapped x
    → OrPanics (Right (λ (r : Pdo × ℕ). r.0.data_length ≤ 8)) x
mapped-Right (done (inl err)) h = tt
mapped-Right (done (inr (p, erroneous))) h = h.bound
mapped-Right panicked h = tt

configure_transmission_type-Right :
    (t : Tpdo) (entry : Entry)
    → t.pdo.data_length ≤ 8
    → OrPanics (Right (λ (t' : Tpdo). t'.pdo.data_length ≤ 8)) (configure_transmission_type t entry)
unfolding configure_transmission_type
configure_transmission_type-Right t entry h =
    any-OrPanics (Right (λ (t' : Tpdo). t'.pdo.data_length ≤ 8)) _ (uint8 entry 2) (λ (n, err).
      opt_both (OrPanics (Right (λ (t' : Tpdo). t'.pdo.data_length ≤ 8))) err _ _ h (λ e. tt))

actual_id-le :
    (p : Pdo) (cob_id predefined : ℕ) → predefined < 65536 → actual_id p cob_id predefined < 65536
unfolding actual_id
actual_id-le p cob_id predefined h =
    let e : bit_and cob_id 2047 ≡ cob_id % 2048 = bit_and-ones 11 cob_id in ground (arith, e, h)

-- All but the identifier, which is set last.
record AlmostFramed (r : Tpdo × ℕ) : Type 0 where
  small : r.1 < 65536
  bound : r.0.pdo.data_length ≤ 8
  some_mapped : r.0.pdo.valid ≡ true → 0 < r.0.pdo.nb_mapped
  dlc_is : r.0.tx_buffer.dlc ≡ r.0.pdo.data_length
  id_is : r.0.tx_buffer.id ≡ r.1

configure_cob_id-Right :
    (t : Tpdo) (entry : Entry) (predefined erroneous : ℕ)
    → t.pdo.data_length ≤ 8
    → predefined < 65536
    → OrPanics (Right AlmostFramed) (configure_cob_id t entry predefined erroneous)
unfolding configure_cob_id is_usable
configure_cob_id-Right t entry predefined erroneous bound small =
    any-OrPanics (Right AlmostFramed) _ (uint32 entry 1) (λ (n, err).
      opt_both (OrPanics (Right AlmostFramed)) err _ _
        (record {
          small = actual_id-le t.pdo n predefined small;
          bound = bound;
          some_mapped = λ usable. ground (arith, usable);
          dlc_is = omega (arith, bound);
          id_is = refl;
        })
        (λ e. tt))

configure_times-Framed :
    (t : Tpdo) (can_id predefined : ℕ) (entry : Entry)
    → AlmostFramed (t, can_id)
    → OrPanics (λ (t : Tpdo). IsFramed (shape t)) (configure_times t can_id predefined entry)
unfolding configure_times
configure_times-Framed t can_id predefined entry a =
    any-OrPanics Shaped _ (uint16 entry 3) (λ (n, err).
      any-OrPanics Shaped _ (uint16 entry 5) (λ (m, err').
        any-OrPanics Shaped _ (uint8 entry 6) (λ (k, err''). record {
          bound = a.bound;
          some_mapped = a.some_mapped;
          dlc_is = λ valid. a.dlc_is;
          id_is = λ valid. a.id_is ∙ omega (arith, a.small);
        })))
  where
    Shaped : Tpdo → Type 0
    Shaped t' = IsFramed (shape t')

pub new_tpdo-Right :
    (od : List Entry) (emcy : Emcy) (flags : Flags) (communication mapping : Entry) (predefined : ℕ)
    → predefined < 65536
    → OrPanics
        (Right (λ (t : Tpdo). IsFramed (shape t)))
        (new_tpdo od emcy flags communication mapping predefined)
unfolding new_tpdo
new_tpdo-Right od emcy flags communication mapping predefined small =
    then-Right Shaped _ (λ (r : Pdo × ℕ). r.0.data_length ≤ 8) (new_pdo od emcy false mapping)
      (mapped-Right _ (new_pdo-IsMapped od emcy false mapping))
      (λ (p, erroneous) bound.
        then-Right Shaped _ (λ (t : Tpdo). t.pdo.data_length ≤ 8)
          (configure_transmission_type (fresh p flags) communication)
          (configure_transmission_type-Right (fresh p flags) communication bound)
          (λ t bound'.
            then-Right Shaped _ AlmostFramed (configure_cob_id t communication predefined erroneous)
              (configure_cob_id-Right t communication predefined erroneous bound' small)
              (λ (t', can_id) almost.
                bind-OrPanics (Right Shaped) (λ t''. done (inr t'')) Shaped
                  (configure_times t' can_id predefined communication)
                  (configure_times-Framed t' can_id predefined communication almost) (λ t'' h. h))))
  where
    Shaped : Tpdo → Type 0
    Shaped t = IsFramed (shape t)
