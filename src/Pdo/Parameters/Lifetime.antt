-- ===== src/Pdo/Parameters/Lifetime.antt =====
-- pkg/pdo: a TPDO from its creation on, through writes to its parameters and calls of Process.
use gocanopen.Base.{
  length, ℕ, ◌≤◌, ◌<◌, ◌≡◌, ◌∙◌, sym, Bool, true, Option, List, [], ◌∷◌, arith, ltb, inl, inr,
  if_both, Bool-cases,
}
use mathlib.Core.Path.{subst}
use gocanopen.Can.{Frame}
use gocanopen.Pdo.Tpdo.{Processed, Tpdo, Flags, process}
use gocanopen.Emergency.{Emcy}
use gocanopen.Od.Errors.{Outcome, done, ◌>>=◌}
use gocanopen.Od.Stream.{Stream}
use gocanopen.Od.Entry.{Entry}
use gocanopen.Sync.{Sync}
use gocanopen.Pdo.{Pdo}
use gocanopen.Pdo.Tpdo.Setup.{new_tpdo}
use gocanopen.Pdo.Tpdo.Unfit.{OrPanics}
use gocanopen.Pdo.Parameters.{
  PdoObject, tpdo, rpdo, other, Written, write_tpdo, write_entry_18xx, write_mapping,
  write_entry_16xx_or_1axx,
}
use gocanopen.Pdo.Parameters.Writes.{write_tpdo-Frames, with_mapping-Frames}
use gocanopen.Pdo.Parameters.Created.{Right, new_tpdo-Right}
use gocanopen.Pdo.Parameters.Framed.{
  AllLike, weaken-OrPanics, process-invalid, IsFramed, shape, bind-OrPanics, process-Same,
}

-- What happens to a TPDO: an access to an entry of its parameters, or a call of Process.
pub data Op : Type 0 where
  set_communication : Stream → List ℕ → Op
  set_mapping : Stream → List ℕ → Op
  call : (time_us : ℕ) → Option ℕ → (nmt_is_operational sync_was : Bool) → Option Sync → Op

-- The TPDO that an entry has as its object.
unfoldable pub tpdo_of : Tpdo → PdoObject → Tpdo
tpdo_of t (tpdo t') = t'
tpdo_of t (rpdo r) = t
tpdo_of t other = t

unfoldable pub perform : Tpdo → Op → Outcome Tpdo
perform t (set_communication s bytes) =
    write_entry_18xx (tpdo t) s bytes >>= λ w. done (tpdo_of t w.object)
perform t (set_mapping s bytes) =
    write_entry_16xx_or_1axx (tpdo t) s bytes >>= λ w. done (tpdo_of t w.object)
perform t (call time_us next nmt_is_operational sync_was sync) =
    process t time_us next nmt_is_operational sync_was sync >>= λ p. done p.tpdo

unfoldable pub perform_all : Tpdo → List Op → Outcome Tpdo
perform_all t [] = done t
perform_all t (op ∷ ops) = perform t op >>= λ t'. perform_all t' ops

abbrev AllFramed : Outcome Tpdo → Type 0
AllFramed = OrPanics (λ (t : Tpdo). IsFramed (shape t))

abbrev WrittenFramed : Tpdo → Outcome (Written PdoObject) → Type 0
WrittenFramed t = OrPanics (λ (w : Written PdoObject). IsFramed (shape (tpdo_of t w.object)))

write_entry_18xx-Framed :
    (t : Tpdo) (s : Stream) (bytes : List ℕ)
    → IsFramed (shape t)
    → WrittenFramed t (write_entry_18xx (tpdo t) s bytes)
unfolding write_entry_18xx tpdo_of
write_entry_18xx-Framed t s bytes h = if_both (WrittenFramed t) (ltb 4 (length bytes)) _ _ h (
    bind-OrPanics _ _ (λ (w : Written Tpdo). IsFramed (shape w.object)) (write_tpdo t s bytes)
      (write_tpdo-Frames t s bytes h) (λ w o. o))

write_entry_1axx-Framed :
    (t : Tpdo) (s : Stream) (bytes : List ℕ)
    → IsFramed (shape t)
    → WrittenFramed t (write_entry_16xx_or_1axx (tpdo t) s bytes)
unfolding write_entry_16xx_or_1axx tpdo_of
write_entry_1axx-Framed t s bytes h = if_both (WrittenFramed t) (ltb 8 s.subindex) _ _ h (
    bind-OrPanics _ _ (λ (w : Written Pdo). IsFramed (shape (record t { pdo = w.object })))
      (write_mapping t.pdo s bytes) (with_mapping-Frames t s bytes h) (λ w o. o))

perform-Framed : (t : Tpdo) (op : Op) → IsFramed (shape t) → AllFramed (perform t op)
unfolding perform
perform-Framed t (set_communication s bytes) h =
    bind-OrPanics (λ (t' : Tpdo). IsFramed (shape t')) _
      (λ (w : Written PdoObject). IsFramed (shape (tpdo_of t w.object))) _
      (write_entry_18xx-Framed t s bytes h) (λ w o. o)
perform-Framed t (set_mapping s bytes) h =
    bind-OrPanics (λ (t' : Tpdo). IsFramed (shape t')) _
      (λ (w : Written PdoObject). IsFramed (shape (tpdo_of t w.object))) _
      (write_entry_1axx-Framed t s bytes h) (λ w o. o)
perform-Framed t (call time_us next nmt_is_operational sync_was sync) h =
    bind-OrPanics (λ (t' : Tpdo). IsFramed (shape t')) _
      (λ p. (shape p.tpdo ≡ shape t) × AllLike (shape t) p.frames) _
      (process-Same t time_us next nmt_is_operational sync_was sync)
      (λ p same. subst IsFramed (sym same.0) h)

perform_all-Framed : (t : Tpdo) (ops : List Op) → IsFramed (shape t) → AllFramed (perform_all t ops)
unfolding perform_all
perform_all-Framed t [] h = h
perform_all-Framed t (op ∷ ops) h =
    bind-OrPanics (λ (t' : Tpdo). IsFramed (shape t')) (λ t'. perform_all t' ops)
      (λ (t' : Tpdo). IsFramed (shape t')) (perform t op) (perform-Framed t op h)
      (λ t' h'. perform_all-Framed t' ops h')

of-OrPanics :
    {A : Type 0} (Q : A → Type 0) (x : Outcome A) (a : A) → OrPanics Q x → x ≡ done a → Q a
of-OrPanics Q x a q e = subst (OrPanics Q) e q

-- A frame of a valid TPDO: with its identifier and the length of what is mapped.
pub record IsOwn (t : Tpdo) (f : Frame) : Type 0 where
  pub valid : t.pdo.valid ≡ true
  pub id_is : f.id ≡ t.pdo.configured_id
  pub dlc_is : f.dlc ≡ t.pdo.data_length
  pub some_mapped : 0 < t.pdo.nb_mapped
  pub bound : f.dlc ≤ 8

abbrev pub AllOwn : Tpdo → List Frame → Type 0
AllOwn t [] = Unit
AllOwn t (f ∷ fs) = IsOwn t f × AllOwn t fs

own_like :
    (t : Tpdo) (fs : List Frame)
    → IsFramed (shape t)
    → t.pdo.valid ≡ true
    → AllLike (shape t) fs
    → AllOwn t fs
own_like t [] h valid like = tt
own_like t (f ∷ fs) h valid (id, dlc, like) = (
  record {
    valid = valid;
    id_is = id ∙ h.id_is valid;
    dlc_is = dlc ∙ h.dlc_is valid;
    some_mapped = h.some_mapped valid;
    bound = let e = dlc ∙ h.dlc_is valid in omega (arith, e, h.bound);
  },
  own_like t fs h valid like,
)

process-AllOwn :
    (t : Tpdo) (time_us : ℕ) (next : Option ℕ) (nmt_is_operational sync_was : Bool)
    (sync : Option Sync)
    → IsFramed (shape t)
    → OrPanics (λ p. AllOwn t p.frames) (process t time_us next nmt_is_operational sync_was sync)
process-AllOwn t time_us next nmt_is_operational sync_was sync h = elim (Bool-cases t.pdo.valid) [
  | inl valid ↦
      weaken-OrPanics _ (λ (p : Processed). AllOwn t p.frames) _
        (process-Same t time_us next nmt_is_operational sync_was sync)
        (λ p same. own_like t p.frames h valid same.1)
  | inr invalid ↦
      subst (OrPanics (λ p. AllOwn t p.frames))
        (sym (process-invalid t time_us next nmt_is_operational sync_was sync invalid)) tt
]

-- Take a TPDO that NewTPDO returns, for a predefined identifier of 16 bits, after any writes to its
-- parameters and calls of Process, in any order, of which none ended in a run-time panic. It has at most
-- eight bytes mapped; while it is valid, it has something mapped, and its frame has its identifier and
-- the length of what is mapped. What the next call of Process sends, if it does not panic, are frames of
-- a valid TPDO with its identifier and that length.
pub perform_all-IsFramed :
    (od : List Entry) (emcy : Emcy) (flags : Flags) (communication mapping : Entry) (predefined : ℕ)
    (t : Tpdo) (ops : List Op) (t' : Tpdo) (time_us : ℕ) (next : Option ℕ)
    (nmt_is_operational sync_was : Bool) (sync : Option Sync) (p : Processed)
    → predefined < 65536
    → new_tpdo od emcy flags communication mapping predefined ≡ done (inr t)
    → perform_all t ops ≡ done t'
    → process t' time_us next nmt_is_operational sync_was sync ≡ done p
    → IsFramed (shape t') × AllOwn t' p.frames
perform_all-IsFramed od emcy flags communication mapping predefined t ops t' time_us next
      nmt_is_operational sync_was sync p small created performed called =
    let framed =
      of-OrPanics (Right (λ (u : Tpdo). IsFramed (shape u))) _ (inr t)
        (new_tpdo-Right od emcy flags communication mapping predefined small) created in
    let after =
      of-OrPanics (λ (u : Tpdo). IsFramed (shape u)) _ t' (perform_all-Framed t ops framed)
        performed in
    (
      after,
      of-OrPanics (λ p. AllOwn t' p.frames) _ p
          (process-AllOwn t' time_us next nmt_is_operational sync_was sync after) called,
    )
