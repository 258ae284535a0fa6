-- ===== src/Pdo/Parameters/Identity.antt =====
-- pkg/pdo/extensions.go: the COB-ID that is read after one was written.
use gocanopen.Base.{
  ℕ, ◌<◌, ◌≡◌, refl, ap, ◌∙◌, sym, true, ◌&&◌, none, List, [], ◌∷◌, length, arith, ◌==◌, u16, le32,
  bytes32, le32-bytes32, drop, drop_all, append-nil, if_both,
}
use gocanopen.Od.Errors.{done, ◌>>=◌}
use gocanopen.Od.Stream.{Stream}
use gocanopen.Od.Stream.Whole.{IsOpened, read_whole, write_whole}
use gocanopen.Pdo.{Pdo}
use gocanopen.Pdo.Tpdo.{Tpdo}
use gocanopen.Pdo.Parameters.{
  tpdo, written, write_identity, write_tpdo, write_entry_18xx, tpdo_with_id, is_allowed, is_new_id,
  stored_id, shown_id, shown, pdo_of, can_id_of, read_entry_14xx_or_18xx,
}
use gocanopen.Pdo.Parameters.Shown.{kept_id, read_back, shown-stored, stored_number, without_node}

write_identity_lem :
    (t : Tpdo) (s : Stream) (bytes : List ℕ) (cob_id : ℕ)
    → s.subindex ≡ 1
    → length bytes ≡ 4
    → le32 bytes 0 ≡ cob_id
    → is_allowed t.pdo cob_id ≡ true
    → write_entry_18xx (tpdo t) s bytes ≡ (
        written (tpdo_with_id t cob_id) s (stored_id t.pdo cob_id bytes) >>= λ w.
        done (record { object = tpdo w.object; result = w.result }))
unfolding write_entry_18xx write_tpdo write_identity
write_identity_lem t s bytes cob_id first four number allowed =
    rw (first, four, number, allowed) refl

written_lem :
    (t : Tpdo) (s : Stream) (bytes : List ℕ)
    → IsOpened s
    → length s.bytes ≡ 4
    → length bytes ≡ 4
    → written t s bytes
      ≡ done (record {
        object = t;
        result = record { stream = record s { bytes = bytes }; count = 4; err = none };
      })
unfolding written
written_lem t s bytes o four four' =
    let e : u16 (length bytes) ≡ 4 = omega (arith, four') in
    rw (write_whole s bytes o (four' ∙ sym four), e) refl

length-stored_id : (p : Pdo) (cob_id : ℕ) → length (stored_id p cob_id (bytes32 cob_id)) ≡ 4
unfolding stored_id
length-stored_id p cob_id =
    if_both (λ (bs : List ℕ). length bs ≡ 4)
      (is_new_id p cob_id && (can_id_of cob_id == p.predefined_id)) _ _ refl refl

read_lem :
    (t : Tpdo) (s : Stream)
    → IsOpened s
    → s.subindex ≡ 1
    → length s.bytes ≡ 4
    → read_entry_14xx_or_18xx (tpdo t) s (0 ∷ 0 ∷ 0 ∷ 0 ∷ [])
      ≡ done (record {
        stream = s;
        filled = bytes32 (shown_id t.pdo (le32 s.bytes 0));
        count = 4;
        err = none;
      })
unfolding read_entry_14xx_or_18xx shown pdo_of
read_lem t s o first four =
    let e : u16 (length s.bytes) ≡ 4 = omega (arith, four) in
    let read_it = read_whole s (0 ∷ 0 ∷ 0 ∷ 0 ∷ []) o (omega (arith, four)) in
    let dropped : drop 4 s.bytes ≡ [] = drop_all 4 s.bytes (omega (arith, four)) in
    rw (read_it, e, four, first, append-nil s.bytes, dropped) refl

stored_id-IsOpened :
    (p : Pdo) (s : Stream) (cob_id : ℕ)
    → IsOpened s
    → length s.bytes ≡ 4
    → IsOpened (record s { bytes = stored_id p cob_id (bytes32 cob_id) })
stored_id-IsOpened p s cob_id o four = record {
  there = o.there;
  start = o.start;
  whole = o.whole ∙ four ∙ sym (length-stored_id p cob_id);
  small = omega (arith, length-stored_id p cob_id);
}

kept_id-lt : (p : Pdo) (cob_id : ℕ) → cob_id < 4294967296 → kept_id p cob_id < 4294967296
kept_id-lt p cob_id small =
    if_both (λ n. n < 4294967296) (is_new_id p cob_id && (can_id_of cob_id == p.predefined_id)) _ _
      (omega (arith, without_node cob_id)) small

shown-stored_id :
    (t : Tpdo) (cob_id : ℕ)
    → cob_id < 4294967296
    → is_allowed t.pdo cob_id ≡ true
    → t.pdo.predefined_id < 65536
    → shown_id (tpdo_with_id t cob_id).pdo (le32 (stored_id t.pdo cob_id (bytes32 cob_id)) 0)
      ≡ read_back t.pdo cob_id
shown-stored_id t cob_id small allowed bound =
    ap (λ bs. shown_id (tpdo_with_id t cob_id).pdo (le32 bs 0)) (stored_number t.pdo cob_id small)
    ∙ ap (shown_id (tpdo_with_id t cob_id).pdo)
        (le32-bytes32 (kept_id t.pdo cob_id) (kept_id-lt t.pdo cob_id small))
    ∙ shown-stored t cob_id small allowed bound

-- Any COB-ID that is let in is written to subindex 1 of 0x18xx with the default accesses, whatever the
-- predefined identifier of 16 bits. It is read back from there as it was written, but for two cases: the
-- default identifier of the PDO without its node id is read with the node id, and a new identifier that
-- is the predefined one and below 128 is read as the identifier 0.
pub read-write_cob_id :
    (t : Tpdo) (s : Stream) (cob_id : ℕ)
    → IsOpened s
    → length s.bytes ≡ 4
    → s.subindex ≡ 1
    → cob_id < 4294967296
    → is_allowed t.pdo cob_id ≡ true
    → t.pdo.predefined_id < 65536
    → let t' = tpdo_with_id t cob_id in
      let s' = record s { bytes = stored_id t.pdo cob_id (bytes32 cob_id) } in
      (write_entry_18xx (tpdo t) s (bytes32 cob_id)
        ≡ done
            (record { object = tpdo t'; result = record { stream = s'; count = 4; err = none } }))
      × (read_entry_14xx_or_18xx (tpdo t') s' (0 ∷ 0 ∷ 0 ∷ 0 ∷ [])
          ≡ done (record {
            stream = s';
            filled = bytes32 (read_back t.pdo cob_id);
            count = 4;
            err = none;
          }))
read-write_cob_id t s cob_id o four first small allowed bound = (
  write_identity_lem t s (bytes32 cob_id) cob_id first refl (le32-bytes32 cob_id small) allowed
      ∙ rw
          (written_lem (tpdo_with_id t cob_id) s (stored_id t.pdo cob_id (bytes32 cob_id)) o four
            (length-stored_id t.pdo cob_id))
          refl,
  read_lem (tpdo_with_id t cob_id) (record s { bytes = stored_id t.pdo cob_id (bytes32 cob_id) })
        (stored_id-IsOpened t.pdo s cob_id o four) first (length-stored_id t.pdo cob_id)
      ∙ ap
          (λ (n : ℕ). done (record {
            stream = record s { bytes = stored_id t.pdo cob_id (bytes32 cob_id) };
            filled = bytes32 n;
            count = 4;
            err = none;
          }))
          (shown-stored_id t cob_id small allowed bound),
)
