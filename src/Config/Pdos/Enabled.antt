-- ===== src/Config/Pdos/Enabled.antt =====
-- pkg/config/pdo.go: a PDO of a node that keeps what is written to it, disabled and enabled again.
use gocanopen.Base.{
  ℕ, ◌+◌, ◌/◌, ◌%◌, ◌<◌, ◌≡◌, refl, ap, ◌∙◌, true, false, some, arith, ◌==◌, bit_and, bit_or,
  bytes32,
}
use gocanopen.Base.Bits.{bit_and-ones, bit_and-pow}
use gocanopen.Base.Masks.{or_and}
use gocanopen.Config.{Client, ok, continue, chain, write_uint32, change, set_bit31, clear_bit31}
use gocanopen.Config.Pdos.{communication_index, read_cob_id, read_enabled, disable, enable}
use gocanopen.Config.Pdos.Stored.{Keeps, write_lem, read_uint32_lem, stored_in_self}

set_bit31_lem : (n : ℕ) → n < 4294967296 → bit_or n 0x80000000 ≡ n % 2147483648 + 2147483648
set_bit31_lem n small = omega (arith, or_and n 0x80000000, bit_and-pow 31 n)

clear_bit31_lem : (n : ℕ) → bit_and n 0x7fffffff ≡ n % 2147483648
clear_bit31_lem n = bit_and-ones 31 n

module _ (c : Client) (k : Keeps c) where
  -- A number that is read, changed and written back.
  change_lem :
      (s : c.State) (index sub n : ℕ) (f : ℕ → ℕ)
      → n < 4294967296
      → k.memory s index sub ≡ some (bytes32 n)
      → (s' : c.State) × (change c index sub f s ≡ (s', ok tt))
        × (k.memory s' index sub ≡ some (bytes32 (f n)))
  unfolding change chain continue write_uint32
  change_lem s index sub n f small there =
      let (s1, runs, kept) = read_uint32_lem c k s index sub n small there in
      let (s2, written, stored) =
        write_lem c k s1 index sub (bytes32 (f n))
          (bytes32 n, ap (λ m. m index sub) kept ∙ there, refl) in
      (
        s2,
        rw (runs, written) refl,
        ap (λ m. m index sub) stored ∙ stored_in_self (k.memory s1) index sub (bytes32 (f n)),
      )

  enabled_lem :
      (s : c.State) (pdo_nb n : ℕ)
      → n < 4294967296
      → k.memory s (communication_index pdo_nb) 1 ≡ some (bytes32 n)
      → (s' : c.State) × (read_enabled c pdo_nb s ≡ (s', ok (n / 2147483648 % 2 == 0)))
        × (k.memory s' ≡ k.memory s)
  unfolding read_enabled read_cob_id chain continue
  enabled_lem s pdo_nb n small there =
      let (s1, runs, kept) = read_uint32_lem c k s (communication_index pdo_nb) 1 n small there in
      (s1, rw runs refl, kept)

-- On a node that keeps what it is given, a PDO that was disabled is read as disabled; once it is
-- enabled again, it is read as enabled, and its COB-ID is the one from before without bit 31.
pub enable-disable :
    (c : Client) (k : Keeps c) (s : c.State) (pdo_nb cob_id : ℕ)
    → cob_id < 4294967296
    → k.memory s (communication_index pdo_nb) 1 ≡ some (bytes32 cob_id)
    → (s1 s2 s3 s4 : c.State) × (disable c pdo_nb s ≡ (s1, ok tt))
      × (read_enabled c pdo_nb s1 ≡ (s2, ok false))
      × (enable c pdo_nb s2 ≡ (s3, ok tt))
      × (read_enabled c pdo_nb s3 ≡ (s4, ok true))
      × (k.memory s3 (communication_index pdo_nb) 1 ≡ some (bytes32 (cob_id % 2147483648)))
unfolding disable enable
enable-disable c k s pdo_nb cob_id small there =
    let index = communication_index pdo_nb in
    let off = bit_or cob_id 0x80000000 in
    let on = bit_and off 0x7fffffff in
    let off_is = set_bit31_lem cob_id small in
    let on_is = clear_bit31_lem off in
    let (s1, disabled, m1) = change_lem c k s index 1 cob_id (set_bit31 c) small there in
    let (s2, read1, kept) = enabled_lem c k s1 pdo_nb off (omega (arith, off_is)) m1 in
    let (s3, enabled, m3) =
      change_lem c k s2 index 1 off (clear_bit31 c) (omega (arith, off_is))
        (ap (λ m. m index 1) kept ∙ m1) in
    let (s4, read3, kept3) = enabled_lem c k s3 pdo_nb on (omega (arith, on_is)) m3 in
    let is_off : (off / 2147483648 % 2 == 0) ≡ false = ground (arith, off_is) in
    let is_on : (on / 2147483648 % 2 == 0) ≡ true = ground (arith, on_is) in
    let same : on ≡ cob_id % 2147483648 = omega (arith, on_is, off_is) in
    (
      s1,
      s2,
      s3,
      s4,
      disabled,
      read1 ∙ ap (λ b. (s2, ok b)) is_off,
      enabled,
      read3 ∙ ap (λ b. (s4, ok b)) is_on,
      m3 ∙ ap (λ n. some (bytes32 n)) same,
    )
