-- ===== src/Config.antt =====
-- pkg/config, and the typed accesses of pkg/sdo/io.go that it uses: a configurator reads and writes the
-- objects of a remote node through an SDO client, which is an interface here. Logging is left out.
pub mod Services
pub mod Pdos
use gocanopen.Base.{
  ℕ, ◌+◌, ◌-◌, ◌*◌, ◌%◌, Bool, true, false, not, Option, none, some, List, [], ◌∷◌, length, leb,
  ◌==◌, if◌then◌else◌, u8, u16, u32, bit_and, bit_or, le16, le32, bytes16, bytes32, get_or,
}

-- What a read into a buffer leaves.
pub record Answer (Failure : Type 0) : Type 0 where
  pub data' : List ℕ
  pub count : ℕ
  pub err : Option Failure

-- The SDO client for one node: `ReadRaw` into a buffer of a size, and `WriteRaw` of encoded bytes.
pub record Client : Type 1 where
  pub State : Type 0
  pub Failure : Type 0
  pub is_not_exist : Failure → Bool
  pub type_mismatch : Failure
  pub wrong_range : Failure
  pub read_raw : State → (index sub size : ℕ) → State × Answer Failure
  pub write_raw : State → (index sub : ℕ) → List ℕ → State × Option Failure

pub data Result (Failure A : Type 0) : Type 0 where
  ok : A → Result Failure A
  failed : Failure → Result Failure A

module _ (c : Client) where
  -- What a function of the configurator does with the client.
  abbrev pub Task : Type 0 → Type 0
  Task A = c.State → c.State × Result c.Failure A

  abbrev pub return : {A : Type 0} → A → Task A
  return a s = (s, ok a)

  abbrev pub fail : {A : Type 0} → c.Failure → Task A
  fail err s = (s, failed err)

  -- The rest is not run after a failure.
  unfoldable pub continue :
      {A B : Type 0} → c.State × Result c.Failure A → (A → Task B) → c.State × Result c.Failure B
  continue (s, ok a) f = f a s
  continue (s, failed err) f = (s, failed err)

  unfoldable pub chain : {A B : Type 0} → Task A → (A → Task B) → Task B
  chain x f s = continue (x s) f

  -- A failure gives 0, for a value that is optional.
  unfoldable pub or_zero : c.State × Result c.Failure ℕ → c.State × Result c.Failure ℕ
  or_zero (s, ok n) = (s, ok n)
  or_zero (s, failed err) = (s, ok 0)

  unfoldable pub optional : Task ℕ → Task ℕ
  optional x s = or_zero (x s)

  unfoldable pub number : (size : ℕ) → (List ℕ → ℕ) → Answer c.Failure → Result c.Failure ℕ
  number size value r = elim r.err [
    | some err ↦ failed err
    | none ↦ if r.count == size then ok (value r.data') else failed c.type_mismatch
  ]

  unfoldable pub read_number : (size : ℕ) → (List ℕ → ℕ) → (index sub : ℕ) → Task ℕ
  read_number size value index sub s =
      let (s', r) = c.read_raw s index sub size in (s', number size value r)

  -- `ReadUint8`, `ReadUint16` and `ReadUint32`
  unfoldable pub read_uint8 : (index sub : ℕ) → Task ℕ
  read_uint8 = read_number 1 (λ bs. get_or bs 0 0)

  unfoldable pub read_uint16 : (index sub : ℕ) → Task ℕ
  read_uint16 = read_number 2 (λ bs. le16 bs 0)

  unfoldable pub read_uint32 : (index sub : ℕ) → Task ℕ
  read_uint32 = read_number 4 (λ bs. le32 bs 0)

  unfoldable pub outcome : c.State × Option c.Failure → c.State × Result c.Failure Unit
  outcome (s, none) = (s, ok tt)
  outcome (s, some err) = (s, failed err)

  -- `WriteRaw` of a uint8, a uint16 and a uint32, as `EncodeFromGeneric` encodes them.
  unfoldable pub write_bytes : (index sub : ℕ) → List ℕ → Task Unit
  write_bytes index sub bytes s = outcome (c.write_raw s index sub bytes)

  unfoldable pub write_uint8 : (index sub value : ℕ) → Task Unit
  write_uint8 index sub value = write_bytes index sub (value ∷ [])

  unfoldable pub write_uint16 : (index sub value : ℕ) → Task Unit
  write_uint16 index sub value = write_bytes index sub (bytes16 value)

  unfoldable pub write_uint32 : (index sub value : ℕ) → Task Unit
  write_uint32 index sub value = write_bytes index sub (bytes32 value)

  -- A number of an object with some of its bits set or cleared.
  unfoldable pub change : (index sub : ℕ) → (ℕ → ℕ) → Task Unit
  change index sub f = chain (read_uint32 index sub) (λ value. write_uint32 index sub (f value))

  abbrev pub set_bit30 : ℕ → ℕ
  set_bit30 value = bit_or value 0x40000000

  abbrev pub clear_bit30 : ℕ → ℕ
  clear_bit30 value = bit_and value 0xbfffffff

  abbrev pub set_bit31 : ℕ → ℕ
  set_bit31 value = bit_or value 0x80000000

  abbrev pub clear_bit31 : ℕ → ℕ
  clear_bit31 value = bit_and value 0x7fffffff
