-- ===== src/Base/Words.antt =====
-- Fixed-width unsigned integers as native numbers, and binary.LittleEndian of the source.
use Prim.Native.Nat.{ℕ, ◌+◌, ◌-◌, ◌*◌, ◌/◌, ◌%◌, ◌<◌, bit_and}
use mathlib.Core.Path.{◌≡◌}
use mathlib.Core.Bool.{Bool, not}
use mathlib.Core.List.{List, [], ◌∷◌}
use native.Mathlib.Omega.{arith}
use gocanopen.Base.Tests.{◌==◌}
use gocanopen.Base.Lists.{get_or}

-- Arithmetic modulo the width.
abbrev pub u32 : ℕ → ℕ
u32 x = x % 4294967296

abbrev pub u16 : ℕ → ℕ
u16 x = x % 65536

abbrev pub u8 : ℕ → ℕ
u8 x = x % 256

-- uint32 subtraction wraps.
abbrev pub sub_u32 : ℕ → ℕ → ℕ
sub_u32 a b = (a + 4294967296 - b) % 4294967296

-- `x & mask != 0`
abbrev pub has_bits : ℕ → ℕ → Bool
has_bits x mask = not (bit_and x mask == 0)

-- binary.LittleEndian.Uint16 and Uint32 of the bytes from index `i` on.
abbrev pub le16 : List ℕ → ℕ → ℕ
le16 bs i = get_or bs i 0 + 256 * get_or bs (i + 1) 0

abbrev pub le32 : List ℕ → ℕ → ℕ
le32 bs i =
    get_or bs i 0
    + 256 * get_or bs (i + 1) 0
    + 65536 * get_or bs (i + 2) 0
    + 16777216 * get_or bs (i + 3) 0

-- The bytes that binary.LittleEndian.PutUint16 and PutUint32 write.
abbrev pub bytes16 : ℕ → List ℕ
bytes16 v = v % 256 ∷ v / 256 % 256 ∷ []

abbrev pub bytes32 : ℕ → List ℕ
bytes32 v = v % 256 ∷ v / 256 % 256 ∷ v / 65536 % 256 ∷ v / 16777216 % 256 ∷ []

pub le16-bytes16 : (v : ℕ) → v < 65536 → le16 (bytes16 v) 0 ≡ v
le16-bytes16 v h = omega arith

pub le32-bytes32 : (v : ℕ) → v < 4294967296 → le32 (bytes32 v) 0 ≡ v
le32-bytes32 v h = omega arith

-- A slice of bytes.
abbrev pub AllBytes : List ℕ → Type 0
AllBytes [] = Unit
AllBytes (b ∷ bs) = (b < 256) × AllBytes bs
