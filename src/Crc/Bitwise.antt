-- ===== src/Crc/Bitwise.antt =====
-- internal/crc/crc.go against the shift register that CRC-16/CCITT (XMODEM) is defined by.
use gocanopen.Base.{
  ℕ, zero, suc, ◌+◌, ◌*◌, ◌/◌, ◌%◌, ◌<◌, ◌≡◌, refl, ap, ◌∙◌, sym, Bool, true, ◌&&◌, List, [], ◌∷◌,
  arith, bit_xor, AllBytes, ltb, ltb→lt, ◌==◌, ==_iff, if◌then◌else◌, u8, u16,
}
use gocanopen.Base.Bits.{bit_xor-div, bit_xor-mod, bit_xor-lt}
use gocanopen.Crc.{table_at, single, block}

-- One clock of the register with the generator x^16 + x^12 + x^5 + 1.
pub shift : ℕ → ℕ
shift c = if ltb c 0x8000 then 2 * c else bit_xor (u16 (2 * c)) 0x1021

-- Eight clocks.
pub clock8 : ℕ → ℕ
unfolding shift
clock8 c = shift (shift (shift (shift (shift (shift (shift (shift c)))))))

-- A byte enters at the top of the register and is clocked through.
pub reference_single : ℕ → ℕ → ℕ
reference_single crc byte = clock8 (bit_xor crc (byte * 256))

pub reference_block : ℕ → List ℕ → ℕ
reference_block crc [] = crc
reference_block crc (byte ∷ bytes) = reference_block (reference_single crc byte) bytes

-- A test that passes for each of the first `count` numbers.
passes : (test : ℕ → Bool) → (count : ℕ) → Bool
passes test zero = true
passes test (suc count) = passes test count && test count

passed :
    (test : ℕ → Bool) (count value : ℕ)
    → value < count
    → passes test count ≡ true
    → test value ≡ true
unfolding passes
passed test zero value inside all = absurd (omega arith)
passed test (suc count) value inside all = ground (arith, passed test count value)

row_agrees : ℕ → ℕ → ℕ → Bool
row_agrees hi entry lo = clock8 (hi * 256 + lo) == bit_xor (lo * 256) entry

table_agrees : ℕ → Bool
table_agrees hi = let entry = table_at hi in passes (row_agrees hi entry) 256

-- Every register value, in 256 rows of 256.
table_checked : passes table_agrees 256 ≡ true
unfolding passes table_agrees row_agrees clock8 table_at
table_checked = refl

row_checked : (hi : ℕ) → hi < 256 → table_agrees hi ≡ true
row_checked hi h = passed table_agrees 256 hi h table_checked

clock8_table :
    (hi lo : ℕ) → hi < 256 → lo < 256 → clock8 (hi * 256 + lo) ≡ bit_xor (lo * 256) (table_at hi)
unfolding row_agrees table_agrees
clock8_table hi lo p q =
    (==_iff _ _).0 (passed (row_agrees hi (table_at hi)) 256 lo q (row_checked hi p))

-- One table lookup does what eight clocks of the register do, for each register and byte.
single-eq-reference_single :
    (crc byte : ℕ) → crc < 65536 → byte < 256 → single crc byte ≡ reference_single crc byte
unfolding single reference_single
single-eq-reference_single crc byte p q =
    rw (high, low) (sym (ap clock8 parts ∙ clock8_table hi (crc % 256) hi_byte (omega arith)))
  where
    mixed : ℕ
    mixed = bit_xor crc (byte * 256)

    hi : ℕ
    hi = bit_xor (crc / 256) byte

    hi_byte : hi < 256
    hi_byte = bit_xor-lt 8 (crc / 256) byte (omega arith) q

    high : u8 (crc / 256) ≡ crc / 256
    high = omega arith

    low : u16 (crc * 256) ≡ crc % 256 * 256
    low = omega arith

    multiple : byte * 256 / 256 ≡ byte
    multiple = omega arith

    top : mixed / 256 ≡ hi
    top = bit_xor-div 8 crc (byte * 256) ∙ ap (bit_xor (crc / 256)) multiple

    bottom : mixed % 256 ≡ crc % 256
    bottom = bit_xor-mod 8 crc (byte * 256) (omega arith)

    parts : mixed ≡ hi * 256 + crc % 256
    parts = omega (arith, top, bottom)

entry_fits : ℕ → Bool
entry_fits i = ltb (table_at i) 65536

entries_checked : passes entry_fits 256 ≡ true
unfolding passes entry_fits table_at
entries_checked = refl

table_at-lt : (i : ℕ) → i < 256 → table_at i < 65536
unfolding entry_fits
table_at-lt i h = ltb→lt _ _ (passed entry_fits 256 i h entries_checked)

-- The CRC stays in 16 bits.
single-lt : (crc byte : ℕ) → byte < 256 → single crc byte < 65536
unfolding single
single-lt crc byte q =
    bit_xor-lt 16 _ _ (omega arith)
      (table_at-lt _ (bit_xor-lt 8 (u8 (crc / 256)) byte (omega arith) q))

-- `Block` over a slice is the register over its bytes, and stays in 16 bits.
pub block-eq-reference_block :
    (crc : ℕ) (bytes : List ℕ)
    → crc < 65536
    → AllBytes bytes
    → (block crc bytes ≡ reference_block crc bytes) × (block crc bytes < 65536)
unfolding block reference_block
block-eq-reference_block crc [] p q = (refl, p)
block-eq-reference_block crc (byte ∷ bytes) p q =
    rw (← single-eq-reference_single crc byte p q.0)
      (block-eq-reference_block (single crc byte) bytes (single-lt crc byte q.0) q.1)
