-- ===== src/Crc.antt =====
-- internal/crc/crc.go: the table-driven CRC-16 of SDO block transfers.
pub mod Table
pub mod Bitwise
mod Tests
use gocanopen.Base.{ℕ, ◌*◌, ◌/◌, ◌%◌, bit_xor, List, [], ◌∷◌, get_or, u16, u8}
use gocanopen.Crc.Table.{crc16_ccitt_table}

-- An entry of `crc16CcitTable`. The index is a byte, so it is in range.
pub table_at : ℕ → ℕ
table_at i = get_or crc16_ccitt_table i 0

-- `Single`: the CRC after one more byte. `uint8(*crc>>8) ^ data` is an index below 256.
unfoldable pub single : ℕ → ℕ → ℕ
single crc byte =
    let tmp = bit_xor (u8 (crc / 256)) byte in bit_xor (u16 (crc * 256)) (table_at tmp)

-- `Block`: the loop over a slice of bytes.
unfoldable pub block : ℕ → List ℕ → ℕ
block crc [] = crc
block crc (byte ∷ bytes) = block (single crc byte) bytes
