-- ===== src/Crc/Tests.antt =====
-- Concrete runs of internal/crc/crc.go, and the theorems at concrete inputs.
use gocanopen.Base.{◌<◌, ◌≡◌, refl, [], ◌∷◌, arith}
use gocanopen.Crc.{table_at, single, block}
use gocanopen.Crc.Bitwise.{reference_block, block-eq-reference_block}

-- internal/crc/crc_test.go
single_test : single 0 10 ≡ 0xa14a
unfolding single table_at
single_test = refl

block-eq-reference_block_example :
    (block 0 (1 ∷ 2 ∷ []) ≡ reference_block 0 (1 ∷ 2 ∷ [])) × (block 0 (1 ∷ 2 ∷ []) < 65536)
block-eq-reference_block_example =
    block-eq-reference_block 0 (1 ∷ 2 ∷ []) (omega arith) (omega arith)
