-- ===== src/Od/Entry/Tests.antt =====
-- Concrete transfers of pkg/od, and the theorems at concrete inputs.
use gocanopen.Base.{ℕ, ◌≡◌, ◌≢◌, refl, true, none, some, [], ◌∷◌, arith, bytes32}
use gocanopen.Od.Errors.{partial, done}
use gocanopen.Od.Stream.{Stream, read_entry_default}
use gocanopen.Od.Stream.Whole.{IsOpened}
use gocanopen.Od.Stream.Chunks.{read_first_chunk}
use gocanopen.Od.Entry.{
  Variable, rec, Entry, find_variable, at, shared_write, uint32, put_uint32, is_domain,
}
use gocanopen.Od.Entry.Access.{Holds, uint32-put_uint32}

abbrev five : Stream
five = record {
  bytes = 1 ∷ 2 ∷ 3 ∷ 4 ∷ 5 ∷ [];
  spare = [];
  allocated = true;
  data_offset = 0;
  data_length = 5;
  attribute = 3;
  subindex = 0;
}

five-IsOpened : IsOpened five
five-IsOpened = record { there = refl; start = refl; whole = refl; small = omega arith }

-- The first two bytes of five are read as 3 and 4.
read_first_chunk_example :
    read_entry_default five (0 ∷ 0 ∷ [])
    ≡ done (record {
      stream = record five { data_offset = 2 };
      filled = 3 ∷ 4 ∷ [];
      count = 2;
      err = some partial;
    })
read_first_chunk_example =
    read_first_chunk five (0 ∷ 0 ∷ []) five-IsOpened (omega arith) (omega arith) (omega arith)

abbrev number : Variable
number = record {
  value = 0 ∷ 0 ∷ 0 ∷ 0 ∷ [];
  spare = [];
  data_type = 7;
  attribute = 3;
  sub_index = 1;
}

abbrev counted : Variable
counted = record { value = 1 ∷ []; spare = []; data_type = 5; attribute = 3; sub_index = 0 }

abbrev identity : Entry
identity = record { index = 0x1018; object = rec (counted ∷ number ∷ []); extension = none }

identity-Holds : Holds identity 1 1 number
unfolding find_variable is_domain
identity-Holds = record { found = refl; usable = refl; small = omega arith }

uint32-put_uint32_example :
    let e' = shared_write identity 1 (bytes32 0xdeadbeef) in
    (put_uint32 identity 1 0xdeadbeef true ≡ done (e', none))
    × (uint32 e' 1 ≡ done (0xdeadbeef, none))
    × ((other j : ℕ) (w : Variable)
        → 1 ≢ j
        → find_variable identity.object other ≡ at j w
        → find_variable e'.object other ≡ at j w)
uint32-put_uint32_example =
    uint32-put_uint32 identity 1 1 number 0xdeadbeef identity-Holds refl (omega arith)
