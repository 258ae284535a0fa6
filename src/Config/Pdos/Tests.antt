-- ===== src/Config/Pdos/Tests.antt =====
-- pkg/config: the theorems at a node that keeps what is written to it.
use gocanopen.Base.{
  ℕ, zero, suc, ◌<◌, ◌≡◌, refl, ap, true, false, Option, none, some, List, [], ◌∷◌, length, arith,
  bytes32, ◌%◌, if◌then◌else◌, ◌==◌,
}
use gocanopen.Config.{Client, Answer, ok}
use gocanopen.Config.Pdos.{
  MappingParameter, write_mappings, read_mappings, disable, enable, read_enabled,
  communication_index, mapping_index,
}
use gocanopen.Config.Pdos.Stored.{Memory, stored_in, Keeps, Sized, HasMapping, read-write_mappings}
use gocanopen.Config.Pdos.Enabled.{enable-disable}

abbrev answer_of : Option (List ℕ) → Answer ℕ
answer_of none = record { data' = []; count = 0; err = some 1 }
answer_of (some bytes) = record { data' = bytes; count = length bytes; err = none }

-- The node is its memory.
abbrev node : Client
node = record {
  State = Memory;
  Failure = ℕ;
  is_not_exist = λ err. err == 1;
  type_mismatch = 2;
  wrong_range = 3;
  read_raw = λ m index sub size. (m, answer_of (m index sub));
  write_raw = λ m index sub bytes. (stored_in m index sub bytes, none);
}

abbrev kept_node : Keeps node
kept_node = record {
  memory = λ m. m;
  read_law = λ m index sub bytes there. (m, ap (λ o. (m, answer_of o)) there, refl);
  write_law = λ m index sub old bytes there same. (stored_in m index sub bytes, refl, refl);
}

-- RPDO 1 with COB-ID 0x187 and an empty mapping.
abbrev start : Memory
start index sub =
    if index == 0x1400
    then some (bytes32 0x187)
    else if sub == 0
    then some (0 ∷ [])
    else some (bytes32 0)

abbrev two_objects : List MappingParameter
two_objects =
    record { index = 0x2000; subindex = 1; length_bits = 8 }
    ∷ record { index = 0x2001; subindex = 0; length_bits = 32 }
    ∷ []

parameter_there : (sub : ℕ) → 0 < sub → Sized start 0x1600 sub 4
parameter_there zero low = elim low [ ]
parameter_there (suc sub) low = (bytes32 0, ground arith, refl)

start-HasMapping : HasMapping start (mapping_index 1)
unfolding mapping_index
start-HasMapping = record {
  number = (0 ∷ [], refl, refl);
  parameter = λ sub low high. parameter_there sub low;
}

read-write_mappings_example :
    (s' s'' : Memory) × (write_mappings node 1 two_objects start ≡ (s', ok tt))
    × (read_mappings node 1 s' ≡ (s'', ok two_objects))
read-write_mappings_example =
    read-write_mappings node kept_node start 1 two_objects start-HasMapping (omega arith) (
      record { index = omega arith; subindex = omega arith; length_bits = omega arith },
      (record { index = omega arith; subindex = omega arith; length_bits = omega arith }, tt),
    )

start_id : start (communication_index 1) 1 ≡ some (bytes32 0x187)
unfolding communication_index
start_id = refl

enable-disable_example :
    (s1 s2 s3 s4 : Memory) × (disable node 1 start ≡ (s1, ok tt))
    × (read_enabled node 1 s1 ≡ (s2, ok false))
    × (enable node 1 s2 ≡ (s3, ok tt))
    × (read_enabled node 1 s3 ≡ (s4, ok true))
    × (s3 (communication_index 1) 1 ≡ some (bytes32 (0x187 % 2147483648)))
enable-disable_example = enable-disable node kept_node start 1 0x187 (omega arith) start_id
