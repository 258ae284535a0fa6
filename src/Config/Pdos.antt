-- ===== src/Config/Pdos.antt =====
-- pkg/config/pdo.go: the PDO parameters of a remote node.
pub mod Stored
pub mod Enabled
mod Tests
use gocanopen.Base.{
  ℕ, zero, suc, ◌+◌, ◌-◌, ◌*◌, ◌/◌, ◌%◌, Bool, true, false, not, ◌||◌, Option, none, some, List, [],
  ◌∷◌, ◌++◌, length, ltb, leb, ◌==◌, if◌then◌else◌, u8, u16, u32, bit_and, bit_or,
}
use gocanopen.Config.{
  Client, Result, ok, failed, Task, return, fail, chain, optional, read_uint8, read_uint16,
  read_uint32, write_uint8, write_uint16, write_uint32, change, set_bit31, clear_bit31,
}

-- `PDOMappingParameter`
pub record MappingParameter : Type 0 where
  pub index : ℕ
  pub subindex : ℕ
  pub length_bits : ℕ

-- `PDOConfigurationParameter`
pub record Configuration : Type 0 where
  pub can_id : ℕ
  pub transmission_type : ℕ
  pub inhibit_time : ℕ
  pub event_timer : ℕ
  pub mappings : List MappingParameter

abbrev pub max_rpdo_number : ℕ
max_rpdo_number = 256

abbrev pub max_pdo_number : ℕ
max_pdo_number = 512

-- `getMappingIndex` and `getCommunicationIndex`
unfoldable pub mapping_index : (pdo_nb : ℕ) → ℕ
mapping_index pdo_nb =
    if leb pdo_nb max_rpdo_number
    then u16 (0x1600 + pdo_nb - 1)
    else u16 (0x1a00 + pdo_nb - max_rpdo_number - 1)

unfoldable pub communication_index : (pdo_nb : ℕ) → ℕ
communication_index pdo_nb =
    if leb pdo_nb max_rpdo_number
    then u16 (0x1400 + pdo_nb - 1)
    else u16 (0x1800 + pdo_nb - max_rpdo_number - 1)

-- A mapping parameter as a number, and back.
unfoldable pub raw_map : MappingParameter → ℕ
raw_map m = u32 (m.index * 65536 + m.subindex * 256 + m.length_bits)

unfoldable pub of_raw : ℕ → MappingParameter
of_raw raw = record { index = u16 (raw / 65536); subindex = u8 (raw / 256); length_bits = u8 raw }

module _ (c : Client) where
  -- `ReadCobIdPDO`, `ReadEnabledPDO`, `ReadTransmissionType`, `ReadInhibitTime`, `ReadEventTimer`
  unfoldable pub read_cob_id : (pdo_nb : ℕ) → Task c ℕ
  read_cob_id pdo_nb = read_uint32 c (communication_index pdo_nb) 1

  unfoldable pub read_enabled : (pdo_nb : ℕ) → Task c Bool
  read_enabled pdo_nb =
      chain c (read_cob_id pdo_nb) (λ cob_id. return c (cob_id / 2147483648 % 2 == 0))

  unfoldable pub read_transmission_type : (pdo_nb : ℕ) → Task c ℕ
  read_transmission_type pdo_nb = read_uint8 c (communication_index pdo_nb) 2

  unfoldable pub read_inhibit_time : (pdo_nb : ℕ) → Task c ℕ
  read_inhibit_time pdo_nb = read_uint16 c (communication_index pdo_nb) 3

  unfoldable pub read_event_timer : (pdo_nb : ℕ) → Task c ℕ
  read_event_timer pdo_nb = read_uint16 c (communication_index pdo_nb) 5

  -- `ReadNbMappings`
  unfoldable pub read_nb_mappings : (pdo_nb : ℕ) → Task c ℕ
  read_nb_mappings pdo_nb = read_uint8 c (mapping_index pdo_nb) 0

  -- The loop of `ReadMappings`, with `left` rounds from `i` on.
  unfoldable pub read_mappings_from : (index left i : ℕ) → Task c (List MappingParameter)
  read_mappings_from index zero i = return c []
  read_mappings_from index (suc left) i = chain c (read_uint32 c index (u8 (i + 1))) (λ raw.
      chain c (read_mappings_from index left (i + 1)) (λ rest. return c (of_raw raw ∷ rest)))

  -- `ReadMappings`
  unfoldable pub read_mappings : (pdo_nb : ℕ) → Task c (List MappingParameter)
  read_mappings pdo_nb =
      chain c (read_nb_mappings pdo_nb) (λ count. read_mappings_from (mapping_index pdo_nb) count 0)

  -- `ReadConfigurationPDO`; what it returns beside an error is left out.
  unfoldable pub read_configuration : (pdo_nb : ℕ) → Task c Configuration
  read_configuration pdo_nb = chain c (read_cob_id pdo_nb) (λ cob_id.
      chain c (read_transmission_type pdo_nb) (λ transmission_type.
        chain c (optional c (read_inhibit_time pdo_nb)) (λ inhibit_time.
          chain c (optional c (read_event_timer pdo_nb)) (λ event_timer.
            chain c (read_mappings pdo_nb) (λ mappings. return c (record {
              can_id = bit_and cob_id 0x7ff;
              transmission_type = transmission_type;
              inhibit_time = inhibit_time;
              event_timer = event_timer;
              mappings = mappings;
            }))))))

  -- The loop of `ReadConfigurationRangePDO`, with `left` rounds from the PDO `pdo_nb` on. It ends at a
  -- PDO that does not exist, and keeps what it has read beside another error.
  unfoldable pub read_range_from :
      (left pdo_nb : ℕ) → Task c (List Configuration × Option c.Failure)
  read_range_from zero pdo_nb s = (s, ok ([], none))
  read_range_from (suc left) pdo_nb s =
      let (s', r) = read_configuration pdo_nb s in
      elim r [
        | failed err ↦ (s', ok ([], (if c.is_not_exist err then none else some err)))
        | ok conf ↦
            chain c (read_range_from left (pdo_nb + 1)) (λ (rest, err). return c (conf ∷ rest, err))
              s'
      ]

  -- `ReadConfigurationRangePDO`
  unfoldable pub read_configuration_range :
      (start end : ℕ) → Task c (List Configuration × Option c.Failure)
  read_configuration_range start end =
      if ltb start 1 || ltb max_pdo_number end
      then fail c c.wrong_range
      else read_range_from (end + 1 - start) start

  -- `DisablePDO` and `EnablePDO`
  unfoldable pub disable : (pdo_nb : ℕ) → Task c Unit
  disable pdo_nb = change c (communication_index pdo_nb) 1 (set_bit31 c)

  unfoldable pub enable : (pdo_nb : ℕ) → Task c Unit
  enable pdo_nb = change c (communication_index pdo_nb) 1 (clear_bit31 c)

  -- `WriteCanIdPDO`
  unfoldable pub write_can_id : (pdo_nb can_id : ℕ) → Task c Unit
  write_can_id pdo_nb can_id =
      change c (communication_index pdo_nb) 1 (λ cob_id. bit_or (bit_and cob_id 0xfffff800) can_id)

  -- `WriteTransmissionType`, `WriteInhibitTime` and `WriteEventTimer`
  unfoldable pub write_transmission_type : (pdo_nb transmission_type : ℕ) → Task c Unit
  write_transmission_type pdo_nb transmission_type =
      write_uint8 c (communication_index pdo_nb) 2 transmission_type

  unfoldable pub write_inhibit_time : (pdo_nb inhibit_time : ℕ) → Task c Unit
  write_inhibit_time pdo_nb inhibit_time =
      write_uint16 c (communication_index pdo_nb) 3 inhibit_time

  unfoldable pub write_event_timer : (pdo_nb event_timer : ℕ) → Task c Unit
  write_event_timer pdo_nb event_timer = write_uint16 c (communication_index pdo_nb) 5 event_timer

  -- The loop of `ClearMappings`, with `left` rounds from `i` on.
  unfoldable pub clear_from : (index left i : ℕ) → Task c Unit
  clear_from index zero i = return c tt
  clear_from index (suc left) i =
      chain c (write_uint32 c index (u8 (i + 1)) 0) (λ _. clear_from index left (i + 1))

  -- `ClearMappings`
  unfoldable pub clear_mappings : (pdo_nb : ℕ) → Task c Unit
  clear_mappings pdo_nb =
      chain c (write_uint8 c (mapping_index pdo_nb) 0 0)
        (λ _. clear_from (mapping_index pdo_nb) 8 0)

  -- The loop of `WriteMappings` from the place `i` on.
  unfoldable pub write_from : (index i : ℕ) → List MappingParameter → Task c Unit
  write_from index i [] = return c tt
  write_from index i (m ∷ ms) =
      chain c (write_uint32 c index (u8 (i + 1)) (raw_map m)) (λ _. write_from index (i + 1) ms)

  -- `WriteMappings`: the number of mapped objects is written last.
  unfoldable pub write_mappings : (pdo_nb : ℕ) → List MappingParameter → Task c Unit
  write_mappings pdo_nb mappings = chain c (clear_mappings pdo_nb) (λ _.
      chain c (write_from (mapping_index pdo_nb) 0 mappings)
        (λ _. write_uint8 c (mapping_index pdo_nb) 0 (u8 (length mappings))))

  -- `WriteConfigurationPDO`
  unfoldable pub write_configuration : (pdo_nb : ℕ) → Configuration → Task c Unit
  write_configuration pdo_nb conf = chain c (write_can_id pdo_nb conf.can_id) (λ _.
      chain c (write_transmission_type pdo_nb conf.transmission_type) (λ _.
        chain c (write_event_timer pdo_nb conf.event_timer) (λ _.
          chain c (write_inhibit_time pdo_nb conf.inhibit_time)
            (λ _. write_mappings pdo_nb conf.mappings))))
