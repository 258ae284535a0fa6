-- ===== src/Sdo/Abort.antt =====
-- pkg/sdo/common.go: the abort codes and the codes for the errors of the dictionary.
use gocanopen.Base.{ℕ}
use gocanopen.Od.Errors.{Odr}

abbrev pub abort_toggle_bit : ℕ
abort_toggle_bit = 0x05030000

abbrev pub abort_timeout : ℕ
abort_timeout = 0x05040000

abbrev pub abort_cmd : ℕ
abort_cmd = 0x05040001

abbrev pub abort_block_size : ℕ
abort_block_size = 0x05040002

abbrev pub abort_seq_num : ℕ
abort_seq_num = 0x05040003

abbrev pub abort_crc : ℕ
abort_crc = 0x05040004

abbrev pub abort_out_of_mem : ℕ
abort_out_of_mem = 0x05040005

abbrev pub abort_unsupported_access : ℕ
abort_unsupported_access = 0x06010000

abbrev pub abort_write_only : ℕ
abort_write_only = 0x06010001

abbrev pub abort_read_only : ℕ
abort_read_only = 0x06010002

abbrev pub abort_not_exist : ℕ
abort_not_exist = 0x06020000

abbrev pub abort_no_map : ℕ
abort_no_map = 0x06040041

abbrev pub abort_map_len : ℕ
abort_map_len = 0x06040042

abbrev pub abort_param_incompat : ℕ
abort_param_incompat = 0x06040043

abbrev pub abort_device_incompat : ℕ
abort_device_incompat = 0x06040047

abbrev pub abort_hardware : ℕ
abort_hardware = 0x06060000

abbrev pub abort_type_mismatch : ℕ
abort_type_mismatch = 0x06070010

abbrev pub abort_data_long : ℕ
abort_data_long = 0x06070012

abbrev pub abort_data_short : ℕ
abort_data_short = 0x06070013

abbrev pub abort_sub_unknown : ℕ
abort_sub_unknown = 0x06090011

abbrev pub abort_invalid_value : ℕ
abort_invalid_value = 0x06090030

abbrev pub abort_value_high : ℕ
abort_value_high = 0x06090031

abbrev pub abort_value_low : ℕ
abort_value_low = 0x06090032

abbrev pub abort_max_less_min : ℕ
abort_max_less_min = 0x06090036

abbrev pub abort_no_ressource : ℕ
abort_no_ressource = 0x060a0023

abbrev pub abort_general : ℕ
abort_general = 0x08000000

abbrev pub abort_data_transfer : ℕ
abort_data_transfer = 0x08000020

abbrev pub abort_data_local_control : ℕ
abort_data_local_control = 0x08000021

abbrev pub abort_data_device_state : ℕ
abort_data_device_state = 0x08000022

abbrev pub abort_data_od : ℕ
abort_data_od = 0x08000023

abbrev pub abort_no_data : ℕ
abort_no_data = 0x08000024

-- `ConvertOdToSdoAbort`: the map `OdToAbortMap`, with the code of ErrDevIncompat for an error that is
-- not in it.
unfoldable pub convert_od_to_sdo_abort : Odr → ℕ
convert_od_to_sdo_abort Odr.out_of_mem = abort_out_of_mem
convert_od_to_sdo_abort Odr.unsupp_access = abort_unsupported_access
convert_od_to_sdo_abort Odr.write_only = abort_write_only
convert_od_to_sdo_abort Odr.readonly = abort_read_only
convert_od_to_sdo_abort Odr.idx_not_exist = abort_not_exist
convert_od_to_sdo_abort Odr.no_map = abort_no_map
convert_od_to_sdo_abort Odr.map_len = abort_map_len
convert_od_to_sdo_abort Odr.par_incompat = abort_param_incompat
convert_od_to_sdo_abort Odr.dev_incompat = abort_device_incompat
convert_od_to_sdo_abort Odr.hw = abort_hardware
convert_od_to_sdo_abort Odr.type_mismatch = abort_type_mismatch
convert_od_to_sdo_abort Odr.data_long = abort_data_long
convert_od_to_sdo_abort Odr.data_short = abort_data_short
convert_od_to_sdo_abort Odr.sub_not_exist = abort_sub_unknown
convert_od_to_sdo_abort Odr.invalid_value = abort_invalid_value
convert_od_to_sdo_abort Odr.value_high = abort_value_high
convert_od_to_sdo_abort Odr.value_low = abort_value_low
convert_od_to_sdo_abort Odr.max_less_min = abort_max_less_min
convert_od_to_sdo_abort Odr.no_ressource = abort_no_ressource
convert_od_to_sdo_abort Odr.general = abort_general
convert_od_to_sdo_abort Odr.data_transf = abort_data_transfer
convert_od_to_sdo_abort Odr.data_loc_ctrl = abort_data_local_control
convert_od_to_sdo_abort Odr.data_dev_state = abort_data_device_state
convert_od_to_sdo_abort Odr.od_missing = abort_data_od
convert_od_to_sdo_abort Odr.no_data = abort_no_data
convert_od_to_sdo_abort _ = abort_device_incompat
