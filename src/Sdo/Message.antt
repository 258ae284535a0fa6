-- ===== src/Sdo/Message.antt =====
-- pkg/sdo/common.go: the states of a transfer and the fields of a message.
use gocanopen.Base.{ℕ, Bool, true, false, ◌||◌, List, get_or, ◌==◌, bit_and, has_bits, le16, le32}

-- `internalState`
pub data State : Type 0 where
  idle abort : State
  download_local_transfer download_initiate_req download_initiate_rsp : State
  download_segment_req download_segment_rsp : State
  upload_local_transfer upload_initiate_req upload_initiate_rsp upload_expedited_rsp : State
  upload_segment_req upload_segment_rsp : State
  download_blk_initiate_req download_blk_initiate_rsp download_blk_subblock_req : State
  download_blk_subblock_rsp download_blk_end_req download_blk_end_rsp : State
  upload_blk_initiate_req upload_blk_initiate_rsp upload_blk_initiate_req2 : State
  upload_blk_subblock_sreq upload_blk_subblock_crsp upload_blk_end_sreq upload_blk_end_crsp : State

abbrev pub block_max_size : ℕ
block_max_size = 127

abbrev pub block_seq_size : ℕ
block_seq_size = 7

abbrev pub client_service_id : ℕ
client_service_id = 0x600

abbrev pub server_service_id : ℕ
server_service_id = 0x580

abbrev pub mask_cs : ℕ
mask_cs = 0xe0

abbrev pub cs_abort : ℕ
cs_abort = 0x80

abbrev pub cs_download_initiate : ℕ
cs_download_initiate = 0x20

abbrev pub cs_upload_initiate : ℕ
cs_upload_initiate = 0x40

abbrev pub cs_download_block_initiate : ℕ
cs_download_block_initiate = 0xc0

abbrev pub cs_upload_block_initiate : ℕ
cs_upload_block_initiate = 0xa0

-- `SDOMessage`: the eight bytes of a frame.
abbrev pub Message : Type 0
Message = List ℕ

abbrev pub raw : Message → ℕ → ℕ
raw m i = get_or m i 0

-- The fields of a message.
unfoldable pub is_abort : Message → Bool
is_abort m = raw m 0 == 0x80

unfoldable pub get_abort_code : Message → ℕ
get_abort_code m = le32 m 4

unfoldable pub get_index : Message → ℕ
get_index m = le16 m 1

unfoldable pub get_subindex : Message → ℕ
get_subindex m = raw m 3

unfoldable pub get_toggle : Message → ℕ
get_toggle m = bit_and (raw m 0) 0x10

unfoldable pub get_block_size : Message → ℕ
get_block_size m = raw m 4

unfoldable pub get_number_of_segments : Message → ℕ
get_number_of_segments m = raw m 1

unfoldable pub is_crc_enabled : Message → Bool
is_crc_enabled m = has_bits (raw m 0) 0x04

unfoldable pub get_crc_client : Message → ℕ
get_crc_client m = le16 m 1

unfoldable pub is_expedited : Message → Bool
is_expedited m = bit_and (raw m 0) 0x02 == 0x02

unfoldable pub is_size_indicated : Message → Bool
is_size_indicated m = bit_and (raw m 0) 0x01 == 0x01

unfoldable pub is_size_indicated_block : Message → Bool
is_size_indicated_block m = bit_and (raw m 0) 0x02 == 0x02

unfoldable pub size_indicated : Message → ℕ
size_indicated m = le32 m 4

unfoldable pub seqno : Message → ℕ
seqno m = bit_and (raw m 0) 0x7f

unfoldable pub segment_remaining : Message → Bool
segment_remaining m = bit_and (raw m 0) 0x80 == 0

-- `isResponseCommandValid`: the responses that a client takes in a state.
unfoldable pub is_response_command_valid : Message → State → Bool
is_response_command_valid m State.download_initiate_rsp = raw m 0 == 0x60
is_response_command_valid m State.download_segment_rsp = bit_and (raw m 0) 0xef == 0x20
is_response_command_valid m State.download_blk_initiate_rsp = bit_and (raw m 0) 0xfb == 0xa0
is_response_command_valid m State.download_blk_subblock_req = raw m 0 == 0xa2
is_response_command_valid m State.download_blk_subblock_rsp = raw m 0 == 0xa2
is_response_command_valid m State.download_blk_end_rsp = raw m 0 == 0xa1
is_response_command_valid m State.upload_initiate_rsp = bit_and (raw m 0) 0xf0 == 0x40
is_response_command_valid m State.upload_segment_rsp = bit_and (raw m 0) 0xe0 == 0
is_response_command_valid m State.upload_blk_initiate_rsp =
    (bit_and (raw m 0) 0xf9 == 0xc0) || (bit_and (raw m 0) 0xf0 == 0x40)
is_response_command_valid m State.upload_blk_subblock_sreq = true
is_response_command_valid m State.upload_blk_end_sreq = bit_and (raw m 0) 0xe3 == 0xc1
is_response_command_valid m _ = false
