-- ===== src/Sdo/Server/Process/Incoming.antt =====
-- pkg/sdo/requests.go: the states that taking a message leads to.
use gocanopen.Base.{ℕ, ◌≤◌, ◌≡◌, refl, Bool, true, false, arith}
use gocanopen.Sdo.Message.{size_indicated, State, Message, is_abort, is_expedited}
use gocanopen.Sdo.Server.{Server, Run, ok, ◌>>=◌, at_state}
use gocanopen.Sdo.Server.After.{
  After, Any, bind-After, After-weaker, if-After, Keeps, write_object_dictionary-Keeps,
  read_object_dictionary-Keeps, update_streamer-Keeps,
}
use gocanopen.Sdo.Server.Download.{
  fits_variable, rx_download_segmented, rx_download_expedited, rx_download_initiate, count_to_write,
  write_expedited, take_segment, rx_download_segment,
}
use gocanopen.Sdo.Server.DownloadBlock.{
  rx_download_block_initiate, rx_download_block_sub_block, accept_segment, rx_download_block_end,
}
use gocanopen.Sdo.Server.Upload.{rx_upload_initiate, rx_upload_segment}
use gocanopen.Sdo.Server.UploadBlock.{
  started_crc, rx_upload_block_initiate, rewound, filled, rx_upload_sub_block,
}
use gocanopen.Sdo.Server.Process.{started, begun, received, process_incoming}

-- The states in which the server waits for the client. It is left in `upload_blk_subblock_sreq` when
-- the sizes of an upload do not match in the middle of a block.
unfoldable pub is_waiting : State → Bool
is_waiting State.idle = true
is_waiting State.download_segment_req = true
is_waiting State.upload_segment_req = true
is_waiting State.download_blk_subblock_req = true
is_waiting State.download_blk_end_req = true
is_waiting State.upload_blk_initiate_req2 = true
is_waiting State.upload_blk_subblock_sreq = true
is_waiting State.upload_blk_subblock_crsp = true
is_waiting State.upload_blk_end_crsp = true
is_waiting _ = false

-- The states in which it has something to send, besides those.
unfoldable pub is_ready : State → Bool
unfolding is_waiting
is_ready State.download_initiate_rsp = true
is_ready State.download_segment_rsp = true
is_ready State.upload_initiate_rsp = true
is_ready State.upload_expedited_rsp = true
is_ready State.upload_segment_rsp = true
is_ready State.download_blk_initiate_rsp = true
is_ready State.download_blk_subblock_rsp = true
is_ready State.download_blk_end_rsp = true
is_ready State.upload_blk_initiate_rsp = true
is_ready State.upload_blk_end_sreq = true
is_ready state = is_waiting state

-- The states of an upload in blocks, in which the size of a block counts.
unfoldable pub sends_blocks : State → Bool
sends_blocks State.upload_blk_initiate_rsp = true
sends_blocks State.upload_blk_initiate_req2 = true
sends_blocks State.upload_blk_subblock_sreq = true
sends_blocks State.upload_blk_subblock_crsp = true
sends_blocks _ = false

-- The size of a block is at least 1 and at most 127 where it counts.
abbrev pub HasBlockSize : Server → Type 0
HasBlockSize s = sends_blocks s.state ≡ true → (1 ≤ s.block_size) × (s.block_size ≤ 127)

abbrev pub IsWaiting : Server → Type 0
IsWaiting s = (is_waiting s.state ≡ true) × HasBlockSize s

abbrev pub IsReady : Server → Type 0
IsReady s = (is_ready s.state ≡ true) × HasBlockSize s

-- A ready state outside of an upload in blocks.
IsReady-at : (s : Server) → is_ready s.state ≡ true → sends_blocks s.state ≡ false → IsReady s
IsReady-at s ready none_sent = (ready, λ e. ground (arith, none_sent, e))

-- A handler that ends, and sets the state after that.
ends : (s : Server) (r : Run) → After (Keeps s) Any r → After Any Any r
ends s r h = After-weaker (Keeps s) Any Any Any r h (λ t k. tt) (λ t k. tt)

to_state :
    (s : Server) (r : Run) (next : Server → Run)
    → After (Keeps s) Any r
    → ((s' : Server) → After IsReady Any (next s'))
    → After IsReady Any (r >>= next)
to_state s r next h ready = bind-After IsReady Any Any r next (ends s r h) (λ s' k. ready s')

fits_variable-Keeps : (s : Server) → After (Keeps s) Any (fits_variable s)
unfolding fits_variable
fits_variable-Keeps s = ground arith

rx_download_segmented-IsReady :
    (s : Server) (m : Message) → After IsReady Any (rx_download_segmented s m)
unfolding rx_download_segmented is_ready sends_blocks
rx_download_segmented-IsReady s m =
    ground (arith, fits_variable-Keeps (record s { size_indicated = size_indicated m }))

rx_download_expedited-IsReady :
    (s : Server) (m : Message) → After IsReady Any (rx_download_expedited s m)
unfolding rx_download_expedited count_to_write write_expedited is_ready sends_blocks
rx_download_expedited-IsReady s m = ground arith

rx_download_initiate-IsReady :
    (s : Server) (m : Message) → After IsReady Any (rx_download_initiate s m)
unfolding rx_download_initiate
rx_download_initiate-IsReady s m =
    if-After IsReady Any (is_expedited m) _ _ (rx_download_expedited-IsReady s m)
      (rx_download_segmented-IsReady s m)

take_segment-IsReady : (s : Server) (m : Message) → After IsReady Any (take_segment s m)
unfolding take_segment is_ready sends_blocks
take_segment-IsReady s m = grind (arith, write_object_dictionary-Keeps)

rx_download_segment-IsReady :
    (s : Server) (m : Message) → After IsReady Any (rx_download_segment s m)
unfolding rx_download_segment
rx_download_segment-IsReady s m = grind (arith, take_segment-IsReady)

rx_download_block_initiate-IsReady :
    (s : Server) (m : Message) → After IsReady Any (rx_download_block_initiate s m)
unfolding rx_download_block_initiate is_ready sends_blocks
rx_download_block_initiate-IsReady s m = grind (arith, fits_variable-Keeps)

rx_download_block_sub_block-IsReady :
    (s : Server) (m : Message)
    → s.state ≡ State.download_blk_subblock_req
    → After IsReady Any (rx_download_block_sub_block s m)
unfolding rx_download_block_sub_block accept_segment is_ready is_waiting sends_blocks
rx_download_block_sub_block-IsReady s m e = ground arith

rx_download_block_end-IsReady :
    (s : Server) (m : Message) → After IsReady Any (rx_download_block_end s m)
unfolding rx_download_block_end is_ready sends_blocks
rx_download_block_end-IsReady s m = grind (arith, write_object_dictionary-Keeps)

rx_upload_initiate-IsReady : (s : Server) (m : Message) → After IsReady Any (rx_upload_initiate s m)
unfolding rx_upload_initiate is_ready sends_blocks
rx_upload_initiate-IsReady s m = ground arith

rx_upload_segment-IsReady : (s : Server) (m : Message) → After IsReady Any (rx_upload_segment s m)
unfolding rx_upload_segment is_ready sends_blocks
rx_upload_segment-IsReady s m = ground arith

rx_upload_block_initiate-IsReady :
    (s : Server) (m : Message) → After IsReady Any (rx_upload_block_initiate s m)
unfolding rx_upload_block_initiate started_crc is_ready sends_blocks
rx_upload_block_initiate-IsReady s m = ground (arith, rx_upload_initiate-IsReady s m)

filled-IsReady :
    (s : Server) → (1 ≤ s.block_size) × (s.block_size ≤ 127) → After IsReady Any (filled s)
unfolding filled is_ready is_waiting sends_blocks
filled-IsReady s size = grind (arith, read_object_dictionary-Keeps)

rewound-Keeps : (s : Server) (acknowledged : ℕ) → After (Keeps s) Any (rewound s acknowledged)
unfolding rewound
rewound-Keeps s acknowledged = grind (arith, read_object_dictionary-Keeps)

rx_upload_sub_block-IsReady :
    (s : Server) (m : Message) → After IsReady Any (rx_upload_sub_block s m)
unfolding rx_upload_sub_block
rx_upload_sub_block-IsReady s m = grind (arith, rewound-Keeps, filled-IsReady)

-- Taking a message in a state that waits for it ends in a state that is ready to answer it.
received-IsReady :
    (m : Message) (state : State) (s : Server)
    → s.state ≡ state
    → HasBlockSize s
    → After IsReady Any (received m state s)
unfolding received is_ready is_waiting sends_blocks
received-IsReady m State.download_initiate_req s e w = rx_download_initiate-IsReady s m
received-IsReady m State.download_segment_req s e w = rx_download_segment-IsReady s m
received-IsReady m State.upload_initiate_req s e w = rx_upload_initiate-IsReady s m
received-IsReady m State.upload_segment_req s e w = rx_upload_segment-IsReady s m
received-IsReady m State.download_blk_initiate_req s e w = rx_download_block_initiate-IsReady s m
received-IsReady m State.download_blk_subblock_req s e w = rx_download_block_sub_block-IsReady s m e
received-IsReady m State.download_blk_end_req s e w = rx_download_block_end-IsReady s m
received-IsReady m State.upload_blk_initiate_req s e w = rx_upload_block_initiate-IsReady s m
received-IsReady m State.upload_blk_initiate_req2 s e w = ground (arith, w, e)
received-IsReady m State.upload_blk_subblock_sreq s e w = rx_upload_sub_block-IsReady s m
received-IsReady m State.upload_blk_subblock_crsp s e w = rx_upload_sub_block-IsReady s m
received-IsReady m State.upload_blk_end_crsp s e w = ground arith
received-IsReady m _ s e w = tt

started-Keeps :
    (s : Server) (m : Message)
    → After
        (λ s'. (s'.block_size ≡ s.block_size) × (sends_blocks s'.state ≡ false))
        Any
        (started s m)
unfolding started sends_blocks
started-Keeps s m = ground arith

begun-HasBlockSize : (s : Server) (m : Message) → IsWaiting s → After HasBlockSize Any (begun s m)
unfolding begun sends_blocks
begun-HasBlockSize s m w = grind (arith, started-Keeps, update_streamer-Keeps)

-- In every state that waits for the client, taking a message ends in a state that is ready to answer it, or
-- in an abort.
pub process_incoming-IsReady :
    (s : Server) (m : Message) → IsWaiting s → After IsReady Any (process_incoming s m)
unfolding process_incoming is_ready is_waiting sends_blocks
process_incoming-IsReady s m w =
    if-After IsReady Any (is_abort m) (ok (at_state s State.idle))
      (begun s m >>= λ s'. received m s'.state s') (IsReady-at (at_state s State.idle) refl refl)
      (bind-After IsReady HasBlockSize Any (begun s m) (λ s'. received m s'.state s')
        (begun-HasBlockSize s m w) (λ s' h. received-IsReady m s'.state s' refl h))
