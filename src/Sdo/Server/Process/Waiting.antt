-- ===== src/Sdo/Server/Process/Waiting.antt =====
-- pkg/sdo/responses.go, pkg/sdo/server.go: sending a response ends, and leaves the server waiting for
-- the client.
use gocanopen.Base.{
  ap, sym, ◌∙◌, inr, inl, ◌⊎◌, ℕ, zero, suc, ◌+◌, ◌<◌, ◌≤◌, ◌≡◌, refl, true, arith, u8,
}
use mathlib.Core.Path.{subst}
use gocanopen.Can.{zeros8}
use gocanopen.Sdo.Message.{State, Message}
use gocanopen.Sdo.Server.{Server, Run, ok, aborts, panics, spinning, ◌>>=◌, send}
use gocanopen.Sdo.Server.After.{
  After-weaker, After, Any, bind-After, write_object_dictionary-Keeps, read_object_dictionary-Keeps,
  check_size_consistency-Keeps,
}
use gocanopen.Sdo.Server.Download.{tx_download_initiate, tx_download_segment}
use gocanopen.Sdo.Server.DownloadBlock.{
  tx_download_block_initiate, next_block, tx_download_block_sub_block, tx_download_block_end,
}
use gocanopen.Sdo.Server.Upload.{
  tx_upload_initiate, tx_upload_expedited, send_segment, tx_upload_segment,
}
use gocanopen.Sdo.Server.UploadBlock.{
  tx_upload_block_initiate, check_transferred, send_block_segment, tx_upload_block_sub_block,
  tx_upload_block_end,
}
use gocanopen.Sdo.Server.Process.{
  process_incoming, unchecked, responded, outgoing, process_outgoing, tx_abort, settled, serve,
}
use gocanopen.Sdo.Server.Process.Incoming.{
  is_waiting, is_ready, sends_blocks, HasBlockSize, IsWaiting, IsReady, process_incoming-IsReady,
}

tx_download_initiate-IsWaiting : (s : Server) → After IsWaiting Any (tx_download_initiate s)
unfolding tx_download_initiate send is_waiting sends_blocks
tx_download_initiate-IsWaiting s = ground arith

tx_download_segment-IsWaiting : (s : Server) → After IsWaiting Any (tx_download_segment s)
unfolding tx_download_segment send is_waiting sends_blocks
tx_download_segment-IsWaiting s = ground arith

tx_download_block_initiate-IsWaiting :
    (s : Server) → After IsWaiting Any (tx_download_block_initiate s)
unfolding tx_download_block_initiate send is_waiting sends_blocks
tx_download_block_initiate-IsWaiting s = ground arith

next_block-IsWaiting :
    (acknowledged count : ℕ) (s : Server) → After IsWaiting Any (next_block acknowledged count s)
unfolding next_block send is_waiting sends_blocks
next_block-IsWaiting acknowledged count s = ground arith

tx_download_block_sub_block-IsWaiting :
    (s : Server) → After IsWaiting Any (tx_download_block_sub_block s)
unfolding tx_download_block_sub_block send is_waiting sends_blocks
tx_download_block_sub_block-IsWaiting s =
    grind (arith, next_block-IsWaiting, write_object_dictionary-Keeps)

tx_download_block_end-IsWaiting : (s : Server) → After IsWaiting Any (tx_download_block_end s)
unfolding tx_download_block_end send is_waiting sends_blocks
tx_download_block_end-IsWaiting s = ground arith

tx_upload_initiate-IsWaiting : (s : Server) → After IsWaiting Any (tx_upload_initiate s)
unfolding tx_upload_initiate send is_waiting sends_blocks
tx_upload_initiate-IsWaiting s = ground arith

tx_upload_expedited-IsWaiting : (s : Server) → After IsWaiting Any (tx_upload_expedited s)
unfolding tx_upload_expedited send is_waiting sends_blocks
tx_upload_expedited-IsWaiting s = ground arith

send_segment-IsWaiting : (unread : ℕ) (s : Server) → After IsWaiting Any (send_segment unread s)
unfolding send_segment send is_waiting sends_blocks
send_segment-IsWaiting unread s = grind (arith, check_size_consistency-Keeps)

tx_upload_segment-IsWaiting : (s : Server) → After IsWaiting Any (tx_upload_segment s)
unfolding tx_upload_segment
tx_upload_segment-IsWaiting s = grind (arith, send_segment-IsWaiting, read_object_dictionary-Keeps)

tx_upload_block_initiate-IsWaiting :
    (s : Server)
    → s.state ≡ State.upload_blk_initiate_rsp
    → HasBlockSize s
    → After IsWaiting Any (tx_upload_block_initiate s)
unfolding tx_upload_block_initiate send is_waiting sends_blocks
tx_upload_block_initiate-IsWaiting s e h = ground arith

tx_upload_block_end-IsWaiting : (s : Server) → After IsWaiting Any (tx_upload_block_end s)
unfolding tx_upload_block_end send is_waiting sends_blocks
tx_upload_block_end-IsWaiting s = ground arith

-- A segment of a block either ends the block or comes before its end.
record Sent (s s' : Server) : Type 0 where
  size : s'.block_size ≡ s.block_size
  number : s'.block_sequence_nb ≡ u8 (s.block_sequence_nb + 1)
  progress :
      (s'.state ≡ State.upload_blk_subblock_crsp)
      ⊎ ((s'.state ≡ State.upload_blk_subblock_sreq) × (s'.block_sequence_nb < s'.block_size))

tx_upload_block_sub_block-Sent :
    (s : Server)
    → s.state ≡ State.upload_blk_subblock_sreq
    → (1 ≤ s.block_size) × (s.block_size ≤ 127)
    → After (Sent s) IsWaiting (tx_upload_block_sub_block s)
unfolding tx_upload_block_sub_block check_transferred send_block_segment send is_waiting
    sends_blocks
tx_upload_block_sub_block-Sent s e size = ground arith

unchecked-After : (P : Server → Type 0) (r : Run) → After P P r → After P P (unchecked r)
unchecked-After P (ok s) h = h
unchecked-After P (aborts s code) h = h
unchecked-After P panics h = tt
unchecked-After P spinning h = elim h [ ]

-- What sending the next segment does, if the call after it ends with the server waiting.
block-IsWaiting :
    (again : Server → Run) (s : Server)
    → s.state ≡ State.upload_blk_subblock_sreq
    → (1 ≤ s.block_size) × (s.block_size ≤ 127)
    → ((s' : Server) → Sent s s' → After IsWaiting IsWaiting (again s'))
    → After IsWaiting IsWaiting (tx_upload_block_sub_block s >>= λ s'. unchecked (again s'))
block-IsWaiting again s e size next =
    bind-After IsWaiting (Sent s) IsWaiting (tx_upload_block_sub_block s)
      (λ s'. unchecked (again s')) (tx_upload_block_sub_block-Sent s e size)
      (λ s' k. unchecked-After IsWaiting (again s') (next s' k))

-- After the last segment of a block nothing is sent.
ended-IsWaiting :
    (fuel : ℕ) (s : Server)
    → s.state ≡ State.upload_blk_subblock_crsp
    → (1 ≤ s.block_size) × (s.block_size ≤ 127)
    → 0 < fuel
    → After IsWaiting IsWaiting (outgoing fuel s)
unfolding outgoing responded is_waiting
ended-IsWaiting zero s e size positive = omega arith
ended-IsWaiting (suc fuel) s e size positive =
    let s' = record s { tx_buffer = record s.tx_buffer { bytes = zeros8 } } in
    subst (λ state. After IsWaiting IsWaiting (responded (outgoing fuel) state s')) (sym e)
      (ap is_waiting e, λ sends. size)

-- What a segment leaves to do, if the rest of the block ends.
next_segment-IsWaiting :
    (fuel : ℕ) (s t : Server)
    → (1 ≤ s.block_size) × (s.block_size ≤ 127)
    → s.block_sequence_nb < s.block_size
    → 256 ≤ s.block_sequence_nb + suc fuel
    → Sent s t
    → (t.state ≡ State.upload_blk_subblock_sreq
        → (1 ≤ t.block_size) × (t.block_size ≤ 127)
        → t.block_sequence_nb < t.block_size
        → 256 ≤ t.block_sequence_nb + fuel
        → After IsWaiting IsWaiting (outgoing fuel t))
    → After IsWaiting IsWaiting (outgoing fuel t)
next_segment-IsWaiting fuel s t size number room k next = elim k.progress [
  | inl ended ↦ ended-IsWaiting fuel t ended (size_kept k) (omega arith)
  | inr (sending, below) ↦ next sending (size_kept k) below (grind (arith, k.number))
]
  where
    size_kept : Sent s t → (1 ≤ t.block_size) × (t.block_size ≤ 127)
    size_kept k = grind (arith, k.size)

-- The rest of a block ends, since each segment has a higher number.
rest-IsWaiting :
    (fuel : ℕ) (s : Server)
    → s.state ≡ State.upload_blk_subblock_sreq
    → (1 ≤ s.block_size) × (s.block_size ≤ 127)
    → s.block_sequence_nb < s.block_size
    → 256 ≤ s.block_sequence_nb + fuel
    → After IsWaiting IsWaiting (outgoing fuel s)
unfolding outgoing responded
rest-IsWaiting zero s e size number room = omega arith
rest-IsWaiting (suc fuel) s e size number room =
    let s' = record s { tx_buffer = record s.tx_buffer { bytes = zeros8 } } in
    subst (λ state. After IsWaiting IsWaiting (responded (outgoing fuel) state s')) (sym e)
      (block-IsWaiting (outgoing fuel) s' e size
        (λ t k. next_segment-IsWaiting fuel s' t size number room k (rest-IsWaiting fuel t)))

-- The first segment of a block: its number is below the size of the block, if the block goes on.
first_segment-IsWaiting :
    (s t : Server)
    → (1 ≤ s.block_size) × (s.block_size ≤ 127)
    → Sent s t
    → After IsWaiting IsWaiting (outgoing 256 t)
first_segment-IsWaiting s t size k = elim k.progress [
  | inl ended ↦ ended-IsWaiting 256 t ended size_kept (omega arith)
  | inr (sending, below) ↦ rest-IsWaiting 256 t sending size_kept below (omega arith)
]
  where
    size_kept : (1 ≤ t.block_size) × (t.block_size ≤ 127)
    size_kept = grind (arith, k.size)

responded-IsWaiting :
    (state : State) (s : Server)
    → s.state ≡ state
    → is_ready state ≡ true
    → HasBlockSize s
    → After IsWaiting Any (responded (outgoing 256) state s)
unfolding responded is_ready is_waiting sends_blocks
responded-IsWaiting State.download_initiate_rsp s e r h = tx_download_initiate-IsWaiting s
responded-IsWaiting State.download_segment_rsp s e r h = tx_download_segment-IsWaiting s
responded-IsWaiting State.upload_initiate_rsp s e r h = tx_upload_initiate-IsWaiting s
responded-IsWaiting State.upload_expedited_rsp s e r h = tx_upload_expedited-IsWaiting s
responded-IsWaiting State.upload_segment_rsp s e r h = tx_upload_segment-IsWaiting s
responded-IsWaiting State.download_blk_initiate_rsp s e r h = tx_download_block_initiate-IsWaiting s
responded-IsWaiting State.download_blk_subblock_rsp s e r h =
    tx_download_block_sub_block-IsWaiting s
responded-IsWaiting State.download_blk_end_rsp s e r h = tx_download_block_end-IsWaiting s
responded-IsWaiting State.upload_blk_initiate_rsp s e r h = tx_upload_block_initiate-IsWaiting s e h
responded-IsWaiting State.upload_blk_subblock_sreq s e r h =
    let size = h (ap sends_blocks e) in
    After-weaker IsWaiting IsWaiting IsWaiting Any _
      (block-IsWaiting (outgoing 256) s e size (λ t k. first_segment-IsWaiting s t size k))
      (λ t x. x) (λ t x. tt)
responded-IsWaiting State.upload_blk_end_sreq s e r h = tx_upload_block_end-IsWaiting s
responded-IsWaiting _ s e r h = (ap is_waiting e ∙ r, h)

process_outgoing-IsWaiting : (s : Server) → IsReady s → After IsWaiting Any (process_outgoing s)
unfolding process_outgoing outgoing
process_outgoing-IsWaiting s (ready, size) =
    responded-IsWaiting s.state (record s { tx_buffer = record s.tx_buffer { bytes = zeros8 } })
      refl ready size

settled-IsWaiting : (r : Run) → After IsWaiting Any r → After IsWaiting (λ t. ⊥) (settled r)
unfolding tx_abort is_waiting sends_blocks
settled-IsWaiting (ok s) h = h
settled-IsWaiting (aborts s code) h = ground arith
settled-IsWaiting panics h = tt
settled-IsWaiting spinning h = elim h [ ]

pub serve-IsWaiting :
    (s : Server) (m : Message) → IsWaiting s → After IsWaiting (λ t. ⊥) (serve s m)
unfolding serve
serve-IsWaiting s m w = settled-IsWaiting (process_incoming s m >>= process_outgoing) (
    bind-After IsWaiting IsReady Any (process_incoming s m) process_outgoing
      (process_incoming-IsReady s m w) process_outgoing-IsWaiting)
