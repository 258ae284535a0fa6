-- ===== src/Emergency/Queue.antt =====
-- pkg/emergency/emergency.go, pkg/emergency/extensions.go: what the queue gives back, and the
-- producer's COB-ID.
use gocanopen.Base.{
  ℕ, ◌<◌, ◌≤◌, ◌≡◌, ap, ◌∙◌, ◌≢◌, false, none, List, arith, length, get_or, set, get_or-set_self,
  length-set, bytes32,
}
use gocanopen.Base.Bits.{bit_and_self, bit_and-ones}
use gocanopen.Od.Stream.{Stream, copied}
use gocanopen.Emergency.{Emcy, Emfifo, push, next_ptr, no_message}
use gocanopen.Emergency.Inv.{IsValid, next_ptr-lt}
use gocanopen.Emergency.Access.{read_entry_1003, newly_enabled, current_can_id, history_place}

-- The next place of the queue is the one before the next pointer.
place_before :
    (e : Emcy) (msg info : ℕ)
    → IsValid e
    → next_ptr (length e.fifo) e.fifo_wr_ptr ≢ e.fifo_pp_ptr
    → ((push e msg info).fifo_wr_ptr ≡ next_ptr (length e.fifo) e.fifo_wr_ptr)
      × ((push e msg info).fifo ≡ set e.fifo e.fifo_wr_ptr (record { msg = msg; info = info }))
      × (0 < (push e msg info).fifo_count)
unfolding push
place_before e msg info v room = ground arith

newest_place :
    (e e' : Emcy)
    → IsValid e
    → e'.fifo_wr_ptr ≡ next_ptr (length e.fifo) e.fifo_wr_ptr
    → length e'.fifo ≡ length e.fifo
    → history_place e' 1 ≡ e.fifo_wr_ptr
unfolding history_place next_ptr
newest_place e e' v wr size = ground arith

read_newest :
    (e : Emcy) (s : Stream) (data' : List ℕ)
    → 2 ≤ length e.fifo
    → 0 < e.fifo_count
    → e.fifo_wr_ptr < length e.fifo
    → s.subindex ≡ 1
    → length data' ≡ 4
    → ((read_entry_1003 e s data').filled
        ≡ copied (bytes32 (get_or e.fifo (history_place e s.subindex) no_message).msg) data')
      × ((read_entry_1003 e s data').err ≡ none)
unfolding read_entry_1003
read_newest e s data' large some_history inside sub size = ground arith

-- In a valid queue a message that finds room is what 0x1003 gives at subindex 1, the latest error,
-- into a slice of four bytes.
pub read_entry_1003-push :
    (e : Emcy) (msg info : ℕ) (s : Stream) (data' : List ℕ)
    → IsValid e
    → next_ptr (length e.fifo) e.fifo_wr_ptr ≢ e.fifo_pp_ptr
    → s.subindex ≡ 1
    → length data' ≡ 4
    → ((read_entry_1003 (push e msg info) s data').filled ≡ copied (bytes32 msg) data')
      × ((read_entry_1003 (push e msg info) s data').err ≡ none)
read_entry_1003-push e msg info s data' v room sub size =
    let e' = push e msg info in
    let facts = place_before e msg info v room in
    let same : length e'.fifo ≡ length e.fifo =
      ap length facts.1 ∙ length-set e.fifo e.fifo_wr_ptr (record { msg = msg; info = info }) in
    let next_in = next_ptr-lt (length e.fifo) e.fifo_wr_ptr (omega arith) in
    let result =
      read_newest e' s data' (omega arith) facts.2 (omega (arith, facts.0, same, next_in)) sub
        size in
    let place : history_place e' s.subindex ≡ e.fifo_wr_ptr =
      ap (history_place e') sub ∙ newest_place e e' v facts.0 same in
    let written : get_or e'.fifo (history_place e' s.subindex) no_message
        ≡ record { msg = msg; info = info } =
      ap (λ (i : ℕ). get_or e'.fifo i no_message) place
      ∙ ap (λ (f : List Emfifo). get_or f e.fifo_wr_ptr no_message) facts.1
      ∙ get_or-set_self e.fifo e.fifo_wr_ptr (record { msg = msg; info = info }) no_message
          (omega arith) in
    (result.0 ∙ ap (λ (m : Emfifo). copied (bytes32 m.msg) data') written, result.1)

-- The test by which a write of 0x1014 enables the producer fails for the identifier that the producer
-- is at, for every state, though bit 31, the flag of a disabled producer, is clear in it.
newly_enabled-current_can_id : (e : Emcy) → newly_enabled e (current_can_id e) ≡ false
unfolding newly_enabled
newly_enabled-current_can_id e =
    ground (arith, bit_and_self (current_can_id e), bit_and-ones 11 (current_can_id e))
