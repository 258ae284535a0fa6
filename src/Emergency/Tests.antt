-- ===== src/Emergency/Tests.antt =====
-- Concrete runs of pkg/emergency, and the theorems at concrete inputs.
use gocanopen.Base.{◌≡◌, ◌≢◌, refl, true, false, none, some, List, [], ◌∷◌, arith, length, bytes32}
use gocanopen.Can.{new_frame}
use gocanopen.Od.Stream.{Stream, copied}
use gocanopen.Emergency.{Emcy, no_message, error, error_at, error_report, is_error, push, next_ptr}
use gocanopen.Emergency.Access.{read_entry_1003}
use gocanopen.Emergency.Status.{Op, report, reset, cycle, run, is_error-run}
use gocanopen.Emergency.Inv.{IsValid, run-IsValid}
use gocanopen.Emergency.Queue.{read_entry_1003-push}

abbrev pub quiet : Emcy
quiet = record {
  node_id = 5;
  error_status_bits = 0 ∷ 0 ∷ 0 ∷ 0 ∷ 0 ∷ 0 ∷ 0 ∷ 0 ∷ 0 ∷ 0 ∷ [];
  error_register = some 0;
  can_error_old = 0;
  tx_buffer = new_frame 0x85 0 8;
  fifo = no_message ∷ no_message ∷ no_message ∷ [];
  fifo_wr_ptr = 0;
  fifo_pp_ptr = 0;
  fifo_overflow = 0;
  fifo_count = 0;
  producer_enabled = true;
  producer_ident = 0x80;
  inhibit_time_us = 0;
  inhibit_timer = 0;
  rx_callback = false;
}

quiet-IsValid : IsValid quiet
quiet-IsValid = record {
  size_min = omega arith;
  size_max = omega arith;
  write_in = omega arith;
  read_in = omega arith;
  history = omega arith;
  overflow = omega arith;
}

abbrev some_ops : List Op
some_ops = report 0x1b 0x8130 3 ∷ cycle 0 true 1000 ∷ reset 0x1b 0 ∷ cycle 0x4 true 1000 ∷ []

-- A report takes a place of the queue.
report_test : (error_report quiet 0x1b 0x8130 3).fifo_wr_ptr ≡ 1
unfolding error_report error error_at push next_ptr
report_test = refl

is_error-run_example : is_error (run quiet some_ops) 0x1b ≡ is_error quiet 0x1b
is_error-run_example = is_error-run quiet some_ops 0x1b

quiet-clear : is_error quiet 0x1b ≡ false
unfolding is_error
quiet-clear = refl

run-IsValid_example : IsValid (run quiet some_ops)
run-IsValid_example = run-IsValid quiet some_ops quiet-IsValid

abbrev history_1 : Stream
history_1 = record {
  bytes = [];
  spare = [];
  allocated = true;
  data_offset = 0;
  data_length = 4;
  attribute = 1;
  subindex = 1;
}

quiet-room : next_ptr (length quiet.fifo) quiet.fifo_wr_ptr ≢ quiet.fifo_pp_ptr
unfolding next_ptr
quiet-room = ground arith

read_entry_1003-push_example :
    ((read_entry_1003 (push quiet 0x1b008130 3) history_1 (0 ∷ 0 ∷ 0 ∷ 0 ∷ [])).filled
      ≡ copied (bytes32 0x1b008130) (0 ∷ 0 ∷ 0 ∷ 0 ∷ []))
    × ((read_entry_1003 (push quiet 0x1b008130 3) history_1 (0 ∷ 0 ∷ 0 ∷ 0 ∷ [])).err ≡ none)
read_entry_1003-push_example =
    read_entry_1003-push quiet 0x1b008130 3 history_1 (0 ∷ 0 ∷ 0 ∷ 0 ∷ []) quiet-IsValid quiet-room
      refl refl
