-- ===== src/Pdo/Tests.antt =====
-- pkg/pdo: the theorem on the mapping at a concrete dictionary.
use gocanopen.Base.{false, ℕ, true, none, List, [], ◌∷◌, replicate, bytes32}
use gocanopen.Can.{new_frame}
use gocanopen.Emergency.{Emcy, no_message}
use gocanopen.Od.Entry.{Entry, Variable, variable, rec}
use gocanopen.Pdo.{new_pdo}
use gocanopen.Pdo.Length.{IsMapped, Returns, new_pdo-IsMapped}

abbrev pub silent : Emcy
silent = record {
  node_id = 7;
  error_status_bits = replicate 10 0;
  error_register = none;
  can_error_old = 0;
  tx_buffer = new_frame 0x87 0 8;
  fifo = replicate 4 no_message;
  fifo_wr_ptr = 0;
  fifo_pp_ptr = 0;
  fifo_overflow = 0;
  fifo_count = 0;
  producer_enabled = true;
  producer_ident = 0x80;
  inhibit_time_us = 0;
  inhibit_timer = 0;
  rx_callback = false;
}

abbrev member : (sub : ℕ) → List ℕ → Variable
member sub bytes = record {
  value = bytes;
  spare = [];
  data_type = 7;
  attribute = 0x0b;
  sub_index = sub;
}

-- Four bytes of 0x2000, and a mapping object that maps them.
abbrev pub target : Entry
target = record { index = 0x2000; object = variable (member 0 (replicate 4 0)); extension = none }

abbrev pub mapping : Entry
mapping = record {
  index = 0x1600;
  object = rec (member 0 (1 ∷ []) ∷ member 1 (bytes32 0x20000020) ∷ []);
  extension = none;
}

new_pdo-IsMapped_example : Returns IsMapped (new_pdo (target ∷ mapping ∷ []) silent true mapping)
new_pdo-IsMapped_example = new_pdo-IsMapped (target ∷ mapping ∷ []) silent true mapping
