-- ===== src/Pdo/Rpdo/Tests.antt =====
-- pkg/pdo: the theorems on RPDOs at a concrete RPDO.
use gocanopen.Base.{◌≡◌, refl, replicate, true, false, none, [], ◌∷◌, arith}
use gocanopen.Can.{new_frame, zeros8}
use gocanopen.Emergency.{Emcy, no_message}
use gocanopen.Od.Errors.{done}
use gocanopen.Pdo.Rpdo.{Rpdo}
use gocanopen.Pdo.Rpdo.Timeout.{cycles, silenced, cycles-silenced}

abbrev calm : Emcy
calm = record {
  node_id = 5;
  error_status_bits = replicate 10 0;
  error_register = none;
  can_error_old = 0;
  tx_buffer = new_frame 0x85 0 8;
  fifo = replicate 4 no_message;
  fifo_wr_ptr = 0;
  fifo_pp_ptr = 0;
  fifo_overflow = 0;
  fifo_count = 0;
  producer_enabled = true;
  producer_ident = 0x80;
  inhibit_time_us = 0;
  inhibit_timer = 0;
  rx_callback = false;
}

-- A frame came one microsecond ago, and the timeout is two milliseconds.
abbrev waiting : Rpdo
waiting = record {
  pdo = record {
    od = [];
    emcy = calm;
    slots = [];
    valid = true;
    data_length = 8;
    nb_mapped = 0;
    is_rpdo = true;
    predefined_id = 0x205;
    configured_id = 0x205;
  };
  rx_new0 = false;
  rx_new1 = false;
  rx_data0 = zeros8;
  rx_data1 = zeros8;
  receive_error = 0;
  synchronous = false;
  timeout_time_us = 2000;
  timeout_timer = 1;
}

-- Calls of a millisecond: the timer comes to 1001, then to 2001.
cycles-silenced_example : cycles waiting (1000 ∷ 1000 ∷ 1000 ∷ []) ≡ done (silenced waiting 2001)
cycles-silenced_example =
    cycles-silenced waiting (1000 ∷ []) 1000 (1000 ∷ [])
      (record {
        valid = refl;
        asynchronous = refl;
        silent = refl;
        no_error = omega arith;
        has_timeout = omega arith;
      })
      (omega arith) (omega arith) (omega arith) (omega arith)
