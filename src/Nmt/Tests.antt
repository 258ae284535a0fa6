-- ===== src/Nmt/Tests.antt =====
-- Concrete runs of pkg/nmt, and the theorems at concrete inputs.
use gocanopen.Base.{◌<◌, ◌≡◌, inl, refl, false, none, [], ◌∷◌, arith}
use gocanopen.Can.{new_frame}
use gocanopen.Emergency.Tests.{quiet}
use gocanopen.Nmt.{
  Nmt, commanded, process, configured, run_timer, is_heartbeat_due, beaten, started, finish,
  commanded_state, commanded_reset, supervised, bus_off_hb, err_reg_masked, apply_all, next_call,
}
use gocanopen.Nmt.Process.{IsBooted, has_errors, process-IsBooted, process-has_errors}
use gocanopen.Nmt.Period.{cycles, total, cycles-silent}

abbrev booting : Nmt
booting = record {
  operating_state = 0;
  operating_state_prev = 0;
  internal_command = 0;
  node_id = 5;
  control = 0x0100;
  producer_time_us = 1000000;
  producer_timer = 0;
  nmt_tx_buff = new_frame 0 0 2;
  hb_tx_buff = new_frame 0x705 0 1;
  callback = false;
}

-- What `NewNMT` makes of a heartbeat period of a second.
configured_test : configured 5 0x0100 0 1000 0 0x705 ≡ booting
unfolding configured
configured_test = refl

abbrev running : Nmt
running = record booting { operating_state = 5; operating_state_prev = 5; producer_timer = 900000 }

-- The node boots into operational, as its control word says.
boot_test : (process booting quiet [] 1000 none).internal_state ≡ 5
unfolding process run_timer is_heartbeat_due beaten apply_all started finish commanded_state
    supervised bus_off_hb err_reg_masked
boot_test = refl

process-IsBooted_example :
    IsBooted (process booting quiet (commanded 128 ∷ []) 1000 none).nmt.operating_state
process-IsBooted_example = process-IsBooted booting quiet (commanded 128 ∷ []) 1000 none (inl refl)

booting-boots : (process booting quiet [] 1000 none).nmt.operating_state ≡ 5
unfolding process run_timer is_heartbeat_due beaten apply_all started finish commanded_state
    supervised bus_off_hb err_reg_masked
booting-boots = refl

process-has_errors_example : has_errors (process booting quiet [] 1000 none).nmt quiet ≡ false
process-has_errors_example = process-has_errors booting quiet [] 1000 none booting-boots

running-silent : (cycles running quiet (1000 ∷ 2000 ∷ [])).1 ≡ []
unfolding cycles process run_timer is_heartbeat_due finish commanded_state supervised bus_off_hb
    err_reg_masked commanded_reset next_call
running-silent = refl

cycles-silent_example : total (1000 ∷ 2000 ∷ []) < running.producer_timer
cycles-silent_example =
    cycles-silent running quiet (1000 ∷ 2000 ∷ []) (omega arith) (omega arith) running-silent
