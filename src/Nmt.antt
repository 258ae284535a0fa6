-- ===== src/Nmt.antt =====
-- pkg/nmt/nmt.go, pkg/nmt/extensions.go: the NMT state machine of a node. The emergency object is an
-- argument. The events that other goroutines bring about while `Process` has released its mutex to
-- send are an argument too. Logging and the outcome of `Send` are left out.
pub mod Process
pub mod Period
mod Tests
use gocanopen.Base.{
  ℕ, ◌+◌, ◌-◌, ◌*◌, Bool, true, false, not, ◌&&◌, ◌||◌, Option, none, some, List, [], ◌∷◌, length,
  get_or, set, ltb, leb, ◌==◌, if◌then◌else◌, u8, u16, u32, has_bits, bit_and, le16, ◌⊎◌, inl, inr,
}
use gocanopen.Can.{Frame, new_frame, at_most}
use gocanopen.Emergency.{
  Emcy, is_error, get_error_register, em_can_tx_bus_passive, em_heartbeat_consumer,
  em_hb_consumer_remote_reset,
}
use gocanopen.Od.Errors.{Odr, dev_incompat, Outcome, done, ◌>>=◌}
use gocanopen.Od.Entry.{Entry, uint16}
use gocanopen.Od.Stream.{Stream, WriteResult, write_entry_default}

-- Bits of the control word.
abbrev pub startup_to_operational : ℕ
startup_to_operational = 0x0100

abbrev pub nmt_err_on_bus_off_hb : ℕ
nmt_err_on_bus_off_hb = 0x1000

abbrev pub nmt_err_on_err_reg : ℕ
nmt_err_on_err_reg = 0x2000

abbrev pub nmt_err_to_stopped : ℕ
nmt_err_to_stopped = 0x4000

abbrev pub nmt_err_free_to_operational : ℕ
nmt_err_free_to_operational = 0x8000

-- The NMT states.
abbrev pub state_initializing : ℕ
state_initializing = 0

abbrev pub state_pre_operational : ℕ
state_pre_operational = 127

abbrev pub state_operational : ℕ
state_operational = 5

abbrev pub state_stopped : ℕ
state_stopped = 4

abbrev pub state_unknown : ℕ
state_unknown = 255

-- What `Process` asks its caller to reset.
abbrev pub reset_not : ℕ
reset_not = 0

abbrev pub reset_comm : ℕ
reset_comm = 1

abbrev pub reset_app : ℕ
reset_app = 2

-- The NMT commands.
abbrev pub command_empty : ℕ
command_empty = 0

abbrev pub command_enter_operational : ℕ
command_enter_operational = 1

abbrev pub command_enter_stopped : ℕ
command_enter_stopped = 2

abbrev pub command_enter_pre_operational : ℕ
command_enter_pre_operational = 128

abbrev pub command_reset_node : ℕ
command_reset_node = 129

abbrev pub command_reset_communication : ℕ
command_reset_communication = 130

-- `NMT`; `callback` says that a callback is set.
pub record Nmt : Type 0 where
  pub operating_state : ℕ
  pub operating_state_prev : ℕ
  pub internal_command : ℕ
  pub node_id : ℕ
  pub control : ℕ
  pub producer_time_us : ℕ
  pub producer_timer : ℕ
  pub nmt_tx_buff : Frame
  pub hb_tx_buff : Frame
  pub callback : Bool

-- `Handle`
unfoldable pub handle : Nmt → Frame → Nmt
handle n frame =
    if not (frame.dlc == 2)
    then n
    else if (get_or frame.bytes 1 0 == 0) || (get_or frame.bytes 1 0 == n.node_id)
    then record n { internal_command = get_or frame.bytes 0 0 }
    else n

-- `SendInternalCommand`
unfoldable pub send_internal_command : Nmt → ℕ → Nmt
send_internal_command n command = record n { internal_command = command }

-- `SendCommand`: the state and the frame sent.
unfoldable pub send_command : Nmt → (command node : ℕ) → Nmt × Frame
send_command n command node =
    let frame = record n.nmt_tx_buff { bytes = set (set n.nmt_tx_buff.bytes 0 command) 1 node } in
    let n' = record n { nmt_tx_buff = frame } in
    (
      if (node == 0) || (node == n.node_id) then record n' { internal_command = command } else n',
      frame,
    )

-- `writeEntry1017`, on a stream whose object is the NMT object.
unfoldable pub write_entry_1017 : Nmt → Stream → List ℕ → Nmt × Outcome WriteResult
write_entry_1017 n s data' =
    if not (s.subindex == 0) || not (length data' == 2)
    then (n, done (record { stream = s; count = 0; err = some dev_incompat }))
    else (
      record n { producer_time_us = u32 (le16 data' 0 * 1000); producer_timer = 0 },
      write_entry_default s data',
    )

-- What can happen to the object while its mutex is free.
pub data Event : Type 0 where
  received : Frame → Event
  commanded : ℕ → Event
  requested : (command node : ℕ) → Event
  written_1017 : Stream → List ℕ → Event

unfoldable pub apply : Nmt → Event → Nmt
apply n (received frame) = handle n frame
apply n (commanded command) = send_internal_command n command
apply n (requested command node) = (send_command n command node).0
apply n (written_1017 s data') = (write_entry_1017 n s data').0

unfoldable pub apply_all : Nmt → List Event → Nmt
apply_all n [] = n
apply_all n (event ∷ events) = apply_all (apply n event) events

-- The producer timer runs down to 0.
unfoldable pub run_timer : Nmt → ℕ → Nmt
run_timer n dt = record n {
  producer_timer = if ltb dt n.producer_timer then n.producer_timer - dt else 0;
}

-- The condition for a heartbeat.
unfoldable pub is_heartbeat_due : Nmt → Bool
is_heartbeat_due n =
    (n.operating_state == state_initializing)
    || (not (n.producer_time_us == 0)
        && ((n.producer_timer == 0) || not (n.operating_state == n.operating_state_prev)))

unfoldable pub heartbeat : Nmt → Frame
heartbeat n = record n.hb_tx_buff { bytes = set n.hb_tx_buff.bytes 0 n.operating_state }

-- The state once the heartbeat is sent and the mutex taken again.
unfoldable pub beaten : Nmt → List Event → Nmt
beaten n window =
    let n' = apply_all (record n { hb_tx_buff = heartbeat n }) window in
    if n.operating_state == state_initializing
    then n'
    else record n' { producer_timer = n'.producer_time_us }

-- The state that the boot-up message leads to.
unfoldable pub started : Nmt → ℕ
started n =
    if n.operating_state == state_initializing
    then if has_bits n.control startup_to_operational
      then state_operational
      else state_pre_operational
    else n.operating_state

-- The state that a command asks for.
unfoldable pub commanded_state : (command state : ℕ) → ℕ
commanded_state command state =
    if command == command_enter_operational
    then state_operational
    else if command == command_enter_stopped
    then state_stopped
    else if command == command_enter_pre_operational
    then state_pre_operational
    else state

unfoldable pub commanded_reset : (command : ℕ) → ℕ
commanded_reset command =
    if command == command_reset_node
    then reset_app
    else if command == command_reset_communication
    then reset_comm
    else reset_not

-- `busOff_HB`
unfoldable pub bus_off_hb : Nmt → Emcy → Bool
bus_off_hb n e =
    has_bits n.control nmt_err_on_bus_off_hb
    && (is_error e em_can_tx_bus_passive
        || is_error e em_heartbeat_consumer
        || is_error e em_hb_consumer_remote_reset)

-- `errRegMasked`
unfoldable pub err_reg_masked : Nmt → Emcy → Bool
err_reg_masked n e =
    has_bits n.control nmt_err_on_err_reg
    && not (bit_and (get_error_register e) (u8 n.control) == 0)

-- Errors leave the operational state, their absence can enter it.
unfoldable pub supervised : Nmt → Emcy → ℕ → ℕ
supervised n e state =
    if (state == state_operational) && (bus_off_hb n e || err_reg_masked n e)
    then if has_bits n.control nmt_err_to_stopped then state_stopped else state_pre_operational
    else if has_bits n.control nmt_err_free_to_operational
        && (state == state_pre_operational)
        && not (bus_off_hb n e)
        && not (err_reg_masked n e)
    then state_operational
    else state

-- The time to the next call.
unfoldable pub next_call : Nmt → ℕ → Option ℕ → Option ℕ
next_call n state none = none
next_call n state (some timer) = some (
    if n.producer_time_us == 0
    then timer
    else if not (n.operating_state_prev == state)
    then 0
    else at_most n.producer_timer timer)

-- What `Process` leaves: `reset` is its result, `internal_state` what the pointer is set to.
pub record Processed : Type 0 where
  pub nmt : Nmt
  pub reset : ℕ
  pub internal_state : ℕ
  pub timer_next : Option ℕ
  pub frames : List Frame
  pub called_back : List ℕ

-- `Process` after the heartbeat: the state is `copy`, `was_init` says that it was initializing.
unfoldable pub finish :
    Nmt → Emcy → (copy : ℕ) → (was_init : Bool) → Option ℕ → List Frame → Processed
finish n e copy was_init next frames =
    let n' = record n { operating_state_prev = copy; internal_command = command_empty } in
    let state = supervised n e (commanded_state n.internal_command copy) in
    record {
      nmt = record n' { operating_state = state };
      reset = commanded_reset n.internal_command;
      internal_state = state;
      timer_next = next_call n' state next;
      frames = frames;
      called_back = if (not (copy == state) || was_init) && n.callback then state ∷ [] else [];
    }

-- `Process`
unfoldable pub process : Nmt → Emcy → List Event → ℕ → Option ℕ → Processed
process n e window dt next =
    let n' = run_timer n dt in
    let was_init = n.operating_state == state_initializing in
    if is_heartbeat_due n'
    then finish (beaten n' window) e (started n') was_init next (heartbeat n' ∷ [])
    else finish n' e n.operating_state was_init next []

-- `CommandEmpty` is in the buffer, the timers are set from the dictionary. In Go `firstHbTimeMs * 1000`
-- is a uint16 product.
unfoldable pub configured :
    (node_id control first_hb_time_ms hb_time_ms can_id_nmt_tx can_id_hb_tx : ℕ) → Nmt
configured node_id control first_hb_time_ms hb_time_ms can_id_nmt_tx can_id_hb_tx =
    let time_us = hb_time_ms * 1000 in
    record {
      operating_state = state_initializing;
      operating_state_prev = state_initializing;
      internal_command = command_empty;
      node_id = node_id;
      control = control;
      producer_time_us = time_us;
      producer_timer = at_most time_us (u16 (first_hb_time_ms * 1000));
      nmt_tx_buff = new_frame can_id_nmt_tx 0 2;
      hb_tx_buff = new_frame can_id_hb_tx 0 1;
      callback = false;
    }

-- The two errors of `NewNMT`.
pub data InitError : Type 0 where
  illegal_argument od_parameters : InitError

init_result : Nmt → ℕ × Option Odr → InitError ⊎ Nmt
init_result n (ms, none) = inr n
init_result n (ms, some err) = inl od_parameters

-- `NewNMT`, with a bus manager and a subscription that succeeds; no entry is a nil pointer.
unfoldable pub new_nmt :
    (node_id control first_hb_time_ms can_id_nmt_tx can_id_hb_tx : ℕ)
    → Option Entry
    → Outcome (InitError ⊎ Nmt)
unfolding init_result
new_nmt node_id control first can_id_nmt_tx can_id_hb_tx none = done (inl illegal_argument)
new_nmt node_id control first can_id_nmt_tx can_id_hb_tx (some entry1017) =
    uint16 entry1017 0 >>= λ r.
    done (init_result (configured node_id control first r.0 can_id_nmt_tx can_id_hb_tx) r)
