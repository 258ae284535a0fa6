-- ===== src/Nmt/Process.antt =====
-- pkg/nmt/nmt.go: the states that `Process` reaches, and the commands.
use gocanopen.Base.{
  ℕ, ◌≡◌, ◌⊎◌, inl, inr, Bool, false, ◌||◌, Option, List, [], arith, ◌==◌, if◌then◌else◌, set,
  length, if_both, Bool-cases, get_or-set_ne, get_or-set_self, length-set,
}
use gocanopen.Can.{Frame}
use gocanopen.Emergency.{Emcy}
use gocanopen.Nmt.{
  Nmt, handle, send_internal_command, send_command, Event, run_timer, is_heartbeat_due, beaten,
  started, commanded_state, bus_off_hb, err_reg_masked, supervised, finish, process, Processed,
  state_operational,
}

-- The four states of a node.
abbrev pub IsKnown : ℕ → Type 0
IsKnown state = (state ≡ 0) ⊎ ((state ≡ 127) ⊎ ((state ≡ 5) ⊎ (state ≡ 4)))

-- The three states of a node that has booted.
abbrev pub IsBooted : ℕ → Type 0
IsBooted state = (state ≡ 127) ⊎ ((state ≡ 5) ⊎ (state ≡ 4))

started-IsBooted : (n : Nmt) → IsKnown n.operating_state → IsBooted (started n)
unfolding started
started-IsBooted n h = ground arith

commanded_state-IsBooted :
    (command state : ℕ) → IsBooted state → IsBooted (commanded_state command state)
unfolding commanded_state
commanded_state-IsBooted command state h = ground arith

supervised-IsBooted :
    (n : Nmt) (e : Emcy) (state : ℕ) → IsBooted state → IsBooted (supervised n e state)
unfolding supervised
supervised-IsBooted n e state h = ground arith

not_due-IsBooted :
    (n : Nmt) → is_heartbeat_due n ≡ false → IsKnown n.operating_state → IsBooted n.operating_state
unfolding is_heartbeat_due
not_due-IsBooted n due h = ground arith

finish-IsBooted :
    (n : Nmt) (e : Emcy) (copy : ℕ) (was_init : Bool) (next : Option ℕ) (frames : List Frame)
    → IsBooted copy
    → IsBooted (finish n e copy was_init next frames).nmt.operating_state
unfolding finish
finish-IsBooted n e copy was_init next frames h =
    supervised-IsBooted n e (commanded_state n.internal_command copy)
      (commanded_state-IsBooted n.internal_command copy h)

-- One call of `Process` takes a node in a known state, initializing included, to pre-operational,
-- operational or stopped, whatever arrives while it sends.
pub process-IsBooted :
    (n : Nmt) (e : Emcy) (window : List Event) (dt : ℕ) (next : Option ℕ)
    → IsKnown n.operating_state
    → IsBooted (process n e window dt next).nmt.operating_state
unfolding process run_timer
process-IsBooted n e window dt next h = elim (Bool-cases (is_heartbeat_due (run_timer n dt))) [
  | inl due ↦ rw (due) (
      finish-IsBooted (beaten (run_timer n dt) window) e (started (run_timer n dt)) _ next _
        (started-IsBooted (run_timer n dt) h))
  | inr due ↦ rw (due) (
      finish-IsBooted (run_timer n dt) e n.operating_state _ next []
        (not_due-IsBooted (run_timer n dt) due h))
]

-- `has_errors n e` says that an error is pending that the control word lets end the operational state.
abbrev pub has_errors : Nmt → Emcy → Bool
has_errors n e = bus_off_hb n e || err_reg_masked n e

supervised-has_errors :
    (n : Nmt) (e : Emcy) (state : ℕ) → supervised n e state ≡ 5 → has_errors n e ≡ false
unfolding supervised
supervised-has_errors n e state h = ground arith

finish-has_errors :
    (n : Nmt) (e : Emcy) (copy : ℕ) (was_init : Bool) (next : Option ℕ) (frames : List Frame)
    → (finish n e copy was_init next frames).nmt.operating_state ≡ 5
    → has_errors (finish n e copy was_init next frames).nmt e ≡ false
unfolding finish bus_off_hb err_reg_masked
finish-has_errors n e copy was_init next frames h =
    supervised-has_errors n e (commanded_state n.internal_command copy) h

-- A node that `Process` leaves operational has no pending error that its control word supervises,
-- whatever its state, its commands and the events during the sending.
pub process-has_errors :
    (n : Nmt) (e : Emcy) (window : List Event) (dt : ℕ) (next : Option ℕ)
    → (process n e window dt next).nmt.operating_state ≡ state_operational
    → has_errors (process n e window dt next).nmt e ≡ false
unfolding process
process-has_errors n e window dt next =
    if_both (λ (p : Processed). p.nmt.operating_state ≡ 5 → has_errors p.nmt e ≡ false)
      (is_heartbeat_due (run_timer n dt)) _ _
      (finish-has_errors (beaten (run_timer n dt) window) e (started (run_timer n dt)) _ next _)
      (finish-has_errors (run_timer n dt) e n.operating_state _ next [])

-- A command frame made by one node's `SendCommand` from its two byte transmit buffer is for
-- another node's `Handle` the same as an own command, if it is for that node or for all; else it
-- changes nothing.
handle-send_command :
    (a b : Nmt) (command node : ℕ)
    → a.nmt_tx_buff.dlc ≡ 2
    → length a.nmt_tx_buff.bytes ≡ 8
    → handle b (send_command a command node).1
      ≡ (if (node == 0) || (node == b.node_id) then send_internal_command b command else b)
unfolding handle send_command send_internal_command
handle-send_command a b command node dlc size = ground (
  arith,
  get_or-set_ne (set a.nmt_tx_buff.bytes 0 command) 1 0 node 0 (omega arith),
  get_or-set_self a.nmt_tx_buff.bytes 0 command 0 (omega arith),
  get_or-set_self (set a.nmt_tx_buff.bytes 0 command) 1 node 0
      (omega (arith, length-set a.nmt_tx_buff.bytes 0 command)),
)
