-- ===== src/Emergency/Inv.antt =====
-- pkg/emergency/emergency.go: the invariant of the message queue, kept by every operation.
use gocanopen.Base.{
  get_or, if_both, ℕ, ◌+◌, ◌<◌, ◌≤◌, Bool, true, false, Option, none, List, [], ◌∷◌, arith, length,
  length-set, ◌==◌, ◌&&◌, u8, bit_xor,
}
use gocanopen.Emergency.{
  note_overflow, pop_oldest, oldest_msg, no_message, em_emergency_buffer_full, err_generic, Emcy,
  push, next_ptr, error_at, error, error_report, error_reset, driver_error, driver_chain,
  driver_table, driver_errors, send_oldest, process_fifo, process, run_timer,
}
use gocanopen.Emergency.Status.{Op, report, reset, cycle, apply, run}

-- Both pointers are places of the fifo, the history is shorter than the fifo, and the overflow mark
-- is one of its three values.
pub record IsValid (e : Emcy) : Type 0 where
  pub size_min : 2 ≤ length e.fifo
  pub size_max : length e.fifo ≤ 256
  pub write_in : e.fifo_wr_ptr < length e.fifo
  pub read_in : e.fifo_pp_ptr < length e.fifo
  pub history : e.fifo_count < length e.fifo
  pub overflow : e.fifo_overflow ≤ 2

pub next_ptr-lt : (size p : ℕ) → 0 < size → next_ptr size p < size
unfolding next_ptr
next_ptr-lt size p h = ground arith

push-IsValid : (e : Emcy) (msg info : ℕ) → IsValid e → IsValid (push e msg info)
unfolding push
push-IsValid e msg info v = ground (
  arith,
  next_ptr-lt (length e.fifo) e.fifo_wr_ptr (omega arith),
  length-set e.fifo e.fifo_wr_ptr (record { msg = msg; info = info }),
)

error_at-IsValid :
    (e : Emcy) (s : Bool) (bit index mask code info : ℕ)
    → IsValid e
    → IsValid (error_at e s bit index mask code info)
unfolding error_at
error_at-IsValid e true bit index mask code info v = grind (arith, push-IsValid)
error_at-IsValid e false bit index mask code info v = grind (arith, push-IsValid)

error-IsValid :
    (e : Emcy) (s : Bool) (bit code info : ℕ) → IsValid e → IsValid (error e s bit code info)
unfolding error
error-IsValid e s bit code info v = grind (arith, error_at-IsValid)

driver_error-IsValid :
    (status changed mask bit code : ℕ) (e : Emcy)
    → IsValid e
    → IsValid (driver_error status changed mask bit code e)
unfolding driver_error
driver_error-IsValid status changed mask bit code e v = grind (arith, error-IsValid)

driver_chain-IsValid :
    (status changed : ℕ) (rows : List (ℕ × ℕ × ℕ)) (e : Emcy)
    → IsValid e
    → IsValid (driver_chain status changed rows e)
unfolding driver_chain
driver_chain-IsValid status changed [] e v = v
driver_chain-IsValid status changed ((mask, bit, code) ∷ rows) e v =
    driver_chain-IsValid status changed rows (driver_error status changed mask bit code e)
      (driver_error-IsValid status changed mask bit code e v)

driver_errors-IsValid : (e : Emcy) (status : ℕ) → IsValid e → IsValid (driver_errors e status)
unfolding driver_errors
driver_errors-IsValid e status v = if_both IsValid (status == e.can_error_old) e _ v (
    driver_chain-IsValid status (bit_xor status e.can_error_old) driver_table
      (record e { can_error_old = status }) (omega arith))

pop_oldest-IsValid : (e : Emcy) → IsValid e → IsValid (pop_oldest e)
unfolding pop_oldest
pop_oldest-IsValid e v = ground (
  arith,
  length-set e.fifo e.fifo_pp_ptr
      (record { msg = oldest_msg e; info = (get_or e.fifo e.fifo_pp_ptr no_message).info }),
)

note_overflow-IsValid : (e : Emcy) (after : ℕ) → IsValid e → IsValid (note_overflow e after)
unfolding note_overflow error_report error_reset
note_overflow-IsValid e after v =
    if_both IsValid (e.fifo_overflow == 1) _ _
      (error-IsValid (record e { fifo_overflow = 2 }) true em_emergency_buffer_full err_generic 0
        (omega arith))
      (if_both IsValid ((e.fifo_overflow == 2) && (after == e.fifo_wr_ptr)) _ _
        (error-IsValid (record e { fifo_overflow = 0 }) false em_emergency_buffer_full 0 0
          (omega arith))
        v)

send_oldest-IsValid : (e : Emcy) → IsValid e → IsValid (send_oldest e).0
unfolding send_oldest
send_oldest-IsValid e v =
    note_overflow-IsValid (pop_oldest e) (u8 (e.fifo_pp_ptr + 1)) (pop_oldest-IsValid e v)

run_timer-IsValid : (e : Emcy) (dt : ℕ) → IsValid e → IsValid (run_timer e dt)
unfolding run_timer
run_timer-IsValid e dt v = omega arith

process_fifo-IsValid :
    (e : Emcy) (dt : ℕ) (next : Option ℕ) → IsValid e → IsValid (process_fifo e dt next).0
unfolding process_fifo
process_fifo-IsValid e dt next v = grind (
  arith,
  send_oldest-IsValid (run_timer e dt) (run_timer-IsValid e dt v),
  run_timer-IsValid e dt v,
)

process-IsValid :
    (e : Emcy) (status : ℕ) (active : Bool) (dt : ℕ) (next : Option ℕ)
    → IsValid e
    → IsValid (process e status active dt next).0
unfolding process
process-IsValid e status true dt next v =
    process_fifo-IsValid (driver_errors e status) dt next (driver_errors-IsValid e status v)
process-IsValid e status false dt next v = driver_errors-IsValid e status v

apply-IsValid : (e : Emcy) (op : Op) → IsValid e → IsValid (apply e op)
unfolding apply error_report error_reset
apply-IsValid e (report bit code info) v = error-IsValid e true bit code info v
apply-IsValid e (reset bit info) v = error-IsValid e false bit 0 info v
apply-IsValid e (cycle can_error active dt) v = process-IsValid e can_error active dt none v

-- Reports, resets and cycles, in any order, keep a valid queue valid.
pub run-IsValid : (e : Emcy) (ops : List Op) → IsValid e → IsValid (run e ops)
unfolding run
run-IsValid e [] v = v
run-IsValid e (op ∷ ops) v = run-IsValid (apply e op) ops (apply-IsValid e op v)
