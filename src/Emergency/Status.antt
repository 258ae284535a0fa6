-- ===== src/Emergency/Status.antt =====
-- pkg/emergency/emergency.go: no report, reset or processing changes the error status bits, so
-- `IsError` never learns of a reported error.
use gocanopen.Base.{
  bit_xor, ℕ, ◌/◌, ◌%◌, ◌^◌, ◌<◌, ◌≡◌, refl, ap, ◌∙◌, Bool, true, false, Option, none, List, [],
  ◌∷◌, arith, get_or, leb, if◌then◌else◌, has_bits,
}
use gocanopen.Emergency.{
  pop_oldest, note_overflow, driver_table, driver_chain, Emcy, push, error_at, error, error_report,
  error_reset, is_error, driver_error, driver_errors, send_oldest, process_fifo, process, run_timer,
}

abbrev pub bits : Emcy → List ℕ
bits e = e.error_status_bits

bits-push : (e : Emcy) (msg info : ℕ) → bits (push e msg info) ≡ bits e
unfolding push
bits-push e msg info = ground arith

reset_denied :
    (e : Emcy) (bit info : ℕ) → bit < 80 → is_error e bit ≡ false → error_reset e bit info ≡ e
unfolding error_reset error error_at is_error
reset_denied e bit info known clear = ground arith

bits-error_at :
    (e : Emcy) (s : Bool) (bit index mask code info : ℕ)
    → bits (error_at e s bit index mask code info) ≡ bits e
unfolding error_at
bits-error_at e true bit index mask code info = grind (arith, bits-push)
bits-error_at e false bit index mask code info = grind (arith, bits-push)

pub bits-error : (e : Emcy) (s : Bool) (bit code info : ℕ) → bits (error e s bit code info) ≡ bits e
unfolding error
bits-error e s bit code info = grind (arith, bits-error_at)

bits-driver_error :
    (status changed mask bit code : ℕ) (e : Emcy)
    → bits (driver_error status changed mask bit code e) ≡ bits e
unfolding driver_error
bits-driver_error status changed mask bit code e = grind (arith, bits-error)

bits-driver_chain :
    (status changed : ℕ) (rows : List (ℕ × ℕ × ℕ)) (e : Emcy)
    → bits (driver_chain status changed rows e) ≡ bits e
unfolding driver_chain
bits-driver_chain status changed [] e = refl
bits-driver_chain status changed ((mask, bit, code) ∷ rows) e =
    bits-driver_chain status changed rows (driver_error status changed mask bit code e)
    ∙ bits-driver_error status changed mask bit code e

bits-driver_errors : (e : Emcy) (status : ℕ) → bits (driver_errors e status) ≡ bits e
unfolding driver_errors
bits-driver_errors e status = ground (
  arith,
  bits-driver_chain status (bit_xor status e.can_error_old) driver_table
      (record e { can_error_old = status }),
)

bits-send_oldest : (e : Emcy) → bits (send_oldest e).0 ≡ bits e
unfolding send_oldest note_overflow pop_oldest error_report error_reset
bits-send_oldest e = grind (arith, bits-error)

bits-process :
    (e : Emcy) (status : ℕ) (active : Bool) (dt : ℕ) (next : Option ℕ)
    → bits (process e status active dt next).0 ≡ bits e
unfolding process process_fifo run_timer
bits-process e status active dt next = grind (arith, bits-send_oldest, bits-driver_errors)

-- What a device does to its emergency object.
pub data Op : Type 0 where
  report : (bit code info : ℕ) → Op
  reset : (bit info : ℕ) → Op
  cycle : (can_error : ℕ) → (active : Bool) → (dt : ℕ) → Op

unfoldable pub apply : Emcy → Op → Emcy
apply e (report bit code info) = error_report e bit code info
apply e (reset bit info) = error_reset e bit info
apply e (cycle can_error active dt) = (process e can_error active dt none).0

unfoldable pub run : Emcy → List Op → Emcy
run e [] = e
run e (op ∷ ops) = run (apply e op) ops

bits-apply : (e : Emcy) (op : Op) → bits (apply e op) ≡ bits e
unfolding apply error_report error_reset
bits-apply e (report bit code info) = bits-error e true bit code info
bits-apply e (reset bit info) = bits-error e false bit 0 info
bits-apply e (cycle can_error active dt) = bits-process e can_error active dt none

bits-run : (e : Emcy) (ops : List Op) → bits (run e ops) ≡ bits e
unfolding run
bits-run e [] = refl
bits-run e (op ∷ ops) = bits-run (apply e op) ops ∙ bits-apply e op

-- After any reports, resets and cycles `IsError` answers for every bit as it did before them.
pub is_error-run : (e : Emcy) (ops : List Op) (bit : ℕ) → is_error (run e ops) bit ≡ is_error e bit
unfolding is_error
is_error-run e ops bit =
    ap
      (λ (bs : List ℕ).
        if leb 10 (bit / 8) then true else has_bits (get_or bs (bit / 8) 0) (2 ^ (bit % 8)))
      (bits-run e ops)

-- A reset of a known bit does nothing while `IsError` denies it, so after any reports and cycles a
-- reset of it queues no message.
error_reset-run :
    (e : Emcy) (ops : List Op) (bit info : ℕ)
    → bit < 80
    → is_error e bit ≡ false
    → error_reset (run e ops) bit info ≡ run e ops
error_reset-run e ops bit info known clear =
    reset_denied (run e ops) bit info known (is_error-run e ops bit ∙ clear)
