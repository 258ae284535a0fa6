-- ===== src/Pdo/Rpdo/Timeout.antt =====
-- pkg/pdo/rpdo.go: when an RPDO that receives nothing reports its timeout.
use gocanopen.Base.{
  ◌++◌, ap, ℕ, ◌+◌, ◌<◌, ◌≤◌, ◌≡◌, refl, ◌∙◌, true, false, none, List, [], ◌∷◌, arith, ltb, u32,
  if◌then◌else◌, ap, ◌++◌,
}
use gocanopen.Od.Errors.{Outcome, done, ◌>>=◌}
use gocanopen.Emergency.{error_report}
use gocanopen.Pdo.Rpdo.{
  Rpdo, is_new, acknowledged, timed, finished, process, em_rpdo_time_out, err_rpdo_timeout,
  with_emcy, reads_second,
}

-- An asynchronous RPDO of an operational node that waits for a frame, with a timeout.
pub record Waits (r : Rpdo) : Type 0 where
  pub valid : r.pdo.valid ≡ true
  pub asynchronous : r.synchronous ≡ false
  pub silent : r.rx_new0 ≡ false
  pub no_error : r.receive_error ≤ 10
  pub has_timeout : 0 < r.timeout_time_us

-- Calls of Process that take the given times.
unfoldable pub cycles : Rpdo → List ℕ → Outcome Rpdo
cycles r [] = done r
cycles r (time_us ∷ times) = process r time_us none true false none >>= λ (r', _). cycles r' times

process-Waits :
    (r : Rpdo) (time_us : ℕ)
    → Waits r
    → process r time_us none true false none ≡ done (timed r false time_us, none)
unfolding process is_new acknowledged finished reads_second
process-Waits r time_us w =
    ground (arith, w.valid, w.asynchronous, w.silent, w.no_error, w.has_timeout)

abbrev pub total : List ℕ → ℕ
total [] = 0
total (time_us ∷ times) = time_us + total times

-- The RPDO when its timer has come to `timer`: a timer past the timeout is reported.
abbrev pub silenced : Rpdo → (timer : ℕ) → Rpdo
silenced r timer =
    let emcy =
      if ltb r.timeout_time_us timer
      then error_report r.pdo.emcy em_rpdo_time_out err_rpdo_timeout timer
      else r.pdo.emcy in
    record (with_emcy r emcy) { timeout_timer = timer }

silenced-Waits : (r : Rpdo) (timer : ℕ) → Waits r → Waits (silenced r timer)
silenced-Waits r timer w = record {
  valid = w.valid;
  asynchronous = w.asynchronous;
  silent = w.silent;
  no_error = w.no_error;
  has_timeout = w.has_timeout;
}

cycle-Waits :
    (r : Rpdo) (time_us : ℕ) (times : List ℕ)
    → Waits r
    → cycles r (time_us ∷ times) ≡ cycles (timed r false time_us) times
unfolding cycles
cycle-Waits r time_us times w = rw (process-Waits r time_us w) refl

timed_over :
    (r : Rpdo) (time_us : ℕ) → r.timeout_time_us ≤ r.timeout_timer → timed r false time_us ≡ r
unfolding timed
timed_over r time_us over = ground (arith, over)

-- A timer that has reached its timeout stays.
cycles_over :
    (r : Rpdo) (times : List ℕ)
    → Waits r
    → r.timeout_time_us ≤ r.timeout_timer
    → cycles r times ≡ done r
unfolding cycles
cycles_over r [] w over = refl
cycles_over r (time_us ∷ times) w over =
    cycle-Waits r time_us times w
    ∙ ap (λ r'. cycles r' times) (timed_over r time_us over)
    ∙ cycles_over r times w over

-- A timer that runs goes on.
timed_running :
    (r : Rpdo) (time_us : ℕ)
    → (0 < r.timeout_timer) × (r.timeout_timer < r.timeout_time_us)
    → r.timeout_timer + time_us < 4294967296
    → timed r false time_us ≡ silenced r (r.timeout_timer + time_us)
unfolding timed
timed_running r time_us running small =
    let e : u32 (r.timeout_timer + time_us) ≡ r.timeout_timer + time_us = omega arith in
    rw e (ground (arith, running))

silenced_below-Waits : (r : Rpdo) (timer : ℕ) → Waits r → Waits (record r { timeout_timer = timer })
silenced_below-Waits r timer w = record {
  valid = w.valid;
  asynchronous = w.asynchronous;
  silent = w.silent;
  no_error = w.no_error;
  has_timeout = w.has_timeout;
}

silenced_below :
    (r : Rpdo) (timer : ℕ)
    → timer < r.timeout_time_us
    → silenced r timer ≡ record r { timeout_timer = timer }
silenced_below r timer below = ground (arith, below)

-- A valid asynchronous RPDO whose timer runs below its timeout, with no error of a frame's length to
-- report, and to which no frame comes while the node is operational, reports the timeout once, in the
-- call in which the timer passes it, and no later call changes anything. A timer that comes to just
-- the timeout is never reported. The timer stays below 2 ^ 32 in that call.
pub cycles-silenced :
    (r : Rpdo) (before : List ℕ) (last : ℕ) (after : List ℕ)
    → Waits r
    → 0 < r.timeout_timer
    → r.timeout_timer + total before < r.timeout_time_us
    → r.timeout_time_us ≤ r.timeout_timer + total before + last
    → r.timeout_timer + total before + last < 4294967296
    → cycles r (before ++ (last ∷ after))
      ≡ done (silenced r (r.timeout_timer + total before + last))
cycles-silenced r [] last after w running below over small =
    let timer = r.timeout_timer + last in
    cycle-Waits r last after w
    ∙ ap (λ r'. cycles r' after)
        (timed_running r last (omega (arith, running, below)) (omega (arith, small)))
    ∙ cycles_over (silenced r timer) after (silenced-Waits r timer w) (omega (arith, over))
    ∙ ap (λ n. done (silenced r n)) (omega arith)
cycles-silenced r (time_us ∷ before) last after w running below over small =
    let timer = r.timeout_timer + time_us in
    let r' = record r { timeout_timer = timer } in
    cycle-Waits r time_us (before ++ (last ∷ after)) w
    ∙ ap (λ t. cycles t (before ++ (last ∷ after)))
        (timed_running r time_us (omega (arith, running, below)) (omega (arith, small))
          ∙ silenced_below r timer (omega (arith, below)))
    ∙ cycles-silenced r' before last after (silenced_below-Waits r timer w) (omega (arith, running))
        (omega (arith, below)) (omega (arith, over)) (omega (arith, small))
    ∙ ap (λ n. done (silenced r n)) (omega arith)
