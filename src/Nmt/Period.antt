-- ===== src/Nmt/Period.antt =====
-- pkg/nmt/nmt.go: the heartbeats that `Process` sends over time.
use gocanopen.Base.{
  ℕ, ◌+◌, ◌<◌, ◌≡◌, ◌≢◌, inl, inr, refl, true, false, none, List, [], ◌∷◌, ◌++◌, arith, ◌∙◌, sym,
  Bool-cases,
}
use gocanopen.Can.{Frame}
use gocanopen.Emergency.{Emcy}
use gocanopen.Nmt.{Nmt, run_timer, is_heartbeat_due, heartbeat, finish, process}

-- Calls of `Process` with nothing else going on: the object afterwards and the frames sent.
unfoldable pub cycles : Nmt → Emcy → List ℕ → Nmt × List Frame
cycles n e [] = (n, [])
cycles n e (dt ∷ dts) =
    let p = process n e [] dt none in let rest = cycles p.nmt e dts in (rest.0, p.frames ++ rest.1)

abbrev pub total : List ℕ → ℕ
total [] = 0
total (dt ∷ dts) = dt + total dts

frames_due :
    (n : Nmt) (e : Emcy) (dt : ℕ)
    → is_heartbeat_due (run_timer n dt) ≡ true
    → (process n e [] dt none).frames ≡ heartbeat (run_timer n dt) ∷ []
unfolding process finish
frames_due n e dt due = rw (due) refl

silent_cycle :
    (n : Nmt) (e : Emcy) (dt : ℕ)
    → (process n e [] dt none).frames ≡ []
    → is_heartbeat_due (run_timer n dt) ≡ false
silent_cycle n e dt h = elim (Bool-cases (is_heartbeat_due (run_timer n dt))) [
  | inl due ↦ cc (h, frames_due n e dt due)
  | inr due ↦ due
]

silent_timer :
    (n : Nmt) (e : Emcy) (dt : ℕ)
    → is_heartbeat_due (run_timer n dt) ≡ false
    → n.producer_time_us ≢ 0
    → ((process n e [] dt none).nmt.producer_timer + dt ≡ n.producer_timer)
      × ((process n e [] dt none).nmt.producer_time_us ≡ n.producer_time_us)
      × (0 < (process n e [] dt none).nmt.producer_timer)
unfolding process finish run_timer is_heartbeat_due
silent_timer n e dt h period = rw (h) (ground arith)

nil-append_left : (xs ys : List Frame) → (xs ++ ys) ≡ [] → (xs ≡ []) × (ys ≡ [])
nil-append_left [] ys h = (refl, h)
nil-append_left (x ∷ xs) ys h = ground (arith, h)

-- With a heartbeat period and time left on the producer timer, calls of `Process` that send no
-- frame, with nothing else going on, take less time together than the timer had left: once they
-- take that long, a heartbeat is sent.
pub cycles-silent :
    (n : Nmt) (e : Emcy) (dts : List ℕ)
    → n.producer_time_us ≢ 0
    → 0 < n.producer_timer
    → (cycles n e dts).1 ≡ []
    → total dts < n.producer_timer
unfolding cycles
cycles-silent n e [] period timer silent = timer
cycles-silent n e (dt ∷ dts) period timer silent =
    let p = process n e [] dt none in
    let parts : (p.frames ≡ []) × ((cycles p.nmt e dts).1 ≡ []) =
      nil-append_left p.frames (cycles p.nmt e dts).1 silent in
    let facts = silent_timer n e dt (silent_cycle n e dt parts.0) period in
    let later : total dts < p.nmt.producer_timer =
      cycles-silent p.nmt e dts (λ z. period (sym facts.1 ∙ z)) facts.2 parts.1 in
    let kept : p.nmt.producer_timer + dt ≡ n.producer_timer = facts.0 in omega (arith, later, kept)
