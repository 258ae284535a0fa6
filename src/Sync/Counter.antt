-- ===== src/Sync/Counter.antt =====
-- pkg/sync/sync.go: the counter of the SYNC messages.
use gocanopen.Base.{
  ℕ, zero, suc, ◌+◌, ◌-◌, ◌%◌, ◌≤◌, ◌≡◌, ◌∙◌, refl, ap, true, List, arith, ◌==◌, if◌then◌else◌,
  length, get_or-set_self, Bool-cases, inl, inr, sym,
}
use native.Mathlib.Nat.{add-mod_left, mod-eq_of_lt}
use gocanopen.Od.Stream.{Stream}
use gocanopen.Sync.{
  Sync, send, next_counter, handle, accept, new_sync, initial_overflow, write_entry_1005, renamed,
  switched, write_entry_1019,
}

-- The frame carries a counter just when there is one, and the counter does not exceed its overflow.
pub record IsValid (s : Sync) : Type 0 where
  pub frame : s.tx_buffer.dlc ≡ (if s.counter_overflow == 0 then 0 else 1)
  pub room : length s.tx_buffer.bytes ≡ 8
  pub overflow : s.counter_overflow ≤ 240

-- `n` messages in a row.
unfoldable pub sends : ℕ → Sync → Sync
sends zero s = s
sends (suc n) s = sends n (send s)

next_counter_lem :
    (o c : ℕ) → 1 ≤ o → o ≤ 240 → 1 ≤ c → c ≤ o → next_counter o c ≡ (if c == o then 1 else c + 1)
unfolding next_counter
next_counter_lem o c o_min o_max c_min c_max = ground arith

turn :
    (o c n next : ℕ)
    → next ≡ (if c == o then 1 else c + 1)
    → 1 ≤ c
    → c ≤ o
    → (next - 1 + n) % o ≡ (c - 1 + suc n) % o
turn o c n next h c_min c_max = elim (Bool-cases (c == o)) [
  | inl same ↦
      let one : next - 1 + n ≡ n = ground (arith, same, h) in
      let sum : c - 1 + suc n ≡ o + n = ground (arith, same) in
      ap (λ (x : ℕ). x % o) one ∙ sym (add-mod_left o n) ∙ ap (λ (x : ℕ). x % o) (sym sum)
  | inr other ↦
      let sum : next - 1 + n ≡ c - 1 + suc n = ground (arith, other, h) in ap (λ (x : ℕ). x % o) sum
]

-- With an overflow from 1 to 240 and a counter `c` from 1 to the overflow, the counters of a
-- producer run up to the overflow and start again at 1: after `n` messages the counter is one more
-- than `c - 1 + n` modulo the overflow.
pub sends-counter :
    (n : ℕ) (s : Sync)
    → 1 ≤ s.counter_overflow
    → s.counter_overflow ≤ 240
    → 1 ≤ s.counter
    → s.counter ≤ s.counter_overflow
    → (sends n s).counter ≡ 1 + (s.counter - 1 + n) % s.counter_overflow
unfolding sends send
sends-counter zero s o_min o_max c_min c_max =
    let low : (s.counter - 1 + 0) % s.counter_overflow ≡ s.counter - 1 + 0 =
      mod-eq_of_lt (omega arith) in
    omega (arith, low)
sends-counter (suc n) s o_min o_max c_min c_max =
    let next = next_counter_lem s.counter_overflow s.counter o_min o_max c_min c_max in
    sends-counter n (send s) o_min o_max (ground (arith, next)) (ground (arith, next))
    ∙ ap (λ (x : ℕ). 1 + x)
        (turn s.counter_overflow s.counter n (next_counter s.counter_overflow s.counter) next c_min
          c_max)

-- A node that handles the message of a producer in a valid state, with the same overflow value,
-- has the producer's counter where there is one, has a new message, and notes no reception error.
pub handle-send :
    (a b : Sync)
    → IsValid a
    → a.counter_overflow ≡ b.counter_overflow
    → ((handle b (send a).tx_buffer).rx_new ≡ true)
      × ((handle b (send a).tx_buffer).counter
          ≡ (if b.counter_overflow == 0 then b.counter else (send a).counter))
      × ((handle b (send a).tx_buffer).receive_error ≡ b.receive_error)
unfolding handle send accept
handle-send a b v same = ground (
  arith,
  same,
  get_or-set_self a.tx_buffer.bytes 0 (next_counter a.counter_overflow a.counter) 0 (omega arith),
)

new_sync-IsValid : (cob_id value : ℕ) → IsValid (new_sync cob_id value)
unfolding new_sync initial_overflow
new_sync-IsValid cob_id value = record {
  frame = ground arith;
  room = refl;
  overflow = ground arith;
}

write_entry_1005-IsValid :
    (s : Sync) (st : Stream) (data' : List ℕ) → IsValid s → IsValid (write_entry_1005 s st data').0
unfolding write_entry_1005 renamed switched
write_entry_1005-IsValid s st data' v = record {
  frame = ground (arith, v.frame);
  room = ground (arith, v.room);
  overflow = ground (arith, v.overflow);
}

write_entry_1019-IsValid :
    (s : Sync) (period : ℕ) (st : Stream) (data' : List ℕ)
    → IsValid s
    → IsValid (write_entry_1019 s period st data').0
unfolding write_entry_1019
write_entry_1019-IsValid s period st data' v = record {
  frame = ground (arith, v.frame);
  room = ground (arith, v.room);
  overflow = ground (arith, v.overflow);
}
