-- ===== src/Fifo/Inv.antt =====
-- The invariant of internal/fifo/fifo.go: every position is an index of the buffer.
use gocanopen.Base.{
  true, ℕ, suc, ◌-◌, ◌<◌, ◌≡◌, ◌≢◌, false, arith, length, length-set, length-replicate,
}
use gocanopen.Fifo.{Fifo, new_fifo, is_full, store, advance}
use gocanopen.Fifo.Window.{steps-next, steps}

pub record IsValid (f : Fifo) : Type 0 where
  pub write_in : f.write_pos < length f.buffer
  pub read_in : f.read_pos < length f.buffer
  pub alt_in : f.alt_read_pos < length f.buffer

-- The bytes that a fifo holds, and the room that is left: one place always stays free.
abbrev pub occupied : Fifo → ℕ
occupied f = steps (length f.buffer) f.read_pos f.write_pos

abbrev pub space : Fifo → ℕ
space f = length f.buffer - 1 - occupied f

pub new_fifo-IsValid :
    (size : ℕ) → 0 < size → IsValid (new_fifo size) × (occupied (new_fifo size) ≡ 0)
unfolding new_fifo
new_fifo-IsValid size h = ground (arith, length-replicate {A = ℕ} size 0)

-- The loop of `Write` stops exactly when there is no room left.
pub space-full : (f : Fifo) → IsValid f → is_full f ≡ true → space f ≡ 0
unfolding is_full
space-full f v e = ground arith

pub space-free : (f : Fifo) → IsValid f → is_full f ≡ false → space f ≢ 0
unfolding is_full
space-free f v e = ground arith

pub store-IsValid : (f : Fifo) (b : ℕ) → IsValid f → IsValid (store f b)
unfolding store
store-IsValid f b v = ground (arith, length-set f.buffer f.write_pos b)

length-store : (f : Fifo) (b : ℕ) → length (store f b).buffer ≡ length f.buffer
unfolding store
length-store f b = length-set f.buffer f.write_pos b

pub occupied-store :
    (f : Fifo) (b : ℕ) → IsValid f → is_full f ≡ false → occupied (store f b) ≡ suc (occupied f)
unfolding store is_full
occupied-store f b v e = ground (arith, length-set f.buffer f.write_pos b)

pub advance-IsValid : (f : Fifo) → IsValid f → IsValid (advance f)
unfolding advance
advance-IsValid f v = ground arith

pub occupied-advance :
    (f : Fifo) → IsValid f → f.read_pos ≢ f.write_pos → suc (occupied (advance f)) ≡ occupied f
unfolding advance
occupied-advance f v ne =
    steps-next (length f.buffer) f.read_pos f.write_pos v.read_in v.write_in ne

pub space-store :
    (f : Fifo) (b : ℕ) → IsValid f → is_full f ≡ false → space (store f b) ≡ space f - 1
space-store f b v e = omega (arith, occupied-store f b v e, length-store f b)

pub occupied_none : (f : Fifo) → f.read_pos ≡ f.write_pos → occupied f ≡ 0
occupied_none f e = ground arith

pub occupied_some : (f : Fifo) → IsValid f → f.read_pos ≢ f.write_pos → occupied f ≢ 0
occupied_some f v ne = omega (arith, occupied-advance f v ne)
