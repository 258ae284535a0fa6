-- ===== src/Fifo.antt =====
-- internal/fifo/fifo.go: the circular byte buffer of SDO block transfers. A method that changes
-- `*Fifo` returns the new record. Positions never go below 0, so they are natural numbers; a
-- difference of positions is an integer, as in the source.
pub mod Window
pub mod Inv
pub mod Refine
pub mod Alt
mod Tests
use gocanopen.Base.{
  ℕ, zero, suc, ◌+◌, ◌-◌, Bool, true, false, ◌&&◌, ◌||◌, Option, none, some, List, [], ◌∷◌, length,
  get_or, set, replicate, ◌==◌, if◌then◌else◌,
}
use gocanopen.Base.Int.{ℤ, pos, negsuc, sub_ℕ, ◌+ℤ◌, ltb_ℤ}
use gocanopen.Crc.{single}

pub record Fifo : Type 0 where
  pub buffer : List ℕ
  pub write_pos : ℕ
  pub read_pos : ℕ
  pub alt_read_pos : ℕ
  pub started : Bool
  pub aux : ℕ

unfoldable pub new_fifo : ℕ → Fifo
new_fifo size = record {
  buffer = replicate size 0;
  write_pos = 0;
  read_pos = 0;
  alt_read_pos = 0;
  started = false;
  aux = 0;
}

pub reset : Fifo → Fifo
reset f = record f { read_pos = 0; write_pos = 0; started = false }

-- `d`, or `d + len(buffer)` when `d < 0`.
abbrev wrapped : Fifo → ℤ → ℤ
wrapped f d = if ltb_ℤ d (pos 0) then d +ℤ pos (length f.buffer) else d

pub get_space : Fifo → ℤ
unfolding ◌+ℤ◌
get_space f = wrapped f (sub_ℕ f.read_pos (f.write_pos + 1))

pub get_occupied : Fifo → ℤ
unfolding ◌+ℤ◌
get_occupied f = wrapped f (sub_ℕ f.write_pos f.read_pos)

pub alt_get_occupied : Fifo → ℤ
unfolding ◌+ℤ◌
alt_get_occupied f = wrapped f (sub_ℕ f.write_pos f.alt_read_pos)

-- `p++`, going back to 0 at the end of the buffer.
unfoldable pub next : ℕ → ℕ → ℕ
next cap p = if p + 1 == cap then 0 else p + 1

-- `crc.Single(b)` where the CRC pointer is not nil.
abbrev pub crc_single : Option ℕ → ℕ → Option ℕ
crc_single none b = none
crc_single (some crc) b = some (single crc b)

-- The test that ends the loop of `Write`.
pub is_full : Fifo → Bool
is_full f =
    (f.write_pos + 1 == f.read_pos) || ((f.write_pos + 1 == length f.buffer) && (f.read_pos == 0))

-- An index out of range panics in Go; a valid fifo has its positions in range.
pub store : Fifo → ℕ → Fifo
unfolding next
store f b = record f {
  buffer = set f.buffer f.write_pos b;
  write_pos = next (length f.buffer) f.write_pos;
}

-- The loop of `Write`: the bytes left, the CRC and the count so far.
pub write_from : Fifo → Option ℕ → List ℕ → ℕ → ℕ × Fifo × Option ℕ
unfolding is_full store
write_from f crc [] n = (n, f, crc)
write_from f crc (b ∷ bs) n = elim (is_full f) [
  | true ↦ (n, f, crc)
  | false ↦ write_from (store f b) (crc_single crc b) bs (n + 1)
]

-- `Write`. A nil slice is one with no byte.
pub write : Fifo → List ℕ → Option ℕ → ℕ × Fifo × Option ℕ
unfolding write_from
write f bytes crc = write_from f crc bytes 0

pub advance : Fifo → Fifo
unfolding next
advance f = record f { read_pos = next (length f.buffer) f.read_pos }

-- The loop of `Read` over the caller's slice: the count, the slice and the fifo afterwards.
pub read_into : Fifo → List ℕ → ℕ → ℕ × List ℕ × Fifo
unfolding advance
read_into f [] n = (n, [], f)
read_into f (b ∷ bs) n = elim (f.read_pos == f.write_pos) [
  | true ↦ (n, b ∷ bs, f)
  | false ↦
      let (m, rest, f') = read_into (advance f) bs (n + 1) in
      (m, get_or f.buffer f.read_pos 0 ∷ rest, f')
]

-- `Read`: the slice is `none` for nil, and the flag behind `eof` is `none` for a nil pointer.
pub read : Fifo → Option (List ℕ) → Option Bool → ℕ × Option (List ℕ) × Option Bool × Fifo
unfolding read_into
read f none eof = (0, none, eof, f)
read f (some buffer) eof =
    let eof' = clear eof in
    if f.read_pos == f.write_pos
    then (0, some buffer, eof', f)
    else let (m, filled, f') = read_into f buffer 0 in (m, some filled, eof', f')
  where
    clear : Option Bool → Option Bool
    clear none = none
    clear (some flag) = some false

pub alt_advance : Fifo → Fifo
unfolding next
alt_advance f = record f { alt_read_pos = next (length f.buffer) f.alt_read_pos }

-- The loop of `AltBegin`, which leaves `i` at the steps not made.
pub alt_begin_from : Fifo → ℕ → ℕ × Fifo
unfolding alt_advance
alt_begin_from f zero = (0, f)
alt_begin_from f (suc i) = elim (f.alt_read_pos == f.write_pos) [
  | true ↦ (suc i, f)
  | false ↦ alt_begin_from (alt_advance f) i
]

-- `AltBegin`. Its callers pass no negative offset.
pub alt_begin : Fifo → ℕ → ℕ × Fifo
unfolding alt_begin_from
alt_begin f offset =
    let (i, f') = alt_begin_from (record f { alt_read_pos = f.read_pos }) offset in (offset - i, f')

-- The loop of `AltFinish` with a CRC, on fuel; `none` means that the fuel ran out.
pub alt_finish_loop : ℕ → Fifo → ℕ → Option (Fifo × ℕ)
unfolding advance
alt_finish_loop zero f crc = if f.read_pos == f.alt_read_pos then some (f, crc) else none
alt_finish_loop (suc fuel) f crc = elim (f.read_pos == f.alt_read_pos) [
  | true ↦ some (f, crc)
  | false ↦ alt_finish_loop fuel (advance f) (single crc (get_or f.buffer f.read_pos 0))
]

-- `AltFinish`. One round for each place of the buffer is enough fuel.
pub alt_finish : Fifo → Option ℕ → Option (Fifo × Option ℕ)
unfolding alt_finish_loop
alt_finish f none = some (record f { read_pos = f.alt_read_pos }, none)
alt_finish f (some crc) = elim (alt_finish_loop (length f.buffer) f crc) [
  | none ↦ none
  | some (f', crc') ↦ some (f', some crc')
]

-- `AltRead`
pub alt_read_into : Fifo → List ℕ → ℕ → ℕ × List ℕ × Fifo
unfolding alt_advance
alt_read_into f [] n = (n, [], f)
alt_read_into f (b ∷ bs) n = elim (f.alt_read_pos == f.write_pos) [
  | true ↦ (n, b ∷ bs, f)
  | false ↦
      let (m, rest, f') = alt_read_into (alt_advance f) bs (n + 1) in
      (m, get_or f.buffer f.alt_read_pos 0 ∷ rest, f')
]

pub alt_read : Fifo → List ℕ → ℕ × List ℕ × Fifo
unfolding alt_read_into
alt_read f buffer = alt_read_into f buffer 0
