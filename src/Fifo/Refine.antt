-- ===== src/Fifo/Refine.antt =====
-- internal/fifo/fifo.go as a bounded queue of bytes: what `Write` and `Read` do to the bytes held.
use gocanopen.Base.{
  ==_iff, ℕ, zero, suc, ◌+◌, ◌-◌, ◌≡◌, ◌≢◌, refl, ap, sym, ◌∙◌, Bool, false, Option, none, some,
  List, [], ◌∷◌, ◌++◌, arith, min, length, take, drop, set, get_or, append-nil, append_assoc, ◌==◌,
  Bool-cases, inl, inr,
}
use mathlib.Core.Path.{ap₂}
use mathlib.Core.Option
use gocanopen.Crc.{block}
use gocanopen.Fifo.{Fifo, is_full, store, advance, write_from, write, read_into, read, crc_single}
use gocanopen.Fifo.Window.{window, window-set, window-ne_zero, length-window}
use gocanopen.Fifo.Inv.{
  occupied_none, occupied_some, space-store, IsValid, occupied, space, space-full, space-free,
  occupied-advance, store-IsValid, occupied-store, advance-IsValid,
}

-- The bytes that a fifo holds, oldest first.
abbrev pub contents : Fifo → List ℕ
contents f = window f.buffer f.read_pos (occupied f)

pub length-contents : (f : Fifo) → length (contents f) ≡ occupied f
length-contents f = length-window f.buffer f.read_pos (occupied f)

abbrev pub crc_block : Option ℕ → List ℕ → Option ℕ
crc_block none bytes = none
crc_block (some crc) bytes = some (block crc bytes)

contents-store :
    (f : Fifo) (b : ℕ)
    → IsValid f
    → is_full f ≡ false
    → contents (store f b) ≡ contents f ++ (b ∷ [])
unfolding store
contents-store f b v e =
    ap (window (set f.buffer f.write_pos b) f.read_pos) (occupied-store f b v e)
    ∙ window-set f.buffer f.read_pos f.write_pos b (occupied f) v.read_in v.write_in refl

take-nil : (n : ℕ) → take {A = ℕ} n [] ≡ []
take-nil zero = refl
take-nil (suc n) = refl

drop-nil : (n : ℕ) → drop {A = ℕ} n [] ≡ []
drop-nil zero = refl
drop-nil (suc n) = refl

take-suc : (n : ℕ) (x : ℕ) (xs : List ℕ) → n ≢ 0 → take n (x ∷ xs) ≡ x ∷ take (n - 1) xs
take-suc zero x xs h = absurd (h refl)
take-suc (suc n) x xs h = ap (λ k. x ∷ take k xs) (omega arith)

drop-suc : (n : ℕ) (x : ℕ) (xs : List ℕ) → n ≢ 0 → drop n (x ∷ xs) ≡ drop (n - 1) xs
drop-suc zero x xs h = absurd (h refl)
drop-suc (suc n) x xs h = ap (λ k. drop k xs) (omega arith)

-- What the loop of `Write` has done, started at `f` with `n` bytes written.
record Wrote (f : Fifo) (crc : Option ℕ) (bytes : List ℕ) (n : ℕ) (out : ℕ × Fifo × Option ℕ)
    : Type 0 where
  valid : IsValid out.1
  count : out.0 ≡ n + min (length bytes) (space f)
  held : contents out.1 ≡ contents f ++ take (space f) bytes
  sum : out.2 ≡ crc_block crc (take (space f) bytes)

crc_block-cons :
    (crc : Option ℕ) (b : ℕ) (bytes : List ℕ)
    → crc_block (crc_single crc b) bytes ≡ crc_block crc (b ∷ bytes)
unfolding block
crc_block-cons none b bytes = refl
crc_block-cons (some crc) b bytes = refl

crc_block-nil : (crc : Option ℕ) → crc_block crc [] ≡ crc
unfolding block
crc_block-nil none = refl
crc_block-nil (some crc) = refl

-- A round of the loop that stores a byte, and the rest of the loop.
Wrote-store :
    (f : Fifo) (crc : Option ℕ) (b : ℕ) (bs : List ℕ) (n : ℕ) (out : ℕ × Fifo × Option ℕ)
    → IsValid f
    → is_full f ≡ false
    → Wrote (store f b) (crc_single crc b) bs (n + 1) out
    → Wrote f crc (b ∷ bs) n out
Wrote-store f crc b bs n out v free w = record {
  valid = w.valid;
  count = omega (arith, w.count, less, room);
  held =
      w.held
      ∙ ap₂ ◌++◌ (contents-store f b v free) (ap (λ k. take k bs) less)
      ∙ append_assoc (contents f) (b ∷ []) (take (space f - 1) bs)
      ∙ ap (◌++◌ (contents f)) (sym (take-suc (space f) b bs room));
  sum =
      w.sum
      ∙ ap (λ k. crc_block (crc_single crc b) (take k bs)) less
      ∙ crc_block-cons crc b (take (space f - 1) bs)
      ∙ ap (crc_block crc) (sym (take-suc (space f) b bs room));
}
  where
    room : space f ≢ 0
    room = space-free f v free

    less : space (store f b) ≡ space f - 1
    less = space-store f b v free

write_from-Wrote :
    (bytes : List ℕ) (f : Fifo) (crc : Option ℕ) (n : ℕ)
    → IsValid f
    → Wrote f crc bytes n (write_from f crc bytes n)
unfolding write_from
write_from-Wrote [] f crc n v = record {
  valid = v;
  count = omega arith;
  held = rw (take-nil (space f), append-nil);
  sum = rw (take-nil (space f), crc_block-nil crc);
}
write_from-Wrote (b ∷ bs) f crc n v = elim (Bool-cases (is_full f)) [
  | inl full ↦
      let none_left = space-full f v full in
      rw (full, write_from)
        (record {
          valid = v;
          count = omega arith;
          held = rw (none_left, append-nil);
          sum = rw (none_left, crc_block-nil crc);
        })
  | inr free ↦
      rw (free, write_from)
        (Wrote-store f crc b bs n _ v free
          (write_from-Wrote bs (store f b) (crc_single crc b) (n + 1) (store-IsValid f b v)))
]

-- In a valid fifo `Write` takes as many bytes as there is room for, returns their number, appends
-- exactly those in order, runs the CRC over exactly those, and keeps the fifo valid.
pub write_lem :
    (f : Fifo) (bytes : List ℕ) (crc : Option ℕ)
    → IsValid f
    → let (n, f', crc') = write f bytes crc in
      (n ≡ min (length bytes) (space f))
      × (contents f' ≡ contents f ++ take (space f) bytes)
      × (crc' ≡ crc_block crc (take (space f) bytes))
      × IsValid f'
unfolding write
write_lem f bytes crc v = (omega (arith, w.count), w.held, w.sum, w.valid)
  where
    w : Wrote f crc bytes 0 (write_from f crc bytes 0)
    w = write_from-Wrote bytes f crc 0 v

-- What the loop of `Read` has done, started at `f` with `n` bytes read into a slice.
record HasRead (f : Fifo) (buffer : List ℕ) (n : ℕ) (out : ℕ × List ℕ × Fifo) : Type 0 where
  valid : IsValid out.2
  count : out.0 ≡ n + min (length buffer) (occupied f)
  filled : out.1 ≡ take (length buffer) (contents f) ++ drop (occupied f) buffer
  held : contents out.2 ≡ drop (length buffer) (contents f)

contents-advance :
    (f : Fifo)
    → IsValid f
    → f.read_pos ≢ f.write_pos
    → contents f ≡ get_or f.buffer f.read_pos 0 ∷ contents (advance f)
unfolding advance
contents-advance f v ne =
    window-ne_zero f.buffer f.read_pos (occupied f) (occupied_some f v ne)
    ∙ ap (λ k. get_or f.buffer f.read_pos 0 ∷ window f.buffer (advance f).read_pos k)
        (omega (arith, occupied-advance f v ne))

HasRead-empty :
    (f : Fifo) (buffer : List ℕ) (n : ℕ)
    → IsValid f
    → f.read_pos ≡ f.write_pos
    → HasRead f buffer n (n, buffer, f)
unfolding window
HasRead-empty f buffer n v e = record {
  valid = v;
  count = omega (arith, occupied_none f e);
  filled = rw (occupied_none f e, take-nil (length buffer));
  held = rw (occupied_none f e, drop-nil (length buffer));
}

-- A round of the loop that reads a byte, and the rest of the loop.
HasRead-advance :
    (f : Fifo) (b : ℕ) (bs : List ℕ) (n m : ℕ) (rest : List ℕ) (f' : Fifo)
    → IsValid f
    → f.read_pos ≢ f.write_pos
    → HasRead (advance f) bs (n + 1) (m, rest, f')
    → HasRead f (b ∷ bs) n (m, get_or f.buffer f.read_pos 0 ∷ rest, f')
HasRead-advance f b bs n m rest f' v ne r = record {
  valid = r.valid;
  count = omega (arith, r.count, occupied-advance f v ne);
  filled =
      rw (contents-advance f v ne, ← occupied-advance f v ne)
        (ap (◌∷◌ (get_or f.buffer f.read_pos 0)) r.filled);
  held = rw (contents-advance f v ne) r.held;
}

read_into-HasRead :
    (buffer : List ℕ) (f : Fifo) (n : ℕ) → IsValid f → HasRead f buffer n (read_into f buffer n)
unfolding read_into
read_into-HasRead [] f n v = record {
  valid = v;
  count = omega arith;
  filled = sym (drop-nil (occupied f));
  held = refl;
}
read_into-HasRead (b ∷ bs) f n v = elim (Bool-cases (f.read_pos == f.write_pos)) [
  | inl empty ↦ rw (empty, read_into) (HasRead-empty f (b ∷ bs) n v ((==_iff _ _).0 empty))
  | inr more ↦
      rw (more, read_into)
        (HasRead-advance f b bs n _ _ _ v (λ e. cc ((==_iff _ _).1 e))
          (read_into-HasRead bs (advance f) (n + 1) (advance-IsValid f v)))
]

-- In a valid fifo `Read` fills the start of the slice with the oldest bytes, returns how many,
-- leaves the rest of the slice alone, takes those bytes out of the fifo, clears the flag behind
-- `eof`, and keeps the fifo valid.
pub read_lem :
    (f : Fifo) (buffer : List ℕ) (eof : Option Bool)
    → IsValid f
    → let (n, filled, eof', f') = read f (some buffer) eof in
      (n ≡ min (length buffer) (occupied f))
      × (filled ≡ some (take (length buffer) (contents f) ++ drop (occupied f) buffer))
      × (contents f' ≡ drop (length buffer) (contents f))
      × (eof' ≡ Option.map (λ _. false) eof)
      × IsValid f'
unfolding read
read_lem f buffer eof v = elim (Bool-cases (f.read_pos == f.write_pos)) [
  | inl empty ↦
      let r = HasRead-empty f buffer 0 v ((==_iff _ _).0 empty) in
      rw (empty, read) (omega (arith, r.count), ap some r.filled, r.held, refl, r.valid)
  | inr more ↦
      let r = read_into-HasRead buffer f 0 v in
      rw (more, read) (omega (arith, r.count), ap some r.filled, r.held, refl, r.valid)
]
