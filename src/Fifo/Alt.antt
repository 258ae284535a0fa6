-- ===== src/Fifo/Alt.antt =====
-- internal/fifo/fifo.go: the second read position, by which a sub-block is sent again or confirmed.
use gocanopen.Base.{
  ℕ, zero, suc, ◌+◌, ◌≤◌, ◌≡◌, ◌≢◌, refl, ap, sym, ◌∙◌, false, Option, none, some, arith, min,
  length, get_or, ◌==◌, ==_iff, Bool-cases, inl, inr,
}
use gocanopen.Crc.{single, block}
use gocanopen.Fifo.{
  Fifo, advance, alt_advance, alt_begin_from, alt_begin, alt_finish_loop, alt_finish,
}
use gocanopen.Fifo.Window.{steps, window, steps-eq_zero, steps-next, steps-lt}
use gocanopen.Fifo.Inv.{IsValid, occupied, advance-IsValid}

-- The bytes from the read position up to the second one.
abbrev pub pending : Fifo → ℕ
pending f = steps (length f.buffer) f.read_pos f.alt_read_pos

apart_of_test : (a b : ℕ) → (a == b) ≡ false → a ≢ b
apart_of_test a b h = ground arith

pending_none : (f : Fifo) → f.read_pos ≡ f.alt_read_pos → pending f ≡ 0
pending_none f e = ground arith

steps_bound : (f : Fifo) → IsValid f → pending f ≤ length f.buffer
steps_bound f v =
    omega (arith, steps-lt (length f.buffer) f.read_pos f.alt_read_pos v.read_in v.alt_in)

finish_here :
    (f : Fifo) (crc : ℕ)
    → f.read_pos ≡ f.alt_read_pos
    → ◌≡◌ {A = Option (Fifo × ℕ)} (some (f, crc)) (
        some (
          record f { read_pos = f.alt_read_pos },
          block crc (window f.buffer f.read_pos (pending f)),
        ))
unfolding window block
finish_here f crc e = λ i. some (record f { read_pos = e i }, nothing i)
  where
    nothing : crc ≡ block crc (window f.buffer f.read_pos (pending f))
    nothing = ap (λ k. block crc (window f.buffer f.read_pos k)) (sym (pending_none f e))

alt_finish_loop_lem :
    (fuel : ℕ) (f : Fifo) (crc : ℕ)
    → IsValid f
    → pending f ≤ fuel
    → alt_finish_loop fuel f crc
      ≡ some (
        record f { read_pos = f.alt_read_pos },
        block crc (window f.buffer f.read_pos (pending f)),
      )
unfolding alt_finish_loop block window
alt_finish_loop_lem zero f crc v h =
    let e =
      steps-eq_zero (length f.buffer) f.read_pos f.alt_read_pos v.read_in v.alt_in (omega arith) in
    rw ((==_iff _ _).1 e) (finish_here f crc e)
alt_finish_loop_lem (suc fuel) f crc v h = elim (Bool-cases (f.read_pos == f.alt_read_pos)) [
  | inl e ↦ rw (e, alt_finish_loop) (finish_here f crc ((==_iff _ _).0 e))
  | inr e ↦
      let one_less =
        steps-next (length f.buffer) f.read_pos f.alt_read_pos v.read_in v.alt_in
          (apart_of_test _ _ e) in
      rw (e, alt_finish_loop)
        (alt_finish_loop_lem fuel (advance f) (single crc (get_or f.buffer f.read_pos 0))
            (advance-IsValid f v) (omega (arith, one_less))
          ∙ ap
              (λ k.
                some (
                  record f { read_pos = f.alt_read_pos },
                  block crc (window f.buffer f.read_pos k),
                ))
              one_less)
]

-- `AltFinish` always ends, and leaves the same fifo with a CRC as without: the read position moves
-- to the second one, and the CRC runs over exactly the bytes in between.
pub alt_finish_lem :
    (f : Fifo) (crc : ℕ)
    → IsValid f
    → let f' = record f { read_pos = f.alt_read_pos } in
      (alt_finish f none ≡ some (f', none))
      × (alt_finish f (some crc)
          ≡ some (f', some (block crc (window f.buffer f.read_pos (pending f)))))
      × IsValid f'
unfolding alt_finish
alt_finish_lem f crc v = (
  refl,
  rw (alt_finish_loop_lem (length f.buffer) f crc v (steps_bound f v), alt_finish),
  omega arith,
)

alt_advance-IsValid : (f : Fifo) → IsValid f → IsValid (alt_advance f)
unfolding alt_advance
alt_advance-IsValid f v = ground arith

-- The second position stands between the two others.
abbrev Between : Fifo → Type 0
Between f = pending f + steps (length f.buffer) f.alt_read_pos f.write_pos ≡ occupied f

alt_advance_lem :
    (f : Fifo)
    → IsValid f
    → Between f
    → f.alt_read_pos ≢ f.write_pos
    → (pending (alt_advance f) ≡ suc (pending f)) × Between (alt_advance f)
unfolding alt_advance
alt_advance_lem f v b ne = ground arith

alt_begin_from_lem :
    (i : ℕ) (f : Fifo)
    → IsValid f
    → Between f
    → let (j, f') = alt_begin_from f i in
      (j ≤ i)
      × (pending f' + j ≡ pending f + i)
      × (pending f' ≡ min (pending f + i) (occupied f))
      × (f' ≡ record f { alt_read_pos = f'.alt_read_pos })
      × IsValid f'
unfolding alt_begin_from
alt_begin_from_lem zero f v b = (omega arith, omega arith, omega arith, refl, v)
alt_begin_from_lem (suc i) f v b = elim (Bool-cases (f.alt_read_pos == f.write_pos)) [
  | inl e ↦
      let met = steps_self_at f ((==_iff _ _).0 e) in
      rw (e, alt_begin_from) (omega arith, omega arith, omega (arith, met), refl, v)
  | inr e ↦
      let step = alt_advance_lem f v b (apart_of_test _ _ e) in
      let rest = alt_begin_from_lem i (alt_advance f) (alt_advance-IsValid f v) step.1 in
      rw (e, alt_begin_from)
        (
          omega (arith, rest.0),
          omega (arith, rest.1, step.0),
          omega (arith, rest.2, step.0),
          rest.3,
          rest.4,
        )
]
  where
    steps_self_at :
        (g : Fifo)
        → g.alt_read_pos ≡ g.write_pos
        → steps (length g.buffer) g.alt_read_pos g.write_pos ≡ 0
    steps_self_at g e = ground arith

-- `AltBegin` moves the second position past as many of the held bytes as asked, returns how many,
-- and changes nothing else.
alt_begin_lem :
    (f : Fifo) (offset : ℕ)
    → IsValid f
    → let (n, f') = alt_begin f offset in
      (n ≡ min offset (occupied f))
      × (pending f' ≡ min offset (occupied f))
      × (f' ≡ record f { alt_read_pos = f'.alt_read_pos })
      × IsValid f'
unfolding alt_begin
alt_begin_lem f offset v =
    let begun : Fifo = record f { alt_read_pos = f.read_pos } in
    let start : pending begun ≡ 0 = pending_none begun refl in
    let between : Between begun = omega (arith, start) in
    let valid : IsValid begun = omega arith in
    let r = alt_begin_from_lem offset begun valid between in
    (omega (arith, r.0, r.1, r.2, start), omega (arith, r.2, start), r.3, r.4)

-- `AltBegin` and then `AltFinish` take out exactly the confirmed bytes, and sum exactly those.
pub alt_finish-alt_begin :
    (f : Fifo) (offset crc : ℕ)
    → IsValid f
    → let f' = (alt_begin f offset).1 in
      alt_finish f' (some crc)
      ≡ some (
        record f { read_pos = f'.alt_read_pos; alt_read_pos = f'.alt_read_pos },
        some (block crc (window f.buffer f.read_pos (min offset (occupied f)))),
      )
alt_finish-alt_begin f offset crc v =
    let begun = alt_begin_lem f offset v in
    (alt_finish_lem (alt_begin f offset).1 crc begun.3).1 ∙ λ i. some (
      record (begun.2 i) { read_pos = (begun.2 i).alt_read_pos },
      some (block crc (window (begun.2 i).buffer (begun.2 i).read_pos (begun.1 i))),
    )
