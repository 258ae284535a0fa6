-- ===== src/Fifo/Tests.antt =====
-- Concrete runs of internal/fifo/fifo.go, and the theorems at concrete inputs.
use gocanopen.Base.{◌≡◌, refl, true, false, none, some, [], ◌∷◌, ◌++◌, arith, take, drop}
use gocanopen.Crc.{block}
use gocanopen.Fifo.{Fifo, next, write, read, alt_begin, alt_finish}
use gocanopen.Fifo.Window.{window}
use gocanopen.Fifo.Inv.{IsValid}
use gocanopen.Fifo.Refine.{contents, write_lem, read_lem}
use gocanopen.Fifo.Alt.{alt_finish_lem, alt_finish-alt_begin}

-- 7 and 8 stand round the end of a buffer of four places.
abbrev around : Fifo
around = record {
  buffer = 8 ∷ 0 ∷ 0 ∷ 7 ∷ [];
  write_pos = 1;
  read_pos = 3;
  alt_read_pos = 0;
  started = false;
  aux = 0;
}

abbrev nothing_held : Fifo
nothing_held = record around { read_pos = 1 }

around-IsValid : IsValid around
around-IsValid = omega arith

nothing_held-IsValid : IsValid nothing_held
nothing_held-IsValid = omega arith

around-contents : contents around ≡ 7 ∷ 8 ∷ []
unfolding window next
around-contents = refl

write_stops_when_full : (write around (1 ∷ 2 ∷ []) none).0 ≡ 1
unfolding write
write_stops_when_full = refl

write_lem_example :
    let (n, f', crc') = write around (1 ∷ 2 ∷ []) (some 0) in
    (n ≡ 1)
    × (contents f' ≡ contents around ++ (1 ∷ []))
    × (crc' ≡ some (block 0 (1 ∷ [])))
    × IsValid f'
write_lem_example = write_lem around (1 ∷ 2 ∷ []) (some 0) around-IsValid

read_lem_example :
    let (n, filled, eof', f') = read around (some (0 ∷ 0 ∷ 0 ∷ [])) (some true) in
    (n ≡ 2)
    × (filled ≡ some (take 3 (contents around) ++ (0 ∷ [])))
    × (contents f' ≡ drop 3 (contents around))
    × (eof' ≡ some false)
    × IsValid f'
read_lem_example = read_lem around (0 ∷ 0 ∷ 0 ∷ []) (some true) around-IsValid

alt_finish_lem_example :
    (alt_finish around none ≡ some (record around { read_pos = 0 }, none))
    × (alt_finish around (some 5)
        ≡ some (record around { read_pos = 0 }, some (block 5 (window around.buffer 3 1))))
    × IsValid (record around { read_pos = 0 })
alt_finish_lem_example = alt_finish_lem around 5 around-IsValid

alt_finish-alt_begin_example :
    let f' = (alt_begin around 1).1 in
    alt_finish f' (some 0)
    ≡ some (
      record around { read_pos = f'.alt_read_pos; alt_read_pos = f'.alt_read_pos },
      some (block 0 (window around.buffer 3 1)),
    )
alt_finish-alt_begin_example = alt_finish-alt_begin around 1 0 around-IsValid
