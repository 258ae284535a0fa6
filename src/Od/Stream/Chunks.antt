-- ===== src/Od/Stream/Chunks.antt =====
-- pkg/od/streamer.go: the first call of a transfer in several calls. The offset is moved on before
-- the bytes are copied, so the call handles the second chunk of the data and not the first.
use gocanopen.Base.{
  ◌||◌, false, inr, leb→le, inl, Bool-cases, ℕ, ◌+◌, ◌-◌, ◌*◌, ◌<◌, ◌≤◌, ◌≡◌, refl, ap, ◌∙◌, some,
  List, ◌++◌, length, take, drop, take_all, drop_all, length-take, length-drop, append-nil, arith,
  ltb, leb, if◌then◌else◌, u16, u32,
}
use gocanopen.Od.Errors.{partial, data_long, done, panicked}
use gocanopen.Od.Stream.{copy_out, copy_in, copied, Stream, read_entry_default, write_entry_default}
use gocanopen.Od.Stream.Whole.{IsOpened}

-- The bytes of a slice that are copied when there are enough of them.
drop_enough : (n : ℕ) (xs : List ℕ) → n + n ≤ length xs → length (take n (drop n xs)) ≡ n
drop_enough n xs h = omega (arith, length-take n (drop n xs), length-drop n xs)

copied_enough : (xs ys : List ℕ) → length xs ≡ length ys → copied xs ys ≡ xs
unfolding copied
copied_enough xs ys e = ground (
  arith,
  take_all (length ys) xs (omega arith),
  drop_all (length xs) ys (omega arith),
  append-nil xs,
)

-- Both chunks start at the length of the slice once the offset is moved.
copy_out_moved :
    (s : Stream) (data' : List ℕ)
    → s.data_offset ≡ length data'
    → length data' < 2147483648
    → copy_out s data' (length data') (some partial) ≡ (
        if leb (2 * length data') (length (s.bytes ++ s.spare))
        then done (record {
          stream = s;
          filled = take (length data') (drop (length data') (s.bytes ++ s.spare));
          count = u16 (length data');
          err = some partial;
        })
        else panicked)
unfolding copy_out
copy_out_moved s data' e small =
    elim (Bool-cases (leb (2 * length data') (length (s.bytes ++ s.spare)))) [
      | inl fits ↦
          let enough : length data' + length data' ≤ length (s.bytes ++ s.spare) =
            omega (arith, leb→le _ _ fits) in
          let inside : ltb (length (s.bytes ++ s.spare)) (u32 (s.data_offset + length data'))
                || ltb (u32 (s.data_offset + length data')) s.data_offset
              ≡ false =
            ground arith in
          rw (fits, inside, copy_out)
            (ap
              (λ (bytes : List ℕ). done (record {
                stream = s;
                filled = bytes;
                count = u16 (length data');
                err = some partial;
              }))
              (ap (λ (x : List ℕ). copied x data') slice
                ∙ copied_enough (take (length data') (drop (length data') (s.bytes ++ s.spare)))
                    data' (drop_enough (length data') (s.bytes ++ s.spare) enough)))
      | inr over ↦ ground arith
    ]
  where
    width : u32 (s.data_offset + length data') - s.data_offset ≡ length data'
    width = omega arith

    slice :
        take
          (u32 (s.data_offset + length data') - s.data_offset)
          (drop s.data_offset (s.bytes ++ s.spare))
        ≡ take (length data') (drop (length data') (s.bytes ++ s.spare))
    slice = rw (width, e)

-- From a stream just opened, a slice that is not empty and shorter than the variable is filled
-- with the bytes behind its own length, or the call panics where the array ends before twice its
-- length.
pub read_first_chunk :
    (s : Stream) (data' : List ℕ)
    → IsOpened s
    → 0 < length data'
    → length data' < length s.bytes
    → length data' < 2147483648
    → read_entry_default s data' ≡ (
        if leb (2 * length data') (length (s.bytes ++ s.spare))
        then done (record {
          stream = record s { data_offset = length data' };
          filled = take (length data') (drop (length data') (s.bytes ++ s.spare));
          count = u16 (length data');
          err = some partial;
        })
        else panicked)
unfolding read_entry_default
read_first_chunk s data' o some_room shorter small =
    let moved : u32 (s.data_offset + length data') ≡ length data' = omega arith in
    ground (arith, moved, copy_out_moved (record s { data_offset = length data' }) data' refl small)

-- Fewer bytes than the variable has are stored behind their own number, where they fit, and the
-- start of the variable keeps its old bytes; otherwise the call fails, with the offset moved.
write_first_chunk :
    (s : Stream) (data' : List ℕ)
    → IsOpened s
    → 0 < length data'
    → length data' < length s.bytes
    → length data' < 2147483648
    → write_entry_default s data' ≡ (
        if leb (2 * length data') (length s.bytes)
        then done (record {
          stream = record s {
            bytes = take (length data') s.bytes ++ (data' ++ drop (2 * length data') s.bytes);
            data_offset = length data';
          };
          count = u16 (length data');
          err = some partial;
        })
        else done (record {
          stream = record s { data_offset = length data' };
          count = 0;
          err = some data_long;
        }))
unfolding write_entry_default copy_in
write_first_chunk s data' o some_room shorter small =
    let moved : u32 (s.data_offset + length data') ≡ length data' = omega arith in
    let doubled : length data' + length data' ≡ 2 * length data' = omega arith in
    ground (arith, take_all (length data') data' (omega arith), moved, doubled)
