-- ===== src/Sdo/Server/Process/Header.antt =====
-- pkg/sdo/download_segmented.go: the first byte of a segment.
use gocanopen.Base.{
  ℕ, zero, suc, ◌+◌, ◌-◌, ◌*◌, ◌/◌, ◌≤◌, ◌≡◌, refl, ap, Bool, true, false, List, [], ◌∷◌, ◌++◌,
  length, take, ◌==◌, arith, bit_and, has_bits, replicate,
}
use gocanopen.Sdo.Server.Upload.{padded}

abbrev pub toggle_bit : Bool → ℕ
toggle_bit false = 0
toggle_bit true = 0x10

-- What the server reads in the first byte of a segment of `n` bytes.
pub record Reads (header n : ℕ) (b last : Bool) : Type 0 where
  pub end : has_bits header 0x01 ≡ last
  pub segment : has_bits header 0xe0 ≡ false
  pub toggle : bit_and header 0x10 ≡ toggle_bit b
  pub count : 7 - bit_and (header / 2) 0x07 ≡ n
  pub no_abort : (header == 0x80) ≡ false

all_read :
    (header n : ℕ) (b last : Bool)
    → has_bits header 0x01 ≡ last
    → has_bits header 0xe0 ≡ false
    → bit_and header 0x10 ≡ toggle_bit b
    → 7 - bit_and (header / 2) 0x07 ≡ n
    → (header == 0x80) ≡ false
    → Reads header n b last
all_read header n b last end segment toggle count no_abort = record {
  end = end;
  segment = segment;
  toggle = toggle;
  count = count;
  no_abort = no_abort;
}

pub middle-Reads : (b : Bool) → Reads (toggle_bit b) 7 b false
middle-Reads false = all_read 0 7 false false refl refl refl refl refl
middle-Reads true = all_read 16 7 true false refl refl refl refl refl

abbrev pub last_header : Bool → ℕ → ℕ
last_header b n = toggle_bit b + (2 * (7 - n) + 1)

pub last-Reads : (b : Bool) (n : ℕ) → (1 ≤ n) × (n ≤ 7) → Reads (last_header b n) n b true
last-Reads false zero size = absurd (omega arith)
last-Reads false (suc zero) size = all_read 13 1 false true refl refl refl refl refl
last-Reads false (suc (suc zero)) size = all_read 11 2 false true refl refl refl refl refl
last-Reads false (suc (suc (suc zero))) size = all_read 9 3 false true refl refl refl refl refl
last-Reads false (suc (suc (suc (suc zero)))) size =
    all_read 7 4 false true refl refl refl refl refl
last-Reads false (suc (suc (suc (suc (suc zero))))) size =
    all_read 5 5 false true refl refl refl refl refl
last-Reads false (suc (suc (suc (suc (suc (suc zero)))))) size =
    all_read 3 6 false true refl refl refl refl refl
last-Reads false (suc (suc (suc (suc (suc (suc (suc zero))))))) size =
    all_read 1 7 false true refl refl refl refl refl
last-Reads false (suc (suc (suc (suc (suc (suc (suc (suc n)))))))) size = absurd (omega arith)
last-Reads true zero size = absurd (omega arith)
last-Reads true (suc zero) size = all_read 29 1 true true refl refl refl refl refl
last-Reads true (suc (suc zero)) size = all_read 27 2 true true refl refl refl refl refl
last-Reads true (suc (suc (suc zero))) size = all_read 25 3 true true refl refl refl refl refl
last-Reads true (suc (suc (suc (suc zero)))) size = all_read 23 4 true true refl refl refl refl refl
last-Reads true (suc (suc (suc (suc (suc zero))))) size =
    all_read 21 5 true true refl refl refl refl refl
last-Reads true (suc (suc (suc (suc (suc (suc zero)))))) size =
    all_read 19 6 true true refl refl refl refl refl
last-Reads true (suc (suc (suc (suc (suc (suc (suc zero))))))) size =
    all_read 17 7 true true refl refl refl refl refl
last-Reads true (suc (suc (suc (suc (suc (suc (suc (suc n)))))))) size = absurd (omega arith)

take-take : (xs ys : List ℕ) (n : ℕ) → length xs ≤ n → take (length xs) (take n (xs ++ ys)) ≡ xs
take-take [] ys n h = refl
take-take (x ∷ xs) ys zero h = absurd (omega arith)
take-take (x ∷ xs) ys (suc n) h = ap (◌∷◌ x) (take-take xs ys n (omega arith))

pub take-padded : (chunk : List ℕ) → length chunk ≤ 7 → take (length chunk) (padded 7 chunk) ≡ chunk
take-padded chunk size = take-take chunk (replicate 7 0) 7 size
