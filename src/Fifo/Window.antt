-- ===== src/Fifo/Window.antt =====
-- The bytes between two positions of the circular buffer, oldest first.
use gocanopen.Base.{
  ℕ, zero, suc, ◌+◌, ◌-◌, ◌<◌, ◌≡◌, ◌≢◌, refl, ap, sym, ◌∙◌, List, [], ◌∷◌, ◌++◌, arith, length,
  get_or, set, length-set, get_or-set_self, get_or-set_ne, ltb, if◌then◌else◌,
}
use mathlib.Core.Path.{ap₂}
use gocanopen.Fifo.{next}

-- How many steps lead from position `p` to position `w`.
abbrev pub steps : ℕ → ℕ → ℕ → ℕ
steps cap p w = if ltb w p then w + cap - p else w - p

-- The `n` bytes from position `p` on.
unfoldable pub window : List ℕ → ℕ → ℕ → List ℕ
window buf p zero = []
window buf p (suc n) = get_or buf p 0 ∷ window buf (next (length buf) p) n

pub length-window : (buf : List ℕ) (p n : ℕ) → length (window buf p n) ≡ n
unfolding window
length-window buf p zero = refl
length-window buf p (suc n) = ap suc (length-window buf (next (length buf) p) n)

pub next-lt : (cap p : ℕ) → p < cap → next cap p < cap
unfolding next
next-lt cap p h = ground arith

pub steps-lt : (cap p w : ℕ) → p < cap → w < cap → steps cap p w < cap
steps-lt cap p w h k = ground arith

-- One step on is one step less to go.
pub steps-next :
    (cap p w : ℕ) → p < cap → w < cap → p ≢ w → suc (steps cap (next cap p) w) ≡ steps cap p w
unfolding next
steps-next cap p w h k ne = ground arith

pub steps-eq_zero : (cap p w : ℕ) → p < cap → w < cap → steps cap p w ≡ 0 → p ≡ w
steps-eq_zero cap p w h k e = ground arith

pub steps_self : (cap p : ℕ) → steps cap p p ≡ 0
steps_self cap p = ground arith

-- A byte stored where the window ends makes the window longer by that byte.
pub window-set :
    (buf : List ℕ) (p w b n : ℕ)
    → p < length buf
    → w < length buf
    → steps (length buf) p w ≡ n
    → window (set buf w b) p (suc n) ≡ window buf p n ++ (b ∷ [])
unfolding window
window-set buf p w b zero h k e =
    rw (steps-eq_zero (length buf) p w h k e, get_or-set_self buf w b 0 k)
window-set buf p w b (suc n) h k e = ap₂ ◌∷◌ (get_or-set_ne buf w p b 0 apart) (
    ap (λ c. window (set buf w b) (next c p) (suc n)) (length-set buf w b)
    ∙ window-set buf (next (length buf) p) w b n (next-lt (length buf) p h) k one_less)
  where
    apart : w ≢ p
    apart q = omega (arith, q, steps_self (length buf) p, ap (steps (length buf) p) q)

    one_less : steps (length buf) (next (length buf) p) w ≡ n
    one_less = omega (arith, steps-next (length buf) p w h k (λ q. apart (sym q)))

-- A window of one byte more starts with its byte.
pub window-ne_zero :
    (buf : List ℕ) (p n : ℕ)
    → n ≢ 0
    → window buf p n ≡ get_or buf p 0 ∷ window buf (next (length buf) p) (n - 1)
unfolding window
window-ne_zero buf p zero h = absurd (h refl)
window-ne_zero buf p (suc n) h = ap (λ k. window buf p (suc k)) (omega arith)
