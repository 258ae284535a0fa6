-- ===== src/Base/Masks.antt =====
-- Masks of some high bits.
use Prim.Native.Nat.{ℕ, zero, suc, ◌+◌, ◌*◌, ◌/◌, ◌^◌, ◌≤◌, ◌<◌}
use Prim.Native.Nat.{bit_and, bit_or}
use mathlib.Core.Path.{◌∙◌, ◌≡◌, refl, ap}
use native.Mathlib.Nat.{div-eq_of_lt, div-one}
use native.Mathlib.Omega.{arith}
use gocanopen.Base.Bits.{bit_and_step, bit_or_step, bit_and-zero, two_pow-suc, div-two_pow-suc}

-- An or and an and together have the digits of both numbers.
or_and_below : (n a b : ℕ) → a ≤ n → b ≤ n → bit_or a b + bit_and a b ≡ a + b
or_and_below zero zero zero p q = refl
or_and_below zero zero (suc b) p q = absurd (omega arith)
or_and_below zero (suc a) b p q = absurd (omega arith)
or_and_below (suc n) a b p q = omega (
  arith,
  bit_or_step a b,
  bit_and_step a b,
  or_and_below n (a / 2) (b / 2) (omega arith) (omega arith),
)

pub or_and : (a b : ℕ) → bit_or a b + bit_and a b ≡ a + b
or_and a b = or_and_below (a + b) a b (omega arith) (omega arith)

bit_and_comm_below : (n a b : ℕ) → a ≤ n → b ≤ n → bit_and a b ≡ bit_and b a
bit_and_comm_below zero zero zero p q = refl
bit_and_comm_below zero zero (suc b) p q = absurd (omega arith)
bit_and_comm_below zero (suc a) b p q = absurd (omega arith)
bit_and_comm_below (suc n) a b p q = omega (
  arith,
  bit_and_step b a,
  bit_and_step a b,
  bit_and_comm_below n (a / 2) (b / 2) (omega arith) (omega arith),
)

pub bit_and_comm : (a b : ℕ) → bit_and a b ≡ bit_and b a
bit_and_comm a b = bit_and_comm_below (a + b) a b (omega arith) (omega arith)

-- A mask without its k low digits.
pub bit_and-shifted : (k a m : ℕ) → bit_and a (2 ^ k * m) ≡ 2 ^ k * bit_and (a / 2 ^ k) m
bit_and-shifted zero a m =
    let e : 1 * m ≡ m = omega arith in
    let d : a / 1 ≡ a = div-one a in
    let f : 1 * bit_and a m ≡ bit_and a m = omega arith in rw (e, d, f) refl
bit_and-shifted (suc k) a m =
    let rest = bit_and (a / 2 / 2 ^ k) m in
    let mask : 2 ^ suc k * m ≡ 2 * (2 ^ k * m) = omega (arith, ap (λ t. t * m) (two_pow-suc k)) in
    let product : 2 ^ suc k * rest ≡ 2 * (2 ^ k * rest) =
      omega (arith, ap (λ t. t * rest) (two_pow-suc k)) in
    let half : 2 * (2 ^ k * m) / 2 ≡ 2 ^ k * m = omega arith in
    let step = rw half at (bit_and_step a (2 * (2 ^ k * m))) in
    rw (mask, div-two_pow-suc a k, product) (omega (arith, step, bit_and-shifted k (a / 2) m))

-- A number below 2 ^ k has no digit in common with a multiple of it.
pub bit_or-disjoint : (k h p : ℕ) → p < 2 ^ k → bit_or (2 ^ k * h) p ≡ 2 ^ k * h + p
bit_or-disjoint k h p small =
    let e : bit_and p (2 ^ k * h) ≡ 0 =
      rw (bit_and-shifted k p h, div-eq_of_lt small, bit_and_comm 0 h, bit_and-zero h)
        (omega arith) in
    omega (arith, or_and (2 ^ k * h) p, bit_and_comm (2 ^ k * h) p, e)

bit_and-bit_or_below : (n a m k : ℕ) → a ≤ n → bit_and a k ≤ bit_and (bit_or a m) k
bit_and-bit_or_below zero a m k small =
    let e : a ≡ 0 = omega (arith, small) in
    let z : bit_and a k ≡ 0 = rw e (bit_and_comm 0 k ∙ bit_and-zero k) in omega (arith, z)
bit_and-bit_or_below (suc n) a m k small =
    let rest = bit_and-bit_or_below n (a / 2) (m / 2) (k / 2) (omega (arith, small)) in
    let or = bit_or_step a m in
    let half : bit_or a m / 2 ≡ bit_or (a / 2) (m / 2) = omega (arith, or) in
    let next : bit_and (bit_or a m / 2) (k / 2) ≡ bit_and (bit_or (a / 2) (m / 2)) (k / 2) =
      ap (λ x. bit_and x (k / 2)) half in
    omega (arith, or, half, next, rest, bit_and_step a k, bit_and_step (bit_or a m) k)

-- More bits leave no bit of a mask clear that was set.
pub bit_and-bit_or : (a m k : ℕ) → bit_and a k ≤ bit_and (bit_or a m) k
bit_and-bit_or a m k = bit_and-bit_or_below a a m k (omega arith)
