-- ===== src/Base/Bits.antt =====
-- Laws of the bit operations at variables. The prelude defines them by a digit recursion with fuel;
-- `*_step` is that recursion with the fuel gone, and every other law follows from it.
use Prim.Native.Nat.{max, differ, digits, bitwise, bit_and-bitwise, bit_or-bitwise, bit_xor-bitwise}
use Prim.Native.Nat.{ℕ, zero, suc, ◌+◌, ◌-◌, ◌*◌, ◌/◌, ◌%◌, ◌^◌, ◌≤◌, ◌<◌, min}
use Prim.Native.Nat.{bit_and, bit_or, bit_xor}
use mathlib.Core.Path.{◌≡◌, refl, ap}
use native.Mathlib.Nat.{
  pow-suc, one-le-pow, div-div-eq-div-mul, div-add-mod, div-one, div-eq_of_lt, div-lt_iff_lt-mul,
}
use native.Mathlib.Omega.{arith}

module _ (last : ℕ → ℕ) (op : ℕ → ℕ → ℕ) where
  -- Any fuel from the first number up gives the same digits.
  digits_enough : (n m a b : ℕ) → a ≤ n → a ≤ m → digits last op n a b ≡ digits last op m a b
  digits_enough zero zero a b p q = refl
  digits_enough zero (suc m) zero b p q = refl
  digits_enough zero (suc m) (suc a) b p q = absurd (omega arith)
  digits_enough (suc n) zero zero b p q = refl
  digits_enough (suc n) zero (suc a) b p q = absurd (omega arith)
  digits_enough (suc n) (suc m) zero b p q = refl
  digits_enough (suc n) (suc m) (suc a) b p q =
      omega (arith, digits_enough n m (suc a / 2) (b / 2) (omega arith) (omega arith))

  bitwise_step :
      (a b : ℕ)
      → bitwise last op (suc a) b ≡ bitwise last op (suc a / 2) (b / 2) * 2 + op (suc a % 2) (b % 2)
  bitwise_step a b =
      omega (arith, digits_enough a (suc a / 2) (suc a / 2) (b / 2) (omega arith) (omega arith))

pub bit_and_step : (a b : ℕ) → bit_and a b ≡ min (a % 2) (b % 2) + 2 * bit_and (a / 2) (b / 2)
bit_and_step zero b = omega (arith, bit_and-bitwise 0 b, bit_and-bitwise 0 (b / 2))
bit_and_step (suc a) b = omega (
  arith,
  bitwise_step (λ y. 0) min a b,
  bit_and-bitwise (suc a) b,
  bit_and-bitwise (suc a / 2) (b / 2),
)

pub bit_or_step : (a b : ℕ) → bit_or a b ≡ max (a % 2) (b % 2) + 2 * bit_or (a / 2) (b / 2)
bit_or_step zero b = omega (arith, bit_or-bitwise 0 b, bit_or-bitwise 0 (b / 2))
bit_or_step (suc a) b = omega (
  arith,
  bitwise_step (λ y. y) max a b,
  bit_or-bitwise (suc a) b,
  bit_or-bitwise (suc a / 2) (b / 2),
)

differ_digits : (x y : ℕ) → x < 2 → y < 2 → differ x y ≡ (x + y) % 2
differ_digits zero y p q = omega arith
differ_digits (suc zero) zero p q = refl
differ_digits (suc zero) (suc zero) p q = refl
differ_digits (suc zero) (suc (suc y)) p q = absurd (omega arith)
differ_digits (suc (suc x)) y p q = absurd (omega arith)

pub bit_xor_step : (a b : ℕ) → bit_xor a b ≡ bit_xor (a / 2) (b / 2) * 2 + (a % 2 + b % 2) % 2
bit_xor_step zero b = omega (arith, bit_xor-bitwise 0 b, bit_xor-bitwise 0 (b / 2))
bit_xor_step (suc a) b = omega (
  arith,
  bitwise_step (λ y. y) differ a b,
  bit_xor-bitwise (suc a) b,
  bit_xor-bitwise (suc a / 2) (b / 2),
  differ_digits (suc a % 2) (b % 2) (omega arith) (omega arith),
)

pub two_pow-suc : (k : ℕ) → 2 ^ suc k ≡ 2 * 2 ^ k
two_pow-suc k = omega (arith, pow-suc 2 k)

pub div-two_pow-suc : (a k : ℕ) → a / 2 ^ suc k ≡ a / 2 / 2 ^ k
div-two_pow-suc a k = rw (two_pow-suc k) (omega (arith, div-div-eq-div-mul a 2 (2 ^ k)))

mod-two_pow-suc : (a k : ℕ) → a % 2 ^ suc k ≡ a / 2 % 2 ^ k * 2 + a % 2
mod-two_pow-suc a k = omega (
  arith,
  div-add-mod a (2 ^ suc k),
  div-add-mod (a / 2) (2 ^ k),
  ap (λ (t : ℕ). t * (a / 2 ^ suc k)) (two_pow-suc k),
  ap (λ (t : ℕ). 2 ^ k * t) (div-two_pow-suc a k),
)

-- Dropping k digits goes through an exclusive or.
pub bit_xor-div : (k a b : ℕ) → bit_xor a b / 2 ^ k ≡ bit_xor (a / 2 ^ k) (b / 2 ^ k)
bit_xor-div zero a b = rw (div-one, div-one, div-one)
bit_xor-div (suc k) a b =
    rw (div-two_pow-suc, div-two_pow-suc, div-two_pow-suc, half) (bit_xor-div k (a / 2) (b / 2))
  where
    half : bit_xor a b / 2 ≡ bit_xor (a / 2) (b / 2)
    half = omega (arith, bit_xor_step a b)

-- The k digits below a multiple of 2 ^ k are left alone by an exclusive or with it.
pub bit_xor-mod : (k a b : ℕ) → b % 2 ^ k ≡ 0 → bit_xor a b % 2 ^ k ≡ a % 2 ^ k
bit_xor-mod zero a b h = omega arith
bit_xor-mod (suc k) a b h = omega (
  arith,
  mod-two_pow-suc (bit_xor a b) k,
  mod-two_pow-suc a k,
  mod-two_pow-suc b k,
  bit_xor_step a b,
  ap (λ t. t % 2 ^ k) half,
  bit_xor-mod k (a / 2) (b / 2) (omega (arith, mod-two_pow-suc b k)),
)
  where
    half : bit_xor a b / 2 ≡ bit_xor (a / 2) (b / 2)
    half = omega (arith, bit_xor_step a b)

pub bit_xor-zero : (n a : ℕ) → a ≤ n → bit_xor a 0 ≡ a
bit_xor-zero zero zero h = refl
bit_xor-zero zero (suc a) h = absurd (omega arith)
bit_xor-zero (suc n) zero h = refl
bit_xor-zero (suc n) (suc a) h =
    omega (arith, bit_xor_step (suc a) 0, bit_xor-zero n (suc a / 2) (omega arith))

bit_and-zero_below : (n a : ℕ) → a ≤ n → bit_and a 0 ≡ 0
bit_and-zero_below zero zero h = refl
bit_and-zero_below zero (suc a) h = absurd (omega arith)
bit_and-zero_below (suc n) zero h = refl
bit_and-zero_below (suc n) (suc a) h =
    omega (arith, bit_and_step (suc a) 0, bit_and-zero_below n (suc a / 2) (omega arith))

pub bit_and-zero : (a : ℕ) → bit_and a 0 ≡ 0
bit_and-zero a = bit_and-zero_below a a (omega arith)

bit_and_self_below : (n a : ℕ) → a ≤ n → bit_and a a ≡ a
bit_and_self_below zero zero h = refl
bit_and_self_below zero (suc a) h = absurd (omega arith)
bit_and_self_below (suc n) zero h = refl
bit_and_self_below (suc n) (suc a) h =
    omega (arith, bit_and_step (suc a) (suc a), bit_and_self_below n (suc a / 2) (omega arith))

pub bit_and_self : (a : ℕ) → bit_and a a ≡ a
bit_and_self a = bit_and_self_below a a (omega arith)

-- A mask of k low ones is the remainder by 2 ^ k.
pub bit_and-ones : (k a : ℕ) → bit_and a (2 ^ k - 1) ≡ a % 2 ^ k
bit_and-ones zero a = omega (arith, bit_and-zero a)
bit_and-ones (suc k) a = omega (
  arith,
  two_pow-suc k,
  one-le-pow k 2,
  mod-two_pow-suc a k,
  bit_and_step a (2 ^ suc k - 1),
  bit_and-ones k (a / 2),
  ap (bit_and (a / 2)) ones,
)
  where
    ones : (2 ^ suc k - 1) / 2 ≡ 2 ^ k - 1
    ones = omega (arith, two_pow-suc k, one-le-pow k 2)

-- A mask of one bit.
pub bit_and-pow : (k a : ℕ) → bit_and a (2 ^ k) ≡ a / 2 ^ k % 2 * 2 ^ k
bit_and-pow zero a = omega (arith, bit_and_step a 1, bit_and-zero (a / 2))
bit_and-pow (suc k) a = omega (
  arith,
  two_pow-suc k,
  bit_and_step a (2 ^ suc k),
  bit_and-pow k (a / 2),
  ap (bit_and (a / 2)) half,
  ap (λ t. t % 2 * 2 ^ suc k) (div-two_pow-suc a k),
  ap (λ t. a / 2 / 2 ^ k % 2 * t) (two_pow-suc k),
)
  where
    half : 2 ^ suc k / 2 ≡ 2 ^ k
    half = omega (arith, two_pow-suc k)

pub bit_xor_comm : (n a b : ℕ) → a ≤ n → bit_xor a b ≡ bit_xor b a
bit_xor_comm zero zero b h = omega (arith, bit_xor-bitwise 0 b, bit_xor-zero b b (omega arith))
bit_xor_comm zero (suc a) b h = absurd (omega arith)
bit_xor_comm (suc n) a b h =
    omega (arith, bit_xor_step a b, bit_xor_step b a, bit_xor_comm n (a / 2) (b / 2) (omega arith))

-- An exclusive or stays below a power of two that bounds both arguments.
pub bit_xor-lt : (k a b : ℕ) → a < 2 ^ k → b < 2 ^ k → bit_xor a b < 2 ^ k
bit_xor-lt k a b p q = omega (arith, (div-lt_iff_lt-mul (one-le-pow k 2 (omega arith))).0 below_one)
  where
    quotient : bit_xor a b / 2 ^ k ≡ 0
    quotient = rw (div-eq_of_lt p, div-eq_of_lt q) at (bit_xor-div k a b)

    below_one : bit_xor a b / 2 ^ k < 1
    below_one = omega (arith, quotient)
