-- ===== src/Base/Bits.antt =====
-- `|` on numbers with no bit in common, and `&` with a byte of ones. The library has the definitions
-- of both on digits only.
use Prim.Native.Nat.{
  ℕ, zero, suc, ◌+◌, ◌*◌, ◌/◌, ◌%◌, ◌^◌, ◌≤◌, ◌<◌, max, min, bit_or, bit_and, digits,
  bit_or-bitwise, bit_and-bitwise,
}
use mathlib.Core.Path.{◌≡◌, refl, ap, ◌∙◌}
use native.Mathlib.Omega.{arith}

-- Any count of digits that is as large as the first number is enough.
digits_enough :
    (z : ℕ → ℕ) (f : ℕ → ℕ → ℕ) (n k a b : ℕ) → a ≤ n → a ≤ k → digits z f n a b ≡ digits z f k a b
digits_enough z f zero zero zero b h l = refl
digits_enough z f zero (suc k) zero b h l = refl
digits_enough z f (suc n) zero zero b h l = refl
digits_enough z f (suc n) (suc k) zero b h l = refl
digits_enough z f zero k (suc a) b h l = absurd (omega arith)
digits_enough z f (suc n) zero (suc a) b h l = absurd (omega arith)
digits_enough z f (suc n) (suc k) (suc a) b h l =
    let halves = digits_enough z f n k (suc a / 2) (b / 2) (omega arith) (omega arith) in
    omega (arith, halves)

zero-bit_or : (b : ℕ) → bit_or 0 b ≡ b
zero-bit_or b = bit_or-bitwise 0 b

-- The lowest digit apart.
bit_or_halves : (a b : ℕ) → bit_or a b ≡ bit_or (a / 2) (b / 2) * 2 + max (a % 2) (b % 2)
bit_or_halves zero b = omega (arith, zero-bit_or b, zero-bit_or (b / 2))
bit_or_halves (suc a) b =
    let whole = bit_or-bitwise (suc a) b in
    let half = bit_or-bitwise (suc a / 2) (b / 2) in
    let count =
      digits_enough (λ d. d) max a (suc a / 2) (suc a / 2) (b / 2) (omega arith) (omega arith) in
    omega (arith, whole, half, count)

bit_or-zero_below : (n a : ℕ) → a ≤ n → bit_or a 0 ≡ a
bit_or-zero_below n zero h = zero-bit_or 0
bit_or-zero_below zero (suc a) h = absurd (omega arith)
bit_or-zero_below (suc n) (suc a) h =
    let half = bit_or-zero_below n (suc a / 2) (omega arith) in
    omega (arith, bit_or_halves (suc a) 0, half)

-- Where the second number has only digits that the first has as zeros, `|` is the sum.
pub bit_or-add : (k a b : ℕ) → b < 2 ^ k → bit_or (a * 2 ^ k) b ≡ a * 2 ^ k + b
bit_or-add zero a b h =
    let none : b ≡ 0 = omega arith in
    let all : a * 2 ^ 0 ≡ a = omega arith in
    rw (all, none) (bit_or-zero_below a a (omega arith) ∙ omega arith)
bit_or-add (suc k) a b h =
    let double : 2 ^ suc k ≡ 2 ^ k * 2 = omega arith in
    let up : a * 2 ^ suc k ≡ a * 2 ^ k * 2 = rw double (omega arith) in
    let down : a * 2 ^ k * 2 / 2 ≡ a * 2 ^ k = omega arith in
    let below : bit_or (a * 2 ^ k * 2 / 2) (b / 2) ≡ a * 2 ^ k + b / 2 =
      rw down (bit_or-add k a (b / 2) (omega arith)) in
    rw up (omega (arith, bit_or_halves (a * 2 ^ k * 2) b, below))

zero-bit_and : (b : ℕ) → bit_and 0 b ≡ 0
zero-bit_and b = bit_and-bitwise 0 b

-- A mask that ends in a one.
bit_and_odd : (a b : ℕ) → bit_and a (2 * b + 1) ≡ bit_and (a / 2) b * 2 + a % 2
bit_and_odd zero b = omega (arith, zero-bit_and (2 * b + 1), zero-bit_and b)
bit_and_odd (suc a) b =
    let whole = bit_and-bitwise (suc a) (2 * b + 1) in
    let half = bit_and-bitwise (suc a / 2) b in
    let rest : (2 * b + 1) / 2 ≡ b = omega arith in
    let count =
      digits_enough (λ d. zero) min a (suc a / 2) (suc a / 2) b (omega arith) (omega arith) in
    omega (arith, whole, ap (λ t. digits (λ d. zero) min a (suc a / 2) t) rest, half, count)

bit_and_nothing : (n a : ℕ) → a ≤ n → bit_and a 0 ≡ 0
bit_and_nothing n zero h = zero-bit_and 0
bit_and_nothing zero (suc a) h = absurd (omega arith)
bit_and_nothing (suc n) (suc a) h =
    let whole = bit_and-bitwise (suc a) 0 in
    let half = bit_and-bitwise (suc a / 2) 0 in
    let count =
      digits_enough (λ d. zero) min a (suc a / 2) (suc a / 2) 0 (omega arith) (omega arith) in
    omega (arith, whole, half, count, bit_and_nothing n (suc a / 2) (omega arith))

pub bit_and_byte : (a : ℕ) → bit_and a 0xff ≡ a % 2 ^ 8
bit_and_byte a = omega (
  arith,
  bit_and_odd a 127,
  bit_and_odd (a / 2) 63,
  bit_and_odd (a / 2 / 2) 31,
  bit_and_odd (a / 2 / 2 / 2) 15,
  bit_and_odd (a / 2 / 2 / 2 / 2) 7,
  bit_and_odd (a / 2 / 2 / 2 / 2 / 2) 3,
  bit_and_odd (a / 2 / 2 / 2 / 2 / 2 / 2) 1,
  bit_and_odd (a / 2 / 2 / 2 / 2 / 2 / 2 / 2) 0,
  bit_and_nothing a (a / 2 / 2 / 2 / 2 / 2 / 2 / 2 / 2) (omega arith),
)
