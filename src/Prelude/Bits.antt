-- ===== src/Prelude/Bits.antt =====
-- Bitwise `and` with a mask of ones is a remainder, and bitwise `or` of fields that do not overlap is
-- a sum. Both are read off the digit recursion that the native operations stand for.
use Prim.Native.Nat.{
  ℕ, zero, suc, ◌+◌, ◌-◌, ◌*◌, ◌/◌, ◌%◌, ◌^◌, ◌≤◌, ◌<◌, min, max, bit_and, bit_or, digits,
  bit_and-bitwise, bit_or-bitwise,
}
use mathlib.Core.Path.{◌≡◌, refl, ap, sym, ◌∙◌}
use native.Mathlib.Nat.{pow-suc, div-add-mod', add-mul-mod_self_right, mod-eq_of_lt, mod-lt}
use native.Mathlib.Omega.{arith}

-- The remainder is the one number below the divisor that differs by a multiple of it.
pub mod_unique : (n m q r : ℕ) → n ≡ r + q * m → r < m → n % m ≡ r
mod_unique n m q r e h = rw e (add-mul-mod_self_right r q m ∙ mod-eq_of_lt h)

-- `digits` needs no more fuel than its first number.
module _ (z : ℕ → ℕ) (f : ℕ → ℕ → ℕ) where
  no_digit : (fuel y : ℕ) → digits z f fuel 0 y ≡ z y
  no_digit zero y = refl
  no_digit (suc fuel) y = refl

  steady :
      (fuel y x other : ℕ) → (x ≤ fuel) × (x ≤ other) → digits z f fuel x y ≡ digits z f other x y
  steady fuel y zero other h = no_digit fuel y ∙ sym (no_digit other y)
  steady zero y (suc x) other (h, _) = absurd (omega arith)
  steady (suc fuel) y (suc x) zero (_, h) = absurd (omega arith)
  steady (suc fuel) y (suc x) (suc other) (h, g) =
      ap (λ high. high * 2 + f (suc x % 2) (y % 2))
        (steady fuel (y / 2) (suc x / 2) other (omega arith, omega arith))

  lowest :
      (x y : ℕ)
      → digits z f (suc x) (suc x) y
        ≡ digits z f (suc x / 2) (suc x / 2) (y / 2) * 2 + f (suc x % 2) (y % 2)
  lowest x y =
      ap (λ high. high * 2 + f (suc x % 2) (y % 2))
        (steady x (y / 2) (suc x / 2) (suc x / 2) (omega arith, omega arith))

none_and : (y : ℕ) → bit_and 0 y ≡ 0
none_and = bit_and-bitwise 0

none_or : (y : ℕ) → bit_or 0 y ≡ y
none_or = bit_or-bitwise 0

-- One binary digit of each operation.
pub bit_and_halves : (x y : ℕ) → bit_and x y ≡ min (x % 2) (y % 2) + 2 * bit_and (x / 2) (y / 2)
bit_and_halves zero y = omega (arith, none_and y, none_and (y / 2))
bit_and_halves (suc x) y =
    let whole = bit_and-bitwise (suc x) y in
    let half = bit_and-bitwise (suc x / 2) (y / 2) in
    omega (arith, whole, half, lowest (λ _. zero) min x y)

pub bit_or_halves : (x y : ℕ) → bit_or x y ≡ max (x % 2) (y % 2) + 2 * bit_or (x / 2) (y / 2)
bit_or_halves zero y = omega (arith, none_or y, none_or (y / 2))
bit_or_halves (suc x) y =
    let whole = bit_or-bitwise (suc x) y in
    let half = bit_or-bitwise (suc x / 2) (y / 2) in
    omega (arith, whole, half, lowest (λ u. u) max x y)

bit_and-zero_below : (n a : ℕ) → a ≤ n → bit_and a 0 ≡ 0
bit_and-zero_below n zero h = refl
bit_and-zero_below zero (suc a) h = absurd (omega arith)
bit_and-zero_below (suc n) (suc a) h =
    omega (arith, bit_and_halves (suc a) 0, bit_and-zero_below n (suc a / 2) (omega arith))

bit_or-zero_below : (n a : ℕ) → a ≤ n → bit_or a 0 ≡ a
bit_or-zero_below n zero h = refl
bit_or-zero_below zero (suc a) h = absurd (omega arith)
bit_or-zero_below (suc n) (suc a) h =
    omega (arith, bit_or_halves (suc a) 0, bit_or-zero_below n (suc a / 2) (omega arith))

pub pow_pos : (k : ℕ) → 0 < 2 ^ k
pow_pos zero = omega arith
pow_pos (suc k) = omega (arith, pow-suc 2 k, pow_pos k)

-- The remainder by twice `m` is made of the last digit and the remainder of the half.
mod_double : (p m : ℕ) → 0 < m → p % (m * 2) ≡ p / 2 % m * 2 + p % 2
mod_double p m h =
    mod_unique p (m * 2) (p / 2 / m) (p / 2 % m * 2 + p % 2) (omega (arith, div-add-mod' (p / 2) m))
      (omega (arith, mod-lt (p / 2) h))

pub bit_and-mask : (k p : ℕ) → bit_and p (2 ^ k - 1) ≡ p % 2 ^ k
bit_and-mask zero p = omega (arith, bit_and-zero_below p p (omega arith))
bit_and-mask (suc k) p =
    let half : (2 ^ suc k - 1) / 2 ≡ 2 ^ k - 1 = omega (arith, pow-suc 2 k, pow_pos k) in
    rw (bit_and_halves p (2 ^ suc k - 1), half, bit_and-mask k (p / 2), pow-suc 2 k)
      (omega (arith, mod_double p (2 ^ k) (pow_pos k), pow_pos k))

pub bit_or-disjoint : (k a b : ℕ) → b < 2 ^ k → bit_or (a * 2 ^ k) b ≡ a * 2 ^ k + b
bit_or-disjoint zero a b h =
    let none_left : b ≡ 0 = omega arith in
    rw none_left (omega (arith, bit_or-zero_below (a * 1) (a * 1) (omega arith)))
bit_or-disjoint (suc k) a b h =
    let even : a * 2 ^ suc k ≡ a * 2 ^ k * 2 = rw (pow-suc 2 k) (omega arith) in
    let half : a * 2 ^ k * 2 / 2 ≡ a * 2 ^ k = omega arith in
    rw (even, bit_or_halves (a * 2 ^ k * 2) b, half)
      (omega (arith, bit_or-disjoint k a (b / 2) (omega (arith, pow-suc 2 k))))
