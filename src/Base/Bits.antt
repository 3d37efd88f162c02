-- ===== src/Base/Bits.antt =====
-- Single flags of a mask: what `|` and `&` do to the bit of weight 2 ^ k.
use Prim.Native.Nat.{
  ℕ, zero, suc, ◌+◌, ◌*◌, ◌/◌, ◌%◌, ◌≤◌, min, max, bit_and, bit_or, digits, bit_and-bitwise,
  bit_or-bitwise,
}
use mathlib.Core.Path.{◌≡◌, refl}
use native.Mathlib.Omega.{arith}

-- An operation on digits, `f` on each and `z` where the first number has run out.
module _ (z : ℕ → ℕ) (f : ℕ → ℕ → ℕ) (tail : (b : ℕ) → z b ≡ z (b / 2) * 2 + f 0 (b % 2)) where
  enough_digits : (n m a b : ℕ) → a ≤ n → a ≤ m → digits z f n a b ≡ digits z f m a b
  enough_digits zero zero a b p q = refl
  enough_digits zero (suc m) zero b p q = refl
  enough_digits zero (suc m) (suc a) b p q = absurd (omega arith)
  enough_digits (suc n) zero zero b p q = refl
  enough_digits (suc n) zero (suc a) b p q = absurd (omega arith)
  enough_digits (suc n) (suc m) zero b p q = refl
  enough_digits (suc n) (suc m) (suc a) b p q =
      rw (enough_digits n m (suc a / 2) (b / 2) (omega arith) (omega arith))

  no_digits : (n b : ℕ) → digits z f n zero b ≡ z b
  no_digits zero b = refl
  no_digits (suc n) b = refl

  lowest_digit :
      (a b : ℕ) → digits z f a a b ≡ digits z f (a / 2) (a / 2) (b / 2) * 2 + f (a % 2) (b % 2)
  lowest_digit zero b = tail b
  lowest_digit (suc a) b =
      rw (enough_digits a (suc a / 2) (suc a / 2) (b / 2) (omega arith) (omega arith))

pub bit_and_halves : (a b : ℕ) → bit_and a b ≡ min (a % 2) (b % 2) + 2 * bit_and (a / 2) (b / 2)
bit_and_halves a b = omega (
  arith,
  bit_and-bitwise a b,
  bit_and-bitwise (a / 2) (b / 2),
  lowest_digit (λ b. zero) min (λ b. omega arith) a b,
)

pub bit_or_halves : (a b : ℕ) → bit_or a b ≡ max (a % 2) (b % 2) + 2 * bit_or (a / 2) (b / 2)
bit_or_halves a b = omega (
  arith,
  bit_or-bitwise a b,
  bit_or-bitwise (a / 2) (b / 2),
  lowest_digit (λ b. b) max (λ b. omega arith) a b,
)

and_nothing : (n a : ℕ) → a ≤ n → bit_and a 0 ≡ 0
and_nothing n zero h = refl
and_nothing zero (suc a) h = absurd (omega arith)
and_nothing (suc n) (suc a) h =
    omega (arith, bit_and_halves (suc a) 0, and_nothing n (suc a / 2) (omega arith))

or_nothing : (n a : ℕ) → a ≤ n → bit_or a 0 ≡ a
or_nothing n zero h = refl
or_nothing zero (suc a) h = absurd (omega arith)
or_nothing (suc n) (suc a) h =
    omega (arith, bit_or_halves (suc a) 0, or_nothing n (suc a / 2) (omega arith))

pub bit_and-zero : (a : ℕ) → bit_and a 0 ≡ 0
bit_and-zero a = and_nothing a a (omega arith)

pub bit_or-zero : (a : ℕ) → bit_or a 0 ≡ a
bit_or-zero a = or_nothing a a (omega arith)
