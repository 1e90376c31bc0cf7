-- ===== src/Base/Step.antt =====
-- One equation for the lowest binary digit of the native bit operations, from the recursion on
-- digits that they stand for.
use Prim.Native.Nat.{
  ℕ, zero, suc, ◌+◌, ◌*◌, ◌/◌, ◌%◌, ◌≤◌, min, max, bit_and, bit_or, digits, bitwise,
  bit_and-bitwise, bit_or-bitwise,
}
use mathlib.Core.Path.{◌≡◌, refl, ap}
use native.Mathlib.Omega.{arith}

-- Any fuel above the first operand computes the same digits.
module _ (z : ℕ → ℕ) (f : ℕ → ℕ → ℕ) where
  enough : (a b k j : ℕ) → a ≤ k → a ≤ j → digits z f k a b ≡ digits z f j a b
  enough zero b zero zero hk hj = refl
  enough zero b zero (suc j) hk hj = refl
  enough zero b (suc k) zero hk hj = refl
  enough zero b (suc k) (suc j) hk hj = refl
  enough (suc a) b zero j hk hj = absurd (omega arith)
  enough (suc a) b (suc k) zero hk hj = absurd (omega arith)
  enough (suc a) b (suc k) (suc j) hk hj =
      ap (λ (r : ℕ). r * 2 + f (suc a % 2) (b % 2))
        (enough (suc a / 2) (b / 2) k j (omega arith) (omega arith))

  step :
      (a b : ℕ)
      → bitwise z f (suc a) b ≡ bitwise z f (suc a / 2) (b / 2) * 2 + f (suc a % 2) (b % 2)
  step a b =
      ap (λ (r : ℕ). r * 2 + f (suc a % 2) (b % 2))
        (enough (suc a / 2) (b / 2) a (suc a / 2) (omega arith) (omega arith))

pub zero-bit_and : (b : ℕ) → bit_and 0 b ≡ 0
zero-bit_and b = bit_and-bitwise 0 b

pub zero-bit_or : (b : ℕ) → bit_or 0 b ≡ b
zero-bit_or b = bit_or-bitwise 0 b

pub bit_and_low : (a b : ℕ) → bit_and a b ≡ bit_and (a / 2) (b / 2) * 2 + min (a % 2) (b % 2)
bit_and_low zero b = omega (arith, zero-bit_and b, zero-bit_and (b / 2))
bit_and_low (suc a) b = omega (
  arith,
  bit_and-bitwise (suc a) b,
  bit_and-bitwise (suc a / 2) (b / 2),
  step (λ _. zero) min a b,
)

pub bit_or_low : (a b : ℕ) → bit_or a b ≡ bit_or (a / 2) (b / 2) * 2 + max (a % 2) (b % 2)
bit_or_low zero b = omega (arith, zero-bit_or b, zero-bit_or (b / 2))
bit_or_low (suc a) b =
    omega
      (arith, bit_or-bitwise (suc a) b, bit_or-bitwise (suc a / 2) (b / 2), step (λ c. c) max a b)
