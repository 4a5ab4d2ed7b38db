-- ===== src/Base/Bits/Step.antt =====
-- One equation for the lowest digit of `bit_or` and of `bit_and`. The native operations recurse on
-- binary digits under a count that only has to be large enough.
use Prim.Native.Nat.{ℕ, zero, suc, ◌+◌, ◌*◌, ◌/◌, ◌%◌, ◌≤◌, min, max, digits}
use Prim.Native.Nat.{bit_and, bit_or, bit_and-bitwise, bit_or-bitwise}
use mathlib.Core.Path.{◌≡◌, refl, ap}
use native.Mathlib.Omega.{arith}

-- Any two counts that cover the first number give the same digits.
count_irrelevant :
    (z : ℕ → ℕ) (f : ℕ → ℕ → ℕ) (b a : ℕ) (small large : ℕ)
    → (a ≤ small) × (a ≤ large)
    → digits z f small a b ≡ digits z f large a b
count_irrelevant z f b zero zero zero h = refl
count_irrelevant z f b zero zero (suc l) h = refl
count_irrelevant z f b zero (suc s) zero h = refl
count_irrelevant z f b zero (suc s) (suc l) h = refl
count_irrelevant z f b (suc a) zero l h = absurd (omega arith)
count_irrelevant z f b (suc a) (suc s) zero h = absurd (omega arith)
count_irrelevant z f b (suc a) (suc s) (suc l) h =
    ap (λ d. d * 2 + f (suc a % 2) (b % 2))
      (count_irrelevant z f (b / 2) (suc a / 2) s l (omega arith))

pub bit_or_step : (a b : ℕ) → bit_or a b ≡ bit_or (a / 2) (b / 2) * 2 + max (a % 2) (b % 2)
bit_or_step zero b = omega (arith, bit_or-bitwise 0 b, bit_or-bitwise 0 (b / 2))
bit_or_step (suc a) b = omega (
  arith,
  bit_or-bitwise (suc a) b,
  bit_or-bitwise (suc a / 2) (b / 2),
  count_irrelevant (λ y. y) max (b / 2) (suc a / 2) a (suc a / 2) (omega arith),
)

pub bit_and_step : (a b : ℕ) → bit_and a b ≡ bit_and (a / 2) (b / 2) * 2 + min (a % 2) (b % 2)
bit_and_step zero b = omega (arith, bit_and-bitwise 0 b, bit_and-bitwise 0 (b / 2))
bit_and_step (suc a) b = omega (
  arith,
  bit_and-bitwise (suc a) b,
  bit_and-bitwise (suc a / 2) (b / 2),
  count_irrelevant (λ y. 0) min (b / 2) (suc a / 2) a (suc a / 2) (omega arith),
)
