-- ===== src/Base/Bits.antt =====
-- The bitwise operations of C at variables: words split at a bit position, masks, single bits.
mod Step
mod Laws
pub use Laws.{bit_and_assoc, or_and, le-bit_or, bit_or-lt, bit_and_comm}
pub use Step.{bit_or_step, bit_and_step}
use Prim.Native.Nat.{ℕ, zero, suc, ◌+◌, ◌-◌, ◌*◌, ◌/◌, ◌%◌, ◌^◌, ◌≤◌, ◌<◌, bit_and, bit_or}
use Prim.Native.Nat.{bit_and-bitwise, bit_or-bitwise}
use mathlib.Core.Path.{◌≡◌, refl, ap}
use native.Mathlib.Nat.{pow-suc, one-le-pow}
use native.Mathlib.Omega.{arith}

bit_or-zero_below : (n a : ℕ) → a ≤ n → bit_or a 0 ≡ a
bit_or-zero_below zero zero h = refl
bit_or-zero_below zero (suc a) h = elim h [ ]
bit_or-zero_below (suc n) zero h = refl
bit_or-zero_below (suc n) (suc a) h =
    omega (arith, bit_or_step (suc a) 0, bit_or-zero_below n (suc a / 2) (omega arith))

pub bit_or-zero : (a : ℕ) → bit_or a 0 ≡ a
bit_or-zero a = bit_or-zero_below a a (omega arith)

pub zero-bit_or : (b : ℕ) → bit_or 0 b ≡ b
zero-bit_or b = bit_or-bitwise 0 b

bit_and-zero_below : (n a : ℕ) → a ≤ n → bit_and a 0 ≡ 0
bit_and-zero_below zero zero h = refl
bit_and-zero_below zero (suc a) h = elim h [ ]
bit_and-zero_below (suc n) zero h = refl
bit_and-zero_below (suc n) (suc a) h =
    omega (arith, bit_and_step (suc a) 0, bit_and-zero_below n (suc a / 2) (omega arith))

pub bit_and-zero : (a : ℕ) → bit_and a 0 ≡ 0
bit_and-zero a = bit_and-zero_below a a (omega arith)

pub zero-bit_and : (b : ℕ) → bit_and 0 b ≡ 0
zero-bit_and b = bit_and-bitwise 0 b

shifted_suc : (q k : ℕ) → q * 2 ^ suc k ≡ 2 * (q * 2 ^ k)
shifted_suc q k = omega (arith, ap (λ (t : ℕ). q * t) (pow-suc 2 k))

-- Above and below bit `k` the two operations work apart.
pub bit_and_split :
    (k q r p s : ℕ)
    → r < 2 ^ k
    → s < 2 ^ k
    → bit_and (q * 2 ^ k + r) (p * 2 ^ k + s) ≡ bit_and q p * 2 ^ k + bit_and r s
bit_and_split zero q zero p zero hr hs = ground (arith, bit_and-zero 0)
bit_and_split zero q zero p (suc s) hr hs = absurd (omega arith)
bit_and_split zero q (suc r) p s hr hs = absurd (omega arith)
bit_and_split (suc k) q r p s hr hs = ground (
  arith,
  bit_and_step (q * 2 ^ suc k + r) (p * 2 ^ suc k + s),
  bit_and_step r s,
  shifted_suc q k,
  shifted_suc p k,
  shifted_suc (bit_and q p) k,
  pow-suc 2 k,
  bit_and_split k q (r / 2) p (s / 2),
)

pub bit_or_split :
    (k q r p s : ℕ)
    → r < 2 ^ k
    → s < 2 ^ k
    → bit_or (q * 2 ^ k + r) (p * 2 ^ k + s) ≡ bit_or q p * 2 ^ k + bit_or r s
bit_or_split zero q zero p zero hr hs = ground (arith, bit_or-zero 0)
bit_or_split zero q zero p (suc s) hr hs = absurd (omega arith)
bit_or_split zero q (suc r) p s hr hs = absurd (omega arith)
bit_or_split (suc k) q r p s hr hs = ground (
  arith,
  bit_or_step (q * 2 ^ suc k + r) (p * 2 ^ suc k + s),
  bit_or_step r s,
  shifted_suc q k,
  shifted_suc p k,
  shifted_suc (bit_or q p) k,
  pow-suc 2 k,
  bit_or_split k q (r / 2) p (s / 2),
)

-- A word below `2 ^ k` is its own conjunction with `k` ones.
bit_and_ones : (k r : ℕ) → r < 2 ^ k → bit_and r (2 ^ k - 1) ≡ r
bit_and_ones zero r h = omega (arith, bit_and-zero r)
bit_and_ones (suc k) r h =
    ground
      (arith, bit_and_step r (2 ^ suc k - 1), bit_and_ones k (r / 2), pow-suc 2 k, one-le-pow k 2)

-- A mask of the `k` low bits is the remainder.
pub bit_and_mask : (k a : ℕ) → bit_and a (2 ^ k - 1) ≡ a % 2 ^ k
bit_and_mask k a = ground (
  arith,
  one-le-pow k 2,
  bit_and_split k (a / 2 ^ k) (a % 2 ^ k) 0 (2 ^ k - 1),
  zero-bit_and (a / 2 ^ k),
  bit_and-zero (a / 2 ^ k),
  bit_and_ones k (a % 2 ^ k),
)

-- Testing the single bit `k`.
pub bit_and_bit : (k a : ℕ) → bit_and a (2 ^ k) ≡ a / 2 ^ k % 2 * 2 ^ k
bit_and_bit k a = ground (
  arith,
  one-le-pow k 2,
  bit_and_split k (a / 2 ^ k) (a % 2 ^ k) 1 0,
  bit_and-zero (a % 2 ^ k),
  bit_and_mask 1 (a / 2 ^ k),
)

-- A disjunction of disjoint parts is their sum.
pub bit_or_parts : (k q r : ℕ) → r < 2 ^ k → bit_or (q * 2 ^ k) r ≡ q * 2 ^ k + r
bit_or_parts k q r h =
    ground (arith, one-le-pow k 2, bit_or_split k q 0 0 r, bit_or-zero q, zero-bit_or r)

pub bit_or_low :
    (k q r s : ℕ) → r < 2 ^ k → s < 2 ^ k → bit_or (q * 2 ^ k + r) s ≡ q * 2 ^ k + bit_or r s
bit_or_low k q r s hr hs = ground (arith, bit_or_split k q r 0 s, bit_or-zero q)
