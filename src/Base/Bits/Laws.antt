-- ===== src/Base/Bits/Laws.antt =====
-- Laws of conjunction and disjunction at variables, by induction on the binary digits.
use bpm_gw.Base.Bits.Step.{bit_or_step, bit_and_step}
use Prim.Native.Nat.{
  ℕ, zero, suc, ◌+◌, ◌/◌, ◌^◌, ◌≤◌, ◌<◌, bit_and, bit_or, bit_and-bitwise, bit_or-bitwise,
}
use mathlib.Core.Path.{◌≡◌, refl}
use native.Mathlib.Nat.{pow-suc}
use native.Mathlib.Omega.{arith}

bit_and_assoc_below : (n a b c : ℕ) → a ≤ n → bit_and (bit_and a b) c ≡ bit_and a (bit_and b c)
bit_and_assoc_below n zero b c h =
    ground (arith, bit_and-bitwise 0 b, bit_and-bitwise 0 c, bit_and-bitwise 0 (bit_and b c))
bit_and_assoc_below zero (suc a) b c h = elim h [ ]
bit_and_assoc_below (suc n) (suc a) b c h = ground (
  arith,
  bit_and_step (suc a) b,
  bit_and_step b c,
  bit_and_step (bit_and (suc a) b) c,
  bit_and_step (suc a) (bit_and b c),
  bit_and_assoc_below n (suc a / 2) (b / 2) (c / 2),
)

pub bit_and_assoc : (a b c : ℕ) → bit_and (bit_and a b) c ≡ bit_and a (bit_and b c)
bit_and_assoc a b c = bit_and_assoc_below a a b c (omega arith)

or_and_below :
    (n a b c : ℕ) → a + b ≤ n → bit_and (bit_or a b) c ≡ bit_or (bit_and a c) (bit_and b c)
or_and_below zero zero zero c h =
    ground (arith, bit_or-bitwise 0 0, bit_and-bitwise 0 c, bit_or-bitwise 0 0)
or_and_below zero (suc a) b c h = absurd (omega arith)
or_and_below zero zero (suc b) c h = absurd (omega arith)
or_and_below (suc n) zero b c h =
    ground (arith, bit_or-bitwise 0 b, bit_and-bitwise 0 c, bit_or-bitwise 0 (bit_and b c))
or_and_below (suc n) (suc a) b c h = ground (
  arith,
  bit_or_step (suc a) b,
  bit_and_step (suc a) c,
  bit_and_step b c,
  bit_and_step (bit_or (suc a) b) c,
  bit_or_step (bit_and (suc a) c) (bit_and b c),
  or_and_below n (suc a / 2) (b / 2) (c / 2),
)

pub or_and : (a b c : ℕ) → bit_and (bit_or a b) c ≡ bit_or (bit_and a c) (bit_and b c)
or_and a b c = or_and_below (a + b) a b c (omega arith)

le-bit_or_below : (n a b : ℕ) → a + b ≤ n → (a ≤ bit_or a b) × (b ≤ bit_or a b)
le-bit_or_below zero a b h = omega (arith)
le-bit_or_below (suc n) zero b h = omega (arith, bit_or-bitwise 0 b)
le-bit_or_below (suc n) (suc a) b h =
    ground (arith, bit_or_step (suc a) b, le-bit_or_below n (suc a / 2) (b / 2))

pub le-bit_or : (a b : ℕ) → (a ≤ bit_or a b) × (b ≤ bit_or a b)
le-bit_or a b = le-bit_or_below (a + b) a b (omega arith)

pub bit_or-lt : (k a b : ℕ) → a < 2 ^ k → b < 2 ^ k → bit_or a b < 2 ^ k
bit_or-lt zero zero zero ha hb = omega (arith, bit_or-bitwise 0 0)
bit_or-lt zero (suc a) b ha hb = absurd (omega arith)
bit_or-lt zero zero (suc b) ha hb = absurd (omega arith)
bit_or-lt (suc k) a b ha hb =
    ground (arith, pow-suc 2 k, bit_or_step a b, bit_or-lt k (a / 2) (b / 2))

bit_and_comm_below : (n a b : ℕ) → a + b ≤ n → bit_and a b ≡ bit_and b a
bit_and_comm_below zero zero zero h = refl
bit_and_comm_below zero (suc a) b h = absurd (omega arith)
bit_and_comm_below zero zero (suc b) h = absurd (omega arith)
bit_and_comm_below (suc n) zero zero h = refl
bit_and_comm_below (suc n) zero (suc b) h =
    ground
      (arith, bit_and_step 0 (suc b), bit_and_step (suc b) 0, bit_and_comm_below n 0 (suc b / 2))
bit_and_comm_below (suc n) (suc a) b h = ground (
  arith,
  bit_and_step (suc a) b,
  bit_and_step b (suc a),
  bit_and_comm_below n (suc a / 2) (b / 2),
)

pub bit_and_comm : (a b : ℕ) → bit_and a b ≡ bit_and b a
bit_and_comm a b = bit_and_comm_below (a + b) a b (omega arith)
