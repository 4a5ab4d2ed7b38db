-- ===== src/Ethmac/Flags.antt =====
-- history/embedded-sw/lib/ethmac/ethmac.c: single bits of the status words of the descriptors.
use bpm_gw.Base.{
  ℕ, ◌-◌, ◌*◌, ◌/◌, ◌%◌, ◌^◌, ◌<◌, ◌≡◌, refl, ap, ◌∙◌, true, false, not, bit_and, bit_or, ◌==◌,
  arith,
}
use bpm_gw.Base.Bits.{
  bit_and_assoc, or_and, le-bit_or, bit_or-lt, bit_and_mask, bit_or_split, zero-bit_or, bit_or-zero,
  bit_or_low, bit_and-zero,
}
use bpm_gw.Ethmac.{
  test, clear, sent_status, emptied, tx_bd_ready, tx_bd_irq, rx_bd_empty, rx_bd_stats,
}

-- A disjunction with a word that has the bit has it.
pub test_or : (v m b : ℕ) → 0 < bit_and m b → test (bit_or v m) b ≡ true
test_or v m b h = ground (arith, or_and v m b, le-bit_or (bit_and v b) (bit_and m b))

-- What of a word a cleared mask leaves under another.
cleared : (v m b c : ℕ) → bit_and (2 ^ 32 - 1 - m) b ≡ c → bit_and (clear v m) b ≡ bit_and v c
cleared v m b c h = bit_and_assoc v (2 ^ 32 - 1 - m) b ∙ ap (λ (t : ℕ). bit_and v t) h

-- Clearing other bits keeps the bit.
pub test-clear : (v m b : ℕ) → bit_and (2 ^ 32 - 1 - m) b ≡ b → test (clear v m) b ≡ test v b
test-clear v m b h = ap (λ (t : ℕ). not (t == 0)) (cleared v m b b h)

-- Clearing the bit clears it.
pub test-clear_self : (v m b : ℕ) → bit_and (2 ^ 32 - 1 - m) b ≡ 0 → test (clear v m) b ≡ false
test-clear_self v m b h = ap (λ (t : ℕ). not (t == 0)) (cleared v m b 0 h ∙ bit_and-zero v)

pub irq_cleared : (v : ℕ) → test (clear v tx_bd_irq) tx_bd_irq ≡ false
irq_cleared v = test-clear_self v tx_bd_irq tx_bd_irq refl

pub ready-clear_irq : (v : ℕ) → test (clear v tx_bd_irq) tx_bd_ready ≡ test v tx_bd_ready
ready-clear_irq v = test-clear v tx_bd_irq tx_bd_ready refl

pub emptied-empty : (v : ℕ) → test (emptied v) rx_bd_empty ≡ true
emptied-empty v = test_or (clear v rx_bd_stats) rx_bd_empty rx_bd_empty (omega arith)

-- The word that hands a frame over is ready, has its interrupt enabled, and holds the length.
pub sent_status-ready : (n v : ℕ) → test (sent_status n v) tx_bd_ready ≡ true
unfolding sent_status
sent_status-ready n v = test_or _ 0xc800 tx_bd_ready (omega arith)

pub sent_status-irq : (n v : ℕ) → test (sent_status n v) tx_bd_irq ≡ true
unfolding sent_status
sent_status-irq n v = test_or _ 0xc800 tx_bd_irq (omega arith)

-- The status of 16 bits under a length, with more bits set in it.
with_length :
    (x n m : ℕ)
    → n < 2 ^ 16
    → m < 2 ^ 16
    → bit_or (bit_or (bit_and x 0xffff) (bit_and n 0xffff * 2 ^ 16)) m / 2 ^ 16 ≡ n
with_length x n m h k =
    let low = bit_and_mask 16 x in
    let same = bit_and_mask 16 n in
    let joined = bit_or_split 16 0 (x % 2 ^ 16) n 0 (omega arith) (omega arith) in
    let more = bit_or_low 16 n (x % 2 ^ 16) m (omega arith) k in
    ground (
      arith,
      low,
      same,
      joined,
      more,
      zero-bit_or n,
      bit_or-zero (x % 2 ^ 16),
      bit_or-lt 16 (x % 2 ^ 16) m,
    )

pub sent_status-length : (n v : ℕ) → n < 2 ^ 16 → sent_status n v / 2 ^ 16 ≡ n
unfolding sent_status
sent_status-length n v h = with_length _ n 0xc800 h (omega arith)
