-- ===== src/Pcie/Ioctl/Waiting.antt =====
-- history/sw/drivers/pcie/src/ioctl.c and int.c: waiting for an interrupt.
mod Tests
use bpm_gw.Base.{
  ℤ, pos, ℕ, zero, suc, ◌+◌, ◌≡◌, ◌<◌, refl, ap, ◌∙◌, Bool, true, false, Option, none, arith,
}
use bpm_gw.Pcie.Ioctl.{Privdata, irq_handler, wait_loop, ioctl_wait_interrupt, int_maxsources}

-- `n` interrupts, each through the handler
abbrev pub interrupts : ℕ → Privdata → Privdata
interrupts zero p = p
interrupts (suc n) p = interrupts n (irq_handler p).1

interrupts-same : (n : ℕ) (p : Privdata) → interrupts n p ≡ p
unfolding irq_handler
interrupts-same zero p = refl
interrupts-same (suc n) p = interrupts-same n p

wait_loop-none :
    (count : ℕ → ℕ) (fuel n source : ℕ) (p : Privdata)
    → p.irq_outstanding source ≡ 0
    → wait_loop (λ k. interrupts (count k)) fuel n source p ≡ none
unfolding wait_loop
wait_loop-none count zero n source p idle = refl
wait_loop-none count (suc fuel) n source p idle =
    let same = interrupts-same (count n) p in
    let idle' = ap (λ (q : Privdata). q.irq_outstanding source) same ∙ idle in
    let rest = wait_loop-none count fuel (suc n) source (interrupts (count n) p) idle' in
    rw idle' rest

-- Where no interrupt of a source is outstanding, `ioctl_wait_interrupt` on that source never returns,
-- however many interrupts the handler gets between its rounds.
pub ioctl_wait_interrupt-none :
    (count : ℕ → ℕ) (fuel source : ℕ) (p : Privdata)
    → source < int_maxsources
    → p.irq_outstanding source ≡ 0
    → ioctl_wait_interrupt (λ k. interrupts (count k)) fuel source p ≡ none
unfolding ioctl_wait_interrupt
ioctl_wait_interrupt-none count fuel source p valid idle =
    ground (arith, wait_loop-none count fuel 0 source p idle)
