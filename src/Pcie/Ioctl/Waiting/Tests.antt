-- ===== src/Pcie/Ioctl/Waiting/Tests.antt =====
-- Waits of history/sw/drivers/pcie/src/ioctl.c at concrete sources.
use bpm_gw.Base.{ℤ, pos, ◌+◌, ◌≡◌, refl, Option, none, some, [], arith}
use bpm_gw.Pcie.Ioctl.{Privdata, ioctl_wait_interrupt}
use bpm_gw.Pcie.Ioctl.Waiting.{interrupts, ioctl_wait_interrupt-none}

abbrev no_interrupt : Privdata
no_interrupt = record {
  mmap_mode = 0;
  mmap_area = 0;
  kmem = record { kmem_count = 0; kmem_list = []; attrs = [] };
  umem = record {
    umem_count = 0;
    umem_list = [];
    umem_attrs = [];
    held = record { arrays = 0; entries = 0; pinned = 0; mapped = 0 };
  };
  irq_outstanding = λ i. 0;
  irq_count = 0;
}

ioctl_wait_interrupt-none_example :
    ioctl_wait_interrupt (λ k. interrupts (k + 2)) 50 3 no_interrupt ≡ none
ioctl_wait_interrupt-none_example =
    ioctl_wait_interrupt-none (λ k. k + 2) 50 3 no_interrupt (omega arith) refl

-- an interrupt that is outstanding ends the wait
abbrev one_left : Privdata
one_left = record no_interrupt { irq_outstanding = λ i. 1 }

result : Option (ℤ × Privdata) → ℤ
result none = pos 1
result (some (e, p)) = e

ends : result (ioctl_wait_interrupt (λ k p. p) 1 3 one_left) ≡ pos 0
unfolding result ioctl_wait_interrupt
ends = refl
