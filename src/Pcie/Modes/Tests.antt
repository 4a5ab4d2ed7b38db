-- ===== src/Pcie/Modes/Tests.antt =====
-- A user program that asks for an area that there is not, then for BAR 2, and is interrupted.
use bpm_gw.Base.{ℕ, ◌≡◌, ◌<◌, ◌⊎◌, false, [], arith}
use bpm_gw.Pcie.Kmem.{mmap_kmem}
use bpm_gw.Pcie.Ioctl.{Privdata, ioctl_mmap_area, irq_handler}
use bpm_gw.Pcie.Bars.{Resource, mmap, mmap_pci}
use bpm_gw.Pcie.Modes.{Calls, start, call, set_area, interrupt, mmap-Calls}

abbrev zeroed : Privdata
zeroed = record {
  mmap_mode = 0;
  mmap_area = 0;
  kmem = record { kmem_count = 0; kmem_list = []; attrs = [] };
  umem = record {
    umem_count = 0;
    umem_list = [];
    umem_attrs = [];
    held = record { arrays = 0; entries = 0; pinned = 0; mapped = 0 };
  };
  irq_outstanding = λ i. 0;
  irq_count = 0;
}

abbrev bar : ℕ → Resource
bar i = record { start = 0xe0000000; len = 0x2000; is_io = false; prefetch = false }

abbrev after : Privdata
after = (irq_handler (ioctl_mmap_area 2 (ioctl_mmap_area 6 zeroed).1).1).1

abbrev three_calls : Calls zeroed after
three_calls =
    call (call (call (start zeroed) (set_area 6 zeroed)) (set_area 2 (ioctl_mmap_area 6 zeroed).1))
      (interrupt (ioctl_mmap_area 2 (ioctl_mmap_area 6 zeroed).1).1)

mmap-Calls_example :
    ((after.mmap_mode ≡ 0)
      × (after.mmap_area < 6)
      × (mmap (λ n. 0) (λ e n. 0) bar 0x10000 0x12000 after
          ≡ (mmap_pci (λ n. 0) (bar after.mmap_area) 0x10000 0x12000).0))
    ⊎ ((after.mmap_mode ≡ 1)
        × (mmap (λ n. 0) (λ e n. 0) bar 0x10000 0x12000 after
            ≡ mmap_kmem (λ e n. 0) 0x10000 0x12000 after.kmem))
mmap-Calls_example =
    mmap-Calls (λ n. 0) (λ e n. 0) bar 0x10000 0x12000
      (record { mode = omega arith; area = omega arith }) three_calls
