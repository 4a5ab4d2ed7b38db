-- ===== src/Pcie/Device/Lifetime/Tests.antt =====
-- Probes of a board with a register BAR of 4096 bytes, a prefetchable memory BAR and four that are not
-- there.
use bpm_gw.Base.{
  pos, negsuc, ℕ, ◌≡◌, ◌≤◌, ◌-◌, ◌==◌, refl, true, false, some, [], ◌∷◌, if◌then◌else◌,
}
use bpm_gw.Pcie.Kmem.{Kmem}
use bpm_gw.Pcie.Umem.Sgmap.{Umem}
use bpm_gw.Pcie.Bars.{Resource, IrqGrant, map_bars, setup_irq, probe_irq, unmap_loop}
use bpm_gw.Pcie.Bars.Held.{Unheld}
use bpm_gw.Pcie.Device.{
  Device, ProbeGrant, max_devices, probe, probe_enabled, probe_rest, remove, no_kmem,
}
use bpm_gw.Pcie.Device.Ends.{Ended, remove-probe_attrs}
use bpm_gw.Pcie.Device.Lifetime.{devices_left, probe-max_devices, remove-probe}

abbrev resources : ℕ → Resource
resources i = record {
  start = if i == 0 then 0xf0000000 else if i == 2 then 0xe0000000 else 0;
  len = if i == 0 then 0x1000 else if i == 2 then 0x100000 else 0;
  is_io = false;
  prefetch = i == 2;
}

abbrev irq_grant : IrqGrant
irq_grant = record {
  request = λ i. pos 0;
  remap = λ i prefetch. if prefetch then 0xffff0000 else 0xffff8000;
  int_pin = some 1;
  int_line = some 11;
  request_irq = pos 0;
}

abbrev grant : ProbeGrant
grant = record {
  enable = pos 0;
  dma_mask_64 = pos 0;
  dma_mask_32 = pos 0;
  memory = true;
  irq = irq_grant;
  attrs = true;
  cdev = pos 0;
}

abbrev no_attrs : ProbeGrant
no_attrs = record grant { attrs = false }

abbrev umem : Umem
umem = record {
  umem_count = 0;
  umem_list = [];
  umem_attrs = [];
  held = record { arrays = 2; entries = 1; pinned = 8; mapped = 1 };
}

abbrev device : Device
device = record {
  enabled = false;
  allocated = false;
  added = false;
  board = record {
    bars_kmapped = λ i. 0;
    requested = λ i. false;
    outstanding = λ i. 0;
    irq_enabled = false;
    irq_requested = false;
  };
  kmem = no_kmem;
  umem = umem;
}

abbrev kmem : Kmem
kmem = record {
  kmem_count = 1;
  kmem_list = record { id = 0; dma_handle = 0x10000; cpua = 0x7000; size = 8192 } ∷ [];
  attrs = 0 ∷ [];
}

mapped : (probe_irq irq_grant resources device.board).0 ≡ pos 0
unfolding probe_irq map_bars setup_irq
mapped = refl

left : (probe grant resources 0 device).2.allocated ≡ true
unfolding probe probe_enabled probe_rest probe_irq map_bars setup_irq
left = refl

-- The region of a BAR that cannot be mapped stays requested when the probe has failed.
region_left :
    (probe
        (record grant { irq = record irq_grant { remap = λ i p. 0 } })
        resources
        0
        device).2.board.requested
      0
    ≡ true
unfolding probe probe_enabled probe_rest probe_irq map_bars unmap_loop
region_left = refl

-- The interrupt stays requested where the character device cannot be added.
irq_left :
    (probe (record grant { cdev = negsuc 11 }) resources 0 device).2.board.irq_requested ≡ true
unfolding probe probe_enabled probe_rest probe_irq map_bars setup_irq unmap_loop
irq_left = refl

probe-max_devices_example :
    devices_left resources (grant ∷ grant ∷ grant ∷ grant ∷ grant ∷ []) 0 device ≤ max_devices - 0
probe-max_devices_example =
    probe-max_devices resources (grant ∷ grant ∷ grant ∷ grant ∷ grant ∷ []) 0 device refl

remove-probe_example :
    (d' : Device) × (remove (record (probe grant resources 0 device).2 { kmem = kmem; umem = umem })
      ≡ some d')
    × (d'.enabled ≡ false)
    × Unheld d'.board
    × (d'.kmem.kmem_list ≡ [])
    × (d'.umem.held ≡ umem.held)
remove-probe_example = remove-probe grant resources 0 device kmem umem ((λ i. refl), refl) refl left

remove-probe_attrs_example : Ended no_attrs (probe no_attrs resources 0 device)
remove-probe_attrs_example = remove-probe_attrs no_attrs resources 0 device refl refl refl

-- The kernel grants all but the attributes, and the probe returns 0.
not_reported : (probe no_attrs resources 0 device).0 ≡ pos 0
unfolding probe probe_enabled probe_rest probe_irq map_bars setup_irq unmap_loop
not_reported = refl
