-- ===== src/Pcie/Device.antt =====
-- history/sw/drivers/pcie/src/base.c: `pcidriver_probe` and `pcidriver_remove` for a device.
-- What the kernel answers is an argument. `device_count` is the global counter, as a number that does
-- not reach 2 ^ 31. `none` is an access to private data that is not allocated.
pub mod Ends
pub mod Lifetime
mod Loading
use bpm_gw.Base.{
  ℤ, pos, negsuc, ℕ, zero, suc, ◌+◌, ◌-◌, Bool, true, false, not, Option, none, some, [], ◌==◌, leb,
  if◌then◌else◌,
}
use bpm_gw.Pcie.Kmem.{Kmem, kmem_free_all, enomem}
use bpm_gw.Pcie.Umem.Sgmap.{Umem}
use bpm_gw.Pcie.Ioctl.{is_zero}
use bpm_gw.Pcie.Bars.{Resource, Board, IrqGrant, probe_irq, irq_unmap_bars, remove_irq}

abbrev pub max_devices : ℕ
max_devices = 4

abbrev pub enomsg : ℤ
enomsg = negsuc 41

-- A device as the kernel sees it: whether it is enabled, whether its private data are allocated and its
-- character device is added, and the private data.
pub record Device : Type 0 where
  pub enabled : Bool
  pub allocated : Bool
  pub added : Bool
  pub board : Board
  pub kmem : Kmem
  pub umem : Umem

-- The answers of the kernel: `dma_mask_64` and `dma_mask_32` are the results of
-- `pci_set_consistent_dma_mask`, `attrs` says whether all attributes can be created.
pub record ProbeGrant : Type 0 where
  pub enable : ℤ
  pub dma_mask_64 : ℤ
  pub dma_mask_32 : ℤ
  pub memory : Bool
  pub irq : IrqGrant
  pub attrs : Bool
  pub cdev : ℤ

abbrev pub no_kmem : Kmem
no_kmem = record { kmem_count = 0; kmem_list = []; attrs = [] }

-- The zeroed private data. What the kernel holds for the device stays.
abbrev pub fresh_board : Board → Board
fresh_board b = record b { bars_kmapped = λ i. 0; outstanding = λ i. 0; irq_enabled = false }

abbrev pub fresh_device : Device → Device
fresh_device d = record d {
  allocated = true;
  board = fresh_board d.board;
  kmem = no_kmem;
  umem = record d.umem { umem_count = 0; umem_list = []; umem_attrs = [] };
}

-- The labels at the end of `pcidriver_probe`.
abbrev pub at_probe_disable_device : ℤ → ℕ → Device → ℤ × ℕ × Device
at_probe_disable_device err count d = (err, count, record d { enabled = false })

abbrev pub at_probe_nomem : ℤ → ℕ → Device → ℤ × ℕ × Device
at_probe_nomem err count d = at_probe_disable_device err (count - 1) d

abbrev pub at_probe_irq_probe_fail : ℤ → ℕ → Device → ℤ × ℕ × Device
at_probe_irq_probe_fail err count d =
    at_probe_nomem err count (record d { allocated = false; board = irq_unmap_bars d.board })

-- From the call of `pcidriver_probe_irq` on, with its result.
unfoldable pub probe_rest : ProbeGrant → ℤ × Board → ℕ → Device → ℤ × ℕ × Device
probe_rest g (err, b) count d =
    let d1 = record d { board = b } in
    if not (is_zero err)
    then at_probe_irq_probe_fail err count d1
    else if not g.attrs
    then at_probe_irq_probe_fail err count d1
    else if not (is_zero g.cdev)
    then at_probe_irq_probe_fail g.cdev count d1
    else (pos 0, count, record d1 { added = true })

-- From `atomic_inc_return` on.
unfoldable pub probe_enabled : ProbeGrant → (ℕ → Resource) → ℕ → Device → ℤ × ℕ × Device
probe_enabled g resources count d =
    let f = fresh_device d in
    if leb max_devices count
    then at_probe_disable_device enomsg (count + 1) d
    else if not g.memory
    then at_probe_nomem enomem (count + 1) d
    else probe_rest g (probe_irq g.irq resources f.board) (count + 1) f

unfoldable pub probe : ProbeGrant → (ℕ → Resource) → ℕ → Device → ℤ × ℕ × Device
probe g resources count d =
    let d1 = record d { enabled = true } in
    let err = if is_zero g.dma_mask_64 then pos 0 else g.dma_mask_32 in
    if not (is_zero g.enable)
    then (g.enable, count, d)
    else if not (is_zero err)
    then at_probe_disable_device err count d1
    else probe_enabled g resources count d1

unfoldable pub remove : Device → Option Device
remove d =
    if d.allocated
    then some (record d {
      enabled = false;
      allocated = false;
      added = false;
      board = remove_irq d.board;
      kmem = kmem_free_all d.kmem;
    })
    else none
