-- ===== src/Pcie/Bars.antt =====
-- history/sw/drivers/pcie/src/int.c, where a probe maps the BARs and sets up the interrupt, and base.c,
-- where a user program maps a BAR. What the kernel answers is an argument. `requested` and
-- `irq_requested` are what the kernel has given to the device and not got back.
pub mod Held
use bpm_gw.Base.{
  ℤ, pos, negsuc, ℕ, zero, suc, ◌+◌, ◌-◌, ◌%◌, ◌^◌, Bool, true, false, not, ◌||◌, Option, none,
  some, ◌==◌, ltb, leb, if◌then◌else◌,
}
use bpm_gw.Pcie.Kmem.{Kmem, KmemEntry, mmap_kmem, size_mismatch, eagain}
use bpm_gw.Pcie.Umem.{einval}
use bpm_gw.Pcie.Ioctl.{is_zero, int_maxsources, Privdata}

-- What the PCI core tells of a BAR.
pub record Resource : Type 0 where
  pub start : ℕ
  pub len : ℕ
  pub is_io : Bool
  pub prefetch : Bool

-- The fields of `pcidriver_privdata_t` for BARs and interrupts, with 0 for a null pointer.
pub record Board : Type 0 where
  pub bars_kmapped : ℕ → ℕ
  pub requested : ℕ → Bool
  pub outstanding : ℕ → ℕ
  pub irq_enabled : Bool
  pub irq_requested : Bool

-- The answers of the kernel: `request` is the result of `pci_request_region`, `remap` the address of
-- `ioremap` if the flag is set and of `ioremap_nocache` if not, `int_pin` the byte that can be read.
pub record IrqGrant : Type 0 where
  pub request : ℕ → ℤ
  pub remap : ℕ → Bool → ℕ
  pub int_pin : Option ℕ
  pub int_line : Option ℕ
  pub request_irq : ℤ

abbrev pub eio : ℤ
eio = negsuc 4

abbrev pub set_at {ℓ} : {A : Type ℓ} → ℕ → A → (ℕ → A) → ℕ → A
set_at i v f k = if k == i then v else f k

-- The body of the second loop of `pcidriver_probe_irq`.
unfoldable pub map_bar : IrqGrant → (ℕ → Resource) → ℕ → Board → ℤ × Board
map_bar g resources i b =
    let r = resources i in
    let held = record b { requested = set_at i true b.requested } in
    let addr = g.remap i r.prefetch in
    let kmapped = record held { bars_kmapped = set_at i addr b.bars_kmapped } in
    if r.start == 0 || r.len == 0
    then (pos 0, b)
    else if r.is_io
    then (pos 0, b)
    else if not (is_zero (g.request i))
    then (g.request i, b)
    else if addr == 0
    then (eio, kmapped)
    else (pos 0, kmapped)

-- The rounds from `i` on.
unfoldable pub map_bars : IrqGrant → (ℕ → Resource) → ℕ → ℕ → Board → ℤ × Board
unfolding map_bar
map_bars g resources zero i b = (pos 0, b)
map_bars g resources (suc n) i b =
    let (e, b1) = map_bar g resources i b in
    let rest = map_bars g resources n (suc i) b1 in if is_zero e then rest else (e, b1)

-- `pcidriver_probe_irq` behind the loops: it returns 0 in any case.
unfoldable pub setup_irq : IrqGrant → Board → Board
setup_irq g b =
    let idle = record b {
      outstanding = λ i. if ltb i int_maxsources then 0 else b.outstanding i;
      irq_enabled = false;
    } in
    let pin : ℕ = elim g.int_pin [ none ↦ 0 | some p ↦ p ] in
    let enabled = record idle { irq_enabled = true; irq_requested = true } in
    if pin == 0 then idle else elim g.int_line [
      | none ↦ idle
      | some line ↦ if is_zero g.request_irq then enabled else idle
    ]

unfoldable pub probe_irq : IrqGrant → (ℕ → Resource) → Board → ℤ × Board
probe_irq g resources b =
    let cleared = record b { bars_kmapped = λ i. if ltb i 6 then 0 else b.bars_kmapped i } in
    let (e, b1) = map_bars g resources 6 0 cleared in
    if is_zero e then (pos 0, setup_irq g b1) else (e, b1)

-- The loop of `pcidriver_irq_unmap_bars` from `i` on.
unfoldable pub unmap_loop : ℕ → ℕ → Board → Board
unmap_loop zero i b = b
unmap_loop (suc n) i b =
    unmap_loop n (suc i)
      (if b.bars_kmapped i == 0 then b else record b { requested = set_at i false b.requested })

abbrev pub irq_unmap_bars : Board → Board
irq_unmap_bars b = unmap_loop 6 0 b

abbrev pub free_irq : Board → Board
free_irq b = if b.irq_enabled then record b { irq_requested = false } else b

unfoldable pub remove_irq : Board → Board
remove_irq b = irq_unmap_bars (free_irq b)

-- `pcidriver_mmap_pci`: the result and the length that is mapped at the start of the user's area.
-- `remap` is the result of mapping this length.
unfoldable pub mmap_pci : (ℕ → ℕ) → Resource → ℕ → ℕ → ℤ × Option ℕ
mmap_pci remap r vm_start vm_end =
    let vma_size = (vm_end + 2 ^ 64 - vm_start) % 2 ^ 64 in
    let mapped : Option ℕ = some r.len in
    if size_mismatch r.len vma_size
    then (einval, none)
    else if remap r.len == 0
    then (pos 0, mapped)
    else (eagain, none)

-- `pcidriver_mmap`, without the length
unfoldable pub mmap : (ℕ → ℕ) → (KmemEntry → ℕ → ℕ) → (ℕ → Resource) → ℕ → ℕ → Privdata → ℤ
mmap remap remap_kmem resources vm_start vm_end p =
    if p.mmap_mode == 0
    then (if ltb 5 p.mmap_area
        then einval
        else (mmap_pci remap (resources p.mmap_area) vm_start vm_end).0)
    else if p.mmap_mode == 1
    then mmap_kmem remap_kmem vm_start vm_end p.kmem
    else einval
