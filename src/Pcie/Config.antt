-- ===== src/Pcie/Config.antt =====
-- history/sw/drivers/pcie/src/ioctl.c: the calls on the PCI configuration space and on the description of
-- the board, and the dispatch of the calls.
-- The configuration space is the kernel's; a `ConfigSpace` says what an access gives. `val` is a union,
-- whose byte and word are the low ones of its dword. Whether a copy from or to the user's memory
-- succeeds is an argument of the call.
use bpm_gw.Base.{
  ℤ, pos, ℕ, ◌+◌, ◌*◌, ◌/◌, ◌%◌, ◌^◌, Bool, not, Option, none, some, bit_and, ◌==◌, ltb,
  if◌then◌else◌, ◌>>=◌,
}
use bpm_gw.Pcie.Kmem.{KmemHandle, Grant, efault}
use bpm_gw.Pcie.Umem.{SgList, einval}
use bpm_gw.Pcie.Umem.Sgmap.{UmemHandle, UmemGrant, ioctl_umem_sgunmap}
use bpm_gw.Pcie.Ioctl.{
  Privdata, Copies, is_zero, ioctl_mmap_mode, ioctl_mmap_area, ioctl_kmem_alloc, ioctl_kmem_free,
  ioctl_kmem_sync, ioctl_umem_sgmap, ioctl_umem_sgget, ioctl_umem_sync, ioctl_wait_interrupt,
  ioctl_clear_ioq,
}
use bpm_gw.Pcie.Bars.{Resource}

-- An access of 1, 2 or 4 bytes at an address: the result, and the value that is read.
pub record ConfigSpace (S : Type 0) : Type 0 where
  pub read_config : ℕ → ℕ → S → ℤ × ℕ × S
  pub write_config : ℕ → ℕ → ℕ → S → ℤ × S

-- `pci_cfg_cmd`
pub record PciCmd : Type 0 where
  pub size : ℕ
  pub addr : ℕ
  pub val : ℕ

-- The number of bytes of `PCIDRIVER_PCI_CFG_SZ_BYTE`, `_WORD` and `_DWORD`.
abbrev pub cfg_bytes : ℕ → Option ℕ
cfg_bytes size =
    if size == 1 then some 1 else if size == 2 then some 2 else if size == 3 then some 4 else none

-- The union after its first bytes were stored.
abbrev pub store_low : ℕ → ℕ → ℕ → ℕ
store_low bytes v old = v % 2 ^ (8 * bytes) + old / 2 ^ (8 * bytes) * 2 ^ (8 * bytes)

-- `pci_board_info`
pub record BoardInfo : Type 0 where
  pub vendor_id : ℕ
  pub device_id : ℕ
  pub bus : ℕ
  pub slot : ℕ
  pub devfn : ℕ
  pub interrupt_pin : ℕ
  pub interrupt_line : ℕ
  pub irq : ℕ
  pub bar_start : ℕ → ℕ
  pub bar_length : ℕ → ℕ

-- What the kernel keeps of the device.
pub record PciDev : Type 0 where
  pub vendor : ℕ
  pub device : ℕ
  pub bus_number : ℕ
  pub devfn : ℕ
  pub resources : ℕ → Resource

-- `PCI_INTERRUPT_PIN` and `PCI_INTERRUPT_LINE`
abbrev pub pci_interrupt_pin : ℕ
pci_interrupt_pin = 0x3d

abbrev pub pci_interrupt_line : ℕ
pci_interrupt_line = 0x3c

module _ {S : Type 0} (space : ConfigSpace S) where
  -- The access; its result is kept in `ret` and is not used.
  unfoldable pub config_access : Bool → ℕ → PciCmd → S → PciCmd × S
  config_access is_read bytes c s =
      let (ret, v, s1) = space.read_config bytes c.addr s in
      let (ret', s2) = space.write_config bytes c.addr (c.val % 2 ^ (8 * bytes)) s in
      if is_read then (record c { val = store_low bytes v c.val }, s1) else (c, s2)

  unfoldable pub ioctl_pci_config_read_write :
      Bool → Option PciCmd → Bool → S → ℤ × Option PciCmd × S
  unfolding config_access
  ioctl_pci_config_read_write is_read none written s = (efault, none, s)
  ioctl_pci_config_read_write is_read (some c) written s = elim (cfg_bytes c.size) [
    | none ↦ (einval, none, s)
    | some bytes ↦
        let (c', s1) = config_access is_read bytes c s in
        let user : Option PciCmd = if written then some c' else none in
        ((if written then pos 0 else efault), user, s1)
  ]

  unfoldable pub ioctl_pci_info : PciDev → Option BoardInfo → Bool → S → ℤ × Option BoardInfo × S
  ioctl_pci_info dev none written s = (efault, none, s)
  ioctl_pci_info dev (some info) written s =
      let (e, pin, s1) = space.read_config 1 pci_interrupt_pin s in
      let (e', line, s2) = space.read_config 1 pci_interrupt_line s1 in
      let info' = record info {
        vendor_id = dev.vendor % 2 ^ 16;
        device_id = dev.device % 2 ^ 16;
        bus = dev.bus_number % 2 ^ 16;
        slot = bit_and (dev.devfn / 2 ^ 3) 0x1f;
        devfn = dev.devfn % 2 ^ 16;
        interrupt_pin = pin % 2 ^ 8;
        interrupt_line = line % 2 ^ 8;
        bar_start = λ i. if ltb i 6 then (dev.resources i).start else info.bar_start i;
        bar_length = λ i. if ltb i 6 then (dev.resources i).len else info.bar_length i;
      } in
      let user : Option BoardInfo = if written then some info' else none in
      if not (is_zero e)
      then (e, none, s1)
      else if not (is_zero e')
      then (e', none, s2)
      else ((if written then pos 0 else efault), user, s2)

-- A call with its argument and the answers of the kernel; `unknown` is any other number.
pub data Request : Type 0 where
  mmap_mode mmap_area waiti clear_ioq : ℕ → Request
  pci_cfg : Bool → Option PciCmd → Bool → Request
  pci_info : Option BoardInfo → Bool → Request
  kmem_alloc : Option KmemHandle → Grant → Bool → Request
  kmem_free : Option KmemHandle → Request
  kmem_sync : Option (KmemHandle × ℕ) → Request
  umem_sgmap : Option UmemHandle → UmemGrant → Bool → Request
  umem_sgunmap : Option UmemHandle → Request
  umem_sgget : Copies → SgList → Request
  umem_sync : Option UmemHandle → Request
  unknown : Request

-- What the call has written to the user's structure.
pub data Reply : Type 0 where
  no_reply : Reply
  cfg_reply : Option PciCmd → Reply
  info_reply : Option BoardInfo → Reply
  kmem_reply : Option KmemHandle → Reply
  umem_reply : Option UmemHandle → Reply
  sg_reply : SgList → Reply

-- `ioctl_umem_sgunmap` with its copy of the handle
abbrev pub sgunmap_call : Option UmemHandle → Privdata → ℤ × Reply × Privdata
sgunmap_call none p = (efault, no_reply, p)
sgunmap_call (some h) p =
    let (e, u) = ioctl_umem_sgunmap h p.umem in (e, no_reply, record p { umem = u })

module _ {S : Type 0} (space : ConfigSpace S) (dev : PciDev) (others : ℕ → Privdata → Privdata)
    (fuel : ℕ) where
  -- `pcidriver_ioctl`; `none` is a wait that needs more fuel.
  unfoldable pub ioctl : Request → S → Privdata → Option (ℤ × Reply × S × Privdata)
  unfolding ioctl_pci_config_read_write ioctl_pci_info
  ioctl (mmap_mode arg) s p = let (e, q) = ioctl_mmap_mode arg p in some (e, no_reply, s, q)
  ioctl (mmap_area arg) s p = let (e, q) = ioctl_mmap_area arg p in some (e, no_reply, s, q)
  ioctl (pci_cfg is_read c w) s p =
      let (e, r, s1) = ioctl_pci_config_read_write space is_read c w s in
      some (e, cfg_reply r, s1, p)
  ioctl (pci_info i w) s p =
      let (e, r, s1) = ioctl_pci_info space dev i w s in some (e, info_reply r, s1, p)
  ioctl (kmem_alloc h g w) s p =
      let (e, r, q) = ioctl_kmem_alloc h g w p in some (e, kmem_reply r, s, q)
  ioctl (kmem_free h) s p = let (e, q) = ioctl_kmem_free h p in some (e, no_reply, s, q)
  ioctl (kmem_sync a) s p = some (ioctl_kmem_sync a p, no_reply, s, p)
  ioctl (umem_sgmap h g w) s p =
      let (e, r, q) = ioctl_umem_sgmap h g w p in some (e, umem_reply r, s, q)
  ioctl (umem_sgunmap h) s p = let (e, r, q) = sgunmap_call h p in some (e, r, s, q)
  ioctl (umem_sgget c l) s p = let (e, r, q) = ioctl_umem_sgget c l p in some (e, sg_reply r, s, q)
  ioctl (umem_sync h) s p = some (ioctl_umem_sync h p, no_reply, s, p)
  ioctl (waiti arg) s p =
      ioctl_wait_interrupt others fuel arg p >>= λ r. some (r.0, no_reply, s, r.1)
  ioctl (clear_ioq arg) s p = let (e, q) = ioctl_clear_ioq arg p in some (e, no_reply, s, q)
  ioctl unknown s p = some (einval, no_reply, s, p)
