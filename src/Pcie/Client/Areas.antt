-- ===== src/Pcie/Client/Areas.antt =====
-- history/sw/lib/pcie/pciDriver_Capi.c: the opening of a device, its BARs, its interrupts and its
-- configuration space. The structures on the stack hold what `info` and `val` say.
use bpm_gw.Base.{
  ℤ, pos, negsuc, ℕ, ◌+◌, ◌-◌, ◌*◌, ◌%◌, ◌^◌, Bool, true, false, not, ◌||◌, Option, none, some,
  bit_and, ◌==◌, ltb, if◌then◌else◌, ◌>>=◌,
}
use bpm_gw.Bus.{ok, failed}
use bpm_gw.Pcie.Kmem.{KmemHandle}
use bpm_gw.Pcie.Umem.Sgmap.{UmemHandle}
use bpm_gw.Pcie.Ioctl.{
  Privdata, is_zero, ioctl_mmap_mode, ioctl_mmap_area, ioctl_kmem_sync, ioctl_umem_sync,
  ioctl_wait_interrupt, ioctl_clear_ioq,
}
use bpm_gw.Pcie.Config.{
  ConfigSpace, PciCmd, PciDev, BoardInfo, store_low, ioctl_pci_config_read_write, ioctl_pci_info,
}
use bpm_gw.Pcie.Client.{
  Process, PdKmem, PdUmem, Answers, sys, with_driver, lock, unlock, unmapped, os_mmap,
  pd_getpagemask,
}

-- `pd_device_t`: `name` is the number in the name of the node, `mmap_mutex` whether it is initialised.
pub record PdDevice : Type 0 where
  pub handle : ℤ
  pub device : ℕ
  pub name : ℕ
  pub mmap_mutex : Bool

-- `opened` is what `open` returns for the node.
unfoldable pub pd_open : Bool → (ℕ → ℤ) → ℕ → PdDevice → ℤ × PdDevice
pd_open given opened dev d =
    let named = record d { device = dev; name = dev } in
    let fd = opened dev in
    let none_there : ℤ × PdDevice = (failed, named) in
    if not given then (failed, d) else elim fd [
      | pos n ↦ (ok, record named { handle = pos n; mmap_mutex = true })
      | negsuc n ↦ none_there
    ]

-- `closed` is what `close` returns.
unfoldable pub pd_close : (ℤ → ℤ) → PdDevice → ℤ × PdDevice
pd_close closed d = (closed d.handle, record d { mmap_mutex = false })

abbrev pub ok_or_failed : ℤ → ℤ
ok_or_failed e = if is_zero e then ok else failed

unfoldable pub pd_sync_kernel_memory : Bool → ℕ → PdKmem → Process → ℤ
pd_sync_kernel_memory given dir h p =
    let kh : KmemHandle = record { pa = h.pa; size = h.size; handle_id = h.handle_id } in
    if not given then failed else ok_or_failed (sys (ioctl_kmem_sync (some (kh, dir)) p.driver))

unfoldable pub pd_sync_user_memory : Bool → ℕ → PdUmem → Process → ℤ
pd_sync_user_memory given dir h p =
    let uh : UmemHandle = record {
      vma = h.vma;
      size = h.size;
      handle_id = h.handle_id;
      dir = dir;
    } in
    if not given then failed else ok_or_failed (sys (ioctl_umem_sync (some uh) p.driver))

-- `others` and the fuel are those of the driver's wait.
unfoldable pub pd_wait_for_interrupt :
    (ℕ → Privdata → Privdata) → ℕ → Bool → ℕ → Process → Option (ℤ × Process)
pd_wait_for_interrupt others fuel given int_id p =
    let refused : ℤ × Process = (failed, p) in
    if not given
    then some refused
    else (ioctl_wait_interrupt others fuel int_id p.driver >>= λ r.
        some (ok_or_failed (sys r.0), with_driver p r.1))

unfoldable pub pd_clear_interrupt_queue : Bool → ℕ → Process → ℤ × Process
pd_clear_interrupt_queue given int_id p =
    let (e, d) = ioctl_clear_ioq int_id p.driver in
    if not given then (failed, p) else (ok_or_failed (sys e), with_driver p d)

-- An `unsigned long` as an `int`.
abbrev pub as_int : ℕ → ℤ
as_int v = let low = v % 2 ^ 32 in if ltb low (2 ^ 31) then pos low else negsuc (2 ^ 32 - 1 - low)

-- `pd_mapBAR` from the result of `mmap` on
unfoldable pub bar_pointer : BoardInfo → ℕ → Option ℕ → Process → Option (ℕ × Process)
bar_pointer i bar mem p =
    let null : Option (ℕ × Process) = some (0, p) in
    elim mem [
      | none ↦ null
      | some a ↦
          if a == 0
          then null
          else (pd_getpagemask >>= λ m. some ((a + bit_and (i.bar_start bar) m) % 2 ^ 64, p))
    ]

-- With the mutex held: two errors return without unlocking it.
unfoldable pub map_bar_area : PciDev → Answers → BoardInfo → ℕ → Process → Option (ℕ × Process)
unfolding os_mmap bar_pointer
map_bar_area dev k i bar p =
    let (e, d) = ioctl_mmap_mode 0 p.driver in
    let (e', d') = ioctl_mmap_area bar d in
    let (mem, p1) = os_mmap dev k (i.bar_length bar) (with_driver p d') in
    let no_mode : Option (ℕ × Process) = some (0, with_driver p d) in
    let no_area : Option (ℕ × Process) = some (0, with_driver p d') in
    if not (is_zero e)
    then no_mode
    else if not (is_zero e')
    then no_area
    else bar_pointer i bar mem (unlock p1)

module _ {S : Type 0} (space : ConfigSpace S) (dev : PciDev) where
  -- `PCIDRIVER_IOC_PCI_INFO` on a structure of the stack: none where the call fails.
  unfoldable pub board_info : BoardInfo → S → Option BoardInfo × S
  unfolding ioctl_pci_info
  board_info info s =
      let (e, user, s1) = ioctl_pci_info space dev (some info) true s in
      ((if is_zero e then user else none), s1)

  -- `||` is the logical operator.
  unfoldable pub pd_get_id : Bool → BoardInfo → S → ℤ × S
  unfolding board_info
  pd_get_id given info s =
      let (got, s1) = board_info info s in
      let id : ℤ = elim got [
        | none ↦ failed
        | some i ↦ if not (i.vendor_id == 0) || not (i.device_id == 0) then pos 1 else pos 0
      ] in
      if not given then (failed, s) else (id, s1)

  -- The length is returned as an `int`.
  unfoldable pub pd_get_bar_size : Bool → BoardInfo → ℕ → S → ℤ × S
  unfolding board_info
  pd_get_bar_size given info bar s =
      let (got, s1) = board_info info s in
      let size : ℤ = elim got [ none ↦ failed | some i ↦ as_int (i.bar_length bar) ] in
      if not given || ltb 5 bar then (failed, s) else (size, s1)

  -- The address, with 0 for a null pointer.
  unfoldable pub pd_map_bar :
      Bool → Answers → BoardInfo → ℕ → S → Process → Option (ℕ × S × Process)
  unfolding board_info map_bar_area
  pd_map_bar given k info bar s p =
      let (got, s1) = board_info info s in
      let null : Option (ℕ × S × Process) = some (0, s, p) in
      let no_info : Option (ℕ × S × Process) = some (0, s1, p) in
      if not given || ltb 5 bar then null else elim got [
        | none ↦ no_info
        | some i ↦ lock p >>= λ q. map_bar_area dev k i bar q >>= λ r. some (r.0, s1, r.1)
      ]

  unfoldable pub pd_unmap_bar : Bool → BoardInfo → ℕ → ℕ → S → Process → Option (ℤ × S × Process)
  unfolding board_info
  pd_unmap_bar given info bar ptr s p =
      let (got, s1) = board_info info s in
      let refused : Option (ℤ × S × Process) = some (failed, s, p) in
      let no_info : Option (ℤ × S × Process) = some (failed, s1, p) in
      if not given || ltb 5 bar then refused else elim got [
        | none ↦ no_info
        | some i ↦ pd_getpagemask >>= λ m.
            let start = (ptr + 2 ^ 64 - bit_and (i.bar_start bar) m) % 2 ^ 64 in
            some (ok, s1, unmapped start (i.bar_length bar) p)
      ]

  -- `bytes` is 1, 2 or 4 and `size` the number that the driver has for it; the result of `ioctl` is not
  -- looked at. Where the pointer is null the result is -1 in the type of the value.
  unfoldable pub read_config_value : Bool → ℕ → ℕ → ℕ → ℕ → S → ℕ × S
  unfolding ioctl_pci_config_read_write
  read_config_value given bytes size val addr s =
      let cmd : PciCmd = record { size = size; addr = addr; val = val } in
      let (e, user, s1) = ioctl_pci_config_read_write space true (some cmd) true s in
      let after : PciCmd = elim user [ none ↦ cmd | some c ↦ c ] in
      if not given then (2 ^ (8 * bytes) - 1, s) else (after.val % 2 ^ (8 * bytes), s1)

  abbrev pub pd_read_config_byte : Bool → ℕ → ℕ → S → ℕ × S
  pd_read_config_byte given val addr s = read_config_value given 1 1 val addr s

  abbrev pub pd_read_config_word : Bool → ℕ → ℕ → S → ℕ × S
  pd_read_config_word given val addr s = read_config_value given 2 2 val addr s

  abbrev pub pd_read_config_dword : Bool → ℕ → ℕ → S → ℕ × S
  pd_read_config_dword given val addr s = read_config_value given 4 3 val addr s

  unfoldable pub write_config_value : Bool → ℕ → ℕ → ℕ → S → ℤ × S
  unfolding ioctl_pci_config_read_write
  write_config_value given size val addr s =
      let cmd : PciCmd = record { size = size; addr = addr; val = val } in
      let (e, user, s1) = ioctl_pci_config_read_write space false (some cmd) true s in
      if not given then (failed, s) else (ok, s1)

  abbrev pub pd_write_config_byte : Bool → ℕ → ℕ → ℕ → S → ℤ × S
  pd_write_config_byte given val addr v s = write_config_value given 1 (store_low 1 v val) addr s

  abbrev pub pd_write_config_word : Bool → ℕ → ℕ → ℕ → S → ℤ × S
  pd_write_config_word given val addr v s = write_config_value given 2 (store_low 2 v val) addr s

  abbrev pub pd_write_config_dword : Bool → ℕ → ℕ → ℕ → S → ℤ × S
  pd_write_config_dword given val addr v s = write_config_value given 3 (store_low 4 v val) addr s
