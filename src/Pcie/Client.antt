-- ===== src/Pcie/Client.antt =====
-- history/sw/lib/pcie/pciDriver_Capi.c: the C library that user programs call, over the calls of the
-- kernel driver on one device.
-- What the kernel and the C library answer is an argument of the call; `given` says that the pointers
-- among the arguments are not null. A structure on the stack that the code does not initialise holds
-- what an argument says. A call of `ioctl` returns 0, or -1 where the driver returns an error. `none` is
-- a wait for a mutex that is locked already, or a loop that needs more fuel.
pub mod Areas
pub mod Mutex
pub mod Session
pub mod Buffers
pub mod BarAreas
pub mod UserMemory
pub mod SgLists
pub mod UserLists
mod Tests
use bpm_gw.Base.{
  ℤ, pos, negsuc, ℕ, zero, suc, ◌+◌, ◌-◌, ◌*◌, ◌/◌, ◌%◌, ◌^◌, Bool, true, false, not, ◌&&◌, ◌||◌,
  Option, none, some, List, [], ◌∷◌, ◌++◌, bit_and, ◌==◌, ltb, if◌then◌else◌, ◌>>=◌, length,
}
use bpm_gw.Bus.{ok, failed}
use bpm_gw.Pcie.Kmem.{KmemHandle, KmemEntry, Grant, page_size}
use bpm_gw.Pcie.Umem.{Segment, SgList}
use bpm_gw.Pcie.Umem.Sgmap.{UmemHandle, UmemGrant, ioctl_umem_sgunmap}
use bpm_gw.Pcie.Ioctl.{
  Privdata, Copies, is_zero, ioctl_mmap_mode, ioctl_mmap_area, ioctl_kmem_alloc, ioctl_kmem_free,
  ioctl_kmem_sync, ioctl_umem_sgmap, ioctl_umem_sgget, ioctl_umem_sync, ioctl_wait_interrupt,
  ioctl_clear_ioq,
}
use bpm_gw.Pcie.Bars.{mmap}
use bpm_gw.Pcie.Config.{
  ConfigSpace, PciCmd, PciDev, BoardInfo, ioctl_pci_config_read_write, ioctl_pci_info,
}

-- A process with the device open: the driver, whether `mmap_mutex` is locked, the areas that are mapped
-- (address and length), and the arrays of `posix_memalign` that are not freed.
pub record Process : Type 0 where
  pub driver : Privdata
  pub locked : Bool
  pub mapped : List (ℕ × ℕ)
  pub arrays : ℕ

-- `pd_kmem_t` and `pd_umem_t`, without the pointer to the device
pub record PdKmem : Type 0 where
  pub pa : ℕ
  pub size : ℕ
  pub mem : ℕ
  pub handle_id : ℕ

pub record PdUmem : Type 0 where
  pub vma : ℕ
  pub size : ℕ
  pub handle_id : ℕ
  pub nents : ℕ
  pub sg : List Segment

-- The answers of the kernel in one call of the library: `area` is the address that it chooses for a
-- mapping, `array` what `posix_memalign` gives.
pub record Answers : Type 0 where
  pub kmem : Grant
  pub umem : UmemGrant
  pub list_memory : Bool
  pub array : Option (List Segment)
  pub area : ℕ
  pub remap : ℕ → ℕ
  pub remap_kmem : KmemEntry → ℕ → ℕ

-- The loop of `pd_getpagemask`.
unfoldable pub mask_loop : ℕ → ℕ → ℕ → Option ℕ
mask_loop zero pagemask temp = none
mask_loop (suc fuel) pagemask temp =
    let rest = mask_loop fuel (pagemask * 2 + 1) (temp / 2) in
    if temp == 1 then some pagemask else rest

-- Thirteen rounds are enough for the page size.
unfoldable pub pd_getpagemask : Option ℕ
unfolding mask_loop
pd_getpagemask = mask_loop 13 0 page_size

-- What `ioctl` returns.
abbrev pub sys : ℤ → ℤ
sys e = if is_zero e then ok else failed

abbrev pub with_driver : Process → Privdata → Process
with_driver p d = record p { driver = d }

unfoldable pub lock : Process → Option Process
lock p = let taken = record p { locked = true } in if p.locked then none else some taken

abbrev pub unlock : Process → Process
unlock p = record p { locked = false }

-- The length of a mapping in whole pages.
abbrev pub whole_pages : ℕ → ℕ
whole_pages len = (len + (page_size - 1)) / page_size * page_size

-- `munmap` of an area as it was mapped.
abbrev pub munmap : ℕ → ℕ → List (ℕ × ℕ) → List (ℕ × ℕ)
munmap a len [] = []
munmap a len ((b, n) ∷ rest) = if (b == a) && (n == len) then rest else (b, n) ∷ munmap a len rest

abbrev pub unmapped : ℕ → ℕ → Process → Process
unmapped a len p = record p { mapped = munmap a len p.mapped }

-- `pd_allockm_err`
abbrev pub at_pd_allockm_err : KmemHandle → PdKmem → Process → ℕ × PdKmem × Process
at_pd_allockm_err kh h p =
    let p1 = unlock p in (0, h, with_driver p1 (ioctl_kmem_free (some kh) p1.driver).1)

-- What `pd_allocKernelMemory` does with the result of `mmap`.
unfoldable pub placed : KmemHandle → PdKmem → Option ℕ × Process → ℕ × PdKmem × Process
placed kh h (none, p) = at_pd_allockm_err kh h p
placed kh h (some a, p) =
    if a == 0 then at_pd_allockm_err kh h p else (a, record h { mem = a }, unlock p)

module _ (dev : PciDev) (k : Answers) where
  -- `mmap` of so many bytes: the address, or `none` for `MAP_FAILED`.
  unfoldable pub os_mmap : ℕ → Process → Option ℕ × Process
  os_mmap len p =
      let e = mmap k.remap k.remap_kmem dev.resources k.area (k.area + whole_pages len) p.driver in
      let placed = record p { mapped = (k.area, len) ∷ p.mapped } in
      let there : Option ℕ × Process = (some k.area, placed) in
      if not (len == 0) && is_zero e then there else (none, p)

  -- `pd_allocKernelMemory` with the mutex held.
  unfoldable pub map_kernel_memory : KmemHandle → ℕ → PdKmem → Process → ℕ × PdKmem × Process
  unfolding os_mmap placed
  map_kernel_memory kh size h p =
      let (e, d) = ioctl_mmap_mode 1 p.driver in
      if is_zero e
      then placed kh h (os_mmap size (with_driver p d))
      else at_pd_allockm_err kh h (with_driver p d)

  -- From the result of the first `ioctl` on.
  unfoldable pub alloc_rest :
      ℤ × Option KmemHandle × Privdata → ℕ → PdKmem → Process → Option (ℕ × PdKmem × Process)
  unfolding lock map_kernel_memory
  alloc_rest (e, none, d) size h p = some (0, h, with_driver p d)
  alloc_rest (e, some kh, d) size h p =
      let p1 = with_driver p d in
      let h1 = record h { handle_id = kh.handle_id; pa = kh.pa; size = size } in
      let refused : Option (ℕ × PdKmem × Process) = some (0, h, p1) in
      if not (is_zero e)
      then refused
      else (lock p1 >>= λ p2. some (map_kernel_memory kh size h1 p2))

  -- The address, 0 for a null pointer, and `*kmem_handle`; `kh` is what the stack holds.
  unfoldable pub pd_alloc_kernel_memory :
      Bool → ℕ → KmemHandle → PdKmem → Process → Option (ℕ × PdKmem × Process)
  unfolding alloc_rest
  pd_alloc_kernel_memory given size kh h p =
      let null : Option (ℕ × PdKmem × Process) = some (0, h, p) in
      if not given
      then null
      else alloc_rest (ioctl_kmem_alloc (some (record kh { size = size })) k.kmem true p.driver)
          size h p

unfoldable pub pd_free_kernel_memory : Bool → PdKmem → Process → ℤ × Process
pd_free_kernel_memory given h p =
    let p1 = unmapped h.mem h.size p in
    let kh : KmemHandle = record { pa = h.pa; size = h.size; handle_id = h.handle_id } in
    let (e, d) = ioctl_kmem_free (some kh) p1.driver in
    if not given then (failed, p) else (sys e, with_driver p1 d)

module _ (k : Answers) where
  -- The user's list for `PCIDRIVER_IOC_UMEM_SGGET`: the array of `posix_memalign`, whose result is not
  -- looked at.
  abbrev pub list_for : ℕ → ℕ → SgList
  list_for handle_id size = record {
    handle_id = handle_id;
    merged = true;
    nents = size / page_size + 1;
    sg = elim k.array [ none ↦ [] | some sg ↦ sg ];
  }

  -- An array that is not there cannot be copied.
  abbrev pub copies : Copies
  copies =
      let there : Bool = elim k.array [ none ↦ false | some sg ↦ true ] in
      record {
        struct_read = true;
        memory = k.list_memory;
        array_read = there;
        array_written = there;
        struct_written = true;
      }

  -- How many arrays `posix_memalign` has given.
  abbrev pub array_count : ℕ
  array_count = elim k.array [ none ↦ 0 | some sg ↦ 1 ]

  abbrev pub free_array : Process → Process
  free_array p = record p { arrays = p.arrays - array_count }

  abbrev pub new_array : Process → Process
  new_array p = record p { arrays = p.arrays + array_count }

  -- From the success of `PCIDRIVER_IOC_UMEM_SGMAP` on.
  unfoldable pub get_list : UmemHandle → ℕ → PdUmem → Process → ℤ × PdUmem × Process
  get_list uh size h p =
      let h1 = record h { handle_id = uh.handle_id } in
      let p1 = new_array p in
      let (e, l, d) = ioctl_umem_sgget copies (list_for uh.handle_id size) p1.driver in
      let unmapped_driver = record d { umem = (ioctl_umem_sgunmap uh d.umem).1 } in
      if not (is_zero e)
      then (failed, h1, free_array (with_driver p1 unmapped_driver))
      else (ok, record h1 { nents = l.nents; sg = l.sg }, with_driver p1 d)

  -- `uh` is what the stack holds.
  unfoldable pub map_rest :
      ℤ × Option UmemHandle × Privdata → ℕ → PdUmem → Process → ℤ × PdUmem × Process
  unfolding get_list
  map_rest (e, none, d) size h p = (failed, h, with_driver p d)
  map_rest (e, some uh, d) size h p =
      if not (is_zero e) then (failed, h, with_driver p d) else get_list uh size h (with_driver p d)

  unfoldable pub pd_map_user_memory :
      Bool → ℕ → ℕ → UmemHandle → PdUmem → Process → ℤ × PdUmem × Process
  unfolding map_rest
  pd_map_user_memory given mem size uh h p =
      if not given
      then (failed, h, p)
      else map_rest
          (ioctl_umem_sgmap (some (record uh { vma = mem; size = size })) k.umem true p.driver) size
          h p

unfoldable pub pd_unmap_user_memory : Bool → UmemHandle → PdUmem → Process → ℤ × Process
pd_unmap_user_memory given uh h p =
    let uh1 = record uh { handle_id = h.handle_id; vma = h.vma; size = h.size } in
    let (e, u) = ioctl_umem_sgunmap uh1 p.driver.umem in
    let p1 = with_driver p (record p.driver { umem = u }) in
    if not given then (failed, p) else (sys e, record p1 { arrays = p1.arrays - 1 })
