-- ===== src/Pcie/Client/Buffers.antt =====
-- history/sw/lib/pcie/pciDriver_Capi.c: a kernel buffer and a BAR that are mapped and then given back.
use bpm_gw.Base.{
  ℤ, pos, ℕ, ◌+◌, ◌%◌, ◌^◌, ◌≡◌, ◌≢◌, refl, sym, ap, ap₂, ◌∙◌, true, false, not, ◌&&◌, ◌⊎◌, none,
  some, List, ◌∷◌, ◌==◌, inl, inr, Bool-cases, All, ==_self, ==_ne,
}
use bpm_gw.Bus.{ok}
use bpm_gw.Pcie.Kmem.{Kmem, KmemHandle, Grant, kmem_alloc, kmem_free}
use bpm_gw.Pcie.Kmem.Entries.{IsValid, kmem_free-kmem_alloc}
use bpm_gw.Pcie.Ioctl.{Privdata, is_zero, ioctl_mmap_mode, ioctl_kmem_alloc, ioctl_kmem_free}
use bpm_gw.Pcie.Bars.{mmap}
use bpm_gw.Pcie.Config.{PciDev}
use bpm_gw.Pcie.Client.{
  Process, PdKmem, Answers, sys, with_driver, unlock, os_mmap, whole_pages, munmap,
  map_kernel_memory, placed, alloc_rest, pd_alloc_kernel_memory, pd_free_kernel_memory,
}
use bpm_gw.Pcie.Client.Mutex.{lock-free}

-- The process as it was, but for the counter of the ids and for the mode of the mappings.
abbrev pub Restored : Process → Process → Type 0
Restored p q =
    (q.locked ≡ p.locked)
    × (q.mapped ≡ p.mapped)
    × (q.driver.kmem.kmem_list ≡ p.driver.kmem.kmem_list)
    × (q.driver.kmem.attrs ≡ p.driver.kmem.attrs)
    × (q.driver.umem ≡ p.driver.umem)

-- The kernel gives a buffer at a bus address that no buffer has yet.
pub record Gives (g : Grant) (k : Kmem) : Type 0 where
  pub valid : IsValid k
  pub cpua : ℕ
  pub dma : ℕ
  pub memory : g.entry_memory ≡ true
  pub attribute : g.sysfs_result ≡ 0
  pub address : g.dma_memory ≡ some (cpua, dma)
  pub unused : All (λ e. e.dma_handle ≢ dma) k.kmem_list

-- What the call of the driver gives, where the kernel gives a buffer.
alloc-granted :
    (g : Grant) (kh : KmemHandle) (d : Privdata)
    → Gives g d.kmem
    → ioctl_kmem_alloc (some kh) g true d
      ≡ (pos 0, some (kmem_alloc g kh d.kmem).1, record d { kmem = (kmem_alloc g kh d.kmem).2 })
unfolding ioctl_kmem_alloc
alloc-granted g kh d gives =
    let (zero, back) =
      kmem_free-kmem_alloc g kh d.kmem gives.cpua gives.dma gives.valid gives.memory gives.attribute
        gives.address gives.unused in
    rw zero refl

-- Freeing what was allocated, on a driver with any mode.
free-granted :
    (g : Grant) (kh : KmemHandle) (d : Privdata) (mode : ℕ)
    → Gives g d.kmem
    → ioctl_kmem_free
        (some (kmem_alloc g kh d.kmem).1)
        (record d { mmap_mode = mode; kmem = (kmem_alloc g kh d.kmem).2 })
      ≡ (
        pos 0,
        record d {
          mmap_mode = mode;
          kmem = record d.kmem { kmem_count = (d.kmem.kmem_count + 1) % 2 ^ 32 };
        },
      )
unfolding ioctl_kmem_free
free-granted g kh d mode gives =
    let (zero, back) =
      kmem_free-kmem_alloc g kh d.kmem gives.cpua gives.dma gives.valid gives.memory gives.attribute
        gives.address gives.unused in
    rw back refl

-- Only `pa` decides what is freed.
free_by_pa :
    (a b : KmemHandle) (d : Privdata)
    → a.pa ≡ b.pa
    → ioctl_kmem_free (some a) d ≡ ioctl_kmem_free (some b) d
unfolding ioctl_kmem_free kmem_free
free_by_pa a b d same = rw same refl

abbrev at_kmem : Process → Process
at_kmem p = with_driver p (record p.driver { mmap_mode = 1 })

-- Where `mmap` is called, it gives nothing, or the area with its length.
pub os_mmap-cases :
    (dev : PciDev) (k : Answers) (len : ℕ) (p : Process)
    → (os_mmap dev k len p ≡ (none, p))
      ⊎ (os_mmap dev k len p ≡ (some k.area, record p { mapped = (k.area, len) ∷ p.mapped }))
unfolding os_mmap
os_mmap-cases dev k len p =
    elim (Bool-cases (
      not (len == 0)
      && is_zero
          (mmap k.remap k.remap_kmem dev.resources k.area (k.area + whole_pages len) p.driver))) [
            | inl there ↦ inr (rw there refl)
            | inr refused ↦ inl (rw refused refl)
          ]

map_kernel_memory-none :
    (dev : PciDev) (k : Answers) (kh : KmemHandle) (size : ℕ) (h : PdKmem) (p : Process)
    → os_mmap dev k size (at_kmem p) ≡ (none, at_kmem p)
    → map_kernel_memory dev k kh size h p
      ≡ (0, h, with_driver (unlock p) (ioctl_kmem_free (some kh) (at_kmem p).driver).1)
unfolding map_kernel_memory placed ioctl_mmap_mode
map_kernel_memory-none dev k kh size h p failed = ap (placed kh h) failed

map_kernel_memory-some :
    (dev : PciDev) (k : Answers) (kh : KmemHandle) (size : ℕ) (h : PdKmem) (p : Process)
    → k.area ≢ 0
    → os_mmap dev k size (at_kmem p)
      ≡ (some k.area, record (at_kmem p) { mapped = (k.area, size) ∷ p.mapped })
    → map_kernel_memory dev k kh size h p ≡ (
      k.area,
      record h { mem = k.area },
      unlock (record (at_kmem p) { mapped = (k.area, size) ∷ p.mapped }),
    )
unfolding map_kernel_memory placed ioctl_mmap_mode
map_kernel_memory-some dev k kh size h p there mapped =
    ap (placed kh h) mapped ∙ rw (==_ne k.area 0 there) refl

-- A call that gives null has restored the process; else freeing the buffer restores it.
abbrev pub Given : Process → ℕ × PdKmem × Process → Type 0
Given p (a, h, q) =
    ((a ≡ 0) × Restored p q)
    ⊎ ((a ≢ 0)
        × ((pd_free_kernel_memory true h q).0 ≡ ok)
        × Restored p (pd_free_kernel_memory true h q).1)

pub unmap_first : (a len : ℕ) (l : List (ℕ × ℕ)) → munmap a len ((a, len) ∷ l) ≡ l
unmap_first a len l = rw (==_self a, ==_self len) refl

pd_free_kernel_memory-some :
    (h : PdKmem) (p : Process) (d : Privdata) (l : List (ℕ × ℕ))
    → munmap h.mem h.size p.mapped ≡ l
    → ioctl_kmem_free (some (record { pa = h.pa; size = h.size; handle_id = h.handle_id })) p.driver
      ≡ (pos 0, d)
    → pd_free_kernel_memory true h p ≡ (ok, record p { driver = d; mapped = l })
unfolding pd_free_kernel_memory
pd_free_kernel_memory-some h p d l unmaps freed =
    ap₂ (λ (r : ℤ × Privdata) (m : List (ℕ × ℕ)). (sys r.0, record p { driver = r.1; mapped = m }))
      freed unmaps

map_kernel_memory-Given :
    (dev : PciDev) (k : Answers) (g : Grant) (kh : KmemHandle) (size : ℕ) (h : PdKmem) (p : Process)
    → Gives g p.driver.kmem
    → k.area ≢ 0
    → p.locked ≡ false
    → h.pa ≡ (kmem_alloc g kh p.driver.kmem).1.pa
    → h.size ≡ size
    → Given p (
        map_kernel_memory dev k (kmem_alloc g kh p.driver.kmem).1 size h (record p {
          driver = record p.driver { kmem = (kmem_alloc g kh p.driver.kmem).2 };
          locked = true;
        }))
map_kernel_memory-Given dev k g kh size h p gives there idle same_pa same_size =
    let kh1 = (kmem_alloc g kh p.driver.kmem).1 in
    let q : Process = record p {
      driver = record p.driver { kmem = (kmem_alloc g kh p.driver.kmem).2 };
      locked = true;
    } in
    let freed = free-granted g kh p.driver 1 gives in
    elim (os_mmap-cases dev k size (at_kmem q)) [
      | inl refused ↦
          rw (map_kernel_memory-none dev k kh1 size h q refused, freed)
            (inl (refl, (sym idle, refl, refl, refl, refl)))
      | inr mapped ↦
          let h1 : PdKmem = record h { mem = k.area } in
          let q1 = unlock (record (at_kmem q) { mapped = (k.area, size) ∷ p.mapped }) in
          let d1 : Privdata = record p.driver {
            mmap_mode = 1;
            kmem = record p.driver.kmem { kmem_count = (p.driver.kmem.kmem_count + 1) % 2 ^ 32 };
          } in
          let done =
            pd_free_kernel_memory-some h1 q1 d1 p.mapped
              (ap (λ (n : ℕ). munmap k.area n ((k.area, size) ∷ p.mapped)) same_size
                ∙ unmap_first k.area size p.mapped)
              (free_by_pa (record { pa = h.pa; size = h.size; handle_id = h.handle_id }) kh1
                  q1.driver same_pa
                ∙ freed) in
          rw (map_kernel_memory-some dev k kh1 size h q there mapped, done)
            (inr (there, refl, (sym idle, refl, refl, refl, refl)))
    ]

-- Where the mutex is unlocked, the kernel gives a buffer at a bus address that no buffer has yet, and it
-- maps nothing at address 0, `pd_allocKernelMemory` returns. Either it gives null, and then the mutex,
-- the mapped areas, the list of buffers and the attributes are as before; or `pd_freeKernelMemory` of
-- the handle that it has filled returns 0 and makes them as before.
pub pd_free_kernel_memory-pd_alloc_kernel_memory :
    (dev : PciDev) (k : Answers) (size : ℕ) (kh : KmemHandle) (h : PdKmem) (p : Process)
    → p.locked ≡ false
    → k.area ≢ 0
    → Gives k.kmem p.driver.kmem
    → (r : ℕ × PdKmem × Process) × (pd_alloc_kernel_memory dev k true size kh h p ≡ some r)
      × Given p r
unfolding pd_alloc_kernel_memory alloc_rest
pd_free_kernel_memory-pd_alloc_kernel_memory dev k size kh h p idle there gives =
    let kh0 : KmemHandle = record kh { size = size } in
    let kh1 = (kmem_alloc k.kmem kh0 p.driver.kmem).1 in
    let d1 : Privdata = record p.driver { kmem = (kmem_alloc k.kmem kh0 p.driver.kmem).2 } in
    let h1 : PdKmem = record h { handle_id = kh1.handle_id; pa = kh1.pa; size = size } in
    (
      map_kernel_memory dev k kh1 size h1 (record p { driver = d1; locked = true }),
      rw (alloc-granted k.kmem kh0 p.driver gives, lock-free (with_driver p d1) idle) refl,
      map_kernel_memory-Given dev k k.kmem kh0 size h1 p gives there idle refl refl,
    )
