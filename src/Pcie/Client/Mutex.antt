-- ===== src/Pcie/Client/Mutex.antt =====
-- history/sw/lib/pcie/pciDriver_Capi.c: `mmap_mutex` in each call of the library.
use bpm_gw.Base.{
  ℤ, ℕ, ◌≡◌, refl, Bool, true, false, Option, none, some, ◌==◌, ltb, ◌>>=◌, inl, inr, Bool-cases,
  arith, Option-cases,
}
use bpm_gw.Pcie.Kmem.{KmemHandle}
use bpm_gw.Pcie.Umem.Sgmap.{UmemHandle}
use bpm_gw.Pcie.Ioctl.{
  Privdata, is_zero, ioctl_mmap_mode, ioctl_mmap_area, ioctl_kmem_alloc, ioctl_umem_sgmap,
}
use bpm_gw.Pcie.Config.{ConfigSpace, PciDev, BoardInfo}
use bpm_gw.Pcie.Client.{
  Process, PdKmem, PdUmem, Answers, with_driver, lock, unlock, os_mmap, pd_getpagemask, mask_loop,
  map_kernel_memory, placed, alloc_rest, pd_alloc_kernel_memory, pd_free_kernel_memory, get_list,
  map_rest, pd_map_user_memory, pd_unmap_user_memory,
}
use bpm_gw.Pcie.Client.Areas.{
  board_info, bar_pointer, map_bar_area, pd_map_bar, pd_unmap_bar, pd_clear_interrupt_queue,
}

-- It returns with the mutex unlocked.
abbrev pub Unlocked {ℓ} : {A : Type ℓ} → (A → Process) → Option A → Type 0
Unlocked f none = ⊥
Unlocked f (some r) = (f r).locked ≡ false

pub lock-free : (p : Process) → p.locked ≡ false → lock p ≡ some (record p { locked = true })
unfolding lock
lock-free p idle = rw idle refl

pub os_mmap-locked :
    (dev : PciDev) (k : Answers) (len : ℕ) (p : Process) → (os_mmap dev k len p).1.locked ≡ p.locked
unfolding os_mmap
os_mmap-locked dev k len p = ground arith

placed-unlocked :
    (kh : KmemHandle) (h : PdKmem) (r : Option ℕ × Process) → (placed kh h r).2.locked ≡ false
unfolding placed
placed-unlocked kh h (none, p) = refl
placed-unlocked kh h (some a, p) = ground arith

pub map_kernel_memory-unlocked :
    (dev : PciDev) (k : Answers) (kh : KmemHandle) (size : ℕ) (h : PdKmem) (p : Process)
    → (map_kernel_memory dev k kh size h p).2.locked ≡ false
unfolding map_kernel_memory ioctl_mmap_mode
map_kernel_memory-unlocked dev k kh size h p =
    placed-unlocked kh h (os_mmap dev k size (with_driver p (ioctl_mmap_mode 1 p.driver).1))

pub alloc_rest-Unlocked :
    (dev : PciDev) (k : Answers) (r : ℤ × Option KmemHandle × Privdata) (size : ℕ) (h : PdKmem)
    (p : Process)
    → p.locked ≡ false
    → Unlocked (λ (o : ℕ × PdKmem × Process). o.2) (alloc_rest dev k r size h p)
unfolding alloc_rest
alloc_rest-Unlocked dev k (e, none, d) size h p idle = idle
alloc_rest-Unlocked dev k (e, some kh, d) size h p idle = elim (Bool-cases (is_zero e)) [
  | inr bad ↦ rw bad idle
  | inl good ↦
      rw (good, lock-free (with_driver p d) idle)
        (map_kernel_memory-unlocked dev k kh size
          (record h { handle_id = kh.handle_id; pa = kh.pa; size = size })
          (record p { driver = d; locked = true }))
]

pub pd_alloc_kernel_memory-Unlocked :
    (dev : PciDev) (k : Answers) (given : Bool) (size : ℕ) (kh : KmemHandle) (h : PdKmem)
    (p : Process)
    → p.locked ≡ false
    → Unlocked (λ (o : ℕ × PdKmem × Process). o.2) (pd_alloc_kernel_memory dev k given size kh h p)
unfolding pd_alloc_kernel_memory
pd_alloc_kernel_memory-Unlocked dev k false size kh h p idle = idle
pd_alloc_kernel_memory-Unlocked dev k true size kh h p idle =
    alloc_rest-Unlocked dev k
      (ioctl_kmem_alloc (some (record kh { size = size })) k.kmem true p.driver) size h p idle

pub bar_pointer-Unlocked :
    (i : BoardInfo) (bar : ℕ) (mem : Option ℕ) (p : Process)
    → p.locked ≡ false
    → Unlocked (λ (o : ℕ × Process). o.1) (bar_pointer i bar mem p)
unfolding bar_pointer pd_getpagemask mask_loop
bar_pointer-Unlocked i bar none p idle = idle
bar_pointer-Unlocked i bar (some a) p idle = elim (Bool-cases (a == 0)) [
  | inl null ↦ rw null idle
  | inr there ↦ rw there idle
]

-- The process once the driver has the mode and the area of a BAR.
abbrev pub at_bar : ℕ → Process → Process
at_bar bar p = with_driver p (record p.driver { mmap_mode = 0; mmap_area = bar })

-- The mode 0 and the areas up to 5 are accepted, so that the two errors do not occur.
pub map_bar_area-accepted :
    (dev : PciDev) (k : Answers) (i : BoardInfo) (bar : ℕ) (p : Process)
    → ltb 5 bar ≡ false
    → map_bar_area dev k i bar p
      ≡ bar_pointer i bar
          (os_mmap dev k (i.bar_length bar) (at_bar bar p)).0
          (unlock (os_mmap dev k (i.bar_length bar) (at_bar bar p)).1)
unfolding map_bar_area ioctl_mmap_mode ioctl_mmap_area
map_bar_area-accepted dev k i bar p small = rw small refl

pub map_bar_area-Unlocked :
    (dev : PciDev) (k : Answers) (i : BoardInfo) (bar : ℕ) (p : Process)
    → ltb 5 bar ≡ false
    → Unlocked (λ (o : ℕ × Process). o.1) (map_bar_area dev k i bar p)
map_bar_area-Unlocked dev k i bar p small = rw (map_bar_area-accepted dev k i bar p small) (
    bar_pointer-Unlocked i bar (os_mmap dev k (i.bar_length bar) (at_bar bar p)).0
      (unlock (os_mmap dev k (i.bar_length bar) (at_bar bar p)).1) refl)

pub with_space-Unlocked :
    {S : Type 0} (s : S) (o : Option (ℕ × Process))
    → Unlocked (λ (r : ℕ × Process). r.1) o
    → Unlocked (λ (r : ℕ × S × Process). r.2) (o >>= λ r. some (r.0, s, r.1))
with_space-Unlocked s none u = u
with_space-Unlocked s (some r) u = u

pub pd_map_bar-Unlocked :
    {S : Type 0} (space : ConfigSpace S) (dev : PciDev) (given : Bool) (k : Answers)
    (info : BoardInfo) (bar : ℕ) (s : S) (p : Process)
    → p.locked ≡ false
    → Unlocked (λ (o : ℕ × S × Process). o.2) (pd_map_bar space dev given k info bar s p)
unfolding pd_map_bar
pd_map_bar-Unlocked space dev false k info bar s p idle = idle
pd_map_bar-Unlocked space dev true k info bar s p idle = elim (Bool-cases (ltb 5 bar)) [
  | inl large ↦ rw large idle
  | inr small ↦ elim (Option-cases (board_info space dev info s).0) [
    | inl no_info ↦ rw (small, no_info) idle
    | inr (i, got) ↦
        rw (small, got, lock-free p idle)
          (with_space-Unlocked (board_info space dev info s).1 _
            (map_bar_area-Unlocked dev k i bar (record p { locked = true }) small))
  ]
]

pub pd_unmap_bar-Unlocked :
    {S : Type 0} (space : ConfigSpace S) (dev : PciDev) (given : Bool) (info : BoardInfo)
    (bar ptr : ℕ) (s : S) (p : Process)
    → p.locked ≡ false
    → Unlocked (λ (o : ℤ × S × Process). o.2) (pd_unmap_bar space dev given info bar ptr s p)
unfolding pd_unmap_bar pd_getpagemask mask_loop
pd_unmap_bar-Unlocked space dev false info bar ptr s p idle = idle
pd_unmap_bar-Unlocked space dev true info bar ptr s p idle = elim (Bool-cases (ltb 5 bar)) [
  | inl large ↦ rw large idle
  | inr small ↦ elim (Option-cases (board_info space dev info s).0) [
    | inl no_info ↦ rw (small, no_info) idle
    | inr (i, got) ↦ rw (small, got) idle
  ]
]

pub get_list-locked :
    (k : Answers) (uh : UmemHandle) (size : ℕ) (h : PdUmem) (p : Process)
    → (get_list k uh size h p).2.locked ≡ p.locked
unfolding get_list
get_list-locked k uh size h p = ground (arith, Option-cases k.array)

pub map_rest-locked :
    (k : Answers) (r : ℤ × Option UmemHandle × Privdata) (size : ℕ) (h : PdUmem) (p : Process)
    → (map_rest k r size h p).2.locked ≡ p.locked
unfolding map_rest
map_rest-locked k (e, none, d) size h p = refl
map_rest-locked k (e, some uh, d) size h p = elim (Bool-cases (is_zero e)) [
  | inl good ↦ rw good (get_list-locked k uh size h (with_driver p d))
  | inr bad ↦ rw bad refl
]

pub pd_map_user_memory-locked :
    (k : Answers) (given : Bool) (mem size : ℕ) (uh : UmemHandle) (h : PdUmem) (p : Process)
    → (pd_map_user_memory k given mem size uh h p).2.locked ≡ p.locked
unfolding pd_map_user_memory
pd_map_user_memory-locked k false mem size uh h p = refl
pd_map_user_memory-locked k true mem size uh h p =
    map_rest-locked k
      (ioctl_umem_sgmap (some (record uh { vma = mem; size = size })) k.umem true p.driver) size h p

pub pd_free_kernel_memory-locked :
    (given : Bool) (h : PdKmem) (p : Process)
    → (pd_free_kernel_memory given h p).1.locked ≡ p.locked
unfolding pd_free_kernel_memory
pd_free_kernel_memory-locked given h p = ground arith

pub pd_unmap_user_memory-locked :
    (given : Bool) (uh : UmemHandle) (h : PdUmem) (p : Process)
    → (pd_unmap_user_memory given uh h p).1.locked ≡ p.locked
unfolding pd_unmap_user_memory
pd_unmap_user_memory-locked given uh h p = ground arith

pub pd_clear_interrupt_queue-locked :
    (given : Bool) (int_id : ℕ) (p : Process)
    → (pd_clear_interrupt_queue given int_id p).1.locked ≡ p.locked
unfolding pd_clear_interrupt_queue
pd_clear_interrupt_queue-locked given int_id p = ground arith
