-- ===== src/Pcie/Ioctl.antt =====
-- history/sw/drivers/pcie/src/ioctl.c, the calls of a user program, and int.c, the interrupts.
-- Whether a copy from or to the user's memory succeeds, and what the kernel gives, is an argument of the
-- call. `others` is what interrupts do while a call waits, with the number of the round; `none` is a
-- wait that needs more fuel. One process waits for a source at a time.
pub mod Leaks
pub mod Waiting
use bpm_gw.Base.{
  ℤ, pos, negsuc, ℕ, zero, suc, ◌+◌, ◌-◌, Bool, true, false, not, ◌||◌, Option, none, some, List,
  map, bit_and, ◌==◌, ltb, leb, if◌then◌else◌,
}
use bpm_gw.Bus.{Bus}
use bpm_gw.Pcie.Kmem.{Kmem, KmemHandle, Grant, kmem_alloc, kmem_free, kmem_sync, enomem, efault}
use bpm_gw.Pcie.Umem.{UmemEntry, SgList, umem_sgget, einval}
use bpm_gw.Pcie.Umem.Sgmap.{
  Umem, UmemGrant, UmemHandle, Mapping, umem_sgmap, ioctl_umem_sgunmap, umem_sync, vmalloc, vfree,
}

-- The fields of `pcidriver_privdata_t` that the calls use.
pub record Privdata : Type 0 where
  pub mmap_mode : ℕ
  pub mmap_area : ℕ
  pub kmem : Kmem
  pub umem : Umem
  pub irq_outstanding : ℕ → ℕ
  pub irq_count : ℕ

-- `PCIDRIVER_INT_MAXSOURCES`
abbrev pub int_maxsources : ℕ
int_maxsources = 16

abbrev pub is_zero : ℤ → Bool
is_zero (pos n) = n == 0
is_zero (negsuc n) = false

unfoldable pub ioctl_mmap_mode : ℕ → Privdata → ℤ × Privdata
ioctl_mmap_mode arg p =
    if not (arg == 0 || arg == 1) then (einval, p) else (pos 0, record p { mmap_mode = arg })

unfoldable pub ioctl_mmap_area : ℕ → Privdata → ℤ × Privdata
ioctl_mmap_area arg p = if ltb 5 arg then (einval, p) else (pos 0, record p { mmap_area = arg })

-- What the user gets back: the result, and the handle if it could be written.
unfoldable pub ioctl_kmem_alloc :
    Option KmemHandle → Grant → Bool → Privdata → ℤ × Option KmemHandle × Privdata
unfolding kmem_alloc
ioctl_kmem_alloc none g written p = (efault, none, p)
ioctl_kmem_alloc (some h) g written p =
    let (e, h', k) = kmem_alloc g h p.kmem in
    let p' = record p { kmem = k } in
    let user : Option KmemHandle = if written then some h' else none in
    if not (is_zero e) then (e, none, p') else ((if written then pos 0 else efault), user, p')

unfoldable pub ioctl_kmem_free : Option KmemHandle → Privdata → ℤ × Privdata
unfolding kmem_free
ioctl_kmem_free none p = (efault, p)
ioctl_kmem_free (some h) p = let (e, k) = kmem_free h p.kmem in (e, record p { kmem = k })

unfoldable pub ioctl_kmem_sync : Option (KmemHandle × ℕ) → Privdata → ℤ
unfolding kmem_sync
ioctl_kmem_sync none p = efault
ioctl_kmem_sync (some (h, dir)) p = kmem_sync h dir p.kmem

unfoldable pub ioctl_umem_sgmap :
    Option UmemHandle → UmemGrant → Bool → Privdata → ℤ × Option UmemHandle × Privdata
unfolding umem_sgmap
ioctl_umem_sgmap none g written p = (efault, none, p)
ioctl_umem_sgmap (some h) g written p =
    let (e, h', u) = umem_sgmap g h p.umem in
    let p' = record p { umem = u } in
    let user : Option UmemHandle = if written then some h' else none in
    if not (is_zero e) then (e, none, p') else ((if written then pos 0 else efault), user, p')

unfoldable pub ioctl_umem_sync : Option UmemHandle → Privdata → ℤ
unfolding umem_sync
ioctl_umem_sync none p = efault
ioctl_umem_sync (some h) p = umem_sync h p.umem

-- Which steps of `ioctl_umem_sgget` the kernel lets succeed.
pub record Copies : Type 0 where
  pub struct_read : Bool
  pub memory : Bool
  pub array_read : Bool
  pub array_written : Bool
  pub struct_written : Bool

abbrev pub entries : List Mapping → List UmemEntry
entries = map (λ m. m.entry)

-- `l` is the user's structure with its array, and then what the call has made of its copy of them.
unfoldable pub ioctl_umem_sgget : Copies → SgList → Privdata → ℤ × SgList × Privdata
unfolding umem_sgget
ioctl_umem_sgget c l p =
    let p1 = record p { umem = vmalloc p.umem } in
    let (e, l') = umem_sgget (entries p.umem.umem_list) l in
    let p2 = record p1 { umem = vfree p1.umem } in
    if not c.struct_read
    then (efault, l, p)
    else if not c.memory
    then (enomem, l, p)
    else if not c.array_read
    then (efault, l, p1)
    else if not (is_zero e)
    then (e, l, p1)
    else if not c.array_written
    then (efault, l', p1)
    else (if c.struct_written then (pos 0, l', p2) else (efault, l', p2))

unfoldable pub ioctl_clear_ioq : ℕ → Privdata → ℤ × Privdata
ioctl_clear_ioq arg p =
    if leb int_maxsources arg
    then (efault, p)
    else (pos 0, record p { irq_outstanding = λ i. if i == arg then 0 else p.irq_outstanding i })

-- The loop of `ioctl_wait_interrupt`: a decrement that goes below zero is taken back.
unfoldable pub wait_loop : (ℕ → Privdata → Privdata) → ℕ → ℕ → ℕ → Privdata → Option (ℤ × Privdata)
wait_loop others zero n source p = none
wait_loop others (suc fuel) n source p =
    let p1 = others n p in
    let rest = wait_loop others fuel (suc n) source p1 in
    let left = p1.irq_outstanding source - 1 in
    let taken : ℤ × Privdata = (
      pos 0,
      record p1 { irq_outstanding = λ i. if i == source then left else p1.irq_outstanding i },
    ) in
    if p1.irq_outstanding source == 0 then rest else some taken

unfoldable pub ioctl_wait_interrupt :
    (ℕ → Privdata → Privdata) → ℕ → ℕ → Privdata → Option (ℤ × Privdata)
unfolding wait_loop
ioctl_wait_interrupt others fuel arg p =
    let refused : ℤ × Privdata = (efault, p) in
    if leb int_maxsources arg then some refused else wait_loop others fuel 0 arg p

-- int.c: the acknowledgement is commented out, so that no interrupt is the board's.
abbrev pub irq_acknowledge : Privdata → Bool × Privdata
irq_acknowledge p = (false, p)

-- Whether the interrupt was handled, and the state.
unfoldable pub irq_handler : Privdata → Bool × Privdata
irq_handler p =
    let (ours, p') = irq_acknowledge p in
    if not ours then (false, p') else (true, record p' { irq_count = p'.irq_count + 1 })

-- `check_acknowlegde_channel`, which nothing calls, on the registers at `bar`: `!interrupt` is a logical
-- negation.
module _ {S : Type 0} (bus : Bus S) (bar : ℕ) where
  unfoldable pub check_acknowledge_channel : ℕ → ℕ → S → Privdata → Bool × S × Privdata
  check_acknowledge_channel interrupt channel s p =
      let (stat, s1) = bus.read s (bar + 0x8) in
      let (enabled, s2) = bus.read s1 (bar + 0x10) in
      let s3 = bus.write s2 (bar + 0x10) (bit_and enabled (if interrupt == 0 then 1 else 0)) in
      let s4 = if interrupt == 4 then bus.write s3 (bar + 0x80) 0xf0 else s3 in
      let p' = record p {
        irq_outstanding =
            λ i. if i == channel then p.irq_outstanding i + 1 else p.irq_outstanding i;
      } in
      if bit_and stat interrupt == 0 then (false, s1, p) else (true, s4, p')
