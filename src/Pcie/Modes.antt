-- ===== src/Pcie/Modes.antt =====
-- history/sw/drivers/pcie/src/ioctl.c and base.c: the calls of user programs in any order, and the mmap
-- that follows them. A call that only reads, or waits, is left out of the steps.
mod Tests
use bpm_gw.Base.{
  ltb, ◌==◌, Bool-cases, ℤ, pos, negsuc, ℕ, zero, suc, ◌+◌, ◌≡◌, ◌≤◌, ◌<◌, refl, ap, ◌∙◌, Bool,
  true, false, Option, none, some, arith, ◌⊎◌, inl, inr,
}
use bpm_gw.Pcie.Kmem.{KmemHandle, KmemEntry, Grant, mmap_kmem}
use bpm_gw.Pcie.Umem.{SgList}
use bpm_gw.Pcie.Umem.Sgmap.{UmemHandle, UmemGrant, ioctl_umem_sgunmap}
use bpm_gw.Pcie.Ioctl.{
  Privdata, Copies, ioctl_mmap_mode, ioctl_mmap_area, ioctl_kmem_alloc, ioctl_kmem_free,
  ioctl_umem_sgmap, ioctl_umem_sgget, ioctl_clear_ioq, irq_handler,
}
use bpm_gw.Pcie.Bars.{Resource, mmap, mmap_pci}

-- A call that changes the private data, or an interrupt.
pub data Call : Privdata → Privdata → Type 0 where
  set_mode : (arg : ℕ) (p : Privdata) → Call p (ioctl_mmap_mode arg p).1
  set_area : (arg : ℕ) (p : Privdata) → Call p (ioctl_mmap_area arg p).1
  alloc :
      (h : Option KmemHandle) (g : Grant) (w : Bool) (p : Privdata)
      → Call p (ioctl_kmem_alloc h g w p).2
  free : (h : Option KmemHandle) (p : Privdata) → Call p (ioctl_kmem_free h p).1
  sgmap :
      (h : Option UmemHandle) (g : UmemGrant) (w : Bool) (p : Privdata)
      → Call p (ioctl_umem_sgmap h g w p).2
  sgunmap :
      (h : UmemHandle) (p : Privdata) → Call p (record p { umem = (ioctl_umem_sgunmap h p.umem).1 })
  sgget : (c : Copies) (l : SgList) (p : Privdata) → Call p (ioctl_umem_sgget c l p).2
  clear_queue : (arg : ℕ) (p : Privdata) → Call p (ioctl_clear_ioq arg p).1
  interrupt : (p : Privdata) → Call p (irq_handler p).1

-- Any number of them.
pub data Calls : Privdata → Privdata → Type 0 where
  start : (p : Privdata) → Calls p p
  call : {p q r : Privdata} → Calls p q → Call q r → Calls p r

-- The mode and the area are among those that there are.
pub record InRange (p : Privdata) : Type 0 where
  pub mode : p.mmap_mode ≤ 1
  pub area : p.mmap_area ≤ 5

Call-InRange : {p q : Privdata} → Call p q → InRange p → InRange q
unfolding ioctl_mmap_mode ioctl_mmap_area ioctl_kmem_alloc ioctl_kmem_free ioctl_umem_sgmap
    ioctl_umem_sgget ioctl_clear_ioq irq_handler
Call-InRange (set_mode arg p) r = record {
  mode = ground (arith, r.mode);
  area = ground (arith, r.area);
}
Call-InRange (set_area arg p) r = record {
  mode = ground (arith, r.mode);
  area = ground (arith, r.area);
}
Call-InRange (alloc none g w p) r = r
Call-InRange (alloc (some h) g w p) r = record {
  mode = ground (arith, r.mode);
  area = ground (arith, r.area);
}
Call-InRange (free none p) r = r
Call-InRange (free (some h) p) r = record { mode = r.mode; area = r.area }
Call-InRange (sgmap none g w p) r = r
Call-InRange (sgmap (some h) g w p) r = record {
  mode = ground (arith, r.mode);
  area = ground (arith, r.area);
}
Call-InRange (sgunmap h p) r = record { mode = r.mode; area = r.area }
Call-InRange (sgget c l p) r = record {
  mode = ground (arith, r.mode);
  area = ground (arith, r.area);
}
Call-InRange (clear_queue arg p) r = record {
  mode = ground (arith, r.mode);
  area = ground (arith, r.area);
}
Call-InRange (interrupt p) r = record {
  mode = ground (arith, r.mode);
  area = ground (arith, r.area);
}

Calls-InRange : {p q : Privdata} → Calls p q → InRange p → InRange q
Calls-InRange (start p) r = r
Calls-InRange (call before c) r = Call-InRange c (Calls-InRange before r)

-- Where the mode and the area are in range at the start, as in the zeroed private data, the mode is 0 or
-- 1 after any calls and interrupts. With the mode 0, `mmap` answers what the mapping of the BAR of the area
-- answers, which is one of the six; with the mode 1, it answers what the mapping of a kernel buffer answers.
pub mmap-Calls :
    {p q : Privdata} (remap : ℕ → ℕ) (remap_kmem : KmemEntry → ℕ → ℕ) (resources : ℕ → Resource)
    (vm_start vm_end : ℕ)
    → InRange p
    → Calls p q
    → ((q.mmap_mode ≡ 0)
        × (q.mmap_area < 6)
        × (mmap remap remap_kmem resources vm_start vm_end q
            ≡ (mmap_pci remap (resources q.mmap_area) vm_start vm_end).0))
      ⊎ ((q.mmap_mode ≡ 1)
          × (mmap remap remap_kmem resources vm_start vm_end q
              ≡ mmap_kmem remap_kmem vm_start vm_end q.kmem))
unfolding mmap
mmap-Calls {p} {q} remap remap_kmem resources vm_start vm_end r calls =
    let valid = Calls-InRange calls r in
    let inside : ltb 5 q.mmap_area ≡ false = ground (arith, valid.area) in
    elim (Bool-cases (q.mmap_mode == 0)) [
      | inl pci ↦ inl (ground (arith, pci), omega (arith, valid.area), rw (pci, inside) refl)
      | inr other ↦
          let kernel : (q.mmap_mode == 1) ≡ true = ground (arith, valid.mode, other) in
          inr (ground (arith, kernel), rw (other, kernel) refl)
    ]
