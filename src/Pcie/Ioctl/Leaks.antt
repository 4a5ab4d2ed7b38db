-- ===== src/Pcie/Ioctl/Leaks.antt =====
-- history/sw/drivers/pcie/src/ioctl.c: the array that `ioctl_umem_sgget` takes from `vmalloc`.
mod Tests
use bpm_gw.Base.{
  ℤ, pos, ℕ, zero, suc, ◌+◌, ◌≡◌, refl, ap, ◌∙◌, Bool, true, false, Option, none, arith, Bool-cases,
  inl, inr,
}
use bpm_gw.Pcie.Kmem.{efault}
use bpm_gw.Pcie.Umem.{SgList, umem_find_entry_id, umem_sgget, einval}
use bpm_gw.Pcie.Umem.Sgmap.{vmalloc}
use bpm_gw.Pcie.Ioctl.{Privdata, Copies, entries, ioctl_umem_sgget}

umem_sgget-none :
    (p : Privdata) (l : SgList)
    → umem_find_entry_id (entries p.umem.umem_list) l.handle_id ≡ none
    → umem_sgget (entries p.umem.umem_list) l ≡ (einval, l)
unfolding umem_sgget
umem_sgget-none p l unknown = rw unknown refl

-- `n` calls with the same arguments, one after the other
abbrev pub calls : ℕ → Copies → SgList → Privdata → Privdata
calls zero c l p = p
calls (suc n) c l p = calls n c l (ioctl_umem_sgget c l p).2

-- Where the structure can be read and there is memory, but no entry has the handle, a call leaves one
-- array more.
one_call :
    (c : Copies) (l : SgList) (p : Privdata)
    → c.struct_read ≡ true
    → c.memory ≡ true
    → umem_find_entry_id (entries p.umem.umem_list) l.handle_id ≡ none
    → (ioctl_umem_sgget c l p).2 ≡ record p { umem = vmalloc p.umem }
unfolding ioctl_umem_sgget
one_call c l p readable memory unknown = elim (Bool-cases c.array_read) [
  | inl ok ↦ rw (readable, memory, ok, umem_sgget-none p l unknown) refl
  | inr bad ↦ rw (readable, memory, bad) refl
]

-- Where the user's structure can be read and there is memory for its array, but no entry has the handle,
-- `n` calls of `ioctl_umem_sgget` leave the driver with `n` arrays of `vmalloc` more than before.
pub ioctl_umem_sgget-arrays :
    (n : ℕ) (c : Copies) (l : SgList) (p : Privdata)
    → c.struct_read ≡ true
    → c.memory ≡ true
    → umem_find_entry_id (entries p.umem.umem_list) l.handle_id ≡ none
    → (calls n c l p).umem.held.arrays ≡ p.umem.held.arrays + n
ioctl_umem_sgget-arrays zero c l p readable memory unknown = omega arith
ioctl_umem_sgget-arrays (suc n) c l p readable memory unknown =
    let rest =
      ioctl_umem_sgget-arrays n c l (record p { umem = vmalloc p.umem }) readable memory unknown in
    ap (λ (q : Privdata). (calls n c l q).umem.held.arrays) (one_call c l p readable memory unknown)
    ∙ rest
    ∙ omega arith
