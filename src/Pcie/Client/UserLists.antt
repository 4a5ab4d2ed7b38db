-- ===== src/Pcie/Client/UserLists.antt =====
-- history/sw/lib/pcie/pciDriver_Capi.c: the list that `pd_mapUserMemory` gets from the driver, and
-- `pd_unmapUserMemory`.
use bpm_gw.Base.{
  ℤ, pos, ℕ, ◌+◌, ◌-◌, ◌/◌, ◌%◌, ◌^◌, ◌≡◌, ◌≤◌, ◌<◌, refl, sym, ap, ◌∙◌, true, some, List, [], ◌∷◌,
  ◌++◌, inl, inr, Bool-cases, arith, All, length, take, subst,
}
use bpm_gw.Bus.{ok, failed}
use bpm_gw.Pcie.Kmem.{page_size}
use bpm_gw.Pcie.Umem.{Segment, SgList, segments, umem_find_entry_id}
use bpm_gw.Pcie.Umem.Merge.{Fits, Separate, cover}
use bpm_gw.Pcie.Umem.Sgget.{umem_sgget-merged}
use bpm_gw.Pcie.Umem.Pages.{nr_pages, nr_pages-exact}
use bpm_gw.Pcie.Umem.Sgmap.{Umem, UmemHandle, Mapping, umem_sgmap}
use bpm_gw.Pcie.Umem.Release.{ioctl_umem_sgunmap-mapping}
use bpm_gw.Pcie.Ioctl.{entries, is_zero, ioctl_umem_sgget}
use bpm_gw.Pcie.Bars.Held.{is_zero_lem}
use bpm_gw.Pcie.Client.{
  Process, PdUmem, Answers, sys, with_driver, list_for, copies, pd_map_user_memory,
  pd_unmap_user_memory,
}
use bpm_gw.Pcie.Client.UserMemory.{
  FreshIds, find-last, driver_with, named, asked, pd_map_user_memory-get_list,
  pd_map_user_memory-failed,
}
use bpm_gw.Pcie.Client.SgLists.{
  filled, get_list-ok, sgget-got, sgget-refused, umem_sgget-crowded, get_list-result,
}

module _ (k : Answers) (p : Process) (fresh : FreshIds p.driver.umem) (mem size : ℕ)
    (uh : UmemHandle) where
  -- A call that does not return -1 has its mapping.
  mapped :
      (h : PdUmem)
      → (pd_map_user_memory k true mem size uh h p).0 ≡ ok
      → (umem_sgmap k.umem (asked k p fresh mem size uh) p.driver.umem).0 ≡ pos 0
  mapped h good =
      elim (Bool-cases
        (is_zero (umem_sgmap k.umem (asked k p fresh mem size uh) p.driver.umem).0)) [
          | inl on ↦ is_zero_lem _ on
          | inr off ↦
              absurd
                (ground (arith, sym (pd_map_user_memory-failed k p fresh mem size uh h off) ∙ good))
        ]

  -- The list that the driver gives for the mapping.
  abbrev got_list : Mapping → SgList
  got_list m =
      (ioctl_umem_sgget (copies k) (list_for k p.driver.umem.umem_count size)
        (driver_with k p fresh (nr_pages mem size) m)).1

  pd_unmap_user_memory-arrays :
      (uh' : UmemHandle) (h : PdUmem) (l : SgList) (n : ℕ) (m : Mapping)
      → m.entry.id ≡ p.driver.umem.umem_count
      → m.pages ≡ n
      → pd_unmap_user_memory true uh'
          (filled p.driver.umem.umem_count l h)
          (record p { driver = driver_with k p fresh n m; arrays = p.arrays + 1 })
        ≡ (
          ok,
          record p {
            driver = record p.driver {
              umem = record p.driver.umem { umem_count = (p.driver.umem.umem_count + 1) % 2 ^ 32 };
            };
          },
        )
  unfolding pd_unmap_user_memory
  pd_unmap_user_memory-arrays uh' h l n m id pages =
      let h1 : UmemHandle = record uh' { vma = h.vma; size = h.size } in
      let e = ioctl_umem_sgunmap-mapping p.driver.umem fresh.entries fresh.attrs h1 n m id pages in
      ap
        (λ (r : ℤ × Umem). (
          sys r.0,
          record p { driver = record p.driver { umem = r.1 }; arrays = p.arrays + 1 - 1 },
        ))
        e
      ∙ ap
          (λ (a : ℕ). (
            ok,
            record p {
              driver = record p.driver {
                umem = record p.driver.umem {
                  umem_count = (p.driver.umem.umem_count + 1) % 2 ^ 32;
                };
              };
              arrays = a;
            },
          ))
          (omega arith)

  -- Where no entry and no attribute of the driver has the next id, and `pd_mapUserMemory` returns 0, then
  -- `pd_unmapUserMemory` of the handle that it has filled returns 0, and the process and the driver are as
  -- they were before the two calls, but for the counter of the ids.
  pub pd_unmap_user_memory-pd_map_user_memory :
      (uh' : UmemHandle) (h : PdUmem)
      → (pd_map_user_memory k true mem size uh h p).0 ≡ ok
      → pd_unmap_user_memory true uh'
          (pd_map_user_memory k true mem size uh h p).1
          (pd_map_user_memory k true mem size uh h p).2
        ≡ (
          ok,
          record p {
            driver = record p.driver {
              umem = record p.driver.umem { umem_count = (p.driver.umem.umem_count + 1) % 2 ^ 32 };
            };
          },
        )
  pd_unmap_user_memory-pd_map_user_memory uh' h good =
      let (m, e, id, pages, segs) =
        pd_map_user_memory-get_list k p fresh mem size uh h (mapped h good) in
      let got =
        get_list-ok k (named k p fresh (asked k p fresh mem size uh)) size h
          (with_driver p (driver_with k p fresh (nr_pages mem size) m))
          (ap (λ (r : ℤ × PdUmem × Process). r.0) (sym e) ∙ good) in
      ap (λ (r : ℤ × PdUmem × Process). pd_unmap_user_memory true uh' r.1 r.2) (e ∙ got)
      ∙ pd_unmap_user_memory-arrays uh' h (got_list m) (nr_pages mem size) m id pages

  -- The entry of a mapping that was added.
  found_entry :
      (m : Mapping)
      → m.entry.id ≡ p.driver.umem.umem_count
      → umem_find_entry_id (entries (p.driver.umem.umem_list ++ (m ∷ []))) p.driver.umem.umem_count
        ≡ some m.entry
  found_entry m id = find-last p.driver.umem.umem_list m p.driver.umem.umem_count id fresh.entries

  -- A call for which the kernel gives more segments than the array has places returns -1.
  pd_map_user_memory-crowded :
      (h : PdUmem)
      → size / page_size + 1 < length k.umem.sg
      → (pd_map_user_memory k true mem size uh h p).0 ≡ failed
  pd_map_user_memory-crowded h more =
      elim (Bool-cases
        (is_zero (umem_sgmap k.umem (asked k p fresh mem size uh) p.driver.umem).0)) [
          | inr off ↦ pd_map_user_memory-failed k p fresh mem size uh h off
          | inl on ↦
              let (m, e, id, pages, segs) =
                pd_map_user_memory-get_list k p fresh mem size uh h (is_zero_lem _ on) in
              let d = driver_with k p fresh (nr_pages mem size) m in
              let l = list_for k p.driver.umem.umem_count size in
              let too_many : l.nents < length (segments m.entry) =
                subst (λ (t : List Segment). l.nents < length t) (sym segs) more in
              let refused =
                umem_sgget-crowded (entries d.umem.umem_list) l m.entry (found_entry m id)
                  too_many in
              let nonzero =
                sgget-refused (copies k) l d (ap (λ (r : ℤ × SgList). is_zero r.0) refused) in
              ap (λ (r : ℤ × PdUmem × Process). r.0) e
              ∙ get_list-result k (named k p fresh (asked k p fresh mem size uh)) size h
                  (with_driver p d)
              ∙ rw nonzero refl
        ]

  -- Where no entry and no attribute of the driver has the next id, the buffer, of less than 2 ^ 43 bytes,
  -- takes a page more than its size and the kernel's list has a segment for each page, `pd_mapUserMemory`
  -- returns -1.
  pub pd_map_user_memory-unaligned :
      (h : PdUmem)
      → size < 2 ^ 43
      → page_size < mem % page_size + size % page_size
      → length k.umem.sg ≡ nr_pages mem size
      → (pd_map_user_memory k true mem size uh h p).0 ≡ failed
  pd_map_user_memory-unaligned h small crosses pages =
      pd_map_user_memory-crowded h
        (omega (arith, nr_pages-exact mem size small, small, crosses, pages))

  -- Where no entry and no attribute of the driver has the next id, the driver maps the buffer and has
  -- memory for the list, `posix_memalign` gives the array, and the kernel's list has as many segments as
  -- the array has places at most, none of which reaches the end of the address space, `pd_mapUserMemory`
  -- returns 0 with a list that covers the addresses of the kernel's list in their order, no longer than
  -- it, and in which no segment begins where the one before it ends.
  pub pd_map_user_memory-cover :
      (h : PdUmem) (array : List Segment)
      → (umem_sgmap k.umem (asked k p fresh mem size uh) p.driver.umem).0 ≡ pos 0
      → k.list_memory ≡ true
      → k.array ≡ some array
      → size / page_size + 1 ≤ length array
      → length k.umem.sg ≤ size / page_size + 1
      → All Fits k.umem.sg
      → (r : ℤ × PdUmem × Process) × (pd_map_user_memory k true mem size uh h p ≡ r)
        × (r.0 ≡ ok)
        × (r.1.nents ≤ length k.umem.sg)
        × (cover (take r.1.nents r.1.sg) ≡ cover k.umem.sg)
        × Separate (take r.1.nents r.1.sg)
  pd_map_user_memory-cover h array good memory there places room fits =
      let (m, e, id, pages, segs) = pd_map_user_memory-get_list k p fresh mem size uh h good in
      let d = driver_with k p fresh (nr_pages mem size) m in
      let l = list_for k p.driver.umem.umem_count size in
      let read : (copies k).array_read ≡ true = rw there refl in
      let (l', got, few, covers, separate) =
        umem_sgget-merged (entries d.umem.umem_list) l m.entry (found_entry m id) refl
          (subst (λ (t : List Segment). All Fits t) (sym segs) fits)
          (subst (λ (t : List Segment). length t ≤ l.nents) (sym segs) room) (rw there places) in
      let (zero_result, list) = sgget-got (copies k) l l' d refl memory read read refl got in
      let done =
        get_list-ok k (named k p fresh (asked k p fresh mem size uh)) size h (with_driver p d) (
          get_list-result k (named k p fresh (asked k p fresh mem size uh)) size h (with_driver p d)
          ∙ rw zero_result refl) in
      (
        (ok, filled p.driver.umem.umem_count l' h, record p { driver = d; arrays = p.arrays + 1 }),
        e
            ∙ done
            ∙ ap
                (λ (g : SgList). (
                  ok,
                  filled p.driver.umem.umem_count g h,
                  record p { driver = d; arrays = p.arrays + 1 },
                ))
                list,
        refl,
        subst (λ (t : List Segment). l'.nents ≤ length t) segs few,
        covers ∙ ap cover segs,
        separate,
      )
