-- ===== src/Pcie/Client/UserMemory.antt =====
-- history/sw/lib/pcie/pciDriver_Capi.c: `pd_mapUserMemory` and `pd_unmapUserMemory`, over the calls of
-- the driver.
use bpm_gw.Base.{
  ℤ, pos, ℕ, ◌≡◌, ◌≢◌, refl, ap, ◌∙◌, Bool, true, false, ◌⊎◌, Option, none, some, List, [], ◌∷◌,
  ◌++◌, inl, inr, Bool-cases, arith, All,
}
use bpm_gw.Bus.{ok, failed}
use bpm_gw.Pcie.Umem.{SgList, segments, umem_find_entry_id, umem_sgget}
use bpm_gw.Pcie.Umem.Pages.{nr_pages}
use bpm_gw.Pcie.Umem.Sgmap.{
  Umem, UmemHandle, UmemGrant, Mapping, umem_sgmap, ioctl_umem_sgunmap, vmalloc, vfree,
}
use bpm_gw.Pcie.Umem.Release.{
  umem_sgmap-error, with_mapping, umem_sgmap-mapping, ioctl_umem_sgunmap-mapping,
}
use bpm_gw.Pcie.Ioctl.{Privdata, Copies, entries, is_zero, ioctl_umem_sgmap, ioctl_umem_sgget}
use bpm_gw.Pcie.Bars.Held.{is_zero_lem, is_zero_off}
use bpm_gw.Pcie.Client.{
  Process, PdUmem, Answers, with_driver, list_for, copies, get_list, map_rest, pd_map_user_memory,
}

-- A state of the driver as it was, but for the counter, and for one array of `vmalloc` at most.
abbrev pub Back : Umem → Umem → Type 0
Back s u =
    (u.umem_list ≡ s.umem_list)
    × (u.umem_attrs ≡ s.umem_attrs)
    × ((u.held ≡ s.held) ⊎ (u.held ≡ (vmalloc s).held))

pub vfree-vmalloc : (s : Umem) → vfree (vmalloc s) ≡ s
vfree-vmalloc s = ap (λ (n : ℕ). record s { held = record s.held { arrays = n } }) (omega arith)

sgget-umem :
    (c : Copies) (l : SgList) (d : Privdata)
    → ((ioctl_umem_sgget c l d).2.umem ≡ d.umem)
      ⊎ ((ioctl_umem_sgget c l d).2.umem ≡ vmalloc d.umem)
unfolding ioctl_umem_sgget
sgget-umem c l d =
    let given_back = vfree-vmalloc d.umem in
    elim (Bool-cases c.struct_read) [
      | inr a ↦ inl (rw a refl)
      | inl a ↦ elim (Bool-cases c.memory) [
        | inr b ↦ inl (rw (a, b) refl)
        | inl b ↦ elim (Bool-cases c.array_read) [
          | inr r ↦ inr (rw (a, b, r) refl)
          | inl r ↦ elim (Bool-cases (is_zero (umem_sgget (entries d.umem.umem_list) l).0)) [
            | inr e ↦ inr (rw (a, b, r, e) refl)
            | inl e ↦ elim (Bool-cases c.array_written) [
              | inr w ↦ inr (rw (a, b, r, e, w) refl)
              | inl w ↦ elim (Bool-cases c.struct_written) [
                | inl v ↦ inl (rw (a, b, r, e, w, v) given_back)
                | inr v ↦ inl (rw (a, b, r, e, w, v) given_back)
              ]
            ]
          ]
        ]
      ]
    ]

-- A call that returns 0 has given its array back, and could read the user's.
pub sgget-same :
    (c : Copies) (l : SgList) (d : Privdata)
    → (ioctl_umem_sgget c l d).0 ≡ pos 0
    → ((ioctl_umem_sgget c l d).2 ≡ d) × (c.array_read ≡ true)
unfolding ioctl_umem_sgget
sgget-same c l d good =
    let given_back = ap (λ (u : Umem). record d { umem = u }) (vfree-vmalloc d.umem) in
    (ground (arith, given_back, good), ground (arith, good))

-- The ids of the driver: no entry and no attribute has the next one.
pub record FreshIds (s : Umem) : Type 0 where
  pub entries : All (λ (o : Mapping). o.entry.id ≢ s.umem_count) s.umem_list
  pub attrs : All (λ (x : ℕ). x ≢ s.umem_count) s.umem_attrs

vmalloc-with_mapping :
    (n : ℕ) (m : Mapping) (s : Umem) → vmalloc (with_mapping n m s) ≡ with_mapping n m (vmalloc s)
vmalloc-with_mapping n m s =
    ap
      (λ (a : ℕ). record (with_mapping n m s) {
        held = record (with_mapping n m s).held { arrays = a };
      })
      (omega arith)

-- What `PCIDRIVER_IOC_UMEM_SGMAP` gives where it succeeds.
ioctl_umem_sgmap-good :
    (g : UmemGrant) (h : UmemHandle) (d : Privdata)
    → (umem_sgmap g h d.umem).0 ≡ pos 0
    → ioctl_umem_sgmap (some h) g true d
      ≡ (pos 0, some (umem_sgmap g h d.umem).1, record d { umem = (umem_sgmap g h d.umem).2 })
unfolding ioctl_umem_sgmap
ioctl_umem_sgmap-good g h d good = rw good refl

ioctl_umem_sgmap-bad :
    (g : UmemGrant) (h : UmemHandle) (d : Privdata)
    → is_zero (umem_sgmap g h d.umem).0 ≡ false
    → ioctl_umem_sgmap (some h) g true d
      ≡ ((umem_sgmap g h d.umem).0, none, record d { umem = (umem_sgmap g h d.umem).2 })
unfolding ioctl_umem_sgmap
ioctl_umem_sgmap-bad g h d bad = rw bad refl

pub find-last :
    (ms : List Mapping) (m : Mapping) (id : ℕ)
    → m.entry.id ≡ id
    → All (λ (o : Mapping). o.entry.id ≢ id) ms
    → umem_find_entry_id (entries (ms ++ (m ∷ []))) id ≡ some m.entry
unfolding umem_find_entry_id
find-last [] m id e fresh = ground arith
find-last (o ∷ ms) m id e fresh = ground (arith, fresh.0, find-last ms m id e fresh.1)

-- What a call of the library leaves: the lists and attributes as they were, and the process's arrays.
abbrev pub NothingMapped : Process → Process → Type 0
NothingMapped p q = Back p.driver.umem q.driver.umem × (q.arrays ≡ p.arrays) × (q.mapped ≡ p.mapped)

module _ (k : Answers) (p : Process) (fresh : FreshIds p.driver.umem) where
  abbrev pub driver_with : ℕ → Mapping → Privdata
  driver_with n m = record p.driver { umem = with_mapping n m p.driver.umem }

  abbrev pub named : UmemHandle → UmemHandle
  named uh = record uh { handle_id = p.driver.umem.umem_count }

  -- Giving the mapping back, with or without one array more.
  unmap-Back :
      (uh : UmemHandle) (n : ℕ) (m : Mapping) (u : Umem)
      → m.entry.id ≡ p.driver.umem.umem_count
      → m.pages ≡ n
      → (u ≡ with_mapping n m p.driver.umem) ⊎ (u ≡ vmalloc (with_mapping n m p.driver.umem))
      → Back p.driver.umem (ioctl_umem_sgunmap (named uh) u).1
  unmap-Back uh n m u id pages (inl same) =
      rw (same, ioctl_umem_sgunmap-mapping p.driver.umem fresh.entries fresh.attrs uh n m id pages)
        (refl, refl, inl refl)
  unmap-Back uh n m u id pages (inr same) =
      rw
        (
          same,
          vmalloc-with_mapping n m p.driver.umem,
          ioctl_umem_sgunmap-mapping (vmalloc p.driver.umem) fresh.entries fresh.attrs uh n m id
              pages,
        )
        (refl, refl, inr refl)

  get_list-NothingMapped :
      (uh : UmemHandle) (size n : ℕ) (h : PdUmem) (m : Mapping)
      → m.entry.id ≡ p.driver.umem.umem_count
      → m.pages ≡ n
      → (get_list k (named uh) size h (with_driver p (driver_with n m))).0 ≢ ok
      → NothingMapped p (get_list k (named uh) size h (with_driver p (driver_with n m))).2
  unfolding get_list
  get_list-NothingMapped uh size n h m id pages bad =
      let l = list_for k p.driver.umem.umem_count size in
      let d = (ioctl_umem_sgget (copies k) l (driver_with n m)).2 in
      let back = unmap-Back uh n m d.umem id pages (sgget-umem (copies k) l (driver_with n m)) in
      elim (Bool-cases (is_zero (ioctl_umem_sgget (copies k) l (driver_with n m)).0)) [
        | inl good ↦ absurd (bad (rw good refl))
        | inr error ↦ rw error (back, omega arith, refl)
      ]

  module _ (mem size : ℕ) (uh : UmemHandle) where
    abbrev pub asked : UmemHandle
    asked = record uh { vma = mem; size = size }

    -- Where the driver maps the buffer, the call goes on to its list.
    pub pd_map_user_memory-get_list :
        (h : PdUmem)
        → (umem_sgmap k.umem asked p.driver.umem).0 ≡ pos 0
        → (m : Mapping) × (pd_map_user_memory k true mem size uh h p
            ≡ get_list k (named asked) size h (with_driver p (driver_with (nr_pages mem size) m)))
          × (m.entry.id ≡ p.driver.umem.umem_count)
          × (m.pages ≡ nr_pages mem size)
          × (segments m.entry ≡ k.umem.sg)
    unfolding pd_map_user_memory map_rest
    pd_map_user_memory-get_list h good =
        let (m, e, id, pages, segs) =
          umem_sgmap-mapping p.driver.umem fresh.entries fresh.attrs k.umem asked good in
        let called = ioctl_umem_sgmap-good k.umem asked p.driver good in
        let reached =
          called
          ∙ ap (λ (r : ℤ × UmemHandle × Umem). (pos 0, some r.1, record p.driver { umem = r.2 }))
              e in
        (
          m,
          ap (λ (r : ℤ × Option UmemHandle × Privdata). map_rest k r size h p) reached,
          id,
          pages,
          segs,
        )

    pub pd_map_user_memory-refused :
        (h : PdUmem)
        → is_zero (umem_sgmap k.umem asked p.driver.umem).0 ≡ false
        → NothingMapped p (pd_map_user_memory k true mem size uh h p).2
    unfolding pd_map_user_memory map_rest
    pd_map_user_memory-refused h bad =
        let called = ioctl_umem_sgmap-bad k.umem asked p.driver bad in
        let left = umem_sgmap-error k.umem asked p.driver.umem (is_zero_off _ bad) in
        rw called ((left.same_list, left.same_attrs, inl left.same_held), refl, refl)

    pub pd_map_user_memory-failed :
        (h : PdUmem)
        → is_zero (umem_sgmap k.umem asked p.driver.umem).0 ≡ false
        → (pd_map_user_memory k true mem size uh h p).0 ≡ failed
    unfolding pd_map_user_memory map_rest
    pd_map_user_memory-failed h bad = rw (ioctl_umem_sgmap-bad k.umem asked p.driver bad) refl

    pd_map_user_memory-null :
        (h : PdUmem) → NothingMapped p (pd_map_user_memory k false mem size uh h p).2
    unfolding pd_map_user_memory
    pd_map_user_memory-null h = ((refl, refl, inl refl), refl, refl)

    -- Where no entry and no attribute of the driver has the next id, each call of `pd_mapUserMemory` that
    -- does not return 0 leaves the list of mappings, the attributes and the process's arrays as they were,
    -- and the driver holds what it held before, or one array of `vmalloc` more.
    pub pd_map_user_memory-NothingMapped :
        (given : Bool) (h : PdUmem)
        → (pd_map_user_memory k given mem size uh h p).0 ≢ ok
        → NothingMapped p (pd_map_user_memory k given mem size uh h p).2
    pd_map_user_memory-NothingMapped false h bad = pd_map_user_memory-null h
    pd_map_user_memory-NothingMapped true h bad =
        elim (Bool-cases (is_zero (umem_sgmap k.umem asked p.driver.umem).0)) [
          | inr off ↦ pd_map_user_memory-refused h off
          | inl on ↦
              let (m, e, id, pages, segs) = pd_map_user_memory-get_list h (is_zero_lem _ on) in
              rw e (
                get_list-NothingMapped asked size (nr_pages mem size) h m id pages
                  (λ z. bad (ap (λ (r : ℤ × PdUmem × Process). r.0) e ∙ z)))
        ]
