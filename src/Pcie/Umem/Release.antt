-- ===== src/Pcie/Umem/Release.antt =====
-- history/sw/drivers/pcie/src/umem.c: what `umem_sgmap` holds is given back, on its error paths and by
-- `umem_sgunmap`.
mod Tests
use bpm_gw.Base.{
  ℤ, pos, negsuc, ℕ, ◌+◌, ◌-◌, ◌%◌, ◌^◌, ◌≡◌, ◌≢◌, refl, sym, ap, ◌∙◌, Bool, true, false, not,
  Option, some, none, List, [], ◌∷◌, ◌++◌, ◌==◌, ltb, if◌then◌else◌, All, ==_self, Bool-cases, inl,
  inr, ◌⊎◌, arith,
}
use bpm_gw.Pcie.Umem.{Segment, UmemEntry, einval, segments}
use bpm_gw.Pcie.Kmem.{enomem, remove_attr}
use bpm_gw.Pcie.Umem.Pages.{nr_pages}
use bpm_gw.Pcie.Umem.Sgmap.{
  UmemHandle, Mapping, Held, Umem, UmemGrant, pages_got, add_mapping, map_pages, umem_sgmap,
  umem_sgunmap, find_mapping, del_mapping, ioctl_umem_sgunmap, unmap_found, pin, vmalloc,
}

-- A call that fails has changed nothing but the counter of the ids.
pub record Unchanged (h : UmemHandle) (s : Umem) (r : ℤ × UmemHandle × Umem) : Type 0 where
  pub same_handle : r.1 ≡ h
  pub same_list : r.2.umem_list ≡ s.umem_list
  pub same_attrs : r.2.umem_attrs ≡ s.umem_attrs
  pub same_held : r.2.held ≡ s.held

map_pages-error :
    (g : UmemGrant) (l : List Segment) (n : ℕ) (h : UmemHandle) (s : Umem)
    → (map_pages g l n h (pin n (vmalloc (vmalloc s)))).0 ≢ pos 0
    → Unchanged h s (map_pages g l n h (pin n (vmalloc (vmalloc s))))
unfolding map_pages
map_pages-error g [] n h s bad = record {
  same_handle = refl;
  same_list = refl;
  same_attrs = refl;
  same_held = ground arith;
}
map_pages-error g (first ∷ more) n h s bad = record {
  same_handle = ground arith;
  same_list = ground arith;
  same_attrs = ground arith;
  same_held = ground arith;
}

-- Every call of `umem_sgmap` that does not return 0 leaves the handle, the list, the attributes, and all
-- that the driver holds of the kernel as they were.
pub umem_sgmap-error :
    (g : UmemGrant) (h : UmemHandle) (s : Umem)
    → (umem_sgmap g h s).0 ≢ pos 0
    → Unchanged h s (umem_sgmap g h s)
unfolding umem_sgmap
umem_sgmap-error g h s bad =
    let rest = map_pages-error g g.sg (nr_pages h.vma h.size) h s in
    record {
      same_handle = ground (arith, rest);
      same_list = ground (arith, rest);
      same_attrs = ground (arith, rest);
      same_held = ground (arith, rest);
    }

-- what a call that returns 0 adds
abbrev pub with_mapping : ℕ → Mapping → Umem → Umem
with_mapping n m s = record s {
  umem_count = (s.umem_count + 1) % 2 ^ 32;
  umem_list = s.umem_list ++ (m ∷ []);
  umem_attrs = s.umem_attrs ++ (s.umem_count ∷ []);
  held = record {
    arrays = s.held.arrays + 2;
    entries = s.held.entries + 1;
    pinned = s.held.pinned + n;
    mapped = s.held.mapped + 1;
  };
}

map_pages-mapping :
    (g : UmemGrant) (l : List Segment) (n : ℕ) (h : UmemHandle) (s : Umem)
    → (map_pages g l n h (pin n (vmalloc (vmalloc s)))).0 ≡ pos 0
    → (m : Mapping) × (map_pages g l n h (pin n (vmalloc (vmalloc s)))
        ≡ (pos 0, record h { handle_id = s.umem_count }, with_mapping n m s))
      × (m.entry.id ≡ s.umem_count)
      × (m.pages ≡ n)
      × (segments m.entry ≡ l)
unfolding map_pages
map_pages-mapping g [] n h s good = absurd (ground arith)
map_pages-mapping g (first ∷ more) n h s good = (
  record { entry = record { id = s.umem_count; first = first; more = more }; pages = n },
  ground arith,
  refl,
  refl,
  refl,
)

find_mapping-last :
    (ms : List Mapping) (m : Mapping) (id : ℕ)
    → m.entry.id ≡ id
    → All (λ (o : Mapping). o.entry.id ≢ id) ms
    → find_mapping (ms ++ (m ∷ [])) id ≡ some m
unfolding find_mapping
find_mapping-last [] m id e fresh = ground arith
find_mapping-last (o ∷ ms) m id e fresh =
    ground (arith, fresh.0, find_mapping-last ms m id e fresh.1)

del_mapping-last :
    (ms : List Mapping) (m : Mapping) (id : ℕ)
    → m.entry.id ≡ id
    → All (λ (o : Mapping). o.entry.id ≢ id) ms
    → del_mapping id (ms ++ (m ∷ [])) ≡ ms
del_mapping-last [] m id e fresh = ground arith
del_mapping-last (o ∷ ms) m id e fresh = ground (arith, fresh.0, del_mapping-last ms m id e fresh.1)

remove_attr-last :
    (xs : List ℕ) (id : ℕ) → All (λ (x : ℕ). x ≢ id) xs → remove_attr id (xs ++ (id ∷ [])) ≡ xs
remove_attr-last [] id fresh = ground arith
remove_attr-last (x ∷ xs) id fresh = ground (arith, fresh.0, remove_attr-last xs id fresh.1)

-- A call that returns 0 has come to the mapping of the pages.
umem_sgmap-map_pages :
    (g : UmemGrant) (h : UmemHandle) (s : Umem)
    → (umem_sgmap g h s).0 ≡ pos 0
    → umem_sgmap g h s
      ≡ map_pages g g.sg
          (nr_pages h.vma h.size)
          h
          (pin (nr_pages h.vma h.size) (vmalloc (vmalloc s)))
unfolding umem_sgmap
umem_sgmap-map_pages g h s good = ground arith

module _ (s : Umem) (fresh : All (λ (o : Mapping). o.entry.id ≢ s.umem_count) s.umem_list)
    (unused : All (λ (x : ℕ). x ≢ s.umem_count) s.umem_attrs) where
  -- Giving an added mapping back leaves the state as it was before, but for the counter.
  umem_sgunmap-mapping :
      (n : ℕ) (m : Mapping)
      → m.entry.id ≡ s.umem_count
      → m.pages ≡ n
      → umem_sgunmap m (with_mapping n m s) ≡ record s { umem_count = (s.umem_count + 1) % 2 ^ 32 }
  unfolding umem_sgunmap
  umem_sgunmap-mapping n m e k =
      let gone : del_mapping m.entry.id (s.umem_list ++ (m ∷ [])) ≡ s.umem_list =
        ap (λ (i : ℕ). del_mapping i (s.umem_list ++ (m ∷ []))) e
        ∙ del_mapping-last s.umem_list m s.umem_count e fresh in
      let lost : remove_attr m.entry.id (s.umem_attrs ++ (s.umem_count ∷ [])) ≡ s.umem_attrs =
        ap (λ (i : ℕ). remove_attr i (s.umem_attrs ++ (s.umem_count ∷ []))) e
        ∙ remove_attr-last s.umem_attrs s.umem_count unused in
      rw (gone, lost) (ground arith)

  pub ioctl_umem_sgunmap-mapping :
      (h : UmemHandle) (n : ℕ) (m : Mapping)
      → m.entry.id ≡ s.umem_count
      → m.pages ≡ n
      → ioctl_umem_sgunmap (record h { handle_id = s.umem_count }) (with_mapping n m s)
        ≡ (pos 0, record s { umem_count = (s.umem_count + 1) % 2 ^ 32 })
  unfolding ioctl_umem_sgunmap
  ioctl_umem_sgunmap-mapping h n m e k =
      rw (find_mapping-last s.umem_list m s.umem_count e fresh)
        (ap (λ (t : Umem). (pos 0, t)) (umem_sgunmap-mapping n m e k))

  pub umem_sgmap-mapping :
      (g : UmemGrant) (h : UmemHandle)
      → (umem_sgmap g h s).0 ≡ pos 0
      → (m : Mapping) × (umem_sgmap g h s ≡ (
        pos 0,
        record h { handle_id = s.umem_count },
        with_mapping (nr_pages h.vma h.size) m s,
      ))
        × (m.entry.id ≡ s.umem_count)
        × (m.pages ≡ nr_pages h.vma h.size)
        × (segments m.entry ≡ g.sg)
  umem_sgmap-mapping g h good =
      let same = umem_sgmap-map_pages g h s good in
      let (m, e, id, pages, segs) =
        map_pages-mapping g g.sg (nr_pages h.vma h.size) h s
          (ap (λ (r : ℤ × UmemHandle × Umem). r.0) (sym same) ∙ good) in
      (m, same ∙ e, id, pages, segs)

  -- Where no entry and no attribute has the next id, and `umem_sgmap` returns 0, `ioctl_umem_sgunmap`
  -- with the handle that it gave returns 0, and the list, the attributes and all that the driver holds
  -- of the kernel are as they were before the two calls.
  pub ioctl_umem_sgunmap-umem_sgmap :
      (g : UmemGrant) (h : UmemHandle)
      → (umem_sgmap g h s).0 ≡ pos 0
      → ioctl_umem_sgunmap (umem_sgmap g h s).1 (umem_sgmap g h s).2
        ≡ (pos 0, record s { umem_count = (s.umem_count + 1) % 2 ^ 32 })
  ioctl_umem_sgunmap-umem_sgmap g h good =
      let (m, e, id, pages, segs) = umem_sgmap-mapping g h good in
      ap (λ (r : ℤ × UmemHandle × Umem). ioctl_umem_sgunmap r.1 r.2) e
      ∙ ioctl_umem_sgunmap-mapping h (nr_pages h.vma h.size) m id pages
