-- ===== src/Pcie/Umem/Sgmap.antt =====
-- history/sw/drivers/pcie/src/umem.c: `umem_sgmap`, which pins and maps a buffer of the user, and
-- `umem_sgunmap`, which gives it all back.
-- What the kernel gives a call is an argument of the call. The state counts what the driver holds of the
-- kernel: arrays of `vmalloc`, entries of `kmalloc`, pinned pages and mapped lists; the locks of single
-- pages and their dirty marks are left out, and so is a buffer whose `nr_pages` wraps to 0.
use bpm_gw.Base.{
  ℤ, pos, negsuc, ℕ, ◌+◌, ◌-◌, ◌%◌, ◌^◌, Bool, not, Option, none, some, List, [], ◌∷◌, ◌++◌, ◌==◌,
  ltb, if◌then◌else◌,
}
use bpm_gw.Pcie.Umem.{Segment, UmemEntry, einval}
use bpm_gw.Pcie.Kmem.{enomem, remove_attr}
use bpm_gw.Pcie.Umem.Pages.{nr_pages}

-- `umem_handle_t`
pub record UmemHandle : Type 0 where
  pub vma : ℕ
  pub size : ℕ
  pub handle_id : ℕ
  pub dir : ℕ

-- An entry of the list, with the number of its pages.
pub record Mapping : Type 0 where
  pub entry : UmemEntry
  pub pages : ℕ

-- What the driver holds of the kernel.
pub record Held : Type 0 where
  pub arrays : ℕ
  pub entries : ℕ
  pub pinned : ℕ
  pub mapped : ℕ

-- The fields of `pcidriver_privdata_t` for user memory, and the sysfs attributes.
pub record Umem : Type 0 where
  pub umem_count : ℕ
  pub umem_list : List Mapping
  pub umem_attrs : List ℕ
  pub held : Held

-- What the kernel gives: `got` is the result of `get_user_pages`, and `sg` the list of `pci_map_sg`.
pub record UmemGrant : Type 0 where
  pub pages_memory : Bool
  pub sg_memory : Bool
  pub got : ℤ
  pub sg : List Segment
  pub entry_memory : Bool
  pub sysfs_result : ℕ

abbrev pub vmalloc : Umem → Umem
vmalloc s = record s { held = record s.held { arrays = s.held.arrays + 1 } }

abbrev pub vfree : Umem → Umem
vfree s = record s { held = record s.held { arrays = s.held.arrays - 1 } }

abbrev pub kmalloc : Umem → Umem
kmalloc s = record s { held = record s.held { entries = s.held.entries + 1 } }

abbrev pub kfree : Umem → Umem
kfree s = record s { held = record s.held { entries = s.held.entries - 1 } }

abbrev pub pin : ℕ → Umem → Umem
pin n s = record s { held = record s.held { pinned = s.held.pinned + n } }

abbrev pub unpin : ℕ → Umem → Umem
unpin n s = record s { held = record s.held { pinned = s.held.pinned - n } }

abbrev pub map_sg : Umem → Umem
map_sg s = record s { held = record s.held { mapped = s.held.mapped + 1 } }

abbrev pub unmap_sg : Umem → Umem
unmap_sg s = record s { held = record s.held { mapped = s.held.mapped - 1 } }

-- the pages that `get_user_pages` has pinned
abbrev pub pages_got : ℤ → ℕ
pages_got (pos n) = n
pages_got (negsuc n) = 0

-- The labels at the end of `umem_sgmap`; `n` is `nr_pages` there.
abbrev pub at_umem_sgmap_pages : Umem → Umem
at_umem_sgmap_pages s = vfree s

abbrev pub at_umem_sgmap_unmap : ℕ → Umem → Umem
at_umem_sgmap_unmap n s = at_umem_sgmap_pages (vfree (unpin n s))

abbrev pub at_umem_sgmap_entry : ℕ → Umem → Umem
at_umem_sgmap_entry n s = at_umem_sgmap_unmap n (unmap_sg s)

abbrev pub at_umem_sgmap_name_fail : ℕ → Umem → Umem
at_umem_sgmap_name_fail n s = at_umem_sgmap_entry n (kfree s)

-- From the fresh entry on, with the first segment and the others.
unfoldable pub add_mapping :
    UmemGrant → ℕ → Segment → List Segment → UmemHandle → Umem → ℤ × UmemHandle × Umem
add_mapping g n first more h s =
    let id = s.umem_count in
    let counted = record s { umem_count = (id + 1) % 2 ^ 32 } in
    let entry : UmemEntry = record { id = id; first = first; more = more } in
    let mapping : Mapping = record { entry = entry; pages = n } in
    if g.sysfs_result == 0
    then (
      pos 0,
      record h { handle_id = id },
      record counted {
        umem_list = s.umem_list ++ (mapping ∷ []);
        umem_attrs = s.umem_attrs ++ (id ∷ []);
      },
    )
    else (enomem, h, at_umem_sgmap_name_fail n counted)

-- From the call of `pci_map_sg` on.
unfoldable pub map_pages : UmemGrant → List Segment → ℕ → UmemHandle → Umem → ℤ × UmemHandle × Umem
unfolding add_mapping
map_pages g [] n h s = (enomem, h, at_umem_sgmap_unmap n s)
map_pages g (first ∷ more) n h s =
    if g.entry_memory
    then add_mapping g n first more h (kmalloc (map_sg s))
    else (enomem, h, at_umem_sgmap_entry n (map_sg s))

unfoldable pub umem_sgmap : UmemGrant → UmemHandle → Umem → ℤ × UmemHandle × Umem
unfolding map_pages
umem_sgmap g h s =
    let n = nr_pages h.vma h.size in
    let pages = pages_got g.got in
    let s2 = vmalloc (vmalloc s) in
    if h.size == 0
    then (einval, h, s)
    else if not g.pages_memory
    then (enomem, h, s)
    else if not g.sg_memory
    then (enomem, h, at_umem_sgmap_pages (vmalloc s))
    else if ltb pages n
    then (enomem, h, at_umem_sgmap_unmap pages (pin pages s2))
    else map_pages g g.sg n h (pin n s2)

-- `list_del`; an entry is told by its id.
abbrev pub del_mapping : ℕ → List Mapping → List Mapping
del_mapping id [] = []
del_mapping id (m ∷ ms) = if m.entry.id == id then ms else m ∷ del_mapping id ms

unfoldable pub umem_sgunmap : Mapping → Umem → Umem
umem_sgunmap m s =
    let s1 = record s {
      umem_attrs = remove_attr m.entry.id s.umem_attrs;
      umem_list = del_mapping m.entry.id s.umem_list;
    } in
    kfree (vfree (vfree (unpin m.pages (unmap_sg s1))))

unfoldable pub find_mapping : List Mapping → ℕ → Option Mapping
find_mapping [] id = none
find_mapping (m ∷ ms) id = if m.entry.id == id then some m else find_mapping ms id

unfoldable pub unmap_found : Option Mapping → Umem → ℤ × Umem
unfolding umem_sgunmap
unmap_found none s = (einval, s)
unmap_found (some m) s = (pos 0, umem_sgunmap m s)

-- `ioctl_umem_sgunmap` behind its copy of the handle
unfoldable pub ioctl_umem_sgunmap : UmemHandle → Umem → ℤ × Umem
unfolding unmap_found find_mapping
ioctl_umem_sgunmap h s = unmap_found (find_mapping s.umem_list h.handle_id) s

-- `list_for_each_safe` over the entries that are there at the start
unfoldable pub unmap_each : List Mapping → Umem → Umem
unfolding umem_sgunmap
unmap_each [] s = s
unmap_each (m ∷ ms) s = unmap_each ms (umem_sgunmap m s)

unfoldable pub umem_sgunmap_all : Umem → Umem
unfolding unmap_each
umem_sgunmap_all s = unmap_each s.umem_list s

-- The result of a sync for the entry that was found: the direction is one of three.
abbrev pub sync_found : Option Mapping → ℕ → ℤ
sync_found none dir = einval
sync_found (some m) dir = if ltb dir 3 then pos 0 else einval

unfoldable pub umem_sync : UmemHandle → Umem → ℤ
unfolding find_mapping
umem_sync h s = sync_found (find_mapping s.umem_list h.handle_id) h.dir
