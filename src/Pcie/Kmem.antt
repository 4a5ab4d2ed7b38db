-- ===== src/Pcie/Kmem.antt =====
-- history/sw/drivers/pcie/src/kmem.c: the kernel buffers of a device.
-- What the kernel gives a call (memory for an entry, a sysfs attribute, DMA memory) is an argument of
-- the call. The state keeps the ids that have a sysfs attribute beside the list of entries.
pub mod Entries
use bpm_gw.Base.{
  ℤ, pos, negsuc, ℕ, zero, suc, ◌+◌, ◌-◌, ◌%◌, ◌^◌, Bool, true, false, not, ◌&&◌, Option, none,
  some, List, [], ◌∷◌, ◌++◌, ◌==◌, ltb, if◌then◌else◌,
}

-- `pcidriver_kmem_entry_t`
pub record KmemEntry : Type 0 where
  pub id : ℕ
  pub dma_handle : ℕ
  pub cpua : ℕ
  pub size : ℕ

-- `kmem_handle_t`
pub record KmemHandle : Type 0 where
  pub pa : ℕ
  pub size : ℕ
  pub handle_id : ℕ

-- The fields of `pcidriver_privdata_t` for kernel buffers, and the sysfs attributes.
pub record Kmem : Type 0 where
  pub kmem_count : ℕ
  pub kmem_list : List KmemEntry
  pub attrs : List ℕ

-- What the kernel gives to an allocation.
pub record Grant : Type 0 where
  pub entry_memory : Bool
  pub sysfs_result : ℕ
  pub dma_memory : Option (ℕ × ℕ)

abbrev pub einval : ℤ
einval = negsuc 21

abbrev pub enomem : ℤ
enomem = negsuc 11

abbrev pub efault : ℤ
efault = negsuc 13

abbrev pub eagain : ℤ
eagain = negsuc 10

abbrev pub page_size : ℕ
page_size = 4096

-- The rest of an allocation from the call of `pci_alloc_consistent` on; the sysfs attribute is there.
unfoldable pub kmem_alloc_dma : Option (ℕ × ℕ) → KmemHandle → Kmem → ℤ × KmemHandle × Kmem
kmem_alloc_dma none h s = (enomem, h, s)
kmem_alloc_dma (some (cpua, dma)) h s =
    let entry : KmemEntry = record {
      id = h.handle_id;
      dma_handle = dma;
      cpua = cpua;
      size = h.size;
    } in
    (pos 0, record h { pa = dma }, record s { kmem_list = s.kmem_list ++ (entry ∷ []) })

unfoldable pub kmem_alloc : Grant → KmemHandle → Kmem → ℤ × KmemHandle × Kmem
unfolding kmem_alloc_dma
kmem_alloc g h s =
    let h' = record h { handle_id = s.kmem_count } in
    let s' = record s { kmem_count = (s.kmem_count + 1) % 2 ^ 32 } in
    let s'' = record s' { attrs = s.attrs ++ (s.kmem_count ∷ []) } in
    if g.entry_memory
    then (if g.sysfs_result == 0 then kmem_alloc_dma g.dma_memory h' s'' else (enomem, h', s'))
    else (enomem, h, s)

-- `pcidriver_sysfs_remove` on the list of attributes
abbrev pub remove_attr : ℕ → List ℕ → List ℕ
remove_attr id [] = []
remove_attr id (a ∷ as') = if a == id then as' else a ∷ remove_attr id as'

-- `list_del`: the entry is told by its id.
abbrev pub list_del : ℕ → List KmemEntry → List KmemEntry
list_del id [] = []
list_del id (e ∷ es) = if e.id == id then es else e ∷ list_del id es

unfoldable pub kmem_free_entry : KmemEntry → Kmem → Kmem
kmem_free_entry e s = record s {
  kmem_list = list_del e.id s.kmem_list;
  attrs = remove_attr e.id s.attrs;
}

unfoldable pub find_entry : ℕ → List KmemEntry → Option KmemEntry
find_entry pa [] = none
find_entry pa (e ∷ es) = if e.dma_handle == pa then some e else find_entry pa es

unfoldable pub find_entry_id : ℕ → List KmemEntry → Option KmemEntry
find_entry_id id [] = none
find_entry_id id (e ∷ es) = if e.id == id then some e else find_entry_id id es

unfoldable pub free_found : Option KmemEntry → Kmem → ℤ × Kmem
unfolding kmem_free_entry
free_found none s = (einval, s)
free_found (some e) s = (pos 0, kmem_free_entry e s)

unfoldable pub kmem_free : KmemHandle → Kmem → ℤ × Kmem
unfolding free_found find_entry
kmem_free h s = free_found (find_entry h.pa s.kmem_list) s

-- `list_for_each_safe` over the entries that are there at the start
unfoldable pub free_each : List KmemEntry → Kmem → Kmem
unfolding kmem_free_entry
free_each [] s = s
free_each (e ∷ es) s = free_each es (kmem_free_entry e s)

unfoldable pub kmem_free_all : Kmem → Kmem
unfolding free_each
kmem_free_all s = free_each s.kmem_list s

-- The result of a sync for the entry that was found: the direction is one of three.
abbrev pub kmem_sync_found : Option KmemEntry → ℕ → ℤ
kmem_sync_found none dir = einval
kmem_sync_found (some e) dir = if ltb dir 3 then pos 0 else einval

unfoldable pub kmem_sync : KmemHandle → ℕ → Kmem → ℤ
unfolding find_entry
kmem_sync h dir s = kmem_sync_found (find_entry h.pa s.kmem_list) dir

-- The latest entry, `kmem_list.prev`.
abbrev pub last_entry : List KmemEntry → Option KmemEntry
last_entry [] = none
last_entry (e ∷ []) = some e
last_entry (e ∷ (f ∷ es)) = last_entry (f ∷ es)

-- The check of the sizes in `pcidriver_mmap_kmem`: whether it refuses.
abbrev pub size_mismatch : ℕ → ℕ → Bool
size_mismatch size vma_size =
    not (vma_size == size) && (ltb size page_size && not (vma_size == page_size))

unfoldable pub mmap_entry : Option KmemEntry → (KmemEntry → ℕ → ℕ) → ℕ → ℤ
mmap_entry none remap vma_size = efault
mmap_entry (some e) remap vma_size =
    if size_mismatch e.size vma_size
    then einval
    else if remap e vma_size == 0
    then pos 0
    else eagain

-- `remap` is the result of `remap_pfn_range`, which the kernel decides.
unfoldable pub mmap_kmem : (KmemEntry → ℕ → ℕ) → ℕ → ℕ → Kmem → ℤ
unfolding mmap_entry
mmap_kmem remap vm_start vm_end s =
    mmap_entry (last_entry s.kmem_list) remap ((vm_end + 2 ^ 64 - vm_start) % 2 ^ 64)
