-- ===== src/Pcie/Umem.antt =====
-- history/sw/drivers/pcie/src/umem.c: the scatter-gather lists of user memory.
-- An address is an `unsigned long` of 64 bits. The user's array of entries is a list.
pub mod Merge
pub mod Sgget
pub mod Pages
pub mod Release
pub mod Sgmap
use bpm_gw.Base.{
  ℕ, zero, suc, ◌+◌, ◌-◌, ◌*◌, ◌/◌, ◌%◌, ◌^◌, Bool, Option, none, some, List, [], ◌∷◌, ◌==◌, ltb,
  if◌then◌else◌, ℤ, pos, negsuc, length, set, get_or,
}

-- one entry of a scatter-gather list: `sg_dma_address` and `sg_dma_len`, or `umem_sg_entry_t`
pub record Segment : Type 0 where
  pub addr : ℕ
  pub size : ℕ

-- `pcidriver_umem_entry_t`: the `nents` segments that are mapped, of which there is one at least,
-- since `umem_sgmap` adds no entry where `pci_map_sg` returns 0.
pub record UmemEntry : Type 0 where
  pub id : ℕ
  pub first : Segment
  pub more : List Segment

abbrev pub segments : UmemEntry → List Segment
segments e = e.first ∷ e.more

-- `umem_sglist_t`
pub record SgList : Type 0 where
  pub handle_id : ℕ
  pub merged : Bool
  pub nents : ℕ
  pub sg : List Segment

abbrev pub no_segment : Segment
no_segment = record { addr = 0; size = 0 }

-- where the entry ends, as the code computes it
abbrev pub segment_end : Segment → ℕ
segment_end e = (e.addr + e.size) % 2 ^ 64

unfoldable pub umem_find_entry_id : List UmemEntry → ℕ → Option UmemEntry
umem_find_entry_id [] id = none
umem_find_entry_id (e ∷ es) id = if e.id == id then some e else umem_find_entry_id es id

-- The rounds from `i = 1` on of the loop that merges, with the user's array and `idx`.
unfoldable pub merge_loop : List Segment → ℕ → List Segment → ℕ × List Segment
merge_loop [] idx sg = (idx, sg)
merge_loop (e ∷ es) idx sg =
    let cur = get_or sg idx no_segment in
    let joined =
      merge_loop es idx (set sg idx (record cur { size = (cur.size + e.size) % 2 ^ 64 })) in
    let skipped = merge_loop es idx sg in
    let started = merge_loop es (suc idx) (set sg (suc idx) e) in
    if e.addr == segment_end cur then joined else if e.size == 0 then skipped else started

-- The loop that copies, from the round `i` on.
unfoldable pub copy_loop : List Segment → ℕ → List Segment → List Segment
copy_loop [] i sg = sg
copy_loop (e ∷ es) i sg = copy_loop es (suc i) (set sg i e)

-- The count and the array that a call stores.
unfoldable pub fill : Bool → UmemEntry → List Segment → ℕ × List Segment
unfolding merge_loop copy_loop
fill merged e sg =
    let together = merge_loop e.more 0 (set sg 0 e.first) in
    let copied = copy_loop (segments e) 0 sg in
    let last = get_or copied (length e.more) no_segment in
    if merged
    then (suc together.0, together.1)
    else (if last.size == 0 then length e.more else suc (length e.more), copied)

abbrev pub einval : ℤ
einval = negsuc 21

-- `umem_sgget` from the entry that has been found
unfoldable pub sgget_entry : Option UmemEntry → SgList → ℤ × SgList
unfolding fill
sgget_entry none l = (einval, l)
sgget_entry (some e) l =
    let filled = fill l.merged e l.sg in
    if ltb l.nents (length (segments e))
    then (einval, l)
    else (pos 0, record l { nents = filled.0; sg = filled.1 })

unfoldable pub umem_sgget : List UmemEntry → SgList → ℤ × SgList
unfolding umem_find_entry_id sgget_entry
umem_sgget umem_list l = sgget_entry (umem_find_entry_id umem_list l.handle_id) l
