-- ===== src/Pcie/Ioctl/Leaks/Tests.antt =====
-- Calls of history/sw/drivers/pcie/src/ioctl.c on a driver with nothing mapped.
use bpm_gw.Base.{pos, negsuc, ◌≡◌, refl, true, none, [], ◌∷◌}
use bpm_gw.Pcie.Umem.{SgList, umem_find_entry_id}
use bpm_gw.Pcie.Ioctl.{Privdata, Copies, ioctl_mmap_mode, ioctl_mmap_area, ioctl_clear_ioq, entries}

abbrev opened : Privdata
opened = record {
  mmap_mode = 0;
  mmap_area = 0;
  kmem = record { kmem_count = 0; kmem_list = []; attrs = [] };
  umem = record {
    umem_count = 0;
    umem_list = [];
    umem_attrs = [];
    held = record { arrays = 0; entries = 0; pinned = 0; mapped = 0 };
  };
  irq_outstanding = λ i. 0;
  irq_count = 0;
}

abbrev copied : Copies
copied = record {
  struct_read = true;
  memory = true;
  array_read = true;
  array_written = true;
  struct_written = true;
}

abbrev request : SgList
request = record {
  handle_id = 7;
  merged = true;
  nents = 1;
  sg = record { addr = 0; size = 0 } ∷ [];
}

no_entry : umem_find_entry_id (entries opened.umem.umem_list) 7 ≡ none
unfolding umem_find_entry_id
no_entry = refl

no_such_mode : ioctl_mmap_mode 2 opened ≡ (negsuc 21, opened)
unfolding ioctl_mmap_mode
no_such_mode = refl

last_bar : (ioctl_mmap_area 5 opened).0 ≡ pos 0
unfolding ioctl_mmap_area
last_bar = refl

no_such_source : (ioctl_clear_ioq 16 opened).0 ≡ negsuc 13
unfolding ioctl_clear_ioq
no_such_source = refl
