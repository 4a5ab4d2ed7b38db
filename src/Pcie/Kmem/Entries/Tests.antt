-- ===== src/Pcie/Kmem/Entries/Tests.antt =====
-- Allocations and mappings of kernel buffers on a device with one buffer.
use bpm_gw.Base.{◌≡◌, refl, true, some, none, [], ◌∷◌, arith}
use bpm_gw.Pcie.Kmem.{KmemEntry, KmemHandle, Kmem, Grant, enomem, kmem_alloc}
use bpm_gw.Pcie.Kmem.Entries.{IsValid}

abbrev buffer : KmemEntry
buffer = record { id = 0; dma_handle = 0x10000; cpua = 0x7000; size = 8192 }

abbrev one_buffer : Kmem
one_buffer = record { kmem_count = 1; kmem_list = buffer ∷ []; attrs = 0 ∷ [] }

abbrev handle : KmemHandle
handle = record { pa = 0; size = 4096; handle_id = 0 }

abbrev grant : Grant
grant = record { entry_memory = true; sysfs_result = 0; dma_memory = some (0x9000, 0x20000) }

abbrev no_dma : Grant
no_dma = record { entry_memory = true; sysfs_result = 0; dma_memory = none }

-- The attribute of a buffer that was not allocated stays.
leaves_attr : kmem_alloc no_dma handle one_buffer ≡ (
  enomem,
  record { pa = 0; size = 4096; handle_id = 1 },
  record { kmem_count = 2; kmem_list = buffer ∷ []; attrs = 0 ∷ 1 ∷ [] },
)
unfolding kmem_alloc
leaves_attr = refl

one_buffer-IsValid : IsValid one_buffer
one_buffer-IsValid = record {
  ids = (omega arith, tt);
  attr_ids = (omega arith, tt);
  distinct = (tt, tt);
}
