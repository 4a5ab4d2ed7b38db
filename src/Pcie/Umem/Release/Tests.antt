-- ===== src/Pcie/Umem/Release/Tests.antt =====
-- Mappings of history/sw/drivers/pcie/src/umem.c at concrete buffers.
use bpm_gw.Base.{pos, negsuc, ◌≡◌, refl, true, [], ◌∷◌, arith}
use bpm_gw.Pcie.Umem.Pages.{nr_pages}
use bpm_gw.Pcie.Umem.Sgmap.{
  UmemHandle, Mapping, Umem, UmemGrant, umem_sgmap, ioctl_umem_sgunmap, umem_sgunmap_all, umem_sync,
}
use bpm_gw.Pcie.Umem.Release.{ioctl_umem_sgunmap-umem_sgmap}

abbrev buffer : UmemHandle
buffer = record { vma = 0x10100; size = 0x1000; handle_id = 0; dir = 1 }

abbrev older : Mapping
older = record {
  entry = record { id = 3; first = record { addr = 0x5000; size = 16 }; more = [] };
  pages = 1;
}

abbrev driver : Umem
driver = record {
  umem_count = 4;
  umem_list = older ∷ [];
  umem_attrs = 3 ∷ [];
  held = record { arrays = 2; entries = 1; pinned = 1; mapped = 1 };
}

abbrev generous : UmemGrant
generous = record {
  pages_memory = true;
  sg_memory = true;
  got = pos 2;
  sg = record { addr = 0x8100; size = 0x1000 } ∷ [];
  entry_memory = true;
  sysfs_result = 0;
}

-- only one of the two pages can be pinned
abbrev partial : UmemGrant
partial = record generous { got = pos 1 }

two_pages : nr_pages 0x10100 0x1000 ≡ 2
unfolding nr_pages
two_pages = refl

partial_fails : (umem_sgmap partial buffer driver).0 ≡ negsuc 11
unfolding umem_sgmap nr_pages
partial_fails = refl

generous_maps : (umem_sgmap generous buffer driver).0 ≡ pos 0
unfolding umem_sgmap nr_pages
generous_maps = refl

ioctl_umem_sgunmap-umem_sgmap_example :
    ioctl_umem_sgunmap (umem_sgmap generous buffer driver).1 (umem_sgmap generous buffer driver).2
    ≡ (pos 0, record driver { umem_count = 5 })
ioctl_umem_sgunmap-umem_sgmap_example =
    ioctl_umem_sgunmap-umem_sgmap driver (omega arith) (omega arith) generous buffer generous_maps

all_unmapped : (umem_sgunmap_all driver).umem_list ≡ []
unfolding umem_sgunmap_all
all_unmapped = refl

synced : umem_sync (record buffer { handle_id = 3 }) driver ≡ pos 0
unfolding umem_sync
synced = refl
