-- ===== src/Pcie/Client/Tests.antt =====
-- Calls of history/sw/lib/pcie/pciDriver_Capi.c on a device with one older mapping.
use bpm_gw.Base.{
  ℤ, pos, ℕ, ◌+◌, ◌%◌, ◌^◌, ◌≡◌, ◌≤◌, refl, sym, ◌∙◌, true, false, none, some, List, [], ◌∷◌, arith,
  bit_and, take, ltb, if◌then◌else◌,
}
use bpm_gw.Bus.{ok, failed}
use bpm_gw.Pcie.Kmem.{Kmem, KmemHandle}
use bpm_gw.Pcie.Umem.{Segment}
use bpm_gw.Pcie.Umem.Merge.{cover, Separate}
use bpm_gw.Pcie.Umem.Pages.{nr_pages}
use bpm_gw.Pcie.Umem.Sgmap.{Umem, Mapping, UmemHandle, umem_sgmap}
use bpm_gw.Pcie.Ioctl.{ioctl_umem_sgmap, ioctl_umem_sgget}
use bpm_gw.Pcie.Config.{ConfigSpace, PciDev, BoardInfo}
use bpm_gw.Pcie.Client.{
  Process, PdKmem, PdUmem, Answers, mask_loop, pd_alloc_kernel_memory, pd_map_user_memory,
  pd_unmap_user_memory,
}
use bpm_gw.Pcie.Client.Areas.{pd_map_bar, pd_get_id}
use bpm_gw.Pcie.Client.Mutex.{Unlocked}
use bpm_gw.Pcie.Client.Session.{
  Call, alloc, map_user, clear, map_bar, unmap_bar, get_id, write_config, run, run-Unlocked,
}
use bpm_gw.Pcie.Client.Buffers.{Gives, Given, pd_free_kernel_memory-pd_alloc_kernel_memory}
use bpm_gw.Pcie.Client.BarAreas.{MapsBar, mask_loop-offset, pd_unmap_bar-pd_map_bar}
use bpm_gw.Pcie.Client.UserMemory.{FreshIds, NothingMapped, pd_map_user_memory-NothingMapped}
use bpm_gw.Pcie.Client.UserLists.{
  pd_unmap_user_memory-pd_map_user_memory, pd_map_user_memory-unaligned, pd_map_user_memory-cover,
}

-- A configuration space with 1 in every byte that can be read.
abbrev space : ConfigSpace (ℕ → ℕ)
space = record {
  read_config = λ bytes addr s. (pos 0, s addr, s);
  write_config = λ bytes addr v s. (pos 0, λ a. if ltb a addr then s a else v);
}

abbrev ones : ℕ → ℕ
ones a = 1

-- Each BAR begins 0x100 bytes behind a page and has a page.
abbrev dev : PciDev
dev = record {
  vendor = 0x10dc;
  device = 0x018d;
  bus_number = 1;
  devfn = 0;
  resources = λ i. record { start = 0xf7000100; len = 0x1000; is_io = false; prefetch = false };
}

abbrev older : Mapping
older = record {
  entry = record { id = 3; first = record { addr = 0x5000; size = 16 }; more = [] };
  pages = 1;
}

abbrev umem : Umem
umem = record {
  umem_count = 4;
  umem_list = older ∷ [];
  umem_attrs = 3 ∷ [];
  held = record { arrays = 2; entries = 1; pinned = 1; mapped = 1 };
}

abbrev kmem : Kmem
kmem = record { kmem_count = 0; kmem_list = []; attrs = [] }

abbrev process : Process
process = record {
  driver = record {
    mmap_mode = 0;
    mmap_area = 0;
    kmem = kmem;
    umem = umem;
    irq_outstanding = λ i. 0;
    irq_count = 0;
  };
  locked = false;
  mapped = [];
  arrays = 0;
}

abbrev two_segments : List Segment
two_segments = record { addr = 0x8100; size = 0xf00 } ∷ record { addr = 0x9000; size = 0x100 } ∷ []

abbrev empty : Segment
empty = record { addr = 0; size = 0 }

abbrev answers : Answers
answers = record {
  kmem = record { entry_memory = true; sysfs_result = 0; dma_memory = some (0x9000, 0x20000) };
  umem = record {
    pages_memory = true;
    sg_memory = true;
    got = pos 2;
    sg = two_segments;
    entry_memory = true;
    sysfs_result = 0;
  };
  list_memory = true;
  array = some (empty ∷ empty ∷ []);
  area = 0x7f0000000000;
  remap = λ len. 0;
  remap_kmem = λ e len. 0;
}

abbrev uh : UmemHandle
uh = record { vma = 0; size = 0; handle_id = 0; dir = 0 }

abbrev pd_umem : PdUmem
pd_umem = record { vma = 0; size = 0; handle_id = 0; nents = 0; sg = [] }

abbrev kh : KmemHandle
kh = record { pa = 0; size = 0; handle_id = 0 }

abbrev pd_kmem : PdKmem
pd_kmem = record { pa = 0; size = 0; mem = 0; handle_id = 0 }

abbrev info : BoardInfo
info = record {
  vendor_id = 0;
  device_id = 0;
  bus = 0;
  slot = 0;
  devfn = 0;
  interrupt_pin = 0;
  interrupt_line = 0;
  irq = 0;
  bar_start = λ i. 0;
  bar_length = λ i. 0;
}

abbrev calls : List Call
calls =
    alloc true answers 8192 kh pd_kmem
    ∷ map_bar true answers info 2
    ∷ map_user true answers 0x10100 0x1000 uh pd_umem
    ∷ clear true 3
    ∷ get_id true info
    ∷ write_config true 1 7 4
    ∷ unmap_bar true info 2 0x7f0000000100
    ∷ map_bar true answers info 9
    ∷ []

run-Unlocked_example : Unlocked (λ (o : (ℕ → ℕ) × Process). o.1) (run space dev calls ones process)
run-Unlocked_example = run-Unlocked space dev calls ones process refl

gives : Gives answers.kmem process.driver.kmem
gives = record {
  valid = record { ids = tt; attr_ids = tt; distinct = tt };
  cpua = 0x9000;
  dma = 0x20000;
  memory = refl;
  attribute = refl;
  address = refl;
  unused = tt;
}

pd_free_kernel_memory-pd_alloc_kernel_memory_example :
    (r : ℕ × PdKmem × Process) × (pd_alloc_kernel_memory dev answers true 8192 kh pd_kmem process
      ≡ some r)
    × Given process r
pd_free_kernel_memory-pd_alloc_kernel_memory_example =
    pd_free_kernel_memory-pd_alloc_kernel_memory dev answers 8192 kh pd_kmem process refl
      (omega arith) gives

pd_unmap_bar-pd_map_bar_example :
    (r : ℕ × (ℕ → ℕ) × Process) × (pd_map_bar space dev true answers info 2 ones process ≡ some r)
    × MapsBar space dev info 2 0x7f0000000000 process r
pd_unmap_bar-pd_map_bar_example =
    pd_unmap_bar-pd_map_bar space dev answers info info 2 ones process refl (omega arith)
      (λ s. (refl, refl)) (omega arith) (omega arith) (omega arith)

mask_loop-offset_example :
    (mask : ℕ) × (mask_loop (12 + 1 + 3) 0 (2 ^ 12) ≡ some mask)
    × (bit_and 0xf7000100 mask ≡ 0xf7000100 % 2 ^ 12)
mask_loop-offset_example = mask_loop-offset 12 3 0xf7000100

fresh : FreshIds umem
fresh = record { entries = omega arith; attrs = omega arith }

-- `posix_memalign` gives nothing.
abbrev no_array : Answers
no_array = record answers { array = none }

no_array_fails : (pd_map_user_memory no_array true 0x10100 0x1000 uh pd_umem process).0 ≡ failed
unfolding pd_map_user_memory umem_sgmap nr_pages ioctl_umem_sgmap ioctl_umem_sgget
no_array_fails = refl

pd_map_user_memory-NothingMapped_example :
    NothingMapped process (pd_map_user_memory no_array true 0x10100 0x1000 uh pd_umem process).2
pd_map_user_memory-NothingMapped_example =
    pd_map_user_memory-NothingMapped no_array process fresh 0x10100 0x1000 uh true pd_umem
      (λ e. ground (arith, sym no_array_fails ∙ e))

maps : (pd_map_user_memory answers true 0x10100 0x1000 uh pd_umem process).0 ≡ ok
unfolding pd_map_user_memory umem_sgmap nr_pages ioctl_umem_sgmap ioctl_umem_sgget
maps = refl

pd_unmap_user_memory-pd_map_user_memory_example :
    pd_unmap_user_memory true uh
      (pd_map_user_memory answers true 0x10100 0x1000 uh pd_umem process).1
      (pd_map_user_memory answers true 0x10100 0x1000 uh pd_umem process).2
    ≡ (
      ok,
      record process {
        driver = record process.driver { umem = record umem { umem_count = (4 + 1) % 2 ^ 32 } };
      },
    )
pd_unmap_user_memory-pd_map_user_memory_example =
    pd_unmap_user_memory-pd_map_user_memory answers process fresh 0x10100 0x1000 uh uh pd_umem maps

sgmap_good : (umem_sgmap answers.umem (record uh { vma = 0x10100; size = 0x1000 }) umem).0 ≡ pos 0
unfolding umem_sgmap nr_pages
sgmap_good = refl

pd_map_user_memory-cover_example :
    (r : ℤ × PdUmem × Process) × (pd_map_user_memory answers true 0x10100 0x1000 uh pd_umem process
      ≡ r)
    × (r.0 ≡ ok)
    × (r.1.nents ≤ 2)
    × (cover (take r.1.nents r.1.sg) ≡ cover two_segments)
    × Separate (take r.1.nents r.1.sg)
pd_map_user_memory-cover_example =
    pd_map_user_memory-cover answers process fresh 0x10100 0x1000 uh pd_umem (empty ∷ empty ∷ [])
      sgmap_good refl refl (omega arith) (omega arith) (omega arith, (omega arith, tt))

-- A buffer of two bytes on a page boundary.
pd_map_user_memory-unaligned_example :
    (pd_map_user_memory answers true 0x10fff 2 uh pd_umem process).0 ≡ failed
unfolding nr_pages
pd_map_user_memory-unaligned_example =
    pd_map_user_memory-unaligned answers process fresh 0x10fff 2 uh pd_umem (omega arith)
      (omega arith) refl

logical_or : (pd_get_id space dev true info ones).0 ≡ pos 1
unfolding pd_get_id
logical_or = refl
