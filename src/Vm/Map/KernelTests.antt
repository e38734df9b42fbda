-- ===== src/Vm/Map/KernelTests.antt =====
-- An entry of one page in a map whose tables come from the physical allocator.
use kush_os_rewrite.Base.{ℕ, done, true, List, [], ◌∷◌, none, some, arith, ◌≡◌, refl, ◌⊎◌, inl}
use kush_os_rewrite.Memory.Region.{Region}
use kush_os_rewrite.Memory.Region.Alloc.{free_in}
use kush_os_rewrite.Memory.Bitmap.{set_bits}
use kush_os_rewrite.Memory.Pool.One.{free_addrs}
use kush_os_rewrite.Memory.PhysicalAllocator.{State}
use kush_os_rewrite.Memory.PhysicalAllocator.Pages.{Serves, allocate_page-Serves}
use kush_os_rewrite.Memory.PhysicalAllocator
use kush_os_rewrite.Platform.PageTable.{Machine}
use kush_os_rewrite.Platform.Tests.{root_only, machine-IsReady}
use kush_os_rewrite.Vm.PageAllocator.{page_for_table}
use kush_os_rewrite.Vm.PageAllocator.Source.{kernel_source, AreSpare, IsNew}
use kush_os_rewrite.Vm.Map.{Entry, Map, add}
use kush_os_rewrite.Vm.Map.Ends.{Panics}
use kush_os_rewrite.Vm.Map.RoundTrip.{AddedRemoved}
use kush_os_rewrite.Vm.Map.Kernel.{FitsTables, kernel_add-remove}

-- Four free pages from 0x101000 on.
abbrev region : Region
region = record {
  phys_base = 0x100000;
  num_pages = 10;
  bitmap_phys = 0x100000;
  bitmap_size = 9;
  bitmap_reserved = 4096;
  bitmap_addr = 0x100000;
  bitmap = 15 ∷ [];
  alloc_base_phys = 0x101000;
  num_allocated = 0;
}

abbrev allocator : State
allocator = record {
  shared = some (record {
    page_size = 4096;
    extra_page_sizes = [];
    pools = some (record { page_size = 4096; regions = region ∷ [] }) ∷ none ∷ none ∷ none ∷ [];
  });
  regions_used = 1;
}

abbrev four_pages : List ℕ
four_pages = 0x101000 ∷ 0x102000 ∷ 0x103000 ∷ 0x104000 ∷ []

Serves-four : Serves allocator 4096 four_pages
unfolding free_addrs free_in set_bits
Serves-four = record {
  allocator = _;
  pool = _;
  shared = refl;
  first = refl;
  same_size = refl;
  valid = (record { holds = omega arith; words = (omega arith, tt) }, tt);
  free = refl;
}

abbrev kernel_machine : Machine State
kernel_machine = record { mem = λ a. 0; source = allocator }

fits : FitsTables true root_only four_pages kernel_machine
unfolding AreSpare IsNew
fits = record { tree = machine-IsReady.tree; serves = Serves-four; spare = omega arith }

abbrev map : Map
map = record { parent = none; pml4 = 4096; ref_count = 1 }

abbrev entry : Entry
entry = record { length = 4096; access_mode = 0x3; phys_base = 0x80000; ref_count = 1 }

kernel_add-remove_example :
    AddedRemoved page_for_table true
      (kernel_source true)
      4096
      entry
      0x400000
      4096
      map
      kernel_machine
    ⊎ Panics true 4096 kernel_machine.mem 0x400000 0x401000
        (add page_for_table true map kernel_machine 0x400000 (some entry))
kernel_add-remove_example =
    kernel_add-remove true 4096 entry map kernel_machine root_only four_pages 0x400000 4096 refl
      (omega arith) (omega arith) refl refl refl (omega arith) (inl (omega arith)) fits refl
      (omega arith)

allocate_page-Serves_example :
    (s' : State) × (PhysicalAllocator.allocate_page allocator 0 ≡ done (s', 1, 0x101000 ∷ []))
    × Serves s' 4096 (0x102000 ∷ 0x103000 ∷ 0x104000 ∷ [])
allocate_page-Serves_example = allocate_page-Serves allocator 4096 0 four_pages Serves-four
