-- ===== src/Vm/PageAllocator/Tests.antt =====
-- The virtual page allocator with one small region of memory.
use kush_os_rewrite.Base.{
  ℕ, List, [], ◌∷◌, true, false, none, some, Outcome, done, panic, ◌≡◌, refl, arith, replicate, ◌<◌,
  ◌≤◌,
}
use kush_os_rewrite.Memory.Region
use kush_os_rewrite.Memory.Region.{Region}
use kush_os_rewrite.Memory.Pool
use kush_os_rewrite.Platform.PageTable
use kush_os_rewrite.Platform.PhysicalMap
use kush_os_rewrite.Vm.Map.{map_or_panic}
use kush_os_rewrite.Memory.PhysicalAllocator
use kush_os_rewrite.Platform.PageTable.{Machine}
use kush_os_rewrite.Vm.PageAllocator
use kush_os_rewrite.Vm.PageAllocator.{State, init, alloc, place}
use kush_os_rewrite.Vm.PageAllocator.Apart.{
  here, next, IsSafe, Reach-IsSafe, allocates, alloc-lt, alloc_no_page_panics,
}

-- 64 pages at 1 MiB.
abbrev memory : Region
memory = record {
  phys_base = 0x100000;
  num_pages = 64;
  bitmap_phys = 0x100000;
  bitmap_size = 63;
  bitmap_reserved = 4096;
  bitmap_addr = 0x100000;
  bitmap = 0x7fffffffffffffff ∷ [];
  alloc_base_phys = 0x101000;
  num_allocated = 0;
}

abbrev allocator : List Region → PhysicalAllocator.State
allocator regions = record {
  shared = some (record {
    page_size = 4096;
    extra_page_sizes = [];
    pools = some (record { page_size = 4096; regions = regions }) ∷ none ∷ none ∷ none ∷ [];
  });
  regions_used = 1;
}

abbrev machine : List Region → Machine PhysicalAllocator.State
machine regions = record { mem = λ a. 0; source = allocator regions }

abbrev after : State
after = elim (alloc true (some 4096) (init (machine (memory ∷ []))) 5000) [
  | done r ↦ r.0
  | _ ↦ init (machine [])
]

gives :
    alloc true (some 4096) (init (machine (memory ∷ []))) 5000
    ≡ done (after, some 0xffff900000000000)
unfolding alloc place PageAllocator.map_pages map_or_panic PhysicalAllocator.allocate_pages
    Pool.alloc Pool.alloc_from Region.alloc PageTable.map_page PageTable.ensure_table
    PageTable.alloc_page PageTable.read_table PageTable.write_table PageTable.get_table_vm_addr
    PageTable.table_entry PageTable.page_entry PageTable.table_addr PageTable.index
    PageTable.nearest_page_size PhysicalMap.add kush_os_rewrite.Base.ffs64
    PhysicalAllocator.allocate_page
gives = refl

Reach-IsSafe_example : IsSafe after ((0xffff900000000000, 5000) ∷ [])
Reach-IsSafe_example =
    Reach-IsSafe {s = after} {given = (0xffff900000000000, 5000) ∷ []}
      (next here (allocates 5000 (omega arith) gives))

alloc-lt_example : (◌≡◌ {A = ℕ} 0xffff900000000000 0xffff900000000000) × (0 < 5000) × (5000 ≤ 65536)
alloc-lt_example =
    alloc-lt true (some 4096) (init (machine (memory ∷ []))) after 5000 0xffff900000000000
      (omega arith) gives

no_pages :
    PhysicalAllocator.allocate_pages (allocator []) 2 (replicate 16 0) 0
    ≡ done (allocator [], 0, replicate 16 0)
unfolding PhysicalAllocator.allocate_pages Pool.alloc Pool.alloc_from
no_pages = refl

alloc_no_page_panics_example : alloc true (some 4096) (init (machine [])) 5000 ≡ panic
unfolding PageTable.nearest_page_size
alloc_no_page_panics_example =
    alloc_no_page_panics true (some 4096) (init (machine [])) 5000 (allocator []) (replicate 16 0)
      (omega arith) (omega arith) no_pages
