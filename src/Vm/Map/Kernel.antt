-- ===== src/Vm/Map/Kernel.antt =====
-- `Map::add` and `willRemoveFrom` with tables that the physical allocator gives: no parameter of the
-- tables is left.
use kush_os_rewrite.Base.{ℕ, ◌+◌, ◌*◌, ◌/◌, ◌%◌, ◌^◌, ◌≤◌, ◌<◌, Bool, List, length, some, arith}
use kush_os_rewrite.Base.{◌≡◌, ap, sym, ◌⊎◌}
use mathlib.Core.Path.{subst}
use kush_os_rewrite.Memory.PhysicalAllocator
use kush_os_rewrite.Memory.PhysicalAllocator.Pages.{Serves}
use kush_os_rewrite.Platform.PageTable.{Machine}
use kush_os_rewrite.Platform.PageTable.Tree.{Levels, IsTree}
use kush_os_rewrite.Platform.PageTable.Ranges.{IsCanonicalRange}
use kush_os_rewrite.Vm.PageAllocator.{page_for_table}
use kush_os_rewrite.Vm.PageAllocator.Source.{kernel_source, free_list, free_list_lem, AreSpare}
use kush_os_rewrite.Vm.Map.{Entry, Map, add}
use kush_os_rewrite.Vm.Map.Ends.{Panics}
use kush_os_rewrite.Vm.Map.RoundTrip.{AddedRemoved, add-remove}

-- The physical allocator and the tables fit together: its free pages have these addresses, each once,
-- aligned, within reach of the table code, and none of them is a table.
pub record FitsTables (early : Bool) (level : Levels) (addrs : List ℕ)
    (m : Machine PhysicalAllocator.State) : Type 0 where
  pub tree : IsTree early level m.mem
  pub serves : Serves m.source 4096 addrs
  pub spare : AreSpare early level addrs

-- With `PhysicalAllocator::AllocatePage` as the page source: for an entry of at least one page, at a
-- base that is not 0, where base, length and physical base are multiples of the page size, the range
-- stands in one half of the canonical addresses and the physical range ends below 2^52, when the tables
-- are a tree and the allocator fits them and has three free pages for each page of the entry:
-- `Map::add` and then `willRemoveFrom` both return, and `getPhysAddr` finds no page at the addresses of
-- the range and answers for every other canonical address as before; or `add` panics, and then,
-- already before the call, `getPhysAddr` meets a large page at some address of the range.
pub kernel_add-remove :
    (early : Bool) (pml4 : ℕ) (entry : Entry) (map : Map) (m : Machine PhysicalAllocator.State)
    (level : Levels) (addrs : List ℕ) (base size : ℕ)
    → map.pml4 ≡ pml4
    → 0 < base
    → 0 < entry.length
    → base % 4096 ≡ 0
    → entry.length % 4096 ≡ 0
    → entry.phys_base % 4096 ≡ 0
    → entry.phys_base + entry.length ≤ 2 ^ 52
    → IsCanonicalRange base entry.length
    → FitsTables early level addrs m
    → level pml4 ≡ 4
    → entry.length / 4096 * 3 ≤ length addrs
    → AddedRemoved page_for_table early (kernel_source early) pml4 entry base size map m
      ⊎ Panics early pml4 m.mem base
          (base + entry.length)
          (add page_for_table early map m base (some entry))
kernel_add-remove early pml4 entry map m level addrs base size is_map positive some_page aligned
      whole phys_aligned fits range tables root enough =
    let same : free_list m.source ≡ addrs = free_list_lem m.source addrs tables.serves in
    add-remove page_for_table early (kernel_source early) pml4 entry map m level base size is_map
      positive some_page aligned whole phys_aligned fits range
      (record {
        tree = tables.tree;
        spare = (
          subst (Serves m.source 4096) (sym same) tables.serves,
          subst (AreSpare early level) (sym same) tables.spare,
        );
      })
      root (omega (arith, enough, ap length same))
