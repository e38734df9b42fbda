-- ===== src/Boot/Remap.antt =====
-- The bitmaps of the physical allocator in the kernel's address space: `Region::applyVirtualMap`,
-- `Pool::applyVirtualMap` and `PhysicalAllocator::RemapTo` of Core/Kernel/Sources/Memory, and
-- `PopulateKernelVm` of the platform's Sources/Boot/Entry.cpp, which calls them. A region stands here
-- for its `bitmapVm`, whose length is the region's `bitmapReserved`; the pointers to the bitmaps are
-- what the functions return, in the order of the regions.
pub mod Bitmaps
pub mod Placed
pub mod Pools
pub mod Tests
use kush_os_rewrite.Base.{
  ℕ, ◌+◌, ◌*◌, Bool, true, false, not, List, [], ◌∷◌, ◌++◌, u64, ◌%◌, ◌^◌, ◌==◌, ltb, if◌then◌else◌,
  Option, none, some, Outcome, done, require, ◌>>=◌, ◌>>◌,
}
use kush_os_rewrite.Platform.Layout.{phys_allocator_metadata_start, phys_allocator_metadata_end}
use kush_os_rewrite.Platform.PageTable.{Machine, page_size, nearest_page_size}
use kush_os_rewrite.Memory.Region.{Region}
use kush_os_rewrite.Vm.Map.{Map, Entry, is_success, create_entry, add}
use kush_os_rewrite.Vm.Mode
use kush_os_rewrite.Boot.Kernel.{SectionInfo, map_region, map_kernel_sections}

-- `bitmapVm`, as the constructor of a region makes it
unfoldable pub bitmap_vm : Region → Outcome Entry
bitmap_vm r = create_entry r.bitmap_phys r.bitmap_reserved Mode.kernel_rw

-- What the loader says of a framebuffer.
pub record FbInfo : Type 0 where
  pub address : ℕ
  pub height : ℕ
  pub pitch : ℕ

abbrev pub framebuffer_base : ℕ
framebuffer_base = 0xffffe80000000000

-- `MapEntry::isOrphaned`
abbrev pub is_orphaned : Entry → Bool
is_orphaned vm = true

module _ {S : Type 0} (allocate_page : S → Outcome (S × ℕ × ℕ)) (early : Bool) where
  -- `Region::applyVirtualMap`: the machine, the bitmap's new address, and the bytes used.
  unfoldable pub apply_region : Map → Entry → Machine S → ℕ → Outcome (Machine S × ℕ × ℕ)
  apply_region map vm m base = do
    require (is_orphaned vm)
    added ← add allocate_page early map m base (some vm)
    require (is_success added.2)
    done (added.0, base, vm.length)

  -- `Pool::applyVirtualMap`, from a region on: the machine, the addresses, and `gBitmapStart`.
  unfoldable pub apply_pool : Map → List Entry → Machine S → ℕ → Outcome (Machine S × List ℕ × ℕ)
  apply_pool map [] m start = done (m, [], start)
  apply_pool map (vm ∷ vms) m start = apply_region map vm m start >>= λ r.
      require (not (r.2 == 0))
      >> require (ltb (u64 (start + u64 (r.2 + page_size))) phys_allocator_metadata_end)
      >> (apply_pool map vms r.0 (u64 (start + u64 (r.2 + page_size))) >>= λ q.
          done (q.0, r.1 ∷ q.1, q.2))

  -- The loop of `RemapTo` over the pools; a missing pool is skipped.
  unfoldable pub remap_from :
      Map → List (Option (List Entry)) → Machine S → ℕ → Outcome (Machine S × List ℕ × ℕ)
  remap_from map [] m start = done (m, [], start)
  remap_from map (none ∷ pools) m start = remap_from map pools m start
  remap_from map (some vms ∷ pools) m start = apply_pool map vms m start >>= λ r.
      remap_from map pools r.0 r.2 >>= λ q. done (q.0, r.1 ++ q.1, q.2)

  -- `RemapTo`, the one call of it
  unfoldable pub remap_to :
      Map → List (Option (List Entry)) → Machine S → Outcome (Machine S × List ℕ × ℕ)
  remap_to map pools m = remap_from map pools m phys_allocator_metadata_start

  -- The mapping of the first framebuffer
  unfoldable pub map_framebuffer : Map → Machine S → FbInfo → Outcome (Machine S × Option Entry)
  map_framebuffer map m fb =
      map_region allocate_page early map m (fb.address % 2 ^ 32) framebuffer_base
        (nearest_page_size (u64 (fb.height * fb.pitch))) Mode.kernel_rw

  -- `PopulateKernelVm`: the machine, and the bitmaps' addresses where they are mapped. `fbs` lists the
  -- framebuffers, a null pointer as `none`; without one, the function returns early.
  unfoldable pub populate_kernel_vm :
      Map
      → List SectionInfo
      → Option (ℕ × ℕ)
      → List (Option FbInfo)
      → List (Option (List Entry))
      → Machine S
      → Outcome (Machine S × Option (List ℕ))
  populate_kernel_vm map infos base [] pools m = do
    r ← map_kernel_sections allocate_page early map infos m 0 base
    done (r.0, none)
  populate_kernel_vm map infos base (none ∷ fbs) pools m = do
    r ← map_kernel_sections allocate_page early map infos m 0 base
    require false
    done (r.0, none)
  populate_kernel_vm map infos base (some fb ∷ fbs) pools m = do
    r ← map_kernel_sections allocate_page early map infos m 0 base
    f ← map_framebuffer map r.0 fb
    q ← remap_to map pools f.0
    done (q.0, some q.1)
