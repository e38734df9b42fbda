-- ===== src/Boot/Memory.antt =====
-- The memory map of the loader: `InitPhysAllocator` of Sources/Boot/Entry.cpp of the platform. The
-- loader's entries are a list, and `usable` is the loader's kind for usable memory,
-- `LIMINE_MEMMAP_USABLE`, which is declared outside the repository.
pub mod Regions
use kush_os_rewrite.Base.{
  ℕ, zero, suc, ◌+◌, ◌-◌, Bool, true, false, not, ◌||◌, List, [], ◌∷◌, length, u64, ◌==◌, ltb,
  if◌then◌else◌,
}
use kush_os_rewrite.Base.{Option, none, some, Outcome, done, require, ◌>>=◌, ◌>>◌}
use kush_os_rewrite.Memory.PhysicalAllocator
use kush_os_rewrite.Memory.PhysicalAllocator.{State}

-- `limine_memmap_entry`
pub record MemmapEntry : Type 0 where
  pub base : ℕ
  pub length : ℕ
  pub kind : ℕ

-- `kMinPhysicalRegionSize` and `kPhysAllocationBound`
abbrev pub min_physical_region_size : ℕ
min_physical_region_size = 0x10000

abbrev pub phys_allocation_bound : ℕ
phys_allocation_bound = 0x1000000

-- The base and the length of the region that the loop adds for an entry, if it adds one.
unfoldable pub region_of : ℕ → MemmapEntry → Option (ℕ × ℕ)
region_of usable e =
    if not (e.kind == usable)
      || ltb e.length min_physical_region_size
      || ltb (u64 (e.base + e.length)) phys_allocation_bound
    then none
    else if ltb e.base phys_allocation_bound
    then some (phys_allocation_bound, e.length - (phys_allocation_bound - e.base))
    else some (e.base, e.length)

-- The loop; `early` and `memory` are those of `AddRegion`.
unfoldable pub add_regions : ℕ → Bool → (ℕ → ℕ) → List MemmapEntry → State → Outcome State
add_regions usable early memory [] s = done s
add_regions usable early memory (e ∷ entries) s = elim (region_of usable e) [
  | none ↦ add_regions usable early memory entries s
  | some r ↦ PhysicalAllocator.add_region early memory s r.0 r.1 0 >>= λ s'.
      add_regions usable early memory entries s'
]

-- `InitPhysAllocator`
unfoldable pub init_phys_allocator : ℕ → Bool → (ℕ → ℕ) → List MemmapEntry → State → Outcome State
init_phys_allocator usable early memory entries s = do
  s' ← PhysicalAllocator.init s 0x1000 (0x200000 ∷ [])
  require (not (length entries == 0))
  add_regions usable early memory entries s'
