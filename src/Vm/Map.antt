-- ===== src/Vm/Map.antt =====
-- Virtual memory maps and their entries: Core/Kernel/Sources/Vm/Map.cpp, MapEntry.cpp and
-- ContiguousPhysRegion.cpp of the same folder. The one class of entries is `ContiguousPhysRegion`.
-- Map objects stand in a store from their addresses to their fields; an entry's fields are passed in
-- and out. The page source of the tables is a parameter, as in Platform/PageTable.
pub mod Ends
pub mod Stopped
pub mod Pages
pub mod RoundTrip
pub mod Tests
pub mod Kernel
pub mod KernelTests
use kush_os_rewrite.Base.{
  ℕ, zero, suc, ◌+◌, ◌-◌, ◌*◌, ◌/◌, ◌%◌, Bool, true, false, not, bit_and, bit_or, u64, sub64, ◌==◌,
  leb, if◌then◌else◌,
}
use kush_os_rewrite.Base.{Option, none, some, Outcome, done, require, ◌>>=◌, ◌>>◌}
use kush_os_rewrite.Platform.PageTable
use kush_os_rewrite.Platform.PageTable.{
  Machine, Memory, page_size, mapped, UnmapRange, range_unmapped, map_page,
}
use kush_os_rewrite.Platform.PageTable.Setup
use kush_os_rewrite.Vm.RefCount.{retain, release}
use kush_os_rewrite.Vm.Types.{
  test_flags, mask_invalidate, invalidate_remote, invalidate_all, hint_unmapped,
}

-- `MapEntry` with the field of `ContiguousPhysRegion`.
pub record Entry : Type 0 where
  pub length : ℕ
  pub access_mode : ℕ
  pub phys_base : ℕ
  pub ref_count : ℕ

-- `ContiguousPhysRegion()`, with the check of `MapEntry()`
unfoldable pub create_entry : ℕ → ℕ → ℕ → Outcome Entry
create_entry phys_base len mode =
    require (len % page_size == 0)
    >> done (record { length = len; access_mode = mode; phys_base = phys_base; ref_count = 1 })

pub record Map : Type 0 where
  pub parent : Option ℕ
  pub pml4 : ℕ
  pub ref_count : ℕ

-- The map objects, `gKernelMap`, and the map of the processor's `KernelData`.
pub record Maps : Type 0 where
  pub objects : ℕ → Map
  pub kernel_map : Option ℕ
  pub current : Option ℕ

abbrev pub put_map : Maps → ℕ → Map → Maps
put_map maps addr map = record maps {
  objects = λ (a : ℕ). if a == addr then map else maps.objects a;
}

abbrev pub retain_map : Maps → ℕ → Maps
retain_map maps addr =
    put_map maps addr
      (record (maps.objects addr) { ref_count = retain (maps.objects addr).ref_count })

-- How `add` and `remove` end: 0 or -1.
pub data Status : Type 0 where
  success failure : Status

-- How `findEntry` and `getEntryAt` end: 1 with the base and the size, 0, or a negative error.
pub data Found (A : Type 0) : Type 0 where
  found : A → Found A
  not_found find_error : Found A

-- How `handleFault` ends: 1, 0 or a negative error.
pub data FaultResult : Type 0 where
  handled try_next fault_error : FaultResult

-- `Map::activate`: only the processor's map changes.
abbrev pub activate : Maps → ℕ → Maps
activate maps this = record maps { current = some this }

-- `findEntry` and `getEntryAt`
abbrev pub find_entry : Map → Entry → Found (ℕ × ℕ)
find_entry map entry = find_error

abbrev pub get_entry_at : Map → ℕ → Found (Entry × ℕ × ℕ)
get_entry_at map vaddr = find_error

-- `doTlbShootdown` and `Map::invalidateTlb`. The table's own `invalidateTlb` always returns 0.
abbrev pub do_tlb_shootdown : ℕ → ℕ → Status
do_tlb_shootdown addr len = success

unfoldable pub invalidate_tlb : ℕ → ℕ → ℕ → Status
invalidate_tlb addr len hints =
    if not (test_flags (bit_and hints mask_invalidate))
    then success
    else if test_flags (bit_and hints invalidate_remote)
    then do_tlb_shootdown addr len
    else success

-- `MapEntry::handleFault` returns 0.
abbrev pub entry_handle_fault : Entry → ℕ → ℕ → ℕ
entry_handle_fault entry offset access = 0

-- What `Map::handleFault` does with the entry that was found.
unfoldable pub fault_in : Entry → ℕ → ℕ → ℕ → ℕ → Outcome FaultResult
fault_in entry entry_base entry_size address access =
    require (leb (sub64 entry_base address) entry_size)
    >> done (
        if entry_handle_fault entry (sub64 entry_base address) access == 0
        then handled
        else try_next)

-- `Map::handleFault`
unfoldable pub handle_fault : Map → ℕ → ℕ → Outcome FaultResult
unfolding fault_in
handle_fault map address access = elim (get_entry_at map address) [
  | not_found ↦ done try_next
  | find_error ↦ done fault_error
  | found e ↦ fault_in e.0 e.1 e.2 address access
]

-- `REQUIRE(!err, …)` on an `unmap`
abbrev pub is_unmapped : UnmapRange → Bool
is_unmapped range_unmapped = true
is_unmapped _ = false

abbrev pub is_success : Status → Bool
is_success success = true
is_success failure = false

-- `willRemoveFrom`
unfoldable pub will_remove_from : Bool → ℕ → Memory → Entry → ℕ → ℕ → Outcome Memory
unfolding invalidate_tlb
will_remove_from early pml4 mem entry base size = do
  s ← PageTable.unmap early pml4 mem base entry.length
  require (is_unmapped s.1)
  require (is_success (invalidate_tlb base size (bit_or invalidate_all hint_unmapped)))
  done s.0

-- `remove`: the memory, the entry and the status. An entry that is deleted keeps its fields here.
unfoldable pub remove :
    Bool → Map → Memory → Option Entry → Outcome (Memory × Option Entry × Status)
unfolding will_remove_from
remove early map mem none = done (mem, none, failure)
remove early map mem (some entry) = elim (find_entry map entry) [
  | not_found ↦ done (mem, some entry, failure)
  | find_error ↦ done (mem, some entry, failure)
  | found at ↦ do
    mem' ← will_remove_from early map.pml4 mem entry at.0 at.1
    done (mem', some (record entry { ref_count = (release entry.ref_count).0 }), failure)
]

module _ {S : Type 0} (allocate_page : S → Outcome (S × ℕ × ℕ)) where
  -- `Map()`: the machine, the maps, and `isFirstPageTable`, for the object at address `this`. The
  -- parent is the one given, or else the kernel's map, and is retained.
  unfoldable pub create :
      Bool → Machine S → Maps → Bool → ℕ → Option ℕ → Outcome (Machine S × Maps × Bool)
  create early m maps first this parent =
      let chosen : Option ℕ = elim parent [ some p ↦ some p | none ↦ maps.kernel_map ] in
      let maps' : Maps = elim chosen [ some p ↦ retain_map maps p | none ↦ maps ] in
      let table : Option ℕ = elim chosen [ some p ↦ some (maps'.objects p).pml4 | none ↦ none ] in
      Setup.create allocate_page early table first m >>= λ got.
      done
        (got.0, put_map maps' this (record { parent = chosen; pml4 = got.2; ref_count = 1 }), got.1)

  -- One page of `addedTo`: `mapPage`, whose error is a failed `REQUIRE`.
  unfoldable pub map_or_panic : Bool → ℕ → Machine S → ℕ → ℕ → ℕ → Outcome (Machine S)
  map_or_panic early pml4 m phys virt mode =
      map_page allocate_page early pml4 m phys virt mode >>= λ s.
      require (elim s.1 [ mapped ↦ true | _ ↦ false ]) >> done s.0

  -- The loop of `addedTo` from offset `off` on, with n pages left.
  unfoldable pub added_from : Bool → ℕ → Entry → ℕ → ℕ → ℕ → Machine S → Outcome (Machine S)
  added_from early pml4 entry base zero off m = done m
  added_from early pml4 entry base (suc n) off m = do
    m' ←
        map_or_panic early pml4 m (u64 (entry.phys_base + off)) (u64 (base + off)) entry.access_mode
    added_from early pml4 entry base n (off + page_size) m'

  -- `addedTo`: a page for each offset below the length.
  unfoldable pub added_to : Bool → ℕ → Entry → ℕ → Machine S → Outcome (Machine S)
  unfolding added_from
  added_to early pml4 entry base m =
      added_from early pml4 entry base ((entry.length + (page_size - 1)) / page_size) 0 m

  -- `add`: the machine, the entry and the status.
  unfoldable pub add :
      Bool → Map → Machine S → ℕ → Option Entry → Outcome (Machine S × Option Entry × Status)
  add early map m base none = done (m, none, failure)
  add early map m base (some entry) =
      let kept : Entry = record entry { ref_count = retain entry.ref_count } in
      if base == 0
      then done (m, some entry, failure)
      else (added_to early map.pml4 kept base m >>= λ m'. done (m', some kept, success))
