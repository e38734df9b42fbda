-- ===== src/Platform/PageTable.antt =====
-- Four-level page tables: Sources/Vm/PageTable.cpp and Sources/Vm/PageTable.h of the platform.
-- Physical memory is a function from the address of a 64-bit entry to its value. The page source is
-- a parameter: its state and its `AllocatePage`, which gives the new state, the status and the page.
-- `early` is `PhysicalMap::IsEarlyBoot()`, and `kNoExecuteEnabled` is false as in the source.
pub mod Entries
pub mod Tree
pub mod Level
pub mod Ensure
pub mod Leaf
pub mod Walk
pub mod Look
pub mod Frame
pub mod Way
pub mod Ranges
pub mod Map
pub mod Unmap
pub mod Setup
pub mod Sizes
pub mod Tests
use kush_os_rewrite.Base.{
  ℕ, zero, suc, ◌+◌, ◌-◌, ◌*◌, ◌/◌, ◌%◌, ◌^◌, Bool, true, false, not, ◌&&◌, ◌||◌,
}
use kush_os_rewrite.Base.{
  bit_and, bit_or, u64, not64, ◌==◌, ltb, leb, if◌then◌else◌, Option, none, some,
}
use kush_os_rewrite.Base.{Outcome, done, require, ◌>>=◌, ◌>>◌}
use kush_os_rewrite.Platform.Layout.{kernel_boundary, phys_aperture_start}
use kush_os_rewrite.Platform.PhysicalMap
use kush_os_rewrite.Platform.PhysicalMap.{aperture_length}
use kush_os_rewrite.Vm.Types.{test_flags}
use kush_os_rewrite.Vm.Mode

abbrev pub page_size : ℕ
page_size = 4096

-- `NearestPageSize`
unfoldable pub nearest_page_size : ℕ → ℕ
nearest_page_size n = if not (n % page_size == 0) then u64 (n + (page_size - n % page_size)) else n

-- `PageFlags`: Writable, UserAccess, Present, and the mask of Present, Writable, UserAccess, PWT,
-- PCD, Accessed, Dirty, PAT, Global and NoExecute.
abbrev pub writable_flag : ℕ
writable_flag = 0x2

abbrev pub user_access_flag : ℕ
user_access_flag = 0x4

abbrev pub present_flag : ℕ
present_flag = 0x1

abbrev pub flags_mask : ℕ
flags_mask = 2 ^ 63 + 0x1ff

-- `entry & (1 << 0)` and `entry & (1 << 7)`
abbrev pub present : ℕ → Bool
present entry = not (bit_and entry 0x1 == 0)

abbrev pub large : ℕ → Bool
large entry = not (bit_and entry 0x80 == 0)

-- `(entry & ~0xFFF) & ~FlagsMask`
unfoldable pub table_addr : ℕ → ℕ
table_addr entry = bit_and (bit_and entry (not64 0xfff)) (not64 flags_mask)

-- `virt & 0xFFFFFFFFFFFF`, and `(virt >> shift) & 0x1FF`
unfoldable pub index : ℕ → ℕ → ℕ
index shift virt = bit_and (bit_and virt 0xffffffffffff / 2 ^ shift) 0x1ff

-- The address is not canonical.
abbrev pub not_canonical : ℕ → Bool
not_canonical virt = ltb 0x00007fffffffffff virt && ltb virt 0xffff800000000000

-- `GetTableVmAddr`
unfoldable pub get_table_vm_addr : Bool → ℕ → Outcome ℕ
unfolding PhysicalMap.add
get_table_vm_addr early phys =
    if not early
    then (require (ltb phys (aperture_length - page_size)) >> done (phys_aperture_start + phys))
    else PhysicalMap.add early phys page_size

abbrev pub Memory : Type 0
Memory = ℕ → ℕ

-- The address of an entry.
abbrev pub slot : ℕ → ℕ → ℕ
slot base offset = base + offset * 8

abbrev pub write_slot : Memory → ℕ → ℕ → Memory
write_slot mem addr val a = if a == addr then val else mem a

-- `memset(ptr, 0, PageSize())`
abbrev pub zero_page : Memory → ℕ → Memory
zero_page mem page a = if leb page a && ltb a (page + page_size) then 0 else mem a

-- `ReadTable` and `WriteTable`
unfoldable pub read_table : Bool → Memory → ℕ → ℕ → Outcome ℕ
read_table early mem base offset = do
  require (leb offset 511)
  addr ← get_table_vm_addr early base
  done (mem (slot base offset))

unfoldable pub write_table : Bool → Memory → ℕ → ℕ → ℕ → Outcome Memory
write_table early mem base offset val = do
  require (leb offset 511)
  addr ← get_table_vm_addr early base
  done (write_slot mem (slot base offset) val)

-- How `mapPage` ends: 0, -1000, -1001, -1002, -1003.
pub data MapStatus : Type 0 where
  mapped canonical_error no_page large_1g large_2m : MapStatus

-- How `getPhysAddr` ends: 1, 0, -1.
pub data LookupStatus : Type 0 where
  found not_found invalid : LookupStatus

-- The status of `getPhysAddr`, and what it has stored to `outPhys` and `outMode`, if anything.
pub record Lookup : Type 0 where
  pub status : LookupStatus
  pub out : Option (ℕ × ℕ)

-- How the inner `unmapPage` ends: 1, 0, -1, -1000.
pub data UnmapStatus : Type 0 where
  unmapped nothing large_kept bad_address : UnmapStatus

-- `DecodePTE`, the access mode
unfoldable pub decode_mode : ℕ → ℕ
decode_mode pte =
    let exec =
      λ (mode : ℕ). λ (bit : ℕ). if bit_and pte (2 ^ 63) == 0 then bit_or mode bit else mode in
    if not (bit_and pte 0x4 == 0)
    then exec (if not (bit_and pte 0x2 == 0) then Mode.user_rw else Mode.user_read) Mode.user_exec
    else exec (if not (bit_and pte 0x2 == 0) then Mode.kernel_rw else Mode.kernel_read)
        Mode.kernel_exec

-- `DecodePTE`, the physical address
unfoldable pub decode_phys : ℕ → ℕ
decode_phys pte = bit_and pte 0xffffffffff000

-- The flags that `mapPage` gives an entry for a new table, and the entry for a page.
unfoldable pub table_entry : ℕ → ℕ → ℕ
table_entry page virt =
    let entry = bit_or page 0x3 in if ltb virt kernel_boundary then bit_or entry 0x4 else entry

unfoldable pub page_entry : ℕ → ℕ → ℕ
page_entry phys mode =
    let e0 = bit_or (table_addr phys) present_flag in
    let e1 = if test_flags (bit_and mode Mode.write) then bit_or e0 writable_flag else e0 in
    if test_flags (bit_and mode Mode.user_mask) then bit_or e1 user_access_flag else e1

unfoldable pub walk_table : {A : Type 0} → Bool → Memory → ℕ → ℕ → A → (ℕ → Outcome A) → Outcome A
walk_table early mem base offset absent next = do
  entry ← read_table early mem base offset
  if present entry then next entry else done absent

-- `getPhysAddr`. A large page sets the outputs, but the status is 0.
unfoldable pub get_phys_addr : Bool → ℕ → Memory → ℕ → Outcome Lookup
get_phys_addr early pml4 mem virt =
    let absent : Lookup = record { status = not_found; out = none } in
    if not_canonical virt
    then done (record { status = invalid; out = none })
    else walk_table early mem pml4 (index 39 virt) absent λ pml4e.
      walk_table early mem (table_addr pml4e) (index 30 virt) absent λ pdpte.
        if large pdpte
        then done (record {
          status = not_found;
          out = some (
            u64 (bit_and (decode_phys pdpte) (not64 0x3fffffff) + bit_and virt 0x3fffffff),
            decode_mode pdpte,
          );
        })
        else walk_table early mem (table_addr pdpte) (index 21 virt) absent λ pdte.
          if large pdte
          then done (record {
            status = not_found;
            out = some (
              u64 (bit_and (decode_phys pdte) (not64 0x1fffff) + bit_and virt 0x1fffff),
              decode_mode pdte,
            );
          })
          else walk_table early mem (table_addr pdte) (index 12 virt) absent λ pte. done (record {
            status = found;
            out = some (u64 (decode_phys pte + bit_and virt 0xfff), decode_mode pte);
          })

-- `unmapPage(virt, unmapLargePages)`
unfoldable pub unmap_page : Bool → ℕ → Memory → ℕ → Bool → Outcome (Memory × UnmapStatus)
unmap_page early pml4 mem virt unmap_large =
    let absent : Memory × UnmapStatus = (mem, nothing) in
    let drop_large : ℕ → ℕ → Outcome (Memory × UnmapStatus) = λ table offset.
      if not unmap_large
      then done (mem, large_kept)
      else (write_table early mem table offset 0 >>= λ mem'. done (mem', unmapped)) in
    if not_canonical virt
    then done (mem, bad_address)
    else walk_table early mem pml4 (index 39 virt) absent λ pml4e.
      walk_table early mem (table_addr pml4e) (index 30 virt) absent λ pdpte.
        if large pdpte
        then drop_large (table_addr pml4e) (index 30 virt)
        else walk_table early mem (table_addr pdpte) (index 21 virt) absent λ pdte.
          if large pdte
          then drop_large (table_addr pdpte) (index 21 virt)
          else (write_table early mem (table_addr pdte) (index 12 virt) 0 >>= λ mem'.
              done (mem', unmapped))

-- The loop of `unmap` over the pages that are left; `none` is a return of 0.
unfoldable pub unmap_from : Bool → ℕ → ℕ → Memory → ℕ → Outcome (Memory × Option UnmapStatus)
unfolding unmap_page
unmap_from early pml4 zero mem virt = done (mem, none)
unmap_from early pml4 (suc pages) mem virt = unmap_page early pml4 mem virt true >>= λ s. elim s.1 [
  | large_kept ↦ done (s.0, some large_kept)
  | bad_address ↦ done (s.0, some bad_address)
  | _ ↦ unmap_from early pml4 pages s.0 (u64 (virt + page_size))
]

-- How `unmap` ends: 0, -1 for bad arguments, or the error of a page.
pub data UnmapRange : Type 0 where
  range_unmapped bad_range : UnmapRange
  page_error : UnmapStatus → UnmapRange

-- `unmap`
unfoldable pub unmap : Bool → ℕ → Memory → ℕ → ℕ → Outcome (Memory × UnmapRange)
unfolding unmap_from
unmap early pml4 mem virt len =
    if virt == 0 || not (virt % page_size == 0) || len == 0 || not (len % page_size == 0)
    then done (mem, bad_range)
    else (unmap_from early pml4 (len / page_size) mem virt >>= λ s. elim s.1 [
      | none ↦ done (s.0, range_unmapped)
      | some e ↦ done (s.0, page_error e)
    ])

-- The machine as the table code sees it: physical memory and the page source.
pub record Machine (S : Type 0) : Type 0 where
  pub mem : Memory
  pub source : S

module _ {S : Type 0} (allocate_page : S → Outcome (S × ℕ × ℕ)) where
  -- `AllocPage`
  unfoldable pub alloc_page : Bool → Machine S → Outcome (Machine S × ℕ)
  alloc_page early m = do
    got ← allocate_page m.source
    require (got.1 == 1)
    addr ← get_table_vm_addr early got.2
    done (record { mem = zero_page m.mem got.2; source = got.0 }, got.2)

  -- One level of `mapPage`: the entry is read; if it is not present a table is made for it; if it
  -- maps a large page, where that can be, `mapPage` ends. `next` gets the entry.
  unfoldable pub ensure_table :
      Bool
      → Option MapStatus
      → ℕ
      → Machine S
      → ℕ
      → ℕ
      → (Machine S → ℕ → Outcome (Machine S × MapStatus))
      → Outcome (Machine S × MapStatus)
  unfolding alloc_page
  ensure_table early on_large virt m table offset next = do
    entry ← read_table early m.mem table offset
    if not (present entry)
        then (alloc_page early m >>= λ got.
            if got.1 == 0
            then done (got.0, no_page)
            else (write_table early got.0.mem table offset (table_entry got.1 virt) >>= λ mem'.
                next (record got.0 { mem = mem' }) (table_entry got.1 virt)))
        else elim on_large [
          | none ↦ next m entry
          | some status ↦ if large entry then done (m, status) else next m entry
        ]

  -- `mapPage`
  unfoldable pub map_page : Bool → ℕ → Machine S → ℕ → ℕ → ℕ → Outcome (Machine S × MapStatus)
  map_page early pml4 m phys virt mode =
      if not_canonical virt
      then done (m, canonical_error)
      else ensure_table early none virt m pml4 (index 39 virt) λ m1 pml4e.
        ensure_table early (some large_1g) virt m1 (table_addr pml4e) (index 30 virt) λ m2 pdpte.
          ensure_table early (some large_2m) virt m2 (table_addr pdpte) (index 21 virt) λ m3 pdte.
            (write_table early m3.mem (table_addr pdte) (index 12 virt) (page_entry phys mode)
              >>= λ mem'. done (record m3 { mem = mem' }, mapped))
