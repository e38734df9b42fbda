-- ===== src/Boot/Remap/Tests.antt =====
-- Two pools with a region each, and a missing one between them.
use kush_os_rewrite.Base.{ℕ, true, ◌≡◌, done, List, [], ◌∷◌, ◌⊎◌, arith, Option, none, some, refl}
use kush_os_rewrite.Platform.Layout.{phys_allocator_metadata_start}
use kush_os_rewrite.Platform.Tests.{
  next_page, pages, root_only, machine, machine-IsReady, machine_room,
}
use kush_os_rewrite.Memory.Region.{fresh}
use kush_os_rewrite.Vm.Map.{Entry, Map, create_entry}
use kush_os_rewrite.Vm.Mode
use kush_os_rewrite.Vm.Map.Ends.{Panics}
use kush_os_rewrite.Boot.Remap.{remap_to, bitmap_vm}
use kush_os_rewrite.Boot.Remap.Bitmaps.{AreBitmaps, entries_of, end_from, tables_for}
use kush_os_rewrite.Boot.Remap.Placed.{Remapped}
use kush_os_rewrite.Boot.Remap.Pools.{remap_to-Remapped}

abbrev map : Map
map = record { parent = none; pml4 = 4096; ref_count = 1 }

abbrev bitmap : ℕ → ℕ → Entry
bitmap phys len = record {
  length = len;
  access_mode = Mode.kernel_rw;
  phys_base = phys;
  ref_count = 1;
}

-- The bitmap of a region of 70000 pages
bitmap_vm-fresh : bitmap_vm (fresh 4096 (λ i. 0) 0x1000000 70000 0) ≡ done (bitmap 0x1000000 0x3000)
unfolding bitmap_vm create_entry
bitmap_vm-fresh = refl

abbrev pools : List (Option (List Entry))
pools = some (bitmap 0x1000000 0x3000 ∷ []) ∷ none ∷ some (bitmap 0x8000000 0x1000 ∷ []) ∷ none ∷ []

bitmaps-AreBitmaps : AreBitmaps (entries_of pools)
unfolding AreBitmaps entries_of
bitmaps-AreBitmaps =
    (omega arith, refl, refl, omega arith, (omega arith, refl, refl, omega arith, tt))

remap_to-Remapped_example :
    Remapped next_page true pages map 900
      (entries_of pools)
      phys_allocator_metadata_start
      machine
      (remap_to next_page true map pools machine)
    ⊎ Panics true 4096 machine.mem phys_allocator_metadata_start
        (end_from (entries_of pools) phys_allocator_metadata_start)
        (remap_to next_page true map pools machine)
unfolding entries_of end_from tables_for
remap_to-Remapped_example =
    remap_to-Remapped next_page true pages map pools machine root_only 900 bitmaps-AreBitmaps
      (omega arith) machine-IsReady refl (omega (arith, machine_room))
