-- ===== src/Vm/Map/Tests.antt =====
-- A region of two pages added to an empty map.
use kush_os_rewrite.Base.{◌⊎◌, inl, true, none, some, refl, arith}
use kush_os_rewrite.Platform.Tests.{
  next_page, pages, root_only, machine, machine-IsReady, machine_room,
}
use kush_os_rewrite.Vm.Map.{Entry, Map, add}
use kush_os_rewrite.Vm.Map.Pages.{AddedEntry, add-AddedEntry}
use kush_os_rewrite.Vm.Map.Ends.{Panics}

abbrev two_pages : Entry
two_pages = record { length = 0x2000; access_mode = 0x3; phys_base = 0x80000; ref_count = 1 }

abbrev map : Map
map = record { parent = none; pml4 = 4096; ref_count = 1 }

add-AddedEntry_example :
    AddedEntry next_page true pages 4096 two_pages 0x400000 map machine
    ⊎ Panics true 4096 machine.mem 0x400000 0x402000
        (add next_page true map machine 0x400000 (some two_pages))
add-AddedEntry_example =
    add-AddedEntry next_page true pages 4096 two_pages map machine root_only 0x400000 refl
      (omega arith) refl refl refl (omega arith) (inl (omega arith)) machine-IsReady refl
      (omega (arith, machine_room))
