-- ===== src/Vm/Manager/Tests.antt =====
-- A fault of user code with a map.
use kush_os_rewrite.Base.{none, some, panic, ◌≡◌}
use kush_os_rewrite.Vm.Map.{Map}
use kush_os_rewrite.Vm.Manager.{handle_fault}
use kush_os_rewrite.Vm.Manager.Dispatch.{handle_fault_lem}

abbrev map : Map
map = record { parent = none; pml4 = 4096; ref_count = 1 }

handle_fault_lem_example : handle_fault (some map) 0x400000 0x6 0x5000 ≡ panic
handle_fault_lem_example = handle_fault_lem (some map) 0x400000 0x6 0x5000
