-- ===== src/Vm/Manager.antt =====
-- The dispatch of page faults: Core/Kernel/Sources/Vm/Manager.cpp. `AbortWithException` prints and
-- panics. The fault's address and the state's `pc` are arguments.
pub mod Dispatch
pub mod Tests
use kush_os_rewrite.Base.{ℕ, Bool, true, false, not, ◌&&◌, leb, if◌then◌else◌, ◌≡◌, refl}
use kush_os_rewrite.Base.{Option, none, some, Outcome, done, panic, require, ◌>>=◌, ◌>>◌}
use kush_os_rewrite.Platform.Layout.{kernel_boundary, v_alloc_start, v_alloc_end}
use kush_os_rewrite.Platform.PageTable.Setup.{decode_page_fault}
use kush_os_rewrite.Vm.Map
use kush_os_rewrite.Vm.Map.{Map, handled, try_next, fault_error}

-- `Init`: whether there is a manager afterwards.
abbrev pub init : Bool → Outcome Bool
init shared = require (not shared) >> done true

-- `PageAllocator::HandleFault`
abbrev pub page_allocator_handle_fault : ℕ → Outcome (Unit {0})
page_allocator_handle_fault address = panic

-- The end of `HandleFault`, for a fault that nothing has handled.
abbrev pub unhandled : ℕ → Outcome (Unit {0})
unhandled pc = if leb kernel_boundary pc then panic else done tt

-- `HandleFault`, from the look-up of the current map on.
unfoldable pub fault_in_map : Option Map → ℕ → ℕ → ℕ → Outcome (Unit {0})
fault_in_map none pc address access = unhandled pc
fault_in_map (some map) pc address access = Map.handle_fault map address access >>= λ r. elim r [
  | handled ↦ done tt
  | try_next ↦ unhandled pc
  | fault_error ↦ panic
]

-- `HandleFault`. A fault in the range of the page allocator aborts there.
unfoldable pub handle_fault : Option Map → ℕ → ℕ → ℕ → Outcome (Unit {0})
handle_fault current pc code address =
    if leb v_alloc_start address && leb address v_alloc_end
    then page_allocator_handle_fault address
    else fault_in_map current pc address (decode_page_fault code)
