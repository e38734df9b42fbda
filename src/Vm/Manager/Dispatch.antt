-- ===== src/Vm/Manager/Dispatch.antt =====
-- Every way a page fault ends.
use kush_os_rewrite.Base.{
  ℕ, Bool, true, false, not, ◌&&◌, leb, if◌then◌else◌, Bool-cases, inl, inr, ◌≡◌, Option, none,
  some, done, panic,
}
use kush_os_rewrite.Platform.Layout.{kernel_boundary, v_alloc_start, v_alloc_end}
use kush_os_rewrite.Vm.Map
use kush_os_rewrite.Vm.Map.{Map}
use kush_os_rewrite.Vm.Manager.{handle_fault, fault_in_map}

abbrev is_none : Option Map → Bool
is_none none = true
is_none (some map) = false

-- `HandleFault` returns exactly for a fault by user code outside the range of the page allocator
-- while no map is active. For all other faults it panics: with an active map even for a fault by user
-- code on a page of that map, since `getEntryAt` always fails.
pub handle_fault_lem :
    (current : Option Map) (pc code address : ℕ)
    → handle_fault current pc code address ≡ (
        if not (leb v_alloc_start address && leb address v_alloc_end)
          && is_none current
          && not (leb kernel_boundary pc)
        then done tt
        else panic)
unfolding handle_fault fault_in_map Map.handle_fault
handle_fault_lem none pc code address =
    elim (Bool-cases (leb v_alloc_start address && leb address v_alloc_end)) [
      | inl e ↦ rw e
      | inr e ↦ elim (Bool-cases (leb kernel_boundary pc)) [ inl k ↦ rw (e, k) | inr k ↦ rw (e, k) ]
    ]
handle_fault_lem (some map) pc code address =
    elim (Bool-cases (leb v_alloc_start address && leb address v_alloc_end)) [
      | inl e ↦ rw e
      | inr e ↦ rw e
    ]
