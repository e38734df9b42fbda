-- ===== src/Vm/Tests.antt =====
-- The zone allocator's theorems on a small region.
use kush_os_rewrite.Base.{ℕ, false, arith, [], ◌∷◌, none, some, done, stuck, ◌≡◌, refl}
use kush_os_rewrite.Runtime.String.{Bytes, memset}
use kush_os_rewrite.Memory.Bitmap.{set_bits}
use kush_os_rewrite.Vm.Zone
use kush_os_rewrite.Vm.Zone.{Layout, Region, Zone, address_for}
use kush_os_rewrite.Vm.Zone.Slots.{slots}
use kush_os_rewrite.Vm.Zone.RoundTrip.{
  IsValid, AreBelow, TakesObject, alloc_in-TakesObject, alloc-free, free_loops,
}

abbrev blank : Bytes
blank a = 0

-- Fourteen objects of 64 bytes.
abbrev layout : Layout
layout = record { region_size = 1024; storage = 128; object_size = 64 }

-- Objects 1, 3 and 4 are free.
abbrev region : Region
region = record { addr = 0x10000; bitmap = 26 ∷ 0 ∷ 0 ∷ 0 ∷ 0 ∷ 0 ∷ []; magic = 0 }

region-IsValid : IsValid layout region
unfolding slots set_bits AreBelow
region-IsValid = record {
  six = refl;
  words =
      (omega arith, (omega arith, (omega arith, (omega arith, (omega arith, (omega arith, tt))))));
  below = (omega arith, (omega arith, (omega arith, tt)));
  sized = omega arith;
  whole = omega arith;
  fits = omega arith;
}

some_free : Zone.is_full region ≡ false
unfolding Zone.all_clear
some_free = refl

alloc_in-TakesObject_example : TakesObject layout blank region
alloc_in-TakesObject_example = alloc_in-TakesObject layout blank region region-IsValid some_free

alloc-free_example :
    (zone' : Zone) × (idx : ℕ) × (Zone.alloc layout none blank
        (record { regions = region ∷ []; free_region = none })
      ≡ done (
        memset blank (address_for layout region idx) 0 64,
        zone',
        some (address_for layout region idx),
      ))
    × (Zone.free 1 layout zone' (address_for layout region idx)
        ≡ done (record { regions = region ∷ []; free_region = none }))
alloc-free_example = alloc-free layout none blank region [] none 0 region-IsValid some_free

foreign : Zone.contains layout region 0x20000 ≡ false
unfolding Zone.contains
foreign = refl

free_loops_example :
    Zone.free 1000 layout (record { regions = region ∷ []; free_region = none }) 0x20000 ≡ stuck
free_loops_example = free_loops layout region [] none 0x20000 1000 foreign
