-- ===== src/Boot/Remap/Bitmaps.antt =====
-- The layout of bitmaps one behind the other, and the address space with them in it.
use kush_os_rewrite.Base.{◌∙◌, inr}
use kush_os_rewrite.Base.{ℕ, ◌+◌, ◌*◌, ◌/◌, ◌%◌, ◌^◌, ◌≤◌, ◌<◌, arith, List, [], ◌∷◌, ◌++◌}
use kush_os_rewrite.Base.{◌≡◌, refl, ap, Option, none, some}
use kush_os_rewrite.Platform.PageTable.{page_size}
use kush_os_rewrite.Vm.Map.{Entry}
use kush_os_rewrite.Vm.Map.Pages.{AddressSpace, with_entry, with_entry-same, with_entry-outside}

-- The bitmaps stand one behind the other, a page between two of them.
unfoldable pub bases_from : List Entry → ℕ → List ℕ
bases_from [] start = []
bases_from (vm ∷ vms) start = start ∷ bases_from vms (start + vm.length + page_size)

unfoldable pub end_from : List Entry → ℕ → ℕ
end_from [] start = start
end_from (vm ∷ vms) start = end_from vms (start + vm.length + page_size)

-- An address space with the bitmaps in it.
unfoldable pub with_bitmaps : AddressSpace → List Entry → ℕ → AddressSpace
with_bitmaps space [] start = space
with_bitmaps space (vm ∷ vms) start =
    with_bitmaps (with_entry space vm start) vms (start + vm.length + page_size)

-- Three tables for each page of the bitmaps
unfoldable pub tables_for : List Entry → ℕ
tables_for [] = 0
tables_for (vm ∷ vms) = vm.length / 4096 * 3 + tables_for vms

-- The bitmaps are whole pages of memory.
unfoldable pub AreBitmaps : List Entry → Type 0
AreBitmaps [] = Unit
AreBitmaps (vm ∷ vms) =
    (0 < vm.length)
    × (vm.length % 4096 ≡ 0)
    × (vm.phys_base % 4096 ≡ 0)
    × (vm.phys_base + vm.length ≤ 2 ^ 52)
    × AreBitmaps vms

pub with_bitmaps-same :
    (vms : List Entry) (space space' : AddressSpace) (start a : ℕ)
    → space a ≡ space' a
    → with_bitmaps space vms start a ≡ with_bitmaps space' vms start a
unfolding with_bitmaps
with_bitmaps-same [] space space' start a e = e
with_bitmaps-same (vm ∷ vms) space space' start a e =
    with_bitmaps-same vms (with_entry space vm start) (with_entry space' vm start)
      (start + vm.length + page_size) a (with_entry-same space space' vm start a e)

pub le-end_from : (vms : List Entry) (start : ℕ) → start ≤ end_from vms start
unfolding end_from
le-end_from [] start = omega arith
le-end_from (vm ∷ vms) start =
    let rest = le-end_from vms (start + vm.length + page_size) in omega (arith, rest)

pub with_bitmaps-behind :
    (vms : List Entry) (space : AddressSpace) (start a : ℕ)
    → end_from vms start ≤ a
    → with_bitmaps space vms start a ≡ space a
unfolding with_bitmaps end_from
with_bitmaps-behind [] space start a h = refl
with_bitmaps-behind (vm ∷ vms) space start a h =
    let next : ℕ = start + vm.length + page_size in
    let below = le-end_from vms next in
    with_bitmaps-behind vms (with_entry space vm start) next a h
    ∙ with_entry-outside space vm start a (inr (omega (arith, below, h)))

-- The bitmaps of all pools, in order.
unfoldable pub entries_of : List (Option (List Entry)) → List Entry
entries_of [] = []
entries_of (none ∷ pools) = entries_of pools
entries_of (some vms ∷ pools) = vms ++ entries_of pools

pub bases_from-append :
    (vms more : List Entry) (start : ℕ)
    → bases_from (vms ++ more) start ≡ bases_from vms start ++ bases_from more (end_from vms start)
unfolding bases_from end_from
bases_from-append [] more start = refl
bases_from-append (vm ∷ vms) more start =
    ap (λ (bases : List ℕ). start ∷ bases)
      (bases_from-append vms more (start + vm.length + page_size))

pub end_from-append :
    (vms more : List Entry) (start : ℕ)
    → end_from (vms ++ more) start ≡ end_from more (end_from vms start)
unfolding end_from
end_from-append [] more start = refl
end_from-append (vm ∷ vms) more start = end_from-append vms more (start + vm.length + page_size)

pub with_bitmaps-append :
    (space : AddressSpace) (vms more : List Entry) (start : ℕ)
    → with_bitmaps space (vms ++ more) start
      ≡ with_bitmaps (with_bitmaps space vms start) more (end_from vms start)
unfolding with_bitmaps end_from
with_bitmaps-append space [] more start = refl
with_bitmaps-append space (vm ∷ vms) more start =
    with_bitmaps-append (with_entry space vm start) vms more (start + vm.length + page_size)

pub tables_for-append :
    (vms more : List Entry) → tables_for (vms ++ more) ≡ tables_for vms + tables_for more
unfolding tables_for
tables_for-append [] more = omega arith
tables_for-append (vm ∷ vms) more = let rest = tables_for-append vms more in omega (arith, rest)

pub AreBitmaps-append :
    (vms more : List Entry) → AreBitmaps (vms ++ more) → AreBitmaps vms × AreBitmaps more
unfolding AreBitmaps
AreBitmaps-append [] more h = (tt, h)
AreBitmaps-append (vm ∷ vms) more h =
    let (positive, whole, aligned, fits, others) = h in
    let rest = AreBitmaps-append vms more others in
    ((positive, whole, aligned, fits, rest.0), rest.1)

pub aligned-end_from :
    (vms : List Entry) (start : ℕ)
    → AreBitmaps vms
    → start % 4096 ≡ 0
    → end_from vms start % 4096 ≡ 0
unfolding AreBitmaps end_from
aligned-end_from [] start h aligned = aligned
aligned-end_from (vm ∷ vms) start h aligned =
    aligned-end_from vms (start + vm.length + page_size) h.4 (omega (arith, aligned, h.1))
