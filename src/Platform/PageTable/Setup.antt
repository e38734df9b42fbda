-- ===== src/Platform/PageTable/Setup.antt =====
-- Making a page table: the constructor, `copyPml4Upper`, `mapPhysAperture` and `DecodePageFault` of
-- Sources/Vm/PageTable.cpp. `isFirstPageTable` is passed on with the machine.
pub mod Shared
use kush_os_rewrite.Base.{
  ℕ, zero, suc, ◌+◌, ◌-◌, ◌*◌, ◌/◌, Bool, true, false, not, bit_and, bit_or, not64, u64,
}
use kush_os_rewrite.Base.{
  ◌==◌, if◌then◌else◌, Option, none, some, Outcome, done, require, ◌>>=◌, ◌>>◌,
}
use kush_os_rewrite.Platform.PhysicalMap.{aperture_length}
use kush_os_rewrite.Platform.PageTable.{Memory, Machine, read_table, write_table, alloc_page}

-- The loop of `copyPml4Upper`, with n entries left.
unfoldable pub copy_from : Bool → ℕ → ℕ → ℕ → ℕ → Memory → Outcome Memory
copy_from early child parent zero j mem = done mem
copy_from early child parent (suc n) j mem = do
  pml4e ← read_table early mem parent j
  mem' ← write_table early mem child j pml4e
  copy_from early child parent n (j + 1) mem'

-- `copyPml4Upper`
unfoldable pub copy_pml4_upper : Bool → ℕ → ℕ → Memory → Outcome Memory
copy_pml4_upper early child parent mem = copy_from early child parent 256 0x100 mem

-- The entries of one PDPT of the aperture: present, writable, 1G, global.
unfoldable pub fill_pdpt : Bool → ℕ → ℕ → ℕ → ℕ → Memory → Outcome Memory
fill_pdpt early pdpt phys_base zero j mem = done mem
fill_pdpt early pdpt phys_base (suc n) j mem = do
  mem' ← write_table early mem pdpt j (bit_or (bit_or (phys_base + j * 0x40000000) 0x83) 0x100)
  fill_pdpt early pdpt phys_base n (j + 1) mem'

module _ {S : Type 0} (allocate_page : S → Outcome (S × ℕ × ℕ)) where
  -- The loop of `mapPhysAperture`, with n tables left.
  unfoldable pub aperture_from : Bool → ℕ → ℕ → ℕ → Machine S → Outcome (Machine S)
  aperture_from early pml4 zero i m = done m
  aperture_from early pml4 (suc n) i m = do
    got ← alloc_page allocate_page early m
    require (not (got.1 == 0))
    filled ← fill_pdpt early got.1 (i * 0x8000000000) 512 0 got.0.mem
    mem' ← write_table early filled pml4 (256 + i) (bit_or (bit_and got.1 (not64 0xfff)) 0x3)
    aperture_from early pml4 n (i + 1) (record got.0 { mem = mem' })

  -- `mapPhysAperture`
  unfoldable pub map_phys_aperture : Bool → ℕ → Machine S → Outcome (Machine S)
  map_phys_aperture early pml4 m = aperture_from early pml4 (aperture_length / 0x8000000000) 0 m

  -- The constructor: the machine, `isFirstPageTable`, and the new PML4.
  unfoldable pub create : Bool → Option ℕ → Bool → Machine S → Outcome (Machine S × Bool × ℕ)
  create early parent first m = do
    got ← alloc_page allocate_page early m
    copied ← elim parent [
      | none ↦ done got.0.mem
      | some p ↦ copy_pml4_upper early got.1 p got.0.mem
    ]
    if not first
        then (map_phys_aperture early got.1 (record got.0 { mem = copied }) >>= λ m'.
            done (m', true, got.1))
        else done (record got.0 { mem = copied }, first, got.1)

-- `DecodePageFault`, as the bits of `FaultAccessType`.
unfoldable pub decode_page_fault : ℕ → ℕ
decode_page_fault code =
    let bit = λ (k : ℕ). not (bit_and code k == 0) in
    let m0 = if bit 0x1 then 0x200 else 0x100 in
    let m1 = bit_or m0 (if bit 0x2 then 0x2 else 0x1) in
    let m2 = bit_or m1 (if bit 0x4 then 0x20 else 0x10) in
    let m3 = if bit 0x8 then bit_or m2 0x400 else m2 in if bit 0x10 then bit_or m3 0x800 else m3
