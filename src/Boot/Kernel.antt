-- ===== src/Boot/Kernel.antt =====
-- The kernel's own mappings: `MapKernelSections` and `MapKernelSection` of
-- Sources/Boot/Entry.cpp of the platform. What the loader and the linker give is arguments.
pub mod Sections
use kush_os_rewrite.Base.{
  ℕ, zero, suc, ◌+◌, ◌*◌, ◌/◌, ◌-◌, Bool, true, false, not, List, [], ◌∷◌, u64, bit_and, ◌==◌, ltb,
  Option, none, some, Outcome, done, require, ◌>>=◌, ◌>>◌,
}
use kush_os_rewrite.Platform.PageTable.{Machine, page_size, nearest_page_size}
use kush_os_rewrite.Vm.Map.{Map, Entry, Status, success, is_success, create_entry, add}
use kush_os_rewrite.Vm.Mode

abbrev pub max_sections : ℕ
max_sections = 4

-- `SectionInfo`
pub record SectionInfo : Type 0 where
  pub size : ℕ
  pub mode : ℕ

-- `kSectionInfo`, with the sizes from the linker.
abbrev pub section_info : ℕ → ℕ → ℕ → List SectionInfo
section_info text rodata data_size =
    record { size = text; mode = Mode.kernel_exec }
    ∷ record { size = rodata; mode = Mode.kernel_read }
    ∷ record { size = data_size; mode = Mode.kernel_rw }
    ∷ []

module _ {S : Type 0} (allocate_page : S → Outcome (S × ℕ × ℕ)) (early : Bool) where
  -- A new entry is made and added; an error is a failed `REQUIRE`.
  unfoldable pub map_region : Map → Machine S → ℕ → ℕ → ℕ → ℕ → Outcome (Machine S × Option Entry)
  map_region map m phys virt len mode = do
    entry ← create_entry phys len mode
    added ← add allocate_page early map m virt (some entry)
    require (is_success added.2)
    done (added.0, added.1)

  -- `MapKernelSection`: the machine, and the next free slot for an entry.
  unfoldable pub map_kernel_section : Map → Machine S → ℕ → ℕ → ℕ → ℕ → ℕ → Outcome (Machine S × ℕ)
  map_kernel_section map m next_free phys virt len mode = do
    require (ltb (next_free + 1) max_sections)
    mapped ← map_region map m phys virt len mode
    done (mapped.0, next_free + 1)

  -- The loop of `MapKernelSections`
  unfoldable pub map_sections_from :
      Map → List SectionInfo → Machine S → ℕ → ℕ → ℕ → Outcome (Machine S × ℕ)
  map_sections_from map [] m next_free phys virt = done (m, next_free)
  map_sections_from map (info ∷ infos) m next_free phys virt =
      map_kernel_section map m next_free phys virt (nearest_page_size info.size) info.mode >>= λ r.
      map_sections_from map infos r.0 r.1 (u64 (phys + nearest_page_size info.size))
        (u64 (virt + nearest_page_size info.size))

  -- `MapKernelSections`, with the loader's bases, if it gave any.
  unfoldable pub map_kernel_sections :
      Map → List SectionInfo → Machine S → ℕ → Option (ℕ × ℕ) → Outcome (Machine S × ℕ)
  map_kernel_sections map infos m next_free base =
      let bases : ℕ × ℕ = elim base [ some b ↦ b | none ↦ (0, 0xffffffff80000000) ] in
      require (not (bases.0 == 0))
      >> require (not (bases.1 == 0))
      >> map_sections_from map infos m next_free bases.0 bases.1
