-- ===== src/Boot/Tests.antt =====
-- Start-up with concrete environments.
use kush_os_rewrite.Base.{
  ℕ, ◌+◌, ◌≤◌, Bool, true, false, List, [], ◌∷◌, take, ◌≡◌, refl, ap, sym, ◌⊎◌, arith, none, some,
  u16, ◌==◌, eq_of_==, ==_of_eq, ◌&&◌, ◌++◌, ◌∙◌,
}
use kush_os_rewrite.Platform.PageTable.{nearest_page_size}
use kush_os_rewrite.Platform.Tests.{
  next_page, pages, root_only, machine, machine-IsReady, machine_room,
}
use kush_os_rewrite.Vm.Map.{Map}
use kush_os_rewrite.Boot.Memory.{MemmapEntry, region_of}
use kush_os_rewrite.Boot.Memory.Regions.{IsIn, IsUsable, region_of_lem}
use kush_os_rewrite.Boot.Kernel.{SectionInfo, section_info, map_kernel_sections}
use kush_os_rewrite.Vm.Map.Ends.{Panics}
use kush_os_rewrite.Boot.Kernel.Sections.{AreMapped, total, map_kernel_sections-ends}
use kush_os_rewrite.Boot.CommandLine.{parse_cmd, dash, equals, comma, console_key, debugcon_type}
use kush_os_rewrite.Boot.CommandLine.Words.{parse_cmd_prefix}

-- Usable memory across the boundary of 16 MiB.
abbrev across : MemmapEntry
across = record { base = 0x100000; length = 0x7f00000; kind = 0 }

region_of_lem_example :
    ((r : ℕ × ℕ) × (region_of 0 across ≡ some r)
      × IsUsable 0 across
      × ((a : ℕ) → IsIn a r → IsIn a (0x100000, 0x7f00000) × (0x1000000 ≤ a))
      × ((a : ℕ) → IsIn a (0x100000, 0x7f00000) → 0x1000000 ≤ a → IsIn a r))
    ⊎ (region_of 0 across ≡ none) × ¬ IsUsable 0 across
region_of_lem_example = region_of_lem 0 across (omega arith)

abbrev blank : ℕ → ℕ
blank a = 0

abbrev map : Map
map = record { parent = none; pml4 = 4096; ref_count = 1 }

abbrev sections : List SectionInfo
sections = section_info 0x5123 0x2000 0x1800

map_kernel_sections-ends_example :
    AreMapped next_page true pages map 900 3 sections 0x200000 0xffffffff80000000 machine (
      map_kernel_sections next_page true map sections machine 0
        (some (0x200000, 0xffffffff80000000)))
    ⊎ Panics true 4096 machine.mem 0xffffffff80000000 (0xffffffff80000000 + total sections) (
        map_kernel_sections next_page true map sections machine 0
          (some (0x200000, 0xffffffff80000000)))
unfolding total nearest_page_size
map_kernel_sections-ends_example =
    map_kernel_sections-ends next_page true pages map sections machine root_only 0x200000
      0xffffffff80000000 900 (omega arith) (omega arith) (omega arith) (omega arith) refl refl
      (omega arith) machine-IsReady refl (omega (arith, machine_room))

-- A comparison of the first characters, and a number that is always 233.
abbrev same_text : List ℕ → List ℕ → Bool
same_text [] [] = true
same_text [] (d ∷ ds) = false
same_text (c ∷ cs) [] = false
same_text (c ∷ cs) (d ∷ ds) = (c == d) && same_text cs ds

abbrev matches : List ℕ → List ℕ → ℕ → Bool
matches s t n = same_text (take n s) (take n t)

abbrev strtol : List ℕ → ℕ
strtol text = 233

and-eq-true : (a b : Bool) → (a && b) ≡ true → (a ≡ true) × (b ≡ true)
and-eq-true true b h = (refl, h)
and-eq-true false b h = cc

same_text-eq : (s t : List ℕ) → same_text s t ≡ true → s ≡ t
same_text-eq [] [] h = refl
same_text-eq [] (d ∷ ds) h = cc
same_text-eq (c ∷ cs) [] h = cc
same_text-eq (c ∷ cs) (d ∷ ds) h =
    let parts = and-eq-true (c == d) (same_text cs ds) h in
    ap (λ (x : ℕ). x ∷ cs) (eq_of_== c d parts.0)
    ∙ ap (λ (xs : List ℕ). d ∷ xs) (same_text-eq cs ds parts.1)

same_text_refl : (s : List ℕ) → same_text s s ≡ true
same_text_refl [] = refl
same_text_refl (c ∷ cs) = rw (==_of_eq c c refl) (same_text_refl cs)

-- `-con=debug,233`
parse_cmd_prefix_example :
    parse_cmd matches strtol
      (dash ∷ take 3 console_key
        ++ equals ∷ (take 5 debugcon_type ++ comma ∷ 0x32 ∷ 0x33 ∷ 0x33 ∷ []))
      0
    ≡ u16 233
parse_cmd_prefix_example =
    parse_cmd_prefix matches strtol
      (λ s t n. (
        same_text-eq (take n s) (take n t),
        λ e. ap (λ (x : List ℕ). same_text (take n s) x) (sym e) ∙ same_text_refl (take n s),
      ))
      3 5 (0x32 ∷ 0x33 ∷ 0x33 ∷ []) 0 (omega arith) (omega arith) (ground arith)
