-- ===== src/Boot/Kernel/Sections.antt =====
-- The kernel's sections are mapped, one behind the other.
use kush_os_rewrite.Base.{
  ℕ, ◌+◌, ◌*◌, ◌/◌, ◌%◌, ◌^◌, ◌≤◌, ◌<◌, Bool, arith, List, [], ◌∷◌, length, u64, lt→ltb, ==_of_ne,
  ==_of_eq,
}
use kush_os_rewrite.Base.{
  ◌≡◌, refl, ap, ◌∙◌, ◌⊎◌, inl, inr, some, Outcome, done, panic, require, ◌>>=◌, ◌>>◌,
}
use mathlib.Core.Path.{subst}
use kush_os_rewrite.Platform.PageTable.{Machine, nearest_page_size, get_phys_addr}
use kush_os_rewrite.Platform.PageTable.Ranges.{IsCanonicalRange}
use kush_os_rewrite.Platform.PageTable.Tree.{Levels, PageSource}
use kush_os_rewrite.Platform.PageTable.Ensure.{IsReady}
use kush_os_rewrite.Platform.PageTable.Sizes.{nearest_page_size-whole}
use kush_os_rewrite.Vm.Map.{Map, Entry, create_entry, add, is_success}
use kush_os_rewrite.Vm.Map.Ends.{Panics, Added, add-ends}
use kush_os_rewrite.Vm.Map.Pages
use kush_os_rewrite.Vm.Map.Pages.{AddressSpace, with_entry, with_entry-same, with_entry-outside}
use kush_os_rewrite.Vm.Map.Stopped.{Panics-in, Panics-before}
use kush_os_rewrite.Boot.Kernel.{
  SectionInfo, map_region, map_kernel_section, map_sections_from, map_kernel_sections,
}

-- The bytes of the sections, each rounded up to whole pages.
unfoldable pub total : List SectionInfo → ℕ
total [] = 0
total (info ∷ infos) = nearest_page_size info.size + total infos

-- The entry that is made for a section, or for another region.
abbrev pub new_entry : ℕ → ℕ → ℕ → Entry
new_entry phys len mode = record {
  length = len;
  access_mode = mode;
  phys_base = phys;
  ref_count = 1;
}

-- An address space with the sections in it, one behind the other.
unfoldable pub with_sections : AddressSpace → List SectionInfo → ℕ → ℕ → AddressSpace
with_sections space [] phys virt = space
with_sections space (info ∷ infos) phys virt =
    with_sections (with_entry space (new_entry phys (nearest_page_size info.size) info.mode) virt)
      infos (phys + nearest_page_size info.size) (virt + nearest_page_size info.size)

with_sections-same :
    (infos : List SectionInfo) (space space' : AddressSpace) (phys virt a : ℕ)
    → space a ≡ space' a
    → with_sections space infos phys virt a ≡ with_sections space' infos phys virt a
unfolding with_sections
with_sections-same [] space space' phys virt a e = e
with_sections-same (info ∷ infos) space space' phys virt a e =
    let len : ℕ = nearest_page_size info.size in
    let entry : Entry = new_entry phys len info.mode in
    with_sections-same infos (with_entry space entry virt) (with_entry space' entry virt)
      (phys + len) (virt + len) a (with_entry-same space space' entry virt a e)

module _ {S : Type 0} (allocate_page : S → Outcome (S × ℕ × ℕ)) (early : Bool)
    (source : PageSource early allocate_page) (map : Map) where
  -- The run ends with `slots` slots taken, the sections are in the address space, the tables are a
  -- tree, and at least `left` pages are to spare.
  pub record AreMapped (left slots : ℕ) (infos : List SectionInfo) (phys virt : ℕ) (m : Machine S)
      (run : Outcome (Machine S × ℕ)) : Type 0 where
    pub m' : Machine S
    pub level' : Levels
    pub ends : run ≡ done (m', slots)
    pub ready : IsReady allocate_page early source level' m'
    pub root : level' map.pml4 ≡ 4
    pub room : left ≤ source.room m'.source
    pub space :
        (a : ℕ)
        → a < 2 ^ 64
        → get_phys_addr early map.pml4 m'.mem a
          ≡ with_sections (get_phys_addr early map.pml4 m.mem) infos phys virt a

  map_region_run :
      (m : Machine S) (phys virt len mode : ℕ)
      → len % 4096 ≡ 0
      → map_region allocate_page early map m phys virt len mode ≡ (
          add allocate_page early map m virt (some (new_entry phys len mode)) >>= λ added.
          require (is_success added.2) >> done (added.0, added.1))
  unfolding map_region create_entry
  map_region_run m phys virt len mode whole = rw (==_of_eq (len % 4096) 0 whole)

  section_run :
      (m : Machine S) (next phys virt len mode left : ℕ)
      → next < 3
      → len % 4096 ≡ 0
      → (g : Added allocate_page early source map.pml4 left (new_entry phys len mode) virt map m)
      → map_kernel_section allocate_page early map m next phys virt len mode ≡ done (g.m', next + 1)
  unfolding map_kernel_section
  section_run m next phys virt len mode left few whole g =
      rw
        (
          lt→ltb (next + 1) 4 (omega (arith, few)),
          map_region_run m phys virt len mode whole,
          g.ends,
        )
        refl

  section_panics :
      (m : Machine S) (next phys virt len mode : ℕ)
      → next < 3
      → len % 4096 ≡ 0
      → add allocate_page early map m virt (some (new_entry phys len mode)) ≡ panic
      → map_kernel_section allocate_page early map m next phys virt len mode ≡ panic
  unfolding map_kernel_section
  section_panics m next phys virt len mode few whole e =
      rw (lt→ltb (next + 1) 4 (omega (arith, few)), map_region_run m phys virt len mode whole, e)
        refl

  sections_lem :
      (infos : List SectionInfo) (m : Machine S) (level : Levels) (next phys virt left : ℕ)
      → next + length infos ≤ 3
      → 0xffff800000000000 ≤ virt
      → virt + total infos < 2 ^ 64
      → virt % 4096 ≡ 0
      → phys % 4096 ≡ 0
      → phys + total infos ≤ 2 ^ 52
      → IsReady allocate_page early source level m
      → level map.pml4 ≡ 4
      → total infos / 4096 * 3 + left ≤ source.room m.source
      → AreMapped left
          (next + length infos)
          infos
          phys
          virt
          m
          (map_sections_from allocate_page early map infos m next phys virt)
        ⊎ Panics early map.pml4 m.mem virt
            (virt + total infos)
            (map_sections_from allocate_page early map infos m next phys virt)
  unfolding map_sections_from total with_sections
  sections_lem [] m level next phys virt left few high fits aligned phys_aligned phys_fits ready
        root enough =
      inl (record {
        m' = m;
        level' = level;
        ends = ap (λ (n : ℕ). done (m, n)) (omega arith);
        ready = ready;
        root = root;
        room = omega (arith, enough);
        space = λ a h. refl;
      })
  sections_lem (info ∷ infos) m level next phys virt left few high fits aligned phys_aligned
        phys_fits ready root enough =
      let len : ℕ = nearest_page_size info.size in
      let entry : Entry = new_entry phys len info.mode in
      let whole : len % 4096 ≡ 0 = nearest_page_size-whole info.size in
      let range : IsCanonicalRange virt len = inr (high, omega (arith, fits)) in
      let behind : u64 (virt + len) ≡ virt + len = omega (arith, fits) in
      let phys_behind : u64 (phys + len) ≡ phys + len = omega (arith, phys_fits) in
      let more : ℕ = total infos / 4096 * 3 + left in
      elim (add-ends allocate_page early source map.pml4 entry map m level virt more refl
        (omega (arith, high)) whole range ready root (omega (arith, enough, whole))) [
          | inr p ↦ inr (
              Panics-in virt (virt + len) (virt + total (info ∷ infos)) (omega arith)
                (λ e.
                  rw (section_panics m next phys virt len info.mode (omega (arith, few)) whole e)
                    refl)
                p)
          | inl g ↦
              let run =
                section_run m next phys virt len info.mode more (omega (arith, few)) whole g in
              let space =
                Pages.space allocate_page early source map.pml4 entry map m virt more aligned
                  phys_aligned (omega (arith, phys_fits)) whole range g in
              elim (sections_lem infos g.m' g.level' (next + 1) (phys + len) (virt + len) left
                (omega (arith, few)) (omega (arith, high)) (omega (arith, fits))
                (omega (arith, aligned, whole)) (omega (arith, phys_aligned, whole))
                (omega (arith, phys_fits)) g.ready g.root g.room) [
                  | inl r ↦ inl (record {
                    m' = r.m';
                    level' = r.level';
                    ends =
                        rw (run, behind, phys_behind, r.ends)
                          (ap (λ (n : ℕ). done (r.m', n)) (omega arith));
                    ready = r.ready;
                    root = r.root;
                    room = r.room;
                    space = λ a small.
                        r.space a small
                        ∙ with_sections-same infos (get_phys_addr early map.pml4 g.m'.mem)
                            (with_entry (get_phys_addr early map.pml4 m.mem) entry virt)
                            (phys + len) (virt + len) a (space a small);
                  })
                  | inr p ↦ inr (
                      Panics-before virt (virt + len) (virt + len + total infos)
                        (virt + total (info ∷ infos))
                        (λ a above small.
                          space a small
                          ∙ with_entry-outside (get_phys_addr early map.pml4 m.mem) entry virt a
                              (inr above))
                        (omega arith) (omega arith) (omega (arith, fits))
                        (λ e. rw (run, behind, phys_behind) e) p)
                ]
        ]

  -- `MapKernelSections`, for at most three sections and bases from the loader that are multiples of the
  -- page size and not 0, where the sections fit behind the virtual base in the upper half of the
  -- address space and their physical pages end below 2^52, in a map whose tables are a tree with three
  -- pages to spare for each page of the sections and `left` more. It returns with one slot taken for
  -- each section, and `getPhysAddr` answers on each section's range with its physical pages and its
  -- mode, but always executable, and is as before for every other address; the tables are still a tree
  -- with `left` pages to spare. Or it panics, and then, already before the call,
  -- `getPhysAddr` meets a large page at some address of the sections.
  pub map_kernel_sections-ends :
      (infos : List SectionInfo) (m : Machine S) (level : Levels) (phys virt left : ℕ)
      → length infos ≤ 3
      → 0 < phys
      → 0xffff800000000000 ≤ virt
      → virt + total infos < 2 ^ 64
      → virt % 4096 ≡ 0
      → phys % 4096 ≡ 0
      → phys + total infos ≤ 2 ^ 52
      → IsReady allocate_page early source level m
      → level map.pml4 ≡ 4
      → total infos / 4096 * 3 + left ≤ source.room m.source
      → AreMapped left
          (length infos)
          infos
          phys
          virt
          m
          (map_kernel_sections allocate_page early map infos m 0 (some (phys, virt)))
        ⊎ Panics early map.pml4 m.mem virt
            (virt + total infos)
            (map_kernel_sections allocate_page early map infos m 0 (some (phys, virt)))
  unfolding map_kernel_sections
  map_kernel_sections-ends infos m level phys virt left few positive high fits aligned phys_aligned
        phys_fits ready root enough =
      rw
        (
          ==_of_ne phys 0 (λ e. absurd (omega (arith, e, positive))),
          ==_of_ne virt 0 (λ e. absurd (omega (arith, e, high))),
        )
        (subst
          (λ (n : ℕ).
            AreMapped left n infos phys virt m
              (map_sections_from allocate_page early map infos m 0 phys virt)
            ⊎ Panics early map.pml4 m.mem virt (virt + total infos)
                (map_sections_from allocate_page early map infos m 0 phys virt))
          (zero_plus (length infos))
          (sections_lem infos m level 0 phys virt left (omega (arith, few)) high fits aligned
            phys_aligned phys_fits ready root enough))
    where
      zero_plus : (n : ℕ) → 0 + n ≡ n
      zero_plus n = omega arith
