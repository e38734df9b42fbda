-- ===== src/Vm/Map/RoundTrip.antt =====
-- `Map::add` of a contiguous region and then its `willRemoveFrom`.
use kush_os_rewrite.Base.{
  ℕ, ◌+◌, ◌-◌, ◌*◌, ◌/◌, ◌%◌, ◌^◌, ◌≤◌, ◌<◌, Bool, false, arith, ltb, leb, Bool-cases, lt→ltb,
  le→leb,
}
use kush_os_rewrite.Base.{◌≡◌, refl, ◌∙◌, ◌⊎◌, inl, inr, some, Outcome, done}
use kush_os_rewrite.Platform.PageTable.{
  Machine, Memory, not_canonical, get_phys_addr, Lookup, found, unmap, range_unmapped,
}
use kush_os_rewrite.Platform.PageTable.Tree.{Levels, IsTree, PageSource}
use kush_os_rewrite.Platform.PageTable.Ensure.{IsReady}
use kush_os_rewrite.Platform.PageTable.Entries.{effective_mode}
use kush_os_rewrite.Platform.PageTable.Ranges.{IsCanonicalRange, range_top}
use kush_os_rewrite.Platform.PageTable.Unmap.Range.{IsMapped, without, Removed, unmap-Removed}
use kush_os_rewrite.Vm.Map.{Entry, Map, add, will_remove_from, invalidate_tlb}
use kush_os_rewrite.Vm.Map.Ends.{retained, Panics}
use kush_os_rewrite.Vm.Map.Pages.{with_entry, AddedEntry, add-AddedEntry}

-- The space with an entry answers for the entry's pages.
entry_found :
    (space : ℕ → Outcome Lookup) (entry : Entry) (base a : ℕ)
    → base ≤ a
    → a < base + entry.length
    → (l : Lookup) × (with_entry space entry base a ≡ done l) × (l.status ≡ found)
unfolding with_entry
entry_found space entry base a low high = (
  record {
    status = found;
    out = some (entry.phys_base + (a - base), effective_mode entry.access_mode);
  },
  rw (le→leb base a low, lt→ltb a (base + entry.length) high),
  refl,
)

-- Without the range, nothing of the entry is left.
without-with_entry :
    (space : ℕ → Outcome Lookup) (entry : Entry) (base a : ℕ)
    → without (with_entry space entry base) base entry.length a ≡ without space base entry.length a
unfolding with_entry without
without-with_entry space entry base a = elim (Bool-cases (leb base a)) [
  | inr below ↦ rw below
  | inl above ↦ elim (Bool-cases (ltb a (base + entry.length))) [
    | inl inner ↦ rw (above, inner)
    | inr behind ↦ rw (above, behind)
  ]
]

without_ap :
    (f g : ℕ → Outcome Lookup) (base len a : ℕ)
    → f a ≡ g a
    → without f base len a ≡ without g base len a
unfolding without
without_ap f g base len a e = rw e

will_remove_from-unmap :
    (early : Bool) (pml4 : ℕ) (mem mem' : Memory) (entry : Entry) (base size : ℕ)
    → unmap early pml4 mem base entry.length ≡ done (mem', range_unmapped)
    → will_remove_from early pml4 mem entry base size ≡ done mem'
unfolding will_remove_from invalidate_tlb
will_remove_from-unmap early pml4 mem mem' entry base size e = rw e

module _ {S : Type 0} (allocate_page : S → Outcome (S × ℕ × ℕ)) (early : Bool)
    (source : PageSource early allocate_page) (pml4 : ℕ) where
  -- The entry was added, and removed again.
  pub record AddedRemoved (entry : Entry) (base size : ℕ) (map : Map) (m : Machine S) : Type 0 where
    pub added : AddedEntry allocate_page early source pml4 entry base map m
    pub mem' : Memory
    pub ends : will_remove_from early pml4 added.m'.mem (retained entry) base size ≡ done mem'
    pub tree : IsTree early added.level' mem'
    pub space :
        (a : ℕ)
        → a < 2 ^ 64
        → not_canonical a ≡ false
        → get_phys_addr early pml4 mem' a
          ≡ without (get_phys_addr early pml4 m.mem) base entry.length a

  removed :
      (entry : Entry) (base size : ℕ) (map : Map) (m : Machine S)
      → 0 < base
      → 0 < entry.length
      → base % 4096 ≡ 0
      → entry.length % 4096 ≡ 0
      → IsCanonicalRange base entry.length
      → AddedEntry allocate_page early source pml4 entry base map m
      → AddedRemoved entry base size map m
  removed entry base size map m positive some_page aligned whole range g =
      let top : base + entry.length ≤ 2 ^ 64 = range_top base entry.length range in
      let mapped : (k : ℕ)
          → k < entry.length / 4096
          → IsMapped early pml4 g.m'.mem (base + k * 4096) =
        λ k h.
          let (l, answer, is_found) =
            entry_found (get_phys_addr early pml4 m.mem) entry base (base + k * 4096) (omega arith)
              (omega (arith, whole)) in
          (l, g.space (base + k * 4096) (omega (arith, whole)) ∙ answer, is_found) in
      let gone : Removed early g.level' pml4 g.m'.mem base entry.length =
        unmap-Removed early g.level' pml4 g.m'.mem base entry.length g.root g.ready.tree positive
          some_page aligned whole range mapped in
      record {
        added = g;
        mem' = gone.mem';
        ends =
            will_remove_from-unmap early pml4 g.m'.mem gone.mem' (retained entry) base size
              gone.ends;
        tree = gone.tree;
        space = λ a small canonical.
            gone.space a small canonical
            ∙ without_ap (get_phys_addr early pml4 g.m'.mem)
                (with_entry (get_phys_addr early pml4 m.mem) entry base) base entry.length a
                (g.space a small)
            ∙ without-with_entry (get_phys_addr early pml4 m.mem) entry base a;
      }

  -- Under the conditions of `add-AddedEntry` and for an entry of at least one page: either `add`
  -- puts the entry into the map, `willRemoveFrom` with the same base then returns, the tables are a
  -- tree again, and `getPhysAddr` finds no page at the canonical addresses of the range and answers
  -- for all other canonical addresses as before `add`; or `add` panics, and then,
  -- already before the call, `getPhysAddr` meets a large page at some address of the range.
  pub add-remove :
      (entry : Entry) (map : Map) (m : Machine S) (level : Levels) (base size : ℕ)
      → map.pml4 ≡ pml4
      → 0 < base
      → 0 < entry.length
      → base % 4096 ≡ 0
      → entry.length % 4096 ≡ 0
      → entry.phys_base % 4096 ≡ 0
      → entry.phys_base + entry.length ≤ 2 ^ 52
      → IsCanonicalRange base entry.length
      → IsReady allocate_page early source level m
      → level pml4 ≡ 4
      → entry.length / 4096 * 3 ≤ source.room m.source
      → AddedRemoved entry base size map m
        ⊎ Panics early pml4 m.mem base
            (base + entry.length)
            (add allocate_page early map m base (some entry))
  add-remove entry map m level base size is_map positive some_page aligned whole phys_aligned fits
        range ready root enough =
      elim (add-AddedEntry allocate_page early source pml4 entry map m level base is_map positive
        aligned whole phys_aligned fits range ready root enough) [
          | inr p ↦ inr p
          | inl g ↦ inl (removed entry base size map m positive some_page aligned whole range g)
        ]
