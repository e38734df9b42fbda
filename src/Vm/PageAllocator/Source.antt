-- ===== src/Vm/PageAllocator/Source.antt =====
-- The physical allocator as the page source of the page tables.
use kush_os_rewrite.Base.{
  ℕ, suc, ◌%◌, ◌<◌, Bool, List, [], ◌∷◌, length, min, get_elem?, Option, none, some, arith, Outcome,
  done, ◌>>=◌,
}
use kush_os_rewrite.Base.{◌≡◌, ◌≢◌, ap, sym, ◌∙◌, ==_of_ne}
use mathlib.Core.Path.{subst}
use kush_os_rewrite.Memory.Pool.{Pool}
use kush_os_rewrite.Memory.Pool.One.{free_addrs}
use kush_os_rewrite.Memory.PhysicalAllocator
use kush_os_rewrite.Memory.PhysicalAllocator.{State}
use kush_os_rewrite.Memory.PhysicalAllocator.Pages.{Serves, allocate_page-Serves}
use kush_os_rewrite.Platform.PageTable.Tree.{limit, Levels, assign, PageSource}
use kush_os_rewrite.Vm.PageAllocator.{page_for_table, first_page}

-- The addresses of the free pages of the first pool.
pub free_list : State → List ℕ
free_list s = elim s.shared [
  | none ↦ []
  | some a ↦ elim (get_elem? a.pools 0) [
    | none ↦ []
    | some entry ↦ elim entry [ none ↦ [] | some p ↦ free_addrs 4096 p.regions ]
  ]
]

-- An address stands in a list only once, and is no table's.
unfoldable pub IsNew : ℕ → List ℕ → Type 0
IsNew a [] = Unit
IsNew a (b ∷ rest) = (b ≢ a) × IsNew a rest

unfoldable pub AreSpare : Bool → Levels → List ℕ → Type 0
AreSpare early level [] = Unit
AreSpare early level (a ∷ rest) =
    (0 < a)
    × (a % 4096 ≡ 0)
    × (a < limit early)
    × (level a ≡ 0)
    × IsNew a rest
    × AreSpare early level rest

pub free_list_lem : (s : State) (addrs : List ℕ) → Serves s 4096 addrs → free_list s ≡ addrs
unfolding free_list
free_list_lem s addrs v =
    ap
      (λ (o : Option PhysicalAllocator.PhysicalAllocator). elim o [
        | none ↦ []
        | some a ↦ elim (get_elem? a.pools 0) [
          | none ↦ []
          | some entry ↦ elim entry [ none ↦ [] | some p ↦ free_addrs 4096 p.regions ]
        ]
      ])
      v.shared
    ∙ ap
        (λ (o : Option (Option Pool)). elim o [
          | none ↦ []
          | some entry ↦ elim entry [ none ↦ [] | some p ↦ free_addrs 4096 p.regions ]
        ])
        v.first
    ∙ v.free

-- Giving a page a level leaves the others spare.
spare_left :
    (early : Bool) (level : Levels) (a l : ℕ) (rest : List ℕ)
    → IsNew a rest
    → AreSpare early level rest
    → AreSpare early (assign level a l) rest
unfolding IsNew AreSpare
spare_left early level a l [] new spare = tt
spare_left early level a l (b ∷ rest) (ne, new) (h1, h2, h3, h4, once, spare) =
    (h1, h2, h3, rw (==_of_ne b a ne) h4, once, spare_left early level a l rest new spare)

abbrev pub Spare : Bool → Levels → State → Type 0
Spare early level s = Serves s 4096 (free_list s) × AreSpare early level (free_list s)

pub gives :
    (early : Bool) (level : Levels) (s : State) (addrs : List ℕ)
    → Serves s 4096 addrs
    → AreSpare early level addrs
    → 0 < length addrs
    → (s' : State) × (page : ℕ) × (page_for_table s ≡ done (s', 1, page))
      × (0 < page)
      × (page % 4096 ≡ 0)
      × (page < limit early)
      × (level page ≡ 0)
      × (length addrs ≡ suc (length (free_list s')))
      × ((l : ℕ) → Spare early (assign level page l) s')
unfolding AreSpare
gives early level s [] v spare some_left = absurd (omega arith)
gives early level s (a ∷ rest) v (h1, h2, h3, h4, new, spare) some_left =
    let (s', run, v') = allocate_page-Serves s 4096 0 (a ∷ rest) v in
    let one : min (length (a ∷ rest)) 1 ≡ 1 = omega arith in
    let left : free_list s' ≡ rest = free_list_lem s' rest v' in
    (
      s',
      a,
      ap (λ (o : Outcome (State × ℕ × List ℕ)). o >>= λ got. done (got.0, got.1, first_page got.2))
            run
          ∙ ap (λ (n : ℕ). done (s', n, a)) one,
      h1,
      h2,
      h3,
      h4,
      ap (λ (xs : List ℕ). suc (length xs)) (sym left),
      λ l. (
        subst (Serves s' 4096) (sym left) v',
        subst (AreSpare early (assign level a l)) (sym left)
            (spare_left early level a l rest new spare),
      ),
    )

-- What the page tables need of their page source holds of the physical allocator, as long as its
-- free pages are aligned, reachable, and no tables.
abbrev pub kernel_source : (early : Bool) → PageSource early page_for_table
kernel_source early = record {
  Spare = Spare early;
  room = λ s. length (free_list s);
  give = λ level s spare some_left. gives early level s (free_list s) spare.0 spare.1 some_left;
}
