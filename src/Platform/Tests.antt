-- ===== src/Platform/Tests.antt =====
-- `mapPage` of PageTable.cpp with a concrete page source.
use kush_os_rewrite.Base.{ℕ, suc, ◌+◌, ◌-◌, ◌*◌, ◌%◌, ◌^◌, ◌≤◌, ◌<◌, true, false, arith}
use kush_os_rewrite.Base.{
  ◌≡◌, refl, ◌⊎◌, ◌==◌, inl, inr, if◌then◌else◌, ltb, lt→ltb, ==_of_ne, Bool-cases, Outcome, done,
}
use kush_os_rewrite.Platform.PageTable.{Machine}
use kush_os_rewrite.Platform.PageTable.Tree.{Levels, assign, PageSource, limit}
use kush_os_rewrite.Platform.PageTable.Ensure.{IsReady}
use kush_os_rewrite.Platform.PageTable.Map.{Maps, Blocked, map_page-Maps}

-- Pages are given out in ascending order, up to page 1000; then there is an error.
pub next_page : ℕ → Outcome (ℕ × ℕ × ℕ)
next_page s = if ltb s 1000 then done (s + 1, 1, 4096 * s) else done (s, 0, 0)

Unused : Levels → ℕ → Type 0
Unused level s = (0 < s) × (s ≤ 1000) × ((k : ℕ) → s ≤ k → level (4096 * k) ≡ 0)

gives_next :
    (level : Levels) (s : ℕ)
    → Unused level s
    → 0 < 1000 - s
    → (s' : ℕ) × (page : ℕ) × (next_page s ≡ done (s', 1, page))
      × (0 < page)
      × (page % 4096 ≡ 0)
      × (page < limit true)
      × (level page ≡ 0)
      × (1000 - s ≡ suc (1000 - s'))
      × ((l : ℕ) → Unused (assign level page l) s')
unfolding next_page Unused
gives_next level s unused some_left = (
  s + 1,
  4096 * s,
  rw (lt→ltb s 1000 (omega arith)),
  omega (arith, unused.0),
  omega arith,
  omega arith,
  unused.2 s (omega arith),
  omega arith,
  λ l. (
    omega arith,
    omega arith,
    λ k h.
        rw (==_of_ne (4096 * k) (4096 * s) (λ e. absurd (omega (arith, e))))
          (unused.2 k (omega arith)),
  ),
)

pub pages : PageSource true next_page
pages = record { Spare = Unused; room = λ s. 1000 - s; give = gives_next }

-- An empty PML4 at page 1.
abbrev pub root_only : Levels
root_only = assign (λ p. 0) 4096 4

abbrev pub machine : Machine ℕ
machine = record { mem = λ a. 0; source = 2 }

pub machine-IsReady : IsReady next_page true pages root_only machine
unfolding pages Unused
machine-IsReady = record {
  tree = record {
    aligned = root_aligned;
    down = λ t i l h k p s. absurd (nothing_there p);
    owner = λ p. 0;
    owned = λ t i l h k p s. absurd (nothing_there p);
  };
  spare = (
    omega arith,
    omega arith,
    λ k h. rw (==_of_ne (4096 * k) 4096 (λ e. absurd (omega (arith, e)))),
  );
}
  where
    root_aligned : (t : ℕ) → 0 < root_only t → (t % 4096 ≡ 0) × (t < 2 ^ 32)
    root_aligned t h = elim (Bool-cases (t == 4096)) [
      | inl e ↦ ground arith
      | inr ne ↦ absurd (omega (arith, rw ne at h))
    ]

    nothing_there : false ≡ true → ⊥
    nothing_there e = cc

pub machine_room : 998 ≤ pages.room machine.source
unfolding pages
machine_room = omega arith

map_page-Maps_example :
    Maps next_page true pages root_only machine 4096 0x5000 0x400000 0x3
    ⊎ Blocked next_page true pages root_only machine 4096 0x5000 0x400000 0x3
unfolding pages
map_page-Maps_example =
    map_page-Maps next_page true pages root_only machine 4096 0x5000 0x400000 0x3 refl
      machine-IsReady refl room
  where
    room : 2 < 998
    room = omega arith
