-- ===== src/Platform/PageTable/Ensure.antt =====
-- What one level of `mapPage` does, on every path.
use kush_os_rewrite.Base.{ℕ, suc, ◌+◌, ◌%◌, ◌≤◌, ◌<◌, Bool, true, false, arith}
use kush_os_rewrite.Base.{◌≡◌, refl, ap, ◌∙◌, ◌≢◌, ◌⊎◌, Bool-cases, inl, inr, ==_of_ne}
use kush_os_rewrite.Base.{Outcome, done, Option, none, some}
use kush_os_rewrite.Platform.PageTable.{
  present, large, table_addr, table_entry, Memory, Machine, slot, zero_page, alloc_page,
  ensure_table, MapStatus, read_table,
}
use kush_os_rewrite.Platform.PageTable.Entries.{table_entry_lem}
use kush_os_rewrite.Platform.PageTable.Tree.{
  limit, Levels, assign, IsTree, PageSource, read_table_lem, write_table_lem, reachable,
}
use kush_os_rewrite.Platform.PageTable.Level
use kush_os_rewrite.Platform.PageTable.Look.{look}
use kush_os_rewrite.Platform.PageTable.Frame.{Grafts, look-grafted}

module _ {S : Type 0} (allocate_page : S → Outcome (S × ℕ × ℕ)) (early : Bool)
    (source : PageSource early allocate_page) where
  -- The page source, the tree and the machine fit together.
  pub record IsReady (level : Levels) (m : Machine S) : Type 0 where
    pub tree : IsTree early level m.mem
    pub spare : source.Spare level m.source

  module _ (level : Levels) (m : Machine S) (on_large : Option MapStatus) (virt t i l : ℕ) where
    abbrev Next : Type 0
    Next = Machine S → ℕ → Outcome (Machine S × MapStatus)

    -- The walk goes on with a present entry that leads to a table one level down. All other entries
    -- of the tables are as before.
    pub record Continues : Type 0 where
      pub m' : Machine S
      pub entry : ℕ
      pub level' : Levels
      pub goes :
          (next : Next) → ensure_table allocate_page early on_large virt m t i next ≡ next m' entry
      pub ready : IsReady level' m'
      pub room : source.room m.source ≤ source.room m'.source + 1
      pub is_present : present entry ≡ true
      pub not_large : (large entry ≡ false) ⊎ (on_large ≡ none)
      pub leads : level' (table_addr entry) ≡ suc l
      pub at_slot : m'.mem (slot t i) ≡ entry
      pub others :
          (q j : ℕ)
          → 0 < level q
          → j < 512
          → (q ≢ t) ⊎ (j ≢ i)
          → m'.mem (slot q j) ≡ m.mem (slot q j)
      pub keeps : (q : ℕ) → 0 < level q → level' q ≡ level q
      -- No look-up has changed.
      pub looks : (n q other : ℕ) → level q ≡ suc n → look n m'.mem other q ≡ look n m.mem other q

    -- The entry maps a large page, and `mapPage` ends with nothing changed at this level.
    pub record Stops : Type 0 where
      pub status : MapStatus
      pub expected : on_large ≡ some status
      pub is_large : large (m.mem (slot t i)) ≡ true
      pub is_present : present (m.mem (slot t i)) ≡ true
      pub ends :
          (next : Next)
          → ensure_table allocate_page early on_large virt m t i next ≡ done (m, status)

    module _ (ready : IsReady level m) (at_level : level t ≡ suc (suc l)) (small : i < 512)
        (pml4_only : on_large ≡ none → l ≡ 2) (enough : 0 < source.room m.source) where
      low : t < limit early
      low = (ready.tree.aligned t (omega arith)).1

      read : read_table early m.mem t i ≡ done (m.mem (slot t i))
      read = read_table_lem early m.mem t i low small

      stays :
          present (m.mem (slot t i)) ≡ true
          → (large (m.mem (slot t i)) ≡ false) ⊎ (on_large ≡ none)
          → ((next : Next)
              → ensure_table allocate_page early on_large virt m t i next
                ≡ next m (m.mem (slot t i)))
          → Continues
      stays p not_large goes = record {
        m' = m;
        entry = m.mem (slot t i);
        level' = level;
        goes = goes;
        ready = ready;
        room = omega arith;
        is_present = p;
        not_large = not_large;
        leads = ready.tree.down t i l at_level small p (down_case not_large);
        at_slot = refl;
        others = λ q j used h d. refl;
        keeps = λ q used. refl;
        looks = λ n q other at. refl;
      }
        where
          down_case :
              (large (m.mem (slot t i)) ≡ false) ⊎ (on_large ≡ none)
              → (large (m.mem (slot t i)) ≡ false) ⊎ (l ≡ 2)
          down_case (inl s) = inl s
          down_case (inr s) = inr (pml4_only s)

      module _ (s' : S) (page : ℕ) (gives : allocate_page m.source ≡ done (s', 1, page))
          (some_page : 0 < page) (aligned : page % 4096 ≡ 0) (page_low : page < limit early)
          (unused : level page ≡ 0) where
        abbrev mem' : Memory
        mem' =
            Level.mem' early level m.mem ready.tree t i l page virt at_level small aligned page_low
              unused

        allocates :
            alloc_page allocate_page early m
            ≡ done (record { mem = zero_page m.mem page; source = s' }, page)
        unfolding alloc_page
        allocates = rw (gives, reachable early page page_low)

        make_step :
            present (m.mem (slot t i)) ≡ false
            → (next : Next)
            → ensure_table allocate_page early on_large virt m t i next
              ≡ next (record { mem = mem'; source = s' }) (table_entry page virt)
        unfolding ensure_table
        make_step p next =
            let ne : page ≢ 0 = λ e. absurd (omega (arith, e)) in
            rw (
              read,
              p,
              allocates,
              ==_of_ne page 0 ne,
              write_table_lem early (zero_page m.mem page) t i (table_entry page virt) low small,
            )

      module _ (page : ℕ) (aligned : page % 4096 ≡ 0) (page_low : page < limit early)
          (unused : level page ≡ 0) (absent : present (m.mem (slot t i)) ≡ false) where
        abbrev grown_mem : Memory
        grown_mem =
            Level.mem' early level m.mem ready.tree t i l page virt at_level small aligned page_low
              unused

        entry_facts :
            (present (table_entry page virt) ≡ true)
            × (large (table_entry page virt) ≡ false)
            × (table_addr (table_entry page virt) ≡ page)
        entry_facts = table_entry_lem page virt aligned (
            Level.below early level m.mem ready.tree t i l page virt at_level small aligned page_low
              unused)

        entry_is : grown_mem (slot t i) ≡ table_entry page virt
        entry_is =
            Level.at_entry early level m.mem ready.tree t i l page virt at_level small aligned
              page_low unused

        grafts : Grafts early level m.mem ready.tree grown_mem t i
        grafts = record {
          upper = omega (arith, at_level);
          absent = absent;
          here = ap present entry_is ∙ entry_facts.0;
          small = ap large entry_is ∙ entry_facts.1;
          zeros = λ j h.
              ap (λ (x : ℕ). grown_mem (slot x j)) (ap table_addr entry_is ∙ entry_facts.2)
              ∙ Level.new_table early level m.mem ready.tree t i l page virt at_level small aligned
                  page_low unused j h;
          others =
              Level.other early level m.mem ready.tree t i l page virt at_level small aligned
                page_low unused;
        }

      makes : present (m.mem (slot t i)) ≡ false → Continues
      makes p =
          let (s', page, gives, some_page, aligned, below, unused, fewer, spare') =
            source.give level m.source ready.spare enough in
          record {
            m' = record {
              mem =
                  Level.mem' early level m.mem ready.tree t i l page virt at_level small aligned
                    below unused;
              source = s';
            };
            entry = table_entry page virt;
            level' = assign level page (suc l);
            goes = make_step s' page gives some_page aligned below unused p;
            ready = record {
              tree =
                  Level.grown early level m.mem ready.tree t i l page virt at_level small aligned
                    below unused;
              spare = spare' (suc l);
            };
            room = omega (arith, fewer);
            is_present =
                (table_entry_lem page virt aligned (
                  Level.below early level m.mem ready.tree t i l page virt at_level small aligned
                    below unused)).0;
            not_large =
                inl
                  (table_entry_lem page virt aligned (
                    Level.below early level m.mem ready.tree t i l page virt at_level small aligned
                      below unused)).1;
            leads =
                Level.leads early level m.mem ready.tree t i l page virt at_level small aligned
                  below unused;
            at_slot =
                Level.at_entry early level m.mem ready.tree t i l page virt at_level small aligned
                  below unused;
            others =
                Level.other early level m.mem ready.tree t i l page virt at_level small aligned
                  below unused;
            keeps =
                Level.keeps early level m.mem ready.tree t i l page virt at_level small aligned
                  below unused;
            looks = λ n q other at.
                look-grafted early level m.mem ready.tree
                  (Level.mem' early level m.mem ready.tree t i l page virt at_level small aligned
                    below unused)
                  t i other (grafts page aligned below unused p) n q at;
          }

      goes_on :
          present (m.mem (slot t i)) ≡ true
          → (large (m.mem (slot t i)) ≡ false) ⊎ (on_large ≡ none)
          → (next : Next)
          → ensure_table allocate_page early on_large virt m t i next ≡ next m (m.mem (slot t i))
      unfolding ensure_table
      goes_on p (inl s) next = by_large on_large
        where
          by_large :
              (o : Option MapStatus)
              → ensure_table allocate_page early o virt m t i next ≡ next m (m.mem (slot t i))
          by_large none = rw (read, p)
          by_large (some status) = rw (read, p, s)
      goes_on p (inr e) next = rw (e, read, p)

      stops :
          (status : MapStatus)
          → on_large ≡ some status
          → present (m.mem (slot t i)) ≡ true
          → large (m.mem (slot t i)) ≡ true
          → Stops
      unfolding ensure_table
      stops status e p big = record {
        status = status;
        expected = e;
        is_large = big;
        is_present = p;
        ends = ends_here;
      }
        where
          ends_here :
              (next : Next)
              → ensure_table allocate_page early on_large virt m t i next ≡ done (m, status)
          ends_here next = rw (e, read, p, big)

      option_cases :
          (o : Option MapStatus) → (o ≡ none) ⊎ ((status : MapStatus) × (o ≡ some status))
      option_cases none = inl refl
      option_cases (some status) = inr (status, refl)

      -- One level of `mapPage` reaches the next table, made for it if there was none, or ends at an
      -- entry for a large page.
      pub ensure : Continues ⊎ Stops
      ensure = elim (Bool-cases (present (m.mem (slot t i)))) [
        | inr p ↦ inl (makes p)
        | inl p ↦ elim (Bool-cases (large (m.mem (slot t i)))) [
          | inr s ↦ inl (stays p (inl s) (goes_on p (inl s)))
          | inl big ↦ elim (option_cases on_large) [
            | inl e ↦ inl (stays p (inr e) (goes_on p (inr e)))
            | inr (status, e) ↦ inr (stops status e p big)
          ]
        ]
      ]
