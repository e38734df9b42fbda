-- ===== src/Platform/PageTable/Map.antt =====
-- `mapPage` whole: it returns, keeps the tree of tables, and `getPhysAddr` then finds the page.
use kush_os_rewrite.Base.{
  ℕ, zero, suc, ◌+◌, ◌%◌, ◌/◌, ◌*◌, ◌^◌, ◌≤◌, ◌<◌, Bool, true, false, arith, u64, bit_and,
}
use kush_os_rewrite.Base.{
  ◌≡◌, refl, ap, sym, ◌∙◌, ◌≢◌, ◌⊎◌, inl, inr, ==_of_eq, Outcome, done, Option, none, some,
}
use kush_os_rewrite.Platform.PageTable.{
  present, large, table_addr, index, Memory, Machine, slot, write_slot, map_page, MapStatus, mapped,
  large_1g, large_2m,
}
use kush_os_rewrite.Platform.PageTable.{page_entry, get_phys_addr, not_canonical, found, not_found}
use kush_os_rewrite.Platform.PageTable.Entries.{page_entry_lem, effective_mode}
use kush_os_rewrite.Platform.PageTable.Tree.{limit, Levels, PageSource, write_table_lem, index-lt}
use kush_os_rewrite.Platform.PageTable.Look.{
  index_at, is_large, look, look-leads, look-large, get_phys_addr-look, get_phys_addr-same,
}
use kush_os_rewrite.Platform.PageTable.Frame.{Way, page_of, same_indices, get_phys_addr-written}
use kush_os_rewrite.Platform.PageTable.Leaf.{leaf-other, leaf-IsTree}
use kush_os_rewrite.Platform.PageTable.Ensure.{IsReady, Continues, Stops, ensure}
use kush_os_rewrite.Platform.PageTable.Walk.{Path4, get_phys_addr-found}

no_status : (s : MapStatus) → none ≢ some s
no_status s e = cc

some_status : (s : MapStatus) → some s ≢ none
some_status s e = cc

-- `getPhysAddr` finds the frame of `phys`, with the mode asked for, for each address of the page.
abbrev pub Translates : Bool → ℕ → Memory → ℕ → ℕ → ℕ → Type 0
Translates early pml4 mem phys virt mode =
    (a : ℕ)
    → not_canonical a ≡ false
    → page_of a ≡ page_of virt
    → get_phys_addr early pml4 mem a
      ≡ done (record {
        status = found;
        out = some (u64 (phys % 2 ^ 52 / 4096 * 4096 + bit_and a 0xfff), effective_mode mode);
      })

-- A large page is in the way of the page: `getPhysAddr` sets its outputs, but answers 0.
unfoldable pub IsLargePage : Bool → ℕ → Memory → ℕ → Type 0
IsLargePage early pml4 mem virt =
    (o : ℕ × ℕ) × (get_phys_addr early pml4 mem virt
      ≡ done (record { status = not_found; out = some o }))

module _ {S : Type 0} (allocate_page : S → Outcome (S × ℕ × ℕ)) (early : Bool)
    (source : PageSource early allocate_page) (level : Levels) (m : Machine S)
    (pml4 phys virt mode : ℕ) where
  -- The page is mapped: the tables are still a tree, and a lookup gives its frame and mode.
  pub record Maps : Type 0 where
    pub m' : Machine S
    pub level' : Levels
    pub run : map_page allocate_page early pml4 m phys virt mode ≡ done (m', mapped)
    pub ready : IsReady allocate_page early source level' m'
    pub root : level' pml4 ≡ 4
    -- At most three tables were made.
    pub room : source.room m.source ≤ source.room m'.source + 3
    pub lookup : Translates early pml4 m'.mem phys virt mode
    -- All other pages are mapped as they were.
    pub frame :
        (other : ℕ)
        → page_of other ≢ page_of virt
        → get_phys_addr early pml4 m'.mem other ≡ get_phys_addr early pml4 m.mem other

  -- A large page is in the way.
  pub record Blocked : Type 0 where
    pub m' : Machine S
    pub status : MapStatus
    pub table : ℕ
    pub shift : ℕ
    pub run : map_page allocate_page early pml4 m phys virt mode ≡ done (m', status)
    pub why : ((status ≡ large_1g) × (shift ≡ 30)) ⊎ ((status ≡ large_2m) × (shift ≡ 21))
    pub is_present : present (m'.mem (slot table (index shift virt))) ≡ true
    pub is_large : large (m'.mem (slot table (index shift virt))) ≡ true
    pub level' : Levels
    pub ready : IsReady allocate_page early source level' m'
    -- No page is mapped otherwise than it was.
    pub kept :
        (other : ℕ) → get_phys_addr early pml4 m'.mem other ≡ get_phys_addr early pml4 m.mem other
    pub hits : IsLargePage early pml4 m.mem virt

  module _ (before : IsReady allocate_page early source level m)
      (canonical : not_canonical virt ≡ false) (root : level pml4 ≡ 4)
      (c4 : Continues allocate_page early source level m none virt pml4 (index 39 virt) 2) where
    abbrev t3 : ℕ
    t3 = table_addr c4.entry

    root_4 : c4.level' pml4 ≡ 4
    root_4 = c4.keeps pml4 (omega (arith, root)) ∙ root

    same_4 :
        (other : ℕ)
        → get_phys_addr early pml4 c4.m'.mem other ≡ get_phys_addr early pml4 m.mem other
    same_4 other =
        get_phys_addr-same early level c4.level' m.mem c4.m'.mem before.tree c4.ready.tree pml4
          other root root_4 (c4.looks 3 pml4 other root)

    down_4 : look 3 c4.m'.mem virt pml4 ≡ look 2 c4.m'.mem virt t3
    down_4 = look-leads 2 c4.m'.mem virt pml4 c4.entry c4.at_slot c4.is_present refl

    blocked_1g :
        Stops allocate_page early source c4.level' c4.m' (some large_1g) virt t3 (index 30 virt) 1
        → Blocked
    unfolding map_page IsLargePage
    blocked_1g s =
        let is : s.status ≡ large_1g = ap status_of (sym s.expected) in
        record {
          m' = c4.m';
          status = s.status;
          table = t3;
          shift = 30;
          run = rw (canonical, c4.goes _, s.ends _);
          why = inl (is, refl);
          is_present = s.is_present;
          is_large = s.is_large;
          level' = c4.level';
          ready = c4.ready;
          kept = same_4;
          hits =
              let top = look-large 1 c4.m'.mem virt t3 s.is_present s.is_large in
              (
                top.0,
                sym (same_4 virt)
                    ∙ get_phys_addr-look early c4.level' c4.m'.mem c4.ready.tree virt pml4 root_4
                        canonical
                    ∙ ap done (down_4 ∙ top.1),
              );
        }
      where
        status_of : Option MapStatus → MapStatus
        status_of none = large_1g
        status_of (some x) = x

    module _
        (c3 : Continues allocate_page early source c4.level' c4.m'
          (some large_1g)
          virt
          t3
          (index 30 virt)
          1) where
      abbrev t2 : ℕ
      t2 = table_addr c3.entry

      root_3 : c3.level' pml4 ≡ 4
      root_3 = c3.keeps pml4 (omega (arith, root_4)) ∙ root_4

      same_3 :
          (other : ℕ)
          → get_phys_addr early pml4 c3.m'.mem other ≡ get_phys_addr early pml4 m.mem other
      same_3 other =
          get_phys_addr-same early level c3.level' m.mem c3.m'.mem before.tree c3.ready.tree pml4
            other root root_3 (c3.looks 3 pml4 other root_4 ∙ c4.looks 3 pml4 other root)

      small_3 : (large c3.entry ≡ false) ⊎ (some large_1g ≡ none) → is_large 1 c3.entry ≡ false
      small_3 (inl e) = e
      small_3 (inr e) = absurd (some_status large_1g e)

      down_3 : look 3 c3.m'.mem virt pml4 ≡ look 1 c3.m'.mem virt t2
      down_3 =
          c3.looks 3 pml4 virt root_4
          ∙ down_4
          ∙ sym (c3.looks 2 t3 virt c4.leads)
          ∙ look-leads 1 c3.m'.mem virt t3 c3.entry c3.at_slot c3.is_present (small_3 c3.not_large)

      blocked_2m :
          Stops allocate_page early source c3.level' c3.m' (some large_2m) virt t2 (index 21 virt) 0
          → Blocked
      unfolding map_page IsLargePage
      blocked_2m s =
          let is : s.status ≡ large_2m = ap status_of (sym s.expected) in
          record {
            m' = c3.m';
            status = s.status;
            table = t2;
            shift = 21;
            run = rw (canonical, c4.goes _, c3.goes _, s.ends _);
            why = inr (is, refl);
            is_present = s.is_present;
            is_large = s.is_large;
            level' = c3.level';
            ready = c3.ready;
            kept = same_3;
            hits =
                let top = look-large 0 c3.m'.mem virt t2 s.is_present s.is_large in
                (
                  top.0,
                  sym (same_3 virt)
                      ∙ get_phys_addr-look early c3.level' c3.m'.mem c3.ready.tree virt pml4 root_3
                          canonical
                      ∙ ap done (down_3 ∙ top.1),
                );
          }
        where
          status_of : Option MapStatus → MapStatus
          status_of none = large_2m
          status_of (some x) = x

      module _
          (c2 : Continues allocate_page early source c3.level' c3.m'
            (some large_2m)
            virt
            t2
            (index 21 virt)
            0) where
        abbrev t1 : ℕ
        t1 = table_addr c2.entry

        -- The tables on the way, by their levels.
        abbrev at : ℕ → ℕ
        at zero = t1
        at (suc zero) = t2
        at (suc (suc zero)) = t3
        at (suc (suc (suc n))) = pml4

        abbrev final : Machine S
        final = record {
          mem = write_slot c2.m'.mem (slot t1 (index 12 virt)) (page_entry phys mode);
          source = c2.m'.source;
        }

        level_4 : (c4.level' pml4 ≡ 4) × (c3.level' pml4 ≡ 4) × (c2.level' pml4 ≡ 4)
        level_4 =
            let a : c4.level' pml4 ≡ 4 = c4.keeps pml4 (omega (arith, root)) ∙ root in
            let b : c3.level' pml4 ≡ 4 = c3.keeps pml4 (omega (arith, a)) ∙ a in
            (a, b, c2.keeps pml4 (omega (arith, b)) ∙ b)

        level_3 : (c3.level' t3 ≡ 3) × (c2.level' t3 ≡ 3)
        level_3 =
            let a : c3.level' t3 ≡ 3 = c3.keeps t3 (omega (arith, c4.leads)) ∙ c4.leads in
            (a, c2.keeps t3 (omega (arith, a)) ∙ a)

        level_2 : c2.level' t2 ≡ 2
        level_2 = c2.keeps t2 (omega (arith, c3.leads)) ∙ c3.leads

        ne_level : (lv : Levels) (a b : ℕ) → lv b < lv a → a ≢ b
        ne_level lv a b h e = absurd (omega (arith, h, ap lv e))

        upper : (q j : ℕ) → 1 < c2.level' q → j < 512 → final.mem (slot q j) ≡ c2.m'.mem (slot q j)
        upper q j h k =
            leaf-other early c2.level' c2.m'.mem c2.ready.tree t1 (index 12 virt)
              (page_entry phys mode) c2.leads (index-lt 12 virt) q j h k

        at_3 : c2.m'.mem (slot t3 (index 30 virt)) ≡ c3.entry
        at_3 =
            c2.others t3 (index 30 virt) (omega (arith, level_3.0)) (index-lt 30 virt)
              (inl (ne_level c3.level' t3 t2 (omega (arith, level_3.0, c3.leads))))
            ∙ c3.at_slot

        at_4 : c2.m'.mem (slot pml4 (index 39 virt)) ≡ c4.entry
        at_4 =
            c2.others pml4 (index 39 virt) (omega (arith, level_4.1)) (index-lt 39 virt)
              (inl (ne_level c3.level' pml4 t2 (omega (arith, level_4.1, c3.leads))))
            ∙ c3.others pml4 (index 39 virt) (omega (arith, level_4.0)) (index-lt 39 virt)
                (inl (ne_level c4.level' pml4 t3 (omega (arith, level_4.0, c4.leads))))
            ∙ c4.at_slot

        not_large_of :
            (x : ℕ) (s : MapStatus) → (large x ≡ false) ⊎ (some s ≡ none) → large x ≡ false
        not_large_of x s (inl e) = e
        not_large_of x s (inr bad) = absurd (some_status s bad)

        low_of : (t : ℕ) → 0 < c2.level' t → t < limit early
        low_of t h = (c2.ready.tree.aligned t h).1

        small3 : large c3.entry ≡ false
        small3 = not_large_of c3.entry large_1g c3.not_large

        small2 : large c2.entry ≡ false
        small2 = not_large_of c2.entry large_2m c2.not_large

        way : Way early c2.level' c2.m'.mem c2.ready.tree virt at
        way = record { leaf = c2.leads; on = on_way }
          where
            on_way :
                (n : ℕ)
                → n < 3
                → (c2.level' (at (suc n)) ≡ suc (suc n))
                  × (present (c2.m'.mem (slot (at (suc n)) (index_at (suc n) virt))) ≡ true)
                  × (is_large n (c2.m'.mem (slot (at (suc n)) (index_at (suc n) virt))) ≡ false)
                  × (table_addr (c2.m'.mem (slot (at (suc n)) (index_at (suc n) virt))) ≡ at n)
            on_way zero h = rw c2.at_slot (level_2, c2.is_present, small2, refl)
            on_way (suc zero) h = rw at_3 (level_3.1, c3.is_present, small3, refl)
            on_way (suc (suc zero)) h = rw at_4 (level_4.2, c4.is_present, refl, refl)
            on_way (suc (suc (suc n))) h = absurd (omega arith)

        path : Path4 early final.mem virt pml4 c4.entry c3.entry c2.entry
        path = record {
          low4 = low_of pml4 (omega (arith, level_4.2));
          low3 = low_of t3 (omega (arith, level_3.1));
          low2 = low_of t2 (omega (arith, level_2));
          low1 = low_of t1 (omega (arith, c2.leads));
          at4 = upper pml4 (index 39 virt) (omega (arith, level_4.2)) (index-lt 39 virt) ∙ at_4;
          at3 = upper t3 (index 30 virt) (omega (arith, level_3.1)) (index-lt 30 virt) ∙ at_3;
          at2 = upper t2 (index 21 virt) (omega (arith, level_2)) (index-lt 21 virt) ∙ c2.at_slot;
          here4 = c4.is_present;
          here3 = c3.is_present;
          here2 = c2.is_present;
          small3 = small3;
          small2 = small2;
        }

        runs : map_page allocate_page early pml4 m phys virt mode ≡ done (final, mapped)
        unfolding map_page
        runs = rw (
          canonical,
          c4.goes _,
          c3.goes _,
          c2.goes _,
          write_table_lem early c2.m'.mem t1 (index 12 virt) (page_entry phys mode)
              (low_of t1 (omega (arith, c2.leads))) (index-lt 12 virt),
        )

        looks : Translates early pml4 final.mem phys virt mode
        looks a fits same =
            let (i39, i30, i21, i12) = same_indices a virt same in
            get_phys_addr-found early final.mem a pml4 c4.entry c3.entry c2.entry fits
              (record {
                at4 = rw i39 path.at4;
                at3 = rw i30 path.at3;
                at2 = rw i21 path.at2;
                low4 = path.low4;
                low3 = path.low3;
                low2 = path.low2;
                low1 = path.low1;
                here4 = path.here4;
                here3 = path.here3;
                here2 = path.here2;
                small3 = path.small3;
                small2 = path.small2;
              })
              (page_entry phys mode)
              (rw (i12, ==_of_eq (slot t1 (index 12 virt)) (slot t1 (index 12 virt)) refl))
              (page_entry_lem phys mode).0
            ∙ rw ((page_entry_lem phys mode).1, (page_entry_lem phys mode).2)

        maps : Maps
        maps = record {
          m' = final;
          level' = c2.level';
          run = runs;
          ready = record {
            tree =
                leaf-IsTree early c2.level' c2.m'.mem c2.ready.tree t1 (index 12 virt)
                  (page_entry phys mode) c2.leads (index-lt 12 virt);
            spare = c2.ready.spare;
          };
          root = level_4.2;
          room = omega (arith, c4.room, c3.room, c2.room);
          lookup = looks;
          frame = λ other ne.
              get_phys_addr-written early c2.level' c2.m'.mem c2.ready.tree virt at way
                (page_entry phys mode) other ne
              ∙ get_phys_addr-same early level c2.level' m.mem c2.m'.mem before.tree c2.ready.tree
                  pml4 other root level_4.2
                  (c2.looks 3 pml4 other level_4.1
                    ∙ c3.looks 3 pml4 other level_4.0
                    ∙ c4.looks 3 pml4 other root);
        }

  -- For a canonical address, in tables that are a tree with its root at level 4, and with three pages
  -- to spare, `mapPage` either maps the page, so that the tables stay a tree and `getPhysAddr` then
  -- finds the frame of `phys` with the mode asked for (always executable) for each address of the
  -- page, and answers as before for all other pages; or it ends with the error for a large page,
  -- the entry in the way is a large page's, and `getPhysAddr` answers as before for all addresses.
  pub map_page-Maps :
      not_canonical virt ≡ false
      → IsReady allocate_page early source level m
      → level pml4 ≡ 4
      → 2 < source.room m.source
      → Maps ⊎ Blocked
  map_page-Maps canonical ready root enough =
      elim (ensure allocate_page early source level m none virt pml4 (index 39 virt) 2 ready root
        (index-lt 39 virt) (λ _. refl) (omega arith)) [
          | inr s ↦ absurd (no_status s.status s.expected)
          | inl c4 ↦
              elim (ensure allocate_page early source c4.level' c4.m' (some large_1g) virt
                (table_addr c4.entry) (index 30 virt) 1 c4.ready c4.leads (index-lt 30 virt)
                (λ e. absurd (some_status large_1g e)) (omega (arith, c4.room))) [
                  | inr s ↦ inr (blocked_1g ready canonical root c4 s)
                  | inl c3 ↦
                      elim (ensure allocate_page early source c3.level' c3.m' (some large_2m) virt
                        (table_addr c3.entry) (index 21 virt) 0 c3.ready c3.leads (index-lt 21 virt)
                        (λ e. absurd (some_status large_2m e)) (omega (arith, c4.room, c3.room))) [
                          | inr s ↦ inr (blocked_2m ready canonical root c4 c3 s)
                          | inl c2 ↦ inl (maps ready canonical root c4 c3 c2)
                        ]
                ]
        ]
