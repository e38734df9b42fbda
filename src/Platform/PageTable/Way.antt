-- ===== src/Platform/PageTable/Way.antt =====
-- The way of an address through the tables, from a walk or from what `getPhysAddr` has found.
use kush_os_rewrite.Base.{ℕ, zero, suc, ◌<◌, Bool, true, false, arith, inl, inr}
use kush_os_rewrite.Base.{◌≡◌, refl, ap, sym, ◌∙◌}
use kush_os_rewrite.Platform.PageTable.{present, large, table_addr, index, Memory, slot, found}
use kush_os_rewrite.Platform.PageTable.Tree.{Levels, IsTree, index-lt}
use kush_os_rewrite.Platform.PageTable.Walk.{Path4}
use kush_os_rewrite.Platform.PageTable.Look.{index_at, is_large, look, leads_down, branch-found}
use kush_os_rewrite.Platform.PageTable.Frame.{Way, page_of, same_indices}

-- Addresses of one page go the same way.
pub Path4-same :
    (early : Bool) (mem : Memory) (a virt pml4 e4 e3 e2 : ℕ)
    → page_of a ≡ page_of virt
    → Path4 early mem virt pml4 e4 e3 e2
    → Path4 early mem a pml4 e4 e3 e2
Path4-same early mem a virt pml4 e4 e3 e2 same path =
    let (i39, i30, i21, i12) = same_indices a virt same in
    record {
      low4 = path.low4;
      low3 = path.low3;
      low2 = path.low2;
      low1 = path.low1;
      at4 = rw i39 path.at4;
      at3 = rw i30 path.at3;
      at2 = rw i21 path.at2;
      here4 = path.here4;
      here3 = path.here3;
      here2 = path.here2;
      small3 = path.small3;
      small2 = path.small2;
    }

module _ (early : Bool) (level : Levels) (mem : Memory) (tree : IsTree early level mem)
    (virt pml4 : ℕ) (root : level pml4 ≡ 4) where
  -- The tables on the way, by their levels.
  abbrev pub tables_of : ℕ → ℕ → ℕ → ℕ → ℕ
  tables_of e4 e3 e2 zero = table_addr e2
  tables_of e4 e3 e2 (suc zero) = table_addr e3
  tables_of e4 e3 e2 (suc (suc zero)) = table_addr e4
  tables_of e4 e3 e2 (suc (suc (suc n))) = pml4

  module _ (e4 e3 e2 : ℕ) (path : Path4 early mem virt pml4 e4 e3 e2) where
    pub level_3 : level (table_addr e4) ≡ 3
    level_3 =
        ap (λ x. level (table_addr x)) (sym path.at4)
        ∙ tree.down pml4 (index 39 virt) 2 root (index-lt 39 virt)
            (ap present path.at4 ∙ path.here4) (inr refl)

    pub level_2 : level (table_addr e3) ≡ 2
    level_2 =
        ap (λ x. level (table_addr x)) (sym path.at3)
        ∙ tree.down (table_addr e4) (index 30 virt) 1 level_3 (index-lt 30 virt)
            (ap present path.at3 ∙ path.here3) (inl (ap large path.at3 ∙ path.small3))

    pub level_1 : level (table_addr e2) ≡ 1
    level_1 =
        ap (λ x. level (table_addr x)) (sym path.at2)
        ∙ tree.down (table_addr e3) (index 21 virt) 0 level_2 (index-lt 21 virt)
            (ap present path.at2 ∙ path.here2) (inl (ap large path.at2 ∙ path.small2))

    on_way :
        (n : ℕ)
        → n < 3
        → (level (tables_of e4 e3 e2 (suc n)) ≡ suc (suc n))
          × (present (mem (slot (tables_of e4 e3 e2 (suc n)) (index_at (suc n) virt))) ≡ true)
          × (is_large n (mem (slot (tables_of e4 e3 e2 (suc n)) (index_at (suc n) virt))) ≡ false)
          × (table_addr (mem (slot (tables_of e4 e3 e2 (suc n)) (index_at (suc n) virt)))
              ≡ tables_of e4 e3 e2 n)
    on_way zero h = rw path.at2 (level_2, path.here2, path.small2, refl)
    on_way (suc zero) h = rw path.at3 (level_3, path.here3, path.small3, refl)
    on_way (suc (suc zero)) h = rw path.at4 (root, path.here4, refl, refl)
    on_way (suc (suc (suc n))) h = absurd (omega arith)

    pub path-Way : Way early level mem tree virt (tables_of e4 e3 e2)
    path-Way = record { leaf = level_1; on = on_way }

  abbrev pub entry_4 : ℕ
  entry_4 = mem (slot pml4 (index 39 virt))

  abbrev pub entry_3 : ℕ
  entry_3 = mem (slot (table_addr entry_4) (index 30 virt))

  abbrev pub entry_2 : ℕ
  entry_2 = mem (slot (table_addr entry_3) (index 21 virt))

  -- A page that is found has a way of present entries to its table.
  pub found-Path4 :
      (look 3 mem virt pml4).status ≡ found → Path4 early mem virt pml4 entry_4 entry_3 entry_2
  unfolding look
  found-Path4 h =
      let (p4, g4, h3) = branch-found 2 virt entry_4 (look 2 mem virt (table_addr entry_4)) h in
      let (p3, g3, h2) = branch-found 1 virt entry_3 (look 1 mem virt (table_addr entry_3)) h3 in
      let (p2, g2, h1) = branch-found 0 virt entry_2 (look 0 mem virt (table_addr entry_2)) h2 in
      let l3 : level (table_addr entry_4) ≡ 3 =
        leads_down early level mem tree virt 2 pml4 root p4 g4 in
      let l2 : level (table_addr entry_3) ≡ 2 =
        leads_down early level mem tree virt 1 (table_addr entry_4) l3 p3 g3 in
      let l1 : level (table_addr entry_2) ≡ 1 =
        leads_down early level mem tree virt 0 (table_addr entry_3) l2 p2 g2 in
      record {
        low4 = (tree.aligned pml4 (omega (arith, root))).1;
        low3 = (tree.aligned (table_addr entry_4) (omega (arith, l3))).1;
        low2 = (tree.aligned (table_addr entry_3) (omega (arith, l2))).1;
        low1 = (tree.aligned (table_addr entry_2) (omega (arith, l1))).1;
        at4 = refl;
        at3 = refl;
        at2 = refl;
        here4 = p4;
        here3 = p3;
        here2 = p2;
        small3 = g3;
        small2 = g2;
      }
