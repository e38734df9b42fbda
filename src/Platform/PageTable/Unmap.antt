-- ===== src/Platform/PageTable/Unmap.antt =====
-- `unmapPage` removes a page, and `getPhysAddr` then finds none.
pub mod Range
use kush_os_rewrite.Base.{ℕ, ◌<◌, Bool, false, arith, ◌≡◌, refl, ◌∙◌, ==_of_eq}
use kush_os_rewrite.Base.{done}
use kush_os_rewrite.Platform.PageTable.{
  present, table_addr, index, Memory, slot, write_slot, get_phys_addr, unmap_page, UnmapStatus,
  unmapped, nothing, not_canonical,
}
use kush_os_rewrite.Platform.PageTable.Tree.{Levels, IsTree, write_table_lem, index-lt}
use kush_os_rewrite.Platform.PageTable.Walk.{Path4, not_there, walk-present, walk-absent}
use kush_os_rewrite.Platform.PageTable.Leaf.{leaf-other, leaf-IsTree}
use kush_os_rewrite.Platform.PageTable.Way.{level_1, level_2, level_3}

module _ (early : Bool) (level : Levels) (mem : Memory) (virt pml4 e4 e3 e2 : ℕ)
    (canonical : not_canonical virt ≡ false) (tree : IsTree early level mem) (root : level pml4 ≡ 4)
    (path : Path4 early mem virt pml4 e4 e3 e2) where
  abbrev t1 : ℕ
  t1 = table_addr e2

  abbrev after : Memory
  after = write_slot mem (slot t1 (index 12 virt)) 0

  abbrev kept : Memory × UnmapStatus
  kept = (mem, nothing)

  leaf_level : level t1 ≡ 1
  leaf_level = level_1 early level mem tree virt pml4 root e4 e3 e2 path

  above : (q j : ℕ) → 1 < level q → j < 512 → after (slot q j) ≡ mem (slot q j)
  above q j h k =
      leaf-other early level mem tree t1 (index 12 virt) 0 leaf_level (index-lt 12 virt) q j h k

  pub removes :
      (unmap_large : Bool) → unmap_page early pml4 mem virt unmap_large ≡ done (after, unmapped)
  unfolding unmap_page
  removes unmap_large = rw (
    canonical,
    walk-present early mem pml4 (index 39 virt) e4 kept _ path.low4 (index-lt 39 virt) path.at4
        path.here4,
    walk-present early mem (table_addr e4) (index 30 virt) e3 kept _ path.low3 (index-lt 30 virt)
        path.at3 path.here3,
    path.small3,
    walk-present early mem (table_addr e3) (index 21 virt) e2 kept _ path.low2 (index-lt 21 virt)
        path.at2 path.here2,
    path.small2,
    write_table_lem early mem t1 (index 12 virt) 0 path.low1 (index-lt 12 virt),
  )

  pub gone : get_phys_addr early pml4 after virt ≡ done not_there
  unfolding get_phys_addr
  gone = rw (
    canonical,
    walk-present early after pml4 (index 39 virt) e4 not_there _ path.low4 (index-lt 39 virt)
        (above pml4 (index 39 virt) (omega (arith, root)) (index-lt 39 virt) ∙ path.at4) path.here4,
    walk-present early after (table_addr e4) (index 30 virt) e3 not_there _ path.low3
        (index-lt 30 virt)
        (above (table_addr e4) (index 30 virt)
            (omega (arith, level_3 early level mem tree virt pml4 root e4 e3 e2 path))
            (index-lt 30 virt)
          ∙ path.at3)
        path.here3,
    path.small3,
    walk-present early after (table_addr e3) (index 21 virt) e2 not_there _ path.low2
        (index-lt 21 virt)
        (above (table_addr e3) (index 21 virt)
            (omega (arith, level_2 early level mem tree virt pml4 root e4 e3 e2 path))
            (index-lt 21 virt)
          ∙ path.at2)
        path.here2,
    path.small2,
    walk-absent early after t1 (index 12 virt) not_there _ path.low1 (index-lt 12 virt) cleared,
  )
    where
      cleared : present (after (slot t1 (index 12 virt))) ≡ false
      cleared = rw (==_of_eq (slot t1 (index 12 virt)) (slot t1 (index 12 virt)) refl)

  -- For a canonical address whose walk reaches a page table, in tables that are a tree, `unmapPage`
  -- returns 1, whether or not a page was mapped there; the tables stay a tree, and `getPhysAddr` then
  -- returns 0 with no address.
  pub unmap_page-removes :
      (unmap_large : Bool)
      → (mem' : Memory) × (unmap_page early pml4 mem virt unmap_large ≡ done (mem', unmapped))
        × (get_phys_addr early pml4 mem' virt ≡ done not_there)
        × IsTree early level mem'
  unmap_page-removes unmap_large = (
    after,
    removes unmap_large,
    gone,
    leaf-IsTree early level mem tree t1 (index 12 virt) 0 leaf_level (index-lt 12 virt),
  )
