-- ===== src/Boot/Remap/Pools.antt =====
-- The bitmaps of all pools are mapped.
use kush_os_rewrite.Base.{ℕ, ◌+◌, ◌%◌, ◌≤◌, ◌<◌, Bool, arith, List, [], ◌∷◌, ◌++◌}
use kush_os_rewrite.Base.{
  ◌≡◌, refl, sym, ap, ◌∙◌, ◌⊎◌, inl, inr, Option, none, some, Outcome, done, panic, ◌>>=◌,
}
use kush_os_rewrite.Platform.Layout.{phys_allocator_metadata_start, phys_allocator_metadata_end}
use kush_os_rewrite.Platform.PageTable.{Machine, get_phys_addr}
use kush_os_rewrite.Platform.PageTable.Tree.{Levels, PageSource}
use kush_os_rewrite.Platform.PageTable.Ensure.{IsReady}
use kush_os_rewrite.Vm.Map.{Map, Entry}
use kush_os_rewrite.Vm.Map.Pages.{AddressSpace}
use kush_os_rewrite.Vm.Map.Ends.{Panics}
use kush_os_rewrite.Vm.Map.Stopped.{Panics-in, Panics-before}
use kush_os_rewrite.Boot.Remap.{apply_pool, remap_from, remap_to}
use kush_os_rewrite.Boot.Remap.Bitmaps.{
  end_from, with_bitmaps, tables_for, AreBitmaps, entries_of, with_bitmaps-same, le-end_from,
  bases_from-append, end_from-append, with_bitmaps-append, with_bitmaps-behind, tables_for-append,
  AreBitmaps-append, aligned-end_from,
}
use kush_os_rewrite.Boot.Remap.Placed.{Remapped, nothing, apply_pool_lem}

module _ {S : Type 0} (allocate_page : S → Outcome (S × ℕ × ℕ)) (early : Bool)
    (source : PageSource early allocate_page) (map : Map) where
  -- The bitmaps of one pool, and those of the pools behind it.
  pools_joined :
      (left more start : ℕ) (vms others : List Entry) (pools : List (Option (List Entry)))
      (m : Machine S)
      (r : Remapped allocate_page early source map more vms start m
        (apply_pool allocate_page early map vms m start))
      → Remapped allocate_page early source map left others
          (end_from vms start)
          r.m'
          (remap_from allocate_page early map pools r.m' (end_from vms start))
      → Remapped allocate_page early source map left
          (vms ++ others)
          start
          m
          (remap_from allocate_page early map (some vms ∷ pools) m start)
  unfolding remap_from
  pools_joined left more start vms others pools m r q = record {
    m' = q.m';
    level' = q.level';
    ends =
        rw (r.ends, q.ends, bases_from-append vms others start, end_from-append vms others start)
          refl;
    ready = q.ready;
    root = q.root;
    room = q.room;
    space = λ a small.
        q.space a small
        ∙ with_bitmaps-same others (get_phys_addr early map.pml4 r.m'.mem)
            (with_bitmaps (get_phys_addr early map.pml4 m.mem) vms start) (end_from vms start) a
            (r.space a small)
        ∙ ap (λ (s : AddressSpace). s a)
            (sym (with_bitmaps-append (get_phys_addr early map.pml4 m.mem) vms others start));
  }

  pool_run :
      (vms : List Entry) (pools : List (Option (List Entry))) (m : Machine S) (start : ℕ)
      {r : Machine S × List ℕ × ℕ}
      → apply_pool allocate_page early map vms m start ≡ done r
      → remap_from allocate_page early map (some vms ∷ pools) m start
        ≡ (remap_from allocate_page early map pools r.0 r.2 >>= λ q. done (q.0, r.1 ++ q.1, q.2))
  unfolding remap_from
  pool_run vms pools m start e = rw e refl

  pool_panics :
      (vms : List Entry) (pools : List (Option (List Entry))) (m : Machine S) (start : ℕ)
      → apply_pool allocate_page early map vms m start ≡ panic
      → remap_from allocate_page early map (some vms ∷ pools) m start ≡ panic
  unfolding remap_from
  pool_panics vms pools m start e = rw e refl

  remap_from_lem :
      (pools : List (Option (List Entry))) (m : Machine S) (level : Levels) (start left : ℕ)
      → AreBitmaps (entries_of pools)
      → phys_allocator_metadata_start ≤ start
      → start % 4096 ≡ 0
      → end_from (entries_of pools) start < phys_allocator_metadata_end
      → IsReady allocate_page early source level m
      → level map.pml4 ≡ 4
      → tables_for (entries_of pools) + left ≤ source.room m.source
      → Remapped allocate_page early source map left
          (entries_of pools)
          start
          m
          (remap_from allocate_page early map pools m start)
        ⊎ Panics early map.pml4 m.mem start
            (end_from (entries_of pools) start)
            (remap_from allocate_page early map pools m start)
  unfolding remap_from entries_of tables_for
  remap_from_lem [] m level start left bitmaps low aligned fits ready root enough =
      inl (
        nothing allocate_page early source map m level start left ready root
          (omega (arith, enough)))
  remap_from_lem (none ∷ pools) m level start left bitmaps low aligned fits ready root enough =
      remap_from_lem pools m level start left bitmaps low aligned fits ready root enough
  remap_from_lem (some vms ∷ pools) m level start left bitmaps low aligned fits ready root enough =
      let others : List Entry = entries_of pools in
      let parts = AreBitmaps-append vms others bitmaps in
      let whole : end_from (vms ++ others) start ≡ end_from others (end_from vms start) =
        end_from-append vms others start in
      let count = tables_for-append vms others in
      let above = le-end_from vms start in
      let behind = le-end_from others (end_from vms start) in
      elim (apply_pool_lem allocate_page early source map vms m level start
        (tables_for others + left) parts.0 low aligned (omega (arith, fits, whole, behind)) ready
        root (omega (arith, enough, count))) [
          | inr p ↦ inr (
              Panics-in start (end_from vms start) (end_from (vms ++ others) start)
                (omega (arith, whole, behind)) (pool_panics vms pools m start) p)
          | inl r ↦
              elim (remap_from_lem pools r.m' r.level' (end_from vms start) left parts.1
                (omega (arith, low, above)) (aligned-end_from vms start parts.0 aligned)
                (omega (arith, fits, whole)) r.ready r.root r.room) [
                  | inl q ↦
                      inl
                        (pools_joined left (tables_for others + left) start vms others pools m r q)
                  | inr p ↦ inr (
                      Panics-before start (end_from vms start)
                        (end_from others (end_from vms start)) (end_from (vms ++ others) start)
                        (λ a past small.
                          r.space a small
                          ∙ with_bitmaps-behind vms (get_phys_addr early map.pml4 m.mem) start a
                              past)
                        above (omega (arith, whole)) (omega (arith, fits, whole))
                        (λ e. pool_run vms pools m start r.ends ∙ rw e refl) p)
                ]
        ]

  -- `RemapTo`, where the regions' bitmaps are whole pages of memory below 2^52, together with a page
  -- behind each they end before the end of the area for them, and the map's tables are a tree with
  -- three pages to spare for each page of the bitmaps and `left` more. It returns: the bitmaps' new
  -- addresses follow one another from the start of the area, a page that is not mapped for them
  -- between two of them; `getPhysAddr` answers on each bitmap's range with its physical pages and is
  -- as before for every other address; the tables are a tree with `left` pages to spare. Or it panics,
  -- and then, already before the call, `getPhysAddr` meets a large page at some address between the
  -- start of the area and the end of the bitmaps.
  pub remap_to-Remapped :
      (pools : List (Option (List Entry))) (m : Machine S) (level : Levels) (left : ℕ)
      → AreBitmaps (entries_of pools)
      → end_from (entries_of pools) phys_allocator_metadata_start < phys_allocator_metadata_end
      → IsReady allocate_page early source level m
      → level map.pml4 ≡ 4
      → tables_for (entries_of pools) + left ≤ source.room m.source
      → Remapped allocate_page early source map left
          (entries_of pools)
          phys_allocator_metadata_start
          m
          (remap_to allocate_page early map pools m)
        ⊎ Panics early map.pml4 m.mem phys_allocator_metadata_start
            (end_from (entries_of pools) phys_allocator_metadata_start)
            (remap_to allocate_page early map pools m)
  unfolding remap_to
  remap_to-Remapped pools m level left bitmaps fits ready root enough =
      remap_from_lem pools m level phys_allocator_metadata_start left bitmaps (omega arith)
        (omega arith) fits ready root enough
