-- ===== src/Boot/Remap/Placed.antt =====
-- The bitmaps of one pool are mapped.
use kush_os_rewrite.Base.{
  ℕ, ◌+◌, ◌%◌, ◌^◌, ◌≤◌, ◌<◌, Bool, arith, List, [], ◌∷◌, u64, lt→ltb, ==_of_ne,
}
use kush_os_rewrite.Base.{◌≡◌, refl, ap, ◌∙◌, ◌⊎◌, inl, inr, some, Outcome, done, panic, ◌>>=◌}
use kush_os_rewrite.Platform.Layout.{phys_allocator_metadata_start, phys_allocator_metadata_end}
use kush_os_rewrite.Platform.PageTable.{Machine, page_size, get_phys_addr}
use kush_os_rewrite.Platform.PageTable.Tree.{Levels, PageSource}
use kush_os_rewrite.Platform.PageTable.Ensure.{IsReady}
use kush_os_rewrite.Platform.PageTable.Ranges.{IsCanonicalRange}
use kush_os_rewrite.Vm.Map.{Map, Entry, add}
use kush_os_rewrite.Vm.Map.Ends.{Panics, Added, add-ends}
use kush_os_rewrite.Vm.Map.Pages
use kush_os_rewrite.Vm.Map.Pages.{with_entry, with_entry-outside}
use kush_os_rewrite.Vm.Map.Stopped.{Panics-in, Panics-before}
use kush_os_rewrite.Boot.Remap.{apply_region, apply_pool}
use kush_os_rewrite.Boot.Remap.Bitmaps.{
  bases_from, end_from, with_bitmaps, tables_for, AreBitmaps, with_bitmaps-same, le-end_from,
}

module _ {S : Type 0} (allocate_page : S → Outcome (S × ℕ × ℕ)) (early : Bool)
    (source : PageSource early allocate_page) (map : Map) where
  -- A run has put the bitmaps into the address space of the machine, from an address on.
  pub record Remapped (left : ℕ) (vms : List Entry) (start : ℕ) (m : Machine S)
      (run : Outcome (Machine S × List ℕ × ℕ)) : Type 0 where
    pub m' : Machine S
    pub level' : Levels
    pub ends : run ≡ done (m', bases_from vms start, end_from vms start)
    pub ready : IsReady allocate_page early source level' m'
    pub root : level' map.pml4 ≡ 4
    pub room : left ≤ source.room m'.source
    pub space :
        (a : ℕ)
        → a < 2 ^ 64
        → get_phys_addr early map.pml4 m'.mem a
          ≡ with_bitmaps (get_phys_addr early map.pml4 m.mem) vms start a

  apply_region-Added :
      (left : ℕ) (vm : Entry) (m : Machine S) (base : ℕ)
      (g : Added allocate_page early source map.pml4 left vm base map m)
      → apply_region allocate_page early map vm m base ≡ done (g.m', base, vm.length)
  unfolding apply_region
  apply_region-Added left vm m base g = rw g.ends refl

  apply_pool_panics :
      (vm : Entry) (vms : List Entry) (m : Machine S) (start : ℕ)
      → add allocate_page early map m start (some vm) ≡ panic
      → apply_pool allocate_page early map (vm ∷ vms) m start ≡ panic
  unfolding apply_pool apply_region
  apply_pool_panics vm vms m start e = rw e refl

  -- One bitmap, and the ones behind it.
  apply_pool_run :
      (left : ℕ) (vm : Entry) (vms : List Entry) (m : Machine S) (start next : ℕ)
      (g : Added allocate_page early source map.pml4 left vm start map m)
      → 0 < vm.length
      → u64 (start + u64 (vm.length + page_size)) ≡ next
      → next < phys_allocator_metadata_end
      → apply_pool allocate_page early map (vm ∷ vms) m start
        ≡ (apply_pool allocate_page early map vms g.m' next >>= λ q. done (q.0, start ∷ q.1, q.2))
  unfolding apply_pool
  apply_pool_run left vm vms m start next g positive step small =
      rw
        (
          apply_region-Added left vm m start g,
          ==_of_ne vm.length 0 (λ e. absurd (omega (arith, e, positive))),
          step,
          lt→ltb next phys_allocator_metadata_end small,
        )
        refl

  joined :
      (left : ℕ) (vm : Entry) (vms : List Entry) (m : Machine S) (start more : ℕ)
      (g : Added allocate_page early source map.pml4 more vm start map m)
      → start % 4096 ≡ 0
      → vm.phys_base % 4096 ≡ 0
      → vm.phys_base + vm.length ≤ 2 ^ 52
      → vm.length % 4096 ≡ 0
      → IsCanonicalRange start vm.length
      → apply_pool allocate_page early map (vm ∷ vms) m start ≡ (
          apply_pool allocate_page early map vms g.m' (start + vm.length + page_size) >>= λ q.
          done (q.0, start ∷ q.1, q.2))
      → Remapped left vms
          (start + vm.length + page_size)
          g.m'
          (apply_pool allocate_page early map vms g.m' (start + vm.length + page_size))
      → Remapped left (vm ∷ vms) start m (apply_pool allocate_page early map (vm ∷ vms) m start)
  unfolding bases_from end_from with_bitmaps
  joined left vm vms m start more g aligned phys_aligned fits whole range run r = record {
    m' = r.m';
    level' = r.level';
    ends =
        run
        ∙ ap (λ (o : Outcome (Machine S × List ℕ × ℕ)). o >>= λ q. done (q.0, start ∷ q.1, q.2))
            r.ends;
    ready = r.ready;
    root = r.root;
    room = r.room;
    space = λ a small.
        r.space a small
        ∙ with_bitmaps-same vms (get_phys_addr early map.pml4 g.m'.mem)
            (with_entry (get_phys_addr early map.pml4 m.mem) vm start)
            (start + vm.length + page_size) a
            (Pages.space allocate_page early source map.pml4 vm map m start more aligned
              phys_aligned fits whole range g a small);
  }

  pub nothing :
      (m : Machine S) (level : Levels) (start left : ℕ)
      → IsReady allocate_page early source level m
      → level map.pml4 ≡ 4
      → left ≤ source.room m.source
      → Remapped left [] start m (done (m, [], start))
  unfolding bases_from end_from with_bitmaps
  nothing m level start left ready root enough = record {
    m' = m;
    level' = level;
    ends = refl;
    ready = ready;
    root = root;
    room = enough;
    space = λ a h. refl;
  }

  pub apply_pool_lem :
      (vms : List Entry) (m : Machine S) (level : Levels) (start left : ℕ)
      → AreBitmaps vms
      → phys_allocator_metadata_start ≤ start
      → start % 4096 ≡ 0
      → end_from vms start < phys_allocator_metadata_end
      → IsReady allocate_page early source level m
      → level map.pml4 ≡ 4
      → tables_for vms + left ≤ source.room m.source
      → Remapped left vms start m (apply_pool allocate_page early map vms m start)
        ⊎ Panics early map.pml4 m.mem start
            (end_from vms start)
            (apply_pool allocate_page early map vms m start)
  unfolding apply_pool AreBitmaps end_from bases_from with_bitmaps tables_for
  apply_pool_lem [] m level start left bitmaps low aligned fits ready root enough =
      inl (nothing m level start left ready root (omega (arith, enough)))
  apply_pool_lem (vm ∷ vms) m level start left bitmaps low aligned fits ready root enough =
      let (positive, whole, phys_aligned, phys_fits, others) = bitmaps in
      let next : ℕ = start + vm.length + page_size in
      let below = le-end_from vms next in
      let range : IsCanonicalRange start vm.length =
        inr (omega (arith, low), omega (arith, below, fits)) in
      elim (add-ends allocate_page early source map.pml4 vm map m level start
        (tables_for vms + left) refl (omega (arith, low)) whole range ready root
        (omega (arith, enough))) [
          | inr p ↦ inr (
              Panics-in start (start + vm.length) (end_from vms next) (omega (arith, below))
                (apply_pool_panics vm vms m start) p)
          | inl g ↦
              let run =
                apply_pool_run (tables_for vms + left) vm vms m start next g positive
                  (omega (arith, low, below, fits)) (omega (arith, below, fits)) in
              elim (apply_pool_lem vms g.m' g.level' next left others (omega (arith, low))
                (omega (arith, aligned, whole)) fits g.ready g.root g.room) [
                  | inl r ↦ inl (
                      joined left vm vms m start (tables_for vms + left) g aligned phys_aligned
                        phys_fits whole range run r)
                  | inr p ↦ inr (
                      Panics-before start next (end_from vms next) (end_from vms next)
                        (λ a above small.
                          Pages.space allocate_page early source map.pml4 vm map m start
                            (tables_for vms + left) aligned phys_aligned phys_fits whole range g a
                            small
                          ∙ with_entry-outside (get_phys_addr early map.pml4 m.mem) vm start a
                              (inr (omega (arith, above))))
                        (omega arith) (omega arith) (omega (arith, fits)) (λ e. rw (run, e) refl) p)
                ]
        ]
