-- ===== src/Vm/Map/Ends.antt =====
-- `Map::add` of a contiguous region ends: every page is mapped, or a large page is in the way.
use kush_os_rewrite.Base.{ℕ, zero, suc, ◌+◌, ◌*◌, ◌/◌, ◌%◌, ◌^◌, ◌≤◌, ◌<◌, Bool, arith, u64}
use kush_os_rewrite.Base.{
  ◌≡◌, ◌≢◌, refl, sym, ◌⊎◌, inl, inr, ==_of_ne, some, Outcome, done, panic, ◌>>=◌, ap, ◌∙◌,
}
use mathlib.Core.Path.{subst}
use kush_os_rewrite.Platform.PageTable.{Machine, Memory, get_phys_addr}
use kush_os_rewrite.Platform.PageTable.Tree.{Levels, PageSource}
use kush_os_rewrite.Platform.PageTable.Ranges.{
  IsCanonicalRange, in_range, pages_apart, next_range, range_top,
}
use kush_os_rewrite.Platform.PageTable.Ensure.{IsReady}
use kush_os_rewrite.Platform.PageTable.Frame.{page_of}
use kush_os_rewrite.Platform.PageTable.Map.{Translates, Maps, Blocked, IsLargePage, map_page-Maps}
use kush_os_rewrite.Vm.RefCount.{retain}
use kush_os_rewrite.Vm.Map.{Entry, Map, success, map_or_panic, added_from, added_to, add}

-- `entry->retain()`
abbrev pub retained : Entry → Entry
retained entry = record entry { ref_count = retain entry.ref_count }

-- The run panics, and in the memory that it started with, a large page is in the way of an address
-- from `low` to before `high`.
pub record Panics (early : Bool) (pml4 : ℕ) {A : Type 0} (mem : Memory) (low high : ℕ)
    (run : Outcome A) : Type 0 where
  pub virt : ℕ
  pub from_low : low ≤ virt
  pub to_high : virt < high
  pub hits : IsLargePage early pml4 mem virt
  pub ends : run ≡ panic

module _ {S : Type 0} (allocate_page : S → Outcome (S × ℕ × ℕ)) (early : Bool)
    (source : PageSource early allocate_page) (pml4 : ℕ) where
  -- What a run over the n pages from an offset on leaves. An offset of a page is passed with its
  -- equation.
  pub record Grown (m : Machine S) (entry : Entry) (base n off left : ℕ) (run : Outcome (Machine S))
      : Type 0 where
    pub m' : Machine S
    pub level' : Levels
    pub ends : run ≡ done m'
    pub ready : IsReady allocate_page early source level' m'
    pub root : level' pml4 ≡ 4
    pub room : left ≤ source.room m'.source
    pub pages :
        (k x : ℕ)
        → k < n
        → x ≡ off + k * 4096
        → Translates early pml4 m'.mem
            (u64 (entry.phys_base + x))
            (u64 (base + x))
            entry.access_mode
    pub frame :
        (a : ℕ)
        → ((k x : ℕ) → k < n → x ≡ off + k * 4096 → page_of a ≢ page_of (u64 (base + x)))
        → get_phys_addr early pml4 m'.mem a ≡ get_phys_addr early pml4 m.mem a

  -- The run over those pages panics: a large page was in the way of one of them from the start.
  record Stopped (m : Machine S) (base n off : ℕ) (run : Outcome (Machine S)) : Type 0 where
    page : ℕ
    at : ℕ
    inside : page < n
    at_lem : at ≡ off + page * 4096
    hits : IsLargePage early pml4 m.mem (u64 (base + at))
    ends : run ≡ panic

  -- One page more, before those of the rest.
  carry :
      {run rest : Outcome (Machine S)} (n off left : ℕ) (entry : Entry) (base : ℕ) (level : Levels)
      (m : Machine S)
      → IsCanonicalRange base (off + suc n * 4096)
      → (s : Maps allocate_page early source level m pml4
          (u64 (entry.phys_base + off))
          (u64 (base + off))
          entry.access_mode)
      → run ≡ rest
      → Grown s.m' entry base n (off + 4096) left rest ⊎ Stopped s.m' base n (off + 4096) rest
      → Grown m entry base (suc n) off left run ⊎ Stopped m base (suc n) off run
  unfolding IsLargePage
  carry n off left entry base level m range s e (inl g) = inl (record {
    m' = g.m';
    level' = g.level';
    ends = e ∙ g.ends;
    ready = g.ready;
    root = g.root;
    room = g.room;
    pages = pages;
    frame = λ a avoid.
        g.frame a (λ k x h q. avoid (suc k) x (omega arith) (omega arith))
        ∙ s.frame a (avoid 0 off (omega arith) (omega arith));
  })
    where
      pages :
          (k x : ℕ)
          → k < suc n
          → x ≡ off + k * 4096
          → Translates early pml4 g.m'.mem
              (u64 (entry.phys_base + x))
              (u64 (base + x))
              entry.access_mode
      pages zero x h q =
          let first : Translates early pml4 g.m'.mem (u64 (entry.phys_base + off))
              (u64 (base + off)) entry.access_mode =
            λ a fits same.
              g.frame a (λ k x' h' q'. pages_apart base off n k x' a range h' q' same)
              ∙ s.lookup a fits same in
          subst
            (λ (y : ℕ).
              Translates early pml4 g.m'.mem (u64 (entry.phys_base + y)) (u64 (base + y))
                entry.access_mode)
            (omega arith) first
      pages (suc k) x h q = g.pages k x (omega arith) (omega arith)
  carry n off left entry base level m range s e (inr p) = inr (record {
    page = suc p.page;
    at = p.at;
    inside = omega (arith, p.inside);
    at_lem = omega (arith, p.at_lem);
    hits = (p.hits.0, sym (s.frame (u64 (base + p.at)) away) ∙ p.hits.1);
    ends = e ∙ p.ends;
  })
    where
      away : page_of (u64 (base + p.at)) ≢ page_of (u64 (base + off))
      away q =
          pages_apart base off n p.page p.at (u64 (base + off)) range p.inside p.at_lem refl (sym q)

  map_or_panic-mapped :
      (level : Levels) (m : Machine S) (phys virt mode : ℕ)
      → (s : Maps allocate_page early source level m pml4 phys virt mode)
      → map_or_panic allocate_page early pml4 m phys virt mode ≡ done s.m'
  unfolding map_or_panic
  map_or_panic-mapped level m phys virt mode s = rw s.run

  map_or_panic-blocked :
      (level : Levels) (m : Machine S) (phys virt mode : ℕ)
      → Blocked allocate_page early source level m pml4 phys virt mode
      → map_or_panic allocate_page early pml4 m phys virt mode ≡ panic
  unfolding map_or_panic
  map_or_panic-blocked level m phys virt mode b = elim b.why [
    | inl w ↦ rw (b.run, w.0)
    | inr w ↦ rw (b.run, w.0)
  ]

  module _ (entry : Entry) (base : ℕ) where
    added_from-ends :
        (n off left : ℕ) (level : Levels) (m : Machine S)
        → IsCanonicalRange base (off + n * 4096)
        → IsReady allocate_page early source level m
        → level pml4 ≡ 4
        → n * 3 + left ≤ source.room m.source
        → Grown m entry base n off left (added_from allocate_page early pml4 entry base n off m)
          ⊎ Stopped m base n off (added_from allocate_page early pml4 entry base n off m)
    unfolding added_from
    added_from-ends zero off left level m range ready root enough = inl (record {
      m' = m;
      level' = level;
      ends = refl;
      ready = ready;
      root = root;
      room = omega (arith, enough);
      pages = λ k x h q. absurd (omega arith);
      frame = λ a avoid. refl;
    })
    added_from-ends (suc n) off left level m range ready root enough =
        let phys : ℕ = u64 (entry.phys_base + off) in
        let virt : ℕ = u64 (base + off) in
        let mode : ℕ = entry.access_mode in
        elim (map_page-Maps allocate_page early source level m pml4 phys virt mode
          (in_range base (off + suc n * 4096) off range (omega arith)) ready root
          (omega (arith, enough))) [
            | inl s ↦
                carry n off left entry base level m range s
                  (ap
                    (λ (o : Outcome (Machine S)).
                      o >>= λ m'. added_from allocate_page early pml4 entry base n (off + 4096) m')
                    (map_or_panic-mapped level m phys virt mode s))
                  (added_from-ends n (off + 4096) left s.level' s.m' (next_range base off n range)
                    s.ready s.root (omega (arith, enough, s.room)))
            | inr b ↦ inr (record {
              page = 0;
              at = off;
              inside = omega arith;
              at_lem = omega arith;
              hits = b.hits;
              ends =
                  ap
                    (λ (o : Outcome (Machine S)).
                      o >>= λ m'. added_from allocate_page early pml4 entry base n (off + 4096) m')
                    (map_or_panic-blocked level m phys virt mode b);
            })
          ]

  add_lem :
      (entry : Entry) (map : Map) (m : Machine S) (base : ℕ)
      → 0 < base
      → entry.length % 4096 ≡ 0
      → map.pml4 ≡ pml4
      → add allocate_page early map m base (some entry) ≡ (
          added_from allocate_page early pml4 (retained entry) base (entry.length / 4096) 0 m
          >>= λ m'. done (m', some (retained entry), success))
  unfolding add added_to
  add_lem entry map m base positive whole is_map =
      rw (==_of_ne base 0 (λ e. absurd (omega (arith, positive, e))), is_map, pages)
    where
      pages : (entry.length + 4095) / 4096 ≡ entry.length / 4096
      pages = omega (arith, whole)

  -- How `add` of an entry ends.
  pub record Added (left : ℕ) (entry : Entry) (base : ℕ) (map : Map) (m : Machine S) : Type 0 where
    pub m' : Machine S
    pub level' : Levels
    pub ends :
        add allocate_page early map m base (some entry) ≡ done (m', some (retained entry), success)
    pub ready : IsReady allocate_page early source level' m'
    pub root : level' pml4 ≡ 4
    pub room : left ≤ source.room m'.source
    pub pages :
        (k x : ℕ)
        → k < entry.length / 4096
        → x ≡ k * 4096
        → Translates early pml4 m'.mem
            (u64 (entry.phys_base + x))
            (u64 (base + x))
            entry.access_mode
    pub frame :
        (a : ℕ)
        → ((k x : ℕ)
            → k < entry.length / 4096
            → x ≡ k * 4096
            → page_of a ≢ page_of (u64 (base + x)))
        → get_phys_addr early pml4 m'.mem a ≡ get_phys_addr early pml4 m.mem a

  -- `Map::add` at a base that is not 0, of an entry whose length is a number of pages and whose range
  -- is in one half of the canonical addresses, into a map whose tables are a tree with three pages
  -- to spare for each page of the entry and `left` more: it returns 0, retains the entry, the tables stay a tree, and `left` pages are still there;
  -- or it panics, and then a large page was in the way of an address of the range from the start.
  pub add-ends :
      (entry : Entry) (map : Map) (m : Machine S) (level : Levels) (base left : ℕ)
      → map.pml4 ≡ pml4
      → 0 < base
      → entry.length % 4096 ≡ 0
      → IsCanonicalRange base entry.length
      → IsReady allocate_page early source level m
      → level pml4 ≡ 4
      → entry.length / 4096 * 3 + left ≤ source.room m.source
      → Added left entry base map m
        ⊎ Panics early pml4 m.mem base
            (base + entry.length)
            (add allocate_page early map m base (some entry))
  add-ends entry map m level base left is_map positive whole range ready root enough =
      elim (added_from-ends (retained entry) base (entry.length / 4096) 0 left level m
        (whole_range range) ready root enough) [
          | inl g ↦ inl (record {
            m' = g.m';
            level' = g.level';
            ends =
                add_lem entry map m base positive whole is_map
                ∙ ap
                    (λ (o : Outcome (Machine S)).
                      o >>= λ m'. done (m', some (retained entry), success))
                    g.ends;
            ready = g.ready;
            root = g.root;
            room = g.room;
            pages = λ k x h q. g.pages k x h (omega arith);
            frame = λ a avoid. g.frame a (λ k x h q. avoid k x h (omega arith));
          })
          | inr p ↦ inr (record {
            virt = u64 (base + p.at);
            from_low = omega (arith, inside p, top);
            to_high = omega (arith, inside p, top);
            hits = p.hits;
            ends =
                add_lem entry map m base positive whole is_map
                ∙ ap
                    (λ (o : Outcome (Machine S)).
                      o >>= λ m'. done (m', some (retained entry), success))
                    p.ends;
          })
        ]
    where
      exact : 0 + entry.length / 4096 * 4096 ≡ entry.length
      exact = omega (arith, whole)

      whole_range :
          IsCanonicalRange base entry.length
          → IsCanonicalRange base (0 + entry.length / 4096 * 4096)
      whole_range r = rw exact r

      top : base + entry.length ≤ 2 ^ 64
      top = range_top base entry.length range

      inside :
          {run : Outcome (Machine S)} (p : Stopped m base (entry.length / 4096) 0 run)
          → p.at < entry.length
      inside p = omega (arith, p.inside, p.at_lem, whole)
