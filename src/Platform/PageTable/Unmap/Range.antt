-- ===== src/Platform/PageTable/Unmap/Range.antt =====
-- `unmap` of a range of pages: they are gone, and nothing else is.
use kush_os_rewrite.Base.{
  ℕ, zero, suc, ◌+◌, ◌-◌, ◌*◌, ◌/◌, ◌%◌, ◌^◌, ◌≤◌, ◌<◌, Bool, true, false, ◌&&◌, arith, u64, ltb,
  leb, if◌then◌else◌, Bool-cases, inl, inr, ◌⊎◌, ==_of_ne, ==_of_eq, leb→lt, leb→le, ltb→lt, ltb→le,
}
use kush_os_rewrite.Base.{
  ◌≡◌, ◌≢◌, refl, ap, sym, ◌∙◌, Outcome, done, ◌>>=◌, done-injective, none, some,
}
use mathlib.Core.Path.{subst}
use kush_os_rewrite.Platform.PageTable.{
  Memory, slot, write_slot, table_addr, index, Lookup, found, get_phys_addr, not_canonical,
  unmap_page, unmapped, UnmapStatus, unmap_from, unmap, range_unmapped, large_kept, bad_address,
}
use kush_os_rewrite.Platform.PageTable.Tree.{Levels, IsTree, index-lt}
use kush_os_rewrite.Platform.PageTable.Walk.{Path4, not_there}
use kush_os_rewrite.Platform.PageTable.Look.{look, get_phys_addr-look}
use kush_os_rewrite.Platform.PageTable.Frame.{page_of, same_indices, get_phys_addr-written}
use kush_os_rewrite.Platform.PageTable.Leaf.{leaf-IsTree}
use kush_os_rewrite.Platform.PageTable.Way.{
  Path4-same, tables_of, level_1, path-Way, entry_4, entry_3, entry_2, found-Path4,
}
use kush_os_rewrite.Platform.PageTable.Ranges.{
  IsCanonicalRange, in_range, pages_apart, next_range, range_top, page_outside, page_start,
}
use kush_os_rewrite.Platform.PageTable.Unmap.{removes, gone}

-- `getPhysAddr` finds a page at an address.
abbrev pub IsMapped : Bool → ℕ → Memory → ℕ → Type 0
IsMapped early pml4 mem a =
    (l : Lookup) × (get_phys_addr early pml4 mem a ≡ done l) × (l.status ≡ found)

module _ (early : Bool) (level : Levels) (pml4 : ℕ) (root : level pml4 ≡ 4) where
  -- What `unmapPage` does to a page that is mapped.
  record Gone (mem : Memory) (virt : ℕ) : Type 0 where
    mem' : Memory
    ends : unmap_page early pml4 mem virt true ≡ done (mem', unmapped)
    tree : IsTree early level mem'
    pages :
        (a : ℕ)
        → not_canonical a ≡ false
        → page_of a ≡ page_of virt
        → get_phys_addr early pml4 mem' a ≡ done not_there
    frame :
        (a : ℕ)
        → page_of a ≢ page_of virt
        → get_phys_addr early pml4 mem' a ≡ get_phys_addr early pml4 mem a

  unmap_page-Gone :
      (mem : Memory) (virt : ℕ)
      → IsTree early level mem
      → not_canonical virt ≡ false
      → IsMapped early pml4 mem virt
      → Gone mem virt
  unmap_page-Gone mem virt tree canonical (l, answer, is_found) =
      let e4 : ℕ = entry_4 early level mem tree virt pml4 root in
      let e3 : ℕ = entry_3 early level mem tree virt pml4 root in
      let e2 : ℕ = entry_2 early level mem tree virt pml4 root in
      let look_found : (look 3 mem virt pml4).status ≡ found =
        ap (λ (x : Lookup). x.status)
          (done-injective
            (sym (get_phys_addr-look early level mem tree virt pml4 root canonical) ∙ answer))
        ∙ is_found in
      let path : Path4 early mem virt pml4 e4 e3 e2 =
        found-Path4 early level mem tree virt pml4 root look_found in
      record {
        mem' = write_slot mem (slot (table_addr e2) (index 12 virt)) 0;
        ends = removes early level mem virt pml4 e4 e3 e2 canonical tree root path true;
        tree =
            leaf-IsTree early level mem tree (table_addr e2) (index 12 virt) 0
              (level_1 early level mem tree virt pml4 root e4 e3 e2 path) (index-lt 12 virt);
        pages = λ a fits same.
            subst
              (λ (i : ℕ).
                get_phys_addr early pml4 (write_slot mem (slot (table_addr e2) i) 0) a
                ≡ done not_there)
              (same_indices a virt same).3
              (gone early level mem a pml4 e4 e3 e2 fits tree root
                (Path4-same early mem a virt pml4 e4 e3 e2 same path));
        frame = λ a ne.
            get_phys_addr-written early level mem tree virt
              (tables_of early level mem tree virt pml4 root e4 e3 e2)
              (path-Way early level mem tree virt pml4 root e4 e3 e2 path) 0 a ne;
      }

  -- What `unmap` does to the n pages from an offset on. An offset of a page is passed with its
  -- equation.
  record Cleared (mem : Memory) (base n off : ℕ) : Type 0 where
    mem' : Memory
    ends : unmap_from early pml4 n mem (u64 (base + off)) ≡ done (mem', none)
    tree : IsTree early level mem'
    pages :
        (k x : ℕ)
        → k < n
        → x ≡ off + k * 4096
        → (a : ℕ) → not_canonical a ≡ false
        → page_of a ≡ page_of (u64 (base + x))
        → get_phys_addr early pml4 mem' a ≡ done not_there
    frame :
        (a : ℕ)
        → ((k x : ℕ) → k < n → x ≡ off + k * 4096 → page_of a ≢ page_of (u64 (base + x)))
        → get_phys_addr early pml4 mem' a ≡ get_phys_addr early pml4 mem a

  AreMapped : Memory → ℕ → ℕ → ℕ → Type 0
  AreMapped mem base n off =
      (k x : ℕ) → k < n → x ≡ off + k * 4096 → IsMapped early pml4 mem (u64 (base + x))

  -- One page more, before those of the rest.
  one_more :
      (mem : Memory) (base n off : ℕ)
      → IsCanonicalRange base (off + suc n * 4096)
      → (first : Gone mem (u64 (base + off))) → Cleared first.mem' base n (off + 4096)
      → Cleared mem base (suc n) off
  unfolding unmap_from
  one_more mem base n off range first rest = record {
    mem' = rest.mem';
    ends =
        ap
          (λ (o : Outcome (Memory × UnmapStatus)). o >>= λ s. elim s.1 [
            | large_kept ↦ done (s.0, some large_kept)
            | bad_address ↦ done (s.0, some bad_address)
            | _ ↦ unmap_from early pml4 n s.0 (u64 (u64 (base + off) + 4096))
          ])
          first.ends
        ∙ ap (λ (v : ℕ). unmap_from early pml4 n first.mem' v) next
        ∙ rest.ends;
    tree = rest.tree;
    pages = pages;
    frame = λ a avoid.
        rest.frame a (λ k x h q. avoid (suc k) x (omega arith) (omega arith))
        ∙ first.frame a (avoid 0 off (omega arith) (omega arith));
  }
    where
      next : u64 (u64 (base + off) + 4096) ≡ u64 (base + (off + 4096))
      next = omega arith

      pages :
          (k x : ℕ)
          → k < suc n
          → x ≡ off + k * 4096
          → (a : ℕ) → not_canonical a ≡ false
          → page_of a ≡ page_of (u64 (base + x))
          → get_phys_addr early pml4 rest.mem' a ≡ done not_there
      pages zero x h q a fits same =
          let here : page_of a ≡ page_of (u64 (base + off)) =
            subst (λ (y : ℕ). page_of a ≡ page_of (u64 (base + y))) {x = x} (omega arith) same in
          rest.frame a (λ k x' h' q'. pages_apart base off n k x' a range h' q' here)
          ∙ first.pages a fits here
      pages (suc k) x h q a fits same = rest.pages k x (omega arith) (omega arith) a fits same

  unmap_from-Cleared :
      (n off : ℕ) (mem : Memory) (base : ℕ)
      → IsCanonicalRange base (off + n * 4096)
      → IsTree early level mem
      → AreMapped mem base n off
      → Cleared mem base n off
  unfolding unmap_from AreMapped
  unmap_from-Cleared zero off mem base range tree mapped = record {
    mem' = mem;
    ends = refl;
    tree = tree;
    pages = λ k x h q. absurd (omega arith);
    frame = λ a avoid. refl;
  }
  unmap_from-Cleared (suc n) off mem base range tree mapped =
      let first : Gone mem (u64 (base + off)) =
        unmap_page-Gone mem (u64 (base + off)) tree
          (in_range base (off + suc n * 4096) off range (omega arith))
          (mapped 0 off (omega arith) (omega arith)) in
      one_more mem base n off range first (
        unmap_from-Cleared n (off + 4096) first.mem' base (next_range base off n range) first.tree
          (λ k x h q.
            let (l, answer, is_found) = mapped (suc k) x (omega arith) (omega arith) in
            (
              l,
              first.frame (u64 (base + x))
                    (λ e. pages_apart base off n k x (u64 (base + x)) range h q e refl)
                  ∙ answer,
              is_found,
            )))

-- The space without a range.
unfoldable pub without : (ℕ → Outcome Lookup) → ℕ → ℕ → ℕ → Outcome Lookup
without space base len a = if leb base a && ltb a (base + len) then done not_there else space a

-- `unmap` has removed the range from the address space.
pub record Removed (early : Bool) (level : Levels) (pml4 : ℕ) (mem : Memory) (base len : ℕ)
    : Type 0 where
  pub mem' : Memory
  pub ends : unmap early pml4 mem base len ≡ done (mem', range_unmapped)
  pub tree : IsTree early level mem'
  pub space :
      (a : ℕ)
      → a < 2 ^ 64
      → not_canonical a ≡ false
      → get_phys_addr early pml4 mem' a ≡ without (get_phys_addr early pml4 mem) base len a

module _ (early : Bool) (level : Levels) (pml4 : ℕ) (root : level pml4 ≡ 4) (mem : Memory)
    (base len : ℕ) (aligned : base % 4096 ≡ 0) (whole : len % 4096 ≡ 0)
    (range : IsCanonicalRange base len)
    (c : Cleared early level pml4 root mem base (len / 4096) 0) where
  cleared_space :
      (a : ℕ)
      → a < 2 ^ 64
      → not_canonical a ≡ false
      → get_phys_addr early pml4 c.mem' a ≡ without (get_phys_addr early pml4 mem) base len a
  unfolding without
  cleared_space a small canonical = elim (Bool-cases (leb base a)) [
    | inr below ↦ rw below (outside (inl (leb→lt base a below)))
    | inl above ↦ elim (Bool-cases (ltb a (base + len))) [
      | inl inner ↦
          rw (above, inner)
            (c.pages ((a - base) / 4096) ((a - base) / 4096 * 4096)
              (omega (arith, leb→le base a above, ltb→lt a (base + len) inner)) (omega arith) a
              canonical (page_start base a aligned (leb→le base a above) small))
      | inr behind ↦ rw (above, behind) (outside (inr (ltb→le a (base + len) behind)))
    ]
  ]
    where
      outside :
          (a < base) ⊎ (base + len ≤ a)
          → get_phys_addr early pml4 c.mem' a ≡ get_phys_addr early pml4 mem a
      outside away = c.frame a (λ k x h q.
          page_outside base len a k x aligned whole range small canonical away h (omega arith))

  cleared_ends : 0 < base → 0 < len → unmap early pml4 mem base len ≡ done (c.mem', range_unmapped)
  unfolding unmap
  cleared_ends positive some_page =
      let start : u64 (base + 0) ≡ base = omega (arith, range_top base len range) in
      rw (
        ==_of_ne base 0 (omega arith),
        ==_of_ne len 0 (omega arith),
        ==_of_eq (base % 4096) 0 aligned,
        ==_of_eq (len % 4096) 0 whole,
        sym (ap (λ (v : ℕ). unmap_from early pml4 (len / 4096) mem v) start) ∙ c.ends,
      )

-- `unmap` of a range of at least one page, at a base that is not 0, base and length multiples of the
-- page size, in one half of the canonical addresses, in tables that are a tree, when `getPhysAddr`
-- finds a page at the start of each page of the range: it returns 0, the tables stay a tree, and of
-- the canonical addresses those of the range have no page, and all others are mapped as before.
pub unmap-Removed :
    (early : Bool) (level : Levels) (pml4 : ℕ) (mem : Memory) (base len : ℕ)
    → level pml4 ≡ 4
    → IsTree early level mem
    → 0 < base
    → 0 < len
    → base % 4096 ≡ 0
    → len % 4096 ≡ 0
    → IsCanonicalRange base len
    → ((k : ℕ) → k < len / 4096 → IsMapped early pml4 mem (base + k * 4096))
    → Removed early level pml4 mem base len
unfolding AreMapped
unmap-Removed early level pml4 mem base len root tree positive some_page aligned whole range
      mapped =
    let top : base + len ≤ 2 ^ 64 = range_top base len range in
    let c : Cleared early level pml4 root mem base (len / 4096) 0 =
      unmap_from-Cleared early level pml4 root (len / 4096) 0 mem base
        (subst (IsCanonicalRange base) (omega arith) range) tree
        (λ k x h q.
          subst (IsMapped early pml4 mem) {x = base + k * 4096} (omega arith) (mapped k h)) in
    record {
      mem' = c.mem';
      ends =
          cleared_ends early level pml4 root mem base len aligned whole range c positive some_page;
      tree = c.tree;
      space = cleared_space early level pml4 root mem base len aligned whole range c;
    }
