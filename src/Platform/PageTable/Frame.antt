-- ===== src/Platform/PageTable/Frame.antt =====
-- What the writes of `mapPage` and `unmapPage` leave alone: a new table changes no look-up, and an
-- entry of the last level only those of its page.
use kush_os_rewrite.Base.{
  ℕ, zero, suc, ◌/◌, ◌%◌, ◌^◌, ◌≤◌, ◌<◌, Bool, true, false, ◌&&◌, arith, bit_and,
}
use kush_os_rewrite.Base.{
  ◌≡◌, ◌≢◌, ap, sym, ◌∙◌, ◌⊎◌, inl, inr, ◌==◌, Bool-cases, eq_of_==, ==_of_ne, ne_of_==,
}
use kush_os_rewrite.Platform.PageTable.{
  present, large, table_addr, index, Memory, slot, write_slot, get_phys_addr,
}
use kush_os_rewrite.Platform.PageTable.Tree.{Levels, IsTree, slot-injective}
use kush_os_rewrite.Platform.PageTable.Level.{and_fst, and_snd, and_no}
use mathlib.Core.Path.{subst}
use kush_os_rewrite.Base.Bits.{bit_and-low}
use kush_os_rewrite.Platform.PageTable.Leaf.{leaf-other, leaf-IsTree}
use kush_os_rewrite.Platform.PageTable.Look.{
  index_at, index_at-lt, is_large, leaf, branch, look, branch_ap, branch-absent, branch-leads,
  look-zero, leads_down, large_case, get_phys_addr-same,
}

module _ (early : Bool) (level : Levels) (mem : Memory) (tree : IsTree early level mem) where
  -- A table of zeros is put under an entry that was not present.
  pub record Grafts (mem' : Memory) (t i : ℕ) : Type 0 where
    pub upper : 1 < level t
    pub absent : present (mem (slot t i)) ≡ false
    pub here : present (mem' (slot t i)) ≡ true
    pub small : large (mem' (slot t i)) ≡ false
    pub zeros : (j : ℕ) → j < 512 → mem' (slot (table_addr (mem' (slot t i))) j) ≡ 0
    pub others :
        (q j : ℕ) → 0 < level q → j < 512 → (q ≢ t) ⊎ (j ≢ i) → mem' (slot q j) ≡ mem (slot q j)

  -- Look-ups go through equal entries to equal results.
  same_branch :
      (n : ℕ) (mem' : Memory) (virt q : ℕ)
      → level q ≡ suc (suc n)
      → mem' (slot q (index_at (suc n) virt)) ≡ mem (slot q (index_at (suc n) virt))
      → (present (mem (slot q (index_at (suc n) virt))) ≡ true
          → is_large n (mem (slot q (index_at (suc n) virt))) ≡ false
          → look n mem' virt (table_addr (mem (slot q (index_at (suc n) virt))))
            ≡ look n mem virt (table_addr (mem (slot q (index_at (suc n) virt)))))
      → look (suc n) mem' virt q ≡ look (suc n) mem virt q
  unfolding look
  same_branch n mem' virt q at_level e below =
      ap (λ (x : ℕ). branch n virt x (look n mem' virt (table_addr x))) e
      ∙ branch_ap n virt (mem (slot q (index_at (suc n) virt))) _ _ below

  module _ (mem' : Memory) (t i virt : ℕ) (grafts : Grafts mem' t i) where
    grafted_entry :
        (n q : ℕ)
        → level q ≡ suc (suc n)
        → q ≡ t
        → index_at (suc n) virt ≡ i
        → look (suc n) mem' virt q ≡ look (suc n) mem virt q
    unfolding look
    grafted_entry n q at_level e e' =
        let here : slot q (index_at (suc n) virt) ≡ slot t i = omega (arith, e, e') in
        ap (λ (a : ℕ). branch n virt (mem' a) (look n mem' virt (table_addr (mem' a)))) here
        ∙ branch-leads n virt (mem' (slot t i)) _ grafts.here grafts.small
        ∙ look-zero n mem' virt (table_addr (mem' (slot t i))) grafts.zeros
        ∙ sym (branch-absent n virt (mem (slot t i)) _ grafts.absent)
        ∙ ap (λ (a : ℕ). branch n virt (mem a) (look n mem virt (table_addr (mem a)))) (sym here)

    pub look-grafted : (n q : ℕ) → level q ≡ suc n → look n mem' virt q ≡ look n mem virt q
    unfolding look
    look-grafted zero q at_level = ap (leaf virt) (
        grafts.others q (index_at 0 virt) (omega arith) (index_at-lt 0 virt)
          (inl (λ e. absurd (omega (arith, ap level e, grafts.upper)))))
    look-grafted (suc n) q at_level = elim (Bool-cases ((q == t) && (index_at (suc n) virt == i))) [
      | inl same ↦
          grafted_entry n q at_level (and_fst q t (index_at (suc n) virt) i same)
            (and_snd q t (index_at (suc n) virt) i same)
      | inr differs ↦
          same_branch n mem' virt q at_level
            (grafts.others q (index_at (suc n) virt) (omega arith) (index_at-lt (suc n) virt)
              (and_no q t (index_at (suc n) virt) i differs))
            (λ p g. look-grafted n _ (leads_down early level mem tree virt n q at_level p g))
    ]

  -- The tables on the way of an address, by their levels.
  pub record Way (virt : ℕ) (at : ℕ → ℕ) : Type 0 where
    pub leaf : level (at 0) ≡ 1
    pub on :
        (n : ℕ)
        → n < 3
        → (level (at (suc n)) ≡ suc (suc n))
          × (present (mem (slot (at (suc n)) (index_at (suc n) virt))) ≡ true)
          × (is_large n (mem (slot (at (suc n)) (index_at (suc n) virt))) ≡ false)
          × (table_addr (mem (slot (at (suc n)) (index_at (suc n) virt))) ≡ at n)

  -- The other address is in another table of level n + 1, or leaves the way further down.
  abbrev pub Apart : (virt : ℕ) (at : ℕ → ℕ) (n other q : ℕ) → Type 0
  Apart virt at n other q = (q ≢ at n) ⊎ ((k : ℕ) × (k ≤ n) × (index_at k other ≢ index_at k virt))

  module _ (virt : ℕ) (at : ℕ → ℕ) (way : Way virt at) (other v : ℕ) where
    abbrev written : Memory
    written = write_slot mem (slot (at 0) (index_at 0 virt)) v

    -- No two entries lead to one table, so paths that have parted stay apart.
    parted :
        (n q : ℕ)
        → n < 3
        → level q ≡ suc (suc n)
        → present (mem (slot q (index_at (suc n) other))) ≡ true
        → is_large n (mem (slot q (index_at (suc n) other))) ≡ false
        → table_addr (mem (slot q (index_at (suc n) other))) ≡ at n
        → (q ≡ at (suc n)) × (index_at (suc n) other ≡ index_at (suc n) virt)
    parted n q few at_level p g e =
        let (up, here, goes, next) = way.on n few in
        let mine =
          tree.owned q (index_at (suc n) other) n at_level (index_at-lt (suc n) other) p
            (large_case n _ g) in
        let its =
          tree.owned (at (suc n)) (index_at (suc n) virt) n up (index_at-lt (suc n) virt) here
            (large_case n _ goes) in
        slot-injective q (index_at (suc n) other) (at (suc n)) (index_at (suc n) virt)
          (tree.aligned q (omega (arith, at_level))).0
          (tree.aligned (at (suc n)) (omega (arith, up))).0 (index_at-lt (suc n) other)
          (index_at-lt (suc n) virt) (sym mine ∙ ap tree.owner (e ∙ sym next) ∙ its)

    Apart-below :
        (n q : ℕ)
        → n < 3
        → level q ≡ suc (suc n)
        → Apart virt at (suc n) other q
        → present (mem (slot q (index_at (suc n) other))) ≡ true
        → is_large n (mem (slot q (index_at (suc n) other))) ≡ false
        → Apart virt at n other (table_addr (mem (slot q (index_at (suc n) other))))
    Apart-below n q few at_level (inl ne) p g = inl (λ e. ne (parted n q few at_level p g e).0)
    Apart-below n q few at_level (inr (k, le, ne)) p g = elim (Bool-cases (k == suc n)) [
      | inl now ↦ inl (λ e. ne (
          subst (λ x. index_at x other ≡ index_at x virt) (sym (eq_of_== k (suc n) now))
            (parted n q few at_level p g e).1))
      | inr later ↦ inr (k, ground arith, ne)
    ]

    leaf-Apart :
        (q : ℕ)
        → level q ≡ 1
        → Apart virt at 0 other q
        → slot q (index_at 0 other) ≢ slot (at 0) (index_at 0 virt)
    leaf-Apart q at_level apart e =
        let same =
          slot-injective q (index_at 0 other) (at 0) (index_at 0 virt)
            (tree.aligned q (omega (arith, at_level))).0
            (tree.aligned (at 0) (omega (arith, way.leaf))).0 (index_at-lt 0 other)
            (index_at-lt 0 virt) e in
        by_case same apart
      where
        by_case : (q ≡ at 0) × (index_at 0 other ≡ index_at 0 virt) → Apart virt at 0 other q → ⊥
        by_case same (inl ne) = ne same.0
        by_case same (inr (k, le, ne)) =
            let first : 0 ≡ k = omega arith in
            ne (subst (λ x. index_at x other ≡ index_at x virt) first same.1)

    pub look-Apart :
        (n q : ℕ)
        → n ≤ 3
        → level q ≡ suc n
        → Apart virt at n other q
        → look n written other q ≡ look n mem other q
    unfolding look
    look-Apart zero q few at_level apart =
        ap (leaf other) (rw (==_of_ne _ _ (leaf-Apart q at_level apart)))
    look-Apart (suc n) q few at_level apart =
        same_branch n written other q at_level
          (leaf-other early level mem tree (at 0) (index_at 0 virt) v way.leaf (index_at-lt 0 virt)
            q (index_at (suc n) other) (omega (arith, at_level)) (index_at-lt (suc n) other))
          (λ p g.
            look-Apart n _ (omega arith) (leads_down early level mem tree other n q at_level p g)
              (Apart-below n q (omega arith) at_level apart p g))

-- The page that the indices of an address choose.
abbrev pub page_of : ℕ → ℕ
page_of virt = virt % 2 ^ 48 / 4096

index_lem : (shift virt : ℕ) → index shift virt ≡ virt % 2 ^ 48 / 2 ^ shift % 512
unfolding index
index_lem shift virt =
    ap (λ (x : ℕ). bit_and (x / 2 ^ shift) 0x1ff) (bit_and-low 48 virt)
    ∙ bit_and-low 9 (virt % 2 ^ 48 / 2 ^ shift)

-- Addresses of different pages differ in an index.
other_index : (a b : ℕ) → page_of a ≢ page_of b → (k : ℕ) × (k ≤ 3) × (index_at k a ≢ index_at k b)
other_index a b ne = elim (Bool-cases (index_at 0 a == index_at 0 b)) [
  | inr d ↦ (0, omega arith, ne_of_== _ _ d)
  | inl e0 ↦ elim (Bool-cases (index_at 1 a == index_at 1 b)) [
    | inr d ↦ (1, omega arith, ne_of_== _ _ d)
    | inl e1 ↦ elim (Bool-cases (index_at 2 a == index_at 2 b)) [
      | inr d ↦ (2, omega arith, ne_of_== _ _ d)
      | inl e2 ↦ elim (Bool-cases (index_at 3 a == index_at 3 b)) [
        | inr d ↦ (3, omega arith, ne_of_== _ _ d)
        | inl e3 ↦
            absurd (
              ne
                (same_page (eq_of_== _ _ e0) (eq_of_== _ _ e1) (eq_of_== _ _ e2) (eq_of_== _ _ e3)))
      ]
    ]
  ]
]
  where
    same_page :
        index_at 0 a ≡ index_at 0 b
        → index_at 1 a ≡ index_at 1 b
        → index_at 2 a ≡ index_at 2 b
        → index_at 3 a ≡ index_at 3 b
        → page_of a ≡ page_of b
    same_page e0 e1 e2 e3 = omega (
      arith,
      e0,
      e1,
      e2,
      e3,
      index_lem 12 a,
      index_lem 21 a,
      index_lem 30 a,
      index_lem 39 a,
      index_lem 12 b,
      index_lem 21 b,
      index_lem 30 b,
      index_lem 39 b,
    )

-- A page that is written to the last table on its way changes the look-ups of no other page.
pub get_phys_addr-written :
    (early : Bool) (level : Levels) (mem : Memory) (tree : IsTree early level mem) (virt : ℕ)
    (at : ℕ → ℕ)
    → Way early level mem tree virt at
    → (v other : ℕ) → page_of other ≢ page_of virt
    → get_phys_addr early (at 3) (write_slot mem (slot (at 0) (index_at 0 virt)) v) other
      ≡ get_phys_addr early (at 3) mem other
get_phys_addr-written early level mem tree virt at way v other ne =
    let root = (way.on 2 (omega arith)).0 in
    get_phys_addr-same early level level mem _ tree
      (leaf-IsTree early level mem tree (at 0) (index_at 0 virt) v way.leaf (index_at-lt 0 virt))
      (at 3) other root root
      (look-Apart early level mem tree virt at way other v 3 (at 3) (omega arith) root
        (inr (other_index other virt ne)))

-- Addresses of one page have the same indices.
pub same_indices :
    (a b : ℕ)
    → page_of a ≡ page_of b
    → (index 39 a ≡ index 39 b)
      × (index 30 a ≡ index 30 b)
      × (index 21 a ≡ index 21 b)
      × (index 12 a ≡ index 12 b)
same_indices a b e = (
  omega (arith, e, index_lem 39 a, index_lem 39 b),
  omega (arith, e, index_lem 30 a, index_lem 30 b),
  omega (arith, e, index_lem 21 a, index_lem 21 b),
  omega (arith, e, index_lem 12 a, index_lem 12 b),
)
