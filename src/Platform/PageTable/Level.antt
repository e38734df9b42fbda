-- ===== src/Platform/PageTable/Level.antt =====
-- One level of `mapPage` keeps the tree of tables, and reaches the next table.
use kush_os_rewrite.Base.{ℕ, suc, ◌%◌, ◌^◌, ◌<◌, Bool, true, false, arith}
use kush_os_rewrite.Base.{
  ◌≡◌, refl, ap, sym, ◌∙◌, ◌≢◌, ◌⊎◌, ◌==◌, ◌&&◌, Bool-cases, inl, inr, ==_of_ne, ==_of_eq, eq_of_==,
}
use kush_os_rewrite.Platform.PageTable.{
  present, large, table_addr, table_entry, Memory, slot, write_slot, zero_page,
}
use kush_os_rewrite.Platform.PageTable.Entries.{table_entry_lem}
use kush_os_rewrite.Platform.PageTable.Tree.{
  limit, Levels, assign, IsTree, slot-injective, outside_page, inside_page,
}

pub and_fst : (a b c d : ℕ) → ((a == b) && (c == d)) ≡ true → a ≡ b
and_fst a b c d h = ground arith

pub and_snd : (a b c d : ℕ) → ((a == b) && (c == d)) ≡ true → c ≡ d
and_snd a b c d h = ground arith

pub and_no : (a b c d : ℕ) → ((a == b) && (c == d)) ≡ false → (a ≢ b) ⊎ (c ≢ d)
and_no a b c d h = elim (Bool-cases (a == b)) [
  | inl e ↦ inr (ground arith)
  | inr e ↦ inl (ground arith)
]

-- A new table `page` under entry `i` of table `t`.
module _ (early : Bool) (level : Levels) (mem : Memory) (tree : IsTree early level mem)
    (t i l page virt : ℕ) (at_level : level t ≡ suc (suc l)) (small : i < 512)
    (aligned : page % 4096 ≡ 0) (low : page < limit early) (unused : level page ≡ 0) where
  abbrev entry : ℕ
  entry = table_entry page virt

  abbrev pub mem' : Memory
  mem' = write_slot (zero_page mem page) (slot t i) entry

  abbrev level' : Levels
  level' = assign level page (suc l)

  abbrev owner' : ℕ → ℕ
  owner' = assign tree.owner page (slot t i)

  t-aligned : (t % 4096 ≡ 0) × (t < limit early)
  t-aligned = tree.aligned t (omega arith)

  t-ne : t ≢ page
  t-ne e = absurd (omega (arith, at_level, unused, ap level e))

  pub below : page < 2 ^ 63
  below = below_lem early low
    where
      below_lem : (b : Bool) → page < limit b → page < 2 ^ 63
      below_lem true h = omega arith
      below_lem false h = omega arith

  pub at_entry : mem' (slot t i) ≡ entry
  at_entry = rw (==_of_eq (slot t i) (slot t i) refl)

  pub new_table : (j : ℕ) → j < 512 → mem' (slot page j) ≡ 0
  new_table j h =
      let ne : slot page j ≢ slot t i =
        λ e. t-ne (sym (slot-injective page j t i aligned t-aligned.0 h small e).0) in
      rw (==_of_ne _ _ ne, inside_page j page h)

  pub other :
      (q j : ℕ) → 0 < level q → j < 512 → (q ≢ t) ⊎ (j ≢ i) → mem' (slot q j) ≡ mem (slot q j)
  other q j used h differs =
      let ne-page : q ≢ page = λ e. absurd (omega (arith, unused, ap level e)) in
      let ne : slot q j ≢ slot t i = ne_slot differs in
      rw (==_of_ne _ _ ne, outside_page q j page (tree.aligned q used).0 aligned h ne-page)
    where
      ne_slot : (q ≢ t) ⊎ (j ≢ i) → slot q j ≢ slot t i
      ne_slot (inl d) e = d (slot-injective q j t i (tree.aligned q used).0 t-aligned.0 h small e).0
      ne_slot (inr d) e = d (slot-injective q j t i (tree.aligned q used).0 t-aligned.0 h small e).1

  pub keeps : (q : ℕ) → 0 < level q → level' q ≡ level q
  keeps q used = rw (==_of_ne q page (λ e. absurd (omega (arith, unused, ap level e))))

  pub leads : level' (table_addr entry) ≡ suc l
  leads = rw (==_of_eq (table_addr entry) page (table_entry_lem page virt aligned below).2)

  owner_keeps : (q : ℕ) → 0 < level q → owner' q ≡ tree.owner q
  owner_keeps q used = rw (==_of_ne q page (λ e. absurd (omega (arith, unused, ap level e))))

  is_owned : owner' (table_addr entry) ≡ slot t i
  is_owned = rw (==_of_eq (table_addr entry) page (table_entry_lem page virt aligned below).2)

  module _ (q j k : ℕ) (h : j < 512) (p : present (mem' (slot q j)) ≡ true)
      (not_large : (large (mem' (slot q j)) ≡ false) ⊎ (k ≡ 2)) where
    not_new : q ≢ page
    not_new e =
        let zeroed : mem' (slot q j) ≡ 0 = ap (λ x. mem' (slot x j)) e ∙ new_table j h in
        let bad : false ≡ true = sym (ap present zeroed) ∙ p in cc

    at_same : q ≡ t → j ≡ i → mem' (slot q j) ≡ entry
    at_same e e' = ap (λ x. mem' (slot x j)) e ∙ ap (λ x. mem' (slot t x)) e' ∙ at_entry

    -- The new entry is the only one that leads to the new table.
    leads_same :
        q ≡ t
        → j ≡ i
        → level q ≡ suc (suc k)
        → (level' (table_addr (mem' (slot q j))) ≡ suc k)
          × (owner' (table_addr (mem' (slot q j))) ≡ slot q j)
    leads_same e e' lq =
        let depth : suc l ≡ suc k = omega (arith, at_level, lq, ap level e) in
        (
          ap (λ v. level' (table_addr v)) (at_same e e') ∙ leads ∙ depth,
          ap (λ v. owner' (table_addr v)) (at_same e e') ∙ is_owned ∙ sym (ap2_slot e e'),
        )
      where
        ap2_slot : q ≡ t → j ≡ i → slot q j ≡ slot t i
        ap2_slot e e' = omega (arith, e, e')

    -- The others lead where they led.
    leads_old :
        (q ≢ t) ⊎ (j ≢ i)
        → level q ≡ suc (suc k)
        → (level' (table_addr (mem' (slot q j))) ≡ suc k)
          × (owner' (table_addr (mem' (slot q j))) ≡ slot q j)
    leads_old differs lq =
        let kept : mem' (slot q j) ≡ mem (slot q j) = other q j (omega (arith, lq)) h differs in
        let before : level (table_addr (mem (slot q j))) ≡ suc k =
          tree.down q j k lq h (sym (ap present kept) ∙ p) (still_small kept not_large) in
        (
          ap (λ v. level' (table_addr v)) kept
              ∙ keeps (table_addr (mem (slot q j))) (omega (arith, before))
              ∙ before,
          ap (λ v. owner' (table_addr v)) kept
              ∙ owner_keeps (table_addr (mem (slot q j))) (omega (arith, before))
              ∙ tree.owned q j k lq h (sym (ap present kept) ∙ p) (still_small kept not_large),
        )
      where
        still_small :
            mem' (slot q j) ≡ mem (slot q j)
            → (large (mem' (slot q j)) ≡ false) ⊎ (k ≡ 2)
            → (large (mem (slot q j)) ≡ false) ⊎ (k ≡ 2)
        still_small kept (inl s) = inl (sym (ap large kept) ∙ s)
        still_small kept (inr s) = inr s

  grown-leads :
      (q j k : ℕ)
      → level' q ≡ suc (suc k)
      → j < 512
      → present (mem' (slot q j)) ≡ true
      → (large (mem' (slot q j)) ≡ false) ⊎ (k ≡ 2)
      → (level' (table_addr (mem' (slot q j))) ≡ suc k)
        × (owner' (table_addr (mem' (slot q j))) ≡ slot q j)
  grown-leads q j k lq h p not_large = elim (Bool-cases (q == page)) [
    | inl new ↦ absurd (not_new q j k h p not_large (eq_of_== q page new))
    | inr old ↦
        let lq' : level q ≡ suc (suc k) = rw old at lq in
        elim (Bool-cases ((q == t) && (j == i))) [
          | inl same ↦
              leads_same q j k h p not_large (and_fst q t j i same) (and_snd q t j i same) lq'
          | inr differs ↦ leads_old q j k h p not_large (and_no q t j i differs) lq'
        ]
  ]

  pub grown : IsTree early level' mem'
  grown = record {
    aligned = grown-aligned;
    down = λ q j k lq h p s. (grown-leads q j k lq h p s).0;
    owner = owner';
    owned = λ q j k lq h p s. (grown-leads q j k lq h p s).1;
  }
    where
      grown-aligned : (q : ℕ) → 0 < level' q → (q % 4096 ≡ 0) × (q < limit early)
      grown-aligned q used = elim (Bool-cases (q == page)) [
        | inl new ↦ rw (eq_of_== q page new) (aligned, low)
        | inr old ↦ tree.aligned q (rw old at used)
      ]
