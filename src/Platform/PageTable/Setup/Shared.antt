-- ===== src/Platform/PageTable/Setup/Shared.antt =====
-- After `copyPml4Upper`, the kernel's half of the address space is the parent's.
use kush_os_rewrite.Base.{
  ℕ, zero, suc, ◌+◌, ◌/◌, ◌%◌, ◌^◌, ◌≤◌, ◌<◌, Bool, true, false, bit_and, arith,
}
use kush_os_rewrite.Base.{
  ◌≡◌, refl, ap, sym, ◌∙◌, ◌≢◌, ◌⊎◌, inl, inr, ◌==◌, Bool-cases, ==_of_eq, ==_of_ne, Outcome, done,
}
use kush_os_rewrite.Base.Bits.{bit_and-low}
use kush_os_rewrite.Platform.PageTable.{
  Memory, present, large, table_addr, index, slot, write_slot, walk_table, get_phys_addr,
  not_canonical, Lookup,
}
use kush_os_rewrite.Platform.PageTable.Tree.{
  limit, Levels, IsTree, read_table_lem, write_table_lem, slot-injective, index-lt,
}
use kush_os_rewrite.Platform.PageTable.Walk.{not_there}
use kush_os_rewrite.Platform.PageTable.Setup.{copy_from, copy_pml4_upper}

module _ (early : Bool) (child parent : ℕ) (child_low : child < limit early)
    (parent_low : parent < limit early) (child_aligned : child % 4096 ≡ 0)
    (parent_aligned : parent % 4096 ≡ 0) (differ : child ≢ parent) where
  -- The n entries from j on are copied, and no other entry of a table is changed.
  pub record Copied (n j : ℕ) (mem : Memory) : Type 0 where
    pub mem' : Memory
    pub result : copy_from early child parent n j mem ≡ done mem'
    pub same : (i : ℕ) → j ≤ i → i < j + n → mem' (slot child i) ≡ mem (slot parent i)
    pub others :
        (q i : ℕ)
        → q % 4096 ≡ 0
        → i < 512
        → (q ≢ child) ⊎ (i < j)
        → mem' (slot q i) ≡ mem (slot q i)

  copy_from-Copied : (n j : ℕ) (mem : Memory) → j + n ≤ 512 → Copied n j mem
  unfolding copy_from
  copy_from-Copied zero j mem h = record {
    mem' = mem;
    result = refl;
    same = λ i a b. absurd (omega arith);
    others = λ q i a b d. refl;
  }
  copy_from-Copied (suc n) j mem h =
      let mem1 = write_slot mem (slot child j) (mem (slot parent j)) in
      let rest = copy_from-Copied n (j + 1) mem1 (omega arith) in
      let untouched : (q i : ℕ)
          → q % 4096 ≡ 0
          → i < 512
          → (q ≢ child) ⊎ (i ≢ j)
          → mem1 (slot q i) ≡ mem (slot q i) =
        λ q i a b d.
          let ne : slot q i ≢ slot child j = λ e.
            let both = slot-injective q i child j a child_aligned b (omega arith) e in
            elim d [ inl f ↦ f both.0 | inr f ↦ f both.1 ] in
          rw (==_of_ne _ _ ne) in
      record {
        mem' = rest.mem';
        result =
            rw
              (
                read_table_lem early mem parent j parent_low (omega arith),
                write_table_lem early mem child j (mem (slot parent j)) child_low (omega arith),
              )
              rest.result;
        same = λ i a b. elim (Bool-cases (i == j)) [
          | inl e ↦
              rest.others child i child_aligned (omega arith) (inr (ground arith))
              ∙ rw (==_of_eq (slot child i) (slot child j) (ground arith))
                  (ap (λ x. mem (slot parent x)) (ground arith))
          | inr ne ↦
              rest.same i (ground arith) (omega arith)
              ∙ untouched parent i parent_aligned (omega arith) (inl (λ e. differ (sym e)))
        ];
        others = λ q i a b d.
            rest.others q i a b (elim d [ inl f ↦ inl f | inr f ↦ inr (omega arith) ])
            ∙ untouched q i a b
                (elim d [ inl f ↦ inl f | inr f ↦ inr (λ e. absurd (omega (arith, e, f))) ]);
      }

-- Two walks through equal entries, whose continuations agree on them.
walk-same :
    {A : Type 0} (early : Bool) (mem mem' : Memory) (t t' i : ℕ) (absent : A)
    (next next' : ℕ → Outcome A)
    → t < limit early
    → t' < limit early
    → i < 512
    → mem' (slot t' i) ≡ mem (slot t i)
    → (present (mem (slot t i)) ≡ true → next' (mem (slot t i)) ≡ next (mem (slot t i)))
    → walk_table early mem' t' i absent next' ≡ walk_table early mem t i absent next
unfolding walk_table
walk-same early mem mem' t t' i absent next next' low low' small e agree =
    elim (Bool-cases (present (mem (slot t i)))) [
      | inl p ↦
          rw
            (
              read_table_lem early mem t i low small,
              read_table_lem early mem' t' i low' small,
              e,
              p,
            )
            (agree p)
      | inr p ↦
          rw (
            read_table_lem early mem t i low small,
            read_table_lem early mem' t' i low' small,
            e,
            p,
          )
    ]

upper_index : (virt : ℕ) → 0xffff800000000000 ≤ virt → virt < 2 ^ 64 → 256 ≤ index 39 virt
unfolding index
upper_index virt h k =
    omega (arith, bit_and-low 9 (bit_and virt 0xffffffffffff / 2 ^ 39), bit_and-low 48 virt)

-- Two memories with the same tables below the PML4s look up the same from a table of level 3 on.
module _ (early : Bool) (level : Levels) (mem mem' : Memory) (tree : IsTree early level mem)
    (same : (q i : ℕ)
      → 0 < level q
      → level q < 4
      → i < 512
      → mem' (slot q i) ≡ mem (slot q i)) where
  below :
      (t i l : ℕ) (next next' : ℕ → Outcome Lookup)
      → level t ≡ suc l
      → l < 3
      → i < 512
      → (present (mem (slot t i)) ≡ true → next' (mem (slot t i)) ≡ next (mem (slot t i)))
      → walk_table early mem' t i not_there next' ≡ walk_table early mem t i not_there next
  below t i l next next' lt h k agree =
      let low = (tree.aligned t (omega (arith, lt))).1 in
      walk-same early mem mem' t t i not_there next next' low low k
        (same t i (omega (arith, lt)) (omega (arith, lt)) k) agree

  child_level :
      (t i l : ℕ)
      → level t ≡ suc (suc l)
      → i < 512
      → present (mem (slot t i)) ≡ true
      → large (mem (slot t i)) ≡ false
      → level (table_addr (mem (slot t i))) ≡ suc l
  child_level t i l lt h p s = tree.down t i l lt h p (inl s)

-- Where the parent's tables are a tree, and the child's PML4 is a different page that is no lower
-- table, `copyPml4Upper` returns, and each address of the kernel's half is then looked up in the
-- child as it was in the parent before.
pub copy_pml4_upper-shares :
    (early : Bool) (level : Levels) (mem : Memory) (child parent virt : ℕ)
    → IsTree early level mem
    → level parent ≡ 4
    → level child ≡ 4
    → child ≢ parent
    → 0xffff800000000000 ≤ virt
    → virt < 2 ^ 64
    → (mem' : Memory) × (copy_pml4_upper early child parent mem ≡ done mem')
      × (get_phys_addr early child mem' virt ≡ get_phys_addr early parent mem virt)
unfolding copy_pml4_upper get_phys_addr
copy_pml4_upper-shares early level mem child parent virt tree lp lc differ h k =
    let c =
      copy_from-Copied early child parent low_c low_p aligned_c aligned_p differ 256 256 mem
        (omega arith) in
    (
      c.mem',
      c.result,
      let canonical : not_canonical virt ≡ false = ground arith in
          rw canonical (
            walk-same early mem c.mem' parent child (index 39 virt) not_there _ _ low_p low_c
              (index-lt 39 virt)
              (c.same (index 39 virt) (upper_index virt h k) (omega (arith, index-lt 39 virt)))
              (λ p.
                let t3 = table_addr (mem (slot parent (index 39 virt))) in
                let l3 : level t3 ≡ 3 =
                  tree.down parent (index 39 virt) 2 lp (index-lt 39 virt) p (inr refl) in
                below early level mem c.mem' tree (kept c.mem' c.others) t3 (index 30 virt) 2 _ _ l3
                  (omega arith) (index-lt 30 virt)
                  λ p3. elim (Bool-cases (large (mem (slot t3 (index 30 virt))))) [
                    | inl big ↦ rw big
                    | inr small ↦
                        let t2 = table_addr (mem (slot t3 (index 30 virt))) in
                        let l2 : level t2 ≡ 2 =
                          child_level early level mem c.mem' tree (kept c.mem' c.others) t3
                            (index 30 virt) 1 l3 (index-lt 30 virt) p3 small in
                        rw small (
                          below early level mem c.mem' tree (kept c.mem' c.others) t2
                            (index 21 virt) 1 _ _ l2 (omega arith) (index-lt 21 virt)
                            λ p2. elim (Bool-cases (large (mem (slot t2 (index 21 virt))))) [
                              | inl big ↦ rw big
                              | inr small' ↦
                                  let l1 =
                                    child_level early level mem c.mem' tree (kept c.mem' c.others)
                                      t2 (index 21 virt) 0 l2 (index-lt 21 virt) p2 small' in
                                  rw small' (
                                    below early level mem c.mem' tree (kept c.mem' c.others)
                                      (table_addr (mem (slot t2 (index 21 virt)))) (index 12 virt) 0
                                      _ _ l1 (omega arith) (index-lt 12 virt) λ p1. refl)
                            ])
                  ])),
    )
  where
    low_c : child < limit early
    low_c = (tree.aligned child (omega (arith, lc))).1

    low_p : parent < limit early
    low_p = (tree.aligned parent (omega (arith, lp))).1

    aligned_c : child % 4096 ≡ 0
    aligned_c = (tree.aligned child (omega (arith, lc))).0

    aligned_p : parent % 4096 ≡ 0
    aligned_p = (tree.aligned parent (omega (arith, lp))).0

    kept :
        (mem' : Memory)
        → ((q i : ℕ)
            → q % 4096 ≡ 0
            → i < 512
            → (q ≢ child) ⊎ (i < 256)
            → mem' (slot q i) ≡ mem (slot q i))
        → (q i : ℕ) → 0 < level q
        → level q < 4
        → i < 512
        → mem' (slot q i) ≡ mem (slot q i)
    kept mem' others q i used lower h =
        others q i (tree.aligned q used).0 h
          (inl (λ e. absurd (omega (arith, lc, lower, ap level e))))
