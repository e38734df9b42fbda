-- ===== src/Platform/PageTable/Leaf.antt =====
-- Writes to the tables of the last level.
use kush_os_rewrite.Base.{ℕ, ◌<◌, Bool, false, arith}
use kush_os_rewrite.Base.{◌≡◌, ap, sym, ◌∙◌, ◌≢◌, ◌⊎◌, inl, inr, ==_of_ne}
use kush_os_rewrite.Platform.PageTable.{present, large, table_addr, Memory, slot, write_slot}
use kush_os_rewrite.Platform.PageTable.Tree.{Levels, IsTree, slot-injective}

-- A write to a table of the last level leaves the entries of the others, and the tree.
module _ (early : Bool) (level : Levels) (mem : Memory) (tree : IsTree early level mem) (t i v : ℕ)
    (leaf : level t ≡ 1) (small : i < 512) where
  pub leaf-other :
      (q j : ℕ) → 1 < level q → j < 512 → write_slot mem (slot t i) v (slot q j) ≡ mem (slot q j)
  leaf-other q j upper h =
      let ne : slot q j ≢ slot t i = λ e. absurd (
        omega (
          arith,
          leaf,
          upper,
          ap level
              (slot-injective q j t i (tree.aligned q (omega arith)).0
                (tree.aligned t (omega arith)).0 h small e).0,
        )) in
      rw (==_of_ne _ _ ne)

  pub leaf-IsTree : IsTree early level (write_slot mem (slot t i) v)
  leaf-IsTree = record {
    aligned = tree.aligned;
    down = λ q j l lq h p s.
        let kept : write_slot mem (slot t i) v (slot q j) ≡ mem (slot q j) =
          leaf-other q j (omega arith) h in
        ap (λ x. level (table_addr x)) kept
        ∙ tree.down q j l lq h (sym (ap present kept) ∙ p) (small_case kept s);
    owner = tree.owner;
    owned = λ q j l lq h p s.
        let kept : write_slot mem (slot t i) v (slot q j) ≡ mem (slot q j) =
          leaf-other q j (omega arith) h in
        ap (λ x. tree.owner (table_addr x)) kept
        ∙ tree.owned q j l lq h (sym (ap present kept) ∙ p) (small_case kept s);
  }
    where
      small_case : {x y l : ℕ} → x ≡ y → (large x ≡ false) ⊎ (l ≡ 2) → (large y ≡ false) ⊎ (l ≡ 2)
      small_case e (inl s) = inl (sym (ap large e) ∙ s)
      small_case e (inr s) = inr s
