-- ===== src/Platform/PageTable/Look.antt =====
-- `getPhysAddr` as a function on a tree of tables, one level after the other.
use kush_os_rewrite.Base.{
  ℕ, zero, suc, ◌+◌, ◌-◌, ◌*◌, ◌^◌, ◌<◌, Bool, true, false, not, ◌&&◌, arith, u64, bit_and, not64,
}
use kush_os_rewrite.Base.{
  ◌≡◌, refl, ap, sym, ◌∙◌, ◌⊎◌, inl, inr, ◌==◌, if◌then◌else◌, Bool-cases, done, some, Outcome,
  eq_of_==,
}
use kush_os_rewrite.Platform.PageTable.{
  present, large, table_addr, index, Memory, slot, get_phys_addr, not_canonical, walk_table,
  decode_phys, decode_mode, Lookup, found, not_found,
}
use kush_os_rewrite.Platform.PageTable.Tree.{limit, Levels, IsTree, index-lt}
use kush_os_rewrite.Platform.PageTable.Walk.{walk-present, walk-absent, not_there}

-- A table of level n + 1 is read at this index.
abbrev pub index_at : ℕ → ℕ → ℕ
index_at n virt = index (12 + 9 * n) virt

pub index_at-lt : (n virt : ℕ) → index_at n virt < 512
index_at-lt n virt = index-lt (12 + 9 * n) virt

-- The answers at an entry for a page, and for a large page in a table of level n + 2.
page_answer : ℕ → ℕ → Lookup
page_answer virt e = record {
  status = found;
  out = some (u64 (decode_phys e + bit_and virt 0xfff), decode_mode e);
}

large_answer : ℕ → ℕ → ℕ → Lookup
large_answer n virt e = record {
  status = not_found;
  out = some (
    u64 (
        bit_and (decode_phys e) (not64 (2 ^ (21 + 9 * n) - 1))
        + bit_and virt (2 ^ (21 + 9 * n) - 1)),
    decode_mode e,
  );
}

-- An entry of a table of level n + 2 maps a large page; one of a PML4 cannot.
abbrev pub is_large : ℕ → ℕ → Bool
is_large n e = not (n == 2) && large e

pub leaf : ℕ → ℕ → Lookup
leaf virt e = if present e then page_answer virt e else not_there

pub branch : ℕ → ℕ → ℕ → Lookup → Lookup
branch n virt e below =
    if present e then (if is_large n e then large_answer n virt e else below) else not_there

-- The look-up from a table of level n + 1 on.
unfoldable pub look : ℕ → Memory → ℕ → ℕ → Lookup
look zero mem virt t = leaf virt (mem (slot t (index_at 0 virt)))
look (suc n) mem virt t =
    branch n virt (mem (slot t (index_at (suc n) virt)))
      (look n mem virt (table_addr (mem (slot t (index_at (suc n) virt)))))

-- The entry of a table leads on, or maps a large page.
pub look-leads :
    (n : ℕ) (mem : Memory) (virt t e : ℕ)
    → mem (slot t (index_at (suc n) virt)) ≡ e
    → present e ≡ true
    → is_large n e ≡ false
    → look (suc n) mem virt t ≡ look n mem virt (table_addr e)
unfolding look branch
look-leads n mem virt t e at p g = rw (at, p, g)

pub look-large :
    (n : ℕ) (mem : Memory) (virt t : ℕ)
    → present (mem (slot t (index_at (suc n) virt))) ≡ true
    → is_large n (mem (slot t (index_at (suc n) virt))) ≡ true
    → (o : ℕ × ℕ) × (look (suc n) mem virt t ≡ record { status = not_found; out = some o })
unfolding look branch large_answer
look-large n mem virt t p g =
    let e : ℕ = mem (slot t (index_at (suc n) virt)) in
    (
      (
        u64 (
            bit_and (decode_phys e) (not64 (2 ^ (21 + 9 * n) - 1))
            + bit_and virt (2 ^ (21 + 9 * n) - 1)),
        decode_mode e,
      ),
      rw (p, g),
    )

-- What lies below an entry counts only where the entry leads on.
pub branch_ap :
    (n virt e : ℕ) (a b : Lookup)
    → (present e ≡ true → is_large n e ≡ false → a ≡ b)
    → branch n virt e a ≡ branch n virt e b
unfolding branch
branch_ap n virt e a b h = elim (Bool-cases (present e)) [
  | inr p ↦ rw p
  | inl p ↦ elim (Bool-cases (is_large n e)) [ inl g ↦ rw (p, g) | inr g ↦ rw (p, g, h p g) ]
]

pub branch-absent : (n virt e : ℕ) (a : Lookup) → present e ≡ false → branch n virt e a ≡ not_there
unfolding branch
branch-absent n virt e a p = rw p

pub branch-leads :
    (n virt e : ℕ) (a : Lookup) → present e ≡ true → large e ≡ false → branch n virt e a ≡ a
unfolding branch
branch-leads n virt e a p s = elim (Bool-cases (n == 2)) [
  | inl top ↦ rw (p, top)
  | inr below ↦ rw (p, below, s)
]

-- A look-up that has found a page went on at each entry.
pub branch-found :
    (n virt e : ℕ) (below : Lookup)
    → (branch n virt e below).status ≡ found
    → (present e ≡ true) × (is_large n e ≡ false) × (below.status ≡ found)
unfolding branch large_answer
branch-found n virt e below h = elim (Bool-cases (present e)) [
  | inr p ↦ cc (rw p at h)
  | inl p ↦ elim (Bool-cases (is_large n e)) [
    | inl g ↦ cc (rw (p, g) at h)
    | inr g ↦ (p, g, rw (p, g) at h)
  ]
]

-- A table whose entries are all 0 gives nothing.
pub look-zero :
    (n : ℕ) (mem : Memory) (virt t : ℕ)
    → ((j : ℕ) → j < 512 → mem (slot t j) ≡ 0)
    → look n mem virt t ≡ not_there
unfolding look leaf branch
look-zero zero mem virt t z = rw (z (index_at 0 virt) (index_at-lt 0 virt))
look-zero (suc n) mem virt t z = rw (z (index_at (suc n) virt) (index_at-lt (suc n) virt))

pub large_case : (n e : ℕ) → is_large n e ≡ false → (large e ≡ false) ⊎ (n ≡ 2)
large_case n e g = elim (Bool-cases (n == 2)) [
  | inl top ↦ inr (eq_of_== n 2 top)
  | inr below ↦ inl (rw below at g)
]

-- In a tree, `getPhysAddr` gives this answer.
module _ (early : Bool) (level : Levels) (mem : Memory) (tree : IsTree early level mem)
    (virt : ℕ) where
  -- An entry that leads on reaches a table one level down.
  pub leads_down :
      (n q : ℕ)
      → level q ≡ suc (suc n)
      → present (mem (slot q (index_at (suc n) virt))) ≡ true
      → is_large n (mem (slot q (index_at (suc n) virt))) ≡ false
      → level (table_addr (mem (slot q (index_at (suc n) virt)))) ≡ suc n
  leads_down n q at_level p g =
      tree.down q (index_at (suc n) virt) n at_level (index_at-lt (suc n) virt) p
        (large_case n (mem (slot q (index_at (suc n) virt))) g)

  low_of : (t l : ℕ) → level t ≡ suc l → t < limit early
  low_of t l h = (tree.aligned t (omega (arith, h))).1

  walk-leaf :
      (t : ℕ) (next : ℕ → Outcome Lookup)
      → level t ≡ 1
      → next (mem (slot t (index_at 0 virt)))
        ≡ done (page_answer virt (mem (slot t (index_at 0 virt))))
      → walk_table early mem t (index_at 0 virt) not_there next ≡ done (look 0 mem virt t)
  unfolding look leaf
  walk-leaf t next at_level here = elim (Bool-cases (present (mem (slot t (index_at 0 virt))))) [
    | inl p ↦
        rw
          (
            walk-present early mem t (index_at 0 virt) _ not_there next (low_of t 0 at_level)
                (index_at-lt 0 virt) refl p,
            p,
          )
          here
    | inr p ↦ rw (
      walk-absent early mem t (index_at 0 virt) not_there next (low_of t 0 at_level)
          (index_at-lt 0 virt) p,
      p,
    )
  ]

  walk-branch :
      (n t : ℕ) (next : ℕ → Outcome Lookup)
      → level t ≡ suc (suc n)
      → (present (mem (slot t (index_at (suc n) virt))) ≡ true
          → is_large n (mem (slot t (index_at (suc n) virt))) ≡ false
          → next (mem (slot t (index_at (suc n) virt)))
            ≡ done (look n mem virt (table_addr (mem (slot t (index_at (suc n) virt))))))
      → (is_large n (mem (slot t (index_at (suc n) virt))) ≡ true
          → next (mem (slot t (index_at (suc n) virt)))
            ≡ done (large_answer n virt (mem (slot t (index_at (suc n) virt)))))
      → walk_table early mem t (index_at (suc n) virt) not_there next
        ≡ done (look (suc n) mem virt t)
  unfolding look branch
  walk-branch n t next at_level leads is =
      elim (Bool-cases (present (mem (slot t (index_at (suc n) virt))))) [
        | inr p ↦ rw (
          walk-absent early mem t (index_at (suc n) virt) not_there next (low_of t (suc n) at_level)
              (index_at-lt (suc n) virt) p,
          p,
        )
        | inl p ↦
            walk-present early mem t (index_at (suc n) virt) _ not_there next
              (low_of t (suc n) at_level) (index_at-lt (suc n) virt) refl p
            ∙ elim (Bool-cases (is_large n (mem (slot t (index_at (suc n) virt))))) [
              | inl g ↦ rw (p, g) (is g)
              | inr g ↦ rw (p, g) (leads p g)
            ]
      ]

  pub get_phys_addr-look :
      (pml4 : ℕ)
      → level pml4 ≡ 4
      → not_canonical virt ≡ false
      → get_phys_addr early pml4 mem virt ≡ done (look 3 mem virt pml4)
  unfolding get_phys_addr large_answer page_answer
  get_phys_addr-look pml4 root canonical = rw canonical (
      walk-branch 2 pml4 _ root
        (λ p4 g4.
          walk-branch 1 _ _ (leads_down 2 pml4 root p4 g4)
            (λ p3 g3. rw g3 (
              walk-branch 0 _ _ (leads_down 1 _ (leads_down 2 pml4 root p4 g4) p3 g3)
                (λ p2 g2. rw g2 (
                  walk-leaf _ _
                    (leads_down 0 _ (leads_down 1 _ (leads_down 2 pml4 root p4 g4) p3 g3) p2 g2)
                    refl))
                (λ g2. rw g2)))
            (λ g3. rw g3))
        (λ bad. cc))

pub get_phys_addr-invalid :
    (early : Bool) (pml4 virt : ℕ)
    → not_canonical virt ≡ true
    → (mem mem' : Memory) → get_phys_addr early pml4 mem virt ≡ get_phys_addr early pml4 mem' virt
unfolding get_phys_addr
get_phys_addr-invalid early pml4 virt bad mem mem' = rw bad

-- Trees whose look-ups agree give the same answers.
pub get_phys_addr-same :
    (early : Bool) (level level' : Levels) (mem mem' : Memory)
    → IsTree early level mem
    → IsTree early level' mem'
    → (pml4 other : ℕ) → level pml4 ≡ 4
    → level' pml4 ≡ 4
    → look 3 mem' other pml4 ≡ look 3 mem other pml4
    → get_phys_addr early pml4 mem' other ≡ get_phys_addr early pml4 mem other
get_phys_addr-same early level level' mem mem' tree tree' pml4 other root root' e =
    elim (Bool-cases (not_canonical other)) [
      | inl bad ↦ get_phys_addr-invalid early pml4 other bad mem' mem
      | inr canonical ↦
          get_phys_addr-look early level' mem' tree' other pml4 root' canonical
          ∙ ap done e
          ∙ sym (get_phys_addr-look early level mem tree other pml4 root canonical)
    ]
