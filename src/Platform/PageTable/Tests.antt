-- ===== src/Platform/PageTable/Tests.antt =====
-- `unmapPage` and `copyPml4Upper` on four tables, one below the other.
use kush_os_rewrite.Base.{ℕ, suc, ◌<◌, ◌-◌, true, false, not, arith, bit_and}
use kush_os_rewrite.Base.{
  ◌≡◌, refl, sym, eq_of_==, ◌⊎◌, ◌==◌, inl, inr, if◌then◌else◌, Bool-cases, done,
}
use kush_os_rewrite.Platform.PageTable.{
  Memory, present, large, slot, table_addr, index, get_phys_addr, unmap_page, unmapped,
}
use kush_os_rewrite.Platform.PageTable.Tree.{Levels, IsTree}
use kush_os_rewrite.Platform.PageTable.Walk.{Path4, not_there}
use kush_os_rewrite.Platform.PageTable.Setup.{copy_pml4_upper}
use kush_os_rewrite.Platform.PageTable.Setup.Shared.{copy_pml4_upper-shares}
use kush_os_rewrite.Platform.PageTable.Unmap.{unmap_page-removes}

-- Only the first entry of each of the upper tables is present.
abbrev tables : Memory
tables a =
    if a == 0x1000
    then 0x2003
    else if a == 0x2000
    then 0x3003
    else if a == 0x3000
    then 0x4003
    else 0

-- Page 5 is a second, empty PML4.
abbrev levels : Levels
levels q =
    if q == 0x1000
    then 4
    else if q == 0x2000
    then 3
    else if q == 0x3000
    then 2
    else if q == 0x4000
    then 1
    else if q == 0x5000
    then 4
    else 0

no_entry : (n m : ℕ) → not (bit_and 0 1 == 0) ≡ true → n ≡ m
no_entry n m e = cc

tables-down :
    (t i l : ℕ)
    → levels t ≡ suc (suc l)
    → i < 512
    → present (tables (slot t i)) ≡ true
    → (large (tables (slot t i)) ≡ false) ⊎ (l ≡ 2)
    → levels (table_addr (tables (slot t i))) ≡ suc l
unfolding table_addr
tables-down t i l at h p s = elim (Bool-cases (slot t i == 0x1000)) [
  | inl a ↦ rw a (ground arith)
  | inr a ↦ elim (Bool-cases (slot t i == 0x2000)) [
    | inl b ↦ rw (a, b) (ground arith)
    | inr b ↦ elim (Bool-cases (slot t i == 0x3000)) [
      | inl c ↦ rw (a, b, c) (ground arith)
      | inr c ↦ no_entry _ _ (rw (a, b, c) at p)
    ]
  ]
]

tables-owned :
    (t i l : ℕ)
    → levels t ≡ suc (suc l)
    → i < 512
    → present (tables (slot t i)) ≡ true
    → (large (tables (slot t i)) ≡ false) ⊎ (l ≡ 2)
    → table_addr (tables (slot t i)) - 0x1000 ≡ slot t i
unfolding table_addr
tables-owned t i l at h p s = elim (Bool-cases (slot t i == 0x1000)) [
  | inl a ↦ rw a (sym (eq_of_== (slot t i) 0x1000 a))
  | inr a ↦ elim (Bool-cases (slot t i == 0x2000)) [
    | inl b ↦ rw (a, b) (sym (eq_of_== (slot t i) 0x2000 b))
    | inr b ↦ elim (Bool-cases (slot t i == 0x3000)) [
      | inl c ↦ rw (a, b, c) (sym (eq_of_== (slot t i) 0x3000 c))
      | inr c ↦ no_entry _ _ (rw (a, b, c) at p)
    ]
  ]
]

tables-IsTree : IsTree true levels tables
tables-IsTree = record {
  aligned = λ t h. (ground arith, ground arith);
  down = tables-down;
  owner = λ p. p - 0x1000;
  owned = tables-owned;
}

tables_path : Path4 true tables 0 0x1000 0x2003 0x3003 0x4003
unfolding table_addr index
tables_path = record {
  low4 = omega arith;
  low3 = omega arith;
  low2 = omega arith;
  low1 = omega arith;
  at4 = refl;
  at3 = refl;
  at2 = refl;
  here4 = refl;
  here3 = refl;
  here2 = refl;
  small3 = refl;
  small2 = refl;
}

unmap_page-removes_example :
    (mem' : Memory) × (unmap_page true 0x1000 tables 0 false ≡ done (mem', unmapped))
    × (get_phys_addr true 0x1000 mem' 0 ≡ done not_there)
    × IsTree true levels mem'
unmap_page-removes_example =
    unmap_page-removes true levels tables 0 0x1000 0x2003 0x3003 0x4003 refl tables-IsTree refl
      tables_path false

copy_pml4_upper-shares_example :
    (mem' : Memory) × (copy_pml4_upper true 0x5000 0x1000 tables ≡ done mem')
    × (get_phys_addr true 0x5000 mem' 0xffff900000000000
        ≡ get_phys_addr true 0x1000 tables 0xffff900000000000)
copy_pml4_upper-shares_example =
    copy_pml4_upper-shares true levels tables 0x5000 0x1000 0xffff900000000000 tables-IsTree refl
      refl (λ e. absurd (omega (arith, e))) (omega arith) (omega arith)
