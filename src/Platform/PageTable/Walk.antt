-- ===== src/Platform/PageTable/Walk.antt =====
-- A walk of `getPhysAddr` along present entries.
use kush_os_rewrite.Base.{ℕ, ◌+◌, ◌<◌, Bool, true, false, u64, bit_and}
use kush_os_rewrite.Base.{◌≡◌, Outcome, done, none, some}
use kush_os_rewrite.Platform.PageTable.{
  present, large, table_addr, index, Memory, slot, walk_table, get_phys_addr, not_canonical,
  decode_phys, decode_mode, Lookup, found, not_found,
}
use kush_os_rewrite.Platform.PageTable.Tree.{limit, read_table_lem, index-lt}

-- One step of a walk, at an entry that is known.
pub walk-present :
    {A : Type 0} (early : Bool) (mem : Memory) (t i entry : ℕ) (absent : A) (next : ℕ → Outcome A)
    → t < limit early
    → i < 512
    → mem (slot t i) ≡ entry
    → present entry ≡ true
    → walk_table early mem t i absent next ≡ next entry
unfolding walk_table
walk-present early mem t i entry absent next low small e p =
    rw (read_table_lem early mem t i low small, e, p)

-- And at an entry that is not present.
pub walk-absent :
    {A : Type 0} (early : Bool) (mem : Memory) (t i : ℕ) (absent : A) (next : ℕ → Outcome A)
    → t < limit early
    → i < 512
    → present (mem (slot t i)) ≡ false
    → walk_table early mem t i absent next ≡ done absent
unfolding walk_table
walk-absent early mem t i absent next low small p = rw (read_table_lem early mem t i low small, p)

abbrev pub not_there : Lookup
not_there = record { status = not_found; out = none }

-- The entries of the upper three tables on the way to an address.
pub record Path4 (early : Bool) (mem : Memory) (virt pml4 e4 e3 e2 : ℕ) : Type 0 where
  pub low4 : pml4 < limit early
  pub low3 : table_addr e4 < limit early
  pub low2 : table_addr e3 < limit early
  pub low1 : table_addr e2 < limit early
  pub at4 : mem (slot pml4 (index 39 virt)) ≡ e4
  pub at3 : mem (slot (table_addr e4) (index 30 virt)) ≡ e3
  pub at2 : mem (slot (table_addr e3) (index 21 virt)) ≡ e2
  pub here4 : present e4 ≡ true
  pub here3 : present e3 ≡ true
  pub here2 : present e2 ≡ true
  pub small3 : large e3 ≡ false
  pub small2 : large e2 ≡ false

module _ (early : Bool) (mem : Memory) (virt pml4 e4 e3 e2 : ℕ)
    (canonical : not_canonical virt ≡ false) (path : Path4 early mem virt pml4 e4 e3 e2) where
  pub get_phys_addr-found :
      (pte : ℕ)
      → mem (slot (table_addr e2) (index 12 virt)) ≡ pte
      → present pte ≡ true
      → get_phys_addr early pml4 mem virt
        ≡ done (record {
          status = found;
          out = some (u64 (decode_phys pte + bit_and virt 0xfff), decode_mode pte);
        })
  unfolding get_phys_addr
  get_phys_addr-found pte at1 here1 = rw (
    canonical,
    walk-present early mem pml4 (index 39 virt) e4 not_there _ path.low4 (index-lt 39 virt) path.at4
        path.here4,
    walk-present early mem (table_addr e4) (index 30 virt) e3 not_there _ path.low3
        (index-lt 30 virt) path.at3 path.here3,
    path.small3,
    walk-present early mem (table_addr e3) (index 21 virt) e2 not_there _ path.low2
        (index-lt 21 virt) path.at2 path.here2,
    path.small2,
    walk-present early mem (table_addr e2) (index 12 virt) pte not_there _ path.low1
        (index-lt 12 virt) at1 here1,
  )
