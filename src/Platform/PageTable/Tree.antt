-- ===== src/Platform/PageTable/Tree.antt =====
-- Page tables as a tree of levels, and one level of `mapPage` in it.
use kush_os_rewrite.Base.{ℕ, suc, ◌+◌, ◌-◌, ◌/◌, ◌%◌, ◌^◌, ◌<◌, Bool, true, false, bit_and, arith}
use kush_os_rewrite.Base.{◌≡◌, ◌≢◌, ◌⊎◌, ◌==◌, ltb, leb, if◌then◌else◌, lt→ltb}
use kush_os_rewrite.Base.{◌&&◌, Outcome, done}
use kush_os_rewrite.Base.Bits.{bit_and-low}
use kush_os_rewrite.Platform.PageTable.{present, large, table_addr, index, Memory, slot, write_slot}
use kush_os_rewrite.Platform.PageTable.{get_table_vm_addr, read_table, write_table}
use kush_os_rewrite.Platform.PhysicalMap

-- Tables stand below this physical address, so that the code can reach them.
abbrev pub limit : Bool → ℕ
limit true = 2 ^ 32
limit false = 2 ^ 41 - 4096

-- The level of each page: 4 to 1 for the tables from the PML4 down, 0 for a page that is no table.
abbrev pub Levels : Type 0
Levels = ℕ → ℕ

abbrev pub assign : Levels → ℕ → ℕ → Levels
assign level page l q = if q == page then l else level q

pub record IsTree (early : Bool) (level : Levels) (mem : Memory) : Type 0 where
  pub aligned : (t : ℕ) → 0 < level t → (t % 4096 ≡ 0) × (t < limit early)
  -- An entry of a table leads one level down, unless it maps a large page (in a PML4 it cannot).
  pub down :
      (t i l : ℕ)
      → level t ≡ suc (suc l)
      → i < 512
      → present (mem (slot t i)) ≡ true
      → (large (mem (slot t i)) ≡ false) ⊎ (l ≡ 2)
      → level (table_addr (mem (slot t i))) ≡ suc l
  -- The one entry that leads to a table: no table is shared.
  pub owner : ℕ → ℕ
  pub owned :
      (t i l : ℕ)
      → level t ≡ suc (suc l)
      → i < 512
      → present (mem (slot t i)) ≡ true
      → (large (mem (slot t i)) ≡ false) ⊎ (l ≡ 2)
      → owner (table_addr (mem (slot t i))) ≡ slot t i

-- What the tables need of the page allocator. `Spare level s`: the pages that it can still give are
-- no tables; `room s`: how many they are.
pub record PageSource {S : Type 0} (early : Bool) (allocate_page : S → Outcome (S × ℕ × ℕ))
    : Type 1 where
  pub Spare : Levels → S → Type 0
  pub room : S → ℕ
  pub give :
      (level : Levels) (s : S)
      → Spare level s
      → 0 < room s
      → (s' : S) × (page : ℕ) × (allocate_page s ≡ done (s', 1, page))
        × (0 < page)
        × (page % 4096 ≡ 0)
        × (page < limit early)
        × (level page ≡ 0)
        × (room s ≡ suc (room s'))
        × ((l : ℕ) → Spare (assign level page l) s')

pub index-lt : (shift virt : ℕ) → index shift virt < 512
unfolding index
index-lt shift virt = omega (arith, bit_and-low 9 (bit_and virt 0xffffffffffff / 2 ^ shift))

pub slot-injective :
    (q j t i : ℕ)
    → q % 4096 ≡ 0
    → t % 4096 ≡ 0
    → j < 512
    → i < 512
    → slot q j ≡ slot t i
    → (q ≡ t) × (j ≡ i)
slot-injective q j t i hq ht hj hi e = omega arith

pub outside_page :
    (q j p : ℕ)
    → q % 4096 ≡ 0
    → p % 4096 ≡ 0
    → j < 512
    → q ≢ p
    → (leb p (slot q j) && ltb (slot q j) (p + 4096)) ≡ false
outside_page q j p hq hp hj ne = ground arith

pub inside_page : (j p : ℕ) → j < 512 → (leb p (slot p j) && ltb (slot p j) (p + 4096)) ≡ true
inside_page j p hj = ground arith

pub vm_addr : Bool → ℕ → ℕ
vm_addr true t = t
vm_addr false t = 0xffff800000000000 + t

pub reachable :
    (early : Bool) (t : ℕ) → t < limit early → get_table_vm_addr early t ≡ done (vm_addr early t)
unfolding get_table_vm_addr PhysicalMap.add vm_addr
reachable true t h = rw (lt→ltb t 0x100000000 h)
reachable false t h = rw (lt→ltb t (2 ^ 41 - 4096) h)

pub read_table_lem :
    (early : Bool) (mem : Memory) (t i : ℕ)
    → t < limit early
    → i < 512
    → read_table early mem t i ≡ done (mem (slot t i))
unfolding read_table
read_table_lem early mem t i h k =
    let e : leb i 511 ≡ true = ground arith in rw (e, reachable early t h)

pub write_table_lem :
    (early : Bool) (mem : Memory) (t i val : ℕ)
    → t < limit early
    → i < 512
    → write_table early mem t i val ≡ done (write_slot mem (slot t i) val)
unfolding write_table
write_table_lem early mem t i val h k =
    let e : leb i 511 ≡ true = ground arith in rw (e, reachable early t h)
