-- ===== src/Memory/PhysicalAllocator.antt =====
-- The physical allocator: Core/Kernel/Sources/Memory/PhysicalAllocator.cpp and
-- Core/Kernel/Includes/Memory/PhysicalAllocator.h.
-- The state is `gShared` with the count of regions that pools keep globally. A null entry of
-- `pools` is `none`, and a call through it is an access through a null pointer.
pub mod Pages
use kush_os_rewrite.Base.{
  ℕ, zero, suc, ◌+◌, ◌-◌, ◌/◌, ◌%◌, Bool, true, false, not, ◌&&◌, List, [], ◌∷◌, length, set,
}
use kush_os_rewrite.Base.{
  ◌==◌, ltb, leb, u8, u32, sub64, bit_and, ffs64, get_elem?, Option, none, some,
}
use kush_os_rewrite.Base.{Outcome, done, wild, require, ◌>>=◌, ◌>>◌}
use kush_os_rewrite.Memory.Pool
use kush_os_rewrite.Memory.Pool.{Pool}

abbrev pub max_extra_sizes : ℕ
max_extra_sizes = 4

abbrev pub max_pools : ℕ
max_pools = 4

pub record PhysicalAllocator : Type 0 where
  pub page_size : ℕ
  pub extra_page_sizes : List ℕ
  pub pools : List (Option Pool)

pub record State : Type 0 where
  pub shared : Option PhysicalAllocator
  pub regions_used : ℕ

-- The number of set bits among the w lowest.
unfoldable pub popcount_width : ℕ → ℕ → ℕ
popcount_width zero v = 0
popcount_width (suc w) v = v % 2 + popcount_width w (v / 2)

-- `__builtin_popcount`, whose argument is an `unsigned int`
unfoldable pub popcount : ℕ → ℕ
unfolding popcount_width
popcount v = popcount_width 32 (u32 v)

-- The loop over `extraSizes`: each becomes a power relative to the page size's.
unfoldable pub extra_powers : ℕ → List ℕ → Outcome (List ℕ)
extra_powers base [] = done []
extra_powers base (size ∷ sizes) = do
  require (popcount size == 1)
  powers ← extra_powers base sizes
  done (u8 (sub64 (ffs64 size - 1) base) ∷ powers)

-- The constructor. The bonus pools are not made yet in the code either.
unfoldable pub create : ℕ → List ℕ → Outcome PhysicalAllocator
unfolding popcount extra_powers
create page_size extra_sizes = do
  require (popcount page_size == 1)
  require (leb (length extra_sizes) max_extra_sizes)
  powers ← extra_powers (ffs64 page_size - 1) extra_sizes
  done (record {
    page_size = page_size;
    extra_page_sizes = powers;
    pools = some (record { page_size = page_size; regions = [] }) ∷ none ∷ none ∷ none ∷ [];
  })

abbrev is_none {ℓ} : {A : Type ℓ} → Option A → Bool
is_none none = true
is_none (some a) = false

-- `Init`
unfoldable pub init : State → ℕ → List ℕ → Outcome State
unfolding create
init s page_size extra_sizes = do
  a ← create page_size extra_sizes
  require (is_none s.shared)
  done (record s { shared = some a })

-- `gShared->pools[pool]`, after the check of the index.
unfoldable pub get_pool : State → ℕ → Outcome (PhysicalAllocator × Pool)
get_pool s pool = elim s.shared [
  | none ↦ wild
  | some a ↦ elim (get_elem? a.pools pool) [
    | none ↦ wild
    | some entry ↦ elim entry [ none ↦ wild | some p ↦ done (a, p) ]
  ]
]

abbrev pub put_pool : State → PhysicalAllocator → ℕ → Pool → State
put_pool s a pool p = record s { shared = some (record a { pools = set a.pools pool (some p) }) }

-- `AddRegion`
unfoldable pub add_region : Bool → (ℕ → ℕ) → State → ℕ → ℕ → ℕ → Outcome State
unfolding get_pool
add_region early memory s base len pool = elim s.shared [
  | none ↦ wild
  | some a ↦ do
    require (bit_and base (sub64 a.page_size 1) == 0)
    require (not (len == 0) && (bit_and len (sub64 a.page_size 1) == 0))
    require (ltb pool max_pools)
    at ← get_pool s pool
    made ← Pool.add_region early memory s.regions_used at.1 base len
    done (record (put_pool s at.0 pool made.1) { regions_used = made.0 })
]

-- `AllocatePages`; the buffer has room for the pages.
unfoldable pub allocate_pages : State → ℕ → List ℕ → ℕ → Outcome (State × ℕ × List ℕ)
unfolding get_pool
allocate_pages s num buffer pool = do
  require (not (num == 0))
  require (ltb pool max_pools)
  at ← get_pool s pool
  got ← Pool.alloc at.1 num buffer
  done (put_pool s at.0 pool got.0, got.1, got.2)

-- `AllocatePage`: a buffer of one entry.
unfoldable pub allocate_page : State → ℕ → Outcome (State × ℕ × List ℕ)
unfolding allocate_pages
allocate_page s out = allocate_pages s 1 (out ∷ []) 0

-- `FreePages`
unfoldable pub free_pages : State → List ℕ → ℕ → Outcome (State × ℕ)
unfolding get_pool
free_pages s addrs pool = do
  require (not (length addrs == 0))
  require (ltb pool max_pools)
  at ← get_pool s pool
  got ← Pool.free at.1 addrs
  done (put_pool s at.0 pool got.1, got.0)

-- `FreePage`
unfoldable pub free_page : State → ℕ → Outcome (State × ℕ)
unfolding free_pages
free_page s addr = free_pages s (addr ∷ []) 0

-- `GetTotalPages`
unfoldable pub get_total_pages : State → ℕ → Outcome ℕ
unfolding get_pool
get_total_pages s pool = do
  require (ltb pool max_pools)
  at ← get_pool s pool
  done (Pool.total_pages at.1)

-- `GetAllocPages`
unfoldable pub get_alloc_pages : State → ℕ → Outcome ℕ
unfolding get_pool
get_alloc_pages s pool = do
  require (ltb pool max_pools)
  at ← get_pool s pool
  done (Pool.allocated_pages at.1)
