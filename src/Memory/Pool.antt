-- ===== src/Memory/Pool.antt =====
-- Pools of regions: Core/Kernel/Sources/Memory/Pool.cpp and Core/Kernel/Includes/Memory/Pool.h.
-- `regions` lists the entries of the array before its first null pointer. The page size is that of
-- the allocator which owns the pool.
pub mod Alloc
pub mod One
use kush_os_rewrite.Base.{ℕ, zero, suc, ◌+◌, ◌-◌, Bool, true, false, List, [], ◌∷◌, ◌++◌, length}
use kush_os_rewrite.Base.{
  ◌==◌, ltb, leb, if◌then◌else◌, u32, u64, sub64, to_size, is_negative, take, Option, none, some,
  Outcome, done, require, in_bounds, ◌>>=◌, ◌>>◌,
}
use kush_os_rewrite.Memory.Region
use kush_os_rewrite.Memory.Region.{Region}

pub record Pool : Type 0 where
  pub page_size : ℕ
  pub regions : List Region

abbrev pub max_regions : ℕ
max_regions = 16

abbrev pub max_global_regions : ℕ
max_global_regions = 48

-- `addRegion`, with the number of regions made so far in all pools before and after.
-- `memory` holds the words at the region's base.
unfoldable pub add_region : Bool → (ℕ → ℕ) → ℕ → Pool → ℕ → ℕ → Outcome (ℕ × Pool)
add_region early memory used pool base len = do
  require (ltb used max_global_regions)
  require (ltb (length pool.regions) max_regions)
  r ← Region.init early pool.page_size memory base len
  done (used + 1, record pool { regions = pool.regions ++ (r ∷ []) })

-- Stores to the front of a buffer.
unfoldable pub store : List ℕ → List ℕ → List ℕ
store [] buffer = buffer
store (a ∷ rest) [] = []
store (a ∷ rest) (b ∷ buffer) = a ∷ store rest buffer

-- What the loop of `alloc` hands on; `failed` is the error of a region, if there was one.
pub record Given : Type 0 where
  pub regions : List Region
  pub allocated : ℕ
  pub buffer : List ℕ
  pub failed : Option ℕ

-- The loop of `alloc` over the regions that are left. Each region stores its addresses at `outPtr`,
-- which the loop does not move. `allocated` and `err` are of type `int`; the sum of two that are not
-- negative, where it overflows, wraps around.
unfoldable pub alloc_from : ℕ → ℕ → List Region → ℕ → List ℕ → Outcome Given
unfolding store
alloc_from page_size num [] allocated buffer =
    done (record { regions = []; allocated = allocated; buffer = buffer; failed = none })
alloc_from page_size num (r ∷ rs) allocated buffer =
    Region.alloc r page_size (sub64 num (to_size allocated)) >>= λ got.
    in_bounds (leb (length got.2) (length buffer))
    >> (let rest : Outcome Given =
          alloc_from page_size num rs (u32 (allocated + got.1)) (store got.2 buffer) >>= λ g.
          done (record g { regions = got.0 ∷ g.regions }) in
        if is_negative got.1
        then done (record {
          regions = got.0 ∷ rs;
          allocated = allocated;
          buffer = store got.2 buffer;
          failed = some got.1;
        })
        else if to_size (u32 (allocated + got.1)) == num
        then done (record {
          regions = got.0 ∷ rs;
          allocated = u32 (allocated + got.1);
          buffer = store got.2 buffer;
          failed = none;
        })
        else rest)

unfoldable pub free_from : ℕ → List ℕ → List Region → ℕ → Outcome (ℕ × List Region)
free_from page_size addrs [] freed = done (freed, [])
free_from page_size addrs (r ∷ rs) freed = Region.free r page_size addrs >>= λ s.
    let rest : Outcome (ℕ × List Region) =
      free_from page_size addrs rs (freed + s.0) >>= λ t. done (t.0, s.1 ∷ t.1) in
    if freed + s.0 == length addrs then done (freed + s.0, s.1 ∷ rs) else rest

-- `free`, of the addresses in the buffer.
unfoldable pub free : Pool → List ℕ → Outcome (ℕ × Pool)
unfolding free_from
free pool addrs =
    free_from pool.page_size addrs pool.regions 0 >>= λ s. done (s.0, record pool { regions = s.1 })

-- `alloc`: the pool, the number of pages or the error, as the word of an `int`, and the buffer
-- afterwards. After an error, the pages counted so far are freed.
unfoldable pub alloc : Pool → ℕ → List ℕ → Outcome (Pool × ℕ × List ℕ)
unfolding free
alloc pool num buffer = alloc_from pool.page_size num pool.regions 0 buffer >>= λ g.
    let pool' : Pool = record pool { regions = g.regions } in
    elim g.failed [
      | none ↦ done (pool', g.allocated, g.buffer)
      | some err ↦
          if g.allocated == 0
          then done (pool', err, g.buffer)
          else (in_bounds (leb (to_size g.allocated) (length g.buffer))
              >> (free pool' (take (to_size g.allocated) g.buffer) >>= λ f.
                  done (f.1, err, g.buffer)))
    ]

unfoldable pub sum_sizes : List Region → ℕ → ℕ
sum_sizes [] sum = sum
sum_sizes (r ∷ rs) sum = sum_sizes rs (u64 (sum + r.bitmap_size))

-- `getTotalPages`
unfoldable pub total_pages : Pool → ℕ
unfolding sum_sizes
total_pages pool = sum_sizes pool.regions 0

unfoldable pub sum_allocated : List Region → ℕ → ℕ
sum_allocated [] sum = sum
sum_allocated (r ∷ rs) sum = sum_allocated rs (u64 (sum + r.num_allocated))

-- `getAllocatedPages`
unfoldable pub allocated_pages : Pool → ℕ
unfolding sum_allocated
allocated_pages pool = sum_allocated pool.regions 0
