-- ===== src/Memory/PhysicalAllocator/Pages.antt =====
-- `AllocatePage` against the list of the addresses of the free pages: it takes the first of them.
use kush_os_rewrite.Base.{
  ℕ, min, List, [], ◌∷◌, length, drop, get_elem?, set, Option, none, some, arith,
}
use kush_os_rewrite.Base.{◌≡◌, refl, ap, ◌∙◌, done, wild}
use kush_os_rewrite.Memory.Region.{Region}
use kush_os_rewrite.Memory.Pool
use kush_os_rewrite.Memory.Pool.{Pool}
use kush_os_rewrite.Memory.Pool.Alloc.{AreValid, alloc_run}
use kush_os_rewrite.Memory.Pool.One.{
  free_addrs, TakesFirstAddress, alloc_from-one, TakesNone, alloc_from-none,
}
use kush_os_rewrite.Memory.PhysicalAllocator.{
  State, PhysicalAllocator, get_pool, put_pool, allocate_page, allocate_pages,
}

-- The first pool has valid regions, whose free pages have these addresses.
pub record Serves (s : State) (page_size : ℕ) (addrs : List ℕ) : Type 0 where
  pub allocator : PhysicalAllocator
  pub pool : Pool
  pub shared : s.shared ≡ some allocator
  pub first : get_elem? allocator.pools 0 ≡ some (some pool)
  pub same_size : pool.page_size ≡ page_size
  pub valid : AreValid pool.regions
  pub free : free_addrs page_size pool.regions ≡ addrs

get_elem?-set_first :
    {A : Type 0} (xs : List A) (v : A) {y : A}
    → get_elem? xs 0 ≡ some y
    → get_elem? (set xs 0 v) 0 ≡ some v
get_elem?-set_first [] v e = cc
get_elem?-set_first (x ∷ xs) v e = refl

-- The address that is stored.
abbrev pub first_or : List ℕ → ℕ → ℕ
first_or [] out = out
first_or (a ∷ rest) out = a

module _ (s : State) (page_size out : ℕ) (addrs : List ℕ) (v : Serves s page_size addrs) where
  -- The pool with other regions.
  abbrev pool' : List Region → Pool
  pool' regions' = record v.pool { regions = regions' }

  abbrev state' : List Region → State
  state' regions' = put_pool s v.allocator 0 (pool' regions')

  got_pool : get_pool s 0 ≡ done (v.allocator, v.pool)
  unfolding get_pool
  got_pool =
      ap
        (λ (o : Option PhysicalAllocator). elim o [
          | none ↦ wild
          | some a ↦ elim (get_elem? a.pools 0) [
            | none ↦ wild
            | some entry ↦ elim entry [ none ↦ wild | some p ↦ done (a, p) ]
          ]
        ])
        v.shared
      ∙ ap
          (λ (o : Option (Option Pool)). elim o [
            | none ↦ wild
            | some entry ↦ elim entry [ none ↦ wild | some p ↦ done (v.allocator, p) ]
          ])
          v.first

  alloc_one :
      (regions' : List Region) (count : ℕ) (buffer : List ℕ)
      → Pool.alloc_from page_size 1 v.pool.regions 0 (out ∷ [])
        ≡ done (record { regions = regions'; allocated = count; buffer = buffer; failed = none })
      → Pool.alloc v.pool 1 (out ∷ []) ≡ done (pool' regions', count, buffer)
  alloc_one regions' count buffer e =
      alloc_run v.pool 1 (out ∷ []) regions' count buffer none
        (ap (λ (n : ℕ). Pool.alloc_from n 1 v.pool.regions 0 (out ∷ [])) v.same_size ∙ e) refl

  runs :
      (regions' : List Region) (count : ℕ) (buffer : List ℕ)
      → Pool.alloc_from page_size 1 v.pool.regions 0 (out ∷ [])
        ≡ done (record { regions = regions'; allocated = count; buffer = buffer; failed = none })
      → allocate_page s out ≡ done (state' regions', count, buffer)
  unfolding allocate_page allocate_pages
  runs regions' count buffer e = rw (got_pool, alloc_one regions' count buffer e) refl

  serves :
      (regions' : List Region) (rest : List ℕ)
      → free_addrs page_size regions' ≡ rest
      → AreValid regions'
      → Serves (state' regions') page_size rest
  serves regions' rest left valid = record {
    allocator = record v.allocator { pools = set v.allocator.pools 0 (some (pool' regions')) };
    pool = pool' regions';
    shared = refl;
    first = get_elem?-set_first v.allocator.pools (some (pool' regions')) v.first;
    same_size = v.same_size;
    valid = valid;
    free = left;
  }

-- `AllocatePage`, when the first pool's regions are valid: it always returns; with a free page it
-- returns 1, stores the address of the first free page, and leaves exactly the others free; without
-- one it returns 0 and stores nothing. The regions stay valid.
pub allocate_page-Serves :
    (s : State) (page_size out : ℕ) (addrs : List ℕ)
    → Serves s page_size addrs
    → (s' : State) × (allocate_page s out
        ≡ done (s', min (length addrs) 1, first_or addrs out ∷ []))
      × Serves s' page_size (drop 1 addrs)
allocate_page-Serves s page_size out [] v =
    let t : TakesNone page_size v.pool.regions out =
      alloc_from-none page_size v.pool.regions out v.valid v.free in
    (
      state' s page_size out [] v t.regions',
      runs s page_size out [] v t.regions' 0 (out ∷ []) t.result,
      serves s page_size out [] v t.regions' [] t.left t.valid,
    )
allocate_page-Serves s page_size out (a ∷ rest) v =
    let t : TakesFirstAddress page_size v.pool.regions out a rest =
      alloc_from-one page_size v.pool.regions out a rest v.valid v.free in
    let one : min (length (a ∷ rest)) 1 ≡ 1 = omega arith in
    (
      state' s page_size out (a ∷ rest) v t.regions',
      rw one (runs s page_size out (a ∷ rest) v t.regions' 1 (a ∷ []) t.result),
      serves s page_size out (a ∷ rest) v t.regions' rest t.left t.valid,
    )
