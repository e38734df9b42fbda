-- ===== src/Memory/Tests.antt =====
-- The theorems on Region.cpp and Pool.cpp at small concrete regions.
use kush_os_rewrite.Base.{
  ℕ, ◌+◌, ◌-◌, ◌*◌, ◌<◌, ◌^◌, min, true, false, arith, List, [], ◌∷◌, length, get_or,
}
use kush_os_rewrite.Base.{◌≡◌, refl, Outcome, done}
use kush_os_rewrite.Memory.Region
use kush_os_rewrite.Memory.Region.{Region}
use kush_os_rewrite.Memory.Region.Alloc.{IsValid, TakesPages, alloc-TakesPages, free_pages, free_in}
use kush_os_rewrite.Memory.Bitmap.{set_bits}
use kush_os_rewrite.Memory.Region.Chunk.{page_addr}
use kush_os_rewrite.Memory.Region.Free.{free_small_region, is_free}
use kush_os_rewrite.Memory.Region.Init.{IsFresh, init-IsFresh, init_past_end}
use kush_os_rewrite.Memory.Pool
use kush_os_rewrite.Memory.Pool.{Pool, store}
use kush_os_rewrite.Memory.Pool.Alloc.{
  AreValid, free_count, addrs_of, alloc_count, alloc_overwrites,
}
use kush_os_rewrite.Platform.PhysicalMap

-- Ten pages at 1 MiB, one of them for the bitmap; pages 1, 3 and 4 of the rest are free.
abbrev low_region : Region
low_region = record {
  phys_base = 0x100000;
  num_pages = 10;
  bitmap_phys = 0x100000;
  bitmap_size = 9;
  bitmap_reserved = 4096;
  bitmap_addr = 0x100000;
  bitmap = 26 ∷ [];
  alloc_base_phys = 0x101000;
  num_allocated = 6;
}

-- A second one, at 2 MiB, with pages 0 and 2 free.
abbrev high_region : Region
high_region = record {
  phys_base = 0x200000;
  num_pages = 10;
  bitmap_phys = 0x200000;
  bitmap_size = 9;
  bitmap_reserved = 4096;
  bitmap_addr = 0x200000;
  bitmap = 5 ∷ [];
  alloc_base_phys = 0x201000;
  num_allocated = 7;
}

low_region-IsValid : IsValid low_region
low_region-IsValid = record { holds = omega arith; words = (omega arith, tt) }

high_region-IsValid : IsValid high_region
high_region-IsValid = record { holds = omega arith; words = (omega arith, tt) }

alloc-TakesPages_example : TakesPages low_region 4096 2
alloc-TakesPages_example = alloc-TakesPages low_region 4096 2 low_region-IsValid (omega arith)

-- What the region gives for two pages.
low_region_pages :
    Region.alloc low_region 4096 2
    ≡ done (record low_region { bitmap = 16 ∷ []; num_allocated = 8 }, 2, 0x102000 ∷ 0x104000 ∷ [])
unfolding Region.alloc kush_os_rewrite.Base.ffs64
low_region_pages = refl

-- A region whose pages outnumber the bytes of its bitmap, so that `contains` holds of the first.
abbrev wide_region : Region
wide_region = record {
  phys_base = 0x100000;
  num_pages = 5000;
  bitmap_phys = 0x100000;
  bitmap_size = 64;
  bitmap_reserved = 4096;
  bitmap_addr = 0x100000;
  bitmap = 26 ∷ [];
  alloc_base_phys = 0x101000;
  num_allocated = 6;
}

free_small_region_example :
    Region.free low_region 4096 (0x101000 ∷ 0x103000 ∷ []) ≡ done (0, low_region)
free_small_region_example =
    free_small_region low_region 4096 (0 ∷ 2 ∷ []) refl (omega arith)
      (omega arith, (omega arith, tt))

abbrev blank : ℕ → ℕ
blank k = 0

abbrev made : Region
made = record {
  phys_base = 0x100000;
  num_pages = 10;
  bitmap_phys = 0x100000;
  bitmap_size = 9;
  bitmap_reserved = 4096;
  bitmap_addr = 0x100000;
  bitmap = Region.fill_bytes 2 (Region.words_from blank 0 512);
  alloc_base_phys = 0x101000;
  num_allocated = 0;
}

makes : Region.init true 4096 blank 0x100000 0xa000 ≡ done made
unfolding Region.init PhysicalMap.add
makes = refl

init-IsFresh_example : IsFresh made 4096 0x100000 0xa000
init-IsFresh_example =
    init-IsFresh true 4096 blank 0x100000 0xa000 (omega arith) (omega arith) (omega arith)
      (λ k. omega arith) makes

init_past_end_example : (is_free made 9 ≡ true) × (page_addr 0x101000 4096 9 ≡ 0x100000 + 10 * 4096)
init_past_end_example =
    init_past_end true 4096 blank 0x100000 0xa000 (omega arith) (omega arith) (omega arith)
      (λ k. omega arith) makes

abbrev two_regions : Pool
two_regions = record { page_size = 4096; regions = low_region ∷ high_region ∷ [] }

abbrev buffer_of_four : List ℕ
buffer_of_four = 0 ∷ 0 ∷ 0 ∷ 0 ∷ []

alloc_count_example :
    (regions' : List Region) × (buffer' : List ℕ) × (Pool.alloc two_regions 4 buffer_of_four
      ≡ done (
        record two_regions { regions = regions' },
        min (free_count two_regions.regions) 4,
        buffer',
      ))
    × (free_count regions' ≡ free_count two_regions.regions - 4)
    × AreValid regions'
    × (length buffer' ≡ length buffer_of_four)
alloc_count_example =
    alloc_count two_regions 4 buffer_of_four (low_region-IsValid, (high_region-IsValid, tt))
      (omega arith) (omega arith) (omega arith)

three_free : length (free_pages low_region) ≡ 3
unfolding free_in set_bits
three_free = refl

two_free : length (free_pages high_region) ≡ 2
unfolding free_in set_bits
two_free = refl

alloc_overwrites_example :
    (pool' : Pool) × (buffer' : List ℕ) × (Pool.alloc two_regions 4 buffer_of_four
      ≡ done (pool', 4, buffer'))
    × (buffer'
        ≡ store
            (addrs_of high_region 4096 (4 - length (free_pages low_region)))
            (store (addrs_of low_region 4096 4) buffer_of_four))
    × (get_or buffer' 3 0 ≡ 0)
alloc_overwrites_example =
    alloc_overwrites two_regions low_region high_region 4 buffer_of_four 0 refl low_region-IsValid
      high_region-IsValid (omega (arith, three_free)) (omega (arith, three_free))
      (omega (arith, three_free, two_free)) (omega arith) (omega arith)
