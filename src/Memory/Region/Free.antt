-- ===== src/Memory/Region/Free.antt =====
-- `Region::free`, bit by bit.
use kush_os_rewrite.Base.{
  ℕ, zero, suc, ◌+◌, ◌*◌, ◌/◌, ◌%◌, ◌^◌, ◌≤◌, ◌<◌, Bool, true, false, ◌&&◌, ◌||◌,
}
use kush_os_rewrite.Base.{
  List, [], ◌∷◌, length, get_or, set, map, u64, sub64, bit64, test_bit, bit_or,
}
use kush_os_rewrite.Base.{◌≡◌, refl, ap, ◌∙◌, arith, Outcome, done, ltb, leb, if◌then◌else◌, ◌==◌}
use kush_os_rewrite.Memory.Region.{Region, contains, free_from, free}
use kush_os_rewrite.Memory.Region.Chunk.{page_addr}

-- Page `page` is marked free in a bitmap.
abbrev pub bit_of : List ℕ → ℕ → Bool
bit_of words page = test_bit (get_or words (page / 64) 0) (page % 64)

abbrev pub is_free : Region → ℕ → Bool
is_free r page = bit_of r.bitmap page

-- The code's test of an address, and the page that it then computes, from a region's fields.
abbrev pub inside : ℕ → ℕ → ℕ → Bool
inside phys_base num_pages addr = leb phys_base addr && ltb addr (u64 (phys_base + num_pages))

abbrev pub page_of : ℕ → ℕ → ℕ → ℕ
page_of alloc_base page_size addr = sub64 addr alloc_base / page_size

abbrev mark : List ℕ → ℕ → List ℕ
mark words page = set words (page / 64) (bit_or (get_or words (page / 64) 0) (bit64 (page % 64)))

module _ (base num alloc_base page_size : ℕ) where
  -- Every address that passes the code's test has a page with a bit among `n` words.
  abbrev pub HaveBits : ℕ → List ℕ → Type 0
  HaveBits n [] = Unit {0}
  HaveBits n (a ∷ rest) =
      (inside base num a ≡ true → page_of alloc_base page_size a / 64 < n) × HaveBits n rest

  -- How many of the addresses pass the test, and whether one of those stands for the page `q`.
  unfoldable pub hits : List ℕ → ℕ
  hits [] = 0
  hits (a ∷ rest) = (if inside base num a then 1 else 0) + hits rest

  unfoldable pub names : ℕ → List ℕ → Bool
  names q [] = false
  names q (a ∷ rest) = (inside base num a && q == page_of alloc_base page_size a) || names q rest

-- The bookkeeping of `n` pages freed: `numAllocated--` for each.
unfoldable pub minus : ℕ → ℕ → ℕ
minus zero count = count
minus (suc n) count = minus n (sub64 count 1)

abbrev pub hits_of : Region → ℕ → List ℕ → ℕ
hits_of r page_size addrs = hits r.phys_base r.num_pages r.alloc_base_phys page_size addrs

abbrev pub names_of : Region → ℕ → ℕ → List ℕ → Bool
names_of r page_size q addrs = names r.phys_base r.num_pages r.alloc_base_phys page_size q addrs

abbrev pub BitsFor : Region → ℕ → List ℕ → Type 0
BitsFor r page_size addrs =
    HaveBits r.phys_base r.num_pages r.alloc_base_phys page_size (length r.bitmap) addrs

-- What a call of `free` does: it counts the addresses that pass the test of `contains`, and marks
-- exactly their pages free, beside those that were.
pub record Frees (r : Region) (page_size freed : ℕ) (addrs : List ℕ)
    (outcome : Outcome (ℕ × Region)) : Type 0 where
  pub bitmap' : List ℕ
  pub same_length : length bitmap' ≡ length r.bitmap
  pub result :
      outcome
      ≡ done (
        freed + hits_of r page_size addrs,
        record r {
          bitmap = bitmap';
          num_allocated = minus (hits_of r page_size addrs) r.num_allocated;
        },
      )
  pub marked : (q : ℕ) → bit_of bitmap' q ≡ (names_of r page_size q addrs || is_free r q)

abbrev freed_one : Region → ℕ → ℕ → Region
freed_one r page_size a = record r {
  bitmap = mark r.bitmap (page_of r.alloc_base_phys page_size a);
  num_allocated = sub64 r.num_allocated 1;
}

contains_lem : (r : Region) (a : ℕ) → contains r a ≡ inside r.phys_base r.num_pages a
unfolding contains
contains_lem r a = refl

skip :
    (r : Region) (page_size freed a : ℕ) (rest : List ℕ)
    → inside r.phys_base r.num_pages a ≡ false
    → free_from r page_size freed (a ∷ rest) ≡ free_from r page_size (freed + 0) rest
unfolding free_from
skip r page_size freed a rest out = rw (contains_lem r a ∙ out)

misses :
    (r : Region) (page_size page : ℕ)
    → r.alloc_base_phys ≡ r.phys_base + r.bitmap_reserved
    → r.num_pages ≤ r.bitmap_reserved
    → r.alloc_base_phys + page * page_size < 2 ^ 64
    → inside r.phys_base r.num_pages (page_addr r.alloc_base_phys page_size page) ≡ false
misses r page_size page e few fits = ground arith

abbrev pub Fit : Region → ℕ → List ℕ → Type 0
Fit r page_size [] = Unit {0}
Fit r page_size (p ∷ ps) = (r.alloc_base_phys + p * page_size < 2 ^ 64) × Fit r page_size ps

ignores :
    (r : Region) (page_size freed : ℕ) (pages : List ℕ)
    → r.alloc_base_phys ≡ r.phys_base + r.bitmap_reserved
    → r.num_pages ≤ r.bitmap_reserved
    → Fit r page_size pages
    → free_from r page_size freed (map (page_addr r.alloc_base_phys page_size) pages)
      ≡ done (freed, r)
ignores r page_size freed [] e few fit = unfold free_from in refl
ignores r page_size freed (p ∷ ps) e few fit =
    skip r page_size freed _ _ (misses r page_size p e few fit.0)
    ∙ ignores r page_size (freed + 0) ps e few fit.1
    ∙ ap (λ (n : ℕ). done (n, r)) (omega arith)

-- `contains` compares an address with the base plus the number of pages, not bytes: in a region
-- with at most as many pages as its bitmap has bytes reserved, `free` ignores every page that
-- `alloc` can give out. It returns 0 and changes nothing.
pub free_small_region :
    (r : Region) (page_size : ℕ) (pages : List ℕ)
    → r.alloc_base_phys ≡ r.phys_base + r.bitmap_reserved
    → r.num_pages ≤ r.bitmap_reserved
    → Fit r page_size pages
    → free r page_size (map (page_addr r.alloc_base_phys page_size) pages) ≡ done (0, r)
unfolding free
free_small_region r page_size pages e few fit = ignores r page_size 0 pages e few fit
