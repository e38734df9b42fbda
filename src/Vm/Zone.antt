-- ===== src/Vm/Zone.antt =====
-- Zone allocators: Core/Kernel/Includes/Vm/ZoneAllocator.h.
-- The template's sizes are the record `Layout`: `RegionSize`, the offset of `storage`, and the size
-- of an object. The list of regions is the chain from `start` along `next`, so `last` is its last
-- one. The memory of a new region, from `VAlloc`, is an argument, `none` if there is none. Memory is
-- a function from addresses to bytes; the regions' own fields are kept apart in their records.
pub mod Slots
pub mod RoundTrip
use kush_os_rewrite.Base.{ℕ, zero, suc, ◌+◌, ◌-◌, ◌*◌, ◌/◌, ◌%◌, Bool, true, false, not, ◌&&◌, ◌||◌}
use kush_os_rewrite.Base.{
  List, [], ◌∷◌, ◌++◌, length, get_or, set, bit_and, bit_or, bit_xor, sub64, not64, bit64, ffs64,
}
use kush_os_rewrite.Base.{
  ◌==◌, ltb, leb, if◌then◌else◌, Option, none, some, Outcome, done, panic, wild, stuck, require,
  in_bounds, ◌>>=◌, ◌>>◌,
}
use kush_os_rewrite.Runtime.String.{Bytes, memset}

pub record Layout : Type 0 where
  pub region_size : ℕ
  pub storage : ℕ
  pub object_size : ℕ

pub record Region : Type 0 where
  pub addr : ℕ
  pub bitmap : List ℕ
  pub magic : ℕ

pub record Zone : Type 0 where
  pub regions : List Region
  pub free_region : Option ℕ

-- `kMagic` and `kBitmapEntries`
abbrev pub k_magic : ℕ
k_magic = 0xf849a50c9e0f8139

abbrev pub bitmap_entries : ℕ
bitmap_entries = 6

-- `bitmap[i / 64] |= (1ULL << (i % 64))`
abbrev pub mark : List ℕ → ℕ → List ℕ
mark words i = set words (i / 64) (bit_or (get_or words (i / 64) 0) (bit64 (i % 64)))

-- The loop of the metadata's constructor, with n slots left.
unfoldable pub mark_from : ℕ → ℕ → List ℕ → List ℕ
mark_from zero i words = words
mark_from (suc n) i words = mark_from n (i + 1) (mark words i)

-- `numItems`
abbrev pub num_items : Layout → ℕ
num_items layout = (layout.region_size - layout.storage) / layout.object_size

-- `RegionMetadata()`
unfoldable pub new_region : Layout → ℕ → Region
new_region layout addr = record {
  addr = addr;
  bitmap = mark_from (num_items layout) 0 (0 ∷ 0 ∷ 0 ∷ 0 ∷ 0 ∷ 0 ∷ []);
  magic = bit_xor k_magic addr;
}

-- `addressFor` and `indexFor`
abbrev pub address_for : Layout → Region → ℕ → ℕ
address_for layout r idx = r.addr + layout.storage + idx * layout.object_size

abbrev pub index_for : Layout → Region → ℕ → ℕ
index_for layout r ptr = sub64 ptr (r.addr + layout.storage) / layout.object_size

-- The loop of `Region::alloc` over the bitmap from slot `off` on: the bitmap, and the slot taken.
unfoldable pub take_slot : ℕ → List ℕ → Outcome (List ℕ × Option ℕ)
take_slot off [] = done ([], none)
take_slot off (val ∷ words) =
    let rest : Outcome (List ℕ × Option ℕ) =
      take_slot (off + 64) words >>= λ s. done (val ∷ s.0, s.1) in
    if val == 0
    then rest
    else (require (not (ffs64 val == 0))
        >> done (bit_and val (not64 (bit64 (ffs64 val - 1))) ∷ words, some (off + (ffs64 val - 1))))

-- `Region::alloc`: memory, the region, and the object or a null pointer.
unfoldable pub alloc_in : Layout → Bytes → Region → Outcome (Bytes × Region × Option ℕ)
alloc_in layout mem r = take_slot 0 r.bitmap >>= λ s. elim s.1 [
  | none ↦ done (mem, record r { bitmap = s.0 }, none)
  | some idx ↦ done (
    memset mem (address_for layout r idx) 0 layout.object_size,
    record r { bitmap = s.0 },
    some (address_for layout r idx),
  )
]

-- `contains`
unfoldable pub contains : Layout → Region → ℕ → Bool
contains layout r ptr =
    not (ltb ptr r.addr || ltb (r.addr + layout.region_size) (ptr + layout.object_size))

-- `Region::free`
unfoldable pub free_in : Layout → Region → ℕ → Outcome Region
free_in layout r ptr =
    if not (contains layout r ptr)
    then panic
    else (in_bounds (ltb (index_for layout r ptr / 64) (length r.bitmap))
        >> done (record r { bitmap = mark r.bitmap (index_for layout r ptr) }))

-- `isFull`, of the bitmap's words
unfoldable pub all_clear : List ℕ → Bool
all_clear [] = true
all_clear (w ∷ words) = if not (w == 0) then false else all_clear words

abbrev pub is_full : Region → Bool
is_full r = all_clear r.bitmap

-- `findRegionWithSpace`, then `alloc` of the region that is found, if any.
unfoldable pub alloc_from :
    Layout → Bytes → List Region → Outcome (Option (Bytes × List Region × Option ℕ))
alloc_from layout mem [] = done none
alloc_from layout mem (r ∷ rs) =
    let rest : Outcome (Option (Bytes × List Region × Option ℕ)) =
      alloc_from layout mem rs >>= λ got. elim got [
        | none ↦ done none
        | some s ↦ done (some (s.0, r ∷ s.1, s.2))
      ] in
    if not (is_full r)
    then (alloc_in layout mem r >>= λ s. done (some (s.0, s.1 ∷ rs, s.2)))
    else rest

-- `alloc`. Without memory for a new region, the code calls `alloc` of a null pointer.
unfoldable pub alloc : Layout → Option ℕ → Bytes → Zone → Outcome (Bytes × Zone × Option ℕ)
alloc layout fresh mem zone = alloc_from layout mem zone.regions >>= λ found. elim found [
  | some s ↦ done (s.0, record zone { regions = s.1 }, s.2)
  | none ↦ elim fresh [
    | none ↦ wild
    | some addr ↦ alloc_in layout mem (new_region layout addr) >>= λ s.
        done (s.0, record { regions = zone.regions ++ (s.1 ∷ []); free_region = some addr }, s.2)
  ]
]

-- The loop of `free`, with fuel: `continue` does not move on to the next region.
unfoldable pub free_from : ℕ → Layout → List Region → ℕ → Outcome (List Region)
free_from zero layout regions ptr = stuck
free_from (suc fuel) layout [] ptr = panic
free_from (suc fuel) layout (r ∷ rs) ptr =
    let again : Outcome (List Region) = free_from fuel layout (r ∷ rs) ptr in
    if not (contains layout r ptr) then again else (free_in layout r ptr >>= λ r'. done (r' ∷ rs))

-- `free`
unfoldable pub free : ℕ → Layout → Zone → ℕ → Outcome Zone
free fuel layout zone ptr =
    free_from fuel layout zone.regions ptr >>= λ rs. done (record zone { regions = rs })
