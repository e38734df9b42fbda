-- ===== src/Vm/Zone/RoundTrip.antt =====
-- What `alloc` takes from a region, `free` gives back.
use kush_os_rewrite.Base.{ℕ, zero, suc, ◌+◌, ◌-◌, ◌*◌, ◌/◌, ◌%◌, ◌^◌, ◌≤◌, ◌<◌, true, false, arith}
use kush_os_rewrite.Base.{List, [], ◌∷◌, length, sub64, Option, some, done, stuck}
use kush_os_rewrite.Base.{◌≡◌, refl, ap, ◌∙◌, lt→ltb}
use kush_os_rewrite.Memory.Region.Alloc.{AreWords}
use kush_os_rewrite.Runtime.String.{Bytes, memset}
use kush_os_rewrite.Vm.Zone.{
  Layout, Region, Zone, num_items, address_for, index_for, alloc_in, contains, free_in, is_full,
  alloc_from, alloc, free_from, free,
}
use kush_os_rewrite.Vm.Zone.Slots.{slots, TakesSlot, take_slot-TakesSlot}
use native.Mathlib.Nat.{mul-le-mul_right, div-mul-le_self, mul-div_cancel}

unfoldable pub AreBelow : ℕ → List ℕ → Type 0
AreBelow n [] = Unit {0}
AreBelow n (x ∷ xs) = (x < n) × AreBelow n xs

-- The bitmap has its six words, each of its set bits stands for an object that the region has room
-- for, and the region does not wrap around the end of the addresses.
pub record IsValid (layout : Layout) (r : Region) : Type 0 where
  pub six : length r.bitmap ≡ 6
  pub words : AreWords r.bitmap
  pub below : AreBelow (num_items layout) (slots 0 r.bitmap)
  pub sized : 0 < layout.object_size
  pub whole : layout.storage ≤ layout.region_size
  pub fits : r.addr + layout.region_size < 2 ^ 64

-- An object is taken: it lay free, inside the region's storage; the others stay as they were; and
-- giving it back makes the region what it was.
pub record TakesObject (layout : Layout) (mem : Bytes) (r : Region) : Type 0 where
  pub idx : ℕ
  pub r' : Region
  pub result :
      alloc_in layout mem r
      ≡ done (
        memset mem (address_for layout r idx) 0 layout.object_size,
        r',
        some (address_for layout r idx),
      )
  pub first : slots 0 r.bitmap ≡ idx ∷ slots 0 r'.bitmap
  pub inside : address_for layout r idx + layout.object_size ≤ r.addr + layout.region_size
  pub valid : IsValid layout r'
  pub holds : contains layout r' (address_for layout r idx) ≡ true
  pub freed : free_in layout r' (address_for layout r idx) ≡ done r

module _ (layout : Layout) (mem : Bytes) (r : Region) (v : IsValid layout r)
    (t : TakesSlot 0 r.bitmap) where
  abbrev idx : ℕ
  idx = 0 + (t.place * 64 + t.bit)

  abbrev ptr : ℕ
  ptr = address_for layout r idx

  bounds : (idx < num_items layout) × AreBelow (num_items layout) (slots 0 t.words')
  unfolding AreBelow
  bounds = rw t.first at (v.below)

  room : idx * layout.object_size + layout.object_size ≤ layout.region_size - layout.storage
  room = omega (
    arith,
    mul-le-mul_right layout.object_size (bounds.0),
    div-mul-le_self (layout.region_size - layout.storage) layout.object_size,
  )

  has : contains layout (record r { bitmap = t.words' }) ptr ≡ true
  unfolding contains
  has = ground (arith, room, v.whole)

  index_back : index_for layout (record r { bitmap = t.words' }) ptr ≡ idx
  index_back =
      let offset : sub64 ptr (r.addr + layout.storage) ≡ idx * layout.object_size =
        omega (arith, room, v.whole, v.fits) in
      ap (λ (n : ℕ). n / layout.object_size) offset ∙ mul-div_cancel idx v.sized

  frees : free_in layout (record r { bitmap = t.words' }) ptr ≡ done r
  unfolding free_in
  frees =
      let quotient : idx / 64 ≡ t.place = omega (arith, t.bit_small) in
      let digit : idx % 64 ≡ t.bit = omega (arith, t.bit_small) in
      let small : t.place < length t.words' = omega (arith, t.place_small, t.same_length) in
      rw (has, index_back, quotient, digit, lt→ltb _ _ small, t.back)

  takes : TakesObject layout mem r
  unfolding alloc_in
  takes = record {
    idx = idx;
    r' = record r { bitmap = t.words' };
    result = rw t.result;
    first = t.first;
    inside = omega (arith, room, v.whole);
    valid = record {
      six = t.same_length ∙ v.six;
      words = t.are_words;
      below = bounds.1;
      sized = v.sized;
      whole = v.whole;
      fits = v.fits;
    };
    holds = has;
    freed = frees;
  }

-- `Region::alloc` on a valid region that is not full gives an object: the one of its lowest free
-- slot, zeroed, inside the region; the other slots stay as they were and the region stays valid;
-- and `Region::free` of that object accepts it and makes the region what it was before.
pub alloc_in-TakesObject :
    (layout : Layout) (mem : Bytes) (r : Region)
    → IsValid layout r
    → is_full r ≡ false
    → TakesObject layout mem r
alloc_in-TakesObject layout mem r v some_bit =
    takes layout mem r v (take_slot-TakesSlot 0 r.bitmap v.words some_bit)

-- Where the first region of a zone is valid and not full, `alloc` takes an object from it without
-- asking for memory, and `free` of that object then makes the zone what it was before.
pub alloc-free :
    (layout : Layout) (fresh : Option ℕ) (mem : Bytes) (r : Region) (rs : List Region)
    (last : Option ℕ) (fuel : ℕ)
    → IsValid layout r
    → is_full r ≡ false
    → (zone' : Zone) × (idx : ℕ) × (alloc layout fresh mem
          (record { regions = r ∷ rs; free_region = last })
        ≡ done (
          memset mem (address_for layout r idx) 0 layout.object_size,
          zone',
          some (address_for layout r idx),
        ))
      × (free (suc fuel) layout zone' (address_for layout r idx)
          ≡ done (record { regions = r ∷ rs; free_region = last }))
unfolding alloc alloc_from free free_from
alloc-free layout fresh mem r rs last fuel v some_bit =
    let t = alloc_in-TakesObject layout mem r v some_bit in
    (
      record { regions = t.r' ∷ rs; free_region = last },
      t.idx,
      rw (some_bit, t.result),
      rw (t.holds, t.freed),
    )

stays_there :
    (layout : Layout) (r : Region) (rs : List Region) (ptr fuel : ℕ)
    → contains layout r ptr ≡ false
    → free_from fuel layout (r ∷ rs) ptr ≡ stuck
unfolding free_from
stays_there layout r rs ptr zero foreign = refl
stays_there layout r rs ptr (suc fuel) foreign =
    rw foreign (stays_there layout r rs ptr fuel foreign)

-- `free` of an object outside the first region never returns: however long its loop runs, it stays
-- at that region.
pub free_loops :
    (layout : Layout) (r : Region) (rs : List Region) (last : Option ℕ) (ptr fuel : ℕ)
    → contains layout r ptr ≡ false
    → free fuel layout (record { regions = r ∷ rs; free_region = last }) ptr ≡ stuck
unfolding free
free_loops layout r rs last ptr fuel foreign = rw (stays_there layout r rs ptr fuel foreign)
