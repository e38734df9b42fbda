-- ===== src/Boot/Memory/Regions.antt =====
-- Which memory the physical allocator gets.
use kush_os_rewrite.Base.{refl, ne_of_==, eq_of_==}
use kush_os_rewrite.Base.{
  ℕ, ◌+◌, ◌-◌, ◌^◌, ◌≤◌, ◌<◌, Bool, arith, List, ◌∷◌, u64, ltb, ◌==◌, lt→ltb, le→ltb,
}
use kush_os_rewrite.Base.{
  ◌≡◌, ap, inl, inr, ◌∙◌, Bool-cases, ltb→lt, ltb→le, bit_and, sub64, ==_of_eq, ◌⊎◌, Option, none,
  some, Outcome, panic, ◌>>=◌,
}
use kush_os_rewrite.Memory.PhysicalAllocator
use kush_os_rewrite.Memory.PhysicalAllocator.{State}
use kush_os_rewrite.Boot.Memory.{MemmapEntry, region_of, add_regions}

-- The byte at an address is in a range.
abbrev pub IsIn : ℕ → ℕ × ℕ → Type 0
IsIn a r = (r.0 ≤ a) × (a < r.0 + r.1)

-- The entry is usable memory, at least 64 KiB of it, and ends at or above 16 MiB.
unfoldable pub IsUsable : ℕ → MemmapEntry → Type 0
IsUsable usable e = (e.kind ≡ usable) × (0x10000 ≤ e.length) × (0x1000000 ≤ e.base + e.length)

-- For an entry that does not wrap around the address space: either it is usable memory of at least
-- 64 KiB that ends at or above 16 MiB, and then the region that is added for it has exactly those bytes
-- of the entry that are at or above 16 MiB; or it is not, and then no region is added.
pub region_of_lem :
    (usable : ℕ) (e : MemmapEntry)
    → e.base + e.length < 2 ^ 64
    → ((r : ℕ × ℕ) × (region_of usable e ≡ some r)
        × IsUsable usable e
        × ((a : ℕ) → IsIn a r → IsIn a (e.base, e.length) × (0x1000000 ≤ a))
        × ((a : ℕ) → IsIn a (e.base, e.length) → 0x1000000 ≤ a → IsIn a r))
      ⊎ (region_of usable e ≡ none) × ¬ IsUsable usable e
unfolding region_of IsUsable
region_of_lem usable e small =
    let wraps : u64 (e.base + e.length) ≡ e.base + e.length = omega arith in
    elim (Bool-cases (e.kind == usable)) [
      | inr k ↦ inr (rw k refl, λ u. ne_of_== e.kind usable k u.0)
      | inl k ↦ elim (Bool-cases (ltb e.length 0x10000)) [
        | inl l ↦ inr (rw (k, l) refl, λ u. absurd (omega (arith, ltb→lt e.length 0x10000 l, u.1)))
        | inr l ↦ elim (Bool-cases (ltb (u64 (e.base + e.length)) 0x1000000)) [
          | inl b ↦
              let below = ltb→lt (u64 (e.base + e.length)) 0x1000000 b in
              inr (rw (k, l, b) refl, λ u. absurd (omega (arith, wraps, below, u.2)))
          | inr b ↦
              let fits : IsUsable usable e = (
                eq_of_== e.kind usable k,
                ltb→le e.length 0x10000 l,
                omega (arith, wraps, ltb→le (u64 (e.base + e.length)) 0x1000000 b),
              ) in
              elim (Bool-cases (ltb e.base 0x1000000)) [
                | inl c ↦ inl (
                  (0x1000000, e.length - (0x1000000 - e.base)),
                  rw (k, l, b, c) refl,
                  fits,
                  λ a h. omega (arith, h.0, h.1, ltb→le _ _ b, ltb→lt _ _ c),
                  λ a h g. omega (arith, h.0, h.1, g, ltb→lt _ _ c),
                )
                | inr c ↦ inl (
                  (e.base, e.length),
                  rw (k, l, b, c) refl,
                  fits,
                  λ a h. (h, omega (arith, h.0, ltb→le _ _ c)),
                  λ a h g. h,
                )
              ]
        ]
      ]
    ]

region_at_bound :
    (usable : ℕ) (e : MemmapEntry)
    → e.kind ≡ usable
    → 0x10000 ≤ e.length
    → e.base + e.length ≡ 0x1000000
    → region_of usable e ≡ some (0x1000000, 0)
unfolding region_of
region_at_bound usable e kind large ends =
    rw
      (
        ==_of_eq e.kind usable kind,
        le→ltb e.length 0x10000 large,
        le→ltb (u64 (e.base + e.length)) 0x1000000 (omega (arith, ends)),
        lt→ltb e.base 0x1000000 (omega (arith, ends, large)),
      )
      (ap (λ (n : ℕ). some (0x1000000, n)) empty)
  where
    empty : e.length - (0x1000000 - e.base) ≡ 0
    empty = omega (arith, ends)

add_region-empty :
    (early : Bool) (memory : ℕ → ℕ) (s : State) (a : PhysicalAllocator.PhysicalAllocator)
    → s.shared ≡ some a
    → PhysicalAllocator.add_region early memory s 0x1000000 0 0 ≡ panic
unfolding PhysicalAllocator.add_region
add_region-empty early memory s a made =
    rw made (elim (Bool-cases (bit_and 0x1000000 (sub64 a.page_size 1) == 0)) [
      | inl q ↦ rw q
      | inr q ↦ rw q
    ])

-- A usable entry of at least 64 KiB that begins below 16 MiB and ends exactly there is not left out:
-- a region of no bytes is added for it, and that panics.
add_regions_panics :
    (usable : ℕ) (early : Bool) (memory : ℕ → ℕ) (e : MemmapEntry) (entries : List MemmapEntry)
    (s : State)
    → (a : PhysicalAllocator.PhysicalAllocator) → s.shared ≡ some a
    → e.kind ≡ usable
    → 0x10000 ≤ e.length
    → e.base + e.length ≡ 0x1000000
    → add_regions usable early memory (e ∷ entries) s ≡ panic
unfolding add_regions
add_regions_panics usable early memory e entries s a made kind large ends =
    ap
      (λ (o : Option (ℕ × ℕ)). elim o [
        | none ↦ add_regions usable early memory entries s
        | some r ↦ PhysicalAllocator.add_region early memory s r.0 r.1 0 >>= λ s'.
            add_regions usable early memory entries s'
      ])
      (region_at_bound usable e kind large ends)
    ∙ ap (λ (o : Outcome State). o >>= λ s'. add_regions usable early memory entries s')
        (add_region-empty early memory s a made)
