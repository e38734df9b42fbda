-- ===== src/Vm/Map/Pages.antt =====
-- What `Map::add` means for the address space: the range of the entry, and nothing else, is mapped to
-- the entry's physical range.
use kush_os_rewrite.Base.{
  ℕ, ◌+◌, ◌-◌, ◌*◌, ◌/◌, ◌%◌, ◌^◌, ◌≤◌, ◌<◌, Bool, ◌&&◌, arith, u64, bit_and, ltb, leb,
  if◌then◌else◌, Bool-cases,
}
use kush_os_rewrite.Base.{
  ◌≡◌, refl, ap, ◌∙◌, ◌⊎◌, inl, inr, some, Outcome, done, ltb→lt, leb→le, leb→lt, ltb→le, lt→leb,
  le→ltb,
}
use kush_os_rewrite.Base.Bits.{bit_and-low}
use kush_os_rewrite.Platform.PageTable.{Machine, not_canonical, get_phys_addr, Lookup, found}
use kush_os_rewrite.Platform.PageTable.Tree.{Levels, PageSource}
use kush_os_rewrite.Platform.PageTable.Ensure.{IsReady}
use kush_os_rewrite.Platform.PageTable.Entries.{effective_mode}
use kush_os_rewrite.Platform.PageTable.Look.{get_phys_addr-invalid}
use kush_os_rewrite.Vm.Map.{Entry, Map, success, add}
use kush_os_rewrite.Platform.PageTable.Ranges.{
  IsCanonicalRange, canonical_in, page_start, range_top, page_outside,
}
use kush_os_rewrite.Vm.Map.Ends.{retained, Panics, Added, add-ends}

-- An address space answers a look-up of each address. The space with an entry in it:
abbrev pub AddressSpace : Type 0
AddressSpace = ℕ → Outcome Lookup

abbrev pub in_range : Entry → ℕ → ℕ → Bool
in_range entry base a = leb base a && ltb a (base + entry.length)

unfoldable pub with_entry : AddressSpace → Entry → ℕ → AddressSpace
with_entry space entry base a =
    if in_range entry base a
    then done (record {
      status = found;
      out = some (entry.phys_base + (a - base), effective_mode entry.access_mode);
    })
    else space a

-- The entry changes nothing outside its range, and depends on the space only at the address asked for.
pub with_entry-outside :
    (space : AddressSpace) (entry : Entry) (base a : ℕ)
    → (a < base) ⊎ (base + entry.length ≤ a)
    → with_entry space entry base a ≡ space a
unfolding with_entry
with_entry-outside space entry base a (inl below) = rw (lt→leb base a below)
with_entry-outside space entry base a (inr behind) = elim (Bool-cases (leb base a)) [
  | inl above ↦ rw (above, le→ltb a (base + entry.length) behind)
  | inr below ↦ rw below
]

pub with_entry-same :
    (space space' : AddressSpace) (entry : Entry) (base a : ℕ)
    → space a ≡ space' a
    → with_entry space entry base a ≡ with_entry space' entry base a
unfolding with_entry
with_entry-same space space' entry base a e = rw e refl

frame_offset :
    (base phys len a : ℕ)
    → base % 4096 ≡ 0
    → phys % 4096 ≡ 0
    → phys + len ≤ 2 ^ 52
    → base ≤ a
    → a < base + len
    → u64 (u64 (phys + (a - base) / 4096 * 4096) % 2 ^ 52 / 4096 * 4096 + bit_and a 0xfff)
      ≡ phys + (a - base)
frame_offset base phys len a aligned phys_aligned fits low high =
    let start : (u64 (phys + (a - base) / 4096 * 4096) % 2 ^ 52 / 4096 * 4096)
        ≡ phys + (a - base) / 4096 * 4096 =
      omega (arith, fits) in
    omega (arith, start, bit_and-low 12 a)

module _ {S : Type 0} (allocate_page : S → Outcome (S × ℕ × ℕ)) (early : Bool)
    (source : PageSource early allocate_page) (pml4 : ℕ) where
  -- `add` has put the entry into the address space.
  pub record AddedEntry (entry : Entry) (base : ℕ) (map : Map) (m : Machine S) : Type 0 where
    pub m' : Machine S
    pub level' : Levels
    pub ends :
        add allocate_page early map m base (some entry) ≡ done (m', some (retained entry), success)
    pub ready : IsReady allocate_page early source level' m'
    pub root : level' pml4 ≡ 4
    pub space :
        (a : ℕ)
        → a < 2 ^ 64
        → get_phys_addr early pml4 m'.mem a
          ≡ with_entry (get_phys_addr early pml4 m.mem) entry base a

  module _ (entry : Entry) (map : Map) (m : Machine S) (base left : ℕ) (aligned : base % 4096 ≡ 0)
      (phys_aligned : entry.phys_base % 4096 ≡ 0) (fits : entry.phys_base + entry.length ≤ 2 ^ 52)
      (whole : entry.length % 4096 ≡ 0) (range : IsCanonicalRange base entry.length)
      (g : Added allocate_page early source pml4 left entry base map m) where
    top : base + entry.length ≤ 2 ^ 64
    top = range_top base entry.length range

    inside :
        (a : ℕ)
        → base ≤ a
        → a < base + entry.length
        → get_phys_addr early pml4 g.m'.mem a
          ≡ done (record {
            status = found;
            out = some (entry.phys_base + (a - base), effective_mode entry.access_mode);
          })
    inside a low high =
        let k : ℕ = (a - base) / 4096 in
        g.pages k (k * 4096) (omega (arith, whole)) refl a
          (canonical_in base entry.length a range low high)
          (page_start base a aligned low (omega (arith, top)))
        ∙ ap
            (λ (p : ℕ).
              done (record { status = found; out = some (p, effective_mode entry.access_mode) }))
            (frame_offset base entry.phys_base entry.length a aligned phys_aligned fits low high)

    outside :
        (a : ℕ)
        → a < 2 ^ 64
        → (a < base) ⊎ (base + entry.length ≤ a)
        → get_phys_addr early pml4 g.m'.mem a ≡ get_phys_addr early pml4 m.mem a
    outside a small away = elim (Bool-cases (not_canonical a)) [
      | inl bad ↦ get_phys_addr-invalid early pml4 a bad g.m'.mem m.mem
      | inr canonical ↦ g.frame a (λ k x h q.
          page_outside base entry.length a k x aligned whole range small canonical away h q)
    ]

    pub space :
        (a : ℕ)
        → a < 2 ^ 64
        → get_phys_addr early pml4 g.m'.mem a
          ≡ with_entry (get_phys_addr early pml4 m.mem) entry base a
    unfolding with_entry
    space a small = elim (Bool-cases (leb base a)) [
      | inr below ↦ rw below (outside a small (inl (leb→lt base a below)))
      | inl above ↦ elim (Bool-cases (ltb a (base + entry.length))) [
        | inl inner ↦
            rw (above, inner)
              (inside a (leb→le base a above) (ltb→lt a (base + entry.length) inner))
        | inr behind ↦
            rw (above, behind) (outside a small (inr (ltb→le a (base + entry.length) behind)))
      ]
    ]

  -- `Map::add` of an entry, at a base that is not 0, where base, length and physical base are
  -- multiples of the page size, the range stands in one half of the canonical addresses, the
  -- physical range ends below 2^52, and the map's tables are a tree with three pages to spare for
  -- each page of the entry: it either returns 0, and then `getPhysAddr` answers for each address of
  -- the range with the physical address at the same offset and the entry's mode, but always executable,
  -- and for every other address as before; or it panics, and then, already before the
  -- call, `getPhysAddr` meets a large page at some address of the range.
  pub add-AddedEntry :
      (entry : Entry) (map : Map) (m : Machine S) (level : Levels) (base : ℕ)
      → map.pml4 ≡ pml4
      → 0 < base
      → base % 4096 ≡ 0
      → entry.length % 4096 ≡ 0
      → entry.phys_base % 4096 ≡ 0
      → entry.phys_base + entry.length ≤ 2 ^ 52
      → IsCanonicalRange base entry.length
      → IsReady allocate_page early source level m
      → level pml4 ≡ 4
      → entry.length / 4096 * 3 ≤ source.room m.source
      → AddedEntry entry base map m
        ⊎ Panics early pml4 m.mem base
            (base + entry.length)
            (add allocate_page early map m base (some entry))
  add-AddedEntry entry map m level base is_map positive aligned whole phys_aligned fits range ready
        root enough =
      elim (add-ends allocate_page early source pml4 entry map m level base 0 is_map positive whole
        range ready root (omega (arith, enough))) [
          | inr p ↦ inr p
          | inl g ↦ inl (record {
            m' = g.m';
            level' = g.level';
            ends = g.ends;
            ready = g.ready;
            root = g.root;
            space = space entry map m base 0 aligned phys_aligned fits whole range g;
          })
        ]
