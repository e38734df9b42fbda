-- ===== src/Vm/PageAllocator/Apart.antt =====
-- The ranges that `PageAllocator` gives out never meet, whatever the order of the calls.
use kush_os_rewrite.Base.{
  ℕ, ◌+◌, ◌/◌, ◌%◌, ◌^◌, ◌≤◌, ◌<◌, Bool, List, [], ◌∷◌, replicate, length, arith,
}
use kush_os_rewrite.Base.{
  ◌≡◌, ap, lt→ltb, le→leb, ==_of_ne, panic, inl, inr, Option, none, some, done,
}
use kush_os_rewrite.Memory.PhysicalAllocator
use kush_os_rewrite.Platform.Layout.{v_alloc_start, v_alloc_end}
use kush_os_rewrite.Platform.PageTable.{Machine, nearest_page_size}
use kush_os_rewrite.Platform.PageTable.Sizes.{nearest_page_size_lem, nearest_page_size_positive}
use kush_os_rewrite.Vm.PageAllocator.{State, init, alloc, give_back, end_of, free}
use kush_os_rewrite.Vm.PageAllocator.Calls.{allocate_pages_lem, alloc_lem, free_cursor}

-- A call with its effect on the ranges given out so far, which are pairs of an address and a length.
pub data Step (early : Bool) (kernel : Option ℕ)
    : State → List (ℕ × ℕ) → State → List (ℕ × ℕ) → Type 0 where
  allocates :
      {s s' : State} {given : List (ℕ × ℕ)} {ptr : ℕ} (len : ℕ)
      → len < 2 ^ 64
      → alloc early kernel s len ≡ done (s', some ptr)
      → Step early kernel s given s' ((ptr, len) ∷ given)
  fails :
      {s s' : State} {given : List (ℕ × ℕ)} (len : ℕ)
      → alloc early kernel s len ≡ done (s', none)
      → Step early kernel s given s' given
  frees :
      {s s' : State} {given : List (ℕ × ℕ)} (ptr len : ℕ)
      → free early kernel s ptr len ≡ done s'
      → Step early kernel s given s' given

pub data Reach (early : Bool) (kernel : Option ℕ) (start : State)
    : State → List (ℕ × ℕ) → Type 0 where
  here : Reach early kernel start start []
  next :
      {s t : State} {given given' : List (ℕ × ℕ)}
      → Reach early kernel start s given
      → Step early kernel s given t given'
      → Reach early kernel start t given'

-- The ranges stand one below the other, all below `upper`, on page boundaries, and each with two
-- pages after it that are in no range.
abbrev pub AreApart : ℕ → List (ℕ × ℕ) → Type 0
AreApart upper [] = v_alloc_start ≤ upper
AreApart upper (r ∷ given) = (r.0 + r.1 + 8192 ≤ upper) × (r.0 % 4096 ≡ 0) × AreApart r.0 given

pub record IsSafe (s : State) (given : List (ℕ × ℕ)) : Type 0 where
  pub aligned : s.cursor % 4096 ≡ 0
  pub below : s.cursor < v_alloc_end
  pub apart : AreApart s.cursor given

same_cursor :
    (s t : State) (given : List (ℕ × ℕ)) → t.cursor ≡ s.cursor → IsSafe s given → IsSafe t given
same_cursor s t given e safe = record {
  aligned = rw e safe.aligned;
  below = rw e safe.below;
  apart = rw e safe.apart;
}

some_injective : {a b : ℕ} → some a ≡ some b → a ≡ b
some_injective {a} e = ap (λ (o : Option ℕ). elim o [ some x ↦ x | none ↦ a ]) e

placed :
    (s t : State) (given : List (ℕ × ℕ)) (ptr len : ℕ)
    → len < 2 ^ 64
    → ptr ≡ s.cursor
    → t.cursor ≡ end_of s.cursor len
    → end_of s.cursor len < v_alloc_end
    → 0 < nearest_page_size len / 4096
    → nearest_page_size len / 4096 ≤ 16
    → IsSafe s given
    → IsSafe t ((ptr, len) ∷ given)
placed s t given ptr len small at moved below positive few safe =
    let (whole, covers) = nearest_page_size_lem len small in
    let aligned = safe.aligned in
    let start = safe.below in
    record {
      aligned = omega (arith, moved, whole, positive, few, aligned, start);
      below = omega (arith, moved, below);
      apart = (
        omega (arith, at, moved, covers, positive, few, start),
        omega (arith, at, aligned),
        rw at safe.apart,
      );
    }

Step-IsSafe :
    {early : Bool} {kernel : Option ℕ} {s t : State} {given given' : List (ℕ × ℕ)}
    → Step early kernel s given t given'
    → IsSafe s given
    → IsSafe t given'
Step-IsSafe {early} {kernel} {s} {t} {given} (allocates {ptr = ptr} len small h) safe =
    elim (alloc_lem early kernel s t len (some ptr) h) [
      | inl r ↦ absurd cc
      | inr r ↦ placed s t given ptr len small (some_injective r.1) r.0 r.2 r.3 r.4 safe
    ]
Step-IsSafe {early} {kernel} {s} {t} {given} (fails len h) safe =
    elim (alloc_lem early kernel s t len none h) [
      | inl r ↦ same_cursor s t given r.0 safe
      | inr r ↦ absurd cc
    ]
Step-IsSafe {early} {kernel} {s} {t} {given} (frees ptr len h) safe =
    same_cursor s t given (free_cursor early kernel s t ptr len h) safe

-- Whatever calls of `Alloc` and `Free` have returned since `Init`, the cursor is on a page boundary
-- below the end of the allocator's range; all ranges that were given out, freed ones included, stand
-- in that range, each on a page boundary, with no two of them closer than two guard pages.
pub Reach-IsSafe :
    {early : Bool} {kernel : Option ℕ} {m : Machine PhysicalAllocator.State} {s : State}
    → {given : List (ℕ × ℕ)} → Reach early kernel (init m) s given
    → IsSafe s given
Reach-IsSafe here = record { aligned = omega arith; below = omega arith; apart = omega arith }
Reach-IsSafe (next r step) = Step-IsSafe step (Reach-IsSafe r)

-- When `Alloc` gives an address, that is where the cursor was, and the request was of at least one
-- byte and at most 16 pages.
pub alloc-lt :
    (early : Bool) (kernel : Option ℕ) (s s' : State) (len ptr : ℕ)
    → len < 2 ^ 64
    → alloc early kernel s len ≡ done (s', some ptr)
    → (ptr ≡ s.cursor) × (0 < len) × (len ≤ 65536)
alloc-lt early kernel s s' len ptr small h = elim (alloc_lem early kernel s s' len (some ptr) h) [
  | inl r ↦ absurd cc
  | inr r ↦
      let (whole, covers) = nearest_page_size_lem len small in
      let positive = r.3 in
      let few = r.4 in
      (
        some_injective r.1,
        nearest_page_size_positive len positive,
        omega (arith, whole, covers, positive, few),
      )
]

-- When the request fits the range but the physical allocator has no page left, `Alloc` does not
-- return a null pointer: it calls `FreePages` for no pages, which panics.
pub alloc_no_page_panics :
    (early : Bool) (kernel : Option ℕ) (s : State) (len : ℕ) (source : PhysicalAllocator.State)
    → (buffer : List ℕ) → end_of s.cursor len < v_alloc_end
    → s.cursor < end_of s.cursor len
    → PhysicalAllocator.allocate_pages s.machine.source
        (nearest_page_size len / 4096)
        (replicate 16 0)
        0
      ≡ done (source, 0, buffer)
    → alloc early kernel s len ≡ panic
unfolding alloc give_back PhysicalAllocator.free_pages
alloc_no_page_panics early kernel s len source buffer below fits out =
    let positive =
      (allocate_pages_lem s.machine.source (nearest_page_size len / 4096) (replicate 16 0) 0
        out).0 in
    rw (
      lt→ltb (end_of s.cursor len) v_alloc_end below,
      lt→ltb s.cursor (end_of s.cursor len) fits,
      out,
      ==_of_ne 0 (nearest_page_size len / 4096) (λ e. absurd (omega (arith, e, positive))),
      le→leb 0 (length buffer) (omega arith),
    )
