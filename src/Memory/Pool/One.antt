-- ===== src/Memory/Pool/One.antt =====
-- `Pool::alloc` of one page: the free pages of a pool as the list of their addresses.
use kush_os_rewrite.Base.{ℕ, min, List, [], ◌∷◌, ◌++◌, map, length, drop, arith}
use kush_os_rewrite.Base.{◌≡◌, refl, ap, ◌∙◌, done, none, ◌⊎◌, inl, inr}
use mathlib.Core.Path.{subst}
use kush_os_rewrite.Memory.Region.{Region}
use kush_os_rewrite.Memory.Region.Chunk.{page_addr}
use kush_os_rewrite.Memory.Region.Alloc.{TakesPages, alloc-TakesPages, free_pages}
use kush_os_rewrite.Memory.Pool.{alloc_from, store}
use kush_os_rewrite.Memory.Pool.Alloc.{AreValid}

-- The addresses of the free pages of a region, and of the regions of a pool, in their order.
abbrev pub region_addrs : ℕ → Region → List ℕ
region_addrs page_size r = map (page_addr r.alloc_base_phys page_size) (free_pages r)

unfoldable pub free_addrs : ℕ → List Region → List ℕ
free_addrs page_size [] = []
free_addrs page_size (r ∷ rs) = region_addrs page_size r ++ free_addrs page_size rs

-- The first address is taken.
pub record TakesFirstAddress (page_size : ℕ) (rs : List Region) (b a : ℕ) (rest : List ℕ)
    : Type 0 where
  pub regions' : List Region
  pub result :
      alloc_from page_size 1 rs 0 (b ∷ [])
      ≡ done (record { regions = regions'; allocated = 1; buffer = a ∷ []; failed = none })
  pub left : free_addrs page_size regions' ≡ rest
  pub valid : AreValid regions'

module _ (page_size : ℕ) (r : Region) (rs : List Region) (b : ℕ)
    (t : TakesPages r page_size 1) where
  after_addrs :
      region_addrs page_size t.after
      ≡ map (page_addr r.alloc_base_phys page_size) (drop 1 (free_pages r))
  after_addrs =
      ap (λ (base : ℕ). map (page_addr base page_size) (free_pages t.after))
        (ap (λ (x : Region). x.alloc_base_phys) t.after_lem)
      ∙ ap (map (page_addr r.alloc_base_phys page_size)) t.left

  -- The region has a free page.
  here :
      (i : ℕ) (is : List ℕ)
      → free_pages r ≡ i ∷ is
      → AreValid rs
      → TakesFirstAddress page_size
          (r ∷ rs)
          b
          (page_addr r.alloc_base_phys page_size i)
          (map (page_addr r.alloc_base_phys page_size) is ++ free_addrs page_size rs)
  unfolding free_addrs alloc_from store
  here i is e valid =
      let one : min (length (i ∷ is)) 1 ≡ 1 = omega arith in
      record {
        regions' = t.after ∷ rs;
        result = rw (t.result, e, one);
        left =
            ap (λ (xs : List ℕ). xs ++ free_addrs page_size rs)
              (after_addrs
                ∙ ap (λ (xs : List ℕ). map (page_addr r.alloc_base_phys page_size) (drop 1 xs)) e);
        valid = (t.valid, valid);
      }

  -- It has none.
  further :
      (a : ℕ) (rest : List ℕ)
      → free_pages r ≡ []
      → TakesFirstAddress page_size rs b a rest
      → TakesFirstAddress page_size (r ∷ rs) b a rest
  unfolding free_addrs alloc_from store
  further a rest e next = record {
    regions' = t.after ∷ next.regions';
    result = rw (t.result, e, next.result);
    left =
        ap (λ (xs : List ℕ). xs ++ free_addrs page_size next.regions')
          (after_addrs
            ∙ ap (λ (xs : List ℕ). map (page_addr r.alloc_base_phys page_size) (drop 1 xs)) e)
        ∙ next.left;
    valid = (t.valid, next.valid);
  }

cons_fst : {x y : ℕ} {xs ys : List ℕ} → x ∷ xs ≡ y ∷ ys → x ≡ y
cons_fst {x} e = ap (λ (l : List ℕ). elim l [ [] ↦ x | z ∷ zs ↦ z ]) e

cons_snd : {x y : ℕ} {xs ys : List ℕ} → x ∷ xs ≡ y ∷ ys → xs ≡ ys
cons_snd e = ap (drop 1) e

list_cases : (xs : List ℕ) → (xs ≡ []) ⊎ ((i : ℕ) × (is : List ℕ) × (xs ≡ i ∷ is))
list_cases [] = inl refl
list_cases (i ∷ is) = inr (i, is, refl)

-- The addresses as the loop of `Pool::alloc` meets them.
pub alloc_from-one :
    (page_size : ℕ) (rs : List Region) (b a : ℕ) (rest : List ℕ)
    → AreValid rs
    → free_addrs page_size rs ≡ a ∷ rest
    → TakesFirstAddress page_size rs b a rest
unfolding free_addrs
alloc_from-one page_size [] b a rest valid e = cc
alloc_from-one page_size (r ∷ rs) b a rest valid e =
    let t : TakesPages r page_size 1 = alloc-TakesPages r page_size 1 valid.0 (omega arith) in
    elim (list_cases (free_pages r)) [
      | inl none_free ↦
          further page_size r rs b t a rest none_free
            (alloc_from-one page_size rs b a rest valid.1 (rw none_free at e))
      | inr (i, is, some_free) ↦
          let e' : page_addr r.alloc_base_phys page_size i
                ∷ (map (page_addr r.alloc_base_phys page_size) is ++ free_addrs page_size rs)
              ≡ a ∷ rest =
            rw some_free at e in
          subst2_first (cons_fst e') (cons_snd e') (here page_size r rs b t i is some_free valid.1)
    ]
  where
    subst2_first :
        {x y : ℕ} {xs ys : List ℕ}
        → x ≡ y
        → xs ≡ ys
        → TakesFirstAddress page_size (r ∷ rs) b x xs
        → TakesFirstAddress page_size (r ∷ rs) b y ys
    subst2_first {x} {y} {xs} {ys} p q s =
        subst (λ z. TakesFirstAddress page_size (r ∷ rs) b z ys) p
          (subst (λ zs. TakesFirstAddress page_size (r ∷ rs) b x zs) q s)

-- No page is free.
pub record TakesNone (page_size : ℕ) (rs : List Region) (b : ℕ) : Type 0 where
  pub regions' : List Region
  pub result :
      alloc_from page_size 1 rs 0 (b ∷ [])
      ≡ done (record { regions = regions'; allocated = 0; buffer = b ∷ []; failed = none })
  pub left : free_addrs page_size regions' ≡ []
  pub valid : AreValid regions'

none_further :
    (page_size : ℕ) (r : Region) (rs : List Region) (b : ℕ) (t : TakesPages r page_size 1)
    → free_pages r ≡ []
    → TakesNone page_size rs b
    → TakesNone page_size (r ∷ rs) b
unfolding free_addrs alloc_from store
none_further page_size r rs b t e next = record {
  regions' = t.after ∷ next.regions';
  result = rw (t.result, e, next.result);
  left =
      ap (λ (xs : List ℕ). xs ++ free_addrs page_size next.regions')
        (after_addrs page_size r rs b t
          ∙ ap (λ (xs : List ℕ). map (page_addr r.alloc_base_phys page_size) (drop 1 xs)) e)
      ∙ next.left;
  valid = (t.valid, next.valid);
}

pub alloc_from-none :
    (page_size : ℕ) (rs : List Region) (b : ℕ)
    → AreValid rs
    → free_addrs page_size rs ≡ []
    → TakesNone page_size rs b
unfolding free_addrs alloc_from
alloc_from-none page_size [] b valid e = record {
  regions' = [];
  result = refl;
  left = refl;
  valid = tt;
}
alloc_from-none page_size (r ∷ rs) b valid e =
    let t : TakesPages r page_size 1 = alloc-TakesPages r page_size 1 valid.0 (omega arith) in
    elim (list_cases (free_pages r)) [
      | inl none_free ↦
          none_further page_size r rs b t none_free
            (alloc_from-none page_size rs b valid.1 (rw none_free at e))
      | inr (i, is, some_free) ↦ cc (rw some_free at e)
    ]
