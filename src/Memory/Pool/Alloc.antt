-- ===== src/Memory/Pool/Alloc.antt =====
-- `Pool::alloc`: how many pages it takes, and which addresses its caller sees.
use kush_os_rewrite.Base.{
  ℕ, zero, suc, ◌+◌, ◌-◌, ◌≤◌, ◌<◌, min, true, List, [], ◌∷◌, length, get_or, take, map,
}
use kush_os_rewrite.Base.{
  ◌≡◌, refl, ap, ◌∙◌, ◌≢◌, inl, inr, arith, Outcome, done, ◌>>=◌, ◌==◌, leb, ==_of_eq, ==_of_ne,
  eq_of_==, Bool-cases, Option, sub64, to_size, u32, is_negative, lt→leb, ◌^◌, false, none,
  length-drop, length-take, length-map,
}
use kush_os_rewrite.Memory.Region.{Region}
use kush_os_rewrite.Memory.Region.Alloc.{IsValid, free_pages, TakesPages, alloc-TakesPages}
use kush_os_rewrite.Memory.Region.Chunk.{page_addr}
use kush_os_rewrite.Memory.Pool.{Pool, Given, store, alloc_from, alloc}

abbrev pub AreValid : List Region → Type 0
AreValid [] = Unit {0}
AreValid (r ∷ rs) = IsValid r × AreValid rs

-- The free pages of all the regions.
unfoldable pub free_count : List Region → ℕ
free_count [] = 0
free_count (r ∷ rs) = length (free_pages r) + free_count rs

pub length-store : (addrs buffer : List ℕ) → length (store addrs buffer) ≡ length buffer
unfolding store
length-store [] buffer = refl
length-store (a ∷ rest) [] = refl
length-store (a ∷ rest) (b ∷ buffer) = ap suc (length-store rest buffer)

pub get_or-store :
    (addrs buffer : List ℕ) (i d : ℕ)
    → length addrs ≤ i
    → get_or (store addrs buffer) i d ≡ get_or buffer i d
unfolding store
get_or-store [] buffer i d h = refl
get_or-store (a ∷ rest) [] i d h = refl
get_or-store (a ∷ rest) (b ∷ buffer) zero d h = absurd (omega arith)
get_or-store (a ∷ rest) (b ∷ buffer) (suc i) d h = get_or-store rest buffer i d (omega arith)

-- The addresses that a region stores for a request.
abbrev pub addrs_of : Region → ℕ → ℕ → List ℕ
addrs_of r page_size num = map (page_addr r.alloc_base_phys page_size) (take num (free_pages r))

length-addrs_of : (r : Region) (page_size num : ℕ) → length (addrs_of r page_size num) ≤ num
length-addrs_of r page_size num = omega (
  arith,
  length-map (take num (free_pages r)) (page_addr r.alloc_base_phys page_size),
  length-take num (free_pages r),
)

length-addrs_of-free :
    (r : Region) (page_size num : ℕ) → length (addrs_of r page_size num) ≤ length (free_pages r)
length-addrs_of-free r page_size num = omega (
  arith,
  length-map (take num (free_pages r)) (page_addr r.alloc_base_phys page_size),
  length-take num (free_pages r),
)

module _ (page_size num : ℕ) (int : num < 2 ^ 31) where
  -- What the loop comes to, started with `allocated` pages.
  pub record TakesCount (rs : List Region) (allocated : ℕ) (buffer : List ℕ) : Type 0 where
    pub given : Given
    pub result : alloc_from page_size num rs allocated buffer ≡ done given
    pub count : given.allocated ≡ allocated + min (free_count rs) (num - allocated)
    pub left : free_count given.regions + (given.allocated - allocated) ≡ free_count rs
    pub valid : AreValid given.regions
    pub same_length : length given.buffer ≡ length buffer
    pub no_error : given.failed ≡ none

  module _ (r : Region) (rs : List Region) (allocated : ℕ) (buffer : List ℕ)
      (t : TakesPages r page_size (num - allocated)) (room : num ≤ length buffer)
      (wanted : allocated < num) where
    got : ℕ
    got = min (length (free_pages r)) (num - allocated)

    fits : leb (length (addrs_of r page_size (num - allocated))) (length buffer) ≡ true
    fits = ground (arith, length-addrs_of r page_size (num - allocated))

    -- The numbers are small enough for an `int`.
    left_wanted : sub64 num (to_size allocated) ≡ num - allocated
    left_wanted =
        rw (lt→leb (2 ^ 31) allocated (omega (arith, wanted, int))) (omega (arith, wanted, int))

    narrow : u32 (min (length (free_pages r)) (num - allocated)) ≡ got
    unfolding got
    narrow = omega (arith, wanted, int)

    not_negative : is_negative got ≡ false
    unfolding got
    not_negative = lt→leb (2 ^ 31) got (omega (arith, wanted, int))

    sum_narrow : u32 (allocated + got) ≡ allocated + got
    unfolding got
    sum_narrow = omega (arith, wanted, int)

    sum_size : to_size (allocated + got) ≡ allocated + got
    unfolding got
    sum_size = rw (lt→leb (2 ^ 31) (allocated + got) (omega (arith, wanted, int))) refl

    stop :
        allocated + got ≡ num
        → alloc_from page_size num (r ∷ rs) allocated buffer
          ≡ done (record {
            regions = t.after ∷ rs;
            allocated = allocated + got;
            buffer = store (addrs_of r page_size (num - allocated)) buffer;
            failed = none;
          })
    unfolding alloc_from
    stop e =
        rw
          (
            left_wanted,
            t.result,
            narrow,
            fits,
            not_negative,
            sum_narrow,
            sum_size,
            ==_of_eq (allocated + got) num e,
          )
          refl

    on :
        allocated + got ≢ num
        → alloc_from page_size num (r ∷ rs) allocated buffer ≡ (
            alloc_from page_size num rs
              (allocated + got)
              (store (addrs_of r page_size (num - allocated)) buffer)
            >>= λ g. done (record g { regions = t.after ∷ g.regions }))
    unfolding alloc_from
    on ne =
        rw
          (
            left_wanted,
            t.result,
            narrow,
            fits,
            not_negative,
            sum_narrow,
            sum_size,
            ==_of_ne (allocated + got) num ne,
          )
          refl

    left_in : length (free_pages t.after) + got ≡ length (free_pages r)
    unfolding got
    left_in = omega (arith, ap length t.left, length-drop (num - allocated) (free_pages r))

    stop-TakesCount : allocated + got ≡ num → AreValid rs → TakesCount (r ∷ rs) allocated buffer
    unfolding free_count got
    stop-TakesCount e valid = record {
      given = record {
        regions = t.after ∷ rs;
        allocated = allocated + got;
        buffer = store (addrs_of r page_size (num - allocated)) buffer;
        failed = none;
      };
      result = stop e;
      count = omega arith;
      left = omega (arith, left_in);
      valid = (t.valid, valid);
      same_length = length-store _ buffer;
      no_error = refl;
    }

    below : allocated + got ≢ num → allocated + got < num
    unfolding got
    below ne = omega arith

    on-TakesCount :
        allocated + got ≢ num
        → TakesCount rs (allocated + got) (store (addrs_of r page_size (num - allocated)) buffer)
        → TakesCount (r ∷ rs) allocated buffer
    unfolding free_count got
    on-TakesCount ne rest = record {
      given = record rest.given { regions = t.after ∷ rest.given.regions };
      result = on ne ∙ rw rest.result;
      count = omega (arith, rest.count, ne);
      left = omega (arith, left_in, rest.left, rest.count);
      valid = (t.valid, rest.valid);
      same_length = rest.same_length ∙ length-store _ buffer;
      no_error = rest.no_error;
    }

  alloc_from-TakesCount :
      (rs : List Region) (allocated : ℕ) (buffer : List ℕ)
      → AreValid rs
      → allocated < num
      → num ≤ length buffer
      → TakesCount rs allocated buffer
  alloc_from-TakesCount [] allocated buffer valid wanted room = record {
    given = record { regions = []; allocated = allocated; buffer = buffer; failed = none };
    result = unfold alloc_from in refl;
    count = unfold free_count in omega arith;
    left = unfold free_count in omega arith;
    valid = tt;
    same_length = refl;
    no_error = refl;
  }
  alloc_from-TakesCount (r ∷ rs) allocated buffer valid wanted room =
      let t = alloc-TakesPages r page_size (num - allocated) valid.0 (omega arith) in
      elim (Bool-cases (allocated + got r rs allocated buffer t room wanted == num)) [
        | inl e ↦ stop-TakesCount r rs allocated buffer t room wanted (eq_of_== _ num e) valid.1
        | inr ne ↦
            let ne' : allocated + got r rs allocated buffer t room wanted ≢ num = ground arith in
            on-TakesCount r rs allocated buffer t room wanted ne' (
              alloc_from-TakesCount rs (allocated + got r rs allocated buffer t room wanted)
                (store (addrs_of r page_size (num - allocated)) buffer) valid.1
                (below r rs allocated buffer t room wanted ne')
                (rw (length-store (addrs_of r page_size (num - allocated)) buffer) room))
      ]

-- A loop without an error gives what `alloc` returns.
pub alloc_run :
    (pool : Pool) (num : ℕ) (buffer : List ℕ) (regions : List Region) (allocated : ℕ)
    (buffer' : List ℕ) (failed : Option ℕ)
    → alloc_from pool.page_size num pool.regions 0 buffer
      ≡ done
          (record { regions = regions; allocated = allocated; buffer = buffer'; failed = failed })
    → failed ≡ none
    → alloc pool num buffer ≡ done (record pool { regions = regions }, allocated, buffer')
unfolding alloc
alloc_run pool num buffer regions allocated buffer' failed e clean = rw e (rw clean refl)

-- `Pool::alloc` on a pool of valid regions, for at least one and fewer than 2^31 pages, with room for
-- them in the buffer, always returns: it counts the free pages of all regions or the number wanted,
-- whichever is less, takes exactly that many free pages away, and leaves the regions valid and the
-- buffer's length as it was.
pub alloc_count :
    (pool : Pool) (num : ℕ) (buffer : List ℕ)
    → AreValid pool.regions
    → 0 < num
    → num < 2 ^ 31
    → num ≤ length buffer
    → (regions' : List Region) × (buffer' : List ℕ) × (alloc pool num buffer
        ≡ done (record pool { regions = regions' }, min (free_count pool.regions) num, buffer'))
      × (free_count regions' ≡ free_count pool.regions - num)
      × AreValid regions'
      × (length buffer' ≡ length buffer)
unfolding alloc
alloc_count pool num buffer valid wanted int room =
    let t = alloc_from-TakesCount pool.page_size num int pool.regions 0 buffer valid wanted room in
    let e : t.given.allocated ≡ min (free_count pool.regions) num = omega (arith, t.count) in
    (
      t.given.regions,
      t.given.buffer,
      alloc_run pool num buffer t.given.regions t.given.allocated t.given.buffer t.given.failed
            t.result t.no_error
          ∙ ap (λ (n : ℕ). done (record pool { regions = t.given.regions }, n, t.given.buffer)) e,
      omega (arith, t.left, e),
      t.valid,
      t.same_length,
    )

module _ (page_size num : ℕ) (r s : Region) (buffer : List ℕ)
    (tr : TakesPages r page_size (num - 0)) (some_free : 0 < length (free_pages r))
    (few : length (free_pages r) < num)
    (enough : num ≤ length (free_pages r) + length (free_pages s)) (room : num ≤ length buffer)
    (int : num < 2 ^ 31) where
  some_wanted : 0 < num
  some_wanted = omega (arith, few)

  all_wanted : num - 0 ≡ num
  all_wanted = omega arith

  abbrev first : ℕ
  first = 0 + got page_size num int r (s ∷ []) 0 buffer tr room some_wanted

  first_lem : first ≡ length (free_pages r)
  unfolding got
  first_lem = omega arith

  abbrev once : List ℕ
  once = store (addrs_of r page_size (num - 0)) buffer

  room' : num ≤ length once
  room' = rw (length-store (addrs_of r page_size (num - 0)) buffer) room

  abbrev twice : List ℕ
  twice =
      store (addrs_of s page_size (num - length (free_pages r)))
        (store (addrs_of r page_size num) buffer)

  same :
      (regions' : List Region) (a x y : ℕ)
      → a ≡ num
      → x ≡ num - length (free_pages r)
      → y ≡ num
      → ◌≡◌ {A = Outcome Given}
          (done (record {
            regions = regions';
            allocated = a;
            buffer = store (addrs_of s page_size x) (store (addrs_of r page_size y) buffer);
            failed = none;
          }))
          (done (record { regions = regions'; allocated = num; buffer = twice; failed = none }))
  same regions' a x y p q h = rw (p, q, h)

  two :
      TakesPages s page_size (num - first)
      → (regions' : List Region) × (alloc_from page_size num (r ∷ s ∷ []) 0 buffer
          ≡ done (record { regions = regions'; allocated = num; buffer = twice; failed = none }))
  unfolding got
  two ts = (
    tr.after ∷ ts.after ∷ [],
    on page_size num int r (s ∷ []) 0 buffer tr room some_wanted (omega (arith, first_lem))
        ∙ rw second (same _ _ _ _ (omega (arith, first_lem)) (omega (arith, first_lem)) all_wanted),
  )
    where
      first_lt : first < num
      first_lt = omega (arith, first_lem, few)

      second :
          alloc_from page_size num (s ∷ []) first once
          ≡ done (record {
            regions = ts.after ∷ [];
            allocated = first + got page_size num int s [] first once ts room' first_lt;
            buffer = store (addrs_of s page_size (num - first)) once;
            failed = none;
          })
      second = stop page_size num int s [] first once ts room' first_lt (omega (arith, first_lem))

-- For fewer than 2^31 pages, where the first of two valid regions has some but too few free pages and
-- the second has the rest, and the buffer has room for all of them: `Pool::alloc` says that it has
-- given out all the pages, but the second region's addresses are
-- stored over the first region's: the last entry that the caller asked for is never written.
pub alloc_overwrites :
    (pool : Pool) (r s : Region) (num : ℕ) (buffer : List ℕ) (d : ℕ)
    → pool.regions ≡ r ∷ s ∷ []
    → IsValid r
    → IsValid s
    → 0 < length (free_pages r)
    → length (free_pages r) < num
    → num ≤ length (free_pages r) + length (free_pages s)
    → num ≤ length buffer
    → num < 2 ^ 31
    → (pool' : Pool) × (buffer' : List ℕ) × (alloc pool num buffer ≡ done (pool', num, buffer'))
      × (buffer'
          ≡ store
              (addrs_of s pool.page_size (num - length (free_pages r)))
              (store (addrs_of r pool.page_size num) buffer))
      × (get_or buffer' (num - 1) d ≡ get_or buffer (num - 1) d)
unfolding alloc
alloc_overwrites pool r s num buffer d e vr vs some_free few enough room int =
    let ps = pool.page_size in
    let tr = alloc-TakesPages r ps (num - 0) vr (omega arith) in
    let ts =
      alloc-TakesPages s ps (num - first ps num r s buffer tr some_free few enough room int) vs
        (omega (arith, first_lem ps num r s buffer tr some_free few enough room int)) in
    let (regions', eq) = two ps num r s buffer tr some_free few enough room int ts in
    let late : get_or (twice ps num r s buffer tr some_free few enough room int) (num - 1) d
        ≡ get_or buffer (num - 1) d =
      get_or-store _ _ (num - 1) d
        (omega (arith, length-addrs_of s ps (num - length (free_pages r))))
      ∙ get_or-store _ buffer (num - 1) d (omega (arith, length-addrs_of-free r ps num)) in
    (
      record pool { regions = regions' },
      twice ps num r s buffer tr some_free few enough room int,
      rw e (rw eq),
      refl,
      late,
    )
