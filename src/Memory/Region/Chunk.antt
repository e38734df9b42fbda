-- ===== src/Memory/Region/Chunk.antt =====
-- The inner loop of `Region::alloc`: it takes the lowest free pages of a chunk.
use kush_os_rewrite.Base.{ℕ, zero, suc, ◌+◌, ◌-◌, ◌*◌, ◌^◌, ◌≤◌, ◌<◌, min, true, not, ◌&&◌}
use kush_os_rewrite.Base.{List, [], ◌∷◌, length, take, drop, map, u64, ffs64}
use kush_os_rewrite.Base.{
  ◌≡◌, refl, ap, sym, ◌∙◌, ◌≢◌, inl, inr, ◌⊎◌, arith, Outcome, done, take-nil, drop-nil, false,
  ◌>>=◌, ==_of_ne, eq_of_==, ltb→lt, ltb, ◌==◌, Bool-cases,
}
use kush_os_rewrite.Memory.Bitmap.{set_bits, clear, ffs-FindsLowest, FindsLowest, bit_and-le}
use kush_os_rewrite.Memory.Region.{Progress, take_bits}
use native.Mathlib.Nat.{le_refl}

-- The physical address of a page of the region whose first page is at `base`.
abbrev pub page_addr : ℕ → ℕ → ℕ → ℕ
page_addr base page_size page = u64 (base + u64 (page * page_size))

-- The address that the code computes through the chunk's base.
pub page_addr-chunk :
    (base page_size off k : ℕ)
    → u64 (u64 (base + u64 (off * page_size)) + u64 (k * page_size))
      ≡ page_addr base page_size (off + k)
page_addr-chunk base page_size off k = omega arith

pub set_bits-zero : (w i : ℕ) → set_bits w i 0 ≡ []
unfolding set_bits
set_bits-zero zero i = refl
set_bits-zero (suc w) i = set_bits-zero w (i + 1)

module _ (base page_size num off : ℕ) where
  abbrev chunk_base : ℕ
  chunk_base = u64 (base + u64 (off * page_size))

  -- How far a call gets from `satisfied` pages in a chunk whose free pages are `free`.
  abbrev pub count : ℕ → List ℕ → ℕ
  count satisfied free = min (length free) (num - satisfied)

  -- The loop takes the lowest free pages of the chunk, as many as there are or are still wanted,
  -- and stores their addresses in order.
  pub record TakesLowest (val satisfied : ℕ) (outcome : Outcome (Progress ℕ)) : Type 0 where
    pub val' : ℕ
    pub small : val' < 2 ^ 64
    pub left : set_bits 64 off val' ≡ drop (num - satisfied) (set_bits 64 off val)
    pub result :
        outcome
        ≡ done (record {
          memory = val';
          satisfied = satisfied + count satisfied (set_bits 64 off val);
          addrs = map (page_addr base page_size) (take (num - satisfied) (set_bits 64 off val));
        })

  module _ (val : ℕ) (small : val < 2 ^ 64) (ne : val ≢ 0) where
    lowest : FindsLowest 64 off val
    lowest = ffs-FindsLowest 64 off val small ne

    abbrev rest : ℕ
    rest = clear 64 val (ffs64 val - 1)

    rest-small : rest < 2 ^ 64
    rest-small = omega (arith, bit_and-le val val (2 ^ 64 - 1 - 2 ^ (ffs64 val - 1)) (le_refl _))

    first : set_bits 64 off val ≡ (off + (ffs64 val - 1)) ∷ set_bits 64 off rest
    unfolding ffs64
    first = lowest.first

    ffs_found : ffs64 val ≢ 0
    unfolding ffs64
    ffs_found = lowest.found

    take_bits-last :
        (fuel satisfied : ℕ)
        → ((not (rest == 0) && ltb (satisfied + 1) num) ≡ false)
        → take_bits (suc fuel) chunk_base page_size num val satisfied
          ≡ done (record {
            memory = rest;
            satisfied = satisfied + 1;
            addrs = page_addr base page_size (off + (ffs64 val - 1)) ∷ [];
          })
    unfolding take_bits
    take_bits-last fuel satisfied stop =
        rw (
          ==_of_ne (ffs64 val) 0 ffs_found,
          stop,
          page_addr-chunk base page_size off (ffs64 val - 1),
        )

    take_bits-more :
        (fuel satisfied : ℕ)
        → ((not (rest == 0) && ltb (satisfied + 1) num) ≡ true)
        → take_bits (suc fuel) chunk_base page_size num val satisfied ≡ (
            take_bits fuel chunk_base page_size num rest (satisfied + 1) >>= λ p.
            done (record p { addrs = page_addr base page_size (off + (ffs64 val - 1)) ∷ p.addrs }))
    unfolding take_bits
    take_bits-more fuel satisfied go =
        rw
          (==_of_ne (ffs64 val) 0 ffs_found, go, page_addr-chunk base page_size off (ffs64 val - 1))

    count_last :
        (satisfied : ℕ)
        → satisfied < num
        → (rest ≡ 0) ⊎ (num ≤ satisfied + 1)
        → count satisfied (set_bits 64 off val) ≡ 1
    count_last satisfied wanted (inl none) = rw (first, none, set_bits-zero 64 off) (omega arith)
    count_last satisfied wanted (inr full) = rw first (omega arith)

    count_more :
        (satisfied : ℕ)
        → satisfied + 1 < num
        → count satisfied (set_bits 64 off val) ≡ suc (count (satisfied + 1) (set_bits 64 off rest))
    count_more satisfied wanted = rw first (omega arith)

    -- A list with a head, cut at one more than a count.
    wanted_more : (satisfied : ℕ) → satisfied < num → num - satisfied ≡ suc (num - (satisfied + 1))
    wanted_more satisfied wanted = omega arith

    none_after :
        (satisfied : ℕ)
        → (rest ≡ 0) ⊎ (num ≤ satisfied + 1)
        → (take (num - (satisfied + 1)) (set_bits 64 off rest) ≡ [])
          × (drop (num - (satisfied + 1)) (set_bits 64 off rest) ≡ set_bits 64 off rest)
    none_after satisfied (inl none) =
        rw (none, set_bits-zero 64 off)
          (take-nil ℕ (num - (satisfied + 1)), drop-nil ℕ (num - (satisfied + 1)))
    none_after satisfied (inr full) =
        let e : num - (satisfied + 1) ≡ 0 = omega arith in rw e (refl, refl)

    last-TakesLowest :
        (fuel satisfied : ℕ)
        → satisfied < num
        → ((not (rest == 0) && ltb (satisfied + 1) num) ≡ false)
        → (rest ≡ 0) ⊎ (num ≤ satisfied + 1)
        → TakesLowest val satisfied (take_bits (suc fuel) chunk_base page_size num val satisfied)
    last-TakesLowest fuel satisfied wanted stop why = record {
      val' = rest;
      small = rest-small;
      left = rw (wanted_more satisfied wanted, first) (sym (none_after satisfied why).1);
      result =
          take_bits-last fuel satisfied stop
          ∙ rw (
            count_last satisfied wanted why,
            wanted_more satisfied wanted,
            first,
            (none_after satisfied why).0,
          );
    }

    more-TakesLowest :
        (fuel satisfied : ℕ)
        → satisfied + 1 < num
        → ((not (rest == 0) && ltb (satisfied + 1) num) ≡ true)
        → TakesLowest rest
            (satisfied + 1)
            (take_bits fuel chunk_base page_size num rest (satisfied + 1))
        → TakesLowest val satisfied (take_bits (suc fuel) chunk_base page_size num val satisfied)
    more-TakesLowest fuel satisfied wanted go t = record {
      val' = t.val';
      small = t.small;
      left = rw (wanted_more satisfied (omega arith), first) t.left;
      result =
          take_bits-more fuel satisfied go
          ∙ rw (t.result, count_more satisfied wanted, wanted_more satisfied (omega arith), first)
              (ground arith);
    }

  pub take_bits-TakesLowest :
      (fuel val satisfied : ℕ)
      → val < 2 ^ 64
      → val ≢ 0
      → satisfied < num
      → length (set_bits 64 off val) ≤ fuel
      → TakesLowest val satisfied (take_bits fuel chunk_base page_size num val satisfied)
  take_bits-TakesLowest zero val satisfied small ne wanted enough =
      absurd (omega (arith, ap length (first val small ne)))
  take_bits-TakesLowest (suc fuel) val satisfied small ne wanted enough =
      elim (Bool-cases (rest val small ne == 0)) [
        | inl none ↦
            last-TakesLowest val small ne fuel satisfied wanted (rw none) (inl (eq_of_== _ 0 none))
        | inr some_left ↦ elim (Bool-cases (ltb (satisfied + 1) num)) [
          | inl go ↦
              more-TakesLowest val small ne fuel satisfied (ltb→lt _ _ go) (rw (some_left, go)) (
                take_bits-TakesLowest fuel (rest val small ne) (satisfied + 1)
                  (rest-small val small ne) (ground arith) (ltb→lt _ _ go)
                  (omega (arith, ap length (first val small ne))))
          | inr full ↦
              last-TakesLowest val small ne fuel satisfied wanted (rw (some_left, full))
                (inr (ground arith))
        ]
      ]
