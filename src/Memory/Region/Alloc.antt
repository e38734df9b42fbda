-- ===== src/Memory/Region/Alloc.antt =====
-- `Region::alloc` against a list of the free pages, in ascending order.
use kush_os_rewrite.Base.{u32, ℕ, zero, suc, ◌+◌, ◌-◌, ◌*◌, ◌/◌, ◌^◌, ◌≤◌, ◌<◌, min}
use kush_os_rewrite.Base.{
  List, [], ◌∷◌, ◌++◌, length, take, drop, map, u64, length-append, take-append, drop-append,
  take-append_of_le, drop-append_of_le,
}
use kush_os_rewrite.Base.{
  ◌≡◌, refl, ap, sym, ◌∙◌, ◌≢◌, inl, inr, arith, Outcome, done, ltb, ltb→lt, take-nil, drop-nil,
  ◌==◌, Bool-cases, eq_of_==, ==_of_eq, ==_of_ne,
}
use kush_os_rewrite.Memory.Bitmap.{set_bits}
use kush_os_rewrite.Memory.Region.{Region, Progress, take_bits, take_chunks, chunks, alloc}
use kush_os_rewrite.Memory.Region.Chunk.{
  page_addr, set_bits-zero, TakesLowest, take_bits-TakesLowest,
}
use mathlib.Core.List.{map-append}

abbrev pub AreWords : List ℕ → Type 0
AreWords [] = Unit {0}
AreWords (w ∷ ws) = (w < 2 ^ 64) × AreWords ws

-- The free pages that `n` chunks show, the first of them for page `off`.
unfoldable pub free_in : ℕ → ℕ → List ℕ → List ℕ
free_in zero off words = []
free_in (suc n) off [] = []
free_in (suc n) off (w ∷ ws) = set_bits 64 off w ++ free_in n (off + 64) ws

abbrev pub free_pages : Region → List ℕ
free_pages r = free_in (chunks r) 0 r.bitmap

-- The bitmap holds the chunks that `alloc` reads, and its words are 64-bit words.
pub record IsValid (r : Region) : Type 0 where
  pub holds : chunks r ≤ length r.bitmap
  pub words : AreWords r.bitmap

pub length-set_bits-le : (w i v : ℕ) → length (set_bits w i v) ≤ w
unfolding set_bits
length-set_bits-le zero i v = omega arith
length-set_bits-le (suc w) i v = ground (arith, length-set_bits-le w (i + 1) (v / 2))

module _ (base page_size num : ℕ) where
  -- The loop takes the lowest free pages, as many as there are or are still wanted.
  pub record TakesFirst (n off satisfied : ℕ) (words : List ℕ)
      (outcome : Outcome (Progress (List ℕ))) : Type 0 where
    pub words' : List ℕ
    pub same_length : length words' ≡ length words
    pub are_words : AreWords words'
    pub left : free_in n off words' ≡ drop (num - satisfied) (free_in n off words)
    pub result :
        outcome
        ≡ done (record {
          memory = words';
          satisfied = satisfied + min (length (free_in n off words)) (num - satisfied);
          addrs = map (page_addr base page_size) (take (num - satisfied) (free_in n off words));
        })

  abbrev go : ℕ → ℕ → List ℕ → ℕ → Outcome (Progress (List ℕ))
  go n off words satisfied = take_chunks n base page_size num off words satisfied

  abbrev Takes : ℕ → ℕ → ℕ → List ℕ → Type 0
  Takes n off satisfied words = TakesFirst n off satisfied words (go n off words satisfied)

  empty_chunk :
      (n off satisfied w : ℕ) (ws : List ℕ)
      → w ≡ 0
      → Takes n (off + 64) satisfied ws
      → Takes (suc n) off satisfied (w ∷ ws)
  unfolding take_chunks free_in
  empty_chunk n off satisfied w ws e t = record {
    words' = w ∷ t.words';
    same_length = ap suc t.same_length;
    are_words = (omega arith, t.are_words);
    left = rw (e, set_bits-zero 64 off) t.left;
    result = rw (e, t.result, set_bits-zero 64 off);
  }

  -- One round of the loop on a chunk that is not 0.
  round_last :
      (n off satisfied w : ℕ) (ws : List ℕ) (p : Progress ℕ)
      → w ≢ 0
      → take_bits 64 (u64 (base + u64 (off * page_size))) page_size num w satisfied ≡ done p
      → p.satisfied ≡ num
      → go (suc n) off (w ∷ ws) satisfied
        ≡ done (record { memory = p.memory ∷ ws; satisfied = p.satisfied; addrs = p.addrs })
  unfolding take_chunks
  round_last n off satisfied w ws p ne e full =
      rw (==_of_ne w 0 ne) (rw e (rw (==_of_eq p.satisfied num full)))

  round_next :
      (n off satisfied w : ℕ) (ws : List ℕ) (p : Progress ℕ) (q : Progress (List ℕ))
      → w ≢ 0
      → take_bits 64 (u64 (base + u64 (off * page_size))) page_size num w satisfied ≡ done p
      → p.satisfied ≢ num
      → go n (off + 64) ws p.satisfied ≡ done q
      → go (suc n) off (w ∷ ws) satisfied
        ≡ done (record {
          memory = p.memory ∷ q.memory;
          satisfied = q.satisfied;
          addrs = p.addrs ++ q.addrs;
        })
  unfolding take_chunks
  round_next n off satisfied w ws p q ne e more e' =
      rw (==_of_ne w 0 ne) (rw e (rw (==_of_ne p.satisfied num more) (rw e')))

  last_chunk :
      (n off satisfied w : ℕ) (ws : List ℕ)
      → w ≢ 0
      → satisfied < num
      → AreWords ws
      → num ≤ satisfied + length (set_bits 64 off w)
      → TakesLowest base page_size num off w satisfied
          (take_bits 64 (u64 (base + u64 (off * page_size))) page_size num w satisfied)
      → Takes (suc n) off satisfied (w ∷ ws)
  unfolding free_in
  last_chunk n off satisfied w ws ne wanted are enough t = record {
    words' = t.val' ∷ ws;
    same_length = refl;
    are_words = (t.small, are);
    left = rw (
      drop-append_of_le (num - satisfied) (set_bits 64 off w) (free_in n (off + 64) ws)
          (omega arith),
      t.left,
    );
    result =
        round_last n off satisfied w ws _ ne t.result (omega arith)
        ∙ rw
            (
              take-append_of_le (num - satisfied) (set_bits 64 off w) (free_in n (off + 64) ws)
                  (omega arith),
              length-append (set_bits 64 off w) (free_in n (off + 64) ws),
            )
            (ground arith);
  }

  next_chunk :
      (n off satisfied w : ℕ) (ws : List ℕ)
      → w ≢ 0
      → satisfied < num
      → satisfied + length (set_bits 64 off w) < num
      → TakesLowest base page_size num off w satisfied
          (take_bits 64 (u64 (base + u64 (off * page_size))) page_size num w satisfied)
      → Takes n (off + 64) (satisfied + length (set_bits 64 off w)) ws
      → Takes (suc n) off satisfied (w ∷ ws)
  unfolding free_in
  next_chunk n off satisfied w ws ne wanted few t rest = record {
    words' = t.val' ∷ rest.words';
    same_length = ap suc rest.same_length;
    are_words = (t.small, rest.are_words);
    left = rw (
      drop-append (num - satisfied) (set_bits 64 off w) (free_in n (off + 64) ws),
      t.left,
      rest.left,
      still,
    );
    result =
        round_next n off satisfied w ws _ _ ne t.result (omega arith)
          (ap (go n (off + 64) ws) got ∙ rest.result)
        ∙ rw
            (
              take-append (num - satisfied) (set_bits 64 off w) (free_in n (off + 64) ws),
              length-append (set_bits 64 off w) (free_in n (off + 64) ws),
              map-append,
              still,
            )
            (ground arith);
  }
    where
      still :
          num - satisfied - length (set_bits 64 off w)
          ≡ num - (satisfied + length (set_bits 64 off w))
      still = omega arith

      got :
          satisfied + min (length (set_bits 64 off w)) (num - satisfied)
          ≡ satisfied + length (set_bits 64 off w)
      got = omega arith

  take_chunks-Takes :
      (n off satisfied : ℕ) (words : List ℕ)
      → n ≤ length words
      → AreWords words
      → satisfied < num
      → Takes n off satisfied words
  take_chunks-Takes zero off satisfied words h are wanted = record {
    words' = words;
    same_length = refl;
    are_words = are;
    left = unfold free_in in sym (drop-nil ℕ (num - satisfied));
    result = unfold take_chunks free_in in rw (take-nil ℕ (num - satisfied)) (ground arith);
  }
  take_chunks-Takes (suc n) off satisfied [] h are wanted = absurd (omega arith)
  take_chunks-Takes (suc n) off satisfied (w ∷ ws) h are wanted = elim (Bool-cases (w == 0)) [
    | inl empty ↦
        empty_chunk n off satisfied w ws (eq_of_== w 0 empty)
          (take_chunks-Takes n (off + 64) satisfied ws (omega arith) are.1 wanted)
    | inr some_left ↦
        let ne : w ≢ 0 = ground arith in
        let t =
          take_bits-TakesLowest base page_size num off 64 w satisfied are.0 ne wanted
            (length-set_bits-le 64 off w) in
        elim (Bool-cases (ltb (satisfied + length (set_bits 64 off w)) num)) [
          | inl few ↦ next_chunk n off satisfied w ws ne wanted (ltb→lt _ _ few) t (
              take_chunks-Takes n (off + 64) (satisfied + length (set_bits 64 off w)) ws
                (omega arith) are.1 (ltb→lt _ _ few))
          | inr enough ↦ last_chunk n off satisfied w ws ne wanted are.1 (ground arith) t
        ]
  ]

-- What `alloc` does to a region and gives its caller: it takes the `num` lowest free pages, or all
-- of them if there are fewer.
pub record TakesPages (r : Region) (page_size num : ℕ) : Type 0 where
  pub bitmap' : List ℕ
  pub after : Region
  pub after_lem : after ≡ record r {
    bitmap = bitmap';
    num_allocated = u64 (r.num_allocated + min (length (free_pages r)) num);
  }
  pub result :
      alloc r page_size num
      ≡ done (
        after,
        u32 (min (length (free_pages r)) num),
        map (page_addr r.alloc_base_phys page_size) (take num (free_pages r)),
      )
  pub left : free_pages after ≡ drop num (free_pages r)
  pub valid : IsValid after

-- On a valid region `Region::alloc` returns, for a request of at least one page: it gives out the
-- lowest free pages, as many as are free or as are wanted, stores their addresses in ascending
-- order of the pages, counts them in `numAllocated`, returns their number as an `int`, so modulo
-- 2^32, leaves exactly the others free, changes nothing else, and leaves the region valid.
pub alloc-TakesPages :
    (r : Region) (page_size num : ℕ) → IsValid r → 0 < num → TakesPages r page_size num
unfolding alloc
alloc-TakesPages r page_size num valid wanted = record {
  bitmap' = t.words';
  after = after;
  after_lem = refl;
  result = rw (t.result, all_wanted, from_zero);
  left = rw all_wanted at (t.left);
  valid = record { holds = rw t.same_length valid.holds; words = t.are_words };
}
  where
    t : Takes r.alloc_base_phys page_size num (chunks r) 0 0 r.bitmap
    t =
        take_chunks-Takes r.alloc_base_phys page_size num (chunks r) 0 0 r.bitmap valid.holds
          valid.words wanted

    all_wanted : num - 0 ≡ num
    all_wanted = omega arith

    from_zero : 0 + min (length (free_pages r)) num ≡ min (length (free_pages r)) num
    from_zero = omega arith

    after : Region
    after = record r {
      bitmap = t.words';
      num_allocated = u64 (r.num_allocated + min (length (free_pages r)) num);
    }
