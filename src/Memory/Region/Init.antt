-- ===== src/Memory/Region/Init.antt =====
-- The constructor of `Region`: what a new bitmap marks free.
use kush_os_rewrite.Base.{
  ℕ, zero, suc, ◌+◌, ◌-◌, ◌*◌, ◌/◌, ◌%◌, ◌^◌, ◌≤◌, ◌<◌, Bool, true, false, not, ◌||◌,
}
use kush_os_rewrite.Base.{List, [], ◌∷◌, length, u64, test_bit, bit_or}
use kush_os_rewrite.Base.{
  ◌≡◌, refl, ap, sym, ◌∙◌, inl, inr, arith, done, done-injective, >>=-eq-done, ltb, leb,
  if◌then◌else◌, ◌==◌, Bool-cases, require,
}
use kush_os_rewrite.Base.Bits.{test_bit-bit_or, test_bit-complement, bit_or-digit, pow-pos}
use kush_os_rewrite.Platform.PhysicalMap
use kush_os_rewrite.Memory.Region.{
  Region, fresh, reserved, init, fill_bytes, words_from, bitmap_bytes, bitmap_pages,
}
use kush_os_rewrite.Memory.Region.Alloc.{AreWords, IsValid}
use kush_os_rewrite.Memory.Region.Free.{bit_of, is_free}
use kush_os_rewrite.Memory.Region.Chunk.{page_addr}
use mathlib.Core.Path.{subst}
use native.Mathlib.Nat.{
  pow-suc, div-le_of_le-mul, div-eq_of_lt, div-le_self, div-mul-le_self, lt-div-mul-add,
  pow-le-pow_right,
}

bit_or-lt : (w a b : ℕ) → a < 2 ^ w → b < 2 ^ w → bit_or a b < 2 ^ w
bit_or-lt zero a b p q =
    let ea : a ≡ 0 = omega arith in let eb : b ≡ 0 = omega arith in rw (ea, eb) (omega arith)
bit_or-lt (suc w) a b p q = omega (
  arith,
  pow-suc 2 w,
  bit_or-digit a b,
  bit_or-lt w (a / 2) (b / 2) (omega (arith, pow-suc 2 w)) (omega (arith, pow-suc 2 w)),
)

length-fill_bytes : (n : ℕ) (ws : List ℕ) → length (fill_bytes n ws) ≡ length ws
unfolding fill_bytes
length-fill_bytes n [] = refl
length-fill_bytes n (w ∷ ws) = ap suc (length-fill_bytes (n - 8) ws)

test_bit-zero : (i : ℕ) → test_bit 0 i ≡ false
unfolding test_bit
test_bit-zero zero = refl
test_bit-zero (suc i) = test_bit-zero i

-- The low `k` bits of `2 ^ k - 1` are set.
test_bit-ones : (i k : ℕ) → i < k → test_bit (2 ^ k - 1) i ≡ true
test_bit-ones i k h =
    let e : 2 ^ k - 1 - 0 ≡ 2 ^ k - 1 = omega arith in
    rw e at (test_bit-complement i k 0 (pow-pos k) h) ∙ ap not (test_bit-zero i)

abbrev filled : ℕ → ℕ → ℕ
filled n w = if leb 8 n then 2 ^ 64 - 1 else bit_or w (2 ^ (8 * n) - 1)

or_true : (b : Bool) → (b || true) ≡ true
or_true true = refl
or_true false = refl

test_bit-filled : (n w i : ℕ) → i < 64 → i < 8 * n → test_bit (filled n w) i ≡ true
test_bit-filled n w i h k = elim (Bool-cases (leb 8 n)) [
  | inl whole ↦ rw whole (test_bit-ones i 64 h)
  | inr part ↦ rw part (
      test_bit-bit_or i w (2 ^ (8 * n) - 1)
      ∙ rw (test_bit-ones i (8 * n) k) (or_true (test_bit w i)))
]

filled-lt : (n w : ℕ) → w < 2 ^ 64 → filled n w < 2 ^ 64
filled-lt n w h = elim (Bool-cases (leb 8 n)) [
  | inl whole ↦ rw whole (omega arith)
  | inr part ↦ rw part (
      bit_or-lt 64 w (2 ^ (8 * n) - 1) h (
        omega (
          arith,
          pow-le-pow_right {n = 2} (omega arith) {i = 8 * n} {j = 64} (ground arith),
          pow-pos (8 * n),
        )))
]

fill_bytes-AreWords : (n : ℕ) (ws : List ℕ) → AreWords ws → AreWords (fill_bytes n ws)
unfolding fill_bytes
fill_bytes-AreWords n [] a = tt
fill_bytes-AreWords n (w ∷ ws) a = (filled-lt n w a.0, fill_bytes-AreWords (n - 8) ws a.1)

bit_of-first : (w page : ℕ) (ws : List ℕ) → page < 64 → bit_of (w ∷ ws) page ≡ test_bit w page
bit_of-first w page ws h =
    let q : page / 64 ≡ 0 = omega arith in let m : page % 64 ≡ page = omega arith in rw (q, m)

bit_of-later : (w page : ℕ) (ws : List ℕ) → 64 ≤ page → bit_of (w ∷ ws) page ≡ bit_of ws (page - 64)
bit_of-later w page ws h =
    let q : page / 64 ≡ suc ((page - 64) / 64) = omega arith in
    let m : page % 64 ≡ (page - 64) % 64 = omega arith in rw (q, m)

bit_of-fill_bytes :
    (n page : ℕ) (ws : List ℕ)
    → page < 8 * n
    → page / 64 < length ws
    → bit_of (fill_bytes n ws) page ≡ true
unfolding fill_bytes
bit_of-fill_bytes n page [] h k = absurd (omega arith)
bit_of-fill_bytes n page (w ∷ ws) h k = elim (Bool-cases (ltb page 64)) [
  | inl early ↦
      bit_of-first (filled n w) page (fill_bytes (n - 8) ws) (ground arith)
      ∙ test_bit-filled n w page (ground arith) h
  | inr late ↦
      bit_of-later (filled n w) page (fill_bytes (n - 8) ws) (ground arith)
      ∙ bit_of-fill_bytes (n - 8) (page - 64) ws (ground arith) (ground arith)
]

length-words_from : (memory : ℕ → ℕ) (i n : ℕ) → length (words_from memory i n) ≡ n
unfolding words_from
length-words_from memory i zero = refl
length-words_from memory i (suc n) = ap suc (length-words_from memory (i + 1) n)

words_from-AreWords :
    (memory : ℕ → ℕ) (i n : ℕ) → ((k : ℕ) → memory k < 2 ^ 64) → AreWords (words_from memory i n)
unfolding words_from
words_from-AreWords memory i zero h = tt
words_from-AreWords memory i (suc n) h = (h i, words_from-AreWords memory (i + 1) n h)

module _ (page_size n : ℕ) (sized : 0 < page_size) (small : n + page_size < 2 ^ 63) where
  -- The reserved pages hold the bitmap's bytes, and less than a page more.
  reserved_bounds :
      (bitmap_bytes n ≤ bitmap_pages page_size n * page_size)
      × (bitmap_pages page_size n * page_size < bitmap_bytes n + page_size)
      × (n ≤ 8 * bitmap_bytes n)
  reserved_bounds = omega (
    arith,
    div-le_self,
    div-mul-le_self (bitmap_bytes n + (page_size - 1)) page_size,
    lt-div-mul-add {a = bitmap_bytes n + (page_size - 1)} {b = page_size} sized,
    ap (λ (t : ℕ). t / page_size * page_size) no_wrap,
  )
    where
      no_wrap : u64 (bitmap_bytes n + (page_size - 1)) ≡ bitmap_bytes n + (page_size - 1)
      no_wrap = omega arith

-- What the constructor makes of a region of `length` bytes at `base`.
pub record IsFresh (r : Region) (page_size base len : ℕ) : Type 0 where
  pub base_lem : r.phys_base ≡ base
  pub pages_lem : r.num_pages ≡ len / page_size
  pub reserved_lem : r.bitmap_reserved ≡ bitmap_pages page_size (len / page_size) * page_size
  pub alloc_base_lem : r.alloc_base_phys ≡ r.phys_base + r.bitmap_reserved
  pub size_lem : r.bitmap_size + bitmap_pages page_size (len / page_size) ≡ r.num_pages
  pub some_reserved : 0 < r.bitmap_reserved
  pub none_allocated : r.num_allocated ≡ 0
  pub valid : IsValid r
  pub all_free : (page : ℕ) → page < r.num_pages → is_free r page ≡ true

module _ (page_size : ℕ) (memory : ℕ → ℕ) (base len addr : ℕ) (sized : 0 < page_size)
    (small : len + page_size < 2 ^ 63) (low : base < 2 ^ 63)
    (are_words : (k : ℕ) → memory k < 2 ^ 64) where
  abbrev n : ℕ
  n = len / page_size

  n-le : n ≤ len
  n-le = div-le_self len page_size

  bounds :
      (bitmap_bytes n ≤ bitmap_pages page_size n * page_size)
      × (bitmap_pages page_size n * page_size < bitmap_bytes n + page_size)
      × (n ≤ 8 * bitmap_bytes n)
  bounds = reserved_bounds page_size n sized (omega (arith, n-le))

  exact : reserved page_size n ≡ bitmap_pages page_size n * page_size
  exact = omega (arith, bounds, n-le)

  no_wrap : u64 (bitmap_bytes n + (page_size - 1)) ≡ bitmap_bytes n + (page_size - 1)
  no_wrap = omega (arith, n-le)

  few_pages : (b p : ℕ) → 0 < b → 0 < p → b + (p - 1) ≤ p * b
  few_pages (suc b) (suc p) hb hp = grind arith
  few_pages zero p hb hp = absurd (omega arith)
  few_pages (suc b) zero hb hp = absurd (omega arith)

  pages-le-bytes : 0 < n → bitmap_pages page_size n ≤ bitmap_bytes n
  pages-le-bytes h = rw no_wrap (
      div-le_of_le-mul page_size {m = bitmap_bytes n + (page_size - 1)} {n = bitmap_bytes n}
        (few_pages (bitmap_bytes n) page_size (omega (arith, n-le)) sized))

  none : n ≡ 0 → bitmap_pages page_size n ≡ 0
  none e =
      div-eq_of_lt {n = u64 (bitmap_bytes n + (page_size - 1))} {m = page_size}
        (omega (arith, n-le))

  pages-le : bitmap_pages page_size n ≤ n
  pages-le = elim (Bool-cases (n == 0)) [
    | inl e ↦ ground (arith, none)
    | inr e ↦ ground (arith, pages-le-bytes, n-le)
  ]

  fresh-IsFresh :
      (0 < reserved page_size n) × (reserved page_size n % 4096 ≡ 0)
      → IsFresh (fresh page_size memory base n addr) page_size base len
  fresh-IsFresh whole = record {
    base_lem = refl;
    pages_lem = refl;
    reserved_lem = exact;
    alloc_base_lem = omega (arith, exact, bounds, n-le);
    size_lem = omega (arith, pages-le, n-le);
    some_reserved = whole.0;
    none_allocated = refl;
    valid = record {
      holds = omega (
        arith,
        pages-le,
        n-le,
        bounds,
        exact,
        whole,
        length-fill_bytes (bitmap_bytes n) (words_from memory 0 (reserved page_size n / 8)),
        length-words_from memory 0 (reserved page_size n / 8),
      );
      words = fill_bytes-AreWords _ _ (words_from-AreWords memory 0 _ are_words);
    };
    all_free = λ page h. bit_of-fill_bytes (bitmap_bytes n) page _ (omega (arith, bounds)) (
        omega (arith, bounds, exact, whole, length-words_from memory 0 (reserved page_size n / 8)));
  }

-- The constructor, where it does not panic, and with no address or length near the end of the
-- 64-bit range: the region is valid, nothing in it is counted as allocated, its first pages are
-- reserved for the bitmap, and every page index below `numPages` is marked free.
pub init-IsFresh :
    (early : Bool) (page_size : ℕ) (memory : ℕ → ℕ) (base len : ℕ) {r : Region}
    → 0 < page_size
    → len + page_size < 2 ^ 63
    → base < 2 ^ 63
    → ((k : ℕ) → memory k < 2 ^ 64)
    → init early page_size memory base len ≡ done r
    → IsFresh r page_size base len
unfolding init
init-IsFresh early page_size memory base len sized small low are_words e =
    let (u, ok, e') = >>=-eq-done (require (not (len == 0))) _ e in
    let (addr, mapped, e'') =
      >>=-eq-done (PhysicalMap.add early base (reserved page_size (len / page_size))) _ e' in
    subst (λ r'. IsFresh r' page_size base len) (done-injective e'')
      (fresh-IsFresh page_size memory base len addr sized small low are_words
        (PhysicalMap.add_whole_pages early base (reserved page_size (len / page_size)) mapped))

positive : (a b : ℕ) → 0 < a * b → 0 < a
positive zero b h = absurd (omega arith)
positive (suc a) b h = omega arith

-- The bitmap of a new region marks more pages free than the region has: the first page past its
-- end, which has index `bitmapSize`, is marked free, and its address is the end of the region.
pub init_past_end :
    (early : Bool) (page_size : ℕ) (memory : ℕ → ℕ) (base len : ℕ) {r : Region}
    → 0 < page_size
    → len + page_size < 2 ^ 63
    → base < 2 ^ 63
    → ((k : ℕ) → memory k < 2 ^ 64)
    → init early page_size memory base len ≡ done r
    → (is_free r r.bitmap_size ≡ true)
      × (page_addr r.alloc_base_phys page_size r.bitmap_size ≡ base + r.num_pages * page_size)
init_past_end early page_size memory base len {r} sized small low are_words e =
    let f = init-IsFresh early page_size memory base len sized small low are_words e in
    let b = bitmap_pages page_size (len / page_size) in
    let one_reserved : 0 < b =
      positive b page_size (omega (arith, f.some_reserved, f.reserved_lem)) in
    let scaled : r.num_pages * page_size ≡ r.bitmap_size * page_size + b * page_size =
      omega (arith, ap (λ (t : ℕ). t * page_size) (sym f.size_lem)) in
    let within : r.num_pages * page_size ≤ len =
      omega (arith, div-mul-le_self len page_size, ap (λ (t : ℕ). t * page_size) f.pages_lem) in
    (
      f.all_free r.bitmap_size (omega (arith, f.size_lem)),
      omega (arith, f.alloc_base_lem, f.base_lem, f.reserved_lem),
    )
