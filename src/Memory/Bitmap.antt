-- ===== src/Memory/Bitmap.antt =====
-- The set bits of a word as a list, and what `__builtin_ffsll` and clearing that bit do to it.
use kush_os_rewrite.Base.{ℕ, zero, suc, ◌+◌, ◌-◌, ◌*◌, ◌/◌, ◌%◌, ◌^◌, ◌≤◌, ◌<◌, bit_and}
use kush_os_rewrite.Base.{◌≡◌, ap, sym, ◌∙◌, ◌≢◌, List, [], ◌∷◌, arith, if◌then◌else◌, ◌==◌}
use kush_os_rewrite.Base.{ffs_width, true, false, Bool-cases, inl, inr}
use kush_os_rewrite.Base.Bits.{bit_and-digit, bit_and-low, pow-pos}
use Prim.Native.Nat.{bit_and-bitwise}
use native.Mathlib.Nat.{pow-suc, mod-eq_of_lt}

-- The indices of the set bits among the w lowest of v, the first of which has index i.
unfoldable pub set_bits : ℕ → ℕ → ℕ → List ℕ
set_bits zero i v = []
set_bits (suc w) i v =
    let rest = set_bits w (i + 1) (v / 2) in if v % 2 == 1 then i ∷ rest else rest

-- `v & ~(1 << k)` on words of w bits
abbrev pub clear : ℕ → ℕ → ℕ → ℕ
clear w v k = bit_and v (2 ^ w - 1 - 2 ^ k)

pub clear_first : (w v : ℕ) → v < 2 ^ suc w → clear (suc w) v 0 ≡ v / 2 * 2
clear_first w v h =
    let half : (2 ^ suc w - 1 - 1) / 2 ≡ 2 ^ w - 1 = omega (arith, pow-suc 2 w, pow-pos w) in
    omega (
      arith,
      bit_and-digit v (2 ^ suc w - 1 - 1),
      ap (λ (t : ℕ). bit_and (v / 2) t) half,
      bit_and-low w (v / 2),
      mod-eq_of_lt {n = v / 2} {m = 2 ^ w} (omega (arith, pow-suc 2 w)),
      pow-suc 2 w,
      pow-pos w,
    )

pub clear_next : (w v k : ℕ) → k < w → v % 2 ≡ 0 → clear (suc w) v (suc k) ≡ clear w (v / 2) k * 2
clear_next w v k h e =
    let half : (2 ^ suc w - 1 - 2 ^ suc k) / 2 ≡ 2 ^ w - 1 - 2 ^ k =
      omega (arith, pow-suc 2 w, pow-suc 2 k, pow-pos w, pow-pos k) in
    omega
      (arith, bit_and-digit v (2 ^ suc w - 1 - 2 ^ suc k), ap (λ (t : ℕ). bit_and (v / 2) t) half)

zero-bit_and : (b : ℕ) → bit_and 0 b ≡ 0
zero-bit_and b = bit_and-bitwise 0 b

pub bit_and-le : (n a b : ℕ) → a ≤ n → bit_and a b ≤ a
bit_and-le zero zero b h = omega (arith, zero-bit_and b)
bit_and-le zero (suc a) b h = absurd (omega arith)
bit_and-le (suc n) zero b h = omega (arith, zero-bit_and b)
bit_and-le (suc n) (suc a) b h =
    omega (arith, bit_and-digit (suc a) b, bit_and-le n (suc a / 2) (b / 2) (omega arith))

-- For a word that is not 0, `ffs` finds the least set bit, and clearing that bit drops it from the
-- list and leaves the others.
pub record FindsLowest (w i v : ℕ) : Type 0 where
  pub found : ffs_width w v ≢ 0
  pub inside : ffs_width w v ≤ w
  pub first :
      set_bits w i v ≡ (i + (ffs_width w v - 1)) ∷ set_bits w i (clear w v (ffs_width w v - 1))

pub half_ne_zero : (v : ℕ) → v ≢ 0 → (v % 2 == 1) ≡ false → v / 2 ≢ 0
half_ne_zero v ne even = ground arith

odd_case : (w i v : ℕ) → v < 2 ^ suc w → (v % 2 == 1) ≡ true → FindsLowest (suc w) i v
unfolding ffs_width set_bits
odd_case w i v h odd = record {
  found = ground arith;
  inside = ground arith;
  first = ground (arith, clear_first w v h, halved);
}
  where
    halved : v / 2 * 2 / 2 ≡ v / 2
    halved = omega arith

pub set_bits-even :
    (w i v : ℕ) → (v % 2 == 1) ≡ false → set_bits (suc w) i v ≡ set_bits w (i + 1) (v / 2)
unfolding set_bits
set_bits-even w i v even = ground arith

pub ffs-even :
    (w v : ℕ)
    → (v % 2 == 1) ≡ false
    → ffs_width w (v / 2) ≢ 0
    → ffs_width (suc w) v ≡ ffs_width w (v / 2) + 1
unfolding ffs_width
ffs-even w v even ne = ground arith

set_bits-double : (w i x : ℕ) → set_bits (suc w) i (x * 2) ≡ set_bits w (i + 1) x
set_bits-double w i x =
    let half : x * 2 / 2 ≡ x = omega arith in
    set_bits-even w i (x * 2) (ground arith) ∙ ap (set_bits w (i + 1)) half

module _ (w i v : ℕ) (even : (v % 2 == 1) ≡ false) (next : FindsLowest w (i + 1) (v / 2)) where
  low : ℕ
  low = ffs_width w (v / 2) - 1

  ffs_pred : ffs_width (suc w) v - 1 ≡ suc low
  unfolding low
  ffs_pred = omega (arith, ffs-even w v even next.found, ne-zero next.found)
    where
      ne-zero : ffs_width w (v / 2) ≢ 0 → 0 < ffs_width w (v / 2)
      ne-zero h = omega arith

  cleared : clear (suc w) v (suc low) ≡ clear w (v / 2) low * 2
  unfolding low
  cleared = clear_next w v low (ground (arith, next.found, next.inside)) (ground arith)

  even_first :
      set_bits (suc w) i v
      ≡ (i + (ffs_width (suc w) v - 1))
        ∷ set_bits (suc w) i (clear (suc w) v (ffs_width (suc w) v - 1))
  unfolding low
  even_first =
      set_bits-even w i v even
      ∙ next.first
      ∙ ap (λ k. k ∷ set_bits w (i + 1) (clear w (v / 2) low)) (omega (arith, ffs_pred))
      ∙ ap (λ t. (i + (ffs_width (suc w) v - 1)) ∷ t)
          (sym (set_bits-double w i (clear w (v / 2) low))
            ∙ ap (set_bits (suc w) i) (sym cleared)
            ∙ ap (λ k. set_bits (suc w) i (clear (suc w) v k)) (sym ffs_pred))

  even_case : FindsLowest (suc w) i v
  even_case = record {
    found = ground (arith, ffs-even w v even next.found);
    inside = ground (arith, ffs-even w v even next.found, next.inside);
    first = even_first;
  }

pub ffs-FindsLowest : (w i v : ℕ) → v < 2 ^ w → v ≢ 0 → FindsLowest w i v
ffs-FindsLowest zero i v h ne = absurd (ne (omega arith))
ffs-FindsLowest (suc w) i v h ne = elim (Bool-cases (v % 2 == 1)) [
  | inl odd ↦ odd_case w i v h odd
  | inr even ↦
      even_case w i v even
        (ffs-FindsLowest w (i + 1) (v / 2) (omega (arith, pow-suc 2 w)) (half_ne_zero v ne even))
]
