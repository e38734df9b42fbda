-- ===== src/Vm/Zone/Slots.antt =====
-- Taking a slot of a region's bitmap, and marking it free again.
use kush_os_rewrite.Base.{ℕ, zero, suc, ◌+◌, ◌-◌, ◌*◌, ◌/◌, ◌%◌, ◌^◌, ◌<◌, false, bit_or, arith}
use kush_os_rewrite.Base.{
  List, [], ◌∷◌, ◌++◌, length, get_or, set, not64, ffs64, ffs_width, some, done,
}
use kush_os_rewrite.Base.{◌≡◌, refl, ap, ◌∙◌, ◌≢◌, inl, inr, ◌==◌, Bool-cases, ==_of_ne, eq_of_==}
use kush_os_rewrite.Base.Bits.{bit_or-digit, bit_or-disjoint}
use kush_os_rewrite.Memory.Bitmap.{
  set_bits, clear, clear_first, clear_next, FindsLowest, ffs-FindsLowest, half_ne_zero, ffs-even,
  bit_and-le,
}
use kush_os_rewrite.Memory.Region.Chunk.{set_bits-zero}
use kush_os_rewrite.Memory.Region.Alloc.{AreWords}
use kush_os_rewrite.Vm.Zone.{take_slot, all_clear}
use native.Mathlib.Nat.{pow-suc}

-- Setting the lowest set bit again, once it is cleared, gives the word back.
restores :
    (w v : ℕ)
    → v < 2 ^ w
    → v ≢ 0
    → bit_or (clear w v (ffs_width w v - 1)) (2 ^ (ffs_width w v - 1)) ≡ v
restores zero v h ne = absurd (ne (omega arith))
restores (suc w) v h ne = elim (Bool-cases (v % 2 == 1)) [
  | inl odd ↦
      let first : ffs_width (suc w) v - 1 ≡ 0 = unfold ffs_width in ground arith in
      ap (λ k. bit_or (clear (suc w) v k) (2 ^ k)) first
      ∙ ap (λ t. bit_or t 1) (clear_first w v h)
      ∙ bit_or-disjoint 1 (v / 2) 1 (omega arith)
      ∙ ground arith
  | inr even ↦
      let ne' = half_ne_zero v ne even in
      let f : FindsLowest w 0 (v / 2) =
        ffs-FindsLowest w 0 (v / 2) (omega (arith, pow-suc 2 w)) ne' in
      let low = ffs_width w (v / 2) - 1 in
      let x = clear w (v / 2) low in
      let next : ffs_width (suc w) v - 1 ≡ suc low =
        ground (arith, ffs-even w v even f.found, f.found) in
      let half : x * 2 / 2 ≡ x = omega arith in
      let half_pow : 2 ^ suc low / 2 ≡ 2 ^ low = omega (arith, pow-suc 2 low) in
      let digits : bit_or (x * 2 / 2) (2 ^ suc low / 2) ≡ v / 2 =
        ap (λ t. bit_or t (2 ^ suc low / 2)) half
        ∙ ap (bit_or x) half_pow
        ∙ restores w (v / 2) (omega (arith, pow-suc 2 w)) ne' in
      ap (λ k. bit_or (clear (suc w) v k) (2 ^ k)) next
      ∙ ap (λ t. bit_or t (2 ^ suc low))
          (clear_next w v low (ground (arith, f.found, f.inside)) (ground arith))
      ∙ ground (arith, bit_or-digit (x * 2) (2 ^ suc low), digits, pow-suc 2 low)
]

-- The free slots of a bitmap whose first slot is `off`.
unfoldable pub slots : ℕ → List ℕ → List ℕ
slots off [] = []
slots off (w ∷ words) = set_bits 64 off w ++ slots (off + 64) words

-- A slot is taken: the lowest free one; the others stay free; marking it free undoes it all.
pub record TakesSlot (off : ℕ) (words : List ℕ) : Type 0 where
  pub place : ℕ
  pub bit : ℕ
  pub words' : List ℕ
  pub result : take_slot off words ≡ done (words', some (off + (place * 64 + bit)))
  pub first : slots off words ≡ (off + (place * 64 + bit)) ∷ slots off words'
  pub bit_small : bit < 64
  pub place_small : place < length words
  pub same_length : length words' ≡ length words
  pub are_words : AreWords words'
  pub back : set words' place (bit_or (get_or words' place 0) (2 ^ bit)) ≡ words

module _ (off w : ℕ) (words : List ℕ) where
  taken_here : (w < 2 ^ 64) → AreWords words → w ≢ 0 → TakesSlot off (w ∷ words)
  unfolding take_slot slots ffs64
  taken_here small are ne =
      let f : FindsLowest 64 off w = ffs-FindsLowest 64 off w small ne in
      let back_to : bit_or (clear 64 w (ffs_width 64 w - 1)) (2 ^ (ffs_width 64 w - 1)) ≡ w =
        restores 64 w small ne in
      let at : off + (ffs_width 64 w - 1) ≡ off + (0 * 64 + (ffs_width 64 w - 1)) = omega arith in
      record {
        place = 0;
        bit = ffs_width 64 w - 1;
        words' = clear 64 w (ffs_width 64 w - 1) ∷ words;
        result =
            rw (==_of_ne w 0 ne, ==_of_ne (ffs_width 64 w) 0 f.found)
              (ap (λ (n : ℕ). done (clear 64 w (ffs_width 64 w - 1) ∷ words, some n)) at);
        first =
            ap (λ l. l ++ slots (off + 64) words) f.first
            ∙ ap
                (λ n.
                  n ∷ (set_bits 64 off (clear 64 w (ffs_width 64 w - 1)) ++ slots (off + 64) words))
                at;
        bit_small = ground (arith, f.inside, f.found);
        place_small = omega arith;
        same_length = refl;
        are_words = (
          omega (arith, small, bit_and-le w w (not64 (2 ^ (ffs_width 64 w - 1))) (omega arith)),
          are,
        );
        back = ap (λ x. x ∷ words) back_to;
      }

  taken_later : (w ≡ 0) → TakesSlot (off + 64) words → TakesSlot off (w ∷ words)
  unfolding take_slot slots
  taken_later e t =
      let at : off + 64 + (t.place * 64 + t.bit) ≡ off + (suc t.place * 64 + t.bit) = omega arith in
      record {
        place = suc t.place;
        bit = t.bit;
        words' = 0 ∷ t.words';
        result = rw (e, t.result) (ap (λ (n : ℕ). done (0 ∷ t.words', some n)) at);
        first = rw (e, set_bits-zero 64 off) (t.first ∙ ap (λ n. n ∷ slots (off + 64) t.words') at);
        bit_small = t.bit_small;
        place_small = omega (arith, t.place_small);
        same_length = ap suc t.same_length;
        are_words = (omega arith, t.are_words);
        back = rw e (ap (λ x. 0 ∷ x) t.back);
      }

-- A bitmap with a set bit has a slot to take.
pub take_slot-TakesSlot :
    (off : ℕ) (words : List ℕ) → AreWords words → all_clear words ≡ false → TakesSlot off words
unfolding all_clear
take_slot-TakesSlot off [] are some_bit = cc
take_slot-TakesSlot off (w ∷ words) are some_bit = elim (Bool-cases (w == 0)) [
  | inl z ↦
      taken_later off w words (eq_of_== w 0 z)
        (take_slot-TakesSlot (off + 64) words are.1 (rw z at some_bit))
  | inr ne ↦ taken_here off w words are.0 are.1 (ground arith)
]
