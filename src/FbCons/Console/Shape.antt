-- ===== src/FbCons/Console/Shape.antt =====
-- The shape of the console, and that an SGR sequence keeps it.
use kush_os_rewrite.Base.{ℕ, ◌+◌, ◌-◌, ◌<◌, ◌&&◌, ◌||◌, arith}
use kush_os_rewrite.Base.{
  List, [], ◌∷◌, length, get_or, set, ◌==◌, ltb, leb, if◌then◌else◌, Bool-cases,
}
use kush_os_rewrite.Base.{◌≡◌, inl, inr, done, in_bounds, >>=-eq-done, done-injective}
use kush_os_rewrite.FbCons.Console.{
  Console, ansi_reading_csi, number_size, zeros, str_to_int, color_of,
}
use kush_os_rewrite.FbCons.Console.{process_sgr_attribute, process_sgr_from}
use mathlib.Core.Path.{subst}

-- The escape buffer has its size, and the palette indices are in the palette.
pub record HasShape (c : Console) : Type 0 where
  pub buf_size : length c.ansi_buf ≡ 32
  pub fg_small : c.fg_index < 16
  pub bg_small : c.bg_index < 16

-- The pixel colors are those of the indices.
pub record InSync (c : Console) : Type 0 where
  pub fg_sync : c.fg ≡ color_of c.format c.fg_index
  pub bg_sync : c.bg ≡ color_of c.format c.bg_index

pub record IsValid (c : Console) : Type 0 where
  pub shape : HasShape c
  pub sync : InSync c
  pub room : c.write_state ≡ ansi_reading_csi → c.ansi_used < 32

module _ (c : Console) (s : HasShape c) where
  with_fg : (i : ℕ) → i < 16 → HasShape (record c { fg_index = i })
  with_fg i h = record { buf_size = s.buf_size; fg_small = h; bg_small = s.bg_small }

  with_bg : (i : ℕ) → i < 16 → HasShape (record c { bg_index = i })
  with_bg i h = record { buf_size = s.buf_size; fg_small = s.fg_small; bg_small = h }

second_set :
    (c : Console) (cmd : ℕ) {c' : Console}
    → HasShape c
    → (if leb 90 cmd && leb cmd 97
        then done (record c { fg_index = cmd - 90 + 8 })
        else if leb 100 cmd && leb cmd 107
        then done (record c { bg_index = cmd - 100 + 8 })
        else done c)
      ≡ done c'
    → HasShape c'
second_set c cmd s e = elim (Bool-cases (leb 90 cmd && leb cmd 97)) [
  | inl a ↦ subst HasShape (done-injective (rw a at e)) (with_fg c s (cmd - 90 + 8) (ground arith))
  | inr a ↦ elim (Bool-cases (leb 100 cmd && leb cmd 107)) [
    | inl b ↦
        subst HasShape (done-injective (rw (a, b) at e))
          (with_bg c s (cmd - 100 + 8) (ground arith))
    | inr b ↦ subst HasShape (done-injective (rw (a, b) at e)) s
  ]
]

pub attribute-HasShape :
    (c : Console) (str : List ℕ) (n : ℕ) {c' : Console}
    → HasShape c
    → process_sgr_attribute c str n ≡ done c'
    → HasShape c'
unfolding process_sgr_attribute
attribute-HasShape c str n s e = elim (Bool-cases (n == 0 || (n == 1 && get_or str 0 0 == 48))) [
  | inl r ↦
      subst HasShape (done-injective (rw r at e))
        (record { buf_size = s.buf_size; fg_small = omega arith; bg_small = omega arith })
  | inr r ↦
      let (cmd, read, e') = >>=-eq-done (str_to_int str) _ (rw r at e) in
      elim (Bool-cases (leb 30 cmd && leb cmd 37)) [
        | inl a ↦
            second_set (record c { fg_index = cmd - 30 }) cmd
              (with_fg c s (cmd - 30) (ground arith)) (rw a at e')
        | inr a ↦ elim (Bool-cases (leb 40 cmd && leb cmd 47)) [
          | inl b ↦
              second_set (record c { bg_index = cmd - 40 }) cmd
                (with_bg c s (cmd - 40) (ground arith)) (rw (a, b) at e')
          | inr b ↦ second_set c cmd s (rw (a, b) at e')
        ]
      ]
]

pub sgr_from-HasShape :
    (c : Console) (rest number : List ℕ) (n : ℕ) {c' : Console}
    → HasShape c
    → process_sgr_from c rest number n ≡ done c'
    → HasShape c'
unfolding process_sgr_from
sgr_from-HasShape c [] number n s e = cc
sgr_from-HasShape c (ch ∷ rest) number n s e = elim (Bool-cases (ch == 0)) [
  | inl z ↦ elim (Bool-cases (n == 0)) [
    | inl none ↦ subst HasShape (done-injective (rw (z, none) at e)) s
    | inr some ↦ attribute-HasShape c number n s (rw (z, some) at e)
  ]
  | inr z ↦ elim (Bool-cases (ch == 59)) [
    | inl semi ↦
        let (c1, first, e') =
          >>=-eq-done (process_sgr_attribute c number n) _ (rw (z, semi) at e) in
        sgr_from-HasShape c1 rest (zeros number_size) 0 (attribute-HasShape c number n s first) e'
    | inr other ↦
        let (u, fits, e') = >>=-eq-done (in_bounds (ltb n number_size)) _ (rw (z, other) at e) in
        sgr_from-HasShape c rest (set number n ch) (n + 1) s e'
  ]
]
