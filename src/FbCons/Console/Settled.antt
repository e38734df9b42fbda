-- ===== src/FbCons/Console/Settled.antt =====
-- Escape sequences keep the shape, and the pixel colors with the indices.
use kush_os_rewrite.Base.{ℕ, ◌+◌, ◌-◌, Bool, true, false, not}
use kush_os_rewrite.Base.{List, [], ◌∷◌, get_or, set, length-set, ◌==◌, ltb, Bool-cases}
use kush_os_rewrite.Base.{◌≡◌, refl, ◌∙◌, inl, inr, done, in_bounds, >>=-eq-done, done-injective}
use kush_os_rewrite.FbCons.Console.{Console, number_size, zeros, str_to_int, set_cursor}
use kush_os_rewrite.FbCons.Console.{
  update_colors, process_sgr_attribute, process_sgr_from, process_sgr, process_cup_from,
  process_cup, process_ansi,
}
use mathlib.Core.Path.{subst}
use kush_os_rewrite.FbCons.Console.Shape.{HasShape, InSync, attribute-HasShape, sgr_from-HasShape}

-- A sequence leaves the shape and the colors in order, and nothing else that the writer needs.
pub record Settled (c : Console) : Type 0 where
  pub shape : HasShape c
  pub sync : InSync c

settle : (c : Console) → HasShape c → Settled (update_colors c)
unfolding update_colors
settle c s = record {
  shape = record { buf_size = s.buf_size; fg_small = s.fg_small; bg_small = s.bg_small };
  sync = record { fg_sync = refl; bg_sync = refl };
}

with_buf :
    (c : Console) (i v : ℕ) → HasShape c → HasShape (record c { ansi_buf = set c.ansi_buf i v })
with_buf c i v s = record {
  buf_size = length-set c.ansi_buf i v ∙ s.buf_size;
  fg_small = s.fg_small;
  bg_small = s.bg_small;
}

sgr-Settled : (c : Console) {c' : Console} → HasShape c → process_sgr c ≡ done c' → Settled c'
unfolding process_sgr
sgr-Settled c s e = elim (Bool-cases (c.ansi_used == 1)) [
  | inl one ↦
      let (c1, first, e') =
        >>=-eq-done (process_sgr_attribute c c.ansi_buf 0) (λ x. done (update_colors x))
          (rw one at e) in
      subst Settled (done-injective e') (settle c1 (attribute-HasShape c c.ansi_buf 0 s first))
  | inr more ↦
      let buf = set c.ansi_buf (c.ansi_used - 1) 0 in
      let (c1, first, e') =
        >>=-eq-done (process_sgr_from (record c { ansi_buf = buf }) buf (zeros number_size) 0)
          (λ x. done (update_colors x)) (rw more at e) in
      subst Settled (done-injective e') (
        settle c1 (
          sgr_from-HasShape (record c { ansi_buf = buf }) buf (zeros number_size) 0
            (with_buf c (c.ansi_used - 1) 0 s) first))
]

set_cursor-Settled : (c : Console) (b : Bool) (v : ℕ) → Settled c → Settled (set_cursor c b v)
set_cursor-Settled c true v s = record {
  shape = record {
    buf_size = s.shape.buf_size;
    fg_small = s.shape.fg_small;
    bg_small = s.shape.bg_small;
  };
  sync = record { fg_sync = s.sync.fg_sync; bg_sync = s.sync.bg_sync };
}
set_cursor-Settled c false v s = record {
  shape = record {
    buf_size = s.shape.buf_size;
    fg_small = s.shape.fg_small;
    bg_small = s.shape.bg_small;
  };
  sync = record { fg_sync = s.sync.fg_sync; bg_sync = s.sync.bg_sync };
}

cup_from-Settled :
    (c : Console) (rest : List ℕ) (b : Bool) (number : List ℕ) (n : ℕ) {c' : Console}
    → Settled c
    → process_cup_from c rest b number n ≡ done c'
    → Settled c'
unfolding process_cup_from
cup_from-Settled c [] b number n s e = cc
cup_from-Settled c (ch ∷ rest) b number n s e = elim (Bool-cases (ch == 0)) [
  | inl z ↦
      let (v, read, e') = >>=-eq-done (str_to_int number) _ (rw z at e) in
      subst Settled (done-injective e') (set_cursor-Settled c b v s)
  | inr z ↦ elim (Bool-cases (ch == 59)) [
    | inl semi ↦
        let (v, read, e') = >>=-eq-done (str_to_int number) _ (rw (z, semi) at e) in
        cup_from-Settled (set_cursor c b v) rest (not b) (zeros number_size) 0
          (set_cursor-Settled c b v s) e'
    | inr other ↦
        let (u, fits, e') = >>=-eq-done (in_bounds (ltb n number_size)) _ (rw (z, other) at e) in
        cup_from-Settled c rest b (set number n ch) (n + 1) s e'
  ]
]

pub ansi-Settled : (c : Console) {c' : Console} → Settled c → process_ansi c ≡ done c' → Settled c'
unfolding process_ansi process_cup
ansi-Settled c s e = elim (Bool-cases (c.ansi_used == 0)) [
  | inl z ↦ subst Settled (done-injective (rw z at e)) s
  | inr z ↦ elim (Bool-cases (get_or c.ansi_buf (c.ansi_used - 1) 0 == 109)) [
    | inl m ↦ sgr-Settled c s.shape (rw (z, m) at e)
    | inr m ↦ elim (Bool-cases (get_or c.ansi_buf (c.ansi_used - 1) 0 == 72)) [
      | inl h ↦
          let buf = set c.ansi_buf (c.ansi_used - 1) 0 in
          cup_from-Settled (record c { ansi_buf = buf }) buf true (zeros number_size) 0
            (record {
              shape = with_buf c (c.ansi_used - 1) 0 s.shape;
              sync = record { fg_sync = s.sync.fg_sync; bg_sync = s.sync.bg_sync };
            })
            (rw (z, m, h) at e)
      | inr h ↦ subst Settled (done-injective (rw (z, m, h) at e)) s
    ]
  ]
]
