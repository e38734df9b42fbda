-- ===== src/FbCons/Console/Scroll.antt =====
-- `newLine` and its scrolling.
use kush_os_rewrite.Base.{ℕ, zero, suc, ◌+◌, ◌-◌, ◌*◌, ◌^◌, ◌≤◌, ◌<◌, true, arith}
use kush_os_rewrite.Base.{u64, sub64, ◌==◌, Bool-cases, ==_of_eq}
use kush_os_rewrite.Base.{◌≡◌, refl, ap, ◌∙◌, inl, inr, done, panic}
use kush_os_rewrite.Runtime.String.{memcpy}
use kush_os_rewrite.Runtime.String.Moves.{memcpy-Copies, memcpy_overlap}
use kush_os_rewrite.FbCons.Console.{Console, new_line, fill_rows}

-- The cursor stands on the screen.
pub record OnScreen (c : Console) : Type 0 where
  pub x_small : c.cursor_x < c.columns
  pub y_small : c.cursor_y < c.rows

-- The bytes that a scroll skips, and those that it moves.
abbrev skipped : Console → ℕ
skipped c = c.font.height * 5 * c.stride

abbrev moved : Console → ℕ
moved c = c.stride * sub64 c.rows 5 * c.font.height

module _ (stride height rest : ℕ) where
  -- The row of characters, in bytes, counts both.
  skipped_lem : height * 5 * stride ≡ 5 * (stride * height)
  skipped_lem = grind arith

  moved_lem :
      (k : ℕ) → stride * (k + rest) * height ≡ k * (stride * height) + rest * (stride * height)
  moved_lem k = grind arith

  some_row : 0 < stride → 0 < height → 0 < stride * height
  some_row h k = pos stride height h k
    where
      pos : (a b : ℕ) → 0 < a → 0 < b → 0 < a * b
      pos zero b h k = absurd (omega arith)
      pos (suc a) zero h k = absurd (omega arith)
      pos (suc a) (suc b) h k = grind arith

-- On a screen of more than ten rows, a new line in the last row panics: the scroll calls `memcpy`
-- on blocks that overlap, which `memcpy` refuses.
pub new_line_panics :
    (c : Console)
    → 10 < c.rows
    → c.rows < 2 ^ 64
    → c.cursor_y + 1 ≡ c.rows
    → 0 < c.stride
    → 0 < c.font.height
    → new_line c ≡ panic
unfolding new_line
new_line_panics c tall fits last some_stride some_height =
    let e : (u64 (c.cursor_y + 1) == c.rows) ≡ true = ==_of_eq _ _ (omega arith) in
    let row = some_row c.stride c.font.height 0 some_stride some_height in
    let skip = skipped_lem c.stride c.font.height 0 in
    let rest : sub64 c.rows 5 ≡ 6 + (c.rows - 11) = omega arith in
    let much : moved c
        ≡ 6 * (c.stride * c.font.height) + (c.rows - 11) * (c.stride * c.font.height) =
      ap (λ (t : ℕ). c.stride * t * c.font.height) rest
      ∙ moved_lem c.stride c.font.height (c.rows - 11) 6 in
    let overlaps : memcpy c.memory c.buffer (c.buffer + skipped c) (moved c) ≡ panic =
      memcpy_overlap c.memory c.buffer (c.buffer + skipped c) (moved c)
        (λ e. absurd (omega (arith, e, row, skip))) (omega (arith, row, skip))
        (omega (arith, row, skip, much)) in
    rw (e, overlaps)

-- With five to ten rows and the cursor on the screen, `newLine` returns and leaves the cursor on
-- the screen, at the start of a row.
pub new_line-OnScreen :
    (c : Console)
    → 5 ≤ c.rows
    → c.rows ≤ 10
    → OnScreen c
    → (c' : Console) × (new_line c ≡ done c') × (c'.cursor_x ≡ 0) × OnScreen c'
unfolding new_line
new_line-OnScreen c enough few at_cursor = elim (Bool-cases (u64 (c.cursor_y + 1) == c.rows)) [
  | inr more ↦ (
    record c { cursor_x = 0; cursor_y = u64 (c.cursor_y + 1) },
    rw more,
    refl,
    record {
      x_small = omega (arith, at_cursor.x_small);
      y_small = ground (arith, at_cursor.y_small);
    },
  )
  | inl last ↦
      let skip = skipped_lem c.stride c.font.height 0 in
      let rest : sub64 c.rows 5 ≡ c.rows - 5 = omega arith in
      let all : 5 ≡ c.rows - 5 + (10 - c.rows) = omega arith in
      let few_rows : moved c ≤ 5 * (c.stride * c.font.height) = omega (
        arith,
        ap (λ (t : ℕ). c.stride * t * c.font.height) rest,
        ap (λ (t : ℕ). c.stride * t * c.font.height) all,
        moved_lem c.stride c.font.height (10 - c.rows) (c.rows - 5),
        moved_lem c.stride c.font.height 0 (c.rows - 5),
        moved_lem c.stride c.font.height 0 5,
      ) in
      let (mem, copied, same) =
        memcpy-Copies c.memory c.buffer (c.buffer + skipped c) (moved c)
          (inl omega (arith, skip, few_rows)) in
      (
        record c {
          memory = fill_rows (5 * c.font.height) c.width c.stride mem (c.buffer + moved c) c.bg;
          cursor_x = 0;
          cursor_y = sub64 (u64 (c.cursor_y + 1)) 5;
        },
        rw (last, copied),
        refl,
        record {
          x_small = omega (arith, at_cursor.x_small);
          y_small = ground (arith, at_cursor.y_small);
        },
      )
]
