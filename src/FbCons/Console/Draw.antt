-- ===== src/FbCons/Console/Draw.antt =====
-- Where `drawChar` stores.
use kush_os_rewrite.Base.{ℕ, zero, suc, ◌+◌, ◌*◌, ◌≤◌, ◌<◌, false, arith}
use kush_os_rewrite.Base.{leb, ltb, ◌&&◌, ◌≡◌, refl, ◌∙◌, ◌⊎◌, inl, inr}
use kush_os_rewrite.Runtime.String.{Bytes}
use kush_os_rewrite.FbCons.Console.{Console, Font, store32, draw_row, draw_rows, draw_char}
use kush_os_rewrite.FbCons.Console.Scroll.{OnScreen}
use native.Mathlib.Nat.{mul-le-mul_right}

abbrev Outside : ℕ → ℕ → ℕ → Type 0
Outside low high a = (a < low) ⊎ (high ≤ a)

store32-Outside :
    (mem : Bytes) (ptr v low high a : ℕ)
    → low ≤ ptr
    → ptr + 4 ≤ high
    → Outside low high a
    → store32 mem ptr v a ≡ mem a
store32-Outside mem ptr v low high a h k out =
    let e : (leb ptr a && ltb a (ptr + 4)) ≡ false = elim out [
      | inl l ↦ ground arith
      | inr r ↦ ground arith
    ] in
    rw e

module _ (font : Font) (fg bg low high a : ℕ) (out : Outside low high a) where
  draw_row-Outside :
      (n x : ℕ) (mem : Bytes) (ptr data' : ℕ)
      → low ≤ ptr
      → ptr + 4 * n ≤ high
      → (draw_row font fg bg n x mem ptr data').0 a ≡ mem a
  unfolding draw_row
  draw_row-Outside zero x mem ptr data' h k = refl
  draw_row-Outside (suc n) x mem ptr data' h k =
      draw_row-Outside n (x + 1) _ (ptr + 4) _ (omega arith) (omega arith)
      ∙ store32-Outside mem ptr _ low high a h (omega arith) out

  draw_rows-Outside :
      (stride n : ℕ) (mem : Bytes) (ptr data' : ℕ)
      → low ≤ ptr
      → ptr + 4 * font.width + n * stride ≤ high + stride
      → draw_rows font fg bg stride n mem ptr data' a ≡ mem a
  unfolding draw_rows
  draw_rows-Outside stride zero mem ptr data' h k = refl
  draw_rows-Outside stride (suc n) mem ptr data' h k =
      draw_rows-Outside stride n _ (ptr + stride) _ (omega arith) (omega arith)
      ∙ draw_row-Outside font.width 0 mem ptr data' h (omega arith)

-- The cells fit the framebuffer, and four bytes for each pixel of a row fit its stride.
pub record Fits (c : Console) : Type 0 where
  pub across : c.columns * c.font.width ≤ c.width
  pub down : c.rows * c.font.height ≤ c.height
  pub tight : 4 * c.width ≤ c.stride

within_row : (n w x : ℕ) → x < n → x * w + w ≤ n * w
within_row n w x h = omega (arith, mul-le-mul_right w h)

within_column : (n w y : ℕ) → y < n → w * y + w ≤ n * w
within_column n w y h = omega (arith, mul-le-mul_right w h)

in_bytes : (stride height p q : ℕ) → p + q ≤ height → p * stride + q * stride ≤ stride * height
in_bytes stride height p q h = omega (arith, mul-le-mul_right stride h)

-- Where all cells fit the framebuffer's width and height and the stride is at least four bytes for each
-- pixel of a row: drawing a character in a cell on the screen changes no byte outside the framebuffer.
pub draw_char-inside :
    (c : Console) (ch a : ℕ)
    → Fits c
    → OnScreen c
    → (a < c.buffer) ⊎ (c.buffer + c.stride * c.height ≤ a)
    → (draw_char c ch c.cursor_x c.cursor_y).memory a ≡ c.memory a
unfolding draw_char
draw_char-inside c ch a fits at out =
    let x = c.cursor_x in
    let y = c.cursor_y in
    let fw = c.font.width in
    let fh = c.font.height in
    let cell : x * fw * 4 + 4 * fw ≤ c.stride =
      omega (arith, within_row c.columns fw x at.x_small, fits.across, fits.tight) in
    let line : fh * y + fh ≤ c.height =
      omega (arith, within_column c.rows fh y at.y_small, fits.down) in
    let bytes : fh * y * c.stride + fh * c.stride ≤ c.stride * c.height =
      in_bytes c.stride c.height (fh * y) fh line in
    draw_rows-Outside c.font c.fg c.bg c.buffer (c.buffer + c.stride * c.height) a out c.stride
      c.font.height c.memory (c.buffer + x * fw * 4 + fh * y * c.stride) (ch * c.font.stride)
      (omega arith) (omega (arith, cell, bytes))
