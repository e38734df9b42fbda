-- ===== src/FbCons/Tests.antt =====
-- The console's theorems on a small screen.
use kush_os_rewrite.Base.{
  ℕ, ◌<◌, arith, List, [], ◌∷◌, ◌++◌, ◌≡◌, refl, ◌≢◌, inl, done, panic, wild,
}
use kush_os_rewrite.Runtime.String.{Bytes}
use kush_os_rewrite.FbCons.Color.{rgba}
use kush_os_rewrite.FbCons.Console
use kush_os_rewrite.FbCons.Console.{Console, Font, idle, create, clear, update_colors, zeros}
use kush_os_rewrite.FbCons.Console.Shape.{IsValid}
use kush_os_rewrite.FbCons.Console.Valid.{write-IsValid}
use kush_os_rewrite.FbCons.Console.Scroll.{OnScreen, new_line_panics, new_line-OnScreen}
use kush_os_rewrite.FbCons.Console.Sgr.{long_number_overruns}
use kush_os_rewrite.FbCons.Console.Draw.{draw_char-inside}

abbrev blank : Bytes
blank a = 0

abbrev font : Font
font = record { width = 8; height = 16; stride = 16; max_glyph = 0xff; glyph = λ i. 0x18 }

-- A console of the given number of rows of 80 characters, in the row given.
abbrev screen : ℕ → ℕ → Console
screen rows y = record {
  memory = blank;
  buffer = 0x10000;
  width = 640;
  height = 480;
  stride = 2560;
  format = rgba;
  columns = 80;
  rows = rows;
  fg_index = 0xf;
  bg_index = 0;
  fg = 0xe5e5e5ff;
  bg = 0xff;
  cursor_x = 0;
  cursor_y = y;
  font = font;
  write_state = idle;
  ansi_used = 0;
  ansi_buf = zeros 32;
}

new_line_panics_example : Console.new_line (screen 30 29) ≡ panic
new_line_panics_example =
    new_line_panics (screen 30 29) (omega arith) (omega arith) refl (omega arith) (omega arith)

new_line-OnScreen_example :
    (c' : Console) × (Console.new_line (screen 10 9) ≡ done c') × (c'.cursor_x ≡ 0) × OnScreen c'
new_line-OnScreen_example =
    new_line-OnScreen (screen 10 9) (omega arith) (omega arith)
      (record { x_small = omega arith; y_small = omega arith })

screen-IsValid : IsValid (screen 30 0)
unfolding Console.zeros kush_os_rewrite.FbCons.Color.convert
screen-IsValid = record {
  shape = record { buf_size = refl; fg_small = omega arith; bg_small = omega arith };
  sync = record { fg_sync = refl; bg_sync = refl };
  room = λ e. cc;
}

-- `ESC` starts a sequence.
escape :
    Console.write (screen 30 0) 27
    ≡ done (record (screen 30 0) { write_state = Console.ansi_escape_start })
unfolding Console.write Console.write_in
escape = refl

write-IsValid_example : IsValid (record (screen 30 0) { write_state = Console.ansi_escape_start })
write-IsValid_example = write-IsValid (screen 30 0) 27 screen-IsValid escape

abbrev nine_ones : List ℕ
nine_ones = 49 ∷ 49 ∷ 49 ∷ 49 ∷ 49 ∷ 49 ∷ 49 ∷ 49 ∷ 49 ∷ []

long_number_overruns_example :
    Console.process_sgr_from (screen 30 0) (nine_ones ++ 109 ∷ []) (zeros 8) 0 ≡ wild
long_number_overruns_example =
    long_number_overruns (screen 30 0) nine_ones (109 ∷ []) (zeros 8) 0
      (
        one,
        one',
        (
          one,
          one',
          (
            one,
            one',
            (one, one', (one, one', (one, one', (one, one', (one, one', (one, one', tt)))))),
          ),
        ),
      )
      (omega arith) (omega arith)
  where
    one : ◌≢◌ {A = ℕ} 49 0
    one e = absurd (omega (arith, e))

    one' : ◌≢◌ {A = ℕ} 49 59
    one' e = absurd (omega (arith, e))

draw_char-inside_example : (Console.draw_char (screen 30 0) 65 0 0).memory 0xffff ≡ 0
draw_char-inside_example =
    draw_char-inside (screen 30 0) 65 0xffff
      (record { across = omega arith; down = omega arith; tight = omega arith })
      (record { x_small = omega arith; y_small = omega arith }) (inl before)
  where
    before : 0xffff < 0x10000
    before = omega arith
