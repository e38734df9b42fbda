-- ===== src/FbCons/Console.antt =====
-- The console's state machine and drawing: FbCons/Sources/Console.cpp and
-- FbCons/Includes/FbCons/Console.h.
-- A character is its byte; memory holds the framebuffer's bytes; pointers are addresses. The font is
-- a value: `glyph` gives the byte of its data at an index.
pub mod Sgr
pub mod Shape
pub mod Settled
pub mod Drawn
pub mod Valid
pub mod Scroll
pub mod Draw
use kush_os_rewrite.Base.{
  ℕ, zero, suc, ◌+◌, ◌-◌, ◌*◌, ◌/◌, ◌%◌, ◌^◌, Bool, true, false, not, ◌&&◌, ◌||◌,
}
use kush_os_rewrite.Base.{
  List, [], ◌∷◌, length, get_or, set, bit_and, u8, u32, u64, sub64, ◌==◌, ltb, leb, if◌then◌else◌,
}
use kush_os_rewrite.Base.{Outcome, done, wild, in_bounds, ◌>>=◌, ◌>>◌}
use kush_os_rewrite.Runtime.String.{Bytes, memcpy}
use kush_os_rewrite.FbCons.Color.{ColorOrder, convert, palette, opaque}

-- `BitmapFont`
pub record Font : Type 0 where
  pub width : ℕ
  pub height : ℕ
  pub stride : ℕ
  pub max_glyph : ℕ
  pub glyph : ℕ → ℕ

pub data WriteState : Type 0 where
  idle ansi_escape_start ansi_reading_csi : WriteState

pub record Console : Type 0 where
  pub memory : Bytes
  pub buffer : ℕ
  pub width : ℕ
  pub height : ℕ
  pub stride : ℕ
  pub format : ColorOrder
  pub columns : ℕ
  pub rows : ℕ
  pub fg_index : ℕ
  pub bg_index : ℕ
  pub fg : ℕ
  pub bg : ℕ
  pub cursor_x : ℕ
  pub cursor_y : ℕ
  pub font : Font
  pub write_state : WriteState
  pub ansi_used : ℕ
  pub ansi_buf : List ℕ

-- `kAnsiBufSize`, `kColorPaletteEntries`, `kScrollAmount`, and the size of `number`
abbrev pub ansi_buf_size : ℕ
ansi_buf_size = 32

abbrev pub color_palette_entries : ℕ
color_palette_entries = 16

abbrev pub scroll_amount : ℕ
scroll_amount = 5

abbrev pub number_size : ℕ
number_size = 8

-- `memset` of an array of n bytes with 0
unfoldable pub zeros : ℕ → List ℕ
zeros zero = []
zeros (suc n) = 0 ∷ zeros n

-- `IsDigit`, and `StrToInt` in 32 bits; past the end of the array it reads foreign memory.
abbrev pub is_digit : ℕ → Bool
is_digit ch = leb 48 ch && leb ch 57

unfoldable pub str_to_int_from : ℕ → List ℕ → Outcome ℕ
str_to_int_from i [] = wild
str_to_int_from i (ch ∷ rest) =
    let more : Outcome ℕ = str_to_int_from (u32 (i * 10 + (ch - 48))) rest in
    if is_digit ch then more else done i

unfoldable pub str_to_int : List ℕ → Outcome ℕ
str_to_int str = str_to_int_from 0 str

-- A 32-bit store
abbrev pub store32 : Bytes → ℕ → ℕ → Bytes
store32 mem a v b = if leb a b && ltb b (a + 4) then v / 256 ^ (b - a) % 256 else mem b

-- n pixels of one color from `ptr` on
unfoldable pub fill_row : ℕ → Bytes → ℕ → ℕ → Bytes
fill_row zero mem ptr color = mem
fill_row (suc n) mem ptr color = fill_row n (store32 mem ptr color) (ptr + 4) color

-- The same for rows of `width` pixels, `stride` bytes apart.
unfoldable pub fill_rows : ℕ → ℕ → ℕ → Bytes → ℕ → ℕ → Bytes
fill_rows zero width stride mem ptr color = mem
fill_rows (suc n) width stride mem ptr color =
    fill_rows n width stride (fill_row width mem ptr color) (ptr + stride) color

-- `clear`
unfoldable pub clear : Console → Console
clear c = record c { memory = fill_rows c.height c.width c.stride c.memory c.buffer c.bg }

-- `updateColors`
abbrev pub color_of : ColorOrder → ℕ → ℕ
color_of format i = convert (get_or palette (i % color_palette_entries) (opaque 0 0 0)) format

unfoldable pub update_colors : Console → Console
update_colors c = record c { fg = color_of c.format c.fg_index; bg = color_of c.format c.bg_index }

-- The constructor.
unfoldable pub create : Font → Bytes → ℕ → ColorOrder → ℕ → ℕ → ℕ → Console
create font memory fb format width height stride = clear (
    update_colors (record {
      memory = memory;
      buffer = fb;
      width = width;
      height = height;
      stride = if stride == 0 then u64 (width * 4) else stride;
      format = format;
      columns = width / font.width;
      rows = height / font.height;
      fg_index = 0xf;
      bg_index = 0;
      fg = 0;
      bg = 0;
      cursor_x = 0;
      cursor_y = 0;
      font = font;
      write_state = idle;
      ansi_used = 0;
      ansi_buf = zeros ansi_buf_size;
    }))

-- `newLine`
unfoldable pub new_line : Console → Outcome Console
new_line c =
    let y = u64 (c.cursor_y + 1) in
    let moved = c.stride * sub64 c.rows scroll_amount * c.font.height in
    let scrolled : Outcome Console =
      memcpy c.memory c.buffer (c.buffer + c.font.height * scroll_amount * c.stride) moved
      >>= λ mem. done (record c {
        memory =
            fill_rows (scroll_amount * c.font.height) c.width c.stride mem (c.buffer + moved) c.bg;
        cursor_x = 0;
        cursor_y = sub64 y scroll_amount;
      }) in
    if y == c.rows then scrolled else done (record c { cursor_x = 0; cursor_y = y })

-- The pixels of one row of a glyph; `data` is the index into the font's data.
unfoldable pub draw_row : Font → ℕ → ℕ → ℕ → ℕ → Bytes → ℕ → ℕ → Bytes × ℕ
draw_row font fg bg zero x mem ptr data' = (mem, data')
draw_row font fg bg (suc n) x mem ptr data' =
    let lit = not (bit_and (font.glyph data') (u8 (2 ^ (x % 8))) == 0) in
    draw_row font fg bg n (x + 1) (store32 mem ptr (if lit then fg else bg)) (ptr + 4)
      (if not (x == 0) && (x % 8 == 0) then data' + 1 else data')

unfoldable pub draw_rows : Font → ℕ → ℕ → ℕ → ℕ → Bytes → ℕ → ℕ → Bytes
draw_rows font fg bg stride zero mem ptr data' = mem
draw_rows font fg bg stride (suc n) mem ptr data' =
    let row = draw_row font fg bg font.width 0 mem ptr data' in
    draw_rows font fg bg stride n row.0 (ptr + stride) (row.1 + 1)

-- `drawChar`
unfoldable pub draw_char : Console → ℕ → ℕ → ℕ → Console
draw_char c ch x y = record c {
  memory =
      draw_rows c.font c.fg c.bg c.stride c.font.height c.memory
        (c.buffer + x * c.font.width * 4 + c.font.height * y * c.stride) (ch * c.font.stride);
}

-- A `char` as the `size_t` that it is compared as: bytes from 0x80 on are negative.
abbrev pub widen : ℕ → ℕ
widen ch = if ltb ch 0x80 then ch else ch + (2 ^ 64 - 0x100)

-- `print`
unfoldable pub print : Console → ℕ → Outcome Console
print c ch =
    let shown =
      draw_char c (if ltb c.font.max_glyph (widen ch) then 63 else ch) c.cursor_x c.cursor_y in
    let moved = record shown { cursor_x = u64 (c.cursor_x + 1) } in
    let wrapped : Outcome Console = new_line moved in
    if ch == 10
    then new_line c
    else if u64 (c.cursor_x + 1) == c.columns
    then wrapped
    else done moved

-- `processAnsiSgr(str, strLen)`
unfoldable pub process_sgr_attribute : Console → List ℕ → ℕ → Outcome Console
process_sgr_attribute c str str_len =
    if str_len == 0 || (str_len == 1 && get_or str 0 0 == 48)
    then done (record c { fg_index = 0xf; bg_index = 0 })
    else (str_to_int str >>= λ cmd.
        let first : Console =
          if leb 30 cmd && leb cmd 37
          then record c { fg_index = cmd - 30 }
          else if leb 40 cmd && leb cmd 47
          then record c { bg_index = cmd - 40 }
          else c in
        if leb 90 cmd && leb cmd 97
        then done (record first { fg_index = cmd - 90 + 8 })
        else if leb 100 cmd && leb cmd 107
        then done (record first { bg_index = cmd - 100 + 8 })
        else done first)

-- The loop of `processAnsiSgr` over the characters that are left, then the remaining number.
unfoldable pub process_sgr_from : Console → List ℕ → List ℕ → ℕ → Outcome Console
process_sgr_from c [] number number_read = wild
process_sgr_from c (ch ∷ rest) number number_read =
    let restart : Outcome Console = process_sgr_attribute c number number_read >>= λ c'.
    process_sgr_from c' rest (zeros number_size) 0 in
    let keep : Outcome Console =
      in_bounds (ltb number_read number_size)
      >> process_sgr_from c rest (set number number_read ch) (number_read + 1) in
    if ch == 0
    then (if number_read == 0 then done c else process_sgr_attribute c number number_read)
    else if ch == 59
    then restart
    else keep

-- `processAnsiSgr()`
unfoldable pub process_sgr : Console → Outcome Console
process_sgr c =
    let buf = set c.ansi_buf (c.ansi_used - 1) 0 in
    (if c.ansi_used == 1
      then process_sgr_attribute c c.ansi_buf 0
      else process_sgr_from (record c { ansi_buf = buf }) buf (zeros number_size) 0)
    >>= λ c'. done (update_colors c')

-- Stores a 1-based position; 0 stands for 1.
abbrev pub set_cursor : Console → Bool → ℕ → Console
set_cursor c true val = record c { cursor_y = val - 1 }
set_cursor c false val = record c { cursor_x = val - 1 }

-- The loop of `processAnsiCup`, then the number that is left.
unfoldable pub process_cup_from : Console → List ℕ → Bool → List ℕ → ℕ → Outcome Console
process_cup_from c [] is_row number number_read = wild
process_cup_from c (ch ∷ rest) is_row number number_read =
    let restart : Outcome Console = str_to_int number >>= λ val.
    process_cup_from (set_cursor c is_row val) rest (not is_row) (zeros number_size) 0 in
    let keep : Outcome Console =
      in_bounds (ltb number_read number_size)
      >> process_cup_from c rest is_row (set number number_read ch) (number_read + 1) in
    if ch == 0
    then (str_to_int number >>= λ val. done (set_cursor c is_row val))
    else if ch == 59
    then restart
    else keep

-- `processAnsiCup`
unfoldable pub process_cup : Console → Outcome Console
process_cup c =
    let buf = set c.ansi_buf (c.ansi_used - 1) 0 in
    process_cup_from (record c { ansi_buf = buf }) buf true (zeros number_size) 0

-- `processAnsi`; a warning about another sequence does not change the state.
unfoldable pub process_ansi : Console → Outcome Console
process_ansi c =
    let final_byte = get_or c.ansi_buf (c.ansi_used - 1) 0 in
    if c.ansi_used == 0
    then done c
    else if final_byte == 109
    then process_sgr c
    else if final_byte == 72
    then process_cup c
    else done c

-- The cases of `write` for one character, by the state.
unfoldable pub read_csi : Console → ℕ → Outcome Console
read_csi c ch =
    let c' = record c { ansi_buf = set c.ansi_buf c.ansi_used ch; ansi_used = c.ansi_used + 1 } in
    in_bounds (ltb c.ansi_used (length c.ansi_buf))
    >> (if leb 0x40 ch && leb ch 0x7e
        then (process_ansi c' >>= λ d. done (record d { write_state = idle }))
        else if c.ansi_used + 1 == ansi_buf_size
        then done (record c' { write_state = idle })
        else done c')

unfoldable pub write_in : WriteState → Console → ℕ → Outcome Console
write_in idle c ch =
    if not (ch == 27) then print c ch else done (record c { write_state = ansi_escape_start })
write_in ansi_escape_start c ch =
    if ch == 91
    then done
        (record c { write_state = ansi_reading_csi; ansi_used = 0; ansi_buf = zeros ansi_buf_size })
    else done (record c { write_state = idle })
write_in ansi_reading_csi c ch = read_csi c ch

-- `write` of one character
unfoldable pub write : Console → ℕ → Outcome Console
write c ch = write_in c.write_state c ch

-- `write` of a string, of the characters that its length takes in
unfoldable pub write_all : Console → List ℕ → Outcome Console
write_all c [] = done c
write_all c (ch ∷ rest) = write c ch >>= λ c'. write_all c' rest
