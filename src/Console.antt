-- ===== src/Console.antt =====
-- src/drivers/console.c: the text console on the screen's back buffer. The part of the screen that
-- changed is a rectangle, which `console_flush` copies to the front buffer.
pub mod Cursor
pub mod Sync
pub mod Drawn
pub mod Input
pub mod Printed
pub mod Format
use hal_os.Base.{
  ℕ, zero, suc, ◌+◌, ◌-◌, ◌*◌, ◌/◌, ◌%◌, ◌^◌, ◌==◌, ltb, leb, min, Bool, true, false, not, ◌&&◌,
  ◌||◌, if◌then◌else◌,
}
use hal_os.Base.{u32, sub32, update, List, [], ◌∷◌}
use hal_os.Str.{Memory, memset, memmove}
use hal_os.Screen.{Screen, putpixel, copy_words, swap_buffers, fill_rect}

-- what the code reads of a `PSF2_Header`, and the file from its first byte on
pub record Font : Type 0 where
  pub headersize : ℕ
  pub bytesperglyph : ℕ
  pub height : ℕ
  pub width : ℕ
  pub bytes : ℕ → ℕ

-- `DirtyRect`; the ends are behind the last pixel
pub record DirtyRect : Type 0 where
  pub x1 : ℕ
  pub y1 : ℕ
  pub x2 : ℕ
  pub y2 : ℕ
  pub dirty : Bool

-- the static variables of the file, and the screen; `buffer` is memory from `console.buffer` on
pub record Console : Type 0 where
  pub fg : ℕ
  pub bg : ℕ
  pub cols : ℕ
  pub rows : ℕ
  pub cursor_x : ℕ
  pub cursor_y : ℕ
  pub buffer : Memory
  pub font : Font
  pub dirty_rect : DirtyRect
  pub screen : Screen

abbrev pub grow : ℕ → ℕ → ℕ → ℕ → DirtyRect → DirtyRect
grow x y width height d = record {
  x1 = if ltb x d.x1 then x else d.x1;
  y1 = if ltb y d.y1 then y else d.y1;
  x2 = if ltb d.x2 (x + width) then x + width else d.x2;
  y2 = if ltb d.y2 (y + height) then y + height else d.y2;
  dirty = true;
}

unfoldable pub mark_rect : ℕ → ℕ → ℕ → ℕ → DirtyRect → DirtyRect
mark_rect x y width height d =
    if not d.dirty
    then record { x1 = x; y1 = y; x2 = x + width; y2 = y + height; dirty = true }
    else grow x y width height d

unfoldable pub mark_dirty : ℕ → ℕ → ℕ → ℕ → Console → Console
mark_dirty x y width height c = record c { dirty_rect = mark_rect x y width height c.dirty_rect }

-- the rows of the rectangle, `w` words of each from `x` on
unfoldable pub copy_rows : ℕ → ℕ → ℕ → ℕ → Screen → Screen
copy_rows w zero x y s = s
copy_rows w (suc n) x y s =
    copy_rows w n x (y + 1)
      (record s { front = copy_words w (y * (s.pitch / 4) + x) s.back s.front })

-- The second end of a rectangle is not below the first.
unfoldable pub flush : Console → Console
flush c =
    if not c.dirty_rect.dirty
    then c
    else let d = c.dirty_rect in
      record c {
        screen = copy_rows (d.x2 - d.x1) (d.y2 - d.y1) d.x1 d.y1 c.screen;
        dirty_rect = record d { dirty = false };
      }

-- the innermost loop of `draw_char`, which ends at the width of the font
unfoldable pub draw_bits : ℕ → ℕ → ℕ → ℕ → ℕ → ℕ → ℕ → ℕ → Screen → Screen
draw_bits zero bit font_byte column width x y color s = s
draw_bits (suc n) bit font_byte column width x y color s =
    elim (font_byte / 2 ^ (7 - bit) % 2 == 0) [
      | true ↦ draw_bits n (bit + 1) font_byte column width x y color s
      | false ↦ elim (leb width (column + bit)) [
        | true ↦ s
        | false ↦
            draw_bits n (bit + 1) font_byte column width x y color
              (putpixel (x + (column + bit)) y color s)
      ]
    ]

-- the bytes of one row of a glyph, whose first one is at `at`
unfoldable pub draw_bytes : ℕ → ℕ → ℕ → Font → ℕ → ℕ → ℕ → Screen → Screen
draw_bytes zero byte at font x y color s = s
draw_bytes (suc n) byte at font x y color s =
    let drawn = draw_bits 8 0 (font.bytes (at + byte)) (byte * 8) font.width x y color s in
    draw_bytes n (byte + 1) at font x y color (if font.bytes (at + byte) == 0 then s else drawn)

abbrev pub bytes_per_row : Font → ℕ
bytes_per_row font = (font.width + 7) / 8

unfoldable pub draw_rows : ℕ → ℕ → ℕ → Font → ℕ → ℕ → ℕ → Screen → Screen
draw_rows zero font_y glyph font x y color s = s
draw_rows (suc n) font_y glyph font x y color s = draw_rows n (font_y + 1) glyph font x y color (
    draw_bytes (bytes_per_row font) 0 (glyph + font_y * bytes_per_row font) font x (y + font_y)
      color s)

unfoldable pub draw_char : ℕ → ℕ → ℕ → Console → Console
draw_char x y ch c =
    let screen_x = x * c.font.width in
    let screen_y = y * c.font.height in
    let glyph = c.font.headersize + ch * c.font.bytesperglyph in
    mark_dirty screen_x screen_y c.font.width c.font.height
      (record c { screen = draw_rows c.font.height 0 glyph c.font screen_x screen_y c.fg c.screen })

unfoldable pub clear : Console → Console
clear c = flush (
    mark_dirty 0 0 c.screen.width c.screen.height (record c {
      screen = fill_rect c.screen.width c.screen.height 0 0 c.bg c.screen;
      buffer = memset 0 0 (c.rows * c.cols) c.buffer;
      cursor_x = 0;
      cursor_y = 0;
    }))

-- `console_init` with a font that has its magic number and memory for the buffer
unfoldable pub init : ℕ → ℕ → Font → Memory → Console → Console
init fg bg font memory c = clear (record c {
  font = font;
  cols = c.screen.width / font.width;
  rows = c.screen.height / font.height;
  buffer = memory;
  cursor_x = 0;
  cursor_y = 0;
  fg = fg;
  bg = bg;
})

-- The pixels move and `console.buffer` does not. A pixel is a word, so that `memmove` counts words.
unfoldable pub scroll : ℕ → Console → Console
scroll lines c =
    let scroll_pixels = u32 (lines * c.font.height) in
    let left = sub32 c.screen.height scroll_pixels in
    let pitch_pixels = c.screen.pitch / 4 in
    let moved : Screen = record (c.screen) {
      back = memmove 0 (scroll_pixels * pitch_pixels) (left * pitch_pixels) c.screen.back;
    } in
    let marked =
      mark_dirty 0 left c.screen.width scroll_pixels (record c {
        screen = fill_rect c.screen.width (c.screen.height - left) 0 left c.bg moved;
      }) in
    record marked { screen = swap_buffers marked.screen }

unfoldable pub newline : Console → Console
newline c =
    let next = u32 (c.cursor_y + 1) in
    let down : Console = record c { cursor_x = 0; cursor_y = next } in
    flush (if leb c.rows next then record (scroll 1 down) { cursor_y = sub32 c.rows 1 } else down)

-- a character at the cursor
unfoldable pub put_at_cursor : ℕ → Console → Console
put_at_cursor ch c =
    let drawn =
      draw_char c.cursor_x c.cursor_y ch
        (record c { buffer = update c.buffer (c.cursor_y * c.cols + c.cursor_x) ch }) in
    record drawn { cursor_x = c.cursor_x + 1 }

unfoldable pub putchar : ℕ → Console → Console
putchar ch c =
    if (ltb ch 0x20 || ltb 0x7E ch) && not (ch == 10)
    then c
    else if ch == 10
    then newline c
    else put_at_cursor ch (if leb c.cols c.cursor_x then newline c else c)

unfoldable pub ungetchar : Console → Console
ungetchar c = flush (
    if c.cursor_x == 0
    then c
    else let x = c.cursor_x - 1 in
      mark_dirty (x * c.font.width) (c.cursor_y * c.font.height) c.font.width c.font.height
        (record c {
          cursor_x = x;
          buffer = update c.buffer (c.cursor_y * c.cols + x) 0;
          screen =
              fill_rect (8 + 1) (16 + 1) (x * c.font.width) (c.cursor_y * c.font.height) c.bg
                c.screen;
        }))

unfoldable pub ungetchar_bound : ℕ → Console → Console
ungetchar_bound zero c = c
ungetchar_bound (suc n) c = elim (c.cursor_x == 0) [
  | true ↦ c
  | false ↦ ungetchar_bound n (ungetchar c)
]

unfoldable pub gotoxy : ℕ → ℕ → Console → Console
gotoxy x y c = if ltb x c.cols && ltb y c.rows then record c { cursor_x = x; cursor_y = y } else c

-- a text without its final 0
unfoldable pub putstr : List ℕ → Console → Console
putstr [] c = c
putstr (ch ∷ rest) c = putstr rest (putchar ch c)
