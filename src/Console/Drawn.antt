-- ===== src/Console/Drawn.antt =====
-- What src/drivers/console.c draws, its dirty rectangle covers.
use hal_os.Base.{
  ℕ, zero, suc, ◌+◌, ◌-◌, ◌*◌, ◌/◌, ◌%◌, ◌^◌, ◌≤◌, ◌<◌, ◌==◌, ltb, leb, not, ◌&&◌, ◌||◌,
}
use hal_os.Base.{◌≡◌, arith, Bool-cases, inl, inr, u32, sub32, List, [], ◌∷◌}
use hal_os.Screen.{Screen, putpixel, swap_buffers, fill_rect}
use hal_os.Str.{memmove}
use hal_os.Screen.Pixels.{
  IsScreen, Paints, Paints-refl, Paints-trans, Paints-IsScreen, putpixel-Paints, fill_rect-Paints,
  swap_buffers-Shows,
}
use hal_os.Console.{
  Console, Font, mark_dirty, draw_bits, draw_bytes, draw_rows, draw_char, bytes_per_row, scroll,
  newline, put_at_cursor, putchar, putstr, clear,
}
use hal_os.Console.Sync.{InSync, Shows-InSync, Paints-InSync, flush-InSync}

-- a row of a glyph, in the columns of the font
module _ (x1 y1 x2 y2 x y color : ℕ) (left : x1 ≤ x) (above : y1 ≤ y) (below : y < y2) where
  draw_bits-Paints :
      (n bit font_byte column width : ℕ) (s : Screen)
      → IsScreen s
      → x + width ≤ x2
      → Paints x1 y1 x2 y2 s (draw_bits n bit font_byte column width x y color s)
  unfolding draw_bits
  draw_bits-Paints zero bit font_byte column width s w right = Paints-refl x1 y1 x2 y2 s
  draw_bits-Paints (suc n) bit font_byte column width s w right =
      elim (Bool-cases (font_byte / 2 ^ (7 - bit) % 2 == 0)) [
        | inl off ↦
            rw (draw_bits, off) (draw_bits-Paints n (bit + 1) font_byte column width s w right)
        | inr on ↦ elim (Bool-cases (leb width (column + bit))) [
          | inl past ↦ rw (draw_bits, on, past) (Paints-refl x1 y1 x2 y2 s)
          | inr within ↦
              rw (draw_bits, on, within)
                (let p =
                    putpixel-Paints x1 y1 x2 y2 (x + (column + bit)) y color s w
                      (ground (arith, within, left, above, below, right)) in
                  Paints-trans p (
                    draw_bits-Paints n (bit + 1) font_byte column width
                      (putpixel (x + (column + bit)) y color s) (Paints-IsScreen x1 y1 x2 y2 p w)
                      right))
        ]
      ]

  draw_bytes-Paints :
      (n byte at : ℕ) (font : Font) (s : Screen)
      → IsScreen s
      → x + font.width ≤ x2
      → Paints x1 y1 x2 y2 s (draw_bytes n byte at font x y color s)
  unfolding draw_bytes
  draw_bytes-Paints zero byte at font s w right = Paints-refl x1 y1 x2 y2 s
  draw_bytes-Paints (suc n) byte at font s w right =
      let p = draw_bits-Paints 8 0 (font.bytes (at + byte)) (byte * 8) font.width s w right in
      let rest =
        λ (t : Screen) (q : IsScreen t). draw_bytes-Paints n (byte + 1) at font t q right in
      elim (Bool-cases (font.bytes (at + byte) == 0)) [
        | inl empty ↦ rw empty (rest s w)
        | inr some_bits ↦ rw some_bits (
            Paints-trans p (
              rest (draw_bits 8 0 (font.bytes (at + byte)) (byte * 8) font.width x y color s)
                (Paints-IsScreen x1 y1 x2 y2 p w)))
      ]

draw_rows-Paints :
    (n font_y glyph : ℕ) (font : Font) (x y color : ℕ) (s : Screen)
    → IsScreen s
    → font_y + n ≡ font.height
    → Paints x y (x + font.width) (y + font.height) s (draw_rows n font_y glyph font x y color s)
unfolding draw_rows
draw_rows-Paints zero font_y glyph font x y color s w h =
    Paints-refl x y (x + font.width) (y + font.height) s
draw_rows-Paints (suc n) font_y glyph font x y color s w h =
    let row =
      draw_bytes (bytes_per_row font) 0 (glyph + font_y * bytes_per_row font) font x (y + font_y)
        color s in
    let p : Paints x y (x + font.width) (y + font.height) s row =
      draw_bytes-Paints x y (x + font.width) (y + font.height) x (y + font_y) color (omega arith)
        (omega arith) (omega arith) (bytes_per_row font) 0 (glyph + font_y * bytes_per_row font)
        font s w (omega arith) in
    Paints-trans p (
      draw_rows-Paints n (font_y + 1) glyph font x y color row
        (Paints-IsScreen x y (x + font.width) (y + font.height) p w) (omega arith))

abbrev pub IsSynced : Console → Type 0
IsSynced c = InSync c.dirty_rect c.screen

draw_char-IsSynced : (x y ch : ℕ) (c : Console) → IsSynced c → IsSynced (draw_char x y ch c)
unfolding draw_char mark_dirty
draw_char-IsSynced x y ch c h =
    Paints-InSync (x * c.font.width) (y * c.font.height) c.font.width c.font.height c.dirty_rect
      c.screen _ h
      (draw_rows-Paints c.font.height 0 (c.font.headersize + ch * c.font.bytesperglyph) c.font
        (x * c.font.width) (y * c.font.height) c.fg c.screen h.wide (omega arith))

put_at_cursor-IsSynced : (ch : ℕ) (c : Console) → IsSynced c → IsSynced (put_at_cursor ch c)
unfolding put_at_cursor
put_at_cursor-IsSynced ch c h =
    draw_char-IsSynced c.cursor_x c.cursor_y ch (record c { buffer = _ }) h

scroll-IsSynced : (lines : ℕ) (c : Console) → IsSynced c → IsSynced (scroll lines c)
unfolding scroll mark_dirty swap_buffers
scroll-IsSynced lines c h =
    let pixels = u32 (lines * c.font.height) in
    let left = sub32 c.screen.height pixels in
    let count = c.screen.height - left in
    let moved : Screen = record (c.screen) {
      back = memmove 0 (pixels * (c.screen.pitch / 4)) (left * (c.screen.pitch / 4)) c.screen.back;
    } in
    let p =
      fill_rect-Paints 0 left c.screen.width (left + count) c.screen.width count 0 left c.bg moved
        h.wide (omega arith) (omega arith) (omega arith) (omega arith) in
    let w = Paints-IsScreen 0 left c.screen.width (left + count) p h.wide in
    let painted = fill_rect c.screen.width count 0 left c.bg moved in
    Shows-InSync _ (swap_buffers painted) w (swap_buffers-Shows painted w)

newline-IsSynced : (c : Console) → IsSynced c → IsSynced (newline c)
unfolding newline
newline-IsSynced c h = elim (Bool-cases (leb c.rows (u32 (c.cursor_y + 1)))) [
  | inl last ↦ rw last (
      flush-InSync
        (record (scroll 1 (record c { cursor_x = 0; cursor_y = u32 (c.cursor_y + 1) })) {
          cursor_y = sub32 c.rows 1;
        })
        (scroll-IsSynced 1 (record c { cursor_x = 0; cursor_y = u32 (c.cursor_y + 1) }) h))
  | inr more ↦ rw more (flush-InSync (record c { cursor_x = 0; cursor_y = u32 (c.cursor_y + 1) }) h)
]

pub putchar-IsSynced : (ch : ℕ) (c : Console) → IsSynced c → IsSynced (putchar ch c)
unfolding putchar
putchar-IsSynced ch c h = elim (Bool-cases ((ltb ch 0x20 || ltb 0x7E ch) && not (ch == 10))) [
  | inl other ↦ rw other h
  | inr typed ↦ rw typed (elim (Bool-cases (ch == 10)) [
    | inl line ↦ rw line (newline-IsSynced c h)
    | inr sign ↦ rw sign (elim (Bool-cases (leb c.cols c.cursor_x)) [
      | inl full ↦ rw full (put_at_cursor-IsSynced ch (newline c) (newline-IsSynced c h))
      | inr room ↦ rw room (put_at_cursor-IsSynced ch c h)
    ])
  ])
]

pub putstr-IsSynced : (text : List ℕ) (c : Console) → IsSynced c → IsSynced (putstr text c)
unfolding putstr
putstr-IsSynced [] c h = h
putstr-IsSynced (ch ∷ rest) c h = putstr-IsSynced rest (putchar ch c) (putchar-IsSynced ch c h)

pub clear-IsSynced : (c : Console) → IsSynced c → IsSynced (clear c)
unfolding clear mark_dirty
clear-IsSynced c h = flush-InSync _ (
    Paints-InSync 0 0 c.screen.width c.screen.height c.dirty_rect c.screen _ h (
      fill_rect-Paints 0 0 (0 + c.screen.width) (0 + c.screen.height) c.screen.width c.screen.height
        0 0 c.bg c.screen h.wide (omega arith) (omega arith) (omega arith) (omega arith)))
