-- ===== src/Tests/Displays.antt =====
-- src/drivers/console.c on a screen of two lines of two characters.
use hal_os.Base.{ℕ, ◌≤◌, true, false, ◌≡◌, refl, arith, List, [], ◌∷◌, length, some}
use hal_os.Screen.{Screen}
use hal_os.Screen.Pixels.{Shows}
use hal_os.Console.{
  Font, DirtyRect, Console, flush, putchar, putstr, put_at_cursor, draw_char, mark_dirty, mark_rect,
  newline, scroll,
}
use hal_os.Console.Cursor.{IsConsole, KeepsRest, putstr-IsConsole}
use hal_os.Console.Drawn.{IsSynced}
use hal_os.Console.Printed.{printf-Shows}
use hal_os.Console.Input.{getstr, getstr_bound}
use hal_os.Console.Input.Reads.{Reads, getstr-Reads, getstr_bound-Reads}
use hal_os.Console.Format.{put_number, printf}
use hal_os.Console.Format.Number.{ten-IsBase}
use hal_os.Console.Format.Value.{value, put_number-value}
use hal_os.Console.Format.Items.{
  Item, plain, character, number, letter_d, letter_u, formats, arguments, AreItems, all_printed,
  printf-formats,
}

abbrev bars : Font
bars = record { headersize = 32; bytesperglyph = 16; height = 16; width = 8; bytes = λ i. 0xF0 }

abbrev black : Screen
black = record { width = 16; height = 32; pitch = 64; back = λ i. 0; front = λ i. 0 }

abbrev clean : DirtyRect
clean = record { x1 = 0; y1 = 0; x2 = 0; y2 = 0; dirty = false }

abbrev small : Console
small = record {
  fg = 0xFFFFFF;
  bg = 0;
  cols = 2;
  rows = 2;
  cursor_x = 0;
  cursor_y = 0;
  buffer = λ i. 0;
  font = bars;
  dirty_rect = clean;
  screen = black;
}

small-IsConsole : IsConsole small
small-IsConsole = record {
  some_cols = omega arith;
  some_rows = omega arith;
  column = omega arith;
  row = omega arith;
}

small-IsSynced : IsSynced small
small-IsSynced = record { wide = omega arith; same = λ x y lt low out. refl }

-- five characters: the screen scrolls
five : (putstr (b'h' ∷ b'e' ∷ b'l' ∷ b'l' ∷ b'o' ∷ []) small).cursor_x ≡ 1
unfolding putstr putchar put_at_cursor draw_char mark_dirty newline scroll flush mark_rect
five = refl

putstr-IsConsole_example :
    IsConsole (putstr (b'h' ∷ b'e' ∷ b'l' ∷ b'l' ∷ b'o' ∷ []) small)
    × KeepsRest small (putstr (b'h' ∷ b'e' ∷ b'l' ∷ b'l' ∷ b'o' ∷ []) small)
putstr-IsConsole_example =
    putstr-IsConsole (b'h' ∷ b'e' ∷ b'l' ∷ b'l' ∷ b'o' ∷ []) small small-IsConsole

-- "no %c: %02d", with a letter and a 7
abbrev items : List Item
items = plain 110 ∷ plain 111 ∷ plain 32 ∷ character 65 ∷ plain 58 ∷ number letter_d true 2 7 ∷ []

items-AreItems : AreItems items
items-AreItems = (
  omega arith,
  (omega arith, (omega arith, (tt, (omega arith, ((omega arith, omega arith), tt))))),
)

items-formats : formats items ≡ 110 ∷ 111 ∷ 32 ∷ 37 ∷ 99 ∷ 58 ∷ 37 ∷ 48 ∷ 50 ∷ 100 ∷ []
items-formats = refl

printf-formats_example :
    printf (formats items) (arguments items) small
    ≡ some (flush (putstr (110 ∷ 111 ∷ 32 ∷ 65 ∷ 58 ∷ 48 ∷ 55 ∷ []) small))
printf-formats_example = printf-formats items small items-AreItems

-- `%u` prints 16 as 10.
unsigned : all_printed (number letter_u false 0 16 ∷ []) ≡ 49 ∷ 48 ∷ []
unsigned = refl

-- `%d` prints the word of -1 as 4294967295.
negative : length (all_printed (number letter_d false 0 0xFFFFFFFF ∷ [])) ≡ 10
negative = refl

put_number-value_example :
    (text : List ℕ) × (put_number 42 10 false 5 true small ≡ some (putstr text small))
    × (value 10 0 text ≡ 42)
    × (5 ≤ length text)
put_number-value_example =
    put_number-value 10 ten-IsBase false true 5 42 small (omega arith) (omega arith)

printf-Shows_example :
    Shows (flush (putstr (110 ∷ 111 ∷ 32 ∷ 65 ∷ 58 ∷ 48 ∷ 55 ∷ []) small)).screen
    × IsConsole (flush (putstr (110 ∷ 111 ∷ 32 ∷ 65 ∷ 58 ∷ 48 ∷ 55 ∷ []) small))
printf-Shows_example =
    printf-Shows (formats items) (arguments items) small
      (flush (putstr (110 ∷ 111 ∷ 32 ∷ 65 ∷ 58 ∷ 48 ∷ 55 ∷ []) small)) small-IsSynced
      small-IsConsole (printf-formats items small items-AreItems)

-- a, a letter too many that is taken back, and ENTER
abbrev keys : List ℕ
keys = 97 ∷ 98 ∷ 8 ∷ 99 ∷ 10 ∷ 100 ∷ []

getstr-Reads_example :
    Reads (λ i. 7) 7 (some (99 ∷ 97 ∷ [], 100 ∷ [])) (getstr keys 8 (λ i. 7) small)
getstr-Reads_example =
    getstr-Reads keys 8 (λ i. 7) small (omega arith) (omega arith) small-IsConsole

getstr_bound-Reads_example :
    Reads (λ i. 7) 7 (some (99 ∷ 97 ∷ [], 100 ∷ [])) (getstr_bound keys 8 (λ i. 7) small)
getstr_bound-Reads_example =
    getstr_bound-Reads keys 8 (λ i. 7) small (omega arith) (omega arith) small-IsConsole
