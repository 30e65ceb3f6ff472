-- ===== src/Console/Cursor.antt =====
-- The cursor of src/drivers/console.c, and the bounds of its text buffer.
use hal_os.Base.{
  ℕ, ◌+◌, ◌-◌, ◌*◌, ◌^◌, ◌≤◌, ◌<◌, ◌==◌, ltb, leb, not, ◌&&◌, ◌||◌, update, update_ne,
}
use hal_os.Base.{◌≡◌, refl, arith, ◌∙◌, ap, Bool-cases, inl, inr, List, [], ◌∷◌}
use hal_os.Screen.Pixels.{line-le}
use hal_os.Console.{
  Console, mark_dirty, flush, draw_char, scroll, newline, put_at_cursor, putchar, putstr, ungetchar,
}

-- The cursor is on a line of the screen, and behind its last column at most.
pub record IsConsole (c : Console) : Type 0 where
  pub some_cols : 0 < c.cols
  pub some_rows : c.rows < 2 ^ 32
  pub column : c.cursor_x ≤ c.cols
  pub row : c.cursor_y < c.rows

-- `after` has the size of `before`, and its text behind the buffer's end.
pub record KeepsRest (before after : Console) : Type 0 where
  pub cols : after.cols ≡ before.cols
  pub rows : after.rows ≡ before.rows
  pub rest : (i : ℕ) → before.rows * before.cols ≤ i → after.buffer i ≡ before.buffer i

pub KeepsRest-refl : (c : Console) → KeepsRest c c
KeepsRest-refl c = record { cols = refl; rows = refl; rest = λ i h. refl }

pub KeepsRest-trans : {a b c : Console} → KeepsRest a b → KeepsRest b c → KeepsRest a c
KeepsRest-trans p q = record {
  cols = q.cols ∙ p.cols;
  rows = q.rows ∙ p.rows;
  rest = λ i h. q.rest i (rw (p.cols, p.rows) h) ∙ p.rest i h;
}

newline-fields :
    (c : Console)
    → IsConsole c
    → ((newline c).cols ≡ c.cols)
      × ((newline c).rows ≡ c.rows)
      × ((newline c).buffer ≡ c.buffer)
      × ((newline c).cursor_x ≡ 0)
      × ((newline c).cursor_y < c.rows)
unfolding newline scroll flush mark_dirty
newline-fields c v = ground arith

pub newline-IsConsole :
    (c : Console) → IsConsole c → IsConsole (newline c) × KeepsRest c (newline c)
newline-IsConsole c v = ground (arith, newline-fields c v)

put_at_cursor-fields :
    (ch : ℕ) (c : Console)
    → ((put_at_cursor ch c).cols ≡ c.cols)
      × ((put_at_cursor ch c).rows ≡ c.rows)
      × ((put_at_cursor ch c).buffer ≡ update c.buffer (c.cursor_y * c.cols + c.cursor_x) ch)
      × ((put_at_cursor ch c).cursor_x ≡ c.cursor_x + 1)
      × ((put_at_cursor ch c).cursor_y ≡ c.cursor_y)
unfolding put_at_cursor draw_char mark_dirty
put_at_cursor-fields ch c = (refl, refl, refl, refl, refl)

put_at_cursor-IsConsole :
    (ch : ℕ) (c : Console)
    → IsConsole c
    → c.cursor_x < c.cols
    → IsConsole (put_at_cursor ch c) × KeepsRest c (put_at_cursor ch c)
put_at_cursor-IsConsole ch c v room =
    let f = put_at_cursor-fields ch c in
    (
      ground (arith, f),
      record {
        cols = f.0;
        rows = f.1;
        rest = λ i h.
            ap (λ b. b i) f.2
            ∙ update_ne c.buffer (c.cursor_y * c.cols + c.cursor_x) i ch
                (ground (arith, line-le c.cols c.cursor_y c.rows v.row));
      },
    )

-- A character leaves the cursor on the screen, and writes to no address behind the buffer of
-- `rows * cols` bytes.
pub putchar-IsConsole :
    (ch : ℕ) (c : Console) → IsConsole c → IsConsole (putchar ch c) × KeepsRest c (putchar ch c)
unfolding putchar
putchar-IsConsole ch c v = elim (Bool-cases ((ltb ch 0x20 || ltb 0x7E ch) && not (ch == 10))) [
  | inl other ↦ rw other (v, KeepsRest-refl c)
  | inr typed ↦ rw typed (elim (Bool-cases (ch == 10)) [
    | inl line ↦ rw line (newline-IsConsole c v)
    | inr sign ↦ rw sign (elim (Bool-cases (leb c.cols c.cursor_x)) [
      | inr room ↦ rw room (put_at_cursor-IsConsole ch c v (ground (arith, room)))
      | inl full ↦ rw full (
          let n = newline-IsConsole c v in
          let f = newline-fields c v in
          let p = put_at_cursor-IsConsole ch (newline c) n.0 (ground (arith, f)) in
          (p.0, KeepsRest-trans n.1 p.1))
    ])
  ])
]

-- For any text, and a console with at least a column and fewer than 2 ^ 32 rows whose cursor is on a
-- line of the screen and behind its last column at most: `putstr` leaves the cursor so, keeps the
-- numbers of rows and columns, and writes nothing at or behind the end of the text buffer.
pub putstr-IsConsole :
    (text : List ℕ) (c : Console)
    → IsConsole c
    → IsConsole (putstr text c) × KeepsRest c (putstr text c)
unfolding putstr
putstr-IsConsole [] c v = (v, KeepsRest-refl c)
putstr-IsConsole (ch ∷ rest) c v =
    let (w, k) = putchar-IsConsole ch c v in
    let (w', k') = putstr-IsConsole rest (putchar ch c) w in (w', KeepsRest-trans k k')

ungetchar-fields :
    (c : Console)
    → ((ungetchar c).cols ≡ c.cols)
      × ((ungetchar c).rows ≡ c.rows)
      × ((ungetchar c).cursor_x ≡ c.cursor_x - 1)
      × ((ungetchar c).cursor_y ≡ c.cursor_y)
unfolding ungetchar flush mark_dirty
ungetchar-fields c = ground arith

pub ungetchar-IsConsole : (c : Console) → IsConsole c → IsConsole (ungetchar c)
ungetchar-IsConsole c v = ground (arith, ungetchar-fields c)

pub flush-IsConsole : (c : Console) → IsConsole c → IsConsole (flush c)
unfolding flush
flush-IsConsole c v = ground arith
