-- ===== src/Console/Input/Reads.antt =====
-- The lines that `getstr` and `getstr_bound` of src/drivers/console.c read.
use hal_os.Base.{ℕ, suc, ◌-◌, ◌^◌, ◌≤◌, ◌<◌, ◌==◌, ltb, true, false, update, update_ne, update_self}
use hal_os.Base.{
  ◌≡◌, refl, arith, sym, ◌∙◌, ap, Bool-cases, inl, inr, sub32, List, [], ◌∷◌, length, Option, none,
  some,
}
use hal_os.Str.{Memory}
use hal_os.Console.{Console, flush}
use hal_os.Console.Cursor.{IsConsole, flush-IsConsole}
use hal_os.Console.Input.{
  Entry, Line, show, finish, type_key, getstr_from, getstr, finish_bound, type_key_bound,
  getstr_bound_from, getstr_bound,
}
use hal_os.Console.Input.Edited.{
  edit_key, line_from, Spells, Spells-update, IsEntry, show-IsConsole, type_key-IsEntry,
  type_key_bound-IsEntry,
}

-- A line in a buffer of `last + 1` bytes: its characters and a 0 behind them.
pub record IsLine (buffer : Memory) (last : ℕ) (typed unread : List ℕ) (l : Line) : Type 0 where
  pub fits : length typed ≤ last
  pub text : Spells l.text typed
  pub ended : l.text (length typed) ≡ 0
  pub rest : (i : ℕ) → last < i → l.text i ≡ buffer i
  pub unread_keys : l.unread ≡ unread
  pub console : IsConsole l.console

-- A call that still waits has no line yet.
abbrev pub Reads : Memory → ℕ → Option (List ℕ × List ℕ) → Option Line → Type 0
Reads buffer last none r = r ≡ none
Reads buffer last (some (typed, unread)) r =
    (l : Line) × (r ≡ some l) × IsLine buffer last typed unread l

edit_key-length : (key : ℕ) (typed : List ℕ) → length (edit_key key typed) ≤ suc (length typed)
edit_key-length key [] = ground arith
edit_key-length key (ch ∷ typed) = ground arith

module _ {buffer : Memory} {last : ℕ} where
  ended-IsLine :
      (typed keys : List ℕ) (e : Entry) (c : Console)
      → length typed ≤ last
      → IsEntry buffer last typed e
      → IsConsole c
      → IsLine buffer last typed keys
          (record { text = update e.text e.index 0; console = c; unread = keys })
  ended-IsLine typed keys e c h v w = record {
    fits = h;
    text = Spells-update typed e.text e.index 0 (omega (arith, v.index)) v.text;
    ended = ap (update e.text e.index 0) (sym v.index) ∙ update_self e.text e.index 0;
    rest = λ i lt. update_ne e.text e.index i 0 (omega (arith, v.index)) ∙ v.rest i lt;
    unread_keys = refl;
    console = w;
  }

  getstr_from-Reads :
      (keys typed : List ℕ) (e : Entry)
      → length typed ≤ last
      → IsEntry buffer last typed e
      → Reads buffer last (line_from keys last typed) (getstr_from keys last e)
  unfolding getstr_from finish
  getstr_from-Reads [] typed e h v = elim (Bool-cases (ltb (length typed) last)) [
    | inl room ↦ let same : ltb e.index last ≡ true = rw v.index room in rw (same, room) refl
    | inr full ↦
        let same : ltb e.index last ≡ false = rw v.index full in
        rw (same, full) (_, refl, ended-IsLine typed [] e e.console h v v.console)
  ]
  getstr_from-Reads (key ∷ keys) typed e h v = elim (Bool-cases (ltb (length typed) last)) [
    | inr full ↦
        let same : ltb e.index last ≡ false = rw v.index full in
        rw (getstr_from, line_from, same, full)
          (_, refl, ended-IsLine typed (key ∷ keys) e e.console h v v.console)
    | inl room ↦
        let same : ltb e.index last ≡ true = rw v.index room in
        elim (Bool-cases (key == 10)) [
          | inl enter ↦
              rw (getstr_from, line_from, same, room, enter)
                (
                  _,
                  refl,
                  ended-IsLine typed keys e (show 10 e.console) h v
                      (show-IsConsole 10 e.console v.console),
                )
          | inr other ↦
              rw (getstr_from, line_from, same, room, other)
                (getstr_from-Reads keys (edit_key key typed) (type_key key e)
                  (ground (arith, room, edit_key-length key typed))
                  (type_key-IsEntry key typed e v (ground (arith, room))))
        ]
  ]

  getstr_bound_from-Reads :
      (keys typed : List ℕ) (e : Entry)
      → length typed ≤ last
      → IsEntry buffer last typed e
      → Reads buffer last (line_from keys last typed) (getstr_bound_from keys last e)
  unfolding getstr_bound_from finish_bound
  getstr_bound_from-Reads [] typed e h v = elim (Bool-cases (ltb (length typed) last)) [
    | inl room ↦ let same : ltb e.index last ≡ true = rw v.index room in rw (same, room) refl
    | inr full ↦
        let same : ltb e.index last ≡ false = rw v.index full in
        rw (same, full)
          (
            _,
            refl,
            ended-IsLine typed [] e (flush e.console) h v (flush-IsConsole e.console v.console),
          )
  ]
  getstr_bound_from-Reads (key ∷ keys) typed e h v = elim (Bool-cases (ltb (length typed) last)) [
    | inr full ↦
        let same : ltb e.index last ≡ false = rw v.index full in
        rw (getstr_bound_from, line_from, same, full)
          (
            _,
            refl,
            ended-IsLine typed (key ∷ keys) e (flush e.console) h v
                (flush-IsConsole e.console v.console),
          )
    | inl room ↦
        let same : ltb e.index last ≡ true = rw v.index room in
        elim (Bool-cases (key == 10)) [
          | inl enter ↦
              rw (getstr_bound_from, line_from, same, room, enter)
                (
                  _,
                  refl,
                  ended-IsLine typed keys e (show 10 e.console) h v
                      (show-IsConsole 10 e.console v.console),
                )
          | inr other ↦
              rw (getstr_bound_from, line_from, same, room, other)
                (getstr_bound_from-Reads keys (edit_key key typed) (type_key_bound key e)
                  (ground (arith, room, edit_key-length key typed))
                  (type_key_bound-IsEntry key typed e v (ground (arith, room))))
        ]
  ]

-- `getstr` returns the line that the list editor makes of the same keys, and waits for a key where
-- that does: with room for one byte at least, a cursor on the screen, and any keys, the characters
-- of the line are printable, they stand in the buffer with a 0 behind them, no byte behind the
-- buffer's `max_size` is written, the keys behind the line are left, and the cursor is on the
-- screen.
pub getstr-Reads :
    (keys : List ℕ) (max_size : ℕ) (buffer : Memory) (c : Console)
    → 0 < max_size
    → max_size < 2 ^ 32
    → IsConsole c
    → Reads buffer (max_size - 1) (line_from keys (max_size - 1) []) (getstr keys max_size buffer c)
unfolding getstr Spells
getstr-Reads keys max_size buffer c some_room h v =
    let last : sub32 max_size 1 ≡ max_size - 1 = omega arith in
    rw last (
      getstr_from-Reads keys [] (record { index = 0; text = buffer; console = c }) (omega arith)
        (record { index = refl; text = _; rest = λ i lt. refl; console = v }))

-- `getstr_bound` with a bound of 1 to 255 returns the line that the list editor makes of the same
-- keys, the one of `getstr`, and waits for a key where that does; the line, the buffer, the
-- keys behind the line and the cursor are as for `getstr`.
pub getstr_bound-Reads :
    (keys : List ℕ) (bound : ℕ) (buffer : Memory) (c : Console)
    → 0 < bound
    → bound < 2 ^ 8
    → IsConsole c
    → Reads buffer (bound - 1) (line_from keys (bound - 1) []) (getstr_bound keys bound buffer c)
unfolding getstr_bound Spells
getstr_bound-Reads keys bound buffer c some_room h v =
    let not_zero : (bound == 0) ≡ false = ground arith in
    rw not_zero (
      getstr_bound_from-Reads keys [] (record { index = 0; text = buffer; console = flush c })
        (omega arith)
        (record { index = refl; text = _; rest = λ i lt. refl; console = flush-IsConsole c v }))
