-- ===== src/Console/Input.antt =====
-- `getstr` and `getstr_bound` of src/drivers/console.c: a line that is typed, and edited by
-- backspaces. The characters that `kb_getchar` returns are a list, and `none` stands for a call
-- that still waits for the next one.
pub mod Edited
pub mod Reads
use hal_os.Base.{
  ℕ, zero, suc, ◌+◌, ◌-◌, ◌%◌, ◌^◌, ◌==◌, ltb, leb, Bool, true, false, ◌&&◌, if◌then◌else◌,
}
use hal_os.Base.{sub32, update, List, [], ◌∷◌, Option, none, some}
use hal_os.Str.{Memory}
use hal_os.Console.{Console, flush, putchar, ungetchar}

-- the index `i` or `idx`, memory from `buffer` on, and the console
pub record Entry : Type 0 where
  pub index : ℕ
  pub text : Memory
  pub console : Console

-- a call that has returned, and the characters that it has not taken
pub record Line : Type 0 where
  pub text : Memory
  pub console : Console
  pub unread : List ℕ

abbrev pub printable : ℕ → Bool
printable key = leb 32 key && leb key 126

abbrev pub show : ℕ → Console → Console
show key c = flush (putchar key c)

unfoldable pub store : ℕ → Entry → Entry
store key e = record {
  index = e.index + 1;
  text = update e.text e.index key;
  console = show key e.console;
}

-- the last test of the loop's body
unfoldable pub wrap : Entry → Entry
wrap e =
    if leb e.console.cols e.console.cursor_x then record e { console = show 10 e.console } else e

-- the body of the loop of `getstr`, for a key that does not end the line
unfoldable pub type_key : ℕ → Entry → Entry
type_key key e = wrap (
    if key == 8
    then if e.index == 0 then e else record e { index = e.index - 1; console = ungetchar e.console }
    else if printable key
    then store key e
    else e)

unfoldable pub finish : Entry → List ℕ → Line
finish e keys = record { text = update e.text e.index 0; console = e.console; unread = keys }

unfoldable pub getstr_from : List ℕ → ℕ → Entry → Option Line
getstr_from [] last e = if ltb e.index last then none else some (finish e [])
getstr_from (key ∷ keys) last e = elim (ltb e.index last) [
  | false ↦ some (finish e (key ∷ keys))
  | true ↦ elim (key == 10) [
    | true ↦ some (finish (record e { console = show 10 e.console }) keys)
    | false ↦ getstr_from keys last (type_key key e)
  ]
]

unfoldable pub getstr : List ℕ → ℕ → Memory → Console → Option Line
getstr keys max_size buffer c =
    getstr_from keys (sub32 max_size 1) (record { index = 0; text = buffer; console = c })

-- the body of the loop of `getstr_bound`, for a key that does not end the line
unfoldable pub type_key_bound : ℕ → Entry → Entry
type_key_bound key e =
    if key == 8 && ltb 0 e.index
    then record {
      index = e.index - 1;
      text = update e.text (e.index - 1) 0;
      console = flush (ungetchar e.console);
    }
    else wrap (if printable key then store key e else e)

unfoldable pub finish_bound : Entry → List ℕ → Line
finish_bound e keys = record {
  text = update e.text e.index 0;
  console = flush e.console;
  unread = keys;
}

unfoldable pub getstr_bound_from : List ℕ → ℕ → Entry → Option Line
getstr_bound_from [] last e = if ltb e.index last then none else some (finish_bound e [])
getstr_bound_from (key ∷ keys) last e = elim (ltb e.index last) [
  | false ↦ some (finish_bound e (key ∷ keys))
  | true ↦ elim (key == 10) [
    | true ↦ some (finish_bound (record e { console = putchar 10 e.console }) keys)
    | false ↦ getstr_bound_from keys last (type_key_bound key e)
  ]
]

-- with a buffer that is not `NULL`
unfoldable pub getstr_bound : List ℕ → ℕ → Memory → Console → Option Line
getstr_bound keys bound buffer c =
    if bound == 0
    then some (record { text = buffer; console = c; unread = keys })
    else getstr_bound_from keys (bound - 1) (record { index = 0; text = buffer; console = flush c })
