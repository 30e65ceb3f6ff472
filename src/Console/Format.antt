-- ===== src/Console/Format.antt =====
-- `format_number` and `console_vprintf` of src/drivers/console.c.
pub mod Number
pub mod Value
pub mod Parse
pub mod Items
use hal_os.Base.{
  ℕ, zero, suc, ◌+◌, ◌-◌, ◌*◌, ◌/◌, ◌%◌, ◌^◌, ◌==◌, ltb, leb, Bool, true, false, ◌&&◌, ◌||◌,
  if◌then◌else◌,
}
use hal_os.Base.{u8, u32, update, List, [], ◌∷◌, length, Option, none, some}
use hal_os.Str.{Memory}
use hal_os.Console.{Console, flush, putchar, putstr}

-- `digits[d]`
abbrev pub digit : Bool → ℕ → ℕ
digit uppercase d = if ltb d 10 then 48 + d else if uppercase then 55 + d else 87 + d

-- `while (val > 0)`, with the next index and the buffer; 32 rounds are enough for any base
unfoldable pub put_digits : ℕ → ℕ → ℕ → Bool → ℕ → Memory → ℕ × Memory
put_digits zero val base uppercase i buf = (i, buf)
put_digits (suc n) val base uppercase i buf = elim (val == 0) [
  | true ↦ (i, buf)
  | false ↦
      put_digits n (val / base) base uppercase (i + 1) (update buf i (digit uppercase (val % base)))
]

unfoldable pub first_digits : ℕ → ℕ → Bool → Memory → ℕ × Memory
first_digits val base uppercase buf =
    if val == 0 then (1, update buf 0 48) else put_digits 32 val base uppercase 0 buf

-- `n` rounds of `while (i < width)`
unfoldable pub pad_from : ℕ → ℕ → ℕ → Memory → Memory
pad_from zero i pad buf = buf
pad_from (suc n) i pad buf = pad_from n (i + 1) pad (update buf i pad)

-- `n` rounds of the loop that turns the `i` bytes round
unfoldable pub swap_ends : ℕ → ℕ → ℕ → Memory → Memory
swap_ends zero j i buf = buf
swap_ends (suc n) j i buf =
    swap_ends n (j + 1) i (update (update buf j (buf (i - j - 1))) (i - j - 1) (buf j))

abbrev pub pad_char : Bool → ℕ
pad_char pad_zero = if pad_zero then 48 else 32

-- the number of bytes in front of the final 0, and the buffer
unfoldable pub format_number : Memory → ℕ → ℕ → Bool → ℕ → Bool → ℕ × Memory
format_number buf val base uppercase width pad_zero =
    let (i, digits) = first_digits val base uppercase buf in
    let padded = pad_from (width - i) i (pad_char pad_zero) digits in
    let end = i + (width - i) in (end, update (swap_ends (end / 2) 0 end padded) end 0)

-- `for (char *p = buf; *p; p++)`, over at most the bytes of `buf`
unfoldable pub put_from : ℕ → ℕ → Memory → Console → Console
put_from zero at buf c = c
put_from (suc n) at buf c = elim (buf at == 0) [
  | true ↦ c
  | false ↦ put_from n (at + 1) buf (putchar (buf at) c)
]

-- Behind 31 characters, `format_number` writes past the end of `char buf[32]`.
unfoldable pub put_number : ℕ → ℕ → Bool → ℕ → Bool → Console → Option Console
put_number val base uppercase width pad_zero c =
    let (end, buf) = format_number (λ i. 0) val base uppercase width pad_zero in
    if ltb end 32 then some (put_from 32 0 buf c) else none

-- an argument that `va_arg` takes: a word, or a pointer to a text, which may be `NULL`
pub data Argument : Type 0 where
  word : ℕ → Argument
  pointer : Option (List ℕ) → Argument

-- "(null)"
abbrev pub null_text : List ℕ
null_text = 40 ∷ 110 ∷ 117 ∷ 108 ∷ 108 ∷ 41 ∷ []

abbrev pub is_digit : ℕ → Bool
is_digit ch = leb 48 ch && leb ch 57

-- `while (*format >= '0' && *format <= '9')`: the width, and what is left of the format
unfoldable pub take_width : List ℕ → ℕ → ℕ × List ℕ
take_width [] width = (width, [])
take_width (ch ∷ format) width = elim (is_digit ch) [
  | false ↦ (width, ch ∷ format)
  | true ↦ take_width format (width * 10 + (ch - 48))
]

unfoldable pub put_char : List Argument → Console → Option (List Argument × Console)
put_char (word ch ∷ rest) c = some (rest, putchar (u8 ch) c)
put_char args c = none

unfoldable pub put_text : List Argument → Console → Option (List Argument × Console)
put_text (pointer none ∷ rest) c = some (rest, putstr null_text c)
put_text (pointer (some text) ∷ rest) c = some (rest, putstr text c)
put_text args c = none

unfoldable pub put_word :
    ℕ → Bool → ℕ → Bool → List Argument → Console → Option (List Argument × Console)
put_word base uppercase width pad_zero (word val ∷ rest) c =
    elim (put_number (u32 val) base uppercase width pad_zero c) [
      | none ↦ none
      | some shown ↦ some (rest, shown)
    ]
put_word base uppercase width pad_zero args c = none

-- the `switch`, with the arguments that are left; `none` where `va_arg` has no such argument
unfoldable pub convert : ℕ → ℕ → Bool → List Argument → Console → Option (List Argument × Console)
convert n width pad_zero args c =
    if n == 99
    then put_char args c
    else if n == 115
    then put_text args c
    else if n == 100
    then put_word 10 false width pad_zero args c
    else if n == 117 || n == 120 || n == 88
    then put_word 16 (n == 88) width pad_zero args c
    else some (args, putchar n (putchar 37 c))

-- `*format == '0'`
abbrev pub take_zero : List ℕ → Bool × List ℕ
take_zero [] = (false, [])
take_zero (ch ∷ format) = if ch == 48 then (true, format) else (false, ch ∷ format)

-- Each round takes a character of the format at least, which is a unit of fuel. At a `%` with no
-- letter behind it the code goes on behind the end of the format: `none`.
unfoldable pub vprintf : ℕ → List ℕ → List Argument → Console → Option Console
vprintf zero format args c = none
vprintf (suc fuel) [] args c = some c
vprintf (suc fuel) (ch ∷ format) args c = elim (ch == 37) [
  | false ↦ vprintf fuel format args (putchar ch c)
  | true ↦
      let zeros = take_zero format in
      let widths = take_width zeros.1 0 in
      elim widths.1 [
        | [] ↦ none
        | n ∷ rest ↦ elim (convert n widths.0 zeros.0 args c) [
          | none ↦ none
          | some (left, shown) ↦ vprintf fuel rest left shown
        ]
      ]
]

unfoldable pub printf : List ℕ → List Argument → Console → Option Console
printf format args c = elim (vprintf (suc (length format)) format args c) [
  | none ↦ none
  | some shown ↦ some (flush shown)
]
