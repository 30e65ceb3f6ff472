-- ===== src/Console/Format/Items.antt =====
-- What `console_printf` of src/drivers/console.c prints of a format that is well formed.
use hal_os.Base.{ℕ, zero, suc, ◌≤◌, ◌<◌, ◌==◌, ltb, Bool, true, false}
use hal_os.Base.{
  ◌≡◌, ◌≢◌, refl, arith, sym, ◌∙◌, ap, u8, u32, List, [], ◌∷◌, ◌++◌, length, none, some,
}
use hal_os.Console.{Console, flush, putchar, putstr}
use hal_os.Console.Format.{
  Argument, word, pointer, null_text, is_digit, put_char, put_text, put_word, convert, vprintf,
  printf,
}
use hal_os.Console.Format.Number.{
  number_text, IsBase, ten-IsBase, sixteen-IsBase, put_number-number_text,
}
use hal_os.Console.Format.Parse.{conversion, width_codes, vprintf-conversion}

-- the letters of numbers
pub data Letter : Type 0 where
  letter_d letter_u letter_x upper_x : Letter

abbrev pub letter_code : Letter → ℕ
letter_code letter_d = 100
letter_code letter_u = 117
letter_code letter_x = 120
letter_code upper_x = 88

-- The base of `%u` is the one of `%x`.
abbrev pub base_of : Letter → ℕ
base_of letter_d = 10
base_of letter = 16

abbrev pub is_upper : Letter → Bool
is_upper upper_x = true
is_upper letter = false

-- the parts of a format, with their arguments
pub data Item : Type 0 where
  plain : ℕ → Item
  character : ℕ → Item
  text : List ℕ → Item
  null : Item
  number : Letter → Bool → ℕ → ℕ → Item

abbrev pub printed_number : Letter → Bool → ℕ → ℕ → List ℕ
printed_number letter pad_zero width val =
    number_text (u32 val) (base_of letter) (is_upper letter) width pad_zero

-- A plain character is not `%`, and a number is not too long for the code's buffer.
abbrev pub IsItem : Item → Type 0
IsItem (plain ch) = ch ≢ 37
IsItem (number letter pad_zero width val) =
    (width < 32) × (length (printed_number letter pad_zero width val) < 32)
IsItem item = Unit

-- the format, in front of `rest`
abbrev pub format_onto : Item → List ℕ → List ℕ
format_onto (plain ch) rest = ch ∷ rest
format_onto (character ch) rest = 37 ∷ conversion false 0 99 rest
format_onto (text t) rest = 37 ∷ conversion false 0 115 rest
format_onto null rest = 37 ∷ conversion false 0 115 rest
format_onto (number letter pad_zero width val) rest =
    37 ∷ conversion pad_zero width (letter_code letter) rest

abbrev pub arguments_onto : Item → List Argument → List Argument
arguments_onto (plain ch) args = args
arguments_onto (character ch) args = word ch ∷ args
arguments_onto (text t) args = pointer (some t) ∷ args
arguments_onto null args = pointer none ∷ args
arguments_onto (number letter pad_zero width val) args = word val ∷ args

abbrev pub printed : Item → List ℕ
printed (plain ch) = ch ∷ []
printed (character ch) = u8 ch ∷ []
printed (text t) = t
printed null = null_text
printed (number letter pad_zero width val) = printed_number letter pad_zero width val

abbrev pub AreItems : List Item → Type 0
AreItems [] = Unit
AreItems (item ∷ items) = IsItem item × AreItems items

abbrev pub formats : List Item → List ℕ
formats [] = []
formats (item ∷ items) = format_onto item (formats items)

abbrev pub arguments : List Item → List Argument
arguments [] = []
arguments (item ∷ items) = arguments_onto item (arguments items)

abbrev pub all_printed : List Item → List ℕ
all_printed [] = []
all_printed (item ∷ items) = printed item ++ all_printed items

putstr-append : (a b : List ℕ) (c : Console) → putstr (a ++ b) c ≡ putstr b (putstr a c)
unfolding putstr
putstr-append [] b c = refl
putstr-append (ch ∷ a) b c = putstr-append a b (putchar ch c)

base_of-IsBase : (letter : Letter) → IsBase (base_of letter)
base_of-IsBase letter_d = ten-IsBase
base_of-IsBase letter_u = sixteen-IsBase
base_of-IsBase letter_x = sixteen-IsBase
base_of-IsBase upper_x = sixteen-IsBase

put_word-number :
    (base : ℕ) (b : IsBase base) (upper pad_zero : Bool) (width val : ℕ) (args : List Argument)
    (c : Console)
    → length (number_text (u32 val) base upper width pad_zero) < 32
    → put_word base upper width pad_zero (word val ∷ args) c
      ≡ some (args, putstr (number_text (u32 val) base upper width pad_zero) c)
unfolding put_word
put_word-number base b upper pad_zero width val args c short =
    let fits : ltb (length (number_text (u32 val) base upper width pad_zero)) 32 ≡ true =
      ground arith in
    let e = put_number-number_text base b upper pad_zero width (u32 val) c in
    rw (put_word, e, fits) refl

convert-number :
    (letter : Letter) (pad_zero : Bool) (width val : ℕ) (args : List Argument) (c : Console)
    → length (printed_number letter pad_zero width val) < 32
    → convert (letter_code letter) width pad_zero (word val ∷ args) c
      ≡ some (args, putstr (printed_number letter pad_zero width val) c)
unfolding convert
convert-number letter_d pad_zero width val args c short =
    put_word-number 10 ten-IsBase false pad_zero width val args c short
convert-number letter_u pad_zero width val args c short =
    put_word-number 16 sixteen-IsBase false pad_zero width val args c short
convert-number letter_x pad_zero width val args c short =
    put_word-number 16 sixteen-IsBase false pad_zero width val args c short
convert-number upper_x pad_zero width val args c short =
    put_word-number 16 sixteen-IsBase true pad_zero width val args c short

letter_code-not_digit : (letter : Letter) → is_digit (letter_code letter) ≡ false
letter_code-not_digit letter_d = refl
letter_code-not_digit letter_u = refl
letter_code-not_digit letter_x = refl
letter_code-not_digit upper_x = refl

vprintf-format_onto :
    (item : Item) (fuel : ℕ) (rest : List ℕ) (args : List Argument) (c : Console)
    → IsItem item
    → vprintf (suc fuel) (format_onto item rest) (arguments_onto item args) c
      ≡ vprintf fuel rest args (putstr (printed item) c)
unfolding vprintf convert put_char put_text putstr
vprintf-format_onto (plain ch) fuel rest args c v =
    let other : (ch == 37) ≡ false = ground (arith, v) in rw (vprintf, other) refl
vprintf-format_onto (character ch) fuel rest args c v =
    vprintf-conversion false 0 99 fuel rest (word ch ∷ args) args c (putchar (u8 ch) c)
      (omega arith) refl refl
vprintf-format_onto (text t) fuel rest args c v =
    vprintf-conversion false 0 115 fuel rest (pointer (some t) ∷ args) args c (putstr t c)
      (omega arith) refl refl
vprintf-format_onto null fuel rest args c v =
    vprintf-conversion false 0 115 fuel rest (pointer none ∷ args) args c (putstr null_text c)
      (omega arith) refl refl
vprintf-format_onto (number letter pad_zero width val) fuel rest args c v =
    vprintf-conversion pad_zero width (letter_code letter) fuel rest (word val ∷ args) args c
      (putstr (printed_number letter pad_zero width val) c) (omega (arith, v.0))
      (letter_code-not_digit letter) (convert-number letter pad_zero width val args c v.1)

vprintf-formats :
    (items : List Item) (fuel : ℕ) (c : Console)
    → AreItems items
    → length items < fuel
    → vprintf fuel (formats items) (arguments items) c ≡ some (putstr (all_printed items) c)
unfolding vprintf putstr
vprintf-formats items zero c v h = absurd (omega arith)
vprintf-formats [] (suc fuel) c v h = refl
vprintf-formats (item ∷ items) (suc fuel) c v h =
    vprintf-format_onto item fuel (formats items) (arguments items) c v.0
    ∙ vprintf-formats items fuel (putstr (printed item) c) v.1 (omega arith)
    ∙ ap some (sym (putstr-append (printed item) (all_printed items) c))

length-width_codes : (width : ℕ) (rest : List ℕ) → length rest ≤ length (width_codes width rest)
length-width_codes width rest = ground arith

length-format_onto :
    (item : Item) (rest : List ℕ) → suc (length rest) ≤ length (format_onto item rest)
length-format_onto (plain ch) rest = omega arith
length-format_onto (character ch) rest = omega arith
length-format_onto (text t) rest = omega arith
length-format_onto null rest = omega arith
length-format_onto (number letter true width val) rest =
    omega (arith, length-width_codes width (letter_code letter ∷ rest))
length-format_onto (number letter false width val) rest =
    omega (arith, length-width_codes width (letter_code letter ∷ rest))

length-formats : (items : List Item) → length items ≤ length (formats items)
length-formats [] = omega arith
length-formats (item ∷ items) =
    omega (arith, length-formats items, length-format_onto item (formats items))

-- `console_printf` prints a well-formed format and returns: the plain characters as they are, for a
-- `%c` the character, for a `%s` the text or `(null)`, and for each number its text, with the
-- width and the filling that the format asks for; `%u` prints in the base of `%x`. It flushes the
-- console behind that. Each number has fewer than 32 characters, and there is an argument for
-- each conversion.
pub printf-formats :
    (items : List Item) (c : Console)
    → AreItems items
    → printf (formats items) (arguments items) c ≡ some (flush (putstr (all_printed items) c))
unfolding printf
printf-formats items c v =
    let e =
      vprintf-formats items (suc (length (formats items))) c v
        (omega (arith, length-formats items)) in
    rw (printf, e) refl
