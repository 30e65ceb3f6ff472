-- ===== src/Console/Printed.antt =====
-- The console of src/drivers/console.c behind `console_printf`.
use hal_os.Base.{ℕ, zero, suc, ◌+◌, ◌==◌, ◌||◌, ltb, Bool, false}
use hal_os.Base.{
  ◌≡◌, arith, Bool-cases, Option-cases, inl, inr, u8, u32, List, [], ◌∷◌, length, Option, none,
  some,
}
use mathlib.Core.Path.{subst}
use hal_os.Str.{Memory}
use hal_os.Screen.Pixels.{Shows}
use hal_os.Console.{Console, flush, putchar, putstr}
use hal_os.Console.Sync.{flush-Shows}
use hal_os.Console.Drawn.{IsSynced, putchar-IsSynced}
use hal_os.Console.Cursor.{IsConsole, putchar-IsConsole, flush-IsConsole}
use hal_os.Console.Format.{
  Argument, word, pointer, null_text, take_width, take_zero, format_number, put_from, put_number,
  put_char, put_text, put_word, convert, vprintf, printf,
}

-- a property of consoles that a character keeps
module _ (P : Console → Type 0) (keep : (ch : ℕ) (c : Console) → P c → P (putchar ch c)) where
  abbrev AfterWord : Option Console → Type 0
  AfterWord none = Unit
  AfterWord (some c) = P c

  abbrev After : Option (List Argument × Console) → Type 0
  After none = Unit
  After (some (args, c)) = P c

  putstr_keeps : (text : List ℕ) (c : Console) → P c → P (putstr text c)
  unfolding putstr
  putstr_keeps [] c p = p
  putstr_keeps (ch ∷ text) c p = putstr_keeps text (putchar ch c) (keep ch c p)

  put_from_keeps : (n at : ℕ) (buf : Memory) (c : Console) → P c → P (put_from n at buf c)
  unfolding put_from
  put_from_keeps zero at buf c p = p
  put_from_keeps (suc n) at buf c p = elim (Bool-cases (buf at == 0)) [
    | inl end ↦ rw (put_from, end) p
    | inr more ↦
        rw (put_from, more) (put_from_keeps n (at + 1) buf (putchar (buf at) c) (keep (buf at) c p))
  ]

  put_number-AfterWord :
      (val base : ℕ) (upper : Bool) (width : ℕ) (pad_zero : Bool) (c : Console)
      → P c
      → AfterWord (put_number val base upper width pad_zero c)
  unfolding put_number
  put_number-AfterWord val base upper width pad_zero c p =
      let r = format_number (λ i. 0) val base upper width pad_zero in
      elim (Bool-cases (ltb r.0 32)) [
        | inl short ↦ rw (put_number, short) (put_from_keeps 32 0 r.1 c p)
        | inr long ↦ rw (put_number, long) _
      ]

  put_char-After : (args : List Argument) (c : Console) → P c → After (put_char args c)
  unfolding put_char
  put_char-After [] c p = _
  put_char-After (word ch ∷ rest) c p = keep (u8 ch) c p
  put_char-After (pointer o ∷ rest) c p = _

  put_text-After : (args : List Argument) (c : Console) → P c → After (put_text args c)
  unfolding put_text
  put_text-After [] c p = _
  put_text-After (word ch ∷ rest) c p = _
  put_text-After (pointer none ∷ rest) c p = putstr_keeps null_text c p
  put_text-After (pointer (some text) ∷ rest) c p = putstr_keeps text c p

  put_word-After :
      (base : ℕ) (upper : Bool) (width : ℕ) (pad_zero : Bool) (args : List Argument) (c : Console)
      → P c
      → After (put_word base upper width pad_zero args c)
  unfolding put_word
  put_word-After base upper width pad_zero [] c p = _
  put_word-After base upper width pad_zero (pointer o ∷ rest) c p = _
  put_word-After base upper width pad_zero (word val ∷ rest) c p =
      let q = put_number-AfterWord (u32 val) base upper width pad_zero c p in
      elim (Option-cases (put_number (u32 val) base upper width pad_zero c)) [
        | inl long ↦ rw (put_word, long) _
        | inr (d, e) ↦ rw (put_word, e) (subst AfterWord e q)
      ]

  convert-After :
      (n width : ℕ) (pad_zero : Bool) (args : List Argument) (c : Console)
      → P c
      → After (convert n width pad_zero args c)
  unfolding convert
  convert-After n width pad_zero args c p = elim (Bool-cases (n == 99)) [
    | inl e ↦ rw (convert, e) (put_char-After args c p)
    | inr a ↦ elim (Bool-cases (n == 115)) [
      | inl e ↦ rw (convert, a, e) (put_text-After args c p)
      | inr b ↦ elim (Bool-cases (n == 100)) [
        | inl e ↦ rw (convert, a, b, e) (put_word-After 10 false width pad_zero args c p)
        | inr d ↦ elim (Bool-cases (n == 117 || n == 120 || n == 88)) [
          | inl e ↦ rw (convert, a, b, d, e) (put_word-After 16 (n == 88) width pad_zero args c p)
          | inr f ↦ rw (convert, a, b, d, f) (keep n (putchar 37 c) (keep 37 c p))
        ]
      ]
    ]
  ]

  vprintf-AfterWord :
      (fuel : ℕ) (format : List ℕ) (args : List Argument) (c : Console)
      → P c
      → AfterWord (vprintf fuel format args c)
  unfolding vprintf
  vprintf-AfterWord zero format args c p = _
  vprintf-AfterWord (suc fuel) [] args c p = p
  vprintf-AfterWord (suc fuel) (ch ∷ format) args c p = elim (Bool-cases (ch == 37)) [
    | inr sign ↦
        rw (vprintf, sign) (vprintf-AfterWord fuel format args (putchar ch c) (keep ch c p))
    | inl percent ↦
        rw (vprintf, percent)
          (behind (take_width (take_zero format).1 0).1 (take_width (take_zero format).1 0).0
            (take_zero format).0 (vprintf-AfterWord fuel))
  ]
    where
      behind :
          (r : List ℕ) (width : ℕ) (pad_zero : Bool)
          → ((rest : List ℕ) (left : List Argument) (d : Console)
              → P d
              → AfterWord (vprintf fuel rest left d))
          → AfterWord (elim r [
            | [] ↦ none
            | n ∷ rest ↦ elim (convert n width pad_zero args c) [
              | none ↦ none
              | some (left, shown) ↦ vprintf fuel rest left shown
            ]
          ])
      behind [] width pad_zero k = _
      behind (n ∷ rest) width pad_zero k =
          let q = convert-After n width pad_zero args c p in
          elim (Option-cases (convert n width pad_zero args c)) [
            | inl missing ↦ rw missing _
            | inr (r, e) ↦ rw e (k rest r.0 r.1 (subst After e q))
          ]

  printf_keeps :
      (format : List ℕ) (args : List Argument) (c d : Console)
      → P c
      → printf format args c ≡ some d
      → (shown : Console) × P shown × (flush shown ≡ d)
  unfolding printf
  printf_keeps format args c d p e =
      let q = vprintf-AfterWord (suc (length format)) format args c p in
      elim (Option-cases (vprintf (suc (length format)) format args c)) [
        | inl missing ↦ absurd (ground (arith, e, missing))
        | inr (shown, yields) ↦ (shown, subst AfterWord yields q, ground (arith, e, yields))
      ]

-- Behind `console_printf`, with any format and arguments with which it returns, the front buffer
-- shows all pixels of the back buffer, and the cursor is on the screen, if before the dirty
-- rectangle covered what was not shown and the cursor was on the screen.
pub printf-Shows :
    (format : List ℕ) (args : List Argument) (c d : Console)
    → IsSynced c
    → IsConsole c
    → printf format args c ≡ some d
    → Shows d.screen × IsConsole d
printf-Shows format args c d s v e =
    let (seen, synced, e') = printf_keeps IsSynced putchar-IsSynced format args c d s e in
    let (seen', on, e'') =
      printf_keeps IsConsole (λ ch b w. (putchar-IsConsole ch b w).0) format args c d v e in
    (
      subst (λ b. Shows b.screen) e' (flush-Shows seen synced),
      subst IsConsole e'' (flush-IsConsole seen' on),
    )
