-- ===== src/Console/Format/Parse.antt =====
-- How src/drivers/console.c reads a conversion of a format: `%`, a `0`, a width and a letter.
use hal_os.Base.{ℕ, suc, ◌+◌, ◌-◌, ◌*◌, ◌/◌, ◌%◌, ◌<◌, ◌==◌, ltb, Bool, true, false, if◌then◌else◌}
use hal_os.Base.{◌≡◌, refl, arith, ◌∙◌, ap, Bool-cases, inl, inr, List, ◌∷◌, some}
use hal_os.Console.{Console}
use hal_os.Console.Format.{Argument, is_digit, take_width, take_zero, convert, vprintf}

-- a width below 100 in decimal digits, and nothing for 0
abbrev pub width_codes : ℕ → List ℕ → List ℕ
width_codes width rest =
    if width == 0
    then rest
    else if ltb width 10
    then (48 + width) ∷ rest
    else (48 + width / 10) ∷ (48 + width % 10) ∷ rest

-- a conversion without its `%`
abbrev pub conversion : Bool → ℕ → ℕ → List ℕ → List ℕ
conversion pad_zero width letter rest =
    let tail = width_codes width (letter ∷ rest) in if pad_zero then 48 ∷ tail else tail

take_width-letter :
    (letter width : ℕ) (rest : List ℕ)
    → is_digit letter ≡ false
    → take_width (letter ∷ rest) width ≡ (width, letter ∷ rest)
unfolding take_width
take_width-letter letter width rest h = rw (take_width, h) refl

take_width-digit :
    (ch width : ℕ) (rest : List ℕ)
    → is_digit ch ≡ true
    → take_width (ch ∷ rest) width ≡ take_width rest (width * 10 + (ch - 48))
unfolding take_width
take_width-digit ch width rest h = rw (take_width, h) refl

take_width-width_codes :
    (width letter : ℕ) (rest : List ℕ)
    → width < 100
    → is_digit letter ≡ false
    → take_width (width_codes width (letter ∷ rest)) 0 ≡ (width, letter ∷ rest)
take_width-width_codes width letter rest w h = elim (Bool-cases (width == 0)) [
  | inl none_such ↦
      let e : 0 ≡ width = ground (arith, none_such) in
      rw none_such (take_width-letter letter 0 rest h ∙ ap (λ n. (n, letter ∷ rest)) e)
  | inr wide ↦ elim (Bool-cases (ltb width 10)) [
    | inl one ↦
        rw (wide, one)
          (take_width-digit (48 + width) 0 (letter ∷ rest) (ground (arith, one))
            ∙ take_width-letter letter (0 * 10 + (48 + width - 48)) rest h
            ∙ ap (λ n. (n, letter ∷ rest)) (omega arith))
    | inr two ↦
        rw (wide, two)
          (take_width-digit (48 + width / 10) 0 ((48 + width % 10) ∷ letter ∷ rest) (ground arith)
            ∙ take_width-digit (48 + width % 10) (0 * 10 + (48 + width / 10 - 48)) (letter ∷ rest)
                (ground arith)
            ∙ take_width-letter letter
                ((0 * 10 + (48 + width / 10 - 48)) * 10 + (48 + width % 10 - 48)) rest h
            ∙ ap (λ n. (n, letter ∷ rest)) (omega arith))
  ]
]

take_zero-width_codes :
    (width letter : ℕ) (rest : List ℕ)
    → width < 100
    → is_digit letter ≡ false
    → take_zero (width_codes width (letter ∷ rest)) ≡ (false, width_codes width (letter ∷ rest))
take_zero-width_codes width letter rest w h = elim (Bool-cases (width == 0)) [
  | inl none_such ↦ let no : (letter == 48) ≡ false = ground (arith, h) in rw (none_such, no) refl
  | inr wide ↦ elim (Bool-cases (ltb width 10)) [
    | inl one ↦
        let no : (48 + width == 48) ≡ false = ground (arith, wide) in rw (wide, one, no) refl
    | inr two ↦
        let no : (48 + width / 10 == 48) ≡ false = ground (arith, two) in rw (wide, two, no) refl
  ]
]

take-conversion :
    (pad_zero : Bool) (width letter : ℕ) (rest : List ℕ)
    → width < 100
    → is_digit letter ≡ false
    → ((take_zero (conversion pad_zero width letter rest)).0 ≡ pad_zero)
      × (take_width (take_zero (conversion pad_zero width letter rest)).1 0
          ≡ (width, letter ∷ rest))
take-conversion true width letter rest w h = (refl, take_width-width_codes width letter rest w h)
take-conversion false width letter rest w h =
    let e = take_zero-width_codes width letter rest w h in
    (ap (λ t. t.0) e, ap (λ t. take_width t.1 0) e ∙ take_width-width_codes width letter rest w h)

-- What a conversion does, the rest of the format does behind it.
pub vprintf-conversion :
    (pad_zero : Bool) (width letter fuel : ℕ) (rest : List ℕ) (args left : List Argument)
    (c shown : Console)
    → width < 100
    → is_digit letter ≡ false
    → convert letter width pad_zero args c ≡ some (left, shown)
    → vprintf (suc fuel) (37 ∷ conversion pad_zero width letter rest) args c
      ≡ vprintf fuel rest left shown
unfolding vprintf
vprintf-conversion pad_zero width letter fuel rest args left c shown w h e =
    let (zeros, widths) = take-conversion pad_zero width letter rest w h in
    let wide : (take_width (take_zero (conversion pad_zero width letter rest)).1 0).0 ≡ width =
      ap (λ t. t.0) widths in
    rw (vprintf, widths, wide, zeros, e) refl
