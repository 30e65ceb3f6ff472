-- ===== src/Console/Format/Value.antt =====
-- The value of the texts that `format_number` of src/drivers/console.c writes.
use hal_os.Base.{
  ℕ, zero, suc, ◌+◌, ◌-◌, ◌*◌, ◌/◌, ◌%◌, ◌^◌, ◌≤◌, ◌<◌, ◌==◌, ltb, Bool, true, false, if◌then◌else◌,
}
use hal_os.Base.{◌≡◌, refl, arith, sym, ◌∙◌, ap, Bool-cases, inl, inr, List, [], ◌∷◌, length, some}
use hal_os.Console.{Console, putstr}
use hal_os.Console.Format.{digit, pad_char, put_number}
use hal_os.Console.Format.Number.{
  digits_onto, numeral, padded, number_text, IsBase, put_number-number_text,
}

-- the value of a character as a digit, whichever its case; a space counts as 0
abbrev pub digit_value : ℕ → ℕ
digit_value ch = if ltb ch 58 then ch - 48 else if ltb ch 91 then ch - 55 else ch - 87

-- the number that a text reads as, behind digits of value `val`
abbrev pub value : ℕ → ℕ → List ℕ → ℕ
value base val [] = val
value base val (ch ∷ text) = value base (val * base + digit_value ch) text

digit_value-digit : (uppercase : Bool) (d : ℕ) → d < 16 → digit_value (digit uppercase d) ≡ d
digit_value-digit uppercase d h = ground arith

module _ (base : ℕ) (b : IsBase base) (uppercase : Bool) where
  value-digits_onto :
      (n val : ℕ) (text : List ℕ)
      → val < 2 ^ n
      → value base 0 (digits_onto n val base uppercase text) ≡ value base val text
  value-digits_onto zero val text h = ap (λ v. value base v text) (omega arith)
  value-digits_onto (suc n) val text h = elim (Bool-cases (val == 0)) [
    | inl done ↦
        let none_left : val ≡ 0 = ground (arith, done) in
        rw (digits_onto, done) (ap (λ v. value base v text) (sym none_left))
    | inr more ↦
        rw (digits_onto, more)
          (value-digits_onto n (val / base) (digit uppercase (val % base) ∷ text)
              (omega (arith, b.shrinks val))
            ∙ ap (λ v. value base v text)
                (ap (λ d. val / base * base + d)
                    (digit_value-digit uppercase (val % base) (b.small val))
                  ∙ b.whole val))
  ]

  value-numeral : (val : ℕ) → val < 2 ^ 32 → value base 0 (numeral val base uppercase) ≡ val
  value-numeral val h = elim (Bool-cases (val == 0)) [
    | inl none_such ↦ let e : val ≡ 0 = ground (arith, none_such) in rw none_such (omega (arith, e))
    | inr some_digits ↦ rw some_digits (value-digits_onto 32 val [] h)
  ]

value-padded :
    (base n : ℕ) (pad_zero : Bool) (text : List ℕ)
    → value base 0 (padded n (pad_char pad_zero) text) ≡ value base 0 text
value-padded base zero pad_zero text = refl
value-padded base (suc n) pad_zero text =
    value-padded base n pad_zero (pad_char pad_zero ∷ text)
    ∙ ap (λ v. value base v text) (zero_value pad_zero)
  where
    zero_value : (z : Bool) → 0 * base + digit_value (pad_char z) ≡ 0
    zero_value true = omega arith
    zero_value false = omega arith

length-padded : (n pad : ℕ) (text : List ℕ) → length (padded n pad text) ≡ n + length text
length-padded zero pad text = omega arith
length-padded (suc n) pad text = omega (arith, length-padded n pad (pad ∷ text))

value-number_text :
    (base : ℕ) (b : IsBase base) (uppercase pad_zero : Bool) (width val : ℕ)
    → val < 2 ^ 32
    → (value base 0 (number_text val base uppercase width pad_zero) ≡ val)
      × (width ≤ length (number_text val base uppercase width pad_zero))
value-number_text base b uppercase pad_zero width val h =
    let digits = numeral val base uppercase in
    (
      value-padded base (width - length digits) pad_zero digits
          ∙ value-numeral base b uppercase val h,
      omega (arith, length-padded (width - length digits) (pad_char pad_zero) digits),
    )

-- What `console_vprintf` prints of a number below 2 ^ 32, in a base such as 10 and 16, in either
-- case and with either filling, reads as that number in the base, and has as many characters as its
-- width asks for or more, if its text has fewer than 32 characters.
pub put_number-value :
    (base : ℕ) (b : IsBase base) (uppercase pad_zero : Bool) (width val : ℕ) (c : Console)
    → val < 2 ^ 32
    → length (number_text val base uppercase width pad_zero) < 32
    → (text : List ℕ) × (put_number val base uppercase width pad_zero c ≡ some (putstr text c))
      × (value base 0 text ≡ val)
      × (width ≤ length text)
put_number-value base b uppercase pad_zero width val c h short =
    let text = number_text val base uppercase width pad_zero in
    let fits : ltb (length text) 32 ≡ true = ground (arith, short) in
    let (reads, wide) = value-number_text base b uppercase pad_zero width val h in
    let e = put_number-number_text base b uppercase pad_zero width val c in
    (text, e ∙ rw fits refl, reads, wide)
