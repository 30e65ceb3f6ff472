-- ===== src/Str/Numeral/Digits.antt =====
-- The digits that `itoa` of src/libs/string.c writes.
use hal_os.Base.{
  ℕ, zero, suc, ◌+◌, ◌-◌, ◌*◌, ◌/◌, ◌%◌, ◌^◌, ◌≤◌, ◌<◌, ◌==◌, leb, true, false, ◌&&◌, if◌then◌else◌,
}
use hal_os.Base.{
  ◌≡◌, refl, arith, sym, ◌∙◌, ap, Bool-cases, inl, inr, update, update_ne, update_self, List, [],
  ◌∷◌, length,
}
use hal_os.Str.{Memory}
use hal_os.Str.Numeral.{remainder_char, put_remainders, swap_pointers, put_unsigned}

-- the digits at the start of a memory, the last one first, and their value
unfoldable pub Digits : Memory → List ℕ → Type 0
Digits buf [] = Unit
Digits buf (r ∷ digits) = (buf (length digits) ≡ r + 48) × (r < 10) × Digits buf digits

-- the digits of a number in front of others, the first one first
abbrev digits_onto : ℕ → ℕ → List ℕ → List ℕ
digits_onto zero ud digits = digits
digits_onto (suc n) ud digits = elim (ud / 10 == 0) [
  | true ↦ ud % 10 ∷ digits
  | false ↦ digits_onto n (ud / 10) (ud % 10 ∷ digits)
]

abbrev pub value : ℕ → List ℕ → ℕ
value val [] = val
value val (r ∷ digits) = value (val * 10 + r) digits

Digits-update :
    (digits : List ℕ) (buf : Memory) (i v : ℕ)
    → length digits ≤ i
    → Digits buf digits
    → Digits (update buf i v) digits
unfolding Digits
Digits-update [] buf i v h d = d
Digits-update (r ∷ digits) buf i v h d = (
  update_ne buf i (length digits) v (omega arith) ∙ d.0,
  d.1,
  Digits-update digits buf i v (omega arith) d.2,
)

put_remainders-Digits :
    (n ud i : ℕ) (digits : List ℕ) (buf : Memory)
    → i ≡ length digits
    → Digits buf digits
    → ((put_remainders n ud 10 i buf).0 ≡ length (digits_onto n ud digits))
      × Digits (put_remainders n ud 10 i buf).1 (digits_onto n ud digits)
unfolding put_remainders Digits
put_remainders-Digits zero ud i digits buf e d = (e, d)
put_remainders-Digits (suc n) ud i digits buf e d =
    let c = remainder_char (ud % 10) in
    let sign : c ≡ ud % 10 + 48 = ground arith in
    let written : Digits (update buf i c) (ud % 10 ∷ digits) = (
      ap (update buf i c) (sym e) ∙ update_self buf i c ∙ sign,
      omega arith,
      Digits-update digits buf i c (omega (arith, e)) d,
    ) in
    elim (Bool-cases (ud / 10 == 0)) [
      | inl last ↦ rw (put_remainders, digits_onto, last) (omega (arith, e), written)
      | inr more ↦
          rw (put_remainders, digits_onto, more)
            (put_remainders-Digits n (ud / 10) (i + 1) (ud % 10 ∷ digits) (update buf i c)
              (omega (arith, e)) written)
    ]

value-digits_onto :
    (n ud : ℕ) (digits : List ℕ) → ud < 2 ^ n → value 0 (digits_onto n ud digits) ≡ value ud digits
value-digits_onto zero ud digits h = ap (λ v. value v digits) (omega arith)
value-digits_onto (suc n) ud digits h = elim (Bool-cases (ud / 10 == 0)) [
  | inl last ↦
      let none_left : ud / 10 ≡ 0 = ground (arith, last) in
      rw (digits_onto, last) (ap (λ v. value v digits) (omega (arith, none_left)))
  | inr more ↦
      rw (digits_onto, more)
        (value-digits_onto n (ud / 10) (ud % 10 ∷ digits) (omega arith)
          ∙ ap (λ v. value v digits) (omega arith))
]

swap_pointers-turned_text :
    (n p1 p2 : ℕ) (buf : Memory) (k : ℕ)
    → n ≡ (p2 + 1 - p1) / 2
    → p1 ≤ p2 + 1
    → swap_pointers n p1 p2 buf k ≡ (if leb p1 k && leb k p2 then buf (p1 + p2 - k) else buf k)
unfolding swap_pointers update
swap_pointers-turned_text zero p1 p2 buf k h a = elim (Bool-cases (leb p1 k && leb k p2)) [
  | inl middle ↦ rw middle (ap buf (ground (arith, middle)))
  | inr other ↦ rw other refl
]
swap_pointers-turned_text (suc n) p1 p2 buf k h a =
    swap_pointers-turned_text n (p1 + 1) (p2 - 1) _ k (omega arith) (omega arith) ∙ ground arith

length-digits_onto :
    (n ud : ℕ) (digits : List ℕ)
    → (length digits ≤ length (digits_onto n ud digits))
      × (length (digits_onto n ud digits) ≤ n + length digits)
length-digits_onto zero ud digits = (omega arith, omega arith)
length-digits_onto (suc n) ud digits = elim (Bool-cases (ud / 10 == 0)) [
  | inl last ↦ rw (digits_onto, last) (omega arith, omega arith)
  | inr more ↦
      rw (digits_onto, more)
        (let (a, b) = length-digits_onto n (ud / 10) (ud % 10 ∷ digits) in
          (omega arith, omega arith))
]

some_digits : (n ud : ℕ) → 0 < length (digits_onto (suc n) ud [])
some_digits n ud = elim (Bool-cases (ud / 10 == 0)) [
  | inl last ↦ rw (digits_onto, last) (omega arith)
  | inr more ↦
      rw (digits_onto, more)
        (let (a, b) = length-digits_onto n (ud / 10) (ud % 10 ∷ []) in omega arith)
]

unfoldable pub all_digits : ℕ → List ℕ
all_digits ud = digits_onto 32 ud []

pub all_digits-length : (ud : ℕ) → (0 < length (all_digits ud)) × (length (all_digits ud) ≤ 32)
unfolding all_digits
all_digits-length ud = let b = (length-digits_onto 32 ud []).1 in (some_digits 31 ud, b)

-- `i` digits that are turned_text round, and the 0 behind them
module _ (i : ℕ) (digits : Memory) (more : 0 < i) where
  abbrev turned_text : Memory
  turned_text = swap_pointers (i / 2) 0 (i - 1) (update digits i 0)

  turned_text-digits : (k : ℕ) → k < i → turned_text k ≡ digits (i - 1 - k)
  turned_text-digits k lt =
      let at : update digits i 0 (0 + (i - 1) - k) ≡ digits (i - 1 - k) =
        ap (update digits i 0) (omega arith) ∙ update_ne digits i (i - 1 - k) 0 (omega arith) in
      let inside : (leb 0 k && leb k (i - 1)) ≡ true = ground arith in
      swap_pointers-turned_text (i / 2) 0 (i - 1) (update digits i 0) k (omega arith) (omega arith)
      ∙ rw inside at

  turned_text-end : turned_text i ≡ 0
  turned_text-end =
      let outside : (leb 0 i && leb i (i - 1)) ≡ false = ground arith in
      swap_pointers-turned_text (i / 2) 0 (i - 1) (update digits i 0) i (omega arith) (omega arith)
      ∙ rw outside (update_self digits i 0)

-- the text that `itoa` leaves behind the sign
pub record Leaves (ud : ℕ) (before after : Memory) : Type 0 where
  pub text :
      (k : ℕ)
      → k < length (all_digits ud)
      → after k ≡ (put_remainders 32 ud 10 0 before).1 (length (all_digits ud) - 1 - k)
  pub end : after (length (all_digits ud)) ≡ 0

pub remainders-Digits :
    (ud : ℕ) (buf : Memory)
    → ((put_remainders 32 ud 10 0 buf).0 ≡ length (all_digits ud))
      × Digits (put_remainders 32 ud 10 0 buf).1 (all_digits ud)
unfolding all_digits Digits
remainders-Digits ud buf = put_remainders-Digits 32 ud 0 [] buf refl _

pub put_unsigned-Leaves : (ud : ℕ) (buf : Memory) → Leaves ud buf (put_unsigned ud 10 buf)
unfolding put_unsigned
put_unsigned-Leaves ud buf =
    let r = put_remainders 32 ud 10 0 buf in
    let e = (remainders-Digits ud buf).0 in
    let more = (all_digits-length ud).0 in
    rw e (record {
      text = λ k lt. turned_text-digits (length (all_digits ud)) r.1 more k lt;
      end = turned_text-end (length (all_digits ud)) r.1 more;
    })

pub value-all_digits : (ud : ℕ) → ud < 2 ^ 32 → value 0 (all_digits ud) ≡ ud
unfolding all_digits
value-all_digits ud h = value-digits_onto 32 ud [] h
