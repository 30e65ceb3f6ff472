-- ===== src/Console/Format/Number.antt =====
-- The text of a number that `format_number` of src/drivers/console.c leaves in its buffer.
use hal_os.Base.{
  ℕ, zero, suc, ◌+◌, ◌-◌, ◌*◌, ◌/◌, ◌%◌, ◌≤◌, ◌<◌, ◌==◌, ltb, leb, Bool, true, false, ◌&&◌,
  if◌then◌else◌, update, update_ne, update_self,
}
use hal_os.Base.{
  ◌≡◌, refl, arith, sym, ◌∙◌, ap, Bool-cases, inl, inr, List, [], ◌∷◌, length, none, some,
}
use hal_os.Str.{Memory}
use hal_os.Console.{Console, putchar, putstr}
use hal_os.Console.Input.{printable}
use hal_os.Console.Input.Edited.{Spells, Spells-write}
use hal_os.Console.Format.{
  digit, put_digits, first_digits, pad_from, pad_char, swap_ends, format_number, put_from,
  put_number,
}

-- the digits of a number in front of `text`, the first one first
abbrev pub digits_onto : ℕ → ℕ → ℕ → Bool → List ℕ → List ℕ
digits_onto zero val base uppercase text = text
digits_onto (suc n) val base uppercase text = elim (val == 0) [
  | true ↦ text
  | false ↦ digits_onto n (val / base) base uppercase (digit uppercase (val % base) ∷ text)
]

abbrev pub numeral : ℕ → ℕ → Bool → List ℕ
numeral val base uppercase = if val == 0 then 48 ∷ [] else digits_onto 32 val base uppercase []

abbrev pub padded : ℕ → ℕ → List ℕ → List ℕ
padded zero pad text = text
padded (suc n) pad text = padded n pad (pad ∷ text)

-- the text of a number, with a width
abbrev pub number_text : ℕ → ℕ → Bool → ℕ → Bool → List ℕ
number_text val base uppercase width pad_zero =
    let digits = numeral val base uppercase in
    padded (width - length digits) (pad_char pad_zero) digits

-- a base such as 10 and 16
pub record IsBase (base : ℕ) : Type 0 where
  pub small : (val : ℕ) → val % base < 16
  pub shrinks : (val : ℕ) → val / base ≤ val / 2
  pub whole : (val : ℕ) → val / base * base + val % base ≡ val

pub ten-IsBase : IsBase 10
ten-IsBase = record {
  small = λ v. omega arith;
  shrinks = λ v. omega arith;
  whole = λ v. omega arith;
}

pub sixteen-IsBase : IsBase 16
sixteen-IsBase = record {
  small = λ v. omega arith;
  shrinks = λ v. omega arith;
  whole = λ v. omega arith;
}

digit-printable : (uppercase : Bool) (d : ℕ) → d < 16 → printable (digit uppercase d) ≡ true
digit-printable uppercase d h = ground arith

pad_char-printable : (pad_zero : Bool) → printable (pad_char pad_zero) ≡ true
pad_char-printable true = refl
pad_char-printable false = refl

-- a buffer with a text of which the last character is written first
abbrev Written : List ℕ → ℕ × Memory → Type 0
Written text r = (r.0 ≡ length text) × Spells r.1 text

module _ (base : ℕ) (b : IsBase base) (uppercase : Bool) where
  put_digits-Written :
      (n val i : ℕ) (text : List ℕ) (buf : Memory)
      → Written text (i, buf)
      → Written (digits_onto n val base uppercase text) (put_digits n val base uppercase i buf)
  unfolding put_digits Spells
  put_digits-Written zero val i text buf w = w
  put_digits-Written (suc n) val i text buf w = elim (Bool-cases (val == 0)) [
    | inl done ↦ rw (put_digits, digits_onto, done) w
    | inr more ↦
        rw (put_digits, digits_onto, more)
          (put_digits-Written n (val / base) (i + 1) (digit uppercase (val % base) ∷ text)
            (update buf i (digit uppercase (val % base)))
            (
              omega (arith, w.0),
              Spells-write text buf i (digit uppercase (val % base)) w.0
                  (digit-printable uppercase (val % base) (b.small val)) w.1,
            ))
  ]

  first_digits-Written :
      (val : ℕ) (buf : Memory)
      → Written (numeral val base uppercase) (first_digits val base uppercase buf)
  unfolding first_digits Spells
  first_digits-Written val buf = elim (Bool-cases (val == 0)) [
    | inl none_such ↦ rw none_such (refl, Spells-write [] buf 0 48 refl refl _)
    | inr some_digits ↦ rw some_digits (put_digits-Written 32 val 0 [] buf (refl, _))
  ]

pad_from-Written :
    (n i : ℕ) (pad : ℕ) (text : List ℕ) (buf : Memory)
    → printable pad ≡ true
    → i ≡ length text
    → Spells buf text
    → (length (padded n pad text) ≡ i + n) × Spells (pad_from n i pad buf) (padded n pad text)
unfolding pad_from Spells
pad_from-Written zero i pad text buf p e w = (omega (arith, e), w)
pad_from-Written (suc n) i pad text buf p e w =
    let (len, s) =
      pad_from-Written n (i + 1) pad (pad ∷ text) (update buf i pad) p (omega (arith, e))
        (Spells-write text buf i pad e p w) in
    (omega (arith, len), s)

-- What is between the ends that are swapped, is turned round.
swap_ends-turned :
    (n j i : ℕ) (buf : Memory) (k : ℕ)
    → n + j ≡ i / 2
    → swap_ends n j i buf k ≡ (if leb j k && ltb k (i - j) then buf (i - 1 - k) else buf k)
unfolding swap_ends update
swap_ends-turned zero j i buf k h = elim (Bool-cases (leb j k && ltb k (i - j))) [
  | inl middle ↦ rw middle (ap buf (ground (arith, middle)))
  | inr other ↦ rw other refl
]
swap_ends-turned (suc n) j i buf k h = swap_ends-turned n (j + 1) i _ k (omega arith) ∙ ground arith

put_from-turned :
    (text : List ℕ) (n s : ℕ) (buf turned : Memory) (c : Console)
    → Spells buf text
    → ((k : ℕ) → k < length text → turned (s + k) ≡ buf (length text - 1 - k))
    → turned (s + length text) ≡ 0
    → length text < n
    → put_from n s turned c ≡ putstr text c
unfolding put_from putstr Spells
put_from-turned text zero s buf turned c w t e h = absurd (omega arith)
put_from-turned [] (suc n) s buf turned c w t e h =
    let here : turned s ≡ turned (s + 0) = ap turned (omega arith) in
    let end : (turned s == 0) ≡ true = ground (arith, here, e) in rw (put_from, end) refl
put_from-turned (ch ∷ text) (suc n) s buf turned c w t e h =
    let first : turned s ≡ ch =
      ap turned (omega arith) ∙ t 0 (omega arith) ∙ ap buf (omega arith) ∙ w.0 in
    let more : (turned s == 0) ≡ false = ground (arith, first, w.1) in
    rw (put_from, more, first)
      (put_from-turned text n (s + 1) buf turned (putchar ch c) w.2
        (λ k lt. ap turned (omega arith) ∙ t (suc k) (omega arith) ∙ ap buf (omega arith))
        (ap turned (omega arith) ∙ e) (omega arith))

turned-put_from :
    (text : List ℕ) (i : ℕ) (buf : Memory) (c : Console)
    → i ≡ length text
    → Spells buf text
    → i < 32
    → put_from 32 0 (update (swap_ends (i / 2) 0 i buf) i 0) c ≡ putstr text c
turned-put_from text i buf c e w h =
    put_from-turned text 32 0 buf (update (swap_ends (i / 2) 0 i buf) i 0) c w
      (λ k lt.
        let across : buf (i - 1 - k) ≡ buf (length text - 1 - k) = ap buf (omega (arith, e)) in
        ap (update (swap_ends (i / 2) 0 i buf) i 0) (omega arith)
        ∙ update_ne (swap_ends (i / 2) 0 i buf) i k 0 (omega (arith, e))
        ∙ swap_ends-turned (i / 2) 0 i buf k (omega arith)
        ∙ ground (arith, across, e))
      (ap (update (swap_ends (i / 2) 0 i buf) i 0) (omega (arith, e))
        ∙ update_self (swap_ends (i / 2) 0 i buf) i 0)
      (omega (arith, e))

padded-put_from :
    (text : List ℕ) (n i pad : ℕ) (buf : Memory) (c : Console)
    → i ≡ length text
    → Spells buf text
    → printable pad ≡ true
    → (if ltb (i + n) 32
        then some (
            put_from 32 0
              (update (swap_ends ((i + n) / 2) 0 (i + n) (pad_from n i pad buf)) (i + n) 0)
              c)
        else none)
      ≡ (if ltb (length (padded n pad text)) 32 then some (putstr (padded n pad text) c) else none)
padded-put_from text n i pad buf c e w p =
    let (len, s) = pad_from-Written n i pad text buf p e w in
    elim (Bool-cases (ltb (i + n) 32)) [
      | inr long ↦ rw (len, long) refl
      | inl short ↦
          rw (len, short)
            (ap some (
              turned-put_from (padded n pad text) (i + n) (pad_from n i pad buf) c (sym len) s
                (ground (arith, short))))
    ]

module _ (base : ℕ) (b : IsBase base) (uppercase pad_zero : Bool) (width val : ℕ) where
  -- What `console_vprintf` prints of a number, its base being 10 or 16, is the text of the number,
  -- if that has fewer than 32 characters; if it has more, the code writes past its buffer.
  pub put_number-number_text :
      (c : Console)
      → put_number val base uppercase width pad_zero c ≡ (
          if ltb (length (number_text val base uppercase width pad_zero)) 32
          then some (putstr (number_text val base uppercase width pad_zero) c)
          else none)
  unfolding put_number format_number
  put_number-number_text c =
      let (e, w) = first_digits-Written base b uppercase val (λ i. 0) in
      let r = first_digits val base uppercase (λ i. 0) in
      rw⁻¹ e (
        padded-put_from (numeral val base uppercase) (width - r.0) r.0 (pad_char pad_zero) r.1 c e w
          (pad_char-printable pad_zero))
