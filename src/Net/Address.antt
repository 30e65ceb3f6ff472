-- ===== src/Net/Address.antt =====
-- `inet_addr` of src/drivers/net/ipv4.c, over the bytes of the text before its final 0. `value`
-- is an `int` of 32 bits, kept as its bit pattern.
use hal_os.Base.{ℕ, ◌+◌, ◌-◌, ◌*◌, ◌/◌, ◌%◌, ◌^◌, ◌<◌, ◌==◌, ltb, leb, Bool, true, false, not}
use hal_os.Base.{◌&&◌, ◌||◌, if◌then◌else◌, u32, bit_or, bit_or-add, ◌≡◌, ◌∙◌, refl, arith}
use hal_os.Base.{List, [], ◌∷◌, ◌++◌, Bool-cases, inl, inr, ap}

-- `INADDR_NONE`
abbrev pub inaddr_none : ℕ
inaddr_none = 0xFFFFFFFF

-- `value > 255` on an `int`
abbrev pub over_byte : ℕ → Bool
over_byte value = ltb 255 value && ltb value (2 ^ 31)

-- `(result << 8) | value`
abbrev pub append_part : ℕ → ℕ → ℕ
append_part result value = bit_or (u32 (result * 2 ^ 8)) value

unfoldable pub parse : List ℕ → ℕ → ℕ → ℕ → ℕ
parse [] result value part =
    if over_byte value || not (part == 3) then inaddr_none else append_part result value
parse (c ∷ rest) result value part = elim (c == b'.') [
  | true ↦ elim (over_byte value || ltb 3 (part + 1)) [
    | true ↦ inaddr_none
    | false ↦ parse rest (append_part result value) 0 (part + 1)
  ]
  | false ↦ elim (leb b'0' c && leb c b'9') [
    | true ↦ parse rest result (u32 (value * 10 + (c - b'0'))) part
    | false ↦ inaddr_none
  ]
]

unfoldable pub inet_addr : List ℕ → ℕ
inet_addr text = parse text 0 0 0

-- the decimal text of a number below 1000, with no leading zero
abbrev pub decimal : ℕ → List ℕ
decimal n =
    if ltb n 10
    then (48 + n) ∷ []
    else if ltb n 100
    then (48 + n / 10) ∷ (48 + n % 10) ∷ []
    else (48 + n / 100) ∷ (48 + n / 10 % 10) ∷ (48 + n % 10) ∷ []

abbrev pub dotted : ℕ → ℕ → ℕ → ℕ → List ℕ
dotted a b c d = decimal a ++ b'.' ∷ (decimal b ++ b'.' ∷ (decimal c ++ b'.' ∷ (decimal d ++ [])))

parse-digit :
    (d : ℕ) (rest : List ℕ) (result value part : ℕ)
    → d < 10
    → value < 100
    → parse ((48 + d) ∷ rest) result value part ≡ parse rest result (value * 10 + d) part
unfolding parse
parse-digit d rest result value part h k =
    let dot : (48 + d == b'.') ≡ false = ground arith in
    let digit : (leb b'0' (48 + d) && leb (48 + d) b'9') ≡ true = ground arith in
    let v : u32 (value * 10 + (48 + d - 48)) ≡ value * 10 + d = omega arith in
    rw (dot, digit, v, parse) refl

parse-decimal :
    (n : ℕ) (rest : List ℕ) (result part : ℕ)
    → n < 256
    → parse (decimal n ++ rest) result 0 part ≡ parse rest result n part
parse-decimal n rest result part h = elim (Bool-cases (ltb n 10)) [
  | inl one ↦
      rw one (parse-digit n rest result 0 part (ground arith) (omega arith) ∙ to (omega arith))
  | inr more ↦ elim (Bool-cases (ltb n 100)) [
    | inl two ↦
        rw (more, two)
          (parse-digit (n / 10) _ result 0 part (ground arith) (omega arith)
            ∙ parse-digit (n % 10) rest result (0 * 10 + n / 10) part (omega arith) (ground arith)
            ∙ to (omega arith))
    | inr three ↦
        rw (more, three)
          (parse-digit (n / 100) _ result 0 part (omega arith) (omega arith)
            ∙ parse-digit (n / 10 % 10) _ result (0 * 10 + n / 100) part (omega arith) (omega arith)
            ∙ parse-digit (n % 10) rest result ((0 * 10 + n / 100) * 10 + n / 10 % 10) part
                (omega arith) (omega arith)
            ∙ to (omega arith))
  ]
]
  where
    to : {v : ℕ} → v ≡ n → parse rest result v part ≡ parse rest result n part
    to e = ap (λ v. parse rest result v part) e

append_part-byte :
    (result value : ℕ)
    → value < 256
    → result < 2 ^ 24
    → append_part result value ≡ result * 2 ^ 8 + value
append_part-byte result value h k =
    let fits : u32 (result * 2 ^ 8) ≡ result * 2 ^ 8 = omega arith in
    rw fits (bit_or-add 8 result value h)

parse-dot :
    (rest : List ℕ) (result value part : ℕ)
    → value < 256
    → part < 3
    → result < 2 ^ 24
    → parse (b'.' ∷ rest) result value part ≡ parse rest (result * 2 ^ 8 + value) 0 (part + 1)
unfolding parse
parse-dot rest result value part h k small =
    let fine : (over_byte value || ltb 3 (part + 1)) ≡ false = ground arith in
    rw (fine, append_part-byte result value h small, parse) refl

parse-end :
    (result value : ℕ)
    → value < 256
    → result < 2 ^ 24
    → parse [] result value 3 ≡ result * 2 ^ 8 + value
unfolding parse
parse-end result value h small =
    let fine : (over_byte value || not (◌==◌ 3 3)) ≡ false = ground arith in
    rw (fine, append_part-byte result value h small) refl

-- `inet_addr` reads every dotted address back: the four numbers are the bytes of the result, the
-- first one on top.
pub inet_addr-dotted :
    (a b c d : ℕ)
    → a < 256
    → b < 256
    → c < 256
    → d < 256
    → inet_addr (dotted a b c d) ≡ a * 2 ^ 24 + b * 2 ^ 16 + c * 2 ^ 8 + d
unfolding inet_addr
inet_addr-dotted a b c d ha hb hc hd =
    parse-decimal a _ 0 0 ha
    ∙ parse-dot _ 0 a 0 ha (omega arith) (omega arith)
    ∙ parse-decimal b _ _ _ hb
    ∙ parse-dot _ _ b _ hb (omega arith) (omega arith)
    ∙ parse-decimal c _ _ _ hc
    ∙ parse-dot _ _ c _ hc (omega arith) (omega arith)
    ∙ parse-decimal d _ _ _ hd
    ∙ parse-end _ d hd (omega arith)
    ∙ omega arith
