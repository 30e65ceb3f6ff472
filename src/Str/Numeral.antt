-- ===== src/Str/Numeral.antt =====
-- `itoa` and `atoi` of src/libs/string.c. An `int` is a word in two's complement, and memory starts
-- at the text.
pub mod Digits
pub mod RoundTrip
use hal_os.Base.{
  ℕ, zero, suc, ◌+◌, ◌-◌, ◌*◌, ◌/◌, ◌%◌, ◌^◌, ◌==◌, ltb, leb, Bool, true, false, ◌&&◌, ◌||◌,
  if◌then◌else◌,
}
use hal_os.Base.{u32, sub32, update, Option, none, some}
use hal_os.Str.{Memory}

abbrev pub is_negative : ℕ → Bool
is_negative d = leb (2 ^ 31) d

abbrev pub remainder_char : ℕ → ℕ
remainder_char r = if ltb r 10 then r + 48 else r + 97 - 10

-- The loop `do … while (ud /= divisor)`, with the next index; 32 rounds are enough for a word.
unfoldable pub put_remainders : ℕ → ℕ → ℕ → ℕ → Memory → ℕ × Memory
put_remainders zero ud divisor i buf = (i, buf)
put_remainders (suc n) ud divisor i buf =
    let next = update buf i (remainder_char (ud % divisor)) in
    elim (ud / divisor == 0) [
      | true ↦ (i + 1, next)
      | false ↦ put_remainders n (ud / divisor) divisor (i + 1) next
    ]

-- `n` rounds of the loop that swaps `*p1` and `*p2`
unfoldable pub swap_pointers : ℕ → ℕ → ℕ → Memory → Memory
swap_pointers zero p1 p2 buf = buf
swap_pointers (suc n) p1 p2 buf =
    swap_pointers n (p1 + 1) (p2 - 1) (update (update buf p1 (buf p2)) p2 (buf p1))

-- behind the sign; the pointers meet after half of the digits
unfoldable pub put_unsigned : ℕ → ℕ → Memory → Memory
put_unsigned ud divisor buf =
    let (i, digits) = put_remainders 32 ud divisor 0 buf in
    swap_pointers (i / 2) 0 (i - 1) (update digits i 0)

-- a sign, and what is behind it
unfoldable pub signed : ℕ → Memory → Memory
signed sign rest zero = sign
signed sign rest (suc i) = rest i

unfoldable pub itoa : ℕ → ℕ → Memory → Memory
itoa base d buf =
    if base == b'd' && is_negative d
    then signed b'-' (put_unsigned (sub32 0 d) 10 (λ i. buf (suc i)))
    else put_unsigned d (if base == b'x' then 16 else 10) buf

-- the loop over the digits, with the value in front of them
unfoldable pub digits_from : ℕ → ℕ → ℕ → Memory → Option ℕ
digits_from zero i result str = none
digits_from (suc fuel) i result str = elim (leb 48 (str i) && leb (str i) 57) [
  | true ↦ digits_from fuel (i + 1) (u32 (result * 10 + (str i - 48))) str
  | false ↦ some result
]

-- the index of the first character that is no space
unfoldable pub skip_spaces : ℕ → ℕ → Memory → Option ℕ
skip_spaces zero i str = none
skip_spaces (suc fuel) i str = elim (str i == 32 || str i == 9 || str i == 10) [
  | true ↦ skip_spaces fuel (i + 1) str
  | false ↦ some i
]

unfoldable pub atoi_from : ℕ → ℕ → Memory → Option ℕ
atoi_from fuel i str =
    if str i == b'-'
    then elim (digits_from fuel (i + 1) 0 str) [ none ↦ none | some n ↦ some (sub32 0 n) ]
    else digits_from fuel (if str i == b'+' then i + 1 else i) 0 str

-- `none` where the fuel runs out, a unit for each character
unfoldable pub atoi : ℕ → Memory → Option ℕ
atoi fuel str = elim (skip_spaces fuel 0 str) [ none ↦ none | some i ↦ atoi_from fuel i str ]
